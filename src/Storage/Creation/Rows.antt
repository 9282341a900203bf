-- ===== src/Storage/Creation/Rows.antt =====
-- Tables to which a row is added.
use gpu_rental_platform.Common.{
  ◌≡◌, ◌≢◌, String, Bool, true, false, List, [], ◌∷◌, ◌++◌, any, All, arith,
}

module _ {A : Type 0} where
  -- No row has the key `k` when none meets a test that every row with the key meets.
  pub fresh_key :
      (key : A → String) (k : String) (q : A → Bool) (xs : List A)
      → ((x : A) → key x ≡ k → q x ≡ true)
      → any q xs ≡ false
      → All (λ x. key x ≢ k) xs
  fresh_key key k q [] meets h = tt
  fresh_key key k q (x ∷ xs) meets h = ground (arith, meets x, fresh_key key k q xs meets)

  pub any-append_left : (p : A → Bool) (xs ys : List A) → any p xs ≡ true → any p (xs ++ ys) ≡ true
  any-append_left p [] ys h = cc
  any-append_left p (x ∷ xs) ys h = ground (arith, any-append_left p xs ys)

  pub All-weaken : (P Q : A → Type 0) (xs : List A) → ((x : A) → P x → Q x) → All P xs → All Q xs
  All-weaken P Q [] f h = tt
  All-weaken P Q (x ∷ xs) f h = (f x h.0, All-weaken P Q xs f h.1)
