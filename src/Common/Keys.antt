-- ===== src/Common/Keys.antt =====
-- Rows with a primary key: membership, and keys that occur once.
use Prim.Native.Nat.{ℕ, ◌+◌, ◌≤◌}
use Prim.Native.String.{String}
use mathlib.Core.Path.{◌≡◌, refl, sym, ap, ◌∙◌, subst}
use mathlib.Core.Logic.{◌⊎◌, ◌≢◌, inl, inr}
use mathlib.Core.Bool.{Bool, true}
use mathlib.Core.Option.{some}
use mathlib.Core.List.{List, [], ◌∷◌, ◌++◌}
use native.Mathlib.Omega.{arith}
use gpu_rental_platform.Common.Tests.{if◌then◌else◌, Bool-cases, str_eq}
use gpu_rental_platform.Common.Lists.{All-append, any, All, select, update, find, sum}
use text.Mathlib.TextEquality.{eq_iff}
use text.Mathlib.TextPositions.{eq_refl}

module _ {A : Type 0} where
  -- The row `a` stands in the table.
  abbrev pub Row : A → List A → Type 0
  Row a [] = ⊥
  Row a (x ∷ xs) = (x ≡ a) ⊎ Row a xs

  pub Row-All : {P : A → Type 0} (xs : List A) → ((x : A) → Row x xs → P x) → All P xs
  Row-All [] f = tt
  Row-All (x ∷ xs) f = (f x (inl refl), Row-All xs (λ y m. f y (inr m)))

  pub All-Row : (P : A → Type 0) {a : A} (xs : List A) → All P xs → Row a xs → P a
  All-Row P [] h m = absurd m
  All-Row P (x ∷ xs) h (inl e) = rw (← e) (h.0)
  All-Row P (x ∷ xs) h (inr m) = All-Row P xs h.1 m

  pub Row-select :
      (p : A → Bool) (a : A) (xs : List A) → Row a (select p xs) → Row a xs × (p a ≡ true)
  Row-select p a [] m = absurd m
  Row-select p a (x ∷ xs) m = ground (arith, Row-select p a xs)

  pub Row-any : (p : A → Bool) (xs : List A) → any p xs ≡ true → (a : A) × Row a xs × (p a ≡ true)
  Row-any p [] h = cc
  Row-any p (x ∷ xs) h = elim (Bool-cases (p x)) [
    | inl e ↦ (x, inl refl, e)
    | inr e ↦ let (a, m, t) = Row-any p xs (ground arith) in (a, inr m, t)
  ]

  pub any-Row : (p : A → Bool) (a : A) (xs : List A) → Row a xs → p a ≡ true → any p xs ≡ true
  any-Row p a [] m t = absurd m
  any-Row p a (x ∷ xs) (inl e) t = ground arith
  any-Row p a (x ∷ xs) (inr m) t = ground (arith, any-Row p a xs m)

  pub Row-find : (p : A → Bool) (a : A) (xs : List A) → find p xs ≡ some a → Row a xs × (p a ≡ true)
  Row-find p a [] h = cc
  Row-find p a (x ∷ xs) h = ground (arith, Row-find p a xs)

  -- A row of an updated table comes from a row of the old one.
  pub Row-update :
      (p : A → Bool) (f : A → A) (b : A) (xs : List A)
      → Row b (update p f xs)
      → (a : A) × Row a xs × ((if p a then f a else a) ≡ b)
  Row-update p f b [] m = absurd m
  Row-update p f b (x ∷ xs) (inl e) = (x, inl refl, e)
  Row-update p f b (x ∷ xs) (inr m) = let (a, k, e) = Row-update p f b xs m in (a, inr k, e)

  pub update-Row :
      (p : A → Bool) (f : A → A) (a : A) (xs : List A)
      → Row a xs
      → Row (if p a then f a else a) (update p f xs)
  update-Row p f a [] m = absurd m
  update-Row p f a (x ∷ xs) (inl e) = inl (ap (λ y. if p y then f y else y) e)
  update-Row p f a (x ∷ xs) (inr m) = inr (update-Row p f a xs m)

  pub append-Row : (a : A) (xs ys : List A) → Row a xs → Row a (xs ++ ys)
  append-Row a [] ys m = absurd m
  append-Row a (x ∷ xs) ys (inl e) = inl e
  append-Row a (x ∷ xs) ys (inr m) = inr (append-Row a xs ys m)

  pub Row-behind : (a : A) (xs ys : List A) → Row a ys → Row a (xs ++ ys)
  Row-behind a [] ys m = m
  Row-behind a (x ∷ xs) ys m = inr (Row-behind a xs ys m)

  pub Row-sum : (g : A → ℕ) (a : A) (xs : List A) → Row a xs → g a ≤ sum g xs
  Row-sum g a [] m = absurd m
  Row-sum g a (x ∷ xs) (inl e) = rw (← e) (omega arith)
  Row-sum g a (x ∷ xs) (inr m) = let rest = Row-sum g a xs m in omega arith

  module _ (key : A → String) where
    -- No key occurs twice.
    abbrev pub Unique : List A → Type 0
    Unique [] = Unit
    Unique (x ∷ xs) = All (λ y. key y ≢ key x) xs × Unique xs

    pub Unique-Row :
        (a b : A) (xs : List A) → Unique xs → Row a xs → Row b xs → key a ≡ key b → a ≡ b
    Unique-Row a b [] u m k e = absurd m
    Unique-Row a b (x ∷ xs) u (inl p) (inl q) e = sym p ∙ q
    Unique-Row a b (x ∷ xs) u (inl p) (inr k) e =
        absurd (All-Row (λ y. key y ≢ key x) xs u.0 k (sym e ∙ ap key (sym p)))
    Unique-Row a b (x ∷ xs) u (inr m) (inl q) e =
        absurd (All-Row (λ y. key y ≢ key x) xs u.0 m (e ∙ ap key (sym q)))
    Unique-Row a b (x ∷ xs) u (inr m) (inr k) e = Unique-Row a b xs u.1 m k e

    module _ (p : A → Bool) (f : A → A) (same : (x : A) → key (f x) ≡ key x) where
      All-key-update :
          (k : String) (xs : List A)
          → All (λ y. key y ≢ k) xs
          → All (λ y. key y ≢ k) (update p f xs)
      All-key-update k [] h = tt
      All-key-update k (x ∷ xs) h = ground (arith, same x, All-key-update k xs h.1)

      pub Unique-update : (xs : List A) → Unique xs → Unique (update p f xs)
      Unique-update [] u = tt
      Unique-update (x ∷ xs) u =
          let rest = Unique-update xs u.1 in
          let apart = All-key-update (key x) xs u.0 in
          elim (Bool-cases (p x)) [
            | inl e ↦
                rw e (subst (λ k. All (λ y. key y ≢ k) (update p f xs)) (sym (same x)) apart, rest)
            | inr e ↦ rw e (apart, rest)
          ]

    pub Unique-append :
        (xs : List A) (b : A) → Unique xs → All (λ x. key x ≢ key b) xs → Unique (xs ++ b ∷ [])
    Unique-append [] b u h = (tt, tt)
    Unique-append (x ∷ xs) b u h = (
      All-append (λ y. key y ≢ key x) xs (b ∷ []) u.0 ((λ e. h.0 (sym e)), tt),
      Unique-append xs b u.1 h.1,
    )

    pub update_absent :
        (k : String) (f : A → A) (xs : List A)
        → All (λ x. key x ≢ k) xs
        → update (λ x. str_eq (key x) k) f xs ≡ xs
    update_absent k f [] h = refl
    update_absent k f (x ∷ xs) h = ground (arith, eq_iff (key x) k, update_absent k f xs h.1)

    -- Updating the one row with a key changes a sum by what the row contributes.
    pub sum-update_key :
        (g : A → ℕ) (f : A → A) (a : A) (xs : List A)
        → Unique xs
        → Row a xs
        → sum g (update (λ x. str_eq (key x) (key a)) f xs) + g a ≡ sum g xs + g (f a)
    sum-update_key g f a [] u m = absurd m
    sum-update_key g f a (x ∷ xs) u (inl e) =
        let absent = update_absent (key a) f xs (rw e at u.0) in
        rw (e, eq_refl (key a), absent) (omega arith)
    sum-update_key g f a (x ∷ xs) u (inr m) =
        let ne = All-Row (λ y. key y ≢ key x) xs u.0 m in
        ground (arith, eq_iff (key x) (key a), sum-update_key g f a xs u.1 m)
