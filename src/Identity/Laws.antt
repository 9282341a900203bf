-- ===== src/Identity/Laws.antt =====
-- What `NewUUID` makes, `IsUUID` accepts.
use Prim.Native.Char.{Char, code, len_utf8}
use Prim.Native.String.len
use Prim.Native.String.{String, [], ◌∷◌}
use mathlib.Core.List.{List}
use gpu_rental_platform.Common.{ℕ, zero, suc, ◌≡◌, refl, true, some, ok, arith, length}
use gpu_rental_platform.Identity.{
  Bytes, Entropy, new_uuid, nth_char, hex_digit, is_hex, uuid_of, is_uuid,
}

-- A character of one byte that is a hexadecimal digit.
abbrev IsHexChar : Char → Type 0
IsHexChar c = (len_utf8 c ≡ 1) × (is_hex (code c) ≡ true)

abbrev All : (Char → Type 0) → String → Type 0
All P [] = Unit
All P (c ∷ s) = P c × All P s

nth_char-IsHexChar : (s : String) (n : ℕ) → All IsHexChar s → IsHexChar (nth_char s n)
unfolding nth_char is_hex
nth_char-IsHexChar [] n h = (refl, refl)
nth_char-IsHexChar (c ∷ s) zero h = h.0
nth_char-IsHexChar (c ∷ s) (suc n) h = nth_char-IsHexChar s n h.1

hex_digit-IsHexChar : (n : ℕ) → IsHexChar (hex_digit n)
unfolding hex_digit is_hex
hex_digit-IsHexChar n = nth_char-IsHexChar "0123456789abcdef" n (ground arith)

len_utf8-hex_digit : (n : ℕ) → len_utf8 (hex_digit n) ≡ 1
len_utf8-hex_digit n = (hex_digit-IsHexChar n).0

is_hex-hex_digit : (n : ℕ) → is_hex (code (hex_digit n)) ≡ true
is_hex-hex_digit n = (hex_digit-IsHexChar n).1

-- The bytes of `[16]byte`, one by one.
module _ (a b c d e f g h i j k l m n o p : ℕ) where
  array : Bytes
  array = List.◌∷◌ a (
      List.◌∷◌ b (
        List.◌∷◌ c (
          List.◌∷◌ d (
            List.◌∷◌ e (
              List.◌∷◌ f (
                List.◌∷◌ g (
                  List.◌∷◌ h (
                    List.◌∷◌ i (
                      List.◌∷◌ j (
                        List.◌∷◌ k (
                          List.◌∷◌ l
                            (List.◌∷◌ m (List.◌∷◌ n (List.◌∷◌ o (List.◌∷◌ p List.[])))))))))))))))

  is_uuid-uuid_of : is_uuid (uuid_of array) ≡ true
  unfolding is_uuid array uuid_of
  is_uuid-uuid_of = simp (len.cons, len.nil, len_utf8-hex_digit, is_hex-hex_digit)

is_uuid_of_length : (v : Bytes) → length v ≡ 16 → is_uuid (uuid_of v) ≡ true
unfolding array
is_uuid_of_length
      (List.◌∷◌ a (
        List.◌∷◌ b (
          List.◌∷◌ c (
            List.◌∷◌ d (
              List.◌∷◌ e (
                List.◌∷◌ f (
                  List.◌∷◌ g (
                    List.◌∷◌ h (
                      List.◌∷◌ i (
                        List.◌∷◌ j (
                          List.◌∷◌ k (
                            List.◌∷◌ l (
                              List.◌∷◌ m (List.◌∷◌ n (List.◌∷◌ o (List.◌∷◌ p List.[]))))))))))))))))
      z =
    is_uuid-uuid_of a b c d e f g h i j k l m n o p
is_uuid_of_length v z = absurd (omega arith)

-- If `rand.Read` fills in sixteen bytes, then the text that `NewUUID` returns passes `IsUUID`.
pub new_uuid-is_uuid :
    (entropy : Entropy) (k : ℕ) (value : Bytes) (s : String)
    → entropy k ≡ some value
    → length value ≡ 16
    → new_uuid entropy k ≡ ok s
    → is_uuid s ≡ true
unfolding new_uuid
new_uuid-is_uuid entropy k value s drawn size made =
    let e : uuid_of value ≡ s = ground arith in rw (← e) (is_uuid_of_length value size)
