-- ===== src/Identity/Lower.antt =====
-- What `NewUUID` makes is in lower case, as a `uuid` column shows it.

use Prim.Native.String.{String, [], ◌∷◌}
use mathlib.Core.List.{List}
use gpu_rental_platform.Common.{
  ℕ, zero, suc, ◌/◌, ◌%◌, ◌≡◌, refl, arith, ok, Option-cases, inl, inr,
}
use gpu_rental_platform.Common.Text.{to_lower, lower_char}
use gpu_rental_platform.Identity.{
  Bytes, Entropy, nth_char, hex_digit, hex_encode, uuid_of, new_uuid,
}

abbrev IsLower : String → Type 0
IsLower [] = Unit
IsLower (c ∷ s) = (lower_char c ≡ c) × IsLower s

nth_char-lower : (s : String) (n : ℕ) → IsLower s → lower_char (nth_char s n) ≡ nth_char s n
unfolding nth_char lower_char
nth_char-lower [] n h = refl
nth_char-lower (c ∷ s) zero h = h.0
nth_char-lower (c ∷ s) (suc n) h = nth_char-lower s n h.1

hex_digit-lower : (n : ℕ) → lower_char (hex_digit n) ≡ hex_digit n
unfolding hex_digit lower_char
hex_digit-lower n = nth_char-lower "0123456789abcdef" n (ground arith)

to_lower-hex_encode :
    (bs : Bytes) (rest : String) → to_lower (hex_encode bs rest) ≡ hex_encode bs (to_lower rest)
unfolding hex_encode to_lower
to_lower-hex_encode List.[] rest = refl
to_lower-hex_encode (List.◌∷◌ b bs) rest =
    rw (hex_digit-lower (b / 16), hex_digit-lower (b % 16), to_lower-hex_encode bs rest)

to_lower-dash : (s : String) → to_lower ("-" ∷ s) ≡ "-" ∷ to_lower s
unfolding to_lower
to_lower-dash s = refl

to_lower-nil : to_lower [] ≡ []
unfolding to_lower
to_lower-nil = refl

to_lower-uuid_of : (value : Bytes) → to_lower (uuid_of value) ≡ uuid_of value
unfolding uuid_of
to_lower-uuid_of value = simp (to_lower-hex_encode, to_lower-dash, to_lower-nil)

pub to_lower-new_uuid :
    (entropy : Entropy) (k : ℕ) (s : String) → new_uuid entropy k ≡ ok s → to_lower s ≡ s
unfolding new_uuid
to_lower-new_uuid entropy k s h = elim (Option-cases (entropy k)) [
  | inl e ↦ absurd (ground arith)
  | inr (value, e) ↦
      let same : uuid_of value ≡ s = ground arith in rw (← same) (to_lower-uuid_of value)
]
