-- ===== src/Identity.antt =====
-- internal/identity/uuid.go. `rand.Read` is the argument `value`, the sixteen bytes it fills in.
pub mod Laws
pub mod Lower
mod Tests
use Prim.Native.Nat.{bit_and, bit_or}
use Prim.Native.Char.{Char, code, len_utf8}
use Prim.Native.String
use Prim.Native.String.{String, [], ◌∷◌}
use mathlib.Core.List
use mathlib.Core.List.{List}
use gpu_rental_platform.Common.{
  ℕ, zero, suc, ◌+◌, ◌-◌, ◌/◌, ◌%◌, Bool, true, false, not, ◌&&◌, ◌||◌, Option, none, some, ltb,
  leb, ◌==◌, if◌then◌else◌, Outcome, ok, err, failure,
}
use gpu_rental_platform.Common.Text.{len}

-- The bytes of a `[16]byte`.
abbrev pub Bytes : Type 0
Bytes = List ℕ

-- Every call of `rand.Read` of a request, in order: `none` is an error of the generator.
abbrev pub Entropy : Type 0
Entropy = ℕ → Option Bytes

-- `"0123456789abcdef"[n]`, for a digit n below 16
nth_char : String → ℕ → Char
nth_char [] n = "0"
nth_char (c ∷ s) zero = c
nth_char (c ∷ s) (suc n) = nth_char s n

hex_digit : ℕ → Char
unfolding nth_char
hex_digit n = nth_char "0123456789abcdef" n

-- `hex.Encode`, written in front of what stands behind it in the array.
hex_encode : Bytes → String → String
unfolding hex_digit
hex_encode List.[] rest = rest
hex_encode (List.◌∷◌ b bs) rest = hex_digit (b / 16) ∷ hex_digit (b % 16) ∷ hex_encode bs rest

-- `value[i] = f(value[i])`
abbrev modify : Bytes → ℕ → (ℕ → ℕ) → Bytes
modify List.[] i f = List.[]
modify (List.◌∷◌ b bs) zero f = List.◌∷◌ (f b) bs
modify (List.◌∷◌ b bs) (suc i) f = List.◌∷◌ b (modify bs i f)

-- `value[from:from+n]`
abbrev slice : Bytes → ℕ → ℕ → Bytes
slice List.[] from n = List.[]
slice (List.◌∷◌ b bs) (suc from) n = slice bs from n
slice (List.◌∷◌ b bs) zero zero = List.[]
slice (List.◌∷◌ b bs) zero (suc n) = List.◌∷◌ b (slice bs zero n)

-- The text that `NewUUID` makes of the bytes.
unfoldable pub uuid_of : Bytes → String
unfolding hex_encode
uuid_of value =
    let v =
      modify (modify value 6 (λ b. bit_or (bit_and b 0x0f) 0x40)) 8
        (λ b. bit_or (bit_and b 0x3f) 0x80) in
    hex_encode (slice v 0 4) (
      "-"
      ∷ hex_encode (slice v 4 2) (
          "-"
          ∷ hex_encode (slice v 6 2)
              ("-" ∷ hex_encode (slice v 8 2) ("-" ∷ hex_encode (slice v 10 6) []))))

-- The k-th call of `NewUUID` of a request.
unfoldable pub new_uuid : Entropy → ℕ → Outcome String
unfolding uuid_of
new_uuid entropy k = elim (entropy k) [
  | none ↦ err (failure "read random bytes")
  | some value ↦ ok (uuid_of value)
]

-- `value[i]`: the byte at an offset, where a byte within a wider character is shown as 0x80. Past
-- the end Go panics; the test of the length keeps the code off it.
pub byte_at : String → ℕ → ℕ
byte_at [] i = 0
byte_at (c ∷ s) i =
    let later = byte_at s (i - len_utf8 c) in
    if i == 0 then code c else if ltb i (len_utf8 c) then 0x80 else later

is_hex : ℕ → Bool
is_hex c = (leb b'0' c && leb c b'9') || (leb b'a' c && leb c b'f') || (leb b'A' c && leb c b'F')

is_separator : ℕ → Bool
is_separator i = i == 8 || i == 13 || i == 18 || i == 23

-- The loop of `IsUUID`, from the byte offset `i` on.
all_hex : ℕ → String → Bool
unfolding is_hex is_separator
all_hex i [] = true
all_hex i (c ∷ s) =
    let rest = all_hex (i + len_utf8 c) s in
    if is_separator i then rest else if is_hex (code c) then rest else false

unfoldable pub is_uuid : String → Bool
unfolding byte_at all_hex
is_uuid value =
    if not (len value == 36)
      || not (byte_at value 8 == b'-')
      || not (byte_at value 13 == b'-')
      || not (byte_at value 18 == b'-')
      || not (byte_at value 23 == b'-')
    then false
    else all_hex 0 value
