-- ===== src/Common/Text.antt =====
-- Go strings. A string is a text of Unicode scalars; `len` counts the bytes of its UTF-8 encoding,
-- as in Go, and `rune_count` is `len([]rune(s))`. Strings that are not valid UTF-8 are left out.
use Prim.Native.Nat.{ℕ, zero, suc}
use Prim.Native.Char.{Char, code}
use Prim.Native.String
use Prim.Native.String.{String, [], ◌∷◌}
pub use Prim.Native.String.{len, count as rune_count}
use mathlib.Core.Bool.{Bool, true, false, ◌&&◌, ◌||◌}
use mathlib.Core.List.{List}
use gpu_rental_platform.Common.Tests.{leb, ◌==◌, if◌then◌else◌, str_eq}

-- The code points of a string: `[]rune(s)`.
abbrev pub codes : String → List ℕ
codes [] = List.[]
codes (c ∷ s) = List.◌∷◌ (code c) (codes s)

-- `unicode.IsSpace`
unfoldable pub is_space : ℕ → Bool
is_space c =
    (leb 9 c && leb c 13)
    || c == 0x20
    || c == 0x85
    || c == 0xa0
    || c == 0x1680
    || (leb 0x2000 c && leb c 0x200a)
    || c == 0x2028
    || c == 0x2029
    || c == 0x202f
    || c == 0x205f
    || c == 0x3000

trim_left : String → String
unfolding is_space
trim_left [] = []
trim_left (c ∷ s) = let rest = trim_left s in if is_space (code c) then rest else c ∷ s

is_empty : String → Bool
is_empty [] = true
is_empty (_ ∷ _) = false

trim_right : String → String
unfolding is_space is_empty
trim_right [] = []
trim_right (c ∷ s) =
    let rest = trim_right s in if is_empty rest && is_space (code c) then [] else c ∷ rest

-- `strings.TrimSpace`
unfoldable pub trim_space : String → String
unfolding trim_left trim_right
trim_space s = trim_right (trim_left s)

-- `strings.TrimSpace(s) == ""`
unfoldable pub is_blank : String → Bool
unfolding trim_space
is_blank s = str_eq (trim_space s) ""

-- The character of `to` that stands where `from` has `c`; any other `c` is kept.
replace_in : String → String → Char → Char
replace_in (a ∷ from) (b ∷ to) c = if code a == code c then b else replace_in from to c
replace_in _ _ c = c

abbrev lower_letters : String
lower_letters = "abcdefghijklmnopqrstuvwxyz"

abbrev upper_letters : String
upper_letters = "ABCDEFGHIJKLMNOPQRSTUVWXYZ"

-- The letters with an upper case that ToUpper changes: ASCII, Latin-1, and the two others whose upper
-- case is a letter of ASCII.
abbrev cased_letters : String
cased_letters = "abcdefghijklmnopqrstuvwxyzıſàáâãäåæçèéêëìíîïðñòóôõöøùúûüýþÿµ"

abbrev upper_cases : String
upper_cases = "ABCDEFGHIJKLMNOPQRSTUVWXYZISÀÁÂÃÄÅÆÇÈÉÊËÌÍÎÏÐÑÒÓÔÕÖØÙÚÛÜÝÞŸΜ"

-- `strings.ToUpper`, on ASCII, on Latin-1 and wherever the result is in ASCII; letters of other scripts
-- are kept.
unfoldable pub to_upper : String → String
unfolding replace_in
to_upper [] = []
to_upper (c ∷ s) = replace_in cased_letters upper_cases c ∷ to_upper s

unfoldable pub lower_char : Char → Char
unfolding replace_in
lower_char c = replace_in upper_letters lower_letters c

-- The text of a `uuid` column for the text of a parameter: PostgreSQL writes it in lower case.
unfoldable pub to_lower : String → String
unfolding lower_char
to_lower [] = []
to_lower (c ∷ s) = lower_char c ∷ to_lower s

-- The first n characters of a text that are no hyphens.
unfoldable pub plain_prefix : ℕ → String → String
plain_prefix n [] = []
plain_prefix zero (c ∷ s) = []
plain_prefix (suc n) (c ∷ s) = if code c == 45 then plain_prefix (suc n) s else c ∷ plain_prefix n s

-- `fmt.Sprint` of a name, a separator and a name: concatenation.
infixr 65 ◌+++◌
abbrev pub ◌+++◌ : String → String → String
s +++ t = String.◌++◌ s t
