-- ===== src/Common/Json.antt =====
-- JSON values, as the manifests are built from Go maps and slices. The fields of an object stand in the
-- order of the source. `itoa` is `strconv.Itoa` of a number that is not negative.
use Prim.Native.Nat.{ℕ, zero, suc, ◌+◌, ◌/◌, ◌%◌}
use Prim.Native.String
use Prim.Native.String.{String}
use mathlib.Core.List.{List, [], ◌∷◌}
use gpu_rental_platform.Common.Tests.{ltb, if◌then◌else◌, str_eq}

mutual
  pub data Json : Type 0 where
    text : String → Json
    number : ℕ → Json
    list : Items → Json
    object : Fields → Json
    nothing : Json

  pub data Items : Type 0 where
    no_items : Items
    item : Json → Items → Items

  pub data Fields : Type 0 where
    no_fields : Fields
    field : String → Json → Fields → Fields

abbrev pub items : List Json → Items
items [] = no_items
items (j ∷ js) = item j (items js)

abbrev pub fields : List (String × Json) → Fields
fields [] = no_fields
fields ((k, j) ∷ rest) = field k j (fields rest)

-- `[]any{…}` and `map[string]any{…}`
abbrev pub array : List Json → Json
array js = list (items js)

abbrev pub obj : List (String × Json) → Json
obj fs = object (fields fs)

abbrev pub lookup : String → Fields → Json
lookup k no_fields = nothing
lookup k (field j value rest) = if str_eq j k then value else lookup k rest

-- `value[key]` of an object, and `nothing` of any other value
abbrev pub at_key : String → Json → Json
at_key k (object fs) = lookup k fs
at_key k _ = nothing

digits : ℕ → ℕ → String → String
digits zero n rest = rest
digits (suc fuel) n rest =
    let shown = String.◌++◌ (String.slice "0123456789" (n % 10) (n % 10 + 1)) rest in
    let more = digits fuel (n / 10) shown in if ltb n 10 then shown else more

unfoldable pub itoa : ℕ → String
unfolding digits
itoa n = digits (suc n) n ""
