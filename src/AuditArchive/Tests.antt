-- ===== src/AuditArchive/Tests.antt =====
-- A month archived twice in a store that keeps what it is given.
use gpu_rental_platform.Common.{
  ◌+◌, ◌≡◌, refl, ℕ, String, Option, none, some, List, [], ◌∷◌, find, str_eq, Outcome, ok, err,
  failure,
}
use gpu_rental_platform.Common.Int.{pos}
use gpu_rental_platform.Common.Json.{itoa}
use gpu_rental_platform.Common.Text.{to_lower, is_blank, ◌+++◌}
use gpu_rental_platform.AuditArchive.{
  ObjectInfo, StatResult, found, missing, Store, Library, Config, ArchiveResult, metadata_value,
  verify_value, verify_metadata, verify_object, check_config, result_of, verified, after_put,
  after_stat, after_export, after_check, archive,
}
use gpu_rental_platform.AuditArchive.Laws.{IsArchived, archive_stands, archive_again}

code : Unit {0}
unfolding to_lower is_blank metadata_value verify_value verify_metadata verify_object check_config
    verified after_put after_stat after_export after_check archive itoa
code = tt

abbrev Objects : Type 0
Objects = List (String × ObjectInfo)

abbrev answer : Option (String × ObjectInfo) → StatResult
answer none = missing
answer (some (key, info)) = found info

abbrev store : Store Objects
store = record {
  stat = λ bucket key s. answer (find (λ o. str_eq o.0 key) s);
  put = λ bucket key text size options s.
      (ok tt, (key, record { size = size; metadata = options.metadata }) ∷ s);
}

-- A store that keeps nothing
abbrev careless : Store Objects
careless = record {
  stat = λ bucket key s. answer (find (λ o. str_eq o.0 key) s);
  put = λ bucket key text size options s. (ok tt, s);
}

abbrev first_text : List String → String
first_text [] = ""
first_text (t ∷ ts) = t +++ ("/" +++ first_text ts)

abbrev library : Library
library = record {
  day = λ t. 1;
  add_months = λ t n. t + n;
  add_days = λ t n. t + n;
  year_text = λ t. "2026";
  month_text = λ t. "03";
  year_month = λ t. "2026-03";
  rfc3339 = λ t. "2026-03-01T00:00:00Z";
  join = first_text;
  trim_slashes = λ s. s;
  sum_hex = λ s. "00ff";
}

abbrev config : Config
config = record {
  bucket = "audit";
  prefix = "archive";
  month_start = 7;
  retention_mode = "COMPLIANCE";
  retention_days = pos 30;
}

abbrev source : ℕ → ℕ → Outcome (String × ℕ)
source start end = ok ("{}", 1)

abbrev result : ArchiveResult
result = result_of library config 100 "uploaded" "{}" 1

abbrev kept : Objects
kept = (archive library store config source 100 []).1

uploaded : archive library store config source 100 [] ≡ (ok result, kept)
unfolding code
uploaded = refl

not_kept :
    archive library careless config source 100 []
    ≡ (err (failure "verify uploaded audit archive object"), [])
unfolding code
not_kept = refl

no_retention :
    archive library store (record config { retention_days = pos 0 }) source 100 []
    ≡ (err (failure "audit archive retention days must be greater than zero"), [])
unfolding code
no_retention = refl

-- A client of S3 gives the keys of the metadata their prefix back.
prefixed : metadata_value (("X-Amz-Meta-Sha256", "00ff") ∷ []) "sha256" ≡ some "00ff"
unfolding code
prefixed = refl

archive_stands_example :
    (info : ObjectInfo) × (store.stat "audit" result.object_key kept ≡ found info)
    × IsArchived library result info
archive_stands_example = archive_stands library store config source 100 [] kept result uploaded

archive_again_example :
    archive library store config source 200 kept
    ≡ (ok (record result { status = "existing"; retention_until = 230 }), kept)
archive_again_example = archive_again library store config source 100 200 [] kept result uploaded
