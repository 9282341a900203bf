-- ===== src/AuditArchive.antt =====
-- `Archive` of internal/auditarchive/archive.go: the audit rows of a month as one object in a store that
-- keeps objects for a time. The store, the export of the rows and the functions of Go on times, paths
-- and hashes are parameters. The temporary file is the text that it holds; a map is the list of its
-- pairs in the order in which a loop reads them. Times are in UTC, with 0 for the zero time.
pub mod Laws
mod Tests
use gpu_rental_platform.Common.{
  ℕ, String, Bool, true, false, not, ◌&&◌, ◌||◌, ◌==◌, Option, none, some, List, [], ◌∷◌,
  if◌then◌else◌, str_eq, Outcome, ok, err, failure, fail_if, ◌>>=◌, ◌>>◌,
}
use gpu_rental_platform.Common.Int.{ℤ, pos, pos_part, ltb_ℤ}
use gpu_rental_platform.Common.Json.{itoa}
use gpu_rental_platform.Common.Text.{len, to_lower, is_blank, codes, ◌+++◌}

-- `ObjectInfo`
pub record ObjectInfo : Type 0 where
  pub size : ℕ
  pub metadata : List (String × String)

-- `PutOptions`
pub record PutOptions : Type 0 where
  pub content_type : String
  pub metadata : List (String × String)
  pub retention_mode : String
  pub retention_until : ℕ

-- The answer of `Stat`; `missing` is `ErrObjectNotFound`
pub data StatResult : Type 0 where
  found : ObjectInfo → StatResult
  missing : StatResult
  unreadable : String → StatResult

-- `Store`, with what it keeps
pub record Store (S : Type 0) : Type 0 where
  pub stat : String → String → S → StatResult
  pub put : String → String → String → ℕ → PutOptions → S → Outcome (Unit {0}) × S

-- What the code calls of Go: `Day`, `AddDate` by months and by days, the year, the month and the whole
-- time as texts, `path.Join`, `strings.Trim` of slashes, and the SHA-256 sum in hexadecimal.
pub record Library : Type 0 where
  pub day : ℕ → ℕ
  pub add_months : ℕ → ℕ → ℕ
  pub add_days : ℕ → ℕ → ℕ
  pub year_text : ℕ → String
  pub month_text : ℕ → String
  pub year_month : ℕ → String
  pub rfc3339 : ℕ → String
  pub join : List String → String
  pub trim_slashes : String → String
  pub sum_hex : String → String

-- `Config`, less the directory of the temporary file
pub record Config : Type 0 where
  pub bucket : String
  pub prefix : String
  pub month_start : ℕ
  pub retention_mode : String
  pub retention_days : ℤ

-- `Result`
pub record ArchiveResult : Type 0 where
  pub status : String
  pub object_key : String
  pub rows : ℕ
  pub bytes : ℕ
  pub sha256 : String
  pub period_start : ℕ
  pub period_end : ℕ
  pub retention_until : ℕ

abbrev starts_with : List ℕ → List ℕ → Bool
starts_with [] text = true
starts_with (c ∷ cs) [] = false
starts_with (c ∷ cs) (d ∷ ds) = c == d && starts_with cs ds

-- A key of the metadata names `wanted`, with the prefix of S3 or without
abbrev pub names : String → String → Bool
names wanted key =
    let lower = to_lower key in
    if starts_with (codes "x-amz-meta-") (codes lower)
    then str_eq lower ("x-amz-meta-" +++ to_lower wanted)
    else str_eq lower (to_lower wanted)

-- `metadataValue`
unfoldable pub metadata_value : List (String × String) → String → Option String
metadata_value [] wanted = none
metadata_value ((key, value) ∷ rest) wanted =
    let later = metadata_value rest wanted in if names wanted key then some value else later

unfoldable pub verify_value : Option String → String → Outcome (Unit {0})
verify_value none expected = err (failure "metadata is missing")
verify_value (some actual) expected = fail_if (not (str_eq actual expected)) (failure "metadata")

unfoldable pub verify_metadata :
    List (String × String) → List (String × String) → Outcome (Unit {0})
unfolding verify_value
verify_metadata metadata [] = ok tt
verify_metadata metadata ((key, expected) ∷ rest) =
    verify_value (metadata_value metadata key) expected >> verify_metadata metadata rest

-- `verifyObject`
unfoldable pub verify_object : ObjectInfo → ℕ → List (String × String) → Outcome (Unit {0})
unfolding verify_metadata
verify_object info expected_size expected =
    fail_if (not (info.size == expected_size)) (failure "size")
    >> verify_metadata info.metadata expected

-- The tests on the configuration
unfoldable pub check_config : Library → Config → Outcome (Unit {0})
check_config lib cfg = do
  fail_if (is_blank cfg.bucket) (failure "audit archive bucket is required")
  fail_if (cfg.month_start == 0 || not (lib.day cfg.month_start == 1))
      (failure "audit archive month start must be the first day of a month")
  fail_if
      (not (str_eq cfg.retention_mode "GOVERNANCE") && not (str_eq cfg.retention_mode "COMPLIANCE"))
      (failure "unsupported audit archive retention mode")
  fail_if (ltb_ℤ cfg.retention_days (pos 1))
      (failure "audit archive retention days must be greater than zero")

abbrev pub object_key : Library → Config → String
object_key lib cfg = lib.join (
    lib.trim_slashes cfg.prefix
    ∷ ("year=" +++ lib.year_text cfg.month_start)
    ∷ ("month=" +++ lib.month_text cfg.month_start)
    ∷ ("audit-events-" +++ (lib.year_month cfg.month_start +++ ".jsonl"))
    ∷ [])

abbrev pub metadata_of : Library → ArchiveResult → List (String × String)
metadata_of lib r =
    ("sha256", r.sha256)
    ∷ ("row-count", itoa r.rows)
    ∷ ("period-start", lib.rfc3339 r.period_start)
    ∷ ("period-end", lib.rfc3339 r.period_end)
    ∷ ("schema", "gpu-control-plane-audit-v1")
    ∷ []

-- The result of an export with this text and this number of rows
abbrev pub result_of : Library → Config → ℕ → String → String → ℕ → ArchiveResult
result_of lib cfg now status text rows = record {
  status = status;
  object_key = object_key lib cfg;
  rows = rows;
  bytes = len text;
  sha256 = lib.sum_hex text;
  period_start = cfg.month_start;
  period_end = lib.add_months cfg.month_start 1;
  retention_until = lib.add_days now (pos_part cfg.retention_days);
}

module _ {S : Type 0} (lib : Library) (store : Store S) (cfg : Config) where
  -- The object is there, and is what was exported
  unfoldable pub verified : ArchiveResult → StatResult → Outcome ArchiveResult
  unfolding verify_object
  verified r (found info) = verify_object info r.bytes (metadata_of lib r) >> ok r
  verified r missing = err (failure "verify uploaded audit archive object")
  verified r (unreadable message) = err (failure message)

  -- The part behind `Put`
  unfoldable pub after_put : ArchiveResult → Outcome (Unit {0}) × S → Outcome ArchiveResult × S
  unfolding verified
  after_put r (err e, s) = (err e, s)
  after_put r (ok u, s) = (verified r (store.stat cfg.bucket r.object_key s), s)

  -- The part behind the first `Stat`
  unfoldable pub after_stat : ℕ → String → ℕ → S → StatResult → Outcome ArchiveResult × S
  unfolding after_put
  after_stat now text rows s (found info) =
      (verified (result_of lib cfg now "existing" text rows) (found info), s)
  after_stat now text rows s (unreadable message) = (err (failure message), s)
  after_stat now text rows s missing =
      let r = result_of lib cfg now "uploaded" text rows in
      after_put r (
        store.put cfg.bucket r.object_key text r.bytes
          (record {
            content_type = "application/x-ndjson";
            metadata = metadata_of lib r;
            retention_mode = cfg.retention_mode;
            retention_until = r.retention_until;
          })
          s)

  unfoldable pub after_export : ℕ → S → Outcome (String × ℕ) → Outcome ArchiveResult × S
  unfolding after_stat
  after_export now s (err e) = (err e, s)
  after_export now s (ok (text, rows)) =
      after_stat now text rows s (store.stat cfg.bucket (object_key lib cfg) s)

  unfoldable pub after_check :
      (ℕ → ℕ → Outcome (String × ℕ)) → ℕ → S → Outcome (Unit {0}) → Outcome ArchiveResult × S
  unfolding after_export
  after_check source now s (err e) = (err e, s)
  after_check source now s (ok u) =
      after_export now s (source cfg.month_start (lib.add_months cfg.month_start 1))

  -- `Archive`: its result, and what the store keeps behind it
  unfoldable pub archive : (ℕ → ℕ → Outcome (String × ℕ)) → ℕ → S → Outcome ArchiveResult × S
  unfolding after_check check_config
  archive source now s = after_check source now s (check_config lib cfg)
