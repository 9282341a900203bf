-- ===== src/AuditArchive/Laws.antt =====
-- An archive that was reported stands in the store, and is not written again.
use gpu_rental_platform.Common.{
  ◌≡◌, refl, sym, ap, ◌∙◌, ℕ, String, true, not, ◌==◌, Option, none, some, List, [], ◌∷◌, str_eq,
  All, Outcome, ok, err, fail_if, ◌>>◌, fail_if-eq-ok, ok-injective, arith, eq_iff,
}
use gpu_rental_platform.AuditArchive.{
  pos_part, ObjectInfo, StatResult, found, missing, unreadable, Store, Library, Config,
  ArchiveResult, metadata_value, verify_value, verify_metadata, verify_object, check_config,
  object_key, metadata_of, result_of, verified, after_put, after_stat, after_export, after_check,
  archive,
}

-- The object has the size and the metadata of the result.
pub record IsArchived (lib : Library) (r : ArchiveResult) (info : ObjectInfo) : Type 0 where
  pub sized : info.size ≡ r.bytes
  pub described :
      All (λ (m : String × String). metadata_value info.metadata m.0 ≡ some m.1) (metadata_of lib r)

verify_value-ok :
    (v : Option String) (expected : String) → verify_value v expected ≡ ok tt → v ≡ some expected
unfolding verify_value
verify_value-ok none expected h = cc
verify_value-ok (some actual) expected h =
    let same = fail_if-eq-ok (not (str_eq actual expected)) _ h in
    let test : str_eq actual expected ≡ true = ground arith in
    ap some ((eq_iff actual expected).0 test)

then-ok : (a b : Outcome (Unit {0})) → (a >> b) ≡ ok tt → (a ≡ ok tt) × (b ≡ ok tt)
then-ok (ok tt) b h = (refl, h)
then-ok (err e) b h = cc

verify_metadata-ok :
    (metadata expected : List (String × String))
    → verify_metadata metadata expected ≡ ok tt
    → All (λ (m : String × String). metadata_value metadata m.0 ≡ some m.1) expected
unfolding verify_metadata
verify_metadata-ok metadata [] h = tt
verify_metadata-ok metadata ((key, value) ∷ rest) h =
    let (first, others) = then-ok (verify_value (metadata_value metadata key) value) _ h in
    (
      verify_value-ok (metadata_value metadata key) value first,
      verify_metadata-ok metadata rest others,
    )

module _ {S : Type 0} (lib : Library) (store : Store S) (cfg : Config) where
  verified-ok :
      (r r' : ArchiveResult) (x : StatResult)
      → verified lib store cfg r x ≡ ok r'
      → (info : ObjectInfo) × (x ≡ found info)
        × (verify_object info r.bytes (metadata_of lib r) ≡ ok tt)
        × (r ≡ r')
  unfolding verified
  verified-ok r r' missing h = cc
  verified-ok r r' (unreadable message) h = cc
  verified-ok r r' (found info) h = go (verify_object info r.bytes (metadata_of lib r)) refl h
    where
      go :
          (v : Outcome (Unit {0}))
          → verify_object info r.bytes (metadata_of lib r) ≡ v
          → (v >> ok r) ≡ ok r'
          → (i : ObjectInfo) × (found info ≡ found i)
            × (verify_object i r.bytes (metadata_of lib r) ≡ ok tt)
            × (r ≡ r')
      go (ok tt) e k = (info, refl, e, ok-injective k)
      go (err x) e k = cc

  -- The object behind an export, whatever the store did
  record IsKept (text : String) (rows : ℕ) (r : ArchiveResult) (s : S) : Type 0 where
    now : ℕ
    status : String
    info : ObjectInfo
    result_is : r ≡ result_of lib cfg now status text rows
    stands : store.stat cfg.bucket (object_key lib cfg) s ≡ found info
    checked : verify_object info r.bytes (metadata_of lib r) ≡ ok tt

  after_put-ok :
      (now rows : ℕ) (text : String) (r' : ArchiveResult) (p : Outcome (Unit {0}) × S) (s' : S)
      → after_put lib store cfg (result_of lib cfg now "uploaded" text rows) p ≡ (ok r', s')
      → IsKept text rows r' s'
  unfolding after_put
  after_put-ok now rows text r' (err e, s) s' h = absurd (let k = ap (λ x. x.0) h in cc)
  after_put-ok now rows text r' (ok u, s) s' h =
      let same : s ≡ s' = ap (λ x. x.1) h in
      let (info, stands, checked, is) =
        verified-ok (result_of lib cfg now "uploaded" text rows) r' _ (ap (λ x. x.0) h) in
      record {
        now = now;
        status = "uploaded";
        info = info;
        result_is = sym is;
        stands = rw (← same) stands;
        checked = rw (← is) checked;
      }

  after_stat-ok :
      (now rows : ℕ) (text : String) (s s' : S) (r' : ArchiveResult) (x : StatResult)
      → store.stat cfg.bucket (object_key lib cfg) s ≡ x
      → after_stat lib store cfg now text rows s x ≡ (ok r', s')
      → IsKept text rows r' s'
  unfolding after_stat
  after_stat-ok now rows text s s' r' missing e h = after_put-ok now rows text r' _ s' h
  after_stat-ok now rows text s s' r' (unreadable message) e h =
      absurd (let k = ap (λ x. x.0) h in cc)
  after_stat-ok now rows text s s' r' (found info) e h =
      let same : s ≡ s' = ap (λ x. x.1) h in
      let r = result_of lib cfg now "existing" text rows in
      let (info', stands, checked, is) = verified-ok r r' (found info) (ap (λ x. x.0) h) in
      record {
        now = now;
        status = "existing";
        info = info';
        result_is = sym is;
        stands = rw (← same) (e ∙ stands);
        checked = rw (← is) checked;
      }

  archive-ok :
      (source : ℕ → ℕ → Outcome (String × ℕ)) (now : ℕ) (s s' : S) (r : ArchiveResult)
      → archive lib store cfg source now s ≡ (ok r, s')
      → (text : String) × (rows : ℕ) × (check_config lib cfg ≡ ok tt)
        × (source cfg.month_start (lib.add_months cfg.month_start 1) ≡ ok (text, rows))
        × IsKept text rows r s'
  unfolding archive after_check after_export
  archive-ok source now s s' r h = checks (check_config lib cfg) refl h
    where
      exports :
          (x : Outcome (String × ℕ))
          → after_export lib store cfg now s x ≡ (ok r, s')
          → (text : String) × (rows : ℕ) × (x ≡ ok (text, rows)) × IsKept text rows r s'
      exports (err e) k = absurd (let l = ap (λ x. x.0) k in cc)
      exports (ok (text, rows)) k = (text, rows, refl, after_stat-ok now rows text s s' r _ refl k)

      checks :
          (c : Outcome (Unit {0}))
          → check_config lib cfg ≡ c
          → after_check lib store cfg source now s c ≡ (ok r, s')
          → (text : String) × (rows : ℕ) × (check_config lib cfg ≡ ok tt)
            × (source cfg.month_start (lib.add_months cfg.month_start 1) ≡ ok (text, rows))
            × IsKept text rows r s'
      checks (err e) eq k = absurd (let l = ap (λ x. x.0) k in cc)
      checks (ok tt) eq k = let (text, rows, did, kept) = exports _ k in (text, rows, eq, did, kept)

  -- An archive that is reported, as uploaded or as existing, stands in the store under its key behind
  -- the call, with the size and all the metadata that the result says, whatever the store did.
  pub archive_stands :
      (source : ℕ → ℕ → Outcome (String × ℕ)) (now : ℕ) (s s' : S) (r : ArchiveResult)
      → archive lib store cfg source now s ≡ (ok r, s')
      → (info : ObjectInfo) × (store.stat cfg.bucket r.object_key s' ≡ found info)
        × IsArchived lib r info
  unfolding verify_object
  archive_stands source now s s' r h =
      let (text, rows, fine, did, kept) = archive-ok source now s s' r h in
      let (sized, described) =
        then-ok (fail_if (not (kept.info.size == r.bytes)) _) _ kept.checked in
      let test = fail_if-eq-ok (not (kept.info.size == r.bytes)) _ sized in
      (
        kept.info,
        rw (kept.result_is) (kept.stands),
        record {
          sized = ground arith;
          described = verify_metadata-ok kept.info.metadata (metadata_of lib r) described;
        },
      )

  -- A month that was archived, archived again from the same rows at any time, writes nothing and gives
  -- the same result, but for the status and the time of retention, which is counted from the later call.
  pub archive_again :
      (source : ℕ → ℕ → Outcome (String × ℕ)) (now later : ℕ) (s s' : S) (r : ArchiveResult)
      → archive lib store cfg source now s ≡ (ok r, s')
      → archive lib store cfg source later s' ≡ (
        ok (record r {
          status = "existing";
          retention_until = lib.add_days later (pos_part cfg.retention_days);
        }),
        s',
      )
  unfolding archive after_check after_export after_stat verified
  archive_again source now later s s' r h =
      let (text, rows, fine, did, kept) = archive-ok source now s s' r h in
      let checked = rw kept.result_is at kept.checked in
      rw kept.result_is (rw (fine, did, kept.stands, checked) refl)
