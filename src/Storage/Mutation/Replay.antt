-- ===== src/Storage/Mutation/Replay.antt =====
-- What a client may rely on when it sends a mutation again: `acceptMutation` of
-- internal/storage/postgres/tenancy.go.
use gpu_rental_platform.Common.{
  Option-cases, eq_iff, eq_refl, failure, or_fail, fail_if-ok, fail_if, not, ◌≡◌, ◌≢◌, refl, ap,
  ◌⊎◌, inl, inr, ℕ, String, true, false, Option, none, some, str_eq, ok, err, idempotency_conflict,
  >>=-eq-ok, fail_if-eq-ok, or_fail-eq-ok, ok-injective, arith,
}
use gpu_rental_platform.Identity.{Entropy}
use gpu_rental_platform.Tenancy.{Acceptance, MutationContext}
use gpu_rental_platform.Storage.Db.{Db, IdempotencyRecord}
use gpu_rental_platform.Storage.Mutation.{
  Spec, accept_mutation, accept_new, load_idempotency, validate_mutation_context, idempotency_scope,
}
use gpu_rental_platform.Storage.Mutation.Laws.{Adds, IsRecorded, accept_new-ok}

-- The acceptance under a key, as a later call reads it.
load-IsRecorded :
    (o : Option IdempotencyRecord) (hash : String) (a : Acceptance)
    → IsRecorded o hash a
    → load_idempotency o hash ≡ ok (some (record a { replayed = false }))
unfolding load_idempotency
load-IsRecorded none hash a (r, e, _, _, _) = cc
load-IsRecorded (some s) hash a (r, e, same, resource, operation) =
    let found : s ≡ r = cc in rw (found, same, eq_refl hash, resource, operation) refl

IsRecorded-load :
    (o : Option IdempotencyRecord) (hash : String) (a : Acceptance)
    → load_idempotency o hash ≡ ok (some a)
    → IsRecorded o hash a
unfolding load_idempotency
IsRecorded-load none hash a h = cc
IsRecorded-load (some s) hash a h =
    let (u, checked, _) =
      >>=-eq-ok (fail_if (not (str_eq s.request_hash hash)) idempotency_conflict) _ h in
    let same = fail_if-eq-ok (not (str_eq s.request_hash hash)) _ checked in
    let h₁ = fail_if-ok (not (str_eq s.request_hash hash)) _ _ h in
    let (resource, e₁, h₂) =
      >>=-eq-ok (or_fail s.resource_id (failure "idempotency record is incomplete")) _ h₁ in
    let (operation, e₂, h₃) =
      >>=-eq-ok (or_fail s.operation_id (failure "idempotency record is incomplete")) _ h₂ in
    let found = ok-injective h₃ in
    let at_resource = or_fail-eq-ok s.resource_id _ e₁ in
    let at_operation = or_fail-eq-ok s.operation_id _ e₂ in
    (s, refl, ground (arith, eq_iff s.request_hash hash, same), cc, cc)

-- Both ways in which a call succeeds.
accept_mutation-ok :
    (entropy : Entropy) (k now : ℕ) (m : MutationContext) (spec : Spec) (db : Db) (a : Acceptance)
    (after : Db)
    → accept_mutation entropy k now m spec db ≡ ok (a, after)
    → (validate_mutation_context m ≡ ok tt)
      × IsRecorded
          (after.idempotency (idempotency_scope spec.kind m) m.idempotency_key)
          m.request_hash
          a
      × (((a.replayed ≡ true) × (after ≡ db))
          ⊎ ((a.replayed ≡ false)
              × (applied : Db) × (spec.apply now db ≡ ok applied)
              × Adds 1 2 1 applied after))
unfolding accept_mutation
accept_mutation-ok entropy k now m spec db a after h =
    let (_, valid, h₁) = >>=-eq-ok (validate_mutation_context m) _ h in
    let (found, e, h₂) =
      >>=-eq-ok
        (load_idempotency (db.idempotency (idempotency_scope spec.kind m) m.idempotency_key)
          m.request_hash)
        _ h₁ in
    let (kept, cases) = split found e h₂ in (valid, kept, cases)
  where
    split :
        (found : Option Acceptance)
        → load_idempotency
            (db.idempotency (idempotency_scope spec.kind m) m.idempotency_key)
            m.request_hash
          ≡ ok found
        → elim found [
          | some b ↦ ok (record b { replayed = true }, db)
          | none ↦ accept_new entropy k now m spec db
        ]
          ≡ ok (a, after)
        → IsRecorded
            (after.idempotency (idempotency_scope spec.kind m) m.idempotency_key)
            m.request_hash
            a
          × (((a.replayed ≡ true) × (after ≡ db))
              ⊎ ((a.replayed ≡ false)
                  × (applied : Db) × (spec.apply now db ≡ ok applied)
                  × Adds 1 2 1 applied after))
    split none e h' =
        let (applied, did, adds, kept, _, fresh) =
          accept_new-ok entropy k now m spec db a after h' in
        (kept, inr (fresh, applied, did, adds))
    split (some b) e h' =
        let same = ok-injective h' in
        rw (← ap (λ r. r.0) same, ← ap (λ r. r.1) same)
          (
            IsRecorded-load (db.idempotency (idempotency_scope spec.kind m) m.idempotency_key)
                m.request_hash b e,
            inl (refl, refl),
          )

-- Whenever a call succeeds, every later call with the same context and kind, at any time, with any
-- other fields and on any tables that still have the entry of the key, succeeds with the same
-- resource and operation, is marked as a replay, and changes nothing.
pub accept_mutation_retry :
    (entropy : Entropy) (k now : ℕ) (m : MutationContext) (spec : Spec) (db : Db) (a : Acceptance)
    (after : Db)
    → accept_mutation entropy k now m spec db ≡ ok (a, after)
    → (entropy' : Entropy) (k' now' : ℕ) (again : Spec) (later : Db) → again.kind ≡ spec.kind
    → later.idempotency (idempotency_scope spec.kind m) m.idempotency_key
      ≡ after.idempotency (idempotency_scope spec.kind m) m.idempotency_key
    → accept_mutation entropy' k' now' m again later ≡ ok (record a { replayed = true }, later)
unfolding accept_mutation
accept_mutation_retry entropy k now m spec db a after h entropy' k' now' again later kind entry =
    let (valid, kept, _) = accept_mutation-ok entropy k now m spec db a after h in
    rw
      (
        valid,
        kind,
        entry,
        load-IsRecorded (after.idempotency (idempotency_scope spec.kind m) m.idempotency_key)
            m.request_hash a kept,
      )
      refl

-- Whenever a call succeeds, a valid later call of the same principal with the same kind and key, but
-- another request hash, fails with an idempotency conflict, on any tables that still have the entry.
pub accept_mutation_reuse :
    (entropy : Entropy) (k now : ℕ) (m : MutationContext) (spec : Spec) (db : Db) (a : Acceptance)
    (after : Db)
    → accept_mutation entropy k now m spec db ≡ ok (a, after)
    → (entropy' : Entropy) (k' now' : ℕ) (other : MutationContext) (again : Spec) (later : Db)
    → validate_mutation_context other ≡ ok tt
    → other.principal_id ≡ m.principal_id
    → other.idempotency_key ≡ m.idempotency_key
    → other.request_hash ≢ m.request_hash
    → again.kind ≡ spec.kind
    → later.idempotency (idempotency_scope spec.kind m) m.idempotency_key
      ≡ after.idempotency (idempotency_scope spec.kind m) m.idempotency_key
    → accept_mutation entropy' k' now' other again later ≡ err idempotency_conflict
unfolding accept_mutation idempotency_scope load_idempotency
accept_mutation_reuse entropy k now m spec db a after h entropy' k' now' other again later valid who
      key differs kind entry =
    let (_, (r, found, hash, _, _), _) = accept_mutation-ok entropy k now m spec db a after h in
    let apart : str_eq r.request_hash other.request_hash ≡ false =
      ground (arith, eq_iff r.request_hash other.request_hash) in
    rw (valid, kind, who, key, entry, found, apart) refl

-- A successful call is either a replay, which changes nothing, or has the effect of the mutation and
-- then one operation, two events and one audit row more, with the tables of the domain as the
-- mutation left them.
pub accept_mutation_once :
    (entropy : Entropy) (k now : ℕ) (m : MutationContext) (spec : Spec) (db : Db) (a : Acceptance)
    (after : Db)
    → accept_mutation entropy k now m spec db ≡ ok (a, after)
    → ((a.replayed ≡ true) × (after ≡ db))
      ⊎ ((a.replayed ≡ false)
          × (applied : Db) × (spec.apply now db ≡ ok applied)
          × Adds 1 2 1 applied after)
accept_mutation_once entropy k now m spec db a after h =
    let (_, _, cases) = accept_mutation-ok entropy k now m spec db a after h in cases

-- A call that is no replay names the resource of its mutation.
pub accept_mutation-resource :
    (entropy : Entropy) (k now : ℕ) (m : MutationContext) (spec : Spec) (db : Db) (a : Acceptance)
    (after : Db)
    → accept_mutation entropy k now m spec db ≡ ok (a, after)
    → a.replayed ≡ false
    → a.resource_id ≡ spec.resource_id
unfolding accept_mutation
accept_mutation-resource entropy k now m spec db a after h fresh =
    let (_, _, h₁) = >>=-eq-ok (validate_mutation_context m) _ h in
    let entry = db.idempotency (idempotency_scope spec.kind m) m.idempotency_key in
    let (found, _, h₂) = >>=-eq-ok (load_idempotency entry m.request_hash) _ h₁ in
    elim (Option-cases found) [
      | inl e ↦
          let (_, _, _, _, same, _) = accept_new-ok entropy k now m spec db a after (rw e at h₂) in
          same
      | inr (b, e) ↦
          let out = ap (λ r. r.0) (ok-injective (rw e at h₂)) in
          let marked = ap (λ (x : Acceptance). x.replayed) out in absurd (ground arith)
    ]
