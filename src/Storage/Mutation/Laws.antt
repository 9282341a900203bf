-- ===== src/Storage/Mutation/Laws.antt =====
-- A mutation is accepted once for an idempotency key, with its operation, events and audit row.
use gpu_rental_platform.Common.{
  refl, ap, ap, eq_refl, is_some, fail_if-ok, ok-injective, if◌then◌else◌, false, some, >>=-eq-ok,
  length-update, Option, Bool, Outcome-cases, ℕ, ◌+◌, String, ◌≡◌, inl, inr, true, [], ◌∷◌, arith,
  length, length-append, length-snoc, ok,
}
use gpu_rental_platform.Identity.Lower.{to_lower-new_uuid}
use gpu_rental_platform.Identity.{Entropy, new_uuid}
use gpu_rental_platform.Tenancy.{Acceptance, MutationContext}
use gpu_rental_platform.Storage.Db.{IdempotencyRecord, Db, Event, Operation}
use gpu_rental_platform.Storage.Mutation.{
  idempotency_scope, to_lower, Fields, insert_domain_event, complete_operation, accept_new,
  record_idempotency, insert_audit_event, Spec, CreateParams, create_in_tx, insert_event,
  insert_operation,
}

-- The same tables, but for those that every acceptance writes.
pub record SameDomain (a b : Db) : Type 0 where
  pub tenants : b.tenants ≡ a.tenants
  pub projects : b.projects ≡ a.projects
  pub role_bindings : b.role_bindings ≡ a.role_bindings
  pub quotas : b.quotas ≡ a.quotas
  pub reservations : b.reservations ≡ a.reservations
  pub usage_facts : b.usage_facts ≡ a.usage_facts
  pub rated_usage : b.rated_usage ≡ a.rated_usage
  pub ledger : b.ledger ≡ a.ledger
  pub budgets : b.budgets ≡ a.budgets
  pub clusters : b.clusters ≡ a.clusters
  pub providers : b.providers ≡ a.providers
  pub profiles : b.profiles ≡ a.profiles
  pub workspaces : b.workspaces ≡ a.workspaces
  pub snapshots : b.snapshots ≡ a.snapshots
  pub access_tokens : b.access_tokens ≡ a.access_tokens

-- What the bookkeeping of an acceptance adds to the tables.
pub record Adds (operations events audits : ℕ) (a b : Db) : Type 0 where
  pub same : SameDomain a b
  pub more_operations : length b.operations ≡ length a.operations + operations
  pub more_events : length b.outbox ≡ length a.outbox + events
  pub more_audits : length b.audit ≡ length a.audit + audits

Adds-trans :
    {a b c : Db} (m n x m' n' x' : ℕ)
    → Adds m n x a b
    → Adds m' n' x' b c
    → Adds (m + m') (n + n') (x + x') a c
Adds-trans m n x m' n' x' p q = ground arith

insert_operation-ok :
    (o : Operation) (db after : Db)
    → insert_operation o db ≡ ok after
    → Adds 1 0 0 db after × (after.idempotency ≡ db.idempotency)
unfolding insert_operation
insert_operation-ok o db after h = ground (arith, length-append db.operations (o ∷ []))

insert_event-ok :
    (e : Event) (db after : Db)
    → insert_event e db ≡ ok after
    → Adds 0 1 0 db after × (after.idempotency ≡ db.idempotency)
unfolding insert_event
insert_event-ok e db after h = ground (arith, length-append db.outbox (e ∷ []))

-- A new operation with a generated id.
abbrev queued : MutationContext → Spec → CreateParams
queued m spec = record {
  id = "";
  kind = spec.kind;
  target_type = spec.resource_type;
  target_id = spec.resource_id;
  retryable = true;
  request_id = m.request_id;
}

create_in_tx-ok :
    (entropy : Entropy) (k now : ℕ) (m : MutationContext) (spec : Spec) (db : Db) (id : String)
    (after : Db)
    → create_in_tx entropy k now (queued m spec) db ≡ ok (id, after)
    → (new_uuid entropy k ≡ ok id) × Adds 1 1 0 db after
unfolding create_in_tx
create_in_tx-ok entropy k now m spec db id after h = elim (Outcome-cases (new_uuid entropy k)) [
  | inr (_, e) ↦ absurd (ground arith)
  | inl (i, e) ↦ elim (Outcome-cases (new_uuid entropy (k + 1))) [
    | inr (_, e') ↦ absurd (ground arith)
    | inl (j, e') ↦ (ground arith, grind (arith, length-snoc))
  ]
]

complete_operation-Adds :
    (id : String) (now : ℕ) (db : Db) → Adds 0 0 0 db (complete_operation id now db)
unfolding complete_operation
complete_operation-Adds id now db = grind (arith, length-update)

completed-Adds :
    (b : Bool) (id : String) (now : ℕ) (db : Db)
    → Adds 0 0 0 db (if b then complete_operation id now db else db)
completed-Adds true id now db = complete_operation-Adds id now db
completed-Adds false id now db = grind arith

pub insert_domain_event-ok :
    (entropy : Entropy) (k : ℕ) (t i e : String) (fields : Fields) (now : ℕ) (db after : Db)
    → insert_domain_event entropy k t i e fields now db ≡ ok after
    → Adds 0 1 0 db after
unfolding insert_domain_event
insert_domain_event-ok entropy k t i e fields now db after h =
    let (id, _, inserted) = >>=-eq-ok (new_uuid entropy k) _ h in
    (insert_event-ok _ db after inserted).0

pub insert_audit_event-ok :
    (entropy : Entropy) (k : ℕ) (m : MutationContext) (spec : Spec) (now : ℕ) (db after : Db)
    → insert_audit_event entropy k m spec now db ≡ ok after
    → Adds 0 0 1 db after
unfolding insert_audit_event
insert_audit_event-ok entropy k m spec now db after h =
    let (id, _, inserted) = >>=-eq-ok (new_uuid entropy k) _ h in grind (arith, length-snoc)

-- The record of an acceptance under its key.
abbrev pub IsRecorded : Option IdempotencyRecord → String → Acceptance → Type 0
IsRecorded o hash a =
    (r : IdempotencyRecord) × (o ≡ some r)
    × (r.request_hash ≡ hash)
    × (r.resource_id ≡ some a.resource_id)
    × (r.operation_id ≡ some a.operation_id)

record_idempotency-ok :
    (scope : String) (m : MutationContext) (t : String) (a : Acceptance) (now : ℕ) (db after : Db)
    → to_lower a.operation_id ≡ a.operation_id
    → record_idempotency scope m t a now db ≡ ok after
    → Adds 0 0 0 db after × IsRecorded (after.idempotency scope m.idempotency_key) m.request_hash a
unfolding record_idempotency
record_idempotency-ok scope m t a now db after low h =
    let made = ok-injective (fail_if-ok (is_some (db.idempotency scope m.idempotency_key)) _ _ h) in
    rw (← made, eq_refl scope, eq_refl m.idempotency_key)
      (grind arith, (_, refl, refl, refl, ap some low))

-- What the part of an acceptance behind the look-up has done.
pub accept_new-ok :
    (entropy : Entropy) (k now : ℕ) (m : MutationContext) (spec : Spec) (db : Db) (a : Acceptance)
    (after : Db)
    → accept_new entropy k now m spec db ≡ ok (a, after)
    → (applied : Db) × (spec.apply now db ≡ ok applied)
      × Adds 1 2 1 applied after
      × IsRecorded
          (after.idempotency (idempotency_scope spec.kind m) m.idempotency_key)
          m.request_hash
          a
      × (a.resource_id ≡ spec.resource_id)
      × (a.replayed ≡ false)
unfolding accept_new
accept_new-ok entropy k now m spec db a after h =
    let (applied, e₁, h₁) = >>=-eq-ok (spec.apply now db) _ h in
    let (c, e₂, h₂) = >>=-eq-ok (create_in_tx entropy k now (queued m spec) applied) _ h₁ in
    let (made, adds₁) = create_in_tx-ok entropy k now m spec applied c.0 c.1 e₂ in
    let low = to_lower-new_uuid entropy k c.0 made in
    let completed = if spec.complete_immediately then complete_operation c.0 now c.1 else c.1 in
    let (published, e₃, h₃) =
      >>=-eq-ok
        (insert_domain_event entropy (k + 2) spec.resource_type spec.resource_id spec.event_type _
          now completed)
        _ h₂ in
    let (audited, e₄, h₄) =
      >>=-eq-ok (insert_audit_event entropy (k + 3) m spec now published) _ h₃ in
    let acceptance : Acceptance = record {
      resource_id = spec.resource_id;
      operation_id = c.0;
      replayed = false;
    } in
    let (recorded, e₅, h₅) =
      >>=-eq-ok
        (record_idempotency (idempotency_scope spec.kind m) m spec.resource_type acceptance now
          audited)
        _ h₄ in
    let (adds₅, kept) =
      record_idempotency-ok (idempotency_scope spec.kind m) m spec.resource_type acceptance now
        audited recorded low e₅ in
    let adds₂ = completed-Adds spec.complete_immediately c.0 now c.1 in
    let adds₃ =
      insert_domain_event-ok entropy (k + 2) spec.resource_type spec.resource_id spec.event_type _
        now completed published e₃ in
    let adds₄ = insert_audit_event-ok entropy (k + 3) m spec now published audited e₄ in
    let same = ok-injective h₅ in
    rw (← ap (λ r. r.0) same, ← ap (λ r. r.1) same)
      (
        applied,
        e₁,
        Adds-trans 1 2 1 0 0 0
            (Adds-trans 1 2 0 0 0 1
              (Adds-trans 1 1 0 0 1 0 (Adds-trans 1 1 0 0 0 0 adds₁ adds₂) adds₃) adds₄)
            adds₅,
        kept,
        refl,
        refl,
      )
