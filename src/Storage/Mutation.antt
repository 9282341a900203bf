-- ===== src/Storage/Mutation.antt =====
-- How every mutation of the stores is accepted: `acceptMutation` of
-- internal/storage/postgres/tenancy.go and `CreateInTx` of repository.go. A call maps the tables to
-- the tables after its commit, or to an error, after which the deferred Rollback leaves them alone.
-- The advisory lock makes calls with one idempotency key follow one another, as they do here. The
-- k-th identifier of a request comes from the k-th read of the random generator.
pub mod Laws
pub mod Replay
mod Tests
use gpu_rental_platform.Common.{
  ℕ, ◌+◌, ◌*◌, String, Bool, true, false, not, ◌&&◌, ◌||◌, Option, none, some, List, [], ◌∷◌, ◌++◌,
  ltb, if◌then◌else◌, str_eq, is_some, any, update, Outcome, ok, err, Error, invalid,
  idempotency_conflict, failure, fail_if, or_fail, ◌>>=◌, ◌>>◌,
}
use gpu_rental_platform.Common.Text.{is_blank, trim_space, to_lower, len, ◌+++◌}
use gpu_rental_platform.Identity.{Entropy, new_uuid, is_uuid}
use gpu_rental_platform.Tenancy.{Acceptance, MutationContext}
use gpu_rental_platform.Storage.Db.{
  Db, Value, text, target, Operation, OperationStatus, Event, IdempotencyRecord, AuditEvent,
}

abbrev pub Fields : Type 0
Fields = List (String × Value)

-- `acceptedMutationSpec`; `apply` gets the time of the request
pub record Spec : Type 0 where
  pub kind : String
  pub resource_type : String
  pub resource_id : String
  pub event_type : String
  pub scope_type : String
  pub scope_id : String
  pub event_fields : Fields
  pub complete_immediately : Bool
  pub apply : ℕ → Db → Outcome Db

-- `operation.CreateParams`
pub record CreateParams : Type 0 where
  pub id : String
  pub kind : String
  pub target_type : String
  pub target_id : String
  pub retryable : Bool
  pub request_id : String

unfoldable pub validate_mutation_context : MutationContext → Outcome (Unit {0})
validate_mutation_context m = do
  fail_if (is_blank m.principal_id || ltb 255 (len m.principal_id)) invalid
  fail_if (is_blank m.request_id || ltb 128 (len m.request_id)) invalid
  fail_if (ltb (len (trim_space m.idempotency_key)) 8 || ltb 255 (len m.idempotency_key)) invalid
  fail_if (is_blank m.request_hash || ltb 128 (len m.request_hash)) invalid

-- INSERT INTO operations, with its PRIMARY KEY
unfoldable pub insert_operation : Operation → Db → Outcome Db
insert_operation o db = do
  fail_if (any (λ x. str_eq x.id o.id) db.operations) (failure "insert operation")
  ok (record db { operations = db.operations ++ o ∷ [] })

-- INSERT INTO outbox_events, with its PRIMARY KEY
unfoldable pub insert_event : Event → Db → Outcome Db
insert_event e db = do
  fail_if (any (λ x. str_eq x.id e.id) db.outbox) (failure "insert outbox event")
  ok (record db { outbox = db.outbox ++ e ∷ [] })

abbrev pub new_event : String → String → String → String → Fields → ℕ → Event
new_event id aggregate_type aggregate_id event_type payload now = record {
  id = to_lower id;
  aggregate_type = aggregate_type;
  aggregate_id = aggregate_id;
  event_type = event_type;
  payload = payload;
  occurred_at = now;
  available_at = now;
  attempts = 0;
  locked_by = none;
  locked_until = none;
  delivered_at = none;
  dead_lettered_at = none;
  last_error = none;
}

abbrev pub new_operation : String → CreateParams → ℕ → Operation
new_operation id p now = record {
  id = to_lower id;
  kind = p.kind;
  status = OperationStatus.queued;
  target_type = p.target_type;
  target_id = p.target_id;
  progress = 0;
  retryable = p.retryable;
  request_id = p.request_id;
  created_at = now;
  updated_at = now;
  started_at = none;
  finished_at = none;
}

-- `CreateInTx`: the id of the operation, and the tables
unfoldable pub create_in_tx : Entropy → ℕ → ℕ → CreateParams → Db → Outcome (String × Db)
unfolding insert_operation insert_event
create_in_tx entropy k now p db = do
  fail_if (is_blank p.kind) (failure "operation kind is required")
  fail_if (is_blank p.target_type || is_blank p.target_id) (failure "operation target is required")
  fail_if (is_blank p.request_id) (failure "operation request ID is required")
  id ← if str_eq p.id "" then new_uuid entropy k else ok p.id
  fail_if (not (is_uuid id)) (failure "operation ID must be a UUID")
  event_id ← new_uuid entropy (if str_eq p.id "" then k + 1 else k)
  let payload : Fields =
      ("operationId", text id)
      ∷ ("kind", text p.kind)
      ∷ ("target", target p.target_type p.target_id)
      ∷ ("requestId", text p.request_id)
      ∷ []
  db' ← insert_operation (new_operation id p now) db
  db'' ← insert_event (new_event event_id "operation" id "operation.queued" payload now) db'
  ok (id, db'')

-- The two updates for an operation that is done when it is accepted.
unfoldable pub complete_operation : String → ℕ → Db → Db
complete_operation id now db = record db {
  operations =
      update (λ o. str_eq o.id (to_lower id))
        (λ o. record o {
          status = OperationStatus.succeeded;
          progress = 100;
          retryable = false;
          started_at = some now;
          finished_at = some now;
          updated_at = now;
        })
        db.operations;
  outbox =
      update
        (λ e.
          str_eq e.aggregate_type "operation"
          && str_eq e.aggregate_id id
          && str_eq e.event_type "operation.queued")
        (λ e. record e { delivered_at = some now }) db.outbox;
}

-- `eventFields[key] = value`
unfoldable pub set_field : String × Value → Fields → Fields
set_field (k, v) [] = (k, v) ∷ []
set_field (k, v) ((j, w) ∷ fields) =
    if str_eq j k then (k, v) ∷ fields else (j, w) ∷ set_field (k, v) fields

unfoldable pub set_fields : Fields → Fields → Fields
unfolding set_field
set_fields [] fields = fields
set_fields (f ∷ more) fields = set_fields more (set_field f fields)

unfoldable pub insert_domain_event :
    Entropy → ℕ → String → String → String → Fields → ℕ → Db → Outcome Db
unfolding insert_event
insert_domain_event entropy k aggregate_type aggregate_id event_type payload now db = do
  id ← new_uuid entropy k
  insert_event (new_event id aggregate_type aggregate_id event_type payload now) db

unfoldable pub insert_audit_event : Entropy → ℕ → MutationContext → Spec → ℕ → Db → Outcome Db
insert_audit_event entropy k m spec now db = do
  id ← new_uuid entropy k
  fail_if (any (λ (a : AuditEvent). str_eq a.id id) db.audit) (failure "insert audit event")
  ok (record db {
    audit =
        db.audit
        ++ record {
          id = id;
          occurred_at = now;
          actor_id = m.principal_id;
          scope_type = spec.scope_type;
          scope_id = spec.scope_id;
          action = spec.kind;
          resource_type = spec.resource_type;
          resource_id = spec.resource_id;
          request_id = m.request_id;
        }
          ∷ [];
  })

-- `loadIdempotencyAcceptance`: `none` if there is no record
unfoldable pub load_idempotency : Option IdempotencyRecord → String → Outcome (Option Acceptance)
load_idempotency none hash = ok none
load_idempotency (some r) hash = do
  fail_if (not (str_eq r.request_hash hash)) idempotency_conflict
  resource ← or_fail r.resource_id (failure "idempotency record is incomplete")
  operation ← or_fail r.operation_id (failure "idempotency record is incomplete")
  ok (some (record { resource_id = resource; operation_id = operation; replayed = false }))

abbrev pub day : ℕ
day = 86400000000000

-- `recordIdempotencyAcceptance`
unfoldable pub record_idempotency :
    String → MutationContext → String → Acceptance → ℕ → Db → Outcome Db
record_idempotency scope m resource_type a now db = do
  fail_if (is_some (db.idempotency scope m.idempotency_key)) (failure "insert idempotency record")
  ok (record db {
    idempotency = λ s k.
        if str_eq s scope && str_eq k m.idempotency_key
        then some (record {
          request_hash = m.request_hash;
          resource_type = resource_type;
          resource_id = some a.resource_id;
          operation_id = some (to_lower a.operation_id);
          expires_at = now + day;
          created_at = now;
          response_body = none;
        })
        else db.idempotency s k;
  })

unfoldable pub idempotency_scope : String → MutationContext → String
idempotency_scope kind m = kind +++ ":" +++ m.principal_id

-- The part of `acceptMutation` behind the look-up of the key.
unfoldable pub accept_new :
    Entropy → ℕ → ℕ → MutationContext → Spec → Db → Outcome (Acceptance × Db)
accept_new entropy k now m spec db = do
  applied ← spec.apply now db
  (id, created) ←
      create_in_tx entropy k now
        (record {
          id = "";
          kind = spec.kind;
          target_type = spec.resource_type;
          target_id = spec.resource_id;
          retryable = true;
          request_id = m.request_id;
        })
        applied
  let completed = if spec.complete_immediately then complete_operation id now created else created
  let acceptance : Acceptance = record {
    resource_id = spec.resource_id;
    operation_id = id;
    replayed = false;
  }
  let fields = set_fields spec.event_fields (
      ("resourceId", text spec.resource_id)
      ∷ ("operationId", text id)
      ∷ ("requestId", text m.request_id)
      ∷ [])
  published ←
      insert_domain_event entropy (k + 2) spec.resource_type spec.resource_id spec.event_type fields
        now completed
  audited ← insert_audit_event entropy (k + 3) m spec now published
  recorded ←
      record_idempotency (idempotency_scope spec.kind m) m spec.resource_type acceptance now audited
  ok (acceptance, recorded)

-- `acceptMutation`
unfoldable pub accept_mutation :
    Entropy → ℕ → ℕ → MutationContext → Spec → Db → Outcome (Acceptance × Db)
unfolding validate_mutation_context load_idempotency
accept_mutation entropy k now m spec db = do
  validate_mutation_context m
  found ←
      load_idempotency (db.idempotency (idempotency_scope spec.kind m) m.idempotency_key)
        m.request_hash
  elim found [
    | some a ↦ ok (record a { replayed = true }, db)
    | none ↦ accept_new entropy k now m spec db
  ]

-- The tables after a call: those of its commit, or those before it.
unfoldable pub tables_after {ℓ} : {A : Type ℓ} → Db → Outcome (A × Db) → Db
tables_after db (ok (_, committed)) = committed
tables_after db (err _) = db

-- The same for a call without a result.
unfoldable pub tables_of : Db → Outcome Db → Db
tables_of db (ok committed) = committed
tables_of db (err _) = db
