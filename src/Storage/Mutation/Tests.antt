-- ===== src/Storage/Mutation/Tests.antt =====
-- A mutation that is sent three times, and witnesses.
use gpu_rental_platform.Common.{
  ◌+◌, ◌*◌, ◌≡◌, ◌≢◌, refl, some, none, true, false, [], ◌∷◌, ◌⊎◌, ok, err, text_ne,
  idempotency_conflict,
}
use gpu_rental_platform.Common.Text.{to_lower, trim_space, is_blank}
use gpu_rental_platform.Identity.{Entropy, is_uuid, new_uuid}
use gpu_rental_platform.Tenancy.{Acceptance, MutationContext}
use gpu_rental_platform.Storage.Db.{Db, empty_db}
use gpu_rental_platform.Storage.Mutation.{
  Spec, accept_mutation, accept_new, create_in_tx, insert_operation, insert_event,
  insert_domain_event, insert_audit_event, record_idempotency, idempotency_scope, set_fields,
  complete_operation, load_idempotency, validate_mutation_context, tables_after,
}
use gpu_rental_platform.Storage.Mutation.Laws.{Adds}
use gpu_rental_platform.Storage.Mutation.Replay.{
  accept_mutation_retry, accept_mutation_reuse, accept_mutation_once,
}

code : Unit {0}
unfolding tables_after is_uuid new_uuid is_blank trim_space to_lower accept_mutation accept_new
    create_in_tx insert_operation insert_event insert_domain_event insert_audit_event
    record_idempotency idempotency_scope set_fields complete_operation load_idempotency
    validate_mutation_context
code = tt

-- Sixteen equal bytes for each read.
abbrev random : Entropy
random k =
    let b = 16 * k + k in some (b ∷ b ∷ b ∷ b ∷ b ∷ b ∷ b ∷ b ∷ b ∷ b ∷ b ∷ b ∷ b ∷ b ∷ b ∷ b ∷ [])

abbrev mutation : MutationContext
mutation = record {
  principal_id = "u1";
  request_id = "r1";
  idempotency_key = "key-0001";
  request_hash = "h1";
}

-- A mutation with no effect of its own.
abbrev spec : Spec
spec = record {
  kind = "tenant.create";
  resource_type = "tenant";
  resource_id = "t1";
  event_type = "tenant.created";
  scope_type = "tenant";
  scope_id = "t1";
  event_fields = [];
  complete_immediately = true;
  apply = λ now db. ok db;
}

abbrev accepted_db : Db
accepted_db = tables_after empty_db (accept_mutation random 1 10 mutation spec empty_db)

abbrev acceptance : Acceptance
acceptance = record {
  resource_id = "t1";
  operation_id = "11111111-1111-4111-9111-111111111111";
  replayed = false;
}

accepted : accept_mutation random 1 10 mutation spec empty_db ≡ ok (acceptance, accepted_db)
unfolding code
accepted = refl

-- The random generator fails, but is not asked.
abbrev broken : Entropy
broken k = none

accept_mutation_retry_example :
    accept_mutation broken 0 99 mutation spec accepted_db
    ≡ ok (record acceptance { replayed = true }, accepted_db)
accept_mutation_retry_example =
    accept_mutation_retry random 1 10 mutation spec empty_db acceptance accepted_db accepted broken
      0 99 spec accepted_db refl refl

abbrev other : MutationContext
other = record mutation { request_id = "r2"; request_hash = "h2" }

other_valid : validate_mutation_context other ≡ ok tt
unfolding code
other_valid = refl

other_hash : other.request_hash ≢ mutation.request_hash
other_hash = text_ne _ _ refl

accept_mutation_reuse_example :
    accept_mutation random 6 99 other spec accepted_db ≡ err idempotency_conflict
accept_mutation_reuse_example =
    accept_mutation_reuse random 1 10 mutation spec empty_db acceptance accepted_db accepted random
      6 99 other spec accepted_db other_valid refl refl other_hash refl refl

accept_mutation_once_example :
    ((acceptance.replayed ≡ true) × (accepted_db ≡ empty_db))
    ⊎ ((acceptance.replayed ≡ false)
        × (applied : Db) × (spec.apply 10 empty_db ≡ ok applied)
        × Adds 1 2 1 applied accepted_db)
accept_mutation_once_example =
    accept_mutation_once random 1 10 mutation spec empty_db acceptance accepted_db accepted
