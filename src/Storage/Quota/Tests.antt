-- ===== src/Storage/Quota/Tests.antt =====
-- A run of the operations on one quota, and witnesses.
use gpu_rental_platform.Common.{
  ◌≤◌, Row, false, ◌+◌, true, ◌*◌, ℕ, String, ◌≡◌, refl, some, none, [], ◌∷◌, inl, ok, err, arith,
  quota_exceeded, quota_below_usage, invalid_transition,
}
use gpu_rental_platform.Common.Int.{pos}
use gpu_rental_platform.Common.Text.{to_lower, trim_space, is_blank}
use gpu_rental_platform.Identity.{Entropy, is_uuid, new_uuid}
use gpu_rental_platform.Tenancy.{
  Acceptance, Project, Quota, QuotaReservation, pending, committed, released, MutationContext,
  shared,
}
use gpu_rental_platform.Storage.Reads.{get_quota}
use gpu_rental_platform.Storage.Reads.Laws.{set_quota_shown}
use gpu_rental_platform.Storage.Db.{Db, empty_db, Operation, OperationStatus}
use gpu_rental_platform.Storage.Mutation.{
  accept_mutation, accept_new, create_in_tx, insert_operation, insert_event, insert_domain_event,
  insert_audit_event, record_idempotency, idempotency_scope, set_fields, complete_operation,
  load_idempotency, validate_mutation_context, tables_after,
}
use gpu_rental_platform.Storage.Quota.{
  SetQuotaParams, ReserveQuotaParams, set_quota, upsert_quota, update_quota, reserve_quota,
  insert_reservation, moved, may_move, move_reservation, transition_quota_reservation,
  release_quota_reservation, is_resource_class, commit_quota_reservation,
}
use gpu_rental_platform.Storage.Quota.Accounts.{held, Accounted}
use gpu_rental_platform.Storage.Quota.Steps.{
  Reach, start, next, sets, reserves, releases, leaves, Reach-Accounted, quota_never_oversold,
}
use gpu_rental_platform.Storage.Quota.Closed.{closed_forever}

code : Unit {0}
unfolding tables_after is_uuid new_uuid is_blank trim_space to_lower accept_mutation accept_new
    create_in_tx insert_operation insert_event insert_domain_event insert_audit_event
    record_idempotency idempotency_scope set_fields complete_operation load_idempotency
    validate_mutation_context set_quota upsert_quota update_quota reserve_quota insert_reservation
    moved may_move move_reservation transition_quota_reservation release_quota_reservation
    is_resource_class
code = tt

abbrev project_id : String
project_id = "aaaaaaaa-0000-4000-8000-000000000001"

abbrev operation_id : String
operation_id = "bbbbbbbb-0000-4000-8000-000000000002"

-- Sixteen equal bytes for each read.
abbrev random : Entropy
random k =
    let b = 16 * k + k in some (b ∷ b ∷ b ∷ b ∷ b ∷ b ∷ b ∷ b ∷ b ∷ b ∷ b ∷ b ∷ b ∷ b ∷ b ∷ b ∷ [])

abbrev project : Project
project = record {
  id = project_id;
  tenant_id = project_id;
  name = "Vision";
  slug = "vision";
  isolation_class = shared;
  namespace_name = "tenant-a";
  desired_state = "running";
  observed_state = "unknown";
  provisioning_state = "pending";
  generation = 1;
  created_at = 0;
  updated_at = 0;
}

abbrev operation : Operation
operation = record {
  id = operation_id;
  kind = "workspace.create";
  status = OperationStatus.queued;
  target_type = "workspace";
  target_id = "w1";
  progress = 0;
  retryable = true;
  request_id = "r1";
  created_at = 0;
  updated_at = 0;
  started_at = none;
  finished_at = none;
}

abbrev furnished : Db
furnished = record empty_db { projects = project ∷ []; operations = operation ∷ [] }

abbrev mutation : MutationContext
mutation = record {
  principal_id = "u1";
  request_id = "r2";
  idempotency_key = "key-0001";
  request_hash = "h1";
}

abbrev class : String
class = "gpu.nvidia.full"

abbrev eight : SetQuotaParams
eight = record {
  mutation = mutation;
  project_id = project_id;
  resource_class = class;
  hard_limit = pos 8;
}

abbrev limited : Db
limited = tables_after furnished (set_quota random 1 10 eight furnished)

abbrev acceptance : Acceptance
acceptance = record {
  resource_id = "aaaaaaaa-0000-4000-8000-000000000001/gpu.nvidia.full";
  operation_id = "11111111-1111-4111-9111-111111111111";
  replayed = false;
}

limit_set : set_quota random 1 10 eight furnished ≡ ok (acceptance, limited)
unfolding code
limit_set = refl

abbrev five : ReserveQuotaParams
five = record {
  project_id = project_id;
  resource_class = class;
  amount = pos 5;
  operation_id = operation_id;
  expires_at = 100;
}

abbrev held_five : QuotaReservation
held_five = record {
  id = "66666666-6666-4666-a666-666666666666";
  project_id = project_id;
  resource_class = class;
  amount = 5;
  status = pending;
  operation_id = operation_id;
  expires_at = 100;
  created_at = 20;
  updated_at = 20;
}

abbrev with_five : Db
with_five = tables_after limited (reserve_quota random 6 20 five limited)

five_reserved : reserve_quota random 6 20 five limited ≡ ok (held_five, with_five)
unfolding code
five_reserved = refl

-- Three of the eight units are left.
four_refused :
    reserve_quota random 8 21 (record five { amount = pos 4 }) with_five ≡ err quota_exceeded
unfolding code
four_refused = refl

-- A replay of the request changes nothing.
limit_replayed :
    set_quota random 8 50 eight with_five ≡ ok (record acceptance { replayed = true }, with_five)
unfolding code
limit_replayed = refl

abbrev four : SetQuotaParams
four = record eight {
  mutation = record mutation { idempotency_key = "key-0002" };
  hard_limit = pos 4;
}

limit_refused : set_quota random 8 30 four with_five ≡ err quota_below_usage
unfolding code
limit_refused = refl

abbrev let_go : Db
let_go =
    tables_after with_five (release_quota_reservation random 8 40 held_five.id released with_five)

abbrev gone : QuotaReservation
gone = record held_five { status = released; updated_at = 40 }

five_released :
    release_quota_reservation random 8 40 held_five.id released with_five ≡ ok (gone, let_go)
unfolding code
five_released = refl

abbrev held_text : String
held_text = "66666666-6666-4666-a666-666666666666"

commit_refused : commit_quota_reservation random 10 41 held_text let_go ≡ err invalid_transition
unfolding code
commit_refused = refl

abbrev nobody : String → String → ℕ
nobody p c = 0

nothing-Accounted : Accounted nobody empty_db
nothing-Accounted = record {
  unique = tt;
  balanced = λ p c. record { reserved_is = refl; allocated_is = refl; within = omega arith };
}

up_to_five : Reach empty_db with_five
up_to_five =
    next limited with_five
      (next furnished limited (next empty_db furnished start (leaves refl refl))
        (sets random 1 10 eight acceptance limit_set))
      (reserves random 6 20 five held_five five_reserved)

up_to_release : Reach empty_db let_go
up_to_release =
    next with_five let_go up_to_five (releases random 8 40 held_text released gone five_released)

let_go-Accounted : Accounted nobody let_go
let_go-Accounted = Reach-Accounted nobody empty_db let_go nothing-Accounted up_to_release

Reach-Accounted_example : Accounted nobody with_five
Reach-Accounted_example = Reach-Accounted nobody empty_db with_five nothing-Accounted up_to_five

abbrev quota_of_five : Quota
quota_of_five = record {
  project_id = project_id;
  resource_class = class;
  hard_limit = 8;
  reserved = 5;
  allocated = 0;
  generation = 2;
  updated_at = 20;
}

five_found : with_five.quotas project_id class ≡ some quota_of_five
unfolding code
five_found = refl

quota_never_oversold_example :
    held pending project_id class with_five.reservations
      + held committed project_id class with_five.reservations
    ≤ 8
quota_never_oversold_example =
    quota_never_oversold with_five project_id class quota_of_five up_to_five five_found

transitioned :
    transition_quota_reservation random 8 40 held_text released with_five ≡ ok (gone, let_go)
unfolding code
transitioned = refl

-- A new limit, behind the release.
abbrev later : Db
later = tables_after let_go (set_quota random 10 70 four let_go)

abbrev acceptance' : Acceptance
acceptance' = record acceptance { operation_id = "aaaaaaaa-aaaa-4aaa-aaaa-aaaaaaaaaaaa" }

limit_lowered : set_quota random 10 70 four let_go ≡ ok (acceptance', later)
unfolding code
limit_lowered = refl

gone_stands : Row gone let_go.reservations
unfolding code
gone_stands = inl refl

closed_forever_example : Row gone later.reservations
closed_forever_example =
    closed_forever nobody let_go later gone let_go-Accounted gone_stands (inl refl)
      (next let_go later start (sets random 10 70 four acceptance' limit_lowered))

set_quota_shown_example :
    (q : Quota) × (get_quota project_id (trim_space class) limited ≡ ok q)
    × (pos q.hard_limit ≡ pos 8)
    × (q.reserved + q.allocated ≤ q.hard_limit)
set_quota_shown_example =
    set_quota_shown random 1 10 eight furnished acceptance limited limit_set refl
