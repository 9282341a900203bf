-- ===== src/Storage/Quota.antt =====
-- Quotas and their reservations: `SetQuota`, `ReserveQuota`, `CommitQuotaReservation`,
-- `ReleaseQuotaReservation` and `transitionQuotaReservation` of internal/storage/postgres/tenancy.go,
-- with the constraints of migrations/000002_phase1_tenancy.up.sql. Amounts are at most a quota's hard
-- limit, a `bigint`, so that no sum here leaves 64 bits.
pub mod Accounts
pub mod Transitions
pub mod Reservations
pub mod Steps
pub mod Closed
mod Tests
use gpu_rental_platform.Common.{
  ℕ, ◌+◌, ◌-◌, String, Bool, true, false, not, ◌&&◌, ◌||◌, Option, none, some, List, [], ◌∷◌, ◌++◌,
  ltb, leb, ◌==◌, if◌then◌else◌, str_eq, is_some, any, all, find, update, length, Outcome, ok, err,
  Error, invalid, not_found, conflict, quota_exceeded, quota_below_usage, invalid_transition,
  failure, fail_if, or_fail, ◌>>=◌, ◌>>◌,
}
use gpu_rental_platform.Common.Int.{ℤ, pos, negsuc, pos_part, ltb_ℤ, leb_ℤ}
use gpu_rental_platform.Common.Text.{codes, trim_space, to_lower, ◌+++◌}
use gpu_rental_platform.Identity.{Entropy, new_uuid, is_uuid}
use gpu_rental_platform.Tenancy.{
  Quota, QuotaReservation, ReservationStatus, pending, committed, released, expired, Acceptance,
  MutationContext,
}
use gpu_rental_platform.Storage.Db.{Db, Value, text, number, Operation}
use gpu_rental_platform.Storage.Mutation.{Spec, Fields, accept_mutation, insert_domain_event}

is_class_start : ℕ → Bool
is_class_start c = (leb 97 c && leb c 122) || (leb 48 c && leb c 57)

is_class_rest : ℕ → Bool
unfolding is_class_start
is_class_rest c = is_class_start c || c == 46 || c == 95 || c == 45

class_codes : List ℕ → Bool
unfolding is_class_start is_class_rest
class_codes [] = false
class_codes (c ∷ cs) = is_class_start c && all is_class_rest cs && leb (length cs) 63

-- `resourceClassPattern`: ^[a-z0-9][a-z0-9._-]{0,63}$
unfoldable pub is_resource_class : String → Bool
unfolding class_codes
is_resource_class s = class_codes (codes s)

-- `tenancy.SetQuotaParams`
pub record SetQuotaParams : Type 0 where
  pub mutation : MutationContext
  pub project_id : String
  pub resource_class : String
  pub hard_limit : ℤ

-- `tenancy.ReserveQuotaParams`
pub record ReserveQuotaParams : Type 0 where
  pub project_id : String
  pub resource_class : String
  pub amount : ℤ
  pub operation_id : String
  pub expires_at : ℕ

-- The row of project_quotas under its key becomes `q`.
abbrev pub put_quota : String → String → Quota → Db → Db
put_quota p c q db = record db {
  quotas = λ p' c'. if str_eq p' p && str_eq c' c then some q else db.quotas p' c';
}

-- An UPDATE of the quota of a class in a project: no row is no error, and a row that breaks the CHECK
-- on its usage is one. `f` is `none` where a column would be negative.
unfoldable pub update_quota : String → String → (Quota → Option Quota) → Db → Outcome Db
update_quota p c f db = elim (db.quotas p c) [
  | none ↦ ok db
  | some q ↦ do
    changed ← or_fail (f q) (failure "quota check")
    fail_if (ltb changed.hard_limit (changed.reserved + changed.allocated)) (failure "quota check")
    ok (put_quota p c changed db)
]

-- `apply` of `SetQuota`: INSERT … ON CONFLICT DO UPDATE … WHERE reserved + allocated <= EXCLUDED.hard_limit
unfoldable pub upsert_quota : String → String → ℕ → ℕ → Db → Outcome Db
upsert_quota p c limit now db = do
  fail_if (not (any (λ x. str_eq x.id p) db.projects)) not_found
  elim (db.quotas p c) [
    | none ↦ ok (
        put_quota p c
          (record {
            project_id = p;
            resource_class = c;
            hard_limit = limit;
            reserved = 0;
            allocated = 0;
            generation = 1;
            updated_at = now;
          })
          db)
    | some q ↦
        if leb (q.reserved + q.allocated) limit
        then ok (
            put_quota p c
              (record q { hard_limit = limit; generation = q.generation + 1; updated_at = now }) db)
        else err quota_below_usage
  ]

abbrev pub gpu_class : String
gpu_class = "gpu.nvidia.full"

abbrev pub set_quota_spec : String → String → ℤ → Spec
set_quota_spec p c limit = record {
  kind = "quota.set";
  resource_type = "quota";
  resource_id = p +++ "/" +++ c;
  event_type = if str_eq c gpu_class then "project.gpu-quota.updated" else "quota.updated";
  scope_type = "project";
  scope_id = p;
  event_fields =
      ("projectId", text p) ∷ ("resourceClass", text c) ∷ ("hardLimit", number limit) ∷ [];
  complete_immediately = false;
  apply = upsert_quota (to_lower p) c (pos_part limit);
}

-- `SetQuota`
unfoldable pub set_quota : Entropy → ℕ → ℕ → SetQuotaParams → Db → Outcome (Acceptance × Db)
set_quota entropy k now params db = do
  fail_if (not (is_uuid params.project_id)) not_found
  let class = trim_space params.resource_class
  fail_if (not (is_resource_class class)) invalid
  fail_if (ltb_ℤ params.hard_limit (pos 0)) invalid
  accept_mutation entropy k now params.mutation
      (set_quota_spec params.project_id class params.hard_limit) db

-- INSERT INTO quota_reservations, with its keys: `id`, `operation_id` and the reference to operations
unfoldable pub insert_reservation : QuotaReservation → Db → Outcome Db
insert_reservation r db = do
  fail_if (any (λ x. str_eq x.id r.id) db.reservations) conflict
  fail_if (any (λ x. str_eq x.operation_id r.operation_id) db.reservations) conflict
  fail_if (not (any (λ (o : Operation). str_eq o.id r.operation_id) db.operations)) not_found
  ok (record db { reservations = db.reservations ++ r ∷ [] })

abbrev pub reservation_fields : QuotaReservation → Fields
reservation_fields r =
    ("reservationId", text r.id)
    ∷ ("projectId", text r.project_id)
    ∷ ("resourceClass", text r.resource_class)
    ∷ ("amount", number (pos r.amount))
    ∷ ("operationId", text r.operation_id)
    ∷ []

abbrev pub reserve : ℕ → ℕ → Quota → Option Quota
reserve amount now q =
    some
      (record q { reserved = q.reserved + amount; generation = q.generation + 1; updated_at = now })

-- The row of a new reservation: its `uuid` columns hold lower case.
abbrev pub stored : QuotaReservation → QuotaReservation
stored r = record r {
  id = to_lower r.id;
  project_id = to_lower r.project_id;
  operation_id = to_lower r.operation_id;
}

-- `ReserveQuota`
unfoldable pub reserve_quota :
    Entropy → ℕ → ℕ → ReserveQuotaParams → Db → Outcome (QuotaReservation × Db)
reserve_quota entropy k now params db = do
  fail_if (not (is_uuid params.project_id) || not (is_uuid params.operation_id)) not_found
  fail_if (not (is_resource_class params.resource_class)) invalid
  fail_if (leb_ℤ params.amount (pos 0)) invalid
  fail_if (leb params.expires_at now) invalid
  let amount = pos_part params.amount
  q ← or_fail (db.quotas (to_lower params.project_id) params.resource_class) not_found
  fail_if (ltb q.hard_limit (amount + q.reserved + q.allocated)) quota_exceeded
  id ← new_uuid entropy k
  let result : QuotaReservation = record {
    id = id;
    project_id = params.project_id;
    resource_class = params.resource_class;
    amount = amount;
    status = pending;
    operation_id = params.operation_id;
    expires_at = params.expires_at;
    created_at = now;
    updated_at = now;
  }
  counted ← update_quota (to_lower params.project_id) params.resource_class (reserve amount now) db
  inserted ← insert_reservation (stored result) counted
  announced ←
      insert_domain_event entropy (k + 1) "quota_reservation" id "quota_reservation.created"
        (reservation_fields result) now inserted
  ok (result, announced)

abbrev pub status_eq : ReservationStatus → ReservationStatus → Bool
status_eq pending pending = true
status_eq committed committed = true
status_eq released released = true
status_eq expired expired = true
status_eq _ _ = false

abbrev pub status_text : ReservationStatus → String
status_text pending = "pending"
status_text committed = "committed"
status_text released = "released"
status_text expired = "expired"

-- The three updates of a quota for a reservation that leaves its status for another.
unfoldable pub moved : ReservationStatus → ReservationStatus → ℕ → ℕ → Quota → Option Quota
moved pending committed n now q =
    if leb n q.reserved
    then some (record q {
      reserved = q.reserved - n;
      allocated = q.allocated + n;
      generation = q.generation + 1;
      updated_at = now;
    })
    else none
moved pending _ n now q =
    if leb n q.reserved
    then some
        (record q { reserved = q.reserved - n; generation = q.generation + 1; updated_at = now })
    else none
moved _ _ n now q =
    if leb n q.allocated
    then some
        (record q { allocated = q.allocated - n; generation = q.generation + 1; updated_at = now })
    else none

abbrev pub set_status : ReservationStatus → ℕ → QuotaReservation → QuotaReservation
set_status target now r = record r { status = target; updated_at = now }

unfoldable pub may_move : ReservationStatus → ReservationStatus → Bool
may_move from target =
    status_eq from pending || (status_eq from committed && status_eq target released)

-- What `transitionQuotaReservation` does behind its replay and its guard.
unfoldable pub move_reservation :
    Entropy → ℕ → ℕ → QuotaReservation → ReservationStatus → Db → Outcome (QuotaReservation × Db)
move_reservation entropy k now r target db = do
  counted ← update_quota r.project_id r.resource_class (moved r.status target r.amount now) db
  let written = record counted {
    reservations = update (λ x. str_eq x.id r.id) (set_status target now) counted.reservations;
  }
  announced ←
      insert_domain_event entropy k "quota_reservation" r.id
        ("quota_reservation." +++ status_text target) (reservation_fields r) now written
  ok (set_status target now r, announced)

-- `transitionQuotaReservation`
unfoldable pub transition_quota_reservation :
    Entropy → ℕ → ℕ → String → ReservationStatus → Db → Outcome (QuotaReservation × Db)
unfolding may_move
transition_quota_reservation entropy k now id target db = do
  fail_if (not (is_uuid id)) not_found
  r ← or_fail (find (λ x. str_eq x.id (to_lower id)) db.reservations) not_found
  if status_eq r.status target
      then ok (r, db)
      else (fail_if (not (may_move r.status target)) invalid_transition
          >> move_reservation entropy k now r target db)

-- `CommitQuotaReservation`
abbrev pub commit_quota_reservation :
    Entropy → ℕ → ℕ → String → Db → Outcome (QuotaReservation × Db)
commit_quota_reservation entropy k now id db =
    transition_quota_reservation entropy k now id committed db

-- `ReleaseQuotaReservation`
unfoldable pub release_quota_reservation :
    Entropy → ℕ → ℕ → String → ReservationStatus → Db → Outcome (QuotaReservation × Db)
unfolding transition_quota_reservation
release_quota_reservation entropy k now id status db = do
  fail_if (not (status_eq status released) && not (status_eq status expired)) invalid_transition
  transition_quota_reservation entropy k now id status db
