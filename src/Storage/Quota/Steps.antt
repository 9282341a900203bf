-- ===== src/Storage/Quota/Steps.antt =====
-- Runs of the operations on quotas, among mutations that leave quotas and reservations alone.
use gpu_rental_platform.Common.{
  ◌⊎◌, invalid_transition, fail_if, inr, inl, Bool-cases, not_found, find, or_fail, not, ◌≡◌, ◌≤◌,
  refl, ap, ℕ, ◌+◌, String, ◌&&◌, some, str_eq, arith, Row-find, ok, >>=-eq-ok, fail_if-ok,
  fail_if-eq-ok, or_fail-eq-ok, ok-injective,
}
use gpu_rental_platform.Tenancy.{
  expired, released, Quota, QuotaReservation, ReservationStatus, Acceptance, pending, committed,
}
use gpu_rental_platform.Identity.{is_uuid, Entropy}
use gpu_rental_platform.Storage.Mutation.Replay.{accept_mutation_once}
use gpu_rental_platform.Storage.Mutation.Laws.{SameDomain}
use gpu_rental_platform.Storage.Db.{Db, empty_db}
use gpu_rental_platform.Storage.Quota.{
  upsert_quota, may_move, pos_part, pos, ltb_ℤ, to_lower, trim_space, is_resource_class, status_eq,
  reserve_quota, SetQuotaParams, ReserveQuotaParams, set_quota, set_quota_spec,
  commit_quota_reservation, release_quota_reservation, transition_quota_reservation,
}
use gpu_rental_platform.Storage.Quota.Accounts.{
  Accounted, Accounted-same, Accounted-SameDomain, held,
}
use gpu_rental_platform.Storage.Quota.Transitions.{move_reservation-Accounted}
use gpu_rental_platform.Storage.Quota.Reservations.{reserve_quota-Accounted, upsert_quota-Accounted}

transition-Accounted :
    (others : String → String → ℕ) (entropy : Entropy) (k now : ℕ) (id : String)
    (target : ReservationStatus) (db : Db) (result : QuotaReservation) (after : Db)
    → Accounted others db
    → transition_quota_reservation entropy k now id target db ≡ ok (result, after)
    → Accounted others after
unfolding transition_quota_reservation
transition-Accounted others entropy k now id target db result after good h =
    let h₁ = fail_if-ok (not (is_uuid id)) _ _ h in
    let (r, found, h₂) =
      >>=-eq-ok (or_fail (find (λ x. str_eq x.id (to_lower id)) db.reservations) not_found) _ h₁ in
    let (m, _) =
      Row-find (λ x. str_eq x.id (to_lower id)) r db.reservations
        (or_fail-eq-ok (find (λ x. str_eq x.id (to_lower id)) db.reservations) _ found) in
    elim (Bool-cases (status_eq r.status target)) [
      | inl t ↦ rw (← ap (λ x. x.1) (ok-injective (rw t at h₂))) good
      | inr t ↦
          let h₃ = rw t at h₂ in
          let (_, c, h₄) =
            >>=-eq-ok (fail_if (not (may_move r.status target)) invalid_transition) _ h₃ in
          let allowed = fail_if-eq-ok (not (may_move r.status target)) _ c in
          move_reservation-Accounted others entropy k now r target db result after good m t
            (ground arith) h₄
    ]

-- A successful call left the tables alone, or set the limit and added the books of an acceptance.
pub set_quota-ok :
    (entropy : Entropy) (k now : ℕ) (params : SetQuotaParams) (db : Db) (a : Acceptance)
    (after : Db)
    → set_quota entropy k now params db ≡ ok (a, after)
    → (after ≡ db)
      ⊎ ((applied : Db) × (upsert_quota
              (to_lower params.project_id)
              (trim_space params.resource_class)
              (pos_part params.hard_limit)
              now
              db
            ≡ ok applied)
          × SameDomain applied after)
unfolding set_quota
set_quota-ok entropy k now params db a after h =
    let h₁ = fail_if-ok (not (is_uuid params.project_id)) _ _ h in
    let h₂ = fail_if-ok (not (is_resource_class (trim_space params.resource_class))) _ _ h₁ in
    let h₃ = fail_if-ok (ltb_ℤ params.hard_limit (pos 0)) _ _ h₂ in
    let class = trim_space params.resource_class in
    elim (accept_mutation_once entropy k now params.mutation
      (set_quota_spec params.project_id class params.hard_limit) db a after h₃) [
        | inl (_, same) ↦ inl same
        | inr (_, applied, did, adds) ↦ inr (applied, did, adds.same)
      ]

set_quota-Accounted :
    (others : String → String → ℕ) (entropy : Entropy) (k now : ℕ) (params : SetQuotaParams)
    (db : Db) (a : Acceptance) (after : Db)
    → Accounted others db
    → set_quota entropy k now params db ≡ ok (a, after)
    → Accounted others after
set_quota-Accounted others entropy k now params db a after good h =
    elim (set_quota-ok entropy k now params db a after h) [
      | inl same ↦ rw same good
      | inr (applied, did, same) ↦
          Accounted-SameDomain others applied after
            (upsert_quota-Accounted others (to_lower params.project_id)
              (trim_space params.resource_class) (pos_part params.hard_limit) now db applied good
              did)
            same
    ]

-- One committed transaction.
pub data Step (db after : Db) : Type 0 where
  sets :
      (entropy : Entropy) (k now : ℕ) (params : SetQuotaParams) (a : Acceptance)
      → set_quota entropy k now params db ≡ ok (a, after)
      → Step db after
  reserves :
      (entropy : Entropy) (k now : ℕ) (params : ReserveQuotaParams) (r : QuotaReservation)
      → reserve_quota entropy k now params db ≡ ok (r, after)
      → Step db after
  commits :
      (entropy : Entropy) (k now : ℕ) (id : String) (r : QuotaReservation)
      → commit_quota_reservation entropy k now id db ≡ ok (r, after)
      → Step db after
  releases :
      (entropy : Entropy) (k now : ℕ) (id : String) (status : ReservationStatus)
      (r : QuotaReservation)
      → release_quota_reservation entropy k now id status db ≡ ok (r, after)
      → Step db after
  leaves : after.quotas ≡ db.quotas → after.reservations ≡ db.reservations → Step db after

pub data Reach (db : Db) : Db → Type 0 where
  start : Reach db db
  next : (mid after : Db) → Reach db mid → Step mid after → Reach db after

pub Step-Accounted :
    (others : String → String → ℕ) (db after : Db)
    → Accounted others db
    → Step db after
    → Accounted others after
unfolding release_quota_reservation
Step-Accounted others db after good (sets entropy k now params a h) =
    set_quota-Accounted others entropy k now params db a after good h
Step-Accounted others db after good (reserves entropy k now params r h) =
    reserve_quota-Accounted others entropy k now params db r after good h
Step-Accounted others db after good (commits entropy k now id r h) =
    transition-Accounted others entropy k now id committed db r after good h
Step-Accounted others db after good (releases entropy k now id status r h) =
    transition-Accounted others entropy k now id status db r after good
      (fail_if-ok (not (status_eq status released) && not (status_eq status expired)) _ _ h)
Step-Accounted others db after good (leaves q r) = Accounted-same others db after good q r

-- Balanced accounts stay balanced in every run of the operations on quotas and reservations and of
-- mutations that leave both alone: in each project and class, the reserved units of the
-- quota are those of its pending reservations, the allocated units are those of its committed ones
-- and what others hold, and together they are within the hard limit.
pub Reach-Accounted :
    (others : String → String → ℕ) (db after : Db)
    → Accounted others db
    → Reach db after
    → Accounted others after
Reach-Accounted others db _ good start = good
Reach-Accounted others db after good (next mid _ run step) =
    Step-Accounted others mid after (Reach-Accounted others db mid good run) step

-- In every run from empty tables, of the operations on quotas and reservations and of mutations that
-- leave both alone: the pending and committed reservations of a class in a project never add up to
-- more than the hard limit of its quota.
pub quota_never_oversold :
    (after : Db) (p c : String) (q : Quota)
    → Reach empty_db after
    → after.quotas p c ≡ some q
    → held pending p c after.reservations + held committed p c after.reservations ≤ q.hard_limit
quota_never_oversold after p c q run e =
    let good : Accounted (λ p' c'. 0) empty_db = record {
      unique = tt;
      balanced = λ p' c'. record { reserved_is = refl; allocated_is = refl; within = omega arith };
    } in
    let b = (Reach-Accounted (λ p' c'. 0) empty_db after good run).balanced p c in
    let reserved = rw e at b.reserved_is in
    let allocated = rw e at b.allocated_is in let within = rw e at b.within in ground arith
