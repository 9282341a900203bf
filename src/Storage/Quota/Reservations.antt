-- ===== src/Storage/Quota/Reservations.antt =====
-- New limits and new reservations keep the accounts balanced.
use mathlib.Core.Path.{subst}
use gpu_rental_platform.Common.{
  ltb, not_found, Bool-cases, or_fail, inr, leb, inl, Option-cases, ◌||◌, not, conflict, is_some,
  fail_if, ◌≡◌, ◌≢◌, refl, sym, ℕ, ◌+◌, String, true, false, List, [], ◌∷◌, ◌++◌, str_eq, eq_iff,
  any, All, arith, sum-append, Unique-append, ok, >>=-eq-ok, fail_if-ok, fail_if-eq-ok,
  or_fail-eq-ok, ok-injective,
}
use gpu_rental_platform.Tenancy.{QuotaReservation, pending, committed}
use gpu_rental_platform.Identity.{new_uuid, is_uuid, Entropy}
use gpu_rental_platform.Storage.Quota.Transitions.{weight-apart, weight-own}
use gpu_rental_platform.Storage.Mutation.Laws.{insert_domain_event-ok, SameDomain}
use gpu_rental_platform.Storage.Db.{Operation, Db}
use gpu_rental_platform.Storage.Quota.{
  reservation_fields, insert_domain_event, pos_part, to_lower, pos, leb_ℤ, is_resource_class,
  reserve_quota, stored, ReserveQuotaParams, upsert_quota, insert_reservation, update_quota,
  reserve,
}
use gpu_rental_platform.Storage.Quota.Accounts.{
  put_quota-Accounted, Accounted, Accounted-write, Accounted-SameDomain, weight, id_of,
  update_quota-reservations,
}

fresh_id :
    (k : String) (rs : List QuotaReservation)
    → any (λ x. str_eq x.id k) rs ≡ false
    → All (λ x. x.id ≢ k) rs
fresh_id k [] h = tt
fresh_id k (r ∷ rs) h = ground (arith, eq_iff r.id k, fresh_id k rs)

-- A successful insertion adds one reservation with a new id.
insert_reservation-ok :
    (r : QuotaReservation) (db after : Db)
    → insert_reservation r db ≡ ok after
    → All (λ x. x.id ≢ r.id) db.reservations
      × (after ≡ record db { reservations = db.reservations ++ r ∷ [] })
unfolding insert_reservation
insert_reservation-ok r db after h =
    let (_, c, h₁) =
      >>=-eq-ok (fail_if (any (λ x. str_eq x.id r.id) db.reservations) conflict) _ h in
    let h₂ = fail_if-ok (any (λ x. str_eq x.operation_id r.operation_id) db.reservations) _ _ h₁ in
    let h₃ =
      fail_if-ok (not (any (λ (o : Operation). str_eq o.id r.operation_id) db.operations)) _ _ h₂ in
    (
      fresh_id r.id db.reservations
          (fail_if-eq-ok (any (λ x. str_eq x.id r.id) db.reservations) _ c),
      sym (ok-injective h₃),
    )

-- A quota whose reserved units grow by those of a new pending reservation.
add-Accounted :
    (others : String → String → ℕ) (now : ℕ) (r : QuotaReservation) (db counted inserted : Db)
    → Accounted others db
    → r.status ≡ pending
    → is_some (db.quotas r.project_id r.resource_class) ≡ true
    → update_quota r.project_id r.resource_class (reserve r.amount now) db ≡ ok counted
    → insert_reservation r counted ≡ ok inserted
    → Accounted others inserted
add-Accounted others now r db counted inserted good is_pending has e₁ e₂ =
    let kept =
      update_quota-reservations r.project_id r.resource_class (reserve r.amount now) db counted
        e₁ in
    let (fresh, same) = insert_reservation-ok r counted inserted e₂ in
    let rs = db.reservations ++ r ∷ [] in
    let weighs : weight pending r.project_id r.resource_class r ≡ r.amount =
      rw (weight-own pending r, is_pending) refl in
    let weighs' : weight committed r.project_id r.resource_class r ≡ 0 =
      rw (weight-own committed r, is_pending) refl in
    let good' =
      Accounted-write others r.project_id r.resource_class (reserve r.amount now) db counted rs good
        e₁ (Unique-append id_of db.reservations r good.unique (rw kept at fresh))
        (λ s p c apart.
          let zero_weight = weight-apart s p c r apart in
          omega (arith, sum-append (weight s p c) db.reservations (r ∷ [])))
        (λ q q' e a b. ground (
          arith,
          sum-append (weight pending r.project_id r.resource_class) db.reservations (r ∷ []),
          sum-append (weight committed r.project_id r.resource_class) db.reservations (r ∷ []),
        ))
        (λ e. absurd (ground arith)) in
    rw (same, kept) good'

-- The new reservation, and the tables between the statements that make it.
abbrev Reserved : ℕ → Db → QuotaReservation → Db → Type 0
Reserved now db result after =
    (result.status ≡ pending)
    × (is_some (db.quotas (to_lower result.project_id) result.resource_class) ≡ true)
    × (counted : Db) × (update_quota (to_lower result.project_id) result.resource_class
          (reserve result.amount now) db
        ≡ ok counted)
    × (inserted : Db) × (insert_reservation (stored result) counted ≡ ok inserted)
    × SameDomain inserted after

reserve_quota-ok :
    (entropy : Entropy) (k now : ℕ) (params : ReserveQuotaParams) (db : Db)
    (result : QuotaReservation) (after : Db)
    → reserve_quota entropy k now params db ≡ ok (result, after)
    → Reserved now db result after
unfolding reserve_quota
reserve_quota-ok entropy k now params db result after h =
    let h₁ =
      fail_if-ok (not (is_uuid params.project_id) || not (is_uuid params.operation_id)) _ _ h in
    let h₂ = fail_if-ok (not (is_resource_class params.resource_class)) _ _ h₁ in
    let h₃ = fail_if-ok (leb_ℤ params.amount (pos 0)) _ _ h₂ in
    let h₄ = fail_if-ok (leb params.expires_at now) _ _ h₃ in
    let (q, found, h₅) =
      >>=-eq-ok (or_fail (db.quotas (to_lower params.project_id) params.resource_class) not_found) _
        h₄ in
    let h₆ =
      fail_if-ok (ltb q.hard_limit (pos_part params.amount + q.reserved + q.allocated)) _ _ h₅ in
    let (id, e, h₇) = >>=-eq-ok (new_uuid entropy k) _ h₆ in
    let r : QuotaReservation = record {
      id = id;
      project_id = params.project_id;
      resource_class = params.resource_class;
      amount = pos_part params.amount;
      status = pending;
      operation_id = params.operation_id;
      expires_at = params.expires_at;
      created_at = now;
      updated_at = now;
    } in
    let (counted, e₁, h₈) =
      >>=-eq-ok
        (update_quota (to_lower params.project_id) params.resource_class
          (reserve (pos_part params.amount) now) db)
        _ h₇ in
    let (inserted, e₂, h₉) = >>=-eq-ok (insert_reservation (stored r) counted) _ h₈ in
    let (announced, e₃, h₀) =
      >>=-eq-ok
        (insert_domain_event entropy (k + 1) "quota_reservation" id "quota_reservation.created"
          (reservation_fields r) now inserted)
        _ h₉ in
    let said =
      insert_domain_event-ok entropy (k + 1) "quota_reservation" id "quota_reservation.created"
        (reservation_fields r) now inserted announced e₃ in
    let known =
      or_fail-eq-ok (db.quotas (to_lower params.project_id) params.resource_class) _ found in
    let same = ok-injective h₀ in
    subst (λ x. Reserved now db x.0 x.1) same
      (refl, rw known refl, counted, e₁, inserted, e₂, said.same)

pub reserve_quota-Accounted :
    (others : String → String → ℕ) (entropy : Entropy) (k now : ℕ) (params : ReserveQuotaParams)
    (db : Db) (result : QuotaReservation) (after : Db)
    → Accounted others db
    → reserve_quota entropy k now params db ≡ ok (result, after)
    → Accounted others after
reserve_quota-Accounted others entropy k now params db result after good h =
    let (fresh, has, counted, e₁, inserted, e₂, same) =
      reserve_quota-ok entropy k now params db result after h in
    Accounted-SameDomain others inserted after
      (add-Accounted others now (stored result) db counted inserted good fresh has e₁ e₂) same

-- A new reservation is added behind the others.
pub reserve_quota-reservations :
    (entropy : Entropy) (k now : ℕ) (params : ReserveQuotaParams) (db : Db)
    (result : QuotaReservation) (after : Db)
    → reserve_quota entropy k now params db ≡ ok (result, after)
    → after.reservations ≡ db.reservations ++ stored result ∷ []
reserve_quota-reservations entropy k now params db result after h =
    let (_, _, counted, e₁, inserted, e₂, same) =
      reserve_quota-ok entropy k now params db result after h in
    let (_, added) = insert_reservation-ok (stored result) counted inserted e₂ in
    let kept = update_quota-reservations _ _ _ db counted e₁ in
    rw (same.reservations, added, kept) refl

-- `apply` of `SetQuota`: the sums stay, and the new limit is not below them.
pub upsert_quota-Accounted :
    (others : String → String → ℕ) (p c : String) (limit now : ℕ) (db after : Db)
    → Accounted others db
    → upsert_quota p c limit now db ≡ ok after
    → Accounted others after
unfolding upsert_quota
upsert_quota-Accounted others p c limit now db after good h =
    let h₁ = fail_if-ok (not (any (λ x. str_eq x.id p) db.projects)) _ _ h in
    elim (Option-cases (db.quotas p c)) [
      | inl e ↦
          rw (← (ok-injective (rw e at h₁)))
            (put_quota-Accounted others p c _ db good (rw e refl) (rw e refl) (omega arith))
      | inr (q, e) ↦ elim (Bool-cases (leb (q.reserved + q.allocated) limit)) [
        | inl t ↦
            rw (← (ok-injective (rw (e, t) at h₁)))
              (put_quota-Accounted others p c _ db good (rw e refl) (rw e refl) (ground arith))
        | inr t ↦ absurd (ground arith)
      ]
    ]

pub upsert_quota-reservations :
    (p c : String) (limit now : ℕ) (db after : Db)
    → upsert_quota p c limit now db ≡ ok after
    → after.reservations ≡ db.reservations
unfolding upsert_quota
upsert_quota-reservations p c limit now db after h =
    let h₁ = fail_if-ok (not (any (λ x. str_eq x.id p) db.projects)) _ _ h in
    elim (Option-cases (db.quotas p c)) [
      | inl e ↦ rw (← (ok-injective (rw e at h₁))) refl
      | inr (q, e) ↦ elim (Bool-cases (leb (q.reserved + q.allocated) limit)) [
        | inl t ↦ rw (← (ok-injective (rw (e, t) at h₁))) refl
        | inr t ↦ absurd (ground arith)
      ]
    ]
