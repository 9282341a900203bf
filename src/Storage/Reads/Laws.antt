-- ===== src/Storage/Reads/Laws.antt =====
-- What the reads show of the writes.
use gpu_rental_platform.Common.{
  invalid, ◌≡◌, ◌≤◌, inl, inr, refl, ap, ◌∙◌, ℕ, ◌+◌, String, true, false, not, some, ok, not_found,
  fail_if, fail_if-ok, >>=-eq-ok, fail_if-eq-ok, ok-injective, arith, eq_refl, str_eq, any,
  Option-cases, Bool-cases, leb,
}
use gpu_rental_platform.Common.Int.{pos, pos_part, ltb_ℤ}
use gpu_rental_platform.Common.Text.{to_lower, trim_space}
use gpu_rental_platform.Identity.{Entropy, is_uuid}
use gpu_rental_platform.Tenancy.{Acceptance, Quota}
use gpu_rental_platform.Storage.Db.{Db}
use gpu_rental_platform.Storage.Mutation.Replay.{accept_mutation_once}
use gpu_rental_platform.Storage.Quota.{
  SetQuotaParams, set_quota, set_quota_spec, upsert_quota, is_resource_class,
}
use gpu_rental_platform.Storage.Reads.{get_quota}

upsert_quota-ok :
    (p c : String) (limit now : ℕ) (db applied : Db)
    → upsert_quota p c limit now db ≡ ok applied
    → (q : Quota) × (applied.quotas p c ≡ some q)
      × (q.hard_limit ≡ limit)
      × (q.reserved + q.allocated ≤ q.hard_limit)
unfolding upsert_quota
upsert_quota-ok p c limit now db applied h =
    let h₁ = fail_if-ok (not (any (λ x. str_eq x.id p) db.projects)) _ _ h in
    elim (Option-cases (db.quotas p c)) [
      | inl e ↦
          rw (← (ok-injective (rw e at h₁)), eq_refl p, eq_refl c) (_, refl, refl, omega arith)
      | inr (q, e) ↦ elim (Bool-cases (leb (q.reserved + q.allocated) limit)) [
        | inl t ↦
            rw (← (ok-injective (rw (e, t) at h₁)), eq_refl p, eq_refl c)
              (_, refl, refl, ground arith)
        | inr t ↦ absurd (ground arith)
      ]
    ]

-- A limit that was set, by a call that is no replay, is the one that `GetQuota` shows.
pub set_quota_shown :
    (entropy : Entropy) (k now : ℕ) (params : SetQuotaParams) (db : Db) (a : Acceptance)
    (after : Db)
    → set_quota entropy k now params db ≡ ok (a, after)
    → a.replayed ≡ false
    → (q : Quota) × (get_quota params.project_id (trim_space params.resource_class) after ≡ ok q)
      × (pos q.hard_limit ≡ params.hard_limit)
      × (q.reserved + q.allocated ≤ q.hard_limit)
unfolding set_quota get_quota
set_quota_shown entropy k now params db a after h fresh =
    let (_, c₁, h₁) = >>=-eq-ok (fail_if (not (is_uuid params.project_id)) not_found) _ h in
    let uuid = fail_if-eq-ok (not (is_uuid params.project_id)) _ c₁ in
    let class = trim_space params.resource_class in
    let (_, c₂, h₂) = >>=-eq-ok (fail_if (not (is_resource_class class)) invalid) _ h₁ in
    let known = fail_if-eq-ok (not (is_resource_class class)) _ c₂ in
    let (_, c₃, h₃) = >>=-eq-ok (fail_if (ltb_ℤ params.hard_limit (pos 0)) invalid) _ h₂ in
    let positive = fail_if-eq-ok (ltb_ℤ params.hard_limit (pos 0)) _ c₃ in
    let limit : pos (pos_part params.hard_limit) ≡ params.hard_limit = ground arith in
    let uuid' : is_uuid params.project_id ≡ true = ground arith in
    let known' : is_resource_class class ≡ true = ground arith in
    elim (accept_mutation_once entropy k now params.mutation
      (set_quota_spec params.project_id class params.hard_limit) db a after h₃) [
        | inl (replayed, _) ↦ absurd (ground arith)
        | inr (_, applied, did, adds) ↦
            let (q, found, same, fits) =
              upsert_quota-ok (to_lower params.project_id) class (pos_part params.hard_limit) now db
                applied did in
            (q, rw (uuid', known', adds.same.quotas, found) refl, ap pos same ∙ limit, fits)
      ]
