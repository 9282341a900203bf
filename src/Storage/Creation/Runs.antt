-- ===== src/Storage/Creation/Runs.antt =====
-- Runs of the creations of tenants, projects and role bindings, among mutations that leave them alone.
use gpu_rental_platform.Common.{
  ◌≡◌, inl, inr, ℕ, ◌+◌, ◌||◌, not, str_eq, arith, ok, >>=-eq-ok, fail_if-ok, fail_if-eq-ok,
  fail_if, ltb, invalid,
}
use gpu_rental_platform.Common.Text.{trim_space, rune_count, len}
use gpu_rental_platform.Identity.{Entropy, new_uuid, is_uuid}
use gpu_rental_platform.Authorization.{role_allowed_for_scope, valid_scope_type, valid_subject_type}
use gpu_rental_platform.Tenancy.{Acceptance}
use gpu_rental_platform.Storage.Db.{Db, empty_db}
use gpu_rental_platform.Storage.Mutation.Replay.{accept_mutation_once}
use gpu_rental_platform.Storage.Creation.{
  is_shared, TenantParams, ProjectParams, BindingParams, new_project, new_binding, create_tenant,
  create_project, create_role_binding, is_slug,
}
use gpu_rental_platform.Storage.Creation.{is_shared}
use gpu_rental_platform.Storage.Creation.Laws.{
  WellFormed, WellFormed-same, WellFormed-SameDomain, insert_tenant-WellFormed,
  insert_project-WellFormed, insert_binding-WellFormed,
}

-- One committed transaction.
pub data Step (db after : Db) : Type 0 where
  creates_tenant :
      (entropy : Entropy) (k now : ℕ) (params : TenantParams) (a : Acceptance)
      → create_tenant entropy k now params db ≡ ok (a, after)
      → Step db after
  creates_project :
      (entropy : Entropy) (k now : ℕ) (params : ProjectParams) (a : Acceptance)
      → create_project entropy k now params db ≡ ok (a, after)
      → Step db after
  binds_role :
      (entropy : Entropy) (k now : ℕ) (params : BindingParams) (a : Acceptance)
      → create_role_binding entropy k now params db ≡ ok (a, after)
      → Step db after
  leaves :
      after.tenants ≡ db.tenants
      → after.projects ≡ db.projects
      → after.role_bindings ≡ db.role_bindings
      → Step db after

pub data Reach (db : Db) : Db → Type 0 where
  start : Reach db db
  next : (mid after : Db) → Reach db mid → Step mid after → Reach db after

Step-WellFormed : (db after : Db) → WellFormed db → Step db after → WellFormed after
unfolding create_tenant create_project create_role_binding
Step-WellFormed db after good (creates_tenant entropy k now params a h) =
    let h₁ =
      fail_if-ok
        (str_eq (trim_space params.name) "" || ltb 120 (rune_count (trim_space params.name))) _ _
        h in
    let h₂ = fail_if-ok (not (is_slug (trim_space params.slug))) _ _ h₁ in
    let (id, _, h₃) = >>=-eq-ok (new_uuid entropy k) _ h₂ in
    elim (accept_mutation_once entropy (k + 1) now params.mutation _ db a after h₃) [
      | inl (_, same) ↦ rw same good
      | inr (_, applied, did, adds) ↦
          WellFormed-SameDomain applied after
            (insert_tenant-WellFormed id (trim_space params.name) (trim_space params.slug) now db
              applied good did)
            adds.same
    ]
Step-WellFormed db after good (creates_project entropy k now params a h) =
    let h₁ = fail_if-ok (not (is_uuid params.tenant_id)) _ _ h in
    let h₂ =
      fail_if-ok
        (str_eq (trim_space params.name) "" || ltb 120 (rune_count (trim_space params.name))) _ _
        h₁ in
    let h₃ = fail_if-ok (not (is_slug (trim_space params.slug))) _ _ h₂ in
    let h₄ = fail_if-ok (not (is_shared params.isolation_class)) _ _ h₃ in
    let (id, _, h₅) = >>=-eq-ok (new_uuid entropy k) _ h₄ in
    elim (accept_mutation_once entropy (k + 1) now params.mutation _ db a after h₅) [
      | inl (_, same) ↦ rw same good
      | inr (_, applied, did, adds) ↦
          WellFormed-SameDomain applied after
            (insert_project-WellFormed (new_project id params now) db applied good did) adds.same
    ]
Step-WellFormed db after good (binds_role entropy k now params a h) =
    let h₁ = fail_if-ok (not (is_uuid params.scope_id)) _ _ h in
    let h₂ = fail_if-ok (not (valid_scope_type params.scope_type)) _ _ h₁ in
    let h₃ = fail_if-ok (not (valid_subject_type params.subject_type)) _ _ h₂ in
    let h₄ =
      fail_if-ok
        (str_eq (trim_space params.subject_id) "" || ltb 255 (len (trim_space params.subject_id))) _
        _ h₃ in
    let (_, c, h₅) =
      >>=-eq-ok
        (fail_if (not (role_allowed_for_scope params.role params.scope_type params.subject_type))
          invalid)
        _ h₄ in
    let denied =
      fail_if-eq-ok (not (role_allowed_for_scope params.role params.scope_type params.subject_type))
        _ c in
    let (id, _, h₆) = >>=-eq-ok (new_uuid entropy k) _ h₅ in
    elim (accept_mutation_once entropy (k + 1) now params.mutation _ db a after h₆) [
      | inl (_, same) ↦ rw same good
      | inr (_, applied, did, adds) ↦
          WellFormed-SameDomain applied after
            (insert_binding-WellFormed (new_binding id params now) db applied good (ground arith)
              did)
            adds.same
    ]
Step-WellFormed db after good (leaves t p b) = WellFormed-same db after good t p b

-- In every run of the three creations from empty tables, among mutations that leave these tables
-- alone: no two tenants have the same slug and no two projects the same
-- namespace, each project belongs to a tenant that exists, and each role binding has a role that is
-- allowed for its scope and subject, in a tenant or project that exists.
pub Reach-WellFormed : (after : Db) → Reach empty_db after → WellFormed after
Reach-WellFormed _ start = record { slugs = tt; namespaces = tt; owned = tt; legal = tt }
Reach-WellFormed after (next mid _ run step) =
    Step-WellFormed mid after (Reach-WellFormed mid run) step
