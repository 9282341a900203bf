-- ===== src/Authorization/Policy/Bindings.antt =====
-- The WHERE clause of `Authorize` returns the bindings of the user that cover the scope.
use gpu_rental_platform.Common.{
  ◌≡◌, inl, inr, refl, sym, String, true, List, find, str_eq, eq_iff, eq_refl, arith, Option-cases,
  ◌&&◌,
}
use gpu_rental_platform.Common.Text.{trim_space, to_lower}
use gpu_rental_platform.Tenancy.{RoleBinding, Project}
use gpu_rental_platform.Authorization.{
  Request, is_tenant, is_project, is_user, scope_eq, owned_by, binding_applies,
}
use gpu_rental_platform.Authorization.Policy.{IsOwned, IsFor}
use gpu_rental_platform.Authorization.Policy.Sets.{
  and_true, or_true, is_tenant_eq, is_project_eq, is_user_eq, scope_eq_eq, scope_eq_refl,
}

owned_by-IsOwned :
    (projects : List Project) (tenant project : String)
    → owned_by projects tenant project ≡ true
    → IsOwned projects tenant project
unfolding owned_by
owned_by-IsOwned projects tenant project h =
    elim (Option-cases (find (λ x. str_eq x.id project) projects)) [
      | inl e ↦ absurd (let h' = rw (owned_by, e) at h in cc)
      | inr (p, e) ↦ (p, e, sym ((eq_iff tenant p.tenant_id).0 (rw (owned_by, e) at h)))
    ]

IsOwned-owned_by :
    (projects : List Project) (tenant project : String)
    → IsOwned projects tenant project
    → owned_by projects tenant project ≡ true
unfolding owned_by
IsOwned-owned_by projects tenant project (p, e, same) = rw (owned_by, e, same) (eq_refl tenant)

pub binding_applies-IsFor :
    (projects : List Project) (r : Request) (b : RoleBinding)
    → binding_applies projects (trim_space r.subject_id) r.scope_type r.scope_id b ≡ true
    → IsFor projects r b
unfolding binding_applies
binding_applies-IsFor projects r b h =
    let id = to_lower r.scope_id in
    let (h₁, h₂) =
      and_true (is_user b.subject_type && str_eq b.subject_id (trim_space r.subject_id)) _ h in
    let (u, n) = and_true (is_user b.subject_type) _ h₁ in
    record {
      user = is_user_eq b.subject_type u;
      named = (eq_iff b.subject_id (trim_space r.subject_id)).0 n;
      covers = elim (or_true (scope_eq b.scope_type r.scope_type && str_eq b.scope_id id) _ h₂) [
        | inl t ↦
            let (t₁, t₂) = and_true (scope_eq b.scope_type r.scope_type) _ t in
            inl (scope_eq_eq b.scope_type r.scope_type t₁, (eq_iff b.scope_id id).0 t₂)
        | inr t ↦
            let (t', t₃) = and_true (is_project r.scope_type && is_tenant b.scope_type) _ t in
            let (t₁, t₂) = and_true (is_project r.scope_type) _ t' in
            inr (
              is_project_eq r.scope_type t₁,
              is_tenant_eq b.scope_type t₂,
              owned_by-IsOwned projects b.scope_id id t₃,
            )
      ];
    }

pub IsFor-binding_applies :
    (projects : List Project) (r : Request) (b : RoleBinding)
    → IsFor projects r b
    → binding_applies projects (trim_space r.subject_id) r.scope_type r.scope_id b ≡ true
unfolding binding_applies
IsFor-binding_applies projects r b f =
    let id = to_lower r.scope_id in
    let user : is_user b.subject_type ≡ true = rw (f.user) refl in
    let named : str_eq b.subject_id (trim_space r.subject_id) ≡ true =
      (eq_iff b.subject_id (trim_space r.subject_id)).1 f.named in
    elim f.covers [
      | inl (scope, same) ↦
          let t₁ : scope_eq b.scope_type r.scope_type ≡ true =
            rw scope (scope_eq_refl r.scope_type) in
          let t₂ : str_eq b.scope_id id ≡ true = (eq_iff b.scope_id id).1 same in
          rw (user, named, t₁, t₂) refl
      | inr (project, tenant, owned) ↦
          let t₁ : is_project r.scope_type ≡ true = rw project refl in
          let t₂ : is_tenant b.scope_type ≡ true = rw tenant refl in
          let t₃ = IsOwned-owned_by projects b.scope_id id owned in ground arith
    ]
