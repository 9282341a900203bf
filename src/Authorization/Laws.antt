-- ===== src/Authorization/Laws.antt =====
-- Who is let through, and what a role can never do.
use gpu_rental_platform.Common.{
  inr, inl, Any-All, ◌++◌, All, String, ◌≡◌, ◌≢◌, ◌↔◌, ◌⊎◌, refl, Bool, true, ◌&&◌, List, [], ◌∷◌,
  arith, eq_iff, select, any, Any, any-Any, Any-any, Any-append, Any-map,
}
use gpu_rental_platform.Common.Text.{trim_space}
use gpu_rental_platform.Identity.{is_uuid}
use gpu_rental_platform.Tenancy.{SubjectType, Role, ScopeType, RoleBinding, Project}
use gpu_rental_platform.Authorization.{
  false, role_allowed_for_scope, Request, role_allows, binding_applies, any_allows, authorize,
}

-- A binding that the query returns and whose role allows the action.
abbrev pub Grants : List Project → Request → RoleBinding → Type 0
Grants projects r b =
    (binding_applies projects (trim_space r.subject_id) r.scope_type r.scope_id b ≡ true)
    × (role_allows r.action r.scope_type b.scope_type b.role ≡ true)

-- A request that passes the checks before the query.
abbrev pub IsWellFormed : Request → Type 0
IsWellFormed r =
    (trim_space r.subject_id ≢ "")
    × (is_uuid r.scope_id ≡ true)
    × ((r.scope_type ≡ ScopeType.tenant) ⊎ (r.scope_type ≡ ScopeType.project))

any_allows-select :
    (action : String) (scope : ScopeType) (p : RoleBinding → Bool) (bs : List RoleBinding)
    → any_allows action scope (select p bs)
      ≡ any (λ b. p b && role_allows action scope b.scope_type b.role) bs
unfolding any_allows
any_allows-select action scope p [] = refl
any_allows-select action scope p (b ∷ bs) = ground (arith, any_allows-select action scope p bs)

-- `Authorize` allows a request exactly if it is well formed and the query returns some binding whose
-- role `roleAllows` accepts.
pub authorize-Grants :
    (projects : List Project) (bindings : List RoleBinding) (r : Request)
    → ((authorize projects bindings r).allowed ≡ true)
      ↔ (IsWellFormed r × Any (Grants projects r) bindings)
unfolding authorize
authorize-Grants projects bindings r =
    let p = binding_applies projects (trim_space r.subject_id) r.scope_type r.scope_id in
    let q = λ (b : RoleBinding). p b && role_allows r.action r.scope_type b.scope_type b.role in
    let e = any_allows-select r.action r.scope_type p bindings in
    (
      λ h. (
        ground (arith, eq_iff (trim_space r.subject_id) ""),
        Any-map (λ b g. ground arith) (any-Any q bindings (ground arith)),
      ),
      λ h.
          let found : any q bindings ≡ true = Any-any q (Any-map (λ b g. ground arith) h.1) in
          ground (arith, eq_iff (trim_space r.subject_id) ""),
    )

-- Adding bindings never takes a permission away.
pub authorize_mono :
    (projects : List Project) (bindings more : List RoleBinding) (r : Request)
    → (authorize projects bindings r).allowed ≡ true
    → (authorize projects (more ++ bindings) r).allowed ≡ true
authorize_mono projects bindings more r h =
    let (formed, granted) = (authorize-Grants projects bindings r).0 h in
    (authorize-Grants projects (more ++ bindings) r).1 (formed, Any-append more granted)

abbrev pub IsReadOnly : Role → Type 0
IsReadOnly Role.operator = Unit
IsReadOnly Role.developer = Unit
IsReadOnly Role.viewer = Unit
IsReadOnly Role.auditor = Unit
IsReadOnly Role.service_account = Unit
IsReadOnly _ = ⊥

abbrev pub Mutates : String → Type 0
Mutates action =
    (action ≡ "project.create") ⊎ (action ≡ "role_binding.create") ⊎ (action ≡ "quota.set")

-- What `roleAllows` answers for the three actions that change something.
role_allows-create_project :
    (scope bound : ScopeType) (role : Role)
    → role_allows "project.create" scope bound role ≡ true
    → role ≡ Role.tenant_owner
unfolding role_allows
role_allows-create_project scope bound Role.tenant_owner h = refl
role_allows-create_project scope bound _ h = ground arith

role_allows-create_binding :
    (scope bound : ScopeType) (role : Role)
    → role_allows "role_binding.create" scope bound role ≡ true
    → (role ≡ Role.tenant_owner) ⊎ (role ≡ Role.project_admin)
unfolding role_allows
role_allows-create_binding scope bound Role.tenant_owner h = inl refl
role_allows-create_binding scope bound _ h = ground arith

role_allows-set_quota :
    (scope bound : ScopeType) (role : Role)
    → role_allows "quota.set" scope bound role ≡ true
    → (role ≡ Role.tenant_owner) ⊎ (role ≡ Role.project_admin) ⊎ (role ≡ Role.billing_admin)
unfolding role_allows
role_allows-set_quota scope bound Role.tenant_owner h = inl refl
role_allows-set_quota scope bound _ h = ground arith

-- No operator, developer, viewer, auditor or service account is let through to create a project,
-- to bind a role or to set a quota, in any scope.
pub role_allows-IsReadOnly :
    (action : String) (scope bound : ScopeType) (role : Role)
    → IsReadOnly role
    → Mutates action
    → role_allows action scope bound role ≡ false
role_allows-IsReadOnly action scope bound role ro (inl e) =
    rw e (ground (arith, role_allows-create_project scope bound role))
role_allows-IsReadOnly action scope bound role ro (inr (inl e)) =
    rw e (ground (arith, role_allows-create_binding scope bound role))
role_allows-IsReadOnly action scope bound role ro (inr (inr e)) =
    rw e (ground (arith, role_allows-set_quota scope bound role))

-- The check of `CreateRoleBinding` on a stored binding.
abbrev pub IsBindable : RoleBinding → Type 0
IsBindable b = role_allowed_for_scope b.role b.scope_type b.subject_type ≡ true

-- A role of the tenant is stored on a tenant only.
tenant_owner-scope :
    (scope : ScopeType) (subject : SubjectType)
    → role_allowed_for_scope Role.tenant_owner scope subject ≡ true
    → scope ≡ ScopeType.tenant
unfolding role_allowed_for_scope
tenant_owner-scope ScopeType.tenant subject h = refl
tenant_owner-scope _ subject h = ground arith

-- Where every stored binding passed the check of `CreateRoleBinding`, whoever may create a project
-- holds the role of owner of a tenant, by a binding to that tenant that applies to the request.
pub create_project_needs_owner :
    (projects : List Project) (bindings : List RoleBinding) (r : Request)
    → All IsBindable bindings
    → r.action ≡ "project.create"
    → (authorize projects bindings r).allowed ≡ true
    → Any
        (λ b.
          (b.role ≡ Role.tenant_owner)
          × (b.scope_type ≡ ScopeType.tenant)
          × (binding_applies projects (trim_space r.subject_id) r.scope_type r.scope_id b ≡ true))
        bindings
create_project_needs_owner projects bindings r valid e h =
    Any-map
      (λ b m.
        let owner = role_allows-create_project r.scope_type b.scope_type b.role (rw e at (m.1.1)) in
        (owner, tenant_owner-scope b.scope_type b.subject_type (rw owner at (m.0)), m.1.0))
      (Any-All ((authorize-Grants projects bindings r).0 h).1 valid)

-- On a project, a binding to its tenant counts for an owner of the tenant only.
pub tenant_binding_on_project :
    (action : String) (role : Role)
    → (role_allows action ScopeType.project ScopeType.tenant role ≡ true)
      ↔ (role ≡ Role.tenant_owner)
unfolding role_allows
tenant_binding_on_project action Role.tenant_owner = (λ h. refl, λ h. refl)
tenant_binding_on_project action role = (λ h. cc, λ h. cc)
