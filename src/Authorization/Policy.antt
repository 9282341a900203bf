-- ===== src/Authorization/Policy.antt =====
-- The rules of access, said as relations on names and roles, apart from the code of `Authorize`.
pub mod Sets
pub mod Bindings
pub mod Roles
pub mod Decisions
use gpu_rental_platform.Common.{
  All, ◌≡◌, ◌≢◌, ◌↔◌, ◌⊎◌, inl, inr, refl, sym, ap, String, Bool, true, false, List, [], ◌∷◌, Any,
  Any-map, All-Row, if◌then◌else◌, Row, Option, none, some, find, str_eq, eq_iff, eq_refl, arith,
  Bool-cases, Option-cases, ◌&&◌, ◌||◌,
}
use gpu_rental_platform.Common.Text.{trim_space, to_lower}
use gpu_rental_platform.Tenancy.{SubjectType, Role, ScopeType, RoleBinding, Project}
use gpu_rental_platform.Authorization.{
  Request, is_owner, is_project_admin, reads_tenant, reads_project, reads_tenant_bindings,
  reads_project_bindings, sets_quota, is_tenant, is_project, is_user, scope_eq, owned_by,
  role_allows, binding_applies, authorize,
}
use gpu_rental_platform.Authorization.Laws.{Grants, IsWellFormed, authorize-Grants}

-- A project with this id belongs to the tenant, by the row that the id selects.
abbrev pub IsOwned : List Project → String → String → Type 0
IsOwned projects tenant_id project_id =
    (p : Project) × (find (λ x. str_eq x.id project_id) projects ≡ some p)
    × (p.tenant_id ≡ tenant_id)

-- A binding of the user to the scope of the request, or to the tenant that owns its project.
pub record IsFor (projects : List Project) (r : Request) (b : RoleBinding) : Type 0 where
  pub user : b.subject_type ≡ SubjectType.user
  pub named : b.subject_id ≡ trim_space r.subject_id
  pub covers :
      ((b.scope_type ≡ r.scope_type) × (b.scope_id ≡ to_lower r.scope_id))
      ⊎ ((r.scope_type ≡ ScopeType.project)
          × (b.scope_type ≡ ScopeType.tenant)
          × IsOwned projects b.scope_id (to_lower r.scope_id))

-- Sets of roles
abbrev pub tenant_readers : List Role
tenant_readers = Role.tenant_owner ∷ Role.billing_admin ∷ Role.auditor ∷ Role.viewer ∷ []

abbrev pub project_readers : List Role
project_readers =
    Role.project_admin ∷ Role.operator ∷ Role.developer ∷ Role.viewer ∷ Role.billing_admin
    ∷ Role.auditor ∷ Role.service_account ∷ []

abbrev pub tenant_binding_readers : List Role
tenant_binding_readers = Role.tenant_owner ∷ Role.auditor ∷ Role.viewer ∷ []

abbrev pub project_binding_readers : List Role
project_binding_readers =
    Role.project_admin ∷ Role.operator ∷ Role.developer ∷ Role.viewer ∷ Role.auditor
    ∷ Role.service_account ∷ []

abbrev pub quota_setters : List Role
quota_setters = Role.project_admin ∷ Role.billing_admin ∷ []

-- The roles that each action takes, where the binding is to `bound`.
pub data Permits (action : String) (bound : ScopeType) (role : Role) : Type 0 where
  tenant_read : action ≡ "tenant.read" → Row role tenant_readers → Permits action bound role
  project_create : action ≡ "project.create" → role ≡ Role.tenant_owner → Permits action bound role
  project_read :
      (action ≡ "project.read") ⊎ (action ≡ "quota.read")
      → Row role project_readers
      → Permits action bound role
  tenant_binding_create :
      action ≡ "role_binding.create"
      → bound ≡ ScopeType.tenant
      → role ≡ Role.tenant_owner
      → Permits action bound role
  project_binding_create :
      action ≡ "role_binding.create"
      → bound ≢ ScopeType.tenant
      → role ≡ Role.project_admin
      → Permits action bound role
  tenant_binding_read :
      action ≡ "role_binding.read"
      → bound ≡ ScopeType.tenant
      → Row role tenant_binding_readers
      → Permits action bound role
  project_binding_read :
      action ≡ "role_binding.read"
      → bound ≢ ScopeType.tenant
      → Row role project_binding_readers
      → Permits action bound role
  quota_set : action ≡ "quota.set" → Row role quota_setters → Permits action bound role

-- A request on a project under a binding to its tenant
abbrev pub IsAcross : Request → RoleBinding → Type 0
IsAcross r b = (r.scope_type ≡ ScopeType.project) × (b.scope_type ≡ ScopeType.tenant)

-- Across, the owner of the tenant may do everything and nobody else anything.
abbrev pub MayAct : Request → RoleBinding → Type 0
MayAct r b =
    (IsAcross r b × (b.role ≡ Role.tenant_owner))
    ⊎ ((IsAcross r b → ⊥) × Permits r.action b.scope_type b.role)
