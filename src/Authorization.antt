-- ===== src/Authorization.antt =====
-- internal/authorization/postgres.go, and the checks of a new role binding in
-- internal/storage/postgres/tenancy.go. The tables are arguments; `uuid` columns hold lower case.
pub mod Laws
pub mod Policy
mod Tests
use gpu_rental_platform.Common.{
  ℕ, String, Bool, true, false, not, ◌&&◌, ◌||◌, Option, none, some, List, [], ◌∷◌, if◌then◌else◌,
  str_eq, select, any, find, Outcome, ok, err, failure, fail_if, ◌>>=◌, ◌>>◌,
}
use gpu_rental_platform.Common.Text.{trim_space, to_lower}
use gpu_rental_platform.Identity.{is_uuid}
use gpu_rental_platform.Tenancy.{ScopeType, SubjectType, Role, RoleBinding, Project}

pub record Request : Type 0 where
  pub subject_id : String
  pub action : String
  pub scope_type : ScopeType
  pub scope_id : String

pub record Decision : Type 0 where
  pub allowed : Bool
  pub reason : String

abbrev is_owner : Role → Bool
is_owner Role.tenant_owner = true
is_owner _ = false

abbrev is_project_admin : Role → Bool
is_project_admin Role.project_admin = true
is_project_admin _ = false

-- `case "tenant.read"`
pub reads_tenant : Role → Bool
reads_tenant Role.tenant_owner = true
reads_tenant Role.billing_admin = true
reads_tenant Role.auditor = true
reads_tenant Role.viewer = true
reads_tenant _ = false

-- `case "project.read", "quota.read"`
pub reads_project : Role → Bool
reads_project Role.tenant_owner = false
reads_project (Role.other _) = false
reads_project _ = true

-- `case "role_binding.read"`, for a binding of the tenant
pub reads_tenant_bindings : Role → Bool
reads_tenant_bindings Role.tenant_owner = true
reads_tenant_bindings Role.auditor = true
reads_tenant_bindings Role.viewer = true
reads_tenant_bindings _ = false

-- `case "role_binding.read"`, for another binding
pub reads_project_bindings : Role → Bool
reads_project_bindings Role.project_admin = true
reads_project_bindings Role.operator = true
reads_project_bindings Role.developer = true
reads_project_bindings Role.viewer = true
reads_project_bindings Role.auditor = true
reads_project_bindings Role.service_account = true
reads_project_bindings _ = false

-- `case "quota.set"`
pub sets_quota : Role → Bool
sets_quota Role.project_admin = true
sets_quota Role.billing_admin = true
sets_quota _ = false

abbrev is_tenant : ScopeType → Bool
is_tenant ScopeType.tenant = true
is_tenant _ = false

abbrev is_project : ScopeType → Bool
is_project ScopeType.project = true
is_project _ = false

unfoldable pub role_allows : String → ScopeType → ScopeType → Role → Bool
unfolding reads_tenant reads_project reads_tenant_bindings reads_project_bindings sets_quota
role_allows action requested bound role =
    if is_project requested && is_tenant bound
    then is_owner role
    else if str_eq action "tenant.read"
    then reads_tenant role
    else if str_eq action "project.create"
    then is_owner role
    else if str_eq action "project.read" || str_eq action "quota.read"
    then reads_project role
    else if str_eq action "role_binding.create"
    then (if is_tenant bound then is_owner role else is_project_admin role)
    else if str_eq action "role_binding.read"
    then (if is_tenant bound then reads_tenant_bindings role else reads_project_bindings role)
    else if str_eq action "quota.set"
    then sets_quota role
    else false

-- Equality of two `scope_type` columns.
abbrev scope_eq : ScopeType → ScopeType → Bool
scope_eq ScopeType.tenant ScopeType.tenant = true
scope_eq ScopeType.project ScopeType.project = true
scope_eq (ScopeType.other a) (ScopeType.other b) = str_eq a b
scope_eq _ _ = false

abbrev is_user : SubjectType → Bool
is_user SubjectType.user = true
is_user _ = false

-- `scope_id = (SELECT tenant_id FROM projects WHERE id = $3)`
owned_by : List Project → String → String → Bool
owned_by projects tenant_id project_id = elim (find (λ p. str_eq p.id project_id) projects) [
  | none ↦ false
  | some p ↦ str_eq tenant_id p.tenant_id
]

-- The WHERE clause of the query in `Authorize`.
unfoldable pub binding_applies : List Project → String → ScopeType → String → RoleBinding → Bool
unfolding owned_by
binding_applies projects subject scope scope_id b =
    is_user b.subject_type
    && str_eq b.subject_id subject
    && ((scope_eq b.scope_type scope && str_eq b.scope_id (to_lower scope_id))
        || (is_project scope
            && is_tenant b.scope_type
            && owned_by projects b.scope_id (to_lower scope_id)))

-- The loop over the rows, which stops at the first role that allows the action.
any_allows : String → ScopeType → List RoleBinding → Bool
any_allows action requested [] = false
any_allows action requested (b ∷ bs) =
    let rest = any_allows action requested bs in
    if role_allows action requested b.scope_type b.role then true else rest

unfoldable pub authorize : List Project → List RoleBinding → Request → Decision
unfolding any_allows
authorize projects bindings request =
    let subject = trim_space request.subject_id in
    let rows =
      select (binding_applies projects subject request.scope_type request.scope_id) bindings in
    if str_eq subject "" || not (is_uuid request.scope_id)
    then record { allowed = false; reason = "invalid authorization subject or scope" }
    else if not (is_tenant request.scope_type) && not (is_project request.scope_type)
    then record { allowed = false; reason = "unsupported authorization scope" }
    else if any_allows request.action request.scope_type rows
    then record { allowed = true; reason = "role binding allows action" }
    else record { allowed = false; reason = "no role binding allows action" }

unfoldable pub valid_scope_type : ScopeType → Bool
valid_scope_type scope = is_tenant scope || is_project scope

unfoldable pub valid_subject_type : SubjectType → Bool
valid_subject_type (SubjectType.other _) = false
valid_subject_type _ = true

abbrev is_service_account : SubjectType → Bool
is_service_account SubjectType.service_account = true
is_service_account _ = false

tenant_role : Role → Bool
tenant_role Role.tenant_owner = true
tenant_role Role.billing_admin = true
tenant_role Role.auditor = true
tenant_role Role.viewer = true
tenant_role _ = false

project_role : Role → Bool
project_role Role.project_admin = true
project_role Role.operator = true
project_role Role.developer = true
project_role Role.viewer = true
project_role Role.billing_admin = true
project_role Role.auditor = true
project_role _ = false

unfoldable pub role_allowed_for_scope : Role → ScopeType → SubjectType → Bool
unfolding tenant_role project_role
role_allowed_for_scope Role.service_account scope subject =
    is_project scope && is_service_account subject
role_allowed_for_scope role scope subject =
    if is_tenant scope then tenant_role role else project_role role
