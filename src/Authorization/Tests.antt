-- ===== src/Authorization/Tests.antt =====
-- Decisions on a small set of bindings, and witnesses.
use gpu_rental_platform.Common.{String, ◌≡◌, ◌↔◌, refl, true, false, List, [], ◌∷◌, Any, All}
use gpu_rental_platform.Common.Text.{trim_space, to_lower}
use gpu_rental_platform.Identity.{is_uuid}
use gpu_rental_platform.Tenancy.{ScopeType, SubjectType, Role, RoleBinding, Project, IsolationClass}
use gpu_rental_platform.Authorization.{
  Request, authorize, role_allows, role_allowed_for_scope, binding_applies,
}
use gpu_rental_platform.Authorization.Laws.{IsWellFormed, IsBindable, create_project_needs_owner}
use gpu_rental_platform.Authorization.Policy.{IsFor, MayAct}
use gpu_rental_platform.Authorization.Policy.Decisions.{authorize-allowed_iff}

code : Unit {0}
unfolding authorize role_allows role_allowed_for_scope binding_applies is_uuid trim_space to_lower
code = tt

abbrev tenant_id : String
tenant_id = "11111111-1111-4111-8111-111111111111"

abbrev project_id : String
project_id = "22222222-2222-4222-8222-222222222222"

abbrev shop : Project
shop = record {
  id = project_id;
  tenant_id = tenant_id;
  name = "shop";
  slug = "shop";
  isolation_class = IsolationClass.shared;
  namespace_name = "gpu-p-222222222222";
  desired_state = "active";
  observed_state = "active";
  provisioning_state = "succeeded";
  generation = 1;
  created_at = 1;
  updated_at = 1;
}

abbrev bind : String → ScopeType → String → Role → RoleBinding
bind subject scope scope_id role = record {
  id = subject;
  scope_type = scope;
  scope_id = scope_id;
  subject_type = SubjectType.user;
  subject_id = subject;
  role = role;
  created_by = "root";
  created_at = 1;
}

abbrev stored : List RoleBinding
stored =
    bind "ann" ScopeType.tenant tenant_id Role.tenant_owner
    ∷ bind "vic" ScopeType.project project_id Role.viewer
    ∷ []

abbrev ask : String → String → ScopeType → String → Request
ask subject action scope id = record {
  subject_id = subject;
  action = action;
  scope_type = scope;
  scope_id = id;
}

-- The owner of the tenant may set the project's quota; the viewer may only read it.
decisions :
    ((authorize (shop ∷ []) stored (ask " ann " "quota.set" ScopeType.project project_id)).allowed
      ≡ true)
    × ((authorize (shop ∷ []) stored (ask "vic" "quota.set" ScopeType.project project_id)).allowed
        ≡ false)
    × ((authorize (shop ∷ []) stored (ask "vic" "quota.read" ScopeType.project project_id)).allowed
        ≡ true)
unfolding code
decisions = (refl, refl, refl)

abbrev creation : Request
creation = ask "ann" "project.create" ScopeType.tenant tenant_id

creation_allowed : (authorize (shop ∷ []) stored creation).allowed ≡ true
unfolding code
creation_allowed = refl

authorize-allowed_iff_example :
    ((authorize (shop ∷ []) stored creation).allowed ≡ true)
    ↔ (IsWellFormed creation × Any (λ b. IsFor (shop ∷ []) creation b × MayAct creation b) stored)
authorize-allowed_iff_example = authorize-allowed_iff (shop ∷ []) stored creation

stored-IsBindable : All IsBindable stored
unfolding code
stored-IsBindable = (refl, (refl, tt))

create_project_needs_owner_example :
    Any
      (λ b.
        (b.role ≡ Role.tenant_owner)
        × (b.scope_type ≡ ScopeType.tenant)
        × (binding_applies (shop ∷ []) (trim_space "ann") ScopeType.tenant tenant_id b ≡ true))
      stored
create_project_needs_owner_example =
    create_project_needs_owner (shop ∷ []) stored creation stored-IsBindable refl creation_allowed
