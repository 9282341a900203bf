-- ===== src/Authorization/Policy/Decisions.antt =====
-- `Authorize` decides by the rules.
use gpu_rental_platform.Common.{◌≡◌, ◌↔◌, true, List, Any, Any-map}
use gpu_rental_platform.Tenancy.{RoleBinding, Project}
use gpu_rental_platform.Authorization.{Request, authorize}
use gpu_rental_platform.Authorization.Laws.{IsWellFormed, authorize-Grants}
use gpu_rental_platform.Authorization.Policy.{IsFor, MayAct}
use gpu_rental_platform.Authorization.Policy.Bindings.{binding_applies-IsFor, IsFor-binding_applies}
use gpu_rental_platform.Authorization.Policy.Roles.{role_allows-MayAct, MayAct-role_allows}

-- `Authorize` allows a request exactly if it names a user and a well-formed scope, and some stored
-- binding of that user is to the scope, or to the tenant that owns its project, and its role may do the
-- action: across from a tenant to a project that is the owner only, and else the roles of `Permits`.
pub authorize-allowed_iff :
    (projects : List Project) (bindings : List RoleBinding) (r : Request)
    → ((authorize projects bindings r).allowed ≡ true)
      ↔ (IsWellFormed r × Any (λ b. IsFor projects r b × MayAct r b) bindings)
authorize-allowed_iff projects bindings r = (
  λ h.
      let (formed, some_one) = (authorize-Grants projects bindings r).0 h in
      (
        formed,
        Any-map (λ b g. (binding_applies-IsFor projects r b (g.0), role_allows-MayAct r b (g.1)))
            some_one,
      ),
  λ (formed, some_one). (authorize-Grants projects bindings r).1 (
    formed,
    Any-map (λ b g. (IsFor-binding_applies projects r b (g.0), MayAct-role_allows r b (g.1)))
        some_one,
  ),
)
