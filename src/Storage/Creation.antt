-- ===== src/Storage/Creation.antt =====
-- New tenants, projects and role bindings: `CreateTenant`, `CreateProject` and `CreateRoleBinding` of
-- internal/storage/postgres/tenancy.go, with the keys and references of
-- migrations/000002_phase1_tenancy.up.sql.
pub mod Rows
pub mod Laws
pub mod Runs
mod Tests
use gpu_rental_platform.Common.{
  suc, ℕ, ◌+◌, String, Bool, true, false, not, ◌&&◌, ◌||◌, Option, none, some, List, [], ◌∷◌, ◌++◌,
  ltb, leb, ◌==◌, if◌then◌else◌, str_eq, any, Outcome, ok, err, Error, invalid, not_found, conflict,
  failure, fail_if, ◌>>=◌, ◌>>◌,
}
use gpu_rental_platform.Common.Text.{
  plain_prefix, codes, trim_space, to_lower, len, rune_count, ◌+++◌,
}
use gpu_rental_platform.Identity.{Entropy, new_uuid, is_uuid}
use gpu_rental_platform.Authorization.{valid_scope_type, valid_subject_type, role_allowed_for_scope}
use gpu_rental_platform.Tenancy.{
  isolation_text, scope_text, subject_text, role_text, Tenant, Project, RoleBinding, IsolationClass,
  ScopeType, SubjectType, Role, Acceptance, MutationContext,
}
use gpu_rental_platform.Storage.Db.{Db, text}
use gpu_rental_platform.Storage.Mutation.{Spec, accept_mutation}

is_slug_end : ℕ → Bool
is_slug_end c = (leb 97 c && leb c 122) || (leb 48 c && leb c 57)

-- The codes behind the first one of a slug: hyphens are allowed, but not at the end.
slug_rest : List ℕ → Bool
unfolding is_slug_end
slug_rest [] = false
slug_rest (c ∷ []) = is_slug_end c
slug_rest (c ∷ d ∷ cs) = (is_slug_end c || c == 45) && slug_rest (d ∷ cs)

slug_codes : List ℕ → Bool
unfolding is_slug_end slug_rest
slug_codes [] = false
slug_codes (c ∷ cs) = is_slug_end c && slug_rest cs

-- `slugPattern`: ^[a-z0-9][a-z0-9-]{1,61}[a-z0-9]$
unfoldable pub is_slug : String → Bool
unfolding slug_codes
is_slug s = slug_codes (codes s) && leb 3 (rune_count s) && leb (rune_count s) 63

-- The parameters of the three calls
pub record TenantParams : Type 0 where
  pub mutation : MutationContext
  pub name : String
  pub slug : String

pub record ProjectParams : Type 0 where
  pub mutation : MutationContext
  pub tenant_id : String
  pub name : String
  pub slug : String
  pub isolation_class : IsolationClass

pub record BindingParams : Type 0 where
  pub mutation : MutationContext
  pub scope_type : ScopeType
  pub scope_id : String
  pub subject_type : SubjectType
  pub subject_id : String
  pub role : Role

-- INSERT INTO tenants, with its PRIMARY KEY and UNIQUE (slug)
unfoldable pub insert_tenant : String → String → String → ℕ → Db → Outcome Db
insert_tenant id name slug now db = do
  fail_if (any (λ (t : Tenant). str_eq t.id id || str_eq t.slug slug) db.tenants) conflict
  let row : Tenant = record {
    id = id;
    name = name;
    slug = slug;
    status = "active";
    generation = 1;
    created_at = now;
    updated_at = now;
  }
  ok (record db { tenants = db.tenants ++ row ∷ [] })

-- `CreateTenant`
unfoldable pub create_tenant : Entropy → ℕ → ℕ → TenantParams → Db → Outcome (Acceptance × Db)
create_tenant entropy k now params db = do
  let name = trim_space params.name
  let slug = trim_space params.slug
  fail_if (str_eq name "" || ltb 120 (rune_count name)) invalid
  fail_if (not (is_slug slug)) invalid
  id ← new_uuid entropy k
  accept_mutation entropy (k + 1) now params.mutation
      (record {
        kind = "tenant.create";
        resource_type = "tenant";
        resource_id = id;
        event_type = "tenant.created";
        scope_type = "tenant";
        scope_id = id;
        event_fields = ("name", text name) ∷ ("slug", text slug) ∷ [];
        complete_immediately = false;
        apply = insert_tenant id name slug;
      })
      db

-- `projectNamespace`
unfoldable pub project_namespace : String → String
project_namespace id = "gpu-p-" +++ plain_prefix 12 id

-- The statements of `apply` in `CreateProject`: the tenant exists, and INSERT INTO projects, with its
-- PRIMARY KEY, UNIQUE (tenant_id, slug) and UNIQUE (namespace_name)
unfoldable pub insert_project : Project → Db → Outcome Db
insert_project p db = do
  fail_if (not (any (λ (t : Tenant). str_eq t.id p.tenant_id) db.tenants)) not_found
  fail_if
      (any
        (λ (x : Project).
          str_eq x.id p.id
          || (str_eq x.tenant_id p.tenant_id && str_eq x.slug p.slug)
          || str_eq x.namespace_name p.namespace_name)
        db.projects)
      conflict
  ok (record db { projects = db.projects ++ p ∷ [] })

abbrev pub new_project : String → ProjectParams → ℕ → Project
new_project id params now = record {
  id = id;
  tenant_id = to_lower params.tenant_id;
  name = trim_space params.name;
  slug = trim_space params.slug;
  isolation_class = params.isolation_class;
  namespace_name = project_namespace id;
  desired_state = "active";
  observed_state = "pending";
  provisioning_state = "pending";
  generation = 1;
  created_at = now;
  updated_at = now;
}

abbrev pub is_shared : IsolationClass → Bool
is_shared IsolationClass.shared = true
is_shared _ = false

-- `CreateProject`
unfoldable pub create_project : Entropy → ℕ → ℕ → ProjectParams → Db → Outcome (Acceptance × Db)
unfolding project_namespace
create_project entropy k now params db = do
  fail_if (not (is_uuid params.tenant_id)) not_found
  let name = trim_space params.name
  let slug = trim_space params.slug
  fail_if (str_eq name "" || ltb 120 (rune_count name)) invalid
  fail_if (not (is_slug slug)) invalid
  fail_if (not (is_shared params.isolation_class)) invalid
  id ← new_uuid entropy k
  accept_mutation entropy (k + 1) now params.mutation
      (record {
        kind = "project.create";
        resource_type = "project";
        resource_id = id;
        event_type = "project.created";
        scope_type = "tenant";
        scope_id = params.tenant_id;
        event_fields =
            ("tenantId", text params.tenant_id)
            ∷ ("name", text name)
            ∷ ("slug", text slug)
            ∷ ("isolationClass", text (isolation_text params.isolation_class))
            ∷ ("namespaceName", text (project_namespace id))
            ∷ [];
        complete_immediately = false;
        apply = λ at. insert_project (new_project id params at);
      })
      db

-- `tenancyScopeExists`
unfoldable pub scope_exists : ScopeType → String → Db → Outcome Bool
scope_exists ScopeType.tenant id db = ok (any (λ (t : Tenant). str_eq t.id id) db.tenants)
scope_exists ScopeType.project id db = ok (any (λ (p : Project). str_eq p.id id) db.projects)
scope_exists (ScopeType.other _) id db = err (failure "unsupported role binding scope")

-- UNIQUE (scope_type, scope_id, subject_type, subject_id, role)
abbrev pub same_grant : RoleBinding → RoleBinding → Bool
same_grant a b =
    str_eq (scope_text a.scope_type) (scope_text b.scope_type)
    && str_eq a.scope_id b.scope_id
    && str_eq (subject_text a.subject_type) (subject_text b.subject_type)
    && str_eq a.subject_id b.subject_id
    && str_eq (role_text a.role) (role_text b.role)

-- The statements of `apply` in `CreateRoleBinding`
unfoldable pub insert_binding : RoleBinding → Db → Outcome Db
unfolding scope_exists
insert_binding b db = do
  exists ← scope_exists b.scope_type b.scope_id db
  fail_if (not exists) not_found
  fail_if (any (λ (x : RoleBinding). str_eq x.id b.id || same_grant x b) db.role_bindings) conflict
  ok (record db { role_bindings = db.role_bindings ++ b ∷ [] })

abbrev pub new_binding : String → BindingParams → ℕ → RoleBinding
new_binding id params now = record {
  id = id;
  scope_type = params.scope_type;
  scope_id = to_lower params.scope_id;
  subject_type = params.subject_type;
  subject_id = trim_space params.subject_id;
  role = params.role;
  created_by = params.mutation.principal_id;
  created_at = now;
}

-- `CreateRoleBinding`
unfoldable pub create_role_binding :
    Entropy → ℕ → ℕ → BindingParams → Db → Outcome (Acceptance × Db)
create_role_binding entropy k now params db = do
  fail_if (not (is_uuid params.scope_id)) not_found
  fail_if (not (valid_scope_type params.scope_type)) invalid
  fail_if (not (valid_subject_type params.subject_type)) invalid
  let subject_id = trim_space params.subject_id
  fail_if (str_eq subject_id "" || ltb 255 (len subject_id)) invalid
  fail_if (not (role_allowed_for_scope params.role params.scope_type params.subject_type)) invalid
  id ← new_uuid entropy k
  accept_mutation entropy (k + 1) now params.mutation
      (record {
        kind = "role_binding.create";
        resource_type = "role_binding";
        resource_id = id;
        event_type = "role_binding.created";
        scope_type = scope_text params.scope_type;
        scope_id = params.scope_id;
        event_fields =
            ("scopeType", text (scope_text params.scope_type))
            ∷ ("scopeId", text params.scope_id)
            ∷ ("subjectType", text (subject_text params.subject_type))
            ∷ ("subjectId", text subject_id)
            ∷ ("role", text (role_text params.role))
            ∷ [];
        complete_immediately = false;
        apply = λ at. insert_binding (new_binding id params at);
      })
      db
