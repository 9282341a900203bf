-- ===== src/Storage/Creation/Tests.antt =====
-- A tenant, its project and a role in it, made one after the other, and witnesses.
use gpu_rental_platform.Common.{
  ◌+◌, ◌*◌, String, ◌≡◌, refl, some, false, [], ◌∷◌, ok, err, invalid, conflict,
}
use gpu_rental_platform.Common.Text.{to_lower, trim_space, is_blank, plain_prefix}
use gpu_rental_platform.Identity.{Entropy, is_uuid, new_uuid}
use gpu_rental_platform.Authorization.{role_allowed_for_scope, valid_scope_type, valid_subject_type}
use gpu_rental_platform.Tenancy.{
  Acceptance, MutationContext, IsolationClass, ScopeType, SubjectType, Role,
}
use gpu_rental_platform.Storage.Db.{Db, empty_db}
use gpu_rental_platform.Storage.Mutation.{
  accept_mutation, accept_new, create_in_tx, insert_operation, insert_event, insert_domain_event,
  insert_audit_event, record_idempotency, idempotency_scope, set_fields, complete_operation,
  load_idempotency, validate_mutation_context, tables_after,
}
use gpu_rental_platform.Storage.Creation.{
  TenantParams, ProjectParams, BindingParams, insert_tenant, insert_project, insert_binding,
  scope_exists, create_tenant, create_project, create_role_binding, is_slug, project_namespace,
}
use gpu_rental_platform.Storage.Creation.Laws.{WellFormed}
use gpu_rental_platform.Storage.Creation.Runs.{
  start, next, creates_tenant, creates_project, binds_role, Reach-WellFormed,
}

code : Unit {0}
unfolding tables_after is_uuid new_uuid is_blank trim_space to_lower plain_prefix accept_mutation
    accept_new create_in_tx insert_operation insert_event insert_domain_event insert_audit_event
    record_idempotency idempotency_scope set_fields complete_operation load_idempotency
    validate_mutation_context insert_tenant insert_project insert_binding scope_exists create_tenant
    create_project create_role_binding is_slug project_namespace role_allowed_for_scope
    valid_scope_type valid_subject_type
code = tt

-- Sixteen equal bytes for each read.
abbrev random : Entropy
random k =
    let b = 16 * k + k in some (b ∷ b ∷ b ∷ b ∷ b ∷ b ∷ b ∷ b ∷ b ∷ b ∷ b ∷ b ∷ b ∷ b ∷ b ∷ b ∷ [])

abbrev mutation : String → MutationContext
mutation key = record {
  principal_id = "u1";
  request_id = "r1";
  idempotency_key = key;
  request_hash = "h1";
}

abbrev tenant_params : TenantParams
tenant_params = record { mutation = mutation "key-0001"; name = " Vision "; slug = "vision" }

abbrev with_tenant : Db
with_tenant = tables_after empty_db (create_tenant random 1 10 tenant_params empty_db)

abbrev tenant_accepted : Acceptance
tenant_accepted = record {
  resource_id = "11111111-1111-4111-9111-111111111111";
  operation_id = "22222222-2222-4222-a222-222222222222";
  replayed = false;
}

tenant_made : create_tenant random 1 10 tenant_params empty_db ≡ ok (tenant_accepted, with_tenant)
unfolding code
tenant_made = refl

-- The slug is taken.
slug_taken :
    create_tenant random 6 11 (record tenant_params { mutation = mutation "key-0009" }) with_tenant
    ≡ err conflict
unfolding code
slug_taken = refl

abbrev project_params : ProjectParams
project_params = record {
  mutation = mutation "key-0002";
  tenant_id = "11111111-1111-4111-9111-111111111111";
  name = "Train";
  slug = "train";
  isolation_class = IsolationClass.shared;
}

abbrev with_project : Db
with_project = tables_after with_tenant (create_project random 6 20 project_params with_tenant)

abbrev project_accepted : Acceptance
project_accepted = record {
  resource_id = "66666666-6666-4666-a666-666666666666";
  operation_id = "77777777-7777-4777-b777-777777777777";
  replayed = false;
}

project_made :
    create_project random 6 20 project_params with_tenant ≡ ok (project_accepted, with_project)
unfolding code
project_made = refl

abbrev binding_params : BindingParams
binding_params = record {
  mutation = mutation "key-0003";
  scope_type = ScopeType.project;
  scope_id = "66666666-6666-4666-A666-666666666666";
  subject_type = SubjectType.user;
  subject_id = "u2";
  role = Role.developer;
}

abbrev with_binding : Db
with_binding =
    tables_after with_project (create_role_binding random 11 30 binding_params with_project)

abbrev binding_accepted : Acceptance
binding_accepted = record {
  resource_id = "bbbbbbbb-bbbb-4bbb-bbbb-bbbbbbbbbbbb";
  operation_id = "cccccccc-cccc-4ccc-8ccc-cccccccccccc";
  replayed = false;
}

binding_made :
    create_role_binding random 11 30 binding_params with_project
    ≡ ok (binding_accepted, with_binding)
unfolding code
binding_made = refl

-- An owner is a role of tenants only.
owner_refused :
    create_role_binding random 11 30
      (record binding_params { role = Role.tenant_owner })
      with_project
    ≡ err invalid
unfolding code
owner_refused = refl

Reach-WellFormed_example : WellFormed with_binding
Reach-WellFormed_example = Reach-WellFormed with_binding (
    next with_project with_binding
      (next with_tenant with_project
        (next empty_db with_tenant start
          (creates_tenant random 1 10 tenant_params tenant_accepted tenant_made))
        (creates_project random 6 20 project_params project_accepted project_made))
      (binds_role random 11 30 binding_params binding_accepted binding_made))
