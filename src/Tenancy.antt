-- ===== src/Tenancy.antt =====
-- internal/tenancy/model.go and repository.go: the records that the stores keep. A time is a number
-- of nanoseconds. A text column whose values a CHECK of the migrations lists is a data type; the
-- constructor `other` stands for every other text that a request may carry.
use gpu_rental_platform.Common.{ℕ, String, Bool}

pub data IsolationClass : Type 0 where
  shared dedicated_node_pool dedicated_cluster : IsolationClass
  other : String → IsolationClass

pub data ScopeType : Type 0 where
  tenant project : ScopeType
  other : String → ScopeType

pub data SubjectType : Type 0 where
  user group service_account : SubjectType
  other : String → SubjectType

pub data Role : Type 0 where
  tenant_owner project_admin operator developer viewer billing_admin auditor : Role
  service_account : Role
  other : String → Role

-- The texts of the constants
abbrev pub isolation_text : IsolationClass → String
isolation_text IsolationClass.shared = "shared"
isolation_text IsolationClass.dedicated_node_pool = "dedicated-node-pool"
isolation_text IsolationClass.dedicated_cluster = "dedicated-cluster"
isolation_text (IsolationClass.other s) = s

abbrev pub scope_text : ScopeType → String
scope_text ScopeType.tenant = "tenant"
scope_text ScopeType.project = "project"
scope_text (ScopeType.other s) = s

abbrev pub subject_text : SubjectType → String
subject_text SubjectType.user = "user"
subject_text SubjectType.group = "group"
subject_text SubjectType.service_account = "service_account"
subject_text (SubjectType.other s) = s

abbrev pub role_text : Role → String
role_text Role.tenant_owner = "tenant_owner"
role_text Role.project_admin = "project_admin"
role_text Role.operator = "operator"
role_text Role.developer = "developer"
role_text Role.viewer = "viewer"
role_text Role.billing_admin = "billing_admin"
role_text Role.auditor = "auditor"
role_text Role.service_account = "service_account"
role_text (Role.other s) = s

pub data ReservationStatus : Type 0 where
  pending committed released expired : ReservationStatus

pub record Tenant : Type 0 where
  pub id : String
  pub name : String
  pub slug : String
  pub status : String
  pub generation : ℕ
  pub created_at : ℕ
  pub updated_at : ℕ

pub record Project : Type 0 where
  pub id : String
  pub tenant_id : String
  pub name : String
  pub slug : String
  pub isolation_class : IsolationClass
  pub namespace_name : String
  pub desired_state : String
  pub observed_state : String
  pub provisioning_state : String
  pub generation : ℕ
  pub created_at : ℕ
  pub updated_at : ℕ

pub record RoleBinding : Type 0 where
  pub id : String
  pub scope_type : ScopeType
  pub scope_id : String
  pub subject_type : SubjectType
  pub subject_id : String
  pub role : Role
  pub created_by : String
  pub created_at : ℕ

pub record Quota : Type 0 where
  pub project_id : String
  pub resource_class : String
  pub hard_limit : ℕ
  pub reserved : ℕ
  pub allocated : ℕ
  pub generation : ℕ
  pub updated_at : ℕ

pub record QuotaReservation : Type 0 where
  pub id : String
  pub project_id : String
  pub resource_class : String
  pub amount : ℕ
  pub status : ReservationStatus
  pub operation_id : String
  pub expires_at : ℕ
  pub created_at : ℕ
  pub updated_at : ℕ

pub record Acceptance : Type 0 where
  pub resource_id : String
  pub operation_id : String
  pub replayed : Bool

pub record MutationContext : Type 0 where
  pub principal_id : String
  pub request_id : String
  pub idempotency_key : String
  pub request_hash : String
