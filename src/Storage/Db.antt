-- ===== src/Storage/Db.antt =====
-- The tables of migrations/*.sql, as far as the modelled statements read or write them. A table is a
-- list of rows in order of insertion; one that is read and written by its primary key only is a
-- function of the key. A `uuid` column holds text in lower case. A time is a number of nanoseconds.
use gpu_rental_platform.Common.{ℕ, String, Bool, Option, none, List, []}
use gpu_rental_platform.Billing.{UsageFact, RatedUsage}
use gpu_rental_platform.Common.Int.{ℤ}
use gpu_rental_platform.Tenancy.{Tenant, Project, RoleBinding, Quota, QuotaReservation}
use gpu_rental_platform.Workspace.{AccessToken, AccessType, Workspace, Snapshot}
use gpu_rental_platform.Catalog.{ResourceProvider, Cluster, AcceleratorProfile}

-- A value in the JSON object of an event.
pub data Value : Type 0 where
  text : String → Value
  number : ℤ → Value
  instant : ℕ → Value
  -- an `operation.ResourceRef`: a type and an id
  target : String → String → Value

pub data OperationStatus : Type 0 where
  queued running succeeded failed cancelled timed_out : OperationStatus

-- `operation.Operation`, and the table operations
pub record Operation : Type 0 where
  pub id : String
  pub kind : String
  pub status : OperationStatus
  pub target_type : String
  pub target_id : String
  pub progress : ℕ
  pub retryable : Bool
  pub request_id : String
  pub created_at : ℕ
  pub updated_at : ℕ
  pub started_at : Option ℕ
  pub finished_at : Option ℕ

-- `outbox.Event`, and the table outbox_events
pub record Event : Type 0 where
  pub id : String
  pub aggregate_type : String
  pub aggregate_id : String
  pub event_type : String
  pub payload : List (String × Value)
  pub occurred_at : ℕ
  pub available_at : ℕ
  pub attempts : ℕ
  pub locked_by : Option String
  pub locked_until : Option ℕ
  pub delivered_at : Option ℕ
  pub dead_lettered_at : Option ℕ
  pub last_error : Option String

pub record IdempotencyRecord : Type 0 where
  pub request_hash : String
  pub resource_type : String
  pub resource_id : Option String
  pub operation_id : Option String
  pub expires_at : ℕ
  pub created_at : ℕ
  -- the body of the response to a request for an access token; that of an acceptance is never read
  pub response_body : Option AccessToken

pub record AuditEvent : Type 0 where
  pub id : String
  pub occurred_at : ℕ
  pub actor_id : String
  pub scope_type : String
  pub scope_id : String
  pub action : String
  pub resource_type : String
  pub resource_id : String
  pub request_id : String

pub data EntryType : Type 0 where
  debit credit : EntryType

-- `metering.LedgerEntry`, and the table ledger_entries
pub record LedgerEntry : Type 0 where
  pub id : String
  pub tenant_id : String
  pub project_id : String
  pub usage_fact_id : Option String
  pub entry_type : EntryType
  pub amount_minor : ℕ
  pub currency : String
  pub reference_id : String
  pub description : String
  pub created_at : ℕ

-- `metering.Budget`, and the table project_budgets
pub record Budget : Type 0 where
  pub tenant_id : String
  pub project_id : String
  pub currency : String
  pub limit_minor : ℕ
  pub generation : ℕ
  pub updated_at : ℕ

-- The table workspace_access_tokens
pub record TokenRow : Type 0 where
  pub id : String
  pub workspace_id : String
  pub access_type : AccessType
  pub token_hash : String
  pub expires_at : ℕ
  pub revoked_at : Option ℕ
  pub created_by : String
  pub created_at : ℕ

pub record Db : Type 0 where
  pub tenants : List Tenant
  pub projects : List Project
  pub role_bindings : List RoleBinding
  -- PRIMARY KEY (project_id, resource_class)
  pub quotas : String → String → Option Quota
  pub reservations : List QuotaReservation
  pub operations : List Operation
  pub outbox : List Event
  -- PRIMARY KEY (scope, idempotency_key)
  pub idempotency : String → String → Option IdempotencyRecord
  pub audit : List AuditEvent
  pub usage_facts : List UsageFact
  pub rated_usage : List RatedUsage
  pub ledger : List LedgerEntry
  -- PRIMARY KEY (project_id)
  pub budgets : String → Option Budget
  pub clusters : List Cluster
  pub providers : List ResourceProvider
  pub profiles : List AcceleratorProfile
  pub workspaces : List Workspace
  pub snapshots : List Snapshot
  pub access_tokens : List TokenRow

abbrev pub empty_db : Db
empty_db = record {
  tenants = [];
  projects = [];
  role_bindings = [];
  quotas = λ p c. none;
  reservations = [];
  operations = [];
  outbox = [];
  idempotency = λ s k. none;
  audit = [];
  usage_facts = [];
  rated_usage = [];
  ledger = [];
  budgets = λ p. none;
  clusters = [];
  providers = [];
  profiles = [];
  workspaces = [];
  snapshots = [];
  access_tokens = [];
}
