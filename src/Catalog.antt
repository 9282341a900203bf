-- ===== src/Catalog.antt =====
-- internal/catalog/model.go and repository.go: clusters, their inventory, accelerator profiles and
-- capacity pools. A state is a data type of the constants; `other` stands for every other text that a
-- request may carry. A time is a number of nanoseconds. Traits are a Go map, here the list of its
-- entries.
pub mod Validate
pub mod Laws
mod Tests
use gpu_rental_platform.Common.{ℕ, String, Bool, Option, List}
use gpu_rental_platform.Common.Int.{ℤ}
use gpu_rental_platform.Tenancy.{MutationContext}
use gpu_rental_platform.ClusterState.{ConnectionState}

pub data ManagementState : Type 0 where
  enabled disabled draining maintenance quarantined : ManagementState
  other : String → ManagementState

pub data HealthState : Type 0 where
  healthy degraded unreachable failed unknown : HealthState
  other : String → HealthState

pub data AcceleratorMode : Type 0 where
  whole mig hami time_slicing : AcceleratorMode
  other : String → AcceleratorMode

pub data SchedulerProfile : Type 0 where
  none volcano kueue : SchedulerProfile
  other : String → SchedulerProfile

-- `Cluster`, and a row of the table clusters, with its fencing token
pub record Cluster : Type 0 where
  pub id : String
  pub managed_cluster_name : String
  pub display_name : String
  pub management_state : ManagementState
  pub connection_state : ConnectionState
  pub connected : Bool
  pub schedulable : Bool
  pub inventory_fresh : Bool
  pub execution_healthy : Bool
  pub fenced : Bool
  pub agent_epoch : Option String
  pub report_sequence : ℕ
  pub fencing_token : Option String
  pub fencing_enabled : Bool
  pub inventory_generation : ℕ
  pub source_generation : Option String
  pub last_heartbeat_at : Option ℕ
  pub last_inventory_at : Option ℕ
  pub generation : ℕ
  pub created_at : ℕ
  pub updated_at : ℕ

-- `catalog.AcceleratorProfile`, and the table accelerator_profiles
pub record AcceleratorProfile : Type 0 where
  pub id : String
  pub name : String
  pub slug : String
  pub accelerator_mode : AcceleratorMode
  pub resource_class : String
  pub gpu_count : ℕ
  pub memory_mib : Option ℕ
  pub traits : List (String × String)
  pub enabled : Bool
  pub generation : ℕ
  pub created_at : ℕ
  pub updated_at : ℕ

-- A row of the table resource_providers
pub record ResourceProvider : Type 0 where
  pub id : String
  pub cluster_id : String
  pub parent_id : Option String
  pub provider_type : String
  pub name : String
  pub generation : ℕ
  pub created_at : ℕ
  pub updated_at : ℕ

-- `GPUDeviceSnapshot`, `NodeSnapshot` and `NodePoolSnapshot`
pub record GpuDeviceSnapshot : Type 0 where
  pub opaque_key : String
  pub resource_class : String
  pub model : String
  pub memory_mib : ℤ
  pub accelerator_mode : AcceleratorMode
  pub health_state : HealthState
  pub allocatable : Bool
  pub traits : List (String × String)

pub record NodeSnapshot : Type 0 where
  pub opaque_key : String
  pub management_state : ManagementState
  pub health_state : HealthState
  pub schedulable : Bool
  pub traits : List (String × String)
  pub gpu_devices : List GpuDeviceSnapshot

pub record NodePoolSnapshot : Type 0 where
  pub name : String
  pub management_state : ManagementState
  pub nodes : List NodeSnapshot

pub record CreateClusterParams : Type 0 where
  pub mutation : MutationContext
  pub managed_cluster_name : String
  pub display_name : String

pub record ReplaceInventoryParams : Type 0 where
  pub mutation : MutationContext
  pub cluster_id : String
  pub expected_generation : ℤ
  pub source_generation : String
  pub agent_epoch : String
  pub report_sequence : ℕ
  pub fencing_token : String
  pub fencing_enabled : Bool
  pub execution_healthy : Bool
  pub fenced : Bool
  pub observed_at : ℕ
  pub node_pools : List NodePoolSnapshot

pub record ObserveClusterHeartbeatParams : Type 0 where
  pub cluster_id : String
  pub agent_epoch : String
  pub report_sequence : ℕ
  pub fencing_token : String
  pub fencing_enabled : Bool
  pub execution_healthy : Bool
  pub fenced : Bool
  pub observed_at : ℕ

pub record CreateAcceleratorProfileParams : Type 0 where
  pub mutation : MutationContext
  pub name : String
  pub slug : String
  pub accelerator_mode : AcceleratorMode
  pub resource_class : String
  pub gpu_count : ℤ
  pub memory_mib : Option ℤ
  pub traits : List (String × String)
