-- ===== src/Storage/Clusters.antt =====
-- Clusters and accelerator profiles: `CreateCluster`, `GetCluster`, `ObserveClusterHeartbeat` and
-- `CreateAcceleratorProfile` of internal/storage/postgres/catalog.go, with the constraints of
-- migrations/000004_phase1_resource_catalog.up.sql. CHECKs that the validation has made sure of are
-- left out.
pub mod Laws
mod Tests
use gpu_rental_platform.Common.{
  ℕ, ◌+◌, String, Bool, true, false, not, ◌&&◌, ◌||◌, ◌==◌, Option, none, some, List, [], ◌∷◌, ◌++◌,
  ltb, leb, if◌then◌else◌, str_eq, any, find, update, Outcome, ok, err, Error, not_found, conflict,
  stale_report, fail_if, or_fail, ◌>>=◌, ◌>>◌,
}
use gpu_rental_platform.Common.Int.{ℤ, pos, pos_part}
use gpu_rental_platform.Common.Text.{trim_space, to_lower}
use gpu_rental_platform.Identity.{Entropy, new_uuid, is_uuid}
use gpu_rental_platform.Tenancy.{Acceptance}
use gpu_rental_platform.ClusterState.{
  ConnectionState, Status, Signals, evaluate, default_thresholds,
}
use gpu_rental_platform.Catalog.{
  ManagementState, Cluster, ResourceProvider, AcceleratorProfile, CreateClusterParams,
  ObserveClusterHeartbeatParams, CreateAcceleratorProfileParams,
}
use gpu_rental_platform.Catalog.Validate.{
  validate_cluster, validate_heartbeat, validate_accelerator_profile, is_dns_subdomain,
}
use gpu_rental_platform.Storage.Db.{Db, text}
use gpu_rental_platform.Storage.Mutation.{Spec, accept_mutation}

-- INSERT INTO resource_providers, with its PRIMARY KEY, UNIQUE (cluster_id, provider_type, name) and
-- reference to the cluster
unfoldable pub insert_provider : ResourceProvider → Db → Outcome Db
insert_provider p db = do
  fail_if
      (any
        (λ x.
          str_eq x.id p.id
          || (str_eq x.cluster_id p.cluster_id
              && str_eq x.provider_type p.provider_type
              && str_eq x.name p.name))
        db.providers)
      conflict
  fail_if (not (any (λ (c : Cluster). str_eq c.id p.cluster_id) db.clusters)) not_found
  ok (record db { providers = db.providers ++ p ∷ [] })

abbrev pub new_cluster : String → String → String → ℕ → Cluster
new_cluster id managed_cluster_name display_name now = record {
  id = id;
  managed_cluster_name = managed_cluster_name;
  display_name = display_name;
  management_state = ManagementState.enabled;
  connection_state = ConnectionState.offline;
  connected = false;
  schedulable = false;
  inventory_fresh = false;
  execution_healthy = false;
  fenced = false;
  agent_epoch = none;
  report_sequence = 0;
  fencing_token = none;
  fencing_enabled = false;
  inventory_generation = 0;
  source_generation = none;
  last_heartbeat_at = none;
  last_inventory_at = none;
  generation = 1;
  created_at = now;
  updated_at = now;
}

-- `apply` of `CreateCluster`: the cluster, with its PRIMARY KEY and UNIQUE (managed_cluster_name), and
-- its provider
unfoldable pub insert_cluster : Cluster → ℕ → Db → Outcome Db
unfolding insert_provider
insert_cluster c now db = do
  fail_if
      (any (λ x. str_eq x.id c.id || str_eq x.managed_cluster_name c.managed_cluster_name)
        db.clusters)
      conflict
  insert_provider
      (record {
        id = c.id;
        cluster_id = c.id;
        parent_id = none;
        provider_type = "cluster";
        name = c.managed_cluster_name;
        generation = 1;
        created_at = now;
        updated_at = now;
      })
      (record db { clusters = db.clusters ++ c ∷ [] })

-- `CreateCluster`
unfoldable pub create_cluster :
    Entropy → ℕ → ℕ → CreateClusterParams → Db → Outcome (Acceptance × Db)
create_cluster entropy k now params db = do
  let name = trim_space params.managed_cluster_name
  let display_name = trim_space params.display_name
  validate_cluster name display_name
  id ← new_uuid entropy k
  accept_mutation entropy (k + 1) now params.mutation
      (record {
        kind = "cluster.create";
        resource_type = "cluster";
        resource_id = id;
        event_type = "cluster.created";
        scope_type = "system";
        scope_id = "";
        event_fields = ("managedClusterName", text name) ∷ [];
        complete_immediately = true;
        apply = λ at. insert_cluster (new_cluster id name display_name at) at;
      })
      db

-- `GetCluster`
unfoldable pub get_cluster : String → Db → Outcome Cluster
get_cluster id db = do
  fail_if (not (is_uuid id)) not_found
  or_fail (find (λ (c : Cluster). str_eq c.id (to_lower id)) db.clusters) not_found

abbrev pub is_enabled : ManagementState → Bool
is_enabled ManagementState.enabled = true
is_enabled _ = false

abbrev pub or_zero : Option ℕ → ℕ
or_zero none = 0
or_zero (some t) = t

abbrev pub same_epoch : Option String → String → Bool
same_epoch none epoch = false
same_epoch (some e) epoch = str_eq e epoch

abbrev pub is_before : ℕ → Option ℕ → Bool
is_before t none = false
is_before t (some u) = ltb t u

abbrev pub heartbeat_signals : ObserveClusterHeartbeatParams → Cluster → ℕ → Signals
heartbeat_signals params c now = record {
  now = now;
  last_heartbeat_at = params.observed_at;
  last_inventory_at = or_zero c.last_inventory_at;
  manually_schedulable = is_enabled c.management_state;
  execution_healthy = params.execution_healthy;
  fenced = params.fenced;
}

-- The row after `updateClusterHeartbeat`
unfoldable pub heard : ObserveClusterHeartbeatParams → Status → ℕ → Cluster → Cluster
heard params status now c = record c {
  connection_state = status.connection_state;
  connected = status.is_connected;
  schedulable = status.schedulable;
  inventory_fresh = status.inventory_fresh;
  execution_healthy = status.execution_healthy;
  fenced = params.fenced;
  agent_epoch = some params.agent_epoch;
  report_sequence = params.report_sequence;
  fencing_token = some params.fencing_token;
  fencing_enabled = params.fencing_enabled;
  last_heartbeat_at = some params.observed_at;
  generation = c.generation + 1;
  updated_at = now;
}

-- The two tests for a report that is too late
unfoldable pub is_stale : ObserveClusterHeartbeatParams → Cluster → Bool
is_stale params c =
    (same_epoch c.agent_epoch params.agent_epoch && leb params.report_sequence c.report_sequence)
    || is_before params.observed_at c.last_heartbeat_at

-- `ObserveClusterHeartbeat`
unfoldable pub observe_heartbeat : ℕ → ObserveClusterHeartbeatParams → Db → Outcome Db
unfolding heard is_stale
observe_heartbeat now params db = do
  fail_if (not (is_uuid params.cluster_id)) not_found
  validate_heartbeat params
  c ←
      or_fail (find (λ (x : Cluster). str_eq x.id (to_lower params.cluster_id)) db.clusters)
        not_found
  fail_if (is_stale params c) stale_report
  status ← evaluate (heartbeat_signals params c now) default_thresholds
  ok (record db {
    clusters =
        update (λ x. str_eq x.id (to_lower params.cluster_id)) (heard params status now)
          db.clusters;
  })

abbrev pub new_profile : String → CreateAcceleratorProfileParams → ℕ → AcceleratorProfile
new_profile id params now = record {
  id = id;
  name = params.name;
  slug = params.slug;
  accelerator_mode = params.accelerator_mode;
  resource_class = params.resource_class;
  gpu_count = pos_part params.gpu_count;
  memory_mib = memory params.memory_mib;
  traits = params.traits;
  enabled = true;
  generation = 1;
  created_at = now;
  updated_at = now;
}
  where
    memory : Option ℤ → Option ℕ
    memory none = none
    memory (some n) = some (pos_part n)

-- `apply` of `CreateAcceleratorProfile`: the PRIMARY KEY and UNIQUE (slug); the one class that the
-- validation accepts is in the table of classes from the start
unfoldable pub insert_profile : AcceleratorProfile → Db → Outcome Db
insert_profile p db = do
  fail_if (any (λ (x : AcceleratorProfile). str_eq x.id p.id || str_eq x.slug p.slug) db.profiles)
      conflict
  ok (record db { profiles = db.profiles ++ p ∷ [] })

-- `CreateAcceleratorProfile`
unfoldable pub create_profile :
    Entropy → ℕ → ℕ → CreateAcceleratorProfileParams → Db → Outcome (Acceptance × Db)
create_profile entropy k now given db = do
  let params = record given { name = trim_space given.name; slug = trim_space given.slug }
  validate_accelerator_profile params
  id ← new_uuid entropy k
  accept_mutation entropy (k + 1) now params.mutation
      (record {
        kind = "accelerator_profile.create";
        resource_type = "accelerator_profile";
        resource_id = id;
        event_type = "accelerator_profile.created";
        scope_type = "system";
        scope_id = "";
        event_fields =
            ("slug", text params.slug) ∷ ("resourceClass", text params.resource_class) ∷ [];
        complete_immediately = true;
        apply = λ at. insert_profile (new_profile id params at);
      })
      db

-- `GetAcceleratorProfile`
unfoldable pub get_profile : String → Db → Outcome AcceleratorProfile
get_profile id db = do
  fail_if (not (is_uuid id)) not_found
  or_fail (find (λ (p : AcceleratorProfile). str_eq p.id (to_lower id)) db.profiles) not_found
