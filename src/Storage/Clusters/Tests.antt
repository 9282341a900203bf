-- ===== src/Storage/Clusters/Tests.antt =====
-- A cluster is created and reports, and witnesses.
use gpu_rental_platform.Common.{
  ◌≡◌, ◌↔◌, ◌≤◌, ◌<◌, ◌+◌, ◌*◌, refl, String, true, false, some, [], ◌∷◌, ok, err, stale_report,
  arith,
}
use gpu_rental_platform.Common.Int.{pos}
use gpu_rental_platform.Common.Text.{to_lower, trim_space, is_blank}
use gpu_rental_platform.Identity.{Entropy, is_uuid, new_uuid}
use gpu_rental_platform.Tenancy.{Acceptance, MutationContext}
use gpu_rental_platform.ClusterState.{
  evaluate, default_thresholds, connection_state, elapsed, validate,
}
use gpu_rental_platform.ClusterState.Laws.{IsRecent}
use gpu_rental_platform.Catalog.{
  Cluster, AcceleratorMode, CreateClusterParams, CreateAcceleratorProfileParams,
  ObserveClusterHeartbeatParams,
}
use gpu_rental_platform.Catalog.Validate.{
  validate_cluster, validate_heartbeat, validate_report, validate_accelerator_profile,
  validate_traits, is_dns_subdomain, is_catalog_slug,
}
use gpu_rental_platform.Storage.Db.{Db, empty_db}
use gpu_rental_platform.Storage.Mutation.{
  accept_mutation, accept_new, create_in_tx, insert_operation, insert_event, insert_domain_event,
  insert_audit_event, record_idempotency, idempotency_scope, set_fields, complete_operation,
  load_idempotency, validate_mutation_context, tables_after, tables_of,
}
use gpu_rental_platform.Storage.Clusters.{
  insert_provider, insert_cluster, new_cluster, create_cluster, get_cluster, heard, is_stale,
  observe_heartbeat, insert_profile, create_profile, get_profile, is_enabled, or_zero,
}
use gpu_rental_platform.Storage.Clusters.Laws.{observe_heartbeat_advances, observe_heartbeat_once}

code : Unit {0}
unfolding tables_of tables_after is_uuid new_uuid is_blank trim_space to_lower accept_mutation
    accept_new create_in_tx insert_operation insert_event insert_domain_event insert_audit_event
    record_idempotency idempotency_scope set_fields complete_operation load_idempotency
    validate_mutation_context evaluate validate default_thresholds connection_state elapsed
    validate_cluster validate_heartbeat validate_report validate_accelerator_profile validate_traits
    is_dns_subdomain is_catalog_slug insert_provider insert_cluster create_cluster get_cluster heard
    is_stale observe_heartbeat insert_profile create_profile get_profile
code = tt

-- Sixteen equal bytes for each read.
abbrev random : Entropy
random k =
    let b = 16 * k + k in some (b ∷ b ∷ b ∷ b ∷ b ∷ b ∷ b ∷ b ∷ b ∷ b ∷ b ∷ b ∷ b ∷ b ∷ b ∷ b ∷ [])

abbrev mutation : MutationContext
mutation = record {
  principal_id = "u1";
  request_id = "r1";
  idempotency_key = "key-0001";
  request_hash = "h1";
}

abbrev params : CreateClusterParams
params = record {
  mutation = mutation;
  managed_cluster_name = " berlin-1 ";
  display_name = "Berlin";
}

abbrev id : String
id = "11111111-1111-4111-9111-111111111111"

abbrev acceptance : Acceptance
acceptance = record {
  resource_id = id;
  operation_id = "22222222-2222-4222-a222-222222222222";
  replayed = false;
}

abbrev founded : Db
founded = tables_after empty_db (create_cluster random 1 10 params empty_db)

abbrev profile : CreateAcceleratorProfileParams
profile = record {
  mutation = mutation;
  name = "Two GPUs";
  slug = "two-gpus";
  accelerator_mode = AcceleratorMode.whole;
  resource_class = "gpu.nvidia.full";
  gpu_count = pos 2;
  memory_mib = some (pos 40960);
  traits = [];
}

abbrev profiled : Db
profiled = tables_after empty_db (create_profile random 1 10 profile empty_db)

profile_created : create_profile random 1 10 profile empty_db ≡ ok (acceptance, profiled)
unfolding code
profile_created = refl

abbrev report : ObserveClusterHeartbeatParams
report = record {
  cluster_id = id;
  agent_epoch = "epoch-01";
  report_sequence = 4;
  fencing_token = "t";
  fencing_enabled = true;
  execution_healthy = true;
  fenced = false;
  observed_at = 90;
}

abbrev row : Cluster
row = new_cluster id "berlin-1" "Berlin" 10

abbrev cluster_db : Db
cluster_db = record empty_db { clusters = row ∷ [] }

abbrev heard_db : Db
heard_db = tables_of cluster_db (observe_heartbeat 100 report cluster_db)

is_heard : observe_heartbeat 100 report cluster_db ≡ ok heard_db
unfolding code
is_heard = refl

observe_heartbeat_advances_example :
    (c c' : Cluster) × (get_cluster id cluster_db ≡ ok c)
    × (get_cluster id heard_db ≡ ok c')
    × ((c'.schedulable ≡ true) ↔ (
        (is_enabled c.management_state ≡ true)
        × IsRecent 100 90 default_thresholds.degraded_after
        × IsRecent 100 (or_zero c.last_inventory_at) default_thresholds.degraded_after
        × (true ≡ true)
        × (false ≡ false)))
    × (c'.agent_epoch ≡ some "epoch-01")
    × (c.agent_epoch ≡ c'.agent_epoch → c.report_sequence < c'.report_sequence)
    × (or_zero c.last_heartbeat_at ≤ or_zero c'.last_heartbeat_at)
observe_heartbeat_advances_example =
    observe_heartbeat_advances 100 report cluster_db heard_db is_heard

valid_report : validate_heartbeat report ≡ ok tt
unfolding code
valid_report = refl

observe_heartbeat_once_example : observe_heartbeat 120 report heard_db ≡ err stale_report
observe_heartbeat_once_example =
    observe_heartbeat_once 100 report cluster_db heard_db is_heard 120 report refl refl
      (omega arith) valid_report
