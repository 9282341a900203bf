-- ===== src/Storage/Workspaces/Tests.antt =====
-- A workspace with two GPUs in a project with a limit of three, made, started, finished and stopped.
use gpu_rental_platform.Common.{
  failure, arith, ◌≤◌, Row, ◌+◌, ◌*◌, String, ◌≡◌, ◌≢◌, refl, some, none, [], ◌∷◌, inl, ok, err,
  quota_exceeded, true, false, sum,
}
use gpu_rental_platform.Common.Int.{pos}
use gpu_rental_platform.Common.Text.{to_lower, trim_space, is_blank, plain_prefix}
use gpu_rental_platform.Identity.{Entropy, is_uuid, new_uuid}
use gpu_rental_platform.Tenancy.{Project, Quota, pending, committed, MutationContext, shared}
use gpu_rental_platform.ClusterState.{ConnectionState}
use gpu_rental_platform.Catalog.{Cluster, AcceleratorProfile, ManagementState, AcceleratorMode}
use gpu_rental_platform.Workspace.{
  Workspace, CreateWorkspaceParams, SetDesiredStateParams, CreateSnapshotParams, ReconcileState,
  ObservedState, ProvisioningState, SnapshotState, work_name,
}
use gpu_rental_platform.Storage.Db.{Db, empty_db, Event, text}
use gpu_rental_platform.Storage.Mutation.{
  accept_mutation, accept_new, create_in_tx, insert_operation, insert_event, insert_domain_event,
  insert_audit_event, record_idempotency, idempotency_scope, set_fields, complete_operation,
  load_idempotency, validate_mutation_context, tables_after, tables_of,
}
use gpu_rental_platform.Storage.Quota.{
  SetQuotaParams, set_quota, upsert_quota, update_quota, is_resource_class, gpu_class,
}
use gpu_rental_platform.Storage.Quota.Steps.{sets, leaves}
use gpu_rental_platform.Storage.Quota.Accounts.{held}
use gpu_rental_platform.Storage.Workspaces.{
  Snapshot, is_workspace_name, workspace_quota_delta, adjust_workspace_quota, insert_workspace,
  apply_create_workspace, create_workspace, apply_desired_state, set_desired_state, start_workspace,
  complete_workspace, cut_bytes, failure_message, fail_workspace, insert_snapshot,
  apply_create_snapshot, create_snapshot,
}
use gpu_rental_platform.Storage.Workspaces.Accounts.{WorkspacesAccounted, gpus}
use gpu_rental_platform.Storage.Workspaces.Steps.{
  Reach, start, next, creates, changes, starts, completes, accounts, Reach-WorkspacesAccounted,
  gpus_never_oversold,
}
use gpu_rental_platform.Storage.Workspaces.Settled.{IsSettled, Reach-IsSettled, reconcile_fences}
use gpu_rental_platform.Workspace.Manifest.{WorkRequest, build_work}
use gpu_rental_platform.Storage.Reads.{in_order, list_snapshots, get_workspace}
use gpu_rental_platform.Storage.Workspaces.Reconcile.{
  Others, WorkResult, answered, field_text, event_identity, is_done, ended, give_up, finish_work,
  work_on, reconcile_loaded, reconcile_known, reconcile_named, reconcile,
}
use gpu_rental_platform.Storage.Workspaces.Reconciled.{IsReconciled, reconcile_reaches}

code : Unit {0}
unfolding tables_of tables_after is_uuid new_uuid is_blank trim_space to_lower plain_prefix
    accept_mutation accept_new create_in_tx insert_operation insert_event insert_domain_event
    insert_audit_event record_idempotency idempotency_scope set_fields complete_operation
    load_idempotency validate_mutation_context set_quota upsert_quota update_quota is_resource_class
    is_workspace_name workspace_quota_delta adjust_workspace_quota insert_workspace
    apply_create_workspace create_workspace apply_desired_state set_desired_state start_workspace
    complete_workspace cut_bytes failure_message fail_workspace insert_snapshot
    apply_create_snapshot create_snapshot work_name
code = tt

reconcile_code : Unit {0}
unfolding field_text event_identity is_done ended give_up finish_work work_on reconcile_loaded
    reconcile_known reconcile_named reconcile build_work in_order list_snapshots get_workspace
    is_uuid to_lower is_blank work_name
reconcile_code = tt

abbrev project_id : String
project_id = "aaaaaaaa-0000-4000-8000-000000000001"

abbrev cluster_id : String
cluster_id = "bbbbbbbb-0000-4000-8000-000000000002"

abbrev profile_id : String
profile_id = "cccccccc-0000-4000-8000-000000000003"

-- Sixteen equal bytes for each read.
abbrev random : Entropy
random k =
    let b = 16 * k + k in some (b ∷ b ∷ b ∷ b ∷ b ∷ b ∷ b ∷ b ∷ b ∷ b ∷ b ∷ b ∷ b ∷ b ∷ b ∷ b ∷ [])

abbrev project : Project
project = record {
  id = project_id;
  tenant_id = project_id;
  name = "Vision";
  slug = "vision";
  isolation_class = shared;
  namespace_name = "gpu-p-aaaaaaaa0000";
  desired_state = "active";
  observed_state = "pending";
  provisioning_state = "pending";
  generation = 1;
  created_at = 0;
  updated_at = 0;
}

abbrev cluster : Cluster
cluster = record {
  id = cluster_id;
  managed_cluster_name = "berlin-1";
  display_name = "Berlin";
  management_state = ManagementState.enabled;
  connection_state = ConnectionState.connected;
  connected = true;
  schedulable = true;
  inventory_fresh = true;
  execution_healthy = true;
  fenced = false;
  agent_epoch = none;
  report_sequence = 0;
  fencing_token = none;
  fencing_enabled = false;
  inventory_generation = 0;
  source_generation = none;
  last_heartbeat_at = none;
  last_inventory_at = none;
  generation = 1;
  created_at = 0;
  updated_at = 0;
}

abbrev profile : AcceleratorProfile
profile = record {
  id = profile_id;
  name = "Two GPUs";
  slug = "two-gpus";
  accelerator_mode = AcceleratorMode.whole;
  resource_class = "gpu.nvidia.full";
  gpu_count = 2;
  memory_mib = none;
  traits = [];
  enabled = true;
  generation = 1;
  created_at = 0;
  updated_at = 0;
}

abbrev furnished : Db
furnished = record empty_db {
  projects = project ∷ [];
  clusters = cluster ∷ [];
  profiles = profile ∷ [];
}

abbrev mutation : MutationContext
mutation = record {
  principal_id = "u1";
  request_id = "r1";
  idempotency_key = "key-0001";
  request_hash = "h1";
}

abbrev three : SetQuotaParams
three = record {
  mutation = mutation;
  project_id = project_id;
  resource_class = "gpu.nvidia.full";
  hard_limit = pos 3;
}

abbrev limited : Db
limited = tables_after furnished (set_quota random 1 10 three furnished)

limit_set :
    set_quota random 1 10 three furnished
    ≡ ok (
      record {
        resource_id = "aaaaaaaa-0000-4000-8000-000000000001/gpu.nvidia.full";
        operation_id = "11111111-1111-4111-9111-111111111111";
        replayed = false;
      },
      limited,
    )
unfolding code
limit_set = refl

abbrev params : CreateWorkspaceParams
params = record {
  mutation = mutation;
  project_id = project_id;
  cluster_id = cluster_id;
  accelerator_profile_id = profile_id;
  name = " train-1 ";
  storage_gib = pos 0;
}

abbrev id : String
id = "55555555-5555-4555-9555-555555555555"

abbrev made : Db
made = tables_after limited (create_workspace random 5 20 21 params limited)

created :
    create_workspace random 5 20 21 params limited
    ≡ ok (
      record {
        resource_id = id;
        operation_id = "66666666-6666-4666-a666-666666666666";
        replayed = false;
      },
      made,
    )
unfolding code
created = refl

-- One of the three units is left.
second_refused :
    create_workspace random 10 22 23
      (record params {
        mutation = record mutation { idempotency_key = "key-0002" };
        name = "train-2";
      })
      made
    ≡ err quota_exceeded
unfolding code
second_refused = refl

abbrev state : ReconcileState
state = record {
  workspace_id = id;
  operation_id = "66666666-6666-4666-a666-666666666666";
  cluster_id = cluster_id;
  work_name = "gpu-workspace-555555555555";
  generation = pos 1;
}

abbrev running : Db
running = tables_of made (start_workspace 30 state made)

is_started : start_workspace 30 state made ≡ ok running
unfolding code
is_started = refl

abbrev done : Db
done = tables_of running (complete_workspace 40 state running)

is_completed : complete_workspace 40 state running ≡ ok done
unfolding code
is_completed = refl

abbrev stop : SetDesiredStateParams
stop = record { mutation = mutation; workspace_id = id; desired_state = "stopped" }

abbrev stopping : Db
stopping = tables_after done (set_desired_state random 10 50 51 stop done)

is_stopped :
    set_desired_state random 10 50 51 stop done
    ≡ ok (
      record {
        resource_id = id;
        operation_id = "aaaaaaaa-aaaa-4aaa-aaaa-aaaaaaaaaaaa";
        replayed = false;
      },
      stopping,
    )
unfolding code
is_stopped = refl

limited-workspaces : limited.workspaces ≡ furnished.workspaces
unfolding code
limited-workspaces = refl

up_to_done : Reach empty_db done
up_to_done =
    next running done
      (next made running
        (next limited made
          (next furnished limited (next empty_db furnished start (accounts (leaves refl refl) refl))
            (accounts (sets random 1 10 three _ limit_set) limited-workspaces))
          (creates random 5 20 21 params _ created))
        (starts 30 state is_started))
      (completes 40 state is_completed)

up_to_stop : Reach empty_db stopping
up_to_stop = next done stopping up_to_done (changes random 10 50 51 stop _ is_stopped)

abbrev quota : Quota
quota = record {
  project_id = project_id;
  resource_class = "gpu.nvidia.full";
  hard_limit = 3;
  reserved = 0;
  allocated = 2;
  generation = 2;
  updated_at = 21;
}

quota_found : done.quotas project_id gpu_class ≡ some quota
unfolding code
quota_found = refl

gpus_never_oversold_example :
    held pending project_id gpu_class done.reservations
      + held committed project_id gpu_class done.reservations
      + sum (gpus project_id) done.workspaces
    ≤ 3
gpus_never_oversold_example = gpus_never_oversold done project_id quota up_to_done quota_found

nothing-Accounted : WorkspacesAccounted empty_db
nothing-Accounted = record {
  accounted = record {
    unique = tt;
    balanced =
        λ p c. record { reserved_is = refl; allocated_is = ground arith; within = omega arith };
  };
  unique = tt;
}

Reach-WorkspacesAccounted_example : WorkspacesAccounted stopping
Reach-WorkspacesAccounted_example =
    Reach-WorkspacesAccounted empty_db stopping nothing-Accounted up_to_stop

abbrev workspace : Workspace
workspace = record {
  id = id;
  project_id = project_id;
  cluster_id = cluster_id;
  accelerator_profile_id = profile_id;
  name = "train-1";
  gpu_count = 2;
  storage_gib = 20;
  namespace_name = "gpu-p-aaaaaaaa0000";
  desired_state = "running";
  observed_state = ObservedState.running;
  provisioning_state = ProvisioningState.succeeded;
  conditions = [];
  generation = 1;
  observed_generation = 1;
  manifest_work_name = "gpu-workspace-555555555555";
  created_at = 20;
  updated_at = 40;
}

stands : Row workspace done.workspaces
unfolding code
stands = inl refl

Reach-IsSettled_example : IsSettled workspace
Reach-IsSettled_example = Reach-IsSettled done workspace up_to_done stands

abbrev wanted_stopped : Workspace
wanted_stopped = record workspace { desired_state = "stopped"; generation = 2; updated_at = 50 }

stands_stopped : Row wanted_stopped stopping.workspaces
unfolding code
stands_stopped = inl refl

lowered : to_lower id ≡ id
unfolding to_lower
lowered = refl

-- The first reconciliation, of generation 1, is too late for the workspace, which is to stop.
reconcile_fences_example :
    (start_workspace 60 state stopping ≢ ok done)
    × (complete_workspace 60 state stopping ≡ ok done → done.workspaces ≡ stopping.workspaces)
    × (fail_workspace 60 60 state none true stopping ≡ ok done
        → done.workspaces ≡ stopping.workspaces)
reconcile_fences_example =
    reconcile_fences state wanted_stopped stopping
      ((Reach-WorkspacesAccounted empty_db stopping nothing-Accounted up_to_stop).unique)
      stands_stopped lowered (λ e. cc) 60 60 none true done

-- Other bytes.
abbrev random' : Entropy
random' k =
    let b = 17 * k + 1 in some (b ∷ b ∷ b ∷ b ∷ b ∷ b ∷ b ∷ b ∷ b ∷ b ∷ b ∷ b ∷ b ∷ b ∷ b ∷ b ∷ [])

abbrev snapshot_params : CreateSnapshotParams
snapshot_params = record { mutation = mutation; workspace_id = id; name = "before-stop" }

abbrev snapshot : Snapshot
snapshot = record {
  id = project_id;
  workspace_id = id;
  name = "before-stop";
  source_pvc_name = "gpu-workspace-555555555555-data";
  state = SnapshotState.pending;
  created_at = 70;
  updated_at = 70;
}

abbrev pictured : Db
pictured = record empty_db { workspaces = wanted_stopped ∷ []; snapshots = snapshot ∷ [] }

-- A completion that comes too late for the workspace still finishes its snapshots.
late_completion_finishes_snapshots :
    complete_workspace 80 state pictured
    ≡ ok (record pictured {
      snapshots = record snapshot { state = SnapshotState.succeeded; updated_at = 80 } ∷ [];
    })
unfolding code
late_completion_finishes_snapshots = refl

abbrev lettered : Db
lettered = record empty_db {
  workspaces = record workspace { id = "eeeeeeee-5555-4555-9555-555555555555" } ∷ [];
}

abbrev upper_id : String
upper_id = "EEEEEEEE-5555-4555-9555-555555555555"

-- The id of a workspace in capitals: the CHECK on the name of the volume refuses the row.
capitals_refused :
    create_snapshot random' 0 70 (record snapshot_params { workspace_id = upper_id }) lettered
    ≡ err (failure "snapshot check")
unfolding code
capitals_refused = refl

-- The announcement of the change to `stopped`, which the runner then works on.
abbrev announced : Event
announced = record {
  id = project_id;
  aggregate_type = "workspace";
  aggregate_id = id;
  event_type = "workspace.desired-state.updated";
  payload =
      ("resourceId", text id) ∷ ("operationId", text "aaaaaaaa-aaaa-4aaa-aaaa-aaaaaaaaaaaa") ∷ [];
  occurred_at = 50;
  available_at = 50;
  attempts = 1;
  locked_by = none;
  locked_until = none;
  delivered_at = none;
  dead_lettered_at = none;
  last_error = none;
}

abbrev answer : WorkRequest → WorkResult
answer work = answered true true

abbrev wanting : Db
wanting = record empty_db { workspaces = wanted_stopped ∷ [] }

-- Nothing else happens.
abbrev alone : Others
alone = record { after_load = λ db. db; after_start = λ db. db }

abbrev stopped : Db
stopped = (reconcile answer alone 60 61 62 announced false wanting).1

reconciled : reconcile answer alone 60 61 62 announced false wanting ≡ (ok tt, stopped)
unfolding code reconcile_code
reconciled = refl

-- While the fleet manager works, the workspace is wanted running again.
abbrev wanted_again : Workspace
wanted_again = record wanted_stopped { desired_state = "running"; generation = 3; updated_at = 60 }

abbrev changing : Others
changing = record alone { after_start = λ db. record db { workspaces = wanted_again ∷ [] } }

-- The reconciliation of the older generation then reports success, and changes nothing.
overtaken :
    reconcile answer changing 60 61 62 announced false wanting
    ≡ (ok tt, record wanting { workspaces = wanted_again ∷ [] })
unfolding code reconcile_code
overtaken = refl

not_available :
    (reconcile (λ work. answered true false) alone 60 61 62 announced false wanting).0
    ≡ err (failure "apply workspace ManifestWork: ManifestWork did not reach Applied and Available")
unfolding code reconcile_code
not_available = refl

reconcile_reaches_example :
    IsReconciled answer changing 60 announced wanting
      (record wanting { workspaces = wanted_again ∷ [] })
reconcile_reaches_example =
    reconcile_reaches answer changing 60 61 62 announced false wanting
      (record wanting { workspaces = wanted_again ∷ [] }) overtaken
