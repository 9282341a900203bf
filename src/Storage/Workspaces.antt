-- ===== src/Storage/Workspaces.antt =====
-- Workspaces and their snapshots: internal/storage/postgres/workspace.go, with the constraints of
-- migrations/000005_phase1_workspaces.up.sql and 000007_phase1_workspace_snapshots.up.sql. The CHECKs
-- that the code cannot break are left out: those on the texts of names, which the code has matched, on
-- the states, and on the storage of a workspace.
pub mod Accounts
pub mod Laws
pub mod Writes
pub mod Steps
pub mod Settled
pub mod Reconcile
pub mod Reconciled
mod Tests
use Prim.Native.String
use gpu_rental_platform.Common.{
  zero, suc, ℕ, ◌+◌, ◌-◌, String, Bool, true, false, not, ◌&&◌, ◌||◌, Option, none, some, List, [],
  ◌∷◌, ◌++◌, ltb, leb, ◌==◌, if◌then◌else◌, str_eq, any, find, update, Outcome, ok, err, Error,
  invalid, not_found, conflict, quota_exceeded, failure, fail_if, or_fail, ◌>>=◌, ◌>>◌,
}
use gpu_rental_platform.Common.Int.{ℤ, pos, negsuc, pos_part, ltb_ℤ, leb_ℤ}
use gpu_rental_platform.Common.Text.{codes, trim_space, to_lower, len, ◌+++◌}
use gpu_rental_platform.Identity.{Entropy, new_uuid, is_uuid}
use gpu_rental_platform.Tenancy.{Quota, Acceptance, Project}
use gpu_rental_platform.Catalog.{AcceleratorProfile, Cluster}
use gpu_rental_platform.Workspace.{
  DesiredState, ObservedState, ProvisioningState, SnapshotState, Workspace, Snapshot, Condition,
  CreateWorkspaceParams, SetDesiredStateParams, CreateSnapshotParams, ReconcileState,
  desired_running, desired_stopped, desired_terminated, work_name,
}
use gpu_rental_platform.Storage.Db.{Db, Value, text}
use gpu_rental_platform.Storage.Mutation.{Spec, accept_mutation}
use gpu_rental_platform.Storage.Quota.{gpu_class, update_quota}

is_label_end : ℕ → Bool
is_label_end c = (leb 97 c && leb c 122) || (leb 48 c && leb c 57)

label_rest : List ℕ → Bool
unfolding is_label_end
label_rest [] = true
label_rest (c ∷ []) = is_label_end c
label_rest (c ∷ d ∷ cs) = (is_label_end c || c == 45) && label_rest (d ∷ cs)

label_codes : List ℕ → Bool
unfolding is_label_end label_rest
label_codes [] = false
label_codes (c ∷ cs) = is_label_end c && label_rest cs

-- `workspaceNamePattern`: ^[a-z0-9]([-a-z0-9]*[a-z0-9])?$
unfoldable pub is_workspace_name : String → Bool
unfolding label_codes
is_workspace_name s = label_codes (codes s)

abbrev pub is_running : DesiredState → Bool
is_running desired = str_eq desired desired_running

-- `workspaceQuotaDelta`
unfoldable pub workspace_quota_delta : DesiredState → DesiredState → ℕ → ℤ
workspace_quota_delta current desired gpu_count =
    if str_eq current desired || gpu_count == 0
    then pos 0
    else if is_running desired && not (is_running current)
    then pos gpu_count
    else if is_running current && not (is_running desired)
    then negsuc (gpu_count - 1)
    else pos 0

abbrev pub take_gpus : ℕ → ℕ → Quota → Option Quota
take_gpus n clock q =
    some
      (record q { allocated = q.allocated + n; generation = q.generation + 1; updated_at = clock })

abbrev pub give_gpus : ℕ → ℕ → Quota → Option Quota
give_gpus n clock q =
    some
      (record q { allocated = q.allocated - n; generation = q.generation + 1; updated_at = clock })

-- `adjustWorkspaceQuota`, where `clock` is what `time.Now` gives. The UPDATE that takes units has its
-- limit in the WHERE clause, the other one has none.
unfoldable pub adjust_workspace_quota : String → ℕ → ℤ → Db → Outcome Db
adjust_workspace_quota project clock (pos zero) db = ok db
adjust_workspace_quota project clock (pos (suc n)) db = do
  q ← or_fail (db.quotas project gpu_class) quota_exceeded
  fail_if (ltb q.hard_limit (q.allocated + q.reserved + suc n)) quota_exceeded
  update_quota project gpu_class (take_gpus (suc n) clock) db
adjust_workspace_quota project clock (negsuc n) db =
    update_quota project gpu_class (give_gpus (suc n) clock) db

-- INSERT INTO workspaces: the CHECK on gpu_count, the PRIMARY KEY, UNIQUE (project_id, name), UNIQUE
-- (cluster_id, manifest_work_name) and the references
unfoldable pub insert_workspace : Workspace → Db → Outcome Db
insert_workspace w db = do
  fail_if (w.gpu_count == 0) (failure "workspace check")
  fail_if
      (any
        (λ x.
          str_eq x.id w.id
          || (str_eq x.project_id w.project_id && str_eq x.name w.name)
          || (str_eq x.cluster_id w.cluster_id && str_eq x.manifest_work_name w.manifest_work_name))
        db.workspaces)
      conflict
  fail_if (not (any (λ (p : Project). str_eq p.id w.project_id) db.projects)) not_found
  fail_if (not (any (λ (c : Cluster). str_eq c.id w.cluster_id) db.clusters)) not_found
  fail_if (not (any (λ (p : AcceleratorProfile). str_eq p.id w.accelerator_profile_id) db.profiles))
      not_found
  ok (record db { workspaces = db.workspaces ++ w ∷ [] })

abbrev pub new_workspace : String → CreateWorkspaceParams → Project → ℕ → ℕ → ℕ → Workspace
new_workspace id params project gpus storage now = record {
  id = id;
  project_id = to_lower params.project_id;
  cluster_id = to_lower params.cluster_id;
  accelerator_profile_id = to_lower params.accelerator_profile_id;
  name = trim_space params.name;
  gpu_count = gpus;
  storage_gib = storage;
  namespace_name = project.namespace_name;
  desired_state = desired_running;
  observed_state = ObservedState.pending;
  provisioning_state = ProvisioningState.pending;
  conditions = [];
  generation = 1;
  observed_generation = 0;
  manifest_work_name = work_name id;
  created_at = now;
  updated_at = now;
}

-- `apply` of `CreateWorkspace`
unfoldable pub apply_create_workspace : String → CreateWorkspaceParams → ℕ → ℕ → Db → Outcome Db
apply_create_workspace id params clock now db = do
  project ←
      or_fail (find (λ (p : Project). str_eq p.id (to_lower params.project_id)) db.projects)
        not_found
  profile ←
      or_fail
        (find
          (λ (p : AcceleratorProfile).
            str_eq p.id (to_lower params.accelerator_profile_id) && p.enabled)
          db.profiles)
        not_found
  let storage =
      if leb_ℤ params.storage_gib (pos 0) && leb_ℤ (pos 0) params.storage_gib
      then pos 20
      else params.storage_gib
  fail_if (ltb_ℤ storage (pos 1) || ltb_ℤ (pos 16384) storage) invalid
  counted ← adjust_workspace_quota (to_lower params.project_id) clock (pos profile.gpu_count) db
  insert_workspace (new_workspace id params project profile.gpu_count (pos_part storage) now)
      counted

abbrev pub create_workspace_spec : String → CreateWorkspaceParams → ℕ → Spec
create_workspace_spec id params clock = record {
  kind = "workspace.create";
  resource_type = "workspace";
  resource_id = id;
  event_type = "workspace.created";
  scope_type = "project";
  scope_id = params.project_id;
  event_fields =
      ("projectId", text params.project_id)
      ∷ ("clusterId", text params.cluster_id)
      ∷ ("name", text (trim_space params.name))
      ∷ [];
  complete_immediately = false;
  apply = apply_create_workspace id params clock;
}

-- `CreateWorkspace`
unfoldable pub create_workspace :
    Entropy → ℕ → ℕ → ℕ → CreateWorkspaceParams → Db → Outcome (Acceptance × Db)
create_workspace entropy k now clock params db = do
  fail_if
      (not (is_uuid params.project_id)
        || not (is_uuid params.cluster_id)
        || not (is_uuid params.accelerator_profile_id))
      not_found
  let name = trim_space params.name
  fail_if (str_eq name "" || ltb 63 (len name) || not (is_workspace_name name)) invalid
  id ← new_uuid entropy k
  accept_mutation entropy (k + 1) now params.mutation (create_workspace_spec id params clock) db

abbrev pub wants : DesiredState → ℕ → Workspace → Workspace
wants desired now w = record w {
  desired_state = desired;
  generation = w.generation + 1;
  updated_at = now;
}

-- `apply` of `SetWorkspaceDesiredState`
unfoldable pub apply_desired_state : String → DesiredState → ℕ → ℕ → Db → Outcome Db
unfolding workspace_quota_delta
apply_desired_state id desired clock now db = do
  w ← or_fail (find (λ x. str_eq x.id id) db.workspaces) not_found
  counted ←
      adjust_workspace_quota w.project_id clock
        (workspace_quota_delta w.desired_state desired w.gpu_count) db
  ok (record counted {
    workspaces = update (λ x. str_eq x.id id) (wants desired now) counted.workspaces;
  })

abbrev pub desired_state_spec : SetDesiredStateParams → String → ℕ → Spec
desired_state_spec params project clock = record {
  kind = "workspace.desired-state.update";
  resource_type = "workspace";
  resource_id = params.workspace_id;
  event_type = "workspace.desired-state.updated";
  scope_type = "project";
  scope_id = project;
  event_fields = ("desiredState", text params.desired_state) ∷ [];
  complete_immediately = false;
  apply = apply_desired_state (to_lower params.workspace_id) params.desired_state clock;
}

-- `SetWorkspaceDesiredState`
unfoldable pub set_desired_state :
    Entropy → ℕ → ℕ → ℕ → SetDesiredStateParams → Db → Outcome (Acceptance × Db)
set_desired_state entropy k now clock params db = do
  fail_if (not (is_uuid params.workspace_id)) not_found
  fail_if
      (not (str_eq params.desired_state desired_running)
        && not (str_eq params.desired_state desired_stopped)
        && not (str_eq params.desired_state desired_terminated))
      invalid
  w ← or_fail (find (λ x. str_eq x.id (to_lower params.workspace_id)) db.workspaces) not_found
  accept_mutation entropy k now params.mutation (desired_state_spec params w.project_id clock) db

-- The row that a reconciliation was started for: WHERE id = $1 AND generation = $3
abbrev pub is_current : ReconcileState → Workspace → Bool
is_current state w =
    str_eq w.id (to_lower state.workspace_id) && w.generation == pos_part state.generation

abbrev pub started : ℕ → Workspace → Workspace
started now w = record w {
  provisioning_state = ProvisioningState.provisioning;
  observed_state = ObservedState.unknown;
  updated_at = now;
}

-- `StartWorkspace`
unfoldable pub start_workspace : ℕ → ReconcileState → Db → Outcome Db
start_workspace now state db = do
  fail_if (not (is_uuid state.workspace_id) || ltb_ℤ state.generation (pos 1)) not_found
  fail_if (not (any (is_current state) db.workspaces)) conflict
  ok (record db { workspaces = update (is_current state) (started now) db.workspaces })

abbrev pub reached : DesiredState → ObservedState
reached desired =
    if str_eq desired desired_running
    then ObservedState.running
    else if str_eq desired desired_stopped
    then ObservedState.stopped
    else ObservedState.terminated

abbrev pub completed : ℕ → Workspace → Workspace
completed now w = record w {
  observed_state = reached w.desired_state;
  provisioning_state = ProvisioningState.succeeded;
  observed_generation = w.generation;
  updated_at = now;
}

abbrev pub is_pending : SnapshotState → Bool
is_pending SnapshotState.pending = true
is_pending _ = false

abbrev pub snapshot_done : ℕ → Snapshot → Snapshot
snapshot_done now s = record s { state = SnapshotState.succeeded; updated_at = now }

-- `CompleteWorkspace`; its two statements follow one another without a transaction.
unfoldable pub complete_workspace : ℕ → ReconcileState → Db → Outcome Db
complete_workspace now state db = do
  fail_if (not (is_uuid state.workspace_id) || ltb_ℤ state.generation (pos 1)) not_found
  ok (record db {
    workspaces = update (is_current state) (completed now) db.workspaces;
    snapshots =
        update (λ s. str_eq s.workspace_id (to_lower state.workspace_id) && is_pending s.state)
          (snapshot_done now) db.snapshots;
  })

-- n replacement characters, which JSON has for bytes that are no UTF-8
replacements : ℕ → String
replacements zero = ""
replacements (suc n) = "�" +++ replacements n

-- `message[:n]` of a longer text, as it is read back from JSON.
unfoldable pub cut_bytes : ℕ → String → String
unfolding replacements
cut_bytes n String.[] = ""
cut_bytes n (String.◌∷◌ c s) =
    let width = len (String.◌∷◌ c "") in
    let rest = cut_bytes (n - width) s in if leb width n then String.◌∷◌ c rest else replacements n

-- The text of the failure
unfoldable pub failure_message : Option String → String
unfolding cut_bytes
failure_message none = "workspace reconciliation failed"
failure_message (some s) = if ltb 1024 (len s) then cut_bytes 1024 s else s

abbrev pub failed : Bool → String → ℕ → ℕ → Workspace → Workspace
failed terminal message at now w = record w {
  provisioning_state =
      if terminal then ProvisioningState.failed else ProvisioningState.provisioning;
  conditions =
      record {
        kind = "Ready";
        status = "False";
        reason = "ReconciliationFailed";
        message = message;
        last_transition_time = at;
      }
      ∷ [];
  updated_at = now;
}

-- `FailWorkspace`, which reads the clock twice
unfoldable pub fail_workspace : ℕ → ℕ → ReconcileState → Option String → Bool → Db → Outcome Db
unfolding failure_message
fail_workspace at now state error terminal db = do
  fail_if (not (is_uuid state.workspace_id) || ltb_ℤ state.generation (pos 1)) not_found
  ok (record db {
    workspaces =
        update (is_current state) (failed terminal (failure_message error) at now) db.workspaces;
  })

-- INSERT INTO workspace_snapshots, with the CHECK on source_pvc_name, the PRIMARY KEY, UNIQUE (workspace_id, name) and reference
unfoldable pub insert_snapshot : Snapshot → Db → Outcome Db
unfolding is_workspace_name
insert_snapshot s db = do
  fail_if (not (is_workspace_name s.source_pvc_name)) (failure "snapshot check")
  fail_if
      (any (λ x. str_eq x.id s.id || (str_eq x.workspace_id s.workspace_id && str_eq x.name s.name))
        db.snapshots)
      conflict
  fail_if (not (any (λ (w : Workspace). str_eq w.id s.workspace_id) db.workspaces)) not_found
  ok (record db { snapshots = db.snapshots ++ s ∷ [] })

-- `apply` of `CreateSnapshot`
unfoldable pub apply_create_snapshot : String → CreateSnapshotParams → ℕ → Db → Outcome Db
unfolding insert_snapshot
apply_create_snapshot id params now db = do
  w ←
      or_fail (find (λ (x : Workspace). str_eq x.id (to_lower params.workspace_id)) db.workspaces)
        not_found
  fail_if (str_eq w.desired_state desired_terminated) not_found
  insert_snapshot
      (record {
        id = id;
        workspace_id = to_lower params.workspace_id;
        name = trim_space params.name;
        source_pvc_name = work_name params.workspace_id +++ "-data";
        state = SnapshotState.pending;
        created_at = now;
        updated_at = now;
      })
      db

-- `CreateSnapshot`
unfoldable pub create_snapshot :
    Entropy → ℕ → ℕ → CreateSnapshotParams → Db → Outcome (Acceptance × Db)
create_snapshot entropy k now params db = do
  fail_if (not (is_uuid params.workspace_id)) not_found
  let name = trim_space params.name
  fail_if (str_eq name "" || ltb 63 (len name) || not (is_workspace_name name)) invalid
  id ← new_uuid entropy k
  w ←
      or_fail (find (λ (x : Workspace). str_eq x.id (to_lower params.workspace_id)) db.workspaces)
        not_found
  accept_mutation entropy (k + 1) now params.mutation
      (record {
        kind = "workspace.snapshot.create";
        resource_type = "workspace-snapshot";
        resource_id = id;
        event_type = "workspace.snapshot.created";
        scope_type = "project";
        scope_id = w.project_id;
        event_fields = ("workspaceId", text params.workspace_id) ∷ ("name", text name) ∷ [];
        complete_immediately = false;
        apply = apply_create_snapshot id params;
      })
      db
