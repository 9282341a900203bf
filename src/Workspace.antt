-- ===== src/Workspace.antt =====
-- internal/workspace: the records of repository.go, the name of the work (manifest.go), what counts as
-- reached (reconciler.go) and the wait before another attempt (runner.go). The texts of a state that a
-- CHECK of the migrations lists are a data type, but for the wanted state, which a request carries;
-- `other` stands for any other type of access. A time or a duration is a number of nanoseconds.
pub mod Laws
pub mod Manifest
pub mod Runner
pub mod Objects
mod Tests
use gpu_rental_platform.Common.{
  str_eq, ℕ, zero, suc, ◌-◌, ◌*◌, ◌^◌, String, Bool, true, false, Option, none, some, List, [], ◌∷◌,
  ltb, leb, if◌then◌else◌,
}
use gpu_rental_platform.Common.Int.{ℤ, pos, negsuc, ltb_ℤ, leb_ℤ, pos_part, ◌-ℤ◌}
use gpu_rental_platform.Common.Text.{plain_prefix, len, ◌+++◌}
use gpu_rental_platform.Tenancy.{MutationContext}

-- `DesiredState`, a text, with its constants
abbrev pub DesiredState : Type 0
DesiredState = String

abbrev pub desired_running : DesiredState
desired_running = "running"

abbrev pub desired_stopped : DesiredState
desired_stopped = "stopped"

abbrev pub desired_terminated : DesiredState
desired_terminated = "terminated"

pub data ObservedState : Type 0 where
  pending running stopped terminated unknown : ObservedState

pub data ProvisioningState : Type 0 where
  pending provisioning succeeded failed deleting : ProvisioningState

pub data AccessType : Type 0 where
  ssh web_terminal jupyter : AccessType
  other : String → AccessType

pub data SnapshotState : Type 0 where
  pending succeeded failed : SnapshotState

abbrev pub access_text : AccessType → String
access_text AccessType.ssh = "ssh"
access_text AccessType.web_terminal = "web-terminal"
access_text AccessType.jupyter = "jupyter"
access_text (AccessType.other s) = s

-- `tenancy.Condition`
pub record Condition : Type 0 where
  pub kind : String
  pub status : String
  pub reason : String
  pub message : String
  pub last_transition_time : ℕ

-- `Workspace`, and a row of the table workspaces
pub record Workspace : Type 0 where
  pub id : String
  pub project_id : String
  pub cluster_id : String
  pub accelerator_profile_id : String
  pub name : String
  pub gpu_count : ℕ
  pub storage_gib : ℕ
  pub namespace_name : String
  pub desired_state : DesiredState
  pub observed_state : ObservedState
  pub provisioning_state : ProvisioningState
  pub conditions : List Condition
  pub generation : ℕ
  pub observed_generation : ℕ
  pub manifest_work_name : String
  pub created_at : ℕ
  pub updated_at : ℕ

-- `Snapshot`, and a row of the table workspace_snapshots
pub record Snapshot : Type 0 where
  pub id : String
  pub workspace_id : String
  pub name : String
  pub source_pvc_name : String
  pub state : SnapshotState
  pub created_at : ℕ
  pub updated_at : ℕ

pub record AccessToken : Type 0 where
  pub id : String
  pub workspace_id : String
  pub access_type : AccessType
  pub token : String
  pub expires_at : ℕ

pub record AccessTokenInfo : Type 0 where
  pub id : String
  pub workspace_id : String
  pub access_type : AccessType
  pub expires_at : ℕ

pub record CreateWorkspaceParams : Type 0 where
  pub mutation : MutationContext
  pub project_id : String
  pub cluster_id : String
  pub accelerator_profile_id : String
  pub name : String
  pub storage_gib : ℤ

pub record SetDesiredStateParams : Type 0 where
  pub mutation : MutationContext
  pub workspace_id : String
  pub desired_state : DesiredState

pub record CreateAccessTokenParams : Type 0 where
  pub mutation : MutationContext
  pub workspace_id : String
  pub access_type : AccessType
  pub ttl : ℤ

pub record RevokeAccessTokenParams : Type 0 where
  pub mutation : MutationContext
  pub workspace_id : String
  pub token_id : String

pub record CreateSnapshotParams : Type 0 where
  pub mutation : MutationContext
  pub workspace_id : String
  pub name : String

-- `ReconcileState`
pub record ReconcileState : Type 0 where
  pub workspace_id : String
  pub operation_id : String
  pub cluster_id : String
  pub work_name : String
  pub generation : ℤ

-- `WorkName`
unfoldable pub work_name : String → String
work_name id = "gpu-workspace-" +++ plain_prefix 12 id

-- `observedMatchesDesired`
unfoldable pub observed_matches : DesiredState → ObservedState → Bool
observed_matches desired ObservedState.running = str_eq desired desired_running
observed_matches desired ObservedState.stopped = str_eq desired desired_stopped
observed_matches desired ObservedState.terminated = str_eq desired desired_terminated
observed_matches desired _ = false

-- `time.Second`
abbrev pub second : ℕ
second = 1000000000

-- `workspaceRetryBackoff`
unfoldable pub retry_backoff : ℤ → ℕ
retry_backoff attempt =
    let attempt' = if ltb_ℤ attempt (pos 1) then 1 else pos_part attempt in
    let exponent = attempt' - 1 in
    let exponent' = if ltb 5 exponent then 5 else exponent in 2 ^ exponent' * second

pub record RunnerConfig : Type 0 where
  pub worker_id : String
  pub poll_interval : ℤ
  pub reconcile_timeout : ℤ
  pub max_attempts : ℤ
