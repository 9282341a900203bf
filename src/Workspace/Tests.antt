-- ===== src/Workspace/Tests.antt =====
-- Tests of internal/workspace.
use gpu_rental_platform.Common.{[], ◌∷◌, All, Row, ◌≡◌}
use gpu_rental_platform.Workspace.{
  Workspace, Snapshot, ObservedState, ProvisioningState, SnapshotState, desired_running,
  desired_stopped, desired_terminated,
}
use gpu_rental_platform.Workspace.Manifest.{manifests, stateful_set, service}
use gpu_rental_platform.Workspace.Objects.{
  IsContained, IsIdle, IsLasting, manifests-IsContained, manifests_follow_state,
}

abbrev workspace : Workspace
workspace = record {
  id = "5555aaaa-5555-4555-9555-555555555555";
  project_id = "p";
  cluster_id = "c";
  accelerator_profile_id = "a";
  name = "train-1";
  gpu_count = 2;
  storage_gib = 20;
  namespace_name = "gpu-p-1";
  desired_state = "stopped";
  observed_state = ObservedState.running;
  provisioning_state = ProvisioningState.succeeded;
  conditions = [];
  generation = 2;
  observed_generation = 1;
  manifest_work_name = "gpu-workspace-5555aaaa5555";
  created_at = 20;
  updated_at = 40;
}

abbrev snapshot : Snapshot
snapshot = record {
  id = "s";
  workspace_id = "5555aaaa-5555-4555-9555-555555555555";
  name = "before-stop";
  source_pvc_name = "gpu-workspace-5555aaaa5555-data";
  state = SnapshotState.pending;
  created_at = 70;
  updated_at = 70;
}

manifests-IsContained_example : All (IsContained workspace) (manifests workspace (snapshot ∷ []))
manifests-IsContained_example = manifests-IsContained workspace (snapshot ∷ [])

manifests_follow_state_example :
    ("stopped" ≡ desired_running
      → Row (stateful_set workspace) (manifests workspace (snapshot ∷ []))
        × Row (service workspace) (manifests workspace (snapshot ∷ []))
        × IsLasting workspace (snapshot ∷ []) (manifests workspace (snapshot ∷ [])))
    × ("stopped" ≡ desired_stopped
        → IsLasting workspace (snapshot ∷ []) (manifests workspace (snapshot ∷ []))
          × All IsIdle (manifests workspace (snapshot ∷ [])))
    × ("stopped" ≡ desired_terminated → manifests workspace (snapshot ∷ []) ≡ [])
manifests_follow_state_example = manifests_follow_state workspace (snapshot ∷ [])
