-- ===== src/Storage/Reads/Tests.antt =====
-- The snapshots of a workspace come in the order in which they were made.
use gpu_rental_platform.Common.{◌≡◌, refl, String, ℕ, [], ◌∷◌, ok, err, not_found, map}
use gpu_rental_platform.Common.Text.{to_lower}
use gpu_rental_platform.Identity.{is_uuid}
use gpu_rental_platform.Workspace.{Snapshot, SnapshotState}
use gpu_rental_platform.Storage.Db.{Db, empty_db}
use gpu_rental_platform.Storage.Reads.{get_snapshot, list_snapshots}

code : Unit {0}
unfolding is_uuid to_lower get_snapshot list_snapshots
code = tt

abbrev workspace_id : String
workspace_id = "eeeeeeee-5555-4555-9555-555555555555"

abbrev snapshot_id : String
snapshot_id = "ffffffff-5555-4555-9555-555555555555"

abbrev made : String → ℕ → Snapshot
made id at = record {
  id = id;
  workspace_id = workspace_id;
  name = "snap";
  source_pvc_name = "gpu-workspace-eeeeeeee5555-data";
  state = SnapshotState.pending;
  created_at = at;
  updated_at = at;
}

abbrev db : Db
db = record empty_db { snapshots = made snapshot_id 9 ∷ made "b" 5 ∷ made "a" 5 ∷ [] }

listed : map (λ s. s.id) (list_snapshots workspace_id db) ≡ "a" ∷ "b" ∷ snapshot_id ∷ []
unfolding code
listed = refl

found : get_snapshot "EEEEEEEE-5555-4555-9555-555555555555" snapshot_id db ≡ ok (made snapshot_id 9)
unfolding code
found = refl

-- The snapshot of another workspace
missing : get_snapshot snapshot_id snapshot_id db ≡ err not_found
unfolding code
missing = refl
