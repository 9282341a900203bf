-- ===== src/Storage/Workspaces/Reconcile.antt =====
-- `Reconcile` of internal/workspace/reconciler.go. `apply` is the fleet manager, a service outside: what
-- it answers to a work. Each of the three statements is a transaction, and `Others` is what other
-- transactions do to the tables between them.
use gpu_rental_platform.Common.{
  ℕ, String, Bool, true, false, not, ◌&&◌, ◌||◌, ◌==◌, some, List, [], ◌∷◌, if◌then◌else◌, str_eq,
  Outcome, ok, err, failure, fail_if, ◌>>=◌, ◌>>◌,
}
use gpu_rental_platform.Common.Int.{pos}
use gpu_rental_platform.Common.Text.{is_blank, ◌+++◌}
use gpu_rental_platform.Workspace.{
  Workspace, Snapshot, ProvisioningState, ReconcileState, observed_matches,
}
use gpu_rental_platform.Workspace.Manifest.{WorkRequest, build_work}
use gpu_rental_platform.Storage.Db.{Db, Event, Value, text}
use gpu_rental_platform.Storage.Mutation.{Fields}
use gpu_rental_platform.Storage.Reads.{get_workspace}
use gpu_rental_platform.Storage.Workspaces.{start_workspace, complete_workspace, fail_workspace}

-- The result of `ApplyWork`: applied and available, or the text of an error
pub data WorkResult : Type 0 where
  answered : Bool → Bool → WorkResult
  refused : String → WorkResult

-- Between the load and the next statement, and while the fleet manager works.
pub record Others : Type 0 where
  pub after_load : Db → Db
  pub after_start : Db → Db

abbrev text_of : Value → Outcome String
text_of (text s) = ok s
text_of _ = err (failure "decode event")

-- A field of the payload: a missing one is empty.
unfoldable pub field_text : String → Fields → Outcome String
field_text key [] = ok ""
field_text key ((k, v) ∷ rest) =
    let more = field_text key rest in if str_eq k key then text_of v else more

abbrev pub is_snapshot_event : Event → Bool
is_snapshot_event event = str_eq event.event_type "workspace.snapshot.created"

-- `eventIdentity`
unfoldable pub event_identity : Event → Outcome (String × String)
unfolding field_text
event_identity event = do
  resource ← field_text "resourceId" event.payload
  workspace ← field_text "workspaceId" event.payload
  operation ← field_text "operationId" event.payload
  let id = if is_snapshot_event event then workspace else resource
  fail_if (is_blank id || is_blank operation)
      (failure "event is missing workspace or operation identity")
  ok (id, operation)

abbrev pub state_of : String → String → WorkRequest → Workspace → ReconcileState
state_of id operation work w = record {
  workspace_id = id;
  operation_id = operation;
  cluster_id = w.cluster_id;
  work_name = work.work_id;
  generation = pos w.generation;
}

abbrev pub is_succeeded : ProvisioningState → Bool
is_succeeded ProvisioningState.succeeded = true
is_succeeded _ = false

-- Nothing is left to do
unfoldable pub is_done : Event → Workspace → Bool
is_done event w =
    not (is_snapshot_event event)
    && w.observed_generation == w.generation
    && is_succeeded w.provisioning_state
    && observed_matches w.desired_state w.observed_state

-- The tables behind the last statement, and whether it succeeded
unfoldable pub ended : Db → Outcome Db → Outcome (Unit {0}) × Db
ended db (ok after) = (ok tt, after)
ended db (err e) = (err e, db)

unfoldable pub give_up : ℕ → ℕ → ReconcileState → String → Bool → Db → Outcome (Unit {0}) × Db
unfolding ended
give_up at now state message terminal db =
    let reason = "apply workspace ManifestWork: " +++ message in
    (err (failure reason), (ended db (fail_workspace at now state (some reason) terminal db)).1)

unfoldable pub finish_work :
    ℕ → ℕ → ReconcileState → Bool → Db → WorkResult → Outcome (Unit {0}) × Db
unfolding ended give_up
finish_work at now state terminal db (answered true true) =
    ended db (complete_workspace now state db)
finish_work at now state terminal db (answered _ _) =
    give_up at now state "ManifestWork did not reach Applied and Available" terminal db
finish_work at now state terminal db (refused message) = give_up at now state message terminal db

-- The part behind a successful `StartWorkspace`
unfoldable pub work_on :
    (WorkRequest → WorkResult)
    → Others
    → ℕ
    → ℕ
    → ReconcileState
    → WorkRequest
    → Bool
    → Db
    → Outcome Db
    → Outcome (Unit {0}) × Db
unfolding finish_work
work_on apply others at now state work terminal db (ok begun) =
    finish_work at now state terminal (others.after_start begun) (apply work)
work_on apply others at now state work terminal db (err e) = (err e, db)

-- The part behind `LoadWorkspace`
unfoldable pub reconcile_loaded :
    (WorkRequest → WorkResult)
    → Others
    → ℕ
    → ℕ
    → ℕ
    → Event
    → Bool
    → Db
    → String
    → String
    → Workspace
    → Outcome WorkRequest
    → Outcome (Unit {0}) × Db
unfolding is_done ended work_on
reconcile_loaded apply others begin at now event terminal db id operation w (err e) = (err e, db)
reconcile_loaded apply others begin at now event terminal db id operation w (ok work) =
    let state = state_of id operation work w in
    let found = others.after_load db in
    if is_done event w
    then ended found (complete_workspace begin state found)
    else work_on apply others at now state work terminal found (start_workspace begin state found)

unfoldable pub reconcile_known :
    (WorkRequest → WorkResult)
    → Others
    → ℕ
    → ℕ
    → ℕ
    → Event
    → Bool
    → Db
    → String
    → String
    → Outcome (Workspace × List Snapshot)
    → Outcome (Unit {0}) × Db
unfolding reconcile_loaded
reconcile_known apply others begin at now event terminal db id operation (err e) = (err e, db)
reconcile_known apply others begin at now event terminal db id operation (ok (w, snapshots)) =
    reconcile_loaded apply others begin at now event terminal db id operation w
      (build_work (record { workspace = w; snapshots = snapshots; operation_id = operation }))

-- The part behind `eventIdentity`
unfoldable pub reconcile_named :
    (WorkRequest → WorkResult)
    → Others
    → ℕ
    → ℕ
    → ℕ
    → Event
    → Bool
    → Db
    → Outcome (String × String)
    → Outcome (Unit {0}) × Db
unfolding reconcile_known
reconcile_named apply others begin at now event terminal db (err e) = (err e, db)
reconcile_named apply others begin at now event terminal db (ok (id, operation)) =
    reconcile_known apply others begin at now event terminal db id operation (get_workspace id db)

-- `Reconcile`: its error, and the tables behind it. The clock gives `begin` first, and `at` and `now` at
-- the end.
unfoldable pub reconcile :
    (WorkRequest → WorkResult) → Others → ℕ → ℕ → ℕ → Event → Bool → Db → Outcome (Unit {0}) × Db
unfolding reconcile_named
reconcile apply others begin at now event terminal db =
    reconcile_named apply others begin at now event terminal db (event_identity event)
