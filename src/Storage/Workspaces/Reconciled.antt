-- ===== src/Storage/Workspaces/Reconciled.antt =====
-- What a reconciliation that reports success means for the workspace.
use gpu_rental_platform.Common.{
  ◌⊎◌, ◌≢◌, ◌≡◌, inl, inr, refl, ap, ℕ, String, Bool, true, false, not, List, ok, err, Outcome,
  Bool-cases, str_eq, find, Row, Row-find, update-Row, arith, eq_iff, fail_if-ok, or_fail,
  or_fail-eq-ok, >>=-eq-ok, ok-injective, not_found,
}
use gpu_rental_platform.Common.Text.{to_lower}
use gpu_rental_platform.Identity.{is_uuid}
use gpu_rental_platform.Workspace.{observed_matches, Workspace, Snapshot, ProvisioningState}
use gpu_rental_platform.Workspace.Manifest.{build_work, WorkRequest}
use gpu_rental_platform.Storage.Db.{Db, Event}
use gpu_rental_platform.Storage.Reads.{get_workspace}
use gpu_rental_platform.Storage.Workspaces.{
  ReconcileState, complete_workspace, start_workspace, is_current, completed, reached,
}
use gpu_rental_platform.Storage.Workspaces.Steps.{complete_workspace-ok}
use gpu_rental_platform.Storage.Workspaces.Reconcile.{
  Others, is_snapshot_event, is_succeeded, WorkResult, answered, refused, event_identity, state_of,
  is_done, ended, give_up, finish_work, work_on, reconcile_loaded, reconcile_known, reconcile_named,
  reconcile,
}

-- The row of a workspace, as a completion leaves it.
pub record IsReached (w : Workspace) (after : Db) : Type 0 where
  pub row : Workspace
  pub stands : Row row after.workspaces
  pub same_id : row.id ≡ w.id
  pub same_generation : row.generation ≡ w.generation
  pub seen : row.observed_generation ≡ w.generation
  pub succeeded : row.provisioning_state ≡ ProvisioningState.succeeded
  pub reached_is : row.observed_state ≡ reached w.desired_state

ended-ok : (db after : Db) (r : Outcome Db) → ended db r ≡ (ok tt, after) → r ≡ ok after
unfolding ended
ended-ok db after (ok d) h = ap ok (ap (λ x. x.1) h)
ended-ok db after (err e) h = cc

-- What a completion does to a row of the workspace: one of the generation that was read is shown as
-- provisioned and observed in the state that the row wants, and another one stays as it is.
abbrev pub IsSettledFor : Workspace → Workspace → Db → Type 0
IsSettledFor w x after =
    (x.generation ≡ w.generation → IsReached x after)
    × (x.generation ≢ w.generation → Row x after.workspaces)

completed-IsSettledFor :
    (now : ℕ) (id operation : String) (work : WorkRequest) (w x : Workspace) (db after : Db)
    → w.id ≡ to_lower id
    → complete_workspace now (state_of id operation work w) db ≡ ok after
    → Row x db.workspaces
    → x.id ≡ w.id
    → IsSettledFor w x after
completed-IsSettledFor now id operation work w x db after key h m same =
    let state = state_of id operation work w in
    let rows = update-Row (is_current state) (completed now) x db.workspaces m in
    (
      λ gen.
          let current : is_current state x ≡ true = ground (arith, eq_iff x.id (to_lower id)) in
          record {
            row = completed now x;
            stands = rw (complete_workspace-ok now state db after h) (rw current at rows);
            same_id = refl;
            same_generation = refl;
            seen = refl;
            succeeded = refl;
            reached_is = refl;
          },
      λ gen.
          let other : is_current state x ≡ false = ground arith in
          rw (complete_workspace-ok now state db after h) (rw other at rows),
    )

finish_work-ok :
    (a n : ℕ) (s : ReconcileState) (t : Bool) (d d' : Db) (r : WorkResult)
    → finish_work a n s t d r ≡ (ok tt, d')
    → (r ≡ answered true true) × (complete_workspace n s d ≡ ok d')
unfolding finish_work give_up
finish_work-ok a n s t d d' (answered true true) e =
    (refl, ended-ok d d' (complete_workspace n s d) e)
finish_work-ok a n s t d d' (answered true false) e = cc
finish_work-ok a n s t d d' (answered false b) e = cc
finish_work-ok a n s t d d' (refused message) e = cc

get_workspace-ok :
    (id : String) (db : Db) (w : Workspace) (snapshots : List Snapshot)
    → get_workspace id db ≡ ok (w, snapshots)
    → Row w db.workspaces × (w.id ≡ to_lower id)
unfolding get_workspace
get_workspace-ok id db w snapshots h =
    let h₁ = fail_if-ok (not (is_uuid id)) _ _ h in
    let wanted = λ (x : Workspace). str_eq x.id (to_lower id) in
    let (x, e, h₂) = >>=-eq-ok (or_fail (find wanted db.workspaces) not_found) _ h₁ in
    let found = or_fail-eq-ok (find wanted db.workspaces) _ e in
    let same : x ≡ w = ap (λ p. p.0) (ok-injective h₂) in
    let (row, test) = Row-find wanted w db.workspaces (rw same at found) in
    (row, (eq_iff w.id (to_lower id)).0 test)

-- Nothing was left to do when the workspace was read.
pub record WasDone (event : Event) (w : Workspace) : Type 0 where
  pub no_snapshot : is_snapshot_event event ≡ false
  pub seen : w.observed_generation ≡ w.generation
  pub succeeded : w.provisioning_state ≡ ProvisioningState.succeeded
  pub matches : observed_matches w.desired_state w.observed_state ≡ true

is_done-WasDone : (event : Event) (w : Workspace) → is_done event w ≡ true → WasDone event w
unfolding is_done
is_done-WasDone event w h = record {
  no_snapshot = ground arith;
  seen = ground arith;
  succeeded = state_is w.provisioning_state (ground arith);
  matches = ground arith;
}
  where
    state_is : (p : ProvisioningState) → is_succeeded p ≡ true → p ≡ ProvisioningState.succeeded
    state_is ProvisioningState.succeeded e = refl
    state_is _ e = cc

-- A reconciliation that reported success: what it read and built, the tables that its completion found,
-- how it came to them, and what it made of them.
pub record IsReconciled (apply : WorkRequest → WorkResult) (others : Others) (begin : ℕ)
    (event : Event) (db after : Db) : Type 0 where
  pub id : String
  pub operation : String
  pub workspace : Workspace
  pub snapshots : List Snapshot
  pub work : WorkRequest
  pub before : Db
  pub named : event_identity event ≡ ok (id, operation)
  pub loaded : get_workspace id db ≡ ok (workspace, snapshots)
  pub built :
      build_work (record { workspace = workspace; snapshots = snapshots; operation_id = operation })
      ≡ ok work
  pub comes_from :
      (WasDone event workspace × (before ≡ others.after_load db))
      ⊎ ((apply work ≡ answered true true)
          × (begun : Db) × (start_workspace begin
                (state_of id operation work workspace)
                (others.after_load db)
              ≡ ok begun)
          × (before ≡ others.after_start begun))
  pub settles :
      (x : Workspace)
      → Row x before.workspaces
      → x.id ≡ workspace.id
      → IsSettledFor workspace x after

module _ (apply : WorkRequest → WorkResult) (others : Others) (begin at now : ℕ) (event : Event)
    (terminal : Bool) (db after : Db) where
  work_on-ok :
      (state : ReconcileState) (work : WorkRequest) (r : Outcome Db) (found : Db)
      → work_on apply others at now state work terminal found r ≡ (ok tt, after)
      → (begun : Db) × (r ≡ ok begun)
        × (apply work ≡ answered true true)
        × (complete_workspace now state (others.after_start begun) ≡ ok after)
  unfolding work_on
  work_on-ok state work (err e) found h = cc
  work_on-ok state work (ok begun) found h =
      let (yes_both, did) =
        finish_work-ok at now state terminal (others.after_start begun) after (apply work) h in
      (begun, refl, yes_both, did)

  loaded-ok :
      (id operation : String) (w : Workspace) (snapshots : List Snapshot) (r : Outcome WorkRequest)
      → event_identity event ≡ ok (id, operation)
      → get_workspace id db ≡ ok (w, snapshots)
      → build_work (record { workspace = w; snapshots = snapshots; operation_id = operation }) ≡ r
      → reconcile_loaded apply others begin at now event terminal db id operation w r
        ≡ (ok tt, after)
      → IsReconciled apply others begin event db after
  unfolding reconcile_loaded
  loaded-ok id operation w snapshots (err e) named loaded built h = cc
  loaded-ok id operation w snapshots (ok work) named loaded built h =
      let state = state_of id operation work w in
      let found = others.after_load db in
      let key = (get_workspace-ok id db w snapshots loaded).1 in
      elim (Bool-cases (is_done event w)) [
        | inl t ↦
            let h' = rw t at h in
            let did = ended-ok found after (complete_workspace begin state found) h' in
            record {
              id = id;
              operation = operation;
              workspace = w;
              snapshots = snapshots;
              work = work;
              before = found;
              named = named;
              loaded = loaded;
              built = built;
              comes_from = inl (is_done-WasDone event w t, refl);
              settles = λ x. completed-IsSettledFor begin id operation work w x found after key did;
            }
        | inr t ↦
            let h' = rw t at h in
            let (begun, start_ok, both, did) =
              work_on-ok state work (start_workspace begin state found) found h' in
            record {
              id = id;
              operation = operation;
              workspace = w;
              snapshots = snapshots;
              work = work;
              before = others.after_start begun;
              named = named;
              loaded = loaded;
              built = built;
              comes_from = inr (both, begun, start_ok, refl);
              settles = λ x.
                  completed-IsSettledFor now id operation work w x (others.after_start begun) after
                    key did;
            }
      ]

  known-ok :
      (id operation : String) (r : Outcome (Workspace × List Snapshot))
      → event_identity event ≡ ok (id, operation)
      → get_workspace id db ≡ r
      → reconcile_known apply others begin at now event terminal db id operation r ≡ (ok tt, after)
      → IsReconciled apply others begin event db after
  unfolding reconcile_known
  known-ok id operation (err e) named eq h = cc
  known-ok id operation (ok (w, snapshots)) named eq h =
      loaded-ok id operation w snapshots _ named eq refl h

  named-ok :
      (r : Outcome (String × String))
      → event_identity event ≡ r
      → reconcile_named apply others begin at now event terminal db r ≡ (ok tt, after)
      → IsReconciled apply others begin event db after
  unfolding reconcile_named
  named-ok (err e) eq h = cc
  named-ok (ok (id, operation)) eq h = known-ok id operation (get_workspace id db) eq refl h

  -- A reconciliation that reports success, whatever other transactions do between its statements: its
  -- event names a workspace that it loaded, and either nothing was left to do for that one, or the
  -- work was begun and the fleet manager answered it as applied and available. Of the tables that its
  -- completion then finds, a row of the workspace at the generation that was loaded is shown as
  -- provisioned and observed in the state that it wants, and one of another generation stays as it is.
  pub reconcile_reaches :
      reconcile apply others begin at now event terminal db ≡ (ok tt, after)
      → IsReconciled apply others begin event db after
  unfolding reconcile
  reconcile_reaches h = named-ok (event_identity event) refl h
