-- ===== src/Storage/Workspaces/Settled.antt =====
-- Generations: what a reconciliation may write, and what a finished one shows.
use gpu_rental_platform.Storage.Workspaces.Laws.{adjust-workspaces}
use gpu_rental_platform.Storage.Workspaces.Accounts.{workspace_id}
use gpu_rental_platform.Storage.Workspaces.Writes.{insert_workspace-ok}
use gpu_rental_platform.Storage.Workspaces.Steps.{
  Step, creates, changes, starts, completes, fails, accounts, Reach, start, next,
  create_workspace-ok, set_desired_state-ok, start_workspace-ok, complete_workspace-ok,
  fail_workspace-ok,
}
use gpu_rental_platform.Storage.Db.{Db, empty_db}
use gpu_rental_platform.Common.{
  All-Row, ◌∙◌, fail_if-eq-ok, conflict, fail_if, >>=-eq-ok, >>=-eq-ok, ◌||◌, not, fail_if-ok,
  Unique-Row, Row-any, ok, Bool-cases, Option, All-append, ◌≢◌, eq_iff, str_eq, All-update, Row, [],
  ◌∷◌, update, All, any, Unique, List, arith, inl, inr, ◌≡◌, ◌≤◌, refl, ℕ, String, true, false,
  Bool,
}
use gpu_rental_platform.Workspace.{Workspace, ProvisioningState, observed_matches}
use gpu_rental_platform.Storage.Workspaces.{
  ltb_ℤ, is_uuid, failure_message, pos_part, desired_running, to_lower, is_current,
  workspace_quota_delta, pos, fail_workspace, complete_workspace, ReconcileState, Db,
  start_workspace, started, completed, failed, reached, wants,
}
use gpu_rental_platform.Storage.Workspaces.Writes.{Created, Changed, IsKnown}

-- A workspace that was observed at no later generation than its own, and that is in the state that is
-- wanted whenever it is shown as provisioned at its own generation.
pub record IsSettled (w : Workspace) : Type 0 where
  pub known : IsKnown w.desired_state
  pub seen : w.observed_generation ≤ w.generation
  pub settled :
      w.provisioning_state ≡ ProvisioningState.succeeded
      → w.observed_generation ≡ w.generation
      → observed_matches w.desired_state w.observed_state ≡ true

reached-matches : (d : String) → IsKnown d → observed_matches d (reached d) ≡ true
unfolding observed_matches
reached-matches d (inl e) = rw e refl
reached-matches d (inr (inl e)) = rw e refl
reached-matches d (inr (inr e)) = rw e refl

started-IsSettled : (now : ℕ) (w : Workspace) → IsSettled w → IsSettled (started now w)
started-IsSettled now w s = record { known = s.known; seen = s.seen; settled = λ p e. cc }

completed-IsSettled : (now : ℕ) (w : Workspace) → IsSettled w → IsSettled (completed now w)
completed-IsSettled now w s = record {
  known = s.known;
  seen = omega arith;
  settled = λ p e. reached-matches w.desired_state s.known;
}

failed-IsSettled :
    (terminal : Bool) (message : String) (at now : ℕ) (w : Workspace)
    → IsSettled w
    → IsSettled (failed terminal message at now w)
failed-IsSettled true message at now w s = record {
  known = s.known;
  seen = s.seen;
  settled = λ p e. cc;
}
failed-IsSettled false message at now w s = record {
  known = s.known;
  seen = s.seen;
  settled = λ p e. cc;
}

wants-IsSettled :
    (desired : String) (now : ℕ) (w : Workspace)
    → IsKnown desired
    → IsSettled w
    → IsSettled (wants desired now w)
wants-IsSettled desired now w known s = record {
  known = known;
  seen = let le = s.seen in omega arith;
  settled = λ p e. let le = s.seen in absurd (omega arith);
}

abbrev AllSettled : Db → Type 0
AllSettled db = All IsSettled db.workspaces

Created-settled : (db after : Db) → AllSettled db → Created db after → AllSettled after
Created-settled db after good (w, clock, counted, wanted, one, zeroth, e, inserted) =
    let kept = adjust-workspaces w.project_id clock (pos w.gpu_count) db counted e in
    let (_, same) = insert_workspace-ok w counted after inserted in
    let fresh : IsSettled w = record {
      known = inl (ground (arith, eq_iff w.desired_state desired_running));
      seen = omega arith;
      settled = λ p e. absurd (omega arith);
    } in
    rw (same, kept) (All-append IsSettled db.workspaces (w ∷ []) good (fresh, tt))

Changed-settled : (db after : Db) → AllSettled db → Changed db after → AllSettled after
Changed-settled db after good (w, desired, clock, now, counted, known, m, e, same) =
    let kept =
      adjust-workspaces w.project_id clock
        (workspace_quota_delta w.desired_state desired w.gpu_count) db counted e in
    rw (same, kept)
      (All-update IsSettled (λ x. str_eq x.id w.id) (wants desired now) db.workspaces good
        (λ x s. wants-IsSettled desired now x known s))

Step-settled : (db after : Db) → AllSettled db → Step db after → AllSettled after
unfolding start_workspace complete_workspace fail_workspace
Step-settled db after good (creates entropy k now clock params a h) =
    elim (create_workspace-ok entropy k now clock params db a after h) [
      | inl same ↦ rw same good
      | inr (applied, did, same) ↦ rw (same.workspaces) (Created-settled db applied good did)
    ]
Step-settled db after good (changes entropy k now clock params a h) =
    elim (set_desired_state-ok entropy k now clock params db a after h) [
      | inl same ↦ rw same good
      | inr (applied, did, same) ↦ rw (same.workspaces) (Changed-settled db applied good did)
    ]
Step-settled db after good (starts now state h) = rw (start_workspace-ok now state db after h) (
    All-update IsSettled (is_current state) (started now) db.workspaces good
      (started-IsSettled now))
Step-settled db after good (completes now state h) =
    rw (complete_workspace-ok now state db after h) (
      All-update IsSettled (is_current state) (completed now) db.workspaces good
        (completed-IsSettled now))
Step-settled db after good (fails at now state error terminal h) =
    rw (fail_workspace-ok at now state error terminal db after h) (
      All-update IsSettled (is_current state) (failed terminal (failure_message error) at now)
        db.workspaces good (failed-IsSettled terminal (failure_message error) at now))
Step-settled db after good (accounts step same) = rw same good

-- In every run from empty tables of the operations on workspaces, quotas and reservations: a workspace
-- is wanted running, stopped or terminated, was observed at no generation later than its own, and is
-- observed in the state that is wanted whenever it is shown as provisioned at its own generation.
pub Reach-IsSettled :
    (after : Db) (w : Workspace) → Reach empty_db after → Row w after.workspaces → IsSettled w
Reach-IsSettled after w run m = All-Row IsSettled after.workspaces (all_settled after run) m
  where
    all_settled : (db : Db) → Reach empty_db db → AllSettled db
    all_settled _ start = tt
    all_settled db (next mid _ path step) = Step-settled mid db (all_settled mid path) step

-- A test that no row meets updates nothing.
update_none :
    (p : Workspace → Bool) (f : Workspace → Workspace) (ws : List Workspace)
    → any p ws ≡ false
    → update p f ws ≡ ws
update_none p f [] h = refl
update_none p f (x ∷ xs) h = ground (arith, update_none p f xs)

stale :
    (state : ReconcileState) (w : Workspace) (ws : List Workspace)
    → Unique workspace_id ws
    → Row w ws
    → to_lower state.workspace_id ≡ w.id
    → pos_part state.generation ≢ w.generation
    → any (is_current state) ws ≡ false
stale state w ws u m e g = elim (Bool-cases (any (is_current state) ws)) [
  | inr t ↦ t
  | inl t ↦
      let (x, stands, hit) = Row-any (is_current state) ws t in
      let key : x.id ≡ w.id = ground (arith, eq_iff x.id (to_lower state.workspace_id)) in
      let one : x ≡ w = Unique-Row workspace_id x w ws u stands m key in
      let hit' : is_current state w ≡ true = rw one at hit in absurd (ground arith)
]

-- Where the ids of workspaces are unique: a reconciliation of another generation than that of the
-- workspace cannot start, and its completion or failure leaves every workspace as it is.
pub reconcile_fences :
    (state : ReconcileState) (w : Workspace) (db : Db)
    → Unique workspace_id db.workspaces
    → Row w db.workspaces
    → to_lower state.workspace_id ≡ w.id
    → pos_part state.generation ≢ w.generation
    → (at now : ℕ) (error : Option String) (terminal : Bool) (after : Db)
    → (start_workspace now state db ≢ ok after)
      × (complete_workspace now state db ≡ ok after → after.workspaces ≡ db.workspaces)
      × (fail_workspace at now state error terminal db ≡ ok after
          → after.workspaces ≡ db.workspaces)
unfolding start_workspace
reconcile_fences state w db u m e g at now error terminal after =
    let none_current = stale state w db.workspaces u m e g in
    (
      (λ h.
          let h₁ =
            fail_if-ok (not (is_uuid state.workspace_id) || ltb_ℤ state.generation (pos 1)) _ _ h in
          let (_, c, _) =
            >>=-eq-ok (fail_if (not (any (is_current state) db.workspaces)) conflict) _ h₁ in
          let some_current = fail_if-eq-ok (not (any (is_current state) db.workspaces)) _ c in
          absurd (ground arith)),
      (λ h.
          complete_workspace-ok now state db after h
          ∙ update_none (is_current state) (completed now) db.workspaces none_current),
      (λ h.
          fail_workspace-ok at now state error terminal db after h
          ∙ update_none (is_current state) (failed terminal (failure_message error) at now)
              db.workspaces none_current),
    )
