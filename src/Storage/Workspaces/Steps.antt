-- ===== src/Storage/Workspaces/Steps.antt =====
-- Runs of the operations on workspaces among those on quotas and reservations.
use gpu_rental_platform.Common.{
  ap, update, eq_iff, fail_if-eq-ok, Bool-cases, invalid, fail_if, not_found, find, any, or_fail,
  >>=-eq-ok, ok-injective, ltb, ◌||◌, ◌&&◌, eq_refl, sym, arith, Bool, sum, ◌∙◌, none, str_eq, not,
  fail_if-ok, ◌⊎◌, inl, inr, ◌≡◌, ◌≤◌, refl, ℕ, ◌+◌, String, false, some, ok, Option,
}
use gpu_rental_platform.Identity.{Entropy, is_uuid, new_uuid}
use gpu_rental_platform.Tenancy.{Quota, pending, committed, Acceptance}
use gpu_rental_platform.Workspace.{
  Workspace, CreateWorkspaceParams, SetDesiredStateParams, ReconcileState,
}
use gpu_rental_platform.Storage.Db.{Db, empty_db}
use gpu_rental_platform.Storage.Mutation.Laws.{SameDomain}
use gpu_rental_platform.Storage.Mutation.Replay.{accept_mutation_once}
use gpu_rental_platform.Storage.Quota.{gpu_class}
use gpu_rental_platform.Storage.Quota.Accounts.{held}
use gpu_rental_platform.Storage.Quota.Steps.{
  Step as QuotaStep, Step-Accounted as QuotaStep-Accounted,
}
use gpu_rental_platform.Storage.Workspaces.{
  DesiredState, failure_message, to_lower, is_current, is_workspace_name, len, desired_terminated,
  pos, ltb_ℤ, desired_stopped, trim_space, desired_running, create_workspace, create_workspace_spec,
  set_desired_state, desired_state_spec, start_workspace, started, completed, failed,
  complete_workspace, fail_workspace,
}
use gpu_rental_platform.Storage.Workspaces.Accounts.{
  Accounted-others, WorkspacesAccounted, running_gpus, gpus,
}
use gpu_rental_platform.Storage.Workspaces.Laws.{update_nothing, update_workspaces-Accounted}
use gpu_rental_platform.Storage.Workspaces.Writes.{
  IsKnown, Created, Changed, Created-Accounted, Changed-Accounted, apply_create_workspace-ok,
  apply_desired_state-ok,
}

-- A creation that succeeded left the tables alone, or wrote a workspace and the books of its acceptance.
pub create_workspace-ok :
    (entropy : Entropy) (k now clock : ℕ) (params : CreateWorkspaceParams) (db : Db)
    (a : Acceptance) (after : Db)
    → create_workspace entropy k now clock params db ≡ ok (a, after)
    → (after ≡ db) ⊎ ((applied : Db) × Created db applied × SameDomain applied after)
unfolding create_workspace
create_workspace-ok entropy k now clock params db a after h =
    let h₁ =
      fail_if-ok
        (not (is_uuid params.project_id)
          || not (is_uuid params.cluster_id)
          || not (is_uuid params.accelerator_profile_id))
        _ _ h in
    let name = trim_space params.name in
    let h₂ =
      fail_if-ok (str_eq name "" || ltb 63 (len name) || not (is_workspace_name name)) _ _ h₁ in
    let (id, _, h₃) = >>=-eq-ok (new_uuid entropy k) _ h₂ in
    elim (accept_mutation_once entropy (k + 1) now params.mutation
      (create_workspace_spec id params clock) db a after h₃) [
        | inl (_, same) ↦ inl same
        | inr (_, applied, did, adds) ↦
            inr (applied, apply_create_workspace-ok id params clock now db applied did, adds.same)
      ]

IsKnown-state :
    (d : DesiredState)
    → (not (str_eq d desired_running)
        && not (str_eq d desired_stopped)
        && not (str_eq d desired_terminated))
      ≡ false
    → IsKnown d
IsKnown-state d h = elim (Bool-cases (str_eq d desired_running)) [
  | inl t ↦ inl (ground (arith, eq_iff d desired_running))
  | inr t ↦ elim (Bool-cases (str_eq d desired_stopped)) [
    | inl t' ↦ inr (inl (ground (arith, eq_iff d desired_stopped)))
    | inr t' ↦ inr (inr (ground (arith, eq_iff d desired_terminated)))
  ]
]

pub set_desired_state-ok :
    (entropy : Entropy) (k now clock : ℕ) (params : SetDesiredStateParams) (db : Db)
    (a : Acceptance) (after : Db)
    → set_desired_state entropy k now clock params db ≡ ok (a, after)
    → (after ≡ db) ⊎ ((applied : Db) × Changed db applied × SameDomain applied after)
unfolding set_desired_state
set_desired_state-ok entropy k now clock params db a after h =
    let h₁ = fail_if-ok (not (is_uuid params.workspace_id)) _ _ h in
    let unknown =
      not (str_eq params.desired_state desired_running)
      && not (str_eq params.desired_state desired_stopped)
      && not (str_eq params.desired_state desired_terminated) in
    let (_, c, h₂) = >>=-eq-ok (fail_if unknown invalid) _ h₁ in
    let known : IsKnown params.desired_state =
      IsKnown-state params.desired_state (fail_if-eq-ok unknown _ c) in
    let (w, _, h₃) =
      >>=-eq-ok
        (or_fail
          (find (λ (x : Workspace). str_eq x.id (to_lower params.workspace_id)) db.workspaces)
          not_found)
        _ h₂ in
    elim (accept_mutation_once entropy k now params.mutation
      (desired_state_spec params w.project_id clock) db a after h₃) [
        | inl (_, same) ↦ inl same
        | inr (_, applied, did, adds) ↦ inr (
          applied,
          apply_desired_state-ok (to_lower params.workspace_id) params.desired_state clock now db
              applied known did,
          adds.same,
        )
      ]

-- One committed transaction, or statement, of this system.
pub data Step (db after : Db) : Type 0 where
  creates :
      (entropy : Entropy) (k now clock : ℕ) (params : CreateWorkspaceParams) (a : Acceptance)
      → create_workspace entropy k now clock params db ≡ ok (a, after)
      → Step db after
  changes :
      (entropy : Entropy) (k now clock : ℕ) (params : SetDesiredStateParams) (a : Acceptance)
      → set_desired_state entropy k now clock params db ≡ ok (a, after)
      → Step db after
  starts :
      (now : ℕ) (state : ReconcileState) → start_workspace now state db ≡ ok after → Step db after
  completes :
      (now : ℕ) (state : ReconcileState)
      → complete_workspace now state db ≡ ok after
      → Step db after
  fails :
      (at now : ℕ) (state : ReconcileState) (error : Option String) (terminal : Bool)
      → fail_workspace at now state error terminal db ≡ ok after
      → Step db after
  -- an operation on quotas or reservations, or one that leaves both alone
  accounts : QuotaStep db after → after.workspaces ≡ db.workspaces → Step db after

pub data Reach (db : Db) : Db → Type 0 where
  start : Reach db db
  next : (mid after : Db) → Reach db mid → Step mid after → Reach db after

SameDomain-Accounted :
    (db after : Db) → WorkspacesAccounted db → SameDomain db after → WorkspacesAccounted after
SameDomain-Accounted db after good same =
    update_workspaces-Accounted (λ w. false) (λ w. w) db after (λ p w. refl) (λ w. refl) good
      same.quotas same.reservations (same.workspaces ∙ sym (update_nothing (λ w. w) db.workspaces))

-- What a start, a completion and a failure make of the workspaces; they leave the quotas alone.
pub start_workspace-ok :
    (now : ℕ) (state : ReconcileState) (db after : Db)
    → start_workspace now state db ≡ ok after
    → after.workspaces ≡ update (is_current state) (started now) db.workspaces
unfolding start_workspace
start_workspace-ok now state db after h =
    let h₁ =
      fail_if-ok (not (is_uuid state.workspace_id) || ltb_ℤ state.generation (pos 1)) _ _ h in
    let h₂ = ok-injective (fail_if-ok (not (any (is_current state) db.workspaces)) _ _ h₁) in
    sym (ap (λ d. d.workspaces) h₂)

pub complete_workspace-ok :
    (now : ℕ) (state : ReconcileState) (db after : Db)
    → complete_workspace now state db ≡ ok after
    → after.workspaces ≡ update (is_current state) (completed now) db.workspaces
unfolding complete_workspace
complete_workspace-ok now state db after h =
    let h₁ =
      fail_if-ok (not (is_uuid state.workspace_id) || ltb_ℤ state.generation (pos 1)) _ _ h in
    sym (ap (λ d. d.workspaces) (ok-injective h₁))

pub fail_workspace-ok :
    (at now : ℕ) (state : ReconcileState) (error : Option String) (terminal : Bool) (db after : Db)
    → fail_workspace at now state error terminal db ≡ ok after
    → after.workspaces
      ≡ update (is_current state) (failed terminal (failure_message error) at now) db.workspaces
unfolding fail_workspace
fail_workspace-ok at now state error terminal db after h =
    let h₁ =
      fail_if-ok (not (is_uuid state.workspace_id) || ltb_ℤ state.generation (pos 1)) _ _ h in
    sym (ap (λ d. d.workspaces) (ok-injective h₁))

Step-Accounted :
    (db after : Db) → WorkspacesAccounted db → Step db after → WorkspacesAccounted after
unfolding start_workspace complete_workspace fail_workspace
Step-Accounted db after good (creates entropy k now clock params a h) =
    elim (create_workspace-ok entropy k now clock params db a after h) [
      | inl same ↦ rw same good
      | inr (applied, did, same) ↦
          SameDomain-Accounted applied after (Created-Accounted db applied good did) same
    ]
Step-Accounted db after good (changes entropy k now clock params a h) =
    elim (set_desired_state-ok entropy k now clock params db a after h) [
      | inl same ↦ rw same good
      | inr (applied, did, same) ↦
          SameDomain-Accounted applied after (Changed-Accounted db applied good did) same
    ]
Step-Accounted db after good (starts now state h) =
    let h₁ =
      fail_if-ok (not (is_uuid state.workspace_id) || ltb_ℤ state.generation (pos 1)) _ _ h in
    let h₂ = ok-injective (fail_if-ok (not (any (is_current state) db.workspaces)) _ _ h₁) in
    rw (← h₂) (
      update_workspaces-Accounted (is_current state) (started now) db _ (λ p w. refl) (λ w. refl)
        good refl refl refl)
Step-Accounted db after good (completes now state h) =
    let h₁ =
      ok-injective
        (fail_if-ok (not (is_uuid state.workspace_id) || ltb_ℤ state.generation (pos 1)) _ _ h) in
    rw (← h₁) (
      update_workspaces-Accounted (is_current state) (completed now) db _ (λ p w. refl) (λ w. refl)
        good refl refl refl)
Step-Accounted db after good (fails at now state error terminal h) =
    let h₁ =
      ok-injective
        (fail_if-ok (not (is_uuid state.workspace_id) || ltb_ℤ state.generation (pos 1)) _ _ h) in
    rw (← h₁) (
      update_workspaces-Accounted (is_current state)
        (failed terminal (failure_message error) at now) db _ (λ p w. refl) (λ w. refl) good refl
        refl refl)
Step-Accounted db after good (accounts step same) = record {
  accounted =
      Accounted-others (running_gpus db.workspaces) (running_gpus after.workspaces) after after
        (QuotaStep-Accounted (running_gpus db.workspaces) db after good.accounted step)
        (λ p c. rw same refl) refl refl;
  unique = rw same (good.unique);
}

-- Balanced accounts stay balanced in every run of the operations on workspaces, on quotas and on
-- reservations: in each project, the allocated units of the GPU quota are those of its committed
-- reservations and of its workspaces that are wanted running; with the reserved units, which are those
-- of its pending reservations, they are within the hard limit.
pub Reach-WorkspacesAccounted :
    (db after : Db) → WorkspacesAccounted db → Reach db after → WorkspacesAccounted after
Reach-WorkspacesAccounted db _ good start = good
Reach-WorkspacesAccounted db after good (next mid _ run step) =
    Step-Accounted mid after (Reach-WorkspacesAccounted db mid good run) step

-- In every run from empty tables, of the operations on workspaces, on quotas and on reservations: the
-- units of the workspaces of a project that are wanted running and those of its pending and committed
-- reservations of whole GPUs never add up to more than the hard limit of its GPU quota.
pub gpus_never_oversold :
    (after : Db) (p : String) (q : Quota)
    → Reach empty_db after
    → after.quotas p gpu_class ≡ some q
    → held pending p gpu_class after.reservations
        + held committed p gpu_class after.reservations
        + sum (gpus p) after.workspaces
      ≤ q.hard_limit
gpus_never_oversold after p q run e =
    let good : WorkspacesAccounted empty_db = record {
      accounted = record {
        unique = tt;
        balanced = λ p' c'. record {
          reserved_is = refl;
          allocated_is = ground arith;
          within = omega arith;
        };
      };
      unique = tt;
    } in
    let b = (Reach-WorkspacesAccounted empty_db after good run).accounted.balanced p gpu_class in
    let reserved = rw e at b.reserved_is in
    let allocated = rw e at b.allocated_is in
    let within = rw e at b.within in ground (arith, eq_refl gpu_class)

-- Without its quota, a project has no workspace that is wanted running.
pub no_quota_no_workspace :
    (after : Db) (p : String)
    → WorkspacesAccounted after
    → after.quotas p gpu_class ≡ none
    → sum (gpus p) after.workspaces ≡ 0
no_quota_no_workspace after p good e =
    let b = (good.accounted.balanced p gpu_class).allocated_is in
    let empty = rw e at b in ground (arith, eq_refl gpu_class)
