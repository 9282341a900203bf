-- ===== src/Storage/Workspaces/Writes.antt =====
-- What a creation and a change of the wanted state write, and that both keep the accounts.
use gpu_rental_platform.Storage.Creation.Rows.{fresh_key}
use gpu_rental_platform.Common.{
  ◌⊎◌, fail_if-eq-ok, not, Unique-update, ok-injective, conflict, Row-find, sum-update_key, fail_if,
  Row, or_fail-eq-ok, ◌==◌, Unique-append, eq_refl, eq_iff, sum-append, ◌||◌, ◌++◌, find,
  fail_if-ok, not_found, or_fail, >>=-eq-ok, any, All, ◌≡◌, ◌≢◌, refl, ℕ, String, true, ◌&&◌, [],
  ◌∷◌, str_eq, update, arith, ok, Bool, sym,
}
use gpu_rental_platform.Common.Int.{pos}
use gpu_rental_platform.Tenancy.{Project}
use gpu_rental_platform.Catalog.{Cluster, AcceleratorProfile}
use gpu_rental_platform.Workspace.{Workspace, DesiredState, CreateWorkspaceParams}
use gpu_rental_platform.Storage.Db.{Db}
use gpu_rental_platform.Storage.Quota.{gpu_class}
use gpu_rental_platform.Storage.Workspaces.{
  desired_terminated, desired_stopped, desired_running, workspace_quota_delta, to_lower, is_running,
  adjust_workspace_quota, insert_workspace, apply_create_workspace, apply_desired_state, wants,
}
use gpu_rental_platform.Storage.Workspaces.Accounts.{
  Accounted-others, WorkspacesAccounted, running_gpus, gpus, workspace_id,
}
use gpu_rental_platform.Storage.Workspaces.Laws.{
  adjust-Accounted, adjust-workspaces, workspace_quota_delta_moves,
}

-- What UNIQUE forbids of a new workspace.
abbrev pub clashes : Workspace → Workspace → Bool
clashes w x =
    str_eq x.id w.id
    || (str_eq x.project_id w.project_id && str_eq x.name w.name)
    || (str_eq x.cluster_id w.cluster_id && str_eq x.manifest_work_name w.manifest_work_name)

-- A successful insertion adds one workspace with a new id.
pub insert_workspace-ok :
    (w : Workspace) (db after : Db)
    → insert_workspace w db ≡ ok after
    → All (λ x. x.id ≢ w.id) db.workspaces
      × (after ≡ record db { workspaces = db.workspaces ++ w ∷ [] })
unfolding insert_workspace
insert_workspace-ok w db after h =
    let h₁ = fail_if-ok (w.gpu_count == 0) _ _ h in
    let clash = any (clashes w) db.workspaces in
    let (_, c, h₂) = >>=-eq-ok (fail_if clash conflict) _ h₁ in
    let h₃ =
      fail_if-ok (not (any (λ (p : Project). str_eq p.id w.project_id) db.projects)) _ _ h₂ in
    let h₄ =
      fail_if-ok (not (any (λ (x : Cluster). str_eq x.id w.cluster_id) db.clusters)) _ _ h₃ in
    let h₅ =
      fail_if-ok
        (not (any (λ (p : AcceleratorProfile). str_eq p.id w.accelerator_profile_id) db.profiles)) _
        _ h₄ in
    (
      fresh_key workspace_id w.id (clashes w) db.workspaces (λ x e. ground (arith, eq_refl w.id))
          (fail_if-eq-ok clash _ c),
      sym (ok-injective h₅),
    )

-- The statements of a creation: the quota grows by the units of the workspace, which is then added.
abbrev pub Created : Db → Db → Type 0
Created db after =
    (w : Workspace) × (clock : ℕ) × (counted : Db) × (is_running w.desired_state ≡ true)
    × (w.generation ≡ 1)
    × (w.observed_generation ≡ 0)
    × (adjust_workspace_quota w.project_id clock (pos w.gpu_count) db ≡ ok counted)
    × (insert_workspace w counted ≡ ok after)

pub apply_create_workspace-ok :
    (id : String) (params : CreateWorkspaceParams) (clock now : ℕ) (db after : Db)
    → apply_create_workspace id params clock now db ≡ ok after
    → Created db after
unfolding apply_create_workspace
apply_create_workspace-ok id params clock now db after h =
    let (project, _, h₁) =
      >>=-eq-ok
        (or_fail (find (λ (p : Project). str_eq p.id (to_lower params.project_id)) db.projects)
          not_found)
        _ h in
    let (profile, _, h₂) =
      >>=-eq-ok
        (or_fail
          (find
            (λ (p : AcceleratorProfile).
              str_eq p.id (to_lower params.accelerator_profile_id) && p.enabled)
            db.profiles)
          not_found)
        _ h₁ in
    let h₃ = fail_if-ok _ _ _ h₂ in
    let (counted, e, h₄) =
      >>=-eq-ok
        (adjust_workspace_quota (to_lower params.project_id) clock (pos profile.gpu_count) db) _
        h₃ in
    (_, clock, counted, refl, refl, refl, e, h₄)

pub Created-Accounted :
    (db after : Db) → WorkspacesAccounted db → Created db after → WorkspacesAccounted after
Created-Accounted db after good (w, clock, counted, wanted, _, _, e, inserted) =
    let kept = adjust-workspaces w.project_id clock (pos w.gpu_count) db counted e in
    let (fresh, same) = insert_workspace-ok w counted after inserted in
    let fresh' = rw kept at fresh in
    let ws = db.workspaces ++ w ∷ [] in
    let grows =
      adjust-Accounted (running_gpus db.workspaces) (running_gpus ws) w.project_id clock
        (pos w.gpu_count) db counted good.accounted e
        (λ p c apart. ground (
          arith,
          sum-append (gpus p) db.workspaces (w ∷ []),
          eq_iff p w.project_id,
          eq_iff w.project_id p,
        ))
        (ground (
          arith,
          sum-append (gpus w.project_id) db.workspaces (w ∷ []),
          eq_refl w.project_id,
          eq_refl gpu_class,
        )) in
    let unique = Unique-append workspace_id db.workspaces w good.unique fresh' in
    rw (same, kept)
      (record {
        accounted =
            Accounted-others (running_gpus ws) (running_gpus ws) counted
              (record counted { workspaces = ws }) grows (λ p c. refl) refl refl;
        unique = unique;
      })

-- One of the three states that can be wanted.
abbrev pub IsKnown : DesiredState → Type 0
IsKnown desired =
    (desired ≡ desired_running) ⊎ (desired ≡ desired_stopped) ⊎ (desired ≡ desired_terminated)

-- The statements of a change of the wanted state.
abbrev pub Changed : Db → Db → Type 0
Changed db after =
    (w : Workspace) × (desired : DesiredState) × (clock : ℕ) × (now : ℕ) × (counted : Db) × IsKnown
      desired
    × Row w db.workspaces
    × (adjust_workspace_quota w.project_id clock
          (workspace_quota_delta w.desired_state desired w.gpu_count) db
        ≡ ok counted)
    × (after ≡ record counted {
      workspaces = update (λ x. str_eq x.id w.id) (wants desired now) counted.workspaces;
    })

pub apply_desired_state-ok :
    (id : String) (desired : DesiredState) (clock now : ℕ) (db after : Db)
    → IsKnown desired
    → apply_desired_state id desired clock now db ≡ ok after
    → Changed db after
unfolding apply_desired_state
apply_desired_state-ok id desired clock now db after known h =
    let (w, e, h₁) =
      >>=-eq-ok (or_fail (find (λ (x : Workspace). str_eq x.id id) db.workspaces) not_found) _ h in
    let found = or_fail-eq-ok (find (λ x. str_eq x.id id) db.workspaces) _ e in
    let (m, t) = Row-find (λ x. str_eq x.id id) w db.workspaces found in
    let same_id : w.id ≡ id = ground (arith, eq_iff w.id id) in
    let (counted, did, h₂) =
      >>=-eq-ok
        (adjust_workspace_quota w.project_id clock
          (workspace_quota_delta w.desired_state desired w.gpu_count) db)
        _ h₁ in
    (w, desired, clock, now, counted, known, m, did, rw same_id (sym (ok-injective h₂)))

pub Changed-Accounted :
    (db after : Db) → WorkspacesAccounted db → Changed db after → WorkspacesAccounted after
Changed-Accounted db after good (w, desired, clock, now, counted, _, m, e, same) =
    let delta = workspace_quota_delta w.desired_state desired w.gpu_count in
    let kept = adjust-workspaces w.project_id clock delta db counted e in
    let ws = update (λ x. str_eq x.id w.id) (wants desired now) db.workspaces in
    let moves = workspace_quota_delta_moves w.desired_state desired w.gpu_count in
    let grows =
      adjust-Accounted (running_gpus db.workspaces) (running_gpus ws) w.project_id clock delta db
        counted good.accounted e
        (λ p c apart.
          let shift =
            sum-update_key workspace_id (gpus p) (wants desired now) w db.workspaces good.unique
              m in
          ground (arith, shift, eq_iff p w.project_id, eq_iff w.project_id p))
        (let shift =
            sum-update_key workspace_id (gpus w.project_id) (wants desired now) w db.workspaces
              good.unique m in
          ground (arith, shift, moves, eq_refl w.project_id, eq_refl gpu_class)) in
    let unique =
      Unique-update workspace_id (λ x. str_eq x.id w.id) (wants desired now) (λ x. refl)
        db.workspaces good.unique in
    rw (same, kept)
      (record {
        accounted =
            Accounted-others (running_gpus ws) (running_gpus ws) counted
              (record counted { workspaces = ws }) grows (λ p c. refl) refl refl;
        unique = unique;
      })
