-- ===== src/Storage/Workspaces/Laws.antt =====
-- The operations on workspaces keep the accounts of the quotas.
use gpu_rental_platform.Common.{
  zero, suc, ltb, or_fail-eq-ok, fail_if-ok, quota_exceeded, or_fail, >>=-eq-ok, suc, eq_iff,
  Unique-update, ok-injective, ap, inl, inr, ◌≡◌, refl, ℕ, ◌+◌, String, false, ◌&&◌, Option, List,
  [], ◌∷◌, if◌then◌else◌, str_eq, sum, update, arith, ok, Bool, sym, Bool-cases,
}
use gpu_rental_platform.Common.Int.{ℤ, pos, negsuc, pos_part, neg_part}
use gpu_rental_platform.Tenancy.{Quota}
use gpu_rental_platform.Workspace.{Workspace, DesiredState}
use gpu_rental_platform.Storage.Db.{Db}
use gpu_rental_platform.Storage.Quota.{update_quota, gpu_class}
use gpu_rental_platform.Storage.Quota.Accounts.{Accounted, update_quota-ok}
use gpu_rental_platform.Storage.Workspaces.{
  workspace_quota_delta, is_running, adjust_workspace_quota, take_gpus, give_gpus,
}
use gpu_rental_platform.Storage.Workspaces.Accounts.{
  WorkspacesAccounted, running_gpus, gpus, workspace_id, Accounted-shift, Accounted-others,
}

-- What others hold changes by `delta` in one project, and its quota by as much.
pub adjust-Accounted :
    (others others' : String → String → ℕ) (p : String) (clock : ℕ) (delta : ℤ) (db counted : Db)
    → Accounted others db
    → adjust_workspace_quota p clock delta db ≡ ok counted
    → ((p' c' : String)
        → (str_eq p' p && str_eq c' gpu_class) ≡ false
        → others' p' c' ≡ others p' c')
    → others' p gpu_class + neg_part delta ≡ others p gpu_class + pos_part delta
    → Accounted others' counted
unfolding adjust_workspace_quota
adjust-Accounted others others' p clock (pos zero) db counted good h elsewhere here =
    let same = ok-injective h in
    rw (← same) (
      Accounted-others others others' db db good
        (λ p' c'. elim (Bool-cases (str_eq p' p && str_eq c' gpu_class)) [
          | inl t ↦
              let ep : p' ≡ p = ground (arith, eq_iff p' p) in
              let ec : c' ≡ gpu_class = ground (arith, eq_iff c' gpu_class) in
              rw (ep, ec) (omega arith)
          | inr t ↦ elsewhere p' c' t
        ])
        refl refl)
adjust-Accounted others others' p clock (pos (suc n)) db counted good h elsewhere here =
    let (q, e, h₁) = >>=-eq-ok (or_fail (db.quotas p gpu_class) quota_exceeded) _ h in
    let found = or_fail-eq-ok (db.quotas p gpu_class) _ e in
    let h₂ = fail_if-ok (ltb q.hard_limit (q.allocated + q.reserved + suc n)) _ _ h₁ in
    Accounted-shift others others' p gpu_class (take_gpus (suc n) clock) db counted good h₂
      elsewhere (λ q₁ q₂ e₁ a. ground arith) (λ absent. absurd (ground arith))
adjust-Accounted others others' p clock (negsuc n) db counted good h elsewhere here =
    let b = (good.balanced p gpu_class).allocated_is in
    Accounted-shift others others' p gpu_class (give_gpus (suc n) clock) db counted good h elsewhere
      (λ q₁ q₂ e₁ a. ground arith) (λ absent. let empty = rw absent at b in absurd (ground arith))

-- The tables but for the quotas are left alone.
update_quota-workspaces :
    (p c : String) (f : Quota → Option Quota) (db after : Db)
    → update_quota p c f db ≡ ok after
    → after.workspaces ≡ db.workspaces
update_quota-workspaces p c f db after h = elim (update_quota-ok p c f db after h) [
  | inl (e, same) ↦ ap (λ d. d.workspaces) same
  | inr (q, q', e, e', fits, same) ↦ ap (λ d. d.workspaces) same
]

pub adjust-workspaces :
    (p : String) (clock : ℕ) (delta : ℤ) (db counted : Db)
    → adjust_workspace_quota p clock delta db ≡ ok counted
    → counted.workspaces ≡ db.workspaces
unfolding adjust_workspace_quota
adjust-workspaces p clock (pos zero) db counted h = sym (ap (λ d. d.workspaces) (ok-injective h))
adjust-workspaces p clock (pos (suc n)) db counted h =
    let (q, e, h₁) = >>=-eq-ok (or_fail (db.quotas p gpu_class) quota_exceeded) _ h in
    let h₂ = fail_if-ok (ltb q.hard_limit (q.allocated + q.reserved + suc n)) _ _ h₁ in
    update_quota-workspaces p gpu_class (take_gpus (suc n) clock) db counted h₂
adjust-workspaces p clock (negsuc n) db counted h =
    update_quota-workspaces p gpu_class (give_gpus (suc n) clock) db counted h

-- What a change of the wanted state moves in the quota.
pub workspace_quota_delta_moves :
    (current desired : DesiredState) (n : ℕ)
    → (if is_running desired then n else 0) + neg_part (workspace_quota_delta current desired n)
      ≡ (if is_running current then n else 0) + pos_part (workspace_quota_delta current desired n)
unfolding workspace_quota_delta
workspace_quota_delta_moves current desired n = ground (arith, eq_iff current desired)

-- Workspaces whose units do not change.
pub sum-update_same {ℓ} :
    {A : Type ℓ} (g : A → ℕ) (p : A → Bool) (f : A → A)
    → ((x : A) → g (f x) ≡ g x)
    → (xs : List A) → sum g (update p f xs) ≡ sum g xs
sum-update_same g p f same [] = refl
sum-update_same g p f same (x ∷ xs) = ground (arith, same x, sum-update_same g p f same xs)

pub update_nothing {ℓ} : {A : Type ℓ} (f : A → A) (xs : List A) → update (λ x. false) f xs ≡ xs
update_nothing f [] = refl
update_nothing f (x ∷ xs) = ap (λ ys. x ∷ ys) (update_nothing f xs)

pub update_workspaces-Accounted :
    (q : Workspace → Bool) (f : Workspace → Workspace) (db after : Db)
    → ((p : String) (w : Workspace) → gpus p (f w) ≡ gpus p w)
    → ((w : Workspace) → workspace_id (f w) ≡ workspace_id w)
    → WorkspacesAccounted db
    → after.quotas ≡ db.quotas
    → after.reservations ≡ db.reservations
    → after.workspaces ≡ update q f db.workspaces
    → WorkspacesAccounted after
update_workspaces-Accounted q f db after weighs keeps good quotas rs ws = record {
  accounted =
      Accounted-others (running_gpus db.workspaces) (running_gpus after.workspaces) db after
        good.accounted
        (λ p c. rw ws (ground (arith, sum-update_same (gpus p) q f (weighs p) db.workspaces)))
        quotas rs;
  unique = rw ws (Unique-update workspace_id q f keeps db.workspaces good.unique);
}
