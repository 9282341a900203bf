-- ===== src/Storage/Reads.antt =====
-- The reads of internal/storage/postgres: one row by its key, or the error for a missing one. They are
-- given the tables of one moment; `GetWorkspace` reads twice, here from the same tables.
pub mod Laws
mod Tests
use Prim.Native.Nat.{Ordering, compare}
use Prim.Native.String
use gpu_rental_platform.Common.{
  ℕ, String, Bool, true, false, not, ◌&&◌, ◌||◌, ◌==◌, Option, none, some, List, [], ◌∷◌, ltb,
  if◌then◌else◌, str_eq, find, select, Outcome, ok, err, not_found, fail_if, or_fail, ◌>>=◌, ◌>>◌,
}
use gpu_rental_platform.Common.Int.{ℤ, pos, ◌-ℤ◌, wrap_int64}
use gpu_rental_platform.Common.Text.{to_lower}
use gpu_rental_platform.Identity.{is_uuid}
use gpu_rental_platform.Tenancy.{Tenant, Project, RoleBinding, Quota}
use gpu_rental_platform.Billing.{UsageFact, RatedUsage}
use gpu_rental_platform.Workspace.{Workspace, Snapshot}
use gpu_rental_platform.Storage.Db.{Db, Operation, Budget}
use gpu_rental_platform.Storage.Quota.{is_resource_class}
use gpu_rental_platform.Storage.Metering.{used_minor}

-- `GetTenant`
unfoldable pub get_tenant : String → Db → Outcome Tenant
get_tenant id db = do
  fail_if (not (is_uuid id)) not_found
  or_fail (find (λ (t : Tenant). str_eq t.id (to_lower id)) db.tenants) not_found

-- `GetProject`, without the columns that only the isolation reconciler writes
unfoldable pub get_project : String → Db → Outcome Project
get_project id db = do
  fail_if (not (is_uuid id)) not_found
  or_fail (find (λ (p : Project). str_eq p.id (to_lower id)) db.projects) not_found

-- `GetRoleBinding`
unfoldable pub get_role_binding : String → Db → Outcome RoleBinding
get_role_binding id db = do
  fail_if (not (is_uuid id)) not_found
  or_fail (find (λ (b : RoleBinding). str_eq b.id (to_lower id)) db.role_bindings) not_found

-- `GetQuota`
unfoldable pub get_quota : String → String → Db → Outcome Quota
get_quota project class db = do
  fail_if (not (is_uuid project) || not (is_resource_class class)) not_found
  or_fail (db.quotas (to_lower project) class) not_found

-- `GetByID` of the operations
unfoldable pub get_operation : String → Db → Outcome Operation
get_operation id db = do
  fail_if (not (is_uuid id)) not_found
  or_fail (find (λ (o : Operation). str_eq o.id (to_lower id)) db.operations) not_found

-- `metering.Budget` with the two amounts that are computed
pub record BudgetView : Type 0 where
  pub budget : Budget
  pub used_minor : ℤ
  pub available_minor : ℤ

-- `GetBudget`, which reads the budget from `db` and the ledger from the tables of a later moment
unfoldable pub get_budget : String → Db → Db → Outcome BudgetView
get_budget project db later = do
  fail_if (not (is_uuid project)) not_found
  b ← or_fail (db.budgets (to_lower project)) not_found
  let used = used_minor (to_lower project) b.currency later.ledger
  ok (record {
    budget = b;
    used_minor = used;
    available_minor = wrap_int64 (pos b.limit_minor -ℤ used);
  })

-- `GetUsageFact`: the fact and its rating, of which there is one at most
unfoldable pub get_usage_fact : String → Db → Outcome (UsageFact × RatedUsage)
get_usage_fact id db = do
  fail_if (not (is_uuid id)) not_found
  f ← or_fail (find (λ (x : UsageFact). str_eq x.id (to_lower id)) db.usage_facts) not_found
  r ← or_fail (find (λ (x : RatedUsage). str_eq x.usage_fact_id f.id) db.rated_usage) not_found
  ok (f, r)

-- ORDER BY created_at, id
snapshot_before : Snapshot → Snapshot → Bool
snapshot_before a b = elim (compare a.created_at b.created_at) [
  | Ordering.lt ↦ true
  | Ordering.gt ↦ false
  | Ordering.eq ↦ elim (String.compare a.id b.id) [ Ordering.gt ↦ false | _ ↦ true ]
]

place : Snapshot → List Snapshot → List Snapshot
unfolding snapshot_before
place s [] = s ∷ []
place s (x ∷ xs) = let rest = place s xs in if snapshot_before s x then s ∷ x ∷ xs else x ∷ rest

-- The rows in that order
unfoldable pub in_order : List Snapshot → List Snapshot
unfolding place
in_order [] = []
in_order (s ∷ ss) = place s (in_order ss)

-- `listWorkspaceSnapshots`
unfoldable pub list_snapshots : String → Db → List Snapshot
unfolding in_order
list_snapshots workspace db =
    in_order (select (λ s. str_eq s.workspace_id (to_lower workspace)) db.snapshots)

-- `GetWorkspace`: the row, and its snapshots
unfoldable pub get_workspace : String → Db → Outcome (Workspace × List Snapshot)
unfolding list_snapshots
get_workspace id db = do
  fail_if (not (is_uuid id)) not_found
  w ← or_fail (find (λ (x : Workspace). str_eq x.id (to_lower id)) db.workspaces) not_found
  ok (w, list_snapshots id db)

-- `GetSnapshot`
unfoldable pub get_snapshot : String → String → Db → Outcome Snapshot
get_snapshot workspace id db = do
  fail_if (not (is_uuid workspace) || not (is_uuid id)) not_found
  or_fail
      (find
        (λ (s : Snapshot). str_eq s.workspace_id (to_lower workspace) && str_eq s.id (to_lower id))
        db.snapshots)
      not_found
