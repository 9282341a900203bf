-- ===== src/Storage/Metering.antt =====
-- Budgets, usage and credits: `SetBudget` of internal/storage/postgres/budgets.go, `CreateUsageFact`
-- and `enforceProjectBudget` of metering.go and `CreateCreditAdjustment` of credits.go, with the
-- constraints of migrations 000008 to 000011. The billing engine, an interface there, and
-- `json.Valid` are parameters. The sums of a ledger are taken to fit 64 bits.
pub mod Usage
pub mod Laws
pub mod Runs
mod Tests
use gpu_rental_platform.Common.{
  ℕ, ◌+◌, String, Bool, true, false, not, ◌&&◌, ◌||◌, Option, none, some, List, [], ◌∷◌, ◌++◌, ltb,
  leb, ◌==◌, if◌then◌else◌, str_eq, any, all, find, sum, length, Outcome, ok, err, Error, invalid,
  not_found, conflict, budget_exceeded, failure, fail_if, or_fail, ◌>>=◌, ◌>>◌,
}
use gpu_rental_platform.Common.Int.{ℤ, pos, pos_part, ltb_ℤ, leb_ℤ, ◌-ℤ◌}
use gpu_rental_platform.Common.Text.{codes, trim_space, to_lower, to_upper, is_blank, len}
use gpu_rental_platform.Identity.{Entropy, new_uuid, is_uuid}
use gpu_rental_platform.Tenancy.{Project, Acceptance, MutationContext}
use gpu_rental_platform.Billing.{UsageFact, RatedUsage}
use gpu_rental_platform.Storage.Db.{
  Db, LedgerEntry, EntryType, debit, credit, Budget, text, number, instant,
}
use gpu_rental_platform.Storage.Mutation.{accept_mutation}
use gpu_rental_platform.Storage.Quota.{is_resource_class}

-- CHECK (currency ~ '^[A-Z]{3}$')
unfoldable pub is_currency : String → Bool
is_currency s = all (λ c. leb 65 c && leb c 90) (codes s) && length (codes s) == 3

-- What an entry adds to the debits, or to the credits, of a project in a currency.
abbrev pub debit_of : String → String → LedgerEntry → ℕ
debit_of p c e = elim (e.entry_type) [
  | debit ↦ if str_eq e.project_id p && str_eq e.currency c then e.amount_minor else 0
  | credit ↦ 0
]

abbrev pub credit_of : String → String → LedgerEntry → ℕ
credit_of p c e = elim (e.entry_type) [
  | debit ↦ 0
  | credit ↦ if str_eq e.project_id p && str_eq e.currency c then e.amount_minor else 0
]

-- SELECT COALESCE(SUM(CASE WHEN entry_type = 'debit' THEN amount_minor ELSE -amount_minor END), 0)
unfoldable pub used_minor : String → String → List LedgerEntry → ℤ
used_minor p c ledger = pos (sum (debit_of p c) ledger) -ℤ pos (sum (credit_of p c) ledger)

-- The project exists and belongs to the tenant, as the request spells it.
unfoldable pub check_owner : String → String → Db → Outcome (Unit {0})
check_owner project tenant db = do
  p ← or_fail (find (λ (x : Project). str_eq x.id project) db.projects) not_found
  fail_if (not (str_eq p.tenant_id tenant)) not_found

-- `enforceProjectBudget`, on `uuid` columns
unfoldable pub enforce_project_budget : String → String → String → ℕ → Db → Outcome (Unit {0})
enforce_project_budget project tenant currency amount db = elim (db.budgets project) [
  | none ↦ ok tt
  | some b ↦
      if str_eq b.tenant_id tenant
      then (fail_if (not (str_eq b.currency currency)) invalid
          >> fail_if
              (ltb 0 amount
                && ltb_ℤ (pos b.limit_minor -ℤ pos amount) (used_minor project currency db.ledger))
              budget_exceeded)
      else ok tt
]

-- INSERT INTO ledger_entries, with its PRIMARY KEY and its CHECK
unfoldable pub insert_entry : LedgerEntry → Db → Outcome Db
insert_entry e db = do
  fail_if (any (λ (x : LedgerEntry). str_eq x.id e.id) db.ledger) conflict
  fail_if (not (is_currency e.currency)) (failure "currency check")
  ok (record db { ledger = db.ledger ++ e ∷ [] })

pub record SetBudgetParams : Type 0 where
  pub mutation : MutationContext
  pub tenant_id : String
  pub project_id : String
  pub currency : String
  pub limit_minor : ℤ

-- INSERT INTO project_budgets … ON CONFLICT (project_id) DO UPDATE, which keeps the tenant
unfoldable pub upsert_budget : String → String → String → ℕ → ℕ → Db → Outcome Db
upsert_budget project tenant currency limit now db = do
  fail_if (not (is_currency currency)) (failure "currency check")
  let row : Budget = elim (db.budgets project) [
    | none ↦ record {
      tenant_id = tenant;
      project_id = project;
      currency = currency;
      limit_minor = limit;
      generation = 1;
      updated_at = now;
    }
    | some b ↦ record b {
      currency = currency;
      limit_minor = limit;
      generation = b.generation + 1;
      updated_at = now;
    }
  ]
  ok (record db { budgets = λ p. if str_eq p project then some row else db.budgets p })

-- `apply` of `SetBudget`. `seen` is the ledger that its SELECT of the sum reads: no lock keeps other
-- transactions from adding entries between that statement and the upsert.
unfoldable pub write_budget : String → String → String → ℕ → List LedgerEntry → ℕ → Db → Outcome Db
write_budget project tenant currency limit seen now db = do
  check_owner (to_lower project) tenant db
  fail_if (ltb_ℤ (pos limit) (used_minor (to_lower project) currency seen)) budget_exceeded
  upsert_budget (to_lower project) (to_lower tenant) currency limit now db

-- `SetBudget`
unfoldable pub set_budget :
    Entropy → ℕ → ℕ → SetBudgetParams → List LedgerEntry → Db → Outcome (Acceptance × Db)
set_budget entropy k now params seen db = do
  fail_if
      (not (is_uuid params.tenant_id)
        || not (is_uuid params.project_id)
        || ltb_ℤ params.limit_minor (pos 0)
        || not (len (trim_space params.currency) == 3))
      invalid
  let currency = to_upper (trim_space params.currency)
  accept_mutation entropy k now params.mutation
      (record {
        kind = "project.budget.set";
        resource_type = "project-budget";
        resource_id = params.project_id;
        event_type = "project.budget.updated";
        scope_type = "project";
        scope_id = params.project_id;
        event_fields =
            ("tenantId", text params.tenant_id)
            ∷ ("projectId", text params.project_id)
            ∷ ("currency", text currency)
            ∷ ("limitMinor", number params.limit_minor)
            ∷ [];
        complete_immediately = true;
        apply =
            write_budget params.project_id params.tenant_id currency (pos_part params.limit_minor)
              seen;
      })
      db

pub record CreditParams : Type 0 where
  pub mutation : MutationContext
  pub tenant_id : String
  pub project_id : String
  pub amount_minor : ℤ
  pub currency : String
  pub reference_id : String
  pub description : String

-- `apply` of `CreateCreditAdjustment`
unfoldable pub write_credit : String → CreditParams → ℕ → Db → Outcome Db
write_credit id params now db = do
  check_owner (to_lower params.project_id) params.tenant_id db
  insert_entry
      (record {
        id = id;
        tenant_id = to_lower params.tenant_id;
        project_id = to_lower params.project_id;
        usage_fact_id = none;
        entry_type = credit;
        amount_minor = pos_part params.amount_minor;
        currency = to_upper (trim_space params.currency);
        reference_id = params.reference_id;
        description = trim_space params.description;
        created_at = now;
      })
      db

-- `CreateCreditAdjustment`
unfoldable pub create_credit_adjustment :
    Entropy → ℕ → ℕ → CreditParams → Db → Outcome (Acceptance × Db)
create_credit_adjustment entropy k now params db = do
  fail_if
      (not (is_uuid params.tenant_id)
        || not (is_uuid params.project_id)
        || leb_ℤ params.amount_minor (pos 0)
        || not (len (trim_space params.currency) == 3)
        || is_blank params.reference_id
        || ltb 255 (len params.reference_id))
      invalid
  let currency = to_upper (trim_space params.currency)
  fail_if (ltb 1024 (len (trim_space params.description))) invalid
  id ← new_uuid entropy k
  accept_mutation entropy (k + 1) now params.mutation
      (record {
        kind = "ledger.credit-adjustment";
        resource_type = "ledger-entry";
        resource_id = id;
        event_type = "ledger.credit.created";
        scope_type = "project";
        scope_id = params.project_id;
        event_fields =
            ("tenantId", text params.tenant_id)
            ∷ ("projectId", text params.project_id)
            ∷ ("amountMinor", number params.amount_minor)
            ∷ ("currency", text currency)
            ∷ ("referenceId", text params.reference_id)
            ∷ [];
        complete_immediately = true;
        apply = write_credit id params;
      })
      db
