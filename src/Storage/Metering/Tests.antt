-- ===== src/Storage/Metering/Tests.antt =====
-- A budget that is used up, and witnesses.
use gpu_rental_platform.Common.{
  none, arith, ◌+◌, ◌*◌, ◌≤◌, String, Bool, true, false, ◌≡◌, refl, some, [], ◌∷◌, Outcome, ok, err,
  budget_exceeded, sum,
}
use gpu_rental_platform.Common.Int.{negsuc, max_int64, wrap_int64, pos, ◌-ℤ◌}
use gpu_rental_platform.Common.Text.{to_lower, to_upper, trim_space, is_blank}
use gpu_rental_platform.Identity.{Entropy, is_uuid, new_uuid}
use gpu_rental_platform.Tenancy.{Acceptance, MutationContext, IsolationClass}
use gpu_rental_platform.Billing.{UsageFact, RatedUsage}
use gpu_rental_platform.Storage.Reads.{get_budget, BudgetView}
use gpu_rental_platform.Storage.Db.{credit, Db, empty_db, Budget}
use gpu_rental_platform.Storage.Mutation.{
  accept_mutation, accept_new, create_in_tx, insert_operation, insert_event, insert_domain_event,
  insert_audit_event, record_idempotency, idempotency_scope, set_fields, complete_operation,
  load_idempotency, validate_mutation_context, tables_after,
}
use gpu_rental_platform.Storage.Quota.{is_resource_class}
use gpu_rental_platform.Storage.Metering.{
  is_currency, used_minor, check_owner, enforce_project_budget, insert_entry, upsert_budget,
  write_budget, set_budget, SetBudgetParams, write_credit, create_credit_adjustment, debit_of,
  credit_of,
}
use gpu_rental_platform.Storage.Metering.Usage.{
  UsageParams, insert_fact, insert_rated, post_usage, create_usage_fact,
}
use gpu_rental_platform.Storage.Metering.Laws.{Owns}
use gpu_rental_platform.Storage.Metering.Runs.{
  start, next, sets_budget, posts_usage, leaves, budget_never_exceeded,
}

code : Unit {0}
unfolding tables_after is_uuid new_uuid is_blank trim_space to_lower to_upper accept_mutation
    accept_new create_in_tx insert_operation insert_event insert_domain_event insert_audit_event
    record_idempotency idempotency_scope set_fields complete_operation load_idempotency
    validate_mutation_context is_resource_class is_currency used_minor ◌-ℤ◌ check_owner
    enforce_project_budget insert_entry upsert_budget write_budget set_budget write_credit
    create_credit_adjustment insert_fact insert_rated post_usage create_usage_fact
code = tt

-- Sixteen equal bytes for each read.
abbrev random : Entropy
random k =
    let b = 16 * k + k in some (b ∷ b ∷ b ∷ b ∷ b ∷ b ∷ b ∷ b ∷ b ∷ b ∷ b ∷ b ∷ b ∷ b ∷ b ∷ b ∷ [])

abbrev mutation : String → MutationContext
mutation key = record {
  principal_id = "u1";
  request_id = "r1";
  idempotency_key = key;
  request_hash = "h1";
}

abbrev project_id : String
project_id = "aaaaaaaa-0000-4000-8000-000000000001"

abbrev tenant_id : String
tenant_id = "bbbbbbbb-0000-4000-8000-000000000002"

abbrev furnished : Db
furnished = record empty_db {
  projects =
      record {
        id = project_id;
        tenant_id = tenant_id;
        name = "Train";
        slug = "train";
        isolation_class = IsolationClass.shared;
        namespace_name = "gpu-p-aaaaaaaa0000";
        desired_state = "active";
        observed_state = "pending";
        provisioning_state = "pending";
        generation = 1;
        created_at = 0;
        updated_at = 0;
      }
      ∷ [];
}

-- Every fact costs 60.
abbrev sixty : UsageFact → Outcome RatedUsage
sixty fact = ok (record {
  usage_fact_id = fact.id;
  price_book_id = "standard";
  price_version = pos 1;
  amount_minor = 60;
  currency = "CNY";
  calculation = record {
    resource_class = fact.resource_class;
    quantity = fact.quantity;
    duration_nanoseconds = 0;
    minor_per_unit_second = pos 1;
  };
  calculated_at = 5;
})

abbrev any_json : String → Bool
any_json s = true

abbrev hundred : SetBudgetParams
hundred = record {
  mutation = mutation "key-0001";
  tenant_id = tenant_id;
  project_id = project_id;
  currency = "cny";
  limit_minor = pos 100;
}

abbrev budgeted : Db
budgeted = tables_after furnished (set_budget random 1 10 hundred [] furnished)

abbrev budget_accepted : Acceptance
budget_accepted = record {
  resource_id = project_id;
  operation_id = "11111111-1111-4111-9111-111111111111";
  replayed = false;
}

budget_set : set_budget random 1 10 hundred [] furnished ≡ ok (budget_accepted, budgeted)
unfolding code
budget_set = refl

abbrev usage : String → UsageParams
usage key = record {
  mutation = mutation key;
  tenant_id = tenant_id;
  project_id = project_id;
  resource_class = "gpu.nvidia.full";
  quantity = "1";
  allocation_from = 1;
  allocation_to = 2;
  attributes = "";
}

abbrev used : Db
used =
    tables_after budgeted
      (create_usage_fact (some sixty) any_json random 5 20 (usage "key-0002") budgeted)

abbrev usage_accepted : Acceptance
usage_accepted = record {
  resource_id = "55555555-5555-4555-9555-555555555555";
  operation_id = "77777777-7777-4777-b777-777777777777";
  replayed = false;
}

usage_posted :
    create_usage_fact (some sixty) any_json random 5 20 (usage "key-0002") budgeted
    ≡ ok (usage_accepted, used)
unfolding code
usage_posted = refl

-- A second fact would bring the debits to 120.
second_refused :
    create_usage_fact (some sixty) any_json random 11 30 (usage "key-0003") used
    ≡ err budget_exceeded
unfolding code
second_refused = refl

nobody-Owns : (p t : String) → Owns empty_db p t → Owns furnished p t
nobody-Owns p t (x, f, e) = cc

abbrev row : Budget
row = record {
  tenant_id = tenant_id;
  project_id = project_id;
  currency = "CNY";
  limit_minor = 100;
  generation = 1;
  updated_at = 10;
}

budget_found : used.budgets project_id ≡ some row
unfolding code
budget_found = refl

budget_never_exceeded_example :
    sum (debit_of project_id "CNY") used.ledger ≤ 100 + sum (credit_of project_id "CNY") used.ledger
budget_never_exceeded_example =
    budget_never_exceeded (some sixty) any_json used project_id row
      (next budgeted used
        (next furnished budgeted (next empty_db furnished start (leaves refl refl nobody-Owns))
          (sets_budget random 1 10 hundred [] budget_accepted (omega arith) budget_set))
        (posts_usage random 5 20 (usage "key-0002") usage_accepted usage_posted))
      budget_found

abbrev view : BudgetView
view = record { budget = row; used_minor = pos 60; available_minor = pos 40 }

shown : get_budget project_id used used ≡ ok view
unfolding code get_budget wrap_int64
shown = refl

-- Sixty is spent before there is a budget.
abbrev spent : Db
spent =
    tables_after furnished
      (create_usage_fact (some sixty) any_json random 5 20 (usage "key-0002") furnished)

abbrev ten : SetBudgetParams
ten = record hundred { limit_minor = pos 10 }

-- A sum that is read before the usage commits lets a limit through that the usage exceeds.
abbrev overdrawn : Db
overdrawn = tables_after spent (set_budget random 1 30 ten [] spent)

late_sum_accepted : set_budget random 1 30 ten [] spent ≡ ok (budget_accepted, overdrawn)
unfolding code
late_sum_accepted = refl

overspent :
    (sum (debit_of project_id "CNY") overdrawn.ledger ≡ 60)
    × (overdrawn.budgets project_id ≡ some (record row { limit_minor = 10; updated_at = 30 }))
unfolding code
overspent = (refl, refl)

same_sum_refused : set_budget random 1 30 ten spent.ledger spent ≡ err budget_exceeded
unfolding code
same_sum_refused = refl

abbrev largest : Db
largest = record furnished {
  budgets = λ p. some (record row { limit_minor = max_int64 });
  ledger =
      record {
        id = project_id;
        tenant_id = tenant_id;
        project_id = project_id;
        usage_fact_id = none;
        entry_type = credit;
        amount_minor = 1;
        currency = "CNY";
        reference_id = "r";
        description = "";
        created_at = 1;
      }
      ∷ [];
}

-- The largest limit and a credit of one: the amount that is available is the smallest number.
available_wraps :
    get_budget project_id largest largest
    ≡ ok (record {
      budget = record row { limit_minor = max_int64 };
      used_minor = negsuc 0;
      available_minor = negsuc max_int64;
    })
unfolding code get_budget wrap_int64
available_wraps = refl
