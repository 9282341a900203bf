-- ===== src/Storage/Metering/Usage.antt =====
-- `CreateUsageFact` of internal/storage/postgres/metering.go.
use gpu_rental_platform.Common.{
  ℕ, ◌+◌, String, Bool, true, not, ◌||◌, Option, some, [], ◌∷◌, ◌++◌, leb, ◌==◌, if◌then◌else◌,
  str_eq, any, Outcome, ok, invalid, not_found, conflict, failure, fail_if, or_fail, ◌>>=◌, ◌>>◌,
}
use gpu_rental_platform.Common.Int.{pos, leb_ℤ}
use gpu_rental_platform.Common.Text.{trim_space, to_lower}
use gpu_rental_platform.Identity.{Entropy, new_uuid, is_uuid}
use gpu_rental_platform.Tenancy.{Acceptance, MutationContext}
use gpu_rental_platform.Billing.{UsageFact, RatedUsage}
use gpu_rental_platform.Storage.Db.{Db, LedgerEntry, debit, text, instant}
use gpu_rental_platform.Storage.Mutation.{accept_mutation}
use gpu_rental_platform.Storage.Quota.{is_resource_class}
use gpu_rental_platform.Storage.Metering.{
  is_currency, check_owner, enforce_project_budget, insert_entry,
}

pub record UsageParams : Type 0 where
  pub mutation : MutationContext
  pub tenant_id : String
  pub project_id : String
  pub resource_class : String
  pub quantity : String
  pub allocation_from : ℕ
  pub allocation_to : ℕ
  pub attributes : String

-- INSERT INTO usage_facts, with its PRIMARY KEY
unfoldable pub insert_fact : UsageFact → Db → Outcome Db
insert_fact f db = do
  fail_if (any (λ (x : UsageFact). str_eq x.id f.id) db.usage_facts) conflict
  ok (record db { usage_facts = db.usage_facts ++ f ∷ [] })

-- INSERT INTO rated_usage, with its PRIMARY KEY and its CHECKs
unfoldable pub insert_rated : RatedUsage → Db → Outcome Db
insert_rated r db = do
  fail_if (any (λ (x : RatedUsage). str_eq x.usage_fact_id r.usage_fact_id) db.rated_usage) conflict
  fail_if (leb_ℤ r.price_version (pos 0) || not (is_currency r.currency))
      (failure "rated usage check")
  ok (record db { rated_usage = db.rated_usage ++ r ∷ [] })

abbrev pub debit_entry : String → UsageFact → RatedUsage → ℕ → LedgerEntry
debit_entry id fact rated now = record {
  id = id;
  tenant_id = to_lower fact.tenant_id;
  project_id = to_lower fact.project_id;
  usage_fact_id = some fact.id;
  entry_type = debit;
  amount_minor = rated.amount_minor;
  currency = rated.currency;
  reference_id = fact.id;
  description = "";
  created_at = now;
}

-- `apply` of `CreateUsageFact`
unfoldable pub post_usage : String → UsageFact → RatedUsage → ℕ → Db → Outcome Db
unfolding insert_fact insert_rated
post_usage ledger_id fact rated now db = do
  check_owner (to_lower fact.project_id) fact.tenant_id db
  enforce_project_budget (to_lower fact.project_id) (to_lower fact.tenant_id) rated.currency
      rated.amount_minor db
  recorded ←
      insert_fact
        (record fact { tenant_id = to_lower fact.tenant_id; project_id = to_lower fact.project_id })
        db
  priced ← insert_rated rated recorded
  insert_entry (debit_entry ledger_id fact rated now) priced

module _ (rate : Option (UsageFact → Outcome RatedUsage)) (valid_json : String → Bool) where
  -- `CreateUsageFact`: without attributes, the empty object stands for them
  unfoldable pub create_usage_fact : Entropy → ℕ → ℕ → UsageParams → Db → Outcome (Acceptance × Db)
  create_usage_fact entropy k now params db = do
    engine ← or_fail rate invalid
    fail_if (not (is_uuid params.tenant_id) || not (is_uuid params.project_id)) not_found
    let class = trim_space params.resource_class
    let quantity = trim_space params.quantity
    fail_if
        (not (is_resource_class class)
          || str_eq quantity ""
          || params.allocation_from == 0
          || params.allocation_to == 0
          || leb params.allocation_to params.allocation_from)
        invalid
    fail_if (not (valid_json (if str_eq params.attributes "" then "{}" else params.attributes)))
        invalid
    id ← new_uuid entropy k
    ledger_id ← new_uuid entropy (k + 1)
    let fact : UsageFact = record {
      id = id;
      tenant_id = params.tenant_id;
      project_id = params.project_id;
      resource_class = class;
      quantity = quantity;
      allocation_from = params.allocation_from;
      allocation_to = params.allocation_to;
    }
    rated ← engine fact
    accept_mutation entropy (k + 2) now params.mutation
        (record {
          kind = "usage-fact.create";
          resource_type = "usage-fact";
          resource_id = id;
          event_type = "usage-fact.created";
          scope_type = "project";
          scope_id = params.project_id;
          event_fields =
              ("tenantId", text params.tenant_id)
              ∷ ("projectId", text params.project_id)
              ∷ ("resourceClass", text class)
              ∷ ("allocationFrom", instant params.allocation_from)
              ∷ ("allocationTo", instant params.allocation_to)
              ∷ [];
          complete_immediately = true;
          apply = post_usage ledger_id fact rated;
        })
        db
