-- ===== src/Storage/Metering/Runs.antt =====
-- Runs of budgets, usage and credits in which no use is posted between the two statements of a
-- `SetBudget`, among mutations that leave them and the owners of projects alone.
use gpu_rental_platform.Common.{
  ◌≡◌, refl, inl, inr, ℕ, ◌+◌, ◌≤◌, List, false, String, Bool, ◌||◌, not, Option, some, ◌==◌,
  str_eq, eq_iff, sum, arith, Option-cases, Bool-cases, Outcome, ok, >>=-eq-ok, fail_if-ok,
  fail_if-eq-ok, fail_if, or_fail, ok-injective, ltb, leb, invalid, budget_exceeded, if◌then◌else◌,
}
use gpu_rental_platform.Common.Int.{pos, pos_part, ltb_ℤ, leb_ℤ, ◌≤ℤ◌}
use gpu_rental_platform.Common.Text.{to_lower, to_upper, trim_space, is_blank, len}
use gpu_rental_platform.Identity.{Entropy, new_uuid, is_uuid}
use gpu_rental_platform.Tenancy.{Acceptance}
use gpu_rental_platform.Billing.{UsageFact, RatedUsage}
use gpu_rental_platform.Storage.Db.{Db, empty_db, Budget, LedgerEntry}
use gpu_rental_platform.Storage.Mutation.Laws.{SameDomain}
use gpu_rental_platform.Storage.Mutation.Replay.{accept_mutation_once}
use gpu_rental_platform.Storage.Quota.{is_resource_class}
use gpu_rental_platform.Storage.Metering.{
  debit_of, credit_of, used_minor, check_owner, upsert_budget, write_budget, set_budget,
  SetBudgetParams, CreditParams, create_credit_adjustment, is_currency,
}
use gpu_rental_platform.Storage.Metering.Usage.{UsageParams, create_usage_fact}
use gpu_rental_platform.Storage.Metering.Laws.{
  Owns, IsKept, Kept, Within, check_owner-Owns, used_minor-Within, write_credit-Kept,
  post_usage-Kept,
}

-- What keeps a budget kept.
IsKept-row :
    (db : Db) (p : String) (row b : Budget) (t : String)
    → some row ≡ some b
    → Owns db p t
    → row.tenant_id ≡ to_lower t
    → Within db.ledger p row.currency row.limit_minor
    → IsKept db p b
IsKept-row db p row b t e owns same fits =
    let equal : row ≡ b = cc in
    rw (← equal) (record { tenant = t; owned = owns; same_tenant = same; within = fits })

upsert_budget-Kept :
    (project tenant currency : String) (limit now : ℕ) (db after : Db)
    → Kept db
    → Owns db project tenant
    → Within db.ledger project currency limit
    → upsert_budget project (to_lower tenant) currency limit now db ≡ ok after
    → Kept after
unfolding upsert_budget
upsert_budget-Kept project tenant currency limit now db after good owns fits h =
    let h₁ = fail_if-ok (not (is_currency currency)) _ _ h in
    rw (← ok-injective h₁) (λ p b e. elim (Bool-cases (str_eq p project)) [
      | inr t ↦
          let k = good p b (rw t at e) in
          record {
            tenant = k.tenant;
            owned = k.owned;
            same_tenant = k.same_tenant;
            within = k.within;
          }
      | inl t ↦
          let here : p ≡ project = ground (arith, eq_iff p project) in
          let k = elim (Option-cases (db.budgets project)) as (λ _. IsKept db project b) [
            | inl n ↦ IsKept-row db project _ b tenant (rw (t, n) at e) owns refl fits
            | inr (old, n) ↦
                let before = good project old n in
                IsKept-row db project _ b before.tenant (rw (t, n) at e) before.owned
                  before.same_tenant fits
          ] in
          rw here (record {
            tenant = k.tenant;
            owned = k.owned;
            same_tenant = k.same_tenant;
            within = k.within;
          })
    ])

write_budget-Kept :
    (project tenant currency : String) (limit now : ℕ) (seen : List LedgerEntry) (db after : Db)
    → Kept db
    → used_minor (to_lower project) currency db.ledger
      ≤ℤ used_minor (to_lower project) currency seen
    → write_budget project tenant currency limit seen now db ≡ ok after
    → Kept after
unfolding write_budget
write_budget-Kept project tenant currency limit now seen db after good covered h =
    let (_, owns, h₁) = >>=-eq-ok (check_owner (to_lower project) tenant db) _ h in
    let before = ltb_ℤ (pos limit) (used_minor (to_lower project) currency seen) in
    let (_, c, h₂) = >>=-eq-ok (fail_if before budget_exceeded) _ h₁ in
    let fits = fail_if-eq-ok before _ c in
    let still : ltb_ℤ (pos limit) (used_minor (to_lower project) currency db.ledger) ≡ false =
      ground arith in
    upsert_budget-Kept (to_lower project) tenant currency limit now db after good
      (check_owner-Owns (to_lower project) tenant db owns)
      (used_minor-Within db.ledger (to_lower project) currency limit still) h₂

Kept-same :
    (db after : Db)
    → Kept db
    → after.budgets ≡ db.budgets
    → after.ledger ≡ db.ledger
    → ((p t : String) → Owns db p t → Owns after p t)
    → Kept after
Kept-same db after good budgets ledger owners p b e =
    let k = good p b (rw budgets at e) in
    record {
      tenant = k.tenant;
      owned = owners p k.tenant k.owned;
      same_tenant = k.same_tenant;
      within = rw ledger (k.within);
    }

Kept-SameDomain : (db after : Db) → Kept db → SameDomain db after → Kept after
Kept-SameDomain db after good same =
    Kept-same db after good same.budgets same.ledger (λ p t o. rw (same.projects) o)

-- What the sum of a `SetBudget` saw covers the use that it finds when it writes.
abbrev pub IsCovered : SetBudgetParams → List LedgerEntry → Db → Type 0
IsCovered params seen db =
    let currency = to_upper (trim_space params.currency) in
    used_minor (to_lower params.project_id) currency db.ledger
    ≤ℤ used_minor (to_lower params.project_id) currency seen

module _ (rate : Option (UsageFact → Outcome RatedUsage)) (valid_json : String → Bool) where
  -- One committed transaction. The lock on the row of a budget keeps usages of its project apart. A
  -- `SetBudget` comes here only where the use has not grown since its sum, and a usage is read and
  -- posted in one step, so that it does not overlap with the writing of the first budget of its project.
  pub data Step (db after : Db) : Type 0 where
    sets_budget :
        (entropy : Entropy) (k now : ℕ) (params : SetBudgetParams) (seen : List LedgerEntry)
        (a : Acceptance)
        → IsCovered params seen db
        → set_budget entropy k now params seen db ≡ ok (a, after)
        → Step db after
    posts_usage :
        (entropy : Entropy) (k now : ℕ) (params : UsageParams) (a : Acceptance)
        → create_usage_fact rate valid_json entropy k now params db ≡ ok (a, after)
        → Step db after
    credits :
        (entropy : Entropy) (k now : ℕ) (params : CreditParams) (a : Acceptance)
        → create_credit_adjustment entropy k now params db ≡ ok (a, after)
        → Step db after
    leaves :
        after.budgets ≡ db.budgets
        → after.ledger ≡ db.ledger
        → ((p t : String) → Owns db p t → Owns after p t)
        → Step db after

  pub data Reach (db : Db) : Db → Type 0 where
    start : Reach db db
    next : (mid after : Db) → Reach db mid → Step mid after → Reach db after

  Step-Kept : (db after : Db) → Kept db → Step db after → Kept after
  unfolding set_budget create_usage_fact create_credit_adjustment
  Step-Kept db after good (sets_budget entropy k now params seen a covered h) =
      let h₁ =
        fail_if-ok
          (not (is_uuid params.tenant_id)
            || not (is_uuid params.project_id)
            || ltb_ℤ params.limit_minor (pos 0)
            || not (len (trim_space params.currency) == 3))
          _ _ h in
      elim (accept_mutation_once entropy k now params.mutation _ db a after h₁) [
        | inl (_, same) ↦ rw same good
        | inr (_, applied, did, adds) ↦
            Kept-SameDomain applied after
              (write_budget-Kept params.project_id params.tenant_id
                (to_upper (trim_space params.currency)) (pos_part params.limit_minor) now seen db
                applied good covered did)
              adds.same
      ]
  Step-Kept db after good (posts_usage entropy k now params a h) =
      let (engine, _, h₀) = >>=-eq-ok (or_fail rate invalid) _ h in
      let h₁ =
        fail_if-ok (not (is_uuid params.tenant_id) || not (is_uuid params.project_id)) _ _ h₀ in
      let h₂ =
        fail_if-ok
          (not (is_resource_class (trim_space params.resource_class))
            || str_eq (trim_space params.quantity) ""
            || params.allocation_from == 0
            || params.allocation_to == 0
            || leb params.allocation_to params.allocation_from)
          _ _ h₁ in
      let h₃ =
        fail_if-ok
          (not (valid_json (if str_eq params.attributes "" then "{}" else params.attributes))) _ _
          h₂ in
      let (id, _, h₄) = >>=-eq-ok (new_uuid entropy k) _ h₃ in
      let (ledger_id, _, h₅) = >>=-eq-ok (new_uuid entropy (k + 1)) _ h₄ in
      let fact : UsageFact = record {
        id = id;
        tenant_id = params.tenant_id;
        project_id = params.project_id;
        resource_class = trim_space params.resource_class;
        quantity = trim_space params.quantity;
        allocation_from = params.allocation_from;
        allocation_to = params.allocation_to;
      } in
      let (rated, _, h₆) = >>=-eq-ok (engine fact) _ h₅ in
      elim (accept_mutation_once entropy (k + 2) now params.mutation _ db a after h₆) [
        | inl (_, same) ↦ rw same good
        | inr (_, applied, did, adds) ↦
            Kept-SameDomain applied after
              (post_usage-Kept ledger_id fact rated now db applied good did) adds.same
      ]
  Step-Kept db after good (credits entropy k now params a h) =
      let h₁ =
        fail_if-ok
          (not (is_uuid params.tenant_id)
            || not (is_uuid params.project_id)
            || leb_ℤ params.amount_minor (pos 0)
            || not (len (trim_space params.currency) == 3)
            || is_blank params.reference_id
            || ltb 255 (len params.reference_id))
          _ _ h in
      let h₂ = fail_if-ok (ltb 1024 (len (trim_space params.description))) _ _ h₁ in
      let (id, _, h₃) = >>=-eq-ok (new_uuid entropy k) _ h₂ in
      elim (accept_mutation_once entropy (k + 1) now params.mutation _ db a after h₃) [
        | inl (_, same) ↦ rw same good
        | inr (_, applied, did, adds) ↦
            Kept-SameDomain applied after (write_credit-Kept id params now db applied good did)
              adds.same
      ]
  Step-Kept db after good (leaves budgets ledger owners) =
      Kept-same db after good budgets ledger owners

  Reach-Kept : (after : Db) → Reach empty_db after → Kept after
  Reach-Kept _ start = λ p b e. cc
  Reach-Kept after (next mid _ run step) = Step-Kept mid after (Reach-Kept mid run) step

  -- In every run from empty tables, of the three calls and of mutations that leave budgets, ledger and
  -- owners of projects alone, in which no `SetBudget` writes after the use of its project has grown past
  -- the sum that it read, and no usage overlaps with the writing of the first budget of its project, and
  -- whatever the billing engine answers: what a project has been debited in the currency of its budget
  -- is at most the limit of the budget and its credits.
  pub budget_never_exceeded :
      (after : Db) (p : String) (b : Budget)
      → Reach empty_db after
      → after.budgets p ≡ some b
      → sum (debit_of p b.currency) after.ledger
        ≤ b.limit_minor + sum (credit_of p b.currency) after.ledger
  budget_never_exceeded after p b run e = (Reach-Kept after run p b e).within
