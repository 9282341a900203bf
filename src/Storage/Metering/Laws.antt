-- ===== src/Storage/Metering/Laws.antt =====
-- No budget is ever exceeded.
use gpu_rental_platform.Common.{
  ◌≡◌, ◌≤◌, refl, sym, ap, ◌∙◌, inl, inr, ℕ, ◌+◌, String, true, false, ◌&&◌, ◌||◌, not, some, List,
  [], ◌∷◌, ◌++◌, str_eq, eq_iff, eq_refl, any, find, sum, sum-append, arith, Bool-cases, ok,
  >>=-eq-ok, fail_if-ok, fail_if-eq-ok, or_fail-eq-ok, fail_if, or_fail, ok-injective, ltb, invalid,
  not_found,
}
use gpu_rental_platform.Common.Int.{leb_ℤ, pos, ltb_ℤ, ◌-ℤ◌, -ℤ_parts}
use gpu_rental_platform.Common.Text.{to_lower}
use gpu_rental_platform.Tenancy.{Project}
use gpu_rental_platform.Billing.{UsageFact, RatedUsage}
use gpu_rental_platform.Storage.Db.{Db, LedgerEntry, Budget}
use gpu_rental_platform.Storage.Metering.{
  debit_of, credit_of, used_minor, check_owner, enforce_project_budget, insert_entry, write_credit,
  CreditParams, is_currency,
}
use gpu_rental_platform.Storage.Metering.Usage.{insert_fact, insert_rated, post_usage, debit_entry}

-- The project belongs to the tenant.
abbrev pub Owns : Db → String → String → Type 0
Owns db p t =
    (x : Project) × (find (λ (y : Project). str_eq y.id p) db.projects ≡ some x) × (x.tenant_id ≡ t)

-- What a project has spent in a currency is within an amount.
abbrev pub Within : List LedgerEntry → String → String → ℕ → Type 0
Within ledger p c limit = sum (debit_of p c) ledger ≤ limit + sum (credit_of p c) ledger

-- The budget of a project is one of its tenant, and is not exceeded.
pub record IsKept (db : Db) (p : String) (b : Budget) : Type 0 where
  pub tenant : String
  pub owned : Owns db p tenant
  pub same_tenant : b.tenant_id ≡ to_lower tenant
  pub within : Within db.ledger p b.currency b.limit_minor

abbrev pub Kept : Db → Type 0
Kept db = (p : String) (b : Budget) → db.budgets p ≡ some b → IsKept db p b

pub check_owner-Owns :
    (p t : String) (db : Db) {u : Unit {0}} → check_owner p t db ≡ ok u → Owns db p t
unfolding check_owner
check_owner-Owns p t db h =
    let (x, e, h₁) =
      >>=-eq-ok (or_fail (find (λ (y : Project). str_eq y.id p) db.projects) not_found) _ h in
    let same = fail_if-eq-ok (not (str_eq x.tenant_id t)) _ h₁ in
    (
      x,
      or_fail-eq-ok (find (λ (y : Project). str_eq y.id p) db.projects) _ e,
      ground (arith, eq_iff x.tenant_id t),
    )

insert_entry-ok :
    (e : LedgerEntry) (db after : Db)
    → insert_entry e db ≡ ok after
    → record db { ledger = db.ledger ++ e ∷ [] } ≡ after
unfolding insert_entry
insert_entry-ok e db after h =
    let h₁ = fail_if-ok (any (λ (x : LedgerEntry). str_eq x.id e.id) db.ledger) _ _ h in
    let h₂ = fail_if-ok (not (is_currency e.currency)) _ _ h₁ in ok-injective h₂

-- An entry that adds nothing to the debits keeps what is within.
Within-append :
    (ledger : List LedgerEntry) (e : LedgerEntry) (p c : String) (limit : ℕ)
    → Within ledger p c (limit + credit_of p c e)
    → debit_of p c e ≡ 0
    → Within (ledger ++ e ∷ []) p c limit
Within-append ledger e p c limit h zero_debit =
    omega
      (arith, sum-append (debit_of p c) ledger (e ∷ []), sum-append (credit_of p c) ledger (e ∷ []))

pub used_minor-Within :
    (ledger : List LedgerEntry) (p c : String) (limit : ℕ)
    → ltb_ℤ (pos limit) (used_minor p c ledger) ≡ false
    → Within ledger p c limit
unfolding used_minor
used_minor-Within ledger p c limit h =
    ground (arith, -ℤ_parts (pos (sum (debit_of p c) ledger)) (pos (sum (credit_of p c) ledger)))

spend-Within :
    (ledger : List LedgerEntry) (p c : String) (limit amount : ℕ)
    → Within ledger p c limit
    → (ltb 0 amount && ltb_ℤ (pos limit -ℤ pos amount) (used_minor p c ledger)) ≡ false
    → sum (debit_of p c) ledger + amount ≤ limit + sum (credit_of p c) ledger
unfolding used_minor
spend-Within ledger p c limit amount h k = ground (
  arith,
  -ℤ_parts (pos (sum (debit_of p c) ledger)) (pos (sum (credit_of p c) ledger)),
  -ℤ_parts (pos limit) (pos amount),
)

Within-mono :
    (ledger : List LedgerEntry) (p c : String) (limit more : ℕ)
    → Within ledger p c limit
    → Within ledger p c (limit + more)
Within-mono ledger p c limit more h = omega arith

pub write_credit-Kept :
    (id : String) (params : CreditParams) (now : ℕ) (db after : Db)
    → Kept db
    → write_credit id params now db ≡ ok after
    → Kept after
unfolding write_credit
write_credit-Kept id params now db after good h =
    let (_, _, h₁) = >>=-eq-ok (check_owner (to_lower params.project_id) params.tenant_id db) _ h in
    rw (← insert_entry-ok _ db after h₁) (λ p b e.
      let k = good p b e in
      record {
        tenant = k.tenant;
        owned = k.owned;
        same_tenant = k.same_tenant;
        within =
            Within-append db.ledger _ p b.currency b.limit_minor
              (Within-mono db.ledger p b.currency b.limit_minor _ k.within) refl;
      })

-- `enforceProjectBudget` on a budget of the tenant that is kept.
enforce-ok :
    (project tenant currency : String) (amount : ℕ) (db : Db) {u : Unit {0}} (b : Budget)
    → enforce_project_budget project tenant currency amount db ≡ ok u
    → db.budgets project ≡ some b
    → b.tenant_id ≡ tenant
    → (b.currency ≡ currency)
      × ((ltb 0 amount
            && ltb_ℤ (pos b.limit_minor -ℤ pos amount) (used_minor project currency db.ledger))
          ≡ false)
unfolding enforce_project_budget
enforce-ok project tenant currency amount db b h e t =
    let same : str_eq b.tenant_id tenant ≡ true = rw (t, eq_refl tenant) refl in
    let h₁ = rw (enforce_project_budget, e, same) at h in
    let (_, c, h₂) = >>=-eq-ok (fail_if (not (str_eq b.currency currency)) invalid) _ h₁ in
    let other = fail_if-eq-ok (not (str_eq b.currency currency)) _ c in
    (
      ground (arith, eq_iff b.currency currency),
      fail_if-eq-ok
          (ltb 0 amount
            && ltb_ℤ (pos b.limit_minor -ℤ pos amount) (used_minor project currency db.ledger))
          _ h₂,
    )

-- A debit that the budget of its own project has room for.
add_debit-Within :
    (ledger : List LedgerEntry) (id : String) (fact : UsageFact) (rated : RatedUsage) (now : ℕ)
    (p c : String) (limit : ℕ)
    → Within ledger p c limit
    → (p ≡ to_lower fact.project_id
        → (c ≡ rated.currency)
          × (sum (debit_of p c) ledger + rated.amount_minor ≤ limit + sum (credit_of p c) ledger))
    → Within (ledger ++ debit_entry id fact rated now ∷ []) p c limit
add_debit-Within ledger id fact rated now p c limit h room =
    let e = debit_entry id fact rated now in
    let debits = sum-append (debit_of p c) ledger (e ∷ []) in
    let credits = sum-append (credit_of p c) ledger (e ∷ []) in
    elim (Bool-cases (str_eq (to_lower fact.project_id) p)) [
      | inl t ↦
          let same : p ≡ to_lower fact.project_id =
            ground (arith, eq_iff (to_lower fact.project_id) p) in
          let (_, fits) = room same in ground arith
      | inr t ↦ ground arith
    ]

owner_unique : (db : Db) (p t t' : String) → Owns db p t → Owns db p t' → t ≡ t'
owner_unique db p t t' (x, f, e) (y, g, e') =
    let same : x ≡ y = cc in sym e ∙ ap (λ z. z.tenant_id) same ∙ e'

-- What the check of the budget has left room for.
room_left :
    (db : Db) (fact : UsageFact) (rated : RatedUsage) (p : String) (b : Budget) {u : Unit {0}}
    → IsKept db p b
    → db.budgets p ≡ some b
    → Owns db (to_lower fact.project_id) fact.tenant_id
    → enforce_project_budget
        (to_lower fact.project_id)
        (to_lower fact.tenant_id)
        rated.currency
        rated.amount_minor
        db
      ≡ ok u
    → p ≡ to_lower fact.project_id
    → (b.currency ≡ rated.currency)
      × (sum (debit_of p b.currency) db.ledger + rated.amount_minor
          ≤ b.limit_minor + sum (credit_of p b.currency) db.ledger)
room_left db fact rated p b k e owns checked same =
    let theirs = owner_unique db p k.tenant fact.tenant_id k.owned (rw same owns) in
    let (currency, room) =
      enforce-ok (to_lower fact.project_id) (to_lower fact.tenant_id) rated.currency
        rated.amount_minor db b checked (rw same at e) (k.same_tenant ∙ ap to_lower theirs) in
    (
      currency,
      spend-Within db.ledger p b.currency b.limit_minor rated.amount_minor k.within
          (rw (same, currency) room),
    )

pub post_usage-Kept :
    (id : String) (fact : UsageFact) (rated : RatedUsage) (now : ℕ) (db after : Db)
    → Kept db
    → post_usage id fact rated now db ≡ ok after
    → Kept after
unfolding post_usage insert_fact insert_rated
post_usage-Kept id fact rated now db after good h =
    let (_, owns, h₁) = >>=-eq-ok (check_owner (to_lower fact.project_id) fact.tenant_id db) _ h in
    let (x, found, is_owner) = check_owner-Owns (to_lower fact.project_id) fact.tenant_id db owns in
    let (_, checked, h₂) =
      >>=-eq-ok
        (enforce_project_budget (to_lower fact.project_id) (to_lower fact.tenant_id) rated.currency
          rated.amount_minor db)
        _ h₁ in
    let (recorded, e₁, h₃) =
      >>=-eq-ok
        (insert_fact
          (record fact {
            tenant_id = to_lower fact.tenant_id;
            project_id = to_lower fact.project_id;
          })
          db)
        _ h₂ in
    let (priced, e₂, h₄) = >>=-eq-ok (insert_rated rated recorded) _ h₃ in
    let d₁ = fail_if-ok (any (λ (y : UsageFact). str_eq y.id fact.id) db.usage_facts) _ _ e₁ in
    let f₁ =
      fail_if-ok
        (any (λ (y : RatedUsage). str_eq y.usage_fact_id rated.usage_fact_id) recorded.rated_usage)
        _ _ e₂ in
    let f₂ =
      fail_if-ok (leb_ℤ rated.price_version (pos 0) || not (is_currency rated.currency)) _ _ f₁ in
    rw
      (
        ← insert_entry-ok (debit_entry id fact rated now) priced after h₄,
        ← ok-injective f₂,
        ← ok-injective d₁,
      )
      (λ p b e.
        let k = good p b e in
        record {
          tenant = k.tenant;
          owned = k.owned;
          same_tenant = k.same_tenant;
          within =
              add_debit-Within db.ledger id fact rated now p b.currency b.limit_minor k.within
                (room_left db fact rated p b k e (x, found, is_owner) checked);
        })
