-- ===== src/Storage/Invoice/Tests.antt =====
-- Invoices in one and in two currencies, and a witness.
use gpu_rental_platform.Common.{
  ◌≡◌, ◌≤◌, refl, String, ℕ, List, [], ◌∷◌, ok, err, invalid, sum, All, arith,
}
use gpu_rental_platform.Common.Int.{max_int64}
use gpu_rental_platform.Storage.Invoice.{Line, invoice_total}
use gpu_rental_platform.Storage.Invoice.Laws.{IsIn, IsBigint, invoice_total_sums}

code : Unit {0}
unfolding invoice_total
code = tt

abbrev line : ℕ → String → Line
line amount currency = record { usage_fact_id = "f"; amount_minor = amount; currency = currency }

abbrev mixed : List Line
mixed = line 10 "CNY" ∷ line 20 "USD" ∷ []

-- Yuan and dollars are added up.
mixed_total : invoice_total mixed ≡ ok ("USD", 30)
unfolding code
mixed_total = refl

-- In the other order the same lines are refused.
mixed_refused : invoice_total (line 20 "USD" ∷ line 10 "CNY" ∷ []) ≡ err invalid
unfolding code
mixed_refused = refl

mixed_small : All IsBigint mixed
mixed_small = (omega arith, (omega arith, tt))

invoice_total_sums_example :
    (30 ≡ sum (λ (l : Line). l.amount_minor) mixed) × (30 ≤ max_int64) × All (IsIn "USD") mixed
invoice_total_sums_example = invoice_total_sums mixed "USD" 30 mixed_small mixed_total
