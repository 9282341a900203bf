-- ===== src/Storage/Invoice.antt =====
-- The lines of an invoice and their sum: the loop of `CreateInvoice` in
-- internal/storage/postgres/billing.go. A `string` and an `int64` are carried from line to line.
pub mod Laws
mod Tests
use gpu_rental_platform.Common.{
  ℕ, ◌+◌, ◌-◌, String, Bool, true, false, not, ◌&&◌, List, [], ◌∷◌, ltb, if◌then◌else◌, str_eq,
  Outcome, ok, err, invalid, fail_if, ◌>>=◌, ◌>>◌,
}
use gpu_rental_platform.Common.Int.{max_int64}

-- A row of rated_usage, as `line` has it
pub record Line : Type 0 where
  pub usage_fact_id : String
  pub amount_minor : ℕ
  pub currency : String

-- Where the currency is "CNY" the line's own takes its place, whatever it is.
unfoldable pub next_currency : String → Line → Outcome String
next_currency currency line =
    if str_eq currency "CNY"
    then ok line.currency
    else (fail_if (not (str_eq currency line.currency)) invalid >> ok currency)

unfoldable pub tally : String → ℕ → List Line → Outcome (String × ℕ)
unfolding next_currency
tally currency subtotal [] = ok (currency, subtotal)
tally currency subtotal (line ∷ lines) = do
  next ← next_currency currency line
  fail_if (ltb 0 line.amount_minor && ltb (max_int64 - line.amount_minor) subtotal) invalid
  tally next (subtotal + line.amount_minor) lines

-- The currency and the subtotal of an invoice.
unfoldable pub invoice_total : List Line → Outcome (String × ℕ)
unfolding tally
invoice_total lines = tally "CNY" 0 lines
