-- ===== src/Storage/Invoice/Laws.antt =====
-- What a subtotal is the sum of.
use gpu_rental_platform.Common.{
  ◌≡◌, ◌≤◌, ap, ◌⊎◌, inr, ℕ, ◌+◌, ◌-◌, String, ◌&&◌, List, [], ◌∷◌, ltb, eq_iff, ok, invalid,
  fail_if, >>=-eq-ok, fail_if-eq-ok, ok-injective, arith, sum, All,
}
use gpu_rental_platform.Common.Int.{max_int64}
use gpu_rental_platform.Storage.Invoice.{Line, next_currency, tally, invoice_total}

abbrev amount_of : Line → ℕ
amount_of line = line.amount_minor

-- In the default currency of invoices, or in the one that is given.
abbrev pub IsIn : String → Line → Type 0
IsIn currency line = (line.currency ≡ "CNY") ⊎ (line.currency ≡ currency)

abbrev pub IsBigint : Line → Type 0
IsBigint line = line.amount_minor ≤ max_int64

next_currency-ok :
    (currency : String) (line : Line) (next : String)
    → next_currency currency line ≡ ok next
    → (next ≡ line.currency) × ((currency ≡ "CNY") ⊎ (currency ≡ next))
unfolding next_currency
next_currency-ok currency line next h =
    ground (arith, eq_iff currency "CNY", eq_iff currency line.currency)

-- The result of the loop from any line on.
tally-ok :
    (currency : String) (subtotal : ℕ) (lines : List Line) (last : String) (total : ℕ)
    → subtotal ≤ max_int64
    → All IsBigint lines
    → tally currency subtotal lines ≡ ok (last, total)
    → (total ≡ subtotal + sum amount_of lines)
      × (total ≤ max_int64)
      × All (IsIn last) lines
      × ((currency ≡ "CNY") ⊎ (currency ≡ last))
unfolding tally
tally-ok currency subtotal [] last total fits small h =
    let same = ok-injective h in (ground arith, ground arith, tt, inr (ap (λ r. r.0) same))
tally-ok currency subtotal (line ∷ lines) last total fits small h =
    let (next, e, h₁) = >>=-eq-ok (next_currency currency line) _ h in
    let (taken, before) = next_currency-ok currency line next e in
    let (_, c, h₂) =
      >>=-eq-ok
        (fail_if (ltb 0 line.amount_minor && ltb (max_int64 - line.amount_minor) subtotal) invalid)
        _ h₁ in
    let room =
      fail_if-eq-ok (ltb 0 line.amount_minor && ltb (max_int64 - line.amount_minor) subtotal) _ c in
    let one : line.amount_minor ≤ max_int64 = small.0 in
    let still_fits : subtotal + line.amount_minor ≤ max_int64 = ground arith in
    let (added, bounded, rest, link) =
      tally-ok next (subtotal + line.amount_minor) lines last total still_fits small.1 h₂ in
    (omega arith, bounded, (ground arith, rest), ground arith)

-- Where each amount fits the `bigint` of its column: if `CreateInvoice` finds a subtotal for the
-- lines, then it is their sum, it fits 64 bits, and each
-- line is in CNY or in the currency of the invoice.
pub invoice_total_sums :
    (lines : List Line) (currency : String) (subtotal : ℕ)
    → All IsBigint lines
    → invoice_total lines ≡ ok (currency, subtotal)
    → (subtotal ≡ sum (λ (l : Line). l.amount_minor) lines)
      × (subtotal ≤ max_int64)
      × All (IsIn currency) lines
unfolding invoice_total
invoice_total_sums lines currency subtotal small h =
    let (total, bounded, all_in, _) =
      tally-ok "CNY" 0 lines currency subtotal (omega arith) small h in
    (omega (arith, total), bounded, all_in)
