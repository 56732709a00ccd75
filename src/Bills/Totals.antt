-- ===== src/Bills/Totals.antt =====
-- The totals of an open bill, and cash rounding (pos/bills/bill-core.ts).
use restiq_backend.Base.{
  ℕ, zero, suc, ◌+◌, ◌*◌, ◌/◌, ◌%◌, ◌≤◌, ◌≡◌, ◌∙◌, Option, some, List, [], ◌∷◌, map, find,
  update_where, ◌==◌, arith,
}
use restiq_backend.Base.Int.{ℤ, pos, ◌+ℤ◌, ◌-ℤ◌, ◌*ℤ◌, ◌/ℤ◌, ◌≤ℤ◌, sum_ℤ, int_laws}
use restiq_backend.Tax.{TaxCountry, in_, au, TaxResult}
use restiq_backend.Store.Rows.{Db, Bill, OrderLine}
use restiq_backend.Store.Transaction.{ok}
use restiq_backend.Bills.{
  subtotal_from, compute_subtotal, line_total, billed_lines, cash_unit, cash_round_off_minor,
  with_totals, compute_bill_totals, compute_tax_on, load_tenant_tax_profile,
  refresh_open_bill_totals,
}

subtotal_from-sum :
    (acc : ℤ) (ls : List OrderLine) → subtotal_from acc ls ≡ acc +ℤ sum_ℤ (map line_total ls)
unfolding subtotal_from
subtotal_from-sum acc [] = omega int_laws
subtotal_from-sum acc (l ∷ ls) = subtotal_from-sum (acc +ℤ line_total l) ls ∙ omega int_laws

-- The subtotal is the sum of the totals of the order's lines that are not voided.
pub compute_subtotal-sum :
    (db : Db) (order_id : ℕ)
    → compute_subtotal db order_id ≡ sum_ℤ (map line_total (billed_lines db order_id))
unfolding compute_subtotal
compute_subtotal-sum db order_id =
    subtotal_from-sum (pos 0) (billed_lines db order_id) ∙ omega int_laws

-- What the cash that is due is rounded to.
rounded : ℕ → TaxCountry → ℕ
rounded due c = (due * 2 + cash_unit c) / (2 * cash_unit c) * cash_unit c

round_off-rounded :
    (due : ℕ) (c : TaxCountry) → cash_round_off_minor (pos due) c ≡ pos (rounded due c) -ℤ pos due
unfolding cash_round_off_minor rounded ◌*ℤ◌ ◌/ℤ◌ ◌+ℤ◌
round_off-rounded zero in_ = omega int_laws
round_off-rounded zero au = omega int_laws
round_off-rounded (suc n) in_ = ground arith
round_off-rounded (suc n) au = ground arith

rounded_near :
    (due : ℕ) (c : TaxCountry)
    → (rounded due c % cash_unit c ≡ 0)
      × (2 * rounded due c ≤ 2 * due + cash_unit c)
      × (2 * due ≤ 2 * rounded due c + cash_unit c)
unfolding rounded
rounded_near due in_ = omega arith
rounded_near due au = omega arith

-- Cash that is due is settled at a multiple of the market's unit, at most half a unit away.
pub cash_round_off_bounds :
    (due : ℕ) (c : TaxCountry)
    → let off = cash_round_off_minor (pos due) c in
      ((settled : ℕ) × (pos due +ℤ off ≡ pos settled) × (settled % cash_unit c ≡ 0))
      × (off +ℤ off ≤ℤ pos (cash_unit c))
      × (pos 0 ≤ℤ off +ℤ off +ℤ pos (cash_unit c))
cash_round_off_bounds due c =
    let (whole, upper, lower) = rounded_near due c in
    rw (round_off-rounded due c)
      ((rounded due c, omega int_laws, whole), omega int_laws, omega int_laws)

-- A computation of totals writes nothing, and depends on no bill.
pub compute_bill_totals-reads :
    (tenant_id order_id : ℕ) (db db' : Db) (s : ℤ) (t : TaxResult)
    → compute_bill_totals tenant_id order_id db ≡ ok ((s, t), db')
    → (db' ≡ db)
      × (s ≡ compute_subtotal db order_id)
      × ((bs : List Bill)
          → compute_bill_totals tenant_id order_id (record db { bills = bs })
            ≡ ok ((s, t), record db { bills = bs }))
unfolding compute_bill_totals compute_tax_on load_tenant_tax_profile
compute_bill_totals-reads tenant_id order_id db db' s t e =
    (ground arith, ground arith, λ bs. ground arith)

abbrev pub bill_in : ℕ → Db → Option Bill
bill_in bill_id db = find (λ (b : Bill). b.id == bill_id) db.bills

abbrev stored : Bill → ℤ → TaxResult → Db → Db
stored bill s t db = record db {
  bills = update_where (λ (b : Bill). b.id == bill.id) (with_totals s t) db.bills;
}

-- The stored totals are those of the lines, and a refresh changes nothing.
abbrev Settled : Bill → Db → Bill × Db → Type 0
Settled bill db (b, db') =
    (b.subtotal_minor ≡ compute_subtotal db bill.order_id)
    × (bill_in bill.id db' ≡ some b)
    × (refresh_open_bill_totals b db' ≡ ok (b, db'))
