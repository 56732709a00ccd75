-- ===== src/Bills.antt =====
-- Open bills, pos/bills/bill-core.ts: totals from the order's lines, refreshing, creating, loading,
-- and writing a tender. `Number(bigint)` is taken as the same integer. The tenders of a bill are
-- read from their table where the source includes them.
pub mod Totals
pub mod Opening
mod Tests
use restiq_backend.Base.{
  ℕ, suc, ◌*◌, Bool, true, false, not, ◌&&◌, ◌||◌, Option, none, some, List, [], ◌∷◌, ◌++◌, String,
  ltb, ◌==◌, if◌then◌else◌, is_some, or_else, find, select, any, update_where,
}
use restiq_backend.Base.Int.{ℤ, pos, ◌+ℤ◌, ◌-ℤ◌, ◌*ℤ◌, ◌/ℤ◌, leb_ℤ, ltb_ℤ, eqb_ℤ, sum_ℤ}
use restiq_backend.Tax.{
  TaxCountry, in_, au, GstSplitRounding, exact_total, equal_half_up, equal_half_even,
  ComputeTaxParams, TaxResult, compute_tax,
}
use restiq_backend.Store.Rows.{
  Db, Tenant, TaxRegistration, OrderLine, Bill, open_, is_open, StoredTaxBreakdown, Tender,
  TenderMethod,
}
use restiq_backend.Store.Transaction.{
  Tx, Result, ok, err, pure, throw, gets, or_throw, ◌>>=◌, ◌>>◌, throw_if, modify, failure, missing,
  not_found, conflicting, conflict,
}

-- The fields of `loadTenantTaxProfile` that a computation reads, with a missing registration's
-- defaults.
pub record TenantTaxProfile : Type 0 where
  pub country : TaxCountry
  pub tax_profile : List ℕ
  pub composition_scheme : Bool
  pub gst_registered : Bool
  pub gst_rate_percent : Option ℕ
  pub gst_split_rounding : GstSplitRounding

unfoldable pub profile_of : Tenant → Option TaxRegistration → TenantTaxProfile
profile_of tenant none = record {
  country = tenant.country;
  tax_profile = [];
  composition_scheme = false;
  gst_registered = true;
  gst_rate_percent = none;
  gst_split_rounding = exact_total;
}
profile_of tenant (some r) = record {
  country = tenant.country;
  tax_profile = r.tax_profile;
  composition_scheme = r.composition_scheme;
  gst_registered = r.gst_registered;
  gst_rate_percent = r.gst_rate_percent;
  gst_split_rounding = r.gst_split_rounding;
}

unfoldable pub load_tenant_tax_profile : ℕ → Tx TenantTaxProfile
unfolding profile_of
load_tenant_tax_profile tenant_id db = elim (find (λ t. t.id == tenant_id) db.tenants) [
  | none ↦ err failure
  | some tenant ↦
      ok (profile_of tenant (find (λ r. r.tenant_id == tenant_id) db.tax_registrations), db)
]

unfoldable pub to_stored_tax_breakdown : TaxResult → StoredTaxBreakdown
to_stored_tax_breakdown tax = record {
  lines = tax.breakdown;
  notes = tax.notes;
  gst_split_rounding = tax.gst_split_rounding;
}

abbrev empty_breakdown : StoredTaxBreakdown
empty_breakdown = record { lines = []; notes = []; gst_split_rounding = none }

unfoldable pub read_stored_tax_breakdown : Option StoredTaxBreakdown → StoredTaxBreakdown
read_stored_tax_breakdown stored = or_else stored empty_breakdown

unfoldable pub compute_total_minor : ℤ → ℤ → ℤ → Bool → ℤ
compute_total_minor subtotal_minor tax_minor discount_minor prices_include_tax =
    if prices_include_tax
    then subtotal_minor -ℤ discount_minor
    else subtotal_minor +ℤ tax_minor -ℤ discount_minor

-- `toBillView(bill).totalMinor`
unfoldable pub bill_total : Bill → ℤ
unfolding compute_total_minor
bill_total bill =
    compute_total_minor bill.subtotal_minor bill.tax_minor (or_else bill.discount_minor (pos 0))
      bill.prices_include_tax

unfoldable pub load_bill : ℕ → ℕ → Tx Bill
load_bill tenant_id bill_id db = elim (find (λ b. b.id == bill_id) db.bills) [
  | none ↦ err (missing not_found)
  | some b ↦ if b.tenant_id == tenant_id then ok (b, db) else err (missing not_found)
]

-- The lines of an order that are billed.
abbrev pub billed_lines : Db → ℕ → List OrderLine
billed_lines db order_id =
    select (λ l. l.order_id == order_id && not (is_some l.voided_at)) db.order_lines

-- Unit price and selected modifiers, times the quantity.
abbrev pub line_total : OrderLine → ℤ
line_total l = pos l.quantity *ℤ (l.unit_price_minor +ℤ sum_ℤ l.modifier_prices)

unfoldable pub subtotal_from : ℤ → List OrderLine → ℤ
subtotal_from subtotal [] = subtotal
subtotal_from subtotal (l ∷ ls) = subtotal_from (subtotal +ℤ line_total l) ls

unfoldable pub compute_subtotal : Db → ℕ → ℤ
unfolding subtotal_from
compute_subtotal db order_id = subtotal_from (pos 0) (billed_lines db order_id)

abbrev pub tax_params : TenantTaxProfile → ℤ → ComputeTaxParams
tax_params p taxable_minor = record {
  country = p.country;
  tax_profile = p.tax_profile;
  composition_scheme = p.composition_scheme;
  gst_registered = p.gst_registered;
  subtotal_minor = taxable_minor;
  gst_rate_percent = p.gst_rate_percent;
  gst_split_rounding = some p.gst_split_rounding;
}

unfoldable pub compute_tax_on : ℕ → ℤ → Tx TaxResult
unfolding load_tenant_tax_profile
compute_tax_on tenant_id taxable_minor = do
  profile ← load_tenant_tax_profile tenant_id
  pure (compute_tax (tax_params profile taxable_minor))

unfoldable pub compute_bill_totals : ℕ → ℕ → Tx (ℤ × TaxResult)
unfolding compute_tax_on compute_subtotal
compute_bill_totals tenant_id order_id = do
  subtotal_minor ← gets (λ db. compute_subtotal db order_id)
  tax ← compute_tax_on tenant_id subtotal_minor
  pure (subtotal_minor, tax)

-- `tx.bill.update`, which returns the row and throws where there is none.
unfoldable pub update_bill : ℕ → (Bill → Bill) → Tx Bill
update_bill bill_id f db = elim (find (λ b. b.id == bill_id) db.bills) [
  | none ↦ err failure
  | some b ↦ ok (f b, record db { bills = update_where (λ b. b.id == bill_id) f db.bills })
]

abbrev pub eq_rounding : Option GstSplitRounding → Option GstSplitRounding → Bool
eq_rounding none none = true
eq_rounding (some exact_total) (some exact_total) = true
eq_rounding (some equal_half_up) (some equal_half_up) = true
eq_rounding (some equal_half_even) (some equal_half_even) = true
eq_rounding _ _ = false

-- The row after a refresh.
abbrev pub with_totals : ℤ → TaxResult → Bill → Bill
with_totals subtotal_minor tax bill = record bill {
  subtotal_minor = subtotal_minor;
  tax_minor = tax.tax_minor;
  tax_breakdown = some (to_stored_tax_breakdown tax);
  prices_include_tax = tax.prices_include_tax;
}

-- The stored totals are those of the current lines.
abbrev pub totals_current : Bill → ℤ → TaxResult → Bool
totals_current bill subtotal_minor tax =
    eqb_ℤ subtotal_minor bill.subtotal_minor
    && eqb_ℤ tax.tax_minor bill.tax_minor
    && eq_rounding tax.gst_split_rounding
        (read_stored_tax_breakdown bill.tax_breakdown).gst_split_rounding

abbrev pub store_totals : Bill → ℤ → TaxResult → Tx Bill
store_totals bill subtotal_minor tax =
    if totals_current bill subtotal_minor tax
    then pure bill
    else update_bill bill.id (with_totals subtotal_minor tax)

unfoldable pub refresh_open_bill_totals : Bill → Tx Bill
unfolding update_bill to_stored_tax_breakdown read_stored_tax_breakdown
refresh_open_bill_totals bill =
    if not (is_open bill.status)
    then pure bill
    else compute_bill_totals bill.tenant_id bill.order_id >>= λ t. store_totals bill t.0 t.1

pub record CreateBillParams : Type 0 where
  pub tenant_id : ℕ
  pub outlet_id : ℕ
  pub order_id : ℕ
  pub created_by_staff_id : Option ℕ
  pub order_closed : Bool

abbrev pub new_bill : ℕ → CreateBillParams → ℤ → TaxResult → Bill
new_bill id params subtotal_minor tax = record {
  id = id;
  tenant_id = params.tenant_id;
  outlet_id = params.outlet_id;
  order_id = params.order_id;
  bill_number = none;
  subtotal_minor = subtotal_minor;
  tax_minor = tax.tax_minor;
  tax_breakdown = some (to_stored_tax_breakdown tax);
  prices_include_tax = tax.prices_include_tax;
  discount_minor = none;
  discount_reason = none;
  round_off_minor = none;
  status = open_;
  created_by_staff_id = params.created_by_staff_id;
  finalized_by_staff_id = none;
  finalized_at = none;
}

abbrev pub bill_of_order : Db → ℕ → Option Bill
bill_of_order db order_id = find (λ b. b.order_id == order_id) db.bills

-- The insert under the savepoint: `bills.order_id` is unique, so that an order which has a bill by
-- now violates the index, the savepoint is rolled back and that bill is returned.
unfoldable pub insert_bill : CreateBillParams → ℤ → TaxResult → Tx (Bill × Bool)
insert_bill params subtotal_minor tax db = elim (bill_of_order db params.order_id) [
  | some raced ↦ ok ((raced, false), db)
  | none ↦
      let bill = new_bill db.next_id params subtotal_minor tax in
      ok ((bill, true), record db { bills = db.bills ++ bill ∷ []; next_id = suc db.next_id })
]

-- `others` is what concurrent transactions commit between the read of the existing bill and the
-- insert. The result says whether the bill was created.
unfoldable pub create_or_get_bill_record : (Db → Db) → CreateBillParams → Tx (Bill × Bool)
unfolding insert_bill
create_or_get_bill_record others params db = elim (bill_of_order db params.order_id) [
  | some existing ↦
      (do bill ← refresh_open_bill_totals existing; pure {A = Bill × Bool} (bill, false)) db
  | none ↦
      (do
        throw_if params.order_closed (conflicting conflict)
        totals ← compute_bill_totals params.tenant_id params.order_id
        modify others
        insert_bill params totals.0 totals.1)
        db
]

pub record TenderParams : Type 0 where
  pub tenant_id : ℕ
  pub bill_id : ℕ
  pub method : TenderMethod
  pub amount_minor : ℤ
  pub payment_intent_id : Option ℕ
  pub risk_acknowledged : Option Bool
  pub reference : Option (List ℕ)
  pub tendered_minor : Option ℤ

abbrev pub tender_row : TenderParams → ℕ → Tender
tender_row params id = record {
  id = id;
  tenant_id = params.tenant_id;
  bill_id = params.bill_id;
  method = params.method;
  amount_minor = params.amount_minor;
  payment_intent_id = params.payment_intent_id;
  risk_acknowledged = or_else params.risk_acknowledged false;
  reference = params.reference;
  tendered_minor = params.tendered_minor;
}

unfoldable pub create_tender_record : TenderParams → Tx Tender
create_tender_record params db =
    let tender = tender_row params db.next_id in
    ok (tender, record db { tenders = db.tenders ++ tender ∷ []; next_id = suc db.next_id })

abbrev pub cash_unit : TaxCountry → ℕ
cash_unit in_ = 100
cash_unit au = 5

-- `cashRoundOffMinor`
unfoldable pub cash_round_off_minor : ℤ → TaxCountry → ℤ
cash_round_off_minor due_minor country =
    if leb_ℤ due_minor (pos 0)
    then pos 0
    else (due_minor *ℤ pos 2 +ℤ pos (cash_unit country))
        /ℤ pos (2 * cash_unit country)
        *ℤ pos (cash_unit country)
      -ℤ due_minor
