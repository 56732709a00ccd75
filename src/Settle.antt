-- ===== src/Settle.antt =====
-- Finalising a bill, `commitFinalize` of pos/bills/bill-core.ts, with the tenant's mode of
-- platform/payments-simulator.ts and platform/tenant-mode.ts. The clock and the server's switch
-- PAYMENTS_SIMULATOR are arguments.
pub mod Tenders
pub mod Commit
pub mod Once
pub mod Returns
mod Tests
use restiq_backend.Base.{
  ℕ, suc, ◌+◌, Bool, true, false, not, ◌&&◌, ◌||◌, Option, none, some, List, [], ◌∷◌, ◌++◌, String,
  ltb, ◌==◌, if◌then◌else◌, is_some, or_else, find, select, any, count_where, update_where,
}
use restiq_backend.Base.Int.{ℤ, pos, ◌+ℤ◌, ◌-ℤ◌, ltb_ℤ, eqb_ℤ}
use restiq_backend.Tax.{TaxCountry, TaxResult}
use restiq_backend.Store.Rows.{
  Db, Tenant, TenantStatus, active, provisioning, Bill, finalized, open_, is_open, is_finalized,
  Tender, is_cash, PaymentIntent, PaymentIntentStatus, created, pending, is_simulated,
  BillNumberCounter, Order, closed, AuditEvent, went_live,
}
use restiq_backend.Store.Transaction.{
  Tx, Result, ok, err, pure, throw, gets, ◌>>=◌, ◌>>◌, throw_if, modify, failure, conflicting,
  bad_request, already_finalized, payment_pending, simulated_tender, validation_failed,
  tender_mismatch,
}
use restiq_backend.Kitchen.{fire_on_send}
use restiq_backend.Bills.{
  compute_tax_on, compute_total_minor, cash_round_off_minor, load_bill, to_stored_tax_breakdown,
}

pub record Env : Type 0 where
  pub simulator_on : Bool
  pub now : ℕ

-- `isTestMode`
unfoldable pub is_test_mode : Tenant → Bool
is_test_mode tenant = not (is_some tenant.live_since)

unfoldable pub tenant_in_test_mode : Db → ℕ → Bool
unfolding is_test_mode
tenant_in_test_mode db tenant_id = elim (find (λ t. t.id == tenant_id) db.tenants) [
  | none ↦ false
  | some tenant ↦ is_test_mode tenant
]

unfoldable pub payments_simulator_for : Env → Db → ℕ → Bool
unfolding tenant_in_test_mode
payments_simulator_for env db tenant_id = env.simulator_on || tenant_in_test_mode db tenant_id

abbrev pub is_active_status : PaymentIntentStatus → Bool
is_active_status created = true
is_active_status pending = true
is_active_status _ = false

-- The bill's payments that still wait on a provider.
unfoldable pub pending_intents : Env → Db → ℕ → ℕ
pending_intents env db bill_id =
    count_where (λ i. i.bill_id == bill_id && is_active_status i.status && ltb env.now i.expires_at)
      db.payment_intents

-- The tender was written by the simulated terminal.
abbrev pub of_simulated : Db → Tender → Bool
of_simulated db t = elim t.payment_intent_id [
  | none ↦ false
  | some intent_id ↦ any (λ i. i.id == intent_id && is_simulated i.provider) db.payment_intents
]

unfoldable pub simulated_tenders : Db → ℕ → ℕ
simulated_tenders db bill_id =
    count_where (λ t. t.bill_id == bill_id && of_simulated db t) db.tenders

abbrev pub tenders_of : Db → ℕ → List Tender
tenders_of db bill_id = select (λ t. t.bill_id == bill_id) db.tenders

unfoldable pub sum_tenders : ℤ → List Tender → ℤ
sum_tenders sum [] = sum
sum_tenders sum (t ∷ ts) = sum_tenders (sum +ℤ t.amount_minor) ts

unfoldable pub sum_cash : ℤ → List Tender → ℤ
sum_cash sum [] = sum
sum_cash sum (t ∷ ts) = sum_cash (if is_cash t.method then sum +ℤ t.amount_minor else sum) ts

pub record CommitFinalizeParams : Type 0 where
  pub tenant_id : ℕ
  pub bill : Bill
  pub discount_minor : Option ℤ
  pub discount_reason : Option (List ℕ)
  pub finalized_by_staff_id : Option ℕ

-- The tenant's country, read only where some cash is taken.
unfoldable pub cash_country : ℕ → ℤ → Tx (Option TaxCountry)
cash_country tenant_id cash_minor db =
    let read : Result (Option TaxCountry × Db) = elim (find (λ t. t.id == tenant_id) db.tenants) [
      | none ↦ err failure
      | some tenant ↦ ok (some tenant.country, db)
    ] in
    if ltb_ℤ (pos 0) cash_minor then read else ok (none, db)

abbrev pub cash_adjustment : Option TaxCountry → ℤ → ℤ
cash_adjustment none due = pos 0
cash_adjustment (some country) due = cash_round_off_minor due country

-- The round-off that makes the tenders cover the total, or the refusal.
unfoldable pub settle_round_off : ℕ → ℤ → ℤ → ℤ → Tx (Option ℤ)
unfolding cash_country
settle_round_off tenant_id total_minor tender_total cash_minor =
    if eqb_ℤ tender_total total_minor
    then pure none
    else cash_country tenant_id cash_minor >>= λ country.
        let cash_round_off =
          cash_adjustment country (total_minor -ℤ (tender_total -ℤ cash_minor)) in
        throw_if
          (eqb_ℤ cash_round_off (pos 0) || not (eqb_ℤ tender_total (total_minor +ℤ cash_round_off)))
          (bad_request tender_mismatch)
        >> pure (some cash_round_off)

-- The tax on the discounted value, where a discount is given.
unfoldable pub discounted_tax : CommitFinalizeParams → ℤ → Tx (Option TaxResult)
discounted_tax params discount_minor =
    let recomputed : Tx (Option TaxResult) =
      compute_tax_on params.tenant_id (params.bill.subtotal_minor -ℤ discount_minor) >>= λ tax.
      pure (some tax) in
    if ltb_ℤ (pos 0) discount_minor then recomputed else pure none

abbrev pub tax_or : Option TaxResult → ℤ → ℤ
tax_or none tax_minor = tax_minor
tax_or (some tax) tax_minor = tax.tax_minor

abbrev pub discount_of : CommitFinalizeParams → ℤ
discount_of params = or_else params.discount_minor (pos 0)

-- What the bill comes to.
abbrev pub total_of : CommitFinalizeParams → Option TaxResult → ℤ
total_of params tax =
    compute_total_minor params.bill.subtotal_minor (tax_or tax params.bill.tax_minor)
      (discount_of params) params.bill.prices_include_tax

-- Everything that is validated before a number is reserved: the tax and the round-off.
unfoldable pub validate : Env → CommitFinalizeParams → Tx (Option TaxResult × Option ℤ)
validate env params = do
  let bill = params.bill
  throw_if (is_finalized bill.status) (conflicting already_finalized)
  pending_count ← gets (λ db. pending_intents env db bill.id)
  throw_if (ltb 0 pending_count) (conflicting payment_pending)
  simulator ← gets (λ db. payments_simulator_for env db bill.tenant_id)
  simulated_count ← gets (λ db. simulated_tenders db bill.id)
  throw_if (not simulator && ltb 0 simulated_count) (conflicting simulated_tender)
  throw_if (ltb_ℤ bill.subtotal_minor (discount_of params)) (bad_request validation_failed)
  tax ← discounted_tax params (discount_of params)
  tenders ← gets (λ db. tenders_of db bill.id)
  round_off ←
      settle_round_off params.tenant_id (total_of params tax) (sum_tenders (pos 0) tenders)
        (sum_cash (pos 0) tenders)
  pure (tax, round_off)

-- The upsert of the outlet's counter, which returns the number reserved.
unfoldable pub reserve_bill_number : ℕ → Tx ℕ
reserve_bill_number outlet_id db =
    elim (find (λ c. c.outlet_id == outlet_id) db.bill_number_counters) [
      | none ↦ ok (
        1,
        record db {
          bill_number_counters =
              db.bill_number_counters ++ record { outlet_id = outlet_id; last_number = 1 } ∷ [];
        },
      )
      | some c ↦ ok (
        c.last_number + 1,
        record db {
          bill_number_counters =
              update_where (λ c. c.outlet_id == outlet_id)
                (λ c. record c { last_number = c.last_number + 1 }) db.bill_number_counters;
        },
      )
    ]

-- The columns that finalising writes.
unfoldable pub finalized_bill :
    Env → CommitFinalizeParams → Option TaxResult → Option ℤ → ℕ → Bill → Bill
finalized_bill env params tax round_off number b = record b {
  bill_number = some number;
  discount_minor = params.discount_minor;
  discount_reason = params.discount_reason;
  round_off_minor = round_off;
  tax_minor = tax_or tax b.tax_minor;
  tax_breakdown = elim tax [ none ↦ b.tax_breakdown | some t ↦ some (to_stored_tax_breakdown t) ];
  status = finalized;
  finalized_by_staff_id = params.finalized_by_staff_id;
  finalized_at = some env.now;
}

-- The row that the compare-and-swap hits.
abbrev pub is_open_bill : ℕ → Bill → Bool
is_open_bill bill_id b = b.id == bill_id && is_open b.status

unfoldable pub swap_status : ℕ → (Bill → Bill) → Tx (Unit {0})
swap_status bill_id f db =
    if count_where (is_open_bill bill_id) db.bills == 0
    then err (conflicting already_finalized)
    else ok (tt, record db { bills = update_where (is_open_bill bill_id) f db.bills })

unfoldable pub close_order : ℕ → Tx (Unit {0})
close_order order_id db =
    if any (λ o. o.id == order_id) db.orders
    then ok (
      tt,
      record db {
        orders = update_where (λ o. o.id == order_id) (λ o. record o { status = closed }) db.orders;
      },
    )
    else err failure

abbrev pub is_provisioning : TenantStatus → Bool
is_provisioning provisioning = true
is_provisioning _ = false

-- A tenant's first sale takes it live, with an audit row.
unfoldable pub go_live : Env → ℕ → Db → Db
go_live env tenant_id db =
    if count_where (λ t. t.id == tenant_id && is_provisioning t.status) db.tenants == 0
    then db
    else record db {
      tenants =
          update_where (λ t. t.id == tenant_id && is_provisioning t.status)
            (λ t. record t { status = active }) db.tenants;
      audit_events =
          db.audit_events
          ++ record {
            tenant_id = tenant_id;
            actor_id = none;
            approver_id = none;
            action = went_live;
            subject_id = none;
            occurred_at = env.now;
          }
            ∷ [];
    }

abbrev pub fire_order : Env → CommitFinalizeParams → Db → Db
fire_order env params db =
    (fire_on_send
      (record {
        id = params.bill.order_id;
        tenant_id = params.bill.tenant_id;
        outlet_id = params.bill.outlet_id;
      })
      env.now db).1

-- Everything that is written, after the validation.
unfoldable pub commit_writes : Env → CommitFinalizeParams → Option TaxResult → Option ℤ → Tx Bill
commit_writes env params tax round_off = do
  number ← reserve_bill_number params.bill.outlet_id
  swap_status params.bill.id (finalized_bill env params tax round_off number)
  modify (fire_order env params)
  close_order params.bill.order_id
  modify (go_live env params.tenant_id)
  load_bill params.tenant_id params.bill.id

unfoldable pub commit_finalize : Env → CommitFinalizeParams → Tx Bill
commit_finalize env params = validate env params >>= λ v. commit_writes env params v.0 v.1
