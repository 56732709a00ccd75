-- ===== src/Settle/Returns.antt =====
-- A bill that may be finalised is finalised: `commitFinalize` of pos/bills/bill-core.ts returns.
use restiq_backend.Base.{◌≡◌, true, false, not, ◌&&◌, Option, some, ltb, ◌==◌, any}
use restiq_backend.Base.Int.{◌≤ℤ◌}
use restiq_backend.Tax.{TaxResult}
use restiq_backend.Store.Rows.{Db, open_, Order}
use restiq_backend.Store.Transaction.{ok}
use restiq_backend.Bills.Totals.{bill_in}
use restiq_backend.Settle.{
  Env, CommitFinalizeParams, payments_simulator_for, pending_intents, simulated_tenders,
  discount_of, total_of, discounted_tax,
}
use restiq_backend.Settle.Tenders.{paid_in}

-- What a caller has to bring about: an open bill of the tenant as it is stored, whose order is
-- stored too, no payment pending, no simulated money where real money is due, a discount within the
-- subtotal, a tax that can be computed, and tenders of exactly the total.
pub record Ready (env : Env) (params : CommitFinalizeParams) (db : Db) (tax : Option TaxResult)
    : Type 0 where
  pub stored : bill_in params.bill.id db ≡ some params.bill
  pub own : params.bill.tenant_id ≡ params.tenant_id
  pub was_open : params.bill.status ≡ open_
  pub order_stored : any (λ (o : Order). o.id == params.bill.order_id) db.orders ≡ true
  pub none_pending : pending_intents env db params.bill.id ≡ 0
  pub real_money :
      (not (payments_simulator_for env db params.bill.tenant_id)
        && ltb 0 (simulated_tenders db params.bill.id))
      ≡ false
  pub within : discount_of params ≤ℤ params.bill.subtotal_minor
  pub taxed : discounted_tax params (discount_of params) db ≡ ok (tax, db)
  pub exact : paid_in db params.bill.id ≡ total_of params tax
