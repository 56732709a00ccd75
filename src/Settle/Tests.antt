-- ===== src/Settle/Tests.antt =====
-- The properties of Settle at one input each: the sample's bill, paid in cash.
use restiq_backend.Base.{◌≡◌, ◌≢◌, refl, false, none, some, [], ◌∷◌}
use restiq_backend.Base.Int.{pos, ◌+ℤ◌, ◌-ℤ◌, ◌*ℤ◌, ◌/ℤ◌}
use restiq_backend.Store.Rows.{Db, Bill, card_terminal}
use restiq_backend.Store.Transaction.{ok, returned}
use restiq_backend.Store.Samples.{sample, bill, cash_tender}
use restiq_backend.Bills.{cash_round_off_minor, compute_total_minor, load_bill}
use restiq_backend.Kitchen.{fire_on_send}
use restiq_backend.Settle.{
  Env, CommitFinalizeParams, commit_finalize, validate, discounted_tax, settle_round_off,
  cash_country, sum_tenders, sum_cash, pending_intents, simulated_tenders, payments_simulator_for,
  tenant_in_test_mode, is_test_mode, commit_writes, reserve_bill_number, swap_status,
  finalized_bill, close_order, go_live,
}
use restiq_backend.Settle.Once.{commit_finalize_once}

abbrev env : Env
env = record { simulator_on = false; now = 9 }

abbrev paying : CommitFinalizeParams
paying = record {
  tenant_id = 1;
  bill = bill;
  discount_minor = none;
  discount_reason = none;
  finalized_by_staff_id = some 8;
}

abbrev paid_sample : Db
paid_sample = record sample { tenders = cash_tender ∷ [] }

abbrev settlement : Bill × Db
settlement = returned bill sample (commit_finalize env paying paid_sample)

settles : commit_finalize env paying paid_sample ≡ ok settlement
unfolding commit_finalize validate discounted_tax settle_round_off cash_country sum_tenders sum_cash
    pending_intents simulated_tenders payments_simulator_for tenant_in_test_mode is_test_mode
    commit_writes reserve_bill_number swap_status finalized_bill close_order go_live
    cash_round_off_minor compute_total_minor load_bill ◌+ℤ◌ ◌-ℤ◌ ◌*ℤ◌ ◌/ℤ◌ fire_on_send
settles = refl

commit_finalize_once_example : commit_finalize env paying settlement.1 ≢ ok (bill, settlement.1)
commit_finalize_once_example =
    commit_finalize_once env env paying paying paid_sample settlement.1 settlement.1 settlement.0
      bill settles refl

-- The same bill, paid by card to the last paisa.
abbrev card_sample : Db
card_sample = record sample {
  tenders = record cash_tender { method = card_terminal; amount_minor = pos 326 } ∷ [];
}
