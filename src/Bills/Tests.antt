-- ===== src/Bills/Tests.antt =====
-- The properties of Bills at one input each.
use restiq_backend.Base.{ℕ, ◌%◌, ◌≡◌}
use restiq_backend.Base.Int.{pos, ◌+ℤ◌, ◌≤ℤ◌}
use restiq_backend.Tax.{in_}
use restiq_backend.Store.Rows.{Db, Bill}
use restiq_backend.Store.Transaction.{returned}
use restiq_backend.Store.Samples.{sample, bill}
use restiq_backend.Bills.{cash_round_off_minor, cash_unit, refresh_open_bill_totals}
use restiq_backend.Bills.Totals.{cash_round_off_bounds}

cash_round_off_bounds_example :
    ((settled : ℕ) × (pos 12345 +ℤ cash_round_off_minor (pos 12345) in_ ≡ pos settled)
      × (settled % cash_unit in_ ≡ 0))
    × (cash_round_off_minor (pos 12345) in_ +ℤ cash_round_off_minor (pos 12345) in_
        ≤ℤ pos (cash_unit in_))
    × (pos 0
        ≤ℤ cash_round_off_minor (pos 12345) in_
          +ℤ cash_round_off_minor (pos 12345) in_
          +ℤ pos (cash_unit in_))
cash_round_off_bounds_example = cash_round_off_bounds 12345 in_

abbrev refreshed : Bill × Db
refreshed = returned bill sample (refresh_open_bill_totals bill sample)
