-- ===== src/Shifts/Tests.antt =====
-- The properties of Shifts at one input each: the sample's open shift, with a bill settled in cash.
use restiq_backend.Base.{◌≡◌, refl, none, some, List, [], ◌∷◌, is_some, false, arith}
use restiq_backend.Base.Int.{pos, negsuc, ◌+ℤ◌, ◌-ℤ◌}
use restiq_backend.Store.Rows.{Db, Shift, CreditNote, paid_out, finalized}
use restiq_backend.Store.Transaction.{ok, returned, serve_all}
use restiq_backend.Store.Samples.{sample, shift, bill, cash_tender}
use restiq_backend.Settle.{Env, sum_tenders}
use restiq_backend.Intents.{Staff}
use restiq_backend.Shifts.{
  ShiftView, load_shift, load_open_shift, assert_staff_in_tenant, insert_movement, LogCashMovement,
  get_shift, log_cash_movement, close_shift, update_shift, expected_in_drawer,
  compute_cash_sales_minor, compute_cash_refunds_minor, sum_movements, sold_since, walk_refunds,
  cash_of_bill,
}
use restiq_backend.Shifts.Drawer.{
  shift_in, OneOpen, ShiftRequest, open_it, close_it, handle_shift, serve_shifts-OneOpen,
  serve_shifts-closed,
}
use restiq_backend.Shifts.Closing.{Balanced, close_shift-Balanced, log_cash_movement-expected}
use restiq_backend.Shifts.Refunds.{smaller, totals, walk_refunds-Legacy}

abbrev env : Env
env = record { simulator_on = false; now = 9 }

abbrev keeper : Staff
keeper = record { id = 8; tenant_id = 1; outlet_id = 2; name = "Ann"; role = "Manager" }

-- A bill that was paid with 300 in cash.
abbrev sold : Db
sold = record sample {
  bills = record bill { status = finalized; finalized_at = some 5 } ∷ [];
  tenders = cash_tender ∷ [];
}

abbrev closing : ShiftView × Db
closing = returned (shift, []) sample (close_shift env keeper 11 (pos 790) sold)

closes : close_shift env keeper 11 (pos 790) sold ≡ ok closing
unfolding close_shift assert_staff_in_tenant load_open_shift load_shift update_shift
    expected_in_drawer compute_cash_sales_minor compute_cash_refunds_minor sum_movements sold_since
    sum_tenders walk_refunds ◌+ℤ◌ ◌-ℤ◌
closes = refl

-- 10 short.
closes_short : closing.0.0.over_short_minor ≡ some (negsuc 9)
unfolding close_shift assert_staff_in_tenant load_open_shift load_shift update_shift
    expected_in_drawer compute_cash_sales_minor compute_cash_refunds_minor sum_movements sold_since
    sum_tenders walk_refunds ◌+ℤ◌ ◌-ℤ◌
closes_short = refl

close_shift-Balanced_example :
    (s : Shift) × Balanced env keeper 11 (pos 790) s closing.0.0 sold closing.1
close_shift-Balanced_example =
    close_shift-Balanced env keeper 11 (pos 790) closing.0 sold closing.1 closes

abbrev supplies : LogCashMovement
supplies = record { kind = paid_out; amount_minor = pos 40; reason = "milk" }

abbrev logging : ShiftView × Db
logging = returned (shift, []) sample (log_cash_movement env keeper 11 supplies sold)

logs : log_cash_movement env keeper 11 supplies sold ≡ ok logging
unfolding log_cash_movement assert_staff_in_tenant load_open_shift load_shift insert_movement
    get_shift
logs = refl

log_cash_movement-expected_example :
    (s : Shift) × (shift_in 11 sold ≡ some s)
    × (is_some s.closed_at ≡ false)
    × (expected_in_drawer logging.1 1 s +ℤ pos 40 ≡ expected_in_drawer sold 1 s)
log_cash_movement-expected_example =
    log_cash_movement-expected env keeper 11 supplies logging.0 sold logging.1 logs

abbrev requests : List (Env × Staff × ShiftRequest)
requests =
    (env, keeper, open_it 2 (pos 100))
    ∷ (env, keeper, close_it 11 (pos 790))
    ∷ (env, keeper, open_it 2 (pos 100))
    ∷ (env, keeper, close_it 11 (pos 0))
    ∷ []

sold-OneOpen : OneOpen sold
sold-OneOpen o = ground arith

serve_shifts-OneOpen_example : OneOpen (serve_all handle_shift sold requests)
serve_shifts-OneOpen_example = serve_shifts-OneOpen requests sold sold-OneOpen

abbrev shut : Shift
shut = record shift { closed_at = some 3; counted_minor = some (pos 500) }

serve_shifts-closed_example :
    shift_in 11 (serve_all handle_shift (record sold { shifts = shut ∷ [] }) requests) ≡ some shut
serve_shifts-closed_example =
    serve_shifts-closed requests (record sold { shifts = shut ∷ [] }) 11 shut refl refl

abbrev old_note : CreditNote
old_note = record {
  id = 95;
  tenant_id = 1;
  original_bill_id = 40;
  reason = [];
  approved_by_staff_id = 8;
  created_by_staff_id = 8;
  subtotal_minor = pos 200;
  tax_minor = pos 10;
  method = none;
  lines = [];
  created_at = 7;
}

-- Two notes of 210 on a bill with 300 in cash.
walk_refunds-Legacy_example :
    walk_refunds sold 0 (λ k. none) (pos 0) (old_note ∷ old_note ∷ [])
    ≡ smaller (totals sold (old_note ∷ old_note ∷ [])) (cash_of_bill sold 40)
unfolding cash_of_bill sum_tenders ◌+ℤ◌
walk_refunds-Legacy_example =
    walk_refunds-Legacy sold 0 40 (old_note ∷ old_note ∷ [])
      ((refl, refl, omega arith, refl), ((refl, refl, omega arith, refl), tt)) (omega arith)
