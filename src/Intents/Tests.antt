-- ===== src/Intents/Tests.antt =====
-- The properties of Intents at one input each: the sample's bill and one pending card payment.
use restiq_backend.Base.{◌≡◌, refl, Bool, true, false, none, some, List, [], ◌∷◌, arith}
use restiq_backend.Base.Int.{pos, ◌+ℤ◌, ◌-ℤ◌, ◌*ℤ◌, ◌/ℤ◌}
use restiq_backend.Store.Rows.{Db, Bill, PaymentIntent, card_terminal, is_finalized}
use restiq_backend.Store.Transaction.{ok, returned}
use restiq_backend.Store.Samples.{sample, intent}
use restiq_backend.Settle.{
  Env, payments_simulator_for, tenant_in_test_mode, is_test_mode, sum_tenders,
}
use restiq_backend.Tax.{
  compute_tax, split_result, split_amounts, is_igst_profile, rate_basis_points, round_half_up,
  half_up,
}
use restiq_backend.Bills.Totals.{bill_in}
use restiq_backend.Bills.{
  create_tender_record, load_bill, bill_total, compute_total_minor, refresh_open_bill_totals,
  compute_bill_totals, compute_tax_on, load_tenant_tax_profile, update_bill, compute_subtotal,
  subtotal_from, to_stored_tax_breakdown, read_stored_tax_breakdown,
}
use restiq_backend.Devices.{linked_peripheral}
use restiq_backend.Intents.Create.{Queued, create_intent_within}
use restiq_backend.Intents.{
  confirm_intent, confirm_checked, record_capture, read_intent, read_bill, update_intents, Staff,
  CreateIntent, create_intent, queue_intent, refuse_active, insert_intent, outlet_terminals,
}
use restiq_backend.Intents.Lifecycle.{is_terminal, Moves}
use restiq_backend.Intents.Serving.{
  Request, confirm_one, cancel_one, list_pending, serve, serve-Moves, serve-terminal,
}
use restiq_backend.Intents.Confirm.{intent_in, Pays, confirm_intent-Pays, confirm_intent_twice}

abbrev env : Env
env = record { simulator_on = false; now = 9 }

abbrev waiting : Db
waiting = record sample { payment_intents = intent ∷ [] }

abbrev confirmed : PaymentIntent × Db
confirmed = returned intent sample (confirm_intent env 1 60 waiting)

abbrev again : PaymentIntent × Db
again = returned intent sample (confirm_intent env 1 60 confirmed.1)

confirms : confirm_intent env 1 60 waiting ≡ ok confirmed
unfolding confirm_intent confirm_checked record_capture read_intent read_bill update_intents
    payments_simulator_for tenant_in_test_mode is_test_mode create_tender_record
confirms = refl

confirms_again : confirm_intent env 1 60 confirmed.1 ≡ ok again
unfolding confirm_intent confirm_checked record_capture read_intent read_bill update_intents
    payments_simulator_for tenant_in_test_mode is_test_mode create_tender_record
confirms_again = refl

confirm_intent-Pays_example : Pays 60 waiting confirmed.1
confirm_intent-Pays_example = confirm_intent-Pays env 1 60 confirmed.0 waiting confirmed.1 confirms

confirm_intent_twice_example : again.1 ≡ confirmed.1
confirm_intent_twice_example =
    confirm_intent_twice env env 1 1 60 confirmed.0 again.0 waiting confirmed.1 again.1 confirms
      confirms_again

abbrev cashier : Staff
cashier = record { id = 7; tenant_id = 1; outlet_id = 2; name = "Ann"; role = "Cashier" }

abbrev asked : CreateIntent
asked = record { rail = card_terminal; amount_minor = pos 300; client_key = "k"; device_id = none }

abbrev made : (PaymentIntent × Bool) × Db
made = returned (intent, false) sample (create_intent env cashier 40 asked sample)

makes : create_intent env cashier 40 asked sample ≡ ok ((made.0.0, true), made.1)
unfolding create_intent queue_intent refuse_active insert_intent outlet_terminals linked_peripheral
    payments_simulator_for tenant_in_test_mode is_test_mode load_bill bill_total compute_total_minor
    sum_tenders refresh_open_bill_totals compute_bill_totals compute_tax_on load_tenant_tax_profile
    update_bill compute_subtotal subtotal_from to_stored_tax_breakdown read_stored_tax_breakdown
    compute_tax split_result split_amounts is_igst_profile rate_basis_points round_half_up half_up
    ◌+ℤ◌ ◌-ℤ◌ ◌*ℤ◌ ◌/ℤ◌
makes = refl

create_intent_within_example :
    (row loaded : Bill) × (db1 : Db) × (refresh_open_bill_totals loaded sample ≡ ok (row, db1))
    × (bill_in 40 sample ≡ some loaded)
    × (loaded.tenant_id ≡ cashier.tenant_id)
    × (is_finalized row.status ≡ false)
    × Queued 40 row asked made.0.0 db1 made.1
create_intent_within_example =
    create_intent_within env cashier 40 asked made.0.0 sample made.1 (omega arith) makes

-- The card terminal captures the payment, the till tries to cancel it, and the outlet's list is
-- swept when it would have expired.
abbrev requests : List (Env × Staff × Request)
requests =
    (env, cashier, confirm_one 60)
    ∷ (env, cashier, cancel_one 60)
    ∷ (record { simulator_on = false; now = 5000 }, cashier, list_pending 2 none)
    ∷ []

serve-Moves_example : Moves waiting (serve waiting requests)
serve-Moves_example = serve-Moves requests waiting

captured_row : intent_in 60 confirmed.1 ≡ some confirmed.0
unfolding confirm_intent confirm_checked record_capture read_intent read_bill update_intents
    payments_simulator_for tenant_in_test_mode is_test_mode create_tender_record
captured_row = refl

captured_over : is_terminal confirmed.0.status ≡ true
unfolding confirm_intent confirm_checked record_capture read_intent read_bill update_intents
    payments_simulator_for tenant_in_test_mode is_test_mode create_tender_record
captured_over = refl

serve-terminal_example :
    (i' : PaymentIntent) × (intent_in 60 (serve confirmed.1 requests) ≡ some i')
    × (i'.status ≡ confirmed.0.status)
    × (i'.amount_minor ≡ confirmed.0.amount_minor)
serve-terminal_example =
    serve-terminal requests confirmed.1 60 confirmed.0 captured_row captured_over
