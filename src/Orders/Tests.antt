-- ===== src/Orders/Tests.antt =====
-- The properties of Orders at one input each.
use restiq_backend.Base.{◌≡◌, ◌≢◌, refl, false, none, some, [], ◌∷◌}
use restiq_backend.Store.Rows.{Db, Order, OrderLine, sent}
use restiq_backend.Store.Transaction.{ok, returned}
use restiq_backend.Store.Samples.{sample, order, line}
use restiq_backend.Settle.{Env}
use restiq_backend.Intents.{Staff}
use restiq_backend.Orders.{update_status, load_order, assert_owner, update_order, transfer}
use restiq_backend.Orders.Status.{transfer_locks_out}
use restiq_backend.Pricing.{
  item_available, resolve_current_price, pick_current_price, consider_all, consider,
}
use restiq_backend.Menu.{
  load_item, assert_item_available, assert_variant_belongs_to_item, assert_modifier_selection_valid,
}
use restiq_backend.Orders.Lines.{assert_order_not_closed}
use restiq_backend.Orders.Adding.{AddOrderLine, open_order_of, insert_line, add_line, first_price}
use restiq_backend.Orders.Added.{Added, add_line-Added}

abbrev env : Env
env = record { simulator_on = false; now = 9 }

abbrev owner : Staff
owner = record { id = 7; tenant_id = 1; outlet_id = 2; name = "Ann"; role = "Waiter" }

abbrev other : Staff
other = record owner { id = 9 }

abbrev sent_out : Order × Db
sent_out = returned order sample (update_status env owner 10 sent sample)

abbrev handed_over : Order × Db
handed_over = returned order sample (transfer env owner 10 8 sample)

hands_over : transfer env owner 10 8 sample ≡ ok handed_over
unfolding transfer load_order update_order
hands_over = refl

transfer_locks_out_example : update_status env other 10 sent handed_over.1 ≢ ok (order, sample)
transfer_locks_out_example =
    transfer_locks_out env env owner other 10 8 sent sample handed_over.1 sample handed_over.0 order
      hands_over (λ same. cc)

-- Two of the dish with a topping.
abbrev two_dishes : AddOrderLine
two_dishes = record {
  item_id = 30;
  variant_id = none;
  quantity = 2;
  modifier_ids = some (32 ∷ []);
  seat_number = none;
}

abbrev adding : OrderLine × Db
adding = returned line sample (add_line env owner 10 two_dishes sample)

adds : add_line env owner 10 two_dishes sample ≡ ok adding
unfolding add_line open_order_of load_order assert_owner assert_order_not_closed load_item
    assert_item_available assert_variant_belongs_to_item assert_modifier_selection_valid
    item_available first_price resolve_current_price pick_current_price consider_all consider
    insert_line
adds = refl

add_line-Added_example : Added env owner 10 two_dishes adding.0 sample adding.1
add_line-Added_example = add_line-Added env owner 10 two_dishes adding.0 sample adding.1 adds
