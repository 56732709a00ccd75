-- ===== src/Guests/Tests.antt =====
-- The properties of Guests at one input each: a guest starts a session at the sample's table,
-- another joins it, and an order is placed.
use restiq_backend.Base.{find, ◌==◌, ◌≡◌, refl, none, some, List, [], ◌∷◌, arith, false}
use restiq_backend.Store.Rows.{Db, Order, CartLine, TableSession, open_session, Ticket, bumped}
use restiq_backend.Store.Transaction.{ok, returned, serve_all}
use restiq_backend.Store.Samples.{sample, order, ticket}
use restiq_backend.Settle.{Env}
use restiq_backend.Manager.{consume, count_attempt, counted, refund_attempts}
use restiq_backend.Orders.{detach_stale_table_order}
use restiq_backend.Shares.{GuestPrincipal}
use restiq_backend.Kitchen.{fire_on_send}
use restiq_backend.Pricing.{resolve_current_price, pick_current_price, consider_all, consider}
use restiq_backend.Guests.Sessions.{
  StartSession, JoinSession, start_session, resolve_outlet_and_table, assert_qr_ordering_enabled,
  insert_guest, join_session, joinable_session, load_active_session,
}
use restiq_backend.Guests.Cart.{
  load_cart_line, assert_owned_by_guest, assert_not_combo_pick, UpdateCartLine, set_quantity,
  update_cart_line,
}
use restiq_backend.Guests.Scaling.{update_cart_line-selections}
use restiq_backend.Guests.Tables.{OneSession}
use restiq_backend.Guests.Joining.{Admitted, join_session-Admitted}
use restiq_backend.Guests.Serving.{
  SessionRequest, start_one, join_one, close_one, handle_session, serve_sessions-OneSession,
}
use restiq_backend.Guests.Placing.{
  cart_selections, place_order, insert_guest_order, place_lines, place_item, insert_order_line,
  build_order_status_view,
}
use restiq_backend.Guests.Placed.{
  PlacedFor, place_order-PlacedFor, Honest, build_order_status_view-Honest,
}

abbrev env : Env
env = record { simulator_on = false; now = 2000000 }

-- An open session that nobody has touched for half an hour.
abbrev left_over : TableSession
left_over = record {
  id = 60;
  tenant_id = 1;
  outlet_id = 2;
  table_id = some 5;
  status = open_session;
  session_pin = "0007";
  created_at = 1;
  expires_at = 9000000;
  closed_at = none;
}

abbrev before : Db
before = record sample { table_sessions = left_over ∷ [] }

before-OneSession : OneSession before
before-OneSession t k = ground arith

abbrev asked : StartSession
asked = record { outlet_id = 2; table_id = 5; name = "Ann" }

abbrev nobody : GuestPrincipal
nobody = record { id = 0; session_id = 0; tenant_id = 0; outlet_id = 0; table_id = none; name = "" }

abbrev started : GuestPrincipal × Db
started = returned nobody sample (start_session env "1234" asked before)

abbrev joining : JoinSession
joining = record { outlet_id = 2; table_id = 5; name = "Ben"; pin = "0007" }

abbrev early : Env
early = record { simulator_on = false; now = 1000 }

abbrev joined : GuestPrincipal × Db
joined = returned nobody sample (join_session early joining 77 before []).0

joins : (join_session early joining 77 before []).0 ≡ ok joined
unfolding join_session joinable_session resolve_outlet_and_table assert_qr_ordering_enabled
    insert_guest consume count_attempt counted refund_attempts
joins = refl

join_session-Admitted_example : Admitted early joining 77 joined.0 before joined.1 []
join_session-Admitted_example =
    join_session-Admitted early joining 77 joined.0 before joined.1 [] joins

abbrev requests : List (Env × SessionRequest)
requests =
    (env, start_one "1234" asked)
    ∷ (env, start_one "9999" asked)
    ∷ (env, join_one joining 77 [])
    ∷ (env, close_one 1 2 5)
    ∷ []

serve_sessions-OneSession_example : OneSession (serve_all handle_session before requests)
serve_sessions-OneSession_example = serve_sessions-OneSession requests before before-OneSession

-- The cart of the second guest: one dish.
abbrev in_the_cart : CartLine
in_the_cart = record {
  id = 61;
  tenant_id = 1;
  session_id = 60;
  guest_id = 62;
  guest_name = "Ben";
  item_id = some 30;
  variant_id = none;
  combo_id = none;
  parent_line_id = none;
  combo_option_id = none;
  quantity = 2;
  modifier_ids = [];
  created_at = 900;
}

abbrev filled : Db
filled = record before { cart_lines = in_the_cart ∷ [] }

abbrev ben : GuestPrincipal
ben = record {
  id = 62;
  session_id = 60;
  tenant_id = 1;
  outlet_id = 2;
  table_id = some 5;
  name = "Ben";
}

abbrev placing : Order × Db
placing = returned order sample (place_order early ben filled)

places : place_order early ben filled ≡ ok placing
unfolding place_order load_active_session insert_guest_order place_lines place_item
    insert_order_line resolve_current_price pick_current_price consider_all consider fire_on_send
    detach_stale_table_order
places = refl

place_order-PlacedFor_example : PlacedFor early ben placing.0 filled placing.1
place_order-PlacedFor_example = place_order-PlacedFor early ben placing.0 filled placing.1 places

abbrev done : Ticket
done = record ticket { status = bumped; bumped_at = some 40 }

build_order_status_view-Honest_example :
    Honest (ticket ∷ done ∷ []) (build_order_status_view order (ticket ∷ done ∷ []))
build_order_status_view-Honest_example = build_order_status_view-Honest order (ticket ∷ done ∷ [])

-- One combo of the second guest, with two of a dish picked for it.
abbrev combo_line : CartLine
combo_line = record in_the_cart { id = 63; item_id = none; combo_id = some 35; quantity = 1 }

abbrev pick_line : CartLine
pick_line = record in_the_cart { id = 64; parent_line_id = some 63; combo_option_id = some 37 }

abbrev with_combo : Db
with_combo = record before { cart_lines = combo_line ∷ pick_line ∷ [] }

abbrev three : UpdateCartLine
three = record { quantity = some 3; modifier_ids = none }

abbrev with_three : Db
with_three = (returned tt with_combo (update_cart_line early ben 63 three with_combo)).1

resizes : update_cart_line early ben 63 three with_combo ≡ ok (tt, with_three)
unfolding update_cart_line load_active_session load_cart_line assert_owned_by_guest
    assert_not_combo_pick set_quantity
resizes = refl

update_cart_line-selections_example :
    (combo_line.guest_id ≡ ben.id)
    × (row : CartLine) × (find (λ (l : CartLine). l.id == 63) with_three.cart_lines ≡ some row)
    × (row ≡ record combo_line { quantity = 3 })
    × (cart_selections row with_three ≡ cart_selections combo_line with_combo)
update_cart_line-selections_example =
    update_cart_line-selections early ben 63 3 three combo_line tt with_combo with_three refl refl
      refl (ground arith) (refl, tt) resizes
