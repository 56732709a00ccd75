-- ===== src/Guests/Placing.antt =====
-- Placing the cart as an order, and following it: guest/orders/orders.service.ts. What a view of a
-- placed line shows is left out.
use restiq_backend.Base.{
  ℕ, suc, ◌+◌, ◌*◌, ◌/◌, Bool, true, false, not, ◌&&◌, Option, none, some, List, [], ◌∷◌, ◌++◌, map,
  ltb, ◌==◌, if◌then◌else◌, is_some, or_else, eq_option, find, select, any, all,
}
use restiq_backend.Base.Int.{ℤ}
use restiq_backend.Pricing.{PriceCandidate, qr, resolve_current_price}
use restiq_backend.Store.Rows.{
  Db, Order, sent, opened, qr_order, kiosk_order, OrderLine, CartLine, TableSession, Guest, Ticket,
  is_bumped,
}
use restiq_backend.Store.Transaction.{
  Tx, ok, err, pure, gets, or_throw, ◌>>=◌, ◌>>◌, throw_if, modify, missing, not_found, bad_request,
  empty_cart, no_price, conflicting, table_has_active_order,
}
use restiq_backend.Kitchen.{fire_on_send}
use restiq_backend.Settle.{Env}
use restiq_backend.Orders.{reserve_token_number, detach_stale_table_order, unclosed_at, set_order}
use restiq_backend.Menu.{
  modifier_price, modifier_prices_of, ComboSelection, ResolvedComboChild, resolve_combo_selection,
}
use restiq_backend.Shares.{GuestPrincipal}
use restiq_backend.Guests.Sessions.{load_active_session, later}

-- The lines of a cart that are placed by themselves.
abbrev pub own_lines : GuestPrincipal → ℕ → Db → List CartLine
own_lines guest session_id db =
    select
      (λ l.
        l.tenant_id == guest.tenant_id
        && l.session_id == session_id
        && not (is_some l.parent_line_id))
      db.cart_lines

-- `seatByGuest`: the guests of the session from 1, in the order in which they joined.
unfoldable pub seat_of : ℕ → ℕ → List Guest → Option ℕ
seat_of n guest_id [] = none
seat_of n guest_id (g ∷ gs) =
    let rest = seat_of (n + 1) guest_id gs in if g.id == guest_id then some (n + 1) else rest

abbrev pub seat_by_guest : GuestPrincipal → ℕ → Db → ℕ → Option ℕ
seat_by_guest guest session_id db guest_id =
    seat_of 0 guest_id
      (select (λ g. g.tenant_id == guest.tenant_id && g.session_id == session_id) db.guests)

-- A kiosk's order has a token in place of a table.
abbrev pub token_for : GuestPrincipal → Option ℕ → Tx (Option ℕ)
token_for guest (some table_id) = pure none
token_for guest none = reserve_token_number guest.outlet_id >>= λ n. pure (some n)

-- One live order at a table, leftovers set aside.
abbrev pub claim_table : Env → GuestPrincipal → Option ℕ → Tx (Unit {0})
claim_table env guest none = pure tt
claim_table env guest (some table_id) = do
  modify (detach_stale_table_order env guest.tenant_id none table_id)
  live ← gets (λ db. any (unclosed_at guest.tenant_id table_id) db.orders)
  throw_if live (conflicting table_has_active_order)

abbrev pub guest_order : Env → GuestPrincipal → TableSession → Option ℕ → ℕ → Order
guest_order env guest session token_number id = record {
  id = id;
  tenant_id = guest.tenant_id;
  outlet_id = guest.outlet_id;
  table_id = session.table_id;
  owner_id = none;
  status = opened;
  source = if is_some session.table_id then qr_order else kiosk_order;
  token_number = token_number;
  session_id = some session.id;
  created_at = env.now;
}

unfoldable pub insert_guest_order : Env → GuestPrincipal → TableSession → Option ℕ → Tx Order
insert_guest_order env guest session token_number db =
    let order = guest_order env guest session token_number db.next_id in
    ok (order, record db { orders = db.orders ++ order ∷ []; next_id = suc db.next_id })

unfoldable pub insert_order_line : (ℕ → OrderLine) → Tx ℕ
insert_order_line line db = ok (
  db.next_id,
  record db { order_lines = db.order_lines ++ line db.next_id ∷ []; next_id = suc db.next_id },
)

-- A line of the order, as `tx.orderLine.create` fills it in.
abbrev pub order_line : ℕ → ℕ → Option ℕ → CartLine → ℕ → ℤ → ℕ → OrderLine
order_line tenant_id order_id seat line quantity price id = record {
  id = id;
  tenant_id = tenant_id;
  order_id = order_id;
  item_id = none;
  variant_id = none;
  combo_id = none;
  parent_line_id = none;
  quantity = quantity;
  unit_price_minor = price;
  modifier_prices = [];
  seat_number = seat;
  guest_id = some line.guest_id;
  guest_name = some line.guest_name;
  voided_at = none;
}

unfoldable pub place_children :
    ℕ → ℕ → Option ℕ → CartLine → ℕ → List ResolvedComboChild → Tx (Unit {0})
unfolding modifier_price
place_children tenant_id order_id seat line parent [] = pure tt
place_children tenant_id order_id seat line parent (c ∷ cs) = do
  prices ← gets (λ db. modifier_prices_of db c.modifier_ids)
  id ← insert_order_line (λ id.
      record (order_line tenant_id order_id seat line (c.quantity * line.quantity) c.upcharge_minor
        id) {
          item_id = some c.item_id;
          variant_id = c.variant_id;
          parent_line_id = some parent;
          modifier_prices = prices;
        })
  place_children tenant_id order_id seat line parent cs

-- What was picked for a combo in the cart, per combo. The cart stores a pick as so many for each
-- combo, times the combos, so that the source's division leaves no remainder.
abbrev pub cart_selections : CartLine → Db → List ComboSelection
cart_selections line db =
    map
      (λ (c : CartLine). record {
        option_id = or_else c.combo_option_id 0;
        quantity = some (c.quantity / line.quantity);
        modifier_ids = some c.modifier_ids;
      })
      (select (λ c. eq_option c.parent_line_id (some line.id)) db.cart_lines)

-- A combo, checked again against its slots of today.
unfoldable pub place_combo : GuestPrincipal → ℕ → Option ℕ → CartLine → ℕ → Tx (Unit {0})
place_combo guest order_id seat line combo_id = do
  selections ← gets (cart_selections line)
  resolved ← resolve_combo_selection guest.tenant_id guest.outlet_id combo_id selections
  parent ← insert_order_line (λ id.
      record (order_line guest.tenant_id order_id seat line line.quantity resolved.0.price_minor
        id) { combo_id = some resolved.0.id })
  place_children guest.tenant_id order_id seat line parent resolved.1

-- The price of today, on the channel of the cart.
abbrev pub price_now : Env → GuestPrincipal → CartLine → Db → Option PriceCandidate
price_now env guest line db =
    resolve_current_price db.item_prices
      (record {
        tenant_id = guest.tenant_id;
        item_id = or_else line.item_id 0;
        variant_id = line.variant_id;
        channel = qr;
        outlet_id = some guest.outlet_id;
        as_of = none;
      })
      env.now

unfoldable pub place_item : Env → GuestPrincipal → ℕ → Option ℕ → CartLine → Tx (Unit {0})
unfolding modifier_price
place_item env guest order_id seat line = do
  found ← gets (price_now env guest line)
  price ← or_throw found (bad_request no_price)
  prices ← gets (λ db. modifier_prices_of db line.modifier_ids)
  id ← insert_order_line (λ id.
      record (order_line guest.tenant_id order_id seat line line.quantity price.price_minor id) {
        item_id = line.item_id;
        variant_id = line.variant_id;
        modifier_prices = prices;
      })
  pure tt

abbrev pub place_line : Env → GuestPrincipal → ℕ → Option ℕ → CartLine → Option ℕ → Tx (Unit {0})
place_line env guest order_id seat line none = place_item env guest order_id seat line
place_line env guest order_id seat line (some combo_id) =
    place_combo guest order_id seat line combo_id

unfoldable pub place_lines :
    Env → GuestPrincipal → ℕ → (ℕ → Option ℕ) → List CartLine → Tx (Unit {0})
place_lines env guest order_id seats [] = pure tt
place_lines env guest order_id seats (line ∷ lines) = do
  place_line env guest order_id (seats line.guest_id) line line.combo_id
  place_lines env guest order_id seats lines

-- The order goes to the kitchen, as a staff order does.
abbrev pub send_order : Env → Order → Db → Db
send_order env order db =
    (fire_on_send
      (record { id = order.id; tenant_id = order.tenant_id; outlet_id = order.outlet_id }) env.now
      (set_order order.id (λ o. record o { status = sent }) db)).1

abbrev pub in_cart : ℕ → ℕ → CartLine → Bool
in_cart tenant_id session_id l = l.tenant_id == tenant_id && l.session_id == session_id

abbrev pub empty_the_cart : ℕ → ℕ → Db → Db
empty_the_cart tenant_id session_id db = record db {
  cart_lines = select (λ l. not (in_cart tenant_id session_id l)) db.cart_lines;
}

abbrev pub is_empty : List CartLine → Bool
is_empty [] = true
is_empty (l ∷ ls) = false

-- `placeOrder`: the order that it has placed.
unfoldable pub place_order : Env → GuestPrincipal → Tx Order
unfolding seat_of
place_order env guest = do
  session ← load_active_session env guest
  lines ← gets (own_lines guest session.id)
  throw_if (is_empty lines) (bad_request empty_cart)
  seats ← gets (seat_by_guest guest session.id)
  token_number ← token_for guest session.table_id
  claim_table env guest session.table_id
  order ← insert_guest_order env guest session token_number
  place_lines env guest order.id seats lines
  modify (send_order env order)
  modify (empty_the_cart guest.tenant_id session.id)
  pure (record order { status = sent })

unfoldable pub load_order_in_session : GuestPrincipal → ℕ → ℕ → Tx Order
load_order_in_session guest session_id order_id db = elim (find (λ o. o.id == order_id) db.orders) [
  | none ↦ err (missing not_found)
  | some o ↦
      if o.tenant_id == guest.tenant_id && eq_option o.session_id (some session_id)
      then ok (o, db)
      else err (missing not_found)
]

pub data GuestOrderStep : Type 0 where
  placed preparing ready : GuestOrderStep

-- The furthest step reached, with the times at which the kitchen accepted the order and had all of
-- it ready.
pub record OrderStatusView : Type 0 where
  pub order_id : ℕ
  pub step : GuestOrderStep
  pub placed_at : ℕ
  pub accepted_at : Option ℕ
  pub ready_at : Option ℕ

-- `Math.min` over the tickets.
unfoldable pub first_fired : List Ticket → Option ℕ
first_fired [] = none
first_fired (t ∷ ts) = elim (first_fired ts) [
  | none ↦ some t.fired_at
  | some n ↦ some (if ltb t.fired_at n then t.fired_at else n)
]

-- `Math.max` over the tickets. A bumped ticket has its time.
unfoldable pub last_bumped : List Ticket → ℕ
last_bumped [] = 0
last_bumped (t ∷ ts) = later (or_else t.bumped_at 0) (last_bumped ts)

abbrev pub all_bumped : List Ticket → Bool
all_bumped [] = false
all_bumped (t ∷ ts) = all (λ x. is_bumped x.status) (t ∷ ts)

abbrev pub step_of : List Ticket → GuestOrderStep
step_of [] = placed
step_of (t ∷ ts) = if all_bumped (t ∷ ts) then ready else preparing

-- `buildOrderStatusView`
unfoldable pub build_order_status_view : Order → List Ticket → OrderStatusView
unfolding first_fired last_bumped
build_order_status_view order tickets = record {
  order_id = order.id;
  step = step_of tickets;
  placed_at = order.created_at;
  accepted_at = first_fired tickets;
  ready_at = if all_bumped tickets then some (last_bumped tickets) else none;
}

abbrev pub tickets_of : GuestPrincipal → ℕ → Db → List Ticket
tickets_of guest order_id db =
    select (λ t. t.tenant_id == guest.tenant_id && t.order_id == order_id) db.tickets

-- `getOrderStatus`
unfoldable pub get_order_status : Env → GuestPrincipal → ℕ → Tx OrderStatusView
unfolding build_order_status_view
get_order_status env guest order_id = do
  session ← load_active_session env guest
  order ← load_order_in_session guest session.id order_id
  gets (λ db. build_order_status_view order (tickets_of guest order.id db))

-- `listSessionOrders`
unfoldable pub list_session_orders : Env → GuestPrincipal → Tx (List OrderStatusView)
unfolding build_order_status_view
list_session_orders env guest = do
  session ← load_active_session env guest
  gets (λ db.
      map (λ (o : Order). build_order_status_view o (tickets_of guest o.id db))
        (select (λ o. o.tenant_id == guest.tenant_id && eq_option o.session_id (some session.id))
          db.orders))
