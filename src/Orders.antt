-- ===== src/Orders.antt =====
-- Orders and who may change them: pos/orders/orders.service.ts, with platform/token-number.ts and
-- platform/live-window.ts. An endpoint's view of an order is the order. The unique index's answer
-- to a concurrent request is not modelled.
pub mod Tokens
pub mod Status
pub mod Lines
pub mod Adding
pub mod Added
mod Tests
use restiq_backend.Base.{
  ℕ, suc, ◌+◌, ◌-◌, ◌*◌, Bool, true, false, not, ◌&&◌, ◌||◌, Option, none, some, List, [], ◌∷◌,
  ◌++◌, String, ltb, leb, ◌==◌, if◌then◌else◌, is_some, eq_option, or_else, find, select, any, all,
  count_where, update_where, length,
}
use restiq_backend.Store.Rows.{
  Db, Order, OrderStatus, opened, sent, closed, pos_order, is_closed, Bill, is_open, OrderLine,
  Outlet, DiningTable, TokenNumberCounter, AuditAction, order_discarded, ownership_transferred,
  detached_stale_table,
}
use restiq_backend.Store.Transaction.{
  Tx, ok, err, pure, gets, ◌>>=◌, ◌>>◌, throw_if, modify, failure, conflicting, missing,
  bad_request, forbidden_request, not_found, not_owner, invalid_transition, conflict,
  order_not_empty, has_payments, validation_failed,
}
use restiq_backend.Kitchen.{fire_on_send}
use restiq_backend.Settle.{Env}
use restiq_backend.Intents.{Staff}

unfoldable pub load_outlet : ℕ → ℕ → Tx (Unit {0})
load_outlet tenant_id outlet_id db =
    if any (λ o. o.id == outlet_id && o.tenant_id == tenant_id) db.outlets
    then ok (tt, db)
    else err (missing not_found)

unfoldable pub load_table_in_outlet : ℕ → ℕ → ℕ → Tx (Unit {0})
load_table_in_outlet tenant_id outlet_id table_id db =
    if any (λ t. t.id == table_id && t.tenant_id == tenant_id && t.outlet_id == outlet_id)
      db.dining_tables
    then ok (tt, db)
    else err (missing not_found)

unfoldable pub load_order : ℕ → ℕ → Tx Order
load_order tenant_id order_id db = elim (find (λ o. o.id == order_id) db.orders) [
  | none ↦ err (missing not_found)
  | some order ↦ if order.tenant_id == tenant_id then ok (order, db) else err (missing not_found)
]

-- An order that nobody owns is anybody's.
abbrev pub may_change : Order → Staff → Bool
may_change order staff = elim order.owner_id [ none ↦ true | some owner ↦ owner == staff.id ]

unfoldable pub assert_owner : Order → Staff → Tx (Unit {0})
assert_owner order staff = throw_if (not (may_change order staff)) (forbidden_request not_owner)

abbrev pub audit_as : Env → ℕ → Option ℕ → AuditAction → ℕ → Db → Db
audit_as env tenant_id actor_id action subject db = record db {
  audit_events =
      db.audit_events
      ++ record {
        tenant_id = tenant_id;
        actor_id = actor_id;
        approver_id = none;
        action = action;
        subject_id = some subject;
        occurred_at = env.now;
      }
        ∷ [];
}

abbrev pub audit : Env → Staff → AuditAction → ℕ → Db → Db
audit env staff action subject db = audit_as env staff.tenant_id (some staff.id) action subject db

-- `LIVE_WINDOW_MS`
abbrev pub live_window : ℕ
live_window = 43200000

-- `createdAt < liveSince()`
abbrev pub is_stale : Env → Order → Bool
is_stale env order = ltb (order.created_at + live_window) env.now

abbrev pub unclosed_at : ℕ → ℕ → Order → Bool
unclosed_at tenant_id table_id o =
    o.tenant_id == tenant_id && eq_option o.table_id (some table_id) && not (is_closed o.status)

abbrev pub set_order : ℕ → (Order → Order) → Db → Db
set_order order_id f db = record db { orders = update_where (λ o. o.id == order_id) f db.orders }

-- `detachStaleTableOrder`
unfoldable pub detach_stale_table_order : Env → ℕ → Option ℕ → ℕ → Db → Db
detach_stale_table_order env tenant_id actor_id table_id db =
    elim (find (λ o. unclosed_at tenant_id table_id o && is_stale env o) db.orders) [
      | none ↦ db
      | some stale ↦
          audit_as env tenant_id actor_id detached_stale_table stale.id
            (set_order stale.id (λ o. record o { table_id = none }) db)
    ]

abbrev pub new_order : Env → Staff → ℕ → Option ℕ → Option ℕ → ℕ → Order
new_order env staff outlet_id table_id token_number id = record {
  id = id;
  tenant_id = staff.tenant_id;
  outlet_id = outlet_id;
  table_id = table_id;
  owner_id = some staff.id;
  status = opened;
  source = pos_order;
  token_number = token_number;
  session_id = none;
  created_at = env.now;
}

abbrev pub insert_order : Env → Staff → ℕ → Option ℕ → Option ℕ → Tx Order
insert_order env staff outlet_id table_id token_number db =
    let order = new_order env staff outlet_id table_id token_number db.next_id in
    ok (order, record db { orders = db.orders ++ order ∷ []; next_id = suc db.next_id })

abbrev pub existing_or_new : Env → Staff → ℕ → ℕ → Option Order → Tx Order
existing_or_new env staff outlet_id table_id (some order) = pure order
existing_or_new env staff outlet_id table_id none =
    insert_order env staff outlet_id (some table_id) none

-- `openOrClaimTable`
unfoldable pub open_or_claim_table : Env → Staff → ℕ → ℕ → Tx Order
open_or_claim_table env staff outlet_id table_id = do
  load_table_in_outlet staff.tenant_id outlet_id table_id
  modify (detach_stale_table_order env staff.tenant_id (some staff.id) table_id)
  existing ← gets (λ db. find (unclosed_at staff.tenant_id table_id) db.orders)
  existing_or_new env staff outlet_id table_id existing

abbrev pub max_token : ℕ → ℕ → ℕ
max_token a b = if ltb a b then b else a

-- The highest token in use at the outlet, 0 where there is none.
unfoldable pub highest_token : ℕ → List Order → ℕ
highest_token outlet_id [] = 0
highest_token outlet_id (o ∷ os) =
    let rest = highest_token outlet_id os in
    if o.outlet_id == outlet_id then max_token (or_else o.token_number 0) rest else rest

abbrev pub set_counter : ℕ → ℕ → TokenNumberCounter → TokenNumberCounter
set_counter outlet_id n c = record c { last_number = n }

-- `reserveTokenNumber`
unfoldable pub reserve_token_number : ℕ → Tx ℕ
unfolding highest_token
reserve_token_number outlet_id db =
    let used = highest_token outlet_id db.orders in
    elim (find (λ c. c.outlet_id == outlet_id) db.token_number_counters) [
      | none ↦ ok (
        1 + used,
        record db {
          token_number_counters =
              db.token_number_counters
              ++ record { outlet_id = outlet_id; last_number = 1 + used } ∷ [];
        },
      )
      | some c ↦
          let next = max_token c.last_number used + 1 in
          ok (
            next,
            record db {
              token_number_counters =
                  update_where (λ c. c.outlet_id == outlet_id) (set_counter outlet_id next)
                    db.token_number_counters;
            },
          )
    ]

-- `createCounterOrder`
unfoldable pub create_counter_order : Env → Staff → ℕ → Tx Order
create_counter_order env staff outlet_id = do
  load_outlet staff.tenant_id outlet_id
  token_number ← reserve_token_number outlet_id
  insert_order env staff outlet_id none (some token_number)

-- `listOpenOrders`
unfoldable pub list_open_orders : Staff → ℕ → Tx (List Order)
list_open_orders staff outlet_id = do
  load_outlet staff.tenant_id outlet_id
  gets (λ db.
      select
        (λ o.
          o.tenant_id == staff.tenant_id && o.outlet_id == outlet_id && not (is_closed o.status))
        db.orders)

-- `FORWARD_TRANSITIONS`
abbrev pub forward : OrderStatus → OrderStatus → Bool
forward opened sent = true
forward _ _ = false

abbrev pub fire : Env → Order → Tx ℕ
fire env order db =
    let fired =
      fire_on_send
        (record { id = order.id; tenant_id = order.tenant_id; outlet_id = order.outlet_id }) env.now
        db in
    ok (fired.0, fired.1)

-- `tx.order.update`, which returns the row.
unfoldable pub update_order : ℕ → (Order → Order) → Tx Order
update_order order_id f db = elim (find (λ o. o.id == order_id) db.orders) [
  | none ↦ err failure
  | some o ↦ ok (f o, set_order order_id f db)
]

abbrev pub both_sent : OrderStatus → OrderStatus → Bool
both_sent sent sent = true
both_sent _ _ = false

abbrev pub is_sent : OrderStatus → Bool
is_sent sent = true
is_sent _ = false

-- Sending again fires the lines that wait on the till.
abbrev pub send_again : Env → Order → Tx Order
send_again env order = do
  count ← fire env order
  throw_if (count == 0) (conflicting invalid_transition)
  pure order

abbrev pub fire_if_sent : Env → Order → Tx (Unit {0})
fire_if_sent env order = if is_sent order.status then fire env order >>= (λ n. pure tt) else pure tt

unfoldable pub move_order : Env → Order → OrderStatus → Tx Order
move_order env order status = do
  throw_if (not (forward order.status status)) (conflicting invalid_transition)
  updated ← update_order order.id (λ o. record o { status = status })
  fire_if_sent env updated
  pure updated

-- `updateStatus`
unfoldable pub update_status : Env → Staff → ℕ → OrderStatus → Tx Order
update_status env staff order_id status = do
  order ← load_order staff.tenant_id order_id
  assert_owner order staff
  (if both_sent order.status status then send_again env order else move_order env order status)

-- Any money that has touched a bill.
unfoldable pub payments_of : Db → ℕ → ℕ
payments_of db bill_id =
    count_where (λ t. t.bill_id == bill_id) db.tenders
    + count_where (λ i. i.bill_id == bill_id) db.payment_intents
    + count_where (λ s. s.bill_id == bill_id) db.bill_shares

abbrev pub bill_for : ℕ → Db → Option Bill
bill_for order_id db = find (λ b. b.order_id == order_id) db.bills

unfoldable pub bill_started : Db → Option Bill → Bool
unfolding payments_of
bill_started db none = false
bill_started db (some bill) = not (is_open bill.status) || ltb 0 (payments_of db bill.id)

abbrev pub lines_in : ℕ → Db → List OrderLine
lines_in order_id db = select (λ l. l.order_id == order_id) db.order_lines

abbrev pub delete_bill : Option Bill → Db → Db
delete_bill none db = db
delete_bill (some bill) db = record db { bills = select (λ b. not (b.id == bill.id)) db.bills }

abbrev pub delete_or_close : ℕ → List OrderLine → Db → Db
delete_or_close order_id [] db = record db {
  orders = select (λ o. not (o.id == order_id)) db.orders;
}
delete_or_close order_id (l ∷ ls) db = set_order order_id (λ o. record o { status = closed }) db

-- `discard`
unfoldable pub discard : Env → Staff → ℕ → Tx (Unit {0})
unfolding bill_started
discard env staff order_id = do
  order ← load_order staff.tenant_id order_id
  assert_owner order staff
  throw_if (is_closed order.status) (conflicting conflict)
  lines ← gets (lines_in order_id)
  throw_if (any (λ l. not (is_some l.voided_at)) lines) (conflicting order_not_empty)
  bill ← gets (bill_for order_id)
  started ← gets (λ db. bill_started db bill)
  throw_if started (conflicting has_payments)
  modify (delete_bill bill)
  modify (delete_or_close order_id lines)
  modify (audit env staff order_discarded order_id)

-- `transfer`
unfoldable pub transfer : Env → Staff → ℕ → ℕ → Tx Order
transfer env staff order_id new_owner = do
  order ← load_order staff.tenant_id order_id
  throw_if (is_closed order.status) (conflicting conflict)
  known ← gets (λ db. any (λ s. s.id == new_owner && s.tenant_id == staff.tenant_id) db.staff_users)
  throw_if (not known) (bad_request validation_failed)
  updated ← update_order order_id (λ o. record o { owner_id = some new_owner })
  modify (audit env staff ownership_transferred order_id)
  pure updated
