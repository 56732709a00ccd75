-- ===== src/Kitchen.antt =====
-- Kitchen tickets, kitchen/tickets.service.ts: firing an order's lines, and the actions on a ticket.
-- The station board's views are not modelled. `now` is the time of the transaction.
pub mod Grouping
pub mod Firing
pub mod Tickets
mod Tests
use restiq_backend.Base.{
  ℕ, zero, suc, ◌+◌, ◌-◌, ◌*◌, Bool, true, false, not, ◌&&◌, ◌||◌, Option, none, some, List, [],
  ◌∷◌, ◌++◌, ltb, ◌==◌, eq_option, if◌then◌else◌, is_some, find, select, any, leb, length,
  update_where,
}
use text.Mathlib.Text.{◌==◌ as str_eq}
use restiq_backend.Store.Rows.{
  Db, Order, OrderLine, Item, Station, Ticket, TicketLine, TicketEvent, queued, bumped,
  bumped_event, recalled_event, refired_event, add_on_fired, is_queued, is_bumped,
}
use restiq_backend.Store.Transaction.{
  Tx, Result, ok, err, pure, throw, gets, or_throw, ◌>>=◌, ◌>>◌, throw_if, modify, missing,
  conflicting, not_found, conflict,
}

-- The station that a new line goes to when its item names none: the outlet's oldest.
unfoldable pub resolve_default_station_id : Db → ℕ → ℕ → Option ℕ
resolve_default_station_id db tenant_id outlet_id =
    elim (find
      (λ s. s.tenant_id == tenant_id && s.outlet_id == outlet_id && not (is_some s.deleted_at))
      db.stations) [ none ↦ none | some s ↦ some s.id ]

-- The station of the outlet with the same name, or the default.
unfoldable pub same_name_station : Db → ℕ → Station → Option ℕ → Option ℕ
same_name_station db outlet_id station default_station_id =
    elim (find
      (λ s.
        s.tenant_id == station.tenant_id
        && s.outlet_id == outlet_id
        && str_eq s.name station.name
        && not (is_some s.deleted_at))
      db.stations) [ none ↦ default_station_id | some s ↦ some s.id ]

unfoldable pub route_station_id : Db → ℕ → Option ℕ → Option ℕ → Option ℕ
unfolding same_name_station
route_station_id db outlet_id none default_station_id = default_station_id
route_station_id db outlet_id (some item_station_id) default_station_id =
    elim (find (λ s. s.id == item_station_id) db.stations) [
      | none ↦ default_station_id
      | some station ↦
          if station.outlet_id == outlet_id && not (is_some station.deleted_at)
          then some station.id
          else same_name_station db outlet_id station default_station_id
    ]

-- The columns of an order that the hook takes.
pub record OrderRef : Type 0 where
  pub id : ℕ
  pub tenant_id : ℕ
  pub outlet_id : ℕ

-- The line has a ticket line.
abbrev pub is_ticketed : List TicketLine → ℕ → Bool
is_ticketed ts line_id = any (λ t. t.order_line_id == line_id) ts

-- A line of the order that is not voided, is not a combo's parent, and has no ticket yet.
abbrev pub is_pending : Db → ℕ → OrderLine → Bool
is_pending db order_id l =
    l.order_id == order_id
    && not (is_some l.voided_at)
    && not (is_ticketed db.ticket_lines l.id)
    && is_some l.item_id

unfoldable pub pending_lines : Db → ℕ → List OrderLine
pending_lines db order_id = select (is_pending db order_id) db.order_lines

abbrev pub item_station : Db → Option ℕ → Option ℕ
item_station db none = none
item_station db (some item_id) = elim (find (λ i. i.id == item_id) db.items) [
  | none ↦ none
  | some i ↦ i.station_id
]

unfoldable pub station_of : Db → OrderRef → OrderLine → Option ℕ
unfolding route_station_id resolve_default_station_id
station_of db order l =
    route_station_id db order.outlet_id (item_station db l.item_id)
      (resolve_default_station_id db order.tenant_id order.outlet_id)

abbrev pub Group : Type 0
Group = Option ℕ × List OrderLine

-- `groups.get(stationId)` and `groups.set`: the groups stay in the order of their first line.
unfoldable pub add_to_group : Option ℕ → OrderLine → List Group → List Group
add_to_group station_id line [] = (station_id, line ∷ []) ∷ []
add_to_group station_id line ((s, ls) ∷ groups) =
    if eq_option s station_id
    then (s, ls ++ line ∷ []) ∷ groups
    else (s, ls) ∷ add_to_group station_id line groups

unfoldable pub group_lines : (OrderLine → Option ℕ) → List OrderLine → List Group → List Group
unfolding add_to_group
group_lines station [] groups = groups
group_lines station (l ∷ ls) groups = group_lines station ls (add_to_group (station l) l groups)

-- The one that was fired last.
unfoldable pub newer : Ticket → Option Ticket → Ticket
newer t none = t
newer t (some best) = if leb best.fired_at t.fired_at then t else best

-- The order's latest ticket at the station, by the time of firing; of those fired at once, the one
-- stored last.
unfoldable pub latest_ticket : ℕ → Option ℕ → List Ticket → Option Ticket → Option Ticket
unfolding newer
latest_ticket order_id station_id [] best = best
latest_ticket order_id station_id (t ∷ ts) best = latest_ticket order_id station_id ts (
    if t.order_id == order_id && eq_option t.station_id station_id
    then some (newer t best)
    else best)

unfoldable pub max_batch : ℕ → List TicketLine → ℕ → ℕ
max_batch ticket_id [] m = m
max_batch ticket_id (l ∷ ls) m =
    max_batch ticket_id ls
      (if l.ticket_id == ticket_id && ltb m l.add_on_batch then l.add_on_batch else m)

-- The rows that a group's lines become.
unfoldable pub ticket_lines_of : ℕ → ℕ → List OrderLine → List TicketLine
ticket_lines_of ticket_id add_on_batch [] = []
ticket_lines_of ticket_id add_on_batch (l ∷ ls) =
    record {
      ticket_id = ticket_id;
      order_line_id = l.id;
      quantity = l.quantity;
      add_on_batch = add_on_batch;
      voided = false;
    }
    ∷ ticket_lines_of ticket_id add_on_batch ls

-- An add-on batch on the ticket that is still queued.
unfoldable pub fire_add_on : Ticket → ℕ → List OrderLine → Db → Db
unfolding max_batch ticket_lines_of
fire_add_on existing now lines db = record db {
  ticket_lines =
      db.ticket_lines
      ++ ticket_lines_of existing.id (max_batch existing.id db.ticket_lines 0 + 1) lines;
  ticket_events =
      db.ticket_events
      ++ record { ticket_id = existing.id; kind = add_on_fired; occurred_at = now } ∷ [];
}

-- A new ticket with batch 0.
unfoldable pub fire_new : OrderRef → Option ℕ → ℕ → List OrderLine → Db → Db
unfolding ticket_lines_of
fire_new order station_id now lines db = record db {
  tickets =
      db.tickets
      ++ record {
        id = db.next_id;
        tenant_id = order.tenant_id;
        outlet_id = order.outlet_id;
        order_id = order.id;
        station_id = station_id;
        status = queued;
        recall_count = 0;
        fired_at = now;
        bumped_at = none;
        recalled_at = none;
      }
        ∷ [];
  ticket_lines = db.ticket_lines ++ ticket_lines_of db.next_id 0 lines;
  next_id = suc db.next_id;
}

unfoldable pub fire_group : OrderRef → ℕ → Group → Db → Db
unfolding latest_ticket fire_add_on fire_new
fire_group order now (station_id, lines) db =
    elim (latest_ticket order.id station_id db.tickets none) [
      | none ↦ fire_new order station_id now lines db
      | some existing ↦
          if is_queued existing.status
          then fire_add_on existing now lines db
          else fire_new order station_id now lines db
    ]

unfoldable pub fire_groups : OrderRef → ℕ → List Group → Db → Db
unfolding fire_group
fire_groups order now [] db = db
fire_groups order now (g ∷ gs) db = fire_groups order now gs (fire_group order now g db)

-- `fireOnSend`, the number of lines fired and the database after. With no line there is no group.
unfoldable pub fire_on_send : OrderRef → ℕ → Db → ℕ × Db
unfolding pending_lines group_lines fire_groups station_of
fire_on_send order now db =
    let lines = pending_lines db order.id in
    (length lines, fire_groups order now (group_lines (station_of db order) lines []) db)

abbrev pub bumped_window : ℕ
bumped_window = 12 * 60 * 60 * 1000

unfoldable pub load_ticket : ℕ → ℕ → Tx Ticket
load_ticket tenant_id ticket_id db = elim (find (λ t. t.id == ticket_id) db.tickets) [
  | none ↦ err (missing not_found)
  | some t ↦ if t.tenant_id == tenant_id then ok (t, db) else err (missing not_found)
]

abbrev pub write_ticket : ℕ → (Ticket → Ticket) → TicketEvent → Db → Db
write_ticket ticket_id f event db = record db {
  tickets = update_where (λ t. t.id == ticket_id) f db.tickets;
  ticket_events = db.ticket_events ++ event ∷ [];
}

unfoldable pub bump : ℕ → ℕ → ℕ → Tx (Unit {0})
unfolding load_ticket
bump tenant_id ticket_id now = do
  ticket ← load_ticket tenant_id ticket_id
  throw_if (is_bumped ticket.status) (conflicting conflict)
  modify (
      write_ticket ticket_id (λ t. record t { status = bumped; bumped_at = some now })
        (record { ticket_id = ticket_id; kind = bumped_event; occurred_at = now }))

-- A ticket that was bumped more than twelve hours ago.
abbrev pub too_old : Option ℕ → ℕ → Bool
too_old none now = false
too_old (some bumped_at) now = ltb bumped_window (now - bumped_at)

unfoldable pub recall : ℕ → ℕ → ℕ → Tx (Unit {0})
unfolding load_ticket
recall tenant_id ticket_id now = do
  ticket ← load_ticket tenant_id ticket_id
  throw_if (not (is_bumped ticket.status)) (conflicting conflict)
  throw_if (too_old ticket.bumped_at now) (conflicting conflict)
  modify (
      write_ticket ticket_id
        (λ t. record t {
          status = queued;
          recall_count = t.recall_count + 1;
          recalled_at = some now;
        })
        (record { ticket_id = ticket_id; kind = recalled_event; occurred_at = now }))

unfoldable pub refire : ℕ → ℕ → ℕ → Tx (Unit {0})
unfolding load_ticket
refire tenant_id ticket_id now = do
  ticket ← load_ticket tenant_id ticket_id
  modify (
      write_ticket ticket_id (λ t. record t { status = queued; bumped_at = none })
        (record { ticket_id = ticket_id; kind = refired_event; occurred_at = now }))
