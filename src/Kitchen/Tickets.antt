-- ===== src/Kitchen/Tickets.antt =====
-- Routing to a station, and the actions on a ticket, of kitchen/tickets.service.ts.
use restiq_backend.Base.{
  ℕ, ◌+◌, ◌≤◌, ◌≡◌, refl, ap, subst, Bool, true, not, ◌&&◌, Option, none, some, ◌==◌, ==_iff,
  is_some, In, find, find-In, find-passes, find-update_where, update_where, Option-cases,
  Bool-cases, inl, inr, arith,
}
use restiq_backend.Store.Rows.{
  Db, OrderLine, Station, Ticket, queued, bumped, bumped_event, recalled_event,
}
use restiq_backend.Store.Transaction.{ok, err, conflicting, conflict}
use restiq_backend.Kitchen.{
  OrderRef, resolve_default_station_id, same_name_station, route_station_id, station_of,
  item_station, load_ticket, bump, recall, bumped_window, write_ticket,
}

-- A station of the outlet that is not deleted has this id.
abbrev pub IsLiveStation : Db → ℕ → ℕ → Type 0
IsLiveStation db outlet_id id =
    (s : Station) × In s db.stations
    × (s.id ≡ id)
    × (s.outlet_id ≡ outlet_id)
    × (s.deleted_at ≡ none)

-- Where a station is given, it is a live one of the outlet.
abbrev LiveIfAny : Db → ℕ → Option ℕ → Type 0
LiveIfAny db outlet_id none = Unit
LiveIfAny db outlet_id (some id) = IsLiveStation db outlet_id id

live_if_found :
    (db : Db) (outlet_id : ℕ) (p : Station → Bool) (d : Option ℕ)
    → LiveIfAny db outlet_id d
    → ((s : Station) → p s ≡ true → (s.outlet_id ≡ outlet_id) × (s.deleted_at ≡ none))
    → LiveIfAny db outlet_id (elim (find p db.stations) [ none ↦ d | some s ↦ some s.id ])
live_if_found db outlet_id p d h good = elim (Option-cases (find p db.stations)) [
  | inl absent ↦ rw absent h
  | inr (s, found) ↦
      let (here, live) = good s (find-passes p db.stations s found) in
      rw found (s, find-In p db.stations s found, refl, here, live)
]

default_live :
    (db : Db) (tenant_id outlet_id : ℕ)
    → LiveIfAny db outlet_id (resolve_default_station_id db tenant_id outlet_id)
unfolding resolve_default_station_id
default_live db tenant_id outlet_id =
    live_if_found db outlet_id _ none tt (λ s h. ground (arith, ==_iff s.outlet_id outlet_id))

same_name_live :
    (db : Db) (outlet_id : ℕ) (station : Station) (d : Option ℕ)
    → LiveIfAny db outlet_id d
    → LiveIfAny db outlet_id (same_name_station db outlet_id station d)
unfolding same_name_station
same_name_live db outlet_id station d h =
    live_if_found db outlet_id _ d h (λ s k. ground (arith, ==_iff s.outlet_id outlet_id))

route_live :
    (db : Db) (outlet_id : ℕ) (item_station_id d : Option ℕ)
    → LiveIfAny db outlet_id d
    → LiveIfAny db outlet_id (route_station_id db outlet_id item_station_id d)
unfolding route_station_id
route_live db outlet_id none d h = h
route_live db outlet_id (some id) d h = elim (Option-cases (find (λ s. s.id == id) db.stations)) [
  | inl absent ↦ rw (absent, route_station_id) h
  | inr (s, found) ↦
      let at : Bool = s.outlet_id == outlet_id && not (is_some s.deleted_at) in
      elim (Bool-cases at) [
        | inl own ↦
            rw (found, route_station_id, own)
              (
                s,
                find-In _ db.stations s found,
                refl,
                ground (arith, ==_iff s.outlet_id outlet_id),
                ground arith,
              )
        | inr elsewhere ↦
            rw (found, route_station_id, elsewhere) (same_name_live db outlet_id s d h)
      ]
]

-- A line is never routed to a screen of another outlet, nor to a deleted one: the station that it gets, where
-- it gets one, is a live station of the order's outlet.
pub station_of_live :
    (db : Db) (order : OrderRef) (l : OrderLine) (id : ℕ)
    → station_of db order l ≡ some id
    → IsLiveStation db order.outlet_id id
unfolding station_of
station_of_live db order l id e = subst (LiveIfAny db order.outlet_id) e (
    route_live db order.outlet_id (item_station db l.item_id) _
      (default_live db order.tenant_id order.outlet_id))

found_after :
    (ticket_id : ℕ) (f : Ticket → Ticket) (db : Db) (t : Ticket)
    → ((x : Ticket) → (f x).id ≡ x.id)
    → find (λ (x : Ticket). x.id == ticket_id) db.tickets ≡ some t
    → find
        (λ (x : Ticket). x.id == ticket_id)
        (update_where (λ (x : Ticket). x.id == ticket_id) f db.tickets)
      ≡ some (f t)
found_after ticket_id f db t keep found =
    find-update_where (λ (x : Ticket). x.id == ticket_id) f db.tickets t
      (λ x. ap (λ (i : ℕ). i == ticket_id) (keep x)) found

-- A ticket is bumped once: a second bump of it, at any time, is a conflict.
pub bump_twice :
    (tenant_id ticket_id now later : ℕ) (db db' : Db)
    → bump tenant_id ticket_id now db ≡ ok (tt, db')
    → bump tenant_id ticket_id later db' ≡ err (conflicting conflict)
unfolding bump load_ticket
bump_twice tenant_id ticket_id now later db db' e =
    elim (Option-cases (find (λ (t : Ticket). t.id == ticket_id) db.tickets)) [
      | inl absent ↦ ground arith
      | inr (t, found) ↦ ground (
        arith,
        found_after ticket_id (λ t. record t { status = bumped; bumped_at = some now }) db t
            (λ x. refl) found,
      )
    ]

-- What a reader finds of the ticket.
abbrev pub ticket_in : ℕ → Db → Option Ticket
ticket_in ticket_id db = find (λ (t : Ticket). t.id == ticket_id) db.tickets

-- Bumping a queued ticket and recalling it within twelve hours succeeds: the ticket is queued again, its recalls count one more, and nothing
-- else of it but its two times has changed.
pub recall-bump :
    (tenant_id ticket_id now later : ℕ) (db : Db) (t : Ticket)
    → ticket_in ticket_id db ≡ some t
    → t.tenant_id ≡ tenant_id
    → t.status ≡ queued
    → later ≤ now + bumped_window
    → (db' : Db) × (db'' : Db) × (bump tenant_id ticket_id now db ≡ ok (tt, db'))
      × (recall tenant_id ticket_id later db' ≡ ok (tt, db''))
      × (ticket_in ticket_id db''
          ≡ some (record t {
            recall_count = t.recall_count + 1;
            bumped_at = some now;
            recalled_at = some later;
          }))
unfolding bump recall load_ticket
recall-bump tenant_id ticket_id now later db t found own waiting soon =
    let done = λ (x : Ticket). record x { status = bumped; bumped_at = some now } in
    let back = λ (x : Ticket). record x {
      status = queued;
      recall_count = x.recall_count + 1;
      recalled_at = some later;
    } in
    let db' : Db =
      write_ticket ticket_id done
        (record { ticket_id = ticket_id; kind = bumped_event; occurred_at = now }) db in
    let db'' : Db =
      write_ticket ticket_id back
        (record { ticket_id = ticket_id; kind = recalled_event; occurred_at = later }) db' in
    let first = found_after ticket_id done db t (λ x. refl) found in
    let second = found_after ticket_id back db' (done t) (λ x. refl) first in
    (db', db'', ground arith, ground (arith, first), ground (arith, second))
