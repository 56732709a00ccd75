-- ===== src/Guests/Sessions.antt =====
-- A table's session, guest/sessions/sessions.service.ts.
use restiq_backend.Base.{
  ℕ, suc, ◌+◌, Bool, true, false, not, ◌&&◌, Option, none, some, List, [], ◌∷◌, ◌++◌, String, ltb,
  ◌==◌, if◌then◌else◌, is_some, eq_option, find, any, update_where,
}
use text.Mathlib.Text.{◌==◌ as str_eq}
use restiq_backend.Store.Rows.{
  Db, TenantStatus, inactive, Outlet, TableSession, open_session, closed_session, Guest,
  CapabilityKey, qr_ordering, kiosk_ordering, CartLine, kiosk_device,
}
use restiq_backend.Store.Transaction.{
  Tx, Result, ok, err, pure, gets, or_throw, ◌>>=◌, ◌>>◌, throw_if, modify, missing, not_found,
  forbidden_request, qr_ordering_disabled, kiosk_disabled, conflicting, session_already_open,
  table_has_active_order, no_open_session, invalid_pin, gone, session_closed, too_many, locked_out,
}
use restiq_backend.Settle.{Env}
use restiq_backend.Devices.{same_kind}
use restiq_backend.Orders.{is_stale, unclosed_at}
use restiq_backend.Manager.{
  AttemptRow, AttemptRule, guest_join_ip, guest_join_table, consume, refund_attempts,
}
use restiq_backend.Shares.{GuestPrincipal, is_session_open, is_session_inactive}

-- `SESSION_IDLE_TTL_MS`
abbrev pub session_idle_ttl : ℕ
session_idle_ttl = 14400000

-- `ABANDONED_AFTER_MS`
abbrev pub abandoned_after : ℕ
abandoned_after = 1800000

abbrev pub live_outlet : ℕ → Outlet → Bool
live_outlet outlet_id o = o.id == outlet_id && not (is_some o.deleted_at)

-- The table is the tenant's, at this outlet.
abbrev pub table_known : ℕ → ℕ → ℕ → Db → Bool
table_known tenant_id outlet_id table_id db =
    any (λ t. t.id == table_id && t.tenant_id == tenant_id && t.outlet_id == outlet_id)
      db.dining_tables

-- `resolveOutletAndTable`: the outlet, whose table it is.
unfoldable pub resolve_outlet_and_table : ℕ → ℕ → Tx Outlet
resolve_outlet_and_table outlet_id table_id = do
  found ← gets (λ db. find (live_outlet outlet_id) db.outlets)
  outlet ← or_throw found (missing not_found)
  known ← gets (table_known outlet.tenant_id outlet_id table_id)
  throw_if (not known) (missing not_found)
  pure outlet

abbrev pub eq_capability : CapabilityKey → CapabilityKey → Bool
eq_capability qr_ordering qr_ordering = true
eq_capability kiosk_ordering kiosk_ordering = true
eq_capability _ _ = false

abbrev pub capability_enabled : ℕ → CapabilityKey → Db → Bool
capability_enabled outlet_id key db =
    any (λ c. c.outlet_id == outlet_id && eq_capability c.key key && c.enabled)
      db.outlet_capabilities

-- `assertQrOrderingEnabled`
unfoldable pub assert_qr_ordering_enabled : ℕ → Tx (Unit {0})
assert_qr_ordering_enabled outlet_id =
    gets (capability_enabled outlet_id qr_ordering) >>= λ enabled.
    throw_if (not enabled) (forbidden_request qr_ordering_disabled)

-- `Math.max`
abbrev pub later : ℕ → ℕ → ℕ
later a b = if ltb a b then b else a

unfoldable pub last_joined : ℕ → List Guest → ℕ
last_joined session_id [] = 0
last_joined session_id (g ∷ gs) =
    let rest = last_joined session_id gs in
    if g.session_id == session_id then later g.joined_at rest else rest

unfoldable pub last_added : ℕ → List CartLine → ℕ
last_added session_id [] = 0
last_added session_id (l ∷ ls) =
    let rest = last_added session_id ls in
    if l.session_id == session_id then later l.created_at rest else rest

-- `isAbandoned`
unfoldable pub is_abandoned : Env → TableSession → Db → Bool
unfolding last_joined last_added
is_abandoned env session db =
    let last_activity =
      later session.created_at
        (later (last_joined session.id db.guests) (last_added session.id db.cart_lines)) in
    if any (λ o. eq_option o.session_id (some session.id)) db.orders
    then false
    else ltb (last_activity + abandoned_after) env.now

-- Whose order it is, where it is a guest's: an open session of this table.
abbrev pub owned_here : Env → ℕ → Option ℕ → Db → Bool
owned_here env table_id none db = false
owned_here env table_id (some session_id) db =
    elim (find (λ s. s.id == session_id) db.table_sessions) [
      | none ↦ false
      | some s ↦ eq_option s.table_id (some table_id) && not (is_session_inactive env s)
    ]

-- `isTableBusy`
unfoldable pub is_table_busy : Env → ℕ → ℕ → Db → Bool
is_table_busy env tenant_id table_id db =
    elim (find (λ o. unclosed_at tenant_id table_id o && not (is_stale env o)) db.orders) [
      | none ↦ false
      | some live ↦ not (owned_here env table_id live.session_id db)
    ]

-- `OutletAvailability`
pub data Availability : Type 0 where
  available_here not_there ordering_disabled table_busy : Availability

abbrev pub is_inactive : TenantStatus → Bool
is_inactive inactive = true
is_inactive _ = false

abbrev pub tenant_trades : ℕ → Db → Bool
tenant_trades tenant_id db =
    any (λ t. t.id == tenant_id && not (is_inactive t.status) && not (is_some t.deleted_at))
      db.tenants

abbrev pub table_availability : Env → Outlet → Option ℕ → Db → Availability
table_availability env outlet none db = available_here
table_availability env outlet (some table_id) db =
    if not (table_known outlet.tenant_id outlet.id table_id db)
    then not_there
    else if is_table_busy env outlet.tenant_id table_id db
    then table_busy
    else available_here

-- `checkAvailability`
unfoldable pub check_availability : Env → ℕ → Option ℕ → Db → Availability
unfolding is_table_busy
check_availability env outlet_id table_id db = elim (find (live_outlet outlet_id) db.outlets) [
  | none ↦ not_there
  | some outlet ↦
      if not (tenant_trades outlet.tenant_id db)
      then not_there
      else if not (capability_enabled outlet_id qr_ordering db)
      then ordering_disabled
      else table_availability env outlet table_id db
]

abbrev pub open_at : ℕ → ℕ → TableSession → Bool
open_at tenant_id table_id s =
    s.tenant_id == tenant_id && eq_option s.table_id (some table_id) && is_session_open s.status

abbrev pub end_session : Env → TableSession → TableSession
end_session env s = record s { status = closed_session; closed_at = some env.now }

unfoldable pub close_row : Env → ℕ → Db → Db
close_row env session_id db = record db {
  table_sessions = update_where (λ s. s.id == session_id) (end_session env) db.table_sessions;
}

-- A session that ran out or was abandoned gives way, any other does not.
abbrev pub give_way : Env → Option TableSession → Tx (Unit {0})
give_way env none = pure tt
give_way env (some s) = do
  abandoned ← gets (is_abandoned env s)
  throw_if (not (is_session_inactive env s) && not abandoned) (conflicting session_already_open)
  modify (close_row env s.id)

pub record StartSession : Type 0 where
  pub outlet_id : ℕ
  pub table_id : ℕ
  pub name : String

abbrev pub new_session : Env → ℕ → ℕ → Option ℕ → String → ℕ → TableSession
new_session env tenant_id outlet_id table_id pin id = record {
  id = id;
  tenant_id = tenant_id;
  outlet_id = outlet_id;
  table_id = table_id;
  status = open_session;
  session_pin = pin;
  created_at = env.now;
  expires_at = env.now + session_idle_ttl;
  closed_at = none;
}

unfoldable pub insert_session : TableSession → Db → Db
insert_session s db = record db {
  table_sessions = db.table_sessions ++ s ∷ [];
  next_id = suc db.next_id;
}

-- The guest's row, and the principal of the token.
unfoldable pub insert_guest : Env → TableSession → String → Tx GuestPrincipal
insert_guest env s name db = ok (
  record {
    id = db.next_id;
    session_id = s.id;
    tenant_id = s.tenant_id;
    outlet_id = s.outlet_id;
    table_id = s.table_id;
    name = name;
  },
  record db {
    guests =
        db.guests
        ++ record {
          id = db.next_id;
          tenant_id = s.tenant_id;
          session_id = s.id;
          name = name;
          joined_at = env.now;
        }
          ∷ [];
    next_id = suc db.next_id;
  },
)

abbrev pub open_new : Env → ℕ → ℕ → Option ℕ → String → String → Tx GuestPrincipal
open_new env tenant_id outlet_id table_id pin name = do
  id ← gets (λ db. db.next_id)
  let session = new_session env tenant_id outlet_id table_id pin id
  modify (insert_session session)
  insert_guest env session name

-- `startSession`
unfoldable pub start_session : Env → String → StartSession → Tx GuestPrincipal
start_session env pin dto = do
  outlet ← resolve_outlet_and_table dto.outlet_id dto.table_id
  assert_qr_ordering_enabled dto.outlet_id
  existing ← gets (λ db. find (open_at outlet.tenant_id dto.table_id) db.table_sessions)
  give_way env existing
  busy ← gets (is_table_busy env outlet.tenant_id dto.table_id)
  throw_if busy (conflicting table_has_active_order)
  open_new env outlet.tenant_id dto.outlet_id (some dto.table_id) pin dto.name

abbrev pub kiosk_enrolled : ℕ → ℕ → ℕ → Db → Bool
kiosk_enrolled tenant_id outlet_id device_id db =
    any
      (λ d.
        d.id == device_id
        && d.tenant_id == tenant_id
        && d.outlet_id == outlet_id
        && same_kind d.kind kiosk_device
        && d.in_service)
      db.devices

-- `startKioskSession`: the kiosk's label names its guest.
unfoldable pub start_kiosk_session : Env → String → ℕ → ℕ → String → Tx GuestPrincipal
start_kiosk_session env pin outlet_id device_id label = do
  found ← gets (λ db. find (live_outlet outlet_id) db.outlets)
  outlet ← or_throw found (missing not_found)
  trades ← gets (tenant_trades outlet.tenant_id)
  throw_if (not trades) (missing not_found)
  enrolled ← gets (kiosk_enrolled outlet.tenant_id outlet_id device_id)
  throw_if (not enrolled) (missing not_found)
  enabled ← gets (capability_enabled outlet_id kiosk_ordering)
  throw_if (not enabled) (forbidden_request kiosk_disabled)
  open_new env outlet.tenant_id outlet_id none pin label

pub record JoinSession : Type 0 where
  pub outlet_id : ℕ
  pub table_id : ℕ
  pub name : String
  pub pin : String

-- Ten wrong PINs from an address in fifteen minutes, thirty at the table.
abbrev pub join_rules : JoinSession → ℕ → List AttemptRule
join_rules dto ip =
    record { key = guest_join_ip dto.outlet_id dto.table_id ip; max = 10; window_seconds = 900 }
    ∷ record { key = guest_join_table dto.outlet_id dto.table_id; max = 30; window_seconds = 900 }
    ∷ []

unfoldable pub joinable_session : Env → JoinSession → Tx TableSession
joinable_session env dto = do
  outlet ← resolve_outlet_and_table dto.outlet_id dto.table_id
  assert_qr_ordering_enabled dto.outlet_id
  found ← gets (λ db. find (open_at outlet.tenant_id dto.table_id) db.table_sessions)
  session ← or_throw found (missing no_open_session)
  throw_if (is_session_inactive env session) (missing no_open_session)
  pure session

abbrev pub enter :
    Env
    → JoinSession
    → ℕ
    → TableSession
    → Db
    → List AttemptRow
    → Result (GuestPrincipal × Db) × List AttemptRow
enter env dto ip session db rows =
    if str_eq session.session_pin dto.pin
    then (insert_guest env session dto.name db, refund_attempts env.now (join_rules dto ip) rows)
    else (err (forbidden_request invalid_pin), rows)

abbrev pub throttled_enter :
    Env
    → JoinSession
    → ℕ
    → Result (TableSession × Db)
    → List AttemptRow
    → Result (GuestPrincipal × Db) × List AttemptRow
throttled_enter env dto ip (err e) rows = (err e, rows)
throttled_enter env dto ip (ok (session, db)) rows =
    let (allowed, counted) = consume env.now (join_rules dto ip) rows in
    let entered = enter env dto ip session db counted in
    if allowed then entered else (err (too_many locked_out), counted)

-- `joinSession`, with the attempts, which outlive a refusal.
unfoldable pub join_session :
    Env → JoinSession → ℕ → Db → List AttemptRow → Result (GuestPrincipal × Db) × List AttemptRow
unfolding joinable_session insert_guest
join_session env dto ip db rows = throttled_enter env dto ip (joinable_session env dto db) rows

-- `getCurrentSession`, and `loadActiveSession` of the cart and of the orders.
unfoldable pub load_active_session : Env → GuestPrincipal → Tx TableSession
load_active_session env guest db = elim (find (λ s. s.id == guest.session_id) db.table_sessions) [
  | none ↦ err (missing not_found)
  | some s ↦ if is_session_inactive env s then err (gone session_closed) else ok (s, db)
]

-- `closeSessionForStaff`
unfoldable pub close_session_for_staff : Env → ℕ → ℕ → ℕ → Tx (Unit {0})
unfolding close_row
close_session_for_staff env tenant_id outlet_id table_id = do
  known ← gets (table_known tenant_id outlet_id table_id)
  throw_if (not known) (missing not_found)
  found ← gets (λ db. find (open_at tenant_id table_id) db.table_sessions)
  session ← or_throw found (missing no_open_session)
  modify (close_row env session.id)
