-- ===== src/Guests/Serving.antt =====
-- A table's sessions under any requests of guests, kiosks and staff
-- (guest/sessions/sessions.service.ts).
use restiq_backend.Base.{ℕ, ◌≤◌, sym, ap, subst, Option, none, some, List, String, count_where}
use restiq_backend.Store.Rows.{Db, TableSession}
use restiq_backend.Store.Transaction.{Tx, ok-eq, >>=-eq-ok, ◌>>=◌, pure, serve_all, serve_all-keeps}
use restiq_backend.Settle.{Env}
use restiq_backend.Manager.{AttemptRow}
use restiq_backend.Shares.{GuestPrincipal}
use restiq_backend.Guests.Sessions.{
  open_at, StartSession, start_session, start_kiosk_session, JoinSession, join_session,
  close_session_for_staff,
}
use restiq_backend.Guests.Tables.{OneSession, Stays}
use restiq_backend.Guests.Starting.{
  start_session-Stays, start_kiosk_session-Stays, close_session_for_staff-Stays,
}
use restiq_backend.Guests.Joining.{join_session-Admitted}

-- A request on the sessions: of a guest, a kiosk or the staff.
pub data SessionRequest : Type 0 where
  start_one : String → StartSession → SessionRequest
  start_kiosk : String → ℕ → ℕ → String → SessionRequest
  join_one : JoinSession → ℕ → List AttemptRow → SessionRequest
  close_one : ℕ → ℕ → ℕ → SessionRequest

-- The guest that it lets in, where it does.
pub handle_session : Env × SessionRequest → Tx (Option GuestPrincipal)
handle_session (env, start_one pin dto) = start_session env pin dto >>= λ g. pure (some g)
handle_session (env, start_kiosk pin outlet_id device_id label) =
    start_kiosk_session env pin outlet_id device_id label >>= λ g. pure (some g)
handle_session (env, join_one dto ip rows) =
    (λ db. (join_session env dto ip db rows).0) >>= λ g. pure (some g)
handle_session (env, close_one t outlet_id table_id) =
    close_session_for_staff env t outlet_id table_id >>= λ u. pure none

then-Stays :
    {A : Type 0} (m : Tx A) (f : A → Option GuestPrincipal)
    → Stays m
    → Stays (m >>= λ a. pure (f a))
then-Stays m f stays o db db' e one =
    let (a, db1, first, last) = >>=-eq-ok m (λ a. pure (f a)) db e in
    subst OneSession (ap (λ (r : Option GuestPrincipal × Db). r.1) (ok-eq (f a, db1) (o, db') last))
      (stays a db db1 first one)

join-Stays :
    (env : Env) (dto : JoinSession) (ip : ℕ) (rows : List AttemptRow)
    → Stays (λ db. (join_session env dto ip db rows).0)
join-Stays env dto ip rows g db db' e one a b =
    subst (λ (ss : List TableSession). count_where (open_at a b) ss ≤ 1)
      (sym (join_session-Admitted env dto ip g db db' rows e).sessions_kept) (one a b)

handle_session-Stays : (r : Env × SessionRequest) → Stays (handle_session r)
unfolding handle_session
handle_session-Stays (env, start_one pin dto) =
    then-Stays (start_session env pin dto) some (start_session-Stays env pin dto)
handle_session-Stays (env, start_kiosk pin outlet_id device_id label) =
    then-Stays (start_kiosk_session env pin outlet_id device_id label) some
      (start_kiosk_session-Stays env pin outlet_id device_id label)
handle_session-Stays (env, join_one dto ip rows) =
    then-Stays (λ db. (join_session env dto ip db rows).0) some (join-Stays env dto ip rows)
handle_session-Stays (env, close_one t outlet_id table_id) =
    then-Stays (close_session_for_staff env t outlet_id table_id) (λ u. none)
      (close_session_for_staff-Stays env t outlet_id table_id)

-- A table has at most one open session, whatever requests of guests, kiosks and staff are served, in whatever order and at whatever times, where every table had at most one before.
pub serve_sessions-OneSession :
    (rs : List (Env × SessionRequest)) (db : Db)
    → OneSession db
    → OneSession (serve_all handle_session db rs)
serve_sessions-OneSession rs db one =
    serve_all-keeps handle_session OneSession (λ r d d' g h e. handle_session-Stays r g d d' e h) rs
      db one
