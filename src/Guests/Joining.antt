-- ===== src/Guests/Joining.antt =====
-- Joining a table's session with its PIN (guest/sessions/sessions.service.ts).
use restiq_backend.Base.{
  ℕ, ◌≡◌, refl, sym, ◌∙◌, ap, true, false, Option, some, List, ◌==◌, find, Bool-cases, inl, inr,
}
use text.Mathlib.Text.{◌==◌ as str_eq}
use restiq_backend.Store.Rows.{Db, TableSession}
use restiq_backend.Store.Transaction.{
  Result, ok, err, ok-eq, >>=-eq-ok, or_throw, missing, no_open_session,
}
use restiq_backend.Settle.{Env}
use restiq_backend.Settle.Tenders.{guarded}
use restiq_backend.Manager.{AttemptRow, consume}
use restiq_backend.Shares.{GuestPrincipal, is_session_inactive}
use restiq_backend.Guests.Sessions.{
  resolve_outlet_and_table, assert_qr_ordering_enabled, open_at, insert_guest, JoinSession,
  join_rules, joinable_session, throttled_enter, join_session,
}
use restiq_backend.Guests.Tables.{assert_qr-reads, or_throw-reads, resolve-reads}

abbrev pub find_session : ℕ → Db → Option TableSession
find_session id db = find (λ (s : TableSession). s.id == id) db.table_sessions

joinable_session-found :
    (env : Env) (dto : JoinSession) (s : TableSession) (db db' : Db)
    → joinable_session env dto db ≡ ok (s, db')
    → (db ≡ db')
      × ((t : ℕ) × (find (open_at t dto.table_id) db.table_sessions ≡ some s))
      × (is_session_inactive env s ≡ false)
unfolding joinable_session
joinable_session-found env dto s db db' e =
    let (o, db1, resolved, e1) =
      >>=-eq-ok (resolve_outlet_and_table dto.outlet_id dto.table_id) _ db e in
    let same1 = resolve-reads dto.outlet_id dto.table_id o db db1 resolved in
    let (u, db2, enabled, e2) = >>=-eq-ok (assert_qr_ordering_enabled dto.outlet_id) _ db1 e1 in
    let same2 = assert_qr-reads dto.outlet_id u db1 db2 enabled in
    let found = find (open_at o.tenant_id dto.table_id) db2.table_sessions in
    let (s1, db3, taken, e3) = >>=-eq-ok (or_throw found (missing no_open_session)) _ db2 e2 in
    let (same3, stored) = or_throw-reads found (missing no_open_session) s1 db2 db3 taken in
    let (live, last) = guarded (is_session_inactive env s1) (missing no_open_session) _ db3 e3 in
    let pair = ok-eq (s1, db3) (s, db') last in
    let is = ap (λ (r : TableSession × Db). r.0) pair in
    (
      same1 ∙ same2 ∙ same3 ∙ ap (λ (r : TableSession × Db). r.1) pair,
      (
        o.tenant_id,
        ap (λ (d : Db). find (open_at o.tenant_id dto.table_id) d.table_sessions) (same1 ∙ same2)
            ∙ stored
            ∙ ap some is,
      ),
      ap (is_session_inactive env) (sym is) ∙ live,
    )

-- What a guest who got in has shown.
pub record Admitted (env : Env) (dto : JoinSession) (ip : ℕ) (g : GuestPrincipal) (db db' : Db)
    (rows : List AttemptRow) : Type 0 where
  pub session : TableSession
  pub at_table : (t : ℕ) × (find (open_at t dto.table_id) db.table_sessions ≡ some session)
  pub live : is_session_inactive env session ≡ false
  pub right_pin : str_eq session.session_pin dto.pin ≡ true
  pub within_limits : (consume env.now (join_rules dto ip) rows).0 ≡ true
  pub joined : g.session_id ≡ session.id
  pub sessions_kept : db'.table_sessions ≡ db.table_sessions

throttled-admits :
    (env : Env) (dto : JoinSession) (ip : ℕ) (g : GuestPrincipal) (s : TableSession) (db db' : Db)
    (rows : List AttemptRow)
    → (throttled_enter env dto ip (ok (s, db)) rows).0 ≡ ok (g, db')
    → ((consume env.now (join_rules dto ip) rows).0 ≡ true)
      × (str_eq s.session_pin dto.pin ≡ true)
      × (insert_guest env s dto.name db ≡ ok (g, db'))
throttled-admits env dto ip g s db db' rows e =
    elim (Bool-cases (consume env.now (join_rules dto ip) rows).0) [
      | inl allowed ↦
          let entered = rw allowed at e in
          elim (Bool-cases (str_eq s.session_pin dto.pin)) [
            | inl right ↦ (allowed, right, rw right at entered)
            | inr wrong ↦ absurd (let refused = rw wrong at entered in cc)
          ]
      | inr locked ↦ absurd (let refused = rw locked at e in cc)
    ]

-- A guest who joins a table got in with its PIN, within the limits on wrong guesses of the address and of the table, into a session of that table that is open and has not run out, and no session changes.
pub join_session-Admitted :
    (env : Env) (dto : JoinSession) (ip : ℕ) (g : GuestPrincipal) (db db' : Db)
    (rows : List AttemptRow)
    → (join_session env dto ip db rows).0 ≡ ok (g, db')
    → Admitted env dto ip g db db' rows
unfolding join_session insert_guest
join_session-Admitted env dto ip g db db' rows e = go (joinable_session env dto db) refl e
  where
    go :
        (r : Result (TableSession × Db))
        → joinable_session env dto db ≡ r
        → (throttled_enter env dto ip r rows).0 ≡ ok (g, db')
        → Admitted env dto ip g db db' rows
    go (err x) found entered = cc
    go (ok (s, db1)) found entered =
        let (same, stored, live) = joinable_session-found env dto s db db1 found in
        let (allowed, right, added) = throttled-admits env dto ip g s db1 db' rows entered in
        let pair = ok-eq _ (g, db') added in
        record {
          session = s;
          at_table = stored;
          live = live;
          right_pin = right;
          within_limits = allowed;
          joined = ap (λ (r : GuestPrincipal × Db). r.0.session_id) (sym pair);
          sessions_kept =
              ap (λ (r : GuestPrincipal × Db). r.1.table_sessions) (sym pair)
              ∙ ap (λ (d : Db). d.table_sessions) (sym same);
        }
