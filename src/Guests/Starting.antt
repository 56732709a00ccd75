-- ===== src/Guests/Starting.antt =====
-- Starting and closing a table's session (guest/sessions/sessions.service.ts).
use restiq_backend.Base.{
  ℕ, ◌≤◌, ◌≡◌, refl, sym, ◌∙◌, ap, subst, false, not, none, some, [], ◌∷◌, ◌++◌, String, ==_iff,
  find, Bool-cases, Option-cases, ◌&&◌, true, inl, inr, arith,
}
use restiq_backend.Store.Rows.{Db, Outlet, kiosk_ordering}
use restiq_backend.Store.Transaction.{
  ok, ok-eq, >>=-eq-ok, or_throw, missing, not_found, conflicting, table_has_active_order,
  forbidden_request, kiosk_disabled, no_open_session, session_already_open,
}
use restiq_backend.Settle.{Env}
use restiq_backend.Settle.Tenders.{guarded}
use restiq_backend.Shares.{GuestPrincipal, is_session_inactive}
use restiq_backend.Guests.Sessions.{
  resolve_outlet_and_table, assert_qr_ordering_enabled, capability_enabled, is_table_busy,
  is_abandoned, open_at, close_row, give_way, StartSession, new_session, start_session,
  start_kiosk_session, close_session_for_staff, live_outlet, table_known, tenant_trades,
  kiosk_enrolled,
}
use restiq_backend.Guests.Tables.{
  Displaced, OneSession, Stays, assert_qr-reads, close_row-Fewer, count_after_opening,
  give_way-clears, open_new-adds, open_sessions, or_throw-reads, resolve-found,
}

-- The store once the table's open session has given way.
abbrev pub giving_way : Env → ℕ → ℕ → Db → Db
giving_way env t k db = elim (find (open_at t k) db.table_sessions) [
  | none ↦ db
  | some s ↦ close_row env s.id db
]

give_way-clears_to :
    (env : Env) (t k : ℕ) (u : Unit {0}) (db db' : Db)
    → give_way env (find (open_at t k) db.table_sessions) db ≡ ok (u, db')
    → db' ≡ giving_way env t k db
give_way-clears_to env t k u db db' e = elim (Option-cases (find (open_at t k) db.table_sessions)) [
  | inl free ↦
      sym (ap (λ (r : Unit {0} × Db). r.1) (ok-eq (tt, db) (u, db') (rw (free, give_way) at e)))
      ∙ rw (free, giving_way)
  | inr (s, found) ↦
      let (_, last) =
        guarded (not (is_session_inactive env s) && not (is_abandoned env s db))
          (conflicting session_already_open) _ db (rw (found, give_way) at e) in
      sym (ap (λ (r : Unit {0} × Db). r.1) (ok-eq (tt, close_row env s.id db) (u, db') last))
      ∙ rw (found, giving_way)
]

-- What a start that returns has gone through: the outlet is stored and the table is its own;
-- whatever was open at the table had run out or was abandoned, and it is closed; no live order of
-- anyone else is at the table then; and one session is added, open, with the PIN.
pub record Started (env : Env) (pin : String) (dto : StartSession) (t : ℕ) (g : GuestPrincipal)
    (db db' : Db) : Type 0 where
  pub own : g.tenant_id ≡ t
  pub outlet : Outlet
  pub at_outlet : find (live_outlet dto.outlet_id) db.outlets ≡ some outlet
  pub of_tenant : outlet.tenant_id ≡ t
  pub has_table : table_known t dto.outlet_id dto.table_id db ≡ true
  pub displaced : Displaced env db (find (open_at t dto.table_id) db.table_sessions)
  pub cleared : Db
  pub is_cleared : cleared ≡ giving_way env t dto.table_id db
  pub none_left : open_sessions t dto.table_id cleared ≡ 0
  pub fewer : (a b : ℕ) → open_sessions a b cleared ≤ open_sessions a b db
  pub free : is_table_busy env t dto.table_id cleared ≡ false
  pub opened :
      db'.table_sessions
      ≡ cleared.table_sessions
        ++ new_session env t dto.outlet_id (some dto.table_id) pin g.session_id ∷ []

pub start_session-Started :
    (env : Env) (pin : String) (dto : StartSession) (g : GuestPrincipal) (db db' : Db)
    → OneSession db
    → start_session env pin dto db ≡ ok (g, db')
    → (t : ℕ) × Started env pin dto t g db db'
unfolding start_session
start_session-Started env pin dto g db db' one e =
    let (o, db1, resolved, e1) =
      >>=-eq-ok (resolve_outlet_and_table dto.outlet_id dto.table_id) _ db e in
    let (same1, at_outlet, has_table) =
      resolve-found dto.outlet_id dto.table_id o db db1 resolved in
    let (u, db2, enabled, e2) = >>=-eq-ok (assert_qr_ordering_enabled dto.outlet_id) _ db1 e1 in
    let same2 = assert_qr-reads dto.outlet_id u db1 db2 enabled in
    let t = o.tenant_id in
    let k = dto.table_id in
    let old = find (open_at t k) db2.table_sessions in
    let (u3, db3, giving, e3) = >>=-eq-ok (give_way env old) _ db2 e2 in
    let one2 = subst (λ (d : Db). open_sessions t k d ≤ 1) (same1 ∙ same2) (one t k) in
    let (clear, fewer, why) = give_way-clears env t k old u3 db2 db3 refl one2 giving in
    let (free, e4) =
      guarded (is_table_busy env t k db3) (conflicting table_has_active_order) _ db3 e3 in
    let (added, ids, own) = open_new-adds env t dto.outlet_id (some k) pin dto.name g db3 db' e4 in
    let back = sym (same1 ∙ same2) in
    (
      t,
      record {
        own = own;
        outlet = o;
        at_outlet = at_outlet;
        of_tenant = refl;
        has_table = has_table;
        displaced =
            subst (λ (d : Db). Displaced env d (find (open_at t k) d.table_sessions)) back why;
        cleared = db3;
        is_cleared =
            give_way-clears_to env t k u3 db2 db3 giving
            ∙ ap (λ (d : Db). giving_way env t k d) back;
        none_left = clear;
        fewer =
            λ a b. subst (λ (d : Db). open_sessions a b db3 ≤ open_sessions a b d) back (fewer a b);
        free = free;
        opened =
            added
            ∙ ap
                (λ (n : ℕ).
                  db3.table_sessions ++ new_session env t dto.outlet_id (some k) pin n ∷ [])
                (sym ids);
      },
    )

pub start_session-Stays :
    (env : Env) (pin : String) (dto : StartSession) → Stays (start_session env pin dto)
start_session-Stays env pin dto g db db' e one a b =
    let (t, s) = start_session-Started env pin dto g db db' one e in
    let row = new_session env t dto.outlet_id (some dto.table_id) pin g.session_id in
    let counts = count_after_opening a b row s.cleared db' s.opened in
    let few = s.fewer a b in
    let before = one a b in
    elim (Bool-cases (open_at a b row)) [
      | inl here ↦
          let at : a ≡ t = ground (arith, ==_iff t a) in
          let bt : b ≡ dto.table_id = ground (arith, ==_iff dto.table_id b) in
          let none_here : open_sessions a b s.cleared ≡ 0 =
            ap (λ (x : ℕ). open_sessions x b s.cleared) at
            ∙ ap (λ (y : ℕ). open_sessions t y s.cleared) bt
            ∙ s.none_left in
          let counted = rw here at counts in omega arith
      | inr elsewhere ↦ let counted = rw elsewhere at counts in omega arith
    ]

pub kiosk-off :
    (env : Env) (t outlet_id id a b : ℕ) (pin : String)
    → open_at a b (new_session env t outlet_id none pin id) ≡ false
kiosk-off env t outlet_id id a b pin = ground arith

pub start_kiosk_session-Stays :
    (env : Env) (pin : String) (outlet_id device_id : ℕ) (label : String)
    → Stays (start_kiosk_session env pin outlet_id device_id label)
unfolding start_kiosk_session
start_kiosk_session-Stays env pin outlet_id device_id label g db db' e one a b =
    let (o, db1, found, e1) =
      >>=-eq-ok (or_throw (find (live_outlet outlet_id) db.outlets) (missing not_found)) _ db e in
    let (same1, _) = or_throw-reads _ (missing not_found) o db db1 found in
    let (g1, e2) = guarded (not (tenant_trades o.tenant_id db1)) (missing not_found) _ db1 e1 in
    let (g2, e3) =
      guarded (not (kiosk_enrolled o.tenant_id outlet_id device_id db1)) (missing not_found) _ db1
        e2 in
    let (g3, e4) =
      guarded (not (capability_enabled outlet_id kiosk_ordering db1))
        (forbidden_request kiosk_disabled) _ db1 e3 in
    let (added, _, _) = open_new-adds env o.tenant_id outlet_id none pin label g db1 db' e4 in
    let row = new_session env o.tenant_id outlet_id none pin db1.next_id in
    let counts = count_after_opening a b row db1 db' added in
    let counted = rw (kiosk-off env o.tenant_id outlet_id db1.next_id a b pin) at counts in
    subst (λ n. n ≤ 1) (sym (counted ∙ ap (λ (d : Db). open_sessions a b d) (sym same1))) (one a b)

pub close_session_for_staff-Stays :
    (env : Env) (t outlet_id k : ℕ) → Stays (close_session_for_staff env t outlet_id k)
unfolding close_session_for_staff
close_session_for_staff-Stays env t outlet_id k u db db' e one a b =
    let (known, e1) = guarded (not (table_known t outlet_id k db)) (missing not_found) _ db e in
    let (s, db1, found, last) =
      >>=-eq-ok (or_throw (find (open_at t k) db.table_sessions) (missing no_open_session)) _ db
        e1 in
    let (same1, _) = or_throw-reads _ (missing no_open_session) s db db1 found in
    let same = ap (λ (r : Unit {0} × Db). r.1) (ok-eq (tt, close_row env s.id db1) (u, db') last) in
    let fewer = close_row-Fewer env s.id db1 a b in
    let before = subst (λ (d : Db). open_sessions a b d ≤ 1) same1 (one a b) in
    subst (λ (d : Db). open_sessions a b d ≤ 1) same (omega arith)
