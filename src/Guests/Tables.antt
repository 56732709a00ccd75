-- ===== src/Guests/Tables.antt =====
-- The open sessions of a table (guest/sessions/sessions.service.ts).
use restiq_backend.Base.{
  ℕ, suc, ◌≤◌, ◌≡◌, sym, ◌∙◌, ap, subst, false, not, ◌&&◌, Option, none, some, List, [], ◌∷◌, ◌++◌,
  String, true, ◌==◌, ==_refl, if◌then◌else◌, is_some, find, find-count, count_where, count-append,
  count-fewer, count-drop, update_where, arith,
}
use restiq_backend.Store.Rows.{Db, Outlet, TableSession, qr_ordering}
use restiq_backend.Store.Transaction.{
  Tx, ok, ok-eq, >>=-eq-ok, or_throw, missing, not_found, conflicting, session_already_open,
  forbidden_request, qr_ordering_disabled,
}
use restiq_backend.Settle.{Env}
use restiq_backend.Settle.Tenders.{guarded, throw_if-passes}
use restiq_backend.Shares.{GuestPrincipal, is_session_inactive}
use restiq_backend.Guests.Sessions.{
  resolve_outlet_and_table, assert_qr_ordering_enabled, capability_enabled, is_abandoned, open_at,
  end_session, close_row, give_way, new_session, insert_session, insert_guest, open_new,
  live_outlet, table_known,
}

-- How many open sessions a table has.
abbrev pub open_sessions : ℕ → ℕ → Db → ℕ
open_sessions tenant_id table_id db = count_where (open_at tenant_id table_id) db.table_sessions

abbrev pub OneSession : Db → Type 0
OneSession db = (tenant_id table_id : ℕ) → open_sessions tenant_id table_id db ≤ 1

pub or_throw-reads :
    {A : Type 0} (o : Option A) (x : _) (a : A) (db db' : Db)
    → or_throw o x db ≡ ok (a, db')
    → (db ≡ db') × (o ≡ some a)
or_throw-reads none x a db db' e = cc
or_throw-reads (some b) x a db db' e =
    let pair = ok-eq (b, db) (a, db') e in (ap (λ r. r.1) pair, ap (λ r. some r.0) pair)

pub resolve-found :
    (outlet_id table_id : ℕ) (o : Outlet) (db db' : Db)
    → resolve_outlet_and_table outlet_id table_id db ≡ ok (o, db')
    → (db ≡ db')
      × (find (live_outlet outlet_id) db.outlets ≡ some o)
      × (table_known o.tenant_id outlet_id table_id db ≡ true)
unfolding resolve_outlet_and_table
resolve-found outlet_id table_id o db db' e =
    let (o1, db1, found, e1) =
      >>=-eq-ok (or_throw (find (live_outlet outlet_id) db.outlets) (missing not_found)) _ db e in
    let (same1, stored) = or_throw-reads _ (missing not_found) o1 db db1 found in
    let (known, last) =
      guarded (not (table_known o1.tenant_id outlet_id table_id db1)) (missing not_found) _ db1
        e1 in
    let pair = ok-eq (o1, db1) (o, db') last in
    let is = ap (λ (r : Outlet × Db). r.0) pair in
    let at_table : table_known o1.tenant_id outlet_id table_id db1 ≡ true = ground arith in
    (
      same1 ∙ ap (λ (r : Outlet × Db). r.1) pair,
      stored ∙ ap some is,
      ap (λ (d : Db). table_known o.tenant_id outlet_id table_id d) same1
          ∙ ap (λ (x : Outlet). table_known x.tenant_id outlet_id table_id db1) (sym is)
          ∙ at_table,
    )

pub resolve-reads :
    (outlet_id table_id : ℕ) (o : Outlet) (db db' : Db)
    → resolve_outlet_and_table outlet_id table_id db ≡ ok (o, db')
    → db ≡ db'
resolve-reads outlet_id table_id o db db' e = (resolve-found outlet_id table_id o db db' e).0

pub assert_qr-reads :
    (outlet_id : ℕ) (u : Unit {0}) (db db' : Db)
    → assert_qr_ordering_enabled outlet_id db ≡ ok (u, db')
    → db ≡ db'
unfolding assert_qr_ordering_enabled
assert_qr-reads outlet_id u db db' e =
    (throw_if-passes (not (capability_enabled outlet_id qr_ordering db))
      (forbidden_request qr_ordering_disabled) db db' u e).1

-- No table gains an open session.
abbrev pub Fewer : Db → Db → Type 0
Fewer db db' = (t k : ℕ) → open_sessions t k db' ≤ open_sessions t k db

pub close_row-Fewer :
    (env : Env) (session_id : ℕ) (db : Db) → Fewer db (close_row env session_id db)
unfolding close_row
close_row-Fewer env session_id db t k =
    count-fewer (open_at t k) (λ (s : TableSession). s.id == session_id) (end_session env)
      db.table_sessions (λ x. ground arith)

-- Why an open session may be closed for the next guest.
abbrev pub Displaced : Env → Db → Option TableSession → Type 0
Displaced env db none = Unit
Displaced env db (some s) = (not (is_session_inactive env s) && not (is_abandoned env s db)) ≡ false

-- The table that gives way has no open session left.
pub give_way-clears :
    (env : Env) (t k : ℕ) (o : Option TableSession) (u : Unit {0}) (db db' : Db)
    → find (open_at t k) db.table_sessions ≡ o
    → open_sessions t k db ≤ 1
    → give_way env o db ≡ ok (u, db')
    → (open_sessions t k db' ≡ 0) × Fewer db db' × Displaced env db o
unfolding close_row
give_way-clears env t k none u db db' found one e =
    let same = ap (λ (r : Unit {0} × Db). r.1) (ok-eq (tt, db) (u, db') e) in
    (
      ap (open_sessions t k) (sym same)
          ∙ find-count (open_at t k) db.table_sessions (ap is_some found),
      (λ a b. subst (λ (d : Db). open_sessions a b d ≤ open_sessions a b db) same (omega arith)),
      tt,
    )
give_way-clears env t k (some s) u db db' found one e =
    let (stale, last) =
      guarded (not (is_session_inactive env s) && not (is_abandoned env s db))
        (conflicting session_already_open) _ db e in
    let same = ap (λ (r : Unit {0} × Db). r.1) (ok-eq (tt, close_row env s.id db) (u, db') last) in
    let fewer =
      count-drop (open_at t k) (λ (x : TableSession). x.id == s.id) (end_session env)
        db.table_sessions s found (==_refl s.id) (λ x. ground arith) in
    (
      ap (open_sessions t k) (sym same) ∙ close_row-none fewer,
      subst (λ (d : Db). Fewer db d) same (close_row-Fewer env s.id db),
      stale,
    )
  where
    close_row-none :
        suc (
            count_where (open_at t k) (
              update_where
                (λ (x : TableSession). x.id == s.id)
                (end_session env)
                db.table_sessions))
          ≤ count_where (open_at t k) db.table_sessions
        → open_sessions t k (close_row env s.id db) ≡ 0
    close_row-none h = omega (arith, h, one)

pub open_new-adds :
    (env : Env) (tenant_id outlet_id : ℕ) (table_id : Option ℕ) (pin name : String)
    (g : GuestPrincipal) (db db' : Db)
    → open_new env tenant_id outlet_id table_id pin name db ≡ ok (g, db')
    → (db'.table_sessions
        ≡ db.table_sessions ++ new_session env tenant_id outlet_id table_id pin db.next_id ∷ [])
      × (g.session_id ≡ db.next_id)
      × (g.tenant_id ≡ tenant_id)
unfolding insert_session insert_guest
open_new-adds env tenant_id outlet_id table_id pin name g db db' e =
    let same = ok-eq _ (g, db') e in
    (
      ap (λ (r : GuestPrincipal × Db). r.1.table_sessions) (sym same),
      ap (λ (r : GuestPrincipal × Db). r.0.session_id) (sym same),
      ap (λ (r : GuestPrincipal × Db). r.0.tenant_id) (sym same),
    )

-- A new session at a table that has none, or at no table.
abbrev pub Opened : Db → TableSession → Db → Type 0
Opened db row db' = db'.table_sessions ≡ db.table_sessions ++ row ∷ []

pub count_after_opening :
    (t k : ℕ) (row : TableSession) (db db' : Db)
    → Opened db row db'
    → open_sessions t k db'
      ≡ (if open_at t k row then suc (open_sessions t k db) else open_sessions t k db)
count_after_opening t k row db db' added =
    ap (λ (ss : List TableSession). count_where (open_at t k) ss) added
    ∙ count-append (open_at t k) db.table_sessions row

-- A step leaves every table with at most one open session, where all had at most one.
abbrev pub Stays : {A : Type 0} → Tx A → Type 0
Stays {A} m = (a : A) (db db' : Db) → m db ≡ ok (a, db') → OneSession db → OneSession db'
