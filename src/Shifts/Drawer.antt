-- ===== src/Shifts/Drawer.antt =====
-- The shifts of an outlet under any requests of the till (pos/shifts/shifts.service.ts).
use restiq_backend.Base.{
  ℕ, ◌≤◌, ◌≡◌, refl, sym, ◌∙◌, ap, subst, true, false, not, Option, none, some, List, [], ◌∷◌, ◌++◌,
  ◌==◌, ==_iff, is_some, find, find-passes, find-append, find-update_other, any, any-count,
  count_where, count-append, count-fewer, update_where, Bool-cases, inl, inr, arith,
}
use restiq_backend.Base.Int.{ℤ}
use restiq_backend.Store.Rows.{Db, Shift}
use restiq_backend.Store.Transaction.{
  Tx, ok, ok-eq, >>=-eq-ok, serve_all, serve_all-keeps, bad_request, validation_failed,
  unauthorized, unauthorized_session, conflicting, shift_already_open, shift_already_closed,
}
use restiq_backend.Settle.{Env}
use restiq_backend.Settle.Tenders.{guarded, throw_if-passes}
use restiq_backend.Intents.{Staff}
use restiq_backend.Shifts.{
  ShiftView, load_shift_outlet, load_shift, load_open_shift, assert_staff_in_tenant, is_open_at,
  new_shift, insert_shift, open_shift, get_current_shift, get_shift, LogCashMovement,
  insert_movement, log_cash_movement, expected_in_drawer, closed_shift, update_shift, close_shift,
}

abbrev pub shift_in : ℕ → Db → Option Shift
shift_in shift_id db = find (λ (s : Shift). s.id == shift_id) db.shifts

-- No outlet has two open shifts.
abbrev pub OneOpen : Db → Type 0
OneOpen db = (outlet_id : ℕ) → count_where (is_open_at outlet_id) db.shifts ≤ 1

pub assert_staff-reads :
    (tenant_id staff_id : ℕ) (u : Unit {0}) (db db' : Db)
    → assert_staff_in_tenant tenant_id staff_id db ≡ ok (u, db')
    → db ≡ db'
unfolding assert_staff_in_tenant
assert_staff-reads tenant_id staff_id u db db' e =
    (throw_if-passes (not (any _ db.staff_users)) (unauthorized unauthorized_session) db db' u e).1

load_shift_outlet-reads :
    (tenant_id outlet_id : ℕ) (u : Unit {0}) (db db' : Db)
    → load_shift_outlet tenant_id outlet_id db ≡ ok (u, db')
    → db ≡ db'
unfolding load_shift_outlet
load_shift_outlet-reads tenant_id outlet_id u db db' e =
    (throw_if-passes (not (any _ db.outlets)) (bad_request validation_failed) db db' u e).1

pub load_shift-found :
    (tenant_id shift_id : ℕ) (s : Shift) (db db' : Db)
    → load_shift tenant_id shift_id db ≡ ok (s, db')
    → (db ≡ db') × (shift_in shift_id db ≡ some s)
unfolding load_shift
load_shift-found tenant_id shift_id s db db' e = (ground arith, ground arith)

pub load_open_shift-found :
    (tenant_id shift_id : ℕ) (s : Shift) (db db' : Db)
    → load_open_shift tenant_id shift_id db ≡ ok (s, db')
    → (db ≡ db') × (shift_in shift_id db ≡ some s) × (is_some s.closed_at ≡ false)
unfolding load_open_shift
load_open_shift-found tenant_id shift_id s db db' e =
    let (found, db1, loaded, e1) = >>=-eq-ok (load_shift tenant_id shift_id) _ db e in
    let (same, stored) = load_shift-found tenant_id shift_id found db db1 loaded in
    let (opened, last) =
      guarded (is_some found.closed_at) (conflicting shift_already_closed) _ db1 e1 in
    let pair = ok-eq (found, db1) (s, db') last in
    subst
      (λ (p : Shift × Db).
        (db ≡ p.1) × (shift_in shift_id db ≡ some p.0) × (is_some p.0.closed_at ≡ false))
      pair (same, stored, opened)

pub get_shift-reads :
    (staff : Staff) (shift_id : ℕ) (v : ShiftView) (db db' : Db)
    → get_shift staff shift_id db ≡ ok (v, db')
    → db ≡ db'
unfolding get_shift
get_shift-reads staff shift_id v db db' e =
    let (s, db1, loaded, last) = >>=-eq-ok (load_shift staff.tenant_id shift_id) _ db e in
    (load_shift-found staff.tenant_id shift_id s db db1 loaded).0
    ∙ ap (λ (p : ShiftView × Db). p.1) (ok-eq (_, db1) (v, db') last)

infix 40 ◌⟹◌
-- What a step does to the table of shifts: nothing, a new open shift at an outlet that has none, or
-- closing an open one.
pub data ◌⟹◌ : Db → Db → Type 0 where
  same_shifts : {db db' : Db} → db'.shifts ≡ db.shifts → db ⟹ db'
  shift_opened :
      {db db' : Db} (s : Shift)
      → any (is_open_at s.outlet_id) db.shifts ≡ false
      → s.closed_at ≡ none
      → db'.shifts ≡ db.shifts ++ s ∷ []
      → db ⟹ db'
  shift_closed :
      {db db' : Db} (s : Shift) (env : Env) (staff : Staff) (counted expected : ℤ)
      → shift_in s.id db ≡ some s
      → is_some s.closed_at ≡ false
      → db'.shifts
        ≡ update_where
            (λ (x : Shift). x.id == s.id)
            (closed_shift env staff counted expected)
            db.shifts
      → db ⟹ db'

open_shift-⟹ :
    (env : Env) (staff : Staff) (outlet_id : ℕ) (float_minor : ℤ) (v : ShiftView) (db db' : Db)
    → open_shift env staff outlet_id float_minor db ≡ ok (v, db')
    → db ⟹ db'
unfolding open_shift insert_shift
open_shift-⟹ env staff outlet_id float_minor v db db' e =
    let (u1, db1, known, e1) = >>=-eq-ok (assert_staff_in_tenant staff.tenant_id staff.id) _ db e in
    let same1 = assert_staff-reads staff.tenant_id staff.id u1 db db1 known in
    let (u2, db2, placed, e2) = >>=-eq-ok (load_shift_outlet staff.tenant_id outlet_id) _ db1 e1 in
    let same2 = load_shift_outlet-reads staff.tenant_id outlet_id u2 db1 db2 placed in
    let (free, e3) =
      guarded (any (is_open_at outlet_id) db2.shifts) (conflicting shift_already_open) _ db2 e2 in
    let row = new_shift env staff outlet_id float_minor db2.next_id in
    let shifts = ap (λ (d : Db). d.shifts) (sym (same1 ∙ same2)) in
    shift_opened row (ap (λ (ss : List Shift). any (is_open_at outlet_id) ss) (sym shifts) ∙ free)
      refl
      (ap (λ (p : ShiftView × Db). p.1.shifts) (sym (ok-eq _ (v, db') e3))
        ∙ ap (λ (ss : List Shift). ss ++ row ∷ []) shifts)

get_current_shift-reads :
    (staff : Staff) (outlet_id : ℕ) (v : ShiftView) (db db' : Db)
    → get_current_shift staff outlet_id db ≡ ok (v, db')
    → db ≡ db'
unfolding get_current_shift
get_current_shift-reads staff outlet_id v db db' e =
    let (u1, db1, placed, e1) = >>=-eq-ok (load_shift_outlet staff.tenant_id outlet_id) _ db e in
    load_shift_outlet-reads staff.tenant_id outlet_id u1 db db1 placed ∙ ground (arith, e1)

log_cash_movement-⟹ :
    (env : Env) (staff : Staff) (shift_id : ℕ) (dto : LogCashMovement) (v : ShiftView) (db db' : Db)
    → log_cash_movement env staff shift_id dto db ≡ ok (v, db')
    → db ⟹ db'
unfolding log_cash_movement insert_movement
log_cash_movement-⟹ env staff shift_id dto v db db' e =
    let (u1, db1, known, e1) = >>=-eq-ok (assert_staff_in_tenant staff.tenant_id staff.id) _ db e in
    let same1 = assert_staff-reads staff.tenant_id staff.id u1 db db1 known in
    let (s, db2, loaded, e2) = >>=-eq-ok (load_open_shift staff.tenant_id shift_id) _ db1 e1 in
    let (same2, _, _) = load_open_shift-found staff.tenant_id shift_id s db1 db2 loaded in
    let db3 : Db = insert_movement env staff shift_id dto db2 in
    let same3 = get_shift-reads staff shift_id v db3 db' e2 in
    same_shifts
      (ap (λ (d : Db). d.shifts) (sym same3) ∙ ap (λ (d : Db). d.shifts) (sym (same1 ∙ same2)))

update_shift-writes :
    (shift_id : ℕ) (f : Shift → Shift) (v : ShiftView) (db db' : Db)
    → update_shift shift_id f db ≡ ok (v, db')
    → db' ≡ record db { shifts = update_where (λ (x : Shift). x.id == shift_id) f db.shifts }
unfolding update_shift
update_shift-writes shift_id f v db db' e = ground arith

-- What a close that returns has found and written.
pub close_shift-found :
    (env : Env) (staff : Staff) (shift_id : ℕ) (counted : ℤ) (v : ShiftView) (db db' : Db)
    → close_shift env staff shift_id counted db ≡ ok (v, db')
    → (s : Shift) × (shift_in shift_id db ≡ some s)
      × (is_some s.closed_at ≡ false)
      × (update_shift shift_id
            (closed_shift env staff counted (expected_in_drawer db staff.tenant_id s))
            db
          ≡ ok (v, db'))
unfolding close_shift
close_shift-found env staff shift_id counted v db db' e =
    let (u1, db1, known, e1) = >>=-eq-ok (assert_staff_in_tenant staff.tenant_id staff.id) _ db e in
    let same1 = assert_staff-reads staff.tenant_id staff.id u1 db db1 known in
    let (s, db2, loaded, e2) = >>=-eq-ok (load_open_shift staff.tenant_id shift_id) _ db1 e1 in
    let (same2, stored, opened) = load_open_shift-found staff.tenant_id shift_id s db1 db2 loaded in
    (
      s,
      ap (λ (d : Db). shift_in shift_id d) same1 ∙ stored,
      opened,
      ap
            (λ (d : Db).
              update_shift shift_id
                (closed_shift env staff counted (expected_in_drawer d staff.tenant_id s)) d)
            (same1 ∙ same2)
          ∙ e2,
    )

pub found-id :
    (shift_id : ℕ) (s : Shift) (db : Db) → shift_in shift_id db ≡ some s → s.id ≡ shift_id
found-id shift_id s db h =
    ground
      (arith, find-passes (λ (x : Shift). x.id == shift_id) db.shifts s h, ==_iff s.id shift_id)

close_shift-⟹ :
    (env : Env) (staff : Staff) (shift_id : ℕ) (counted : ℤ) (v : ShiftView) (db db' : Db)
    → close_shift env staff shift_id counted db ≡ ok (v, db')
    → db ⟹ db'
close_shift-⟹ env staff shift_id counted v db db' e =
    let (s, stored, opened, updated) = close_shift-found env staff shift_id counted v db db' e in
    let expected = expected_in_drawer db staff.tenant_id s in
    let f = closed_shift env staff counted expected in
    let ids = found-id shift_id s db stored in
    shift_closed s env staff counted expected (ap (λ (k : ℕ). shift_in k db) ids ∙ stored) opened (
      ap (λ (d : Db). d.shifts) (update_shift-writes shift_id f v db db' updated)
      ∙ ap (λ (k : ℕ). update_where (λ (x : Shift). x.id == k) f db.shifts) (sym ids))

-- A request of the till on the shifts.
pub data ShiftRequest : Type 0 where
  open_it : ℕ → ℤ → ShiftRequest
  current : ℕ → ShiftRequest
  show_it : ℕ → ShiftRequest
  log_it : ℕ → LogCashMovement → ShiftRequest
  close_it : ℕ → ℤ → ShiftRequest

pub handle_shift : Env × Staff × ShiftRequest → Tx ShiftView
handle_shift (env, staff, open_it outlet_id float_minor) =
    open_shift env staff outlet_id float_minor
handle_shift (env, staff, current outlet_id) = get_current_shift staff outlet_id
handle_shift (env, staff, show_it shift_id) = get_shift staff shift_id
handle_shift (env, staff, log_it shift_id dto) = log_cash_movement env staff shift_id dto
handle_shift (env, staff, close_it shift_id counted) = close_shift env staff shift_id counted

handle_shift-⟹ :
    (r : Env × Staff × ShiftRequest) (db db' : Db) (v : ShiftView)
    → handle_shift r db ≡ ok (v, db')
    → db ⟹ db'
unfolding handle_shift
handle_shift-⟹ (env, staff, open_it outlet_id float_minor) db db' v e =
    open_shift-⟹ env staff outlet_id float_minor v db db' e
handle_shift-⟹ (env, staff, current outlet_id) db db' v e =
    same_shifts
      (ap (λ (d : Db). d.shifts) (sym (get_current_shift-reads staff outlet_id v db db' e)))
handle_shift-⟹ (env, staff, show_it shift_id) db db' v e =
    same_shifts (ap (λ (d : Db). d.shifts) (sym (get_shift-reads staff shift_id v db db' e)))
handle_shift-⟹ (env, staff, log_it shift_id dto) db db' v e =
    log_cash_movement-⟹ env staff shift_id dto v db db' e
handle_shift-⟹ (env, staff, close_it shift_id counted) db db' v e =
    close_shift-⟹ env staff shift_id counted v db db' e

step-OneOpen : {db db' : Db} → db ⟹ db' → OneOpen db → OneOpen db'
step-OneOpen (same_shifts same) h o =
    subst (λ (ss : List Shift). count_where (is_open_at o) ss ≤ 1) (sym same) (h o)
step-OneOpen {db} {db'} (shift_opened s free opened added) h o =
    subst (λ (ss : List Shift). count_where (is_open_at o) ss ≤ 1) (sym added)
      (ground (
        arith,
        count-append (is_open_at o) db.shifts s,
        h o,
        any-count (is_open_at s.outlet_id) db.shifts free,
        ==_iff s.outlet_id o,
      ))
step-OneOpen {db} {db'} (shift_closed s env staff counted expected stored opened written) h o =
    subst (λ (ss : List Shift). count_where (is_open_at o) ss ≤ 1) (sym written)
      (omega (
        arith,
        count-fewer (is_open_at o) (λ (x : Shift). x.id == s.id)
            (closed_shift env staff counted expected) db.shifts (λ x. ground arith),
        h o,
      ))

-- A closed shift, as it is stored.
abbrev pub ClosedAs : ℕ → Shift → Db → Type 0
ClosedAs shift_id s db = (shift_in shift_id db ≡ some s) × (is_some s.closed_at ≡ true)

step-ClosedAs :
    {db db' : Db} (shift_id : ℕ) (s : Shift)
    → db ⟹ db'
    → ClosedAs shift_id s db
    → ClosedAs shift_id s db'
step-ClosedAs shift_id s (same_shifts same) (stored, over) =
    (ap (λ (ss : List Shift). find (λ (x : Shift). x.id == shift_id) ss) same ∙ stored, over)
step-ClosedAs {db} shift_id s (shift_opened row free opened added) (stored, over) = (
  ap (λ (ss : List Shift). find (λ (x : Shift). x.id == shift_id) ss) added
      ∙ find-append (λ (x : Shift). x.id == shift_id) db.shifts row s stored,
  over,
)
step-ClosedAs {db} shift_id s (shift_closed t env staff counted expected found opened written)
      (stored, over) =
    let f = closed_shift env staff counted expected in
    let hit =
      find-update_other (λ (x : Shift). x.id == shift_id) (λ (x : Shift). x.id == t.id) f db.shifts
        s (λ x. refl) stored in
    let ids = found-id shift_id s db stored in
    elim (Bool-cases (s.id == t.id)) [
      | inl same ↦
          let k : shift_id ≡ t.id = ground (arith, ==_iff s.id t.id) in
          let both : some s ≡ some t = sym stored ∙ ap (λ (n : ℕ). shift_in n db) k ∙ found in
          absurd (ground arith)
      | inr other ↦ (
        ap (λ (ss : List Shift). find (λ (x : Shift). x.id == shift_id) ss) written
            ∙ rw other at hit,
        over,
      )
    ]

-- An outlet has at most one open shift, whatever requests of the till are served, in whatever order, where it had at most one before.
pub serve_shifts-OneOpen :
    (rs : List (Env × Staff × ShiftRequest)) (db : Db)
    → OneOpen db
    → OneOpen (serve_all handle_shift db rs)
serve_shifts-OneOpen rs db h =
    serve_all-keeps handle_shift OneOpen
      (λ r d d' v one e. step-OneOpen (handle_shift-⟹ r d d' v e) one) rs db h

-- A closed shift keeps its count, what was expected and the difference, through any later requests of the till: no request writes it again.
pub serve_shifts-closed :
    (rs : List (Env × Staff × ShiftRequest)) (db : Db) (shift_id : ℕ) (s : Shift)
    → shift_in shift_id db ≡ some s
    → is_some s.closed_at ≡ true
    → shift_in shift_id (serve_all handle_shift db rs) ≡ some s
serve_shifts-closed rs db shift_id s stored over =
    (serve_all-keeps handle_shift (ClosedAs shift_id s)
      (λ r d d' v c e. step-ClosedAs shift_id s (handle_shift-⟹ r d d' v e) c) rs db
      (stored, over)).0
