-- ===== src/Shifts/Closing.antt =====
-- What a shift's drawer should hold (`closeShift` and `logCashMovement` of
-- pos/shifts/shifts.service.ts).
use restiq_backend.Base.{
  ℕ, ◌≡◌, refl, sym, ◌∙◌, ap, Bool, true, false, some, List, [], ◌∷◌, ◌++◌, ◌==◌, ==_refl,
  if◌then◌else◌, is_some, find, find-update_where, select, Bool-cases, inl, inr, arith,
}
use restiq_backend.Base.Int.{ℤ, pos, ◌+ℤ◌, ◌-ℤ◌, int_laws}
use restiq_backend.Store.Rows.{Db, Shift, CashMovement}
use restiq_backend.Store.Transaction.{ok, ok-eq, >>=-eq-ok}
use restiq_backend.Settle.{Env}
use restiq_backend.Intents.{Staff}
use restiq_backend.Shifts.{
  ShiftView, load_open_shift, assert_staff_in_tenant, LogCashMovement, insert_movement,
  log_cash_movement, is_paid_out, sum_movements, movements_of, expected_in_drawer, closed_shift,
  update_shift, close_shift, compute_cash_sales_minor, compute_cash_refunds_minor,
}
use restiq_backend.Shifts.Drawer.{
  shift_in, found-id, assert_staff-reads, load_open_shift-found, close_shift-found, get_shift-reads,
}

-- The shift is closed, stored, and its difference is what was counted beyond what was expected.
pub record Balanced (env : Env) (staff : Staff) (shift_id : ℕ) (counted : ℤ) (s s' : Shift)
    (db db' : Db) : Type 0 where
  pub was_open : is_some s.closed_at ≡ false
  pub before : shift_in shift_id db ≡ some s
  pub after : shift_in shift_id db' ≡ some s'
  pub closed_now : s'.closed_at ≡ some env.now
  pub closed_by : s'.closed_by_staff_id ≡ some staff.id
  pub counted_is : s'.counted_minor ≡ some counted
  pub expected_is : s'.expected_minor ≡ some (expected_in_drawer db staff.tenant_id s)
  pub difference :
      (over : ℤ) × (s'.over_short_minor ≡ some over)
      × (expected_in_drawer db staff.tenant_id s +ℤ over ≡ counted)

update_shift-stores :
    (shift_id : ℕ) (f : Shift → Shift) (s : Shift) (v : ShiftView) (db db' : Db)
    → ((x : Shift) → (f x).id ≡ x.id)
    → shift_in shift_id db ≡ some s
    → update_shift shift_id f db ≡ ok (v, db')
    → (v.0 ≡ f s) × (shift_in shift_id db' ≡ some (f s))
unfolding update_shift
update_shift-stores shift_id f s v db db' keep stored e =
    let found : find (λ (x : Shift). x.id == shift_id) db.shifts ≡ some s = stored in
    let hit =
      find-update_where (λ (x : Shift). x.id == shift_id) f db.shifts s
        (λ x. ap (λ (k : ℕ). k == shift_id) (keep x)) stored in
    let same = ok-eq _ (v, db') (rw (found, update_shift) at e) in
    (
      ap (λ (p : ShiftView × Db). p.0.0) (sym same),
      ap (λ (p : ShiftView × Db). shift_in shift_id p.1) (sym same) ∙ hit,
    )

difference_lem : (counted expected : ℤ) → expected +ℤ (counted -ℤ expected) ≡ counted
difference_lem counted expected = omega int_laws

-- Closing a shift with a count, where it returns: the shift was stored and open, it is stored closed by this staff member at this time with that count, what it expects is what the drawer should hold at this moment, and the recorded difference makes up exactly what was counted.
pub close_shift-Balanced :
    (env : Env) (staff : Staff) (shift_id : ℕ) (counted : ℤ) (v : ShiftView) (db db' : Db)
    → close_shift env staff shift_id counted db ≡ ok (v, db')
    → (s : Shift) × Balanced env staff shift_id counted s v.0 db db'
close_shift-Balanced env staff shift_id counted v db db' e =
    let (s, stored, opened, updated) = close_shift-found env staff shift_id counted v db db' e in
    let expected = expected_in_drawer db staff.tenant_id s in
    let f = closed_shift env staff counted expected in
    let (row, kept) = update_shift-stores shift_id f s v db db' (λ x. refl) stored updated in
    (
      s,
      record {
        was_open = opened;
        before = stored;
        after = kept ∙ ap some (sym row);
        closed_now = ap (λ (x : Shift). x.closed_at) row;
        closed_by = ap (λ (x : Shift). x.closed_by_staff_id) row;
        counted_is = ap (λ (x : Shift). x.counted_minor) row;
        expected_is = ap (λ (x : Shift). x.expected_minor) row;
        difference = (
          counted -ℤ expected,
          ap (λ (x : Shift). x.over_short_minor) row,
          difference_lem counted expected,
        );
      },
    )

select-append :
    {A : Type 0} (p : A → Bool) (xs : List A) (x : A)
    → p x ≡ true
    → select p (xs ++ x ∷ []) ≡ select p xs ++ x ∷ []
select-append p [] x on = rw on
select-append p (y ∷ ys) x on = ground (arith, select-append p ys x on)

-- The two sums after one more movement.
add_movement : CashMovement → ℤ × ℤ → ℤ × ℤ
add_movement m (a, b) =
    if is_paid_out m.kind then (a +ℤ m.amount_minor, b) else (a, b +ℤ m.amount_minor)

sum_movements-append :
    (a b : ℤ) (ms : List CashMovement) (m : CashMovement)
    → sum_movements a b (ms ++ m ∷ []) ≡ add_movement m (sum_movements a b ms)
unfolding sum_movements add_movement
sum_movements-append a b [] m = refl
sum_movements-append a b (x ∷ xs) m = elim (Bool-cases (is_paid_out x.kind)) [
  | inl out ↦ rw out (sum_movements-append (a +ℤ x.amount_minor) b xs m)
  | inr drop ↦ rw drop (sum_movements-append a (b +ℤ x.amount_minor) xs m)
]

-- Taking from what should be in the drawer.
less : ℤ → ℤ × ℤ → ℤ
less base (a, b) = base -ℤ a -ℤ b

less-add :
    (base : ℤ) (p : ℤ × ℤ) (m : CashMovement)
    → less base (add_movement m p) +ℤ m.amount_minor ≡ less base p
unfolding less add_movement
less-add base (a, b) m = elim (Bool-cases (is_paid_out m.kind)) [
  | inl out ↦ rw out (omega int_laws)
  | inr drop ↦ rw drop (omega int_laws)
]

inserted-expected :
    (env : Env) (staff : Staff) (dto : LogCashMovement) (t : ℕ) (s : Shift) (db : Db)
    → expected_in_drawer (insert_movement env staff s.id dto db) t s +ℤ dto.amount_minor
      ≡ expected_in_drawer db t s
unfolding expected_in_drawer insert_movement compute_cash_sales_minor compute_cash_refunds_minor
    less add_movement
inserted-expected env staff dto t s db =
    let m : CashMovement = record {
      id = db.next_id;
      tenant_id = staff.tenant_id;
      shift_id = s.id;
      kind = dto.kind;
      amount_minor = dto.amount_minor;
      reason = dto.reason;
      created_by_staff_id = staff.id;
      created_at = env.now;
    } in
    let base =
      s.float_minor
      +ℤ compute_cash_sales_minor db t s.outlet_id s.opened_at
      -ℤ compute_cash_refunds_minor db t s.outlet_id s.opened_at in
    let moved =
      ap (λ (ms : List CashMovement). sum_movements (pos 0) (pos 0) ms)
        (select-append (λ (x : CashMovement). x.shift_id == s.id) db.cash_movements m
          (==_refl s.id))
      ∙ sum_movements-append (pos 0) (pos 0) (movements_of s.id db) m in
    ap (λ (p : ℤ × ℤ). base -ℤ p.0 -ℤ p.1 +ℤ dto.amount_minor) moved
    ∙ less-add base (sum_movements (pos 0) (pos 0) (movements_of s.id db)) m

-- Logging a cash movement, where it returns: the shift is stored and open, and what its drawer should hold falls by exactly the movement's amount, whether it was paid out or dropped at the bank.
pub log_cash_movement-expected :
    (env : Env) (staff : Staff) (shift_id : ℕ) (dto : LogCashMovement) (v : ShiftView) (db db' : Db)
    → log_cash_movement env staff shift_id dto db ≡ ok (v, db')
    → (s : Shift) × (shift_in shift_id db ≡ some s)
      × (is_some s.closed_at ≡ false)
      × (expected_in_drawer db' staff.tenant_id s +ℤ dto.amount_minor
          ≡ expected_in_drawer db staff.tenant_id s)
unfolding log_cash_movement
log_cash_movement-expected env staff shift_id dto v db db' e =
    let (u1, db1, known, e1) = >>=-eq-ok (assert_staff_in_tenant staff.tenant_id staff.id) _ db e in
    let same1 = assert_staff-reads staff.tenant_id staff.id u1 db db1 known in
    let (s, db2, loaded, e2) = >>=-eq-ok (load_open_shift staff.tenant_id shift_id) _ db1 e1 in
    let (same2, stored, opened) = load_open_shift-found staff.tenant_id shift_id s db1 db2 loaded in
    let same3 =
      get_shift-reads staff shift_id v (insert_movement env staff shift_id dto db2) db' e2 in
    let before = ap (λ (d : Db). shift_in shift_id d) same1 ∙ stored in
    let ids = found-id shift_id s db before in
    (
      s,
      before,
      opened,
      ap (λ (d : Db). expected_in_drawer d staff.tenant_id s +ℤ dto.amount_minor) (sym same3)
          ∙ ap
              (λ (k : ℕ).
                expected_in_drawer (insert_movement env staff k dto db2) staff.tenant_id s
                +ℤ dto.amount_minor)
              (sym ids)
          ∙ inserted-expected env staff dto staff.tenant_id s db2
          ∙ ap (λ (d : Db). expected_in_drawer d staff.tenant_id s) (sym (same1 ∙ same2)),
    )
