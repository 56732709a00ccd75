-- ===== src/Shifts.antt =====
-- The cash drawer of an outlet, pos/shifts/shifts.service.ts. An endpoint's view of a shift is the
-- shift with its movements. The unique index's answer to a concurrent request is not modelled.
pub mod Drawer
pub mod Closing
pub mod Refunds
mod Tests
use restiq_backend.Base.{
  ℕ, suc, Bool, true, false, not, ◌&&◌, Option, none, some, List, [], ◌∷◌, ◌++◌, String, leb, ◌==◌,
  if◌then◌else◌, is_some, or_else, find, select, any, update_where,
}
use restiq_backend.Base.Int.{ℤ, pos, ◌+ℤ◌, ◌-ℤ◌, ltb_ℤ}
use restiq_backend.Store.Rows.{
  Db, Shift, CashMovement, CashMovementType, paid_out, bank_drop, Bill, Tender, TenderMethod, cash,
  is_cash, is_finalized, CreditNote,
}
use restiq_backend.Store.Transaction.{
  Tx, ok, err, pure, gets, ◌>>=◌, ◌>>◌, throw_if, modify, failure, bad_request, missing,
  conflicting, unauthorized, validation_failed, not_found, unauthorized_session, shift_already_open,
  shift_already_closed,
}
use restiq_backend.Settle.{Env, sum_tenders}
use restiq_backend.Intents.{Staff}

-- The shift and its movements, in the order of their creation.
abbrev pub ShiftView : Type 0
ShiftView = Shift × List CashMovement

abbrev pub movements_of : ℕ → Db → List CashMovement
movements_of shift_id db = select (λ m. m.shift_id == shift_id) db.cash_movements

-- `loadOutlet`
unfoldable pub load_shift_outlet : ℕ → ℕ → Tx (Unit {0})
load_shift_outlet tenant_id outlet_id =
    gets (λ db. any (λ o. o.id == outlet_id && o.tenant_id == tenant_id) db.outlets) >>= λ known.
    throw_if (not known) (bad_request validation_failed)

unfoldable pub load_shift : ℕ → ℕ → Tx Shift
load_shift tenant_id shift_id db = elim (find (λ s. s.id == shift_id) db.shifts) [
  | none ↦ err (missing not_found)
  | some shift ↦ if shift.tenant_id == tenant_id then ok (shift, db) else err (missing not_found)
]

unfoldable pub load_open_shift : ℕ → ℕ → Tx Shift
load_open_shift tenant_id shift_id = do
  shift ← load_shift tenant_id shift_id
  throw_if (is_some shift.closed_at) (conflicting shift_already_closed)
  pure shift

-- The bill of a tender was finalised at the outlet since then.
unfoldable pub sold_since : Db → ℕ → ℕ → Tender → Bool
sold_since db outlet_id since t =
    any
      (λ b.
        b.id == t.bill_id
        && b.outlet_id == outlet_id
        && is_finalized b.status
        && elim b.finalized_at [ none ↦ false | some done ↦ leb since done ])
      db.bills

-- `computeCashSalesMinor`
unfoldable pub compute_cash_sales_minor : Db → ℕ → ℕ → ℕ → ℤ
unfolding sold_since
compute_cash_sales_minor db tenant_id outlet_id since = sum_tenders (pos 0) (
    select (λ t. t.tenant_id == tenant_id && is_cash t.method && sold_since db outlet_id since t)
      db.tenders)

-- The cash that a bill was paid with.
unfoldable pub cash_of_bill : Db → ℕ → ℤ
cash_of_bill db bill_id =
    sum_tenders (pos 0) (select (λ t. t.bill_id == bill_id && is_cash t.method) db.tenders)

-- The note's bill includes its tax. Every note's bill is stored.
abbrev pub includes_tax : Db → ℕ → Bool
includes_tax db bill_id = any (λ b. b.id == bill_id && b.prices_include_tax) db.bills

abbrev pub note_total : Db → CreditNote → ℤ
note_total db note =
    if includes_tax db note.original_bill_id
    then note.subtotal_minor
    else note.subtotal_minor +ℤ note.tax_minor

-- What of a note left the drawer, where its bill has `left` of its cash.
abbrev pub note_cash : Option TenderMethod → ℤ → ℤ → ℤ
note_cash none total left = if ltb_ℤ total left then total else left
note_cash (some method) total left = if is_cash method then total else pos 0

-- `cashLeft.set`
abbrev pub set_left : ℕ → ℤ → (ℕ → Option ℤ) → ℕ → Option ℤ
set_left bill_id left cash_left k = if k == bill_id then some left else cash_left k

-- The loop over the notes, with `cashLeft` and `refundedMinor`.
unfoldable pub walk_refunds : Db → ℕ → (ℕ → Option ℤ) → ℤ → List CreditNote → ℤ
unfolding cash_of_bill
walk_refunds db since cash_left refunded [] = refunded
walk_refunds db since cash_left refunded (note ∷ notes) =
    let left = or_else (cash_left note.original_bill_id) (cash_of_bill db note.original_bill_id) in
    let taken = note_cash note.method (note_total db note) left in
    let left' = if ltb_ℤ taken left then left -ℤ taken else pos 0 in
    walk_refunds db since (set_left note.original_bill_id left' cash_left)
      (if leb since note.created_at then refunded +ℤ taken else refunded) notes

-- The note was issued at the outlet since then.
abbrev pub issued_since : Db → ℕ → ℕ → ℕ → CreditNote → Bool
issued_since db tenant_id outlet_id since n =
    n.tenant_id == tenant_id
    && leb since n.created_at
    && any (λ b. b.id == n.original_bill_id && b.outlet_id == outlet_id) db.bills

-- `computeCashRefundsMinor`: every note of the bills that were refunded in the shift, the earlier
-- notes included.
unfoldable pub compute_cash_refunds_minor : Db → ℕ → ℕ → ℕ → ℤ
unfolding walk_refunds
compute_cash_refunds_minor db tenant_id outlet_id since =
    let in_shift = select (issued_since db tenant_id outlet_id since) db.credit_notes in
    let notes =
      select
        (λ n.
          n.tenant_id == tenant_id && any (λ m. m.original_bill_id == n.original_bill_id) in_shift)
        db.credit_notes in
    walk_refunds db since (λ k. none) (pos 0) notes

-- `assertStaffInTenant`
unfoldable pub assert_staff_in_tenant : ℕ → ℕ → Tx (Unit {0})
assert_staff_in_tenant tenant_id staff_id =
    gets (λ db. any (λ s. s.id == staff_id && s.tenant_id == tenant_id) db.staff_users) >>= λ known.
    throw_if (not known) (unauthorized unauthorized_session)

abbrev pub is_open_at : ℕ → Shift → Bool
is_open_at outlet_id s = s.outlet_id == outlet_id && not (is_some s.closed_at)

abbrev pub new_shift : Env → Staff → ℕ → ℤ → ℕ → Shift
new_shift env staff outlet_id float_minor id = record {
  id = id;
  tenant_id = staff.tenant_id;
  outlet_id = outlet_id;
  opened_by_staff_id = staff.id;
  float_minor = float_minor;
  opened_at = env.now;
  closed_by_staff_id = none;
  closed_at = none;
  counted_minor = none;
  expected_minor = none;
  over_short_minor = none;
}

unfoldable pub insert_shift : Shift → Tx ShiftView
insert_shift shift db =
    ok ((shift, []), record db { shifts = db.shifts ++ shift ∷ []; next_id = suc db.next_id })

-- `openShift`
unfoldable pub open_shift : Env → Staff → ℕ → ℤ → Tx ShiftView
open_shift env staff outlet_id float_minor = do
  assert_staff_in_tenant staff.tenant_id staff.id
  load_shift_outlet staff.tenant_id outlet_id
  already_open ← gets (λ db. any (is_open_at outlet_id) db.shifts)
  throw_if already_open (conflicting shift_already_open)
  id ← gets (λ db. db.next_id)
  insert_shift (new_shift env staff outlet_id float_minor id)

-- `getCurrentShift`
unfoldable pub get_current_shift : Staff → ℕ → Tx ShiftView
get_current_shift staff outlet_id = do
  load_shift_outlet staff.tenant_id outlet_id
  shift ← (λ db. elim (find (is_open_at outlet_id) db.shifts) [
    | none ↦ err (missing not_found)
    | some shift ↦ ok (shift, db)
  ])
  gets (λ db. (shift, movements_of shift.id db))

-- `getShift`
unfoldable pub get_shift : Staff → ℕ → Tx ShiftView
get_shift staff shift_id = do
  shift ← load_shift staff.tenant_id shift_id
  gets (λ db. (shift, movements_of shift.id db))

pub record LogCashMovement : Type 0 where
  pub kind : CashMovementType
  pub amount_minor : ℤ
  pub reason : String

unfoldable pub insert_movement : Env → Staff → ℕ → LogCashMovement → Db → Db
insert_movement env staff shift_id dto db = record db {
  cash_movements =
      db.cash_movements
      ++ record {
        id = db.next_id;
        tenant_id = staff.tenant_id;
        shift_id = shift_id;
        kind = dto.kind;
        amount_minor = dto.amount_minor;
        reason = dto.reason;
        created_by_staff_id = staff.id;
        created_at = env.now;
      }
        ∷ [];
  next_id = suc db.next_id;
}

-- `logCashMovement`
unfoldable pub log_cash_movement : Env → Staff → ℕ → LogCashMovement → Tx ShiftView
unfolding insert_movement
log_cash_movement env staff shift_id dto = do
  assert_staff_in_tenant staff.tenant_id staff.id
  shift ← load_open_shift staff.tenant_id shift_id
  modify (insert_movement env staff shift_id dto)
  get_shift staff shift_id

abbrev pub is_paid_out : CashMovementType → Bool
is_paid_out paid_out = true
is_paid_out bank_drop = false

-- `paidOutMinor` and `bankDropMinor` after the loop over the movements.
unfoldable pub sum_movements : ℤ → ℤ → List CashMovement → ℤ × ℤ
sum_movements paid_out_minor bank_drop_minor [] = (paid_out_minor, bank_drop_minor)
sum_movements paid_out_minor bank_drop_minor (m ∷ ms) =
    if is_paid_out m.kind
    then sum_movements (paid_out_minor +ℤ m.amount_minor) bank_drop_minor ms
    else sum_movements paid_out_minor (bank_drop_minor +ℤ m.amount_minor) ms

-- `expectedMinor`
unfoldable pub expected_in_drawer : Db → ℕ → Shift → ℤ
unfolding compute_cash_sales_minor compute_cash_refunds_minor sum_movements
expected_in_drawer db tenant_id shift =
    let moved = sum_movements (pos 0) (pos 0) (movements_of shift.id db) in
    shift.float_minor
    +ℤ compute_cash_sales_minor db tenant_id shift.outlet_id shift.opened_at
    -ℤ compute_cash_refunds_minor db tenant_id shift.outlet_id shift.opened_at
    -ℤ moved.0
    -ℤ moved.1

abbrev pub closed_shift : Env → Staff → ℤ → ℤ → Shift → Shift
closed_shift env staff counted_minor expected_minor s = record s {
  closed_by_staff_id = some staff.id;
  closed_at = some env.now;
  counted_minor = some counted_minor;
  expected_minor = some expected_minor;
  over_short_minor = some (counted_minor -ℤ expected_minor);
}

-- `tx.shift.update`, which returns the row and throws where there is none.
unfoldable pub update_shift : ℕ → (Shift → Shift) → Tx ShiftView
update_shift shift_id f db = elim (find (λ s. s.id == shift_id) db.shifts) [
  | none ↦ err failure
  | some s ↦ ok (
    (f s, movements_of shift_id db),
    record db { shifts = update_where (λ s. s.id == shift_id) f db.shifts },
  )
]

-- `closeShift`
unfoldable pub close_shift : Env → Staff → ℕ → ℤ → Tx ShiftView
unfolding expected_in_drawer
close_shift env staff shift_id counted_minor = do
  assert_staff_in_tenant staff.tenant_id staff.id
  shift ← load_open_shift staff.tenant_id shift_id
  expected_minor ← gets (λ db. expected_in_drawer db staff.tenant_id shift)
  update_shift shift_id (closed_shift env staff counted_minor expected_minor)
