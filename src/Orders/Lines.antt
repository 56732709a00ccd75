-- ===== src/Orders/Lines.antt =====
-- Taking a line off an order, pos/orders/order-lines.service.ts.
use restiq_backend.Base.{
  ℕ, ◌+◌, Bool, true, not, ◌&&◌, ◌||◌, none, some, ltb, ◌==◌, if◌then◌else◌, is_some, find, select,
  any, count_where, update_where,
}
use restiq_backend.Store.Rows.{Db, Order, is_closed, OrderLine, TicketLine, is_paid}
use restiq_backend.Store.Transaction.{
  Tx, Result, ok, err, gets, ◌>>=◌, ◌>>◌, throw_if, modify, conflicting, missing, not_found,
  conflict, combo_locked, line_sent, line_not_sent, bill_has_payments,
}
use restiq_backend.Settle.{Env, is_active_status}
use restiq_backend.Intents.{Staff}
use restiq_backend.Manager.{ManagerApproval, record_approval}
use restiq_backend.Refund.{from_result, is_child_of}
use restiq_backend.Orders.{load_order, assert_owner, bill_for}

unfoldable pub assert_order_not_closed : Order → Tx (Unit {0})
assert_order_not_closed order = throw_if (is_closed order.status) (conflicting conflict)

unfoldable pub load_order_line : ℕ → ℕ → ℕ → Tx OrderLine
load_order_line tenant_id order_id line_id db = elim (find (λ l. l.id == line_id) db.order_lines) [
  | none ↦ err (missing not_found)
  | some line ↦
      if line.tenant_id == tenant_id && line.order_id == order_id && not (is_some line.voided_at)
      then ok (line, db)
      else err (missing not_found)
]

-- The line is this one or, of a combo, an item in it: `lineAndChildIds`.
abbrev pub is_part_of : ℕ → OrderLine → Bool
is_part_of line_id l = l.id == line_id || is_child_of line_id l

-- A ticket line of the line or of an item in it.
unfoldable pub on_ticket : Db → ℕ → TicketLine → Bool
on_ticket db line_id t = any (λ l. is_part_of line_id l && l.id == t.order_line_id) db.order_lines

unfoldable pub is_sent_to_kitchen : ℕ → Db → Bool
unfolding on_ticket
is_sent_to_kitchen line_id db = any (on_ticket db line_id) db.ticket_lines

-- Tenders, payments in progress and paid shares of a bill.
unfoldable pub payments_taken : Db → ℕ → ℕ
payments_taken db bill_id =
    count_where (λ t. t.bill_id == bill_id) db.tenders
    + count_where (λ i. i.bill_id == bill_id && is_active_status i.status) db.payment_intents
    + count_where (λ s. s.bill_id == bill_id && (is_paid s.status || is_some s.paid_at))
        db.bill_shares

abbrev pub payments_on_order : ℕ → Db → ℕ
payments_on_order order_id db = elim (bill_for order_id db) [
  | none ↦ 0
  | some bill ↦ payments_taken db bill.id
]

unfoldable pub assert_bill_has_no_payments : ℕ → Tx (Unit {0})
unfolding payments_taken
assert_bill_has_no_payments order_id = do
  taken ← gets (payments_on_order order_id)
  throw_if (ltb 0 taken) (conflicting bill_has_payments)

-- Deleting a line deletes the items of a combo with it.
unfoldable pub delete_line : ℕ → Db → Db
delete_line line_id db = record db {
  order_lines = select (λ l. not (is_part_of line_id l)) db.order_lines;
}

-- `removeLine`
unfoldable pub remove_line : Staff → ℕ → ℕ → Tx (Unit {0})
remove_line staff order_id line_id = do
  order ← load_order staff.tenant_id order_id
  assert_owner order staff
  assert_order_not_closed order
  line ← load_order_line staff.tenant_id order_id line_id
  throw_if (is_some line.parent_line_id) (conflicting combo_locked)
  was_sent ← gets (is_sent_to_kitchen line_id)
  throw_if was_sent (conflicting line_sent)
  assert_bill_has_no_payments order_id
  modify (delete_line line_id)

unfoldable pub void_parts : Env → ℕ → Db → Db
unfolding on_ticket
void_parts env line_id db = record db {
  order_lines =
      update_where (is_part_of line_id) (λ l. record l { voided_at = some env.now }) db.order_lines;
  ticket_lines =
      update_where (on_ticket db line_id) (λ t. record t { voided = true }) db.ticket_lines;
}

-- `voidLine`
unfoldable pub void_line : Env → (Db → Result ManagerApproval) → Staff → ℕ → ℕ → Tx (Unit {0})
void_line env approve staff order_id line_id = do
  order ← load_order staff.tenant_id order_id
  assert_owner order staff
  assert_order_not_closed order
  line ← load_order_line staff.tenant_id order_id line_id
  throw_if (is_some line.parent_line_id) (conflicting combo_locked)
  was_sent ← gets (is_sent_to_kitchen line_id)
  throw_if (not was_sent) (conflicting line_not_sent)
  assert_bill_has_no_payments order_id
  approval ← (λ db. from_result (approve db) db)
  modify (void_parts env line_id)
  modify (record_approval approval staff.id env.now)
