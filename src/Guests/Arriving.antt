-- ===== src/Guests/Arriving.antt =====
-- The orders around one that a guest places: the table that it takes and the mark that it is sent
-- (`placeOrder` of guest/orders/orders.service.ts).
use restiq_backend.Base.{
  ℕ, ◌≡◌, sym, ◌∙◌, ap, true, false, none, some, List, [], ◌∷◌, ◌++◌, if◌then◌else◌, update_where,
  any, find, ◌==◌, Option, ◌&&◌, Option-cases, inl, inr,
}
use restiq_backend.Store.Rows.{Db, Order, OrderLine, TokenNumberCounter, sent}
use restiq_backend.Store.Transaction.{ok, ok-eq, >>=-eq-ok, conflicting, table_has_active_order}
use restiq_backend.Kitchen.Firing.{fire_on_send_lines}
use restiq_backend.Settle.{Env}
use restiq_backend.Settle.Tenders.{throw_if-passes}
use restiq_backend.Orders.{
  set_order, reserve_token_number, detach_stale_table_order, unclosed_at, is_stale,
}
use restiq_backend.Shares.{GuestPrincipal}
use restiq_backend.Guests.Entered.{but_order}
use restiq_backend.Guests.Placing.{token_for, claim_table, send_order}

-- The store once a stale order has left the table.
abbrev pub claimed : Env → GuestPrincipal → Option ℕ → Db → Db
claimed env guest none db = db
claimed env guest (some table_id) db = detach_stale_table_order env guest.tenant_id none table_id db

-- No order that is not closed is at the table.
abbrev pub TableFree : GuestPrincipal → Option ℕ → Db → Type 0
TableFree guest none db = Unit
TableFree guest (some table_id) db = any (unclosed_at guest.tenant_id table_id) db.orders ≡ false

-- The orders after the one of the id is marked as sent.
abbrev pub marked : ℕ → List Order → List Order
marked order_id os =
    update_where (λ (o : Order). o.id == order_id) (λ (o : Order). record o { status = sent }) os

abbrev pub mark_sent : Order → Order
mark_sent o = record o { status = sent }

abbrev pub order_part : Db → List Order × List OrderLine
order_part db = (db.orders, db.order_lines)

pub sent_part :
    (env : Env) (order : Order) (db : Db)
    → order_part (send_order env order db) ≡ order_part (set_order order.id mark_sent db)
sent_part env order db =
    let (_, _, same) =
      fire_on_send_lines
        (record { id = order.id; tenant_id = order.tenant_id; outlet_id = order.outlet_id }) env.now
        (set_order order.id mark_sent db) in
    ap order_part same

pub marked-last :
    (id : ℕ) (os : List Order) (o : Order)
    → (o.id == id) ≡ true
    → marked id (os ++ o ∷ []) ≡ marked id os ++ mark_sent o ∷ []
marked-last id [] o h = rw h
marked-last id (x ∷ xs) o h =
    ap (λ (os : List Order). (if x.id == id then mark_sent x else x) ∷ os) (marked-last id xs o h)

abbrev but_tokens : Db → Db
but_tokens db = record db { token_number_counters = [] }

reserve-part :
    (outlet_id n : ℕ) (db db' : Db)
    → reserve_token_number outlet_id db ≡ ok (n, db')
    → but_tokens db' ≡ but_tokens db
unfolding reserve_token_number
reserve-part outlet_id n db db' e =
    elim (Option-cases
      (find (λ (c : TokenNumberCounter). c.outlet_id == outlet_id) db.token_number_counters)) [
        | inl missing ↦
            ap (λ (r : ℕ × Db). but_tokens r.1)
              (sym (ok-eq _ (n, db') (rw (missing, reserve_token_number) at e)))
        | inr (c, found) ↦
            ap (λ (r : ℕ × Db). but_tokens r.1)
              (sym (ok-eq _ (n, db') (rw (found, reserve_token_number) at e)))
      ]

detach-part :
    (env : Env) (t k : ℕ) (db : Db)
    → but_order (detach_stale_table_order env t none k db) ≡ but_order db
unfolding detach_stale_table_order
detach-part env t k db =
    elim (Option-cases (find (λ (o : Order). unclosed_at t k o && is_stale env o) db.orders)) [
      | inl fresh ↦ rw (fresh, detach_stale_table_order)
      | inr (o, found) ↦ rw (found, detach_stale_table_order)
    ]

-- Before the order is inserted: its table is free, and nothing but the counters and the stale order
-- has changed.
pub arrival :
    (env : Env) (guest : GuestPrincipal) (table_id : Option ℕ) (token : Option ℕ) (u : Unit {0})
    (db db1 db2 : Db)
    → token_for guest table_id db ≡ ok (token, db1)
    → claim_table env guest table_id db1 ≡ ok (u, db2)
    → TableFree guest table_id (claimed env guest table_id db)
      × (db2.orders ≡ (claimed env guest table_id db).orders)
      × (but_order db2 ≡ but_order db)
arrival env guest none token u db db1 db2 e e' =
    let (n, db3, reserved, last) = >>=-eq-ok (reserve_token_number guest.outlet_id) _ db e in
    let same1 = ap (λ (r : Option ℕ × Db). r.1) (ok-eq (some n, db3) (token, db1) last) in
    let same2 = ap (λ (r : Unit {0} × Db). r.1) (ok-eq (tt, db1) (u, db2) e') in
    let kept =
      ap but_tokens (sym (same1 ∙ same2)) ∙ reserve-part guest.outlet_id n db db3 reserved in
    (tt, ap (λ (d : Db). d.orders) kept, ap but_order kept)
arrival env guest (some k) token u db db1 db2 e e' =
    let same = ap (λ (r : Option ℕ × Db). r.1) (ok-eq (none, db) (token, db1) e) in
    let left = detach_stale_table_order env guest.tenant_id none k db1 in
    let (free, same2) =
      throw_if-passes (any (unclosed_at guest.tenant_id k) left.orders)
        (conflicting table_has_active_order) left db2 u e' in
    let before = sym same2 ∙ ap (detach_stale_table_order env guest.tenant_id none k) (sym same) in
    (
      ap
            (λ (d : Db).
              any (unclosed_at guest.tenant_id k)
                (detach_stale_table_order env guest.tenant_id none k d).orders)
            same
          ∙ free,
      ap (λ (d : Db). d.orders) before,
      ap but_order before ∙ detach-part env guest.tenant_id k db,
    )
