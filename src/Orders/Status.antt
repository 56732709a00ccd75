-- ===== src/Orders/Status.antt =====
-- Who may change an order, and how it moves (pos/orders/orders.service.ts).
use restiq_backend.Base.{
  ℕ, ◌≡◌, ◌≢◌, refl, sym, ◌∙◌, ap, Bool, true, false, not, ◌&&◌, Option, none, some, ◌==◌, ==_iff,
  find, find-update_where, any, Bool-cases, inl, inr, arith,
}
use restiq_backend.Store.Rows.{Db, Order, OrderStatus, opened, sent, closed, is_closed}
use restiq_backend.Store.Transaction.{Tx, ok, ok-eq, >>=-eq-ok, ◌>>◌}
use restiq_backend.Settle.{Env}
use restiq_backend.Settle.Tenders.{guarded}
use restiq_backend.Intents.{Staff}
use restiq_backend.Orders.{
  load_order, may_change, assert_owner, both_sent, forward, move_order, update_status, update_order,
  transfer,
}

-- The stored row of an order.
abbrev pub order_in : ℕ → Db → Option Order
order_in order_id db = find (λ (o : Order). o.id == order_id) db.orders

load_order-found :
    (tenant_id order_id : ℕ) (db db' : Db) (o : Order)
    → load_order tenant_id order_id db ≡ ok (o, db')
    → (order_in order_id db ≡ some o) × (db' ≡ db)
unfolding load_order
load_order-found tenant_id order_id db db' o e = (ground arith, ground arith)

-- An order that a member of the staff has just been let change.
owned :
    {B : Type 0} (order : Order) (staff : Staff) (m : Tx B) (db : Db) {r : B × Db}
    → (assert_owner order staff >> m) db ≡ ok r
    → (may_change order staff ≡ true) × (m db ≡ ok r)
unfolding assert_owner
owned order staff m db e =
    let (g, rest) = guarded (not (may_change order staff)) _ m db e in (ground arith, rest)

moves_to_sent : (s t : OrderStatus) → forward s t ≡ true → (t ≡ sent) × (s ≡ opened)
moves_to_sent opened opened h = cc
moves_to_sent opened sent h = (refl, refl)
moves_to_sent opened closed h = cc
moves_to_sent sent t h = cc
moves_to_sent closed t h = cc

stays_sent : (s t : OrderStatus) → both_sent s t ≡ true → (t ≡ sent) × (s ≡ sent)
stays_sent opened t h = cc
stays_sent sent opened h = cc
stays_sent sent sent h = (refl, refl)
stays_sent sent closed h = cc
stays_sent closed t h = cc

move_order-forward :
    (env : Env) (order : Order) (status : OrderStatus) (db db' : Db) (o : Order)
    → move_order env order status db ≡ ok (o, db')
    → forward order.status status ≡ true
unfolding move_order
move_order-forward env order status db db' o e =
    let (g, rest) = guarded (not (forward order.status status)) _ _ db e in ground arith

pub update_status_forward :
    (env : Env) (staff : Staff) (order_id : ℕ) (status : OrderStatus) (db db' : Db) (o : Order)
    → update_status env staff order_id status db ≡ ok (o, db')
    → (before : Order) × (order_in order_id db ≡ some before)
      × (may_change before staff ≡ true)
      × (status ≡ sent)
      × (is_closed before.status ≡ false)
unfolding update_status
update_status_forward env staff order_id status db db' o e =
    let (before, db1, loaded, e1) = >>=-eq-ok (load_order staff.tenant_id order_id) _ db e in
    let (found, same) = load_order-found staff.tenant_id order_id db db1 before loaded in
    let (may, e2) = owned before staff _ db1 e1 in
    let goal : (status ≡ sent) × (is_closed before.status ≡ false) =
      elim (Bool-cases (both_sent before.status status)) [
        | inl again ↦
            let (to, from) = stays_sent before.status status again in (to, ap is_closed from)
        | inr on ↦
            let moved : move_order env before status db1 ≡ ok (o, db') = rw on at e2 in
            let (to, from) =
              moves_to_sent before.status status
                (move_order-forward env before status db1 db' o moved) in
            (to, ap is_closed from)
      ] in
    (before, found, may, goal.0, goal.1)

update_order-stored :
    (order_id : ℕ) (f : Order → Order) (db db' : Db) (o before : Order)
    → ((x : Order) → (f x).id ≡ x.id)
    → order_in order_id db ≡ some before
    → update_order order_id f db ≡ ok (o, db')
    → order_in order_id db' ≡ some (f before)
unfolding update_order
update_order-stored order_id f db db' o before keep found e =
    let hit =
      find-update_where (λ (x : Order). x.id == order_id) f db.orders before
        (λ x. ap (λ (i : ℕ). i == order_id) (keep x)) found in
    ground (arith, hit)

transfer-owner :
    (env : Env) (staff : Staff) (order_id new_owner : ℕ) (db db' : Db) (o : Order)
    → transfer env staff order_id new_owner db ≡ ok (o, db')
    → (after : Order) → order_in order_id db' ≡ some after
    → after.owner_id ≡ some new_owner
unfolding transfer
transfer-owner env staff order_id new_owner db db' o e after found =
    let (before, db1, loaded, e1) = >>=-eq-ok (load_order staff.tenant_id order_id) _ db e in
    let (was, same) = load_order-found staff.tenant_id order_id db db1 before loaded in
    let (g1, e2) = guarded (is_closed before.status) _ _ db1 e1 in
    let known = any (λ s. s.id == new_owner && s.tenant_id == staff.tenant_id) db1.staff_users in
    let (g2, e3) = guarded (not known) _ _ db1 e2 in
    let give : Order → Order = λ x. record x { owner_id = some new_owner } in
    let (row, db2, updated, e4) = >>=-eq-ok (update_order order_id give) _ db1 e3 in
    let stored =
      update_order-stored order_id give db1 db2 row before (λ x. refl)
        (ap (order_in order_id) same ∙ was) updated in
    let same' = ap (λ (r : Order × Db). order_in order_id r.1) (ok-eq (row, _) (o, db') e4) in
    let row' : some after ≡ some (give before) = sym found ∙ sym same' ∙ stored in
    ap (λ (r : Option Order). elim r [ none ↦ none | some x ↦ x.owner_id ]) row'

abbrev found_owner : Option ℕ → ℕ → Bool
found_owner w id = elim w [ none ↦ true | some owner ↦ owner == id ]

-- After an order was handed over, a member of the staff who is not the new owner can no longer change its status.
pub transfer_locks_out :
    (env env' : Env) (staff other : Staff) (order_id new_owner : ℕ) (status : OrderStatus)
    (db db' db'' : Db) (o o' : Order)
    → transfer env staff order_id new_owner db ≡ ok (o, db')
    → other.id ≢ new_owner
    → update_status env' other order_id status db' ≢ ok (o', db'')
transfer_locks_out env env' staff other order_id new_owner status db db' db'' o o' handed not_new
      e =
    let (before, found, may, _, _) =
      update_status_forward env' other order_id status db' db'' o' e in
    let owner = transfer-owner env staff order_id new_owner db db' o handed before found in
    let mine : found_owner before.owner_id other.id ≡ true = may in
    let theirs : new_owner == other.id ≡ true =
      ap (λ (w : Option ℕ). found_owner w other.id) (sym owner) ∙ mine in
    not_new (sym ((==_iff new_owner other.id).0 theirs))
