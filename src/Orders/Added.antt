-- ===== src/Orders/Added.antt =====
-- What a line that is added does to the order (`addLine` of pos/orders/order-lines.service.ts).
use restiq_backend.Base.{
  ℕ, suc, subst, ◌≡◌, sym, refl, find, ◌∙◌, ap, Bool, true, false, not, Option, none, some, List,
  [], ◌∷◌, ◌++◌, map, ◌==◌, ==_iff, is_some, or_else, ◌&&◌, select, all, arith,
}
use restiq_backend.Base.Int.{◌+ℤ◌, sum_ℤ, int_laws}
use restiq_backend.Store.Rows.{Db, Order, OrderLine, is_closed, Item}
use restiq_backend.Store.Transaction.{
  ok, Error, Tx, gets, ◌>>=◌, ◌>>◌, ok-eq, >>=-eq-ok, or_throw, bad_request, no_price,
  item_unavailable, validation_failed, forbidden_request, not_owner, conflicting, conflict,
}
use restiq_backend.Pricing.{item_available, PriceCandidate}
use restiq_backend.Settle.{Env}
use restiq_backend.Settle.Tenders.{throw_if-passes}
use restiq_backend.Intents.{Staff}
use restiq_backend.Bills.{billed_lines, line_total, compute_subtotal}
use restiq_backend.Bills.Totals.{compute_subtotal-sum}
use restiq_backend.Menu.{
  load_item, assert_item_available, assert_variant_belongs_to_item, of_item, group_satisfied,
  assert_modifier_selection_valid, variant_fits, modifier_prices_of,
}
use restiq_backend.Menu.Combos.{assert_modifier-passes}
use restiq_backend.Orders.{load_order, assert_owner}
use restiq_backend.Orders.Lines.{assert_order_not_closed}
use restiq_backend.Orders.Adding.{
  AddOrderLine, open_order_of, insert_line, item_line, add_line, first_price, order_price_channels,
}

select-last :
    {A : Type 0} (p : A → Bool) (xs : List A) (x : A)
    → p x ≡ true
    → select p (xs ++ x ∷ []) ≡ select p xs ++ x ∷ []
select-last p [] x on = rw on
select-last p (y ∷ ys) x on = ground (arith, select-last p ys x on)

sum-last :
    (ls : List OrderLine) (l : OrderLine)
    → sum_ℤ (map line_total (ls ++ l ∷ [])) ≡ sum_ℤ (map line_total ls) +ℤ line_total l
sum-last [] l = omega int_laws
sum-last (x ∷ xs) l = ap (λ s. line_total x +ℤ s) (sum-last xs l) ∙ omega int_laws

open_order_of-found :
    (staff : Staff) (order_id : ℕ) (o : Order) (db db' : Db)
    → open_order_of staff order_id db ≡ ok (o, db')
    → (db ≡ db')
      × (find (λ (x : Order). x.id == order_id) db.orders ≡ some o)
      × (is_closed o.status ≡ false)
unfolding open_order_of load_order assert_owner assert_order_not_closed
open_order_of-found staff order_id o db db' e =
    let (o1, db1, loaded, e1) = >>=-eq-ok (load_order staff.tenant_id order_id) _ db e in
    let same1 : db ≡ db1 = ground arith in
    let stored : find (λ (x : Order). x.id == order_id) db.orders ≡ some o1 = ground arith in
    let (u, db2, mine, e2) = >>=-eq-ok (assert_owner o1 staff) _ db1 e1 in
    let same2 = (throw_if-passes _ (forbidden_request not_owner) db1 db2 u mine).1 in
    let (u', db3, waiting, last) = >>=-eq-ok (assert_order_not_closed o1) _ db2 e2 in
    let (opened, same3) =
      throw_if-passes (is_closed o1.status) (conflicting conflict) db2 db3 u' waiting in
    let pair = ok-eq (o1, db3) (o, db') last in
    (
      same1 ∙ same2 ∙ same3 ∙ ap (λ (r : Order × Db). r.1) pair,
      stored ∙ ap (λ (r : Order × Db). some r.0) pair,
      ap (λ (r : Order × Db). is_closed r.0.status) (sym pair) ∙ opened,
    )

load_item-reads :
    (tenant_id item_id : ℕ) (item : Item) (db db' : Db)
    → load_item tenant_id item_id db ≡ ok (item, db')
    → (db ≡ db')
      × (item.tenant_id ≡ tenant_id)
      × (is_some item.archived_at ≡ false)
      × (find (λ (i : Item). i.id == item_id) db.items ≡ some item)
unfolding load_item
load_item-reads tenant_id item_id item db db' e =
    (ground arith, ground (arith, ==_iff item.tenant_id tenant_id), ground arith, ground arith)

-- What a line that is added has gone through, and what it costs.
pub record Added (env : Env) (staff : Staff) (order_id : ℕ) (dto : AddOrderLine) (line : OrderLine)
    (db db' : Db) : Type 0 where
  pub order : Order
  pub stored_order : find (λ (x : Order). x.id == order_id) db.orders ≡ some order
  pub opened : is_closed order.status ≡ false
  pub item : Item
  pub stored : find (λ (i : Item). i.id == dto.item_id) db.items ≡ some item
  pub own : item.tenant_id ≡ staff.tenant_id
  pub on_sale : is_some item.archived_at ≡ false
  pub available :
      item_available db.item_outlet_overrides order.outlet_id item.id item.available ≡ true
  pub fits : variant_fits item dto.variant_id ≡ true
  pub own_modifiers : all (of_item item) (or_else dto.modifier_ids []) ≡ true
  pub satisfied : all (group_satisfied (or_else dto.modifier_ids [])) item.modifier_groups ≡ true
  pub last_line : db'.order_lines ≡ db.order_lines ++ line ∷ []
  pub asked : line.quantity ≡ dto.quantity
  pub of_item_asked : line.item_id ≡ some dto.item_id
  pub of_order : line.order_id ≡ order_id
  pub price : PriceCandidate
  pub priced :
      first_price env db order dto.item_id dto.variant_id (order_price_channels order) ≡ some price
  pub modifiers : line.modifier_prices ≡ modifier_prices_of db (or_else dto.modifier_ids [])
  pub at_price : line.unit_price_minor ≡ price.price_minor
  pub charged : compute_subtotal db' order_id ≡ compute_subtotal db order_id +ℤ line_total line

-- One more unvoided line of the order adds its total to the subtotal.
charged_lem :
    (order_id : ℕ) (line : OrderLine) (db db' : Db)
    → line.order_id ≡ order_id
    → is_some line.voided_at ≡ false
    → db'.order_lines ≡ db.order_lines ++ line ∷ []
    → compute_subtotal db' order_id ≡ compute_subtotal db order_id +ℤ line_total line
charged_lem order_id line db db' own billed added =
    let p = λ (l : OrderLine). l.order_id == order_id && not (is_some l.voided_at) in
    compute_subtotal-sum db' order_id
    ∙ ap (λ (ls : List OrderLine). sum_ℤ (map line_total (select p ls))) added
    ∙ ap (λ (ls : List OrderLine). sum_ℤ (map line_total ls))
        (select-last p db.order_lines line (ground (arith, ==_iff line.order_id order_id)))
    ∙ sum-last (billed_lines db order_id) line
    ∙ ap (λ s. s +ℤ line_total line) (sym (compute_subtotal-sum db order_id))

off_not : (b : Bool) → not b ≡ false → b ≡ true
off_not true h = refl
off_not false h = cc

or_throw-same :
    {A : Type 0} (o : Option A) (x : Error) (a : A) (db db' : Db)
    → or_throw o x db ≡ ok (a, db')
    → (db ≡ db') × (o ≡ some a)
or_throw-same none x a db db' e = cc
or_throw-same (some b) x a db db' e =
    let pair = ok-eq (b, db) (a, db') e in (ap (λ r. r.1) pair, ap (λ r. some r.0) pair)

-- The end of adding a line, once its item is checked.
abbrev put_line : Env → Staff → ℕ → AddOrderLine → Order → Tx OrderLine
put_line env staff order_id dto o = do
  found ← gets (λ db. first_price env db o dto.item_id dto.variant_id (order_price_channels o))
  price ← or_throw found (bad_request no_price)
  modifiers ← gets (λ db. modifier_prices_of db (or_else dto.modifier_ids []))
  insert_line (item_line staff order_id dto price.price_minor modifiers)

-- The checks of the item, and the end.
abbrev check_and_put : Env → Staff → ℕ → AddOrderLine → Order → Item → Tx OrderLine
check_and_put env staff order_id dto o item = do
  assert_item_available o.outlet_id item
  assert_variant_belongs_to_item item dto.variant_id
  assert_modifier_selection_valid item (or_else dto.modifier_ids [])
  put_line env staff order_id dto o

-- What the end has written: one line, as asked, at the price.
record Put (env : Env) (order_id : ℕ) (dto : AddOrderLine) (o : Order) (line : OrderLine)
    (db db' : Db) : Type 0 where
  price : PriceCandidate
  priced : first_price env db o dto.item_id dto.variant_id (order_price_channels o) ≡ some price
  last_line : db'.order_lines ≡ db.order_lines ++ line ∷ []
  asked : line.quantity ≡ dto.quantity
  of_item_asked : line.item_id ≡ some dto.item_id
  of_order : line.order_id ≡ order_id
  billed : is_some line.voided_at ≡ false
  modifiers : line.modifier_prices ≡ modifier_prices_of db (or_else dto.modifier_ids [])
  at_price : line.unit_price_minor ≡ price.price_minor

put_line-Put :
    (env : Env) (staff : Staff) (order_id : ℕ) (dto : AddOrderLine) (o : Order) (line : OrderLine)
    (db db' : Db)
    → put_line env staff order_id dto o db ≡ ok (line, db')
    → Put env order_id dto o line db db'
unfolding insert_line
put_line-Put env staff order_id dto o line db db' e =
    let found = first_price env db o dto.item_id dto.variant_id (order_price_channels o) in
    let ids = or_else dto.modifier_ids [] in
    let (price, db1, priced, last) = >>=-eq-ok (or_throw found (bad_request no_price)) _ db e in
    let (same, chosen) = or_throw-same found (bad_request no_price) price db db1 priced in
    let row =
      item_line staff order_id dto price.price_minor (modifier_prices_of db1 ids) db1.next_id in
    let pair =
      ok-eq
        (row, record db1 { order_lines = db1.order_lines ++ row ∷ []; next_id = suc db1.next_id })
        (line, db') last in
    let is = ap (λ (r : OrderLine × Db). r.0) pair in
    record {
      price = price;
      priced = chosen;
      last_line =
          ap (λ (r : OrderLine × Db). r.1.order_lines) (sym pair)
          ∙ ap (λ (d : Db). d.order_lines ++ row ∷ []) (sym same)
          ∙ ap (λ (l : OrderLine). db.order_lines ++ l ∷ []) is;
      asked = ap (λ (l : OrderLine). l.quantity) (sym is);
      of_item_asked = ap (λ (l : OrderLine). l.item_id) (sym is);
      of_order = ap (λ (l : OrderLine). l.order_id) (sym is);
      billed = ap (λ (l : OrderLine). is_some l.voided_at) (sym is);
      modifiers =
          ap (λ (l : OrderLine). l.modifier_prices) (sym is)
          ∙ ap (λ (d : Db). modifier_prices_of d ids) (sym same);
      at_price = ap (λ (l : OrderLine). l.unit_price_minor) (sym is);
    }

-- The item is available at the outlet, with the variant and the modifiers asked for.
record Fits (outlet_id : ℕ) (dto : AddOrderLine) (item : Item) (db : Db) : Type 0 where
  available : item_available db.item_outlet_overrides outlet_id item.id item.available ≡ true
  fits : variant_fits item dto.variant_id ≡ true
  own_modifiers : all (of_item item) (or_else dto.modifier_ids []) ≡ true
  satisfied : all (group_satisfied (or_else dto.modifier_ids [])) item.modifier_groups ≡ true

check_and_put-checks :
    (env : Env) (staff : Staff) (order_id : ℕ) (dto : AddOrderLine) (o : Order) (item : Item)
    (line : OrderLine) (db db' : Db)
    → check_and_put env staff order_id dto o item db ≡ ok (line, db')
    → Fits o.outlet_id dto item db × Put env order_id dto o line db db'
unfolding assert_item_available assert_variant_belongs_to_item
check_and_put-checks env staff order_id dto o item line db db' e =
    let ids = or_else dto.modifier_ids [] in
    let (u1, db1, available, e1) = >>=-eq-ok (assert_item_available o.outlet_id item) _ db e in
    let (sold, same1) =
      throw_if-passes
        (not (item_available db.item_outlet_overrides o.outlet_id item.id item.available))
        (bad_request item_unavailable) db db1 u1 available in
    let (u2, db2, fits, e2) =
      >>=-eq-ok (assert_variant_belongs_to_item item dto.variant_id) _ db1 e1 in
    let (variant, same2) =
      throw_if-passes (not (variant_fits item dto.variant_id)) (bad_request validation_failed) db1
        db2 u2 fits in
    let (u3, db3, valid, e3) = >>=-eq-ok (assert_modifier_selection_valid item ids) _ db2 e2 in
    let (own, enough, same3) = assert_modifier-passes item ids u3 db2 db3 valid in
    (
      record {
        available =
            off_not (item_available db.item_outlet_overrides o.outlet_id item.id item.available)
              sold;
        fits = off_not (variant_fits item dto.variant_id) variant;
        own_modifiers = own;
        satisfied = enough;
      },
      subst (λ (d : Db). Put env order_id dto o line d db') (sym (same1 ∙ same2 ∙ same3))
          (put_line-Put env staff order_id dto o line db3 db' e3),
    )

-- Adding an item to an order, where it returns: the order of that id is stored and not closed; the stored item of the id asked for is the tenant's, is not archived, is available at the order's outlet and has the variant asked for; every modifier is one of the item's and each of its groups has a number of them within its limits; one line of the item is added to the order, last, with the quantity that was asked for, at the price of the moment of the item and of its modifiers, and the order's subtotal grows by exactly that line's total.
pub add_line-Added :
    (env : Env) (staff : Staff) (order_id : ℕ) (dto : AddOrderLine) (line : OrderLine) (db db' : Db)
    → add_line env staff order_id dto db ≡ ok (line, db')
    → Added env staff order_id dto line db db'
unfolding add_line
add_line-Added env staff order_id dto line db db' e =
    let (o, db1, loaded, e1) = >>=-eq-ok (open_order_of staff order_id) _ db e in
    let (same1, stored_order, opened) = open_order_of-found staff order_id o db db1 loaded in
    let (item, db2, found, e2) = >>=-eq-ok (load_item staff.tenant_id dto.item_id) _ db1 e1 in
    let (same2, of_tenant, current, stored) =
      load_item-reads staff.tenant_id dto.item_id item db1 db2 found in
    let (checks, put) =
      subst (λ (d : Db). Fits o.outlet_id dto item d × Put env order_id dto o line d db')
        (sym (same1 ∙ same2))
        (check_and_put-checks env staff order_id dto o item line db2 db' e2) in
    record {
      order = o;
      stored_order = stored_order;
      opened = opened;
      item = item;
      stored = ap (λ (d : Db). find (λ (i : Item). i.id == dto.item_id) d.items) same1 ∙ stored;
      own = of_tenant;
      on_sale = current;
      available = checks.available;
      fits = checks.fits;
      own_modifiers = checks.own_modifiers;
      satisfied = checks.satisfied;
      last_line = put.last_line;
      asked = put.asked;
      of_item_asked = put.of_item_asked;
      of_order = put.of_order;
      price = put.price;
      priced = put.priced;
      modifiers = put.modifiers;
      at_price = put.at_price;
      charged = charged_lem order_id line db db' put.of_order put.billed put.last_line;
    }
