-- ===== src/Orders/Adding.antt =====
-- Putting a line on an order and changing it, pos/orders/order-lines.service.ts, without the notes.
use restiq_backend.Base.{
  ℕ, suc, ◌*◌, Bool, true, false, Option, none, some, List, [], ◌∷◌, ◌++◌, ltb, ◌==◌, if◌then◌else◌,
  is_some, or_else, update_where,
}
use restiq_backend.Base.Int.{ℤ, ltb_ℤ, sum_ℤ}
use restiq_backend.Pricing.{PriceChannel, dine_in, takeaway, PriceCandidate, resolve_current_price}
use restiq_backend.Store.Rows.{Db, Order, OrderLine}
use restiq_backend.Store.Transaction.{
  Tx, ok, pure, gets, or_throw, ◌>>=◌, ◌>>◌, throw_if, modify, bad_request, no_price, conflicting,
  combo_locked, line_sent,
}
use restiq_backend.Settle.{Env}
use restiq_backend.Intents.{Staff}
use restiq_backend.Menu.{
  load_item, assert_item_available, assert_variant_belongs_to_item, assert_modifier_selection_valid,
  modifier_price, modifier_prices_of, ComboSelection, ResolvedComboChild, resolve_combo_selection,
}
use restiq_backend.Orders.{load_order, assert_owner}
use restiq_backend.Orders.Lines.{
  assert_order_not_closed, load_order_line, is_sent_to_kitchen, assert_bill_has_no_payments,
}

-- `orderPriceChannels`
abbrev pub order_price_channels : Order → List PriceChannel
order_price_channels order =
    if is_some order.table_id then dine_in ∷ [] else takeaway ∷ dine_in ∷ []

-- The loop over the channels, `price ??= ...`.
unfoldable pub first_price :
    Env → Db → Order → ℕ → Option ℕ → List PriceChannel → Option PriceCandidate
first_price env db order item_id variant_id [] = none
first_price env db order item_id variant_id (channel ∷ channels) =
    let rest = first_price env db order item_id variant_id channels in
    elim (resolve_current_price db.item_prices
      (record {
        tenant_id = order.tenant_id;
        item_id = item_id;
        variant_id = variant_id;
        channel = channel;
        outlet_id = some order.outlet_id;
        as_of = none;
      })
      env.now) [ none ↦ rest | some price ↦ some price ]

pub record AddOrderLine : Type 0 where
  pub item_id : ℕ
  pub variant_id : Option ℕ
  pub quantity : ℕ
  pub modifier_ids : Option (List ℕ)
  pub seat_number : Option ℕ

-- A line of the staff, as `tx.orderLine.create` fills it in.
abbrev pub staff_line : ℕ → ℕ → Option ℕ → ℕ → ℤ → ℕ → OrderLine
staff_line tenant_id order_id seat quantity price id = record {
  id = id;
  tenant_id = tenant_id;
  order_id = order_id;
  item_id = none;
  variant_id = none;
  combo_id = none;
  parent_line_id = none;
  quantity = quantity;
  unit_price_minor = price;
  modifier_prices = [];
  seat_number = seat;
  guest_id = none;
  guest_name = none;
  voided_at = none;
}

unfoldable pub insert_line : (ℕ → OrderLine) → Tx OrderLine
insert_line line db = ok (
  line db.next_id,
  record db { order_lines = db.order_lines ++ line db.next_id ∷ []; next_id = suc db.next_id },
)

-- The staff's order, which they may change and which is not closed.
unfoldable pub open_order_of : Staff → ℕ → Tx Order
open_order_of staff order_id = do
  order ← load_order staff.tenant_id order_id
  assert_owner order staff
  assert_order_not_closed order
  pure order

abbrev pub item_line : Staff → ℕ → AddOrderLine → ℤ → List ℤ → ℕ → OrderLine
item_line staff order_id dto price modifier_prices id =
    record (staff_line staff.tenant_id order_id dto.seat_number dto.quantity price id) {
      item_id = some dto.item_id;
      variant_id = dto.variant_id;
      modifier_prices = modifier_prices;
    }

-- `addLine`
unfoldable pub add_line : Env → Staff → ℕ → AddOrderLine → Tx OrderLine
unfolding first_price modifier_price
add_line env staff order_id dto = do
  order ← open_order_of staff order_id
  item ← load_item staff.tenant_id dto.item_id
  assert_item_available order.outlet_id item
  assert_variant_belongs_to_item item dto.variant_id
  assert_modifier_selection_valid item (or_else dto.modifier_ids [])
  found ←
      gets (λ db. first_price env db order dto.item_id dto.variant_id (order_price_channels order))
  price ← or_throw found (bad_request no_price)
  modifiers ← gets (λ db. modifier_prices_of db (or_else dto.modifier_ids []))
  insert_line (item_line staff order_id dto price.price_minor modifiers)

pub record AddComboLine : Type 0 where
  pub combo_id : ℕ
  pub quantity : ℕ
  pub selections : List ComboSelection
  pub seat_number : Option ℕ

unfoldable pub insert_children :
    Staff → ℕ → AddComboLine → ℕ → List ResolvedComboChild → Tx (Unit {0})
unfolding modifier_price
insert_children staff order_id dto parent [] = pure tt
insert_children staff order_id dto parent (c ∷ cs) = do
  modifiers ← gets (λ db. modifier_prices_of db c.modifier_ids)
  line ← insert_line (λ id.
      record (staff_line staff.tenant_id order_id dto.seat_number (c.quantity * dto.quantity)
        c.upcharge_minor id) {
          item_id = some c.item_id;
          variant_id = c.variant_id;
          parent_line_id = some parent;
          modifier_prices = modifiers;
        })
  insert_children staff order_id dto parent cs

-- `addCombo`
unfoldable pub add_combo : Staff → ℕ → AddComboLine → Tx (Unit {0})
add_combo staff order_id dto = do
  order ← open_order_of staff order_id
  resolved ← resolve_combo_selection staff.tenant_id order.outlet_id dto.combo_id dto.selections
  parent ← insert_line (λ id.
      record (staff_line staff.tenant_id order_id dto.seat_number dto.quantity
        resolved.0.price_minor id) { combo_id = some resolved.0.id })
  insert_children staff order_id dto parent.id resolved.1

pub record UpdateOrderLine : Type 0 where
  pub quantity : Option ℕ
  pub seat_number : Option ℕ
  pub modifier_ids : Option (List ℕ)

abbrev pub set_line : ℕ → (OrderLine → OrderLine) → Db → Db
set_line line_id f db = record db {
  order_lines = update_where (λ l. l.id == line_id) f db.order_lines;
}

-- Fewer of a line, or cheaper, only where the bill has no payment.
abbrev pub guard_payments : Bool → ℕ → Tx (Unit {0})
guard_payments true order_id = assert_bill_has_no_payments order_id
guard_payments false order_id = pure tt

abbrev pub set_line_quantity : ℕ → OrderLine → Option ℕ → Tx (Unit {0})
set_line_quantity order_id line none = pure tt
set_line_quantity order_id line (some quantity) = do
  guard_payments (ltb quantity line.quantity) order_id
  modify (set_line line.id (λ l. record l { quantity = quantity }))

abbrev pub set_line_seat : OrderLine → Option ℕ → Tx (Unit {0})
set_line_seat line none = pure tt
set_line_seat line (some seat) =
    modify (set_line line.id (λ l. record l { seat_number = some seat }))

abbrev pub set_line_modifiers : Staff → ℕ → OrderLine → Option (List ℕ) → Tx (Unit {0})
set_line_modifiers staff order_id line none = pure tt
set_line_modifiers staff order_id line (some ids) = do
  item ← load_item staff.tenant_id (or_else line.item_id 0)
  assert_modifier_selection_valid item ids
  modifiers ← gets (λ db. modifier_prices_of db ids)
  guard_payments (ltb_ℤ (sum_ℤ modifiers) (sum_ℤ line.modifier_prices)) order_id
  modify (set_line line.id (λ l. record l { modifier_prices = modifiers }))

-- `updateLine`
unfoldable pub update_line : Staff → ℕ → ℕ → UpdateOrderLine → Tx (Unit {0})
unfolding modifier_price
update_line staff order_id line_id dto = do
  order ← open_order_of staff order_id
  line ← load_order_line staff.tenant_id order_id line_id
  throw_if (is_some line.combo_id) (conflicting combo_locked)
  throw_if (is_some line.parent_line_id) (conflicting combo_locked)
  was_sent ← gets (is_sent_to_kitchen line.id)
  throw_if was_sent (conflicting line_sent)
  set_line_quantity order_id line dto.quantity
  set_line_seat line dto.seat_number
  set_line_modifiers staff order_id line dto.modifier_ids
