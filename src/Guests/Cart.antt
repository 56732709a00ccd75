-- ===== src/Guests/Cart.antt =====
-- The cart that a table shares, guest/cart/cart.service.ts. What a view shows is left out, and so
-- are the notes.
use restiq_backend.Base.{
  ℕ, suc, ◌*◌, ◌/◌, Bool, not, ◌&&◌, ◌||◌, Option, none, some, List, [], ◌∷◌, ◌++◌, ◌==◌,
  if◌then◌else◌, is_some, or_else, eq_option, find, select, update_where,
}
use restiq_backend.Store.Rows.{Db, CartLine}
use restiq_backend.Store.Transaction.{
  Tx, ok, err, pure, ◌>>=◌, ◌>>◌, throw_if, modify, missing, not_found, forbidden_request,
  forbidden, conflicting, combo_locked,
}
use restiq_backend.Settle.{Env}
use restiq_backend.Menu.{
  load_item, assert_variant_belongs_to_item, assert_item_available, assert_modifier_selection_valid,
  ComboSelection, ResolvedComboChild, resolve_combo_selection,
}
use restiq_backend.Shares.{GuestPrincipal}
use restiq_backend.Guests.Sessions.{load_active_session}

unfoldable pub load_cart_line : ℕ → ℕ → ℕ → Tx CartLine
load_cart_line tenant_id session_id line_id db = elim (find (λ l. l.id == line_id) db.cart_lines) [
  | none ↦ err (missing not_found)
  | some line ↦
      if line.tenant_id == tenant_id && line.session_id == session_id
      then ok (line, db)
      else err (missing not_found)
]

-- `assertOwnedByGuest`
unfoldable pub assert_owned_by_guest : CartLine → GuestPrincipal → Tx (Unit {0})
assert_owned_by_guest line guest =
    throw_if (not (line.guest_id == guest.id)) (forbidden_request forbidden)

-- `assertNotComboPick`
unfoldable pub assert_not_combo_pick : CartLine → Tx (Unit {0})
assert_not_combo_pick line = throw_if (is_some line.parent_line_id) (conflicting combo_locked)

pub record AddCartLine : Type 0 where
  pub item_id : ℕ
  pub variant_id : Option ℕ
  pub quantity : ℕ
  pub modifier_ids : Option (List ℕ)

-- A line of the guest, as `tx.cartLine.create` fills it in.
abbrev pub cart_line : Env → GuestPrincipal → ℕ → ℕ → CartLine
cart_line env guest id quantity = record {
  id = id;
  tenant_id = guest.tenant_id;
  session_id = guest.session_id;
  guest_id = guest.id;
  guest_name = guest.name;
  item_id = none;
  variant_id = none;
  combo_id = none;
  parent_line_id = none;
  combo_option_id = none;
  quantity = quantity;
  modifier_ids = [];
  created_at = env.now;
}

unfoldable pub insert_cart_line : (ℕ → CartLine) → Tx ℕ
insert_cart_line line db = ok (
  db.next_id,
  record db { cart_lines = db.cart_lines ++ line db.next_id ∷ []; next_id = suc db.next_id },
)

-- `addLine`
unfoldable pub add_cart_line : Env → GuestPrincipal → AddCartLine → Tx (Unit {0})
add_cart_line env guest dto = do
  load_active_session env guest
  item ← load_item guest.tenant_id dto.item_id
  assert_variant_belongs_to_item item dto.variant_id
  assert_item_available guest.outlet_id item
  assert_modifier_selection_valid item (or_else dto.modifier_ids [])
  id ← insert_cart_line (λ id. record (cart_line env guest id dto.quantity) {
    item_id = some dto.item_id;
    variant_id = dto.variant_id;
    modifier_ids = or_else dto.modifier_ids [];
  })
  pure tt

pub record AddCartCombo : Type 0 where
  pub combo_id : ℕ
  pub quantity : ℕ
  pub selections : List ComboSelection

unfoldable pub insert_cart_children :
    Env → GuestPrincipal → ℕ → ℕ → List ResolvedComboChild → Tx (Unit {0})
insert_cart_children env guest parent quantity [] = pure tt
insert_cart_children env guest parent quantity (c ∷ cs) = do
  id ← insert_cart_line (λ id. record (cart_line env guest id (c.quantity * quantity)) {
    item_id = some c.item_id;
    variant_id = c.variant_id;
    parent_line_id = some parent;
    combo_option_id = some c.option_id;
    modifier_ids = c.modifier_ids;
  })
  insert_cart_children env guest parent quantity cs

-- `addCombo`
unfoldable pub add_cart_combo : Env → GuestPrincipal → AddCartCombo → Tx (Unit {0})
add_cart_combo env guest dto = do
  load_active_session env guest
  resolved ← resolve_combo_selection guest.tenant_id guest.outlet_id dto.combo_id dto.selections
  parent ←
      insert_cart_line
        (λ id. record (cart_line env guest id dto.quantity) { combo_id = some resolved.0.id })
  insert_cart_children env guest parent dto.quantity resolved.1

pub record UpdateCartLine : Type 0 where
  pub quantity : Option ℕ
  pub modifier_ids : Option (List ℕ)

abbrev pub set_cart_lines : (CartLine → Bool) → (CartLine → CartLine) → Db → Db
set_cart_lines p f db = record db { cart_lines = update_where p f db.cart_lines }

-- The line takes the quantity, and a combo's picks scale with it. `add_cart_combo` stores a pick as
-- so many for each combo, times the combos, so that the source's division leaves no remainder.
unfoldable pub set_quantity : CartLine → Option ℕ → Db → Db
set_quantity line none db = db
set_quantity line (some quantity) db =
    let own = set_cart_lines (λ l. l.id == line.id) (λ l. record l { quantity = quantity }) db in
    if is_some line.combo_id
    then set_cart_lines (λ l. eq_option l.parent_line_id (some line.id))
        (λ l. record l { quantity = l.quantity / line.quantity * quantity }) own
    else own

abbrev pub reselect : GuestPrincipal → CartLine → Option (List ℕ) → Tx (Unit {0})
reselect guest line none = pure tt
reselect guest line (some ids) = do
  item ← load_item guest.tenant_id (or_else line.item_id 0)
  assert_modifier_selection_valid item ids
  modify (set_cart_lines (λ l. l.id == line.id) (λ l. record l { modifier_ids = ids }))

-- `updateLine`. A line with no item is a combo's, whose modifiers are refused first.
unfoldable pub update_cart_line : Env → GuestPrincipal → ℕ → UpdateCartLine → Tx (Unit {0})
unfolding set_quantity
update_cart_line env guest line_id dto = do
  session ← load_active_session env guest
  line ← load_cart_line guest.tenant_id session.id line_id
  assert_owned_by_guest line guest
  assert_not_combo_pick line
  throw_if (is_some line.combo_id && is_some dto.modifier_ids) (conflicting combo_locked)
  modify (set_quantity line dto.quantity)
  reselect guest line dto.modifier_ids

-- The line goes, and a combo's picks with it, by the foreign key.
abbrev pub is_cart_part : ℕ → CartLine → Bool
is_cart_part line_id l = l.id == line_id || eq_option l.parent_line_id (some line_id)

-- `removeLine`
unfoldable pub remove_cart_line : Env → GuestPrincipal → ℕ → Tx (Unit {0})
remove_cart_line env guest line_id = do
  session ← load_active_session env guest
  line ← load_cart_line guest.tenant_id session.id line_id
  assert_owned_by_guest line guest
  assert_not_combo_pick line
  modify (λ db. record db { cart_lines = select (λ l. not (is_cart_part line_id l)) db.cart_lines })
