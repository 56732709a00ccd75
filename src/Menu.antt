-- ===== src/Menu.antt =====
-- What may be sold from the menu: an item with its variant and modifiers
-- (pos/orders/order-lines.service.ts and guest/cart/cart.service.ts, which check alike), and a
-- combo with its picks (admin/menu/combo-menu.ts). Ids are unique, so the map of a combo's options
-- is a search.
pub mod Picks
pub mod Combos
mod Tests
use restiq_backend.Base.{
  ℕ, suc, ◌+◌, Bool, true, false, not, ◌&&◌, ◌||◌, Option, none, some, List, [], ◌∷◌, ◌++◌, ltb,
  ◌==◌, if◌then◌else◌, is_some, or_else, find, any, all, count_where, map,
}
use restiq_backend.Base.Int.{ℤ, pos}
use restiq_backend.Store.Rows.{Db, Item, Modifier, ModifierGroup, Combo, ComboSlot, ComboSlotOption}
use restiq_backend.Store.Transaction.{
  Tx, Result, ok, err, pure, gets, ◌>>=◌, ◌>>◌, throw_if, failure, bad_request, validation_failed,
  item_unavailable, modifier_selection_invalid, combo_selection_invalid,
}
use restiq_backend.Pricing.{item_available}

-- `loadItemForCartLine`, `loadItemForOrderLine`
unfoldable pub load_item : ℕ → ℕ → Tx Item
load_item tenant_id item_id db = elim (find (λ i. i.id == item_id) db.items) [
  | none ↦ err (bad_request validation_failed)
  | some item ↦
      if item.tenant_id == tenant_id && not (is_some item.archived_at)
      then ok (item, db)
      else err (bad_request validation_failed)
]

abbrev pub contains : ℕ → List ℕ → Bool
contains id ids = any (λ k. k == id) ids

abbrev pub variant_fits : Item → Option ℕ → Bool
variant_fits item none = true
variant_fits item (some variant_id) = contains variant_id item.variant_ids

-- `assertVariantBelongsToItem`
unfoldable pub assert_variant_belongs_to_item : Item → Option ℕ → Tx (Unit {0})
assert_variant_belongs_to_item item variant_id =
    throw_if (not (variant_fits item variant_id)) (bad_request validation_failed)

-- `assertItemAvailable`
unfoldable pub assert_item_available : ℕ → Item → Tx (Unit {0})
assert_item_available outlet_id item =
    gets (λ db. item_available db.item_outlet_overrides outlet_id item.id item.available)
    >>= λ available. throw_if (not available) (bad_request item_unavailable)

-- The modifier is in one of the item's groups.
abbrev pub of_item : Item → ℕ → Bool
of_item item id = any (λ g. any (λ m. m.id == id) g.modifiers) item.modifier_groups

-- `selectedCount`
abbrev pub selected_count : List ℕ → ModifierGroup → ℕ
selected_count ids g = count_where (λ m. contains m.id ids) g.modifiers

abbrev pub group_satisfied : List ℕ → ModifierGroup → Bool
group_satisfied ids g =
    not (ltb (selected_count ids g) g.min_selections || ltb g.max_selections (selected_count ids g))

-- `assertModifierSelectionValid`, and `assertComboModifiersValid`, which is the same rule.
unfoldable pub assert_modifier_selection_valid : Item → List ℕ → Tx (Unit {0})
assert_modifier_selection_valid item ids =
    throw_if (not (all (of_item item) ids)) (bad_request validation_failed)
    >> throw_if (not (all (group_satisfied ids) item.modifier_groups))
        (bad_request modifier_selection_invalid)

-- A modifier's price. Modifiers are stored with the items that offer them.
unfoldable pub modifier_price : List Item → ℕ → Option ℤ
modifier_price [] id = none
modifier_price (i ∷ is) id =
    let rest = modifier_price is id in
    elim (find (λ g. any (λ m. m.id == id) g.modifiers) i.modifier_groups) [
      | none ↦ rest
      | some g ↦ elim (find (λ m. m.id == id) g.modifiers) [
        | none ↦ rest
        | some m ↦ some m.price_minor
      ]
    ]

-- `resolveModifierPrices`, for the modifiers of a line.
abbrev pub modifier_prices_of : Db → List ℕ → List ℤ
modifier_prices_of db ids = map (λ id. or_else (modifier_price db.items id) (pos 0)) ids

-- `itemAvailability`: the outlet's override wins.
unfoldable pub item_availability : Db → ℕ → Item → Bool
item_availability db outlet_id item =
    elim (find (λ o. o.item_id == item.id && o.outlet_id == outlet_id) db.item_outlet_overrides) [
      | none ↦ item.available
      | some o ↦ o.available
    ]

-- An option's item is stored, by its foreign key.
abbrev pub option_available : Db → ℕ → ComboSlotOption → Bool
option_available db outlet_id o = elim (find (λ i. i.id == o.item_id) db.items) [
  | none ↦ false
  | some item ↦ item_availability db outlet_id item
]

-- `available` of `toComboMenuView`
unfoldable pub combo_available : Db → ℕ → Combo → Bool
unfolding item_availability
combo_available db outlet_id combo = elim combo.slots [
  | [] ↦ false
  | slot ∷ slots ↦
      combo.available && all (λ s. any (option_available db outlet_id) s.options) (slot ∷ slots)
]

pub record ComboSelection : Type 0 where
  pub option_id : ℕ
  pub quantity : Option ℕ
  pub modifier_ids : Option (List ℕ)

-- An entry of `picks`.
pub record Pick : Type 0 where
  pub slot : ComboSlot
  pub option : ComboSlotOption
  pub quantity : ℕ
  pub modifier_ids : List ℕ

-- `optionById.get`
unfoldable pub option_by_id : List ComboSlot → ℕ → Option (ComboSlot × ComboSlotOption)
option_by_id [] option_id = none
option_by_id (slot ∷ slots) option_id =
    let rest = option_by_id slots option_id in
    elim (find (λ o. o.id == option_id) slot.options) [ none ↦ rest | some o ↦ some (slot, o) ]

abbrev pub cons_pick : Pick → Option (List Pick) → Option (List Pick)
cons_pick p none = none
cons_pick p (some ps) = some (p ∷ ps)

-- Each selection's slot and option; none where one is not part of the combo.
unfoldable pub picks_of : List ComboSlot → List ComboSelection → Option (List Pick)
unfolding option_by_id
picks_of slots [] = some []
picks_of slots (s ∷ ss) =
    let rest = picks_of slots ss in
    elim (option_by_id slots s.option_id) [
      | none ↦ none
      | some (slot, option) ↦
          cons_pick
            (record {
              slot = slot;
              option = option;
              quantity = or_else s.quantity 1;
              modifier_ids = or_else s.modifier_ids [];
            })
            rest
    ]

-- How many picks a slot has.
unfoldable pub picked : ℕ → List Pick → ℕ
picked slot_id [] = 0
picked slot_id (p ∷ ps) =
    let rest = picked slot_id ps in if p.slot.id == slot_id then p.quantity + rest else rest

abbrev pub whole_slot : ComboSlot → ComboSlotOption → Pick
whole_slot slot option = record {
  slot = slot;
  option = option;
  quantity = slot.pick_count;
  modifier_ids = [];
}

-- A fixed slot that was left out is filled in.
unfoldable pub fill_slot : ComboSlot → List Pick → List Pick
fill_slot slot picks = elim slot.options [
  | [] ↦ picks
  | option ∷ options ↦ elim options [
    | [] ↦
        if any (λ p. p.slot.id == slot.id) picks
        then picks
        else picks ++ whole_slot slot option ∷ []
    | _ ∷ _ ↦ picks
  ]
]

-- The loop over the slots: `none` where a slot does not add up.
unfoldable pub fill_slots : List ComboSlot → List Pick → Option (List Pick)
unfolding fill_slot picked
fill_slots [] picks = some picks
fill_slots (slot ∷ slots) picks =
    let rest = fill_slots slots (fill_slot slot picks) in
    if picked slot.id (fill_slot slot picks) == slot.pick_count then rest else none

pub record ResolvedComboChild : Type 0 where
  pub option_id : ℕ
  pub item_id : ℕ
  pub variant_id : Option ℕ
  pub station_id : Option ℕ
  pub quantity : ℕ
  pub upcharge_minor : ℤ
  pub modifier_ids : List ℕ

abbrev pub child_of : Pick → Item → ResolvedComboChild
child_of p item = record {
  option_id = p.option.id;
  item_id = p.option.item_id;
  variant_id = p.option.variant_id;
  station_id = item.station_id;
  quantity = p.quantity;
  upcharge_minor = p.option.upcharge_minor;
  modifier_ids = p.modifier_ids;
}

-- `findUniqueOrThrow`
unfoldable pub read_item : ℕ → Tx Item
read_item item_id db = elim (find (λ i. i.id == item_id) db.items) [
  | none ↦ err failure
  | some item ↦ ok (item, db)
]

unfoldable pub resolve_pick : ℕ → Pick → Tx ResolvedComboChild
unfolding item_availability
resolve_pick outlet_id p = do
  available ← gets (λ db. option_available db outlet_id p.option)
  throw_if (not available) (bad_request item_unavailable)
  item ← read_item p.option.item_id
  assert_modifier_selection_valid item p.modifier_ids
  pure (child_of p item)

unfoldable pub resolve_picks : ℕ → List Pick → Tx (List ResolvedComboChild)
unfolding resolve_pick
resolve_picks outlet_id [] = pure []
resolve_picks outlet_id (p ∷ ps) = do
  child ← resolve_pick outlet_id p
  rest ← resolve_picks outlet_id ps
  pure (child ∷ rest)

unfoldable pub load_combo : ℕ → ℕ → Tx Combo
load_combo tenant_id combo_id db = elim (find (λ c. c.id == combo_id) db.combos) [
  | none ↦ err (bad_request validation_failed)
  | some combo ↦
      if combo.tenant_id == tenant_id && not (is_some combo.archived_at)
      then ok (combo, db)
      else err (bad_request validation_failed)
]

abbrev pub filled_or_throw : List ComboSlot → Option (List Pick) → Tx (List Pick)
filled_or_throw slots none db = err (bad_request validation_failed)
filled_or_throw slots (some picks) db = elim (fill_slots slots picks) [
  | none ↦ err (bad_request combo_selection_invalid)
  | some filled ↦ ok (filled, db)
]

-- `resolveComboSelection`
unfoldable pub resolve_combo_selection :
    ℕ → ℕ → ℕ → List ComboSelection → Tx (Combo × List ResolvedComboChild)
unfolding combo_available picks_of fill_slots
resolve_combo_selection tenant_id outlet_id combo_id selections = do
  combo ← load_combo tenant_id combo_id
  available ← gets (λ db. combo_available db outlet_id combo)
  throw_if (not available) (bad_request item_unavailable)
  filled ← filled_or_throw combo.slots (picks_of combo.slots selections)
  children ← resolve_picks outlet_id filled
  pure (combo, children)
