-- ===== src/Menu/Tests.antt =====
-- The properties of Menu at one input each: the sample's meal and its dish.
use restiq_backend.Base.{◌≡◌, ◌&&◌, false, true, none, some, [], ◌∷◌, List}
use restiq_backend.Store.Rows.{Db, Item, Combo}
use restiq_backend.Store.Transaction.{returned}
use restiq_backend.Store.Samples.{sample, meal}
use restiq_backend.Pricing.{item_available}
use restiq_backend.Menu.{
  ComboSelection, ResolvedComboChild, resolve_combo_selection, item_availability,
}
use restiq_backend.Menu.Combos.{item_available-combo}

abbrev dish : Item
dish = record {
  id = 30;
  tenant_id = 1;
  station_id = none;
  available = false;
  archived_at = none;
  variant_ids = [];
  modifier_groups = [];
}

-- Switched off by the tenant, and on by the outlet.
abbrev overridden : Db
overridden = record sample {
  item_outlet_overrides = record { item_id = 30; outlet_id = 2; available = true } ∷ [];
}

item_available-combo_example :
    item_available overridden.item_outlet_overrides 2 30 false
    ≡ (false && item_availability overridden 2 dish)
item_available-combo_example = item_available-combo overridden 2 dish

-- Two of the dish, with a topping each.
abbrev two : ComboSelection
two = record { option_id = 37; quantity = some 2; modifier_ids = some (32 ∷ []) }

abbrev chosen : (Combo × List ResolvedComboChild) × Db
chosen = returned (meal, []) sample (resolve_combo_selection 1 2 35 (two ∷ []) sample)
