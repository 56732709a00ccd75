-- ===== src/Menu/Combos.antt =====
-- What a combo's selection becomes (`resolveComboSelection` of admin/menu/combo-menu.ts).
use restiq_backend.Base.{
  ℕ, ◌≡◌, refl, sym, ◌∙◌, ap, subst, Bool, true, false, not, ◌&&◌, Option, none, some, List, [],
  ◌∷◌, ◌++◌, Nothing, ◌==◌, ==_iff, if◌then◌else◌, find, find-passes, is_some, all, All,
  Option-cases, inl, inr, arith,
}
use restiq_backend.Store.Rows.{Db, Item, Combo, ComboSlot}
use restiq_backend.Store.Transaction.{
  ok, ok-eq, >>=-eq-ok, bad_request, item_unavailable, validation_failed,
  modifier_selection_invalid,
}
use restiq_backend.Pricing.{item_available, ItemOutletOverride}
use restiq_backend.Menu.Picks.{Complete, Chosen, FilledIn}
use restiq_backend.Settle.Tenders.{guarded, throw_if-passes}
use restiq_backend.Menu.{
  of_item, group_satisfied, assert_modifier_selection_valid, item_availability, option_available,
  combo_available, ComboSelection, Pick, fill_slots, picks_of, ResolvedComboChild, child_of,
  read_item, resolve_pick, resolve_picks, load_combo, filled_or_throw, resolve_combo_selection,
}

-- The two checks of an item's availability at an outlet.
-- An item that the tenant has switched off is refused on its own, while a combo goes by the outlet's override: the check of an item is the tenant's toggle together with the combo's check, for every item, outlet and table of overrides.
pub item_available-combo :
    (db : Db) (outlet_id : ℕ) (item : Item)
    → item_available db.item_outlet_overrides outlet_id item.id item.available
      ≡ (item.available && item_availability db outlet_id item)
unfolding item_available item_availability
item_available-combo db outlet_id item =
    go item.available
      (find (λ o. o.item_id == item.id && o.outlet_id == outlet_id) db.item_outlet_overrides)
  where
    wins : Bool → Option ItemOutletOverride → Bool
    wins b o = elim o [ none ↦ b | some x ↦ x.available ]

    go :
        (b : Bool) (o : Option ItemOutletOverride)
        → (if not b then false else wins true o) ≡ (b && wins b o)
    go false o = refl
    go true none = refl
    go true (some x) = refl

-- A child line is its pick's option, on a stored item that is available at the outlet and whose
-- modifier groups the pick satisfies.
pub record Sellable (db : Db) (outlet_id : ℕ) (p : Pick) (c : ResolvedComboChild) : Type 0 where
  pub item : Item
  pub stored : find (λ (i : Item). i.id == p.option.item_id) db.items ≡ some item
  pub line : c ≡ child_of p item
  pub on_sale : option_available db outlet_id p.option ≡ true
  pub own_modifiers : all (of_item item) p.modifier_ids ≡ true
  pub satisfied : all (group_satisfied p.modifier_ids) item.modifier_groups ≡ true

abbrev pub Resolved : Db → ℕ → List Pick → List ResolvedComboChild → Type 0
Resolved db outlet_id [] [] = Unit
Resolved db outlet_id (p ∷ ps) (c ∷ cs) = Sellable db outlet_id p c × Resolved db outlet_id ps cs
Resolved db outlet_id [] (c ∷ cs) = Nothing
Resolved db outlet_id (p ∷ ps) [] = Nothing

pub assert_modifier-passes :
    (item : Item) (ids : List ℕ) (u : Unit {0}) (db db' : Db)
    → assert_modifier_selection_valid item ids db ≡ ok (u, db')
    → (all (of_item item) ids ≡ true)
      × (all (group_satisfied ids) item.modifier_groups ≡ true)
      × (db ≡ db')
unfolding assert_modifier_selection_valid
assert_modifier-passes item ids u db db' e =
    let (own, e1) = guarded (not (all (of_item item) ids)) (bad_request validation_failed) _ db e in
    let (fits, same) =
      throw_if-passes (not (all (group_satisfied ids) item.modifier_groups))
        (bad_request modifier_selection_invalid) db db' u e1 in
    (ground arith, ground arith, same)

read_item-found :
    (item_id : ℕ) (item : Item) (db db' : Db)
    → read_item item_id db ≡ ok (item, db')
    → (db ≡ db') × (find (λ (i : Item). i.id == item_id) db.items ≡ some item)
unfolding read_item
read_item-found item_id item db db' e = (ground arith, ground arith)

resolve_pick-Sellable :
    (outlet_id : ℕ) (p : Pick) (c : ResolvedComboChild) (db db' : Db)
    → resolve_pick outlet_id p db ≡ ok (c, db')
    → (db ≡ db') × Sellable db outlet_id p c
unfolding resolve_pick
resolve_pick-Sellable outlet_id p c db db' e =
    let (on_sale, e1) =
      guarded (not (option_available db outlet_id p.option)) (bad_request item_unavailable) _ db
        e in
    let (item, db1, read, e2) = >>=-eq-ok (read_item p.option.item_id) _ db e1 in
    let (same1, stored) = read_item-found p.option.item_id item db db1 read in
    let (u, db2, checked, last) =
      >>=-eq-ok (assert_modifier_selection_valid item p.modifier_ids) _ db1 e2 in
    let (own, fits, same2) = assert_modifier-passes item p.modifier_ids u db1 db2 checked in
    let pair = ok-eq (child_of p item, db2) (c, db') last in
    (
      same1 ∙ same2 ∙ ap (λ (r : ResolvedComboChild × Db). r.1) pair,
      record {
        item = item;
        stored = stored;
        line = ap (λ (r : ResolvedComboChild × Db). r.0) (sym pair);
        on_sale = ground arith;
        own_modifiers = own;
        satisfied = fits;
      },
    )

resolve_picks-Resolved :
    (outlet_id : ℕ) (ps : List Pick) (cs : List ResolvedComboChild) (db db' : Db)
    → resolve_picks outlet_id ps db ≡ ok (cs, db')
    → (db ≡ db') × Resolved db outlet_id ps cs
unfolding resolve_picks
resolve_picks-Resolved outlet_id [] cs db db' e =
    subst (λ (r : List ResolvedComboChild × Db). (db ≡ r.1) × Resolved db outlet_id [] r.0)
      (ok-eq ([], db) (cs, db') e) (refl, tt)
resolve_picks-Resolved outlet_id (p ∷ ps) cs db db' e =
    let (c, db1, first, e1) = >>=-eq-ok (resolve_pick outlet_id p) _ db e in
    let (same1, sold) = resolve_pick-Sellable outlet_id p c db db1 first in
    let (rest, db2, others, last) = >>=-eq-ok (resolve_picks outlet_id ps) _ db1 e1 in
    let (same2, all_sold) = resolve_picks-Resolved outlet_id ps rest db1 db2 others in
    let all_sold' = subst (λ (d : Db). Resolved d outlet_id ps rest) (sym same1) all_sold in
    subst (λ (r : List ResolvedComboChild × Db). (db ≡ r.1) × Resolved db outlet_id (p ∷ ps) r.0)
      (ok-eq (c ∷ rest, db2) (cs, db') last) (same1 ∙ same2, (sold, all_sold'))

load_combo-found :
    (tenant_id combo_id : ℕ) (combo : Combo) (db db' : Db)
    → load_combo tenant_id combo_id db ≡ ok (combo, db')
    → (db ≡ db')
      × (find (λ (c : Combo). c.id == combo_id) db.combos ≡ some combo)
      × (combo.tenant_id ≡ tenant_id)
      × (is_some combo.archived_at ≡ false)
unfolding load_combo
load_combo-found tenant_id combo_id combo db db' e =
    (ground arith, ground arith, ground (arith, ==_iff combo.tenant_id tenant_id), ground arith)

-- What a selection of a combo that is sold has come to.
pub record SoldAs (tenant_id outlet_id combo_id : ℕ) (selections : List ComboSelection)
    (combo : Combo) (cs : List ResolvedComboChild) (db : Db) : Type 0 where
  pub stored : find (λ (c : Combo). c.id == combo_id) db.combos ≡ some combo
  pub own : combo.tenant_id ≡ tenant_id
  pub on_the_menu : is_some combo.archived_at ≡ false
  pub on_sale : combo_available db outlet_id combo ≡ true
  pub picks : List Pick
  pub asked : List Pick
  pub added : List Pick
  pub all_picks : picks ≡ asked ++ added
  pub chosen : Chosen combo.slots selections asked
  pub filled_in : All (λ (p : Pick). FilledIn combo.slots p) added
  pub complete : Complete combo.slots picks
  pub resolved : Resolved db outlet_id picks cs

filled_or_throw-fills :
    (slots : List ComboSlot) (asked : Option (List Pick)) (filled : List Pick) (db db' : Db)
    → filled_or_throw slots asked db ≡ ok (filled, db')
    → (db ≡ db') × ((ps : List Pick) × (asked ≡ some ps) × (fill_slots slots ps ≡ some filled))
filled_or_throw-fills slots none filled db db' e = cc
filled_or_throw-fills slots (some ps) filled db db' e = elim (Option-cases (fill_slots slots ps)) [
  | inl stuck ↦ absurd (let bad = rw (stuck, filled_or_throw) at e in cc)
  | inr (qs, whole) ↦
      let pair = ok-eq (qs, db) (filled, db') (rw (whole, filled_or_throw) at e) in
      (
        ap (λ (r : List Pick × Db). r.1) pair,
        (ps, refl, whole ∙ ap (λ (r : List Pick × Db). some r.0) pair),
      )
]

-- Resolving a selection writes nothing, and the combo has the id asked for.
pub resolve_combo_selection-reads :
    (tenant_id outlet_id combo_id : ℕ) (selections : List ComboSelection)
    (r : Combo × List ResolvedComboChild) (db db' : Db)
    → resolve_combo_selection tenant_id outlet_id combo_id selections db ≡ ok (r, db')
    → (db ≡ db') × (r.0.id ≡ combo_id)
unfolding resolve_combo_selection
resolve_combo_selection-reads tenant_id outlet_id combo_id selections r db db' e =
    let (found, db1, loaded, e1) = >>=-eq-ok (load_combo tenant_id combo_id) _ db e in
    let (same1, stored, _, _) = load_combo-found tenant_id combo_id found db db1 loaded in
    let passes = find-passes (λ (c : Combo). c.id == combo_id) db.combos found stored in
    let id : found.id ≡ combo_id = ground (arith, ==_iff found.id combo_id) in
    let (on_sale, e2) =
      guarded (not (combo_available db1 outlet_id found)) (bad_request item_unavailable) _ db1 e1 in
    let (filled, db2, filling, e3) =
      >>=-eq-ok (filled_or_throw found.slots (picks_of found.slots selections)) _ db1 e2 in
    let (same2, _) = filled_or_throw-fills found.slots _ filled db1 db2 filling in
    let (children, db3, resolving, last) = >>=-eq-ok (resolve_picks outlet_id filled) _ db2 e3 in
    let (same3, _) = resolve_picks-Resolved outlet_id filled children db2 db3 resolving in
    let pair = ok-eq ((found, children), db3) (r, db') last in
    (
      same1 ∙ same2 ∙ same3 ∙ ap (λ (x : (Combo × List ResolvedComboChild) × Db). x.1) pair,
      ap (λ (x : (Combo × List ResolvedComboChild) × Db). x.0.0.id) (sym pair) ∙ id,
    )
