-- ===== src/Guests/Entered.antt =====
-- The lines of an order that a cart becomes (the loop of `placeOrder`, guest/orders/orders.service.ts).
use mathlib.Core.List.{append-nil, append_assoc}
use restiq_backend.Base.{
  ℕ, suc, map, or_else, subst, ◌*◌, ◌≡◌, refl, sym, ◌∙◌, ap, Option, none, some, List, [], ◌∷◌,
  ◌++◌, Nothing,
}
use restiq_backend.Base.Int.{pos}
use restiq_backend.Pricing.{PriceCandidate}
use restiq_backend.Store.Rows.{Db, Item, OrderLine, CartLine, Combo}
use restiq_backend.Store.Transaction.{ok, ok-eq, pure, >>=-eq-ok, or_throw, bad_request, no_price}
use restiq_backend.Settle.{Env}
use restiq_backend.Menu.{
  modifier_price, modifier_prices_of, ResolvedComboChild, resolve_combo_selection,
}
use restiq_backend.Menu.Combos.{resolve_combo_selection-reads}
use restiq_backend.Shares.{GuestPrincipal}
use restiq_backend.Guests.Tables.{or_throw-reads}
use restiq_backend.Guests.Placing.{
  order_line, insert_order_line, place_children, cart_selections, place_combo, price_now,
  place_item, place_line, place_lines,
}

-- The store without the tables that placing an order writes before its lines, and without its lines.
abbrev pub but_order : Db → Db
but_order db = record db { orders = []; token_number_counters = []; audit_events = []; next_id = 0 }

abbrev pub menu_part : Db → Db
menu_part db = record (but_order db) { order_lines = [] }

-- The store with lines added to its last.
abbrev pub wrote : Db → List OrderLine → ℕ → Db
wrote db added n = record db { order_lines = db.order_lines ++ added; next_id = n }

wrote-none :
    (u : Unit {0}) (db db' : Db) → pure (tt {0}) db ≡ ok (u, db') → db' ≡ wrote db [] db.next_id
wrote-none u db db' e =
    sym (ap (λ (r : Unit {0} × Db). r.1) (ok-eq (tt, db) (u, db') e))
    ∙ ap (λ (ls : List OrderLine). record db { order_lines = ls }) (sym (append-nil db.order_lines))

wrote-wrote :
    (db : Db) (a b : List OrderLine) (m n : ℕ) → wrote (wrote db a m) b n ≡ wrote db (a ++ b) n
wrote-wrote db a b m n =
    ap (λ (ls : List OrderLine). record db { order_lines = ls; next_id = n })
      (append_assoc db.order_lines a b)

-- The line is the order's, for the guest of the cart's line, as many as there.
pub record Own (order_id : ℕ) (seat : Option ℕ) (c : CartLine) (l : OrderLine) : Type 0 where
  pub of_order : l.order_id ≡ order_id
  pub as_many : l.quantity ≡ c.quantity
  pub for_guest : l.guest_id ≡ some c.guest_id
  pub at_seat : l.seat_number ≡ seat
  pub alone : l.parent_line_id ≡ none
  pub billed : l.voided_at ≡ none

-- A line of a combo's pick, as many as picked for each combo.
pub record PartOf (items : List Item) (order_id parent : ℕ) (c : CartLine) (r : ResolvedComboChild)
    (l : OrderLine) : Type 0 where
  pub of_order : l.order_id ≡ order_id
  pub of_combo : l.parent_line_id ≡ some parent
  pub of_item : l.item_id ≡ some r.item_id
  pub of_variant : l.variant_id ≡ r.variant_id
  pub as_many : l.quantity ≡ r.quantity * c.quantity
  pub at_upcharge : l.unit_price_minor ≡ r.upcharge_minor
  pub modifiers :
      l.modifier_prices ≡ map (λ id. or_else (modifier_price items id) (pos 0)) r.modifier_ids
  pub billed : l.voided_at ≡ none

abbrev pub Parts : List Item → ℕ → ℕ → CartLine → List ResolvedComboChild → List OrderLine → Type 0
Parts items order_id parent c [] [] = Unit
Parts items order_id parent c (r ∷ rs) (l ∷ ls) =
    PartOf items order_id parent c r l × Parts items order_id parent c rs ls
Parts items order_id parent c [] (l ∷ ls) = Nothing
Parts items order_id parent c (r ∷ rs) [] = Nothing

-- An item's line, at the price of the moment.
pub record ItemEntry (env : Env) (guest : GuestPrincipal) (order_id : ℕ) (seat : Option ℕ)
    (c : CartLine) (ls : List OrderLine) (db : Db) : Type 0 where
  pub line : OrderLine
  pub one : ls ≡ line ∷ []
  pub own : Own order_id seat c line
  pub of_item : line.item_id ≡ c.item_id
  pub of_variant : line.variant_id ≡ c.variant_id
  pub no_combo : line.combo_id ≡ none
  pub price : PriceCandidate
  pub priced : price_now env guest c db ≡ some price
  pub at_price : line.unit_price_minor ≡ price.price_minor
  pub modifiers : line.modifier_prices ≡ modifier_prices_of db c.modifier_ids

-- A combo's line at its price, and the lines of what was picked for it, resolved against the same
-- menu and cart.
pub record ComboEntry (guest : GuestPrincipal) (order_id : ℕ) (seat : Option ℕ) (c : CartLine)
    (combo_id : ℕ) (ls : List OrderLine) (db : Db) : Type 0 where
  pub line : OrderLine
  pub children : List OrderLine
  pub all_lines : ls ≡ line ∷ children
  pub own : Own order_id seat c line
  pub no_item : line.item_id ≡ none
  pub no_modifiers : line.modifier_prices ≡ []
  pub of_combo : line.combo_id ≡ some combo_id
  pub combo : Combo
  pub resolved : List ResolvedComboChild
  pub at : Db
  pub same_menu : menu_part at ≡ menu_part db
  pub resolves :
      resolve_combo_selection guest.tenant_id guest.outlet_id combo_id (cart_selections c at) at
      ≡ ok ((combo, resolved), at)
  pub at_price : line.unit_price_minor ≡ combo.price_minor
  pub parts : Parts db.items order_id line.id c resolved children

-- What a line of the cart becomes.
abbrev pub Entry :
    Env → GuestPrincipal → ℕ → Option ℕ → CartLine → Option ℕ → List OrderLine → Db → Type 0
Entry env guest order_id seat c none ls db = ItemEntry env guest order_id seat c ls db
Entry env guest order_id seat c (some combo_id) ls db =
    ComboEntry guest order_id seat c combo_id ls db

-- What the lines of the cart become, in order, and nothing besides.
abbrev pub Entries :
    Env → GuestPrincipal → ℕ → (ℕ → Option ℕ) → List CartLine → List OrderLine → Db → Type 0
Entries env guest order_id seats [] ls db = ls ≡ []
Entries env guest order_id seats (c ∷ cs) ls db =
    (own rest : List OrderLine) × (ls ≡ own ++ rest)
    × Entry env guest order_id (seats c.guest_id) c c.combo_id own db
    × Entries env guest order_id seats cs rest db

Entry-same :
    (env : Env) (guest : GuestPrincipal) (order_id : ℕ) (seat : Option ℕ) (c : CartLine)
    (combo_id : Option ℕ) (ls : List OrderLine) (d db : Db)
    → menu_part d ≡ menu_part db
    → Entry env guest order_id seat c combo_id ls d
    → Entry env guest order_id seat c combo_id ls db
Entry-same env guest order_id seat c none ls d db same h = record {
  line = h.line;
  one = h.one;
  own = h.own;
  of_item = h.of_item;
  of_variant = h.of_variant;
  no_combo = h.no_combo;
  price = h.price;
  priced = ap (price_now env guest c) (sym same) ∙ h.priced;
  at_price = h.at_price;
  modifiers = h.modifiers ∙ ap (λ (d : Db). modifier_prices_of d c.modifier_ids) same;
}
Entry-same env guest order_id seat c (some combo_id) ls d db same h = record {
  line = h.line;
  children = h.children;
  all_lines = h.all_lines;
  own = h.own;
  no_item = h.no_item;
  no_modifiers = h.no_modifiers;
  of_combo = h.of_combo;
  combo = h.combo;
  resolved = h.resolved;
  at = h.at;
  same_menu = h.same_menu ∙ same;
  resolves = h.resolves;
  at_price = h.at_price;
  parts =
      subst (λ (is : List Item). Parts is order_id h.line.id c h.resolved h.children)
        (ap (λ (d : Db). d.items) same) h.parts;
}

pub Entries-same :
    (env : Env) (guest : GuestPrincipal) (order_id : ℕ) (seats : ℕ → Option ℕ) (cs : List CartLine)
    (ls : List OrderLine) (d db : Db)
    → menu_part d ≡ menu_part db
    → Entries env guest order_id seats cs ls d
    → Entries env guest order_id seats cs ls db
Entries-same env guest order_id seats [] ls d db same h = h
Entries-same env guest order_id seats (c ∷ cs) ls d db same (own, rest, split, one, others) = (
  own,
  rest,
  split,
  Entry-same env guest order_id (seats c.guest_id) c c.combo_id own d db same one,
  Entries-same env guest order_id seats cs rest d db same others,
)

place_children-Parts :
    (tenant_id order_id parent : ℕ) (seat : Option ℕ) (c : CartLine) (rs : List ResolvedComboChild)
    (u : Unit {0}) (db db' : Db)
    → place_children tenant_id order_id seat c parent rs db ≡ ok (u, db')
    → (ls : List OrderLine) × (n : ℕ) × (db' ≡ wrote db ls n)
      × Parts db.items order_id parent c rs ls
unfolding place_children insert_order_line
place_children-Parts tenant_id order_id parent seat c [] u db db' e =
    ([], db.next_id, wrote-none u db db' e, tt)
place_children-Parts tenant_id order_id parent seat c (r ∷ rs) u db db' e =
    let line : OrderLine =
      record (order_line tenant_id order_id seat c (r.quantity * c.quantity) r.upcharge_minor
        db.next_id) {
          item_id = some r.item_id;
          variant_id = r.variant_id;
          parent_line_id = some parent;
          modifier_prices = modifier_prices_of db r.modifier_ids;
        } in
    let db1 = wrote db (line ∷ []) (suc db.next_id) in
    let (ls, n, is, parts) = place_children-Parts tenant_id order_id parent seat c rs u db1 db' e in
    (
      line ∷ ls,
      n,
      is ∙ wrote-wrote db (line ∷ []) ls (suc db.next_id) n,
      (
        record {
          of_order = refl;
          of_combo = refl;
          of_item = refl;
          of_variant = refl;
          as_many = refl;
          at_upcharge = refl;
          modifiers = refl;
          billed = refl;
        },
        parts,
      ),
    )

place_item-Entry :
    (env : Env) (guest : GuestPrincipal) (order_id : ℕ) (seat : Option ℕ) (c : CartLine)
    (u : Unit {0}) (db db' : Db)
    → place_item env guest order_id seat c db ≡ ok (u, db')
    → (ls : List OrderLine) × (n : ℕ) × (db' ≡ wrote db ls n)
      × ItemEntry env guest order_id seat c ls db
unfolding place_item insert_order_line
place_item-Entry env guest order_id seat c u db db' e =
    let found = price_now env guest c db in
    let (price, db1, priced, last) = >>=-eq-ok (or_throw found (bad_request no_price)) _ db e in
    let (same, chosen) = or_throw-reads found (bad_request no_price) price db db1 priced in
    let line : OrderLine =
      record (order_line guest.tenant_id order_id seat c c.quantity price.price_minor db1.next_id) {
        item_id = c.item_id;
        variant_id = c.variant_id;
        modifier_prices = modifier_prices_of db1 c.modifier_ids;
      } in
    let written : wrote db1 (line ∷ []) (suc db1.next_id) ≡ db' =
      ap (λ (r : Unit {0} × Db). r.1)
        (ok-eq (tt, wrote db1 (line ∷ []) (suc db1.next_id)) (u, db') last) in
    (
      line ∷ [],
      suc db1.next_id,
      sym written ∙ ap (λ (d : Db). wrote d (line ∷ []) (suc db1.next_id)) (sym same),
      record {
        line = line;
        one = refl;
        own = record {
          of_order = refl;
          as_many = refl;
          for_guest = refl;
          at_seat = refl;
          alone = refl;
          billed = refl;
        };
        of_item = refl;
        of_variant = refl;
        no_combo = refl;
        price = price;
        priced = chosen;
        at_price = refl;
        modifiers = ap (λ (d : Db). modifier_prices_of d c.modifier_ids) (sym same);
      },
    )

place_combo-Entry :
    (guest : GuestPrincipal) (order_id : ℕ) (seat : Option ℕ) (c : CartLine) (combo_id : ℕ)
    (u : Unit {0}) (db db' : Db)
    → place_combo guest order_id seat c combo_id db ≡ ok (u, db')
    → (ls : List OrderLine) × (n : ℕ) × (db' ≡ wrote db ls n)
      × ComboEntry guest order_id seat c combo_id ls db
unfolding place_combo insert_order_line
place_combo-Entry guest order_id seat c combo_id u db db' e =
    let (r, db1, resolves, last) =
      >>=-eq-ok
        (resolve_combo_selection guest.tenant_id guest.outlet_id combo_id (cart_selections c db)) _
        db e in
    let (same, id) =
      resolve_combo_selection-reads guest.tenant_id guest.outlet_id combo_id (cart_selections c db)
        r db db1 resolves in
    let line : OrderLine =
      record (order_line guest.tenant_id order_id seat c c.quantity r.0.price_minor db1.next_id) {
        combo_id = some r.0.id;
      } in
    let db2 = wrote db1 (line ∷ []) (suc db1.next_id) in
    let (ls, n, is, parts) =
      place_children-Parts guest.tenant_id order_id line.id seat c r.1 u db2 db' last in
    (
      line ∷ ls,
      n,
      is
          ∙ wrote-wrote db1 (line ∷ []) ls (suc db1.next_id) n
          ∙ ap (λ (d : Db). wrote d (line ∷ ls) n) (sym same),
      record {
        line = line;
        children = ls;
        all_lines = refl;
        own = record {
          of_order = refl;
          as_many = refl;
          for_guest = refl;
          at_seat = refl;
          alone = refl;
          billed = refl;
        };
        no_item = refl;
        no_modifiers = refl;
        of_combo = ap some id;
        combo = r.0;
        resolved = r.1;
        at = db;
        same_menu = refl;
        resolves = resolves ∙ ap (λ (d : Db). ok (r, d)) (sym same);
        at_price = refl;
        parts =
            subst (λ (is : List Item). Parts is order_id line.id c r.1 ls)
              (ap (λ (d : Db). d.items) (sym same)) parts;
      },
    )

place_line-Entry :
    (env : Env) (guest : GuestPrincipal) (order_id : ℕ) (seat : Option ℕ) (c : CartLine)
    (combo_id : Option ℕ) (u : Unit {0}) (db db' : Db)
    → place_line env guest order_id seat c combo_id db ≡ ok (u, db')
    → (ls : List OrderLine) × (n : ℕ) × (db' ≡ wrote db ls n)
      × Entry env guest order_id seat c combo_id ls db
place_line-Entry env guest order_id seat c none u db db' e =
    place_item-Entry env guest order_id seat c u db db' e
place_line-Entry env guest order_id seat c (some combo_id) u db db' e =
    place_combo-Entry guest order_id seat c combo_id u db db' e

pub place_lines-Entries :
    (env : Env) (guest : GuestPrincipal) (order_id : ℕ) (seats : ℕ → Option ℕ) (cs : List CartLine)
    (u : Unit {0}) (db db' : Db)
    → place_lines env guest order_id seats cs db ≡ ok (u, db')
    → (ls : List OrderLine) × (n : ℕ) × (db' ≡ wrote db ls n)
      × Entries env guest order_id seats cs ls db
unfolding place_lines
place_lines-Entries env guest order_id seats [] u db db' e =
    ([], db.next_id, wrote-none u db db' e, refl)
place_lines-Entries env guest order_id seats (c ∷ cs) u db db' e =
    let (u1, db1, first, last) =
      >>=-eq-ok (place_line env guest order_id (seats c.guest_id) c c.combo_id) _ db e in
    let (own, m, is1, one) =
      place_line-Entry env guest order_id (seats c.guest_id) c c.combo_id u1 db db1 first in
    let (rest, n, is2, others) = place_lines-Entries env guest order_id seats cs u db1 db' last in
    (
      own ++ rest,
      n,
      is2 ∙ ap (λ (d : Db). wrote d rest n) is1 ∙ wrote-wrote db own rest m n,
      (
        own,
        rest,
        refl,
        one,
        Entries-same env guest order_id seats cs rest db1 db (ap menu_part is1) others,
      ),
    )
