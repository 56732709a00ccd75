-- ===== src/Guests/Scaling.antt =====
-- Changing how many of a combo are in the cart (`updateLine` of guest/cart/cart.service.ts) leaves
-- what is picked for each of them (`placeOrder` of guest/orders/orders.service.ts).
use restiq_backend.Base.{
  ℕ, ◌*◌, ◌/◌, ◌<◌, ◌≡◌, refl, sym, ◌∙◌, ap, Bool, true, false, not, ◌&&◌, Option, none, some, List,
  [], ◌∷◌, map, ◌==◌, ==_iff, if◌then◌else◌, is_some, or_else, eq_option, find, find-passes,
  find-update_where, find-update_other, Option-cases, select, update_where, All, Bool-cases, inl,
  inr, arith,
}
use native.Mathlib.Nat.{mul-div_cancel}
use restiq_backend.Store.Rows.{Db, CartLine}
use restiq_backend.Store.Transaction.{
  ok, ok-eq, >>=-eq-ok, forbidden_request, forbidden, conflicting, combo_locked,
}
use restiq_backend.Settle.{Env}
use restiq_backend.Settle.Tenders.{guarded, throw_if-passes}
use restiq_backend.Menu.{ComboSelection}
use restiq_backend.Shares.{GuestPrincipal}
use restiq_backend.Guests.Sessions.{load_active_session}
use restiq_backend.Guests.Cart.{
  load_cart_line, assert_owned_by_guest, assert_not_combo_pick, UpdateCartLine, set_quantity,
  reselect, update_cart_line,
}
use restiq_backend.Guests.Placing.{cart_selections}
use restiq_backend.Guests.Placed.{load_active_session-found}

-- A pick of the combo.
abbrev pub is_pick : ℕ → CartLine → Bool
is_pick line_id l = eq_option l.parent_line_id (some line_id)

-- No pick of the combo is the combo.
abbrev pub Apart : ℕ → List CartLine → Type 0
Apart line_id ls = All (λ (l : CartLine). (l.id == line_id) ≡ false) (select (is_pick line_id) ls)

selection : ℕ → CartLine → ComboSelection
selection q c = record {
  option_id = or_else c.combo_option_id 0;
  quantity = some (c.quantity / q);
  modifier_ids = some c.modifier_ids;
}

rescale : (a q r : ℕ) → 0 < r → a / q * r / r ≡ a / q
rescale a q r h = mul-div_cancel (a / q) h

abbrev pub resized : ℕ → CartLine → CartLine
resized q l = record l { quantity = q }

abbrev scaled : ℕ → ℕ → CartLine → CartLine
scaled q r l = record l { quantity = l.quantity / q * r }

-- The cart after the line and its picks have their new quantities.
abbrev after_resize : ℕ → ℕ → ℕ → List CartLine → List CartLine
after_resize line_id q r ls =
    update_where (is_pick line_id) (scaled q r)
      (update_where (λ (l : CartLine). l.id == line_id) (resized r) ls)

scaled-selection : (q r : ℕ) (c : CartLine) → 0 < r → selection r (scaled q r c) ≡ selection q c
unfolding selection
scaled-selection q r c h =
    ap
      (λ (n : ℕ). record {
        option_id = or_else c.combo_option_id 0;
        quantity = some n;
        modifier_ids = some c.modifier_ids;
      })
      (rescale c.quantity q r h)

abbrev own_row : ℕ → ℕ → CartLine → CartLine
own_row line_id r l = if l.id == line_id then resized r l else l

abbrev row_after : ℕ → ℕ → ℕ → CartLine → CartLine
row_after line_id q r l =
    let own = own_row line_id r l in if is_pick line_id own then scaled q r own else own

pick_after :
    (line_id q r : ℕ) (l : CartLine)
    → (l.id == line_id) ≡ false
    → is_pick line_id l ≡ true
    → row_after line_id q r l ≡ scaled q r l
pick_after line_id q r l off pick =
    let own : own_row line_id r l ≡ l = rw off in
    ap (λ (x : CartLine). if is_pick line_id x then scaled q r x else x) own ∙ rw pick

other_after :
    (line_id q r : ℕ) (l : CartLine)
    → is_pick line_id l ≡ false
    → is_pick line_id (row_after line_id q r l) ≡ false
other_after line_id q r l other = elim (Bool-cases (l.id == line_id)) [
  | inl own ↦
      let is : own_row line_id r l ≡ resized r l = rw own in
      ap (λ (x : CartLine). is_pick line_id (if is_pick line_id x then scaled q r x else x)) is
      ∙ rw other other
  | inr off ↦
      let is : own_row line_id r l ≡ l = rw off in
      ap (λ (x : CartLine). is_pick line_id (if is_pick line_id x then scaled q r x else x)) is
      ∙ rw other other
]

select-cons :
    {A : Type 0} (p : A → Bool) (x : A) (xs : List A)
    → p x ≡ true
    → select p (x ∷ xs) ≡ x ∷ select p xs
select-cons p x xs h = rw h

select-skip :
    {A : Type 0} (p : A → Bool) (x : A) (xs : List A)
    → p x ≡ false
    → select p (x ∷ xs) ≡ select p xs
select-skip p x xs h = rw h

resize-selections :
    (line_id q r : ℕ) (ls : List CartLine)
    → 0 < r
    → Apart line_id ls
    → map (selection r) (select (is_pick line_id) (after_resize line_id q r ls))
      ≡ map (selection q) (select (is_pick line_id) ls)
resize-selections line_id q r [] h apart = refl
resize-selections line_id q r (l ∷ ls) h apart =
    let p = is_pick line_id in
    let rest = after_resize line_id q r ls in
    elim (Bool-cases (is_pick line_id l)) [
      | inl pick ↦
          let (off, others) = rw pick at apart in
          let tail = resize-selections line_id q r ls h others in
          ap (λ (x : CartLine). map (selection r) (select p (x ∷ rest)))
            (pick_after line_id q r l off pick)
          ∙ ap (map (selection r)) (select-cons p (scaled q r l) rest pick)
          ∙ ap (λ (c : ComboSelection). c ∷ map (selection r) (select p rest))
              (scaled-selection q r l h)
          ∙ ap (λ (cs : List ComboSelection). selection q l ∷ cs) tail
          ∙ ap (map (selection q)) (sym (select-cons p l ls pick))
      | inr other ↦
          let tail = resize-selections line_id q r ls h (rw other at apart) in
          ap (map (selection r))
            (select-skip p (row_after line_id q r l) rest (other_after line_id q r l other))
          ∙ tail
          ∙ ap (map (selection q)) (sym (select-skip p l ls other))
    ]

load_cart_line-found :
    (tenant_id session_id line_id : ℕ) (line : CartLine) (db db' : Db)
    → load_cart_line tenant_id session_id line_id db ≡ ok (line, db')
    → (db ≡ db') × (find (λ (l : CartLine). l.id == line_id) db.cart_lines ≡ some line)
unfolding load_cart_line
load_cart_line-found tenant_id session_id line_id line db db' e = (ground arith, ground arith)

owned_passes :
    (line : CartLine) (guest : GuestPrincipal) (u : Unit {0}) (db db' : Db)
    → assert_owned_by_guest line guest db ≡ ok (u, db')
    → (line.guest_id ≡ guest.id) × (db ≡ db')
unfolding assert_owned_by_guest
owned_passes line guest u db db' e =
    let (own, same) =
      throw_if-passes (not (line.guest_id == guest.id)) (forbidden_request forbidden) db db' u e in
    (ground (arith, ==_iff line.guest_id guest.id), same)

not_pick_passes :
    (line : CartLine) (u : Unit {0}) (db db' : Db)
    → assert_not_combo_pick line db ≡ ok (u, db')
    → (is_some line.parent_line_id ≡ false) × (db ≡ db')
unfolding assert_not_combo_pick
not_pick_passes line u db db' e =
    throw_if-passes (is_some line.parent_line_id) (conflicting combo_locked) db db' u e

-- The line itself is found with its new quantity, since it is no pick.
after_resize-finds :
    (line_id q r : ℕ) (ls : List CartLine) (line : CartLine)
    → find (λ (l : CartLine). l.id == line_id) ls ≡ some line
    → is_some line.parent_line_id ≡ false
    → find (λ (l : CartLine). l.id == line_id) (after_resize line.id q r ls) ≡ some (resized r line)
after_resize-finds line_id q r ls line found alone =
    let p = λ (l : CartLine). l.id == line_id in
    let id : line.id ≡ line_id =
      let passes = find-passes p ls line found in ground (arith, ==_iff line.id line_id) in
    let other : is_pick line.id (resized r line) ≡ false = not_pick line.id line alone in
    let first = find-update_where p (resized r) ls line (λ x. refl) found in
    let own : find p (update_where (λ (l : CartLine). l.id == line.id) (resized r) ls)
        ≡ some (resized r line) =
      ap (λ (n : ℕ). find p (update_where (λ (l : CartLine). l.id == n) (resized r) ls)) id
      ∙ first in
    find-update_other p (is_pick line.id) (scaled q r)
      (update_where (λ (l : CartLine). l.id == line.id) (resized r) ls) (resized r line) (λ x. refl)
      own
    ∙ rw other
  where
    not_pick :
        (n : ℕ) (l : CartLine)
        → is_some l.parent_line_id ≡ false
        → eq_option l.parent_line_id (some n) ≡ false
    not_pick n l none_there = elim (Option-cases l.parent_line_id) [
      | inl unset ↦ rw unset
      | inr (m, set) ↦ absurd (let bad = rw set at none_there in cc)
    ]

reselect-none :
    (guest : GuestPrincipal) (line : CartLine) (o : Option (List ℕ)) (u : Unit {0}) (db db' : Db)
    → is_some o ≡ false
    → reselect guest line o db ≡ ok (u, db')
    → db ≡ db'
reselect-none guest line none u db db' h e =
    ap (λ (r : Unit {0} × Db). r.1) (ok-eq (tt, db) (u, db') e)
reselect-none guest line (some ids) u db db' h e = cc

resized-cart :
    (line : CartLine) (q : ℕ) (o : Option ℕ) (db : Db)
    → o ≡ some q
    → is_some line.combo_id ≡ true
    → (set_quantity line o db).cart_lines ≡ after_resize line.id line.quantity q db.cart_lines
unfolding set_quantity
resized-cart line q o db asked combo = rw (asked, combo)

-- Changing the number of a combo in the cart, where it returns: the line is the guest's own, the line then stored under its id has the new quantity and is as before otherwise, and what its picks come to for each of that line's combos, which is what placing the order asks for, stays as it was.
pub update_cart_line-selections :
    (env : Env) (guest : GuestPrincipal) (line_id q : ℕ) (dto : UpdateCartLine) (line : CartLine)
    (u : Unit {0}) (db db' : Db)
    → find (λ (l : CartLine). l.id == line_id) db.cart_lines ≡ some line
    → is_some line.combo_id ≡ true
    → dto.quantity ≡ some q
    → 0 < q
    → Apart line.id db.cart_lines
    → update_cart_line env guest line_id dto db ≡ ok (u, db')
    → (line.guest_id ≡ guest.id)
      × (row : CartLine) × (find (λ (l : CartLine). l.id == line_id) db'.cart_lines ≡ some row)
      × (row ≡ record line { quantity = q })
      × (cart_selections row db' ≡ cart_selections line db)
unfolding update_cart_line selection
update_cart_line-selections env guest line_id q dto line u db db' found combo asked some_q apart e =
    let (sess, db1, loaded, e1) = >>=-eq-ok (load_active_session env guest) _ db e in
    let (same1, _, _) = load_active_session-found env guest sess db db1 loaded in
    let (row, db2, read, e2) =
      >>=-eq-ok (load_cart_line guest.tenant_id sess.id line_id) _ db1 e1 in
    let (same2, stored) = load_cart_line-found guest.tenant_id sess.id line_id row db1 db2 read in
    let is : row ≡ line =
      ap (λ o. or_else o row)
        (sym stored
          ∙ ap (λ (d : Db). find (λ (l : CartLine). l.id == line_id) d.cart_lines) (sym same1)
          ∙ found) in
    let (u3, db3, mine, e3) = >>=-eq-ok (assert_owned_by_guest row guest) _ db2 e2 in
    let (own, same3) = owned_passes row guest u3 db2 db3 mine in
    let (u4, db4, whole, e4) = >>=-eq-ok (assert_not_combo_pick row) _ db3 e3 in
    let (alone, same4) = not_pick_passes row u4 db3 db4 whole in
    let (plain, e5) =
      guarded (is_some row.combo_id && is_some dto.modifier_ids) (conflicting combo_locked) _ db4
        e4 in
    let is_combo : is_some row.combo_id ≡ true =
      ap (λ (l : CartLine). is_some l.combo_id) is ∙ combo in
    let none_chosen : is_some dto.modifier_ids ≡ false = ground arith in
    let end =
      reselect-none guest row dto.modifier_ids u (set_quantity row dto.quantity db4) db' none_chosen
        e5 in
    let before = same1 ∙ same2 ∙ same3 ∙ same4 in
    let cart : db'.cart_lines ≡ after_resize line.id line.quantity q db.cart_lines =
      ap (λ (d : Db). d.cart_lines) (sym end)
      ∙ resized-cart row q dto.quantity db4 asked is_combo
      ∙ ap (λ (l : CartLine). after_resize l.id l.quantity q db4.cart_lines) is
      ∙ ap (λ (d : Db). after_resize line.id line.quantity q d.cart_lines) (sym before) in
    (
      ap (λ (l : CartLine). l.guest_id) (sym is) ∙ own,
      resized q line,
      ap (λ (ls : List CartLine). find (λ (l : CartLine). l.id == line_id) ls) cart
          ∙ after_resize-finds line_id line.quantity q db.cart_lines line found
              (ap (λ (l : CartLine). is_some l.parent_line_id) (sym is) ∙ alone),
      refl,
      ap (λ (ls : List CartLine). map (selection q) (select (is_pick line.id) ls)) cart
          ∙ resize-selections line.id line.quantity q db.cart_lines some_q apart,
    )
