-- ===== src/Guests/Placed.antt =====
-- An order that a guest has placed (`placeOrder` and `buildOrderStatusView` of
-- guest/orders/orders.service.ts).
use restiq_backend.Base.{
  ℕ, suc, ◌≤◌, ◌≡◌, refl, sym, ◌∙◌, ap, subst, Bool, true, false, not, none, some, List, [], ◌∷◌,
  ◌++◌, ltb, if◌then◌else◌, or_else, select, all, All, All-weaken, count_where, ==_refl, Bool-cases,
  Option-cases, inl, inr, ◌⊎◌, arith,
}
use restiq_backend.Store.Rows.{Db, Order, OrderLine, sent, TableSession, Ticket, is_bumped}
use restiq_backend.Store.Transaction.{ok, ok-eq, >>=-eq-ok, bad_request, empty_cart}
use restiq_backend.Kitchen.{pending_lines}
use restiq_backend.Kitchen.Firing.{fire_on_send_lines, pending-none}
use restiq_backend.Settle.{Env}
use restiq_backend.Settle.Tenders.{guarded}
use restiq_backend.Orders.{set_order}
use restiq_backend.Shares.{GuestPrincipal, is_session_inactive}
use restiq_backend.Guests.Sessions.{load_active_session, later}
use restiq_backend.Guests.Joining.{find_session}
use restiq_backend.Guests.Arriving.{
  claimed, TableFree, marked, mark_sent, sent_part, marked-last, arrival,
}
use restiq_backend.Guests.Entered.{
  but_order, menu_part, wrote, Entries, Entries-same, place_lines-Entries,
}
use restiq_backend.Guests.Placing.{
  own_lines, seat_by_guest, token_for, claim_table, insert_guest_order, guest_order, place_lines,
  send_order, in_cart, empty_the_cart, is_empty, place_order, first_fired, last_bumped, all_bumped,
  ready, placed, preparing, build_order_status_view, OrderStatusView,
}

pub load_active_session-found :
    (env : Env) (guest : GuestPrincipal) (s : TableSession) (db db' : Db)
    → load_active_session env guest db ≡ ok (s, db')
    → (db ≡ db') × (find_session guest.session_id db ≡ some s) × (is_session_inactive env s ≡ false)
unfolding load_active_session
load_active_session-found env guest s db db' e =
    elim (Option-cases (find_session guest.session_id db)) [
      | inl gone_away ↦ absurd (let refused = rw (gone_away, load_active_session) at e in cc)
      | inr (t, found) ↦
          let checked = rw (found, load_active_session) at e in
          elim (Bool-cases (is_session_inactive env t)) [
            | inl over ↦ absurd (let refused = rw over at checked in cc)
            | inr live ↦
                let pair = ok-eq (t, db) (s, db') (rw live at checked) in
                let is = ap (λ (r : TableSession × Db). r.0) pair in
                (
                  ap (λ (r : TableSession × Db). r.1) pair,
                  found ∙ ap some is,
                  ap (is_session_inactive env) (sym is) ∙ live,
                )
          ]
    ]

-- What a placed order has gone through.
pub record PlacedFor (env : Env) (guest : GuestPrincipal) (o : Order) (db db' : Db) : Type 0 where
  pub session : TableSession
  pub stored : find_session guest.session_id db ≡ some session
  pub live : is_session_inactive env session ≡ false
  pub some_lines : is_empty (own_lines guest session.id db) ≡ false
  pub in_session : o.session_id ≡ some session.id
  pub at_table : o.table_id ≡ session.table_id
  pub table_free : TableFree guest session.table_id (claimed env guest session.table_id db)
  pub is_sent : o.status ≡ sent
  pub stored_last :
      db'.orders ≡ marked o.id (claimed env guest session.table_id db).orders ++ o ∷ []
  pub lines : List OrderLine
  pub lines_last : db'.order_lines ≡ db.order_lines ++ lines
  pub entered :
      Entries env guest o.id
        (seat_by_guest guest session.id db)
        (own_lines guest session.id db)
        lines
        db
  pub nothing_waits : pending_lines db' o.id ≡ []
  pub cart_empty : count_where (in_cart guest.tenant_id session.id) db'.cart_lines ≡ 0

select-none :
    {A : Type 0} (p : A → Bool) (xs : List A) → count_where p (select (λ x. not (p x)) xs) ≡ 0
select-none p [] = refl
select-none p (x ∷ xs) = ground (arith, select-none p xs)

fired-none :
    (env : Env) (order : Order) (db : Db) → pending_lines (send_order env order db) order.id ≡ []
fired-none env order db =
    let marked = set_order order.id (λ (o : Order). record o { status = sent }) db in
    let (_, ticketed, same) =
      fire_on_send_lines
        (record { id = order.id; tenant_id = order.tenant_id; outlet_id = order.outlet_id }) env.now
        marked in
    pending-none marked (send_order env order db) order.id ticketed
      (ap (λ (d : Db). d.order_lines) same)

emptied-waits :
    (t k order_id : ℕ) (db : Db)
    → pending_lines (empty_the_cart t k db) order_id ≡ pending_lines db order_id
unfolding pending_lines
emptied-waits t k order_id db = refl

-- What is left to do once the lines are in.
abbrev finished : Env → GuestPrincipal → ℕ → Order → Db → Order × Db
finished env guest session_id order db =
    (mark_sent order, empty_the_cart guest.tenant_id session_id (send_order env order db))

-- From the store in which the order is inserted to the end.
placed_from :
    (env : Env) (guest : GuestPrincipal) (s : TableSession) (order o : Order) (db db4 db5 db' : Db)
    (before : List Order) (new : List OrderLine) (n : ℕ)
    → find_session guest.session_id db ≡ some s
    → is_session_inactive env s ≡ false
    → is_empty (own_lines guest s.id db) ≡ false
    → order.session_id ≡ some s.id
    → order.table_id ≡ s.table_id
    → TableFree guest s.table_id (claimed env guest s.table_id db)
    → before ≡ (claimed env guest s.table_id db).orders
    → db4.orders ≡ before ++ order ∷ []
    → but_order db4 ≡ but_order db
    → db5 ≡ wrote db4 new n
    → Entries env guest order.id (seat_by_guest guest s.id db) (own_lines guest s.id db) new db4
    → finished env guest s.id order db5 ≡ (o, db')
    → PlacedFor env guest o db db'
placed_from env guest s order o db db4 db5 db' before new n stored live full own_session own_table
      free is_before inserted same is5 entries pair =
    let done = send_order env order db5 in
    let is : mark_sent order ≡ o = ap (λ (r : Order × Db). r.0) pair in
    let stored_in = sent_part env order db5 in
    let orders4 : db5.orders ≡ before ++ order ∷ [] = ap (λ (d : Db). d.orders) is5 ∙ inserted in
    let new_orders : done.orders ≡ marked order.id before ++ mark_sent order ∷ [] =
      ap (λ (p : List Order × List OrderLine). p.0) stored_in
      ∙ ap (marked order.id) orders4
      ∙ marked-last order.id before order (==_refl order.id) in
    let new_lines : done.order_lines ≡ db.order_lines ++ new =
      ap (λ (p : List Order × List OrderLine). p.1) stored_in
      ∙ ap (λ (d : Db). d.order_lines) is5
      ∙ ap (λ (d : Db). d.order_lines ++ new) same in
    let seats = seat_by_guest guest s.id db in
    let cart = own_lines guest s.id db in
    record {
      session = s;
      stored = stored;
      live = live;
      some_lines = full;
      in_session = ap (λ (x : Order). x.session_id) (sym is) ∙ own_session;
      at_table = ap (λ (x : Order). x.table_id) (sym is) ∙ own_table;
      table_free = free;
      is_sent = ap (λ (x : Order). x.status) (sym is);
      stored_last =
          ap (λ (r : Order × Db). r.1.orders) (sym pair)
          ∙ new_orders
          ∙ ap (λ (os : List Order). marked order.id os ++ mark_sent order ∷ []) is_before
          ∙ ap (λ (x : Order). marked x.id (claimed env guest s.table_id db).orders ++ x ∷ []) is;
      lines = new;
      lines_last = ap (λ (r : Order × Db). r.1.order_lines) (sym pair) ∙ new_lines;
      entered =
          subst (λ (x : Order). Entries env guest x.id seats cart new db) is
            (Entries-same env guest order.id seats cart new db4 db (ap menu_part same) entries);
      nothing_waits =
          subst (λ (r : Order × Db). pending_lines r.1 r.0.id ≡ []) pair
            (emptied-waits guest.tenant_id s.id order.id done ∙ fired-none env order db5);
      cart_empty =
          ap (λ (r : Order × Db). count_where (in_cart guest.tenant_id s.id) r.1.cart_lines)
            (sym pair)
          ∙ select-none (in_cart guest.tenant_id s.id) done.cart_lines;
    }

-- Placing an order, where it returns: the guest's session is stored, open and not over, its cart had a line to place, and no order that is not closed is at the session's table once a stale one has left it; the order is stored last, sent, in that session and at its table.
-- The lines that are added are those of the cart, in its order: one for each item, with its variant, at the price of the moment, and one for each combo, at the combo's price, followed by one for each of its picks as they resolve against the same menu and cart, at the pick's upcharge; an item or a pick has its modifiers at their prices. An item or a combo is for the guest who put it there, as many as in the cart, and a pick as many as chosen for each combo, times the combos.
-- No line of the order waits for the kitchen any more, and nothing is left in the session's cart.
pub place_order-PlacedFor :
    (env : Env) (guest : GuestPrincipal) (o : Order) (db db' : Db)
    → place_order env guest db ≡ ok (o, db')
    → PlacedFor env guest o db db'
unfolding place_order insert_guest_order
place_order-PlacedFor env guest o db db' e =
    let (s, db1, loaded, e1) = >>=-eq-ok (load_active_session env guest) _ db e in
    let (same1, stored, live) = load_active_session-found env guest s db db1 loaded in
    let (full, e2) =
      guarded (is_empty (own_lines guest s.id db1)) (bad_request empty_cart) _ db1 e1 in
    let seats = seat_by_guest guest s.id db1 in
    let lines = own_lines guest s.id db1 in
    let (token, db2, numbered, e3) = >>=-eq-ok (token_for guest s.table_id) _ db1 e2 in
    let (u, db3, claiming, e4) = >>=-eq-ok (claim_table env guest s.table_id) _ db2 e3 in
    let (free, is_claimed, at_first) =
      arrival env guest s.table_id token u db1 db2 db3 numbered claiming in
    let order = guest_order env guest s token db3.next_id in
    let db4 : Db = record db3 { orders = db3.orders ++ order ∷ []; next_id = suc db3.next_id } in
    let (u5, db5, placing, last) =
      >>=-eq-ok (place_lines env guest order.id seats lines) _ db4 e4 in
    let (new, n, is5, entries) =
      place_lines-Entries env guest order.id seats lines u5 db4 db5 placing in
    subst (λ (d : Db). PlacedFor env guest o d db') (sym same1)
      (placed_from env guest s order o db1 db4 db5 db' db3.orders new n
        (ap (find_session guest.session_id) (sym same1) ∙ stored) live full refl refl free
        is_claimed refl at_first is5 entries
        (ok-eq (finished env guest s.id order db5) (o, db') last))

-- The tickets' times bound those of the view.
first_fired-le :
    (ts : List Ticket) (n : ℕ) → first_fired ts ≡ some n → All (λ (t : Ticket). n ≤ t.fired_at) ts
unfolding first_fired
first_fired-le [] n h = tt
first_fired-le (t ∷ ts) n h = elim (Option-cases (first_fired ts)) [
  | inl alone ↦
      let is : t.fired_at ≡ n = ap (λ o. or_else o 0) (rw alone at h) in
      (omega arith, none_fired ts alone)
  | inr (m, rest) ↦
      let is : (if ltb t.fired_at m then t.fired_at else m) ≡ n =
        ap (λ o. or_else o 0) (rw rest at h) in
      let le : n ≤ m = ground arith in
      (
        ground arith,
        All-weaken (λ (x : Ticket). m ≤ x.fired_at) (λ (x : Ticket). n ≤ x.fired_at) ts
            (λ x h. omega arith) (first_fired-le ts m rest),
      )
]
  where
    none_fired :
        (xs : List Ticket) → first_fired xs ≡ none → All (λ (t : Ticket). n ≤ t.fired_at) xs
    none_fired [] g = tt
    none_fired (x ∷ xs) g = elim (Option-cases (first_fired xs)) [
      | inl alone ↦ absurd (let bad = rw alone at g in cc)
      | inr (m, rest) ↦ absurd (let bad = rw rest at g in cc)
    ]

last_bumped-ge :
    (ts : List Ticket) → All (λ (t : Ticket). or_else t.bumped_at 0 ≤ last_bumped ts) ts
unfolding last_bumped
last_bumped-ge [] = tt
last_bumped-ge (t ∷ ts) = (
  ground arith,
  All-weaken (λ (x : Ticket). or_else x.bumped_at 0 ≤ last_bumped ts)
      (λ (x : Ticket). or_else x.bumped_at 0 ≤ later (or_else t.bumped_at 0) (last_bumped ts)) ts
      (λ x h. ground arith) (last_bumped-ge ts),
)

first_fired-cons : (t : Ticket) (ts : List Ticket) → (n : ℕ) × (first_fired (t ∷ ts) ≡ some n)
unfolding first_fired
first_fired-cons t ts = elim (Option-cases (first_fired ts)) [
  | inl alone ↦ (t.fired_at, rw alone)
  | inr (m, rest) ↦ ((if ltb t.fired_at m then t.fired_at else m), rw rest)
]

bumped-all :
    (ts : List Ticket)
    → all (λ (x : Ticket). is_bumped x.status) ts ≡ true
    → All (λ (x : Ticket). is_bumped x.status ≡ true) ts
bumped-all [] h = tt
bumped-all (t ∷ ts) h = (ground arith, bumped-all ts (ground arith))

-- The kitchen has all of the order ready: every ticket is bumped, none of them later than this.
abbrev pub ReadyAt : List Ticket → ℕ → Type 0
ReadyAt ts r =
    All (λ (t : Ticket). is_bumped t.status ≡ true) ts
    × All (λ (t : Ticket). or_else t.bumped_at 0 ≤ r) ts

-- What a view may say of the tickets.
abbrev pub Honest : List Ticket → OrderStatusView → Type 0
Honest ts v =
    (ts ≡ []) × (v.step ≡ placed) × (v.accepted_at ≡ none) × (v.ready_at ≡ none)
    ⊎ (n : ℕ) × (v.accepted_at ≡ some n)
      × All (λ (t : Ticket). n ≤ t.fired_at) ts
      × ((v.step ≡ preparing)
            × (all (λ (t : Ticket). is_bumped t.status) ts ≡ false)
            × (v.ready_at ≡ none)
          ⊎ (v.step ≡ ready) × ((r : ℕ) × (v.ready_at ≡ some r) × ReadyAt ts r))

-- The steps that a guest sees are what the tickets say: placed where the order has no ticket; else accepted at a time that no ticket was fired before, and ready exactly where every ticket is bumped, at a time that none was bumped after, or else preparing.
pub build_order_status_view-Honest :
    (order : Order) (ts : List Ticket) → Honest ts (build_order_status_view order ts)
unfolding build_order_status_view
build_order_status_view-Honest order [] = inl (refl, refl, none_fired, refl)
  where
    none_fired : (build_order_status_view order []).accepted_at ≡ none
    none_fired = unfold first_fired in refl
build_order_status_view-Honest order (t ∷ ts) =
    let (n, first) = first_fired-cons t ts in
    inr (
      n,
      first,
      first_fired-le (t ∷ ts) n first,
      elim (Bool-cases (all_bumped (t ∷ ts))) [
        | inl over ↦ inr (
          rw over,
          (last_bumped (t ∷ ts), rw over, (bumped-all (t ∷ ts) over, last_bumped-ge (t ∷ ts))),
        )
        | inr on_the_way ↦ inl (rw on_the_way, on_the_way, rw on_the_way)
      ],
    )
