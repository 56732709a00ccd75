-- ===== src/Kitchen/Firing.antt =====
-- What `fireOnSend` of kitchen/tickets.service.ts does to the tickets of an order.
use restiq_backend.Base.{
  ℕ, suc, ◌+◌, ◌≡◌, refl, ◌∙◌, ap, fun_ext, Bool, true, false, not, ◌&&◌, ◌||◌, Option, none, List,
  [], ◌∷◌, ◌++◌, ◌==◌, ==_refl, All, All-weaken, Option-cases, select, length, length-append,
  Bool-cases, inl, inr, arith,
}
use restiq_backend.Store.Rows.{Db, OrderLine, TicketLine, is_queued}
use restiq_backend.Kitchen.{
  OrderRef, Group, is_ticketed, is_pending, pending_lines, station_of, group_lines, ticket_lines_of,
  fire_group, fire_groups, fire_on_send, latest_ticket, max_batch,
}
use restiq_backend.Kitchen.Grouping.{
  holds_line, holds, total_lines, any-append, holds-group_lines, total_lines-group_lines,
}

ticketed-ticket_lines_of :
    (ticket batch id : ℕ) (ls : List OrderLine)
    → is_ticketed (ticket_lines_of ticket batch ls) id ≡ holds_line id ls
unfolding ticket_lines_of
ticketed-ticket_lines_of ticket batch id [] = refl
ticketed-ticket_lines_of ticket batch id (l ∷ ls) =
    ground (arith, ticketed-ticket_lines_of ticket batch id ls)

length-ticket_lines_of :
    (ticket batch : ℕ) (ls : List OrderLine) → length (ticket_lines_of ticket batch ls) ≡ length ls
unfolding ticket_lines_of
length-ticket_lines_of ticket batch [] = refl
length-ticket_lines_of ticket batch (l ∷ ls) = ap suc (length-ticket_lines_of ticket batch ls)

-- A firing appends the rows of its lines under some ticket and batch.
abbrev Appends : Db → Db → List OrderLine → Type 0
Appends db db' ls =
    (ticket : ℕ) × (batch : ℕ) × (db'.ticket_lines
      ≡ db.ticket_lines ++ ticket_lines_of ticket batch ls)

fire_group-Appends :
    (order : OrderRef) (now : ℕ) (s : Option ℕ) (ls : List OrderLine) (db : Db)
    → Appends db (fire_group order now (s, ls) db) ls
unfolding fire_group
fire_group-Appends order now s ls db =
    elim (Option-cases (latest_ticket order.id s db.tickets none)) [
      | inl missing ↦ (db.next_id, 0, rw (missing, fire_group))
      | inr (t, found) ↦ elim (Bool-cases (is_queued t.status)) [
        | inl waiting ↦
            (t.id, max_batch t.id db.ticket_lines 0 + 1, rw (found, fire_group, waiting))
        | inr done ↦ (db.next_id, 0, rw (found, fire_group, done))
      ]
    ]

-- All that a firing may not write.
abbrev pub unfired : Db → Db
unfired db = record db { tickets = []; ticket_lines = []; ticket_events = []; next_id = 0 }

fire_group-unfired :
    (order : OrderRef) (now : ℕ) (g : Group) (db : Db)
    → unfired (fire_group order now g db) ≡ unfired db
unfolding fire_group
fire_group-unfired order now (s, ls) db =
    elim (Option-cases (latest_ticket order.id s db.tickets none)) [
      | inl missing ↦ rw (missing, fire_group)
      | inr (t, found) ↦ elim (Bool-cases (is_queued t.status)) [
        | inl waiting ↦ rw (found, fire_group, waiting)
        | inr done ↦ rw (found, fire_group, done)
      ]
    ]

fire_groups-unfired :
    (order : OrderRef) (now : ℕ) (gs : List Group) (db : Db)
    → unfired (fire_groups order now gs db) ≡ unfired db
unfolding fire_groups
fire_groups-unfired order now [] db = refl
fire_groups-unfired order now (g ∷ gs) db =
    fire_groups-unfired order now gs (fire_group order now g db) ∙ fire_group-unfired order now g db

fire_groups-ticketed :
    (order : OrderRef) (now id : ℕ) (gs : List Group) (db : Db)
    → is_ticketed (fire_groups order now gs db).ticket_lines id
      ≡ (is_ticketed db.ticket_lines id || holds id gs)
unfolding fire_groups
fire_groups-ticketed order now id [] db = ground arith
fire_groups-ticketed order now id ((s, ls) ∷ gs) db =
    let (ticket, batch, e) = fire_group-Appends order now s ls db in
    let step : is_ticketed (fire_group order now (s, ls) db).ticket_lines id
        ≡ (is_ticketed db.ticket_lines id || holds_line id ls) =
      rw (e, any-append (λ (t : TicketLine). t.order_line_id == id) db.ticket_lines _)
        (ap (◌||◌ (is_ticketed db.ticket_lines id))
          (ticketed-ticket_lines_of ticket batch id ls)) in
    ground (arith, fire_groups-ticketed order now id gs (fire_group order now (s, ls) db), step)

fire_groups-length :
    (order : OrderRef) (now : ℕ) (gs : List Group) (db : Db)
    → length (fire_groups order now gs db).ticket_lines ≡ length db.ticket_lines + total_lines gs
unfolding fire_groups
fire_groups-length order now [] db = omega arith
fire_groups-length order now ((s, ls) ∷ gs) db =
    let (ticket, batch, e) = fire_group-Appends order now s ls db in
    omega (
      arith,
      fire_groups-length order now gs (fire_group order now (s, ls) db),
      ap length e,
      length-append db.ticket_lines (ticket_lines_of ticket batch ls),
      length-ticket_lines_of ticket batch ls,
    )

-- Sending an order writes exactly one ticket line for each pending line of the order, reports their number, and
-- writes no table but the tickets, their lines and their events.
pub fire_on_send_lines :
    (order : OrderRef) (now : ℕ) (db : Db)
    → let (n, db') = fire_on_send order now db in
      (length db'.ticket_lines ≡ length db.ticket_lines + n)
      × ((id : ℕ)
          → is_ticketed db'.ticket_lines id
            ≡ (is_ticketed db.ticket_lines id || holds_line id (pending_lines db order.id)))
      × (unfired db' ≡ unfired db)
unfolding fire_on_send
fire_on_send_lines order now db =
    let station = station_of db order in
    let lines = pending_lines db order.id in
    let gs = group_lines station lines [] in
    (
      omega (arith, fire_groups-length order now gs db, total_lines-group_lines station lines []),
      (λ id.
          fire_groups-ticketed order now id gs db
          ∙ ap (◌||◌ (is_ticketed db.ticket_lines id))
              (holds-group_lines id station lines [] ∙ or-false _)),
      fire_groups-unfired order now gs db,
    )
  where
    or-false : (b : Bool) → (b || false) ≡ b
    or-false true = refl
    or-false false = refl

select-none {ℓ} :
    {A : Type ℓ} (p q : A → Bool) (xs : List A)
    → All (λ x. p x ≡ true → q x ≡ true) xs
    → select (λ x. p x && not (q x)) xs ≡ []
select-none p q [] h = refl
select-none p q (x ∷ xs) (h, hs) = ground (arith, select-none p q xs hs)

select-holds :
    (p : OrderLine → Bool) (xs : List OrderLine)
    → All (λ l. p l ≡ true → holds_line l.id (select p xs) ≡ true) xs
select-holds p [] = tt
select-holds p (x ∷ xs) = (
  (λ take. ground (arith, ==_refl x.id)),
  All-weaken _ _ xs (λ l h take. ground (arith, h take)) (select-holds p xs),
)

is_pending-fired :
    (order_id : ℕ) (db db' : Db) (fired : ℕ → Bool)
    → ((id : ℕ) → is_ticketed db'.ticket_lines id ≡ (is_ticketed db.ticket_lines id || fired id))
    → (l : OrderLine) → is_pending db' order_id l ≡ (is_pending db order_id l && not (fired l.id))
is_pending-fired order_id db db' fired h l = ground (arith, h l.id)

pub pending-none :
    (db db' : Db) (order_id : ℕ)
    → ((id : ℕ)
        → is_ticketed db'.ticket_lines id
          ≡ (is_ticketed db.ticket_lines id || holds_line id (pending_lines db order_id)))
    → db'.order_lines ≡ db.order_lines
    → pending_lines db' order_id ≡ []
unfolding pending_lines
pending-none db db' order_id ticketed same =
    let p = is_pending db order_id in
    let fired = λ (l : OrderLine). holds_line l.id (select p db.order_lines) in
    rw (same, fun_ext (is_pending-fired order_id db db' _ ticketed))
      (select-none p fired db.order_lines (select-holds p db.order_lines))

-- Sending again, at any time, fires nothing.
pub fire_on_send_twice :
    (order : OrderRef) (now later : ℕ) (db : Db)
    → (fire_on_send order later (fire_on_send order now db).1).0 ≡ 0
fire_on_send_twice order now later db =
    let db' : Db = (fire_on_send order now db).1 in
    let (_, ticketed, same) = fire_on_send_lines order now db in
    let lines = pending_lines db order.id in
    let again : pending_lines db' order.id ≡ [] =
      pending-none db db' order.id ticketed (ap (λ (d : Db). d.order_lines) same) in
    unfold fire_on_send in ap length again
