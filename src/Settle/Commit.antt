-- ===== src/Settle/Commit.antt =====
-- What `commitFinalize` writes (pos/bills/bill-core.ts).
use restiq_backend.Base.{
  ℕ, ◌+◌, ◌≡◌, refl, ap, subst, Bool, Option, none, some, List, [], ◌∷◌, ◌++◌, ◌==◌, ==_iff,
  if◌then◌else◌, find, update_where, Option-cases, inl, inr, arith,
}
use restiq_backend.Base.Int.{ℤ}
use restiq_backend.Tax.{TaxResult}
use restiq_backend.Store.Rows.{Db, Bill, BillNumberCounter, Tender}
use restiq_backend.Store.Transaction.{ok, ok-eq}
use restiq_backend.Kitchen.Firing.{fire_on_send_lines}
use restiq_backend.Bills.{load_bill}
use restiq_backend.Bills.Totals.{bill_in}
use restiq_backend.Settle.{
  Env, CommitFinalizeParams, reserve_bill_number, finalized_bill, fire_order, close_order, go_live,
}

-- The last number that an outlet has given out.
abbrev pub last_number : Db → ℕ → ℕ
last_number db outlet_id =
    elim (find (λ (c : BillNumberCounter). c.outlet_id == outlet_id) db.bill_number_counters) [
      | none ↦ 0
      | some c ↦ c.last_number
    ]

abbrev bump_counter : BillNumberCounter → BillNumberCounter
bump_counter c = record c { last_number = c.last_number + 1 }

last-insert :
    (o p : ℕ) (cs : List BillNumberCounter)
    → find (λ (c : BillNumberCounter). c.outlet_id == o) cs ≡ none
    → find
        (λ (c : BillNumberCounter). c.outlet_id == p)
        (cs ++ record { outlet_id = o; last_number = 1 } ∷ [])
      ≡ (if o == p
          then some (record { outlet_id = o; last_number = 1 })
          else find (λ (c : BillNumberCounter). c.outlet_id == p) cs)
last-insert o p [] free = ground arith
last-insert o p (c ∷ cs) free =
    ground (arith, last-insert o p cs, ==_iff o p, ==_iff c.outlet_id o, ==_iff c.outlet_id p)

bumped : Bool → Option BillNumberCounter → Option BillNumberCounter
bumped own none = none
bumped own (some c) = some (if own then bump_counter c else c)

last-bump :
    (o p : ℕ) (cs : List BillNumberCounter)
    → find
        (λ (c : BillNumberCounter). c.outlet_id == p)
        (update_where (λ (c : BillNumberCounter). c.outlet_id == o) bump_counter cs)
      ≡ bumped (o == p) (find (λ (c : BillNumberCounter). c.outlet_id == p) cs)
unfolding bumped
last-bump o p [] = refl
last-bump o p (c ∷ cs) =
    ground (arith, last-bump o p cs, ==_iff o p, ==_iff c.outlet_id o, ==_iff c.outlet_id p)

-- The number reserved is one more than the outlet's last, which it becomes; no other outlet's
-- changes, and no other table.
abbrev pub Reserves : Db → ℕ → ℕ × Db → Type 0
Reserves db outlet_id (number, db') =
    (number ≡ last_number db outlet_id + 1)
    × ((o : ℕ) → last_number db' o ≡ (if outlet_id == o then number else last_number db o))
    × (db' ≡ record db { bill_number_counters = db'.bill_number_counters })

pub reserve_bill_number-Reserves :
    (outlet_id number : ℕ) (db db' : Db)
    → reserve_bill_number outlet_id db ≡ ok (number, db')
    → Reserves db outlet_id (number, db')
unfolding reserve_bill_number bumped
reserve_bill_number-Reserves outlet_id number db db' e =
    elim (Option-cases
      (find (λ (c : BillNumberCounter). c.outlet_id == outlet_id) db.bill_number_counters)) [
        | inl free ↦
            let db1 : Db = record db {
              bill_number_counters =
                  db.bill_number_counters ++ record { outlet_id = outlet_id; last_number = 1 } ∷ [];
            } in
            subst (Reserves db outlet_id)
              (ok-eq (1, db1) (number, db') (rw (free, reserve_bill_number) at e))
              (
                ground arith,
                (λ o. ground (arith, last-insert outlet_id o db.bill_number_counters free)),
                refl,
              )
        | inr (c, found) ↦
            let db1 : Db = record db {
              bill_number_counters =
                  update_where (λ (c : BillNumberCounter). c.outlet_id == outlet_id) bump_counter
                    db.bill_number_counters;
            } in
            subst (Reserves db outlet_id)
              (ok-eq (c.last_number + 1, db1) (number, db') (rw (found, reserve_bill_number) at e))
              (
                ground arith,
                (λ o.
                    ground
                      (arith, last-bump outlet_id o db.bill_number_counters, ==_iff outlet_id o)),
                refl,
              )
      ]

-- The tables that are written after the swap, left out.
abbrev pub settled_part : Db → List Bill × List BillNumberCounter × List Tender
settled_part db = (db.bills, db.bill_number_counters, db.tenders)

pub fire_order-settled :
    (env : Env) (params : CommitFinalizeParams) (db : Db)
    → settled_part (fire_order env params db) ≡ settled_part db
fire_order-settled env params db = ap settled_part (fire_on_send_lines _ env.now db).2

pub close_order-settled :
    (order_id : ℕ) (db db' : Db) (u : Unit {0})
    → close_order order_id db ≡ ok (u, db')
    → settled_part db' ≡ settled_part db
unfolding close_order
close_order-settled order_id db db' u e = ground arith

pub go_live-settled :
    (env : Env) (tenant_id : ℕ) (db : Db)
    → settled_part (go_live env tenant_id db) ≡ settled_part db
unfolding go_live
go_live-settled env tenant_id db = ground arith

pub load_bill-found :
    (tenant_id bill_id : ℕ) (db db' : Db) (b : Bill)
    → load_bill tenant_id bill_id db ≡ ok (b, db')
    → (bill_in bill_id db ≡ some b) × (db' ≡ db)
unfolding load_bill
load_bill-found tenant_id bill_id db db' b e = (ground arith, ground arith)

-- The writes store the finalised bill under the next number of its outlet, and no other outlet's
-- number and no tender changes.
pub record Commits (env : Env) (params : CommitFinalizeParams) (tax : Option TaxResult)
    (round_off : Option ℤ) (db : Db) (b : Bill) (db' : Db) : Type 0 where
  pub row :
      b
      ≡ finalized_bill env params tax round_off
          (last_number db params.bill.outlet_id + 1)
          params.bill
  pub stored : bill_in params.bill.id db' ≡ some b
  pub numbered :
      (o : ℕ)
      → last_number db' o
        ≡ (if params.bill.outlet_id == o then last_number db o + 1 else last_number db o)
  pub same_tenders : db'.tenders ≡ db.tenders

numbers : List Bill × List BillNumberCounter × List Tender → ℕ → ℕ
numbers p o = elim (find (λ (c : BillNumberCounter). c.outlet_id == o) p.1) [
  | none ↦ 0
  | some c ↦ c.last_number
]
