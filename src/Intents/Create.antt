-- ===== src/Intents/Create.antt =====
-- A new payment intent is within what is due, and the only active one of its bill (`createIntent`
-- of pos/payments/intents.service.ts).
use restiq_backend.Base.{
  count-drop, find-count, count-append, ℕ, suc, ◌≤◌, ◌≡◌, sym, ◌∙◌, ap, subst, Bool, true, false,
  not, ◌&&◌, ◌||◌, Option, some, List, [], ◌∷◌, ◌++◌, ltb, ◌==◌, ==_refl, ==_iff, is_some, find,
  find-passes, count_where, Bool-cases, Option-cases, inl, inr, arith,
}
use restiq_backend.Base.Int.{ℤ, ◌≤ℤ◌, ltb_ℤ}
use restiq_backend.Tax.{TaxResult}
use restiq_backend.Store.Rows.{
  expired, timed_out, Db, Bill, is_open, is_finalized, PaymentIntent, terminal,
}
use restiq_backend.Store.Transaction.{
  ok, ok-eq, >>=-eq-ok, pure, throw_if, conflicting, intent_active, client_key_reused,
}
use restiq_backend.Bills.{
  load_bill, update_bill, store_totals, compute_bill_totals, refresh_open_bill_totals,
}
use restiq_backend.Bills.Totals.{bill_in, compute_bill_totals-reads}
use restiq_backend.Settle.{Env, payments_simulator_for}
use restiq_backend.Settle.Tenders.{guarded, throw_if-passes}
use restiq_backend.Settle.Commit.{load_bill-found}
use restiq_backend.Devices.{linked_peripheral}
use restiq_backend.Intents.{
  stop, Staff, CreateIntent, active_of_bill, still_active, update_intents, expire_if_due,
  refuse_active, insert_intent, queue_intent, create_intent, has_key, reuse_or_queue,
  remaining_minor, outlet_terminals, is_intent_active,
}
use restiq_backend.Intents.Confirm.{read_intent-reads}

-- How many active intents a bill has.
abbrev pub active_intents : ℕ → Db → ℕ
active_intents bill_id db = count_where (active_of_bill bill_id) db.payment_intents

store_totals-frame :
    (bill b : Bill) (s : ℤ) (t : TaxResult) (db db' : Db)
    → store_totals bill s t db ≡ ok (b, db')
    → (db'.payment_intents ≡ db.payment_intents) × (db'.tenders ≡ db.tenders)
unfolding update_bill
store_totals-frame bill b s t db db' e = ground arith

pub refresh-frame :
    (bill b : Bill) (db db' : Db)
    → refresh_open_bill_totals bill db ≡ ok (b, db')
    → (db'.payment_intents ≡ db.payment_intents) × (db'.tenders ≡ db.tenders)
unfolding refresh_open_bill_totals
refresh-frame bill b db db' e = elim (Bool-cases (is_open bill.status)) [
  | inl opened ↦
      let ((s, t), db1, totals, rest) =
        >>=-eq-ok (compute_bill_totals bill.tenant_id bill.order_id) _ db (rw opened at e) in
      let same = (compute_bill_totals-reads _ _ db db1 s t totals).0 in
      let (is, ts) = store_totals-frame bill b s t db1 db' rest in
      (is ∙ ap (λ (d : Db). d.payment_intents) same, ts ∙ ap (λ (d : Db). d.tenders) same)
  | inr over ↦ ground arith
]

expire_if_due-drops :
    (env : Env) (bill_id : ℕ) (intent i : PaymentIntent) (db db' : Db)
    → find (active_of_bill bill_id) db.payment_intents ≡ some intent
    → expire_if_due env intent db ≡ ok (i, db')
    → is_intent_active i ≡ false
    → (suc (active_intents bill_id db') ≤ active_intents bill_id db) × (db'.tenders ≡ db.tenders)
unfolding expire_if_due update_intents
expire_if_due-drops env bill_id intent i db db' found e over =
    let act = find-passes (active_of_bill bill_id) db.payment_intents intent found in
    elim (Bool-cases (not (is_intent_active intent) || ltb env.now intent.expires_at)) [
      | inl kept ↦
          let same =
            ap (λ (r : PaymentIntent × Db). r.0) (ok-eq (intent, db) (i, db') (rw kept at e)) in
          let off : is_intent_active intent ≡ false = ap is_intent_active same ∙ over in
          absurd (ground arith)
      | inr due ↦
          let db1 = update_intents (still_active intent.id) (stop expired timed_out) db in
          let (same, _) = read_intent-reads intent.id db1 db' i (rw due at e) in
          (
            subst (λ (d : Db). suc (active_intents bill_id d) ≤ active_intents bill_id db)
                (sym same)
                (count-drop (active_of_bill bill_id) (still_active intent.id)
                  (stop expired timed_out) db.payment_intents intent found
                  (ground (arith, ==_refl intent.id)) (λ x. ground arith)),
            ap (λ (d : Db). d.tenders) same,
          )
    ]

-- A bill with at most one active intent has none left once the stale one is expired.
refuse_active-clears :
    (env : Env) (bill_id : ℕ) (db db' : Db) (u : Unit {0})
    → active_intents bill_id db ≤ 1
    → refuse_active env bill_id db ≡ ok (u, db')
    → (active_intents bill_id db' ≡ 0) × (db'.tenders ≡ db.tenders)
unfolding refuse_active
refuse_active-clears env bill_id db db' u one e =
    elim (Option-cases (find (active_of_bill bill_id) db.payment_intents)) [
      | inl free ↦
          let same =
            ap (λ (r : Unit {0} × Db). r.1)
              (ok-eq (tt, db) (u, db') (rw (free, refuse_active) at e)) in
          (
            ap (active_intents bill_id) (sym same)
                ∙ find-count (active_of_bill bill_id) db.payment_intents (ap is_some free),
            ap (λ (d : Db). d.tenders) (sym same),
          )
      | inr (intent, found) ↦
          let (current, db1, expiring, e1) =
            >>=-eq-ok (expire_if_due env intent)
              (λ current. throw_if (is_intent_active current) (conflicting intent_active)) db
              (rw (found, refuse_active) at e) in
          let (over, same) =
            throw_if-passes (is_intent_active current) (conflicting intent_active) db1 db' u e1 in
          let (fewer, ts) =
            expire_if_due-drops env bill_id intent current db db1 found expiring over in
          let none_left : active_intents bill_id db1 ≡ 0 = omega arith in
          (
            ap (active_intents bill_id) (sym same) ∙ none_left,
            ap (λ (d : Db). d.tenders) (sym same) ∙ ts,
          )
    ]

pub insert_intent-adds :
    (env : Env) (staff : Staff) (bill_id : ℕ) (dto : CreateIntent) (target : Option ℕ) (bill : Bill)
    (i : PaymentIntent) (db db' : Db)
    → insert_intent env staff bill_id dto target bill db ≡ ok (i, db')
    → (db'.payment_intents ≡ db.payment_intents ++ i ∷ [])
      × (db'.tenders ≡ db.tenders)
      × (active_of_bill bill_id i ≡ true)
      × (i.amount_minor ≡ dto.amount_minor)
unfolding insert_intent
insert_intent-adds env staff bill_id dto target bill i db db' e = ground (arith, ==_refl bill_id)

-- What a new intent has gone through.
pub record Queued (bill_id : ℕ) (bill : Bill) (dto : CreateIntent) (i : PaymentIntent) (db db' : Db)
    : Type 0 where
  pub for_bill : i.bill_id ≡ bill_id
  pub asked : i.amount_minor ≡ dto.amount_minor
  pub within : i.amount_minor ≤ℤ remaining_minor db bill
  pub only_one : active_intents bill_id db' ≡ 1
  pub others : List PaymentIntent
  pub stored_last : db'.payment_intents ≡ others ++ i ∷ []
  pub active : active_of_bill bill_id i ≡ true
  pub no_tender : db'.tenders ≡ db.tenders

queue_intent-Queued :
    (env : Env) (staff : Staff) (bill_id : ℕ) (dto : CreateIntent) (bill : Bill) (i : PaymentIntent)
    (new : Bool) (db db' : Db)
    → active_intents bill_id db ≤ 1
    → queue_intent env staff bill_id dto bill db ≡ ok ((i, new), db')
    → Queued bill_id bill dto i db db'
unfolding queue_intent
queue_intent-Queued env staff bill_id dto bill i new db db' one e =
    let (g1, e1) = guarded (ltb_ℤ (remaining_minor db bill) dto.amount_minor) _ _ db e in
    let (u, db1, cleared, e2) = >>=-eq-ok (refuse_active env bill_id) _ db e1 in
    let (none_left, ts1) = refuse_active-clears env bill_id db db1 u one cleared in
    let target = linked_peripheral db1 staff.tenant_id dto.device_id terminal in
    let (g2, e3) =
      guarded (not (is_some target) && outlet_terminals db1 staff.tenant_id bill.outlet_id == 0) _ _
        db1 e2 in
    let (row, db2, inserted, last) =
      >>=-eq-ok (insert_intent env staff bill_id dto target bill) _ db1 e3 in
    let same = ok-eq ((row, true), db2) ((i, new), db') last in
    let (added, ts2, act, amount) =
      insert_intent-adds env staff bill_id dto target bill row db1 db2 inserted in
    subst (λ (r : (PaymentIntent × Bool) × Db). Queued bill_id bill dto r.0.0 db r.1) same
      (record {
        for_bill = ground (arith, ==_iff row.bill_id bill_id);
        asked = amount;
        within = ground arith;
        only_one =
            ap (λ (is : List PaymentIntent). count_where (active_of_bill bill_id) is) added
            ∙ count-append (active_of_bill bill_id) db1.payment_intents row
            ∙ ground arith;
        others = db1.payment_intents;
        stored_last = added;
        active = act;
        no_tender = ts2 ∙ ts1;
      })

load_bill-own :
    (tenant_id bill_id : ℕ) (db db' : Db) (b : Bill)
    → load_bill tenant_id bill_id db ≡ ok (b, db')
    → b.tenant_id ≡ tenant_id
unfolding load_bill
load_bill-own tenant_id bill_id db db' b e = ground (arith, ==_iff b.tenant_id tenant_id)

-- Sending a new amount to the terminal, for a bill with at most one active payment intent: the tenant's bill of that id is stored and its totals are refreshed first, it is not finalised, the amount is at most what is still due after its tenders, and when the handler returns the new intent is stored last and is the bill's only active one, and no tender has been written.
pub create_intent_within :
    (env : Env) (staff : Staff) (bill_id : ℕ) (dto : CreateIntent) (i : PaymentIntent) (db db' : Db)
    → active_intents bill_id db ≤ 1
    → create_intent env staff bill_id dto db ≡ ok ((i, true), db')
    → (bill loaded : Bill) × (db1 : Db) × (refresh_open_bill_totals loaded db ≡ ok (bill, db1))
      × (bill_in bill_id db ≡ some loaded)
      × (loaded.tenant_id ≡ staff.tenant_id)
      × (is_finalized bill.status ≡ false)
      × Queued bill_id bill dto i db1 db'
unfolding create_intent
create_intent_within env staff bill_id dto i db db' one e =
    let simulator = payments_simulator_for env db staff.tenant_id in
    let (g1, e1) = guarded (not simulator) _ _ db e in
    let (loaded, db0, loading, e2) = >>=-eq-ok (load_bill staff.tenant_id bill_id) _ db e1 in
    let (stored, same0) = load_bill-found staff.tenant_id bill_id db db0 loaded loading in
    let (bill, db1, refreshed, e3) = >>=-eq-ok (refresh_open_bill_totals loaded) _ db0 e2 in
    let (is, ts) = refresh-frame loaded bill db0 db1 refreshed in
    let (opened, e4) = guarded (is_finalized bill.status) _ _ db1 e3 in
    let key = find (has_key staff.tenant_id dto.client_key) db1.payment_intents in
    let e5 : reuse_or_queue env staff bill_id dto bill key db1 ≡ ok ((i, true), db') = e4 in
    elim (Option-cases key) [
      | inl fresh ↦ (
        bill,
        loaded,
        db1,
        ap (λ (d : Db). refresh_open_bill_totals loaded d) (sym same0) ∙ refreshed,
        stored,
        load_bill-own staff.tenant_id bill_id db db0 loaded loading,
        opened,
        queue_intent-Queued env staff bill_id dto bill i true db1 db'
            (subst (λ n. n ≤ 1)
              (ap (λ (ps : List PaymentIntent). count_where (active_of_bill bill_id) ps)
                (sym (is ∙ ap (λ (d : Db). d.payment_intents) same0)))
              one)
            (ap (λ k. reuse_or_queue env staff bill_id dto bill k db1) (sym fresh) ∙ e5),
      )
      | inr (intent, known) ↦
          let (g5, e6) =
            guarded (not (intent.bill_id == bill_id)) (conflicting client_key_reused) _ db1
              (ap (λ k. reuse_or_queue env staff bill_id dto bill k db1) (sym known) ∙ e5) in
          let (current, db2, expiring, last) =
            >>=-eq-ok (expire_if_due env intent) (λ c. pure {A = PaymentIntent × Bool} (c, false))
              db1 e6 in
          let old : false ≡ true =
            ap (λ (r : (PaymentIntent × Bool) × Db). r.0.1)
              (ok-eq ((current, false), db2) ((i, true), db') last) in
          cc
    ]
