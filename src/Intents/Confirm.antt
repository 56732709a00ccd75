-- ===== src/Intents/Confirm.antt =====
-- One tender for an intent (`confirmIntent` of pos/payments/intent-core.ts).
use restiq_backend.Base.{
  find-count, ℕ, ◌≡◌, refl, sym, ◌∙◌, ap, Bool, false, not, ◌&&◌, ◌||◌, Option, some, List, [], ◌∷◌,
  ◌++◌, ◌==◌, ==_iff, is_some, find, find-passes, find-update_other, ◌⊎◌, count_where, update_where,
  count-update_off, Bool-cases, inl, inr, arith,
}
use restiq_backend.Store.Rows.{Db, Bill, is_finalized, Tender, PaymentIntent, is_simulated}
use restiq_backend.Store.Transaction.{ok, ok-eq, >>=-eq-ok, ◌>>◌}
use restiq_backend.Bills.{create_tender_record, tender_row}
use restiq_backend.Settle.{Env, payments_simulator_for}
use restiq_backend.Settle.Tenders.{guarded}
use restiq_backend.Intents.{
  pays, confirmable, read_intent, read_bill, update_intents, succeed, flag_late_capture,
  record_capture, confirm_checked, confirm_intent, capture, capture_params,
}

-- How many tenders an intent has.
abbrev pub tenders_for : ℕ → Db → ℕ
tenders_for intent_id db = count_where (pays intent_id) db.tenders

pub read_intent-reads :
    (intent_id : ℕ) (db db' : Db) (i : PaymentIntent)
    → read_intent intent_id db ≡ ok (i, db')
    → (db' ≡ db) × (i.id ≡ intent_id)
unfolding read_intent
read_intent-reads intent_id db db' i e = ground (
  arith,
  find-passes (λ (x : PaymentIntent). x.id == intent_id) db.payment_intents i,
  ==_iff i.id intent_id,
)

pub read_bill-reads :
    (bill_id : ℕ) (db db' : Db) (b : Bill) → read_bill bill_id db ≡ ok (b, db') → db' ≡ db
unfolding read_bill
read_bill-reads bill_id db db' b e = ground arith

count-update_same :
    {A : Type 0} (p q : A → Bool) (f : A → A) (xs : List A)
    → ((x : A) → p (f x) ≡ p x)
    → count_where p (update_where q f xs) ≡ count_where p xs
count-update_same p q f [] same = refl
count-update_same p q f (x ∷ xs) same = ground (arith, same x, count-update_same p q f xs same)

update-none :
    {A : Type 0} (p : A → Bool) (f : A → A) (xs : List A)
    → count_where p xs ≡ 0
    → update_where p f xs ≡ xs
update-none p f [] none_hit = refl
update-none p f (x ∷ xs) none_hit = ground (arith, update-none p f xs)

-- The bill that an intent pays, as it is stored.
abbrev pub bill_of : PaymentIntent → Db → Option Bill
bill_of intent db = find (λ (b : Bill). b.id == intent.bill_id) db.bills

-- A tender of exactly the intent, on a bill that is open.
pub record PaidBy (intent : PaymentIntent) (db db' : Db) : Type 0 where
  pub tender : Tender
  pub bill : Bill
  pub added : db'.tenders ≡ db.tenders ++ tender ∷ []
  pub for_intent : tender.payment_intent_id ≡ some intent.id
  pub on_bill : tender.bill_id ≡ intent.bill_id
  pub whole : tender.amount_minor ≡ intent.amount_minor
  pub stored : bill_of intent db ≡ some bill
  pub was_open : is_finalized bill.status ≡ false

abbrev SameConfirmable : Db → Db → Type 0
SameConfirmable db db' =
    (k : ℕ)
    → count_where (confirmable k) db'.payment_intents
      ≡ count_where (confirmable k) db.payment_intents

read_bill-found :
    (bill_id : ℕ) (db db' : Db) (b : Bill)
    → read_bill bill_id db ≡ ok (b, db')
    → find (λ (x : Bill). x.id == bill_id) db.bills ≡ some b
unfolding read_bill
read_bill-found bill_id db db' b e = ground arith

flag_late_capture-confirmable :
    (env : Env) (tenant_id : ℕ) (intent : PaymentIntent) (db : Db)
    → SameConfirmable db (flag_late_capture env tenant_id intent db)
unfolding flag_late_capture update_intents
flag_late_capture-confirmable env tenant_id intent db k =
    count-update_same (confirmable k) (λ (x : PaymentIntent). x.id == intent.id) _
      db.payment_intents (λ x. refl)

flag_late_capture-tenders :
    (env : Env) (tenant_id : ℕ) (intent : PaymentIntent) (db : Db)
    → (flag_late_capture env tenant_id intent db).tenders ≡ db.tenders
unfolding flag_late_capture update_intents
flag_late_capture-tenders env tenant_id intent db = refl

-- A capture makes no intent confirmable, and writes no tender or the intent's one.
record_capture-writes :
    (env : Env) (tenant_id : ℕ) (intent i : PaymentIntent) (db db' : Db)
    → record_capture env tenant_id intent db ≡ ok (i, db')
    → SameConfirmable db db' × ((db'.tenders ≡ db.tenders) ⊎ PaidBy intent db db')
unfolding record_capture create_tender_record
record_capture-writes env tenant_id intent i db db' e =
    let (b, db1, read, e1) = >>=-eq-ok (read_bill intent.bill_id) _ db e in
    let same1 = read_bill-reads intent.bill_id db db1 b read in
    let e2 =
      ap
        (λ (d : Db).
          (capture (is_finalized b.status) (flag_late_capture env tenant_id intent)
                (create_tender_record (capture_params tenant_id intent))
              >> read_intent intent.id)
            d)
        (sym same1)
      ∙ e1 in
    elim (Bool-cases (is_finalized b.status)) [
      | inl late ↦
          let (same2, id2) =
            read_intent-reads intent.id (flag_late_capture env tenant_id intent db) db' i
              (rw late at e2) in
          (
            (λ k.
                ap (λ (d : Db). count_where (confirmable k) d.payment_intents) same2
                ∙ flag_late_capture-confirmable env tenant_id intent db k),
            inl (
                ap (λ (d : Db). d.tenders) same2
                ∙ flag_late_capture-tenders env tenant_id intent db),
          )
      | inr in_time ↦
          let (same2, id2) = read_intent-reads intent.id _ db' i (rw in_time at e2) in
          (
            (λ k. ap (λ (d : Db). count_where (confirmable k) d.payment_intents) same2),
            inr (record {
              tender = tender_row (capture_params tenant_id intent) db.next_id;
              bill = b;
              added = ap (λ (d : Db). d.tenders) same2;
              for_intent = refl;
              on_bill = refl;
              whole = refl;
              stored = read_bill-found intent.bill_id db db1 b read;
              was_open = in_time;
            }),
          )
    ]

-- The stored row of an intent.
abbrev pub intent_in : ℕ → Db → Option PaymentIntent
intent_in intent_id db = find (λ (i : PaymentIntent). i.id == intent_id) db.payment_intents

-- What a confirmation that returns has done to the money.
abbrev pub Pays : ℕ → Db → Db → Type 0
Pays intent_id db db' =
    (db'.tenders ≡ db.tenders)
    ⊎ (intent : PaymentIntent) × (intent_in intent_id db ≡ some intent)
      × (tenders_for intent_id db ≡ 0)
      × PaidBy intent db db'

pub read_intent-found :
    (intent_id : ℕ) (db db' : Db) (i : PaymentIntent)
    → read_intent intent_id db ≡ ok (i, db')
    → intent_in intent_id db ≡ some i
unfolding read_intent
read_intent-found intent_id db db' i e = ground arith

-- The row that a confirmation reads back has the bill and the amount of the one it found.
flipped_row :
    (env : Env) (intent_id : ℕ) (old new : PaymentIntent) (db : Db)
    → intent_in intent_id db ≡ some old
    → intent_in intent_id (update_intents (confirmable intent_id) (succeed env) db) ≡ some new
    → (new.id ≡ old.id) × (new.bill_id ≡ old.bill_id) × (new.amount_minor ≡ old.amount_minor)
unfolding update_intents
flipped_row env intent_id old new db found flipped =
    let hit =
      find-update_other (λ (x : PaymentIntent). x.id == intent_id) (confirmable intent_id)
        (succeed env) db.payment_intents old (λ x. refl) found in
    ground (arith, hit)

paid_same :
    (old new : PaymentIntent) (db db' : Db)
    → (new.id ≡ old.id) × (new.bill_id ≡ old.bill_id) × (new.amount_minor ≡ old.amount_minor)
    → PaidBy new db db'
    → PaidBy old db db'
paid_same old new db db' (ids, bills, amounts) paid = record {
  tender = paid.tender;
  bill = paid.bill;
  added = paid.added;
  for_intent = paid.for_intent ∙ ap some ids;
  on_bill = paid.on_bill ∙ bills;
  whole = paid.whole ∙ amounts;
  stored = ap (λ (k : ℕ). find (λ (b : Bill). b.id == k) db.bills) (sym bills) ∙ paid.stored;
  was_open = paid.was_open;
}

update_intents-frame :
    (p : PaymentIntent → Bool) (f : PaymentIntent → PaymentIntent) (intent : PaymentIntent)
    (db db' : Db)
    → PaidBy intent (update_intents p f db) db'
    → PaidBy intent db db'
unfolding update_intents
update_intents-frame p f intent db db' paid = record {
  tender = paid.tender;
  bill = paid.bill;
  added = paid.added;
  for_intent = paid.for_intent;
  on_bill = paid.on_bill;
  whole = paid.whole;
  stored = paid.stored;
  was_open = paid.was_open;
}

update_intents-off :
    (env : Env) (intent_id : ℕ) (db : Db)
    → count_where
        (confirmable intent_id)
        (update_intents (confirmable intent_id) (succeed env) db).payment_intents
      ≡ 0
unfolding update_intents
update_intents-off env intent_id db =
    count-update_off (confirmable intent_id) (succeed env) db.payment_intents (λ x. ground arith)

update_intents-tenders :
    (p : PaymentIntent → Bool) (f : PaymentIntent → PaymentIntent) (db : Db)
    → (update_intents p f db).tenders ≡ db.tenders
unfolding update_intents
update_intents-tenders p f db = refl

confirm_checked-writes :
    (env : Env) (tenant_id intent_id : ℕ) (i : PaymentIntent) (db db' : Db)
    → confirm_checked env tenant_id intent_id db ≡ ok (i, db')
    → (old : PaymentIntent) → intent_in intent_id db ≡ some old
    → (count_where (confirmable intent_id) db'.payment_intents ≡ 0) × Pays intent_id db db'
unfolding confirm_checked
confirm_checked-writes env tenant_id intent_id i db db' e old stored =
    let p = confirmable intent_id in
    let db1 = update_intents p (succeed env) db in
    let (new, db2, read, e1) = >>=-eq-ok (read_intent intent_id) _ db1 e in
    let (same2, id2) = read_intent-reads intent_id db1 db2 new read in
    let row =
      flipped_row env intent_id old new db stored (read_intent-found intent_id db1 db2 new read) in
    let off = update_intents-off env intent_id db in
    let tenders1 = update_intents-tenders p (succeed env) db in
    let skip =
      count_where p db.payment_intents == 0 || is_some (find (pays intent_id) db2.tenders) in
    elim (Bool-cases skip) [
      | inl done ↦
          let same =
            ap (λ (r : PaymentIntent × Db). r.1) (ok-eq (new, db2) (i, db') (rw done at e1)) in
          (
            ap (λ (d : Db). count_where p d.payment_intents) (sym same ∙ same2) ∙ off,
            inl (ap (λ (d : Db). d.tenders) (sym same ∙ same2) ∙ tenders1),
          )
      | inr fresh ↦
          let captured : record_capture env tenant_id new db2 ≡ ok (i, db') = rw fresh at e1 in
          let (kept, money) =
            record_capture-writes env tenant_id new i db1 db'
              (ap (λ (d : Db). record_capture env tenant_id new d) (sym same2) ∙ captured) in
          let unpaid =
            ap (λ (ts : List Tender). count_where (pays intent_id) ts)
              (sym tenders1 ∙ ap (λ (d : Db). d.tenders) (sym same2))
            ∙ find-count (pays intent_id) db2.tenders (ground arith) in
          (
            kept intent_id ∙ off,
            elim money [
              | inl same ↦ inl (same ∙ tenders1)
              | inr paid ↦ inr (
                old,
                stored,
                unpaid,
                paid_same old new db db' row (update_intents-frame p (succeed env) new db db' paid),
              )
            ],
          )
    ]

-- A confirmation ran on a stored intent, past the simulator's guard.
confirm_intent-checked :
    (env : Env) (tenant_id intent_id : ℕ) (i : PaymentIntent) (db db' : Db)
    → confirm_intent env tenant_id intent_id db ≡ ok (i, db')
    → (old : PaymentIntent) × (intent_in intent_id db ≡ some old)
      × (confirm_checked env tenant_id intent_id db ≡ ok (i, db'))
unfolding confirm_intent
confirm_intent-checked env tenant_id intent_id i db db' e =
    let (old, db1, read, e1) = >>=-eq-ok (read_intent intent_id) _ db e in
    let (same1, id1) = read_intent-reads intent_id db db1 old read in
    let simulator = payments_simulator_for env db1 tenant_id in
    let (g, e2) = guarded (is_simulated old.provider && not simulator) _ _ db1 e1 in
    (
      old,
      read_intent-found intent_id db db1 old read,
      ap (λ (d : Db). confirm_checked env tenant_id intent_id d) (sym same1) ∙ e2,
    )

-- Confirming a payment intent writes no tender, or exactly one: where the intent had none and its bill is open, of the intent's whole amount, on the intent's bill.
pub confirm_intent-Pays :
    (env : Env) (tenant_id intent_id : ℕ) (i : PaymentIntent) (db db' : Db)
    → confirm_intent env tenant_id intent_id db ≡ ok (i, db')
    → Pays intent_id db db'
confirm_intent-Pays env tenant_id intent_id i db db' e =
    let (old, stored, checked) = confirm_intent-checked env tenant_id intent_id i db db' e in
    (confirm_checked-writes env tenant_id intent_id i db db' checked old stored).1

update_intents-none :
    (p : PaymentIntent → Bool) (f : PaymentIntent → PaymentIntent) (db : Db)
    → count_where p db.payment_intents ≡ 0
    → update_intents p f db ≡ db
unfolding update_intents
update_intents-none p f db off =
    ap (λ (is : List PaymentIntent). record db { payment_intents = is })
      (update-none p f db.payment_intents off)

confirm_checked-idle :
    (env : Env) (tenant_id intent_id : ℕ) (i : PaymentIntent) (db db' : Db)
    → count_where (confirmable intent_id) db.payment_intents ≡ 0
    → confirm_checked env tenant_id intent_id db ≡ ok (i, db')
    → db' ≡ db
unfolding confirm_checked
confirm_checked-idle env tenant_id intent_id i db db' off e =
    let db1 = update_intents (confirmable intent_id) (succeed env) db in
    let (new, db2, read, e1) = >>=-eq-ok (read_intent intent_id) _ db1 e in
    let (same2, id2) = read_intent-reads intent_id db1 db2 new read in
    let same = ap (λ (r : PaymentIntent × Db). r.1) (ok-eq (new, db2) (i, db') (rw off at e1)) in
    sym same ∙ same2 ∙ update_intents-none (confirmable intent_id) (succeed env) db off

-- Confirming an intent twice is confirming it once: a second confirmation that returns, whatever the time, writes nothing.
pub confirm_intent_twice :
    (env env' : Env) (tenant_id tenant_id' intent_id : ℕ) (i i' : PaymentIntent) (db db' db'' : Db)
    → confirm_intent env tenant_id intent_id db ≡ ok (i, db')
    → confirm_intent env' tenant_id' intent_id db' ≡ ok (i', db'')
    → db'' ≡ db'
confirm_intent_twice env env' tenant_id tenant_id' intent_id i i' db db' db'' first second =
    let (old, stored, checked) = confirm_intent-checked env tenant_id intent_id i db db' first in
    let (old', stored', checked') =
      confirm_intent-checked env' tenant_id' intent_id i' db' db'' second in
    confirm_checked-idle env' tenant_id' intent_id i' db' db''
      (confirm_checked-writes env tenant_id intent_id i db db' checked old stored).0 checked'
