-- ===== src/Bills/Opening.antt =====
-- One bill per order (`createOrGetBillRecord` of pos/bills/bill-core.ts).
use restiq_backend.Base.{
  ℕ, suc, ◌+◌, ◌≤◌, ◌≡◌, refl, sym, ◌∙◌, ap, subst, Bool, true, false, none, some, List, [], ◌∷◌,
  ◌++◌, ◌==◌, ==_iff, ==_refl, find, count_where, update_where, Bool-cases, Option-cases, inl, inr,
  arith,
}
use restiq_backend.Base.Int.{ℤ}
use restiq_backend.Tax.{TaxResult}
use restiq_backend.Store.Rows.{Db, Bill, is_open}
use restiq_backend.Store.Transaction.{Error, ok, ok-eq, >>=-eq-ok, throw_if, conflicting, conflict}
use restiq_backend.Bills.{
  CreateBillParams, new_bill, bill_of_order, insert_bill, create_or_get_bill_record,
  refresh_open_bill_totals, update_bill, compute_bill_totals, with_totals, totals_current,
}
use restiq_backend.Bills.Totals.{compute_bill_totals-reads}

-- The number of bills of an order.
abbrev pub bills_of : Db → ℕ → ℕ
bills_of db order_id = count_where (λ (b : Bill). b.order_id == order_id) db.bills

count-append {ℓ} :
    {A : Type ℓ} (p : A → Bool) (xs ys : List A)
    → count_where p (xs ++ ys) ≡ count_where p xs + count_where p ys
count-append p [] ys = omega arith
count-append p (x ∷ xs) ys = ground (arith, count-append p xs ys)

count-none {ℓ} : {A : Type ℓ} (p : A → Bool) (xs : List A) → find p xs ≡ none → count_where p xs ≡ 0
count-none p [] h = refl
count-none p (x ∷ xs) h = ground (arith, count-none p xs)

count-update_where {ℓ} :
    {A : Type ℓ} (p q : A → Bool) (f : A → A) (xs : List A)
    → ((x : A) → p (f x) ≡ p x)
    → count_where p (update_where q f xs) ≡ count_where p xs
count-update_where p q f [] keep = refl
count-update_where p q f (x ∷ xs) keep = ground (arith, keep x, count-update_where p q f xs keep)

count-some {ℓ} :
    {A : Type ℓ} (p : A → Bool) (xs : List A) (a : A) → find p xs ≡ some a → 1 ≤ count_where p xs
count-some p [] a h = cc
count-some p (x ∷ xs) a h = ground (arith, count-some p xs a)

-- The unique index on the order of a bill holds.
abbrev pub OneBillEach : Db → Type 0
OneBillEach db = (order_id : ℕ) → bills_of db order_id ≤ 1

added :
    (params : CreateBillParams) (bill : Bill) (db : Db) (order_id : ℕ)
    → bill.order_id ≡ params.order_id
    → bill_of_order db params.order_id ≡ none
    → OneBillEach db
    → (count_where (λ (b : Bill). b.order_id == order_id) (db.bills ++ bill ∷ []) ≤ 1)
      × (count_where (λ (b : Bill). b.order_id == params.order_id) (db.bills ++ bill ∷ []) ≡ 1)
added params bill db order_id own free one =
    let none_yet = count-none (λ (b : Bill). b.order_id == params.order_id) db.bills free in
    (
      ground (
        arith,
        count-append (λ (b : Bill). b.order_id == order_id) db.bills (bill ∷ []),
        one order_id,
        none_yet,
        ==_iff params.order_id order_id,
      ),
      ground (
        arith,
        count-append (λ (b : Bill). b.order_id == params.order_id) db.bills (bill ∷ []),
        none_yet,
        ==_refl params.order_id,
      ),
    )

abbrev OneBill : ℕ → Db → Type 0
OneBill order_id db = OneBillEach db × (bills_of db order_id ≡ 1)

insert_bill-OneBill :
    (params : CreateBillParams) (s : ℤ) (t : TaxResult) (db db' : Db) (r : Bill × Bool)
    → OneBillEach db
    → insert_bill params s t db ≡ ok (r, db')
    → OneBill params.order_id db'
unfolding insert_bill
insert_bill-OneBill params s t db db' r one e =
    elim (Option-cases (bill_of_order db params.order_id)) [
      | inr (raced, found) ↦
          subst (λ (p : (Bill × Bool) × Db). OneBill params.order_id p.1)
            (ok-eq ((raced, false), db) (r, db') (rw (found, insert_bill) at e))
            (one, omega (arith, one params.order_id, count-some _ db.bills raced found))
      | inl free ↦
          let bill = new_bill db.next_id params s t in
          subst (λ (p : (Bill × Bool) × Db). OneBill params.order_id p.1)
            (ok-eq
              ((bill, true), record db { bills = db.bills ++ bill ∷ []; next_id = suc db.next_id })
              (r, db') (rw (free, insert_bill) at e))
            (
              (λ order_id. (added params bill db order_id refl free one).0),
              (added params bill db params.order_id refl free one).1,
            )
    ]

update-bills_of :
    (bill_id : ℕ) (f : Bill → Bill) (b : Bill) (db db' : Db) (order_id : ℕ)
    → ((x : Bill) → (f x).order_id ≡ x.order_id)
    → update_bill bill_id f db ≡ ok (b, db')
    → bills_of db' order_id ≡ bills_of db order_id
unfolding update_bill
update-bills_of bill_id f b db db' order_id keep e = ground (
  arith,
  count-update_where (λ (x : Bill). x.order_id == order_id) (λ (x : Bill). x.id == bill_id) f
      db.bills (λ x. ap (λ (i : ℕ). i == order_id) (keep x)),
)

refresh-bills_of :
    (bill b : Bill) (db db' : Db) (order_id : ℕ)
    → refresh_open_bill_totals bill db ≡ ok (b, db')
    → bills_of db' order_id ≡ bills_of db order_id
unfolding refresh_open_bill_totals
refresh-bills_of bill b db db' order_id e = elim (Bool-cases (is_open bill.status)) [
  | inr closed ↦ ground arith
  | inl opened ↦
      let ((s, t), db1, totals, rest) =
        >>=-eq-ok (compute_bill_totals bill.tenant_id bill.order_id) _ db (rw opened at e) in
      let (same, _, _) = compute_bill_totals-reads _ _ db db1 s t totals in
      let h : bills_of db' order_id ≡ bills_of db1 order_id =
        elim (Bool-cases (totals_current bill s t)) [
          | inl current ↦ ground arith
          | inr stale ↦
              update-bills_of bill.id (with_totals s t) b db1 db' order_id (λ x. refl)
                (rw stale at rest)
        ] in
      h ∙ ap (λ (d : Db). bills_of d order_id) same
]

throw_if-same :
    (c : Bool) (x : Error) (db db' : Db) (u : Unit {0}) → throw_if c x db ≡ ok (u, db') → db' ≡ db
throw_if-same c x db db' u e = ground arith

-- Whatever concurrent transactions commit within the unique index, raising an order's bill leaves exactly one bill of that
-- order and at most one of any other.
pub create_or_get_one_bill :
    (others : Db → Db) (params : CreateBillParams) (db db' : Db) (r : Bill × Bool)
    → ((d : Db) → OneBillEach d → OneBillEach (others d))
    → OneBillEach db
    → create_or_get_bill_record others params db ≡ ok (r, db')
    → OneBillEach db' × (bills_of db' params.order_id ≡ 1)
unfolding create_or_get_bill_record
create_or_get_one_bill others params db db' r keep one e =
    elim (Option-cases (bill_of_order db params.order_id)) [
      | inr (existing, found) ↦
          let (b, db1, refreshed, rest) =
            >>=-eq-ok (refresh_open_bill_totals existing) _ db
              (rw (found, create_or_get_bill_record) at e) in
          let same = λ (o : ℕ). refresh-bills_of existing b db db1 o refreshed in
          subst (λ (p : (Bill × Bool) × Db). OneBill params.order_id p.1)
            (ok-eq ((b, false), db1) (r, db') rest)
            (
              (λ o. omega (arith, same o, one o)),
              omega (
                arith,
                same params.order_id,
                one params.order_id,
                count-some _ db.bills existing found,
              ),
            )
      | inl free ↦
          let (_, db1, admitted, rest) =
            >>=-eq-ok (throw_if params.order_closed (conflicting conflict)) _ db
              (rw (free, create_or_get_bill_record) at e) in
          let ((s, t), db2, totals, rest') =
            >>=-eq-ok (compute_bill_totals params.tenant_id params.order_id) _ db1 rest in
          let (same, _, _) = compute_bill_totals-reads _ _ db1 db2 s t totals in
          let start : OneBillEach db2 =
            subst OneBillEach (sym (same ∙ throw_if-same params.order_closed _ db db1 _ admitted))
              one in
          insert_bill-OneBill params s t (others db2) db' r (keep db2 start) rest'
    ]

-- Once a bill of the order is there, raising it again creates none, whatever is committed meanwhile.
pub create_or_get_existing :
    (others : Db → Db) (params : CreateBillParams) (db db' : Db) (b : Bill) (created : Bool)
    → 1 ≤ bills_of db params.order_id
    → create_or_get_bill_record others params db ≡ ok ((b, created), db')
    → (created ≡ false) × ((order_id : ℕ) → bills_of db' order_id ≡ bills_of db order_id)
unfolding create_or_get_bill_record
create_or_get_existing others params db db' b created there e =
    elim (Option-cases (bill_of_order db params.order_id)) [
      | inl free ↦ absurd (omega (arith, count-none _ db.bills free))
      | inr (existing, found) ↦
          let (b', db1, refreshed, rest) =
            >>=-eq-ok (refresh_open_bill_totals existing) _ db
              (rw (found, create_or_get_bill_record) at e) in
          let same = ok-eq ((b', false), db1) ((b, created), db') rest in
          (
            sym (ap (λ (p : (Bill × Bool) × Db). p.0.1) same),
            λ o.
                ap (λ (p : (Bill × Bool) × Db). bills_of p.1 o) (sym same)
                ∙ refresh-bills_of existing b' db db1 o refreshed,
          )
    ]
