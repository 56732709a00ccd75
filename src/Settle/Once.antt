-- ===== src/Settle/Once.antt =====
-- A bill is finalised at most once (pos/bills/bill-core.ts).
use restiq_backend.Base.{
  ℕ, ◌≡◌, ◌≢◌, sym, ◌∙◌, ap, false, Option, count_where, count-update_off, arith,
}
use restiq_backend.Tax.{TaxResult}
use restiq_backend.Base.Int.{ℤ}
use restiq_backend.Store.Rows.{Db, Bill}
use restiq_backend.Store.Transaction.{ok, >>=-eq-ok}
use restiq_backend.Settle.{
  Env, CommitFinalizeParams, reserve_bill_number, finalized_bill, is_open_bill, swap_status,
  fire_order, close_order, go_live, commit_writes, commit_finalize, validate,
}
use restiq_backend.Settle.Tenders.{validate-Validated}
use restiq_backend.Settle.Commit.{
  settled_part, reserve_bill_number-Reserves, fire_order-settled, close_order-settled,
  go_live-settled, load_bill-found,
}

-- How many open rows a bill id has.
abbrev open_rows : ℕ → Db → ℕ
open_rows bill_id db = count_where (is_open_bill bill_id) db.bills

finalized_off :
    (env : Env) (params : CommitFinalizeParams) (tax : Option TaxResult) (r : Option ℤ) (n id : ℕ)
    (x : Bill)
    → is_open_bill id (finalized_bill env params tax r n x) ≡ false
unfolding finalized_bill
finalized_off env params tax r n id x = ground arith

swap_status-leaves :
    (f : Bill → Bill) (bill_id : ℕ) (db db' : Db) (u : Unit {0})
    → ((x : Bill) → is_open_bill bill_id (f x) ≡ false)
    → swap_status bill_id f db ≡ ok (u, db')
    → (open_rows bill_id db ≢ 0) × (open_rows bill_id db' ≡ 0)
unfolding swap_status
swap_status-leaves f bill_id db db' u off e =
    ground (arith, count-update_off (is_open_bill bill_id) f db.bills off)

-- A commit that returns has closed the bill's last open row.
commit_writes-closes :
    (env : Env) (params : CommitFinalizeParams) (tax : Option TaxResult) (round_off : Option ℤ)
    (db db' : Db) (b : Bill)
    → commit_writes env params tax round_off db ≡ ok (b, db')
    → (open_rows params.bill.id db ≢ 0) × (open_rows params.bill.id db' ≡ 0)
unfolding commit_writes
commit_writes-closes env params tax round_off db db' b e =
    let bill = params.bill in
    let (number, db1, reserved, e1) = >>=-eq-ok (reserve_bill_number bill.outlet_id) _ db e in
    let f = finalized_bill env params tax round_off number in
    let (next, others, frame) =
      reserve_bill_number-Reserves bill.outlet_id number db db1 reserved in
    let (u, db2, swapped, e2) = >>=-eq-ok (swap_status bill.id f) _ db1 e1 in
    let (some_open, none_left) =
      swap_status-leaves f bill.id db1 db2 u (finalized_off env params tax round_off number bill.id)
        swapped in
    let db3 : Db = fire_order env params db2 in
    let (u4, db4, closing, e4) = >>=-eq-ok (close_order bill.order_id) _ db3 e2 in
    let db5 : Db = go_live env params.tenant_id db4 in
    let (loaded, last) = load_bill-found params.tenant_id bill.id db5 db' b e4 in
    let later =
      ap settled_part last
      ∙ go_live-settled env params.tenant_id db4
      ∙ close_order-settled bill.order_id db3 db4 u4 closing
      ∙ fire_order-settled env params db2 in
    (
      (λ zero. some_open (ap (λ (d : Db). open_rows bill.id d) frame ∙ zero)),
      ap (λ p. count_where (is_open_bill bill.id) p.0) later ∙ none_left,
    )

commit_finalize-closes :
    (env : Env) (params : CommitFinalizeParams) (db db' : Db) (b : Bill)
    → commit_finalize env params db ≡ ok (b, db')
    → (open_rows params.bill.id db ≢ 0) × (open_rows params.bill.id db' ≡ 0)
unfolding commit_finalize
commit_finalize-closes env params db db' b e =
    let ((tax, round_off), db1, validated, e1) = >>=-eq-ok (validate env params) _ db e in
    let (same, valid) = validate-Validated env params db db1 tax round_off validated in
    commit_writes-closes env params tax round_off db db' b
      (ap (λ (d : Db). commit_writes env params tax round_off d) (sym same) ∙ e1)

-- After a finalisation that returned, no other finalisation of the same bill id returns on the database it left, whatever copy of the bill, discount, staff member and time it is called with.
pub commit_finalize_once :
    (env env' : Env) (params params' : CommitFinalizeParams) (db db' db'' : Db) (b b' : Bill)
    → commit_finalize env params db ≡ ok (b, db')
    → params'.bill.id ≡ params.bill.id
    → commit_finalize env' params' db' ≢ ok (b', db'')
commit_finalize_once env env' params params' db db' db'' b b' first same second =
    (commit_finalize-closes env' params' db' db'' b' second).0
      (ap (λ (i : ℕ). open_rows i db') same ∙ (commit_finalize-closes env params db db' b first).1)
