-- ===== src/Till/Discount.antt =====
-- What finalising a bill at the till asks for (`finalize` of pos/bills/bills.service.ts).
use restiq_backend.Base.{
  ℕ, ◌≡◌, sym, ◌∙◌, ap, true, not, Option, none, some, is_some, Bool-cases, inl, inr, arith,
}
use restiq_backend.Store.Rows.{Db, Bill, is_finalized}
use restiq_backend.Store.Transaction.{Result, ok, err, ok-eq, >>=-eq-ok, >>=-at, ◌>>=◌}
use restiq_backend.Bills.{load_bill, refresh_open_bill_totals}
use restiq_backend.Settle.{Env}
use restiq_backend.Settle.Tenders.{guarded}
use restiq_backend.Intents.{Staff}
use restiq_backend.Manager.{ManagerApproval}
use restiq_backend.Refund.{from_result}
use restiq_backend.Till.{
  FinalizeBill, above_threshold, approve_discount, finalize_loaded, finalize, xor,
}

-- A discount above the threshold has had a PIN and an approval.
abbrev pub Approved : (Db → Result ManagerApproval) → FinalizeBill → Db → Type 0
Approved approve dto db =
    (is_some dto.manager_pin ≡ true) × (approval : ManagerApproval) × (approve db ≡ ok approval)

from_result-ok :
    (A : Type 0) (r : Result A) (a : A) (db db' : Db)
    → from_result r db ≡ ok (a, db')
    → (r ≡ ok a) × (db' ≡ db)
from_result-ok A (ok x) a db db' e =
    let same = ok-eq (x, db) (a, db') e in
    (ap (λ (p : A × Db). ok p.0) same, sym (ap (λ (p : A × Db). p.1) same))
from_result-ok A (err x) a db db' e = cc

approve_discount-Approved :
    (approve : Db → Result ManagerApproval) (dto : FinalizeBill) (bill : Bill) (db db' : Db)
    (a : Option ManagerApproval)
    → approve_discount approve dto bill db ≡ ok (a, db')
    → (db' ≡ db) × (above_threshold bill dto.discount_minor ≡ true → Approved approve dto db)
unfolding approve_discount
approve_discount-Approved approve dto bill db db' a e =
    elim (Bool-cases (above_threshold bill dto.discount_minor)) [
      | inl above ↦
          let (g, e1) = guarded (not (is_some dto.manager_pin)) _ _ db (rw above at e) in
          let (approval, db1, answered, last) =
            >>=-eq-ok (λ d. from_result (approve d) d) _ db e1 in
          let (said, same) = from_result-ok ManagerApproval (approve db) approval db db1 answered in
          (
            sym (
                  ap (λ (r : Option ManagerApproval × Db). r.1)
                    (ok-eq (some approval, db1) (a, db') last))
                ∙ same,
            λ h. (ground arith, approval, said),
          )
      | inr below ↦ (
        sym (
            ap (λ (r : Option ManagerApproval × Db). r.1)
              (ok-eq (none, db) (a, db') (rw below at e))),
        λ h. cc,
      )
    ]

-- Finalising a bill at the till with a discount of more than a fifth of its current subtotal (rounded down) returns only when a manager's PIN was given and approved.
pub finalize-Approved :
    (env : Env) (approve : Db → Result ManagerApproval) (staff : Staff) (bill_id : ℕ)
    (dto : FinalizeBill) (db db0 db1 db' : Db) (loaded bill b : Bill)
    → load_bill staff.tenant_id bill_id db ≡ ok (loaded, db0)
    → refresh_open_bill_totals loaded db0 ≡ ok (bill, db1)
    → above_threshold bill dto.discount_minor ≡ true
    → finalize env approve staff bill_id dto db ≡ ok (b, db')
    → Approved approve dto db1
unfolding finalize finalize_loaded
finalize-Approved env approve staff bill_id dto db db0 db1 db' loaded bill b loading refreshed above
      e =
    let (g0, e0) =
      guarded (xor (is_some dto.discount_minor) (is_some dto.discount_reason)) _ _ db e in
    let next = finalize_loaded env approve staff dto in
    let e1 =
      sym (
        >>=-at (load_bill staff.tenant_id bill_id) (λ l. refresh_open_bill_totals l >>= next) db db0
          loaded loading)
      ∙ e0 in
    let e2 = sym (>>=-at (refresh_open_bill_totals loaded) next db0 db1 bill refreshed) ∙ e1 in
    let (opened, e3) = guarded (is_finalized bill.status) _ _ db1 e2 in
    let (a, db2, asked, e4) = >>=-eq-ok (approve_discount approve dto bill) _ db1 e3 in
    (approve_discount-Approved approve dto bill db1 db2 a asked).1 above
