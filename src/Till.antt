-- ===== src/Till.antt =====
-- The till's own steps of a bill, pos/bills/bills.service.ts: opening it and finalising it. The
-- manager's approval, which runs outside the transaction, is the argument `approve`.
pub mod Discount
use restiq_backend.Base.{
  ℕ, Bool, true, false, not, ◌&&◌, ◌||◌, Option, none, some, List, [], ◌∷◌, ◌++◌, String,
  if◌then◌else◌, is_some, or_else, any, ◌==◌,
}
use restiq_backend.Base.Int.{ℤ, pos, ◌*ℤ◌, ◌/ℤ◌, ltb_ℤ}
use restiq_backend.Store.Rows.{
  Db, Order, Bill, is_finalized, is_closed, TenderMethod, external, is_cash,
}
use restiq_backend.Store.Transaction.{
  Tx, Result, ok, err, pure, gets, ◌>>=◌, ◌>>◌, throw_if, modify, conflicting, bad_request,
  validation_failed, already_finalized, manager_pin_required, shift_not_open,
}
use restiq_backend.Bills.{
  load_bill, refresh_open_bill_totals, create_or_get_bill_record, create_tender_record,
  TenderParams,
}
use restiq_backend.Settle.{Env, commit_finalize}
use restiq_backend.Intents.{Staff}
use restiq_backend.Permissions.{role_has_permission, settle_bills}
use restiq_backend.Manager.{ManagerApproval, record_approval, is_white}
use restiq_backend.Refund.{from_result}
use restiq_backend.Orders.{load_order, assert_owner}

-- `createBill`: the bill, and whether it is new.
unfoldable pub create_staff_bill : (Db → Db) → Staff → ℕ → Tx (Bill × Bool)
create_staff_bill others staff order_id = do
  order ← load_order staff.tenant_id order_id
  (if role_has_permission staff.role settle_bills then pure tt else assert_owner order staff)
  create_or_get_bill_record others (record {
    tenant_id = staff.tenant_id;
    outlet_id = order.outlet_id;
    order_id = order_id;
    created_by_staff_id = some staff.id;
    order_closed = is_closed order.status;
  })

-- `getBill`
unfoldable pub get_staff_bill : Staff → ℕ → Tx Bill
get_staff_bill staff bill_id = load_bill staff.tenant_id bill_id >>= refresh_open_bill_totals

pub record TenderDto : Type 0 where
  pub method : TenderMethod
  pub amount_minor : ℤ
  pub risk_acknowledged : Option Bool
  pub reference : Option (List ℕ)
  pub tendered_minor : Option ℤ

pub record FinalizeBill : Type 0 where
  pub discount_minor : Option ℤ
  pub discount_reason : Option (List ℕ)
  pub manager_pin : Option String
  pub tenders : List TenderDto

-- `DISCOUNT_THRESHOLD_PERCENT`
abbrev pub discount_threshold_percent : ℤ
discount_threshold_percent = pos 20

abbrev pub threshold_minor : Bill → ℤ
threshold_minor bill = (bill.subtotal_minor *ℤ discount_threshold_percent) /ℤ pos 100

abbrev pub above_threshold : Bill → Option ℤ → Bool
above_threshold bill none = false
above_threshold bill (some discount) = ltb_ℤ (threshold_minor bill) discount

-- A discount above the threshold takes a manager's PIN and approval.
unfoldable pub approve_discount :
    (Db → Result ManagerApproval) → FinalizeBill → Bill → Tx (Option ManagerApproval)
approve_discount approve dto bill =
    let asked : Tx (Option ManagerApproval) =
      throw_if (not (is_some dto.manager_pin)) (bad_request manager_pin_required)
      >> ((λ db. from_result (approve db) db) >>= λ approval. pure (some approval)) in
    if above_threshold bill dto.discount_minor then asked else pure none

abbrev pub has_open_shift : ℕ → Db → Bool
has_open_shift outlet_id db =
    any (λ s. s.outlet_id == outlet_id && not (is_some s.closed_at)) db.shifts

-- Cash goes into the drawer of an open shift.
unfoldable pub check_shift : FinalizeBill → Bill → Tx (Unit {0})
check_shift dto bill = do
  opened ← gets (has_open_shift bill.outlet_id)
  throw_if (any (λ t. is_cash t.method) dto.tenders && not opened) (conflicting shift_not_open)

-- Handing over less than the cash tender, or handing over at all for another method.
abbrev pub wrong_tendered : TenderDto → Bool
wrong_tendered t = elim t.tendered_minor [
  | none ↦ false
  | some handed ↦ not (is_cash t.method) || ltb_ℤ handed t.amount_minor
]

abbrev pub is_external : TenderMethod → Bool
is_external external = true
is_external _ = false

abbrev pub drop_white : List ℕ → List ℕ
drop_white [] = []
drop_white (c ∷ cs) = if is_white c then drop_white cs else c ∷ cs

abbrev pub reverse : List ℕ → List ℕ
reverse [] = []
reverse (c ∷ cs) = reverse cs ++ c ∷ []

-- `trim`
abbrev pub trim : List ℕ → List ℕ
trim text = reverse (drop_white (reverse (drop_white text)))

abbrev pub reference_of : TenderDto → Option (List ℕ)
reference_of t = elim t.reference [ none ↦ none | some text ↦ some (trim text) ]

abbrev pub tender_params : Staff → ℕ → TenderDto → TenderParams
tender_params staff bill_id t = record {
  tenant_id = staff.tenant_id;
  bill_id = bill_id;
  method = t.method;
  amount_minor = t.amount_minor;
  payment_intent_id = none;
  risk_acknowledged = t.risk_acknowledged;
  reference = if is_external t.method then reference_of t else none;
  tendered_minor = t.tendered_minor;
}

unfoldable pub write_tenders : Staff → ℕ → List TenderDto → Tx (Unit {0})
write_tenders staff bill_id [] = pure tt
write_tenders staff bill_id (t ∷ ts) =
    throw_if (wrong_tendered t) (bad_request validation_failed)
    >> create_tender_record (tender_params staff bill_id t)
    >> write_tenders staff bill_id ts

unfoldable pub note_approval : Env → Staff → Option ManagerApproval → Db → Db
note_approval env staff none db = db
note_approval env staff (some approval) db = record_approval approval staff.id env.now db

-- What `finalize` does with the open bill that it has loaded.
unfoldable pub finalize_loaded :
    Env → (Db → Result ManagerApproval) → Staff → FinalizeBill → Bill → Tx Bill
finalize_loaded env approve staff dto bill = do
  throw_if (is_finalized bill.status) (conflicting already_finalized)
  approval ← approve_discount approve dto bill
  check_shift dto bill
  write_tenders staff bill.id dto.tenders
  final ← commit_finalize env (record {
    tenant_id = staff.tenant_id;
    bill = bill;
    discount_minor = dto.discount_minor;
    discount_reason = dto.discount_reason;
    finalized_by_staff_id = some staff.id;
  })
  modify (note_approval env staff approval)
  pure final

abbrev pub xor : Bool → Bool → Bool
xor true b = not b
xor false b = b

-- `finalize`
unfoldable pub finalize : Env → (Db → Result ManagerApproval) → Staff → ℕ → FinalizeBill → Tx Bill
finalize env approve staff bill_id dto = do
  throw_if (xor (is_some dto.discount_minor) (is_some dto.discount_reason))
      (bad_request validation_failed)
  loaded ← load_bill staff.tenant_id bill_id
  bill ← refresh_open_bill_totals loaded
  finalize_loaded env approve staff dto bill
