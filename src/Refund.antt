-- ===== src/Refund.antt =====
-- A refund, `refund` of pos/bills/bills.service.ts: a credit note against a finalised bill, whose
-- amounts are allocated over all the bill's notes. The manager's approval, which runs outside the
-- transaction, is the argument `approve` (see Manager).
pub mod Amounts
mod Tests
use restiq_backend.Base.{
  ℕ, suc, ◌+◌, ◌-◌, ◌*◌, ◌/◌, ◌%◌, Bool, true, false, not, ◌&&◌, ◌||◌, Option, none, some, List, [],
  ◌∷◌, ◌++◌, map, String, ltb, ◌==◌, if◌then◌else◌, is_some, find, select,
}
use restiq_backend.Base.Int.{ℤ, pos, ◌+ℤ◌, ◌-ℤ◌, ◌*ℤ◌, ◌/ℤ◌, ltb_ℤ, eqb_ℤ, sum_ℤ}
use restiq_backend.Store.Rows.{
  Db, Bill, is_finalized, OrderLine, Tender, TenderMethod, CreditNote, CreditNoteLine,
}
use restiq_backend.Store.Transaction.{
  Tx, Result, Error, ok, err, pure, throw, gets, ◌>>=◌, ◌>>◌, throw_if, modify, failure,
  conflicting, bad_request, forbidden_request, forbidden, validation_failed, bill_not_finalized,
  nothing_to_refund, combo_refund_whole, over_refund,
}
use restiq_backend.Base.{or_else}
use restiq_backend.Bills.{billed_lines, load_bill, refresh_open_bill_totals}
use restiq_backend.Settle.{Env, tenders_of}
use restiq_backend.Intents.{Staff}
use restiq_backend.Permissions.{role_has_permission, refunds}
use restiq_backend.Manager.{ManagerApproval, record_approval}

-- A line to refund. The quantity of a combo's item is a quotient of whole numbers.
pub record Target : Type 0 where
  pub order_line_id : ℕ
  pub parts : ℕ
  pub per : ℕ

pub record NamedLine : Type 0 where
  pub order_line_id : ℕ
  pub quantity : ℕ

pub record RefundBill : Type 0 where
  pub manager_pin : Option String
  pub reason : List ℕ
  pub lines : Option (List NamedLine)
  pub method : Option TenderMethod

abbrev pub notes_of : Db → ℕ → List CreditNote
notes_of db bill_id = select (λ n. n.original_bill_id == bill_id) db.credit_notes

-- The lines of all the credit notes.
unfoldable pub note_lines : List CreditNote → List CreditNoteLine
note_lines [] = []
note_lines (n ∷ ns) = n.lines ++ note_lines ns

-- `refundedSoFar`
unfoldable pub refunded_so_far : List CreditNoteLine → ℕ → ℕ
refunded_so_far [] order_line_id = 0
refunded_so_far (l ∷ ls) order_line_id =
    let rest = refunded_so_far ls order_line_id in
    if l.order_line_id == order_line_id then l.quantity + rest else rest

-- Gross, before the discount: the lines' unit prices by their quantities.
abbrev pub gross_of : CreditNoteLine → ℤ
gross_of l = l.unit_price_minor *ℤ pos l.quantity

unfoldable pub gross_total : List CreditNoteLine → ℤ
gross_total ls = sum_ℤ (map gross_of ls)

abbrev pub unit_price : OrderLine → ℤ
unit_price line = line.unit_price_minor +ℤ sum_ℤ line.modifier_prices

-- What is left of every line.
unfoldable pub remaining_targets : List CreditNoteLine → List OrderLine → List Target
remaining_targets prior [] = []
remaining_targets prior (line ∷ lines) =
    let rest = remaining_targets prior lines in
    let left = line.quantity - refunded_so_far prior line.id in
    if ltb 0 left then record { order_line_id = line.id; parts = left; per = 1 } ∷ rest else rest

abbrev pub line_by_id : List OrderLine → ℕ → Option OrderLine
line_by_id lines id = find (λ l. l.id == id) lines

abbrev pub child_target : NamedLine → OrderLine → OrderLine → Target
child_target named line child = record {
  order_line_id = child.id;
  parts = named.quantity * child.quantity;
  per = line.quantity;
}

abbrev pub is_child_of : ℕ → OrderLine → Bool
is_child_of id l = elim l.parent_line_id [ none ↦ false | some p ↦ p == id ]

-- The items that a named combo brings along, or the refusal of a single item in one.
unfoldable pub combo_targets : List OrderLine → NamedLine → Result (List Target)
combo_targets lines named = elim (line_by_id lines named.order_line_id) [
  | none ↦ ok []
  | some line ↦
      if is_some line.parent_line_id
      then err (bad_request combo_refund_whole)
      else if is_some line.combo_id
      then ok (map (child_target named line) (select (is_child_of line.id) lines))
      else ok []
]

abbrev pub append_to : List Target → Result (List Target) → Result (List Target)
append_to found (ok more) = ok (found ++ more)
append_to found (err e) = err e

abbrev pub after_combos : Result (List Target) → Result (List Target) → Result (List Target)
after_combos (err e) rest = err e
after_combos (ok found) rest = append_to found rest

unfoldable pub all_combo_targets : List OrderLine → List NamedLine → Result (List Target)
unfolding combo_targets
all_combo_targets lines [] = ok []
all_combo_targets lines (n ∷ ns) = after_combos (combo_targets lines n) (all_combo_targets lines ns)

abbrev pub named_target : NamedLine → Target
named_target n = record { order_line_id = n.order_line_id; parts = n.quantity; per = 1 }

-- `targets`: the named lines, with their combos' items after them, or all that is left.
unfoldable pub targets_of :
    List CreditNoteLine → List OrderLine → Option (List NamedLine) → Result (List Target)
unfolding remaining_targets all_combo_targets
targets_of prior lines none = elim (remaining_targets prior lines) [
  | [] ↦ err (bad_request nothing_to_refund)
  | t ∷ ts ↦ ok (t ∷ ts)
]
targets_of prior lines (some []) = err (bad_request nothing_to_refund)
targets_of prior lines (some (n ∷ ns)) =
    append_to (map named_target (n ∷ ns)) (all_combo_targets lines (n ∷ ns))

-- `BigInt` takes a whole number only.
abbrev pub is_whole : ℕ → ℕ → Bool
is_whole parts per = not (per == 0) && parts % per == 0

-- The line of the note for one target, counted on top of what is refunded so far.
unfoldable pub price_target : List CreditNoteLine → List OrderLine → Target → Result CreditNoteLine
price_target so_far lines target = elim (line_by_id lines target.order_line_id) [
  | none ↦ err (bad_request validation_failed)
  | some line ↦
      if ltb (line.quantity * target.per)
        (target.parts + refunded_so_far so_far target.order_line_id * target.per)
      then err (bad_request over_refund)
      else if not (is_whole target.parts target.per)
      then err failure
      else ok (record {
        order_line_id = target.order_line_id;
        quantity = target.parts / target.per;
        unit_price_minor = unit_price line;
        amount_minor = unit_price line *ℤ pos (target.parts / target.per);
      })
]

-- `lineData`, the targets in turn.
unfoldable pub price_targets :
    List CreditNoteLine
    → List CreditNoteLine
    → List OrderLine
    → List Target
    → Result (List CreditNoteLine)
unfolding price_target
price_targets prior done lines [] = ok done
price_targets prior done lines (t ∷ ts) = elim (price_target (prior ++ done) lines t) [
  | err e ↦ err e
  | ok l ↦ price_targets prior (done ++ l ∷ []) lines ts
]

-- `prorate`
unfoldable pub prorate : ℤ → ℤ → ℤ → ℤ
prorate bill_subtotal cum_gross of_minor =
    if eqb_ℤ bill_subtotal (pos 0) then pos 0 else (cum_gross *ℤ of_minor) /ℤ bill_subtotal

abbrev pub max_zero : ℤ → ℤ
max_zero n = if ltb_ℤ (pos 0) n then n else pos 0

-- A share of an amount, refunded up to a cumulative gross, less what earlier notes have taken.
unfoldable pub allot : ℤ → ℤ → ℤ → ℤ → ℤ
unfolding prorate
allot bill_subtotal cum_gross of_minor taken =
    max_zero (prorate bill_subtotal cum_gross of_minor -ℤ taken)

abbrev pub bill_net : Bill → ℤ
bill_net bill = bill.subtotal_minor -ℤ or_else bill.discount_minor (pos 0)

abbrev pub line_share : ℤ → ℤ → ℤ → ℤ
line_share subtotal gross amount =
    if eqb_ℤ gross (pos 0) then pos 0 else (subtotal *ℤ amount) /ℤ gross

-- Every line's share of the note's subtotal, the last line taking the remainder.
unfoldable pub share_out : ℤ → ℤ → ℤ → List CreditNoteLine → List CreditNoteLine
share_out subtotal gross allocated [] = []
share_out subtotal gross allocated (l ∷ []) = record l { amount_minor = subtotal -ℤ allocated } ∷ []
share_out subtotal gross allocated (l ∷ m ∷ ls) =
    let share = line_share subtotal gross l.amount_minor in
    record l { amount_minor = share } ∷ share_out subtotal gross (allocated +ℤ share) (m ∷ ls)

-- The largest tender, the earliest on a tie.
unfoldable pub main_tender : Option Tender → List Tender → Option Tender
main_tender best [] = best
main_tender none (t ∷ ts) = main_tender (some t) ts
main_tender (some b) (t ∷ ts) =
    main_tender (some (if ltb_ℤ b.amount_minor t.amount_minor then t else b)) ts

abbrev pub method_of : Option TenderMethod → Option Tender → Option TenderMethod
method_of (some m) _ = some m
method_of none none = none
method_of none (some t) = some t.method

abbrev pub subtotals : List CreditNote → ℤ
subtotals ns = sum_ℤ (map (λ (n : CreditNote). n.subtotal_minor) ns)

abbrev pub taxes : List CreditNote → ℤ
taxes ns = sum_ℤ (map (λ (n : CreditNote). n.tax_minor) ns)

-- The note, from the bill, its earlier notes and the priced lines.
unfoldable pub build_note :
    Staff
    → RefundBill
    → Bill
    → List CreditNote
    → List Tender
    → List CreditNoteLine
    → ManagerApproval
    → ℕ
    → ℕ
    → CreditNote
unfolding allot share_out main_tender gross_total note_lines
build_note staff dto bill notes tenders lines approval id now =
    let gross = gross_total lines in
    let cum_gross = gross_total (note_lines notes) +ℤ gross in
    let subtotal = allot bill.subtotal_minor cum_gross (bill_net bill) (subtotals notes) in
    record {
      id = id;
      tenant_id = staff.tenant_id;
      original_bill_id = bill.id;
      reason = dto.reason;
      approved_by_staff_id = approval.approver_id;
      created_by_staff_id = staff.id;
      subtotal_minor = subtotal;
      tax_minor = allot bill.subtotal_minor cum_gross bill.tax_minor (taxes notes);
      method = method_of dto.method (main_tender none tenders);
      lines = share_out subtotal gross (pos 0) lines;
      created_at = now;
    }

-- A computed value, or its refusal.
abbrev pub from_result : {A : Type 0} → Result A → Tx A
from_result (ok a) db = ok (a, db)
from_result (err e) db = err e

unfoldable pub insert_note : CreditNote → Db → Db
insert_note note db = record db {
  credit_notes = db.credit_notes ++ note ∷ [];
  next_id = suc db.next_id;
}

-- The refund of a bill that has been loaded.
unfoldable pub refund_loaded :
    Env → (Db → Result ManagerApproval) → Staff → RefundBill → Bill → Tx CreditNote
unfolding targets_of price_targets build_note
refund_loaded env approve staff dto bill = do
  throw_if (not (is_finalized bill.status)) (conflicting bill_not_finalized)
  lines ← gets (λ db. billed_lines db bill.order_id)
  notes ← gets (λ db. notes_of db bill.id)
  targets ← from_result (targets_of (note_lines notes) lines dto.lines)
  priced ← from_result (price_targets (note_lines notes) [] lines targets)
  tenders ← gets (λ db. tenders_of db bill.id)
  approval ← (λ db. from_result (approve db) db)
  id ← gets (λ db. db.next_id)
  let note = build_note staff dto bill notes tenders priced approval id env.now
  modify (insert_note note)
  modify (record_approval approval staff.id env.now)
  pure note

abbrev pub no_pin_error : Staff → Error
no_pin_error staff =
    if role_has_permission staff.role refunds
    then bad_request validation_failed
    else forbidden_request forbidden

-- `refund`: the credit note that it creates.
unfoldable pub refund_bill :
    Env → (Db → Result ManagerApproval) → Staff → ℕ → RefundBill → Tx CreditNote
refund_bill env approve staff bill_id dto = do
  throw_if (not (is_some dto.manager_pin)) (no_pin_error staff)
  loaded ← load_bill staff.tenant_id bill_id
  bill ← refresh_open_bill_totals loaded
  refund_loaded env approve staff dto bill
