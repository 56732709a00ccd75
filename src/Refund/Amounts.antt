-- ===== src/Refund/Amounts.antt =====
-- The amounts of a credit note (`refund` of pos/bills/bills.service.ts).
use restiq_backend.Base.{
  ℕ, ◌*◌, ◌/◌, ◌≤◌, ◌<◌, ◌≡◌, sym, ◌∙◌, ap, subst, Bool, List, [], ◌∷◌, map, ltb, if◌then◌else◌,
  Bool-cases, inl, inr, arith,
}
use native.Mathlib.Nat.{
  le_of_mul-le-mul_right, mul-le-mul_right, div-mul-le_self, mul-div_cancel_left,
}
use restiq_backend.Base.Int.{ℤ, pos, ◌+ℤ◌, ◌-ℤ◌, ◌*ℤ◌, ◌/ℤ◌, ◌≤ℤ◌, ltb_ℤ, sum_ℤ, int_laws, -ℤ_parts}
use restiq_backend.Store.Rows.{CreditNoteLine}
use restiq_backend.Refund.{max_zero, share_out, line_share, prorate, allot}

abbrev pub line_amounts : List CreditNoteLine → List ℤ
line_amounts ls = map (λ (l : CreditNoteLine). l.amount_minor) ls

-- The lines of a credit note add up to exactly what of its subtotal was not yet allocated, whatever the gross and the lines' own prices are.
pub share_out-total :
    (subtotal gross allocated : ℤ) (l : CreditNoteLine) (ls : List CreditNoteLine)
    → sum_ℤ (line_amounts (share_out subtotal gross allocated (l ∷ ls))) ≡ subtotal -ℤ allocated
unfolding share_out
share_out-total subtotal gross allocated l [] = omega int_laws
share_out-total subtotal gross allocated l (m ∷ ls) =
    let share = line_share subtotal gross l.amount_minor in
    ap (λ (z : ℤ). share +ℤ z) (share_out-total subtotal gross (allocated +ℤ share) m ls)
    ∙ omega int_laws

prorate_bound :
    (whole cum of_minor : ℕ) → 0 < whole → cum ≤ whole → cum * of_minor / whole ≤ of_minor
prorate_bound whole cum of_minor some_whole part =
    let below : cum * of_minor / whole * whole ≤ cum * of_minor =
      div-mul-le_self (cum * of_minor) whole in
    let above : cum * of_minor ≤ whole * of_minor = mul-le-mul_right of_minor part in
    le_of_mul-le-mul_right {k = whole} (omega arith) some_whole

prorate-pos :
    (whole cum of_minor : ℕ)
    → 0 < whole
    → prorate (pos whole) (pos cum) (pos of_minor) ≡ pos (cum * of_minor / whole)
unfolding prorate ◌*ℤ◌ ◌/ℤ◌
prorate-pos whole cum of_minor some_whole = ground arith

topped_up :
    (q taken : ℕ)
    → (taken ≤ q → pos taken +ℤ max_zero (pos q -ℤ pos taken) ≡ pos q)
      × (q ≤ taken → pos taken +ℤ max_zero (pos q -ℤ pos taken) ≡ pos taken)
topped_up q taken =
    let d = pos q -ℤ pos taken in
    let parts = -ℤ_parts (pos q) (pos taken) in
    elim (Bool-cases (ltb_ℤ (pos 0) d)) [
      | inl more ↦
          let chosen = ap (λ (c : Bool). pos taken +ℤ (if c then d else pos 0)) more in
          ((λ below. chosen ∙ omega int_laws), (λ above. absurd (ground (arith, parts))))
      | inr no_more ↦
          let chosen = ap (λ (c : Bool). pos taken +ℤ (if c then d else pos 0)) no_more in
          let least : q ≤ taken = ground (arith, parts) in
          ((λ below. chosen ∙ omega int_laws), (λ above. chosen ∙ omega int_laws))
    ]

-- A refund of a part `cum` of the bill's gross never brings what all its credit notes have taken of an amount above that amount.
pub allot_within :
    (whole cum of_minor taken : ℕ)
    → 0 < whole
    → cum ≤ whole
    → taken ≤ of_minor
    → pos taken +ℤ allot (pos whole) (pos cum) (pos of_minor) (pos taken) ≤ℤ pos of_minor
unfolding allot
allot_within whole cum of_minor taken some_whole part within =
    let bound = prorate_bound whole cum of_minor some_whole part in
    let q = cum * of_minor / whole in
    let top =
      ap (λ (z : ℤ). pos taken +ℤ max_zero (z -ℤ pos taken))
        (prorate-pos whole cum of_minor some_whole) in
    let (up, stay) = topped_up q taken in
    elim (Bool-cases (ltb q taken)) [
      | inr below ↦
          subst (λ (z : ℤ). z ≤ℤ pos of_minor) (sym (top ∙ up (ground arith))) (omega arith)
      | inl above ↦
          subst (λ (z : ℤ). z ≤ℤ pos of_minor) (sym (top ∙ stay (ground arith))) (omega arith)
    ]

-- The refund that completes the bill's whole gross brings what its credit notes have taken of an amount to exactly that amount, when they had not taken more.
pub allot_whole :
    (whole of_minor taken : ℕ)
    → 0 < whole
    → taken ≤ of_minor
    → pos taken +ℤ allot (pos whole) (pos whole) (pos of_minor) (pos taken) ≡ pos of_minor
unfolding allot
allot_whole whole of_minor taken some_whole within =
    let exact : whole * of_minor / whole ≡ of_minor = mul-div_cancel_left of_minor some_whole in
    let (up, _) = topped_up (whole * of_minor / whole) taken in
    ap (λ (z : ℤ). pos taken +ℤ max_zero (z -ℤ pos taken))
      (prorate-pos whole whole of_minor some_whole)
    ∙ up (omega arith)
    ∙ ap (λ (n : ℕ). pos n) exact
