-- ===== src/Tax/Laws.antt =====
-- What `computeTax` of pos/bills/tax.ts promises, for every tenant configuration.
use restiq_backend.Base.{
  ℕ, zero, suc, ◌+◌, ◌*◌, ◌/◌, ◌≤◌, ◌≡◌, refl, sym, true, false, or_else, inl, inr, Bool-cases,
  List, map, arith,
}
use restiq_backend.Base.Int.{
  ℤ, pos, negsuc, neg, neg-neg, neg-*, neg-eq-sub, ◌+ℤ◌, ◌-ℤ◌, ◌*ℤ◌, ◌/ℤ◌, ◌≤ℤ◌, sum_ℤ, int_laws,
}
use restiq_backend.Tax.{
  ComputeTaxParams, TaxResult, TaxBreakdownLine, GstSplitRounding, exact_total, equal_half_up,
  equal_half_even, in_, au, compute_tax, split_result, split_amounts, igst_result, inclusive_result,
  round_half_up, round_half_even, half_up, half_even, is_igst_profile, rate_basis_points,
}
use restiq_backend.Tax.Rounding.{
  IsNearest, round_half_up-IsNearest, round_half_up-neg, round_half_even-neg,
}

abbrev pub amounts : TaxResult → List ℤ
amounts r = map (λ (l : TaxBreakdownLine). l.amount_minor) r.breakdown

-- On every branch the lines of the breakdown add up to the tax that is charged.
pub compute_tax_breakdown :
    (p : ComputeTaxParams) → sum_ℤ (amounts (compute_tax p)) ≡ (compute_tax p).tax_minor
unfolding compute_tax split_result igst_result inclusive_result
compute_tax_breakdown p = grind int_laws

div_two-neg : (a : ℤ) → neg a /ℤ pos 2 ≡ neg (a /ℤ pos 2)
unfolding ◌/ℤ◌
div_two-neg (pos zero) = refl
div_two-neg (pos (suc n)) = refl
div_two-neg (negsuc n) = sym (neg-neg (pos (suc n / 2)))

neg-+ : (a b : ℤ) → neg a +ℤ neg b ≡ neg (a +ℤ b)
neg-+ a b = rw (neg-eq-sub a, neg-eq-sub b, neg-eq-sub (a +ℤ b)) (omega int_laws)

neg-sub : (a b : ℤ) → neg a -ℤ neg b ≡ neg (a -ℤ b)
neg-sub a b = rw (neg-eq-sub a, neg-eq-sub b, neg-eq-sub (a -ℤ b)) (omega int_laws)

halves-neg :
    (t : ℤ) → neg t /ℤ pos 2 +ℤ (neg t -ℤ neg t /ℤ pos 2) ≡ neg (t /ℤ pos 2 +ℤ (t -ℤ t /ℤ pos 2))
halves-neg t = rw (div_two-neg t, neg-sub t (t /ℤ pos 2)) (neg-+ _ _)

split_result-neg :
    (r : GstSplitRounding) (s : ℤ) (b : ℕ)
    → (split_result r (neg s) b).tax_minor ≡ neg (split_result r s b).tax_minor
unfolding split_result split_amounts
split_result-neg exact_total s b =
    rw (neg-* s b, round_half_up-neg (s *ℤ pos b) 10000 (omega arith)) (halves-neg _)
split_result-neg equal_half_up s b =
    rw (neg-* s b, round_half_up-neg (s *ℤ pos b) 20000 (omega arith)) (neg-+ _ _)
split_result-neg equal_half_even s b =
    rw (neg-* s b, round_half_even-neg (s *ℤ pos b) 20000 (omega arith)) (neg-+ _ _)

igst_result-neg :
    (s : ℤ) (b : ℕ) → (igst_result (neg s) b).tax_minor ≡ neg (igst_result s b).tax_minor
unfolding igst_result
igst_result-neg s b = rw (neg-* s b) (round_half_up-neg (s *ℤ pos b) 10000 (omega arith))

inclusive_result-neg :
    (s : ℤ) (b : ℕ) → (inclusive_result (neg s) b).tax_minor ≡ neg (inclusive_result s b).tax_minor
unfolding inclusive_result
inclusive_result-neg s b =
    rw (neg-* s 10000, round_half_up-neg (s *ℤ pos 10000) (10000 + b) (omega arith)) (neg-sub _ _)

-- The tax on the negated subtotal is the negated tax, under every rule and in both countries.
pub compute_tax-neg :
    (p : ComputeTaxParams)
    → (compute_tax (record p { subtotal_minor = neg p.subtotal_minor })).tax_minor
      ≡ neg (compute_tax p).tax_minor
unfolding compute_tax
compute_tax-neg p =
    let rule = or_else p.gst_split_rounding exact_total in
    let rate = rate_basis_points p.gst_rate_percent 5 in
    ground (
      arith,
      split_result-neg rule p.subtotal_minor rate,
      igst_result-neg p.subtotal_minor rate,
      inclusive_result-neg p.subtotal_minor (rate_basis_points p.gst_rate_percent 10),
    )

-- Under `exact_total` CGST and SGST together are the rounded total, the very tax that IGST would be.
split_exact-igst :
    (s : ℤ) (b : ℕ) → (split_result exact_total s b).tax_minor ≡ (igst_result s b).tax_minor
unfolding split_result split_amounts igst_result
split_exact-igst s b = omega int_laws

igst_result-IsNearest : (s : ℤ) (b : ℕ) → IsNearest (s *ℤ pos b) 10000 (igst_result s b).tax_minor
unfolding igst_result
igst_result-IsNearest s b = round_half_up-IsNearest (s *ℤ pos b) 10000 (omega arith)

-- An Indian tenant that is not under the composition scheme, and whose rule is `exact_total` or not
-- set, is charged a nearest integer to subtotal * rate / 10000, whatever its tax profile is.
pub compute_tax-exact-IsNearest :
    (p : ComputeTaxParams)
    → p.country ≡ in_
    → p.composition_scheme ≡ false
    → or_else p.gst_split_rounding exact_total ≡ exact_total
    → IsNearest
        (p.subtotal_minor *ℤ pos (rate_basis_points p.gst_rate_percent 5))
        10000
        (compute_tax p).tax_minor
unfolding compute_tax
compute_tax-exact-IsNearest p india levied rule =
    rw (india, compute_tax, levied, rule)
      (elim (Bool-cases (is_igst_profile p.tax_profile)) [
        | inl igst ↦ rw igst (igst_result-IsNearest p.subtotal_minor _)
        | inr split ↦
            rw (split, split_exact-igst p.subtotal_minor _)
              (igst_result-IsNearest p.subtotal_minor _)
      ])

-- SGST takes the odd unit of an `exact_total` split: on a subtotal that is not negative it is CGST
-- or one more.
pub exact_total_halves :
    (s b : ℕ)
    → let (cgst, sgst) = split_amounts exact_total (pos s) b in
      (cgst ≤ℤ sgst) × (sgst ≤ℤ cgst +ℤ pos 1)
unfolding split_amounts round_half_up ◌*ℤ◌ ◌/ℤ◌
exact_total_halves s b = omega (int_laws)

-- On a subtotal that is not negative the two equal-half rules charge within one minor unit of
-- `exact_total`.
pub equal_halves_within_one :
    (r : GstSplitRounding) (s b : ℕ)
    → let exact = (split_result exact_total (pos s) b).tax_minor in
      let tax = (split_result r (pos s) b).tax_minor in
      (tax ≤ℤ exact +ℤ pos 1) × (exact ≤ℤ tax +ℤ pos 1)
unfolding split_result split_amounts round_half_up round_half_even half_up half_even ◌*ℤ◌ ◌/ℤ◌
equal_halves_within_one exact_total s b = omega int_laws
equal_halves_within_one equal_half_up s b = omega int_laws
equal_halves_within_one equal_half_even s b = grind int_laws

inclusive_half_up : (s b : ℕ) → half_up (s * 10000) (10000 + b) ≤ s
unfolding half_up
inclusive_half_up s b = grind arith

inclusive_bounds :
    (s b : ℕ) → let tax = (inclusive_result (pos s) b).tax_minor in (pos 0 ≤ℤ tax) × (tax ≤ℤ pos s)
unfolding inclusive_result round_half_up ◌*ℤ◌
inclusive_bounds s b = omega (int_laws, inclusive_half_up s b)

sub_sub : (a b : ℤ) → a -ℤ (a -ℤ b) ≡ b
sub_sub a b = omega int_laws

inclusive-IsNearest :
    (s : ℤ) (b : ℕ) → IsNearest (s *ℤ pos 10000) (10000 + b) (s -ℤ (inclusive_result s b).tax_minor)
unfolding inclusive_result
inclusive-IsNearest s b =
    rw (sub_sub s (round_half_up (s *ℤ pos 10000) (10000 + b)))
      (round_half_up-IsNearest (s *ℤ pos 10000) (10000 + b) (omega arith))

-- For a registered Australian tenant the tax is part of the price: on a subtotal that is not
-- negative it lies between zero and the subtotal, and what is left, scaled up by the rate, is the
-- subtotal to the nearest unit.
pub compute_tax-inclusive :
    (p : ComputeTaxParams) (s : ℕ)
    → p.country ≡ au
    → p.gst_registered ≡ true
    → p.subtotal_minor ≡ pos s
    → let tax = (compute_tax p).tax_minor in
      let rate = rate_basis_points p.gst_rate_percent 10 in
      (pos 0 ≤ℤ tax) × (tax ≤ℤ pos s) × IsNearest (pos s *ℤ pos 10000) (10000 + rate) (pos s -ℤ tax)
unfolding compute_tax
compute_tax-inclusive p s australia registered subtotal =
    let rate = rate_basis_points p.gst_rate_percent 10 in
    let (lower, upper) = inclusive_bounds s rate in
    rw (australia, compute_tax, registered, subtotal)
      (lower, upper, inclusive-IsNearest (pos s) rate)
