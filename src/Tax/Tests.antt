-- ===== src/Tax/Tests.antt =====
-- The tax engine at concrete inputs, after pos/bills/tax.spec.ts.
use restiq_backend.Base.{ℕ, ◌+◌, ◌≡◌, refl, ◌↔◌, true, false, none, List, [], ◌∷◌, ◌++◌, map}
use restiq_backend.Base.Int.{pos, neg, ◌+ℤ◌, ◌-ℤ◌, ◌*ℤ◌, ◌/ℤ◌, ◌≤ℤ◌}
use restiq_backend.Tax.{
  ComputeTaxParams, in_, au, compute_tax, split_amounts, split_result, lower, round_half_up,
  half_up, is_igst_profile, rate_basis_points,
}
use restiq_backend.Tax.Rounding.{IsNearest}
use restiq_backend.Tax.Laws.{
  amounts, compute_tax-neg, compute_tax-exact-IsNearest, compute_tax-inclusive,
}
use restiq_backend.Tax.Profile.{igst, is_igst_profile_iff}

-- 289.00 at 5%: 7.22 and 7.23.
abbrev cafe : ComputeTaxParams
cafe = record {
  country = in_;
  tax_profile = b'G' ∷ b'S' ∷ b'T' ∷ [];
  composition_scheme = false;
  gst_registered = true;
  subtotal_minor = pos 28900;
  gst_rate_percent = none;
  gst_split_rounding = none;
}

abbrev sydney : ComputeTaxParams
sydney = record cafe { country = au; subtotal_minor = pos 1100 }

cafe_split : amounts (compute_tax cafe) ≡ pos 722 ∷ pos 723 ∷ []
unfolding compute_tax split_result split_amounts is_igst_profile rate_basis_points round_half_up
    half_up ◌*ℤ◌ ◌+ℤ◌ ◌-ℤ◌ ◌/ℤ◌
cafe_split = refl

compute_tax-neg_example :
    (compute_tax (record cafe { subtotal_minor = neg (pos 28900) })).tax_minor
    ≡ neg (compute_tax cafe).tax_minor
compute_tax-neg_example = compute_tax-neg cafe

compute_tax-exact-IsNearest_example :
    IsNearest (pos 28900 *ℤ pos (rate_basis_points none 5)) 10000 (compute_tax cafe).tax_minor
compute_tax-exact-IsNearest_example = compute_tax-exact-IsNearest cafe refl refl refl

compute_tax-inclusive_example :
    let tax = (compute_tax sydney).tax_minor in
    let rate = rate_basis_points none 10 in
    (pos 0 ≤ℤ tax)
    × (tax ≤ℤ pos 1100)
    × IsNearest (pos 1100 *ℤ pos 10000) (10000 + rate) (pos 1100 -ℤ tax)
compute_tax-inclusive_example = compute_tax-inclusive sydney 1100 refl refl refl

is_igst_profile_iff_example :
    (is_igst_profile igst ≡ true)
    ↔ ((before : List ℕ) × (after : List ℕ) × (map lower igst ≡ before ++ (igst ++ after)))
is_igst_profile_iff_example = is_igst_profile_iff igst
