-- ===== src/Tax.antt =====
-- The tax engine, src/pos/bills/tax.ts. Amounts are integers of minor units; a configured rate is
-- held in hundredths of a percent, the resolution of its column, so that `Math.round` of a hundred
-- times it is the number itself. A rate in the breakdown is a numerator over a denominator. Text is
-- a list of code points where it is searched.
pub mod Rounding
pub mod Laws
pub mod Profile
mod Tests
use restiq_backend.Base.{
  ℕ, suc, ◌+◌, ◌*◌, ◌/◌, ◌%◌, ◌<◌, ◌≡◌, Bool, true, false, not, ◌&&◌, ◌||◌, Option, none, some,
  List, [], ◌∷◌, map, String, ltb, leb, ◌==◌, if◌then◌else◌, or_else,
}
use restiq_backend.Base.Int.{ℤ, pos, negsuc, neg_ℕ, ◌+ℤ◌, ◌-ℤ◌, ◌*ℤ◌, ◌/ℤ◌}

pub data TaxCountry : Type 0 where
  in_ au : TaxCountry

pub data GstSplitRounding : Type 0 where
  exact_total equal_half_up equal_half_even : GstSplitRounding

pub record ComputeTaxParams : Type 0 where
  pub country : TaxCountry
  pub tax_profile : List ℕ
  pub composition_scheme : Bool
  pub gst_registered : Bool
  pub subtotal_minor : ℤ
  pub gst_rate_percent : Option ℕ
  pub gst_split_rounding : Option GstSplitRounding

pub record TaxBreakdownLine : Type 0 where
  pub label : String
  pub rate_percent : ℕ × ℕ
  pub amount_minor : ℤ

pub record TaxResult : Type 0 where
  pub tax_minor : ℤ
  pub prices_include_tax : Bool
  pub breakdown : List TaxBreakdownLine
  pub notes : List String
  pub gst_split_rounding : Option GstSplitRounding

-- The branch of `roundHalfUp` for a numerator that is not negative.
unfoldable pub half_up : ℕ → ℕ → ℕ
half_up n d = (2 * n + d) / (2 * d)

unfoldable pub round_half_up : ℤ → ℕ → ℤ
round_half_up (pos n) d = pos (half_up n d)
round_half_up (negsuc n) d = neg_ℕ (half_up (suc n) d)

-- The branch of `roundHalfEven` for a numerator that is not negative.
unfoldable pub half_even : ℕ → ℕ → ℕ
half_even n d =
    let quotient = n / d in
    let twice_remainder = 2 * (n % d) in
    if ltb d twice_remainder || (twice_remainder == d && quotient % 2 == 1)
    then quotient + 1
    else quotient

unfoldable pub round_half_even : ℤ → ℕ → ℤ
round_half_even (pos n) d = pos (half_even n d)
round_half_even (negsuc n) d = neg_ℕ (half_even (suc n) d)

-- `toLowerCase`: of the code points that it changes, only A to Z become ASCII letters which can
-- stand beside others in `igst`.
pub lower : ℕ → ℕ
lower c = if leb b'A' c && leb c b'Z' then c + 32 else c

pub starts_with : List ℕ → List ℕ → Bool
starts_with [] s = true
starts_with (p ∷ ps) [] = false
starts_with (p ∷ ps) (c ∷ s) = p == c && starts_with ps s

-- `s.includes(p)`
pub includes : List ℕ → List ℕ → Bool
includes p [] = starts_with p []
includes p (c ∷ s) = starts_with p (c ∷ s) || includes p s

unfoldable pub is_igst_profile : List ℕ → Bool
unfolding lower starts_with includes
is_igst_profile tax_profile = includes (b'i' ∷ b'g' ∷ b's' ∷ b't' ∷ []) (map lower tax_profile)

unfoldable pub rate_basis_points : Option ℕ → ℕ → ℕ
rate_basis_points gst_rate_percent default_percent =
    or_else gst_rate_percent (default_percent * 100)

abbrev pub composition_note : String
composition_note = "Composition taxable person, not eligible to collect tax on supplies"

abbrev pub not_registered_note : String
not_registered_note = "Not registered for GST - this is a receipt, not a tax invoice"

-- `{ taxMinor: 0n, breakdown: [], notes: [note] }`
abbrev pub no_tax : String → TaxResult
no_tax note = record {
  tax_minor = pos 0;
  prices_include_tax = false;
  breakdown = [];
  notes = note ∷ [];
  gst_split_rounding = none;
}

-- The amounts of CGST and SGST under each rounding rule.
unfoldable pub split_amounts : GstSplitRounding → ℤ → ℕ → ℤ × ℤ
split_amounts exact_total subtotal_minor rate_basis =
    let total_minor = round_half_up (subtotal_minor *ℤ pos rate_basis) 10000 in
    let cgst_minor = total_minor /ℤ pos 2 in (cgst_minor, total_minor -ℤ cgst_minor)
split_amounts equal_half_even subtotal_minor rate_basis =
    let cgst_minor = round_half_even (subtotal_minor *ℤ pos rate_basis) 20000 in
    (cgst_minor, cgst_minor)
split_amounts equal_half_up subtotal_minor rate_basis =
    let cgst_minor = round_half_up (subtotal_minor *ℤ pos rate_basis) 20000 in
    (cgst_minor, cgst_minor)

unfoldable pub igst_result : ℤ → ℕ → TaxResult
igst_result subtotal_minor rate_basis =
    let amount = round_half_up (subtotal_minor *ℤ pos rate_basis) 10000 in
    record {
      tax_minor = amount;
      prices_include_tax = false;
      breakdown =
          record { label = "IGST"; rate_percent = (rate_basis, 100); amount_minor = amount } ∷ [];
      notes = [];
      gst_split_rounding = none;
    }

unfoldable pub split_result : GstSplitRounding → ℤ → ℕ → TaxResult
split_result rule subtotal_minor rate_basis =
    let (cgst_minor, sgst_minor) = split_amounts rule subtotal_minor rate_basis in
    record {
      tax_minor = cgst_minor +ℤ sgst_minor;
      prices_include_tax = false;
      breakdown =
          record { label = "CGST"; rate_percent = (rate_basis, 200); amount_minor = cgst_minor }
          ∷ record { label = "SGST"; rate_percent = (rate_basis, 200); amount_minor = sgst_minor }
          ∷ [];
      notes = [];
      gst_split_rounding = some rule;
    }

unfoldable pub inclusive_result : ℤ → ℕ → TaxResult
inclusive_result subtotal_minor rate_basis =
    let amount =
      subtotal_minor -ℤ round_half_up (subtotal_minor *ℤ pos 10000) (10000 + rate_basis) in
    record {
      tax_minor = amount;
      prices_include_tax = true;
      breakdown =
          record { label = "GST"; rate_percent = (rate_basis, 100); amount_minor = amount } ∷ [];
      notes = [];
      gst_split_rounding = none;
    }

-- The branch of `computeTax` for India.
unfoldable pub compute_tax_in : ComputeTaxParams → TaxResult
compute_tax_in params =
    let rate_basis = rate_basis_points params.gst_rate_percent 5 in
    if params.composition_scheme
    then no_tax composition_note
    else if is_igst_profile params.tax_profile
    then igst_result params.subtotal_minor rate_basis
    else split_result (or_else params.gst_split_rounding exact_total) params.subtotal_minor
        rate_basis

-- The branch for Australia.
unfoldable pub compute_tax_au : ComputeTaxParams → TaxResult
compute_tax_au params =
    if not params.gst_registered
    then no_tax not_registered_note
    else inclusive_result params.subtotal_minor (rate_basis_points params.gst_rate_percent 10)

unfoldable pub compute_tax : ComputeTaxParams → TaxResult
unfolding compute_tax_in compute_tax_au
compute_tax params = elim params.country [
  | in_ ↦ compute_tax_in params
  | au ↦ compute_tax_au params
]
