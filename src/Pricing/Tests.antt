-- ===== src/Pricing/Tests.antt =====
-- Price resolution at concrete rows, after admin/menu/pricing.spec.ts.
use restiq_backend.Base.{◌≡◌, refl, true, none, some, List, [], ◌∷◌, All, In}
use restiq_backend.Base.Int.{pos}
use restiq_backend.Pricing.{
  PriceCandidate, PriceTarget, dine_in, eligible, pick_current_price, consider_all,
}
use restiq_backend.Pricing.Choice.{NotBefore, pick_current_price_best}

abbrev everywhere : PriceCandidate
everywhere = record {
  id = 1;
  outlet_id = none;
  channel = none;
  price_minor = pos 500;
  currency = "INR";
  effective_at = 30;
  created_at = 30;
}

abbrev at_outlet : PriceCandidate
at_outlet = record everywhere {
  id = 2;
  outlet_id = some 7;
  price_minor = pos 450;
  effective_at = 10;
}

abbrev future : PriceCandidate
future = record at_outlet { id = 3; effective_at = 90 }

abbrev rows : List PriceCandidate
rows = everywhere ∷ at_outlet ∷ future ∷ []

abbrev target : PriceTarget
target = record { channel = dine_in; outlet_id = some 7 }

picked : pick_current_price rows target 50 ≡ some at_outlet
unfolding pick_current_price consider_all
picked = refl

pick_current_price_best_example :
    (eligible target 50 at_outlet ≡ true)
    × In at_outlet rows
    × All (λ r. eligible target 50 r ≡ true → NotBefore r at_outlet) rows
pick_current_price_best_example = pick_current_price_best rows target 50 at_outlet picked

none_picked : pick_current_price rows target 5 ≡ none
unfolding pick_current_price consider_all
none_picked = refl
