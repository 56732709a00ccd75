-- ===== src/Tax/Profile.antt =====
-- How a tax profile is recognised as inter-state (IGST) in pos/bills/tax.ts.
use restiq_backend.Base.{
  ℕ, ◌-◌, ◌≡◌, refl, ◌↔◌, ap, true, ◌&&◌, inl, inr, List, [], ◌∷◌, ◌++◌, map, arith, leb, ==_iff,
  if◌then◌else◌, Bool-cases,
}
use restiq_backend.Tax.{lower, starts_with, includes, is_igst_profile}

starts_with-append : (p s : List ℕ) → starts_with p (p ++ s) ≡ true
unfolding starts_with
starts_with-append [] s = refl
starts_with-append (c ∷ p) s = ground (arith, starts_with-append p s)

starts_with_rest : (p s : List ℕ) → starts_with p s ≡ true → (rest : List ℕ) × (s ≡ p ++ rest)
unfolding starts_with
starts_with_rest [] s h = (s, refl)
starts_with_rest (c ∷ p) [] h = cc
starts_with_rest (c ∷ p) (d ∷ s) h =
    let (rest, e) = starts_with_rest p s (ground arith) in (rest, ground (arith, ==_iff c d))

includes-append : (before p after : List ℕ) → includes p (before ++ (p ++ after)) ≡ true
unfolding includes
includes-append [] [] [] = ground (arith, starts_with-append [] [])
includes-append [] [] (c ∷ after) = ground (arith, starts_with-append [] (c ∷ after))
includes-append [] (c ∷ p) after = ground (arith, starts_with-append (c ∷ p) after)
includes-append (c ∷ before) p after = ground (arith, includes-append before p after)

includes_parts :
    (p s : List ℕ)
    → includes p s ≡ true
    → (before : List ℕ) × (after : List ℕ) × (s ≡ before ++ (p ++ after))
unfolding includes
includes_parts p [] h = let (rest, e) = starts_with_rest p [] h in ([], rest, e)
includes_parts p (c ∷ s) h = elim (Bool-cases (starts_with p (c ∷ s))) [
  | inl here ↦ let (rest, e) = starts_with_rest p (c ∷ s) here in ([], rest, e)
  | inr not_here ↦
      let (before, after, e) = includes_parts p s (rw not_here at h) in
      (c ∷ before, after, ap (◌∷◌ c) e)
]

abbrev pub igst : List ℕ
igst = b'i' ∷ b'g' ∷ b's' ∷ b't' ∷ []

-- A profile is inter-state exactly when its lower-case form is some text, `igst`, and some text.
pub is_igst_profile_iff :
    (s : List ℕ)
    → (is_igst_profile s ≡ true)
      ↔ ((before : List ℕ) × (after : List ℕ) × (map lower s ≡ before ++ (igst ++ after)))
unfolding is_igst_profile
is_igst_profile_iff s = (
  includes_parts igst (map lower s),
  λ (before, after, e). rw e (includes-append before igst after),
)

pub upper : ℕ → ℕ
upper c = if leb b'a' c && leb c b'z' then c - 32 else c

lower-upper : (c : ℕ) → lower (upper c) ≡ lower c
unfolding lower upper
lower-upper c = ground arith

map-lower-upper : (s : List ℕ) → map lower (map upper s) ≡ map lower s
map-lower-upper [] = refl
map-lower-upper (c ∷ s) = ground (arith, lower-upper c, map-lower-upper s)

-- The case of its letters does not matter.
pub is_igst_profile-upper : (s : List ℕ) → is_igst_profile (map upper s) ≡ is_igst_profile s
unfolding is_igst_profile
is_igst_profile-upper s = rw (map-lower-upper s)
