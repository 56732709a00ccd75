-- ===== src/Pricing/Choice.antt =====
-- `pickCurrentPrice` of admin/menu/pricing.ts against the order that its comment describes.
use restiq_backend.Base.{
  ℕ, ◌+◌, ◌≤◌, ◌<◌, ◌≡◌, refl, ◌⊎◌, inl, inr, Bool, true, false, Option, none, some, List, [], ◌∷◌,
  All, All-weaken, In, ap, sym, subst, ◌∙◌, is_some, arith, if◌then◌else◌, Bool-cases,
}
use restiq_backend.Base.Int.{pos}
use restiq_backend.Pricing.{
  PriceCandidate, PriceTarget, Best, eligible, row_score, replaces, consider, consider_all, no_best,
  pick_current_price,
}

abbrev pub flag : Bool → ℕ
flag true = 1
flag false = 0

-- `r` does not come before `b`: outlet-exact rows come first, then channel-exact ones, then the
-- later effective time, then the later creation.
abbrev pub NotBefore : PriceCandidate → PriceCandidate → Type 0
NotBefore r b =
    (flag (is_some r.outlet_id) < flag (is_some b.outlet_id))
    ⊎ ((flag (is_some r.outlet_id) ≡ flag (is_some b.outlet_id))
        × ((flag (is_some r.channel) < flag (is_some b.channel))
            ⊎ ((flag (is_some r.channel) ≡ flag (is_some b.channel))
                × ((r.effective_at < b.effective_at)
                    ⊎ ((r.effective_at ≡ b.effective_at) × (r.created_at ≤ b.created_at))))))

-- The score orders rows as the two flags do.
score_flags :
    (r : PriceCandidate)
    → row_score r
      ≡ flag (is_some r.outlet_id) + flag (is_some r.outlet_id) + flag (is_some r.channel)
unfolding row_score
score_flags r = ground arith

flag-le : (b : Bool) → flag b ≤ 1
flag-le true = omega arith
flag-le false = omega arith

-- The same order by the score.
abbrev ByScore : PriceCandidate → PriceCandidate → Type 0
ByScore r b =
    (row_score r < row_score b)
    ⊎ ((row_score r ≡ row_score b)
        × ((r.effective_at < b.effective_at)
            ⊎ ((r.effective_at ≡ b.effective_at) × (r.created_at ≤ b.created_at))))

ByScore-NotBefore : (r b : PriceCandidate) → ByScore r b → NotBefore r b
ByScore-NotBefore r b h = grind (
  arith,
  score_flags r,
  score_flags b,
  flag-le (is_some r.outlet_id),
  flag-le (is_some b.outlet_id),
  flag-le (is_some r.channel),
  flag-le (is_some b.channel),
)

ByScore-refl : (r : PriceCandidate) → ByScore r r
ByScore-refl r = omega arith

ByScore-trans : (q r s : PriceCandidate) → ByScore q r → ByScore r s → ByScore q s
ByScore-trans q r s h k = omega arith

-- The loop's variables hold a best row with its score, or none with -1.
abbrev state_of : Option PriceCandidate → Best
state_of none = no_best
state_of (some b) = record { best = some b; score = pos (row_score b) }

module _ (target : PriceTarget) (as_of : ℕ) where
  choose : PriceCandidate → Option PriceCandidate → Option PriceCandidate
  choose row o =
      if eligible target as_of row then (if replaces row (state_of o) then some row else o) else o

  consider-state_of :
      (row : PriceCandidate) (o : Option PriceCandidate)
      → consider target as_of row (state_of o) ≡ state_of (choose row o)
  unfolding consider choose
  consider-state_of row none = ground arith
  consider-state_of row (some b) = ground arith

  replaces_first : (row : PriceCandidate) → replaces row no_best ≡ true
  unfolding replaces
  replaces_first row = ground arith

  replaces_keeps :
      (row b : PriceCandidate) → replaces row (state_of (some b)) ≡ false → ByScore row b
  unfolding replaces
  replaces_keeps row b h = ground arith

  replaces_moves :
      (row b : PriceCandidate) → replaces row (state_of (some b)) ≡ true → ByScore b row
  unfolding replaces
  replaces_moves row b h = ground arith

  -- What holds of the best row after a round.
  abbrev Bests : Option PriceCandidate → PriceCandidate → Type 0
  Bests none b = Unit
  Bests (some a) b = ByScore a b

  abbrev Sound : List PriceCandidate → Option PriceCandidate → Option PriceCandidate → Type 0
  Sound rows start none = (start ≡ none) × All (λ r. eligible target as_of r ≡ false) rows
  Sound rows start (some b) =
      ((start ≡ some b) ⊎ ((eligible target as_of b ≡ true) × In b rows))
      × Bests start b
      × All (λ r. eligible target as_of r ≡ true → ByScore r b) rows

  choose_all : List PriceCandidate → Option PriceCandidate → Option PriceCandidate
  choose_all [] o = o
  choose_all (row ∷ rows) o = choose_all rows (choose row o)

  consider_all-state_of :
      (rows : List PriceCandidate) (o : Option PriceCandidate)
      → consider_all target as_of rows (state_of o) ≡ state_of (choose_all rows o)
  unfolding consider_all choose_all
  consider_all-state_of [] o = refl
  consider_all-state_of (row ∷ rows) o =
      rw (consider-state_of row o) (consider_all-state_of rows (choose row o))

  step_skip :
      (row : PriceCandidate) (o : Option PriceCandidate) (rows : List PriceCandidate)
      (r : Option PriceCandidate)
      → eligible target as_of row ≡ false
      → Sound rows o r
      → Sound (row ∷ rows) o r
  step_skip row o rows none skip (e, rest) = (e, (skip, rest))
  step_skip row o rows (some b) skip (from, start, rest) =
      (ground arith, start, ((λ take. cc), rest))

  step_take :
      (row : PriceCandidate) (o : Option PriceCandidate) (rows : List PriceCandidate)
      (r : Option PriceCandidate)
      → eligible target as_of row ≡ true
      → Bests o row
      → Sound rows (some row) r
      → Sound (row ∷ rows) o r
  step_take row o rows none take better (e, rest) = cc
  step_take row none rows (some b) take better (from, start, rest) =
      (ground arith, tt, ((λ _. start), rest))
  step_take row (some a) rows (some b) take better (from, start, rest) =
      (ground arith, ByScore-trans a row b better start, ((λ _. start), rest))

  step_keep :
      (row a : PriceCandidate) (rows : List PriceCandidate) (r : Option PriceCandidate)
      → ByScore row a
      → Sound rows (some a) r
      → Sound (row ∷ rows) (some a) r
  step_keep row a rows none worse (e, rest) = cc
  step_keep row a rows (some b) worse (from, start, rest) =
      (ground arith, start, ((λ _. ByScore-trans row a b worse start), rest))

  step_eligible :
      (row : PriceCandidate) (o : Option PriceCandidate) (rows : List PriceCandidate)
      (r : Option PriceCandidate)
      → eligible target as_of row ≡ true
      → Sound rows (if replaces row (state_of o) then some row else o) r
      → Sound (row ∷ rows) o r
  step_eligible row none rows r take h =
      step_take row none rows r take tt (rw (replaces_first row) at h)
  step_eligible row (some a) rows r take h = elim (Bool-cases (replaces row (state_of (some a)))) [
    | inl moves ↦ step_take row (some a) rows r take (replaces_moves row a moves) (rw moves at h)
    | inr keeps ↦ step_keep row a rows r (replaces_keeps row a keeps) (rw keeps at h)
  ]

  choose_step :
      (row : PriceCandidate) (o : Option PriceCandidate) (rows : List PriceCandidate)
      (r : Option PriceCandidate)
      → Sound rows (choose row o) r
      → Sound (row ∷ rows) o r
  unfolding choose
  choose_step row o rows r h = elim (Bool-cases (eligible target as_of row)) [
    | inr skip ↦ step_skip row o rows r skip (rw (choose, skip) at h)
    | inl take ↦ step_eligible row o rows r take (rw (choose, take) at h)
  ]

  choose_all-Sound :
      (rows : List PriceCandidate) (o : Option PriceCandidate) → Sound rows o (choose_all rows o)
  unfolding choose_all
  choose_all-Sound [] none = (refl, tt)
  choose_all-Sound [] (some b) = (inl refl, ByScore-refl b, tt)
  choose_all-Sound (row ∷ rows) o =
      choose_step row o rows (choose_all rows (choose row o)) (choose_all-Sound rows (choose row o))

best-state_of : (o : Option PriceCandidate) → (state_of o).best ≡ o
best-state_of none = refl
best-state_of (some b) = refl

pick-choose_all :
    (rows : List PriceCandidate) (target : PriceTarget) (as_of : ℕ)
    → pick_current_price rows target as_of ≡ choose_all target as_of rows none
unfolding pick_current_price
pick-choose_all rows target as_of =
    ap (λ (s : Best). s.best) (consider_all-state_of target as_of rows none) ∙ best-state_of _

pick-Sound :
    (rows : List PriceCandidate) (target : PriceTarget) (as_of : ℕ)
    → Sound target as_of rows none (pick_current_price rows target as_of)
pick-Sound rows target as_of =
    subst (Sound target as_of rows none) (sym (pick-choose_all rows target as_of))
      (choose_all-Sound target as_of rows none)

-- The price that is picked is an eligible row of the table, and no eligible row comes before it.
pub pick_current_price_best :
    (rows : List PriceCandidate) (target : PriceTarget) (as_of : ℕ) (b : PriceCandidate)
    → pick_current_price rows target as_of ≡ some b
    → (eligible target as_of b ≡ true)
      × In b rows
      × All (λ r. eligible target as_of r ≡ true → NotBefore r b) rows
pick_current_price_best rows target as_of b e =
    let (from, _, order) = subst (Sound target as_of rows none) e (pick-Sound rows target as_of) in
    let found : (eligible target as_of b ≡ true) × In b rows = elim from [
      | inl absent ↦ cc
      | inr here ↦ here
    ] in
    (found.0, found.1, All-weaken _ _ rows (λ r h take. ByScore-NotBefore r b (h take)) order)

-- No price is picked only when no row is eligible.
pub pick_current_price-none :
    (rows : List PriceCandidate) (target : PriceTarget) (as_of : ℕ)
    → pick_current_price rows target as_of ≡ none
    → All (λ r. eligible target as_of r ≡ false) rows
pick_current_price-none rows target as_of e =
    (subst (Sound target as_of rows none) e (pick-Sound rows target as_of)).1
