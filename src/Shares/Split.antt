-- ===== src/Shares/Split.antt =====
-- The shares of what is due (`syncShares` of guest/bills/bills.service.ts).
use restiq_backend.Base.{
  ℕ, ◌+◌, ◌*◌, ◌/◌, ◌≤◌, ◌<◌, ◌≡◌, refl, sym, ◌∙◌, ap, subst, List, [], ◌∷◌, map, ◌==◌, All,
  Bool-cases, inl, inr, arith,
}
use native.Mathlib.Nat.{le_of_mul-le-mul_right, div-mul-le_self}
use restiq_backend.Base.Int.{ℤ, pos, ◌+ℤ◌, ◌-ℤ◌, ◌*ℤ◌, ◌/ℤ◌, ◌≤ℤ◌, sum_ℤ, int_laws}
use restiq_backend.Shares.{proportion, split_due}

-- However the weights are, as long as somebody owes, the amounts add up to exactly what is due and not yet allocated.
pub split_due-total :
    (due total_weight allocated w : ℤ) (ws : List ℤ)
    → sum_ℤ (split_due due total_weight allocated (w ∷ ws)) ≡ due -ℤ allocated
unfolding split_due
split_due-total due total_weight allocated w [] = omega int_laws
split_due-total due total_weight allocated w (v ∷ ws) =
    ap (λ (z : ℤ). proportion due total_weight w +ℤ z)
      (split_due-total due total_weight (allocated +ℤ proportion due total_weight w) v ws)
    ∙ omega int_laws

total : List ℕ → ℕ
total [] = 0
total (w ∷ ws) = w + total ws

abbrev as_weights : List ℕ → List ℤ
as_weights ws = map (λ (w : ℕ). pos w) ws

sum_ℤ-as_weights : (ws : List ℕ) → sum_ℤ (as_weights ws) ≡ pos (total ws)
unfolding total
sum_ℤ-as_weights [] = refl
sum_ℤ-as_weights (w ∷ ws) = ap (λ (z : ℤ). pos w +ℤ z) (sum_ℤ-as_weights ws) ∙ omega int_laws

abbrev pub NotNegative : ℤ → Type 0
NotNegative a = pos 0 ≤ℤ a

-- What is allocated leaves room for the weights that are still to come.
abbrev Room : ℕ → ℕ → ℕ → ℕ → Type 0
Room due t allocated rest = allocated * t + due * rest ≤ due * t

last_share :
    (due t allocated w : ℕ)
    → 0 < t
    → Room due t allocated w
    → NotNegative (pos due -ℤ pos allocated)
last_share due t allocated w some_weight room =
    let within : allocated ≤ due = le_of_mul-le-mul_right (omega arith) some_weight in
    omega int_laws

Room-next :
    (due t allocated w rest : ℕ)
    → Room due t allocated (w + rest)
    → Room due t (allocated + due * w / t) rest
Room-next due t allocated w rest room =
    let taken : due * w / t * t ≤ due * w = div-mul-le_self (due * w) t in omega arith

proportion-pos : (due t w : ℕ) → 0 < t → proportion (pos due) (pos t) (pos w) ≡ pos (due * w / t)
unfolding proportion ◌*ℤ◌ ◌/ℤ◌
proportion-pos due t w some_weight = ground arith

split_due-Room :
    (due t allocated : ℕ) (ws : List ℕ)
    → 0 < t
    → Room due t allocated (total ws)
    → All NotNegative (split_due (pos due) (pos t) (pos allocated) (as_weights ws))
unfolding split_due total
split_due-Room due t allocated [] some_weight room = tt
split_due-Room due t allocated (w ∷ []) some_weight room =
    (last_share due t allocated (w + 0) some_weight room, tt)
split_due-Room due t allocated (w ∷ v ∷ ws) some_weight room =
    let next =
      split_due-Room due t (allocated + due * w / t) (v ∷ ws) some_weight
        (Room-next due t allocated w (v + total ws) room) in
    let share = proportion-pos due t w some_weight in
    let sum : pos allocated +ℤ proportion (pos due) (pos t) (pos w)
        ≡ pos (allocated + due * w / t) =
      ap (λ (z : ℤ). pos allocated +ℤ z) share ∙ omega int_laws in
    (
      subst NotNegative (sym share) (omega arith),
      subst (λ (z : ℤ). All NotNegative (split_due (pos due) (pos t) z (as_weights (v ∷ ws))))
          (sym sum) next,
    )

split_due-even :
    (due : ℕ) (ws : List ℕ)
    → total ws ≡ 0
    → All NotNegative (split_due (pos due) (pos 0) (pos 0) (as_weights ws))
unfolding split_due total proportion ◌+ℤ◌
split_due-even due [] none_owed = tt
split_due-even due (w ∷ []) none_owed = (omega int_laws, tt)
split_due-even due (w ∷ v ∷ ws) none_owed = (omega arith, split_due-even due (v ∷ ws) (omega arith))

-- When something or nothing is due and no guest's own lines come to less than nothing, no outstanding share is negative.
pub split_due-nonneg :
    (due : ℕ) (ws : List ℕ)
    → All NotNegative (
        split_due (pos due) (sum_ℤ (map (λ (w : ℕ). pos w) ws)) (pos 0) (map (λ (w : ℕ). pos w) ws))
split_due-nonneg due ws =
    subst (λ (z : ℤ). All NotNegative (split_due (pos due) z (pos 0) (as_weights ws)))
      (sym (sum_ℤ-as_weights ws))
      (elim (Bool-cases (total ws == 0)) [
        | inl none_owed ↦
            let zero : total ws ≡ 0 = ground arith in
            subst (λ (n : ℕ). All NotNegative (split_due (pos due) (pos n) (pos 0) (as_weights ws)))
              (sym zero) (split_due-even due ws zero)
        | inr owed ↦ split_due-Room due (total ws) 0 ws (ground arith) (omega arith)
      ])
