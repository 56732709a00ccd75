-- ===== src/Tax/Rounding.antt =====
-- The two rounding rules of pos/bills/tax.ts.
use restiq_backend.Base.{ℕ, zero, suc, ◌+◌, ◌*◌, ◌/◌, ◌%◌, ◌≤◌, ◌<◌, ◌≡◌, refl, sym, arith}
use restiq_backend.Base.Int.{
  ℤ, pos, negsuc, neg, neg_ℕ, neg-neg, neg_part, pos_part, ◌+ℤ◌, ◌-ℤ◌, ◌*ℤ◌, ◌≤ℤ◌, int_laws,
}
use restiq_backend.Tax.{half_up, round_half_up, half_even, round_half_even}

pub half_up_near :
    (n d : ℕ) → 0 < d → (2 * (half_up n d * d) ≤ 2 * n + d) × (2 * n ≤ 2 * (half_up n d * d) + d)
unfolding half_up
half_up_near n d h = grind arith

pub half_even_near :
    (n d : ℕ)
    → 0 < d
    → (2 * (half_even n d * d) ≤ 2 * n + d) × (2 * n ≤ 2 * (half_even n d * d) + d)
unfolding half_even
half_even_near n d h = grind arith

-- At a tie `half_even` gives an even number.
pub half_even_tie : (n d : ℕ) → 0 < d → 2 * (n % d) ≡ d → half_even n d % 2 ≡ 0
unfolding half_even
half_even_tie n d h tie = ground arith

-- At a tie `half_up` goes up.
pub half_up_tie : (n d : ℕ) → 0 < d → 2 * (n % d) ≡ d → half_up n d ≡ n / d + 1
unfolding half_up
half_up_tie n d h tie = grind arith

pub neg_ℕ_parts : (n : ℕ) → (pos_part (neg_ℕ n) ≡ 0) × (neg_part (neg_ℕ n) ≡ n)
neg_ℕ_parts zero = (refl, refl)
neg_ℕ_parts (suc n) = (refl, refl)

neg_ℕ-* : (n d : ℕ) → neg_ℕ n *ℤ pos d ≡ neg_ℕ (n * d)
unfolding ◌*ℤ◌
neg_ℕ-* zero d = ground arith
neg_ℕ-* (suc n) d = refl

two-neg_ℕ : (n : ℕ) → pos 2 *ℤ neg_ℕ n ≡ neg_ℕ (2 * n)
unfolding ◌*ℤ◌
two-neg_ℕ zero = ground arith
two-neg_ℕ (suc n) = refl

-- `q` is nearest to `n / d`: twice `q d` is within `d` of twice `n`.
abbrev pub IsNearest : ℤ → ℕ → ℤ → Type 0
IsNearest n d q =
    (pos 2 *ℤ n -ℤ pos d ≤ℤ pos 2 *ℤ (q *ℤ pos d)) × (pos 2 *ℤ (q *ℤ pos d) ≤ℤ pos 2 *ℤ n +ℤ pos d)

IsNearest-pos :
    (n d q : ℕ) → 2 * (q * d) ≤ 2 * n + d → 2 * n ≤ 2 * (q * d) + d → IsNearest (pos n) d (pos q)
unfolding ◌*ℤ◌
IsNearest-pos n d q h k = omega int_laws

IsNearest-neg :
    (n d q : ℕ)
    → 2 * (q * d) ≤ 2 * suc n + d
    → 2 * suc n ≤ 2 * (q * d) + d
    → IsNearest (negsuc n) d (neg_ℕ q)
IsNearest-neg n d q h k =
    rw (neg_ℕ-* q d, two-neg_ℕ (q * d), two-neg_ℕ (suc n))
      (omega (int_laws, neg_ℕ_parts (2 * (q * d)), neg_ℕ_parts (2 * suc n)))

-- Both rules round to a nearest integer, for either sign of the numerator.
pub round_half_up-IsNearest : (n : ℤ) (d : ℕ) → 0 < d → IsNearest n d (round_half_up n d)
unfolding round_half_up
round_half_up-IsNearest (pos n) d h =
    let (lo, hi) = half_up_near n d h in IsNearest-pos n d (half_up n d) lo hi
round_half_up-IsNearest (negsuc n) d h =
    let (lo, hi) = half_up_near (suc n) d h in IsNearest-neg n d (half_up (suc n) d) lo hi

pub round_half_even-IsNearest : (n : ℤ) (d : ℕ) → 0 < d → IsNearest n d (round_half_even n d)
unfolding round_half_even
round_half_even-IsNearest (pos n) d h =
    let (lo, hi) = half_even_near n d h in IsNearest-pos n d (half_even n d) lo hi
round_half_even-IsNearest (negsuc n) d h =
    let (lo, hi) = half_even_near (suc n) d h in IsNearest-neg n d (half_even (suc n) d) lo hi

half_up-zero : (d : ℕ) → 0 < d → half_up 0 d ≡ 0
unfolding half_up
half_up-zero d h = grind arith

half_even-zero : (d : ℕ) → 0 < d → half_even 0 d ≡ 0
unfolding half_even
half_even-zero d h = grind arith

pub round_half_up-neg : (n : ℤ) (d : ℕ) → 0 < d → round_half_up (neg n) d ≡ neg (round_half_up n d)
unfolding round_half_up
round_half_up-neg (pos zero) d h = rw (half_up-zero d h)
round_half_up-neg (pos (suc n)) d h = refl
round_half_up-neg (negsuc n) d h = sym (neg-neg (pos (half_up (suc n) d)))

pub round_half_even-neg :
    (n : ℤ) (d : ℕ) → 0 < d → round_half_even (neg n) d ≡ neg (round_half_even n d)
unfolding round_half_even
round_half_even-neg (pos zero) d h = rw (half_even-zero d h)
round_half_even-neg (pos (suc n)) d h = refl
round_half_even-neg (negsuc n) d h = sym (neg-neg (pos (half_even (suc n) d)))
