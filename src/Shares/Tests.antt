-- ===== src/Shares/Tests.antt =====
-- The properties of Shares at one input each.
use restiq_backend.Base.{◌≡◌, [], ◌∷◌, All}
use restiq_backend.Base.Int.{pos, sum_ℤ, ◌-ℤ◌, ◌+ℤ◌}
use restiq_backend.Shares.{split_due}
use restiq_backend.Shares.Split.{split_due-total, split_due-nonneg, NotNegative}

split_due-total_example :
    sum_ℤ (split_due (pos 100) (pos 3) (pos 0) (pos 1 ∷ pos 1 ∷ pos 1 ∷ [])) ≡ pos 100
unfolding ◌-ℤ◌
split_due-total_example = split_due-total (pos 100) (pos 3) (pos 0) (pos 1) (pos 1 ∷ pos 1 ∷ [])

split_due-nonneg_example :
    All NotNegative (split_due (pos 100) (pos 7) (pos 0) (pos 2 ∷ pos 5 ∷ []))
unfolding ◌+ℤ◌
split_due-nonneg_example = split_due-nonneg 100 (2 ∷ 5 ∷ [])
