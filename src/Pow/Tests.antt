-- ===== src/Pow/Tests.antt =====
-- Runs of the adjustment, and the theorem at a concrete difficulty.
use tinychain.Base.{ℕ, ◌*◌, ◌/◌, ◌≤◌, ◌≡◌, refl, none, some, arith}
use tinychain.Pow.{
  week, max_target, divide, compute_target, clamp, new_target, retarget, compute_new_diff,
}
use tinychain.Pow.Target.{compute_new_diff_lem}

-- One week leaves the difficulty, and no time at all makes it four times as large.
on_time : compute_new_diff 1000 (2 * week) week ≡ some 1000
unfolding compute_new_diff compute_target divide clamp new_target retarget
on_time = refl

too_fast : compute_new_diff 1000 week week ≡ some 4000
unfolding compute_new_diff compute_target divide clamp new_target retarget
too_fast = refl

-- A difficulty whose target is below 4 can come to a division by 0.
target_lost : compute_new_diff max_target week week ≡ none
unfolding compute_new_diff compute_target divide clamp new_target retarget
target_lost = refl

compute_new_diff_lem_example :
    (d : ℕ) × (t : ℕ) × (compute_new_diff 1000 week week ≡ some d)
    × (d ≡ max_target / t)
    × (1 ≤ d)
    × (max_target / 1000 / 4 ≤ t)
    × (t ≤ 4 * (max_target / 1000))
    × (t ≤ max_target)
compute_new_diff_lem_example = compute_new_diff_lem 1000 week week (omega arith) (omega arith)
