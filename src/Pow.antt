-- ===== src/Pow.antt =====
-- The difficulty of consensus/pow/utils.go. Times are a count of nanoseconds, not negative, that
-- differ by less than 2 ^ 63; a division by 0 has no result.
pub mod Target
mod Tests
use tinychain.Base.{ℕ, ◌+◌, ◌-◌, ◌*◌, ◌/◌, ◌^◌, Option, none, some, ltb, ◌==◌, if◌then◌else◌}

-- `week`, a `time.Duration`
abbrev pub week : ℕ
week = 7 * 24 * 3600000000000

abbrev pub max_target : ℕ
max_target = 2 ^ 64 - 1

-- `Div`
unfoldable pub divide : ℕ → ℕ → Option ℕ
divide a b = if b == 0 then none else some (a / b)

unfoldable pub compute_target : ℕ → Option ℕ
compute_target difficulty = divide max_target difficulty

-- The duration, held between a quarter of a week and four weeks. A negative one is below a quarter.
unfoldable pub clamp : ℕ → ℕ
clamp duration =
    if ltb duration (week / 4)
    then week / 4
    else (if ltb (week * 4) duration then week * 4 else duration)

unfoldable pub new_target : ℕ → ℕ → ℕ
new_target old_target duration =
    let scaled = old_target * duration / week in
    if ltb max_target scaled then max_target else scaled

unfoldable pub retarget : Option ℕ → ℕ → Option ℕ
retarget none duration = none
retarget (some old_target) duration = divide max_target (new_target old_target duration)

-- `computeNewDiff`, on the times of the two blocks.
unfoldable pub compute_new_diff : ℕ → ℕ → ℕ → Option ℕ
compute_new_diff curr_diff curr_time old_time =
    retarget (compute_target curr_diff) (clamp (curr_time - old_time))
