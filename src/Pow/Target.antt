-- ===== src/Pow/Target.antt =====
-- How far one adjustment moves the target.
use tinychain.Base.{ℕ, ◌-◌, ◌*◌, ◌/◌, ◌≤◌, ◌<◌, ◌≡◌, refl, false, some, ◌==◌, arith}
use native.Mathlib.Nat.{mul-le-mul, le_refl, div-le_self, le-div_iff_mul-le}
use tinychain.Pow.{
  week, max_target, divide, compute_target, clamp, new_target, retarget, compute_new_diff,
}

clamp_bounds : (duration : ℕ) → (week / 4 ≤ clamp duration) × (clamp duration ≤ week * 4)
unfolding clamp
clamp_bounds duration = ground arith

new_target_bounds :
    (t duration : ℕ)
    → week / 4 ≤ duration
    → duration ≤ week * 4
    → 4 ≤ t
    → t ≤ max_target
    → (t / 4 ≤ new_target t duration)
      × (new_target t duration ≤ 4 * t)
      × (new_target t duration ≤ max_target)
unfolding new_target
new_target_bounds t duration low high big small =
    let below = mul-le-mul (le_refl t) low in
    let above = mul-le-mul (le_refl t) high in ground arith

positive_test : (n : ℕ) → 0 < n → (n == 0) ≡ false
positive_test n h = ground arith

positive_result : (t : ℕ) → 0 < t → divide max_target t ≡ some (max_target / t)
unfolding divide
positive_result t h = rw (positive_test t h) refl

at_least_one : (t : ℕ) → 0 < t → t ≤ max_target → 1 ≤ max_target / t
at_least_one t h k = (le-div_iff_mul-le h).1 (omega arith)

-- For a difficulty that is not 0 and whose target is at least 4, the new difficulty exists and is at
-- least 1: it is the quotient of the largest target by a target between a quarter and four times the
-- old one.
pub compute_new_diff_lem :
    (diff curr_time old_time : ℕ)
    → 0 < diff
    → 4 ≤ max_target / diff
    → (d : ℕ) × (t : ℕ) × (compute_new_diff diff curr_time old_time ≡ some d)
      × (d ≡ max_target / t)
      × (1 ≤ d)
      × (max_target / diff / 4 ≤ t)
      × (t ≤ 4 * (max_target / diff))
      × (t ≤ max_target)
unfolding compute_new_diff compute_target divide retarget
compute_new_diff_lem diff curr_time old_time pos big =
    let old = max_target / diff in
    let duration = clamp (curr_time - old_time) in
    let held = clamp_bounds (curr_time - old_time) in
    let small = div-le_self max_target diff in
    let bounds = new_target_bounds old duration held.0 held.1 big small in
    let t = new_target old duration in
    let positive : 0 < t = omega arith in
    (
      max_target / t,
      t,
      rw (positive_test diff pos) (positive_result t positive),
      refl,
      at_least_one t positive bounds.2,
      bounds.0,
      bounds.1,
      bounds.2,
    )
