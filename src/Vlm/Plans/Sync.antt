-- ===== src/Vlm/Plans/Sync.antt =====
-- What a plan promises.
use cull_snap.Base.{ℕ, ◌+◌, ◌*◌, ◌≤◌, ◌≡◌, refl, arith}
use cull_snap.Vlm.Plans.{
  HardwareTier, tier_legacy, tier_basic, tier_capable, tier_power, mode_sync, ExecutionPlan,
  build_execution_plan, build_execution_plan_calibrated,
}

waits_briefly :
    (n : ℕ) (tier : HardwareTier)
    → (build_execution_plan n tier).mode ≡ mode_sync
    → (build_execution_plan n tier).total_estimate ≤ 290000
unfolding build_execution_plan
waits_briefly n tier_legacy e = cc
waits_briefly n tier_basic e = ground arith
waits_briefly n tier_capable e = ground arith
waits_briefly n tier_power e = ground arith

few_groups : (n : ℕ) (tier : HardwareTier) → 5 * (build_execution_plan n tier).stage5_count ≤ n
unfolding build_execution_plan
few_groups n tier_legacy = omega arith
few_groups n tier_basic = omega arith
few_groups n tier_capable = ground arith
few_groups n tier_power = ground arith

-- The total is the sum of the stages.
abbrev pub AddsUp : ExecutionPlan → Type 0
AddsUp p = p.total_estimate ≡ p.onnx_estimate + p.stage4_estimate + p.stage5_estimate

adds_up :
    (n : ℕ) (tier : HardwareTier) (ms4 ms5 : ℕ)
    → AddsUp (build_execution_plan_calibrated n tier ms4 ms5)
unfolding build_execution_plan_calibrated build_execution_plan
adds_up n tier_legacy ms4 ms5 = omega arith
adds_up n tier_basic ms4 ms5 = refl
adds_up n tier_capable ms4 ms5 = refl
adds_up n tier_power ms4 ms5 = refl

-- A plan that makes the caller wait is of 290 seconds at most by its own estimate; a plan has one group
-- for five photos at most; and with whatever calibrated timings, the total is the sum of the stages.
pub build_execution_plan_bounds :
    (n : ℕ) (tier : HardwareTier) (ms4 ms5 : ℕ)
    → (build_execution_plan n tier).mode ≡ mode_sync
    → ((build_execution_plan n tier).total_estimate ≤ 290000)
      × (5 * (build_execution_plan n tier).stage5_count ≤ n)
      × AddsUp (build_execution_plan_calibrated n tier ms4 ms5)
build_execution_plan_bounds n tier ms4 ms5 e =
    (waits_briefly n tier e, few_groups n tier, adds_up n tier ms4 ms5)
