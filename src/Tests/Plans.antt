-- ===== src/Tests/Plans.antt =====
-- internal/vlm on two machines.
use cull_snap.Base.{true, ◌≡◌, ◌≢◌, refl}
use cull_snap.Vlm.Plans.{
  tier_legacy, tier_capable, HardwareProfile, gpu_apple_silicon, classify_tier,
  build_execution_plan, mode_sync,
}

plan-sync : (build_execution_plan 90 tier_capable).mode ≡ mode_sync
unfolding build_execution_plan
plan-sync = refl

plan_total : (build_execution_plan 90 tier_capable).total_estimate ≡ 229500
unfolding build_execution_plan
plan_total = refl

abbrev laptop : HardwareProfile
laptop = record {
  total_ram_mb = 16384;
  gpu_type = gpu_apple_silicon;
  vram_mb = 0;
  mlx_capable = true;
}

laptop-capable : classify_tier laptop ≡ tier_capable
unfolding classify_tier
laptop-capable = refl

laptop-not_legacy : classify_tier laptop ≢ tier_legacy
laptop-not_legacy e = let q = laptop-capable in cc
