-- ===== src/Vlm/Plans.antt =====
-- internal/vlm/hardware.go: the tier of a machine and the plan of a run. Sizes and counts are not
-- negative, and the products are below 2^63. The message for the user is left out.
pub mod Sync
use cull_snap.Paths.{Name}
use cull_snap.Base.{
  List, [], ◌∷◌, ◌++◌, ℕ, zero, suc, ◌+◌, ◌*◌, ◌/◌, Bool, true, false, not, ◌&&◌, leb, ltb,
  if◌then◌else◌,
}

pub data HardwareTier : Type 0 where
  tier_legacy tier_basic tier_capable tier_power : HardwareTier

-- `GPUType`
pub data GpuType : Type 0 where
  gpu_none gpu_apple_silicon gpu_nvidia gpu_amd gpu_integrated : GpuType

pub data ExecutionMode : Type 0 where
  mode_onnx_only mode_sync mode_background : ExecutionMode

-- `HardwareProfile`, as far as the choices read it.
pub record HardwareProfile : Type 0 where
  pub total_ram_mb : ℕ
  pub gpu_type : GpuType
  pub vram_mb : ℕ
  pub mlx_capable : Bool

abbrev pub default_tier : ℕ → HardwareTier
default_tier ram = if leb (16 * 1024) ram then tier_basic else tier_legacy

abbrev pub tier_for : GpuType → ℕ → ℕ → HardwareTier
tier_for gpu_apple_silicon ram vram =
    if leb (32 * 1024) ram
    then tier_power
    else if leb (16 * 1024) ram
    then tier_capable
    else if leb (8 * 1024) ram
    then tier_basic
    else tier_legacy
tier_for gpu_nvidia ram vram =
    if leb (8 * 1024) vram && leb (16 * 1024) ram
    then tier_capable
    else if leb (4 * 1024) vram && leb (8 * 1024) ram
    then tier_basic
    else tier_legacy
tier_for gpu_none ram vram = default_tier ram
tier_for gpu_amd ram vram = default_tier ram
tier_for gpu_integrated ram vram = default_tier ram

unfoldable pub classify_tier : HardwareProfile → HardwareTier
classify_tier p = tier_for p.gpu_type p.total_ram_mb p.vram_mb

-- `ExecutionPlan`
pub record ExecutionPlan : Type 0 where
  pub photo_count : ℕ
  pub hardware_tier : HardwareTier
  pub onnx_estimate : ℕ
  pub vlm_enabled : Bool
  pub stage4_count : ℕ
  pub stage4_estimate : ℕ
  pub stage5_count : ℕ
  pub stage5_estimate : ℕ
  pub total_estimate : ℕ
  pub mode : ExecutionMode

abbrev pub group_count : HardwareTier → ℕ → ℕ
group_count tier_basic n = 0
group_count tier_capable n = if ltb 500 n then 0 else n / 5
group_count tier_legacy n = n / 5
group_count tier_power n = n / 5

abbrev pub ms_per_photo : HardwareTier → ℕ
ms_per_photo tier_legacy = 0
ms_per_photo tier_basic = 4000
ms_per_photo tier_capable = 1500
ms_per_photo tier_power = 800

abbrev pub ms_per_group : HardwareTier → ℕ
ms_per_group tier_legacy = 0
ms_per_group tier_basic = 0
ms_per_group tier_capable = 5000
ms_per_group tier_power = 3000

abbrev pub sync_up_to : ℕ → ℕ → ExecutionMode
sync_up_to limit n = if leb n limit then mode_sync else mode_background

abbrev pub mode_for : HardwareTier → ℕ → ExecutionMode
mode_for tier_legacy n = mode_onnx_only
mode_for tier_basic n = sync_up_to 50 n
mode_for tier_capable n = sync_up_to 100 n
mode_for tier_power n = sync_up_to 200 n

abbrev pub enabled_plan : ℕ → HardwareTier → ExecutionPlan
enabled_plan n tier = record {
  photo_count = n;
  hardware_tier = tier;
  onnx_estimate = n * 50;
  vlm_enabled = true;
  stage4_count = n;
  stage4_estimate = n * ms_per_photo tier;
  stage5_count = group_count tier n;
  stage5_estimate = group_count tier n * ms_per_group tier;
  total_estimate = n * 50 + n * ms_per_photo tier + group_count tier n * ms_per_group tier;
  mode = mode_for tier n;
}

unfoldable pub build_execution_plan : ℕ → HardwareTier → ExecutionPlan
build_execution_plan n tier_legacy = record {
  photo_count = n;
  hardware_tier = tier_legacy;
  onnx_estimate = n * 50;
  vlm_enabled = false;
  stage4_count = n;
  stage4_estimate = 0;
  stage5_count = 0;
  stage5_estimate = 0;
  total_estimate = n * 50;
  mode = mode_onnx_only;
}
build_execution_plan n tier_basic = enabled_plan n tier_basic
build_execution_plan n tier_capable = enabled_plan n tier_capable
build_execution_plan n tier_power = enabled_plan n tier_power

abbrev pub with_timings : ℕ → ℕ → ℕ → ExecutionPlan → ExecutionPlan
with_timings n ms4 ms5 p =
    let e4 = if ltb 0 ms4 then n * ms4 else p.stage4_estimate in
    let e5 =
      if ltb 0 ms5 && ltb 0 p.stage5_count then p.stage5_count * ms5 else p.stage5_estimate in
    record p {
      stage4_estimate = e4;
      stage5_estimate = e5;
      total_estimate = p.onnx_estimate + e4 + e5;
    }

-- `BuildExecutionPlanCalibrated`; a timing of 0 stands for the default.
unfoldable pub build_execution_plan_calibrated : ℕ → HardwareTier → ℕ → ℕ → ExecutionPlan
unfolding build_execution_plan
build_execution_plan_calibrated n tier ms4 ms5 =
    let p = build_execution_plan n tier in if not p.vlm_enabled then p else with_timings n ms4 ms5 p

-- `HardwareTier.String`
abbrev pub tier_name : HardwareTier → Name
tier_name tier_legacy = b'l' ∷ b'e' ∷ b'g' ∷ b'a' ∷ b'c' ∷ b'y' ∷ []
tier_name tier_basic = b'b' ∷ b'a' ∷ b's' ∷ b'i' ∷ b'c' ∷ []
tier_name tier_capable = b'c' ∷ b'a' ∷ b'p' ∷ b'a' ∷ b'b' ∷ b'l' ∷ b'e' ∷ []
tier_name tier_power = b'p' ∷ b'o' ∷ b'w' ∷ b'e' ∷ b'r' ∷ []

unfoldable pub calibration_key : HardwareTier → Name → Name → Name
calibration_key tier backend model =
    (b'v' ∷ b'l' ∷ b'm' ∷ b'_' ∷ b'b' ∷ b'e' ∷ b'n' ∷ b'c' ∷ b'h' ∷ b'_' ∷ [])
    ++ tier_name tier
    ++ b'_' ∷ backend
    ++ b'_' ∷ model
