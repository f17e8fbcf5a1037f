-- ===== src/Vlm/Models.antt =====
-- internal/vlm/model_registry.go, the recommendations of hardware.go, and the choice of an entry in
-- `DownloadVLMModel` of internal/app/ai_methods.go. An entry is its name, backend, size and tier, and
-- whether it is available.
pub mod Choice
use cull_snap.Base.{
  ℕ, List, [], ◌∷◌, ◌++◌, Bool, true, false, not, ◌&&◌, ◌||◌, Option, none, some, leb,
  if◌then◌else◌, map,
}
use cull_snap.Paths.{Name, same}
use cull_snap.Vlm.Plans.{
  HardwareTier, tier_legacy, tier_basic, tier_capable, tier_power, HardwareProfile, classify_tier,
}

-- `ModelEntry`
pub record ModelEntry : Type 0 where
  pub name : Name
  pub backend : Name
  pub size_bytes : ℕ
  pub min_tier : HardwareTier
  pub available : Bool

-- "gemma-4-"
abbrev pub gemma_4 : Name
gemma_4 = b'g' ∷ b'e' ∷ b'm' ∷ b'm' ∷ b'a' ∷ b'-' ∷ b'4' ∷ b'-' ∷ []

-- "gemma-4-e4b-it" and "gemma-4-e2b-it"
abbrev pub e4b_it : Name
e4b_it = gemma_4 ++ b'e' ∷ b'4' ∷ b'b' ∷ b'-' ∷ b'i' ∷ b't' ∷ []

abbrev pub e2b_it : Name
e2b_it = gemma_4 ++ b'e' ∷ b'2' ∷ b'b' ∷ b'-' ∷ b'i' ∷ b't' ∷ []

abbrev pub llamacpp : Name
llamacpp = b'l' ∷ b'l' ∷ b'a' ∷ b'm' ∷ b'a' ∷ b'c' ∷ b'p' ∷ b'p' ∷ []

abbrev pub mlx : Name
mlx = b'm' ∷ b'l' ∷ b'x' ∷ []

abbrev pub builtin_models : List ModelEntry
builtin_models =
    record {
      name = e4b_it;
      backend = llamacpp;
      size_bytes = 4977169088;
      min_tier = tier_capable;
      available = true;
    }
    ∷ record {
      name = e4b_it;
      backend = mlx;
      size_bytes = 2600000000;
      min_tier = tier_capable;
      available = false;
    }
    ∷ record {
      name = e2b_it;
      backend = llamacpp;
      size_bytes = 3106735776;
      min_tier = tier_basic;
      available = true;
    }
    ∷ record {
      name = e2b_it;
      backend = mlx;
      size_bytes = 1400000000;
      min_tier = tier_basic;
      available = false;
    }
    ∷ []

abbrev pub tier_number : HardwareTier → ℕ
tier_number tier_legacy = 0
tier_number tier_basic = 1
tier_number tier_capable = 2
tier_number tier_power = 3

abbrev pub is_up_to : HardwareTier → HardwareTier → Bool
is_up_to s t = leb (tier_number s) (tier_number t)

unfoldable pub find_model : Name → Name → List ModelEntry → Option ModelEntry
find_model name backend [] = none
find_model name backend (m ∷ ms) =
    let rest = find_model name backend ms in
    if same m.name name && same m.backend backend then some m else rest

unfoldable pub lookup_model : Name → Name → Option ModelEntry
unfolding find_model
lookup_model name backend = find_model name backend builtin_models

unfoldable pub offered : HardwareTier → List ModelEntry → List ModelEntry
offered tier [] = []
offered tier (m ∷ ms) =
    let rest = offered tier ms in if m.available && is_up_to m.min_tier tier then m ∷ rest else rest

unfoldable pub models_for_tier : HardwareTier → List ModelEntry
unfolding offered
models_for_tier tier_legacy = []
models_for_tier tier_basic = offered tier_basic builtin_models
models_for_tier tier_capable = offered tier_capable builtin_models
models_for_tier tier_power = offered tier_power builtin_models

unfoldable pub recommend_model : HardwareTier → Name
recommend_model tier_legacy = []
recommend_model tier_basic = e2b_it
recommend_model tier_capable = e4b_it
recommend_model tier_power = e4b_it

unfoldable pub recommend_backend : HardwareProfile → Name
recommend_backend p = if p.mlx_capable then mlx else llamacpp

abbrev pub is_usable : Option ModelEntry → Bool
is_usable none = false
is_usable (some m) = m.available

abbrev pub usable : Option ModelEntry → Option ModelEntry
usable none = none
usable (some m) = if m.available then some m else none

-- The entry that `DownloadVLMModel` chooses, or none if it returns an error.
unfoldable pub choose_entry : HardwareProfile → Name → Option ModelEntry
unfolding recommend_backend
choose_entry p model =
    let backend = recommend_backend p in
    let entry = lookup_model model backend in
    let other = if same backend mlx then llamacpp else mlx in
    if not (is_usable entry) then usable (lookup_model model other) else entry
