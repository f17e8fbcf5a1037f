-- ===== src/Vlm/Models/Choice.antt =====
-- The recommended model of a machine can be downloaded.
use cull_snap.Base.{List, [], ◌∷◌, Bool, true, false, some, ◌≡◌, ◌≢◌, refl, ◌⊎◌, inl}
use cull_snap.Paths.{same}
use cull_snap.Vlm.Plans.{
  HardwareTier, tier_legacy, tier_basic, tier_capable, tier_power, HardwareProfile, classify_tier,
}
use cull_snap.Vlm.Models.{
  ModelEntry, models_for_tier, offered, recommend_model, recommend_backend, choose_entry,
  lookup_model, find_model, is_up_to,
}

abbrev pub Fits : HardwareTier → ModelEntry → Type 0
Fits tier m = (m.available ≡ true) × (is_up_to m.min_tier tier ≡ true)

abbrev pub IsOffered : ModelEntry → List ModelEntry → Type 0
IsOffered m [] = ⊥
IsOffered m (x ∷ xs) = (m ≡ x) ⊎ IsOffered m xs

-- The entry that is chosen for the recommended model of a tier, on a machine that has MLX or not.
abbrev Chosen : HardwareProfile → HardwareTier → Type 0
Chosen p tier =
    (m : ModelEntry) × (choose_entry p (recommend_model tier) ≡ some m)
    × Fits tier m
    × IsOffered m (models_for_tier tier)

choose_entry-Chosen :
    (p : HardwareProfile) (tier : HardwareTier) (b : Bool)
    → p.mlx_capable ≡ b
    → tier ≢ tier_legacy
    → Chosen p tier
unfolding choose_entry recommend_model recommend_backend lookup_model find_model models_for_tier
    offered same
choose_entry-Chosen p tier_legacy b e n = absurd (n refl)
choose_entry-Chosen p tier_basic true e n = (_, rw e refl, (refl, refl), inl refl)
choose_entry-Chosen p tier_basic false e n = (_, rw e refl, (refl, refl), inl refl)
choose_entry-Chosen p tier_capable true e n = (_, rw e refl, (refl, refl), inl refl)
choose_entry-Chosen p tier_capable false e n = (_, rw e refl, (refl, refl), inl refl)
choose_entry-Chosen p tier_power true e n = (_, rw e refl, (refl, refl), inl refl)
choose_entry-Chosen p tier_power false e n = (_, rw e refl, (refl, refl), inl refl)

-- On every machine whose tier is not the lowest, DownloadVLMModel finds an entry for the recommended
-- model, whichever backend is recommended; the entry is available, is one for the tier, and is among
-- those that ModelsForTier offers.
pub choose_entry-Finds :
    (p : HardwareProfile)
    → classify_tier p ≢ tier_legacy
    → (m : ModelEntry) × (choose_entry p (recommend_model (classify_tier p)) ≡ some m)
      × Fits (classify_tier p) m
      × IsOffered m (models_for_tier (classify_tier p))
choose_entry-Finds p n = choose_entry-Chosen p (classify_tier p) p.mlx_capable refl n
