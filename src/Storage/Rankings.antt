-- ===== src/Storage/Rankings.antt =====
-- internal/storage/sqlite.go: the tables of VLM rankings, and the loop of `GetVLMRankingsForFolder` that
-- makes groups of the rows of the join. A score is of any type. The columns of a ranking that no query
-- reads are left out, and what `ORDER BY` does is an argument.
pub mod Places
pub mod Groups
pub mod RoundTrip
use cull_snap.Base.{
  ℕ, zero, suc, List, [], ◌∷◌, ◌++◌, Bool, true, false, ◌&&◌, Option, none, some, if◌then◌else◌,
  length, map,
}
use cull_snap.Paths.{Name, same}

pub record VlmRankingRow (F : Type 0) : Type 0 where
  pub photo_path : Name
  pub rank : ℕ
  pub relative_score : F
  pub notes : Name
  pub tokens_used : ℕ

pub record VlmRankingGroupRow (F : Type 0) : Type 0 where
  pub folder_path : Name
  pub group_label : Name
  pub photo_count : ℕ
  pub explanation : Name
  pub model_name : Name
  pub prompt_version : ℕ
  pub custom_instructions_hash : Name
  pub rankings : List (VlmRankingRow F)

-- A row of vlm_rankings.
pub record Ranked (F : Type 0) : Type 0 where
  pub ranked_folder : Name
  pub ranked_label : Name
  pub row : VlmRankingRow F

-- The rows of vlm_ranking_groups have no rankings.
pub record Rankings (F : Type 0) : Type 0 where
  pub groups : List (VlmRankingGroupRow F)
  pub ranked : List (Ranked F)

-- A row of the join; a group without rankings has one with NULL columns.
abbrev pub Joined : Type 0 → Type 0
Joined F = VlmRankingGroupRow F × Option (VlmRankingRow F)

-- `groupIndex`
unfoldable pub index_of : Name → List (Name × ℕ) → Option ℕ
index_of label [] = none
index_of label (e ∷ es) = let rest = index_of label es in if same e.0 label then some e.1 else rest

module _ {F : Type 0} where
  abbrev pub is_group : Name → Name → VlmRankingGroupRow F → Bool
  is_group folder label g = same g.folder_path folder && same g.group_label label

  abbrev pub is_ranked : Name → Name → Ranked F → Bool
  is_ranked folder label r = same r.ranked_folder folder && same r.ranked_label label

  unfoldable pub without_group :
      Name → Name → List (VlmRankingGroupRow F) → List (VlmRankingGroupRow F)
  without_group folder label [] = []
  without_group folder label (g ∷ gs) =
      let rest = without_group folder label gs in if is_group folder label g then rest else g ∷ rest

  unfoldable pub without_ranked : Name → Name → Name → List (Ranked F) → List (Ranked F)
  without_ranked folder label photo [] = []
  without_ranked folder label photo (r ∷ rs) =
      let rest = without_ranked folder label photo rs in
      if is_ranked folder label r && same r.row.photo_path photo then rest else r ∷ rest

  -- The loop of `SaveVLMRanking`.
  unfoldable pub save_rows :
      Name → Name → List (VlmRankingRow F) → List (Ranked F) → List (Ranked F)
  unfolding without_ranked
  save_rows folder label [] rs = rs
  save_rows folder label (x ∷ xs) rs = save_rows folder label xs (
      without_ranked folder label x.photo_path rs
      ++ (record { ranked_folder = folder; ranked_label = label; row = x }) ∷ [])

  unfoldable pub save_vlm_ranking : VlmRankingGroupRow F → Rankings F → Rankings F
  unfolding without_group save_rows
  save_vlm_ranking g t = record {
    groups =
        without_group g.folder_path g.group_label t.groups ++ (record g { rankings = [] }) ∷ [];
    ranked = save_rows g.folder_path g.group_label g.rankings t.ranked;
  }

  unfoldable pub rows_of : VlmRankingGroupRow F → List (Ranked F) → List (Joined F)
  rows_of g [] = []
  rows_of g (r ∷ rs) =
      let rest = rows_of g rs in
      if is_ranked g.folder_path g.group_label r then (g, some r.row) ∷ rest else rest

  abbrev pub or_null : VlmRankingGroupRow F → List (Joined F) → List (Joined F)
  or_null g [] = (g, none) ∷ []
  or_null g (j ∷ js) = j ∷ js

  unfoldable pub left_join : Name → List (VlmRankingGroupRow F) → List (Ranked F) → List (Joined F)
  unfolding rows_of
  left_join folder [] rs = []
  left_join folder (g ∷ gs) rs =
      let rest = left_join folder gs rs in
      if same g.folder_path folder then or_null g (rows_of g rs) ++ rest else rest

  abbrev pub with_ranking : Option (VlmRankingRow F) → VlmRankingGroupRow F → VlmRankingGroupRow F
  with_ranking none g = g
  with_ranking (some r) g = record g { rankings = g.rankings ++ r ∷ [] }

  unfoldable pub add_at :
      ℕ → Option (VlmRankingRow F) → List (VlmRankingGroupRow F) → List (VlmRankingGroupRow F)
  add_at i r [] = []
  add_at zero r (g ∷ gs) = with_ranking r g ∷ gs
  add_at (suc i) r (g ∷ gs) = g ∷ add_at i r gs

  -- The loop over the rows, with `groupIndex` and `groups`.
  unfoldable pub aggregate :
      List (Joined F) → List (Name × ℕ) → List (VlmRankingGroupRow F) → List (VlmRankingGroupRow F)
  unfolding index_of add_at
  aggregate [] index groups = groups
  aggregate (j ∷ js) index groups = elim (index_of j.0.group_label index) [
    | none ↦
        aggregate js ((j.0.group_label, length groups) ∷ index)
          (add_at (length groups) j.1 (groups ++ j.0 ∷ []))
    | some i ↦ aggregate js index (add_at i j.1 groups)
  ]

  unfoldable pub get_vlm_rankings_for_folder :
      (List (Joined F) → List (Joined F)) → Name → Rankings F → List (VlmRankingGroupRow F)
  unfolding left_join aggregate
  get_vlm_rankings_for_folder order_by folder t =
      aggregate (order_by (left_join folder t.groups t.ranked)) [] []

  unfoldable pub delete_groups : Name → List (VlmRankingGroupRow F) → List (VlmRankingGroupRow F)
  delete_groups folder [] = []
  delete_groups folder (g ∷ gs) =
      let rest = delete_groups folder gs in if same g.folder_path folder then rest else g ∷ rest

  unfoldable pub delete_ranked : Name → List (Ranked F) → List (Ranked F)
  delete_ranked folder [] = []
  delete_ranked folder (r ∷ rs) =
      let rest = delete_ranked folder rs in if same r.ranked_folder folder then rest else r ∷ rest

  -- `deleteVLMDataForFolderTx`, as far as these tables go.
  unfoldable pub delete_vlm_data_for_folder : Name → Rankings F → Rankings F
  unfolding delete_groups delete_ranked
  delete_vlm_data_for_folder folder t = record {
    groups = delete_groups folder t.groups;
    ranked = delete_ranked folder t.ranked;
  }
