-- ===== src/Storage/Rankings/RoundTrip.antt =====
-- A group of rankings that is saved and read again.
use mathlib.Core.List.{append-nil, append_assoc}
use cull_snap.Base.{
  List, [], ◌∷◌, ◌++◌, Bool, false, ◌&&◌, some, map, ◌≡◌, refl, sym, arith, ap, ◌∙◌, All,
  All-append,
}
use cull_snap.Paths.{Name, same}
use cull_snap.Storage.Tables.{same_refl}
use cull_snap.Storage.Rankings.{
  VlmRankingRow, VlmRankingGroupRow, Ranked, Rankings, Joined, is_ranked, without_group,
  without_ranked, save_rows, save_vlm_ranking, rows_of, or_null, left_join, index_of, add_at,
  aggregate, get_vlm_rankings_for_folder,
}

clash_false : (c d : Bool) → d ≡ false → (c && d) ≡ false
clash_false c d e = ground arith

no_folder : (c d e : Bool) → c ≡ false → ((c && d) && e) ≡ false
no_folder c d e h = ground arith

module _ {F : Type 0} where
  -- No row is of the folder.
  pub record IsForeign (folder : Name) (t : Rankings F) : Type 0 where
    pub no_groups : All (λ g. same g.folder_path folder ≡ false) t.groups
    pub no_ranked : All (λ r. same r.ranked_folder folder ≡ false) t.ranked

  -- No two rankings are of one photo.
  abbrev pub Distinct : List (VlmRankingRow F) → Type 0
  Distinct [] = Unit
  Distinct (x ∷ xs) = All (λ y. same x.photo_path y.photo_path ≡ false) xs × Distinct xs

  abbrev ranked_of : Name → Name → VlmRankingRow F → Ranked F
  ranked_of folder label x = record { ranked_folder = folder; ranked_label = label; row = x }

  -- No row is replaced by one of these rankings.
  abbrev NoClash : Name → Name → List (Ranked F) → List (VlmRankingRow F) → Type 0
  NoClash folder label rs =
      All (λ x.
        All (λ r. (is_ranked folder label r && same r.row.photo_path x.photo_path) ≡ false) rs)

  without_none :
      (folder label photo : Name) (rs : List (Ranked F))
      → All (λ r. (is_ranked folder label r && same r.row.photo_path photo) ≡ false) rs
      → without_ranked folder label photo rs ≡ rs
  unfolding without_ranked
  without_none folder label photo [] a = refl
  without_none folder label photo (r ∷ rs) a = rw (a.0, without_none folder label photo rs a.1) refl

  NoClash-append :
      (folder label : Name) (rs : List (Ranked F)) (x : VlmRankingRow F)
      (ys : List (VlmRankingRow F))
      → NoClash folder label rs ys
      → All (λ y. same x.photo_path y.photo_path ≡ false) ys
      → NoClash folder label (rs ++ ranked_of folder label x ∷ []) ys
  NoClash-append folder label rs x [] c d = tt
  NoClash-append folder label rs x (y ∷ ys) c d = (
    All-append _ rs _ c.0
        (clash_false (is_ranked folder label (ranked_of folder label x)) _ d.0, tt),
    NoClash-append folder label rs x ys c.1 d.1,
  )

  save_rows_all :
      (folder label : Name) (xs : List (VlmRankingRow F)) (rs : List (Ranked F))
      → NoClash folder label rs xs
      → Distinct xs
      → save_rows folder label xs rs ≡ rs ++ map (ranked_of folder label) xs
  unfolding save_rows
  save_rows_all folder label [] rs c d = sym (append-nil rs)
  save_rows_all folder label (x ∷ xs) rs c d = rw (without_none folder label x.photo_path rs c.0) (
      save_rows_all folder label xs (rs ++ ranked_of folder label x ∷ [])
        (NoClash-append folder label rs x xs c.1 d.0) d.1
      ∙ append_assoc rs (ranked_of folder label x ∷ []) (map (ranked_of folder label) xs))

  without_group_none :
      (folder label : Name) (gs : List (VlmRankingGroupRow F))
      → All (λ g. same g.folder_path folder ≡ false) gs
      → without_group folder label gs ≡ gs
  unfolding without_group
  without_group_none folder label [] a = refl
  without_group_none folder label (g ∷ gs) a = rw (a.0, without_group_none folder label gs a.1) refl

  abbrev row_of : VlmRankingGroupRow F → VlmRankingRow F → Joined F
  row_of h x = (h, some x)

  rows_of_own :
      (h : VlmRankingGroupRow F) (xs : List (VlmRankingRow F))
      → rows_of h (map (ranked_of h.folder_path h.group_label) xs) ≡ map (row_of h) xs
  unfolding rows_of
  rows_of_own h [] = refl
  rows_of_own h (x ∷ xs) =
      rw (same_refl h.folder_path, same_refl h.group_label, rows_of_own h xs) refl

  rows_of_both :
      (h : VlmRankingGroupRow F) (rs : List (Ranked F)) (xs : List (VlmRankingRow F))
      → All (λ r. same r.ranked_folder h.folder_path ≡ false) rs
      → rows_of h (rs ++ map (ranked_of h.folder_path h.group_label) xs) ≡ map (row_of h) xs
  unfolding rows_of
  rows_of_both h [] xs a = rows_of_own h xs
  rows_of_both h (r ∷ rs) xs a = rw a.0 (rows_of_both h rs xs a.1)

  left_join_last :
      (h : VlmRankingGroupRow F) (gs : List (VlmRankingGroupRow F)) (rs : List (Ranked F))
      → All (λ g. same g.folder_path h.folder_path ≡ false) gs
      → left_join h.folder_path (gs ++ h ∷ []) rs ≡ or_null h (rows_of h rs)
  unfolding left_join
  left_join_last h [] rs a = rw (same_refl h.folder_path) (append-nil (or_null h (rows_of h rs)))
  left_join_last h (g ∷ gs) rs a = rw a.0 (left_join_last h gs rs a.1)

  aggregate_own :
      (h : VlmRankingGroupRow F) (xs ys : List (VlmRankingRow F))
      → aggregate (map (row_of h) xs) ((h.group_label, 0) ∷ []) (record h { rankings = ys } ∷ [])
        ≡ record h { rankings = ys ++ xs } ∷ []
  unfolding aggregate index_of add_at
  aggregate_own h [] ys = rw (append-nil ys) refl
  aggregate_own h (x ∷ xs) ys =
      rw (aggregate, same_refl h.group_label)
        (aggregate_own h xs (ys ++ x ∷ []) ∙ rw (append_assoc ys (x ∷ []) xs) refl)

  abbrev header : VlmRankingGroupRow F → VlmRankingGroupRow F
  header g = record g { rankings = [] }

  aggregate_all :
      (g : VlmRankingGroupRow F) (xs : List (VlmRankingRow F))
      → aggregate (or_null (header g) (map (row_of (header g)) xs)) [] []
        ≡ record g { rankings = xs } ∷ []
  unfolding aggregate index_of add_at
  aggregate_all g [] = refl
  aggregate_all g (x ∷ xs) = aggregate_own (header g) xs (x ∷ [])

  joined_rows :
      (g : VlmRankingGroupRow F) (t : Rankings F)
      → IsForeign g.folder_path t
      → Distinct g.rankings
      → left_join g.folder_path (save_vlm_ranking g t).groups (save_vlm_ranking g t).ranked
        ≡ or_null (header g) (map (row_of (header g)) g.rankings)
  unfolding save_vlm_ranking
  joined_rows g t f d =
      rw
        (
          without_group_none g.folder_path g.group_label t.groups f.no_groups,
          save_rows_all g.folder_path g.group_label g.rankings t.ranked
              (unclashing g.rankings t.ranked f.no_ranked) d,
        )
        (left_join_last (header g) t.groups _ f.no_groups
          ∙ ap (or_null (header g)) (rows_of_both (header g) t.ranked g.rankings f.no_ranked))
    where
      each :
          (x : VlmRankingRow F) (rs : List (Ranked F))
          → All (λ r. same r.ranked_folder g.folder_path ≡ false) rs
          → All
              (λ r.
                (is_ranked g.folder_path g.group_label r && same r.row.photo_path x.photo_path)
                ≡ false)
              rs
      each x [] a = tt
      each x (r ∷ rs) a = (no_folder (same r.ranked_folder g.folder_path) _ _ a.0, each x rs a.1)

      unclashing :
          (xs : List (VlmRankingRow F)) (rs : List (Ranked F))
          → All (λ r. same r.ranked_folder g.folder_path ≡ false) rs
          → NoClash g.folder_path g.group_label rs xs
      unclashing [] rs a = tt
      unclashing (x ∷ xs) rs a = (each x rs a, unclashing xs rs a)

  -- In a store without rows of its folder, a group whose rankings are of different photos and in the
  -- order of the query is read as it was saved.
  pub get_vlm_rankings_for_folder-save_vlm_ranking :
      (order_by : List (Joined F) → List (Joined F)) (g : VlmRankingGroupRow F) (t : Rankings F)
      → IsForeign g.folder_path t
      → Distinct g.rankings
      → order_by
          (left_join g.folder_path (save_vlm_ranking g t).groups (save_vlm_ranking g t).ranked)
        ≡ left_join g.folder_path (save_vlm_ranking g t).groups (save_vlm_ranking g t).ranked
      → get_vlm_rankings_for_folder order_by g.folder_path (save_vlm_ranking g t) ≡ g ∷ []
  unfolding get_vlm_rankings_for_folder
  get_vlm_rankings_for_folder-save_vlm_ranking order_by g t f d o =
      ap (λ js. aggregate js [] []) (o ∙ joined_rows g t f d) ∙ aggregate_all g g.rankings
