-- ===== src/Storage/Rankings/Groups.antt =====
-- The groups that `GetVLMRankingsForFolder` makes of the rows.
use cull_snap.Base.{
  ◌≢◌, ℕ, List, [], ◌∷◌, ◌++◌, Bool, true, false, Option, none, some, if◌then◌else◌, length, ◌≡◌,
  refl, sym, ap, ◌∙◌, inl, inr, Option-cases,
}
use cull_snap.Paths.{Name, same}
use cull_snap.Storage.Tables.{same_refl, same_eq}
use cull_snap.Storage.Rankings.{
  VlmRankingRow, VlmRankingGroupRow, Rankings, Joined, left_join, get_vlm_rankings_for_folder,
  index_of, with_ranking, add_at, aggregate,
}
use cull_snap.Storage.Rankings.Places.{
  group_for, position, step_row, from_rows, position-add_at, position-append, position-append_some,
  ranked_if, group_for-none, group_for-add_at, or_new, group_for-append, group_for-some,
}

module _ {F : Type 0} where
  no_new :
      (c : Bool) (g : VlmRankingGroupRow F)
      → c ≢ true
      → ◌≡◌ {A = Option (VlmRankingGroupRow F)} none (if c then some g else none)
  no_new true g n = absurd (n refl)
  no_new false g n = refl

  -- A row whose label has a group.
  step_known :
      (k : Name) (i : ℕ) (j : Joined F) (gs : List (VlmRankingGroupRow F))
      → position j.0.group_label gs ≡ some i
      → group_for k (add_at i j.1 gs) ≡ step_row k j (group_for k gs)
  step_known k i j gs e =
      group_for-add_at k j.0.group_label i j.1 gs e ∙ same_step (group_for k gs) refl
    where
      same_step :
          (o : Option (VlmRankingGroupRow F))
          → group_for k gs ≡ o
          → ranked_if (same j.0.group_label k) j.1 o ≡ step_row k j o
      same_step none q = no_new (same j.0.group_label k) (with_ranking j.1 j.0) (λ h.
          group_for-some j.0.group_label i gs e
            (ap (λ l. group_for l gs) (same_eq j.0.group_label k h) ∙ q))
      same_step (some g) q = refl

  position-new :
      (g : VlmRankingGroupRow F) (gs : List (VlmRankingGroupRow F))
      → position g.group_label gs ≡ none
      → position g.group_label (gs ++ g ∷ []) ≡ some (length gs)
  position-new g gs e = position-append g.group_label g gs e ∙ rw (same_refl g.group_label) refl

  -- A row whose label has none.
  step_new :
      (k : Name) (j : Joined F) (gs : List (VlmRankingGroupRow F))
      → position j.0.group_label gs ≡ none
      → group_for k (add_at (length gs) j.1 (gs ++ j.0 ∷ [])) ≡ step_row k j (group_for k gs)
  step_new k j gs e =
      group_for-add_at k j.0.group_label (length gs) j.1 (gs ++ j.0 ∷ []) (position-new j.0 gs e)
      ∙ ap (ranked_if (same j.0.group_label k) j.1) (group_for-append k j.0 gs)
      ∙ same_step (same j.0.group_label k) (group_for k gs) refl refl
    where
      same_step :
          (c : Bool) (o : Option (VlmRankingGroupRow F))
          → same j.0.group_label k ≡ c
          → group_for k gs ≡ o
          → ranked_if c j.1 (or_new k j.0 o) ≡ step_row k j o
      same_step true none p q = rw p refl
      same_step false none p q = rw p refl
      same_step true (some g) p q =
          (let z =
              sym q
              ∙ sym (ap (λ l. group_for l gs) (same_eq j.0.group_label k p))
              ∙ group_for-none j.0.group_label gs e in
            cc)
      same_step false (some g) p q = rw p refl

  -- `groupIndex` names the place of each group.
  abbrev Agrees : List (Name × ℕ) → List (VlmRankingGroupRow F) → Type 0
  Agrees index gs = (l : Name) → index_of l index ≡ position l gs

  Agrees-known :
      (index : List (Name × ℕ)) (i : ℕ) (r : Option (VlmRankingRow F))
      (gs : List (VlmRankingGroupRow F))
      → Agrees index gs
      → Agrees index (add_at i r gs)
  Agrees-known index i r gs a l = a l ∙ sym (position-add_at l i r gs)

  Agrees-new :
      (index : List (Name × ℕ)) (j : Joined F) (gs : List (VlmRankingGroupRow F))
      → Agrees index gs
      → position j.0.group_label gs ≡ none
      → Agrees ((j.0.group_label, length gs) ∷ index) (add_at (length gs) j.1 (gs ++ j.0 ∷ []))
  unfolding index_of
  Agrees-new index j gs a e l =
      same_place (same j.0.group_label l) (position l gs) refl refl
      ∙ sym (position-add_at l (length gs) j.1 (gs ++ j.0 ∷ []))
    where
      same_place :
          (c : Bool) (o : Option ℕ)
          → same j.0.group_label l ≡ c
          → position l gs ≡ o
          → (if same j.0.group_label l then some (length gs) else index_of l index)
            ≡ position l (gs ++ j.0 ∷ [])
      same_place true o p q = rw p (
          sym (position-new j.0 gs e)
          ∙ ap (λ n. position n (gs ++ j.0 ∷ [])) (same_eq j.0.group_label l p))
      same_place false none p q = rw p (a l ∙ q ∙ sym (position-append l j.0 gs q ∙ rw p refl))
      same_place false (some i) p q = rw p (a l ∙ q ∙ sym (position-append_some l i j.0 gs q))

  aggregate-from_rows :
      (k : Name) (js : List (Joined F)) (index : List (Name × ℕ)) (gs : List (VlmRankingGroupRow F))
      → Agrees index gs
      → group_for k (aggregate js index gs) ≡ from_rows k js (group_for k gs)
  unfolding aggregate
  aggregate-from_rows k [] index gs a = refl
  aggregate-from_rows k (j ∷ js) index gs a = elim (Option-cases (index_of j.0.group_label index)) [
    | inl e ↦
        (let p = sym (a j.0.group_label) ∙ e in
          let index2 : List (Name × ℕ) = (j.0.group_label, length gs) ∷ index in
          let gs2 = add_at (length gs) j.1 (gs ++ j.0 ∷ []) in
          rw (aggregate, e)
            (aggregate-from_rows k js index2 gs2 (Agrees-new index j gs a p)
              ∙ ap (from_rows k js) (step_new k j gs p)))
    | inr q ↦
        (let p = sym (a j.0.group_label) ∙ q.1 in
          rw (aggregate, q.1)
            (aggregate-from_rows k js index (add_at q.0 j.1 gs) (Agrees-known index q.0 j.1 gs a)
              ∙ ap (from_rows k js) (step_known k q.0 j gs p)))
  ]

  -- For each label, what GetVLMRankingsForFolder returns is exactly what the rows of the join say, in
  -- their order: no group if no row has the label, and else the group of the first such row with the
  -- rankings of all of them.
  pub get_vlm_rankings_for_folder-groups :
      (order_by : List (Joined F) → List (Joined F)) (folder k : Name) (t : Rankings F)
      → group_for k (get_vlm_rankings_for_folder order_by folder t)
        ≡ from_rows k (order_by (left_join folder t.groups t.ranked)) none
  unfolding get_vlm_rankings_for_folder position index_of group_for
  get_vlm_rankings_for_folder-groups order_by folder k t =
      aggregate-from_rows k (order_by (left_join folder t.groups t.ranked)) [] [] (λ l. refl)
