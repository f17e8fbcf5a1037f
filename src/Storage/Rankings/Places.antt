-- ===== src/Storage/Rankings/Places.antt =====
-- The places of the groups of rankings by their labels.
use cull_snap.Base.{
  ◌≢◌, ℕ, zero, suc, List, [], ◌∷◌, ◌++◌, Bool, true, false, Option, none, some, if◌then◌else◌,
  length, ◌≡◌, refl, sym, arith, ap, ◌∙◌,
}
use cull_snap.Paths.{Name, same}
use cull_snap.Storage.Tables.{same_sym, same_left}
use cull_snap.Storage.Rankings.{VlmRankingRow, VlmRankingGroupRow, Joined, with_ranking, add_at}

abbrev pub one_more : Option ℕ → Option ℕ
one_more none = none
one_more (some i) = some (suc i)

module _ {F : Type 0} where
  unfoldable pub position : Name → List (VlmRankingGroupRow F) → Option ℕ
  position k [] = none
  position k (g ∷ gs) =
      let rest = position k gs in if same g.group_label k then some 0 else one_more rest

  -- The first group with a label.
  unfoldable pub group_for : Name → List (VlmRankingGroupRow F) → Option (VlmRankingGroupRow F)
  group_for k [] = none
  group_for k (g ∷ gs) = if same g.group_label k then some g else group_for k gs

  -- What the rows say of one label: the first row names the group, and each further row adds its
  -- ranking, if it has one.
  abbrev pub step_row :
      Name → Joined F → Option (VlmRankingGroupRow F) → Option (VlmRankingGroupRow F)
  step_row k j none = if same j.0.group_label k then some (with_ranking j.1 j.0) else none
  step_row k j (some g) = some (if same j.0.group_label k then with_ranking j.1 g else g)

  abbrev pub from_rows :
      Name → List (Joined F) → Option (VlmRankingGroupRow F) → Option (VlmRankingGroupRow F)
  from_rows k [] o = o
  from_rows k (j ∷ js) o = from_rows k js (step_row k j o)

  label_kept :
      (r : Option (VlmRankingRow F)) (g : VlmRankingGroupRow F)
      → (with_ranking r g).group_label ≡ g.group_label
  label_kept none g = refl
  label_kept (some r) g = refl

  pub position-add_at :
      (k : Name) (i : ℕ) (r : Option (VlmRankingRow F)) (gs : List (VlmRankingGroupRow F))
      → position k (add_at i r gs) ≡ position k gs
  unfolding add_at position
  position-add_at k i r [] = refl
  position-add_at k zero r (g ∷ gs) = rw (label_kept r g) refl
  position-add_at k (suc i) r (g ∷ gs) = rw (position-add_at k i r gs) refl

  pub position-append :
      (k : Name) (g : VlmRankingGroupRow F) (gs : List (VlmRankingGroupRow F))
      → position k gs ≡ none
      → position k (gs ++ g ∷ []) ≡ (if same g.group_label k then some (length gs) else none)
  unfolding position
  position-append k g [] e = refl
  position-append k g (x ∷ xs) e = ground (arith, position-append k g xs)

  -- A group that is there keeps its place.
  pub position-append_some :
      (k : Name) (i : ℕ) (g : VlmRankingGroupRow F) (gs : List (VlmRankingGroupRow F))
      → position k gs ≡ some i
      → position k (gs ++ g ∷ []) ≡ some i
  unfolding position
  position-append_some k i g [] e = cc
  position-append_some k i g (x ∷ xs) e =
      later (same x.group_label k) (position k xs) e (λ n q. position-append_some k n g xs q)
    where
      later :
          (c : Bool) (o : Option ℕ)
          → (if c then some 0 else one_more o) ≡ some i
          → ((n : ℕ) → o ≡ some n → position k (xs ++ g ∷ []) ≡ some n)
          → (if c then some 0 else one_more (position k (xs ++ g ∷ []))) ≡ some i
      later true o q h = q
      later false none q h = cc
      later false (some n) q h = rw (h n refl) q

  abbrev pub ranked_if :
      Bool
      → Option (VlmRankingRow F)
      → Option (VlmRankingGroupRow F)
      → Option (VlmRankingGroupRow F)
  ranked_if c r none = none
  ranked_if c r (some g) = some (if c then with_ranking r g else g)

  pub group_for-none :
      (k : Name) (gs : List (VlmRankingGroupRow F)) → position k gs ≡ none → group_for k gs ≡ none
  unfolding position group_for
  group_for-none k [] e = refl
  group_for-none k (g ∷ gs) e =
      later (same g.group_label k) (position k gs) e (λ q. group_for-none k gs q)
    where
      later :
          (c : Bool) (o : Option ℕ)
          → (if c then some 0 else one_more o) ≡ none
          → (o ≡ none → group_for k gs ≡ none)
          → (if c then some g else group_for k gs) ≡ none
      later true o q h = cc
      later false none q h = h refl
      later false (some n) q h = cc

  not_ranked :
      (r : Option (VlmRankingRow F)) (o : Option (VlmRankingGroupRow F)) → o ≡ ranked_if false r o
  not_ranked r none = refl
  not_ranked r (some g) = refl

  ranked_first :
      (c : Bool) (r : Option (VlmRankingRow F)) (g : VlmRankingGroupRow F)
      (o : Option (VlmRankingGroupRow F))
      → (if c then some (with_ranking r g) else o) ≡ ranked_if c r (if c then some g else o)
  ranked_first true r g o = refl
  ranked_first false r g o = not_ranked r o

  ranked_later :
      (c d : Bool) (r : Option (VlmRankingRow F)) (g : VlmRankingGroupRow F)
      (o : Option (VlmRankingGroupRow F))
      → (c ≡ true → d ≡ false)
      → (if c then some g else ranked_if d r o) ≡ ranked_if d r (if c then some g else o)
  ranked_later true d r g o h = let e = h refl in rw e refl
  ranked_later false d r g o h = refl

  -- The ranking goes to the first group with the label at that place.
  pub group_for-add_at :
      (k l : Name) (i : ℕ) (r : Option (VlmRankingRow F)) (gs : List (VlmRankingGroupRow F))
      → position l gs ≡ some i
      → group_for k (add_at i r gs) ≡ ranked_if (same l k) r (group_for k gs)
  unfolding position group_for add_at
  group_for-add_at k l i r [] e = cc
  group_for-add_at k l i r (g ∷ gs) e =
      later (same g.group_label l) (position l gs) i refl e (λ n q. group_for-add_at k l n r gs q)
    where
      apart : same g.group_label l ≡ false → same g.group_label k ≡ true → same l k ≡ false
      apart q h = same_sym l k ∙ sym (same_left g.group_label k l h) ∙ q

      later :
          (c : Bool) (o : Option ℕ) (j : ℕ)
          → same g.group_label l ≡ c
          → (if c then some 0 else one_more o) ≡ some j
          → ((n : ℕ)
              → o ≡ some n
              → group_for k (add_at n r gs) ≡ ranked_if (same l k) r (group_for k gs))
          → group_for k (add_at j r (g ∷ gs))
            ≡ ranked_if (same l k) r (if same g.group_label k then some g else group_for k gs)
      later true o zero q h next =
          rw (label_kept r g, same_left g.group_label l k q)
            (ranked_first (same l k) r g (group_for k gs))
      later true o (suc j) q h next = cc
      later false none j q h next = cc
      later false (some n) zero q h next = cc
      later false (some n) (suc j) q h next =
          let e : n ≡ j = cc in
          rw (next j (ap some e))
            (ranked_later (same g.group_label k) (same l k) r g (group_for k gs) (apart q))

  abbrev pub or_new :
      Name → VlmRankingGroupRow F → Option (VlmRankingGroupRow F) → Option (VlmRankingGroupRow F)
  or_new k g none = if same g.group_label k then some g else none
  or_new k g (some x) = some x

  pub group_for-append :
      (k : Name) (g : VlmRankingGroupRow F) (gs : List (VlmRankingGroupRow F))
      → group_for k (gs ++ g ∷ []) ≡ or_new k g (group_for k gs)
  unfolding group_for
  group_for-append k g [] = refl
  group_for-append k g (x ∷ xs) = rw (group_for-append k g xs) (pull (same x.group_label k))
    where
      pull :
          (c : Bool)
          → (if c then some x else or_new k g (group_for k xs))
            ≡ or_new k g (if c then some x else group_for k xs)
      pull true = refl
      pull false = refl

  pub group_for-some :
      (k : Name) (i : ℕ) (gs : List (VlmRankingGroupRow F))
      → position k gs ≡ some i
      → group_for k gs ≢ none
  unfolding position group_for
  group_for-some k i [] e = λ q. cc
  group_for-some k i (g ∷ gs) e =
      later (same g.group_label k) (position k gs) e (λ n q. group_for-some k n gs q)
    where
      later :
          (c : Bool) (o : Option ℕ)
          → (if c then some 0 else one_more o) ≡ some i
          → ((n : ℕ) → o ≡ some n → group_for k gs ≢ none)
          → (if c then some g else group_for k gs) ≢ none
      later true o q h = λ z. cc
      later false none q h = λ z. cc
      later false (some n) q h = h n refl
