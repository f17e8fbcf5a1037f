-- ===== src/Dedupe/Dates.antt =====
-- internal/dedupe/sorter.go: `SortGroupsByDate`. The cache of dates, the EXIF date of a file and
-- `sort.Slice` are arguments; a time is a number, and a date that is not valid is `none`.
use cull_snap.Base.{
  ◌≢◌, refl, suc, ℕ, List, [], ◌∷◌, Bool, true, false, ◌&&◌, ◌||◌, ltb, ◌==◌, Option, none, some,
  if◌then◌else◌, map, ◌≡◌, arith,
}
use cull_snap.Paths.{Name}
use cull_snap.Dedupe.Groups.{Group}

-- `GroupMeta`
pub record GroupMeta (H : Type 0) : Type 0 where
  pub group : Group H
  pub date : Option ℕ

-- Go's `<` on strings.
unfoldable pub name_lt : Name → Name → Bool
name_lt [] [] = false
name_lt [] (y ∷ ys) = true
name_lt (x ∷ xs) [] = false
name_lt (x ∷ xs) (y ∷ ys) = ltb x y || (x == y && name_lt xs ys)

abbrev pub cached : Option ℕ → Option ℕ → Option ℕ
cached (some d) extracted = some d
cached none extracted = extracted

abbrev pub date_of : (Name → Option ℕ) → (Name → Option ℕ) → Name → Option ℕ
date_of date_cache extract [] = none
date_of date_cache extract (c ∷ cs) = cached (date_cache (c ∷ cs)) (extract (c ∷ cs))

less_dates : Option ℕ → Option ℕ → Bool → Bool
less_dates (some d) (some e) otherwise = ltb d e
less_dates (some d) none otherwise = true
less_dates none (some e) otherwise = false
less_dates none none otherwise = otherwise

name_lt_asym : (x y : Name) → name_lt x y ≡ true → name_lt y x ≡ false
unfolding name_lt
name_lt_asym [] [] e = cc
name_lt_asym [] (y ∷ ys) e = refl
name_lt_asym (x ∷ xs) [] e = cc
name_lt_asym (x ∷ xs) (y ∷ ys) e = ground (arith, name_lt_asym xs ys)

name_lt_trans : (x y z : Name) → name_lt x y ≡ false → name_lt y z ≡ false → name_lt x z ≡ false
unfolding name_lt
name_lt_trans [] [] z d e = e
name_lt_trans [] (y ∷ ys) z d e = cc
name_lt_trans (x ∷ xs) y [] d e = refl
name_lt_trans (x ∷ xs) [] (z ∷ zs) d e = cc
name_lt_trans (x ∷ xs) (y ∷ ys) (z ∷ zs) d e = ground (arith, name_lt_trans xs ys zs)

module _ {H : Type 0} where
  -- The path of the first unique photo, or the given one.
  unfoldable pub unique_or : Name → Group H → Name
  unique_or first [] = first
  unique_or first (p ∷ ps) = let rest = unique_or first ps in if p.is_unique then p.path else rest

  unfoldable pub representative : Group H → Name
  unfolding unique_or
  representative [] = []
  representative (p ∷ ps) = unique_or p.path (p ∷ ps)

  unfoldable pub meta : (Name → Option ℕ) → (Name → Option ℕ) → Group H → GroupMeta H
  unfolding representative
  meta date_cache extract g = record {
    group = g;
    date = date_of date_cache extract (representative g);
  }

  -- The comparison of two groups without a date.
  less_paths : Group H → Group H → Bool
  less_paths [] h = false
  less_paths (p ∷ ps) [] = false
  less_paths (p ∷ ps) (q ∷ qs) = name_lt p.path q.path

  -- The function that `sort.Slice` is given.
  unfoldable pub less : GroupMeta H → GroupMeta H → Bool
  unfolding less_dates less_paths
  less m n = less_dates m.date n.date (less_paths m.group n.group)

  -- `none` if the context is cancelled before the i-th group.
  unfoldable pub metas :
      (ℕ → Bool)
      → (Name → Option ℕ)
      → (Name → Option ℕ)
      → ℕ
      → List (Group H)
      → Option (List (GroupMeta H))
  metas done date_cache extract i [] = some []
  metas done date_cache extract i (g ∷ gs) =
      let rest = metas done date_cache extract (suc i) gs in
      if done i
      then none
      else elim rest [ none ↦ none | some ms ↦ some (meta date_cache extract g ∷ ms) ]

  unfoldable pub sort_groups_by_date :
      ((GroupMeta H → GroupMeta H → Bool) → List (GroupMeta H) → List (GroupMeta H))
      → (ℕ → Bool)
      → (Name → Option ℕ)
      → (Name → Option ℕ)
      → List (Group H)
      → Option (List (Group H))
  sort_groups_by_date sort done date_cache extract gs = elim (metas done date_cache extract 0 gs) [
    | none ↦ none
    | some ms ↦ some (map (λ m. m.group) (sort less ms))
  ]

  less_paths_asym : (g h : Group H) → less_paths g h ≡ true → less_paths h g ≡ false
  unfolding less_paths
  less_paths_asym [] h e = cc
  less_paths_asym (p ∷ ps) [] e = cc
  less_paths_asym (p ∷ ps) (q ∷ qs) e = name_lt_asym p.path q.path e

  less_paths_trans :
      (g h k : Group H)
      → h ≢ []
      → less_paths g h ≡ false
      → less_paths h k ≡ false
      → less_paths g k ≡ false
  unfolding less_paths
  less_paths_trans [] h k n d e = refl
  less_paths_trans (p ∷ ps) h [] n d e = refl
  less_paths_trans (p ∷ ps) [] (r ∷ rs) n d e = absurd (n refl)
  less_paths_trans (p ∷ ps) (q ∷ qs) (r ∷ rs) n d e = name_lt_trans p.path q.path r.path d e

-- The comparison that SortGroupsByDate sorts by is a strict weak order on groups that are not
-- empty: of two groups, one at most is less than the other; if a is not less than b and b is not
-- less than c, a is not less than c; and a group with a date is less than every group without one.
pub less-IsOrder :
    {H : Type 0} (a b c : GroupMeta H)
    → b.group ≢ []
    → (less a b ≡ true → less b a ≡ false)
      × (less a b ≡ false → less b c ≡ false → less a c ≡ false)
      × (a.date ≢ none → b.date ≡ none → less a b ≡ true)
unfolding less
less-IsOrder a b c n = (asym a.date b.date, trans a.date b.date c.date, dated a.date b.date)
  where
    asym :
        (x y : Option ℕ)
        → less_dates x y (less_paths a.group b.group) ≡ true
        → less_dates y x (less_paths b.group a.group) ≡ false
    asym (some x) (some y) e = unfold less_dates in ground arith
    asym (some x) none e = unfold less_dates in refl
    asym none (some y) e = unfold less_dates in cc
    asym none none e = unfold less_dates in less_paths_asym a.group b.group e

    trans :
        (x y z : Option ℕ)
        → less_dates x y (less_paths a.group b.group) ≡ false
        → less_dates y z (less_paths b.group c.group) ≡ false
        → less_dates x z (less_paths a.group c.group) ≡ false
    trans (some x) (some y) (some z) d e = unfold less_dates in ground arith
    trans (some x) none z d e = unfold less_dates in cc
    trans (some x) (some y) none d e = unfold less_dates in cc
    trans none y (some z) d e = unfold less_dates in refl
    trans none (some y) none d e = unfold less_dates in cc
    trans none none none d e = unfold less_dates in less_paths_trans a.group b.group c.group n d e

    dated :
        (x y : Option ℕ) → x ≢ none → y ≡ none → less_dates x y (less_paths a.group b.group) ≡ true
    dated none y d e = absurd (d refl)
    dated (some x) none d e = unfold less_dates in refl
    dated (some x) (some y) d e = cc
