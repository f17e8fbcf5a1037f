-- ===== src/Dedupe/Whole.antt =====
-- `FindDuplicates` as a whole: the marks of the unique photos, and the partition that it returns.
use mathlib.Core.Path.{subst}
use cull_snap.Base.{
  if_elim, ◌∙◌, ◌++◌, [], ℕ, ◌+◌, List, ◌∷◌, Bool, true, false, Option, none, some, map, ◌≡◌, refl,
  All, ap,
}
use mathlib.Core.List.{append-nil, Perm}
use mathlib.Core.List.Perm
use cull_snap.Paths.{Name}
use cull_snap.Dedupe.Groups.{
  PhotoInfo, Group, near, mark, shared, hash_photos, find_duplicates, Entry, discover, added,
  grouped, finished,
}
use cull_snap.Dedupe.Sound.{
  paths, Tested, IsGroup, IsFar, Apart, Holds, with_hash, hashed, group_photos-Holds,
}

module _ {H : Type 0} where
  -- The names that have a hash.
  abbrev pub hashable : (Name → Option H) → List Name → List Name
  hashable hash [] = []
  hashable hash (x ∷ xs) = with_hash x (hash x) (hashable hash xs)

  abbrev pub is_single : Group H → Bool
  is_single (p ∷ []) = true
  is_single _ = false

  abbrev pub IsMarked : Group H → Type 0
  IsMarked g = All (λ p. p.is_unique ≡ is_single g) g

  shared_flags : (ps : Group H) → All (λ p. p.is_unique ≡ false) (map shared ps)
  shared_flags [] = tt
  shared_flags (p ∷ ps) = (refl, shared_flags ps)

  mark-IsMarked : (g : Group H) → IsMarked (mark g)
  unfolding mark
  mark-IsMarked [] = tt
  mark-IsMarked (p ∷ []) = (refl, tt)
  mark-IsMarked (p ∷ q ∷ qs) = shared_flags (p ∷ q ∷ qs)

  All-IsMarked : (gs : List (Group H)) → All IsMarked (map mark gs)
  All-IsMarked [] = tt
  All-IsMarked (g ∷ gs) = (mark-IsMarked g, All-IsMarked gs)

  shared-All :
      (P Q : PhotoInfo H → Type 0) (ps : Group H)
      → ((p : PhotoInfo H) → P p → Q (shared p))
      → All P ps
      → All Q (map shared ps)
  shared-All P Q [] f a = tt
  shared-All P Q (p ∷ ps) f a = (f p a.0, shared-All P Q ps f a.1)

  shared_paths : (ps : Group H) → map (λ p. p.path) (map shared ps) ≡ map (λ p. p.path) ps
  shared_paths [] = refl
  shared_paths (p ∷ ps) = ap (◌∷◌ p.path) (shared_paths ps)

  mark_paths : (g : Group H) → map (λ p. p.path) (mark g) ≡ map (λ p. p.path) g
  unfolding mark
  mark_paths [] = refl
  mark_paths (p ∷ []) = refl
  mark_paths (p ∷ q ∷ qs) = shared_paths (p ∷ q ∷ qs)

  marked_paths : (gs : List (Group H)) → paths (map mark gs) ≡ paths gs
  marked_paths [] = refl
  marked_paths (g ∷ gs) = rw (mark_paths g, marked_paths gs) refl

  module _ (distance : H → Option H → Option ℕ) (threshold : ℕ) where
    mark-IsGroup :
        (g : Group H) → IsGroup distance threshold g → IsGroup distance threshold (mark g)
    unfolding mark near
    mark-IsGroup [] v = v
    mark-IsGroup (q ∷ []) v = v
    mark-IsGroup (q ∷ p ∷ ps) v = (
      shared-All (λ r. Tested distance threshold true r q)
          (λ r. Tested distance threshold true r (shared q)) (p ∷ ps) (λ r t. t) v.0,
      shared-All (λ r. r.group_id ≡ q.path) (λ r. r.group_id ≡ q.path) (q ∷ p ∷ ps) (λ r t. t) v.1,
    )

    marked-IsGroup :
        (gs : List (Group H))
        → All (IsGroup distance threshold) gs
        → All (IsGroup distance threshold) (map mark gs)
    marked-IsGroup [] a = tt
    marked-IsGroup (g ∷ gs) a = (mark-IsGroup g a.0, marked-IsGroup gs a.1)

    mark-IsFar :
        (q r : PhotoInfo H) (gs : List (Group H))
        → ((p : PhotoInfo H)
            → Tested distance threshold false p q
            → Tested distance threshold false p r)
        → All (IsFar distance threshold q) gs
        → All (IsFar distance threshold r) (map mark gs)
    unfolding mark
    mark-IsFar q r [] f a = tt
    mark-IsFar q r ([] ∷ gs) f a = (tt, mark-IsFar q r gs f a.1)
    mark-IsFar q r ((p ∷ []) ∷ gs) f a = (f p a.0, mark-IsFar q r gs f a.1)
    mark-IsFar q r ((p ∷ s ∷ ss) ∷ gs) f a = (f p a.0, mark-IsFar q r gs f a.1)

    marked-Apart :
        (gs : List (Group H)) → Apart distance threshold gs → Apart distance threshold (map mark gs)
    unfolding mark near
    marked-Apart [] a = tt
    marked-Apart ([] ∷ gs) a = marked-Apart gs a
    marked-Apart ((p ∷ []) ∷ gs) a =
        (mark-IsFar p (record p { is_unique = true }) gs (λ r t. t) a.0, marked-Apart gs a.1)
    marked-Apart ((p ∷ q ∷ qs) ∷ gs) a =
        (mark-IsFar p (shared p) gs (λ r t. t) a.0, marked-Apart gs a.1)

  added-hashed :
      (x : Name) (h : Option H) (o : Option (List (PhotoInfo H))) (names : List Name)
      {ps : List (PhotoInfo H)}
      → ((qs : List (PhotoInfo H)) → o ≡ some qs → hashed qs ≡ names)
      → added x h o ≡ some ps
      → hashed ps ≡ with_hash x h names
  added-hashed x h none names f e = cc
  added-hashed x h (some qs) names {ps} f e =
      let same_photos : record {
        path = x;
        hash = h;
        is_unique = false;
        group_id = [];
        date_taken = none;
      }
            ∷ qs
          ≡ ps =
        cc in
      rw⁻¹ same_photos (ap (with_hash x h) (f qs refl))

  hash_photos-hashed :
      (done : ℕ → Bool) (hash : Name → Option H) (i : ℕ) (xs : List Name) {ps : List (PhotoInfo H)}
      → hash_photos done hash i xs ≡ some ps
      → hashed ps ≡ hashable hash xs
  unfolding hash_photos
  hash_photos-hashed done hash i [] {ps} e = let empty : [] ≡ ps = cc in rw⁻¹ empty refl
  hash_photos-hashed done hash i (x ∷ xs) {ps} e =
      if_elim (λ z. z ≡ some ps → hashed ps ≡ hashable hash (x ∷ xs)) (done i)
        (λ c q. absurd (let z : none ≡ some ps = q in cc))
        (λ c q.
          added-hashed x (hash x) (hash_photos done hash (i + 1) xs) (hashable hash xs)
            (λ qs d. hash_photos-hashed done hash (i + 1) xs d) q)
        e

  -- What `FindDuplicates` promises of its result: the groups of similar photos, apart from each
  -- other, the flags of the photos that are alone, and the images that have a hash, each in one
  -- group.
  pub record Partition (distance : H → Option H → Option ℕ) (threshold : ℕ) (hash : Name → Option H)
      (entries : List Entry) (gs : List (Group H)) : Type 0 where
    pub groups : All (IsGroup distance threshold) gs
    pub apart : Apart distance threshold gs
    pub marked : All IsMarked gs
    pub members : Perm (paths gs) (hashable hash (discover entries))

  partitioned :
      (distance : H → Option H → Option ℕ) (threshold : ℕ) (done : ℕ → Bool)
      (hash : Name → Option H) (entries : List Entry) (o : Option (List (PhotoInfo H)))
      → ((ps : List (PhotoInfo H)) → o ≡ some ps → hashed ps ≡ hashable hash (discover entries))
      → (r : Option (List (Group H))) → grouped distance threshold done o ≡ r
      → {gs : List (Group H)} → finished r ≡ some gs
      → Partition distance threshold hash entries gs
  partitioned distance threshold done hash entries none f none e {gs} q = cc
  partitioned distance threshold done hash entries none f (some raw) e {gs} q = cc
  partitioned distance threshold done hash entries (some ps) f none e {gs} q = cc
  partitioned distance threshold done hash entries (some ps) f (some raw) e {gs} q =
      let start : Holds {H = H} distance threshold [] [] = record {
        groups = tt;
        apart = tt;
        members = Perm.refl [];
      } in
      let held = group_photos-Holds distance threshold done 0 ps [] [] e start in
      let names : hashed ps ++ [] ≡ hashable hash (discover entries) =
        append-nil (hashed ps) ∙ f ps refl in
      let same_groups : map mark raw ≡ gs = cc in
      subst (λ z. Partition distance threshold hash entries z) same_groups
        (record {
          groups = marked-IsGroup distance threshold raw held.groups;
          apart = marked-Apart distance threshold raw held.apart;
          marked = All-IsMarked raw;
          members = rw (marked_paths raw) (subst (λ z. Perm (paths raw) z) names held.members);
        })

-- If FindDuplicates returns groups, then every image of the walk that has a hash is in one of them,
-- once, and no other photo is; each photo is near the first of its group, whose path is its group's
-- name; no first photo is near the first photo of an earlier group; and a photo is marked unique
-- exactly when it is alone in its group. The distance and the hashes are any functions.
pub find_duplicates-Partitions :
    {H : Type 0} (distance : H → Option H → Option ℕ) (threshold : ℕ)
    (done_hash done_group : ℕ → Bool) (hash : Name → Option H) (entries : List Entry)
    {gs : List (Group H)}
    → find_duplicates distance threshold done_hash done_group hash entries ≡ some gs
    → Partition distance threshold hash entries gs
unfolding find_duplicates
find_duplicates-Partitions distance threshold done_hash done_group hash entries {gs} e =
    partitioned distance threshold done_group hash entries
      (hash_photos done_hash hash 0 (discover entries))
      (λ ps d. hash_photos-hashed done_hash hash 0 (discover entries) d) _ refl e
