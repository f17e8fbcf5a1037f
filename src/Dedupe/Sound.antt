-- ===== src/Dedupe/Sound.antt =====
-- What holds of the groups that `FindDuplicates` returns.
use mathlib.Core.Path.{subst}
use cull_snap.Base.{
  if_elim, ◌+◌, none, ℕ, List, [], ◌∷◌, ◌++◌, Bool, true, false, Option, some, map, ◌≡◌, refl, All,
  All-append, ap,
}
use mathlib.Core.List.{Perm, perm_middle}
use mathlib.Core.List.Perm
use cull_snap.Paths.{Name}
use cull_snap.Dedupe.Groups.{PhotoInfo, Group, near, place, place_hashed, group_photos}

module _ {H : Type 0} where
  -- The paths in the groups.
  abbrev pub paths : List (Group H) → List Name
  paths [] = []
  paths (g ∷ gs) = map (λ p. p.path) g ++ paths gs

  paths_added :
      (qs : Group H) (a : PhotoInfo H) (rest : List Name)
      → map (λ p. p.path) (qs ++ a ∷ []) ++ rest ≡ map (λ p. p.path) qs ++ a.path ∷ rest
  paths_added [] a rest = refl
  paths_added (q ∷ qs) a rest = ap (◌∷◌ q.path) (paths_added qs a rest)

  abbrev pub with_hash : Name → Option H → List Name → List Name
  with_hash x none rest = rest
  with_hash x (some h) rest = x ∷ rest

  -- The paths of the photos that have a hash.
  abbrev pub hashed : List (PhotoInfo H) → List Name
  hashed [] = []
  hashed (p ∷ ps) = with_hash p.path p.hash (hashed ps)

  with_hash_swap :
      (p : PhotoInfo H) (o : Option H) (xs ys : List Name)
      → Perm (xs ++ with_hash p.path o ys) (with_hash p.path o xs ++ ys)
  with_hash_swap p none xs ys = Perm.refl (xs ++ ys)
  with_hash_swap p (some h) xs ys = perm_middle xs ys

  module _ (distance : H → Option H → Option ℕ) (threshold : ℕ) where
    -- The test of the photo `p` against the photo `q` has the result `b`.
    abbrev pub Tested : Bool → PhotoInfo H → PhotoInfo H → Type 0
    Tested b p q = (h : H) × (p.hash ≡ some h) × (near distance threshold h (q ∷ []) ≡ b)

    -- Every photo but the first is near the first, whose path names the group.
    abbrev pub IsGroup : Group H → Type 0
    IsGroup [] = ⊥
    IsGroup (q ∷ qs) = All (λ p. Tested true p q) qs × All (λ p. p.group_id ≡ q.path) (q ∷ qs)

    -- The first photo of a group is not near `q`.
    abbrev pub IsFar : PhotoInfo H → Group H → Type 0
    IsFar q [] = Unit
    IsFar q (p ∷ ps) = Tested false p q

    -- No group's first photo is near the first photo of an earlier group.
    abbrev pub Apart : List (Group H) → Type 0
    Apart [] = Unit
    Apart ([] ∷ gs) = Apart gs
    Apart ((q ∷ qs) ∷ gs) = All (IsFar q) gs × Apart gs

    place-IsGroup :
        (p : PhotoInfo H) (h : H) (gs : List (Group H))
        → p.hash ≡ some h
        → All IsGroup gs
        → All IsGroup (place distance threshold p h gs)
    unfolding place near
    place-IsGroup p h [] e a = ((tt, (refl, tt)), tt)
    place-IsGroup p h ([] ∷ gs) e a = absurd a.0
    place-IsGroup p h ((q ∷ qs) ∷ gs) e a =
        if_elim (All IsGroup) (near distance threshold h (q ∷ qs))
          (λ n. (
            (
              All-append (λ p. Tested true p q) qs (record p { group_id = q.path } ∷ []) a.0.0
                  ((h, e, n), tt),
              (
                a.0.1.0,
                All-append (λ p. p.group_id ≡ q.path) qs (record p { group_id = q.path } ∷ [])
                    a.0.1.1 (refl, tt),
              ),
            ),
            a.1,
          ))
          (λ n. (a.0, place-IsGroup p h gs e a.1))

    place-IsFar :
        (q p : PhotoInfo H) (h : H) (gs : List (Group H))
        → Tested false p q
        → p.hash ≡ some h
        → All (IsFar q) gs
        → All (IsFar q) (place distance threshold p h gs)
    unfolding place near
    place-IsFar q p h [] t e a = (t, tt)
    place-IsFar q p h ([] ∷ gs) t e a = (a.0, place-IsFar q p h gs t e a.1)
    place-IsFar q p h ((r ∷ rs) ∷ gs) t e a =
        if_elim (All (IsFar q)) (near distance threshold h (r ∷ rs)) (λ n. a)
          (λ n. (a.0, place-IsFar q p h gs t e a.1))

    place-Apart :
        (p : PhotoInfo H) (h : H) (gs : List (Group H))
        → p.hash ≡ some h
        → Apart gs
        → Apart (place distance threshold p h gs)
    unfolding place near
    place-Apart p h [] e a = (tt, tt)
    place-Apart p h ([] ∷ gs) e a = place-Apart p h gs e a
    place-Apart p h ((q ∷ qs) ∷ gs) e a =
        if_elim Apart (near distance threshold h (q ∷ qs)) (λ n. a)
          (λ n. (place-IsFar q p h gs (h, e, n) e a.0, place-Apart p h gs e a.1))

    place-Perm :
        (p : PhotoInfo H) (h : H) (gs : List (Group H))
        → Perm (paths (place distance threshold p h gs)) (p.path ∷ paths gs)
    unfolding place near
    place-Perm p h [] = Perm.refl _
    place-Perm p h ([] ∷ gs) = place-Perm p h gs
    place-Perm p h ((q ∷ qs) ∷ gs) =
        if_elim (λ r. Perm (paths r) (p.path ∷ paths ((q ∷ qs) ∷ gs)))
          (near distance threshold h (q ∷ qs))
          (λ n.
            rw (paths_added qs (record p { group_id = q.path }) (paths gs))
              (perm_middle (map (λ p. p.path) (q ∷ qs)) (paths gs)))
          (λ n.
            Perm.trans (Perm.append (Perm.refl (map (λ p. p.path) (q ∷ qs))) (place-Perm p h gs))
              (perm_middle (map (λ p. p.path) (q ∷ qs)) (paths gs)))

    -- The invariant of the loop: groups of similar photos, apart from each other, which hold the
    -- photos `seen`.
    pub record Holds (gs : List (Group H)) (seen : List Name) : Type 0 where
      pub groups : All IsGroup gs
      pub apart : Apart gs
      pub members : Perm (paths gs) seen

    place_hashed-Holds :
        (p : PhotoInfo H) (o : Option H) (gs : List (Group H)) (seen : List Name)
        → p.hash ≡ o
        → Holds gs seen
        → Holds (place_hashed distance threshold p o gs) (with_hash p.path o seen)
    place_hashed-Holds p none gs seen e v = v
    place_hashed-Holds p (some h) gs seen e v = record {
      groups = place-IsGroup p h gs e v.groups;
      apart = place-Apart p h gs e v.apart;
      members = Perm.trans (place-Perm p h gs) (Perm.cons p.path v.members);
    }

    moved : (gs : List (Group H)) (xs ys : List Name) → Perm xs ys → Holds gs xs → Holds gs ys
    moved gs xs ys p v = record {
      groups = v.groups;
      apart = v.apart;
      members = Perm.trans v.members p;
    }

    pub group_photos-Holds :
        (done : ℕ → Bool) (i : ℕ) (ps : List (PhotoInfo H)) (gs : List (Group H)) (seen : List Name)
        {r : List (Group H)}
        → group_photos distance threshold done i ps gs ≡ some r
        → Holds gs seen
        → Holds r (hashed ps ++ seen)
    unfolding group_photos
    group_photos-Holds done i [] gs seen {r} e v =
        let same_groups : gs ≡ r = cc in subst (λ z. Holds z seen) same_groups v
    group_photos-Holds done i (p ∷ ps) gs seen {r} e v =
        if_elim (λ z. z ≡ some r → Holds r (hashed (p ∷ ps) ++ seen)) (done i)
          (λ c q. absurd (let z : none ≡ some r = q in cc))
          (λ c q.
            moved r (hashed ps ++ with_hash p.path p.hash seen) (hashed (p ∷ ps) ++ seen)
              (with_hash_swap p p.hash (hashed ps) seen)
              (group_photos-Holds done (i + 1) ps (place_hashed distance threshold p p.hash gs)
                (with_hash p.path p.hash seen) q (place_hashed-Holds p p.hash gs seen refl v)))
          e
