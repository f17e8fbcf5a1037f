-- ===== src/App/Duplicates/Follows.antt =====
-- The paths of the photos, from the groups to the result of the search for duplicates.
use mathlib.Core.Path.{subst}
use mathlib.Core.List.{map-append}
use cull_snap.Base.{
  ℕ, suc, List, [], ◌∷◌, ◌++◌, Bool, true, false, Option, none, some, map, ◌≡◌, refl, sym, ◌∙◌, ap,
  All, All-append, Bool-cases, ◌⊎◌, inl, inr, if◌then◌else◌,
}
use cull_snap.Paths.{Name}
use cull_snap.Dedupe.Groups.{PhotoInfo, Group}
use cull_snap.Dedupe.Mover.{
  System, Moving, relocate_photos, relocate_group_duplicates, move_duplicate, MoveError, at_path,
  with_error, new_path,
}
use cull_snap.App.Duplicates.{
  Search, Photo, photo_model, split_group, put_group, build_result, polled,
}

-- Each path of the second list is that of the first, or the one to which the mover moves it.
abbrev pub Moved : List Name → List Name → Type 0
Moved [] [] = Unit
Moved [] (q ∷ qs) = ⊥
Moved (p ∷ ps) [] = ⊥
Moved (p ∷ ps) (q ∷ qs) = ((q ≡ p) ⊎ (q ≡ new_path p)) × Moved ps qs

Moved-append : (xs bs cs ds : List Name) → Moved xs bs → Moved cs ds → Moved (xs ++ cs) (bs ++ ds)
Moved-append [] [] cs ds m n = n
Moved-append [] (b ∷ bs) cs ds m n = absurd m
Moved-append (a ∷ xs) [] cs ds m n = absurd m
Moved-append (a ∷ xs) (b ∷ bs) cs ds m n = (m.0, Moved-append xs bs cs ds m.1 n)

abbrev pub joined : {A : Type 0} → List (List A) → List A
joined [] = []
joined (xs ∷ xss) = xs ++ joined xss

module _ {H : Type 0} where
  -- The paths of the photos of a group that are marked, and of the others.
  abbrev pub paths_with : Bool → Group H → List Name
  paths_with b [] = []
  paths_with true (p ∷ ps) = if p.is_unique then p.path ∷ paths_with true ps else paths_with true ps
  paths_with false (p ∷ ps) =
      if p.is_unique then paths_with false ps else p.path ∷ paths_with false ps

  abbrev pub marked_paths : List (Group H) → List Name
  marked_paths [] = []
  marked_paths (g ∷ gs) = paths_with true g ++ marked_paths gs

  abbrev pub other_paths : List (Group H) → List Name
  other_paths [] = []
  other_paths (g ∷ gs) = paths_with false g ++ other_paths gs

  -- The mover leaves marked photos where they are, and the others there or at their new paths.
  relocate_photos-Moved :
      (s : System) (g : Group H) (m : Moving)
      → (paths_with true (relocate_photos s g m).0 ≡ paths_with true g)
        × Moved (paths_with false g) (paths_with false (relocate_photos s g m).0)
  unfolding relocate_photos
  relocate_photos-Moved s [] m = (refl, tt)
  relocate_photos-Moved s (p ∷ ps) m = elim (Bool-cases p.is_unique) [
    | inl e ↦
        (let rest = relocate_photos-Moved s ps m in rw e (ap (λ z. p.path ∷ z) rest.0, rest.1))
    | inr e ↦
        (let r = move_duplicate s p.path m.disk in
          let next : Moving = record { disk = r.1; errs = with_error p.path r.0 m.errs } in
          let rest = relocate_photos-Moved s ps next in
          rw e (
            at p r.0 (relocate_photos s ps next).0 (paths_with true ps) (paths_with false ps) rest))
  ]
    where
      at :
          (p : PhotoInfo H) (o : Option MoveError) (qs : Group H) (ms ns : List Name)
          → (paths_with true qs ≡ ms) × Moved ns (paths_with false qs)
          → (paths_with true (at_path (record p { is_unique = false }) (new_path p.path) o ∷ qs)
              ≡ ms)
            × Moved (p.path ∷ ns) (
                paths_with false
                  (at_path (record p { is_unique = false }) (new_path p.path) o ∷ qs))
      at p none qs ms ns h = (h.0, (inr refl, h.1))
      at p (some x) qs ms ns h = (h.0, (inl refl, h.1))

  module _ {F : Type 0} (c : Search F H) where
    open c use {system, done_move, stat}

    pub relocated-Moved :
        ((i : ℕ) → done_move i ≡ false)
        → (i : ℕ) (gs : List (Group H)) (m : Moving)
        → let r = relocate_group_duplicates system (polled c i gs) m in
          (marked_paths r.0 ≡ marked_paths gs) × Moved (other_paths gs) (other_paths r.0)
    unfolding relocate_group_duplicates
    relocated-Moved never i [] m = (refl, tt)
    relocated-Moved never i (g ∷ gs) m =
        let one = relocate_photos-Moved system g m in
        let step = relocate_photos system g m in
        let rest = relocated-Moved never (suc i) gs step.1 in
        let r = relocate_group_duplicates system (polled c (suc i) gs) step.1 in
        rw (never i) (
          ap (λ z. z ++ marked_paths r.0) one.0 ∙ ap (λ z. paths_with true g ++ z) rest.0,
          Moved-append (paths_with false g) (paths_with false step.0) (other_paths gs)
              (other_paths r.0) one.1 rest.1,
        )

    -- A photo of the result has the size and the time of the file at its path.
    abbrev pub IsRead : Photo → Type 0
    IsRead f = (info : ℕ × ℕ) × (stat f.path ≡ some info) × (f ≡ photo_model c f.path info)

    abbrev path_of : Photo → Name
    path_of f = f.path

    split_group_paths :
        ((p : Name) → (info : ℕ × ℕ) × (stat p ≡ some info))
        → (g : Group H)
        → (map path_of (split_group c g).0 ≡ paths_with true g)
          × (map path_of (split_group c g).1 ≡ paths_with false g)
          × All IsRead (split_group c g).0
          × All IsRead (split_group c g).1
    unfolding split_group
    split_group_paths found [] = (refl, refl, tt, tt)
    split_group_paths found (p ∷ ps) =
        let rest = split_group_paths found ps in
        let (info, e) = found p.path in
        elim (Bool-cases p.is_unique) [
          | inl u ↦
              rw (e, u) (ap (λ z. p.path ∷ z) rest.0, rest.1, ((info, e, refl), rest.2), rest.3)
          | inr u ↦
              rw (e, u) (rest.0, ap (λ z. p.path ∷ z) rest.1, rest.2, ((info, e, refl), rest.3))
        ]

    joined-put_group :
        (ps : List Photo) (gs : List (List Photo)) → joined (put_group c ps gs) ≡ ps ++ joined gs
    joined-put_group [] gs = refl
    joined-put_group (p ∷ ps) gs = refl

    pub build_result_paths :
        ((p : Name) → (info : ℕ × ℕ) × (stat p ≡ some info))
        → (gs : List (Group H))
        → let r = build_result c gs in
          (map path_of r.unique_photos ≡ marked_paths gs)
          × (map path_of (joined r.duplicate_groups) ≡ other_paths gs)
          × All IsRead r.unique_photos
          × All IsRead (joined r.duplicate_groups)
    unfolding build_result
    build_result_paths found [] = (refl, refl, tt, tt)
    build_result_paths found (g ∷ gs) =
        let s = split_group c g in
        let one = split_group_paths found g in
        let rest = build_result_paths found gs in
        let r = build_result c gs in
        let dups = joined-put_group s.1 r.duplicate_groups in
        (
          map-append path_of s.0 r.unique_photos ∙ rw (one.0, rest.0) refl,
          ap (map path_of) dups
              ∙ map-append path_of s.1 (joined r.duplicate_groups)
              ∙ rw (one.1, rest.1) refl,
          All-append IsRead s.0 r.unique_photos one.2 rest.2,
          subst (All IsRead) (sym dups)
              (All-append IsRead s.1 (joined r.duplicate_groups) one.3 rest.3),
        )
