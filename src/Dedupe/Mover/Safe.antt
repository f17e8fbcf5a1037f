-- ===== src/Dedupe/Mover/Safe.antt =====
-- What a move of a duplicate does to the files.
use cull_snap.Base.{
  ap-if, length, length-append, ◌+◌, ◌≤◌, ◌<◌, ℕ, List, [], ◌∷◌, ◌++◌, Bool, true, false, not,
  Option, none, some, if◌then◌else◌, if_elim, ◌≡◌, refl, arith, ◌⊎◌, inl, inr, ap, ◌∙◌, Bool-cases,
  All,
}
use cull_snap.Paths.{Name, same}
use cull_snap.Storage.Tables.{
  get, remove_key, get-put, get-remove_key, same_refl, same_sym, same_eq,
}
use cull_snap.Dedupe.Groups.{Group}
use cull_snap.Paths.{has}
use cull_snap.Paths.{has}
use cull_snap.Dedupe.Mover.{
  copy_failed, no_dir, remove_failed, dir_of, base_of, duplicates_dir, dir_of, base_of,
  duplicates_dir, File, file_key, new_path, System, MoveError, write, write_part, rename, fall_back,
  move_duplicate, Moving, relocate_photos, relocate_group_duplicates,
}

abbrev pub content_of : Option File → Option (List ℕ)
content_of none = none
content_of (some f) = some f.content

-- The content of the file at a path.
abbrev pub content_at : Name → List File → Option (List ℕ)
content_at k disk = content_of (get file_key k disk)

content-write :
    (k p : Name) (c : List ℕ) (disk : List File)
    → content_at k (write p c disk) ≡ (if same p k then some c else content_at k disk)
content-write k p c disk =
    let f : File = record { path = p; content = c } in
    ap content_of (get-put file_key k f disk)
    ∙ ap-if content_of (same p k) (some f) (get file_key k disk)

content-remove :
    (k p : Name) (disk : List File)
    → content_at k (remove_key file_key p disk) ≡ (if same p k then none else content_at k disk)
content-remove k p disk =
    ap content_of (get-remove_key file_key k p disk)
    ∙ ap-if content_of (same p k) none (get file_key k disk)

base_of_whole : (cs : Name) → has b'/' cs ≡ false → base_of cs ≡ cs
unfolding has base_of
base_of_whole [] h = refl
base_of_whole (c ∷ cs) h = ground (arith, base_of_whole cs)

length-split : (p : Name) → length p ≤ length (dir_of p) + length (base_of p) + 1
unfolding has dir_of base_of
length-split [] = omega arith
length-split (c ∷ cs) = ground (arith, length-split cs, base_of_whole cs)

length-same : (a b : Name) → same a b ≡ true → length a ≡ length b
length-same a b e = ap length (same_eq a b e)

new_path-longer : (p : Name) → length p < length (new_path p)
unfolding new_path
new_path-longer p =
    omega (
      arith,
      length-split p,
      length-append (dir_of p) (b'/' ∷ (duplicates_dir ++ b'/' ∷ base_of p)),
    )

new_path_differs : (p : Name) → same (new_path p) p ≡ false
new_path_differs p = elim (Bool-cases (same (new_path p) p)) [
  | inl e ↦
      (let l = length-same (new_path p) p e in let n = new_path-longer p in absurd (omega arith))
  | inr e ↦ e
]

-- The move put the content at the new path, or failed and left it.
abbrev pub IsMoved : Name → List ℕ → Option MoveError × List File → Type 0
IsMoved p c r =
    ((r.0 ≡ none) × (content_at (new_path p) r.1 ≡ some c) × (content_at p r.1 ≡ none))
    ⊎ ((e : MoveError) × (r.0 ≡ some e) × (content_at p r.1 ≡ some c))

part_leaves :
    (k p : Name) (part : Option (List ℕ)) (disk : List File)
    → same p k ≡ false
    → content_at k (write_part p part disk) ≡ content_at k disk
part_leaves k p none disk h = refl
part_leaves k p (some c) disk h = content-write k p c disk ∙ rw h refl

rename-IsMoved : (p : Name) (c : List ℕ) (disk : List File) → IsMoved p c (none, rename p c disk)
unfolding rename
rename-IsMoved p c disk =
    let gone = remove_key file_key p disk in
    inl (
      refl,
      content-write (new_path p) (new_path p) c gone ∙ rw (same_refl (new_path p)) refl,
      content-write p (new_path p) c gone
          ∙ rw (new_path_differs p) (content-remove p p disk ∙ rw (same_refl p) refl),
    )

fall_back-IsMoved :
    (s : System) (p : Name) (c : List ℕ) (disk : List File)
    → content_at p disk ≡ some c
    → IsMoved p c (fall_back s p c disk)
unfolding fall_back
fall_back-IsMoved s p c disk e =
    let written = write (new_path p) c disk in
    if_elim {A = Option MoveError × List File} (IsMoved p c) (not (s.copy_ok p))
      (λ q. inr (
        copy_failed,
        refl,
        part_leaves p (new_path p) (s.copy_leaves p) disk (new_path_differs p) ∙ e,
      ))
      (λ q.
        if_elim {A = Option MoveError × List File} (IsMoved p c) (not (s.remove_ok p))
          (λ r. inr (
            remove_failed,
            refl,
            content-remove p (new_path p) written
                ∙ rw (new_path_differs p)
                    (content-write p (new_path p) c disk ∙ rw (new_path_differs p) e),
          ))
          (λ r. inl (
            refl,
            content-remove (new_path p) p written
                ∙ rw (same_sym p (new_path p) ∙ new_path_differs p) (
                    content-write (new_path p) (new_path p) c disk
                    ∙ rw (same_refl (new_path p)) refl),
            content-remove p p written ∙ rw (same_refl p) refl,
          )))

content_known :
    (o : Option File) (c : List ℕ) (f : File) → content_of o ≡ some c → o ≡ some f → f.content ≡ c
content_known none c f e q = cc
content_known (some g) c f e q = cc

-- The content of a duplicate is at its new path, and not at the old one, if MoveDuplicate returned no
-- error; if it returned an error, the content is at the old path still.
pub move_duplicate-IsMoved :
    (s : System) (p : Name) (c : List ℕ) (disk : List File)
    → content_at p disk ≡ some c
    → IsMoved p c (move_duplicate s p disk)
unfolding move_duplicate
move_duplicate-IsMoved s p c disk e =
    if_elim {A = Option MoveError × List File} (IsMoved p c) (not (s.mkdir_ok p))
      (λ q. inr (no_dir, refl, e)) (λ q. found (get file_key p disk) refl)
  where
    found :
        (o : Option File)
        → get file_key p disk ≡ o
        → IsMoved p c (elim o [
          | none ↦ (some copy_failed, disk)
          | some f ↦
              if s.rename_ok p
              then (none, rename p f.content disk)
              else fall_back s p f.content disk
        ])
    found none q = inr (copy_failed, refl, e)
    found (some f) q = rw (content_known (get file_key p disk) c f e q) (
        if_elim {A = Option MoveError × List File} (IsMoved p c) (s.rename_ok p)
          (λ r. rename-IsMoved p c disk) (λ r. fall_back-IsMoved s p c disk e))

-- A path that a move does not name.
abbrev pub Apart : Name → Name → Type 0
Apart k p = (same p k ≡ false) × (same (new_path p) k ≡ false)

abbrev Keeps : Name → List File → Option MoveError × List File → Type 0
Keeps k disk r = content_at k r.1 ≡ content_at k disk

fall_back-Keeps :
    (k : Name) (s : System) (p : Name) (c : List ℕ) (disk : List File)
    → Apart k p
    → content_at k (fall_back s p c disk).1 ≡ content_at k disk
unfolding fall_back
fall_back-Keeps k s p c disk a =
    let written = write (new_path p) c disk in
    let kept = content-write k (new_path p) c disk ∙ rw a.1 refl in
    if_elim {A = Option MoveError × List File} (Keeps k disk) (not (s.copy_ok p))
      (λ q. part_leaves k (new_path p) (s.copy_leaves p) disk a.1)
      (λ q.
        if_elim {A = Option MoveError × List File} (Keeps k disk) (not (s.remove_ok p))
          (λ r. content-remove k (new_path p) written ∙ rw a.1 kept)
          (λ r. content-remove k p written ∙ rw a.0 kept))

move_duplicate-Keeps :
    (k : Name) (s : System) (p : Name) (disk : List File)
    → Apart k p
    → content_at k (move_duplicate s p disk).1 ≡ content_at k disk
unfolding move_duplicate rename
move_duplicate-Keeps k s p disk a =
    if_elim {A = Option MoveError × List File} (Keeps k disk) (not (s.mkdir_ok p)) (λ q. refl)
      (λ q. found (get file_key p disk))
  where
    found :
        (o : Option File)
        → Keeps k disk (elim o [
          | none ↦ (some copy_failed, disk)
          | some f ↦
              if s.rename_ok p
              then (none, rename p f.content disk)
              else fall_back s p f.content disk
        ])
    found none = refl
    found (some f) =
        if_elim {A = Option MoveError × List File} (Keeps k disk) (s.rename_ok p)
          (λ q.
            content-write k (new_path p) f.content (remove_key file_key p disk)
            ∙ rw a.1 (content-remove k p disk ∙ rw a.0 refl))
          (λ q. fall_back-Keeps k s p f.content disk a)

module _ {H : Type 0} where
  -- No move of a photo that is not unique names the path.
  abbrev pub Untouched : Name → Group H → Type 0
  Untouched k = All (λ p. (p.is_unique ≡ true) ⊎ Apart k p.path)

  relocate_photos-leaves :
      (k : Name) (s : System) (g : Group H) (m : Moving)
      → Untouched k g
      → content_at k (relocate_photos s g m).1.disk ≡ content_at k m.disk
  unfolding relocate_photos
  relocate_photos-leaves k s [] m u = refl
  relocate_photos-leaves k s (p ∷ ps) m (inl e, u) = rw e (relocate_photos-leaves k s ps m u)
  relocate_photos-leaves k s (p ∷ ps) m (inr a, u) =
      if_elim {A = Group H × Moving} (λ r. content_at k r.1.disk ≡ content_at k m.disk) p.is_unique
        (λ e. relocate_photos-leaves k s ps m u)
        (λ e. relocate_photos-leaves k s ps _ u ∙ move_duplicate-Keeps k s p.path m.disk a)

  -- RelocateGroupDuplicates changes no file but the photos that are not unique and the files at their
  -- new paths, whatever fails and wherever it is cancelled.
  pub relocate_group_duplicates-leaves :
      (k : Name) (s : System) (gs : List (Bool × Group H)) (m : Moving)
      → All (λ g. Untouched k g.1) gs
      → content_at k (relocate_group_duplicates s gs m).1.disk ≡ content_at k m.disk
  unfolding relocate_group_duplicates
  relocate_group_duplicates-leaves k s [] m u = refl
  relocate_group_duplicates-leaves k s (g ∷ gs) m u =
      if_elim {A = List (Group H) × Moving × Bool}
        (λ r. content_at k r.1.disk ≡ content_at k m.disk) g.0 (λ e. refl)
        (λ e.
          relocate_group_duplicates-leaves k s gs (relocate_photos s g.1 m).1 u.1
          ∙ relocate_photos-leaves k s g.1 m u.0)
