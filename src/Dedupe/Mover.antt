-- ===== src/Dedupe/Mover.antt =====
-- internal/dedupe/mover.go: `MoveDuplicate` and `RelocateGroupDuplicates` on a disk that is a list of
-- files by their paths. Paths are absolute and clean. What the calls of the system answer is an
-- argument; a rename or a copy replaces a file at its target.
pub mod Safe
use cull_snap.Base.{
  ℕ, List, [], ◌∷◌, ◌++◌, Bool, true, false, not, ◌||◌, ◌==◌, Option, none, some, if◌then◌else◌,
}
use cull_snap.Paths.{Name, same, has}
use cull_snap.Storage.Tables.{get, put, remove_key}
use cull_snap.Dedupe.Groups.{PhotoInfo, Group}

pub record File : Type 0 where
  pub path : Name
  pub content : List ℕ

abbrev pub file_key : File → Name
file_key f = f.path

-- `filepath.Dir`
unfoldable pub dir_of : Name → Name
unfolding has
dir_of [] = []
dir_of (c ∷ cs) = let rest = dir_of cs in if has b'/' cs then c ∷ rest else []

-- `filepath.Base`
unfoldable pub base_of : Name → Name
unfolding has
base_of [] = []
base_of (c ∷ cs) = let rest = base_of cs in if has b'/' (c ∷ cs) then rest else c ∷ cs

abbrev pub duplicates_dir : Name
duplicates_dir = b'd' ∷ b'u' ∷ b'p' ∷ b'l' ∷ b'i' ∷ b'c' ∷ b'a' ∷ b't' ∷ b'e' ∷ b's' ∷ []

-- `newPath`
unfoldable pub new_path : Name → Name
new_path p = dir_of p ++ b'/' ∷ (duplicates_dir ++ b'/' ∷ base_of p)

-- What the system answers for an original path. A copy that fails may leave some content at its
-- target.
pub record System : Type 0 where
  pub mkdir_ok : Name → Bool
  pub rename_ok : Name → Bool
  pub copy_ok : Name → Bool
  pub copy_leaves : Name → Option (List ℕ)
  pub remove_ok : Name → Bool

pub data MoveError : Type 0 where
  no_dir copy_failed remove_failed : MoveError

abbrev pub write : Name → List ℕ → List File → List File
write p c disk = put file_key (record { path = p; content = c }) disk

abbrev pub write_part : Name → Option (List ℕ) → List File → List File
write_part p none disk = disk
write_part p (some c) disk = write p c disk

-- `os.Rename` of a file with this content.
unfoldable pub rename : Name → List ℕ → List File → List File
rename p c disk = write (new_path p) c (remove_key file_key p disk)

-- The copy and the removal, where the rename failed.
unfoldable pub fall_back : System → Name → List ℕ → List File → Option MoveError × List File
fall_back s p c disk =
    if not (s.copy_ok p)
    then (some copy_failed, write_part (new_path p) (s.copy_leaves p) disk)
    else if not (s.remove_ok p)
    then (some remove_failed, remove_key file_key (new_path p) (write (new_path p) c disk))
    else (none, remove_key file_key p (write (new_path p) c disk))

-- `MoveDuplicate`; no error says that the file is at the new path. There is no rename and no copy of
-- a file that is missing.
unfoldable pub move_duplicate : System → Name → List File → Option MoveError × List File
unfolding rename fall_back
move_duplicate s p disk =
    if not (s.mkdir_ok p) then (some no_dir, disk) else elim (get file_key p disk) [
      | none ↦ (some copy_failed, disk)
      | some f ↦
          if s.rename_ok p then (none, rename p f.content disk) else fall_back s p f.content disk
    ]

-- What the loops over groups and photos share: the disk, and the errors so far.
pub record Moving : Type 0 where
  pub disk : List File
  pub errs : List (Name × MoveError)

abbrev pub with_error : Name → Option MoveError → List (Name × MoveError) → List (Name × MoveError)
with_error p none errs = errs
with_error p (some e) errs = errs ++ (p, e) ∷ []

module _ {H : Type 0} where
  abbrev pub at_path : PhotoInfo H → Name → Option MoveError → PhotoInfo H
  at_path p q none = record p { path = q }
  at_path p q (some e) = p

  -- The inner loop.
  unfoldable pub relocate_photos : System → Group H → Moving → Group H × Moving
  unfolding move_duplicate
  relocate_photos s [] m = ([], m)
  relocate_photos s (p ∷ ps) m =
      let r = move_duplicate s p.path m.disk in
      let moved =
        relocate_photos s ps (record { disk = r.1; errs = with_error p.path r.0 m.errs }) in
      let left = relocate_photos s ps m in
      if p.is_unique
      then (p ∷ left.0, left.1)
      else (at_path p (new_path p.path) r.0 ∷ moved.0, moved.1)

  -- `RelocateGroupDuplicates`, where the context is cancelled before the groups that the flags name;
  -- the last part says that it returned the error of the context.
  unfoldable pub relocate_group_duplicates :
      System → List (Bool × Group H) → Moving → List (Group H) × Moving × Bool
  unfolding relocate_photos
  relocate_group_duplicates s [] m = ([], m, false)
  relocate_group_duplicates s (g ∷ gs) m =
      let r = relocate_photos s g.1 m in
      let rest = relocate_group_duplicates s gs r.1 in
      if g.0 then (g.1 ∷ rest_of gs, m, true) else (r.0 ∷ rest.0, rest.1, rest.2)
    where
      rest_of : List (Bool × Group H) → List (Group H)
      rest_of [] = []
      rest_of (x ∷ xs) = x.1 ∷ rest_of xs
