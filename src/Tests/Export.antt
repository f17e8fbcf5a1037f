-- ===== src/Tests/Export.antt =====
-- internal/export on two photos that have one name.
use cull_snap.Base.{ℕ, List, [], ◌∷◌, ◌++◌, ◌≡◌, refl, true, false, none}
use cull_snap.Paths.{Name, same, ext, has}
use cull_snap.Paths.Digits.{itoa, digits}
use cull_snap.Storage.Tables.{get, put, remove_key}
use cull_snap.Dedupe.Mover.{File, dir_of, base_of}
use cull_snap.Export.{
  System, Media, export_selections, export_files, export_single_file, unique_path, free_path,
  numbered_path, stem, copy_to,
}

abbrev in_dir : ℕ → Name
in_dir d = b'/' ∷ d ∷ b'/' ∷ b'p' ∷ b'.' ∷ b'j' ∷ []

abbrev shot : ℕ → Media
shot d = record { path = in_dir d; is_video = false; duration = 0; trim_start = 0; trim_end = 0 }

abbrev card : List File
card =
    record { path = in_dir b'a'; content = 1 ∷ [] }
    ∷ record { path = in_dir b'b'; content = 2 ∷ [] }
    ∷ []

abbrev healthy : System
healthy = record {
  mkdir_ok = true;
  create_ok = λ p. true;
  copy_ok = λ p. true;
  copy_leaves = λ p. [];
  close_ok = λ p. true;
  trim_video = λ p from to. (none, true);
}

abbrev target : Name
target = b'/' ∷ b'o' ∷ []

-- The second photo gets a number.
shots-exported : export_selections healthy target (shot b'a' ∷ shot b'b' ∷ []) card ≡ (
  2,
  none,
  card
      ++ record { path = in_dir b'o'; content = 1 ∷ [] }
        ∷ record {
          path = b'/' ∷ b'o' ∷ b'/' ∷ b'p' ∷ b'_' ∷ b'1' ∷ b'.' ∷ b'j' ∷ [];
          content = 2 ∷ [];
        }
        ∷ [],
)
unfolding export_selections export_files export_single_file unique_path free_path numbered_path stem
    copy_to itoa digits dir_of base_of ext has same get put remove_key
shots-exported = refl
