-- ===== src/Tests/Mover.antt =====
-- internal/dedupe/mover.go on a duplicate that cannot be renamed.
use cull_snap.Base.{ℕ, List, [], ◌∷◌, Bool, true, false, none, some, ◌≡◌, inl, inr, refl, All}
use cull_snap.Paths.{Name, has, same}
use cull_snap.Storage.Tables.{get, put, remove_key}
use cull_snap.Dedupe.Groups.{PhotoInfo, Group}
use cull_snap.Dedupe.Mover.{File, System, move_duplicate, new_path, dir_of, base_of, fall_back}
use cull_snap.Dedupe.Mover.Safe.{IsMoved, Untouched, content_at, move_duplicate-IsMoved}

abbrev original : Name
original = b'/' ∷ b's' ∷ b'/' ∷ b'p' ∷ []

abbrev kept : Name
kept = b'/' ∷ b's' ∷ b'/' ∷ b'q' ∷ []

abbrev disk : List File
disk = record { path = original; content = 1 ∷ [] } ∷ record { path = kept; content = 2 ∷ [] } ∷ []

abbrev pub across_drives : System
across_drives = record {
  mkdir_ok = λ p. true;
  rename_ok = λ p. false;
  copy_ok = λ p. true;
  copy_leaves = λ p. none;
  remove_ok = λ p. true;
}

original-found : content_at original disk ≡ some (1 ∷ [])
unfolding get same
original-found = refl

move_duplicate-IsMoved_example :
    IsMoved original (1 ∷ []) (move_duplicate across_drives original disk)
move_duplicate-IsMoved_example =
    move_duplicate-IsMoved across_drives original (1 ∷ []) disk original-found

-- A file that has the new path already is replaced.
taken-replaced :
    content_at
      (new_path original)
      (move_duplicate across_drives original
        (record { path = new_path original; content = 7 ∷ [] } ∷ disk)).1
    ≡ some (1 ∷ [])
unfolding move_duplicate fall_back get put remove_key new_path dir_of base_of has same
taken-replaced = refl

abbrev photo : Name → Bool → PhotoInfo ℕ
photo p u = record { path = p; hash = none; is_unique = u; group_id = []; date_taken = none }

abbrev group : Group ℕ
group = photo original false ∷ photo kept true ∷ []

kept-Untouched : All (λ (g : Bool × Group ℕ). Untouched kept g.1) ((false, group) ∷ [])
unfolding new_path dir_of base_of has same
kept-Untouched = ((inr (refl, refl), (inl refl, tt)), tt)
