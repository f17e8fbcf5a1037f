-- ===== src/Tests/Dedupe.antt =====
-- internal/dedupe on four photos, whose hashes are numbers at a distance.
use cull_snap.Base.{
  ℕ, ◌+◌, ◌-◌, List, [], ◌∷◌, ◌≡◌, refl, Bool, true, false, Option, none, some, leb, if◌then◌else◌,
}
use cull_snap.Paths.{Name, ext, to_lower, has, same}
use cull_snap.Raw.Preview.{any_same}
use cull_snap.Dedupe.Groups.{
  PhotoInfo, Group, Entry, is_image, discover, hash_photos, near, place, group_photos, mark,
  find_duplicates,
}
use cull_snap.Dedupe.Whole.{Partition, find_duplicates-Partitions}

abbrev pub apart : ℕ → Option ℕ → Option ℕ
apart x none = none
apart x (some y) = some (x - y + (y - x))

abbrev pub file : ℕ → Name
file c = c ∷ b'.' ∷ b'j' ∷ b'p' ∷ b'g' ∷ []

abbrev pub value_of : Name → Option ℕ
value_of [] = none
value_of (c ∷ cs) = if leb 100 c then none else some c

abbrev pub entries : List Entry
entries =
    record { path = file 10; is_dir = false }
    ∷ record { path = file 40; is_dir = false }
    ∷ record { path = file 12; is_dir = false }
    ∷ record { path = file 120; is_dir = false }
    ∷ record { path = b'd' ∷ []; is_dir = true }
    ∷ []

abbrev pub never : ℕ → Bool
never i = false

abbrev photo : ℕ → Bool → ℕ → PhotoInfo ℕ
photo c unique leader = record {
  path = file c;
  hash = some c;
  is_unique = unique;
  group_id = file leader;
  date_taken = none;
}

abbrev pub result : List (Group ℕ)
result = (photo 10 false 10 ∷ photo 12 false 10 ∷ []) ∷ (photo 40 true 40 ∷ []) ∷ []

entries-grouped : find_duplicates apart 5 never never value_of entries ≡ some result
unfolding find_duplicates discover is_image hash_photos group_photos place near mark any_same ext
    to_lower has same
entries-grouped = refl

find_duplicates-Partitions_example : Partition apart 5 value_of entries result
find_duplicates-Partitions_example =
    find_duplicates-Partitions apart 5 never never value_of entries entries-grouped
