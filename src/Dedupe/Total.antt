-- ===== src/Dedupe/Total.antt =====
-- `FindDuplicates` returns while its context is not cancelled.
use cull_snap.Base.{ℕ, ◌+◌, List, [], ◌∷◌, ◌≡◌, refl, Bool, false, Option, none, some, map}
use cull_snap.Paths.{Name}
use cull_snap.Dedupe.Groups.{
  PhotoInfo, Group, place_hashed, group_photos, hash_photos, mark, find_duplicates, Entry, discover,
}
use cull_snap.Dedupe.Whole.{Partition, find_duplicates-Partitions}

hash_photos_total :
    {H : Type 0} (done : ℕ → Bool) (hash : Name → Option H)
    → ((i : ℕ) → done i ≡ false)
    → (i : ℕ) (xs : List Name) → (ps : List (PhotoInfo H)) × (hash_photos done hash i xs ≡ some ps)
unfolding hash_photos
hash_photos_total done hash never i [] = ([], refl)
hash_photos_total done hash never i (x ∷ xs) =
    let (ps, e) = hash_photos_total done hash never (i + 1) xs in
    (
      record { path = x; hash = hash x; is_unique = false; group_id = []; date_taken = none } ∷ ps,
      rw (never i, e) refl,
    )

group_photos_total :
    {H : Type 0} (distance : H → Option H → Option ℕ) (threshold : ℕ) (done : ℕ → Bool)
    → ((i : ℕ) → done i ≡ false)
    → (i : ℕ) (ps : List (PhotoInfo H)) (gs : List (Group H))
    → (r : List (Group H)) × (group_photos distance threshold done i ps gs ≡ some r)
unfolding group_photos
group_photos_total distance threshold done never i [] gs = (gs, refl)
group_photos_total distance threshold done never i (p ∷ ps) gs =
    let (r, e) =
      group_photos_total distance threshold done never (i + 1) ps
        (place_hashed distance threshold p p.hash gs) in
    (r, rw (never i, e) refl)

-- While the context is not cancelled, FindDuplicates returns a partition of the images that have a
-- hash, whatever the walk, the hashes and the distance are.
pub find_duplicates_total :
    {H : Type 0} (distance : H → Option H → Option ℕ) (threshold : ℕ)
    (done_hash done_group : ℕ → Bool) (hash : Name → Option H) (entries : List Entry)
    → ((i : ℕ) → done_hash i ≡ false)
    → ((i : ℕ) → done_group i ≡ false)
    → (gs : List (Group H)) × (find_duplicates distance threshold done_hash done_group hash entries
        ≡ some gs)
      × Partition distance threshold hash entries gs
unfolding find_duplicates
find_duplicates_total distance threshold done_hash done_group hash entries never never_group =
    let (ps, e) = hash_photos_total done_hash hash never 0 (discover entries) in
    let (r, d) = group_photos_total distance threshold done_group never_group 0 ps [] in
    let runs : find_duplicates distance threshold done_hash done_group hash entries
        ≡ some (map mark r) =
      rw (e, d) refl in
    (
      map mark r,
      runs,
      find_duplicates-Partitions distance threshold done_hash done_group hash entries runs,
    )
