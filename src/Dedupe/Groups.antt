-- ===== src/Dedupe/Groups.antt =====
-- internal/dedupe/hash.go: `FindDuplicates`. The walk of the directory, the hash of a file (`none`
-- if it cannot be computed), the distance of the hash library (`none` for its error) and the polls
-- of the context are arguments. A photo that the source shares by a pointer is a value here: a
-- photo is changed only through the group that holds it. The threshold is not negative.
use cull_snap.Base.{
  ℕ, ◌+◌, List, [], ◌∷◌, ◌++◌, Bool, true, false, not, ◌&&◌, leb, Option, none, some, if◌then◌else◌,
  map,
}
use cull_snap.Paths.{Name, ext, to_lower}
use cull_snap.Raw.Preview.{extensions, any_same}

-- `PhotoInfo`; `DateTaken` and `HasDate` are one field.
pub record PhotoInfo (H : Type 0) : Type 0 where
  pub path : Name
  pub hash : Option H
  pub is_unique : Bool
  pub group_id : Name
  pub date_taken : Option ℕ

-- `DuplicateGroup`
abbrev pub Group : Type 0 → Type 0
Group H = List (PhotoInfo H)

-- `raw.ImageExtensions`
abbrev pub image_extensions : List Name
image_extensions =
    (b'.' ∷ b'j' ∷ b'p' ∷ b'g' ∷ [])
    ∷ (b'.' ∷ b'j' ∷ b'p' ∷ b'e' ∷ b'g' ∷ [])
    ∷ (b'.' ∷ b'p' ∷ b'n' ∷ b'g' ∷ [])
    ∷ extensions

-- An entry of the walk: its path, and whether it is a directory.
pub record Entry : Type 0 where
  pub path : Name
  pub is_dir : Bool

unfoldable pub is_image : Entry → Bool
is_image e = not e.is_dir && any_same (to_lower (ext e.path)) image_extensions

-- Step 1: the images among the entries of the walk.
unfoldable pub discover : List Entry → List Name
discover [] = []
discover (e ∷ es) = let rest = discover es in if is_image e then e.path ∷ rest else rest

module _ {H : Type 0} where
  abbrev pub added : Name → Option H → Option (List (PhotoInfo H)) → Option (List (PhotoInfo H))
  added p h none = none
  added p h (some qs) =
      some (record { path = p; hash = h; is_unique = false; group_id = []; date_taken = none } ∷ qs)

  -- Step 2: the photos in the order of their paths; `none` if the goroutine of one of them, from
  -- the i-th on, found the context cancelled.
  unfoldable pub hash_photos :
      (ℕ → Bool) → (Name → Option H) → ℕ → List Name → Option (List (PhotoInfo H))
  hash_photos done hash i [] = some []
  hash_photos done hash i (p ∷ ps) =
      let rest = hash_photos done hash (i + 1) ps in if done i then none else added p (hash p) rest

  module _ (distance : H → Option H → Option ℕ) (threshold : ℕ) where
    -- The test of a hash against a group, which looks at its first photo.
    unfoldable pub near : H → Group H → Bool
    near h [] = false
    near h (q ∷ qs) = elim (distance h q.hash) [ none ↦ false | some d ↦ leb d threshold ]

    -- The loop over the groups for one photo: the first group that is near takes it, or it is a
    -- new group.
    unfoldable pub place : PhotoInfo H → H → List (Group H) → List (Group H)
    place p h [] = (record p { group_id = p.path } ∷ []) ∷ []
    place p h ([] ∷ gs) = [] ∷ place p h gs
    place p h ((q ∷ qs) ∷ gs) =
        let later = place p h gs in
        if near h (q ∷ qs)
        then (q ∷ qs ++ record p { group_id = q.path } ∷ []) ∷ gs
        else (q ∷ qs) ∷ later

    -- A photo without a hash is left out.
    abbrev pub place_hashed : PhotoInfo H → Option H → List (Group H) → List (Group H)
    place_hashed p none gs = gs
    place_hashed p (some h) gs = place p h gs

    -- Step 3: the loop over the photos, from the i-th on; `none` if the context is cancelled.
    unfoldable pub group_photos :
        (ℕ → Bool) → ℕ → List (PhotoInfo H) → List (Group H) → Option (List (Group H))
    group_photos done i [] gs = some gs
    group_photos done i (p ∷ ps) gs =
        let rest = group_photos done (i + 1) ps (place_hashed p p.hash gs) in
        if done i then none else rest

  abbrev pub shared : PhotoInfo H → PhotoInfo H
  shared p = record p { is_unique = false }

  -- "Mark Uniques"
  unfoldable pub mark : Group H → Group H
  mark [] = []
  mark (p ∷ []) = record p { is_unique = true } ∷ []
  mark (p ∷ q ∷ qs) = map shared (p ∷ q ∷ qs)

  abbrev pub grouped :
      (H → Option H → Option ℕ)
      → ℕ
      → (ℕ → Bool)
      → Option (List (PhotoInfo H))
      → Option (List (Group H))
  grouped distance threshold done none = none
  grouped distance threshold done (some photos) = group_photos distance threshold done 0 photos []

  abbrev pub finished : Option (List (Group H)) → Option (List (Group H))
  finished none = none
  finished (some gs) = some (map mark gs)

  unfoldable pub find_duplicates :
      (H → Option H → Option ℕ)
      → ℕ
      → (ℕ → Bool)
      → (ℕ → Bool)
      → (Name → Option H)
      → List Entry
      → Option (List (Group H))
  find_duplicates distance threshold done_hash done_group hash entries =
      finished
        (grouped distance threshold done_group (hash_photos done_hash hash 0 (discover entries)))
