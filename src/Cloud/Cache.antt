-- ===== src/Cloud/Cache.antt =====
-- internal/cloudsource/cache.go: the cache of albums and its eviction. The disk is a list of
-- directories with their sizes, the store a list of mirror records. `sort.Slice` (by a comparison
-- of times) and the failures of the disk and of the store when an album is deleted are arguments.
-- Sizes and limits are not negative; the sums are below 2^63.
pub mod Leaves
pub mod Evict
use cull_snap.Base.{
  ℕ, ◌+◌, ◌-◌, ◌*◌, List, [], ◌∷◌, ◌++◌, Bool, true, false, not, ◌&&◌, ◌||◌, leb, ltb,
  if◌then◌else◌, map, Option, none, some, length, Outcome,
}
use cull_snap.Paths.{Name, same}
use cull_snap.Cloud.Names.{sanitize_id}

-- A record of `ListCloudMirrors`.
pub record CloudMirror : Type 0 where
  pub provider_id : Name
  pub album_id : Name
  pub album_title : Name
  pub local_path : Name
  pub synced_at : ℕ

-- `CachedAlbum`
pub record CachedAlbum : Type 0 where
  pub provider_id : Name
  pub album_id : Name
  pub album_title : Name
  pub local_path : Name
  pub size_bytes : ℕ
  pub file_count : ℕ
  pub synced_at : ℕ

-- A directory of an album, with the bytes and the number of its files.
pub record Dir : Type 0 where
  pub path : Name
  pub bytes : ℕ
  pub files : ℕ

-- `CacheManager` with what it manages.
pub record Cache : Type 0 where
  pub base_dir : Name
  pub max_cache_mb : ℕ
  pub mirrors : List CloudMirror
  pub dirs : List Dir

-- `filepath.Join(c.baseDir, SanitizeID(providerID), SanitizeID(albumID))`, of a clean base.
abbrev pub album_dir : Cache → Name → Name → Name
album_dir c p a = c.base_dir ++ b'/' ∷ sanitize_id p ++ b'/' ∷ sanitize_id a

unfoldable pub usage_in : List Dir → Name → ℕ × ℕ
usage_in [] d = (0, 0)
usage_in (e ∷ es) d = let rest = usage_in es d in if same e.path d then (e.bytes, e.files) else rest

unfoldable pub album_disk_usage : Cache → Name → Name → ℕ × ℕ
album_disk_usage c p a = usage_in c.dirs (album_dir c p a)

abbrev pub album_of : Cache → CloudMirror → CachedAlbum
album_of c m = record {
  provider_id = m.provider_id;
  album_id = m.album_id;
  album_title = m.album_title;
  local_path = m.local_path;
  size_bytes = (album_disk_usage c m.provider_id m.album_id).0;
  file_count = (album_disk_usage c m.provider_id m.album_id).1;
  synced_at = m.synced_at;
}

-- `sort.Slice` for a comparison.
abbrev pub Sort : Type 0
Sort = (CachedAlbum → CachedAlbum → Bool) → List CachedAlbum → List CachedAlbum

unfoldable pub list_cached_albums : Sort → Cache → List CachedAlbum
list_cached_albums sort c = sort (λ a b. ltb b.synced_at a.synced_at) (map (album_of c) c.mirrors)

unfoldable pub total : List CachedAlbum → ℕ
total [] = 0
total (a ∷ rest) = a.size_bytes + total rest

abbrev pub limit_bytes : Cache → ℕ
limit_bytes c = c.max_cache_mb * 1024 * 1024

-- `GetCacheStats`: the total, the number of albums, the limit.
unfoldable pub get_cache_stats : Sort → Cache → ℕ × ℕ × ℕ
get_cache_stats sort c =
    let albums = list_cached_albums sort c in (total albums, length albums, limit_bytes c)

unfoldable pub without_dir : Name → List Dir → List Dir
without_dir d [] = []
without_dir d (e ∷ es) = let rest = without_dir d es in if same e.path d then rest else e ∷ rest

unfoldable pub without_mirror : Name → Name → List CloudMirror → List CloudMirror
without_mirror p a [] = []
without_mirror p a (m ∷ ms) =
    let rest = without_mirror p a ms in
    if same m.provider_id p && same m.album_id a then rest else m ∷ rest

-- Whether the directory and the record of an album can be deleted.
pub record Deletes : Type 0 where
  pub files_ok : Name → Name → Bool
  pub record_ok : Name → Name → Bool

-- `DeleteAlbum`; the flag says that it returned no error.
unfoldable pub delete_album : Deletes → Name → Name → Cache → Cache × Bool
delete_album ds p a c =
    let emptied : Cache = record c { dirs = without_dir (album_dir c p a) c.dirs } in
    if not (ds.files_ok p a)
    then (c, false)
    else if not (ds.record_ok p a)
    then (emptied, false)
    else (record emptied { mirrors = without_mirror p a c.mirrors }, true)

-- The loop of `ClearAll`.
unfoldable pub clear_albums : Deletes → List CachedAlbum → Bool → Cache → Cache × Bool
clear_albums ds [] fine c = (c, fine)
clear_albums ds (a ∷ rest) fine c =
    let d = delete_album ds a.provider_id a.album_id c in clear_albums ds rest (fine && d.1) d.0

unfoldable pub clear_all : Sort → Deletes → Cache → Cache × Bool
clear_all sort ds c = clear_albums ds (list_cached_albums sort c) true c

-- How `EvictIfNeeded` ends.
pub data Ending : Type 0 where
  done delete_failed not_enough : Ending

pub record Eviction : Type 0 where
  pub cache : Cache
  pub evicted : List CachedAlbum
  pub outcome : Ending

abbrev pub with_evicted : CachedAlbum → Eviction → Eviction
with_evicted a r = record r { evicted = a ∷ r.evicted }

abbrev pub is_excluded : Name → Name → CachedAlbum → Bool
is_excluded p a x = same x.provider_id p && same x.album_id a

-- The loop of `EvictIfNeeded` over the albums.
unfoldable pub evict : Deletes → Name → Name → ℕ → ℕ → List CachedAlbum → Cache → Eviction
evict ds p a needed freed [] c = record { cache = c; evicted = []; outcome = not_enough }
evict ds p a needed freed (x ∷ xs) c =
    let skip = evict ds p a needed freed xs c in
    let d = delete_album ds x.provider_id x.album_id c in
    let more = evict ds p a needed (freed + x.size_bytes) xs d.0 in
    if is_excluded p a x
    then skip
    else if not d.1
    then record { cache = d.0; evicted = []; outcome = delete_failed }
    else with_evicted x (
        if leb needed (freed + x.size_bytes)
        then record { cache = d.0; evicted = []; outcome = done }
        else more)

-- The albums are sorted from the oldest to the newest.
unfoldable pub evict_if_needed : Sort → Deletes → ℕ → Name → Name → Cache → Eviction
evict_if_needed sort ds required p a c =
    let albums = list_cached_albums sort c in
    let usage = total albums in
    if leb (usage + required) (limit_bytes c)
    then record { cache = c; evicted = []; outcome = done }
    else evict ds p a (usage + required - limit_bytes c) 0
        (sort (λ x y. ltb x.synced_at y.synced_at) albums) c
