-- ===== src/Tests/Cloud.antt =====
-- internal/cloudsource on unsafe IDs and on a cache of three albums.
use cull_snap.Base.{
  if◌then◌else◌, ℕ, ◌+◌, ◌-◌, ◌≤◌, List, [], ◌∷◌, ◌≡◌, ◌⊎◌, refl, Bool, true, ltb, map,
}
use cull_snap.Paths.{Name, has, same}
use cull_snap.Cloud.Names.{
  sanitize_id, replace_all, is_kept, base, trim_slashes, last_element, IsSafe, sanitize_id-IsSafe,
}
use cull_snap.Cloud.Cache.{
  Cache, CloudMirror, CachedAlbum, Dir, Deletes, list_cached_albums, total, limit_bytes,
  evict_if_needed, evict, delete_album, album_disk_usage, usage_in, without_dir, without_mirror,
}
use cull_snap.Cloud.Cache.Leaves.{Keeps}
use cull_snap.Cloud.Cache.{done}
use cull_snap.Cloud.Cache.Evict.{Evicts, others, evict_if_needed-Evicts}

abbrev unsafe : Name
unsafe = b'.' ∷ b'.' ∷ b'/' ∷ b'x' ∷ []

unsafe-sanitized : sanitize_id unsafe ≡ b'.' ∷ b'.' ∷ b'_' ∷ b'x' ∷ []
unfolding sanitize_id replace_all is_kept base trim_slashes last_element has same
unsafe-sanitized = refl

sanitize_id-IsSafe_example :
    IsSafe (sanitize_id unsafe) × (sanitize_id (sanitize_id unsafe) ≡ sanitize_id unsafe)
sanitize_id-IsSafe_example = sanitize_id-IsSafe unsafe

abbrev mirror : ℕ → ℕ → CloudMirror
mirror a t = record {
  provider_id = b'p' ∷ [];
  album_id = a ∷ [];
  album_title = [];
  local_path = [];
  synced_at = t;
}

abbrev dir : ℕ → ℕ → Dir
dir a n = record { path = b'b' ∷ b'/' ∷ b'p' ∷ b'/' ∷ a ∷ []; bytes = n; files = 1 }

abbrev cache : Cache
cache = record {
  base_dir = b'b' ∷ [];
  max_cache_mb = 1;
  mirrors = mirror b'x' 30 ∷ mirror b'y' 20 ∷ mirror b'z' 10 ∷ [];
  dirs = dir b'x' 500000 ∷ dir b'y' 400000 ∷ dir b'z' 100000 ∷ [];
}

-- Insertion, for `sort.Slice`.
abbrev insert :
    (CachedAlbum → CachedAlbum → Bool) → CachedAlbum → List CachedAlbum → List CachedAlbum
insert lt x [] = x ∷ []
insert lt x (y ∷ ys) = let rest = insert lt x ys in if lt x y then x ∷ y ∷ ys else y ∷ rest

abbrev sorted : (CachedAlbum → CachedAlbum → Bool) → List CachedAlbum → List CachedAlbum
sorted lt [] = []
sorted lt (x ∷ xs) = insert lt x (sorted lt xs)

abbrev fine : Deletes
fine = record { files_ok = λ p a. true; record_ok = λ p a. true }

-- The oldest album makes room for 100000 bytes more; the second oldest is needed for 200000.
one-evicted :
    map (λ x. x.album_id) (evict_if_needed sorted fine 100000 [] [] cache).evicted
    ≡ (b'z' ∷ []) ∷ []
unfolding evict_if_needed evict delete_album list_cached_albums total album_disk_usage usage_in
    without_dir without_mirror same sanitize_id replace_all is_kept base trim_slashes last_element
    has
one-evicted = refl

evict_if_needed-Evicts_example :
    let r = evict_if_needed sorted fine 100000 [] [] cache in
    ((r.evicted ≡ [])
      × (r.outcome ≡ done)
      × (r.cache ≡ cache)
      × (total (list_cached_albums sorted cache) + 100000 ≤ limit_bytes cache))
    ⊎ (Evicts
          (total (list_cached_albums sorted cache) + 100000 - limit_bytes cache)
          0
          (others [] []
            (sorted (λ x y. ltb x.synced_at y.synced_at) (list_cached_albums sorted cache)))
          r
        × Keeps [] [] cache r)
evict_if_needed-Evicts_example = evict_if_needed-Evicts sorted fine 100000 [] [] cache
