-- ===== src/Cloud/Cache/Evict.antt =====
-- What `EvictIfNeeded` deletes, and when it says that it has freed enough.
use cull_snap.Base.{
  ltb, ◌⊎◌, inl, inr, ◌-◌, not, ℕ, ◌+◌, ◌≤◌, ◌<◌, List, [], ◌∷◌, ◌++◌, Bool, true, false, leb,
  if◌then◌else◌, if_elim, ◌≡◌, refl, ap, arith,
}
use cull_snap.Paths.{Name}
use cull_snap.Cloud.Cache.Leaves.{Keeps, evict-Keeps}
use cull_snap.Cloud.Cache.{
  Sort, list_cached_albums, evict_if_needed, limit_bytes, CachedAlbum, Cache, Deletes, delete_album,
  total, done, delete_failed, not_enough, Eviction, with_evicted, is_excluded, evict,
}

-- The albums that may be evicted, in their order.
abbrev pub others : Name → Name → List CachedAlbum → List CachedAlbum
others p a [] = []
others p a (x ∷ xs) = if is_excluded p a x then others p a xs else x ∷ others p a xs

abbrev pub all_but_last : List CachedAlbum → List CachedAlbum
all_but_last [] = []
all_but_last (x ∷ []) = []
all_but_last (x ∷ y ∷ ys) = x ∷ all_but_last (y ∷ ys)

pub record Evicts (needed freed : ℕ) (candidates : List CachedAlbum) (r : Eviction) : Type 0 where
  -- the albums that were kept
  pub kept : List CachedAlbum
  -- the first candidates are deleted, and the rest is kept
  pub split : candidates ≡ r.evicted ++ kept
  pub enough : r.outcome ≡ done → needed ≤ freed + total r.evicted
  -- the last album that was deleted was needed
  pub minimal : freed + total (all_but_last r.evicted) < needed
  pub all_gone : r.outcome ≡ not_enough → (kept ≡ []) × (freed + total r.evicted < needed)

more-Evicts :
    (needed freed : ℕ) (x : CachedAlbum) (xs : List CachedAlbum) (r : Eviction)
    → freed < needed
    → Evicts needed (freed + x.size_bytes) xs r
    → Evicts needed freed (x ∷ xs) (with_evicted x r)
unfolding total
more-Evicts needed freed x xs r f v = record {
  kept = v.kept;
  split = ap (◌∷◌ x) v.split;
  enough = λ e. let h = v.enough e in omega arith;
  minimal = last r.evicted v.minimal;
  all_gone = λ e. let h = v.all_gone e in (h.0, (let g = h.1 in omega arith));
}
  where
    last :
        (l : List CachedAlbum)
        → freed + x.size_bytes + total (all_but_last l) < needed
        → freed + total (all_but_last (x ∷ l)) < needed
    last [] h = unfold total in omega arith
    last (y ∷ ys) h = unfold total in omega arith

-- One round: is the album excluded, is it deleted, is that enough?
round :
    (excluded deleted full : Bool) (needed freed : ℕ) (x : CachedAlbum) (xs : List CachedAlbum)
    (c : Cache) (skip more : Eviction)
    → leb needed (freed + x.size_bytes) ≡ full
    → freed < needed
    → Evicts needed freed xs skip
    → (freed + x.size_bytes < needed → Evicts needed (freed + x.size_bytes) xs more)
    → Evicts needed freed (if excluded then xs else x ∷ xs) (
        if excluded
        then skip
        else if not deleted
        then record { cache = c; evicted = []; outcome = delete_failed }
        else with_evicted x
            (if full then record { cache = c; evicted = []; outcome = done } else more))
unfolding total
round true deleted full needed freed x xs c skip more e f v w = v
round false false full needed freed x xs c skip more e f v w = record {
  kept = x ∷ xs;
  split = refl;
  enough = λ q. cc;
  minimal = omega arith;
  all_gone = λ q. cc;
}
round false true true needed freed x xs c skip more e f v w = record {
  kept = xs;
  split = refl;
  enough = λ q. ground arith;
  minimal = omega arith;
  all_gone = λ q. cc;
}
round false true false needed freed x xs c skip more e f v w =
    more-Evicts needed freed x xs more f (w (ground arith))

evict-Evicts :
    (ds : Deletes) (p a : Name) (needed freed : ℕ) (xs : List CachedAlbum) (c : Cache)
    → freed < needed
    → Evicts needed freed (others p a xs) (evict ds p a needed freed xs c)
unfolding evict total
evict-Evicts ds p a needed freed [] c f = record {
  kept = [];
  split = refl;
  enough = λ e. cc;
  minimal = omega arith;
  all_gone = λ e. (refl, (omega arith));
}
evict-Evicts ds p a needed freed (x ∷ xs) c f =
    let d = delete_album ds x.provider_id x.album_id c in
    round (is_excluded p a x) d.1 (leb needed (freed + x.size_bytes)) needed freed x (others p a xs)
      d.0 (evict ds p a needed freed xs c) (evict ds p a needed (freed + x.size_bytes) xs d.0) refl
      f (evict-Evicts ds p a needed freed xs c f)
      (λ g. evict-Evicts ds p a needed (freed + x.size_bytes) xs d.0 g)

-- EvictIfNeeded either has space and changes nothing, or deletes the first albums in the order that
-- `sort.Slice` gives them by their times, but never the excluded one. With the sizes that it listed:
-- if it returns no error, what is left and the required bytes fit in the limit; without the last
-- album that it deleted they would not; and if it says that it cannot free enough, it has deleted
-- every album but the excluded one. The directories and the records of the deleted albums are gone;
-- every other directory and record is as it was, but for those of an album whose deletion
-- failed; the excluded album keeps its record, and its directory if none of those albums has the
-- same one.
pub evict_if_needed-Evicts :
    (sort : Sort) (ds : Deletes) (required : ℕ) (p a : Name) (c : Cache)
    → let albums = list_cached_albums sort c in
      let r = evict_if_needed sort ds required p a c in
      ((r.evicted ≡ [])
        × (r.outcome ≡ done)
        × (r.cache ≡ c)
        × (total albums + required ≤ limit_bytes c))
      ⊎ (Evicts
            (total albums + required - limit_bytes c)
            0
            (others p a (sort (λ x y. ltb x.synced_at y.synced_at) albums))
            r
          × Keeps p a c r)
unfolding evict_if_needed
evict_if_needed-Evicts sort ds required p a c =
    let albums = list_cached_albums sort c in
    let needed = total albums + required - limit_bytes c in
    let oldest = sort (λ x y. ltb x.synced_at y.synced_at) albums in
    if_elim
      (λ r.
        ((r.evicted ≡ [])
          × (r.outcome ≡ done)
          × (r.cache ≡ c)
          × (total albums + required ≤ limit_bytes c))
        ⊎ (Evicts needed 0 (others p a oldest) r × Keeps p a c r))
      (leb (total albums + required) (limit_bytes c)) (λ e. inl (refl, refl, refl, (ground arith)))
      (λ e. inr (
        evict-Evicts ds p a needed 0 oldest c (ground arith),
        evict-Keeps ds p a needed 0 oldest c,
      ))
