-- ===== src/Cloud/Cache/Leaves.antt =====
-- What the deletions of `EvictIfNeeded` leave of the directories and of the mirror records.
use mathlib.Core.Path.{subst}
use cull_snap.Base.{
  ℕ, ◌+◌, List, [], ◌∷◌, ◌++◌, Bool, true, false, not, ◌&&◌, ◌||◌, Option, none, some, leb,
  if◌then◌else◌, if_elim, ◌≡◌, refl, ◌∙◌, ap, All, ◌⊎◌, inl, inr, Bool-cases, arith,
}
use cull_snap.Paths.{Name, same}
use cull_snap.Storage.Tables.{get, remove_key, get-remove_key, same_refl, same_sym, same_left}
use cull_snap.Cloud.Names.{sanitize_id}
use cull_snap.Cloud.Cache.{
  CloudMirror, CachedAlbum, Dir, Cache, Deletes, Eviction, delete_failed, with_evicted, is_excluded,
  without_dir, without_mirror, delete_album, evict,
}

abbrev pub dir_key : Dir → Name
dir_key e = e.path

-- The directory at a path.
abbrev pub dir_at : Name → Cache → Option Dir
dir_at d c = get dir_key d c.dirs

-- The first record of an album.
unfoldable pub mirror_in : Name → Name → List CloudMirror → Option CloudMirror
mirror_in p a [] = none
mirror_in p a (m ∷ ms) =
    if same m.provider_id p && same m.album_id a then some m else mirror_in p a ms

abbrev pub mirror_at : Name → Name → Cache → Option CloudMirror
mirror_at p a c = mirror_in p a c.mirrors

-- The directory of an album, below this base.
abbrev pub path_in : Name → CachedAlbum → Name
path_in b x = b ++ b'/' ∷ sanitize_id x.provider_id ++ b'/' ∷ sanitize_id x.album_id

without_dir_lem : (e : Name) (es : List Dir) → without_dir e es ≡ remove_key dir_key e es
unfolding without_dir remove_key
without_dir_lem e [] = refl
without_dir_lem e (x ∷ xs) =
    ap (λ rest. if same x.path e then rest else x ∷ rest) (without_dir_lem e xs)

get-without_dir :
    (d e : Name) (es : List Dir)
    → get dir_key d (without_dir e es) ≡ (if same e d then none else get dir_key d es)
get-without_dir d e es = ap (get dir_key d) (without_dir_lem e es) ∙ get-remove_key dir_key d e es

mirror_in-without_mirror :
    (p a q b : Name) (ms : List CloudMirror)
    → mirror_in p a (without_mirror q b ms)
      ≡ (if same q p && same b a then none else mirror_in p a ms)
unfolding mirror_in without_mirror
mirror_in-without_mirror p a q b [] = ground arith
mirror_in-without_mirror p a q b (m ∷ ms) = ground (
  arith,
  same_left m.provider_id q p,
  same_left m.album_id b a,
  same_left q p m.provider_id,
  same_left b a m.album_id,
  same_sym q m.provider_id,
  same_sym p m.provider_id,
  same_sym b m.album_id,
  same_sym a m.album_id,
  mirror_in-without_mirror p a q b ms,
)

-- Whether a path is the directory of one of these albums, and whether an album is one of them.
abbrev pub is_dir_of : Name → Name → List CachedAlbum → Bool
is_dir_of b d [] = false
is_dir_of b d (x ∷ xs) = same (path_in b x) d || is_dir_of b d xs

abbrev pub is_one_of : Name → Name → List CachedAlbum → Bool
is_one_of p a [] = false
is_one_of p a (x ∷ xs) = is_excluded p a x || is_one_of p a xs

-- A cache after the deletion of some albums, and of an album that may have failed: the
-- directories and the records of the deleted ones are gone, and all others are as they were.
pub record Leaves (b : Name) (c c' : Cache) (evicted failed : List CachedAlbum) : Type 0 where
  pub base : c'.base_dir ≡ c.base_dir
  pub limit : c'.max_cache_mb ≡ c.max_cache_mb
  pub gone :
      All
        (λ x. (dir_at (path_in b x) c' ≡ none) × (mirror_at x.provider_id x.album_id c' ≡ none))
        evicted
  pub dirs :
      (d : Name)
      → (dir_at d c' ≡ dir_at d c)
        ⊎ ((is_dir_of b d (evicted ++ failed) ≡ true) × (dir_at d c' ≡ none))
  pub mirrors :
      (p a : Name)
      → (mirror_at p a c' ≡ mirror_at p a c)
        ⊎ ((is_one_of p a (evicted ++ failed) ≡ true) × (mirror_at p a c' ≡ none))

Leaves-refl : (b : Name) (c : Cache) → Leaves b c c [] []
Leaves-refl b c = record {
  base = refl;
  limit = refl;
  gone = tt;
  dirs = λ d. inl refl;
  mirrors = λ p a. inl refl;
}

-- What is gone stays gone.
dir_stays :
    {b : Name} {c c' : Cache} {xs ys : List CachedAlbum}
    → Leaves b c c' xs ys
    → (d : Name) → dir_at d c ≡ none
    → dir_at d c' ≡ none
dir_stays l d e = elim (l.dirs d) [ inl q ↦ q ∙ e | inr q ↦ q.1 ]

mirror_stays :
    {b : Name} {c c' : Cache} {xs ys : List CachedAlbum}
    → Leaves b c c' xs ys
    → (p a : Name) → mirror_at p a c ≡ none
    → mirror_at p a c' ≡ none
mirror_stays l p a e = elim (l.mirrors p a) [ inl q ↦ q ∙ e | inr q ↦ q.1 ]

Leaves-cons :
    (b : Name) (c d e : Cache) (x : CachedAlbum) (xs ys : List CachedAlbum)
    → Leaves b c d (x ∷ []) []
    → Leaves b d e xs ys
    → Leaves b c e (x ∷ xs) ys
Leaves-cons b c d e x xs ys l r = record {
  base = r.base ∙ l.base;
  limit = r.limit ∙ l.limit;
  gone = (
    (dir_stays r (path_in b x) l.gone.0.0, mirror_stays r x.provider_id x.album_id l.gone.0.1),
    r.gone,
  );
  dirs = λ k. elim (r.dirs k) [
    | inl q ↦ elim (l.dirs k) [
      | inl h ↦ inl (q ∙ h)
      | inr h ↦ inr (let t = h.0 in ((ground arith), q ∙ h.1))
    ]
    | inr q ↦ inr (let t = q.0 in ((ground arith), q.1))
  ];
  mirrors = λ p a. elim (r.mirrors p a) [
    | inl q ↦ elim (l.mirrors p a) [
      | inl h ↦ inl (q ∙ h)
      | inr h ↦ inr (let t = h.0 in ((ground arith), q ∙ h.1))
    ]
    | inr q ↦ inr (let t = q.0 in ((ground arith), q.1))
  ];
}

-- One deletion: whether it succeeds or fails.
delete_album-Leaves :
    (ds : Deletes) (x : CachedAlbum) (c : Cache)
    → let d = delete_album ds x.provider_id x.album_id c in
      ((d.1 ≡ true) × Leaves c.base_dir c d.0 (x ∷ []) [])
      ⊎ ((d.1 ≡ false) × Leaves c.base_dir c d.0 [] (x ∷ []))
unfolding delete_album
delete_album-Leaves ds x c =
    by_answers (ds.files_ok x.provider_id x.album_id) (ds.record_ok x.provider_id x.album_id)
  where
    b : Name
    b = c.base_dir

    emptied : Cache
    emptied = record c { dirs = without_dir (path_in b x) c.dirs }

    deleted : Cache
    deleted = record emptied { mirrors = without_mirror x.provider_id x.album_id c.mirrors }

    dirs_of :
        (k : Name)
        → (get dir_key k (without_dir (path_in b x) c.dirs) ≡ get dir_key k c.dirs)
          ⊎ (((same (path_in b x) k || false) ≡ true)
              × (get dir_key k (without_dir (path_in b x) c.dirs) ≡ none))
    dirs_of k = elim (Bool-cases (same (path_in b x) k)) [
      | inl s ↦ inr (rw s refl, get-without_dir k (path_in b x) c.dirs ∙ rw s refl)
      | inr s ↦ inl (get-without_dir k (path_in b x) c.dirs ∙ rw s refl)
    ]

    by_answers :
        (f r : Bool)
        → let d : Cache × Bool =
            (if not f then (c, false) else if not r then (emptied, false) else (deleted, true)) in
          ((d.1 ≡ true) × Leaves b c d.0 (x ∷ []) []) ⊎ ((d.1 ≡ false) × Leaves b c d.0 [] (x ∷ []))
    by_answers false r = inr (
      refl,
      record {
        base = refl;
        limit = refl;
        gone = tt;
        dirs = λ d. inl refl;
        mirrors = λ p a. inl refl;
      },
    )
    by_answers true false = inr (
      refl,
      record { base = refl; limit = refl; gone = tt; dirs = dirs_of; mirrors = λ p a. inl refl },
    )
    by_answers true true = inl (
      refl,
      record {
        base = refl;
        limit = refl;
        gone = (
          (
            get-without_dir (path_in b x) (path_in b x) c.dirs ∙ rw (same_refl (path_in b x)) refl,
            mirror_in-without_mirror x.provider_id x.album_id x.provider_id x.album_id c.mirrors
                ∙ rw (same_refl x.provider_id, same_refl x.album_id) refl,
          ),
          tt,
        );
        dirs = dirs_of;
        mirrors = λ p a. elim (Bool-cases (is_excluded p a x)) [
          | inl s ↦ inr (
            rw s refl,
            mirror_in-without_mirror p a x.provider_id x.album_id c.mirrors ∙ rw s refl,
          )
          | inr s ↦
              inl (mirror_in-without_mirror p a x.provider_id x.album_id c.mirrors ∙ rw s refl)
        ];
      },
    )

-- What `EvictIfNeeded` leaves: an album whose deletion failed is named only if that error is
-- returned, and the excluded album keeps its record.
pub record Keeps (p a : Name) (c : Cache) (r : Eviction) : Type 0 where
  pub failed : List CachedAlbum
  pub fails : (failed ≡ []) ⊎ ((x : CachedAlbum) × (failed ≡ x ∷ []) × (r.outcome ≡ delete_failed))
  pub leaves : Leaves c.base_dir c r.cache r.evicted failed
  pub excluded : mirror_at p a r.cache ≡ mirror_at p a c

-- A deletion of another album keeps the record of the excluded one.
other_record :
    {b : Name} {c d : Cache} {xs ys : List CachedAlbum} (p a : Name)
    → Leaves b c d xs ys
    → is_one_of p a (xs ++ ys) ≡ false
    → mirror_at p a d ≡ mirror_at p a c
other_record p a l e = elim (l.mirrors p a) [ inl q ↦ q | inr q ↦ (let h = q.0 in cc) ]

pub evict-Keeps :
    (ds : Deletes) (p a : Name) (needed freed : ℕ) (xs : List CachedAlbum) (c : Cache)
    → Keeps p a c (evict ds p a needed freed xs c)
unfolding evict
evict-Keeps ds p a needed freed [] c = record {
  failed = [];
  fails = inl refl;
  leaves = Leaves-refl c.base_dir c;
  excluded = refl;
}
evict-Keeps ds p a needed freed (x ∷ xs) c =
    let d = delete_album ds x.provider_id x.album_id c in
    let skipped = evict-Keeps ds p a needed freed xs c in
    let later = evict-Keeps ds p a needed (freed + x.size_bytes) xs d.0 in
    let more = evict ds p a needed (freed + x.size_bytes) xs d.0 in
    if_elim (Keeps p a c) (is_excluded p a x) (λ e. skipped)
      (λ e. elim (delete_album-Leaves ds x c) [
        | inl (ok, l) ↦
            (let kept = other_record p a l (rw e refl) in
              rw ok (
                if_elim (λ r. Keeps p a c (with_evicted x r)) (leb needed (freed + x.size_bytes))
                  (λ h. record { failed = []; fails = inl refl; leaves = l; excluded = kept })
                  (λ h. record {
                    failed = later.failed;
                    fails = later.fails;
                    leaves = Leaves-cons c.base_dir c d.0 more.cache x more.evicted later.failed l (
                        subst (λ b. Leaves b d.0 more.cache more.evicted later.failed) l.base
                          later.leaves);
                    excluded = later.excluded ∙ kept;
                  })))
        | inr (bad, l) ↦ rw bad (record {
          failed = x ∷ [];
          fails = inr (x, refl, refl);
          leaves = l;
          excluded = other_record p a l (rw e refl);
        })
      ])
