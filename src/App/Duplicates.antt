-- ===== src/App/Duplicates.antt =====
-- internal/app/app.go: `ScanAndDeduplicate`, the run of the search for duplicates. What the parts of
-- internal/dedupe take as arguments is one record; the dates read before the search are `date_cache`.
-- The metadata of RAW pairs and the events are left out.
pub mod Follows
pub mod Accounts
use cull_snap.Base.{ℕ, suc, List, [], ◌∷◌, ◌++◌, Bool, ◌==◌, Option, none, some, if◌then◌else◌}
use cull_snap.Paths.{Name}
use cull_snap.Storage.Recents.{Recent, add_recent}
use cull_snap.Dedupe.Groups.{PhotoInfo, Group, Entry, find_duplicates}
use cull_snap.Dedupe.Best.{Quality, find_best_photos}
use cull_snap.Dedupe.Dates.{GroupMeta, sort_groups_by_date}
use cull_snap.Dedupe.Mover.{File, System, Moving, relocate_group_duplicates}

pub record Search (F H : Type 0) : Type 0 where
  pub order_recents : List Recent → List Recent
  pub now : ℕ
  pub entries : List Entry
  pub distance : H → Option H → Option ℕ
  pub hash : Name → Option H
  pub done_hash : ℕ → Bool
  pub done_group : ℕ → Bool
  pub quality : Quality F
  pub ai_score_of : Name → Option F
  pub done_best : ℕ → Bool
  pub sort : (GroupMeta H → GroupMeta H → Bool) → List (GroupMeta H) → List (GroupMeta H)
  pub done_sort : ℕ → Bool
  pub date_cache : Name → Option ℕ
  pub extract_date : Name → Option ℕ
  pub system : System
  pub done_move : ℕ → Bool
  pub stat : Name → Option (ℕ × ℕ)

-- `model.Photo`, the fields that are set here.
pub record Photo : Type 0 where
  pub path : Name
  pub size : ℕ
  pub taken_at : ℕ

pub record DedupeResult : Type 0 where
  pub unique_photos : List Photo
  pub duplicate_groups : List (List Photo)

-- The tables and the disk that a run changes.
pub record Library : Type 0 where
  pub recents : List Recent
  pub disk : List File

abbrev pub threshold_or_default : ℕ → ℕ
threshold_or_default n = if n == 0 then 8 else n

module _ {F H : Type 0} (c : Search F H) where
  open c use {
    order_recents, now, entries, distance, hash, done_hash, done_group, quality, ai_score_of,
    done_best, sort, done_sort, date_cache, extract_date, system, done_move, stat,
  }

  abbrev pub date_or : Option ℕ → ℕ → ℕ
  date_or none modified = modified
  date_or (some d) modified = d

  abbrev pub photo_model : Name → ℕ × ℕ → Photo
  photo_model p info = record { path = p; size = info.0; taken_at = date_or (date_cache p) info.1 }

  abbrev pub put_photo :
      Bool → Name → Option (ℕ × ℕ) → List Photo × List Photo → List Photo × List Photo
  put_photo unique p none rest = rest
  put_photo unique p (some info) rest =
      if unique
      then (photo_model p info ∷ rest.0, rest.1)
      else (rest.0, photo_model p info ∷ rest.1)

  -- The loop over the photos of a group: what it adds to the unique photos, and the duplicates.
  unfoldable pub split_group : Group H → List Photo × List Photo
  split_group [] = ([], [])
  split_group (p ∷ ps) = put_photo p.is_unique p.path (stat p.path) (split_group ps)

  abbrev pub put_group : List Photo → List (List Photo) → List (List Photo)
  put_group [] gs = gs
  put_group (p ∷ ps) gs = (p ∷ ps) ∷ gs

  -- "Structure data for the frontend"
  unfoldable pub build_result : List (Group H) → DedupeResult
  unfolding split_group
  build_result [] = record { unique_photos = []; duplicate_groups = [] }
  build_result (g ∷ gs) =
      let s = split_group g in
      let rest = build_result gs in
      record {
        unique_photos = s.0 ++ rest.unique_photos;
        duplicate_groups = put_group s.1 rest.duplicate_groups;
      }

  -- Whether the context is found cancelled before each group.
  abbrev pub polled : ℕ → List (Group H) → List (Bool × Group H)
  polled i [] = []
  polled i (g ∷ gs) = (done_move i, g) ∷ polled (suc i) gs

  unfoldable pub moved : Library → List (Group H) × Moving × Bool → Option DedupeResult × Library
  unfolding build_result
  moved w r = (if r.2 then none else some (build_result r.0), record w { disk = r.1.disk })

  abbrev pub after_sort : Library → Option (List (Group H)) → Option DedupeResult × Library
  after_sort w none = (none, w)
  after_sort w (some gs) =
      moved w (relocate_group_duplicates system (polled 0 gs) (record { disk = w.disk; errs = [] }))

  abbrev pub after_best : Library → Option (List (Group H)) → Option DedupeResult × Library
  after_best w none = (none, w)
  after_best w (some gs) =
      after_sort w (sort_groups_by_date sort done_sort date_cache extract_date gs)

  abbrev pub after_search : Library → Option (List (Group H)) → Option DedupeResult × Library
  after_search w none = (none, w)
  after_search w (some gs) = after_best w (find_best_photos quality ai_score_of done_best 0 gs)

  -- The result, if there is no error.
  unfoldable pub scan_and_deduplicate : Name → ℕ → Library → Option DedupeResult × Library
  unfolding moved
  scan_and_deduplicate path threshold w =
      after_search (record w { recents = add_recent order_recents path now w.recents })
        (find_duplicates distance (threshold_or_default threshold) done_hash done_group hash
          entries)
