-- ===== src/Cloud/Mirror.antt =====
-- internal/cloudsource/mirror.go: which media of an album are downloaded, and what the workers record.
-- The answers of `source.Download`, in the order in which the workers end, are arguments; what happens
-- to the record of one medium is done under the mutex. A time is a number.
pub mod Converges
pub mod Counts
use cull_snap.Base.{
  ℕ, zero, suc, ◌+◌, List, [], ◌∷◌, ◌++◌, Bool, true, false, ◌&&◌, ◌||◌, Option, none, some, leb,
  if◌then◌else◌, length, map,
}
use cull_snap.Paths.{Name, same, ext}
use cull_snap.Cloud.Names.{sanitize_id}
use cull_snap.Storage.Meta.{CloudMediaMeta, get_cloud_media_meta, save_cloud_media_meta}

-- `RemoteMedia`
pub record RemoteMedia : Type 0 where
  pub id : Name
  pub filename : Name
  pub size_bytes : ℕ
  pub updated_at : ℕ

-- The store's records of media, and the paths of the files on the disk.
pub record Local : Type 0 where
  pub media : List CloudMediaMeta
  pub files : List Name

-- What `source.Download` does: it writes the file, or it fails for a reason and may leave a part of
-- the file.
pub data Answer : Type 0 where
  downloaded : Answer
  failed : Name → Bool → Answer

-- `DownloadError`
pub record DownloadError : Type 0 where
  pub filename : Name
  pub media_id : Name
  pub reason : Name

-- `MirrorResult`, without the directory and the evicted albums.
pub record MirrorResult : Type 0 where
  pub succeeded : ℕ
  pub skipped : ℕ
  pub failed_count : ℕ
  pub errors : List DownloadError

-- `filepath.Join(mirrorDir, SanitizeID(item.ID)+filepath.Ext(item.Filename))`, of a clean directory.
unfoldable pub local_path : Name → RemoteMedia → Name
local_path dir i = dir ++ b'/' ∷ (sanitize_id i.id ++ ext i.filename)

unfoldable pub has_file : Name → List Name → Bool
has_file p [] = false
has_file p (f ∷ fs) = same f p || has_file p fs

abbrev pub is_recent : ℕ → Option CloudMediaMeta → Bool
is_recent t none = false
is_recent t (some r) = leb t r.remote_updated_at

-- The test for a medium that is already mirrored.
unfoldable pub is_mirrored : Name → Local → RemoteMedia → Bool
unfolding local_path has_file get_cloud_media_meta
is_mirrored dir l i =
    is_recent i.updated_at (get_cloud_media_meta (local_path dir i) l.media)
    && has_file (local_path dir i) l.files

-- `toDownload` and `skipped`.
unfoldable pub to_download : Name → Local → List RemoteMedia → List RemoteMedia
unfolding is_mirrored
to_download dir l [] = []
to_download dir l (i ∷ is) =
    let rest = to_download dir l is in if is_mirrored dir l i then rest else i ∷ rest

unfoldable pub skipped_count : Name → Local → List RemoteMedia → ℕ
unfolding is_mirrored
skipped_count dir l [] = 0
skipped_count dir l (i ∷ is) =
    let rest = skipped_count dir l is in if is_mirrored dir l i then suc rest else rest

-- What the workers share.
pub record Work : Type 0 where
  pub local : Local
  pub succeeded : ℕ
  pub dl_errors : List DownloadError
  pub completed : ℕ

abbrev pub with_file : Name → Bool → Local → Local
with_file p true l = record l { files = p ∷ l.files }
with_file p false l = l

abbrev pub with_meta : CloudMediaMeta → Local → Local
with_meta r l = record l { media = save_cloud_media_meta r l.media }

-- A worker after one download.
unfoldable pub complete : Name → Name → RemoteMedia → Answer → Work → Work
unfolding local_path
complete dir provider i downloaded w = record w {
  local =
      with_meta
        (record {
          local_path = local_path dir i;
          remote_id = i.id;
          provider_id = provider;
          remote_updated_at = i.updated_at;
        })
        (with_file (local_path dir i) true w.local);
  succeeded = suc w.succeeded;
  completed = suc w.completed;
}
complete dir provider i (failed reason left) w = record w {
  local = with_file (local_path dir i) left w.local;
  dl_errors =
      w.dl_errors ++ (record { filename = i.filename; media_id = i.id; reason = reason }) ∷ [];
  completed = suc w.completed;
}

unfoldable pub complete_all : Name → Name → List (RemoteMedia × Answer) → Work → Work
unfolding complete
complete_all dir provider [] w = w
complete_all dir provider (d ∷ ds) w =
    complete_all dir provider ds (complete dir provider d.0 d.1 w)

abbrev pub result_of : ℕ → Work → MirrorResult × Local
result_of skipped w = (
  record {
    succeeded = w.succeeded;
    skipped = skipped;
    failed_count = length w.dl_errors;
    errors = w.dl_errors;
  },
  w.local,
)

-- `MirrorAlbum` from the filter on. `ends` says in which order the workers end with which answers.
unfoldable pub mirror_items :
    (List RemoteMedia → List (RemoteMedia × Answer))
    → Name
    → Name
    → List RemoteMedia
    → Local
    → MirrorResult × Local
unfolding to_download skipped_count complete_all
mirror_items ends dir provider items l =
    let skipped = skipped_count dir l items in
    elim (to_download dir l items) [
      | [] ↦ (record { succeeded = skipped; skipped = skipped; failed_count = 0; errors = [] }, l)
      | i ∷ is ↦ result_of skipped (
          complete_all dir provider (ends (i ∷ is))
            (record { local = l; succeeded = 0; dl_errors = []; completed = 0 }))
    ]
