-- ===== src/Tests/Mirror.antt =====
-- internal/cloudsource/mirror.go on an album of two media.
use cull_snap.Base.{ℕ, List, [], ◌∷◌, true, false, map, ◌≡◌, inl, inr, refl}
use cull_snap.Paths.{Name, ext, has, same}
use cull_snap.Cloud.Names.{sanitize_id, replace_all, is_kept, base, trim_slashes, last_element}
use cull_snap.Storage.Meta.{get_cloud_media_meta}
use cull_snap.Storage.Tables.{get}
use cull_snap.Cloud.Mirror.{
  RemoteMedia, Local, Answer, downloaded, failed, local_path, to_download, mirror_items,
  is_mirrored, has_file, is_recent,
}
use cull_snap.Cloud.Mirror.Converges.{Agree, mirror_items-converges}

abbrev medium : ℕ → ℕ → RemoteMedia
medium c t = record { id = c ∷ []; filename = b'x' ∷ []; size_bytes = 10; updated_at = t }

abbrev album : List RemoteMedia
album = medium b'a' 3 ∷ medium b'b' 3 ∷ []

abbrev empty_local : Local
empty_local = record { media = []; files = [] }

abbrev dir : Name
dir = b'd' ∷ []

abbrev all_done : List RemoteMedia → List (RemoteMedia × Answer)
all_done = map (λ i. (i, downloaded))

album-Agree : Agree dir [] album
album-Agree i j (inl e) (inl k) q = rw (e, k) refl
album-Agree i j (inl e) (inr (inl k)) q = rw (e, k) refl
album-Agree i j (inl e) (inr (inr k)) q = absurd k
album-Agree i j (inr (inl e)) (inl k) q = rw (e, k) refl
album-Agree i j (inr (inl e)) (inr (inl k)) q = rw (e, k) refl
album-Agree i j (inr (inl e)) (inr (inr k)) q = absurd k
album-Agree i j (inr (inr e)) k q = absurd e

mirror_items-converges_example :
    to_download dir (mirror_items all_done dir [] album empty_local).1 album ≡ []
unfolding to_download is_mirrored get_cloud_media_meta get
mirror_items-converges_example =
    mirror_items-converges dir [] all_done album empty_local album-Agree (refl, (refl, tt))
      (λ j h. h) (λ j h. h)

-- The record of a medium, without its file.
abbrev lost : Local
lost = record {
  media =
      record {
        local_path = b'd' ∷ b'/' ∷ b'a' ∷ [];
        remote_id = b'a' ∷ [];
        provider_id = [];
        remote_updated_at = 3;
      }
      ∷ [];
  files = [];
}

lost-is_recent :
    is_recent 3 (get_cloud_media_meta (local_path dir (medium b'a' 3)) lost.media) ≡ true
unfolding get_cloud_media_meta get local_path sanitize_id replace_all is_kept base trim_slashes
    last_element ext has same
lost-is_recent = refl

lost-has_file : has_file (local_path dir (medium b'a' 3)) lost.files ≡ false
unfolding has_file
lost-has_file = refl

abbrev all_fail : List RemoteMedia → List (RemoteMedia × Answer)
all_fail = map (λ j. (j, failed [] true))
