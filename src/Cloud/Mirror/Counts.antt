-- ===== src/Cloud/Mirror/Counts.antt =====
-- The counts of `MirrorAlbum`, and a download that leaves a part of a file.
use cull_snap.Base.{
  List-cases, suc, ◌+◌, List, [], ◌∷◌, true, false, length, map, ◌≡◌, ◌≢◌, refl, arith, ◌⊎◌, inl,
  inr, ap, ◌∙◌, sym, length-append,
}
use cull_snap.Paths.{Name}
use cull_snap.Storage.Tables.{same_refl}
use cull_snap.Storage.Meta.{get_cloud_media_meta}
use cull_snap.Cloud.Mirror.{
  RemoteMedia, Local, Answer, downloaded, failed, Work, local_path, has_file, is_recent,
  is_mirrored, to_download, skipped_count, with_file, complete, complete_all, mirror_items,
}
use cull_snap.Cloud.Mirror.Converges.{
  IsIn, nil-not-cons, mirror_items_none, mirror_items_some, to_download-nil, first_work,
}

module _ (dir provider : Name) where
  complete-counts :
      (i : RemoteMedia) (a : Answer) (w : Work)
      → (complete dir provider i a w).succeeded + length (complete dir provider i a w).dl_errors
        ≡ suc (w.succeeded + length w.dl_errors)
  unfolding complete
  complete-counts i downloaded w = omega arith
  complete-counts i (failed reason left) w = omega (
    arith,
    length-append w.dl_errors
        ((record { filename = i.filename; media_id = i.id; reason = reason }) ∷ []),
  )

  complete_all-counts :
      (ds : List (RemoteMedia × Answer)) (w : Work)
      → (complete_all dir provider ds w).succeeded
          + length (complete_all dir provider ds w).dl_errors
        ≡ w.succeeded + length w.dl_errors + length ds
  unfolding complete_all
  complete_all-counts [] w = omega arith
  complete_all-counts ((i, a) ∷ ds) w =
      omega (arith, complete_all-counts ds (complete dir provider i a w), complete-counts i a w)

  to_download-counts :
      (l : Local) (items : List RemoteMedia)
      → skipped_count dir l items + length (to_download dir l items) ≡ length items
  unfolding to_download skipped_count
  to_download-counts l [] = omega arith
  to_download-counts l (i ∷ is) = ground (arith, to_download-counts l is)

  -- If every medium of the queue is tried once, the counts of the result account for every medium.
  -- When nothing is to be downloaded, the skipped media are also counted as succeeded.
  pub mirror_items-counts :
      (ends : List RemoteMedia → List (RemoteMedia × Answer)) (items : List RemoteMedia) (l : Local)
      → length (ends (to_download dir l items)) ≡ length (to_download dir l items)
      → ((to_download dir l items ≡ [])
          × ((mirror_items ends dir provider items l).0.skipped ≡ length items)
          × ((mirror_items ends dir provider items l).0.succeeded ≡ length items)
          × ((mirror_items ends dir provider items l).0.failed_count ≡ 0))
        ⊎ ((to_download dir l items ≢ [])
            × ((mirror_items ends dir provider items l).0.skipped
                  + (mirror_items ends dir provider items l).0.succeeded
                  + (mirror_items ends dir provider items l).0.failed_count
                ≡ length items))
  mirror_items-counts ends items l n = elim (List-cases (to_download dir l items)) [
    | inl e ↦
        (let t = to_download-counts l items in
          let k = ap (length {A = RemoteMedia}) e in
          rw (mirror_items_none dir provider ends items l e)
            (inl (e, omega arith, omega arith, refl)))
    | inr q ↦
        (let t = to_download-counts l items in
          let c =
            complete_all-counts (ends (to_download dir l items)) (first_work dir provider l) in
          rw (mirror_items_some dir provider ends items l q.0 q.1 q.2)
            (inr ((λ e. nil-not-cons (sym e ∙ q.2)), omega arith)))
  ]

  wanted :
      (i : RemoteMedia) (l : Local)
      → has_file (local_path dir i) l.files ≡ false
      → to_download dir l (i ∷ []) ≡ i ∷ []
  unfolding to_download is_mirrored
  wanted i l n = ground arith

  part_taken :
      (i : RemoteMedia) (l : Local)
      → is_recent i.updated_at (get_cloud_media_meta (local_path dir i) l.media) ≡ true
      → is_mirrored dir (with_file (local_path dir i) true l) i ≡ true
  unfolding is_mirrored has_file
  part_taken i l r = rw (r, same_refl (local_path dir i)) refl

  -- If the record of a medium is up to date but its file is missing, and the download fails and leaves
  -- a part of the file, then the next run takes the part for the file and downloads nothing.
  pub partial_file-skipped :
      (i : RemoteMedia) (l : Local) (reason : Name)
      → is_recent i.updated_at (get_cloud_media_meta (local_path dir i) l.media) ≡ true
      → has_file (local_path dir i) l.files ≡ false
      → ((mirror_items (map (λ j. (j, failed reason true))) dir provider (i ∷ []) l).0.failed_count
          ≡ 1)
        × (to_download dir
              (mirror_items (map (λ j. (j, failed reason true))) dir provider (i ∷ []) l).1
              (i ∷ [])
            ≡ [])
  unfolding complete_all complete
  partial_file-skipped i l reason r n =
      let q = wanted i l n in
      rw (mirror_items_some dir provider (map (λ j. (j, failed reason true))) (i ∷ []) l i [] q, q)
        (refl, to_download-nil dir provider _ (i ∷ []) (λ j m. only j m))
    where
      only :
          (j : RemoteMedia)
          → IsIn j (i ∷ [])
          → is_mirrored dir (with_file (local_path dir i) true l) j ≡ true
      only j (inl e) = rw e (part_taken i l r)
      only j (inr h) = absurd h
