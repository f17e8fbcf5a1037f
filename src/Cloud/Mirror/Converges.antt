-- ===== src/Cloud/Mirror/Converges.antt =====
-- What a run of `MirrorAlbum` leaves for the next one.
use cull_snap.Base.{
  List-cases, ap-if, ℕ, List, [], ◌∷◌, true, false, some, leb, if◌then◌else◌, if_elim, ◌≡◌, ◌≢◌,
  refl, arith, All, ◌⊎◌, inl, inr, ap, ◌∙◌, Bool-cases, sym,
}
use cull_snap.Paths.{Name, same}
use cull_snap.Storage.Tables.{get, get-put, same_refl, same_eq}
use cull_snap.Storage.Meta.{CloudMediaMeta, meta_key, get_cloud_media_meta, save_cloud_media_meta}
use cull_snap.Cloud.Mirror.{
  RemoteMedia, Local, Answer, downloaded, Work, local_path, has_file, is_recent, is_mirrored,
  to_download, skipped_count, complete, complete_all, result_of, mirror_items,
}

abbrev pub IsIn : {A : Type 0} → A → List A → Type 0
IsIn x [] = ⊥
IsIn x (y ∷ ys) = (x ≡ y) ⊎ IsIn x ys

abbrev meta_of : Name → Name → RemoteMedia → CloudMediaMeta
meta_of dir provider i = record {
  local_path = local_path dir i;
  remote_id = i.id;
  provider_id = provider;
  remote_updated_at = i.updated_at;
}

-- The record of a path after one is saved.
recent-saved :
    (t : ℕ) (k : Name) (r : CloudMediaMeta) (rows : List CloudMediaMeta)
    → is_recent t (get_cloud_media_meta k (save_cloud_media_meta r rows)) ≡ (
        if same r.local_path k
        then leb t r.remote_updated_at
        else is_recent t (get_cloud_media_meta k rows))
unfolding get_cloud_media_meta save_cloud_media_meta
recent-saved t k r rows =
    ap (is_recent t) (get-put meta_key k r rows)
    ∙ ap-if (is_recent t) (same r.local_path k) (some r) (get meta_key k rows)

leb_refl : (t : ℕ) → leb t t ≡ true
leb_refl t = ground arith

pub nil-not-cons : {A : Type 0} {x : A} {xs : List A} → ◌≢◌ {A = List A} [] (x ∷ xs)
nil-not-cons e = cc

module _ (dir provider : Name) where
  complete-is_mirrored :
      (i : RemoteMedia) (w : Work)
      → is_mirrored dir (complete dir provider i downloaded w).local i ≡ true
  unfolding is_mirrored complete has_file
  complete-is_mirrored i w =
      rw
        (
          recent-saved i.updated_at (local_path dir i) (meta_of dir provider i) w.local.media,
          same_refl (local_path dir i),
          leb_refl i.updated_at,
        )
        refl

  -- Another download that would write the same record keeps it.
  is_mirrored-kept :
      (i j : RemoteMedia) (w : Work)
      → (local_path dir j ≡ local_path dir i → j.updated_at ≡ i.updated_at)
      → is_mirrored dir w.local i ≡ true
      → is_mirrored dir (complete dir provider j downloaded w).local i ≡ true
  unfolding is_mirrored complete has_file
  is_mirrored-kept i j w h e = elim (Bool-cases (same (local_path dir j) (local_path dir i))) [
    | inl q ↦
        (let t = h (same_eq (local_path dir j) (local_path dir i) q) in
          rw
            (
              recent-saved i.updated_at (local_path dir i) (meta_of dir provider j) w.local.media,
              q,
              t,
              leb_refl i.updated_at,
            )
            refl)
    | inr q ↦
        rw (recent-saved i.updated_at (local_path dir i) (meta_of dir provider j) w.local.media, q)
          e
  ]

  -- Two media that are mirrored to one path were changed at one time.
  abbrev pub Agree : List RemoteMedia → Type 0
  Agree items =
      (i j : RemoteMedia)
      → IsIn i items
      → IsIn j items
      → local_path dir i ≡ local_path dir j
      → i.updated_at ≡ j.updated_at

  abbrev pub firsts : List (RemoteMedia × Answer) → List RemoteMedia
  firsts [] = []
  firsts (d ∷ ds) = d.0 ∷ firsts ds

  complete_all-kept :
      (items : List RemoteMedia)
      → Agree items
      → (i : RemoteMedia) (ds : List (RemoteMedia × Answer)) (w : Work) → IsIn i items
      → All (λ d. d.1 ≡ downloaded) ds
      → ((j : RemoteMedia) → IsIn j (firsts ds) → IsIn j items)
      → is_mirrored dir w.local i ≡ true
      → is_mirrored dir (complete_all dir provider ds w).local i ≡ true
  unfolding complete_all
  complete_all-kept items a i [] w m all sub e = e
  complete_all-kept items a i (d ∷ ds) w m all sub e =
      complete_all-kept items a i ds (complete dir provider d.0 d.1 w) m all.1
        (λ j h. sub j (inr h))
        (rw all.0 (is_mirrored-kept i d.0 w (a d.0 i (sub d.0 (inl refl)) m) e))

  complete_all-is_mirrored :
      (items : List RemoteMedia)
      → Agree items
      → (i : RemoteMedia) (ds : List (RemoteMedia × Answer)) (w : Work) → IsIn i items
      → All (λ d. d.1 ≡ downloaded) ds
      → ((j : RemoteMedia) → IsIn j (firsts ds) → IsIn j items)
      → IsIn i (firsts ds)
      → is_mirrored dir (complete_all dir provider ds w).local i ≡ true
  unfolding complete_all
  complete_all-is_mirrored items a i [] w m all sub h = absurd h
  complete_all-is_mirrored items a i (d ∷ ds) w m all sub (inl e) =
      complete_all-kept items a i ds (complete dir provider d.0 d.1 w) m all.1
        (λ j k. sub j (inr k)) (rw (all.0, e) (complete-is_mirrored d.0 w))
  complete_all-is_mirrored items a i (d ∷ ds) w m all sub (inr h) =
      complete_all-is_mirrored items a i ds (complete dir provider d.0 d.1 w) m all.1
        (λ j k. sub j (inr k)) h

  to_download-IsIn :
      (l : Local) (items : List RemoteMedia) (i : RemoteMedia)
      → IsIn i items
      → is_mirrored dir l i ≡ false
      → IsIn i (to_download dir l items)
  unfolding to_download
  to_download-IsIn l [] i h e = h
  to_download-IsIn l (x ∷ xs) i (inl q) e = rw (sym q, e) (inl refl)
  to_download-IsIn l (x ∷ xs) i (inr h) e =
      if_elim (IsIn i) (is_mirrored dir l x) (λ q. to_download-IsIn l xs i h e)
        (λ q. inr (to_download-IsIn l xs i h e))

  pub to_download-nil :
      (l : Local) (items : List RemoteMedia)
      → ((i : RemoteMedia) → IsIn i items → is_mirrored dir l i ≡ true)
      → to_download dir l items ≡ []
  unfolding to_download
  to_download-nil l [] h = refl
  to_download-nil l (x ∷ xs) h = rw (h x (inl refl)) (to_download-nil l xs (λ i k. h i (inr k)))

  every_mirrored :
      (items : List RemoteMedia) (l : Local) (ds : List (RemoteMedia × Answer)) (w : Work)
      → Agree items
      → w.local ≡ l
      → All (λ d. d.1 ≡ downloaded) ds
      → ((j : RemoteMedia) → IsIn j (firsts ds) → IsIn j items)
      → ((j : RemoteMedia) → IsIn j (to_download dir l items) → IsIn j (firsts ds))
      → (i : RemoteMedia) → IsIn i items
      → is_mirrored dir (complete_all dir provider ds w).local i ≡ true
  every_mirrored items l ds w a q all sub sup i m = elim (Bool-cases (is_mirrored dir l i)) [
    | inl e ↦ complete_all-kept items a i ds w m all sub (rw q e)
    | inr e ↦
        complete_all-is_mirrored items a i ds w m all sub (sup i (to_download-IsIn l items i m e))
  ]

  abbrev pub first_work : Local → Work
  first_work l = record { local = l; succeeded = 0; dl_errors = []; completed = 0 }

  pub mirror_items_none :
      (ends : List RemoteMedia → List (RemoteMedia × Answer)) (items : List RemoteMedia) (l : Local)
      → to_download dir l items ≡ []
      → mirror_items ends dir provider items l ≡ (
        record {
          succeeded = skipped_count dir l items;
          skipped = skipped_count dir l items;
          failed_count = 0;
          errors = [];
        },
        l,
      )
  unfolding mirror_items
  mirror_items_none ends items l e = rw (mirror_items, e) refl

  pub mirror_items_some :
      (ends : List RemoteMedia → List (RemoteMedia × Answer)) (items : List RemoteMedia) (l : Local)
      (i : RemoteMedia) (is : List RemoteMedia)
      → to_download dir l items ≡ i ∷ is
      → mirror_items ends dir provider items l
        ≡ result_of
            (skipped_count dir l items)
            (complete_all dir provider (ends (to_download dir l items)) (first_work l))
  unfolding mirror_items
  mirror_items_some ends items l i is e = rw (mirror_items, e) refl

  -- If media that are mirrored to one path were changed at one time, and every medium of the queue is
  -- downloaded, in whatever order, then the next run over the same media downloads nothing.
  pub mirror_items-converges :
      (ends : List RemoteMedia → List (RemoteMedia × Answer)) (items : List RemoteMedia) (l : Local)
      → Agree items
      → All (λ d. d.1 ≡ downloaded) (ends (to_download dir l items))
      → ((j : RemoteMedia) → IsIn j (firsts (ends (to_download dir l items))) → IsIn j items)
      → ((j : RemoteMedia)
          → IsIn j (to_download dir l items)
          → IsIn j (firsts (ends (to_download dir l items))))
      → to_download dir (mirror_items ends dir provider items l).1 items ≡ []
  mirror_items-converges ends items l a all sub sup = elim (List-cases (to_download dir l items)) [
    | inl e ↦ rw (mirror_items_none ends items l e) e
    | inr q ↦ rw (mirror_items_some ends items l q.0 q.1 q.2) (
        to_download-nil _ items (
          every_mirrored items l (ends (to_download dir l items)) (first_work l) a refl all sub
            sup))
  ]
