-- ===== src/Storage/Meta.antt =====
-- internal/storage/sqlite.go: the table of cloud media.
use cull_snap.Base.{
  ℕ, List, [], ◌∷◌, ◌++◌, Bool, true, false, Option, if◌then◌else◌, if_elim, ◌≡◌, refl, All,
}
use cull_snap.Paths.{Name}
use cull_snap.Storage.Tables.{get, put}
use cull_snap.Storage.Like.{like, starts_with, IsLiteral, like-starts_with, like_literal}

-- `CloudMediaMeta`
pub record CloudMediaMeta : Type 0 where
  pub local_path : Name
  pub remote_id : Name
  pub provider_id : Name
  pub remote_updated_at : ℕ

abbrev pub meta_key : CloudMediaMeta → Name
meta_key m = m.local_path

unfoldable pub save_cloud_media_meta : CloudMediaMeta → List CloudMediaMeta → List CloudMediaMeta
save_cloud_media_meta m rows = put meta_key m rows

unfoldable pub get_cloud_media_meta : Name → List CloudMediaMeta → Option CloudMediaMeta
get_cloud_media_meta p rows = get meta_key p rows

unfoldable pub delete_cloud_media_meta_by_prefix : Name → List CloudMediaMeta → List CloudMediaMeta
delete_cloud_media_meta_by_prefix prefix [] = []
delete_cloud_media_meta_by_prefix prefix (m ∷ ms) =
    let rest = delete_cloud_media_meta_by_prefix prefix ms in
    if like (prefix ++ (b'%' ∷ [])) m.local_path then rest else m ∷ rest

-- The rows whose path does not begin with the prefix, but for the case of letters.
abbrev pub outside : Name → List CloudMediaMeta → List CloudMediaMeta
outside prefix [] = []
outside prefix (m ∷ ms) =
    if starts_with prefix m.local_path then outside prefix ms else m ∷ outside prefix ms

none_left :
    (prefix : Name) (rows : List CloudMediaMeta)
    → All
        (λ m. starts_with prefix m.local_path ≡ false)
        (delete_cloud_media_meta_by_prefix prefix rows)
unfolding delete_cloud_media_meta_by_prefix
none_left prefix [] = tt
none_left prefix (m ∷ ms) =
    if_elim (All (λ r. starts_with prefix r.local_path ≡ false))
      (like (prefix ++ (b'%' ∷ [])) m.local_path) (λ e. none_left prefix ms)
      (λ e. (unmatched (starts_with prefix m.local_path) refl e, none_left prefix ms))
  where
    unmatched :
        (b : Bool)
        → starts_with prefix m.local_path ≡ b
        → like (prefix ++ (b'%' ∷ [])) m.local_path ≡ false
        → starts_with prefix m.local_path ≡ false
    unmatched true q e = let k = like-starts_with prefix m.local_path q in cc
    unmatched false q e = q

literal_delete :
    (prefix : Name) (rows : List CloudMediaMeta)
    → All IsLiteral prefix
    → delete_cloud_media_meta_by_prefix prefix rows ≡ outside prefix rows
unfolding delete_cloud_media_meta_by_prefix
literal_delete prefix [] a = refl
literal_delete prefix (m ∷ ms) a =
    rw (like_literal prefix m.local_path a, literal_delete prefix ms a) refl

-- DeleteCloudMediaMetaByPrefix leaves no row whose path begins with the prefix, for every prefix;
-- for a prefix without a percent sign or an underscore it leaves exactly the others. Letters compare
-- without their case.
pub delete_cloud_media_meta_by_prefix-leaves :
    (prefix : Name) (rows : List CloudMediaMeta)
    → All
        (λ m. starts_with prefix m.local_path ≡ false)
        (delete_cloud_media_meta_by_prefix prefix rows)
      × (All IsLiteral prefix → delete_cloud_media_meta_by_prefix prefix rows ≡ outside prefix rows)
delete_cloud_media_meta_by_prefix-leaves prefix rows =
    (none_left prefix rows, literal_delete prefix rows)
