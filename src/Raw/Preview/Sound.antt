-- ===== src/Raw/Preview/Sound.antt =====
-- What `ExtractPreview` returns, and when it fails.
use mathlib.Core.Path.{subst}
use cull_snap.Base.{
  ℕ, [], Bool, true, false, not, ◌||◌, ◌≡◌, refl, ◌<◌, ◌↔◌, Option, none, some, if◌then◌else◌,
  length, ok, err, panic, arith,
}
use cull_snap.Paths.{Name, same, ext, to_lower}
use cull_snap.Raw.File.{Bytes, Error, Res, IsJpeg, IsBytes}
use cull_snap.Raw.Cr3.{extract_cr3_preview}
use cull_snap.Raw.Cr3.Sound.{Finds, extract_cr3_preview-Finds}
use cull_snap.Raw.Raf.{checked_jpeg, checked_jpeg_lem, extract_raf_preview, extract_raf_preview_iff}
use cull_snap.Raw.Tiff.Extract.{extract_tiff_preview}
use cull_snap.Raw.Tiff.Sound.{extract_tiff_preview-IsChosen}
use cull_snap.Raw.Preview.{
  is_preview_large_enough, min_preview_width, cr3, raf, tiff_extensions, extensions, any_same,
  is_raw_ext, native_preview, extract_preview_dcraw, fall_back, choose, extract_preview,
}

-- If `r` is a result, it is a JPEG.
abbrev Jpegs : Res Bytes → Type 0
Jpegs (ok b) = IsJpeg b
Jpegs (err e) = Unit
Jpegs panic = Unit

Jpegs-of : (r : Res Bytes) → ((b : Bytes) → r ≡ ok b → IsJpeg b) → Jpegs r
Jpegs-of (ok b) h = h b refl
Jpegs-of (err e) h = tt
Jpegs-of panic h = tt

Finds-Jpegs : (f : Bytes) (r : Res Bytes) → Finds f r → Jpegs r
Finds-Jpegs f (ok b) h = h.jpeg
Finds-Jpegs f (err e) h = tt
Finds-Jpegs f panic h = tt

abbrev JpegsIf : Option (Res Bytes) → Type 0
JpegsIf none = Unit
JpegsIf (some r) = Jpegs r

native_preview-JpegsIf :
    (e : Name) (f : Bytes)
    → IsBytes f
    → length f < 4611686018427387904
    → JpegsIf (native_preview e f)
unfolding native_preview
native_preview-JpegsIf e f bytes small =
    if-JpegsIf (same e cr3) _ _ (Finds-Jpegs f _ (extract_cr3_preview-Finds f bytes small)) (
      if-JpegsIf (same e raf) _ _
        (Jpegs-of (extract_raf_preview f) λ b q. ((extract_raf_preview_iff f b).0 q).jpeg)
        (if-JpegsIf (any_same e tiff_extensions) _ _
          (Jpegs-of (extract_tiff_preview f)
            λ b q. (extract_tiff_preview-IsChosen f b bytes q).jpeg)
          tt))
  where
    if-JpegsIf :
        (c : Bool) (r s : Option (Res Bytes)) → JpegsIf r → JpegsIf s → JpegsIf (if c then r else s)
    if-JpegsIf true r s h k = h
    if-JpegsIf false r s h k = k

extract_preview_dcraw-Jpegs : (out : Option Bytes) → Jpegs (extract_preview_dcraw out)
unfolding extract_preview_dcraw
extract_preview_dcraw-Jpegs none = tt
extract_preview_dcraw-Jpegs (some out) =
    if-Jpegs _ _ (Jpegs-of (checked_jpeg out) λ b q. (checked_jpeg_lem out q).1)
  where
    if-Jpegs : (c : Bool) (r : Res Bytes) → Jpegs r → Jpegs (if c then err Error.all_failed else r)
    if-Jpegs true r h = tt
    if-Jpegs false r h = h

fall_back-Jpegs :
    (dcraw : Res Bytes) (small : Option Bytes)
    → Jpegs dcraw
    → ((b : Bytes) → small ≡ some b → IsJpeg b)
    → Jpegs (fall_back dcraw small)
fall_back-Jpegs (ok b) small h k = h
fall_back-Jpegs (err e) none h k = tt
fall_back-Jpegs (err e) (some b) h k = k b refl
fall_back-Jpegs panic small h k = tt

choose-Jpegs :
    (width : Bytes → Option ℕ) (dcraw : Res Bytes) (native : Option (Res Bytes))
    → Jpegs dcraw
    → JpegsIf native
    → Jpegs (choose width dcraw native)
choose-Jpegs width dcraw none h k = fall_back-Jpegs dcraw none h (λ b e. cc)
choose-Jpegs width dcraw (some (ok b)) h k =
    if-Jpegs' (is_preview_large_enough width b min_preview_width) (ok b) (fall_back dcraw (some b))
      k
      (fall_back-Jpegs dcraw (some b) h
        (λ c e. let same_bytes : b ≡ c = cc in subst IsJpeg same_bytes k))
  where
    if-Jpegs' : (c : Bool) (r s : Res Bytes) → Jpegs r → Jpegs s → Jpegs (if c then r else s)
    if-Jpegs' true r s p q = p
    if-Jpegs' false r s p q = q
choose-Jpegs width dcraw (some (err e)) h k = fall_back-Jpegs dcraw none h (λ b e. cc)
choose-Jpegs width dcraw (some panic) h k = tt

-- Whatever `ExtractPreview` returns begins with the marker of a JPEG: a native preview, or the
-- output of dcraw, which may be any bytes.
pub extract_preview-IsJpeg :
    (width : Bytes → Option ℕ) (dcraw : Option Bytes) (path : Name) (f b : Bytes)
    → IsBytes f
    → length f < 4611686018427387904
    → extract_preview width dcraw path f ≡ ok b
    → IsJpeg b
unfolding extract_preview
extract_preview-IsJpeg width dcraw path f b bytes small e =
    rw (found (same x []) (not (is_raw_ext x)) _ e) at (
      choose-Jpegs width (extract_preview_dcraw dcraw) (native_preview x f)
        (extract_preview_dcraw-Jpegs dcraw) (native_preview-JpegsIf x f bytes small))
  where
    x : Name
    x = to_lower (ext path)

    found :
        (c d : Bool) (r : Res Bytes)
        → (if c then err Error.no_extension else if d then err Error.unsupported_extension else r)
          ≡ ok b
        → r ≡ ok b
    found true d r q = cc
    found false true r q = cc
    found false false r q = q

extensions_lem :
    (e : Name) → any_same e extensions ≡ (same e cr3 || (same e raf || any_same e tiff_extensions))
unfolding any_same
extensions_lem e = ground arith

-- The switch has a parser for an extension in lower case exactly when the table has the extension.
pub native_preview_iff :
    (e : Name) (f : Bytes)
    → to_lower e ≡ e
    → (is_raw_ext e ≡ true) ↔ ((r : Res Bytes) × (native_preview e f ≡ some r))
unfolding is_raw_ext native_preview
native_preview_iff e f low =
    rw (low, extensions_lem e)
      (cases (same e cr3) (same e raf) (any_same e tiff_extensions) (extract_cr3_preview f)
        (extract_raf_preview f) (extract_tiff_preview f))
  where
    cases :
        (c d t : Bool) (x y z : Res Bytes)
        → ((c || (d || t)) ≡ true) ↔ (
            (r : Res Bytes) × ((if c
                then some x
                else if d
                then some y
                else if t
                then some z
                else none)
              ≡ some r))
    cases true d t x y z = (λ h. (x, refl), λ h. refl)
    cases false true t x y z = (λ h. (y, refl), λ h. refl)
    cases false false true x y z = (λ h. (z, refl), λ h. refl)
    cases false false false x y z = (λ h. absurd (let q = h in cc), λ h. cc)
