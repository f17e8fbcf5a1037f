-- ===== src/Raw/Tiff/Extract.antt =====
-- internal/raw/tiff.go: `extractTIFFPreview` and `isAcceptedTIFFMagic`.
use cull_snap.Base.{
  ℕ, suc, ◌+◌, List, [], ◌∷◌, Bool, ltb, ◌==◌, ◌||◌, ◌&&◌, not, if◌then◌else◌, length, get_or, ok,
  err, ◌>>=◌,
}
use cull_snap.Raw.File.{
  Bytes, too_small, bad_byte_order, big_tiff, bad_magic, no_preview, preview_beyond_eof, not_soi,
  Res, Order, little, big, read_at, u16_at, u32_at,
}
use cull_snap.Raw.Tiff.Ifd.{JpegPreview}
use cull_snap.Raw.Tiff.Walk.{start, max_ifds, walk_chain}

unfoldable pub is_accepted_tiff_magic : ℕ → Bool
is_accepted_tiff_magic magic = magic == 42 || magic == 0x4F52 || magic == 0x5253 || magic == 0x0055

-- The switch on `hdr[0:2]`: "II" or "MM".
unfoldable pub byte_order : Bytes → Res Order
byte_order hdr =
    if get_or hdr 0 0 == b'I' && get_or hdr 1 0 == b'I'
    then ok little
    else if get_or hdr 0 0 == b'M' && get_or hdr 1 0 == b'M'
    then ok big
    else err bad_byte_order

-- The first preview of the greatest size.
unfoldable pub pick : JpegPreview → List JpegPreview → JpegPreview
pick best [] = best
pick best (p ∷ ps) = pick (if ltb best.size p.size then p else best) ps

unfoldable pub select : List JpegPreview → Res JpegPreview
unfolding pick
select [] = err no_preview
select (p ∷ ps) = ok (pick p ps)

-- What follows the choice: the bounds, the read, and the marker of a JPEG.
unfoldable pub read_preview : Bytes → JpegPreview → Res Bytes
read_preview f best =
    if ltb (length f) (best.offset + best.size) then err preview_beyond_eof else do
      buf ← read_at f best.size best.offset
      if ltb (length buf) 2 || not (u16_at big buf 0 == 0xFFD8) then err not_soi else ok buf

unfoldable pub extract_tiff_preview : Bytes → Res Bytes
extract_tiff_preview f = if ltb (length f) 8 then err too_small else do
  hdr ← read_at f 8 0
  bo ← byte_order hdr
  let magic = u16_at bo hdr 2
  if magic == 43
      then err big_tiff
      else if not (is_accepted_tiff_magic magic)
      then err bad_magic
      else do
        w ← walk_chain f bo (suc max_ifds) (u32_at bo hdr 4) start
        best ← select w.previews
        read_preview f best
