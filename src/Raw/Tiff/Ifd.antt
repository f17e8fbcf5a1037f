-- ===== src/Raw/Tiff/Ifd.antt =====
-- internal/raw/tiff.go: `parseIFD`.
use cull_snap.Base.{
  ℕ, zero, suc, ◌+◌, ◌*◌, ◌%◌, List, [], ◌∷◌, Bool, true, false, ◌&&◌, ◌||◌, Option, none, some,
  ltb, ◌==◌, if◌then◌else◌, length, drop, ok, err, ◌>>=◌,
}
use cull_snap.Raw.File.{
  Bytes, ifd_beyond_eof, ifd_too_long, Res, Order, Slice, read_at, u16_at, u32_at,
}
use cull_snap.Raw.Tiff.Values.{u32, read_tag_value, read_tag_values}

-- `jpegPreview`
pub record JpegPreview : Type 0 where
  pub offset : ℕ
  pub size : ℕ

-- The variables that the loop over the entries sets.
pub record Tags : Type 0 where
  pub compression : ℕ
  pub has_compression : Bool
  pub strip_offsets : List ℕ
  pub strip_byte_counts : List ℕ
  pub jpeg_offset : ℕ
  pub jpeg_length : ℕ
  pub sub_ifds : List ℕ

abbrev pub no_tags : Tags
no_tags = record {
  compression = 0;
  has_compression = false;
  strip_offsets = [];
  strip_byte_counts = [];
  jpeg_offset = 0;
  jpeg_length = 0;
  sub_ifds = [];
}

-- One entry: `entry` is `entriesBuf[i*12:]` up to the capacity of the buffer.
unfoldable pub entry_step : Bytes → Order → Bytes → Tags → Res Tags
entry_step f bo entry t =
    let tag = u16_at bo entry 0 in
    let typ = u16_at bo entry 2 in
    let count = u32_at bo entry 4 in
    let value = let s : Slice = record { mem = drop 8 entry; len = 4 } in s in
    let one = read_tag_value bo typ count value in
    let many = read_tag_values f bo typ count value in
    if tag == 0x0103
    then ok (record t { compression = one; has_compression = true })
    else if tag == 0x0111
    then many >>= (λ vs. ok (record t { strip_offsets = vs }))
    else if tag == 0x0117
    then many >>= (λ vs. ok (record t { strip_byte_counts = vs }))
    else if tag == 0x0201
    then ok (record t { jpeg_offset = one })
    else if tag == 0x0202
    then ok (record t { jpeg_length = one })
    else if tag == 0x014A
    then many >>= (λ vs. ok (record t { sub_ifds = vs }))
    else ok t

-- The loop over the entries, with the entries left and the buffer from the next one on.
unfoldable pub entries : Bytes → Order → ℕ → Bytes → Tags → Res Tags
entries f bo zero buf t = ok t
entries f bo (suc n) buf t = do t' ← entry_step f bo buf t; entries f bo n (drop 12 buf) t'

unfoldable pub sum_u32 : ℕ → List ℕ → ℕ
sum_u32 total [] = total
sum_u32 total (bc ∷ bcs) = sum_u32 ((total + bc) % u32) bcs

-- Path 1: one strip after the other, JPEG-compressed.
strip_preview : Tags → List ℕ → Option JpegPreview
strip_preview t [] = none
strip_preview t (first ∷ rest) =
    let total = sum_u32 0 t.strip_byte_counts in
    if t.has_compression
      && (t.compression == 6 || t.compression == 7)
      && ltb 0 (length t.strip_byte_counts)
      && length (first ∷ rest) == length t.strip_byte_counts
      && ltb 0 total
    then some (record { offset = first; size = total })
    else none

-- Path 2: JPEGInterchangeFormat with its length, if it is the larger.
larger : JpegPreview → Option JpegPreview → Option JpegPreview
larger c none = some c
larger c (some p) = if ltb p.size c.size then some c else some p

unfoldable pub preview_of : Tags → Option JpegPreview
unfolding strip_preview larger
preview_of t =
    let strip = strip_preview t t.strip_offsets in
    if ltb 0 t.jpeg_offset && ltb 0 t.jpeg_length
    then larger (record { offset = t.jpeg_offset; size = t.jpeg_length }) strip
    else strip

pub record Ifd : Type 0 where
  pub preview : Option JpegPreview
  pub next : ℕ
  pub sub_ifds : List ℕ

unfoldable pub parse_ifd : Bytes → Order → ℕ → Res Ifd
parse_ifd f bo offset = if ltb (length f) (offset + 2) then err ifd_beyond_eof else do
  count_buf ← read_at f 2 offset
  let count = u16_at bo count_buf 0
  if ltb (length f) (offset + 2 + count * 12 + 4) then err ifd_too_long else do
    buf ← read_at f (count * 12 + 4) (offset + 2)
    t ← entries f bo count buf no_tags
    ok (record { preview = preview_of t; next = u32_at bo buf (count * 12); sub_ifds = t.sub_ifds })
