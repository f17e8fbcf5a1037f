-- ===== src/Raw/Raf.antt =====
-- internal/raw/raf.go: the preview of a Fujifilm RAF file.
use cull_snap.Base.{
  ℕ, ◌+◌, [], ◌∷◌, ◌≡◌, ◌≢◌, ◌↔◌, Bool, true, false, not, ◌||◌, ◌==◌, ltb, if◌then◌else◌, length,
  get_or, take, Bool-cases, inl, inr, ok, err, ◌>>=◌, bind-eq-ok, arith, ◌≤◌, ap, le→ltb, ne→==,
}
use cull_snap.Raw.File.{
  Bytes, too_small, bad_raf_magic, zero_jpeg, preview_beyond_eof, not_soi, Res, big, read_at,
  u32_at, IsPart, read_at-IsPart, IsPart-read_at, IsPart-length, IsJpeg,
}
use cull_snap.Paths.{same}

-- "FUJIFILMCCD-RAW "
abbrev pub raf_magic : Bytes
raf_magic =
    b'F' ∷ b'U' ∷ b'J' ∷ b'I' ∷ b'F' ∷ b'I' ∷ b'L' ∷ b'M' ∷ b'C' ∷ b'C' ∷ b'D' ∷ b'-' ∷ b'R' ∷ b'A'
    ∷ b'W' ∷ b' ' ∷ []

-- `rafDirOffset + rafDirMinSize`
abbrev pub raf_min_size : ℕ
raf_min_size = 92

-- The test on the first two bytes of what was read.
unfoldable pub checked_jpeg : Bytes → Res Bytes
checked_jpeg buf =
    if ltb (length buf) 2 || not (get_or buf 0 0 == 0xFF) || not (get_or buf 1 0 == 0xD8)
    then err not_soi
    else ok buf

unfoldable pub extract_raf_preview : Bytes → Res Bytes
extract_raf_preview f = if ltb (length f) raf_min_size then err too_small else do
  hdr ← read_at f raf_min_size 0
  let jpeg_offset = u32_at big hdr 84
  let jpeg_length = u32_at big hdr 88
  if not (same (take 16 hdr) raf_magic)
      then err bad_raf_magic
      else if jpeg_offset == 0 || jpeg_length == 0
      then err zero_jpeg
      else if ltb (length f) (jpeg_offset + jpeg_length)
      then err preview_beyond_eof
      else do buf ← read_at f jpeg_length jpeg_offset; checked_jpeg buf

abbrev IsSoi : Bytes → Type 0
IsSoi [] = ⊥
IsSoi (x ∷ []) = ⊥
IsSoi (x ∷ y ∷ r) = (x ≡ 0xFF) × (y ≡ 0xD8)

IsJpeg_of : (b : Bytes) → IsSoi b → IsJpeg b
IsJpeg_of [] h = absurd h
IsJpeg_of (x ∷ []) h = absurd h
IsJpeg_of (x ∷ y ∷ r) h = record { rest = r; starts = ground arith }

pub checked_jpeg_lem : (buf : Bytes) {b : Bytes} → checked_jpeg buf ≡ ok b → (buf ≡ b) × IsJpeg b
unfolding checked_jpeg
checked_jpeg_lem [] e = cc
checked_jpeg_lem (x ∷ []) e = cc
checked_jpeg_lem (x ∷ y ∷ r) {b} e =
    let same_bytes : x ∷ y ∷ r ≡ b = ground arith in
    (same_bytes, rw same_bytes at (IsJpeg_of (x ∷ y ∷ r) (ground arith)))

IsJpeg-checked : (b : Bytes) → IsJpeg b → checked_jpeg b ≡ ok b
unfolding checked_jpeg
IsJpeg-checked b j = rw j.starts (ground arith)

-- What the header of a RAF file says of its JPEG `b`.
pub record IsRafJpeg (f b : Bytes) : Type 0 where
  pub header : Bytes
  pub header_part : IsPart f header 0 raf_min_size
  pub magic : same (take 16 header) raf_magic ≡ true
  pub offset_ne : u32_at big header 84 ≢ 0
  pub part : IsPart f b (u32_at big header 84) (u32_at big header 88)
  pub jpeg : IsJpeg b

refusals_lem :
    (c d e : Bool) (m : Res Bytes) {b : Bytes}
    → (if not c
        then err bad_raf_magic
        else if d
        then err zero_jpeg
        else if e
        then err preview_beyond_eof
        else m)
      ≡ ok b
    → (c ≡ true) × (d ≡ false) × (m ≡ ok b)
refusals_lem c d e m h = ground arith

extract_raf_preview-IsRafJpeg : (f b : Bytes) → extract_raf_preview f ≡ ok b → IsRafJpeg f b
unfolding extract_raf_preview
extract_raf_preview-IsRafJpeg f b e = elim (Bool-cases (ltb (length f) raf_min_size)) [
  | inl small ↦ absurd (let q = rw small at e in cc)
  | inr fits ↦
      let (hdr, read, e₁) = bind-eq-ok (read_at f raf_min_size 0) _ (rw fits at e) in
      let off = u32_at big hdr 84 in
      let len = u32_at big hdr 88 in
      let (magic, given, e₂) =
        refusals_lem (same (take 16 hdr) raf_magic) (off == 0 || len == 0)
          (ltb (length f) (off + len)) (read_at f len off >>= checked_jpeg) e₁ in
      let (buf, read', e₃) = bind-eq-ok (read_at f len off) checked_jpeg e₂ in
      let (same_bytes, jpeg) = checked_jpeg_lem buf e₃ in
      record {
        header = hdr;
        header_part = read_at-IsPart f raf_min_size 0 (λ z. omega arith) read;
        magic = magic;
        offset_ne = λ z. ground arith;
        part = rw same_bytes at (read_at-IsPart f len off (λ z. ground arith) read');
        jpeg = jpeg;
      }
]

IsRafJpeg-extract_raf_preview : (f b : Bytes) → IsRafJpeg f b → extract_raf_preview f ≡ ok b
unfolding extract_raf_preview
IsRafJpeg-extract_raf_preview f b r =
    let off = u32_at big r.header 84 in
    let len = u32_at big r.header 88 in
    let some : 2 ≤ len =
      omega (arith, IsPart-length off len r.part, ap (λ (x : Bytes). length x) r.jpeg.starts) in
    let large : ltb (length f) raf_min_size ≡ false = le→ltb _ _ r.header_part.within in
    let given : (off == 0 || len == 0) ≡ false =
      rw (ne→== off 0 r.offset_ne, ne→== len 0 (λ z. omega arith)) in
    let inside : ltb (length f) (off + len) ≡ false = le→ltb _ _ r.part.within in
    rw
      (
        large,
        IsPart-read_at raf_min_size 0 (λ z. omega arith) r.header_part,
        r.magic,
        given,
        inside,
        IsPart-read_at len off (λ z. omega arith) r.part,
      )
      (IsJpeg-checked b r.jpeg)

-- `extractRAFPreview` returns `b` exactly when the file has a header of 92 bytes that begins with
-- the magic text and names, at an offset that is not zero, the bytes `b` inside the file, which
-- begin with the marker of a JPEG.
pub extract_raf_preview_iff : (f b : Bytes) → (extract_raf_preview f ≡ ok b) ↔ IsRafJpeg f b
extract_raf_preview_iff f b = (extract_raf_preview-IsRafJpeg f b, IsRafJpeg-extract_raf_preview f b)
