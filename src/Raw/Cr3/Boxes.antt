-- ===== src/Raw/Cr3/Boxes.antt =====
-- Facts about single boxes and payloads, for a file of bytes.
use cull_snap.Base.{
  ℕ, zero, suc, ◌+◌, ◌*◌, ◌-◌, ◌≤◌, ◌<◌, [], ◌∷◌, ◌≡◌, ◌≢◌, some, ◌==◌, ◌&&◌, leb, length, get_or,
  drop, All-take, All-drop, Bool-cases, Option-cases, Outcome-cases, inl, inr, ok, arith,
}
use cull_snap.Raw.File.{
  Bytes, big, read_at, u32_at, IsPart, IsPart-length, IsPart-drop, read_at-IsPart, IsJpeg,
  IsEmbedded, IsBytes,
}
use cull_snap.Raw.Int64.{two63, two64, add64, read_at64}
use cull_snap.Raw.Cr3.{Box, index_soi, jpeg_in, jpeg_of, checked, box_at, small_box_at}

get_or-lt : (b : Bytes) (i : ℕ) → IsBytes b → get_or b i 0 < 256
get_or-lt [] i h = omega arith
get_or-lt (x ∷ xs) zero h = h.0
get_or-lt (x ∷ xs) (suc i) h = get_or-lt xs i h.1

pub u32_at-lt : (b : Bytes) (i : ℕ) → IsBytes b → u32_at big b i < 4294967296
unfolding u32_at
u32_at-lt b i h =
    omega
      (arith, get_or-lt b i h, get_or-lt b (i + 1) h, get_or-lt b (i + 2) h, get_or-lt b (i + 3) h)

-- A read that succeeds is inside the file, and gives its bytes.
read_at64_lem :
    (f : Bytes) (n off : ℕ) {b : Bytes}
    → n ≢ 0
    → read_at64 f n off ≡ ok b
    → (off < two63) × IsPart f b off n
unfolding read_at64
read_at64_lem f n off h e = elim (Bool-cases (leb two63 off)) [
  | inl neg ↦ absurd (let q = rw neg at e in cc)
  | inr pos ↦ (ground arith, read_at-IsPart f n off h (rw pos at e))
]

IsPart-bytes : {f b : Bytes} (off n : ℕ) → IsPart f b off n → IsBytes f → IsBytes b
IsPart-bytes {f} off n p h =
    rw p.bytes_eq (All-take (λ x. x < 256) n _ (All-drop (λ x. x < 256) off f h))

index_soi_lem : (b : Bytes) {i : ℕ} → index_soi b ≡ some i → (i ≤ length b) × IsJpeg (drop i b)
unfolding index_soi
index_soi_lem [] e = cc
index_soi_lem (x ∷ []) e = cc
index_soi_lem (x ∷ y ∷ r) {i} e = elim (Bool-cases (x == 0xFF && y == 0xD8)) [
  | inl here ↦
      let z : 0 ≡ i = (let q = rw here at e in cc) in
      rw (← z) (omega arith, record { rest = r; starts = ground arith })
  | inr not_here ↦ elim (Option-cases (index_soi (y ∷ r))) [
    | inl miss ↦ absurd (let q = rw (not_here, miss) at e in cc)
    | inr (j, found) ↦
        let z : suc j ≡ i = (let q = rw (not_here, found) at e in cc) in
        let (le, jpeg) = index_soi_lem (y ∷ r) found in rw (← z) (omega arith, jpeg)
  ]
]

jpeg_in_lem :
    (b : Bytes) {j : Bytes}
    → jpeg_in b ≡ some j
    → (i : ℕ) × (i ≤ length b) × IsJpeg j × (drop i b ≡ j)
unfolding jpeg_in
jpeg_in_lem b {j} e = elim (Option-cases (index_soi b)) [
  | inl miss ↦ absurd (let q = rw (miss, jpeg_in) at e in cc)
  | inr (i, found) ↦
      let (le, jpeg) = index_soi_lem b found in
      let same : drop i b ≡ j = (let q = rw (found, jpeg_in) at e in cc) in
      (i, le, rw same at jpeg, same)
]

read_at64_none : (f : Bytes) (off : ℕ) {b : Bytes} → read_at64 f 0 off ≡ ok b → b ≡ []
unfolding read_at64 read_at
read_at64_none f off e = ground arith

jpeg_in_nil : {j : Bytes} → ¬ (jpeg_in [] ≡ some j)
unfolding jpeg_in index_soi
jpeg_in_nil e = cc

jpeg_in-IsEmbedded :
    (f : Bytes) (n off : ℕ) (b : Bytes) {j : Bytes}
    → read_at64 f n off ≡ ok b
    → jpeg_in b ≡ some j
    → IsEmbedded f j
jpeg_in-IsEmbedded f zero off b r e = absurd (jpeg_in_nil (rw (read_at64_none f off r) at e))
jpeg_in-IsEmbedded f (suc n) off b r e =
    let (_, part) = read_at64_lem f (suc n) off (λ z. omega arith) r in
    let (i, le, jpeg, same) = jpeg_in_lem b e in
    record {
      off = off + i;
      size = suc n - i;
      part =
          rw (← same)
            (IsPart-drop off (suc n) i part (omega (arith, IsPart-length off (suc n) part)));
      jpeg = jpeg;
    }

pub jpeg_of-IsEmbedded :
    (f : Bytes) (n off : ℕ) {b : Bytes} → jpeg_of (read_at64 f n off) ≡ some b → IsEmbedded f b
jpeg_of-IsEmbedded f n off e = elim (Outcome-cases (read_at64 f n off)) [
  | inl (b, read) ↦ jpeg_in-IsEmbedded f n off b read (rw read at e)
  | inr (inl (x, read)) ↦ absurd (let q = rw read at e in cc)
  | inr (inr read) ↦ absurd (let q = rw read at e in cc)
]

-- What is known of a box whose header was read at `off`.
pub record IsBox (f : Bytes) (off : ℕ) (b : Box) : Type 0 where
  pub inside : off + 8 ≤ length f
  pub low : 8 ≤ b.size
  pub high : b.size < two63

checked_lem :
    (kind : Bytes) (size off limit : ℕ) {b : Box}
    → size < two64
    → checked kind size off limit ≡ some b
    → (8 ≤ b.size) × (b.size < two63)
unfolding checked
checked_lem kind size off limit h e = ground arith

checked_size :
    (kind : Bytes) (size off limit : ℕ) {b : Box}
    → checked kind size off limit ≡ some b
    → b.size ≡ size
unfolding checked
checked_size kind size off limit e = ground arith

header_bytes :
    (f : Bytes) (off : ℕ) {hd : Bytes} → IsBytes f → read_at64 f 8 off ≡ ok hd → IsBytes hd
header_bytes f off h r =
    let (_, part) = read_at64_lem f 8 off (λ z. omega arith) r in IsPart-bytes off 8 part h

header_lem :
    (f : Bytes) (off limit : ℕ) (hd : Bytes) (size : ℕ) {b : Box}
    → IsBytes f
    → read_at64 f 8 off ≡ ok hd
    → size < two64
    → checked (drop 4 hd) size off limit ≡ some b
    → IsBox f off b
header_lem f off limit hd size h r lt e =
    let (_, part) = read_at64_lem f 8 off (λ z. omega arith) r in
    let (low, high) = checked_lem (drop 4 hd) size off limit lt e in
    record { inside = part.within; low = low; high = high }

pub box_at-IsBox :
    (f : Bytes) (off limit : ℕ) {b : Box} → IsBytes f → box_at f off limit ≡ some b → IsBox f off b
unfolding box_at
box_at-IsBox f off limit h e = elim (Outcome-cases (read_at64 f 8 off)) [
  | inl (hd, read) ↦ elim (Bool-cases (u32_at big hd 0 == 1)) [
    | inl large ↦ elim (Outcome-cases (read_at64 f 8 (add64 off 8))) [
      | inl (ext, read') ↦
          let a = u32_at-lt ext 0 (header_bytes f (add64 off 8) h read') in
          let c = u32_at-lt ext 4 (header_bytes f (add64 off 8) h read') in
          header_lem f off limit hd (4294967296 * u32_at big ext 0 + u32_at big ext 4) h read
            (omega arith) (rw (read, large, read', box_at) at e)
      | inr (inl (x, read')) ↦ absurd (let q = rw (read, large, read', box_at) at e in cc)
      | inr (inr read') ↦ absurd (let q = rw (read, large, read', box_at) at e in cc)
    ]
    | inr small ↦
        let a = u32_at-lt hd 0 (header_bytes f off h read) in
        header_lem f off limit hd (u32_at big hd 0) h read (omega arith)
          (rw (read, small, box_at) at e)
  ]
  | inr (inl (x, read)) ↦ absurd (let q = rw (read, box_at) at e in cc)
  | inr (inr read) ↦ absurd (let q = rw (read, box_at) at e in cc)
]

pub small_box_at-IsBox :
    (f : Bytes) (off limit : ℕ) {b : Box}
    → IsBytes f
    → small_box_at f off limit ≡ some b
    → IsBox f off b
unfolding small_box_at
small_box_at-IsBox f off limit h e = elim (Outcome-cases (read_at64 f 8 off)) [
  | inl (hd, read) ↦
      header_lem f off limit hd _ h read
        (let q = u32_at-lt hd 0 (header_bytes f off h read) in omega arith)
        (rw (read, small_box_at) at e)
  | inr (inl (x, read)) ↦ absurd (let q = rw (read, small_box_at) at e in cc)
  | inr (inr read) ↦ absurd (let q = rw (read, small_box_at) at e in cc)
]

-- In the UUID box a size fits in 32 bits.
pub small_box_at_size :
    (f : Bytes) (off limit : ℕ) {b : Box}
    → IsBytes f
    → small_box_at f off limit ≡ some b
    → b.size < 4294967296
unfolding small_box_at
small_box_at_size f off limit h e = elim (Outcome-cases (read_at64 f 8 off)) [
  | inl (hd, read) ↦
      let q = u32_at-lt hd 0 (header_bytes f off h read) in
      let z = checked_size (drop 4 hd) (u32_at big hd 0) off limit (rw (read, small_box_at) at e) in
      omega (arith, q, z)
  | inr (inl (x, read)) ↦ absurd (let q = rw (read, small_box_at) at e in cc)
  | inr (inr read) ↦ absurd (let q = rw (read, small_box_at) at e in cc)
]
