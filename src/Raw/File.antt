-- ===== src/Raw/File.antt =====
-- What internal/raw uses of Go's standard library to read a file: `os.File.ReadAt`, the byte
-- orders of encoding/binary, and slices with a capacity. A file is its contents, which do not
-- change while it is read; an input error of the disk is not modelled. A byte is a number, and a
-- theorem says so where it needs the number to be below 256.
use cull_snap.Base.{
  ℕ, ◌+◌, ◌*◌, ◌-◌, ◌≤◌, ◌<◌, All, ◌≡◌, ◌≢◌, ap, List, [], leb, ◌==◌, ◌&&◌, if◌then◌else◌, length,
  get_or, take, drop, Outcome, ok, err, panic, length-take, length-drop, drop-drop, drop-take,
  arith, ◌∷◌, ◌∙◌,
}

abbrev pub Bytes : Type 0
Bytes = List ℕ

abbrev pub IsBytes : Bytes → Type 0
IsBytes = All (λ x. x < 256)

-- The errors of the package, one for each message; the texts and the numbers in them are left out.
-- `no_fuel` is none of them: it marks a loop of the model that was given too few rounds.
pub data Error : Type 0 where
  eof : Error
  too_small bad_byte_order big_tiff bad_magic : Error
  ifd_beyond_eof ifd_too_long no_preview preview_beyond_eof not_soi : Error
  bad_raf_magic zero_jpeg : Error
  no_extension unsupported_extension all_failed : Error
  no_fuel : Error

abbrev pub Res : Type 0 → Type 0
Res A = Outcome Error A

-- `f.ReadAt(buf, off)` with `len(buf) == n`: all of the n bytes or an error.
unfoldable pub read_at : Bytes → ℕ → ℕ → Res Bytes
read_at f n off =
    if n == 0 then ok [] else if leb (off + n) (length f) then ok (take n (drop off f)) else err eof

pub data Order : Type 0 where
  little big : Order

-- `bo.Uint16(b[i:i+2])` and `bo.Uint32(b[i:i+4])` where the bounds are known to hold.
unfoldable pub u16_at : Order → Bytes → ℕ → ℕ
u16_at little b i = get_or b i 0 + 256 * get_or b (i + 1) 0
u16_at big b i = 256 * get_or b i 0 + get_or b (i + 1) 0

unfoldable pub u32_at : Order → Bytes → ℕ → ℕ
u32_at little b i =
    get_or b i 0
    + 256 * get_or b (i + 1) 0
    + 65536 * get_or b (i + 2) 0
    + 16777216 * get_or b (i + 3) 0
u32_at big b i =
    16777216 * get_or b i 0
    + 65536 * get_or b (i + 1) 0
    + 256 * get_or b (i + 2) 0
    + get_or b (i + 3) 0

-- A slice: the bytes from its start up to its capacity, and its length.
pub record Slice : Type 0 where
  pub mem : Bytes
  pub len : ℕ

-- `make([]byte, n)` that was filled: the capacity is the length.
abbrev pub made : Bytes → Slice
made b = record { mem = b; len = length b }

-- `s[lo:hi]` for two bounds: Go tests `hi` against the capacity, not against the length.
unfoldable pub reslice : Slice → ℕ → ℕ → Res Slice
reslice s lo hi =
    if leb lo hi && leb hi (length s.mem)
    then ok (record { mem = drop lo s.mem; len = hi - lo })
    else panic

-- `s[i]` tests the length.
unfoldable pub index : Slice → ℕ → Res ℕ
index s i = if leb s.len i then panic else ok (get_or s.mem i 0)

-- `b` is the part of `f` of `n` bytes at `off`.
pub record IsPart (f b : Bytes) (off n : ℕ) : Type 0 where
  pub within : off + n ≤ length f
  pub bytes_eq : b ≡ take n (drop off f)

pub IsPart-length : {f b : Bytes} (off n : ℕ) → IsPart f b off n → length b ≡ n
IsPart-length {f} off n p =
    omega (arith, ap length p.bytes_eq, length-take n (drop off f), length-drop off f)

-- A read of one byte or more gives that part of the file.
pub read_at-IsPart :
    (f : Bytes) {b : Bytes} (n off : ℕ) → n ≢ 0 → read_at f n off ≡ ok b → IsPart f b off n
unfolding read_at
read_at-IsPart f n off h e = ground arith

-- A part of the file is what a read gives.
pub IsPart-read_at : {f b : Bytes} (n off : ℕ) → n ≢ 0 → IsPart f b off n → read_at f n off ≡ ok b
unfolding read_at
IsPart-read_at n off h p = ground arith

-- Within the file a read does not fail.
pub read_at_within :
    (f : Bytes) (n off : ℕ)
    → off + n ≤ length f
    → (b : Bytes) × (read_at f n off ≡ ok b) × (length b ≡ n)
unfolding read_at
read_at_within f n off h = (
  take n (drop off f),
  ground arith,
  omega (arith, length-take n (drop off f), length-drop off f),
)

-- The end of a part from position `i` on is a part.
pub IsPart-drop :
    {f b : Bytes} (off n i : ℕ) → IsPart f b off n → i ≤ n → IsPart f (drop i b) (off + i) (n - i)
IsPart-drop {f} {b} off n i p h = record {
  within = omega (arith, p.within);
  bytes_eq = rw p.bytes_eq (drop-take i n (drop off f) ∙ rw drop-drop);
}

-- `b` begins with the marker of a JPEG, 0xFF 0xD8.
pub record IsJpeg (b : Bytes) : Type 0 where
  pub rest : Bytes
  pub starts : b ≡ 0xFF ∷ 0xD8 ∷ rest

-- `b` is a JPEG that stands somewhere in the file.
pub record IsEmbedded (f b : Bytes) : Type 0 where
  pub off : ℕ
  pub size : ℕ
  pub part : IsPart f b off size
  pub jpeg : IsJpeg b
