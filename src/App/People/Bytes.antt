-- ===== src/App/People/Bytes.antt =====
-- Embeddings survive the database.
use cull_snap.Base.{ℕ, ◌/◌, ◌%◌, ◌<◌, List, [], ◌∷◌, some, ◌≡◌, refl, ap, arith, All}
use cull_snap.App.People.{uint32, float32_slice_to_bytes, bytes_to_float32_slice}

-- The bits of a float32.
abbrev pub IsUint32 : ℕ → Type 0
IsUint32 v = v < 4294967296

uint32-put_uint32 :
    (v : ℕ)
    → IsUint32 v
    → uint32 (v % 256) (v / 256 % 256) (v / 65536 % 256) (v / 16777216 % 256) ≡ v
uint32-put_uint32 v l = omega arith

-- A list of float32 is what it was after it was written as bytes and read again.
pub bytes_to_float32_slice-float32_slice_to_bytes :
    (fs : List ℕ) → All IsUint32 fs → bytes_to_float32_slice (float32_slice_to_bytes fs) ≡ some fs
unfolding bytes_to_float32_slice float32_slice_to_bytes
bytes_to_float32_slice-float32_slice_to_bytes [] a = refl
bytes_to_float32_slice-float32_slice_to_bytes (f ∷ fs) a =
    rw (bytes_to_float32_slice-float32_slice_to_bytes fs a.1)
      (ap (λ v. some (v ∷ fs)) (uint32-put_uint32 f a.0))
