-- ===== src/Raw/Cr3/Sound.antt =====
-- What `extractCR3Preview` returns, and that its loops end on every file, damaged ones included.
use mathlib.Core.Path.{subst}
use cull_snap.Base.{
  ℕ, zero, suc, ◌+◌, ◌*◌, ◌≤◌, ◌<◌, [], ◌∷◌, ◌≡◌, ◌≢◌, refl, Bool, true, false, not, Option, none,
  some, ◌&&◌, ltb, if◌then◌else◌, length, Bool-cases, Option-cases, ◌⊎◌, inl, inr, ok, err, panic,
  ◌>>=◌, arith, lt→ltb,
}
use cull_snap.Paths.{same}
use cull_snap.Raw.File.{Bytes, no_fuel, Res, IsEmbedded, IsBytes}
use cull_snap.Raw.Int64.{two64, add64, sub64, lt64, read_at64}
use cull_snap.Raw.Cr3.{
  Box, max_alloc, jpeg_of, jpeg_at, prvw_uuid, box_at, small_box_at, is_container_box,
  or_no_preview, best_of, prvw_payload, scan_content, prvw_loop, rounds, find_prvw_jpeg, at_uuid,
  find_prvw_loop, find_prvw_in_file, longer, thmb_payload, from_child, thmb_loop, find_thmb_in_file,
  or_thmb, extract_cr3_preview,
}
use cull_snap.Raw.Cr3.Boxes.{
  IsBox, small_box_at_size, box_at-IsBox, small_box_at-IsBox, jpeg_of-IsEmbedded,
}

-- A JPEG of the file, or an error of the source: no panic, and no want of fuel.
abbrev pub Finds : Bytes → Res Bytes → Type 0
Finds f (ok b) = IsEmbedded f b
Finds f (err e) = e ≢ no_fuel
Finds f panic = ⊥

-- The fuel left is more than the bytes from `off` on.
record Enough (f : Bytes) (fuel off : ℕ) : Type 0 where
  some_left : 0 < fuel
  covers : length f < fuel + off

module _ (f : Bytes) (bytes : IsBytes f) (small : length f < 4611686018427387904) where
  or_no_preview-Finds :
      (o : Option Bytes) → ((b : Bytes) → o ≡ some b → IsEmbedded f b) → Finds f (or_no_preview o)
  or_no_preview-Finds none h = λ e. cc
  or_no_preview-Finds (some b) h = h b refl

  -- A read for which the allocation succeeds.
  read-Finds : (n off : ℕ) → n < max_alloc → Finds f (jpeg_at f n off >>= or_no_preview)
  unfolding jpeg_at
  read-Finds n off l =
      rw (lt→ltb n max_alloc l) (or_no_preview-Finds _ λ b e. jpeg_of-IsEmbedded f n off e)

  prvw_payload-Finds :
      (off size : ℕ) → 8 ≤ size → size < 4294967296 → Finds f (prvw_payload f off size)
  unfolding prvw_payload
  prvw_payload-Finds off size low high = elim (Bool-cases (lt64 (sub64 size 8) 14)) [
    | inl short ↦ rw short (λ e. cc)
    | inr long ↦ rw long (read-Finds (sub64 size 8) (add64 off 8) (omega arith))
  ]

  scan_content-Finds : (first end : ℕ) → Finds f (scan_content f first end)
  unfolding scan_content
  scan_content-Finds first end =
      elim (Bool-cases (lt64 0 (sub64 end first) && lt64 (sub64 end first) (50 * 1024 * 1024))) [
        | inl fits ↦
            rw fits
              (read-Finds (sub64 end first) first (bounded (sub64 end first) (omega arith) fits))
        | inr outside ↦ rw outside (λ e. cc)
      ]
    where
      bounded : (n : ℕ) → n < two64 → lt64 0 n && lt64 n (50 * 1024 * 1024) ≡ true → n < max_alloc
      bounded n l e = ground arith

  -- The next box begins further on, and there is fuel for it.
  next-Enough :
      (fuel off : ℕ) (b : Box)
      → IsBox f off b
      → Enough f (suc fuel) off
      → Enough f fuel (add64 off b.size)
  next-Enough fuel off b h e = omega (arith, h.inside, h.low, h.high, e.covers)

  child-Enough :
      (fuel off k : ℕ) (b : Box)
      → k ≤ 24
      → 0 < k
      → IsBox f off b
      → Enough f (suc fuel) off
      → Enough f fuel (add64 off k)
  child-Enough fuel off k b lo hi h e = omega (arith, h.inside, e.covers)

  -- A test between two searches that both end well.
  if-Finds : (c : Bool) (r s : Res Bytes) → Finds f r → Finds f s → Finds f (if c then r else s)
  if-Finds true r s h k = h
  if-Finds false r s h k = k

  prvw_loop-Finds :
      (first end fuel off : ℕ) → Enough f fuel off → Finds f (prvw_loop f first end fuel off)
  unfolding prvw_loop
  prvw_loop-Finds first end zero off e = absurd (omega (arith, e.some_left))
  prvw_loop-Finds first end (suc fuel) off e =
      if-Finds (lt64 off (sub64 end 8)) _ _
        (elim (Option-cases (small_box_at f off end)) [
          | inl stop ↦ rw stop (scan_content-Finds first end)
          | inr (b, box) ↦ rw box (
              if-Finds (same b.kind (b'P' ∷ b'R' ∷ b'V' ∷ b'W' ∷ [])) _ _
                (prvw_payload-Finds off b.size (small_box_at-IsBox f off end bytes box).low
                  (small_box_at_size f off end bytes box))
                (prvw_loop-Finds first end fuel (add64 off b.size)
                  (next-Enough fuel off b (small_box_at-IsBox f off end bytes box) e)))
        ])
        (scan_content-Finds first end)

  find_prvw_jpeg-Finds : (first end : ℕ) → Finds f (find_prvw_jpeg f first end)
  unfolding find_prvw_jpeg
  find_prvw_jpeg-Finds first end =
      prvw_loop-Finds first end (rounds f) first
        (record { some_left = omega arith; covers = omega arith })

  uuid-Finds :
      (r : Res Bytes) (rest found : Res Bytes)
      → Finds f rest
      → Finds f found
      → Finds f (at_uuid r rest found)
  uuid-Finds (ok u) rest found h k = if-Finds (same u prvw_uuid) found rest k h
  uuid-Finds (err x) rest found h k = h
  uuid-Finds panic rest found h k = h

  find_prvw_loop-Finds : (fuel off : ℕ) → Enough f fuel off → Finds f (find_prvw_loop f fuel off)
  unfolding find_prvw_loop
  find_prvw_loop-Finds zero off e = absurd (omega (arith, e.some_left))
  find_prvw_loop-Finds (suc fuel) off e =
      if-Finds (lt64 off (length f)) _ _
        (elim (Option-cases (box_at f off (length f))) [
          | inl stop ↦ rw stop (λ e. cc)
          | inr (b, box) ↦
              let rest =
                find_prvw_loop-Finds fuel (add64 off b.size)
                  (next-Enough fuel off b (box_at-IsBox f off (length f) bytes box) e) in
              rw box (
                if-Finds (same b.kind (b'u' ∷ b'u' ∷ b'i' ∷ b'd' ∷ []) && not (lt64 b.size 24)) _ _
                  (uuid-Finds (read_at64 f 16 (add64 off 8)) _ _ rest (find_prvw_jpeg-Finds _ _))
                  rest)
        ])
        (λ e. cc)

  -- The best JPEG so far: none, or a JPEG of the file.
  abbrev IsBest : Bytes → Type 0
  IsBest b = (b ≡ []) ⊎ IsEmbedded f b

  abbrev FindsBest : Res Bytes → Type 0
  FindsBest (ok b) = IsBest b
  FindsBest (err e) = e ≢ no_fuel
  FindsBest panic = ⊥

  best_of-Finds : (b : Bytes) → IsBest b → Finds f (best_of b)
  best_of-Finds [] h = λ e. cc
  best_of-Finds (x ∷ xs) (inl e) = cc
  best_of-Finds (x ∷ xs) (inr h) = h

  longer-IsBest :
      (best : Bytes) (o : Option Bytes)
      → IsBest best
      → ((b : Bytes) → o ≡ some b → IsEmbedded f b)
      → IsBest (longer best o)
  longer-IsBest best none h k = h
  longer-IsBest best (some b) h k = elim (Bool-cases (ltb (length best) (length b))) [
    | inl more ↦ rw more (inr (k b refl))
    | inr less ↦ rw less h
  ]

  thmb_payload-FindsBest :
      (off : ℕ) (b : Box) (best : Bytes) → IsBest best → FindsBest (thmb_payload f off b best)
  unfolding thmb_payload jpeg_at
  thmb_payload-FindsBest off b best h =
      let n = sub64 b.size 8 in
      of (same b.kind (b'T' ∷ b'H' ∷ b'M' ∷ b'B' ∷ [])) (lt64 0 n) (lt64 n (10 * 1024 * 1024))
        (λ d e. lt→ltb n max_alloc (bounded n (omega arith) d e))
    where
      bounded :
          (n : ℕ) → n < two64 → lt64 0 n ≡ true → lt64 n (10 * 1024 * 1024) ≡ true → n < max_alloc
      bounded n l d e = ground arith

      of :
          (c d g : Bool)
          → (d ≡ true → g ≡ true → ltb (sub64 b.size 8) max_alloc ≡ true)
          → FindsBest (
              if c && d && g
              then (if ltb (sub64 b.size 8) max_alloc
                  then ok (jpeg_of (read_at64 f (sub64 b.size 8) (add64 off 8)))
                  else panic)
                >>= (λ o. ok (longer best o))
              else ok best)
      of false d g e = h
      of true false g e = h
      of true true false e = h
      of true true true e =
          rw (e refl refl)
            (longer-IsBest best _ h λ j k. jpeg_of-IsEmbedded f (sub64 b.size 8) (add64 off 8) k)

  from_child-FindsBest :
      (best : Bytes) (r : Res Bytes) → IsBest best → Finds f r → FindsBest (from_child best r)
  from_child-FindsBest best (ok d) h k =
      longer-IsBest best (some d) h
        (λ b e. let same_bytes : d ≡ b = cc in subst (IsEmbedded f) same_bytes k)
  from_child-FindsBest best (err no_fuel) h k = absurd (k refl)
  from_child-FindsBest best (err _) h k = h
  from_child-FindsBest best panic h k = absurd k

  bind-Finds :
      (m : Res Bytes) (g : Bytes → Res Bytes)
      → FindsBest m
      → ((b : Bytes) → IsBest b → Finds f (g b))
      → Finds f (m >>= g)
  bind-Finds (ok b) g h k = k b h
  bind-Finds (err e) g h k = h
  bind-Finds panic g h k = absurd h

  if-FindsBest :
      (c : Bool) (r s : Res Bytes) → FindsBest r → FindsBest s → FindsBest (if c then r else s)
  if-FindsBest true r s h k = h
  if-FindsBest false r s h k = k

  bind-FindsBest :
      (m : Res Bytes) (g : Bytes → Res Bytes)
      → FindsBest m
      → ((b : Bytes) → IsBest b → FindsBest (g b))
      → FindsBest (m >>= g)
  bind-FindsBest (ok b) g h k = k b h
  bind-FindsBest (err e) g h k = h
  bind-FindsBest panic g h k = absurd h

  thmb_loop-Finds :
      (fuel end off : ℕ) (best : Bytes)
      → Enough f fuel off
      → IsBest best
      → Finds f (thmb_loop f fuel end off best)
  unfolding thmb_loop
  thmb_loop-Finds zero end off best e h = absurd (omega (arith, e.some_left))
  thmb_loop-Finds (suc fuel) end off best e h =
      if-Finds (lt64 off (sub64 end 8)) _ _
        (elim (Option-cases (box_at f off end)) [
          | inl stop ↦ rw stop (best_of-Finds best h)
          | inr (b, box) ↦
              let is_box = box_at-IsBox f off end bytes box in
              let inner =
                thmb_loop-Finds fuel (add64 off b.size) (add64 off 8) []
                  (child-Enough fuel off 8 b (omega arith) (omega arith) is_box e) (inl refl) in
              rw box (
                bind-Finds _ _
                  (bind-FindsBest _ _ (thmb_payload-FindsBest off b best h) λ best' i.
                    if-FindsBest (is_container_box b.kind) _ _
                      (from_child-FindsBest best' _ i inner) i)
                  λ j i.
                    thmb_loop-Finds fuel end (add64 off b.size) j (next-Enough fuel off b is_box e)
                      i)
        ])
        (best_of-Finds best h)

  start-Enough : Enough f (rounds f) 0
  start-Enough = record { some_left = omega arith; covers = omega arith }

  or_thmb-Finds : (r : Res Bytes) → Finds f r → Finds f (or_thmb f r)
  unfolding find_thmb_in_file
  or_thmb-Finds (ok b) h = h
  or_thmb-Finds (err no_fuel) h = absurd (h refl)
  or_thmb-Finds (err _) h = thmb_loop-Finds (rounds f) (length f) 0 [] start-Enough (inl refl)
  or_thmb-Finds panic h = absurd h

-- `extractCR3Preview` ends on every file below 2 ^ 62 bytes, whatever the sizes in its boxes are, and
-- no `make` in it gets a length that is negative or of 2 ^ 48 bytes or more; the depth of its stack
-- apart, it does not panic: it returns a part of the file that begins with the marker of a JPEG, or an
-- error.
pub extract_cr3_preview-Finds :
    (f : Bytes) → IsBytes f → length f < 4611686018427387904 → Finds f (extract_cr3_preview f)
unfolding extract_cr3_preview find_prvw_in_file
extract_cr3_preview-Finds f bytes small =
    or_thmb-Finds f bytes small _
      (find_prvw_loop-Finds f bytes small (rounds f) 0 (start-Enough f bytes small))
