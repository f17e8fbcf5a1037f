-- ===== src/Raw/Tiff/Walk.antt =====
-- internal/raw/tiff.go: the closure `walkIFDChain` of `extractTIFFPreview`, over the variables
-- that it captures.
use cull_snap.Base.{
  ℕ, zero, suc, ◌+◌, List, [], ◌∷◌, ◌++◌, Bool, false, Option, none, some, leb, ◌==◌, ◌||◌,
  if◌then◌else◌, ok, err, ◌>>=◌,
}
use cull_snap.Raw.File.{Bytes, no_fuel, Res, Order}
use cull_snap.Raw.Tiff.Ifd.{JpegPreview, Ifd, parse_ifd}

abbrev pub max_ifds : ℕ
max_ifds = 20

pub record Walk : Type 0 where
  pub visited : List ℕ
  pub ifd_count : ℕ
  pub previews : List JpegPreview

-- `visited[offset]`
unfoldable pub contains : ℕ → List ℕ → Bool
contains x [] = false
contains x (y ∷ ys) = x == y || contains x ys

abbrev pub found : Option JpegPreview → List JpegPreview → List JpegPreview
found none ps = ps
found (some p) ps = ps ++ p ∷ []

-- The state after one IFD was parsed.
abbrev pub visit : ℕ → Ifd → Walk → Walk
visit offset i w = record {
  visited = offset ∷ w.visited;
  ifd_count = w.ifd_count + 1;
  previews = found i.preview w.previews;
}

-- The loop over the SubIFDs.
unfoldable pub each : (ℕ → Walk → Res Walk) → List ℕ → Walk → Res Walk
each walk [] w = ok w
each walk (sub ∷ subs) w = do w' ← walk sub w; each walk subs w'

-- Each round of the loop that goes on has counted one more IFD, so `max_ifds` rounds and one more
-- are enough.
unfoldable pub walk_chain : Bytes → Order → ℕ → ℕ → Walk → Res Walk
unfolding each contains
walk_chain f bo zero offset w = err no_fuel
walk_chain f bo (suc fuel) offset w =
    let body = do
      i ← parse_ifd f bo offset
      w' ← each (walk_chain f bo fuel) i.sub_ifds (visit offset i w)
      walk_chain f bo fuel i.next w'
    in if offset == 0
      then ok w
      else if leb max_ifds w.ifd_count
      then ok w
      else if contains offset w.visited
      then ok w
      else body

abbrev pub start : Walk
start = record { visited = []; ifd_count = 0; previews = [] }
