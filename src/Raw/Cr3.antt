-- ===== src/Raw/Cr3.antt =====
-- internal/raw/cr3.go: the boxes of a CR3 file (BMFF), searched for a preview.
pub mod Boxes
pub mod Sound
use cull_snap.Base.{
  ℕ, zero, suc, ◌+◌, ◌-◌, ◌*◌, List, [], ◌∷◌, Bool, true, false, not, ◌&&◌, ◌||◌, Option, none,
  some, ltb, leb, ◌==◌, if◌then◌else◌, length, drop, Outcome, ok, err, panic, ◌>>=◌,
}
use cull_snap.Paths.{same}
use cull_snap.Raw.File.{Bytes, Error, no_preview, no_fuel, Res, Order, big, read_at, u32_at}
use cull_snap.Raw.Int64.{two63, add64, sub64, lt64, read_at64}

abbrev pub prvw_uuid : Bytes
prvw_uuid =
    0xea ∷ 0xf4 ∷ 0x2b ∷ 0x5e ∷ 0x1c ∷ 0x98 ∷ 0x4b ∷ 0x88 ∷ 0xb9 ∷ 0xfb ∷ 0xb7 ∷ 0xdc ∷ 0x40 ∷ 0x6e
    ∷ 0x4d ∷ 0x16 ∷ []

-- `bytes.Index(b, []byte{0xFF, 0xD8})`
unfoldable pub index_soi : Bytes → Option ℕ
index_soi [] = none
index_soi (x ∷ []) = none
index_soi (x ∷ y ∷ r) =
    let later : Option ℕ = elim (index_soi (y ∷ r)) [ none ↦ none | some i ↦ some (suc i) ] in
    if x == 0xFF && y == 0xD8 then some 0 else later

-- The JPEG in a payload: `payload[soiIdx:]`.
unfoldable pub jpeg_in : Bytes → Option Bytes
jpeg_in b = elim (index_soi b) [ none ↦ none | some i ↦ some (drop i b) ]

pub record Box : Type 0 where
  pub kind : Bytes
  pub size : ℕ

-- The sanity check on a box of the size `size` at `off`.
unfoldable pub checked : Bytes → ℕ → ℕ → ℕ → Option Box
checked kind size off limit =
    if lt64 size 8 || lt64 limit (add64 off size)
    then none
    else some (record { kind = kind; size = size })

-- The header of the box at `off`, its size in 64 bits if the 32-bit size is 1, and the check
-- against the end `limit`. `none` is the source's `break`.
unfoldable pub box_at : Bytes → ℕ → ℕ → Option Box
box_at f off limit = elim (read_at64 f 8 off) [
  | ok header ↦
      if u32_at big header 0 == 1
      then elim (read_at64 f 8 (add64 off 8)) [
        | ok ext ↦
            checked (drop 4 header) (4294967296 * u32_at big ext 0 + u32_at big ext 4) off limit
        | err _ ↦ none
        | panic ↦ none
      ]
      else checked (drop 4 header) (u32_at big header 0) off limit
  | err _ ↦ none
  | panic ↦ none
]

-- In the UUID box the size has 32 bits.
unfoldable pub small_box_at : Bytes → ℕ → ℕ → Option Box
small_box_at f off limit = elim (read_at64 f 8 off) [
  | ok header ↦ checked (drop 4 header) (u32_at big header 0) off limit
  | err _ ↦ none
  | panic ↦ none
]

abbrev kinds : List Bytes
kinds =
    (b'm' ∷ b'o' ∷ b'o' ∷ b'v' ∷ [])
    ∷ (b't' ∷ b'r' ∷ b'a' ∷ b'k' ∷ [])
    ∷ (b'm' ∷ b'd' ∷ b'i' ∷ b'a' ∷ [])
    ∷ (b'm' ∷ b'i' ∷ b'n' ∷ b'f' ∷ [])
    ∷ (b's' ∷ b't' ∷ b'b' ∷ b'l' ∷ [])
    ∷ (b'd' ∷ b'i' ∷ b'n' ∷ b'f' ∷ [])
    ∷ (b'e' ∷ b'd' ∷ b't' ∷ b's' ∷ [])
    ∷ (b'C' ∷ b'R' ∷ b'A' ∷ b'W' ∷ [])
    ∷ (b'C' ∷ b'M' ∷ b'T' ∷ b'1' ∷ [])
    ∷ (b'C' ∷ b'M' ∷ b'T' ∷ b'2' ∷ [])
    ∷ (b'C' ∷ b'M' ∷ b'T' ∷ b'3' ∷ [])
    ∷ (b'C' ∷ b'M' ∷ b'T' ∷ b'4' ∷ [])
    ∷ []

any_same : Bytes → List Bytes → Bool
any_same k [] = false
any_same k (x ∷ xs) = same k x || any_same k xs

unfoldable pub is_container_box : Bytes → Bool
unfolding any_same same
is_container_box kind = any_same kind kinds

-- What an allocation has to stay below: `make` panics for a length that is negative or that the
-- address space of a 64-bit machine cannot hold.
abbrev pub max_alloc : ℕ
max_alloc = 281474976710656

-- The JPEG in a payload that was read, if it was.
abbrev pub jpeg_of : Res Bytes → Option Bytes
jpeg_of (ok b) = jpeg_in b
jpeg_of (err _) = none
jpeg_of panic = none

-- `make` of `n` bytes, and a read of them at `off` that is searched for a JPEG.
unfoldable pub jpeg_at : Bytes → ℕ → ℕ → Res (Option Bytes)
jpeg_at f n off = if ltb n max_alloc then ok (jpeg_of (read_at64 f n off)) else panic

abbrev pub or_no_preview : Option Bytes → Res Bytes
or_no_preview none = err no_preview
or_no_preview (some b) = ok b

-- What `findPRVWJPEG` does with the PRVW box: its payload is read and searched.
unfoldable pub prvw_payload : Bytes → ℕ → ℕ → Res Bytes
prvw_payload f off size =
    if lt64 (sub64 size 8) 14
    then err no_preview
    else jpeg_at f (sub64 size 8) (add64 off 8) >>= or_no_preview

-- The scan of the whole content, for want of a PRVW box.
unfoldable pub scan_content : Bytes → ℕ → ℕ → Res Bytes
scan_content f first end =
    let n = sub64 end first in
    if lt64 0 n && lt64 n (50 * 1024 * 1024)
    then jpeg_at f n first >>= or_no_preview
    else err no_preview

-- The loop of `findPRVWJPEG` at `off`.
unfoldable pub prvw_loop : Bytes → ℕ → ℕ → ℕ → ℕ → Res Bytes
prvw_loop f first end zero off = err no_fuel
prvw_loop f first end (suc fuel) off =
    let more : Res Bytes = elim (small_box_at f off end) [
      | none ↦ scan_content f first end
      | some b ↦
          let rest = prvw_loop f first end fuel (add64 off b.size) in
          if same b.kind (b'P' ∷ b'R' ∷ b'V' ∷ b'W' ∷ []) then prvw_payload f off b.size else rest
    ] in
    if lt64 off (sub64 end 8) then more else scan_content f first end

-- An offset grows by eight bytes at least in each round that goes on inside the file.
abbrev pub rounds : Bytes → ℕ
rounds f = suc (suc (length f))

unfoldable pub find_prvw_jpeg : Bytes → ℕ → ℕ → Res Bytes
find_prvw_jpeg f first end = prvw_loop f first end (rounds f) first

-- The UUID of a box decides between the search inside it and the boxes that follow.
abbrev pub at_uuid : Res Bytes → Res Bytes → Res Bytes → Res Bytes
at_uuid (ok uuid) rest found = if same uuid prvw_uuid then found else rest
at_uuid (err _) rest found = rest
at_uuid panic rest found = rest

-- The loop of `findPRVWInFile` at `off`.
unfoldable pub find_prvw_loop : Bytes → ℕ → ℕ → Res Bytes
find_prvw_loop f zero off = err no_fuel
find_prvw_loop f (suc fuel) off =
    let more : Res Bytes = elim (box_at f off (length f)) [
      | none ↦ err no_preview
      | some b ↦
          let rest = find_prvw_loop f fuel (add64 off b.size) in
          if same b.kind (b'u' ∷ b'u' ∷ b'i' ∷ b'd' ∷ []) && not (lt64 b.size 24)
          then at_uuid (read_at64 f 16 (add64 off 8)) rest
              (find_prvw_jpeg f (add64 off 24) (add64 off b.size))
          else rest
    ] in
    if lt64 off (length f) then more else err no_preview

unfoldable pub find_prvw_in_file : Bytes → Res Bytes
find_prvw_in_file f = find_prvw_loop f (rounds f) 0

-- The longer of the best JPEG so far ([] for none) and another.
abbrev longer : Bytes → Option Bytes → Bytes
longer best none = best
longer best (some b) = if ltb (length best) (length b) then b else best

-- The payload of a THMB box, if it is read.
unfoldable pub thmb_payload : Bytes → ℕ → Box → Bytes → Res Bytes
thmb_payload f off b best =
    if same b.kind (b'T' ∷ b'H' ∷ b'M' ∷ b'B' ∷ [])
      && lt64 0 (sub64 b.size 8)
      && lt64 (sub64 b.size 8) (10 * 1024 * 1024)
    then jpeg_at f (sub64 b.size 8) (add64 off 8) >>= (λ o. ok (longer best o))
    else ok best

abbrev pub best_of : Bytes → Res Bytes
best_of [] = err no_preview
best_of (x ∷ xs) = ok (x ∷ xs)

-- The result of a recursive call: an error means that it found nothing.
abbrev pub from_child : Bytes → Res Bytes → Res Bytes
from_child best (ok d) = ok (longer best (some d))
from_child best (err no_fuel) = err no_fuel
from_child best (err _) = ok best
from_child best panic = panic

-- The loop of `findTHMBRecursive` at `off`, with the best JPEG so far. The depth of the calls is not
-- bounded here, as that of Go's stack is.
unfoldable pub thmb_loop : Bytes → ℕ → ℕ → ℕ → Bytes → Res Bytes
thmb_loop f zero end off best = err no_fuel
thmb_loop f (suc fuel) end off best =
    let more : Res Bytes = elim (box_at f off end) [
      | none ↦ best_of best
      | some b ↦
          let inner = thmb_loop f fuel (add64 off b.size) (add64 off 8) [] in
          let joined : Res Bytes = thmb_payload f off b best >>= λ best'.
          if is_container_box b.kind then from_child best' inner else ok best' in
          joined >>= thmb_loop f fuel end (add64 off b.size)
    ] in
    if lt64 off (sub64 end 8) then more else best_of best

unfoldable pub find_thmb_in_file : Bytes → Res Bytes
find_thmb_in_file f = thmb_loop f (rounds f) (length f) 0 []

abbrev pub or_thmb : Bytes → Res Bytes → Res Bytes
or_thmb f (ok b) = ok b
or_thmb f (err no_fuel) = err no_fuel
or_thmb f (err _) = find_thmb_in_file f
or_thmb f panic = panic

unfoldable pub extract_cr3_preview : Bytes → Res Bytes
extract_cr3_preview f = or_thmb f (find_prvw_in_file f)
