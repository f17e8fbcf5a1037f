-- ===== src/Raw/Tiff/Values.antt =====
-- internal/raw/tiff.go: `readTagValue` and `readTagValues`.
use cull_snap.Base.{
  ℕ, zero, suc, ◌+◌, ◌*◌, ◌%◌, List, [], ◌∷◌, ltb, leb, ◌==◌, if◌then◌else◌, length, get_or, ok,
  err, panic, ◌>>=◌,
}
use cull_snap.Raw.File.{
  Bytes, Error, Res, Order, Slice, made, read_at, u16_at, u32_at, reslice, index,
}

abbrev pub u32 : ℕ
u32 = 4294967296

-- `tiffTypeSize[typ]`, and 4 for a type that the table does not have.
unfoldable pub type_size : ℕ → ℕ
type_size typ =
    if typ == 1
    then 1
    else if typ == 2
    then 1
    else if typ == 3
    then 2
    else if typ == 4
    then 4
    else if typ == 5
    then 8
    else 4

-- `value` is the slice `entry[8:12]`: four bytes at least, so no index is out of range.
unfoldable pub read_tag_value : Order → ℕ → ℕ → Slice → ℕ
read_tag_value bo typ count value =
    if count == 0
    then 0
    else if typ == 3
    then u16_at bo value.mem 0
    else if typ == 4
    then u32_at bo value.mem 0
    else if typ == 1
    then get_or value.mem 0 0
    else u32_at bo value.mem 0

-- The value of number `i`; the bounds are computed in uint32.
unfoldable pub value_at : Order → ℕ → Slice → ℕ → Res ℕ
unfolding reslice index
value_at bo typ data' i =
    let short = do s ← reslice data' (i * 2 % u32) ((i * 2 + 2) % u32); ok (u16_at bo s.mem 0)
    in let long = do s ← reslice data' (i * 4 % u32) ((i * 4 + 4) % u32); ok (u32_at bo s.mem 0)
      in if typ == 3
        then short
        else if typ == 4
        then long
        else if typ == 1
        then index data' i
        else long

-- `for i := 0; i < count; i++`, from `i` on with the rounds that are left.
unfoldable pub values_from : Order → ℕ → Slice → ℕ → ℕ → Res (List ℕ)
values_from bo typ data' zero i = ok []
values_from bo typ data' (suc rounds) i = do
  v ← value_at bo typ data' i
  vs ← values_from bo typ data' rounds (i + 1)
  ok (v ∷ vs)

-- The data of the tag: inline, or elsewhere in the file. An error stands for `return nil`.
unfoldable pub tag_data : Bytes → Order → ℕ → Slice → Res Slice
unfolding read_at
tag_data f bo total value =
    if leb total 4
    then ok (record value { len = total })
    else if ltb (length f) (u32_at bo value.mem 0 + total)
    then err Error.eof
    else do b ← read_at f total (u32_at bo value.mem 0); ok (made b)

abbrev pub values_of : Order → ℕ → ℕ → Res Slice → Res (List ℕ)
values_of bo typ count (ok d) = values_from bo typ d count 0
values_of bo typ count (err _) = ok []
values_of bo typ count panic = panic

unfoldable pub read_tag_values : Bytes → Order → ℕ → ℕ → Slice → Res (List ℕ)
read_tag_values f bo typ count value =
    if count == 0
    then ok []
    else values_of bo typ count (tag_data f bo (count * type_size typ % u32) value)
