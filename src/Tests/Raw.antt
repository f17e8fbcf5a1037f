-- ===== src/Tests/Raw.antt =====
-- internal/raw on small files: a TIFF with one IFD, a CR3 with a PRVW box, and a RAF.
use cull_snap.Base.{[], ◌∷◌, ◌++◌, ◌≡◌, ◌↔◌, refl, replicate, none, some, ok, panic, suc, arith}
use cull_snap.Paths.{Name, same, ext, to_lower, has}
use cull_snap.Raw.File.{Bytes, little, Slice, IsJpeg, read_at, u16_at, u32_at}
use cull_snap.Raw.Tiff.Values.{
  type_size, read_tag_value, read_tag_values, tag_data, value_at, values_from,
}
use cull_snap.Raw.Tiff.Ifd.{entry_step, entries, preview_of, parse_ifd}
use cull_snap.Raw.Tiff.Walk.{max_ifds, start, walk_chain}
use cull_snap.Raw.Tiff.Bounds.{Ends, walk_chain_total}
use cull_snap.Raw.Tiff.Extract.{
  is_accepted_tiff_magic, byte_order, select, read_preview, extract_tiff_preview,
}
use cull_snap.Raw.Tiff.Sound.{IsChosen, extract_tiff_preview-IsChosen}
use cull_snap.Raw.Tiff.Panics.{read_tag_values_ascii}
use cull_snap.Raw.Int64.{read_at64}
use cull_snap.Raw.Cr3.{
  index_soi, jpeg_in, jpeg_at, checked, box_at, small_box_at, prvw_payload, prvw_loop,
  find_prvw_jpeg, find_prvw_loop, find_prvw_in_file, extract_cr3_preview,
}
use cull_snap.Raw.Cr3.Sound.{Finds, extract_cr3_preview-Finds}
use cull_snap.Raw.Raf.{
  raf_magic, checked_jpeg, extract_raf_preview, IsRafJpeg, extract_raf_preview_iff,
}
use cull_snap.Raw.Preview.{
  is_raw_ext, native_preview, extract_preview_dcraw, is_preview_large_enough, extract_preview,
}
use cull_snap.Raw.Preview.Sound.{extract_preview-IsJpeg}

abbrev jpeg : Bytes
jpeg = 0xFF ∷ 0xD8 ∷ 1 ∷ 2 ∷ []

-- A little-endian TIFF with one IFD at 8, whose two tags name the JPEG at 38.
abbrev tiff_file : Bytes
tiff_file =
    b'I' ∷ b'I' ∷ 42 ∷ 0 ∷ 8 ∷ 0 ∷ 0 ∷ 0 ∷ 2 ∷ 0 ∷ 0x01 ∷ 0x02 ∷ 4 ∷ 0 ∷ 1 ∷ 0 ∷ 0 ∷ 0 ∷ 38 ∷ 0 ∷ 0
    ∷ 0 ∷ 0x02 ∷ 0x02 ∷ 4 ∷ 0 ∷ 1 ∷ 0 ∷ 0 ∷ 0 ∷ 4 ∷ 0 ∷ 0 ∷ 0 ∷ 0 ∷ 0 ∷ 0 ∷ 0 ∷ jpeg

tiff_file-runs : extract_tiff_preview tiff_file ≡ ok jpeg
unfolding extract_tiff_preview read_at u16_at u32_at byte_order is_accepted_tiff_magic walk_chain
    parse_ifd entries entry_step read_tag_value preview_of select read_preview
tiff_file-runs = refl

extract_tiff_preview-IsChosen_example : IsChosen tiff_file jpeg
extract_tiff_preview-IsChosen_example =
    extract_tiff_preview-IsChosen tiff_file jpeg (omega arith) tiff_file-runs

walk_chain_total_example :
    Ends tiff_file little 8 start (walk_chain tiff_file little (suc max_ifds) 8 start)
walk_chain_total_example = walk_chain_total tiff_file little 8

-- Two SHORT values that stand inline.
abbrev two_shorts : Slice
two_shorts = record { mem = 5 ∷ 0 ∷ 6 ∷ 0 ∷ []; len = 4 }

two_shorts-runs : read_tag_values tiff_file little 3 2 two_shorts ≡ ok (5 ∷ 6 ∷ [])
unfolding read_tag_values tag_data type_size values_from value_at u16_at
two_shorts-runs = refl

-- Five ASCII bytes at offset 8.
abbrev far : Slice
far = record { mem = 8 ∷ 0 ∷ 0 ∷ 0 ∷ []; len = 4 }

read_tag_values_ascii_example : read_tag_values tiff_file little 2 5 far ≡ panic
unfolding u32_at
read_tag_values_ascii_example =
    read_tag_values_ascii tiff_file little 5 far (omega arith) (omega arith) (omega arith)

-- A `uuid` box of 52 bytes that holds a PRVW box with 12 bytes before the JPEG.
abbrev cr3_file : Bytes
cr3_file =
    0 ∷ 0 ∷ 0 ∷ 48 ∷ b'u' ∷ b'u' ∷ b'i' ∷ b'd' ∷ 0xea ∷ 0xf4 ∷ 0x2b ∷ 0x5e ∷ 0x1c ∷ 0x98 ∷ 0x4b
    ∷ 0x88 ∷ 0xb9 ∷ 0xfb ∷ 0xb7 ∷ 0xdc ∷ 0x40 ∷ 0x6e ∷ 0x4d ∷ 0x16 ∷ 0 ∷ 0 ∷ 0 ∷ 24 ∷ b'P' ∷ b'R'
    ∷ b'V' ∷ b'W' ∷ 0 ∷ 0 ∷ 0 ∷ 0 ∷ 0 ∷ 0 ∷ 0 ∷ 0 ∷ 0 ∷ 0 ∷ 0 ∷ 0 ∷ jpeg

cr3_file-runs : extract_cr3_preview cr3_file ≡ ok jpeg
unfolding extract_cr3_preview find_prvw_in_file find_prvw_loop box_at small_box_at checked read_at64
    read_at u32_at same find_prvw_jpeg prvw_loop prvw_payload jpeg_at jpeg_in index_soi
cr3_file-runs = refl

extract_cr3_preview-Finds_example : Finds cr3_file (extract_cr3_preview cr3_file)
extract_cr3_preview-Finds_example = extract_cr3_preview-Finds cr3_file (omega arith) (omega arith)

abbrev raf_file : Bytes
raf_file = raf_magic ++ replicate 68 0 ++ 0 ∷ 0 ∷ 0 ∷ 92 ∷ 0 ∷ 0 ∷ 0 ∷ 4 ∷ jpeg

raf_file-runs : extract_raf_preview raf_file ≡ ok jpeg
unfolding extract_raf_preview read_at u32_at same checked_jpeg
raf_file-runs = refl

extract_raf_preview_iff_example : (extract_raf_preview raf_file ≡ ok jpeg) ↔ IsRafJpeg raf_file jpeg
extract_raf_preview_iff_example = extract_raf_preview_iff raf_file jpeg

-- "a/B.RAF"
abbrev raf_path : Name
raf_path = b'a' ∷ b'/' ∷ b'B' ∷ b'.' ∷ b'R' ∷ b'A' ∷ b'F' ∷ []

-- The preview is small and dcraw is missing, so the small preview is used.
raf_path-runs : extract_preview (λ b. some 160) none raf_path raf_file ≡ ok jpeg
unfolding extract_preview ext has to_lower same is_raw_ext native_preview extract_preview_dcraw
    is_preview_large_enough extract_raf_preview read_at u32_at checked_jpeg
raf_path-runs = refl

extract_preview-IsJpeg_example : IsJpeg jpeg
extract_preview-IsJpeg_example =
    extract_preview-IsJpeg (λ b. some 160) none raf_path raf_file jpeg (omega arith) (omega arith)
      raf_path-runs

abbrev raf_ext : Name
raf_ext = b'.' ∷ b'r' ∷ b'a' ∷ b'f' ∷ []

raf_ext_low : to_lower raf_ext ≡ raf_ext
unfolding to_lower
raf_ext_low = refl
