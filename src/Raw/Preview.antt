-- ===== src/Raw/Preview.antt =====
-- internal/raw/preview.go, extensions.go, and what dcraw.go does with dcraw's output: the choice
-- between the native preview and dcraw's. The file's contents, dcraw's output (`none` if it is
-- missing, fails, or runs too long) and the JPEG decoder's width are arguments.
pub mod Sound
use cull_snap.Base.{
  ℕ, ◌*◌, List, [], ◌∷◌, ◌++◌, Bool, true, false, not, ◌||◌, ◌&&◌, ◌==◌, ltb, leb, Option, none,
  some, if◌then◌else◌, length, Outcome, ok, err, panic,
}
use cull_snap.Paths.{Name, same, ext, to_lower}
use cull_snap.Raw.File.{Bytes, Error, no_extension, unsupported_extension, all_failed, eof, Res}
use cull_snap.Raw.Tiff.Extract.{extract_tiff_preview}
use cull_snap.Raw.Cr3.{extract_cr3_preview}
use cull_snap.Raw.Raf.{checked_jpeg, extract_raf_preview}

abbrev dotted : ℕ → ℕ → ℕ → Name
dotted a b c = b'.' ∷ a ∷ b ∷ c ∷ []

abbrev pub cr3 : Name
cr3 = dotted b'c' b'r' b'3'

abbrev pub raf : Name
raf = dotted b'r' b'a' b'f'

-- The extensions that the TIFF parser reads.
abbrev pub tiff_extensions : List Name
tiff_extensions =
    dotted b'c' b'r' b'2'
    ∷ dotted b'n' b'e' b'f'
    ∷ dotted b'a' b'r' b'w'
    ∷ dotted b'd' b'n' b'g'
    ∷ dotted b'o' b'r' b'f'
    ∷ dotted b'r' b'w' b'2'
    ∷ dotted b'p' b'e' b'f'
    ∷ dotted b'n' b'r' b'w'
    ∷ dotted b's' b'r' b'w'
    ∷ []

-- `Extensions`, in the order of the source.
abbrev pub extensions : List Name
extensions =
    dotted b'c' b'r' b'2'
    ∷ cr3
    ∷ dotted b'a' b'r' b'w'
    ∷ dotted b'n' b'e' b'f'
    ∷ dotted b'd' b'n' b'g'
    ∷ raf
    ∷ dotted b'r' b'w' b'2'
    ∷ dotted b'o' b'r' b'f'
    ∷ dotted b'n' b'r' b'w'
    ∷ dotted b'p' b'e' b'f'
    ∷ dotted b's' b'r' b'w'
    ∷ []

unfoldable pub any_same : Name → List Name → Bool
any_same e [] = false
any_same e (x ∷ xs) = same e x || any_same e xs

unfoldable pub is_raw_ext : Name → Bool
unfolding any_same
is_raw_ext e = any_same (to_lower e) extensions

-- The switch on the extension (Path A). `none` is no result and no error.
unfoldable pub native_preview : Name → Bytes → Option (Res Bytes)
unfolding any_same
native_preview e f =
    if same e cr3
    then some (extract_cr3_preview f)
    else if same e raf
    then some (extract_raf_preview f)
    else if any_same e tiff_extensions
    then some (extract_tiff_preview f)
    else none

-- `ExtractPreviewDcraw`, on the output of the command.
unfoldable pub extract_preview_dcraw : Option Bytes → Res Bytes
extract_preview_dcraw none = err all_failed
extract_preview_dcraw (some out) =
    if ltb (50 * 1024 * 1024) (length out) then err all_failed else checked_jpeg out

-- `isPreviewLargeEnough`
unfoldable pub is_preview_large_enough : (Bytes → Option ℕ) → Bytes → ℕ → Bool
is_preview_large_enough width b min_width = elim (width b) [
  | none ↦ false
  | some w ↦ leb min_width w
]

abbrev pub min_preview_width : ℕ
min_preview_width = 400

-- Path B, with the small preview of Path A as the last resort.
abbrev pub fall_back : Res Bytes → Option Bytes → Res Bytes
fall_back (ok b) small = ok b
fall_back (err e) none = err all_failed
fall_back (err e) (some small) = ok small
fall_back panic small = panic

abbrev pub choose : (Bytes → Option ℕ) → Res Bytes → Option (Res Bytes) → Res Bytes
choose width dcraw none = fall_back dcraw none
choose width dcraw (some (ok b)) =
    if is_preview_large_enough width b min_preview_width then ok b else fall_back dcraw (some b)
choose width dcraw (some (err e)) = fall_back dcraw none
choose width dcraw (some panic) = panic

unfoldable pub extract_preview : (Bytes → Option ℕ) → Option Bytes → Name → Bytes → Res Bytes
extract_preview width dcraw path f =
    let e = to_lower (ext path) in
    if same e []
    then err no_extension
    else if not (is_raw_ext e)
    then err unsupported_extension
    else choose width (extract_preview_dcraw dcraw) (native_preview e f)
