-- ===== src/Export.antt =====
-- internal/export/copier.go on a disk that is a list of files. Paths are absolute and clean, so that
-- `filepath.Join` of a directory and a name only puts a separator between them. What the calls of
-- the system answer is an argument; `os.Stat` fails only on a file that is not there. A time is
-- a number of the smallest units that are used.
pub mod Fresh
pub mod Single
pub mod Keeps
use cull_snap.Base.{
  ℕ, zero, suc, ◌-◌, List, [], ◌∷◌, ◌++◌, Bool, true, false, not, ◌&&◌, ◌||◌, ltb, leb, ◌==◌,
  Option, none, some, if◌then◌else◌, length, take,
}
use cull_snap.Paths.{Name, ext}
use cull_snap.Paths.Digits.{itoa}
use cull_snap.Storage.Tables.{get}
use cull_snap.Dedupe.Mover.{File, file_key, dir_of, base_of, write, write_part}

abbrev pub is_there : Option File → Bool
is_there none = false
is_there (some f) = true

-- `os.Stat` finds the file.
abbrev pub exists : Name → List File → Bool
exists p disk = is_there (get file_key p disk)

-- `strings.TrimSuffix` of a name and its extension.
unfoldable pub stem : Name → Name → Name
stem name e = take (length name - length e) name

-- `filepath.Join(dir, fmt.Sprintf("%s_%d%s", name, counter, ext))`
unfoldable pub numbered_path : Name → ℕ → Name
unfolding stem
numbered_path path counter =
    dir_of path ++ b'/' ∷ (stem (base_of path) (ext path) ++ b'_' ∷ (itoa counter ++ ext path))

-- The loop of `uniquePath`, on fuel.
unfoldable pub free_path : ℕ → Name → Name → ℕ → List File → Option Name
free_path zero path new_path counter disk = none
free_path (suc k) path new_path counter disk =
    let later = free_path k path (numbered_path path counter) (suc counter) disk in
    if exists new_path disk then later else some new_path

-- One round for the path itself, and one more than there are files for the numbered ones.
unfoldable pub unique_path : Name → List File → Option Name
unfolding free_path
unique_path path disk = free_path (suc (suc (length disk))) path path 1 disk

-- What the system answers. A copy that fails leaves some content, and so may the program that cuts a
-- video, which answers the content that it wrote at its target, and whether it succeeded.
pub record System : Type 0 where
  pub mkdir_ok : Bool
  pub create_ok : Name → Bool
  pub copy_ok : Name → Bool
  pub copy_leaves : Name → List ℕ
  pub close_ok : Name → Bool
  pub trim_video : (path : Name) (from to : ℕ) → Option (List ℕ) × Bool

-- `model.Photo`, the fields that are used here.
pub record Media : Type 0 where
  pub path : Name
  pub is_video : Bool
  pub duration : ℕ
  pub trim_start : ℕ
  pub trim_end : ℕ

pub data ExportError : Type 0 where
  no_directory trim_failed open_failed create_failed copy_stopped close_failed out_of_fuel :
      ExportError

-- The copy of a file with this content.
unfoldable pub copy_to : System → Name → Name → List ℕ → List File → Option ExportError × List File
copy_to s p dest content disk =
    if not (s.create_ok dest)
    then (some create_failed, disk)
    else if not (s.copy_ok p)
    then (some copy_stopped, write dest (s.copy_leaves p) disk)
    else (if s.close_ok dest then none else some close_failed, write dest content disk)

abbrev pub copy_opened :
    System → Name → Name → Option File → List File → Option ExportError × List File
copy_opened s p dest none disk = (some open_failed, disk)
copy_opened s p dest (some f) disk = copy_to s p dest f.content disk

abbrev pub trimmed : Name → Option (List ℕ) × Bool → List File → Option ExportError × List File
trimmed dest r disk = (if r.1 then none else some trim_failed, write_part dest r.0 disk)

abbrev pub end_of : Media → ℕ
end_of p = if p.trim_end == 0 then p.duration else p.trim_end

-- Whether the video is cut.
abbrev pub is_cut : Media → Bool
is_cut p = p.is_video && (ltb 0 p.trim_start || ltb 0 p.trim_end) && ltb p.trim_start (end_of p)

abbrev pub export_to : System → Media → Option Name → List File → Option ExportError × List File
export_to s p none disk = (some out_of_fuel, disk)
export_to s p (some dest) disk =
    if is_cut p
    then trimmed dest (s.trim_video p.path p.trim_start (end_of p)) disk
    else copy_opened s p.path dest (get file_key p.path disk) disk

unfoldable pub export_single_file :
    System → Name → Media → List File → Option ExportError × List File
unfolding unique_path copy_to
export_single_file s dest_dir p disk =
    export_to s p (unique_path (dest_dir ++ b'/' ∷ base_of p.path) disk) disk

abbrev pub after_file :
    Option ExportError × List File
    → ℕ × Option ExportError × List File
    → ℕ
    → ℕ × Option ExportError × List File
after_file (none, disk) rest count = rest
after_file (some e, disk) rest count = (count, some e, disk)

-- The loop of `ExportSelections`.
unfoldable pub export_files :
    System → Name → ℕ → List Media → List File → ℕ × Option ExportError × List File
unfolding export_single_file
export_files s dest_dir count [] disk = (count, none, disk)
export_files s dest_dir count (p ∷ ps) disk =
    let r = export_single_file s dest_dir p disk in
    after_file r (export_files s dest_dir (suc count) ps r.1) count

-- The number of files, the error and the disk.
unfoldable pub export_selections :
    System → Name → List Media → List File → ℕ × Option ExportError × List File
unfolding export_files
export_selections s dest_dir photos disk =
    if not s.mkdir_ok then (0, some no_directory, disk) else export_files s dest_dir 0 photos disk
