-- ===== src/Vlm/Archive.antt =====
-- internal/vlm/extract.go: `ExtractLlamaServerZip` on the members of an archive. The working directory
-- and what the system answers are arguments; the mode and the temporary file of a member are left out.
pub mod Inside
use cull_snap.Base.{
  ℕ, zero, suc, ◌+◌, List, [], ◌∷◌, ◌++◌, Bool, true, false, not, ◌&&◌, ◌||◌, Option, none, some,
  if◌then◌else◌, length,
}
use cull_snap.Paths.{Name, same}
use cull_snap.Paths.Clean.{is_abs, clean, join, abs, base}
use cull_snap.Vlm.Config.{has_prefix}

-- `llamaZipEntryPrefix`
abbrev pub llama_zip_entry_prefix : Name
llama_zip_entry_prefix = b'b' ∷ b'u' ∷ b'i' ∷ b'l' ∷ b'd' ∷ b'/' ∷ b'b' ∷ b'i' ∷ b'n' ∷ b'/' ∷ []

-- A member of the archive.
pub record Entry : Type 0 where
  pub name : Name
  pub is_dir : Bool
  pub content : List ℕ

pub data ExtractError : Type 0 where
  mkdir_dest resolve_dest open_zip absolute_path resolve_entry escapes mkdir_entry write_entry
        chmod_binary :
      ExtractError

unfoldable pub has_suffix : Name → Name → Bool
has_suffix [] p = same [] p
has_suffix (c ∷ cs) p = same (c ∷ cs) p || has_suffix cs p

-- `strings.Contains`
unfoldable pub contains : Name → Name → Bool
unfolding has_prefix
contains p [] = has_prefix p []
contains p (c ∷ cs) = has_prefix p (c ∷ cs) || contains p cs

unfoldable pub contains_dot_so : Name → Bool
unfolding has_suffix contains
contains_dot_so s =
    has_suffix s (b'.' ∷ b's' ∷ b'o' ∷ []) || contains (b'.' ∷ b's' ∷ b'o' ∷ b'.' ∷ []) s

abbrev pub llama_server : Name
llama_server =
    b'l' ∷ b'l' ∷ b'a' ∷ b'm' ∷ b'a' ∷ b'-' ∷ b's' ∷ b'e' ∷ b'r' ∷ b'v' ∷ b'e' ∷ b'r' ∷ []

-- The tests of `llamaZipMemberKept` on the last element.
unfoldable pub is_kept_name : Name → Bool
unfolding contains_dot_so
is_kept_name n =
    same n llama_server
    || same n (llama_server ++ b'.' ∷ b'e' ∷ b'x' ∷ b'e' ∷ [])
    || (has_prefix (b'l' ∷ b'i' ∷ b'b' ∷ []) n
        && (has_suffix n (b'.' ∷ b'd' ∷ b'y' ∷ b'l' ∷ b'i' ∷ b'b' ∷ [])
            || contains_dot_so n
            || has_suffix n (b'.' ∷ b'd' ∷ b'l' ∷ b'l' ∷ [])))
    || has_suffix n (b'.' ∷ b'm' ∷ b'e' ∷ b't' ∷ b'a' ∷ b'l' ∷ [])
    || has_suffix n (b'.' ∷ b'h' ∷ [])
    || has_prefix (b'L' ∷ b'I' ∷ b'C' ∷ b'E' ∷ b'N' ∷ b'S' ∷ b'E' ∷ []) n
    || has_prefix (b'N' ∷ b'O' ∷ b'T' ∷ b'I' ∷ b'C' ∷ b'E' ∷ []) n

unfoldable pub llama_zip_member_kept : Name → Bool
unfolding is_kept_name base
llama_zip_member_kept rel = is_kept_name (base rel)

abbrev pub with_separator : Name → Name
with_separator dest = if has_suffix dest (b'/' ∷ []) then dest else dest ++ b'/' ∷ []

-- The path, or the error.
pub data Joined : Type 0 where
  joined : Name → Joined
  refused : ExtractError → Joined

abbrev pub check_inside : Name → Option Name → Joined
check_inside dest none = refused resolve_entry
check_inside dest (some cleaned) =
    if not (same cleaned dest) && not (has_prefix (with_separator dest) cleaned)
    then refused escapes
    else joined cleaned

unfoldable pub safe_join : Option Name → (dest rel : Name) → Joined
unfolding abs join has_suffix
safe_join cwd dest rel =
    if is_abs rel then refused absolute_path else check_inside dest (abs cwd (join dest rel))

-- `strings.CutPrefix`
unfoldable pub cut_prefix : Name → Name → Option Name
cut_prefix [] s = some s
cut_prefix (p ∷ ps) [] = none
cut_prefix (p ∷ ps) (c ∷ cs) =
    let rest = cut_prefix ps cs in if same (p ∷ []) (c ∷ []) then rest else none

-- What remains of the name of a member that is extracted.
abbrev pub wanted : Option Name → Option Name
wanted none = none
wanted (some rel) = if same rel [] || not (llama_zip_member_kept rel) then none else some rel

unfoldable pub member : Entry → Option Name
unfolding cut_prefix llama_zip_member_kept
member e = if e.is_dir then none else wanted (cut_prefix llama_zip_entry_prefix e.name)

-- What was written, the last first, and the count that is returned.
pub record Extraction : Type 0 where
  pub files : List (Name × List ℕ)
  pub written : ℕ

-- What the system answers.
pub record Answers : Type 0 where
  pub mkdir_dest_ok : Bool
  pub cwd : Option Name
  pub zip : Option (List Entry)
  pub mkdir_ok : Name → Bool
  pub write_ok : Name → Bool
  pub chmod_ok : List (Name × List ℕ) → Bool

-- An error ends the loop.
abbrev pub stop_or :
    Option ExtractError
    → Extraction
    → Extraction × Option ExtractError
    → Extraction × Option ExtractError
stop_or none x rest = rest
stop_or (some err) x rest = (x, some err)

module _ (a : Answers) where
  -- The loop body for a member that is extracted, with `outPath`.
  abbrev pub extract_to : Entry → Name → Extraction → Extraction × Option ExtractError
  extract_to e out x =
      if not (a.mkdir_ok out)
      then (x, some mkdir_entry)
      else if not (a.write_ok out)
      then (x, some write_entry)
      else (record { files = (out, e.content) ∷ x.files; written = suc x.written }, none)

  abbrev pub extract_joined : Entry → Joined → Extraction → Extraction × Option ExtractError
  extract_joined e (refused err) x = (x, some err)
  extract_joined e (joined out) x = extract_to e out x

  abbrev pub extract_member :
      Name → Entry → Option Name → Extraction → Extraction × Option ExtractError
  extract_member dest e none x = (x, none)
  extract_member dest e (some rel) x = extract_joined e (safe_join a.cwd dest rel) x

  -- The loop over the members.
  unfoldable pub extract_entries : Name → List Entry → Extraction → Extraction × Option ExtractError
  unfolding member safe_join
  extract_entries dest [] x = (x, none)
  extract_entries dest (e ∷ es) x =
      let step = extract_member dest e (member e) x in
      let rest = extract_entries dest es step.0 in stop_or step.1 step.0 rest

abbrev pub chmod : Answers → Extraction × Option ExtractError → Extraction × Option ExtractError
chmod a (x, some err) = (x, some err)
chmod a (x, none) = if a.chmod_ok x.files then (x, none) else (x, some chmod_binary)

abbrev pub nothing_written : Extraction
nothing_written = record { files = []; written = 0 }

-- From the opening of the archive on.
abbrev pub extract_opened : Answers → Name → Option (List Entry) → Extraction × Option ExtractError
extract_opened a dest none = (nothing_written, some open_zip)
extract_opened a dest (some es) = chmod a (extract_entries a dest es nothing_written)

abbrev pub extract_resolved : Answers → Option Name → Extraction × Option ExtractError
extract_resolved a none = (nothing_written, some resolve_dest)
extract_resolved a (some dest) = extract_opened a dest a.zip

unfoldable pub extract_llama_server_zip : Answers → Name → Extraction × Option ExtractError
unfolding extract_entries abs
extract_llama_server_zip a dest_dir =
    if not a.mkdir_dest_ok
    then (nothing_written, some mkdir_dest)
    else extract_resolved a (abs a.cwd (clean dest_dir))
