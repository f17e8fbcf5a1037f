-- ===== src/Tests/Archive.antt =====
-- The extraction of an archive with a member that would escape.
use cull_snap.Base.{[], ◌∷◌, ◌++◌, true, false, none, some, ◌≡◌, refl}
use cull_snap.Paths.{Name, same, split}
use cull_snap.Paths.Clean.{clean, clean_part}
use cull_snap.Vlm.Archive.{
  Entry, Answers, llama_zip_entry_prefix, llama_server, escapes, extract_llama_server_zip,
}
use cull_snap.Vlm.Archive.Inside.{IsContained, extract_llama_server_zip-IsContained}

abbrev dest : Name
dest = b'/' ∷ b'h' ∷ b'/' ∷ b'b' ∷ []

abbrev good : Entry
good = record { name = llama_zip_entry_prefix ++ llama_server; is_dir = false; content = 1 ∷ [] }

-- `build/bin/../../llama-server`
abbrev bad : Entry
bad = record {
  name = llama_zip_entry_prefix ++ b'.' ∷ b'.' ∷ b'/' ∷ b'.' ∷ b'.' ∷ b'/' ∷ llama_server;
  is_dir = false;
  content = 2 ∷ [];
}

abbrev answers : Answers
answers = record {
  mkdir_dest_ok = true;
  cwd = none;
  zip = some (good ∷ bad ∷ []);
  mkdir_ok = λ p. true;
  write_ok = λ p. true;
  chmod_ok = λ fs. true;
}

bad-refused :
    extract_llama_server_zip answers dest
    ≡ (record { files = (dest ++ b'/' ∷ llama_server, 1 ∷ []) ∷ []; written = 1 }, some escapes)
unfolding extract_llama_server_zip same split clean_part
bad-refused = refl

extract_llama_server_zip-IsContained_example :
    IsContained (clean dest) (extract_llama_server_zip answers dest).0
extract_llama_server_zip-IsContained_example =
    extract_llama_server_zip-IsContained answers dest refl
