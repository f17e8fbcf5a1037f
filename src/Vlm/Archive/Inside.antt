-- ===== src/Vlm/Archive/Inside.antt =====
-- Where the members of an archive are written.
use mathlib.Core.Path.{subst}
use cull_snap.Base.{
  suc, List, [], ◌∷◌, ◌++◌, Bool, true, false, not, ◌&&◌, ◌||◌, Option, none, some, if◌then◌else◌,
  if_elim, length, ◌≡◌, refl, Bool-cases, sym, ◌∙◌, ap, All, ◌⊎◌, inl, inr, Option-cases,
  if-eq-some,
}
use cull_snap.Paths.{Name, same, split}
use cull_snap.Paths.Clean.{is_abs, clean, join, abs, base, last_part, rooted_path, dot, dot_dot}
use cull_snap.Paths.Clean.Proper.{
  IsProper, abs-join, abs_rooted, clean_abs, clean-clean, elements, elements-IsProper,
  elements-append, clean_parts-last_part, is_abs-rooted_path,
}
use cull_snap.Storage.Tables.{same_eq}
use cull_snap.Vlm.Config.{has_prefix}
use cull_snap.Vlm.Archive.{
  Entry, ExtractError, Joined, joined, refused, Answers, Extraction, is_kept_name,
  llama_zip_member_kept, with_separator, safe_join, check_inside, wanted, cut_prefix,
  llama_zip_entry_prefix, member, extract_to, extract_joined, extract_member, extract_entries,
  extract_llama_server_zip, extract_opened, stop_or, chmod, absolute_path, escapes, nothing_written,
}

-- An absolute path without `.` and `..` whose last element is one of the kept names, below the
-- destination or the destination itself.
pub record IsInside (dest p : Name) : Type 0 where
  pub name : Name
  pub above : List Name
  pub path : p ≡ rooted_path (name ∷ above)
  pub proper : All IsProper (name ∷ above)
  pub kept : is_kept_name name ≡ true
  pub below : (has_prefix (with_separator dest) p ≡ true) ⊎ (p ≡ dest)

not_kept :
    (is_kept_name dot ≡ false) × (is_kept_name dot_dot ≡ false) × (is_kept_name (b'/' ∷ []) ≡ false)
unfolding is_kept_name same
not_kept = (refl, refl, refl)

-- A kept member ends in a proper name.
kept_last :
    (rel : Name)
    → llama_zip_member_kept rel ≡ true
    → (n : Name) × (last_part (split b'/' rel) ≡ some n) × (is_kept_name n ≡ true)
unfolding llama_zip_member_kept base
kept_last [] k = let q = not_kept.0 in cc
kept_last (c ∷ cs) k = elim (Option-cases (last_part (split b'/' (c ∷ cs)))) [
  | inl e ↦ (let h = rw e at k in let q = not_kept.2 in cc)
  | inr (n, e) ↦ (n, e, (rw e at k))
]

kept_other : (n d : Name) → is_kept_name d ≡ false → is_kept_name n ≡ true → same n d ≡ false
kept_other n d q k = elim (Bool-cases (same n d)) [
  | inl e ↦ (let h = ap is_kept_name (same_eq n d e) in cc)
  | inr e ↦ e
]

-- What passed the check of `safeJoin`.
checked_path :
    (dest q p : Name) (c : Bool)
    → (if c then refused absolute_path else check_inside dest (some q)) ≡ joined p
    → (q ≡ p) × ((has_prefix (with_separator dest) q ≡ true) ⊎ (q ≡ dest))
checked_path dest q p true h = cc
checked_path dest q p false h =
    by_tests (same q dest) (has_prefix (with_separator dest) q) refl refl h
  where
    by_tests :
        (s b : Bool)
        → same q dest ≡ s
        → has_prefix (with_separator dest) q ≡ b
        → (if not s && not b then refused escapes else joined q) ≡ joined p
        → (q ≡ p) × ((has_prefix (with_separator dest) q ≡ true) ⊎ (q ≡ dest))
    by_tests true b e f g = (cc, inr (same_eq q dest e))
    by_tests false true e f g = (cc, inl f)
    by_tests false false e f g = cc

safe_join-IsInside :
    (cwd : Option Name) (dest rel p : Name)
    → is_abs dest ≡ true
    → same rel [] ≡ false
    → llama_zip_member_kept rel ≡ true
    → safe_join cwd dest rel ≡ joined p
    → IsInside dest p
unfolding safe_join
safe_join-IsInside cwd dest rel p a n k j =
    let last = kept_last rel k in
    let ended =
      clean_parts-last_part (split b'/' rel) (elements dest) last.0 last.1
        (kept_other last.0 dot not_kept.0 last.2) (kept_other last.0 dot_dot not_kept.1 last.2) in
    let path : abs cwd (join dest rel) ≡ some (rooted_path (last.0 ∷ ended.0)) =
      abs-join cwd dest rel a n ∙ ap (λ st. some (rooted_path st)) ended.1 in
    let proper : All IsProper (last.0 ∷ ended.0) =
      subst (All IsProper) (elements-append dest rel ∙ ended.1)
        (elements-IsProper (dest ++ b'/' ∷ rel)) in
    let tests = checked_path dest (rooted_path (last.0 ∷ ended.0)) p (is_abs rel) (rw path at j) in
    record {
      name = last.0;
      above = ended.0;
      path = sym tests.0;
      proper = proper;
      kept = last.2;
      below = subst (λ z. (has_prefix (with_separator dest) z ≡ true) ⊎ (z ≡ dest)) tests.0 tests.1;
    }

-- The members that are extracted are kept ones.
wanted-kept :
    (o : Option Name) (rel : Name)
    → wanted o ≡ some rel
    → (same rel [] ≡ false) × (llama_zip_member_kept rel ≡ true)
wanted-kept none rel e = cc
wanted-kept (some r) rel e =
    let h = if-eq-some (same r [] || not (llama_zip_member_kept r)) e in
    subst (λ z. (same z [] ≡ false) × (llama_zip_member_kept z ≡ true)) h.1
      (both (same r []) (llama_zip_member_kept r) h.0)
  where
    both : (b k : Bool) → (b || not k) ≡ false → (b ≡ false) × (k ≡ true)
    both true k q = cc
    both false true q = (refl, refl)
    both false false q = cc

member-kept :
    (e : Entry) (rel : Name)
    → member e ≡ some rel
    → (same rel [] ≡ false) × (llama_zip_member_kept rel ≡ true)
unfolding member
member-kept e rel = by_kind e.is_dir
  where
    by_kind :
        (d : Bool)
        → (if d then none else wanted (cut_prefix llama_zip_entry_prefix e.name)) ≡ some rel
        → (same rel [] ≡ false) × (llama_zip_member_kept rel ≡ true)
    by_kind true h = cc
    by_kind false h = wanted-kept (cut_prefix llama_zip_entry_prefix e.name) rel h

-- All that was written is inside, and counted.
abbrev pub IsContained : Name → Extraction → Type 0
IsContained dest x = All (λ f. IsInside dest f.0) x.files × (length x.files ≡ x.written)

stop_or-IsContained :
    (dest : Name) (o : Option ExtractError) (x : Extraction)
    (rest : Extraction × Option ExtractError)
    → IsContained dest x
    → IsContained dest rest.0
    → IsContained dest (stop_or o x rest).0
stop_or-IsContained dest none x rest c d = d
stop_or-IsContained dest (some err) x rest c d = c

module _ (a : Answers) (dest : Name) (r : is_abs dest ≡ true) where
  extract_to-IsContained :
      (e : Entry) (out : Name) (x : Extraction)
      → IsInside dest out
      → IsContained dest x
      → IsContained dest (extract_to a e out x).0
  extract_to-IsContained e out x i c =
      if_elim {A = Extraction × Option ExtractError} (λ z. IsContained dest z.0)
        (not (a.mkdir_ok out)) (λ h. c)
        (λ h.
          if_elim {A = Extraction × Option ExtractError} (λ z. IsContained dest z.0)
            (not (a.write_ok out)) (λ k. c) (λ k. ((i, c.0), ap suc c.1)))

  extract_member-IsContained :
      (e : Entry) (o : Option Name) (x : Extraction)
      → member e ≡ o
      → IsContained dest x
      → IsContained dest (extract_member a dest e o x).0
  extract_member-IsContained e none x m c = c
  extract_member-IsContained e (some rel) x m c = by_result (safe_join a.cwd dest rel) refl
    where
      by_result :
          (j : Joined) → safe_join a.cwd dest rel ≡ j → IsContained dest (extract_joined a e j x).0
      by_result (refused err) q = c
      by_result (joined p) q =
          let k = member-kept e rel m in
          extract_to-IsContained e p x (safe_join-IsInside a.cwd dest rel p r k.0 k.1 q) c

  extract_entries-IsContained :
      (es : List Entry) (x : Extraction)
      → IsContained dest x
      → IsContained dest (extract_entries a dest es x).0
  unfolding extract_entries
  extract_entries-IsContained [] x c = c
  extract_entries-IsContained (e ∷ es) x c =
      let step = extract_member a dest e (member e) x in
      let one = extract_member-IsContained e (member e) x refl c in
      stop_or-IsContained dest step.1 step.0 (extract_entries a dest es step.0) one
        (extract_entries-IsContained es step.0 one)

chmod-IsContained :
    (a : Answers) (dest : Name) (x : Extraction × Option ExtractError)
    → IsContained dest x.0
    → IsContained dest (chmod a x).0
chmod-IsContained a dest (x, some err) c = c
chmod-IsContained a dest (x, none) c =
    if_elim {A = Extraction × Option ExtractError} (λ z. IsContained dest z.0) (a.chmod_ok x.files)
      (λ h. c) (λ h. c)

-- Let the destination be absolute. Whatever the names of the members are and whatever errors occur,
-- every file that ExtractLlamaServerZip writes has an absolute path without empty elements, `.` and
-- `..`, below the cleaned destination or equal to it, its last element is a name of the allowlist;
-- and the count that is returned is the number of files written.
pub extract_llama_server_zip-IsContained :
    (a : Answers) (dest_dir : Name)
    → is_abs dest_dir ≡ true
    → IsContained (clean dest_dir) (extract_llama_server_zip a dest_dir).0
unfolding extract_llama_server_zip
extract_llama_server_zip-IsContained a dest_dir r =
    let is_rooted : is_abs (clean dest_dir) ≡ true =
      ap is_abs (clean_abs dest_dir r) ∙ is_abs-rooted_path (elements dest_dir) in
    if_elim {A = Extraction × Option ExtractError} (λ z. IsContained (clean dest_dir) z.0)
      (not a.mkdir_dest_ok) (λ h. (tt, refl))
      (λ h.
        rw (abs_rooted a.cwd (clean dest_dir) is_rooted, clean-clean dest_dir r)
          (opened is_rooted a.zip))
  where
    opened :
        is_abs (clean dest_dir) ≡ true
        → (o : Option (List Entry))
        → IsContained (clean dest_dir) (extract_opened a (clean dest_dir) o).0
    opened i none = (tt, refl)
    opened i (some es) =
        chmod-IsContained a (clean dest_dir) (extract_entries a (clean dest_dir) es nothing_written)
          (extract_entries-IsContained a (clean dest_dir) i es nothing_written (tt, refl))
