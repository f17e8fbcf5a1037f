-- ===== src/Export/Single.antt =====
-- The export of one file: it overwrites nothing, and what it copies has the same content.
use cull_snap.Base.{
  ℕ, List, ◌∷◌, ◌++◌, Bool, true, false, not, Option, none, some, ◌≡◌, ◌≢◌, refl, ◌∙◌, ap,
  Bool-cases, inl, inr, ◌⊎◌, if◌then◌else◌, if_elim,
}
use cull_snap.Paths.{Name, same}
use cull_snap.Storage.Tables.{get, get-put, same_eq, same_refl}
use cull_snap.Dedupe.Mover.{File, file_key, write, write_part, base_of}
use cull_snap.Export.{
  System, Media, ExportError, out_of_fuel, is_there, exists, copy_to, copy_opened, trimmed, is_cut,
  end_of, export_to, export_single_file, create_failed, trim_failed, open_failed, close_failed,
  copy_stopped,
}
use cull_snap.Export.Fresh.{IsFree, unique_path_total}

-- Every file of the first disk is on the second one.
abbrev pub Kept : List File → List File → Type 0
Kept disk after =
    (k : Name) (f : File) → get file_key k disk ≡ some f → get file_key k after ≡ some f

-- There is a file with the content of a photo at a path that was free.
abbrev pub IsCopied : List File → List File → Media → Type 0
IsCopied disk after p =
    (is_cut p ≡ true)
    ⊎ ((q : Name) × (f : File) × (g : File) × IsFree q disk
        × (get file_key p.path disk ≡ some f)
        × (get file_key q after ≡ some g)
        × (g.content ≡ f.content))

-- The end of the export of one file.
abbrev pub Ends : List File → Media → Option ExportError × List File → Type 0
Ends disk p r =
    Kept disk r.1
    × (((e : ExportError) × (r.0 ≡ some e) × (e ≢ out_of_fuel))
        ⊎ ((r.0 ≡ none) × IsCopied disk r.1 p))

write-Kept : (q : Name) (c : List ℕ) (disk : List File) → IsFree q disk → Kept disk (write q c disk)
write-Kept q c disk free k f e = elim (Bool-cases (same q k)) [
  | inl s ↦
      (let here : exists q disk ≡ true = ap (λ z. exists z disk) (same_eq q k s) ∙ ap is_there e in
        cc)
  | inr s ↦ get-put file_key k (record { path = q; content = c }) disk ∙ rw s e
]

get-write :
    (q : Name) (c : List ℕ) (disk : List File)
    → get file_key q (write q c disk) ≡ some (record { path = q; content = c })
get-write q c disk =
    get-put file_key q (record { path = q; content = c }) disk ∙ rw (same_refl q) refl

copy_to-Ends :
    (s : System) (p : Media) (q : Name) (f : File) (disk : List File)
    → IsFree q disk
    → get file_key p.path disk ≡ some f
    → Ends disk p (copy_to s p.path q f.content disk)
unfolding copy_to
copy_to-Ends s p q f disk free e =
    let at_end = λ (r : Option ExportError × List File). Ends disk p r in
    if_elim at_end (not (s.create_ok q)) (λ x. ((λ k g h. h), inl (create_failed, refl, (λ x. cc))))
      (λ x.
        if_elim at_end (not (s.copy_ok p.path))
          (λ y.
            (write-Kept q (s.copy_leaves p.path) disk free, inl (copy_stopped, refl, (λ x. cc))))
          (λ y. (write-Kept q f.content disk free, closed (s.close_ok q))))
  where
    closed :
        (b : Bool)
        → ((x : ExportError) × ((if b then none else some close_failed) ≡ some x)
            × (x ≢ out_of_fuel))
          ⊎ (((if b then none else some close_failed) ≡ none)
              × IsCopied disk (write q f.content disk) p)
    closed false = inl (close_failed, refl, (λ x. cc))
    closed true = inr (
      refl,
      inr (
        q,
        f,
        record { path = q; content = f.content },
        free,
        e,
        get-write q f.content disk,
        refl,
      ),
    )

trimmed-Ends :
    (p : Media) (q : Name) (r : Option (List ℕ) × Bool) (disk : List File)
    → IsFree q disk
    → is_cut p ≡ true
    → Ends disk p (trimmed q r disk)
trimmed-Ends p q (o, b) disk free e = (part o, by_answer b)
  where
    part : (o : Option (List ℕ)) → Kept disk (write_part q o disk)
    part none k f h = h
    part (some c) k f h = write-Kept q c disk free k f h

    by_answer :
        (b : Bool)
        → ((x : ExportError) × ((if b then none else some trim_failed) ≡ some x)
            × (x ≢ out_of_fuel))
          ⊎ (((if b then none else some trim_failed) ≡ none)
              × IsCopied disk (write_part q o disk) p)
    by_answer true = inr (refl, inl e)
    by_answer false = inl (trim_failed, refl, (λ x. cc))

pub export_single_file-Ends :
    (s : System) (dest_dir : Name) (p : Media) (disk : List File)
    → Ends disk p (export_single_file s dest_dir p disk)
unfolding export_single_file
export_single_file-Ends s dest_dir p disk =
    let free = unique_path_total (dest_dir ++ b'/' ∷ base_of p.path) disk in
    rw free.1 (with_path free.0 free.2)
  where
    opened :
        (q : Name)
        → IsFree q disk
        → (o : Option File) → get file_key p.path disk ≡ o
        → Ends disk p (copy_opened s p.path q o disk)
    opened q free none e = ((λ k g h. h), inl (open_failed, refl, (λ x. cc)))
    opened q free (some f) e = copy_to-Ends s p q f disk free e

    with_path : (q : Name) → IsFree q disk → Ends disk p (export_to s p (some q) disk)
    with_path q free =
        if_elim {A = Option ExportError × List File} (Ends disk p) (is_cut p)
          (λ e. trimmed-Ends p q (s.trim_video p.path p.trim_start (end_of p)) disk free e)
          (λ e. opened q free (get file_key p.path disk) refl)
