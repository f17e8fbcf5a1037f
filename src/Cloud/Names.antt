-- ===== src/Cloud/Names.antt =====
-- internal/cloudsource/sanitize.go: `SanitizeID`, on lists of code points.
use cull_snap.Base.{
  ap, ◌∙◌, ℕ, [], ◌∷◌, Bool, true, false, ◌&&◌, ◌||◌, ◌==◌, leb, if◌then◌else◌, map, ◌≡◌, ◌≢◌, refl,
  arith, All,
}
use cull_snap.Paths.{Name, has, same}

-- What `[^a-zA-Z0-9._-]` does not match.
unfoldable pub is_kept : ℕ → Bool
is_kept c =
    (leb b'a' c && leb c b'z')
    || (leb b'A' c && leb c b'Z')
    || (leb b'0' c && leb c b'9')
    || c == b'.'
    || c == b'_'
    || c == b'-'

unfoldable pub replace_all : Name → Name
unfolding is_kept
replace_all = map (λ c. if is_kept c then c else b'_')

-- `filepath.Base`, with the separator `/`.
unfoldable pub trim_slashes : Name → Name
trim_slashes [] = []
trim_slashes (c ∷ cs) = elim (trim_slashes cs) [
  | [] ↦ if c == b'/' then [] else c ∷ []
  | x ∷ xs ↦ c ∷ x ∷ xs
]

unfoldable pub last_element : Name → Name
last_element [] = []
last_element (c ∷ cs) = let rest = last_element cs in if has b'/' (c ∷ cs) then rest else c ∷ cs

-- The end of `filepath.Base`, without the slashes at the end.
abbrev pub base_trimmed : Name → Name
base_trimmed [] = b'/' ∷ []
base_trimmed (x ∷ xs) = last_element (x ∷ xs)

unfoldable pub base : Name → Name
base [] = b'.' ∷ []
base (c ∷ cs) = base_trimmed (trim_slashes (c ∷ cs))

unfoldable pub sanitize_id : Name → Name
sanitize_id [] = b'_' ∷ []
sanitize_id (c ∷ cs) =
    let result = base (replace_all (c ∷ cs)) in
    if same result (b'.' ∷ []) || same result (b'.' ∷ b'.' ∷ []) then b'_' ∷ [] else result

abbrev pub IsKept : Name → Type 0
IsKept = All (λ c. is_kept c ≡ true)

replace_all-IsKept : (x : Name) → IsKept (replace_all x)
unfolding replace_all is_kept
replace_all-IsKept [] = tt
replace_all-IsKept (c ∷ cs) = (ground arith, replace_all-IsKept cs)

kept_has : (x : Name) → IsKept x → has b'/' x ≡ false
unfolding has is_kept
kept_has [] k = refl
kept_has (c ∷ cs) k = let h = k.0 in let r = kept_has cs k.1 in ground arith

kept_trim : (x : Name) → IsKept x → trim_slashes x ≡ x
unfolding trim_slashes is_kept
kept_trim [] k = refl
kept_trim (c ∷ []) k = let h = k.0 in ground arith
kept_trim (c ∷ d ∷ ds) k = rw (kept_trim (d ∷ ds) k.1) refl

kept_base : (c : ℕ) (cs : Name) → IsKept (c ∷ cs) → base (c ∷ cs) ≡ c ∷ cs
unfolding base last_element
kept_base c cs k = ap base_trimmed (kept_trim (c ∷ cs) k) ∙ rw (kept_has (c ∷ cs) k) refl

kept_replace : (x : Name) → IsKept x → replace_all x ≡ x
unfolding replace_all
kept_replace [] k = refl
kept_replace (c ∷ cs) k = rw (k.0, kept_replace cs k.1) refl

-- A name that is not empty, has only letters, digits, `.`, `_` and `-`, and is not `.` or `..`.
pub record IsSafe (x : Name) : Type 0 where
  pub not_empty : x ≢ []
  pub kept : IsKept x
  pub not_dot : same x (b'.' ∷ []) ≡ false
  pub not_dots : same x (b'.' ∷ b'.' ∷ []) ≡ false

underscore : IsSafe (b'_' ∷ [])
unfolding is_kept same
underscore = record { not_empty = λ e. cc; kept = (refl, tt); not_dot = refl; not_dots = refl }

IsSafe-or :
    (x : Name)
    → x ≢ []
    → IsKept x
    → IsSafe (if same x (b'.' ∷ []) || same x (b'.' ∷ b'.' ∷ []) then b'_' ∷ [] else x)
IsSafe-or x n k = dots (same x (b'.' ∷ [])) (same x (b'.' ∷ b'.' ∷ [])) refl refl
  where
    dots :
        (d e : Bool)
        → same x (b'.' ∷ []) ≡ d
        → same x (b'.' ∷ b'.' ∷ []) ≡ e
        → IsSafe (if d || e then b'_' ∷ [] else x)
    dots false false p q = record { not_empty = n; kept = k; not_dot = p; not_dots = q }
    dots false true p q = underscore
    dots true e p q = underscore

safe_base : (x : Name) → x ≢ [] → IsKept x → base x ≡ x
safe_base [] n k = absurd (n refl)
safe_base (c ∷ cs) n k = kept_base c cs k

sanitize_id_safe : (x : Name) → IsSafe x → sanitize_id x ≡ x
unfolding sanitize_id
sanitize_id_safe [] v = absurd (v.not_empty refl)
sanitize_id_safe (c ∷ cs) v =
    let e : base (replace_all (c ∷ cs)) ≡ c ∷ cs =
      ap base (kept_replace (c ∷ cs) v.kept) ∙ kept_base c cs v.kept in
    rw (e, v.not_dot, v.not_dots) refl

safe : (id : Name) → IsSafe (sanitize_id id)
unfolding sanitize_id
safe [] = underscore
safe (c ∷ cs) =
    let k = replace_all-IsKept (c ∷ cs) in
    rw (safe_base (replace_all (c ∷ cs)) replaced k) (IsSafe-or (replace_all (c ∷ cs)) replaced k)
  where
    replaced : replace_all (c ∷ cs) ≢ []
    replaced e = unfold replace_all in cc

-- For every ID, SanitizeID returns a name that can only stand for an entry of the directory that it
-- is joined to: it is not empty, its characters are letters, digits, dots, underscores and dashes,
-- and it is not one dot or two; and to sanitize it again changes nothing.
pub sanitize_id-IsSafe :
    (id : Name) → IsSafe (sanitize_id id) × (sanitize_id (sanitize_id id) ≡ sanitize_id id)
sanitize_id-IsSafe id = (safe id, sanitize_id_safe (sanitize_id id) (safe id))
