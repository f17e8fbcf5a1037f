-- ===== src/Storage/Recents.antt =====
-- internal/storage/sqlite.go: the table of recent folders, of which 30 are kept. The order that
-- `ORDER BY accessed_at DESC` gives is an argument.
use mathlib.Core.Path.{subst}
use cull_snap.Base.{
  sym, ℕ, ◌+◌, ◌≤◌, List, [], ◌∷◌, Bool, false, ◌||◌, none, if◌then◌else◌, if_elim, ◌≡◌, refl,
  arith, length, take, length-take,
}
use cull_snap.Paths.{Name, same}
use cull_snap.Storage.Tables.{same_eq, get, put, Unique, Unique-put, same_sym}

pub record Recent : Type 0 where
  pub path : Name
  pub accessed_at : ℕ

abbrev pub recent_key : Recent → Name
recent_key r = r.path

unfoldable pub is_listed : Name → List Recent → Bool
is_listed p [] = false
is_listed p (r ∷ rs) = same r.path p || is_listed p rs

-- `DELETE … WHERE path NOT IN (…)`
unfoldable pub keep_listed : List Recent → List Recent → List Recent
unfolding is_listed
keep_listed listed [] = []
keep_listed listed (r ∷ rs) =
    let rest = keep_listed listed rs in if is_listed r.path listed then r ∷ rest else rest

-- `AddRecent` at the time `now`.
unfoldable pub add_recent : (List Recent → List Recent) → Name → ℕ → List Recent → List Recent
add_recent sort p now rows =
    let added = put recent_key (record { path = p; accessed_at = now }) rows in
    keep_listed (take 30 (sort added)) added

get-keep_listed :
    (k : Name) (listed rows : List Recent)
    → get recent_key k rows ≡ none
    → get recent_key k (keep_listed listed rows) ≡ none
unfolding get keep_listed
get-keep_listed k listed [] e = refl
get-keep_listed k listed (r ∷ rs) e = ground (arith, get-keep_listed k listed rs)

Unique-keep_listed :
    (listed rows : List Recent)
    → Unique recent_key rows
    → Unique recent_key (keep_listed listed rows)
unfolding keep_listed
Unique-keep_listed listed [] u = tt
Unique-keep_listed listed (r ∷ rs) u =
    if_elim (Unique recent_key) (is_listed r.path listed)
      (λ e. (get-keep_listed r.path listed rs u.0, Unique-keep_listed listed rs u.1))
      (λ e. Unique-keep_listed listed rs u.1)

-- The rows that have one path.
with_path : Name → List Recent → List Recent
with_path p [] = []
with_path p (r ∷ rs) = let rest = with_path p rs in if same p r.path then r ∷ rest else rest

with_path-none :
    (p : Name) (rows : List Recent) → get recent_key p rows ≡ none → length (with_path p rows) ≡ 0
unfolding with_path get
with_path-none p [] e = refl
with_path-none p (r ∷ rs) e = ground (arith, with_path-none p rs, same_sym p r.path)

with_path_one :
    (p : Name) (rows : List Recent) → Unique recent_key rows → length (with_path p rows) ≤ 1
unfolding with_path
with_path_one p [] u = omega arith
with_path_one p (r ∷ rs) u =
    if_elim {A = List Recent} (λ l. length l ≤ 1) (same p r.path) {x = r ∷ with_path p rs}
      {y = with_path p rs}
      (λ e. alone (
        with_path-none p rs
          (subst (λ k. get recent_key k rs ≡ none) (sym (same_eq p r.path e)) u.0)))
      (λ e. with_path_one p rs u.1)
  where
    alone : length (with_path p rs) ≡ 0 → length (r ∷ with_path p rs) ≤ 1
    alone z = omega arith

keep_none : (rows : List Recent) → length (keep_listed [] rows) ≡ 0
unfolding keep_listed
keep_none [] = refl
keep_none (r ∷ rs) = keep_none rs

keep_more :
    (l : Recent) (listed rows : List Recent)
    → length (keep_listed (l ∷ listed) rows)
      ≤ length (with_path l.path rows) + length (keep_listed listed rows)
unfolding keep_listed with_path
keep_more l listed [] = omega arith
keep_more l listed (r ∷ rs) = ground (arith, keep_more l listed rs)

length-keep_listed :
    (listed rows : List Recent)
    → Unique recent_key rows
    → length (keep_listed listed rows) ≤ length listed
length-keep_listed [] rows u = omega (arith, keep_none rows)
length-keep_listed (l ∷ listed) rows u =
    omega (
      arith,
      keep_more l listed rows,
      with_path_one l.path rows u,
      length-keep_listed listed rows u,
    )

-- Whatever order the rows are sorted in: if no two rows have one path, then after AddRecent no two
-- have, and there are 30 at most.
pub add_recent_bounds :
    (sort : List Recent → List Recent) (p : Name) (now : ℕ) (rows : List Recent)
    → Unique recent_key rows
    → Unique recent_key (add_recent sort p now rows) × (length (add_recent sort p now rows) ≤ 30)
unfolding add_recent
add_recent_bounds sort p now rows u =
    let added = put recent_key (record { path = p; accessed_at = now }) rows in
    let v = Unique-put recent_key (record { path = p; accessed_at = now }) rows u in
    (
      Unique-keep_listed (take 30 (sort added)) added v,
      omega (arith, length-keep_listed (take 30 (sort added)) added v, length-take 30 (sort added)),
    )
