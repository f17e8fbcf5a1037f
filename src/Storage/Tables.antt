-- ===== src/Storage/Tables.antt =====
-- Tables with a text as primary key: `INSERT OR REPLACE`, `DELETE … WHERE key = ?` and the lookup of
-- a row, as internal/storage uses them.
use cull_snap.Base.{
  ◌∙◌, if_elim, List, [], ◌∷◌, ◌++◌, Bool, true, false, Option, none, some, if◌then◌else◌, ◌≡◌,
  refl, arith, ap,
}
use cull_snap.Paths.{Name, same}

pub same_eq : (x y : Name) → same x y ≡ true → x ≡ y
unfolding same
same_eq [] [] e = refl
same_eq [] (y ∷ ys) e = cc
same_eq (x ∷ xs) [] e = cc
same_eq (x ∷ xs) (y ∷ ys) e = ground (arith, same_eq xs ys)

pub same_refl : (x : Name) → same x x ≡ true
unfolding same
same_refl [] = refl
same_refl (x ∷ xs) = ground (arith, same_refl xs)

-- Names that are the same compare alike with a third.
pub same_left : (a b c : Name) → same a b ≡ true → same a c ≡ same b c
same_left a b c e = ap (λ z. same z c) (same_eq a b e)

pub same_sym : (a b : Name) → same a b ≡ same b a
unfolding same
same_sym [] [] = refl
same_sym [] (y ∷ ys) = refl
same_sym (x ∷ xs) [] = refl
same_sym (x ∷ xs) (y ∷ ys) = ground (arith, same_sym xs ys)

module _ {R : Type 0} (key : R → Name) where
  unfoldable pub get : Name → List R → Option R
  get k [] = none
  get k (r ∷ rs) = let rest = get k rs in if same (key r) k then some r else rest

  unfoldable pub remove_key : Name → List R → List R
  remove_key k [] = []
  remove_key k (r ∷ rs) = let rest = remove_key k rs in if same (key r) k then rest else r ∷ rest

  -- A replaced row is deleted, and the new one stands at the end.
  unfoldable pub put : R → List R → List R
  unfolding remove_key
  put r rs = remove_key (key r) rs ++ r ∷ []

  pub get-remove_key :
      (j k : Name) (rs : List R) → get j (remove_key k rs) ≡ (if same k j then none else get j rs)
  unfolding get remove_key
  get-remove_key j k [] = ground arith
  get-remove_key j k (r ∷ rs) = ground (
    arith,
    same_left (key r) k j,
    same_left k j (key r),
    same_sym k (key r),
    same_sym j (key r),
    get-remove_key j k rs,
  )

  get-append :
      (j : Name) (r : R) (rs : List R)
      → get j rs ≡ none
      → get j (rs ++ r ∷ []) ≡ (if same (key r) j then some r else none)
  unfolding get
  get-append j r [] e = refl
  get-append j r (s ∷ rs) e = ground (arith, get-append j r rs)

  get-append_other :
      (j : Name) (r : R) (rs : List R) → same (key r) j ≡ false → get j (rs ++ r ∷ []) ≡ get j rs
  unfolding get
  get-append_other j r [] e = ground arith
  get-append_other j r (s ∷ rs) e = ground (arith, get-append_other j r rs)

  pub get-put :
      (j : Name) (r : R) (rs : List R)
      → get j (put r rs) ≡ (if same (key r) j then some r else get j rs)
  unfolding put
  get-put j r rs =
      put_cases (same (key r) j) (remove_key (key r) rs) refl (get-remove_key j (key r) rs)
    where
      put_cases :
          (c : Bool) (kept : List R)
          → same (key r) j ≡ c
          → get j kept ≡ (if same (key r) j then none else get j rs)
          → get j (kept ++ r ∷ []) ≡ (if same (key r) j then some r else get j rs)
      put_cases true kept e d = rw e (get-append j r kept (d ∙ rw e refl) ∙ rw e refl)
      put_cases false kept e d = rw e (get-append_other j r kept e ∙ d ∙ rw e refl)

  -- The primary key: no two rows have one key.
  abbrev pub Unique : List R → Type 0
  Unique [] = Unit
  Unique (r ∷ rs) = (get (key r) rs ≡ none) × Unique rs

  Unique-remove_key : (k : Name) (rs : List R) → Unique rs → Unique (remove_key k rs)
  unfolding remove_key
  Unique-remove_key k [] u = tt
  Unique-remove_key k (r ∷ rs) u =
      if_elim Unique (same (key r) k) (λ e. Unique-remove_key k rs u.1)
        (λ e. (
          get-remove_key (key r) k rs ∙ absent (same k (key r)) (get (key r) rs) u.0,
          Unique-remove_key k rs u.1,
        ))
    where
      absent : (c : Bool) (o : Option R) → o ≡ none → (if c then none else o) ≡ none
      absent true o e = refl
      absent false o e = e

  Unique-append : (r : R) (rs : List R) → get (key r) rs ≡ none → Unique rs → Unique (rs ++ r ∷ [])
  unfolding get
  Unique-append r [] e u = (refl, tt)
  Unique-append r (s ∷ rs) e u = (
    get-append (key s) r rs u.0 ∙ rw (other (same (key s) (key r)) (get (key r) rs) refl e) refl,
    Unique-append r rs (ground arith) u.1,
  )
    where
      other :
          (c : Bool) (o : Option R)
          → same (key s) (key r) ≡ c
          → (if c then some s else o) ≡ none
          → same (key r) (key s) ≡ false
      other true o q h = cc
      other false o q h = same_sym (key r) (key s) ∙ q

  pub Unique-put : (r : R) (rs : List R) → Unique rs → Unique (put r rs)
  unfolding put
  Unique-put r rs u =
      Unique-append r (remove_key (key r) rs)
        (get-remove_key (key r) (key r) rs ∙ rw (same_refl (key r)) refl)
        (Unique-remove_key (key r) rs u)
