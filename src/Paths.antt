-- ===== src/Paths.antt =====
-- Go's `path/filepath` and `strings` on names of bytes, as far as the modules use them. The
-- separator is `/`; letters are those of ASCII.
pub mod Clean
pub mod Digits
use cull_snap.Base.{
  ℕ, ◌+◌, List, [], ◌∷◌, Bool, true, false, not, ◌&&◌, ◌||◌, ◌==◌, leb, if◌then◌else◌, map,
}

abbrev pub Name : Type 0
Name = List ℕ

-- `strings.ToLower`
unfoldable pub to_lower : Name → Name
to_lower = map (λ c. if leb b'A' c && leb c b'Z' then c + 32 else c)

unfoldable pub has : ℕ → Name → Bool
has c [] = false
has c (x ∷ xs) = c == x || has c xs

-- `filepath.Ext`: from the last dot of the last element on.
unfoldable pub ext : Name → Name
unfolding has
ext [] = []
ext (c ∷ r) = elim (ext r) [
  | [] ↦ if c == b'.' && not (has b'/' r) then c ∷ r else []
  | x ∷ xs ↦ x ∷ xs
]

-- Equality of names.
unfoldable pub same : Name → Name → Bool
same [] [] = true
same [] (y ∷ ys) = false
same (x ∷ xs) [] = false
same (x ∷ xs) (y ∷ ys) = x == y && same xs ys

abbrev pub onto_first : ℕ → List Name → List Name
onto_first c [] = (c ∷ []) ∷ []
onto_first c (p ∷ ps) = (c ∷ p) ∷ ps

-- `strings.Split` at one character.
unfoldable pub split : ℕ → Name → List Name
split sep [] = [] ∷ []
split sep (c ∷ cs) = let rest = split sep cs in if c == sep then [] ∷ rest else onto_first c rest
