-- ===== src/Storage/Like.antt =====
-- SQL's `LIKE`, as the statements of internal/storage use it: `%` stands for any text, `_` for any
-- character, and ASCII letters compare without their case. There is no escape character.
use cull_snap.Base.{
  ℕ, ◌+◌, [], ◌∷◌, ◌++◌, Bool, true, false, ◌&&◌, ◌||◌, ◌==◌, leb, if◌then◌else◌, ◌≡◌, ◌≢◌, refl,
  arith, All, ne→==,
}
use cull_snap.Paths.{Name}

unfoldable pub lower : ℕ → ℕ
lower c = if leb b'A' c && leb c b'Z' then c + 32 else c

-- Some rest of the text passes the test.
unfoldable pub some_rest : (Name → Bool) → Name → Bool
some_rest k [] = k []
some_rest k (c ∷ cs) = k (c ∷ cs) || some_rest k cs

abbrev pub first_matches : ℕ → (Name → Bool) → Name → Bool
first_matches p k [] = false
first_matches p k (c ∷ cs) = (p == b'_' || lower p == lower c) && k cs

unfoldable pub like : Name → Name → Bool
unfolding some_rest
like [] [] = true
like [] (c ∷ cs) = false
like (p ∷ ps) text = if p == b'%' then some_rest (like ps) text else first_matches p (like ps) text

-- `t` begins with `prefix`, but for the case of letters.
unfoldable pub starts_with : Name → Name → Bool
starts_with [] t = true
starts_with (p ∷ ps) [] = false
starts_with (p ∷ ps) (c ∷ cs) = lower p == lower c && starts_with ps cs

any_text : (t : Name) → like (b'%' ∷ []) t ≡ true
unfolding like
any_text [] = refl
any_text (c ∷ cs) = any_text cs

some_rest_here : (k : Name → Bool) (t : Name) → k t ≡ true → some_rest k t ≡ true
unfolding some_rest
some_rest_here k [] e = e
some_rest_here k (c ∷ cs) e = rw e refl

-- Every text with the prefix is matched, whatever the prefix is.
pub like-starts_with :
    (prefix t : Name) → starts_with prefix t ≡ true → like (prefix ++ b'%' ∷ []) t ≡ true
unfolding like starts_with
like-starts_with [] t e = any_text t
like-starts_with (p ∷ ps) [] e = cc
like-starts_with (p ∷ ps) (c ∷ cs) e =
    ground
      (arith, like-starts_with ps cs, some_rest_here (λ (z : Name). like (ps ++ b'%' ∷ []) z) cs)

-- A character that stands for itself.
abbrev pub IsLiteral : ℕ → Type 0
IsLiteral c = (c ≢ b'%') × (c ≢ b'_')

-- For a prefix without wildcards, the pattern matches nothing else.
pub like_literal :
    (prefix t : Name) → All IsLiteral prefix → like (prefix ++ b'%' ∷ []) t ≡ starts_with prefix t
unfolding like starts_with
like_literal [] t a = any_text t
like_literal (p ∷ ps) [] a = rw (ne→== p b'%' a.0.0) refl
like_literal (p ∷ ps) (c ∷ cs) a =
    rw (ne→== p b'%' a.0.0, ne→== p b'_' a.0.1, like_literal ps cs a.1) refl
