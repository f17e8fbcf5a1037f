-- ===== src/Vlm/Config/Lines.antt =====
-- No line of sanitized instructions begins with a prefix that is rejected.
use cull_snap.Base.{
  ℕ, zero, suc, List, [], ◌∷◌, Bool, true, false, ◌&&◌, ◌==◌, if◌then◌else◌, take, ◌≡◌, refl, arith,
  All, ap,
}
use cull_snap.Paths.{Name}
use cull_snap.Vlm.Config.{
  is_space, trim_left, trim_right, trim_space, is_nil, has_prefix, has_any_prefix, is_rejected,
  sanitize_prefixes,
}

-- The last character is no space.
abbrev IsSolid : Name → Type 0
IsSolid [] = ⊥
IsSolid (c ∷ []) = is_space c ≡ false
IsSolid (c ∷ d ∷ ds) = IsSolid (d ∷ ds)

-- Spaces at the end do not matter for such a prefix.
has_prefix-trim_right : (p s : Name) → IsSolid p → has_prefix p (trim_right s) ≡ has_prefix p s
unfolding has_prefix trim_right
has_prefix-trim_right [] s h = absurd h
has_prefix-trim_right (x ∷ []) [] h = refl
has_prefix-trim_right (x ∷ y ∷ ys) [] h = refl
has_prefix-trim_right (x ∷ []) (c ∷ cs) h = first (is_nil (trim_right cs) && is_space c) refl
  where
    first :
        (b : Bool)
        → (is_nil (trim_right cs) && is_space c) ≡ b
        → has_prefix (x ∷ []) (if b then [] else c ∷ trim_right cs) ≡ (x == c && true)
    first true q = ground arith
    first false q = refl
has_prefix-trim_right (x ∷ y ∷ ys) (c ∷ cs) h =
    later (is_nil (trim_right cs) && is_space c) (trim_right cs) refl
      (has_prefix-trim_right (y ∷ ys) cs h)
  where
    later :
        (b : Bool) (r : Name)
        → (is_nil r && is_space c) ≡ b
        → has_prefix (y ∷ ys) r ≡ has_prefix (y ∷ ys) cs
        → has_prefix (x ∷ y ∷ ys) (if b then [] else c ∷ r) ≡ (x == c && has_prefix (y ∷ ys) cs)
    later true [] q e = ground arith
    later true (d ∷ ds) q e = cc
    later false r q e = rw e refl

has_any_prefix-trim_right :
    (ps : List Name) (s : Name)
    → All IsSolid ps
    → has_any_prefix ps (trim_right s) ≡ has_any_prefix ps s
unfolding has_any_prefix
has_any_prefix-trim_right [] s a = refl
has_any_prefix-trim_right (p ∷ ps) s a =
    rw (has_prefix-trim_right p s a.0, has_any_prefix-trim_right ps s a.1) refl

-- The line begins with none of the prefixes, spaces apart.
abbrev pub IsClean : Name → Type 0
IsClean l = has_any_prefix sanitize_prefixes (trim_left l) ≡ false

pub rejected-trim_left : (l : Name) → is_rejected l ≡ has_any_prefix sanitize_prefixes (trim_left l)
unfolding is_rejected trim_space is_space
rejected-trim_left l =
    has_any_prefix-trim_right sanitize_prefixes (trim_left l)
      (refl, (refl, (refl, (refl, (refl, (refl, tt))))))

has_prefix-take :
    (p : Name) (n : ℕ) (s : Name) → has_prefix p s ≡ false → has_prefix p (take n s) ≡ false
unfolding has_prefix
has_prefix-take [] n s e = e
has_prefix-take (x ∷ xs) zero s e = refl
has_prefix-take (x ∷ xs) (suc n) [] e = refl
has_prefix-take (x ∷ xs) (suc n) (c ∷ cs) e = ground (arith, has_prefix-take xs n cs)

has_any_prefix-take :
    (ps : List Name) (n : ℕ) (s : Name)
    → has_any_prefix ps s ≡ false
    → has_any_prefix ps (take n s) ≡ false
unfolding has_any_prefix
has_any_prefix-take [] n s e = refl
has_any_prefix-take (p ∷ ps) n s e =
    ground (arith, has_prefix-take p n s, has_any_prefix-take ps n s)

pub IsClean-nil : IsClean []
unfolding has_any_prefix has_prefix trim_left
IsClean-nil = refl

pub IsClean-take : (n : ℕ) (l : Name) → IsClean l → IsClean (take n l)
unfolding trim_left
IsClean-take zero l e = IsClean-nil
IsClean-take (suc n) [] e = e
IsClean-take (suc n) (c ∷ cs) e = cut (is_space c) e (λ h. IsClean-take n cs h)
  where
    cut :
        (b : Bool)
        → has_any_prefix sanitize_prefixes (if b then trim_left cs else c ∷ cs) ≡ false
        → (IsClean cs → IsClean (take n cs))
        → has_any_prefix sanitize_prefixes (if b then trim_left (take n cs) else c ∷ take n cs)
          ≡ false
    cut true q h = h q
    cut false q h = has_any_prefix-take sanitize_prefixes (suc n) (c ∷ cs) q

-- The text up to its first line end.
unfoldable pub first_line : Name → Name
first_line [] = []
first_line (c ∷ cs) = let rest = first_line cs in if c == 10 then [] else c ∷ rest

-- Each further line is clean.
abbrev pub Good : Name → Type 0
Good [] = Unit
Good (c ∷ cs) = (c ≡ 10 → IsClean (first_line cs)) × Good cs

pub first_line-take : (n : ℕ) (s : Name) → first_line (take n s) ≡ take n (first_line s)
unfolding first_line
first_line-take zero s = refl
first_line-take (suc n) [] = refl
first_line-take (suc n) (c ∷ cs) = pull (c == 10) (first_line-take n cs)
  where
    pull :
        (b : Bool)
        → first_line (take n cs) ≡ take n (first_line cs)
        → (if b then [] else c ∷ first_line (take n cs))
          ≡ take (suc n) (if b then [] else c ∷ first_line cs)
    pull true e = refl
    pull false e = ap (λ l. c ∷ l) e

pub Good-take : (n : ℕ) (s : Name) → Good s → Good (take n s)
Good-take zero s g = tt
Good-take (suc n) [] g = tt
Good-take (suc n) (c ∷ cs) g =
    ((λ e. rw (first_line-take n cs) (IsClean-take n (first_line cs) (g.0 e))), Good-take n cs g.1)
