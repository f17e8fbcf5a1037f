-- ===== src/Vlm/Config/Sanitized.antt =====
-- What `SanitizeCustomInstructions` returns.
use cull_snap.Base.{
  All-weaken, ℕ, List, [], ◌∷◌, ◌++◌, Bool, true, false, ◌&&◌, ◌==◌, if◌then◌else◌, if_elim, take,
  length, length-take, ◌≡◌, refl, arith, All, ap, ◌∙◌, sym, ◌≤◌,
}
use cull_snap.Paths.{Name}
use cull_snap.Paths.{split, onto_first}
use cull_snap.Vlm.Config.{
  is_space, trim_left, trim_right, trim_space, is_nil, is_rejected, keep_lines, join_lines,
  has_any_prefix, sanitize_prefixes, sanitize_custom_instructions,
}
use cull_snap.Vlm.Config.Lines.{
  IsClean, IsClean-nil, IsClean-take, rejected-trim_left, first_line, first_line-take, Good,
  Good-take,
}

-- Every line is clean.
abbrev Tidy : Name → Type 0
Tidy s = IsClean (first_line s) × Good s

Tidy-take : (n : ℕ) (s : Name) → Tidy s → Tidy (take n s)
Tidy-take n s t = (rw (first_line-take n s) (IsClean-take n (first_line s) t.0), Good-take n s t.1)

trim_right-take : (s : Name) → trim_right s ≡ take (length (trim_right s)) s
unfolding trim_right
trim_right-take [] = refl
trim_right-take (c ∷ cs) =
    whole (is_nil (trim_right cs) && is_space c) (trim_right cs) (trim_right-take cs)
  where
    whole :
        (b : Bool) (r : Name)
        → r ≡ take (length r) cs
        → (if b then [] else c ∷ r) ≡ take (length (if b then [] else c ∷ r)) (c ∷ cs)
    whole true r e = refl
    whole false r e = ap (λ l. c ∷ l) e

IsClean-cons : (c : ℕ) (l : Name) → is_space c ≡ true → IsClean (c ∷ l) → IsClean l
unfolding trim_left
IsClean-cons c l e h = open_first (is_space c) e h
  where
    open_first :
        (b : Bool)
        → b ≡ true
        → has_any_prefix sanitize_prefixes (if b then trim_left l else c ∷ l) ≡ false
        → IsClean l
    open_first true q k = k
    open_first false q k = cc

Tidy-cons : (c : ℕ) (cs : Name) → is_space c ≡ true → Tidy (c ∷ cs) → Tidy cs
unfolding first_line
Tidy-cons c cs e t = (next (c == 10) refl t.0, t.1.1)
  where
    next :
        (b : Bool)
        → (c == 10) ≡ b
        → IsClean (if b then [] else c ∷ first_line cs)
        → IsClean (first_line cs)
    next true q h = t.1.0 (ground arith)
    next false q h = IsClean-cons c (first_line cs) e h

Tidy-trim_left : (s : Name) → Tidy s → Tidy (trim_left s)
unfolding trim_left
Tidy-trim_left [] t = t
Tidy-trim_left (c ∷ cs) t =
    if_elim Tidy (is_space c) (λ e. Tidy-trim_left cs (Tidy-cons c cs e t)) (λ e. t)

Tidy-trim_space : (s : Name) → Tidy s → Tidy (trim_space s)
unfolding trim_space
Tidy-trim_space s t =
    rw (trim_right-take (trim_left s)) (Tidy-take _ (trim_left s) (Tidy-trim_left s t))

-- The text is one line.
abbrev NoEnd : Name → Type 0
NoEnd = All (λ c. (c == 10) ≡ false)

first_line-append : (l r : Name) → NoEnd l → first_line (l ++ 10 ∷ r) ≡ l
unfolding first_line
first_line-append [] r a = refl
first_line-append (c ∷ cs) r a = rw (a.0, first_line-append cs r a.1) refl

first_line-whole : (l : Name) → NoEnd l → first_line l ≡ l
unfolding first_line
first_line-whole [] a = refl
first_line-whole (c ∷ cs) a = rw (a.0, first_line-whole cs a.1) refl

Good-append : (l s : Name) → NoEnd l → Good s → Good (l ++ s)
Good-append [] s a g = g
Good-append (c ∷ cs) s a g = ((λ e. let q = a.0 in ground arith), Good-append cs s a.1 g)

Good-line : (l : Name) → NoEnd l → Good l
Good-line [] a = tt
Good-line (c ∷ cs) a = ((λ e. let q = a.0 in ground arith), Good-line cs a.1)

Tidy-join_lines : (ls : List Name) → All NoEnd ls → All IsClean ls → Tidy (join_lines ls)
unfolding join_lines first_line
Tidy-join_lines [] a c = (IsClean-nil, tt)
Tidy-join_lines (l ∷ []) a c = (rw (first_line-whole l a.0) c.0, Good-line l a.0)
Tidy-join_lines (l ∷ k ∷ ls) a c =
    let rest = Tidy-join_lines (k ∷ ls) a.1 c.1 in
    (
      rw (first_line-append l (join_lines (k ∷ ls)) a.0) c.0,
      Good-append l (10 ∷ join_lines (k ∷ ls)) a.0 ((λ e. rest.0), rest.1),
    )

onto_first-NoEnd :
    (c : ℕ) (ls : List Name) → (c == 10) ≡ false → All NoEnd ls → All NoEnd (onto_first c ls)
onto_first-NoEnd c [] e a = ((e, tt), tt)
onto_first-NoEnd c (l ∷ ls) e a = ((e, a.0), a.1)

split-NoEnd : (s : Name) → All NoEnd (split 10 s)
unfolding split
split-NoEnd [] = (tt, tt)
split-NoEnd (c ∷ cs) =
    if_elim (All NoEnd) (c == 10) (λ e. (tt, split-NoEnd cs))
      (λ e. onto_first-NoEnd c (split 10 cs) e (split-NoEnd cs))

keep_lines-NoEnd : (ls : List Name) → All NoEnd ls → All NoEnd (keep_lines ls)
unfolding keep_lines
keep_lines-NoEnd [] a = tt
keep_lines-NoEnd (l ∷ ls) a =
    if_elim (All NoEnd) (is_rejected l) (λ e. keep_lines-NoEnd ls a.1)
      (λ e. (a.0, keep_lines-NoEnd ls a.1))

keep_lines-IsClean : (ls : List Name) → All IsClean (keep_lines ls)
unfolding keep_lines
keep_lines-IsClean [] = tt
keep_lines-IsClean (l ∷ ls) =
    if_elim (All IsClean) (is_rejected l) (λ e. keep_lines-IsClean ls)
      (λ e. (sym (rejected-trim_left l) ∙ e, keep_lines-IsClean ls))

-- The lines of a text are its first line and the lines after it.
others : List Name → List Name
others [] = []
others (l ∷ ls) = ls

split-first_line : (s : Name) → split 10 s ≡ first_line s ∷ others (split 10 s)
unfolding split first_line others
split-first_line [] = refl
split-first_line (c ∷ cs) = cons (c == 10) (split 10 cs) (split-first_line cs)
  where
    cons :
        (b : Bool) (ls : List Name)
        → ls ≡ first_line cs ∷ others ls
        → (if b then [] ∷ ls else onto_first c ls)
          ≡ (if b then [] else c ∷ first_line cs) ∷ others (if b then [] ∷ ls else onto_first c ls)
    cons true ls e = refl
    cons false [] e = cc
    cons false (l ∷ ls) e = let q : l ≡ first_line cs = cc in rw q refl

Good-others : (s : Name) → Good s → All IsClean (others (split 10 s))
unfolding split others
Good-others [] g = tt
Good-others (c ∷ cs) g =
    after (c == 10) refl (split 10 cs) (split-first_line cs) (Good-others cs g.1)
  where
    after :
        (b : Bool)
        → (c == 10) ≡ b
        → (ls : List Name) → ls ≡ first_line cs ∷ others ls
        → All IsClean (others ls)
        → All IsClean (others (if b then [] ∷ ls else onto_first c ls))
    after true q ls e a = rw e (g.0 (ground arith), a)
    after false q [] e a = tt
    after false q (l ∷ ls) e a = a

-- No line of what SanitizeCustomInstructions returns begins with one of the rejected prefixes, spaces
-- apart, and it has 500 characters at most.
pub sanitize_custom_instructions-IsSafe :
    (input : Name)
    → All (λ l. is_rejected l ≡ false) (split 10 (sanitize_custom_instructions input))
      × (length (sanitize_custom_instructions input) ≤ 500)
unfolding sanitize_custom_instructions
sanitize_custom_instructions-IsSafe input =
    let kept = keep_lines (split 10 input) in
    let text = trim_space (join_lines kept) in
    let t = Tidy-take 500 text (
      Tidy-trim_space (join_lines kept) (
        Tidy-join_lines kept (keep_lines-NoEnd (split 10 input) (split-NoEnd input))
          (keep_lines-IsClean (split 10 input)))) in
    (
      All-weaken (λ l e. rejected-trim_left l ∙ e) (split 10 (take 500 text))
          (rw (split-first_line (take 500 text)) (t.0, Good-others (take 500 text) t.1)),
      omega (arith, length-take 500 text),
    )
