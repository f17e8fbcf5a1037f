-- ===== src/Paths/Clean/Proper.antt =====
-- What cleaning leaves of an absolute path.
use mathlib.Core.Path.{subst}
use cull_snap.Base.{
  ◌≢◌, Bool-cases, Option-cases, if-eq-some, inl, inr, ℕ, List, [], ◌∷◌, ◌++◌, Bool, true, false,
  ◌||◌, ◌==◌, none, some, if◌then◌else◌, ◌≡◌, refl, sym, ◌∙◌, ap, arith, All, if_elim, Option,
}
use cull_snap.Paths.{Name, has, same, split, onto_first}
use cull_snap.Paths.Clean.{
  dot, dot_dot, up, clean_part, clean_parts, under, rooted_path, is_abs, clean, last_part, abs,
  join,
}

-- An element that names an entry of its directory.
pub record IsProper (p : Name) : Type 0 where
  pub no_slash : has b'/' p ≡ false
  pub not_empty : same p [] ≡ false
  pub not_dot : same p dot ≡ false
  pub not_dot_dot : same p dot_dot ≡ false

split-no_slash : (c : ℕ) (s : Name) → All (λ p. has c p ≡ false) (split c s)
unfolding split has
split-no_slash c [] = (refl, tt)
split-no_slash c (x ∷ xs) =
    if_elim {A = List Name} (All (λ p. has c p ≡ false)) (x == c) (λ e. (refl, split-no_slash c xs))
      (λ e. onto (split c xs) (ground arith) (split-no_slash c xs))
  where
    onto :
        (ps : List Name)
        → (c == x) ≡ false
        → All (λ p. has c p ≡ false) ps
        → All (λ p. has c p ≡ false) (onto_first x ps)
    onto [] e a = (rw e refl, tt)
    onto (p ∷ ps) e a = (rw e a.0, a.1)

onto_first-append :
    (x : ℕ) (ps qs : List Name) → ps ≢ [] → onto_first x (ps ++ qs) ≡ onto_first x ps ++ qs
onto_first-append x [] qs n = absurd (n refl)
onto_first-append x (p ∷ ps) qs n = refl

split-not_nil : (c : ℕ) (s : Name) → split c s ≢ []
unfolding split
split-not_nil c [] = λ e. cc
split-not_nil c (x ∷ xs) =
    if_elim {A = List Name} (λ z. z ≢ []) (x == c) (λ e h. cc) (λ e. onto (split c xs))
  where
    onto : (ps : List Name) → onto_first x ps ≢ []
    onto [] h = cc
    onto (p ∷ ps) h = cc

pub split-append : (c : ℕ) (xs ys : Name) → split c (xs ++ c ∷ ys) ≡ split c xs ++ split c ys
unfolding split
split-append c [] ys = ground arith
split-append c (x ∷ xs) ys = elim (Bool-cases (x == c)) [
  | inl e ↦ rw (e, split-append c xs ys) refl
  | inr e ↦
      rw (e, split-append c xs ys)
        (onto_first-append x (split c xs) (split c ys) (split-not_nil c xs))
]

split_plain : (c : ℕ) (xs : Name) → has c xs ≡ false → split c xs ≡ xs ∷ []
unfolding split has
split_plain c [] h = refl
split_plain c (x ∷ xs) h =
    let e : (x == c) ≡ false = ground arith in
    let rest : has c xs ≡ false = ground arith in rw (e, split_plain c xs rest) refl

clean_parts-append :
    (b : Bool) (ps qs st : List Name)
    → clean_parts b (ps ++ qs) st ≡ clean_parts b qs (clean_parts b ps st)
unfolding clean_parts
clean_parts-append b [] qs st = refl
clean_parts-append b (p ∷ ps) qs st = clean_parts-append b ps qs (clean_part b p st)

clean_part_proper : (p : Name) (st : List Name) → IsProper p → clean_part true p st ≡ p ∷ st
unfolding clean_part
clean_part_proper p st v = rw (v.not_empty, v.not_dot, v.not_dot_dot) refl

up-IsProper : (st : List Name) → All IsProper st → All IsProper (up true st)
up-IsProper [] a = tt
up-IsProper (q ∷ qs) a = rw a.0.not_dot_dot a.1

clean_part-IsProper :
    (p : Name) (st : List Name)
    → has b'/' p ≡ false
    → All IsProper st
    → All IsProper (clean_part true p st)
unfolding clean_part
clean_part-IsProper p st h a =
    if_elim (All IsProper) (same p [] || same p dot) (λ c. a)
      (λ c.
        if_elim (All IsProper) (same p dot_dot) (λ d. up-IsProper st a)
          (λ d. (
            record {
              no_slash = h;
              not_empty = ground arith;
              not_dot = ground arith;
              not_dot_dot = d;
            },
            a,
          )))

pub clean_parts-IsProper :
    (ps st : List Name)
    → All (λ p. has b'/' p ≡ false) ps
    → All IsProper st
    → All IsProper (clean_parts true ps st)
unfolding clean_parts
clean_parts-IsProper [] st h a = a
clean_parts-IsProper (p ∷ ps) st h a =
    clean_parts-IsProper ps (clean_part true p st) h.1 (clean_part-IsProper p st h.0 a)

-- The elements of an absolute path.
abbrev pub elements : Name → List Name
elements path = clean_parts true (split b'/' path) []

pub elements-IsProper : (path : Name) → All IsProper (elements path)
elements-IsProper path = clean_parts-IsProper (split b'/' path) [] (split-no_slash b'/' path) tt

pub elements-append :
    (d r : Name) → elements (d ++ b'/' ∷ r) ≡ clean_parts true (split b'/' r) (elements d)
elements-append d r =
    ap (λ ps. clean_parts true ps []) (split-append b'/' d r)
    ∙ clean_parts-append true (split b'/' d) (split b'/' r) []

elements-under : (st : List Name) → All IsProper st → elements (under st) ≡ st
unfolding under clean_parts split clean_part
elements-under [] a = refl
elements-under (q ∷ qs) a =
    elements-append (under qs) q
    ∙ ap (λ ps. clean_parts true ps (elements (under qs))) (split_plain b'/' q a.0.no_slash)
    ∙ clean_part_proper q (elements (under qs)) a.0
    ∙ ap (λ st. q ∷ st) (elements-under qs a.1)

pub is_abs-append : (xs ys : Name) → is_abs xs ≡ true → is_abs (xs ++ ys) ≡ true
is_abs-append [] ys e = cc
is_abs-append (x ∷ xs) ys e = e

pub is_abs-rooted_path : (st : List Name) → is_abs (rooted_path st) ≡ true
unfolding under
is_abs-rooted_path [] = refl
is_abs-rooted_path (q ∷ []) = refl
is_abs-rooted_path (q ∷ r ∷ rs) =
    is_abs-append (under (r ∷ rs)) (b'/' ∷ q) (is_abs-rooted_path (r ∷ rs))

elements-rooted_path : (st : List Name) → All IsProper st → elements (rooted_path st) ≡ st
elements-rooted_path [] a = unfold clean_parts clean_part split in refl
elements-rooted_path (q ∷ qs) a = elements-under (q ∷ qs) a

-- Cleaning an absolute path twice is cleaning it once.
pub clean_abs : (path : Name) → is_abs path ≡ true → clean path ≡ rooted_path (elements path)
unfolding clean
clean_abs path e = rw e refl

pub clean-clean : (path : Name) → is_abs path ≡ true → clean (clean path) ≡ clean path
clean-clean path e =
    let q = clean_abs path e in
    ap clean q
    ∙ clean_abs (rooted_path (elements path)) (is_abs-rooted_path (elements path))
    ∙ ap rooted_path (elements-rooted_path (elements path) (elements-IsProper path))
    ∙ sym q

last_part-none : (ps st : List Name) → last_part ps ≡ none → clean_parts true ps st ≡ st
unfolding clean_parts clean_part last_part
last_part-none [] st e = refl
last_part-none (p ∷ ps) st e = elim (Option-cases (last_part ps)) [
  | inl q ↦
      (let h : same p [] ≡ true = empty (same p []) (rw q at e) in rw h (last_part-none ps st q))
  | inr (r, q) ↦ (let z = rw q at e in cc)
]
  where
    empty : (b : Bool) → (if b then none else some p) ≡ none → b ≡ true
    empty true e = refl
    empty false e = cc

-- The last element that is not empty ends the cleaned path, unless it is a dot or two.
pub clean_parts-last_part :
    (ps st : List Name) (n : Name)
    → last_part ps ≡ some n
    → same n dot ≡ false
    → same n dot_dot ≡ false
    → (qs : List Name) × (clean_parts true ps st ≡ n ∷ qs)
unfolding clean_parts last_part
clean_parts-last_part [] st n e d dd = cc
clean_parts-last_part (p ∷ ps) st n e d dd = elim (Option-cases (last_part ps)) [
  | inl q ↦
      (let h = if-eq-some (same p []) (rw q at e) in
        (
          st,
          last_part-none ps (clean_part true p st) q
              ∙ subst (λ z. clean_part true z st ≡ n ∷ st) (sym h.1)
                  (unfold clean_part in rw (ap (λ z. same z []) (sym h.1) ∙ h.0, d, dd) refl),
        ))
  | inr (r, q) ↦ clean_parts-last_part ps (clean_part true p st) n (q ∙ (rw q at e)) d dd
]

pub abs_rooted :
    (cwd : Option Name) (path : Name) → is_abs path ≡ true → abs cwd path ≡ some (clean path)
unfolding abs
abs_rooted cwd path e = rw e refl

pub join-clean :
    (c r : ℕ) (cs rs : Name) → join (c ∷ cs) (r ∷ rs) ≡ clean ((c ∷ cs) ++ b'/' ∷ r ∷ rs)
unfolding join
join-clean c r cs rs = refl

-- An absolute path joined with a relative one.
pub abs-join :
    (cwd : Option Name) (d r : Name)
    → is_abs d ≡ true
    → same r [] ≡ false
    → abs cwd (join d r) ≡ some (rooted_path (clean_parts true (split b'/' r) (elements d)))
unfolding same
abs-join cwd [] r a n = cc
abs-join cwd (c ∷ cs) [] a n = cc
abs-join cwd (c ∷ cs) (r ∷ rs) a n =
    let path = (c ∷ cs) ++ b'/' ∷ r ∷ rs in
    let once = clean_abs path a in
    let is_rooted : is_abs (clean path) ≡ true =
      ap is_abs once ∙ is_abs-rooted_path (elements path) in
    ap (abs cwd) (join-clean c r cs rs)
    ∙ abs_rooted cwd (clean path) is_rooted
    ∙ ap some (clean-clean path a ∙ once ∙ ap rooted_path (elements-append (c ∷ cs) (r ∷ rs)))
