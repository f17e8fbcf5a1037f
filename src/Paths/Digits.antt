-- ===== src/Paths/Digits.antt =====
-- Go's `strconv.Itoa` and `strconv.Atoi` of numbers that are not negative. A result of `Atoi` that is
-- negative or a syntax error counts as 0. Unlike `Atoi`, this does not cut off a number above the
-- largest int.
use cull_snap.Base.{
  ℕ, zero, suc, ◌+◌, ◌-◌, ◌*◌, ◌/◌, ◌%◌, ◌<◌, ◌≤◌, [], ◌∷◌, ◌++◌, true, false, ◌&&◌, Option, none,
  some, leb, ltb, ◌==◌, if_elim, if◌then◌else◌, ◌≡◌, refl, ◌∙◌, ap, arith, tests,
}
use cull_snap.Paths.{Name}

unfoldable pub digits : ℕ → ℕ → Name
digits zero n = []
digits (suc k) n = if ltb n 10 then (b'0' + n) ∷ [] else digits k (n / 10) ++ (b'0' + n % 10) ∷ []

-- The fuel is the number and one more: each digit takes one, and divides the number by ten.
unfoldable pub itoa : ℕ → Name
unfolding digits
itoa n = digits (suc n) n

unfoldable pub digits_value : ℕ → Name → Option ℕ
digits_value v [] = some v
digits_value v (c ∷ cs) =
    let rest = digits_value (v * 10 + (c - b'0')) cs in
    if leb b'0' c && leb c b'9' then rest else none

abbrev pub value_or_zero : Option ℕ → ℕ
value_or_zero none = 0
value_or_zero (some v) = v

unfoldable pub atoi : Name → ℕ
unfolding digits_value
atoi [] = 0
atoi (c ∷ []) = value_or_zero (digits_value 0 (c ∷ []))
atoi (c ∷ d ∷ ds) =
    if c == b'+'
    then value_or_zero (digits_value 0 (d ∷ ds))
    else value_or_zero (digits_value 0 (c ∷ d ∷ ds))

digits_value-append :
    (v w d : ℕ) (s : Name)
    → d < 10
    → digits_value v s ≡ some w
    → digits_value v (s ++ (b'0' + d) ∷ []) ≡ some (w * 10 + d)
unfolding digits_value
digits_value-append v w d [] l e =
    let h : v ≡ w = cc in
    let low : leb b'0' (b'0' + d) ≡ true = ground arith in
    let high : leb (b'0' + d) b'9' ≡ true = ground arith in
    let q : v * 10 + (b'0' + d - b'0') ≡ w * 10 + d = omega (arith, h) in rw (low, high) (ap some q)
digits_value-append v w d (c ∷ cs) l e =
    ground (arith, digits_value-append (v * 10 + (c - b'0')) w d cs)

digits_value-digits : (k n : ℕ) → n < k → digits_value 0 (digits k n) ≡ some n
unfolding digits
digits_value-digits zero n l = elim l [ ]
digits_value-digits (suc k) n l =
    if_elim {A = Name} (λ s. digits_value 0 s ≡ some n) (ltb n 10)
      (λ c.
        let m : n < 10 = omega (tests, c) in
        let q : 0 * 10 + n ≡ n = omega arith in
        digits_value-append 0 0 n [] m (unfold digits_value in refl) ∙ ap some q)
      (λ c.
        let m : n % 10 < 10 = omega arith in
        let q : n / 10 * 10 + n % 10 ≡ n = omega arith in
        let big : 10 ≤ n = ground arith in
        digits_value-append 0 (n / 10) (n % 10) (digits k (n / 10)) m
          (digits_value-digits k (n / 10) (omega arith))
        ∙ ap some q)

atoi_value : (s : Name) (n : ℕ) → digits_value 0 s ≡ some n → atoi s ≡ n
unfolding atoi
atoi_value [] n e = let h : some 0 ≡ some n = unfold digits_value in e in cc
atoi_value (c ∷ []) n e = ap value_or_zero e
atoi_value (c ∷ d ∷ ds) n e =
    let h : (c == b'+') ≡ false = unfold digits_value in ground arith in rw h (ap value_or_zero e)

-- Reading what was written.
pub atoi-itoa : (n : ℕ) → atoi (itoa n) ≡ n
unfolding itoa
atoi-itoa n = atoi_value (itoa n) n (digits_value-digits (suc n) n (omega arith))
