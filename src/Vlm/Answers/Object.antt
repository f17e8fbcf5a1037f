-- ===== src/Vlm/Answers/Object.antt =====
-- `extractFirstJSONObject` finds the first object.
use cull_snap.Base.{
  All, take, drop, [], ◌-◌, ne→==, ℕ, suc, ◌+◌, ◌∷◌, ◌++◌, true, false, Option, none, some, length,
  length-append, ◌≡◌, ◌≢◌, refl, ap, ◌∙◌, arith,
}
use mathlib.Core.List.{append_assoc}
use cull_snap.Paths.{Name}
use cull_snap.Vlm.Answers.{cut, extract_first_json_object, found_or, ends, ℤ, pos, scan}

-- What follows the opening quote of a string, up to its closing quote.
pub data StringRest : Name → Type 0 where
  close : StringRest (b'"' ∷ [])
  escape : (c : ℕ) {s : Name} → StringRest s → StringRest (b'\\' ∷ c ∷ s)
  plain : (c : ℕ) {s : Name} → c ≢ b'"' → c ≢ b'\\' → StringRest s → StringRest (c ∷ s)

-- A text in which braces are balanced and strings are closed.
pub data Balanced : Name → Type 0 where
  empty : Balanced []
  char : (c : ℕ) {s : Name} → c ≢ b'"' → c ≢ b'{' → c ≢ b'}' → Balanced s → Balanced (c ∷ s)
  string : {s t : Name} → StringRest s → Balanced t → Balanced (b'"' ∷ s ++ t)
  braces : {s t : Name} → Balanced s → Balanced t → Balanced (b'{' ∷ s ++ b'}' ∷ t)

scan_string :
    (start : Option ℕ) (depth : ℤ) {s : Name}
    → StringRest s
    → (i : ℕ) (k : Name)
    → scan start depth true false i (s ++ k) ≡ scan start depth false false (i + length s) k
unfolding scan
scan_string start depth close i k = rw (plus_one i) refl
  where
    plus_one : (n : ℕ) → n + 1 ≡ suc n
    plus_one n = omega arith
scan_string start depth (escape c {s} v) i k =
    scan_string start depth v (suc (suc i)) k
    ∙ ap (λ z. scan start depth false false z k) (omega arith)
scan_string start depth (plain c {s} q b v) i k =
    rw (ne→== c b'\\' b, ne→== c b'"' q)
      (scan_string start depth v (suc i) k
        ∙ ap (λ z. scan start depth false false z k) (omega arith))

scan-Balanced :
    (start : Option ℕ) (d : ℕ) {s : Name}
    → Balanced s
    → (i : ℕ) (k : Name)
    → scan start (pos (suc d)) false false i (s ++ k)
      ≡ scan start (pos (suc d)) false false (i + length s) k
unfolding scan
scan-Balanced start d empty i k = ap (λ z. scan start (pos (suc d)) false false z k) (omega arith)
scan-Balanced start d (char c {s} q o e v) i k =
    rw (ne→== c b'"' q, ne→== c b'{' o, ne→== c b'}' e)
      (scan-Balanced start d v (suc i) k
        ∙ ap (λ z. scan start (pos (suc d)) false false z k) (omega arith))
scan-Balanced start d (string {s} {t} v w) i k =
    ap (scan start (pos (suc d)) true false (suc i)) (append_assoc s t k)
    ∙ scan_string start (pos (suc d)) v (suc i) (t ++ k)
    ∙ scan-Balanced start d w (suc i + length s) k
    ∙ ap (λ z. scan start (pos (suc d)) false false z k) (let e = length-append s t in omega arith)
scan-Balanced start d (braces {s} {t} v w) i k =
    ap (scan start (pos (suc (suc d))) false false (suc i)) (append_assoc s (b'}' ∷ t) k)
    ∙ scan-Balanced start (suc d) v (suc i) (b'}' ∷ t ++ k)
    ∙ not_ended start
    ∙ scan-Balanced start d w (suc (suc i + length s)) k
    ∙ ap (λ z. scan start (pos (suc d)) false false z k)
        (let e = length-append s (b'}' ∷ t) in omega arith)
  where
    not_ended :
        (o : Option ℕ)
        → found_or
            (ends (pos (suc d)) o)
            (suc i + length s)
            (scan o (pos (suc d)) false false (suc (suc i + length s)) (t ++ k))
          ≡ scan o (pos (suc d)) false false (suc (suc i + length s)) (t ++ k)
    not_ended none = refl
    not_ended (some n) = refl

-- A character that opens and closes nothing.
abbrev pub IsPlain : ℕ → Type 0
IsPlain c = (c ≢ b'"') × (c ≢ b'{') × (c ≢ b'}')

scan_plain :
    (pre : Name) (i : ℕ) (k : Name)
    → All IsPlain pre
    → scan none (pos 0) false false i (pre ++ k) ≡ scan none (pos 0) false false (i + length pre) k
unfolding scan
scan_plain [] i k a = ap (λ z. scan none (pos 0) false false z k) (omega arith)
scan_plain (c ∷ pre) i k ((q, o, e), a) =
    rw (ne→== c b'"' q, ne→== c b'{' o, ne→== c b'}' e)
      (scan_plain pre (suc i) k a ∙ ap (λ z. scan none (pos 0) false false z k) (omega arith))

drop_prefix : (xs ys : Name) → drop (length xs) (xs ++ ys) ≡ ys
drop_prefix [] ys = refl
drop_prefix (x ∷ xs) ys = drop_prefix xs ys

take_prefix : (xs ys : Name) → take (length xs) (xs ++ ys) ≡ xs
take_prefix [] ys = take_zero ys
  where
    take_zero : (zs : Name) → take 0 zs ≡ []
    take_zero [] = refl
    take_zero (z ∷ zs) = refl
take_prefix (x ∷ xs) ys = ap (◌∷◌ x) (take_prefix xs ys)

scan_object :
    (pre s post : Name)
    → All IsPlain pre
    → Balanced s
    → scan none (pos 0) false false 0 (pre ++ ((b'{' ∷ s ++ b'}' ∷ []) ++ post))
      ≡ some (length pre, suc (length pre) + length s)
unfolding scan
scan_object pre s post a v =
    scan_plain pre 0 ((b'{' ∷ s ++ b'}' ∷ []) ++ post) a
    ∙ opened (0 + length pre) (length pre) (omega arith)
  where
    opened :
        (n m : ℕ)
        → n ≡ m
        → scan none (pos 0) false false n ((b'{' ∷ s ++ b'}' ∷ []) ++ post)
          ≡ some (m, suc m + length s)
    opened n m e =
        rw (e, append_assoc s (b'}' ∷ []) post) (scan-Balanced (some m) 0 v (suc m) (b'}' ∷ post))

-- If an answer has an object in which braces are balanced and strings are closed, after a text
-- without a quote or a brace, extractFirstJSONObject returns that object, whatever follows it.
pub extract_first_json_object-finds :
    (pre s post : Name)
    → All IsPlain pre
    → Balanced s
    → extract_first_json_object (pre ++ ((b'{' ∷ s ++ b'}' ∷ []) ++ post)) ≡ b'{' ∷ s ++ b'}' ∷ []
unfolding extract_first_json_object
extract_first_json_object-finds pre s post a v =
    ap (cut (pre ++ ((b'{' ∷ s ++ b'}' ∷ []) ++ post))) (scan_object pre s post a v)
    ∙ cut_object (b'{' ∷ s ++ b'}' ∷ []) (let e = length-append s (b'}' ∷ []) in omega arith)
  where
    cut_object :
        (object : Name)
        → suc (suc (length pre) + length s) - length pre ≡ length object
        → take
            (suc (suc (length pre) + length s) - length pre)
            (drop (length pre) (pre ++ (object ++ post)))
          ≡ object
    cut_object object size = rw (size, drop_prefix pre (object ++ post)) (take_prefix object post)
