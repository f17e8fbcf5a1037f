-- ===== src/Export/Fresh.antt =====
-- `uniquePath` finds a path that is free.
use mathlib.Core.List.{append_cancel_left, append_cancel_right}
use cull_snap.Base.{
  ℕ, zero, suc, ◌<◌, ◌≤◌, List, [], ◌∷◌, true, false, some, length, ◌≡◌, refl, sym, ◌∙◌, ap, arith,
  Bool-cases, inl, inr,
}
use cull_snap.Paths.{Name, same, ext}
use cull_snap.Paths.Digits.{itoa, atoi, atoi-itoa}
use cull_snap.Storage.Tables.{get, remove_key, get-remove_key, same_eq}
use cull_snap.Dedupe.Mover.{File, file_key, dir_of, base_of}
use cull_snap.Export.{is_there, exists, stem, numbered_path, free_path, unique_path}

numbered_path-inj : (path : Name) (i j : ℕ) → numbered_path path i ≡ numbered_path path j → i ≡ j
unfolding numbered_path
numbered_path-inj path i j e =
    let name = stem (base_of path) (ext path) in
    let tails = append_cancel_left (dir_of path) _ _ e in
    let names = append_cancel_left (b'/' ∷ name) _ _ tails in
    let numbers = append_cancel_left (b'_' ∷ []) _ _ names in
    let digits_same = append_cancel_right (itoa i) (itoa j) (ext path) numbers in
    sym (atoi-itoa i) ∙ ap atoi digits_same ∙ atoi-itoa j

length-remove_key_le : (p : Name) (fs : List File) → length (remove_key file_key p fs) ≤ length fs
unfolding remove_key
length-remove_key_le p [] = omega arith
length-remove_key_le p (f ∷ fs) = ground (arith, length-remove_key_le p fs)

length-remove_key :
    (p : Name) (fs : List File) → exists p fs ≡ true → length (remove_key file_key p fs) < length fs
unfolding remove_key get
length-remove_key p [] e = cc
length-remove_key p (f ∷ fs) e = ground (arith, length-remove_key p fs, length-remove_key_le p fs)

exists-remove_key :
    (p q : Name) (fs : List File)
    → same p q ≡ false
    → exists q (remove_key file_key p fs) ≡ exists q fs
exists-remove_key p q fs e = ap is_there (get-remove_key file_key q p fs ∙ rw e refl)

-- What `uniquePath` promises.
abbrev pub IsFree : Name → List File → Type 0
IsFree p disk = exists p disk ≡ false

-- Each round that goes on takes one of the files away that are still in question.
free_path_found :
    (k : ℕ) (path : Name) (i : ℕ) (disk rest : List File)
    → length rest < k
    → ((j : ℕ)
        → i ≤ j
        → exists (numbered_path path j) disk ≡ true
        → exists (numbered_path path j) rest ≡ true)
    → (r : Name) × (free_path k path (numbered_path path i) (suc i) disk ≡ some r) × IsFree r disk
unfolding free_path
free_path_found zero path i disk rest l inside = absurd (omega (arith, l))
free_path_found (suc k) path i disk rest l inside =
    elim (Bool-cases (exists (numbered_path path i) disk)) [
      | inl e ↦
          (let here = inside i (omega arith) e in
            let fewer = length-remove_key (numbered_path path i) rest here in
            let others =
              free_path_found k path (suc i) disk (remove_key file_key (numbered_path path i) rest)
                (omega (arith, l, fewer))
                (λ j m h.
                  exists-remove_key (numbered_path path i) (numbered_path path j) rest (differs j m)
                  ∙ inside j (omega (arith, m)) h) in
            (others.0, rw e others.1, others.2))
      | inr e ↦ (numbered_path path i, rw e refl, e)
    ]
  where
    differs : (j : ℕ) → suc i ≤ j → same (numbered_path path i) (numbered_path path j) ≡ false
    differs j m = elim (Bool-cases (same (numbered_path path i) (numbered_path path j))) [
      | inl s ↦ absurd (
          let q =
            numbered_path-inj path i j (same_eq (numbered_path path i) (numbered_path path j) s) in
          omega (arith, m, q))
      | inr s ↦ s
    ]

-- On every disk, uniquePath ends and returns a path at which there is no file.
pub unique_path_total :
    (path : Name) (disk : List File) → (r : Name) × (unique_path path disk ≡ some r) × IsFree r disk
unfolding unique_path free_path
unique_path_total path disk = elim (Bool-cases (exists path disk)) [
  | inl e ↦
      (let r = free_path_found (suc (length disk)) path 1 disk disk (omega arith) (λ j m h. h) in
        (r.0, rw e r.1, r.2))
  | inr e ↦ (path, rw e refl, e)
]
