-- ===== src/Raw/Tiff/Panics.antt =====
-- Which tags `readTagValues` can read, and on which it panics.
use native.Mathlib.Nat.{mod-eq_of_lt}
use cull_snap.Base.{
  ℕ, false, zero, suc, ◌+◌, ◌*◌, ◌%◌, ◌≤◌, ◌<◌, ◌≡◌, ◌≢◌, refl, ◌==◌, leb, length, take, drop,
  length-take, length-drop, Bool-cases, inl, inr, ok, err, panic, IsOk, bind-IsOk, bind-panic,
  arith,
}
use cull_snap.Raw.File.{Bytes, Error, Res, Order, Slice, made, u32_at}
use cull_snap.Raw.Tiff.Values.{
  u32, type_size, value_at, values_from, values_of, tag_data, read_tag_values,
}

-- The slice holds `count` values of type `typ`.
record Holds (typ count : ℕ) (d : Slice) : Type 0 where
  fits : count * type_size typ < u32
  len_eq : d.len ≡ count * type_size typ
  len_le : d.len ≤ length d.mem

value_at-IsOk :
    (bo : Order) (typ count : ℕ) (d : Slice) (i : ℕ)
    → typ ≢ 2
    → Holds typ count d
    → i < count
    → IsOk (value_at bo typ d i)
unfolding value_at type_size
value_at-IsOk bo typ count d i t h lt = ground arith

values_from-IsOk :
    (bo : Order) (typ count : ℕ) (d : Slice) (n i : ℕ)
    → typ ≢ 2
    → Holds typ count d
    → i + n ≡ count
    → IsOk (values_from bo typ d n i)
unfolding values_from
values_from-IsOk bo typ count d zero i t h e = tt
values_from-IsOk bo typ count d (suc n) i t h e =
    bind-IsOk (value_at bo typ d i) _ (value_at-IsOk bo typ count d i t h (omega arith)) λ v _.
      bind-IsOk (values_from bo typ d n (i + 1)) _
        (values_from-IsOk bo typ count d n (i + 1) t h (omega arith)) λ vs _. tt

values_of-IsOk :
    (bo : Order) (typ count : ℕ) (r : Res Slice)
    → typ ≢ 2
    → ((d : Slice) → r ≡ ok d → Holds typ count d)
    → r ≢ panic
    → IsOk (values_of bo typ count r)
values_of-IsOk bo typ count (ok d) t h p =
    values_from-IsOk bo typ count d count 0 t (h d refl) (omega arith)
values_of-IsOk bo typ count (err e) t h p = tt
values_of-IsOk bo typ count panic t h p = absurd (p refl)

tag_data-ne-panic :
    (f : Bytes) (bo : Order) (total : ℕ) (value : Slice) → tag_data f bo total value ≢ panic
unfolding tag_data
tag_data-ne-panic f bo total value = ground arith

tag_data_len :
    (f : Bytes) (bo : Order) (total : ℕ) (value d : Slice)
    → 4 ≤ length value.mem
    → tag_data f bo total value ≡ ok d
    → (d.len ≡ total) × (d.len ≤ length d.mem)
unfolding tag_data
tag_data_len f bo total value d v e = ground (
  arith,
  length-take total (drop (u32_at bo value.mem 0) f),
  length-drop (u32_at bo value.mem 0) f,
)

-- `readTagValues` returns for every tag whose type is not ASCII and whose size in bytes fits in 32
-- bits, wherever the data is said to be: no index of the loop is out of range. (`value` is the last
-- field of an entry, and has its four bytes.)
pub read_tag_values-IsOk :
    (f : Bytes) (bo : Order) (typ count : ℕ) (value : Slice)
    → typ ≢ 2
    → count * type_size typ < u32
    → 4 ≤ length value.mem
    → IsOk (read_tag_values f bo typ count value)
unfolding read_tag_values
read_tag_values-IsOk f bo typ count value t h v = elim (Bool-cases (count == 0)) [
  | inl none ↦ rw none tt
  | inr some ↦
      let small : count * type_size typ % u32 ≡ count * type_size typ = mod-eq_of_lt h in
      rw (some, small)
        (values_of-IsOk bo typ count (tag_data f bo (count * type_size typ) value) t
          (λ d e.
            let (len, le) = tag_data_len f bo _ value d v e in
            record { fits = h; len_eq = len; len_le = le })
          (tag_data-ne-panic f bo _ value))
]

value_at-ne-err :
    (bo : Order) (typ : ℕ) (d : Slice) (i : ℕ) (e : Error) → ¬ (value_at bo typ d i ≡ err e)
unfolding value_at
value_at-ne-err bo typ d i e = ground arith

value_at_short :
    (bo : Order) (d : Slice) (i : ℕ)
    → i < 1073741823
    → length d.mem < i * 4 + 4
    → value_at bo 2 d i ≡ panic
unfolding value_at
value_at_short bo d i h s = ground arith

values_from_ascii :
    (bo : Order) (d : Slice) (n i count : ℕ)
    → length d.mem ≡ count
    → 5 ≤ count
    → count < 1073741824
    → i + n ≡ count
    → i * 4 ≤ count
    → values_from bo 2 d n i ≡ panic
unfolding values_from
values_from_ascii bo d zero i count l h b e le = absurd (omega arith)
values_from_ascii bo d (suc n) i count l h b e le = elim (Bool-cases (leb (i * 4 + 4) count)) [
  | inl more ↦
      bind-panic (value_at bo 2 d i) _ (value_at-ne-err bo 2 d i)
        λ v. rw (values_from_ascii bo d n (i + 1) count l h b (omega arith) (ground arith)) refl
  | inr done ↦ rw (value_at_short bo d i (omega arith) (ground arith)) refl
]

tag_data_far :
    (f : Bytes) (bo : Order) (total : ℕ) (value : Slice)
    → 5 ≤ total
    → u32_at bo value.mem 0 + total ≤ length f
    → tag_data f bo total value ≡ ok (made (take total (drop (u32_at bo value.mem 0) f)))
unfolding tag_data
tag_data_far f bo total value h w = ground arith

-- On a tag of type ASCII whose data of five bytes or more, but less than 2^30, lies inside the file,
-- `readTagValues` panics: it reads four bytes for each of the `count` values, of one byte each.
pub read_tag_values_ascii :
    (f : Bytes) (bo : Order) (count : ℕ) (value : Slice)
    → 5 ≤ count
    → count < 1073741824
    → u32_at bo value.mem 0 + count ≤ length f
    → read_tag_values f bo 2 count value ≡ panic
unfolding read_tag_values type_size
read_tag_values_ascii f bo count value h b w =
    let off = u32_at bo value.mem 0 in
    let total : count * 1 % u32 ≡ count = omega arith in
    let some : (count == 0) ≡ false = ground arith in
    rw (some, total, tag_data_far f bo count value h w)
      (values_from_ascii bo (made (take count (drop off f))) count 0 count
        (omega (arith, length-take count (drop off f), length-drop off f)) h b (omega arith)
        (omega arith))
