-- ===== src/Raw/Tiff/Errors.antt =====
-- Reading one IFD needs no fuel.
use cull_snap.Base.{
  ℕ, zero, suc, ◌+◌, ◌*◌, ◌≡◌, ◌≢◌, refl, length, drop, ltb, Outcome, ok, err, panic, ◌>>=◌,
  Bool-cases, ◌==◌, inl, inr, arith,
}
use cull_snap.Raw.File.{Bytes, Error, no_fuel, Res, Order, Slice, read_at, u16_at, u32_at}
use cull_snap.Raw.Tiff.Values.{value_at, values_from, values_of, read_tag_values}
use cull_snap.Raw.Tiff.Ifd.{Tags, no_tags, entry_step, entries, parse_ifd}

-- `r` did not stop for want of fuel.
abbrev pub HasFuel {ℓ} : {A : Type ℓ} → Outcome Error A → Type 0
HasFuel (ok a) = Unit
HasFuel (err e) = e ≢ no_fuel
HasFuel panic = Unit

pub bind-HasFuel :
    {A B : Type 0} (m : Res A) (g : A → Res B)
    → HasFuel m
    → ((a : A) → m ≡ ok a → HasFuel (g a))
    → HasFuel (m >>= g)
bind-HasFuel (ok a) g h k = k a refl
bind-HasFuel (err e) g h k = h
bind-HasFuel panic g h k = tt

pub read_at-HasFuel : (f : Bytes) (n off : ℕ) → HasFuel (read_at f n off)
unfolding read_at
read_at-HasFuel f n off = ground arith

value_at-HasFuel : (bo : Order) (typ : ℕ) (d : Slice) (i : ℕ) → HasFuel (value_at bo typ d i)
unfolding value_at
value_at-HasFuel bo typ d i = ground arith

values_from-HasFuel :
    (bo : Order) (typ : ℕ) (d : Slice) (n i : ℕ) → HasFuel (values_from bo typ d n i)
unfolding values_from
values_from-HasFuel bo typ d zero i = tt
values_from-HasFuel bo typ d (suc n) i =
    bind-HasFuel (value_at bo typ d i) _ (value_at-HasFuel bo typ d i) λ v _.
      bind-HasFuel (values_from bo typ d n (i + 1)) _ (values_from-HasFuel bo typ d n (i + 1))
        λ vs _. tt

values_of-HasFuel :
    (bo : Order) (typ count : ℕ) (r : Res Slice) → HasFuel (values_of bo typ count r)
values_of-HasFuel bo typ count (ok d) = values_from-HasFuel bo typ d count 0
values_of-HasFuel bo typ count (err e) = tt
values_of-HasFuel bo typ count panic = tt

read_tag_values-HasFuel :
    (f : Bytes) (bo : Order) (typ count : ℕ) (v : Slice)
    → HasFuel (read_tag_values f bo typ count v)
unfolding read_tag_values
read_tag_values-HasFuel f bo typ count v = elim (Bool-cases (count == 0)) [
  | inl z ↦ rw z tt
  | inr nz ↦ rw nz (values_of-HasFuel bo typ count _)
]

entry_step-HasFuel : (f : Bytes) (bo : Order) (e : Bytes) (t : Tags) → HasFuel (entry_step f bo e t)
unfolding entry_step
entry_step-HasFuel f bo e t = ground (
  arith,
  read_tag_values-HasFuel f bo (u16_at bo e 2) (u32_at bo e 4) (record { mem = drop 8 e; len = 4 }),
)

entries-HasFuel :
    (f : Bytes) (bo : Order) (n : ℕ) (e : Bytes) (t : Tags) → HasFuel (entries f bo n e t)
unfolding entries
entries-HasFuel f bo zero e t = tt
entries-HasFuel f bo (suc n) e t =
    bind-HasFuel (entry_step f bo e t) _ (entry_step-HasFuel f bo e t)
      λ t' _. entries-HasFuel f bo n _ t'

pub parse_ifd-HasFuel : (f : Bytes) (bo : Order) (o : ℕ) → HasFuel (parse_ifd f bo o)
unfolding parse_ifd
parse_ifd-HasFuel f bo o = elim (Bool-cases (ltb (length f) (o + 2))) [
  | inl out ↦ rw out (λ e. cc)
  | inr within ↦ rw within (
      bind-HasFuel (read_at f 2 o) _ (read_at-HasFuel f 2 o) λ b _.
        elim (Bool-cases (ltb (length f) (o + 2 + u16_at bo b 0 * 12 + 4))) [
          | inl long ↦ rw long (λ e. cc)
          | inr fits ↦ rw fits (
              bind-HasFuel (read_at f (u16_at bo b 0 * 12 + 4) (o + 2)) _ (read_at-HasFuel f _ _)
                λ buf _.
                  bind-HasFuel (entries f bo (u16_at bo b 0) buf no_tags) _
                    (entries-HasFuel f bo _ buf no_tags) λ t _. tt)
        ])
]
