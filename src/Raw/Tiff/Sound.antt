-- ===== src/Raw/Tiff/Sound.antt =====
-- What `extractTIFFPreview` returns.
use cull_snap.Base.{
  ℕ, suc, ◌+◌, ◌≤◌, ◌<◌, List, [], ◌∷◌, ◌≡◌, Bool, true, false, not, ◌||◌, ◌==◌, leb, ltb,
  if◌then◌else◌, length, All, All-take, All-drop, Bool-cases, inl, inr, ap, ok, err, panic, ◌>>=◌,
  bind-eq-ok, arith,
}
use cull_snap.Raw.File.{
  Bytes, not_soi, big_tiff, bad_magic, Res, Order, big, read_at, u16_at, u32_at, IsPart,
  IsPart-length, read_at-IsPart, IsJpeg,
}
use cull_snap.Raw.Tiff.Ifd.{JpegPreview}
use cull_snap.Raw.Tiff.Errors.{HasFuel, bind-HasFuel, read_at-HasFuel}
use cull_snap.Raw.Tiff.Walk.{Walk, start, max_ifds, walk_chain}
use cull_snap.Raw.Tiff.Bounds.{IsLinked, Ends, walk_chain_total}
use cull_snap.Raw.Tiff.Extract.{
  is_accepted_tiff_magic, byte_order, pick, select, read_preview, extract_tiff_preview,
}

-- The choice is at least as large as each.
pick-max :
    (best : JpegPreview) (ps : List JpegPreview) {m : JpegPreview}
    → pick best ps ≡ m
    → (best.size ≤ m.size) × All (λ p. p.size ≤ m.size) ps
unfolding pick
pick-max best [] e = (omega (arith, ap (λ (p : JpegPreview). p.size) e), tt)
pick-max best (p ∷ ps) e = elim (Bool-cases (ltb best.size p.size)) [
  | inl more ↦ let (h, a) = pick-max p ps (rw more at e) in (ground arith, (h, a))
  | inr less ↦ let (h, a) = pick-max best ps (rw less at e) in (h, (ground arith, a))
]

-- What holds of each holds of the choice.
pick-All {ℓ} :
    (P : JpegPreview → Type ℓ) (best : JpegPreview) (ps : List JpegPreview)
    → P best
    → All P ps
    → P (pick best ps)
unfolding pick
pick-All P best [] b h = b
pick-All P best (p ∷ ps) b h = elim (Bool-cases (ltb best.size p.size)) [
  | inl more ↦ rw (more, pick) (pick-All P p ps h.0 h.1)
  | inr less ↦ rw (less, pick) (pick-All P best ps b h.1)
]

IsJpeg-soi :
    (b : Bytes)
    → All (λ x. x < 256) b
    → leb 2 (length b) ≡ true
    → u16_at big b 0 ≡ 0xFFD8
    → IsJpeg b
unfolding u16_at
IsJpeg-soi [] a h e = cc
IsJpeg-soi (x ∷ []) a h e = cc
IsJpeg-soi (x ∷ y ∷ r) a h e = record { rest = r; starts = ground arith }

checked_lem :
    (buf b : Bytes)
    → (if ltb (length buf) 2 || not (u16_at big buf 0 == 0xFFD8) then err not_soi else ok buf)
      ≡ ok b
    → (buf ≡ b) × (leb 2 (length buf) ≡ true) × (u16_at big buf 0 ≡ 0xFFD8)
checked_lem buf b e = ground arith

read_nothing : (f b : Bytes) (n off : ℕ) → read_at f n off ≡ ok b → n ≡ 0 → b ≡ []
unfolding read_at
read_nothing f b n off e z = ground arith

read_some :
    (f b : Bytes) (n off : ℕ) → read_at f n off ≡ ok b → leb 2 (length b) ≡ true → IsPart f b off n
read_some f b n off e h =
    read_at-IsPart f n off
      (λ z. let q = ap (λ (xs : Bytes). leb 2 (length xs)) (read_nothing f b n off e z) in cc) e

read_preview_lem :
    (f b : Bytes) (p : JpegPreview)
    → All (λ x. x < 256) f
    → read_preview f p ≡ ok b
    → IsPart f b p.offset p.size × IsJpeg b
unfolding read_preview
read_preview_lem f b p a e = elim (Bool-cases (ltb (length f) (p.offset + p.size))) [
  | inl out ↦ absurd (let h = rw out at e in cc)
  | inr within ↦
      let (buf, read, checked) = bind-eq-ok (read_at f p.size p.offset) _ (rw within at e) in
      let (same, long, soi) = checked_lem buf b checked in
      let part = read_some f buf p.size p.offset read long in
      let bytes =
        rw (← part.bytes_eq) at
          (All-take (λ x. x < 256) p.size _ (All-drop (λ x. x < 256) p.offset f a)) in
      rw (← same) (part, IsJpeg-soi buf bytes long soi)
]

-- How the result `b` was found in the file `f`.
pub record IsChosen (f b : Bytes) : Type 0 where
  pub order : Order
  pub header : Bytes
  pub header_read : read_at f 8 0 ≡ ok header
  pub walk : Walk
  pub walked : walk_chain f order (suc max_ifds) (u32_at order header 4) start ≡ ok walk
  pub preview : JpegPreview
  pub linked : IsLinked f order (u32_at order header 4) preview
  pub part : IsPart f b preview.offset preview.size
  pub jpeg : IsJpeg b
  pub largest : All (λ p. p.size ≤ length b) walk.previews

select_lem :
    (P : JpegPreview → Type 0) (ps : List JpegPreview) (p : JpegPreview)
    → select ps ≡ ok p
    → All P ps
    → P p × All (λ q. q.size ≤ p.size) ps
unfolding select
select_lem P [] p e a = cc
select_lem P (q ∷ qs) p e a =
    let same : pick q qs ≡ p = cc in (rw same at (pick-All P q qs a.0 a.1), pick-max q qs same)

magic_lem :
    (c d : Bool) (m : Res Bytes) {b : Bytes}
    → (if c then err big_tiff else if d then err bad_magic else m) ≡ ok b
    → m ≡ ok b
magic_lem true d m e = cc
magic_lem false true m e = cc
magic_lem false false m e = e

-- What `extractTIFFPreview` returns is a part of the file, begins with the marker of a JPEG, is the
-- preview of an IFD that the header leads to, and no preview that the walk collected is larger.
pub extract_tiff_preview-IsChosen :
    (f b : Bytes) → All (λ x. x < 256) f → extract_tiff_preview f ≡ ok b → IsChosen f b
unfolding extract_tiff_preview
extract_tiff_preview-IsChosen f b a e = elim (Bool-cases (ltb (length f) 8)) [
  | inl small ↦ absurd (let h = rw small at e in cc)
  | inr fits ↦
      let (hdr, read, e₁) = bind-eq-ok (read_at f 8 0) _ (rw fits at e) in
      let (bo, _, e₂) = bind-eq-ok (byte_order hdr) _ e₁ in
      let (w, walked, e₃) =
        bind-eq-ok (walk_chain f bo (suc max_ifds) (u32_at bo hdr 4) start)
          (λ v. select v.previews >>= read_preview f)
          (magic_lem (u16_at bo hdr 2 == 43) (not (is_accepted_tiff_magic (u16_at bo hdr 2)))
            (walk_chain f bo (suc max_ifds) (u32_at bo hdr 4) start >>= λ v.
              select v.previews >>= read_preview f)
            e₂) in
      let (p, selected, e₄) = bind-eq-ok (select w.previews) (read_preview f) e₃ in
      let (part, jpeg) = read_preview_lem f b p a e₄ in
      let ended = rw walked at (walk_chain_total f bo (u32_at bo hdr 4)) in
      let (linked, largest) =
        select_lem (IsLinked f bo (u32_at bo hdr 4)) w.previews p selected ended.0.linked in
      record {
        order = bo;
        header = hdr;
        header_read = read;
        walk = w;
        walked = walked;
        preview = p;
        linked = linked;
        part = part;
        jpeg = jpeg;
        largest = rw (IsPart-length p.offset p.size part) largest;
      }
]

Ends-HasFuel :
    (f : Bytes) (bo : Order) (root : ℕ) (w : Walk) (r : Res Walk) → Ends f bo root w r → HasFuel r
Ends-HasFuel f bo root w (ok w') h = tt
Ends-HasFuel f bo root w (err e) h = h
Ends-HasFuel f bo root w panic h = tt

walk-HasFuel :
    (f : Bytes) (bo : Order) (root : ℕ) → HasFuel (walk_chain f bo (suc max_ifds) root start)
walk-HasFuel f bo root = Ends-HasFuel f bo root start _ (walk_chain_total f bo root)

byte_order-HasFuel : (hdr : Bytes) → HasFuel (byte_order hdr)
unfolding byte_order
byte_order-HasFuel hdr = ground arith

select-HasFuel : (ps : List JpegPreview) → HasFuel (select ps)
unfolding select
select-HasFuel [] = λ e. cc
select-HasFuel (p ∷ ps) = tt

read_preview-HasFuel : (f : Bytes) (p : JpegPreview) → HasFuel (read_preview f p)
unfolding read_preview read_at
read_preview-HasFuel f p = ground arith

magic-HasFuel :
    (c d : Bool) (m : Res Bytes)
    → HasFuel m
    → HasFuel (if c then err big_tiff else if d then err bad_magic else m)
magic-HasFuel true d m h = λ e. cc
magic-HasFuel false true m h = λ e. cc
magic-HasFuel false false m h = h

-- `extractTIFFPreview` ends on every file: the rounds given to the walk are enough.
pub extract_tiff_preview-HasFuel : (f : Bytes) → HasFuel (extract_tiff_preview f)
unfolding extract_tiff_preview
extract_tiff_preview-HasFuel f = elim (Bool-cases (ltb (length f) 8)) [
  | inl small ↦ rw small (λ e. cc)
  | inr fits ↦ rw fits (
      bind-HasFuel (read_at f 8 0) _ (read_at-HasFuel f 8 0) λ hdr _.
        bind-HasFuel (byte_order hdr) _ (byte_order-HasFuel hdr) λ bo _. magic-HasFuel _ _ _ (
          bind-HasFuel (walk_chain f bo (suc max_ifds) (u32_at bo hdr 4) start) _
            (walk-HasFuel f bo (u32_at bo hdr 4))
            λ w _.
              bind-HasFuel (select w.previews) _ (select-HasFuel w.previews)
                λ p _. read_preview-HasFuel f p))
]
