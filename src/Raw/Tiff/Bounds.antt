-- ===== src/Raw/Tiff/Bounds.antt =====
-- The walk over the IFDs: it ends, it parses each IFD at most once and `max_ifds` of them at most,
-- and it collects previews of IFDs that the file's header leads to.
use mathlib.Core.List.{
  Mem, Nodup, Nodup-cons, Nodup-nil, mem-cons, mem-cons_self, mem-cons_of_mem, not-mem-nil,
}
use mathlib.Core.Logic.Or
use mathlib.Core.HLevel.{⊥_prop}
use cull_snap.Base.{
  ℕ, zero, suc, ◌+◌, ◌≤◌, ◌<◌, List, [], ◌∷◌, ◌≡◌, ◌≢◌, refl, false, Option, none, some, ◌==◌, leb,
  length, All, All-append, Bool-cases, inl, inr, ok, err, panic, ◌>>=◌, arith,
}
use cull_snap.Raw.File.{Bytes, no_fuel, Res, Order}
use cull_snap.Raw.Tiff.Ifd.{JpegPreview, Ifd, parse_ifd}
use cull_snap.Raw.Tiff.Errors.{HasFuel, parse_ifd-HasFuel}
use cull_snap.Raw.Tiff.Walk.{Walk, start, max_ifds, contains, found, visit, each, walk_chain}

-- The links between IFDs lead from `root` to the IFD at an offset.
pub data Leads (f : Bytes) (bo : Order) (root : ℕ) : ℕ → Type 0 where
  here : Leads f bo root root
  next : {o : ℕ} {i : Ifd} → Leads f bo root o → parse_ifd f bo o ≡ ok i → Leads f bo root i.next
  sub :
      {o s : ℕ} {i : Ifd}
      → Leads f bo root o
      → parse_ifd f bo o ≡ ok i
      → Mem s i.sub_ifds
      → Leads f bo root s

-- `p` is the preview of an IFD that the links lead to.
pub record IsLinked (f : Bytes) (bo : Order) (root : ℕ) (p : JpegPreview) : Type 0 where
  pub at : ℕ
  pub ifd : Ifd
  pub leads : Leads f bo root at
  pub parsed : parse_ifd f bo at ≡ ok ifd
  pub shown : ifd.preview ≡ some p

contains-mem : (x : ℕ) (ys : List ℕ) → contains x ys ≡ false → ¬ Mem x ys
unfolding contains
contains-mem x [] e m = not-mem-nil m
contains-mem x (y ∷ ys) e m =
    Or.elim ⊥_prop (mem-cons.0 m) (λ q. ground arith) (contains-mem x ys (ground arith))

module _ (f : Bytes) (bo : Order) (root : ℕ) where
  pub record WalkInv (w : Walk) : Type 0 where
    pub once : Nodup w.visited
    pub counted : length w.visited ≡ w.ifd_count
    pub bounded : w.ifd_count ≤ max_ifds
    pub linked : All (IsLinked f bo root) w.previews

  -- A run from `w` ends with the invariant kept, or with an error that is not want of fuel.
  abbrev pub Ends : Walk → Res Walk → Type 0
  Ends w (ok w') = WalkInv w' × (w.ifd_count ≤ w'.ifd_count)
  Ends w (err e) = e ≢ no_fuel
  Ends w panic = Unit

  Ends-mono : (v w : Walk) (r : Res Walk) → v.ifd_count ≤ w.ifd_count → Ends w r → Ends v r
  Ends-mono v w (ok w') h (i, k) = (i, omega arith)
  Ends-mono v w (err e) h n = n
  Ends-mono v w panic h n = tt

  Ends-bind :
      (v : Walk) (m : Res Walk) (g : Walk → Res Walk)
      → Ends v m
      → ((w : Walk) → WalkInv w → v.ifd_count ≤ w.ifd_count → Ends w (g w))
      → Ends v (m >>= g)
  Ends-bind v (ok w) g (i, h) k = Ends-mono v w (g w) h (k w i h)
  Ends-bind v (err e) g h k = h
  Ends-bind v panic g h k = tt

  Ends-parse :
      (v : Walk) (m : Res Ifd) (g : Ifd → Res Walk)
      → HasFuel m
      → ((i : Ifd) → m ≡ ok i → Ends v (g i))
      → Ends v (m >>= g)
  Ends-parse v (ok i) g h k = k i refl
  Ends-parse v (err e) g h k = h
  Ends-parse v panic g h k = tt

  -- If each SubIFD's walk ends, the loop over them does.
  each-Ends :
      (walk : ℕ → Walk → Res Walk) (n : ℕ) (subs : List ℕ)
      → ((s : ℕ) (w : Walk) → Mem s subs → WalkInv w → n ≤ w.ifd_count → Ends w (walk s w))
      → (w : Walk) → WalkInv w
      → n ≤ w.ifd_count
      → Ends w (each walk subs w)
  unfolding each
  each-Ends walk n [] k w i h = (i, omega arith)
  each-Ends walk n (s ∷ ss) k w i h =
      Ends-bind w (walk s w) _ (k s w mem-cons_self i h)
        λ w' i' h'. each-Ends walk n ss (λ s w m. k s w (mem-cons_of_mem _ m)) w' i' (omega arith)

  found-IsLinked :
      (o : ℕ) (i : Ifd) (p : Option JpegPreview) (ps : List JpegPreview)
      → Leads f bo root o
      → parse_ifd f bo o ≡ ok i
      → i.preview ≡ p
      → All (IsLinked f bo root) ps
      → All (IsLinked f bo root) (found p ps)
  found-IsLinked o i none ps l e q a = a
  found-IsLinked o i (some p) ps l e q a =
      All-append (IsLinked f bo root) ps (p ∷ []) a
        (record { at = o; ifd = i; leads = l; parsed = e; shown = q }, tt)

  visit-WalkInv :
      (o : ℕ) (i : Ifd) (w : Walk)
      → WalkInv w
      → Leads f bo root o
      → parse_ifd f bo o ≡ ok i
      → leb max_ifds w.ifd_count ≡ false
      → contains o w.visited ≡ false
      → WalkInv (visit o i w)
  visit-WalkInv o i w v l e few new = record {
    once = Nodup-cons.1 (contains-mem o w.visited new, v.once);
    counted = omega (arith, v.counted);
    bounded = ground (arith);
    linked = found-IsLinked o i i.preview w.previews l e refl v.linked;
  }

  pub start-WalkInv : WalkInv start
  start-WalkInv = record { once = Nodup-nil; counted = refl; bounded = omega arith; linked = tt }

  -- With more fuel than IFDs are left to count the walk ends.
  walk_chain-Ends :
      (fuel o : ℕ) (w : Walk)
      → WalkInv w
      → Leads f bo root o
      → max_ifds < fuel + w.ifd_count
      → Ends w (walk_chain f bo fuel o w)
  unfolding walk_chain
  walk_chain-Ends zero o w v l h = absurd (omega (arith, v.bounded))
  walk_chain-Ends (suc fuel) o w v l h = elim (Bool-cases (o == 0)) [
    | inl end ↦ rw end (v, omega arith)
    | inr more ↦ rw more (elim (Bool-cases (leb max_ifds w.ifd_count)) [
      | inl full ↦ rw full (v, omega arith)
      | inr few ↦ rw few (elim (Bool-cases (contains o w.visited)) [
        | inl old ↦ rw old (v, omega arith)
        | inr new ↦ rw new (
            Ends-parse w (parse_ifd f bo o) _ (parse_ifd-HasFuel f bo o) λ i e.
              Ends-mono w (visit o i w) _ (omega arith) (
                Ends-bind (visit o i w) (each (walk_chain f bo fuel) i.sub_ifds (visit o i w)) _
                  (each-Ends (walk_chain f bo fuel) (w.ifd_count + 1) i.sub_ifds
                    (λ s u m k g. walk_chain-Ends fuel s u k (Leads.sub l e m) (omega arith))
                    (visit o i w) (visit-WalkInv o i w v l e few new) (omega arith))
                  λ u k g. walk_chain-Ends fuel i.next u k (Leads.next l e) (omega arith)))
      ])
    ])
  ]

-- The walk from the offset in the header ends, for every file: it returns with the invariant, it
-- returns an error of the source, or it panics.
pub walk_chain_total :
    (f : Bytes) (bo : Order) (root : ℕ)
    → Ends f bo root start (walk_chain f bo (suc max_ifds) root start)
walk_chain_total f bo root =
    walk_chain-Ends f bo root (suc max_ifds) root start (start-WalkInv f bo root) here (omega arith)
