-- ===== src/Heap/Alloc.antt =====
-- What `kmalloc` promises its callers.
use next_os.Prelude.{
  ℕ, ◌+◌, ◌-◌, ◌*◌, ◌/◌, ◌%◌, ◌^◌, ◌≤◌, ◌<◌, ◌≡◌, refl, sym, ap, ◌∙◌, ◌⊎◌, inl, inr, true, ◌&&◌,
  Option, none, some, List, [], ◌∷◌, arith, leb, length, lt→neb, some_inj,
}
use mathlib.Core.Path.{subst}
use native.Mathlib.Decide.{ℕ_discrete, dec_lt}
use next_os.Prelude.Bits.{bit_and_round}
use next_os.Prelude.Words.{word_mod}
use next_os.Heap.{Heap, heap_init, write_header, align16, kmalloc}
use next_os.Heap.Blocks.{Block, place, in_use}
use next_os.Heap.Layout.{Layout}
use next_os.Heap.Regions.{NoFit, Gains, Fits, place-Fits, in_use-disjoint}
use next_os.Heap.Malloc.{Placed, malloc_loop-Placed}

-- The heap `h` is the row of blocks `bs` between the addresses `lo` and `hi`. The sums of the code
-- do not wrap if the heap ends 16 bytes before the end of the address space.
pub record Holds (lo hi : ℕ) (bs : List Block) (h : Heap) : Type 0 where
  pub start : h.heap_start ≡ lo
  pub layout : Layout h.headers lo lo hi bs
  pub pos : 0 < lo
  pub room : hi + 16 ≤ word_mod

from_start :
    (lo hi : ℕ) (bs : List Block) (h : Heap)
    → Holds lo hi bs h
    → Layout h.headers h.heap_start lo hi bs
from_start lo hi bs h v = subst (λ q. Layout h.headers q lo hi bs) (sym v.start) v.layout

-- `heap_init` on a region of at least 24 bytes, which does not begin at 0 and ends at least 16 bytes
-- before 2^64, establishes the invariant, with one free block that fills the region.
pub heap_init-Holds :
    (start size : ℕ) (h : Heap)
    → 0 < start
    → 24 ≤ size
    → start + size + 16 ≤ word_mod
    → Holds start
        (start + size)
        (record { size = size - 24; free = true } ∷ [])
        (heap_init start size h)
unfolding heap_init write_header
heap_init-Holds start size h pos least room = record {
  start = refl;
  layout = (refl, ground arith, ground arith, (ground arith, omega arith));
  pos = pos;
  room = room;
}

-- Rounding up to a multiple of 16, where the sum does not wrap.
pub align16_lem : (n : ℕ) → n + 15 < word_mod → align16 n ≡ (n + 15) / 16 * 16
unfolding align16
align16_lem n h =
    let exact : (n + 15) % word_mod ≡ n + 15 = omega arith in
    rw exact (bit_and_round 4 60 (n + 15) (omega arith))

-- The heap after a call that returned `ptr` for `n` bytes: `ptr` points to a payload of at least
-- `n` bytes that was not in use, it is not NULL, all other payloads in use are as they were, and
-- no payload byte was written.
pub record Allocated (lo hi n ptr : ℕ) (bs : List Block) (h g : Heap) : Type 0 where
  pub row : List Block
  pub holds : Holds lo hi row g
  pub gains : Gains n ptr lo bs row
  pub same_bytes : g.bytes ≡ h.bytes

abbrev pub Mallocs : ℕ → ℕ → ℕ → List Block → Heap → Heap × ℕ → Type 0
Mallocs lo hi n bs h r = ((r ≡ (h, 0)) × NoFit n bs) ⊎ Allocated lo hi n r.1 bs h r.0

Placed-Mallocs :
    (lo hi n : ℕ) (bs : List Block) (h : Heap) (r : Heap × ℕ) (o : Option (ℕ × List Block))
    → Holds lo hi bs h
    → Placed h lo hi r o
    → Fits n lo bs o
    → Mallocs lo hi n bs h r
Placed-Mallocs lo hi n bs h r none v p f = inl (p, f)
Placed-Mallocs lo hi n bs h r (some (a, cs)) v p f = inr (record {
  row = cs;
  holds = record { start = p.2.same_start ∙ v.start; layout = p.1; pos = v.pos; room = v.room };
  gains = subst (λ x. Gains n x lo bs cs) (sym p.0) f;
  same_bytes = p.2.same_bytes;
})

-- `kmalloc` of a size that is not 0 and can be rounded up to a multiple of 16 ends, given fuel for
-- each block. Either it returns NULL, writes nothing, and no free block has the rounded size; or
-- it returns a payload of at least that size, which is not less than what was asked for.
pub kmalloc-Mallocs :
    (lo hi : ℕ) (bs : List Block) (h : Heap) (fuel size : ℕ)
    → Holds lo hi bs h
    → length bs < fuel
    → 0 < size
    → size + 15 < word_mod
    → (r : Heap × ℕ) × (kmalloc fuel h size ≡ some r)
      × Mallocs lo hi (align16 size) bs h r
      × (size ≤ align16 size)
unfolding kmalloc
kmalloc-Mallocs lo hi bs h fuel size v lt pos wide =
    let n = align16 size in
    let (r, e, placed) =
      malloc_loop-Placed h hi n v.room fuel h.heap_start lo bs (from_start lo hi bs h v) v.pos lt in
    (
      r,
      rw (lt→neb size pos) e,
      Placed-Mallocs lo hi n bs h r (place n lo bs) v placed (place-Fits n lo bs),
      omega (arith, align16_lem size wide),
    )

align16_wraps : (n : ℕ) → word_mod ≤ n + 15 → n < word_mod → align16 n ≡ 0
unfolding align16
align16_wraps n big word =
    let small : ((n + 15) % word_mod) / 2 ^ 4 ≡ 0 = omega arith in
    bit_and_round 4 60 ((n + 15) % word_mod) (omega arith) ∙ ap (λ (t : ℕ). t * 2 ^ 4) small

-- `kmalloc` of a size within 15 of 2 ^ 64 rounds it to 0: on a heap whose first block is free it
-- returns that block's payload, though the whole heap is smaller than what was asked for.
pub kmalloc_wraps :
    (lo hi : ℕ) (b : Block) (bs : List Block) (h : Heap) (fuel size : ℕ)
    → Holds lo hi (b ∷ bs) h
    → length (b ∷ bs) < fuel
    → b.free ≡ true
    → word_mod ≤ size + 15
    → size < word_mod
    → (hi < size) × ((g : Heap) × (kmalloc fuel h size ≡ some (g, lo + 24)))
unfolding kmalloc place
kmalloc_wraps lo hi b bs h fuel size v lt free big word =
    let (r, e, placed) =
      malloc_loop-Placed h hi 0 v.room fuel h.heap_start lo (b ∷ bs) (from_start lo hi (b ∷ bs) h v)
        v.pos lt in
    (
      omega (arith, v.room),
      (
        r.0,
        rw (lt→neb size (omega arith), align16_wraps size big word)
            (e ∙ ap (λ (a : ℕ). some (r.0, a)) (address r placed)),
      ),
    )
  where
    fit : (b.free && leb 0 b.size) ≡ true
    fit = ground arith

    address : (r : Heap × ℕ) → Placed h lo hi r (place 0 lo (b ∷ bs)) → r.1 ≡ lo + 24
    address r p = (rw (fit, place) at p).0

-- A payload that `kmalloc` returned overlaps no payload that was in use before, nor the header in
-- front of either.
pub kmalloc-apart :
    (lo hi : ℕ) (bs : List Block) (h g : Heap) (fuel size p q t : ℕ)
    → Holds lo hi bs h
    → length bs < fuel
    → 0 < size
    → size + 15 < word_mod
    → kmalloc fuel h size ≡ some (g, p)
    → 0 < p
    → in_use q lo bs ≡ some t
    → (p + size + 24 ≤ q) ⊎ (q + t + 24 ≤ p)
kmalloc-apart lo hi bs h g fuel size p q t v lt pos wide e not_null used =
    let (r, ends, m, least) = kmalloc-Mallocs lo hi bs h fuel size v lt pos wide in
    go r (some_inj (sym ends ∙ e)) least m
  where
    none≢some : none ≡ some t → ⊥
    none≢some x = cc

    go :
        (r : Heap × ℕ)
        → r ≡ (g, p)
        → size ≤ align16 size
        → Mallocs lo hi (align16 size) bs h r
        → (p + size + 24 ≤ q) ⊎ (q + t + 24 ≤ p)
    go r same least (inl (null, full)) =
        absurd (omega (arith, ap (λ (x : Heap × ℕ). x.1) same, ap (λ (x : Heap × ℕ). x.1) null))
    go r same least (inr a) =
        let page : r.1 ≡ p = ap (λ (x : Heap × ℕ). x.1) same in
        let new : in_use p lo a.row ≡ some a.gains.size = a.gains.regions p ∙ ground arith in
        let old : in_use q lo a.row ≡ some t = a.gains.regions q ∙ ground (arith, a.gains.fresh) in
        elim (dec_lt p q) [
          | yes before ↦ inl (
              omega
                (arith, a.gains.enough, in_use-disjoint p a.gains.size q t lo a.row new old before))
          | no after ↦ elim (ℕ_discrete p q) [
            | yes e' ↦
                absurd (none≢some (sym a.gains.fresh ∙ ap (λ x. in_use x lo bs) (page ∙ e') ∙ used))
            | no ne ↦ inr (in_use-disjoint q t p a.gains.size lo a.row old new (omega arith))
          ]
        ]
