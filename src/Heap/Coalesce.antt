-- ===== src/Heap/Coalesce.antt =====
-- The two steps of `kfree`, marking a block as free and joining free blocks, on the row of blocks.
use next_os.Prelude.{
  ℕ, zero, suc, ◌+◌, ◌%◌, ◌≤◌, ◌<◌, ◌≡◌, refl, sym, ap, ◌∙◌, ◌≢◌, inl, inr, Bool, true, false, not,
  ◌&&◌, some, List, [], ◌∷◌, arith, ◌==◌, length, lt→neb, Bool-cases,
}
use mathlib.Core.Path.{subst}
use native.Mathlib.Decide.{ℕ_discrete}
use next_os.Prelude.Words.{word_mod}
use next_os.Heap.{Heap, Header, write_header, coalesce}
use next_os.Heap.Blocks.{Block, release, join}
use next_os.Heap.Layout.{
  Layout, Layout-le, Layout-frame, Layout-cons, header-write_header, header-write_header_ne,
}
use next_os.Heap.Malloc.{SameBelow, SameBelow-mono}

-- The block whose header is at `blk`, marked as free.
abbrev pub free_header : Heap → ℕ → Header
free_header h blk = record (h.headers blk) { free = true }

pub free_header-Layout :
    (h : Heap) (blk p lo hi : ℕ) (bs : List Block)
    → Layout h.headers p lo hi bs
    → Layout (write_header h blk (free_header h blk)).headers p lo hi (release (blk + 24) lo bs)
unfolding release
free_header-Layout h blk p lo hi [] l = l
free_header-Layout h blk p lo hi (b ∷ bs) l =
    let ih = free_header-Layout h blk (h.headers lo).next (lo + 24 + b.size) hi bs l.3 in
    subst
      (λ q.
        Layout (write_header h blk (free_header h blk)).headers q lo hi
          (release (blk + 24) lo (b ∷ bs)))
      (sym l.0)
      (elim (ℕ_discrete lo blk) [
        | yes e ↦ rw (same_ptr e) (
            subst
              (λ k.
                Layout (write_header h k (free_header h k)).headers lo lo hi
                  (record b { free = true } ∷ release (blk + 24) (lo + 24 + b.size) bs))
              e
              (Layout-cons (write_header h lo (free_header h lo)).headers lo (lo + 24 + b.size) hi
                (record b { free = true }) (release (blk + 24) (lo + 24 + b.size) bs)
                (free_header h lo) (header-write_header h lo (free_header h lo)) l.1 refl refl
                (subst
                  (λ k.
                    Layout (write_header h k (free_header h k)).headers (h.headers lo).next
                      (lo + 24 + b.size) hi (release (blk + 24) (lo + 24 + b.size) bs))
                  (sym e) ih)))
        | no ne ↦ rw (other_ptr ne) (
            Layout-cons (write_header h blk (free_header h blk)).headers lo (lo + 24 + b.size) hi b
              (release (blk + 24) (lo + 24 + b.size) bs) (h.headers lo)
              (header-write_header_ne h blk lo (free_header h blk) (λ q. ne (sym q))) l.1 l.2 refl
              ih)
      ])
  where
    same_ptr : lo ≡ blk → (lo + 24 == blk + 24) ≡ true
    same_ptr e = ground arith

    other_ptr : lo ≢ blk → (lo + 24 == blk + 24) ≡ false
    other_ptr ne = ground arith

-- Joining the block at `lo` with the free block behind it.
merge_header : Heap → ℕ → ℕ → Header
merge_header h lo size = record {
  size = size;
  free = (h.headers lo).free;
  next = (h.headers (h.headers lo).next).next;
}

-- The test of the loop: the block at `cur` and the one behind it are free.
abbrev pair_free : Heap → ℕ → Bool
pair_free h cur = let c = h.headers cur in c.free && (not (c.next == 0) && (h.headers c.next).free)

coalesce_end : (n : ℕ) (h : Heap) → coalesce (suc n) h 0 ≡ some h
unfolding coalesce
coalesce_end n h = refl

coalesce_merge :
    (n : ℕ) (h : Heap) (lo : ℕ)
    → 0 < lo
    → pair_free h lo ≡ true
    → coalesce (suc n) h lo
      ≡ coalesce n
          (write_header h lo (
            merge_header h lo
              (((h.headers lo).size + (24 + (h.headers (h.headers lo).next).size)) % word_mod)))
          lo
unfolding coalesce merge_header
coalesce_merge n h lo pos test = rw (lt→neb lo pos, test)

coalesce_along :
    (n : ℕ) (h : Heap) (lo : ℕ)
    → 0 < lo
    → pair_free h lo ≡ false
    → coalesce (suc n) h lo ≡ coalesce n h (h.headers lo).next
unfolding coalesce
coalesce_along n h lo pos test = rw (lt→neb lo pos, test)

-- How `coalesce` from the block at `lo` on ends: free blocks are joined as on the row.
abbrev pub Joins : ℕ → Heap → ℕ → ℕ → Block → List Block → Type 0
Joins fuel h lo hi b bs =
    (g : Heap) × (coalesce fuel h lo ≡ some g)
    × Layout g.headers lo lo hi (join b bs)
    × SameBelow lo h g

module _ (hi : ℕ) (room : hi + 16 ≤ word_mod) where
  merge-Layout :
      (h : Heap) (lo : ℕ) (b c : Block) (cs : List Block)
      → Layout h.headers lo lo hi (b ∷ c ∷ cs)
      → Layout
          (write_header h lo (merge_header h lo (b.size + (24 + c.size)))).headers
          lo
          lo
          hi
          (record b { size = b.size + (24 + c.size) } ∷ cs)
  unfolding merge_header
  merge-Layout h lo b c cs l =
      let v = merge_header h lo (b.size + (24 + c.size)) in
      let tail : Layout h.headers (h.headers (h.headers lo).next).next
          (lo + 24 + b.size + 24 + c.size) hi cs =
        rw l.3.0 l.3.3 in
      Layout-cons (write_header h lo v).headers lo (lo + 24 + b.size + 24 + c.size) hi
        (record b { size = b.size + (24 + c.size) }) cs v (header-write_header h lo v) refl l.2
        (omega arith)
        (Layout-frame h.headers (write_header h lo v).headers v.next
          (lo + 24 + b.size + 24 + c.size) hi cs
          (λ a le. header-write_header_ne h lo a v (omega arith)) tail)

  -- A block that is passed over stays, and the row behind it is joined.
  Joins-along :
      (fuel : ℕ) (h : Heap) (lo : ℕ) (b c : Block) (cs : List Block)
      → Layout h.headers lo lo hi (b ∷ c ∷ cs)
      → 0 < lo
      → (b.free && c.free) ≡ false
      → Joins fuel h (lo + 24 + b.size) hi c cs
      → Joins (suc fuel) h lo hi b (c ∷ cs)
  unfolding join
  Joins-along fuel h lo b c cs l pos apart (g, e, l', same) =
      let mid = lo + 24 + b.size in
      let test : pair_free h lo ≡ false = rw (l.2, l.3.0, l.3.2) (ground arith) in
      let kept : g.headers lo ≡ h.headers lo = same.below lo (omega arith) in
      (
        g,
        coalesce_along fuel h lo pos test ∙ ap (coalesce fuel h) l.3.0 ∙ e,
        rw apart (
            Layout-cons g.headers lo mid hi b (join c cs) (h.headers lo) kept l.1 l.2 refl
              (subst (λ q. Layout g.headers q mid hi (join c cs)) (sym l.3.0) l')),
        SameBelow-mono lo mid h g (omega arith) same,
      )

  -- Two free blocks are joined, and the loop looks at the joined block again.
  Joins-merge :
      (fuel : ℕ) (h : Heap) (lo : ℕ) (b c : Block) (cs : List Block)
      → Layout h.headers lo lo hi (b ∷ c ∷ cs)
      → 0 < lo
      → (b.free && c.free) ≡ true
      → Joins fuel
          (write_header h lo (merge_header h lo (b.size + (24 + c.size))))
          lo
          hi
          (record b { size = b.size + (24 + c.size) })
          cs
      → Joins (suc fuel) h lo hi b (c ∷ cs)
  unfolding join
  Joins-merge fuel h lo b c cs l pos both (g, e, l', same) =
      let within =
        Layout-le h.headers (h.headers (h.headers lo).next).next (lo + 24 + b.size + 24 + c.size) hi
          cs (rw l.3.0 l.3.3) in
      let test : pair_free h lo ≡ true = rw (l.2, l.3.0, l.3.2) (ground arith) in
      let size : ((h.headers lo).size + (24 + (h.headers (h.headers lo).next).size)) % word_mod
          ≡ b.size + (24 + c.size) =
        rw (l.1, l.3.0, l.3.1) (omega arith) in
      (
        g,
        coalesce_merge fuel h lo pos test
            ∙ ap (λ n. coalesce fuel (write_header h lo (merge_header h lo n)) lo) size
            ∙ e,
        rw both l',
        record {
          below = λ a lt.
              same.below a lt
              ∙ header-write_header_ne h lo a (merge_header h lo (b.size + (24 + c.size)))
                  (omega arith);
          same_start = same.same_start ∙ start_kept;
          same_bytes = same.same_bytes ∙ bytes_kept;
        },
      )
    where
      start_kept :
          (write_header h lo (merge_header h lo (b.size + (24 + c.size)))).heap_start ≡ h.heap_start
      start_kept = unfold write_header in refl

      bytes_kept : (write_header h lo (merge_header h lo (b.size + (24 + c.size)))).bytes ≡ h.bytes
      bytes_kept = unfold write_header in refl

  -- Given fuel for each block, the loop ends and joins as `join` does.
  pub coalesce-Joins :
      (fuel : ℕ) (h : Heap) (lo : ℕ) (b : Block) (bs : List Block)
      → Layout h.headers lo lo hi (b ∷ bs)
      → 0 < lo
      → suc (length bs) < fuel
      → Joins fuel h lo hi b bs
  unfolding join
  coalesce-Joins zero h lo b bs l pos lt = absurd (omega arith)
  coalesce-Joins (suc zero) h lo b bs l pos lt = absurd (omega arith)
  coalesce-Joins (suc (suc fuel)) h lo b [] l pos lt =
      let test : pair_free h lo ≡ false = rw l.3.0 (ground arith) in
      (
        h,
        coalesce_along (suc fuel) h lo pos test
            ∙ ap (coalesce (suc fuel) h) l.3.0
            ∙ coalesce_end fuel h,
        l,
        record { below = λ a lt'. refl; same_start = refl; same_bytes = refl },
      )
  coalesce-Joins (suc (suc fuel)) h lo b (c ∷ cs) l pos lt = elim (Bool-cases (b.free && c.free)) [
    | inl both ↦ Joins-merge (suc fuel) h lo b c cs l pos both (
        coalesce-Joins (suc fuel) (write_header h lo (merge_header h lo (b.size + (24 + c.size))))
          lo (record b { size = b.size + (24 + c.size) }) cs (merge-Layout h lo b c cs l) pos
          (omega arith))
    | inr apart ↦ Joins-along (suc fuel) h lo b c cs l pos apart (
        coalesce-Joins (suc fuel) h (lo + 24 + b.size) c cs
          (subst (λ q. Layout h.headers q (lo + 24 + b.size) hi (c ∷ cs)) l.3.0 l.3) (omega arith)
          (omega arith))
  ]
