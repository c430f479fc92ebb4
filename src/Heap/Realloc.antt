-- ===== src/Heap/Realloc.antt =====
-- What `krealloc` promises its callers: the bytes of the payload are kept.
use next_os.Prelude.{
  ℕ, suc, ◌+◌, ◌-◌, ◌%◌, ◌≤◌, ◌<◌, ◌≡◌, refl, ap, ◌∙◌, ◌≢◌, ◌⊎◌, inl, inr, none, some, List, arith,
  leb, ◌==◌, if◌then◌else◌, length, lt→neb, Bool-cases,
}
use mathlib.Core.Path.{subst}
use native.Mathlib.Decide.{dec_lt}
use next_os.Prelude.Words.{word_mod}
use next_os.Heap.{Heap, copy_bytes, align16, kfree, returning, move_block, krealloc}
use next_os.Heap.Blocks.{Block, in_use}
use next_os.Heap.Layout.{Layout-extent, size-in_use}
use next_os.Heap.Regions.{NoFit, in_use-within, in_use-disjoint}
use next_os.Heap.Alloc.{Holds, Allocated, Mallocs, kmalloc-Mallocs}
use next_os.Heap.Free.{Freed, kfree-Freed}
use next_os.Heap.Bytes.{
  SameBlocks-Holds, copy_bytes-SameBlocks, copy_bytes-inside, copy_bytes-outside,
}

-- The heap after the payload at `ptr`, of `size` bytes, moved to `new_ptr`: the new payload has at
-- least `n` bytes and begins with the old one's, the old one is given back, all other payloads in
-- use are as they were, and no byte outside the copy was written.
pub record Moved (lo hi ptr size n new_ptr : ℕ) (bs : List Block) (h g : Heap) : Type 0 where
  pub row : List Block
  pub holds : Holds lo hi row g
  pub new_size : ℕ
  pub enough : n ≤ new_size
  pub fresh : in_use new_ptr lo bs ≡ none
  pub regions :
      (q : ℕ)
      → in_use q lo row
        ≡ (if ptr == q then none else if new_ptr == q then some new_size else in_use q lo bs)
  pub copied : (k : ℕ) → k < size → g.bytes (new_ptr + k) ≡ h.bytes (ptr + k)
  pub others : (a : ℕ) → (a < new_ptr) ⊎ (new_ptr + size ≤ a) → g.bytes a ≡ h.bytes a

-- How `krealloc` of the payload at `ptr`, of `size` bytes, to `n` bytes ends: it has room already,
-- or there is no room and nothing is done, or it moves.
abbrev pub Reallocs : ℕ → ℕ → ℕ → ℕ → ℕ → List Block → Heap → Heap × ℕ → Type 0
Reallocs lo hi ptr size n bs h r =
    ((n ≤ size) × (r ≡ (h, ptr)))
    ⊎ ((size < n) × (r ≡ (h, 0)) × NoFit (align16 n) bs)
    ⊎ ((size < n) × Moved lo hi ptr size n r.1 bs h r.0)

module _ (lo hi ptr size : ℕ) (bs : List Block) (h : Heap) (fuel n : ℕ) (v : Holds lo hi bs h)
    (used : in_use ptr lo bs ≡ some size) (lt : suc (length bs) < fuel) where
  blk_lem : (ptr + word_mod - 24) % word_mod ≡ ptr - 24
  blk_lem = omega (
    arith,
    in_use-within ptr size lo bs used,
    Layout-extent h.headers lo lo hi bs v.layout,
    v.room,
  )

  -- The new payload and the old one do not overlap.
  apart :
      (p t : ℕ) (row : List Block)
      → in_use ptr lo row ≡ some size
      → in_use p lo row ≡ some t
      → p ≢ ptr
      → size ≤ t
      → (ptr + 0 + size ≤ p + 0) ⊎ (p + 0 + size ≤ ptr + 0)
  apart p t row e f ne le = elim (dec_lt ptr p) [
    | yes before ↦ inl (omega (arith, in_use-disjoint ptr size p t lo row e f before))
    | no after ↦ inr (omega (arith, in_use-disjoint p t ptr size lo row f e (omega arith)))
  ]

  move_block_lem :
      (k : Heap) (p : ℕ)
      → 0 < p
      → (k.headers (ptr - 24)).size ≡ size
      → move_block fuel ptr (some (k, p)) ≡ returning p (kfree fuel (copy_bytes size 0 ptr p k) ptr)
  unfolding move_block
  move_block_lem k p pos e = rw (lt→neb p pos, blk_lem, e)

  -- The copy, and the state before `kfree`.
  copied-Moved :
      (k g : Heap) (p : ℕ) (a : Allocated lo hi (align16 n) p bs h k)
      → size < n
      → n ≤ align16 n
      → Freed lo hi ptr a.row (copy_bytes size 0 ptr p k) g
      → Moved lo hi ptr size n p bs h g
  copied-Moved k g p a more least f = record {
    row = f.row;
    holds = f.holds;
    new_size = a.gains.size;
    enough = omega (arith, a.gains.enough);
    fresh = a.gains.fresh;
    regions = λ q. f.regions q ∙ ap (λ o. if ptr == q then none else o) (a.gains.regions q);
    copied = λ j lt'.
        ap (λ (b : ℕ → ℕ). b (p + j)) f.same_bytes
        ∙ copy_bytes-inside size 0 ptr p k j
            (apart p a.gains.size a.row old new ne (omega (arith, a.gains.enough))) (omega arith)
            (omega arith)
        ∙ ap (λ (b : ℕ → ℕ). b (ptr + j)) a.same_bytes;
    others = λ x out.
        ap (λ (b : ℕ → ℕ). b x) f.same_bytes
        ∙ copy_bytes-outside size 0 ptr p k x (outside x out)
        ∙ ap (λ (b : ℕ → ℕ). b x) a.same_bytes;
  }
    where
      ne : p ≢ ptr
      ne e = cc (subst (λ q. in_use q lo bs ≡ none) e a.gains.fresh)

      old : in_use ptr lo a.row ≡ some size
      old = a.gains.regions ptr ∙ ground arith

      new : in_use p lo a.row ≡ some a.gains.size
      new = a.gains.regions p ∙ ground arith

      outside : (x : ℕ) → (x < p) ⊎ (p + size ≤ x) → (x < p + 0) ⊎ (p + 0 + size ≤ x)
      outside x (inl l) = inl (omega arith)
      outside x (inr l) = inr (omega arith)

  move_block-Moved :
      (k : Heap) (p : ℕ)
      → size < n
      → n ≤ align16 n
      → Allocated lo hi (align16 n) p bs h k
      → (g : Heap) × (move_block fuel ptr (some (k, p)) ≡ some (g, p))
        × Moved lo hi ptr size n p bs h g
  move_block-Moved k p more least a =
      let old : in_use ptr lo a.row ≡ some size =
        a.gains.regions ptr ∙ ground (arith, a.gains.fresh) in
      let copy = copy_bytes size 0 ptr p k in
      let (g, ends, f) =
        kfree-Freed lo hi ptr size a.row copy fuel
          (SameBlocks-Holds lo hi a.row k copy (copy_bytes-SameBlocks size 0 ptr p k) a.holds) old
          (omega (arith, a.gains.longer)) in
      (
        g,
        move_block_lem k p (omega (arith, a.gains.behind))
              (size-in_use k.headers ptr size lo lo hi a.row a.holds.layout old)
            ∙ ap (returning p) ends,
        copied-Moved k g p a more least f,
      )

  -- `krealloc` of a payload in use to a size that is not 0 and can be rounded up ends, given fuel
  -- for each block and one more. It returns the same pointer if the payload is large enough; NULL,
  -- with nothing done, if it is not and no free block is; and else a new payload that begins with
  -- the bytes of the old one, which is given back.
  pub krealloc-Reallocs :
      0 < n
      → n + 15 < word_mod
      → (r : Heap × ℕ) × (krealloc fuel h ptr n ≡ some r) × Reallocs lo hi ptr size n bs h r
  unfolding krealloc
  krealloc-Reallocs pos wide =
      let within = in_use-within ptr size lo bs used in
      let header : (h.headers (ptr - 24)).size ≡ size =
        size-in_use h.headers ptr size lo lo hi bs v.layout used in
      elim (Bool-cases (leb n size)) [
        | inl stays ↦ (
          (h, ptr),
          rw (lt→neb ptr (omega (arith, within)), lt→neb n pos, blk_lem, header, stays),
          inl (ground arith, refl),
        )
        | inr grows ↦
            let (r, e, m, least) = kmalloc-Mallocs lo hi bs h fuel n v (omega arith) pos wide in
            let (s, ends, out) = moves r (ground arith) least m in
            (
              s,
              rw (lt→neb ptr (omega (arith, within)), lt→neb n pos, blk_lem, header, grows, e) ends,
              out,
            )
      ]
    where
      moves :
          (r : Heap × ℕ)
          → size < n
          → n ≤ align16 n
          → Mallocs lo hi (align16 n) bs h r
          → (s : Heap × ℕ) × (move_block fuel ptr (some r) ≡ some s)
            × Reallocs lo hi ptr size n bs h s
      moves r more least (inl (e, full)) =
          ((h, 0), rw e (unfold move_block in refl), inr (inl (more, refl, full)))
      moves r more least (inr a) =
          let (g, ends, moved) = move_block-Moved r.0 r.1 more least a in
          ((g, r.1), ends, inr (inr (more, moved)))
