-- ===== src/Heap/Malloc.antt =====
-- `kmalloc` finds, splits and marks blocks as first fit on the row of blocks does.
use next_os.Prelude.{
  ℕ, zero, suc, ◌+◌, ◌-◌, ◌*◌, ◌%◌, ◌≤◌, ◌<◌, ◌≡◌, refl, sym, ◌∙◌, ◌⊎◌, inl, inr, true, false, ◌&&◌,
  Option, none, some, List, [], ◌∷◌, arith, leb, length, Bool-cases, lt→neb,
}
use mathlib.Core.Path.{subst}
use next_os.Prelude.Words.{word_mod}
use next_os.Heap.{Header, Heap, write_header, take_block, malloc_loop}
use next_os.Heap.Blocks.{Block, split, keep, place}
use next_os.Heap.Layout.{
  Layout, Layout-le, Layout-frame, Layout-cons, header-write_header, header-write_header_ne,
}

-- `g` differs from `h` in headers from `lo` on only.
pub record SameBelow (lo : ℕ) (h g : Heap) : Type 0 where
  pub below : (a : ℕ) → a < lo → g.headers a ≡ h.headers a
  pub same_start : g.heap_start ≡ h.heap_start
  pub same_bytes : g.bytes ≡ h.bytes

module _ (h : Heap) (lo hi n : ℕ) (b : Block) (bs : List Block)
    (l : Layout h.headers lo lo hi (b ∷ bs)) (fits : n ≤ b.size) (pos : 0 < lo)
    (room : hi + 16 ≤ word_mod) where
  in_room : lo + 24 + b.size ≤ hi
  in_room = Layout-le h.headers (h.headers lo).next (lo + 24 + b.size) hi bs l.3

  address-take_block : (take_block h lo n).1 ≡ lo + 24
  unfolding take_block
  address-take_block = omega (arith, in_room)

  guard : leb ((n + 24 + 16) % word_mod) (h.headers lo).size ≡ leb (n + 40) b.size
  guard = rw l.1 (ground (arith, in_room))

  take_block-SameBelow : SameBelow lo h (take_block h lo n).0
  unfolding take_block write_header
  take_block-SameBelow = record {
    below = λ a lt. ground (arith, in_room);
    same_start = ground arith;
    same_bytes = ground arith;
  }

  rest_header : Header
  rest_header = record { size = b.size - n - 24; free = true; next = (h.headers lo).next }

  split_header : Header
  split_header = record { size = n; free = false; next = lo + 24 + n }

  -- What the branch that splits writes, with the wrapping arithmetic carried out.
  take_block-split :
      leb (n + 40) b.size ≡ true
      → (take_block h lo n).0
        ≡ write_header (write_header h (lo + 24 + n) rest_header) lo split_header
  unfolding take_block rest_header split_header
  take_block-split roomy =
      let new_blk : (lo + 24 + n) % word_mod ≡ lo + 24 + n = ground (arith, in_room) in
      let left : ((h.headers lo).size + 2 * word_mod - n - 24) % word_mod ≡ b.size - n - 24 =
        rw l.1 (ground (arith, in_room)) in
      rw (guard ∙ roomy, new_blk, left)

  take_block-tight :
      leb (n + 40) b.size ≡ false
      → (take_block h lo n).0 ≡ write_header h lo (record (h.headers lo) { free = false })
  unfolding take_block
  take_block-tight tight = rw (guard ∙ tight)

  split-Layout :
      leb (n + 40) b.size ≡ true
      → Layout
          (write_header (write_header h (lo + 24 + n) rest_header) lo split_header).headers
          lo
          lo
          hi
          (record { size = n; free = false } ∷ record { size = b.size - n - 24; free = true } ∷ bs)
  unfolding rest_header split_header
  split-Layout roomy =
      let h' = write_header h (lo + 24 + n) rest_header in
      let h'' = write_header h' lo split_header in
      let rest : Block = record { size = b.size - n - 24; free = true } in
      Layout-cons h''.headers lo (lo + 24 + n) hi (record { size = n; free = false }) (rest ∷ bs)
        split_header (header-write_header h' lo split_header) refl refl refl
        (Layout-cons h''.headers (lo + 24 + n) (lo + 24 + b.size) hi rest bs rest_header
          (header-write_header_ne h' lo (lo + 24 + n) split_header (omega arith)
            ∙ header-write_header h (lo + 24 + n) rest_header)
          refl refl (ground arith)
          (Layout-frame h.headers h''.headers (h.headers lo).next (lo + 24 + b.size) hi bs
            (λ a le. unfold write_header in ground arith) l.3))

  tight-Layout :
      Layout
        (write_header h lo (record (h.headers lo) { free = false })).headers
        lo
        lo
        hi
        (record { size = b.size; free = false } ∷ bs)
  tight-Layout =
      let v : Header = record (h.headers lo) { free = false } in
      Layout-cons (write_header h lo v).headers lo (lo + 24 + b.size) hi
        (record { size = b.size; free = false }) bs v (header-write_header h lo v) l.1 refl refl
        (Layout-frame h.headers (write_header h lo v).headers (h.headers lo).next (lo + 24 + b.size)
          hi bs (λ a le. header-write_header_ne h lo a v (omega arith)) l.3)

  take_block-Layout : Layout (take_block h lo n).0.headers lo lo hi (split n b bs)
  take_block-Layout = elim (Bool-cases (leb (n + 40) b.size)) [
    | inl roomy ↦
        subst (λ (g : Heap). Layout g.headers lo lo hi (split n b bs))
          (sym (take_block-split roomy)) (rw roomy (split-Layout roomy))
    | inr tight ↦
        subst (λ (g : Heap). Layout g.headers lo lo hi (split n b bs))
          (sym (take_block-tight tight)) (rw tight tight-Layout)
  ]

-- How the loop of `kmalloc` from `lo` on ends, by the answer of first fit.
abbrev pub Placed : Heap → ℕ → ℕ → Heap × ℕ → Option (ℕ × List Block) → Type 0
Placed h lo hi r none = r ≡ (h, 0)
Placed h lo hi r (some (a, bs)) = (r.1 ≡ a) × Layout r.0.headers lo lo hi bs × SameBelow lo h r.0

pub SameBelow-mono : (lo mid : ℕ) (h g : Heap) → lo ≤ mid → SameBelow mid h g → SameBelow lo h g
SameBelow-mono lo mid h g le s = record {
  below = λ a lt. s.below a (omega arith);
  same_start = s.same_start;
  same_bytes = s.same_bytes;
}

module _ (h : Heap) (hi n : ℕ) (room : hi + 16 ≤ word_mod) where
  -- A block that is passed over stays as it was.
  Placed-keep :
      (lo mid : ℕ) (b : Block) (r : Heap × ℕ) (o : Option (ℕ × List Block))
      → mid ≡ lo + 24 + b.size
      → (h.headers lo).size ≡ b.size
      → (h.headers lo).free ≡ b.free
      → ((h.headers lo).next ≡ mid) ⊎ (o ≡ none)
      → Placed h mid hi r o
      → Placed h lo hi r (keep b o)
  Placed-keep lo mid b r none e size free next p = p
  Placed-keep lo mid b r (some (a, bs)) e size free (inr no_block) p = cc
  Placed-keep lo mid b r (some (a, bs)) e size free (inl next) p =
      let same : r.0.headers lo ≡ h.headers lo = p.2.below lo (omega arith) in
      (
        p.0,
        Layout-cons r.0.headers lo mid hi b bs (h.headers lo) same size free e
            (subst (λ q. Layout r.0.headers q mid hi bs) (sym next) p.1),
        SameBelow-mono lo mid h r.0 (omega arith) p.2,
      )

  tail_next :
      (q mid : ℕ) (bs : List Block)
      → Layout h.headers q mid hi bs
      → (q ≡ mid) ⊎ (place n mid bs ≡ none)
  unfolding place
  tail_next q mid [] l = inr refl
  tail_next q mid (b ∷ bs) l = inl l.0

  abbrev pub Ends : ℕ → ℕ → ℕ → List Block → Type 0
  Ends fuel p lo bs =
      (r : Heap × ℕ) × (malloc_loop fuel h p n ≡ some r) × Placed h lo hi r (place n lo bs)

  -- The loop ends, given fuel for each block, and does what first fit does.
  pub malloc_loop-Placed :
      (fuel p lo : ℕ) (bs : List Block)
      → Layout h.headers p lo hi bs
      → 0 < lo
      → length bs < fuel
      → Ends fuel p lo bs
  unfolding malloc_loop place
  malloc_loop-Placed zero p lo bs l pos lt = absurd (omega arith)
  malloc_loop-Placed (suc fuel) p lo [] l pos lt = ((h, 0), rw l.0, refl)
  malloc_loop-Placed (suc fuel) p lo (b ∷ bs) l pos lt =
      subst (λ q. Ends (suc fuel) q lo (b ∷ bs)) (sym l.0)
        (elim (Bool-cases (b.free && leb n b.size)) [
          | inl fit ↦
              let test : ((h.headers lo).free && leb n (h.headers lo).size) ≡ true =
                rw (l.1, l.2) fit in
              (
                take_block h lo n,
                rw (lt→neb lo pos, test),
                rw fit (
                  address-take_block h lo hi n b bs whole (fits fit) pos room,
                  take_block-Layout h lo hi n b bs whole (fits fit) pos room,
                  take_block-SameBelow h lo hi n b bs whole (fits fit) pos room,
                ),
              )
          | inr miss ↦
              let test : ((h.headers lo).free && leb n (h.headers lo).size) ≡ false =
                rw (l.1, l.2) miss in
              let (r, e, placed) =
                malloc_loop-Placed fuel (h.headers lo).next (lo + 24 + b.size) bs l.3 (omega arith)
                  (omega arith) in
              (
                r,
                rw (lt→neb lo pos, test) e,
                rw miss (
                    Placed-keep lo (lo + 24 + b.size) b r (place n (lo + 24 + b.size) bs) refl l.1
                      l.2 (tail_next (h.headers lo).next (lo + 24 + b.size) bs l.3) placed),
              )
        ])
    where
      whole : Layout h.headers lo lo hi (b ∷ bs)
      whole = (refl, l.1, l.2, l.3)

      fits : (b.free && leb n b.size) ≡ true → n ≤ b.size
      fits e = ground arith
