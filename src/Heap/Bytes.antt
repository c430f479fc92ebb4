-- ===== src/Heap/Bytes.antt =====
-- The two loops over payload bytes, and the zeroed payloads of `kcalloc`.
use next_os.Prelude.{
  ℕ, zero, suc, ◌+◌, ◌*◌, ◌%◌, ◌≤◌, ◌<◌, ◌≡◌, refl, ap, ◌∙◌, ◌⊎◌, inl, inr, ◌&&◌, some, List, arith,
  leb, ltb, ◌==◌, if◌then◌else◌, length, lt→neb,
}
use native.Mathlib.Decide.{ℕ_discrete}
use next_os.Prelude.Words.{word_mod}
use next_os.Heap.{Heap, write_byte, zero_bytes, copy_bytes, align16, kcalloc}
use next_os.Heap.Blocks.{Block}
use next_os.Heap.Regions.{NoFit, Gains}
use next_os.Heap.Alloc.{Holds, Mallocs, kmalloc-Mallocs}

-- Writing a payload byte leaves the blocks alone.
pub record SameBlocks (h g : Heap) : Type 0 where
  pub same_start : g.heap_start ≡ h.heap_start
  pub same_headers : g.headers ≡ h.headers

pub SameBlocks-Holds :
    (lo hi : ℕ) (bs : List Block) (h g : Heap)
    → SameBlocks h g
    → Holds lo hi bs h
    → Holds lo hi bs g
SameBlocks-Holds lo hi bs h g s v = record {
  start = s.same_start ∙ v.start;
  layout = rw s.same_headers v.layout;
  pos = v.pos;
  room = v.room;
}

zero_bytes-SameBlocks : (n i p : ℕ) (h : Heap) → SameBlocks h (zero_bytes n i p h)
unfolding zero_bytes write_byte
zero_bytes-SameBlocks zero i p h = record { same_start = refl; same_headers = refl }
zero_bytes-SameBlocks (suc n) i p h =
    let s = zero_bytes-SameBlocks n (i + 1) p (write_byte h (p + i) 0) in
    record { same_start = s.same_start; same_headers = s.same_headers }

-- The loop of `kcalloc` writes 0 to the bytes from `p + i` to `p + i + n`, and to no other.
zero_bytes_lem :
    (n i p : ℕ) (h : Heap) (a : ℕ)
    → (zero_bytes n i p h).bytes a ≡ (if leb (p + i) a && ltb a (p + i + n) then 0 else h.bytes a)
unfolding zero_bytes write_byte
zero_bytes_lem zero i p h a = ground arith
zero_bytes_lem (suc n) i p h a =
    zero_bytes_lem n (i + 1) p (write_byte h (p + i) 0) a ∙ ground arith

pub copy_bytes-SameBlocks : (n i src dst : ℕ) (h : Heap) → SameBlocks h (copy_bytes n i src dst h)
unfolding copy_bytes write_byte
copy_bytes-SameBlocks zero i src dst h = record { same_start = refl; same_headers = refl }
copy_bytes-SameBlocks (suc n) i src dst h =
    let s = copy_bytes-SameBlocks n (i + 1) src dst (write_byte h (dst + i) (h.bytes (src + i))) in
    record { same_start = s.same_start; same_headers = s.same_headers }

-- The loop of `krealloc` writes nothing outside the destination.
pub copy_bytes-outside :
    (n i src dst : ℕ) (h : Heap) (a : ℕ)
    → (a < dst + i) ⊎ (dst + i + n ≤ a)
    → (copy_bytes n i src dst h).bytes a ≡ h.bytes a
unfolding copy_bytes write_byte
copy_bytes-outside zero i src dst h a out = refl
copy_bytes-outside (suc n) i src dst h a out =
    copy_bytes-outside n (i + 1) src dst (write_byte h (dst + i) (h.bytes (src + i))) a
      (further out)
    ∙ ground arith
  where
    further : (a < dst + i) ⊎ (dst + i + suc n ≤ a) → (a < dst + (i + 1)) ⊎ (dst + (i + 1) + n ≤ a)
    further (inl lt) = inl (omega arith)
    further (inr le) = inr (omega arith)

-- Where source and destination do not overlap, it copies.
pub copy_bytes-inside :
    (n i src dst : ℕ) (h : Heap) (k : ℕ)
    → (src + i + n ≤ dst + i) ⊎ (dst + i + n ≤ src + i)
    → i ≤ k
    → k < i + n
    → (copy_bytes n i src dst h).bytes (dst + k) ≡ h.bytes (src + k)
unfolding copy_bytes write_byte
copy_bytes-inside zero i src dst h k apart lo hi = absurd (omega arith)
copy_bytes-inside (suc n) i src dst h k apart lo hi =
    let h' = write_byte h (dst + i) (h.bytes (src + i)) in
    elim (ℕ_discrete i k) [
      | yes e ↦
          copy_bytes-outside n (i + 1) src dst h' (dst + k) (inl (omega arith))
          ∙ ground (arith, ap (λ (t : ℕ). h.bytes (src + t)) e)
      | no ne ↦
          copy_bytes-inside n (i + 1) src dst h' k (nearer apart) (omega arith) (omega arith)
          ∙ ground arith
    ]
  where
    nearer :
        (src + i + suc n ≤ dst + i) ⊎ (dst + i + suc n ≤ src + i)
        → (src + (i + 1) + n ≤ dst + (i + 1)) ⊎ (dst + (i + 1) + n ≤ src + (i + 1))
    nearer (inl le) = inl (omega arith)
    nearer (inr le) = inr (omega arith)

-- What `kcalloc` returned: NULL and nothing done, or a new payload whose first `n` bytes are 0; no
-- byte outside those was written.
abbrev pub Callocs : ℕ → ℕ → ℕ → List Block → Heap → Heap × ℕ → Type 0
Callocs lo hi n bs h r =
    ((r ≡ (h, 0)) × NoFit (align16 n) bs)
    ⊎ ((row : List Block) × Holds lo hi row r.0
        × Gains (align16 n) r.1 lo bs row
        × ((a : ℕ) → r.0.bytes a ≡ (if leb r.1 a && ltb a (r.1 + n) then 0 else h.bytes a)))

zeroed-Callocs :
    (lo hi n : ℕ) (bs : List Block) (h : Heap) (r : Heap × ℕ)
    → Holds lo hi bs h
    → Mallocs lo hi (align16 n) bs h r
    → Callocs lo hi n bs h ((if r.1 == 0 then r.0 else zero_bytes n 0 r.1 r.0), r.1)
zeroed-Callocs lo hi n bs h r v (inl (e, none_fits)) = inl (rw e refl, none_fits)
zeroed-Callocs lo hi n bs h r v (inr a) =
    let pos : 0 < r.1 = omega (arith, a.gains.behind) in
    rw (lt→neb r.1 pos) (
      inr (
        a.row,
        SameBlocks-Holds lo hi a.row r.0 (zero_bytes n 0 r.1 r.0)
            (zero_bytes-SameBlocks n 0 r.1 r.0) a.holds,
        a.gains,
        λ x. zero_bytes_lem n 0 r.1 r.0 x ∙ ground (arith, ap (λ (f : ℕ → ℕ). f x) a.same_bytes),
      ))

-- `kcalloc` whose product does not wrap and is not 0 ends, given fuel for each block, and returns
-- NULL, if no free block is large enough, or a new payload of `count * size` bytes that are 0.
pub kcalloc-Callocs :
    (lo hi : ℕ) (bs : List Block) (h : Heap) (fuel count size : ℕ)
    → Holds lo hi bs h
    → length bs < fuel
    → 0 < count * size
    → count * size + 15 < word_mod
    → (r : Heap × ℕ) × (kcalloc fuel h count size ≡ some r) × Callocs lo hi (count * size) bs h r
unfolding kcalloc
kcalloc-Callocs lo hi bs h fuel count size v lt pos wide =
    let total = count * size in
    let exact : count * size % word_mod ≡ count * size = omega arith in
    let (r, e, m, least) = kmalloc-Mallocs lo hi bs h fuel total v lt pos wide in
    (
      ((if r.1 == 0 then r.0 else zero_bytes total 0 r.1 r.0), r.1),
      rw (exact, e),
      zeroed-Callocs lo hi total bs h r v m,
    )
