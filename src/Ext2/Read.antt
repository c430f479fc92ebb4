-- ===== src/Ext2/Read.antt =====
-- `ext2_read`: the bytes of a file, which are those of its direct and indirect blocks.
use next_os.Prelude.{
  ℕ, ◌+◌, ◌-◌, ◌*◌, ◌/◌, ◌≤◌, ◌<◌, ◌≡◌, refl, sym, ap, ◌∙◌, ◌⊎◌, inl, inr, true, false, not, ◌||◌,
  List, [], ◌∷◌, ◌++◌, ltb, leb, ◌==◌, if◌then◌else◌, length, take, drop, Bool-cases, arith,
}
use native.Mathlib.Decide.{dec_lt, dec_le}
use next_os.Prelude.Words.{word_mod}
use next_os.Prelude.Slices.{drop-append_past}
use next_os.Disk.{Driver, Holds, sectors_at, length-sectors_at}
use next_os.Disk.Parts.{
  part_start, part_end, part, concat, round_lem, append_nil, take-nil, drop-nil,
}
use next_os.Ext2.{Ext2, read_block, read_blocks}

-- The block pointers in front of the first 0.
unfoldable pub until_zero : List ℕ → List ℕ
until_zero [] = []
until_zero (p ∷ ps) = let rest = until_zero ps in if p == 0 then [] else p ∷ rest

module _ {D : Type 0} (e : Ext2 D) (sector : ℕ → List ℕ) where
  -- The bytes of a block.
  abbrev pub block_at : ℕ → List ℕ
  block_at ptr =
      sectors_at sector (e.part_start_lba + ptr * (e.block_size / 512)) (e.block_size / 512)

  abbrev pub blocks_at : List ℕ → List (List ℕ)
  blocks_at [] = []
  blocks_at (p ∷ ps) = block_at p ∷ blocks_at ps

-- Two states that differ in the buffer only.
abbrev pub with_buf : {D : Type 0} → Ext2 D → List ℕ → Ext2 D
with_buf e buf = record e { block_buf = buf }

-- A block size that the loops can do with.
pub record Sized {D : Type 0} (e : Ext2 D) (offset size : ℕ) : Type 0 where
  pub some_byte : 0 < e.block_size
  pub by_sectors : e.block_size / 512 * 512 ≡ e.block_size
  pub room : offset + size + e.block_size < word_mod

next_start : (i b : ℕ) → (i + 1) * b ≡ i * b + b
next_start i b = omega arith

-- What is left to read from the blocks `bs`, the first of which begins at `pos`.
abbrev pub wanted : ℕ → ℕ → ℕ → List ℕ → List (List ℕ) → List ℕ
wanted offset size pos out bs = out ++ take (size - length out) (drop (offset - pos) (concat bs))

wanted_full :
    (offset size pos : ℕ) (out : List ℕ) (bs : List (List ℕ))
    → size ≤ length out
    → wanted offset size pos out bs ≡ out
wanted_full offset size pos out bs full =
    let none_left : size - length out ≡ 0 = omega arith in
    ap (λ q. out ++ take q (drop (offset - pos) (concat bs))) none_left ∙ append_nil out

wanted_nil : (offset size pos : ℕ) (out : List ℕ) → wanted offset size pos out [] ≡ out
wanted_nil offset size pos out =
    ap (λ q. out ++ take (size - length out) q) (drop-nil (offset - pos))
    ∙ ap (λ q. out ++ q) (take-nil (size - length out))
    ∙ append_nil out

-- A block that ends in front of the range.
wanted_skip :
    (offset size pos bsize : ℕ) (out b : List ℕ) (bs : List (List ℕ))
    → length b ≡ bsize
    → pos + bsize ≤ offset
    → wanted offset size pos out (b ∷ bs) ≡ wanted offset size (pos + bsize) out bs
wanted_skip offset size pos bsize out b bs len past =
    let further : offset - pos - length b ≡ offset - (pos + bsize) = omega arith in
    ap (λ q. out ++ take (size - length out) q)
      (drop-append_past (offset - pos) b (concat bs) (omega arith)
        ∙ ap (λ q. drop q (concat bs)) further)

near : (pos offset n size : ℕ) → (pos ≤ offset + n) ⊎ (n ≡ size) → n < size → pos ≤ offset + n
near pos offset n size (inl at) more = at
near pos offset n size (inr full) more = absurd (omega arith)

until_zero_none : until_zero [] ≡ []
unfolding until_zero
until_zero_none = refl

pub until_zero_stop : (ptr : ℕ) (ptrs : List ℕ) → (ptr == 0) ≡ true → until_zero (ptr ∷ ptrs) ≡ []
unfolding until_zero
until_zero_stop ptr ptrs h = rw h refl

pub until_zero_go :
    (ptr : ℕ) (ptrs : List ℕ) → (ptr == 0) ≡ false → until_zero (ptr ∷ ptrs) ≡ ptr ∷ until_zero ptrs
unfolding until_zero
until_zero_go ptr ptrs h = rw h refl

-- The loop's first tests, and its three ways on.
module _ {D : Type 0} (drv : Driver D) (scratch : List ℕ) (e : Ext2 D) (sector : ℕ → List ℕ) where
  pub read_block_lem :
      (ptr : ℕ) (buf held : List ℕ)
      → Holds drv e.disk sector
      → read_block drv scratch (with_buf e buf) ptr held ≡ block_at e sector ptr
  unfolding read_block
  read_block_lem ptr buf held holds = ap (λ r. r.0) (holds.reads _ _ held)

  stops :
      (offset size ptr i : ℕ) (ptrs buf out : List ℕ)
      → (not (ltb (length out) size) || ptr == 0) ≡ true
      → read_blocks drv scratch (with_buf e buf) offset size (ptr ∷ ptrs) i out
        ≡ (with_buf e buf, out)
  unfolding read_blocks
  stops offset size ptr i ptrs buf out over = rw over refl

  skips :
      (offset size ptr i : ℕ) (ptrs buf out : List ℕ)
      → (not (ltb (length out) size) || ptr == 0) ≡ false
      → leb (i * e.block_size + e.block_size) offset ≡ true
      → read_blocks drv scratch (with_buf e buf) offset size (ptr ∷ ptrs) i out
        ≡ read_blocks drv scratch (with_buf e buf) offset size ptrs (i + 1) out
  unfolding read_blocks
  skips offset size ptr i ptrs buf out going past = rw (going, past) refl

  goes :
      (offset size ptr i : ℕ) (ptrs buf out : List ℕ)
      → Holds drv e.disk sector
      → (not (ltb (length out) size) || ptr == 0) ≡ false
      → leb (i * e.block_size + e.block_size) offset ≡ false
      → read_blocks drv scratch (with_buf e buf) offset size (ptr ∷ ptrs) i out
        ≡ read_blocks drv scratch (with_buf e (block_at e sector ptr)) offset size ptrs (i + 1) (
            out
            ++ part
                (block_at e sector ptr)
                (part_start offset (i * e.block_size))
                (part_end e.block_size size (length out) (part_start offset (i * e.block_size))))
  unfolding read_blocks
  goes offset size ptr i ptrs buf out holds going meets =
      rw (going, meets, read_block_lem ptr buf buf holds) refl

  abbrev pub Result : ℕ → ℕ → List ℕ → ℕ → List ℕ → List ℕ → Type 0
  Result offset size ptrs i buf out =
      (buf' : List ℕ) × (read_blocks drv scratch (with_buf e buf) offset size ptrs i out ≡ (
        with_buf e buf',
        wanted offset size (i * e.block_size) out (blocks_at e sector (until_zero ptrs)),
      ))

  ends :
      (offset size i : ℕ) (buf out : List ℕ)
      → read_blocks drv scratch (with_buf e buf) offset size [] i out ≡ (with_buf e buf, out)
  unfolding read_blocks
  ends offset size i buf out = refl

  listed :
      (offset size ptr i : ℕ) (ptrs out : List ℕ)
      → (ptr == 0) ≡ false
      → wanted offset size (i * e.block_size) out (blocks_at e sector (until_zero (ptr ∷ ptrs)))
        ≡ wanted offset size
            (i * e.block_size)
            out
            (block_at e sector ptr ∷ blocks_at e sector (until_zero ptrs))
  listed offset size ptr i ptrs out ptr_ok =
      ap (λ l. wanted offset size (i * e.block_size) out (blocks_at e sector l))
        (until_zero_go ptr ptrs ptr_ok)

  pub block_length :
      (offset size ptr : ℕ)
      → Holds drv e.disk sector
      → Sized e offset size
      → length (block_at e sector ptr) ≡ e.block_size
  block_length offset size ptr holds sized =
      length-sectors_at sector (e.part_start_lba + ptr * (e.block_size / 512)) (e.block_size / 512)
        holds.whole
      ∙ sized.by_sectors

  shifted :
      (offset n size i pos : ℕ)
      → pos ≡ i * e.block_size + e.block_size
      → (pos ≤ offset + n) ⊎ (n ≡ size)
      → ((i + 1) * e.block_size ≤ offset + n) ⊎ (n ≡ size)
  shifted offset n size i pos at (inl h) = inl (omega (arith, next_start i e.block_size))
  shifted offset n size i pos at (inr h) = inr h

  pub read_blocks-content :
      (offset size : ℕ) (ptrs : List ℕ) (i : ℕ) (buf out : List ℕ)
      → Holds drv e.disk sector
      → Sized e offset size
      → (i * e.block_size ≤ offset + length out) ⊎ (length out ≡ size)
      → length out ≤ size
      → Result offset size ptrs i buf out
  read_blocks-content offset size [] i buf out holds sized inv in_size = (
    buf,
    ends offset size i buf out
        ∙ ap (λ q. (with_buf e buf, q))
            (sym (
              ap (λ l. wanted offset size (i * e.block_size) out (blocks_at e sector l))
                until_zero_none
              ∙ wanted_nil offset size (i * e.block_size) out)),
  )
  read_blocks-content offset size (ptr ∷ ptrs) i buf out holds sized inv in_size =
      elim (Bool-cases (ptr == 0)) [
        | inl zero_ptr ↦ (
          buf,
          stops offset size ptr i ptrs buf out (ground arith)
              ∙ ap (λ q. (with_buf e buf, q))
                  (sym (
                    ap (λ l. wanted offset size (i * e.block_size) out (blocks_at e sector l))
                      (until_zero_stop ptr ptrs zero_ptr)
                    ∙ wanted_nil offset size (i * e.block_size) out)),
        )
        | inr ptr_ok ↦ elim (dec_lt (length out) size) [
          | no full ↦ (
            buf,
            stops offset size ptr i ptrs buf out (ground arith)
                ∙ ap (λ q. (with_buf e buf, q))
                    (sym (
                      wanted_full offset size (i * e.block_size) out
                        (blocks_at e sector (until_zero (ptr ∷ ptrs))) (omega arith))),
          )
          | yes more ↦ elim (dec_le (i * e.block_size + e.block_size) offset) [
            | yes past ↦
                let (buf', rest) =
                  read_blocks-content offset size ptrs (i + 1) buf out holds sized
                    (inl (omega (arith, next_start i e.block_size))) in_size in
                (
                  buf',
                  skips offset size ptr i ptrs buf out (ground arith) (ground arith)
                      ∙ rest
                      ∙ ap (λ q. (with_buf e buf', q))
                          (sym (
                            listed offset size ptr i ptrs out ptr_ok
                            ∙ wanted_skip offset size (i * e.block_size) e.block_size out
                                (block_at e sector ptr) (blocks_at e sector (until_zero ptrs))
                                (block_length offset size ptr holds sized) past
                            ∙ ap
                                (λ n.
                                  wanted offset size n out (blocks_at e sector (until_zero ptrs)))
                                (sym (next_start i e.block_size)))),
                )
            | no meets ↦
                let r =
                  round_lem e.block_size size offset (i * e.block_size) out (block_at e sector ptr)
                    (concat (blocks_at e sector (until_zero ptrs)))
                    (block_length offset size ptr holds sized) (omega arith) more sized.some_byte
                    (omega (arith, sized.room))
                    (near (i * e.block_size) offset (length out) size inv more) in
                let (buf', rest) =
                  read_blocks-content offset size ptrs (i + 1) (block_at e sector ptr) _ holds sized
                    (shifted offset _ size i _ refl r.grows) r.inside in
                (
                  buf',
                  goes offset size ptr i ptrs buf out holds (ground arith) (ground arith)
                      ∙ rest
                      ∙ ap (λ q. (with_buf e buf', q))
                          (ap
                              (λ n.
                                wanted offset size n
                                  (out
                                    ++ part (block_at e sector ptr)
                                        (part_start offset (i * e.block_size))
                                        (part_end e.block_size size (length out)
                                          (part_start offset (i * e.block_size))))
                                  (blocks_at e sector (until_zero ptrs)))
                              (next_start i e.block_size)
                            ∙ sym r.taken
                            ∙ sym (listed offset size ptr i ptrs out ptr_ok)),
                )
          ]
        ]
      ]
