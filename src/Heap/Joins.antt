-- ===== src/Heap/Joins.antt =====
-- Giving back a payload and joining free blocks, on the row of blocks.
use next_os.Prelude.{
  ℕ, suc, ◌+◌, ◌≤◌, ◌≡◌, refl, ap, ◌∙◌, inl, inr, Bool, false, ◌&&◌, none, List, [], ◌∷◌, arith,
  ◌==◌, if◌then◌else◌, length, Bool-cases,
}
use next_os.Heap.Blocks.{Block, release, join, in_use}
use next_os.Heap.Regions.{in_use-below}

-- Only the payload at `ptr` goes out of use.
pub in_use-release :
    (ptr q lo : ℕ) (bs : List Block)
    → in_use q lo (release ptr lo bs) ≡ (if ptr == q then none else in_use q lo bs)
unfolding in_use release
in_use-release ptr q lo [] = ground arith
in_use-release ptr q lo (b ∷ bs) = elim (Bool-cases (lo + 24 == ptr)) [
  | inl e ↦ rw e (
      ground
        (arith, in_use-release ptr q (lo + 24 + b.size) bs, in_use-below ptr (lo + 24 + b.size) bs))
  | inr e ↦ rw e (ground (arith, in_use-release ptr q (lo + 24 + b.size) bs))
]

pub length-release : (ptr lo : ℕ) (bs : List Block) → length (release ptr lo bs) ≡ length bs
unfolding release
length-release ptr lo [] = refl
length-release ptr lo (b ∷ bs) = ap suc (length-release ptr (lo + 24 + b.size) bs)

-- Joining free blocks touches no payload in use.
pub in_use-join :
    (q lo : ℕ) (b : Block) (bs : List Block) → in_use q lo (join b bs) ≡ in_use q lo (b ∷ bs)
unfolding in_use join
in_use-join q lo b [] = refl
in_use-join q lo b (c ∷ cs) = elim (Bool-cases (b.free && c.free)) [
  | inl both ↦
      let merged : Block = record b { size = b.size + (24 + c.size) } in
      let end : lo + 24 + (b.size + (24 + c.size)) ≡ lo + 24 + b.size + 24 + c.size = omega arith in
      rw both (
        in_use-join q lo merged cs
        ∙ rw end (ground (arith, in_use-below q (lo + 24 + b.size + 24 + c.size) cs)))
  | inr apart ↦ rw apart (ground (arith, in_use-join q (lo + 24 + b.size) c cs))
]

-- No block of the row is free beside a free one; `f` says whether the block in front is free.
abbrev pub Apart : Bool → List Block → Type 0
Apart f [] = Unit
Apart f (b ∷ bs) = ((f && b.free) ≡ false) × Apart b.free bs

pub join-Apart :
    (f : Bool) (b : Block) (bs : List Block) → (f && b.free) ≡ false → Apart f (join b bs)
unfolding join
join-Apart f b [] e = (e, tt)
join-Apart f b (c ∷ cs) e = elim (Bool-cases (b.free && c.free)) [
  | inl both ↦ rw both (join-Apart f (record b { size = b.size + (24 + c.size) }) cs e)
  | inr apart ↦ rw apart (e, join-Apart b.free c cs apart)
]

pub length-join : (b : Block) (bs : List Block) → length (join b bs) ≤ suc (length bs)
unfolding join
length-join b [] = omega arith
length-join b (c ∷ cs) =
    ground (arith, length-join (record b { size = b.size + (24 + c.size) }) cs, length-join c cs)
