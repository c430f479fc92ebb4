-- ===== src/Heap/Blocks.antt =====
-- The heap as its clients see it: a row of blocks, each with the size of its payload and whether it
-- is free. A block's header stands in front of its payload.
use next_os.Prelude.{
  ℕ, ◌+◌, ◌-◌, Bool, true, false, ◌&&◌, Option, none, some, List, [], ◌∷◌, leb, ◌==◌, if◌then◌else◌,
}

pub record Block : Type 0 where
  pub size : ℕ
  pub free : Bool

-- The bytes that a row of blocks takes up.
abbrev pub extent : List Block → ℕ
extent [] = 0
extent (b ∷ bs) = 24 + b.size + extent bs

-- The block for `n` bytes and what is left of `b`, if that is worth a block.
abbrev pub split : ℕ → Block → List Block → List Block
split n b bs =
    if leb (n + 40) b.size
    then record { size = n; free = false } ∷ record { size = b.size - n - 24; free = true } ∷ bs
    else record { size = b.size; free = false } ∷ bs

abbrev pub keep : Block → Option (ℕ × List Block) → Option (ℕ × List Block)
keep b none = none
keep b (some (a, bs)) = some (a, b ∷ bs)

-- First fit: the payload's address and the row after the call; the row begins at `lo`.
unfoldable pub place : ℕ → ℕ → List Block → Option (ℕ × List Block)
place n lo [] = none
place n lo (b ∷ bs) =
    if b.free && leb n b.size
    then some (lo + 24, split n b bs)
    else keep b (place n (lo + 24 + b.size) bs)

-- Give back the payload at `ptr`.
unfoldable pub release : ℕ → ℕ → List Block → List Block
release ptr lo [] = []
release ptr lo (b ∷ bs) =
    (if lo + 24 == ptr then record b { free = true } else b) ∷ release ptr (lo + 24 + b.size) bs

-- Join a block with the free blocks behind it, and so on along the row.
unfoldable pub join : Block → List Block → List Block
join b [] = b ∷ []
join b (c ∷ cs) =
    let merged = join (record b { size = b.size + (24 + c.size) }) cs in
    let along = b ∷ join c cs in if b.free && c.free then merged else along

unfoldable pub join_all : List Block → List Block
join_all [] = []
join_all (b ∷ bs) = join b bs

-- The size of the payload at `ptr`, if it is in use.
unfoldable pub in_use : ℕ → ℕ → List Block → Option ℕ
in_use ptr lo [] = none
in_use ptr lo (b ∷ bs) =
    let rest = in_use ptr (lo + 24 + b.size) bs in
    if lo + 24 == ptr then (if b.free then none else some b.size) else rest
