-- ===== src/Heap/Layout.antt =====
-- A heap that holds a given row of blocks, and what keeps it so.
use next_os.Prelude.{ℕ, ◌+◌, ◌-◌, ◌≤◌, ◌≡◌, refl, ◌≢◌, some, List, [], ◌∷◌, arith}
use mathlib.Core.Path.{subst}
use next_os.Heap.{Header, Heap, write_header}
use native.Mathlib.Decide.{ℕ_discrete}
use next_os.Heap.Blocks.{Block, extent, in_use}

-- The headers `hs` from the pointer `p` on are those of the blocks `bs`, which fill the addresses
-- from `lo` to `hi`.
abbrev pub Layout : (ℕ → Header) → ℕ → ℕ → ℕ → List Block → Type 0
Layout hs p lo hi [] = (p ≡ 0) × (lo ≡ hi)
Layout hs p lo hi (b ∷ bs) =
    (p ≡ lo)
    × ((hs lo).size ≡ b.size)
    × ((hs lo).free ≡ b.free)
    × Layout hs (hs lo).next (lo + 24 + b.size) hi bs

pub Layout-le : (hs : ℕ → Header) (p lo hi : ℕ) (bs : List Block) → Layout hs p lo hi bs → lo ≤ hi
Layout-le hs p lo hi [] l = omega arith
Layout-le hs p lo hi (b ∷ bs) l =
    omega (arith, Layout-le hs (hs lo).next (lo + 24 + b.size) hi bs l.3)

-- Headers in front of the row do not matter.
pub Layout-frame :
    (hs gs : ℕ → Header) (p lo hi : ℕ) (bs : List Block)
    → ((a : ℕ) → lo ≤ a → gs a ≡ hs a)
    → Layout hs p lo hi bs
    → Layout gs p lo hi bs
Layout-frame hs gs p lo hi [] same l = l
Layout-frame hs gs p lo hi (b ∷ bs) same l = rw (same lo (omega arith)) (
  l.0,
  l.1,
  l.2,
  Layout-frame hs gs (hs lo).next (lo + 24 + b.size) hi bs (λ a h. same a (omega arith)) l.3,
)

-- A block is put in front of a row by its header.
pub Layout-cons :
    (hs : ℕ → Header) (lo mid hi : ℕ) (b : Block) (bs : List Block) (v : Header)
    → hs lo ≡ v
    → v.size ≡ b.size
    → v.free ≡ b.free
    → mid ≡ lo + 24 + b.size
    → Layout hs v.next mid hi bs
    → Layout hs lo lo hi (b ∷ bs)
Layout-cons hs lo mid hi b bs v e size free end l =
    rw e (refl, size, free, subst (λ m. Layout hs v.next m hi bs) end l)

pub header-write_header : (h : Heap) (a : ℕ) (v : Header) → (write_header h a v).headers a ≡ v
unfolding write_header
header-write_header h a v = ground arith

pub header-write_header_ne :
    (h : Heap) (a x : ℕ) (v : Header) → a ≢ x → (write_header h a v).headers x ≡ h.headers x
unfolding write_header
header-write_header_ne h a x v ne = ground arith

-- A row fills the addresses between its ends.
pub Layout-extent :
    (hs : ℕ → Header) (p lo hi : ℕ) (bs : List Block) → Layout hs p lo hi bs → lo + extent bs ≡ hi
Layout-extent hs p lo hi [] l = omega arith
Layout-extent hs p lo hi (b ∷ bs) l =
    omega (arith, Layout-extent hs (hs lo).next (lo + 24 + b.size) hi bs l.3)

-- The header in front of a payload in use holds its size.
pub size-in_use :
    (hs : ℕ → Header) (q s p lo hi : ℕ) (bs : List Block)
    → Layout hs p lo hi bs
    → in_use q lo bs ≡ some s
    → (hs (q - 24)).size ≡ s
unfolding in_use
size-in_use hs q s p lo hi [] l e = cc
size-in_use hs q s p lo hi (b ∷ bs) l e = elim (ℕ_discrete (lo + 24) q) [
  | yes same ↦ let here : q - 24 ≡ lo = omega arith in rw (here, l.1) (ground arith)
  | no ne ↦ size-in_use hs q s (hs lo).next (lo + 24 + b.size) hi bs l.3 (ground arith)
]
