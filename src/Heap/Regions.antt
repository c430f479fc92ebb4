-- ===== src/Heap/Regions.antt =====
-- The payloads in use in a row of blocks, and how first fit changes them.
use next_os.Prelude.{
  ℕ, suc, ◌+◌, ◌-◌, ◌≤◌, ◌<◌, ◌≡◌, refl, inl, inr, true, false, ◌&&◌, Option, none, some, List, [],
  ◌∷◌, arith, leb, ◌==◌, if◌then◌else◌, length, Bool-cases,
}
use next_os.Heap.Blocks.{Block, extent, split, keep, place, in_use}

-- No payload starts in front of the first one.
pub in_use-below : (q lo : ℕ) (bs : List Block) → q < lo + 24 → in_use q lo bs ≡ none
unfolding in_use
in_use-below q lo [] h = refl
in_use-below q lo (b ∷ bs) h = ground (arith, in_use-below q (lo + 24 + b.size) bs)

-- A payload in use lies between the row's ends.
pub in_use-within :
    (q s lo : ℕ) (bs : List Block)
    → in_use q lo bs ≡ some s
    → (lo + 24 ≤ q) × (q + s ≤ lo + extent bs)
unfolding in_use
in_use-within q s lo [] e = cc
in_use-within q s lo (b ∷ bs) e = ground (arith, in_use-within q s (lo + 24 + b.size) bs)

-- Two payloads in use do not overlap, and a header lies between them.
pub in_use-disjoint :
    (q s r t lo : ℕ) (bs : List Block)
    → in_use q lo bs ≡ some s
    → in_use r lo bs ≡ some t
    → q < r
    → q + s + 24 ≤ r
unfolding in_use
in_use-disjoint q s r t lo [] e f lt = cc
in_use-disjoint q s r t lo (b ∷ bs) e f lt = ground (
  arith,
  in_use-disjoint q s r t (lo + 24 + b.size) bs,
  in_use-within r t (lo + 24 + b.size) bs,
  in_use-within q s (lo + 24 + b.size) bs,
)

-- No block can take `n` bytes.
abbrev pub NoFit : ℕ → List Block → Type 0
NoFit n [] = Unit
NoFit n (b ∷ bs) = ((b.free && leb n b.size) ≡ false) × NoFit n bs

-- One payload more is in use, of at least `n` bytes; all others are as before.
pub record Gains (n a lo : ℕ) (bs cs : List Block) : Type 0 where
  pub size : ℕ
  pub enough : n ≤ size
  pub behind : lo + 24 ≤ a
  pub same_extent : extent cs ≡ extent bs
  pub longer : length cs ≤ suc (length bs)
  pub fresh : in_use a lo bs ≡ none
  pub regions : (q : ℕ) → in_use q lo cs ≡ (if a == q then some size else in_use q lo bs)

abbrev pub Fits : ℕ → ℕ → List Block → Option (ℕ × List Block) → Type 0
Fits n lo bs none = NoFit n bs
Fits n lo bs (some (a, cs)) = Gains n a lo bs cs

split-Gains :
    (n lo : ℕ) (b : Block) (bs : List Block)
    → (b.free && leb n b.size) ≡ true
    → Gains n (lo + 24) lo (b ∷ bs) (split n b bs)
unfolding in_use
split-Gains n lo b bs fit = elim (Bool-cases (leb (n + 40) b.size)) [
  | inl roomy ↦
      let end : lo + 24 + n + 24 + (b.size - n - 24) ≡ lo + 24 + b.size = ground arith in
      rw roomy (record {
        size = n;
        enough = omega arith;
        behind = omega arith;
        same_extent = ground arith;
        longer = omega arith;
        fresh = ground arith;
        regions = λ q. rw end (ground (arith, in_use-below q (lo + 24 + b.size) bs));
      })
  | inr tight ↦ rw tight (record {
    size = b.size;
    enough = ground arith;
    behind = omega arith;
    same_extent = refl;
    longer = omega arith;
    fresh = ground arith;
    regions = λ q. ground arith;
  })
]

keep-Fits :
    (n lo : ℕ) (b : Block) (bs : List Block) (o : Option (ℕ × List Block))
    → (b.free && leb n b.size) ≡ false
    → Fits n (lo + 24 + b.size) bs o
    → Fits n lo (b ∷ bs) (keep b o)
unfolding in_use
keep-Fits n lo b bs none miss f = (miss, f)
keep-Fits n lo b bs (some (a, cs)) miss g = record {
  size = g.size;
  enough = g.enough;
  behind = omega (arith, g.behind);
  same_extent = omega (arith, g.same_extent);
  longer = omega (arith, g.longer);
  fresh = ground (arith, g.behind, g.fresh);
  regions = λ q. ground (arith, g.behind, g.regions q);
}

-- First fit either finds that no block is large enough or gains one payload.
pub place-Fits : (n lo : ℕ) (bs : List Block) → Fits n lo bs (place n lo bs)
unfolding place
place-Fits n lo [] = tt
place-Fits n lo (b ∷ bs) = elim (Bool-cases (b.free && leb n b.size)) [
  | inl fit ↦ rw fit (split-Gains n lo b bs fit)
  | inr miss ↦ rw miss (
      keep-Fits n lo b bs (place n (lo + 24 + b.size) bs) miss (place-Fits n (lo + 24 + b.size) bs))
]
