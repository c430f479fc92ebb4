-- ===== src/Pmm/Alloc.antt =====
-- What `pmm_alloc_page` returns and writes: the lowest free page, or 0 when every page is used.
use next_os.Prelude.{
  ℕ, zero, suc, ◌+◌, ◌*◌, ◌/◌, ◌%◌, ◌^◌, ◌≤◌, ◌<◌, bit_and, bit_or, ◌≡◌, refl, ◌⊎◌, inl, inr, ap,
  List, Option, none, some, false, arith, ◌==◌, if◌then◌else◌, get_or, set, length-set, get_or_past,
  Bool-cases, ==_iff, ◌∙◌,
}
use native.Mathlib.Decide.{ℕ_discrete, dec_lt}
use next_os.Prelude.Bits.{bit_at, bit_at-le, all_ones}
use next_os.Prelude.Words.{word_mod, bit_and-pow_eq_zero}
use next_os.Pmm.{Pmm, page_size, all_used, find_bit, find_page, alloc_page}
use next_os.Pmm.Words.{used, used_at, IsValid, IsWords, bit_at-all_used, used-mark, IsWords-mark}

-- The bits of `w` from `lo` to `hi` are set.
abbrev BitsSet : ℕ → ℕ → ℕ → Type 0
BitsSet w lo hi = (k : ℕ) → lo ≤ k → k < hi → bit_at w k ≡ 1

BitsSet-cons : (w lo hi : ℕ) → bit_at w lo ≡ 1 → BitsSet w (lo + 1) hi → BitsSet w lo hi
BitsSet-cons w lo hi e rest k p q = elim (ℕ_discrete lo k) [
  | yes same ↦ rw (← same) e
  | no ne ↦ rest k (omega arith) q
]

-- How a search for a clear bit from `lo` to `hi` ends.
abbrev BitSearch : ℕ → ℕ → ℕ → Option ℕ → Type 0
BitSearch w lo hi r =
    ((r ≡ none) × BitsSet w lo hi)
    ⊎ ((b : ℕ) × (r ≡ some b) × (lo ≤ b) × (b < hi) × (bit_at w b ≡ 0) × BitsSet w lo b)

find_bit-BitSearch : (n lo hi w : ℕ) → lo + n ≡ hi → BitSearch w lo hi (find_bit n lo w)
unfolding find_bit
find_bit-BitSearch zero lo hi w e = inl (refl, λ k p q. absurd (omega arith))
find_bit-BitSearch (suc n) lo hi w e = elim (ℕ_discrete (bit_at w lo) 0) [
  | yes clear ↦ inr (
    lo,
    ground (arith, bit_and-pow_eq_zero lo w),
    omega arith,
    omega arith,
    clear,
    λ k p q. absurd (omega arith),
  )
  | no ne ↦
      let skips : (bit_and w (2 ^ lo) == 0) ≡ false = ground (arith, bit_and-pow_eq_zero lo w) in
      let one : bit_at w lo ≡ 1 = omega (arith, bit_at-le w lo) in
      elim (find_bit-BitSearch n (lo + 1) hi w (omega arith)) [
        | inl (r, all) ↦ inl (rw skips r, BitsSet-cons w lo hi one all)
        | inr (b, r, p, q, c, all) ↦
            inr (b, rw skips r, omega arith, q, c, BitsSet-cons w lo b one all)
      ]
]

-- The pages from `lo` to `hi` are used.
abbrev pub PagesUsed : List ℕ → ℕ → ℕ → Type 0
PagesUsed bitmap lo hi = (p : ℕ) → lo ≤ p → p < hi → used bitmap p ≡ 1

abbrev PageSearch : List ℕ → ℕ → ℕ → Option (ℕ × ℕ) → Type 0
PageSearch bitmap i j r =
    ((r ≡ none) × PagesUsed bitmap (i * 64) (j * 64))
    ⊎ ((w : ℕ) × (b : ℕ) × (r ≡ some (w, b))
        × (w < j)
        × (b < 64)
        × (used bitmap (w * 64 + b) ≡ 0)
        × PagesUsed bitmap (i * 64) (w * 64 + b))

-- Behind a full word the search goes on.
PagesUsed-cons :
    (bitmap : List ℕ) (i hi : ℕ)
    → BitsSet (get_or bitmap i all_used) 0 64
    → PagesUsed bitmap ((i + 1) * 64) hi
    → PagesUsed bitmap (i * 64) hi
PagesUsed-cons bitmap i hi full rest p lo lt = elim (ℕ_discrete i (p / 64)) [
  | yes same ↦ rw (← same) (full (p % 64) (omega arith) (omega arith))
  | no ne ↦ rest p (omega arith) lt
]

PageSearch-cons :
    (bitmap : List ℕ) (i j : ℕ) (r : Option (ℕ × ℕ))
    → BitsSet (get_or bitmap i all_used) 0 64
    → PageSearch bitmap (i + 1) j r
    → PageSearch bitmap i j r
PageSearch-cons bitmap i j r full (inl (e, rest)) =
    inl (e, PagesUsed-cons bitmap i (j * 64) full rest)
PageSearch-cons bitmap i j r full (inr (w, b, e, p, q, c, rest)) =
    inr (w, b, e, p, q, c, PagesUsed-cons bitmap i (w * 64 + b) full rest)

-- A word with a clear bit ends the search.
PageSearch-found :
    (bitmap : List ℕ) (i j b : ℕ)
    → i < j
    → b < 64
    → bit_at (get_or bitmap i all_used) b ≡ 0
    → BitsSet (get_or bitmap i all_used) 0 b
    → PageSearch bitmap i j (some (i, b))
PageSearch-found bitmap i j b p q clear set_below =
    inr (i, b, refl, p, q, used_at bitmap i b q ∙ clear, λ k lo lt. below k lo lt)
  where
    below : (k : ℕ) → i * 64 ≤ k → k < i * 64 + b → used bitmap k ≡ 1
    below k lo lt =
        let same : i ≡ k / 64 = omega arith in
        rw (← same) (set_below (k % 64) (omega arith) (omega arith))

find_page-PageSearch :
    (n i j : ℕ) (bitmap : List ℕ)
    → IsWords bitmap
    → i + n ≡ j
    → PageSearch bitmap i j (find_page n i bitmap)
unfolding find_page
find_page-PageSearch zero i j bitmap ws e = inl (refl, λ p lo lt. absurd (omega arith))
find_page-PageSearch (suc n) i j bitmap ws e =
    let word = get_or bitmap i all_used in
    let ih = find_page-PageSearch n (i + 1) j bitmap ws (omega arith) in
    elim (Bool-cases (word == all_used)) [
      | inl full ↦
          let same : word ≡ all_used = (==_iff word all_used).0 full in
          rw full (
            PageSearch-cons bitmap i j (find_page n (i + 1) bitmap)
              (λ k lo lt. ap (λ (t : ℕ). bit_at t k) same ∙ bit_at-all_used k lt) ih)
      | inr more ↦ elim (find_bit-BitSearch 64 0 64 word refl) [
        | inl (r, all) ↦
            absurd (not_full word more (all_ones 64 word (ws i) (λ k lt. all k (omega arith) lt)))
        | inr (b, r, lo, hi, clear, all) ↦
            rw (more, r) (PageSearch-found bitmap i j b (omega arith) hi clear all)
      ]
    ]
  where
    not_full : (w : ℕ) → (w == all_used) ≡ false → w ≡ all_used → ⊥
    not_full w no_match same = ground arith

-- What a successful call did: page `k` was the lowest free one, its address is returned, and it
-- alone changed hands.
pub record Allocated (p q : Pmm) (page k : ℕ) : Type 0 where
  pub address : page ≡ k * page_size
  pub in_memory : k < p.total_pages
  pub not_null : 0 < k
  pub was_free : used p.bitmap k ≡ 0
  pub lowest : PagesUsed p.bitmap 0 k
  pub marks : (j : ℕ) → used q.bitmap j ≡ (if k == j then 1 else used p.bitmap j)
  pub same_total : q.total_pages ≡ p.total_pages
  pub valid : IsValid q

mark-IsValid :
    (p : Pmm) (i b : ℕ)
    → IsValid p
    → i < p.bitmap_size
    → b < 64
    → IsValid (record p { bitmap = set p.bitmap i (bit_or (get_or p.bitmap i all_used) (2 ^ b)) })
mark-IsValid p i b v hi hb = record {
  sized = length-set p.bitmap i _ ∙ v.sized;
  words = IsWords-mark p.bitmap i b (omega (arith, v.sized)) hb v.words;
  fits = v.fits;
  covers = v.covers;
  null_page = kept 0 v.null_page;
  behind = λ k le. kept k (v.behind k le);
}
  where
    kept :
        (k : ℕ)
        → used p.bitmap k ≡ 1
        → used (set p.bitmap i (bit_or (get_or p.bitmap i all_used) (2 ^ b))) k ≡ 1
    kept k e = rw (used-mark p.bitmap i b k (omega (arith, v.sized)) hb) (ground arith)

zero≢one : (x : ℕ) → x ≡ 0 → x ≡ 1 → ⊥
zero≢one x a b = omega arith

mark-Allocated :
    (p : Pmm) (i b : ℕ)
    → IsValid p
    → i < p.bitmap_size
    → b < 64
    → used p.bitmap (i * 64 + b) ≡ 0
    → PagesUsed p.bitmap 0 (i * 64 + b)
    → Allocated p
        (record p { bitmap = set p.bitmap i (bit_or (get_or p.bitmap i all_used) (2 ^ b)) })
        ((i * 64 + b) * page_size % word_mod)
        (i * 64 + b)
mark-Allocated p i b v hi hb clear lowest = record {
  address = omega (arith, v.fits);
  in_memory = elim (dec_lt (i * 64 + b) p.total_pages) [
    | yes lt ↦ lt
    | no le ↦
        absurd (zero≢one (used p.bitmap (i * 64 + b)) clear (v.behind (i * 64 + b) (omega arith)))
  ];
  not_null = elim (ℕ_discrete (i * 64 + b) 0) [
    | yes e ↦ absurd (zero≢one (used p.bitmap (i * 64 + b)) clear (rw e v.null_page))
    | no ne ↦ omega arith
  ];
  was_free = clear;
  lowest = lowest;
  marks = λ j. used-mark p.bitmap i b j (omega (arith, v.sized)) hb;
  same_total = refl;
  valid = mark-IsValid p i b v hi hb;
}

all_used_lem :
    (p : Pmm)
    → IsValid p
    → PagesUsed p.bitmap 0 (p.bitmap_size * 64)
    → (k : ℕ) → used p.bitmap k ≡ 1
all_used_lem p v all k = elim (dec_lt k (p.bitmap_size * 64)) [
  | yes lt ↦ all k (omega arith) lt
  | no le ↦
      rw (get_or_past p.bitmap (k / 64) all_used (omega (arith, v.sized)))
        (bit_at-all_used (k % 64) (omega arith))
]

-- `pmm_alloc_page` on a valid state either returns 0, and then every page is used and nothing is
-- written, or takes the lowest free page, which is in memory and not page 0.
pub alloc_page-cases :
    (p : Pmm)
    → IsValid p
    → ((alloc_page p ≡ (p, 0)) × ((k : ℕ) → used p.bitmap k ≡ 1))
      ⊎ ((k : ℕ) × Allocated p (alloc_page p).0 (alloc_page p).1 k)
unfolding alloc_page
alloc_page-cases p v =
    elim (find_page-PageSearch p.bitmap_size 0 p.bitmap_size p.bitmap v.words (omega arith)) [
      | inl (e, all) ↦ inl (rw (e, alloc_page), all_used_lem p v all)
      | inr (w, b, e, hw, hb, clear, all) ↦ inr (
        w * 64 + b,
        rw (e, alloc_page) (mark-Allocated p w b v hw hb clear (λ k lo lt. all k (omega arith) lt)),
      )
    ]
