-- ===== src/Pmm/Words.antt =====
-- The pages that a bitmap marks as used, under the two writes to a word.
use next_os.Prelude.{
  ℕ, ◌≤◌, ◌+◌, ◌*◌, ◌/◌, ◌%◌, ◌^◌, ◌<◌, bit_and, bit_or, ◌≡◌, ap, List, arith, ◌==◌, if◌then◌else◌,
  length, get_or, set, length-set, get_or-set_self, get_or-set_ne,
}
use native.Mathlib.Decide.{ℕ_discrete}
use next_os.Prelude.Bits.{bit_at, bit_at-not, bit_at-zero}
use next_os.Prelude.Words.{word_mod, not64, bit_at-set, bit_at-clear, bit_or-lt, bit_and-lt, pow-lt}
use next_os.Pmm.{Pmm, page_size, all_used, clear_page}

-- 1 if page `p` is in use; a page behind the bitmap is.
abbrev pub used : List ℕ → ℕ → ℕ
used bitmap p = bit_at (get_or bitmap (p / 64) all_used) (p % 64)

abbrev pub IsWords : List ℕ → Type 0
IsWords bitmap = (i : ℕ) → get_or bitmap i all_used < word_mod

pub bit_at-all_used : (k : ℕ) → k < 64 → bit_at all_used k ≡ 1
bit_at-all_used k h = omega (arith, bit_at-not 64 k 0 h (omega arith), bit_at-zero k)

pub used_at :
    (bitmap : List ℕ) (i b : ℕ)
    → b < 64
    → used bitmap (i * 64 + b) ≡ bit_at (get_or bitmap i all_used) b
used_at bitmap i b h =
    let word : (i * 64 + b) / 64 ≡ i = omega arith in
    let place : (i * 64 + b) % 64 ≡ b = omega arith in rw (word, place)

pub get_or-set :
    (xs : List ℕ) (i j v d : ℕ)
    → i < length xs
    → get_or (set xs i v) j d ≡ (if i == j then v else get_or xs j d)
get_or-set xs i j v d h = elim (ℕ_discrete i j) [
  | yes e ↦ rw (← e) (ground (arith, get_or-set_self xs i v d))
  | no ne ↦ rw (get_or-set_ne xs i j v d ne) (ground arith)
]

-- A write to word `i` moves the pages of that word only.
used-set :
    (bitmap : List ℕ) (i v p : ℕ)
    → i < length bitmap
    → used (set bitmap i v) p ≡ (if i == p / 64 then bit_at v (p % 64) else used bitmap p)
used-set bitmap i v p h = rw (get_or-set bitmap i (p / 64) v all_used h) (ground arith)

-- `bitmap[i] |= 1ULL << b` marks page `i * 64 + b`.
pub used-mark :
    (bitmap : List ℕ) (i b p : ℕ)
    → i < length bitmap
    → b < 64
    → used (set bitmap i (bit_or (get_or bitmap i all_used) (2 ^ b))) p
      ≡ (if i * 64 + b == p then 1 else used bitmap p)
used-mark bitmap i b p h hb =
    rw (used-set bitmap i (bit_or (get_or bitmap i all_used) (2 ^ b)) p h)
      (elim (ℕ_discrete i (p / 64)) [
        | yes e ↦ ground (
          arith,
          bit_at-set (get_or bitmap i all_used) b (p % 64),
          ap (λ (t : ℕ). bit_at (get_or bitmap t all_used) (p % 64)) e,
        )
        | no ne ↦ ground arith
      ])

-- `clear_page` clears that page.
pub used-clear_page :
    (bitmap : List ℕ) (q p : ℕ)
    → q / 64 < length bitmap
    → used (clear_page bitmap q) p ≡ (if q == p then 0 else used bitmap p)
unfolding clear_page
used-clear_page bitmap q p h =
    let word = get_or bitmap (q / 64) all_used in
    rw (used-set bitmap (q / 64) (bit_and word (not64 (2 ^ (q % 64)))) p h)
      (elim (ℕ_discrete (q / 64) (p / 64)) [
        | yes e ↦ ground (
          arith,
          bit_at-clear word (q % 64) (p % 64),
          ap (λ (t : ℕ). bit_at (get_or bitmap t all_used) (p % 64)) e,
        )
        | no ne ↦ ground arith
      ])

IsWords-set :
    (bitmap : List ℕ) (i v : ℕ)
    → i < length bitmap
    → v < word_mod
    → IsWords bitmap
    → IsWords (set bitmap i v)
IsWords-set bitmap i v h hv ws j = rw (get_or-set bitmap i j v all_used h) (ground (arith, ws j))

pub IsWords-mark :
    (bitmap : List ℕ) (i b : ℕ)
    → i < length bitmap
    → b < 64
    → IsWords bitmap
    → IsWords (set bitmap i (bit_or (get_or bitmap i all_used) (2 ^ b)))
IsWords-mark bitmap i b h hb ws =
    IsWords-set bitmap i _ h
      (bit_or-lt 64 (get_or bitmap i all_used) (2 ^ b) (ws i) (pow-lt 64 b hb)) ws

pub IsWords-clear_page :
    (bitmap : List ℕ) (q : ℕ)
    → q / 64 < length bitmap
    → IsWords bitmap
    → IsWords (clear_page bitmap q)
unfolding clear_page
IsWords-clear_page bitmap q h ws =
    IsWords-set bitmap (q / 64) _ h
      (bit_and-lt 64 (get_or bitmap (q / 64) all_used) (not64 (2 ^ (q % 64))) (ws (q / 64))) ws

pub length-clear_page : (bitmap : List ℕ) (q : ℕ) → length (clear_page bitmap q) ≡ length bitmap
unfolding clear_page
length-clear_page bitmap q = length-set bitmap (q / 64) _

-- The state that `pmm_init` sets up and the operations keep: the bitmap has its size, its words
-- are words, every page's address fits 64 bits, page 0 and the pages behind the memory are used.
pub record IsValid (p : Pmm) : Type 0 where
  pub sized : length p.bitmap ≡ p.bitmap_size
  pub words : IsWords p.bitmap
  pub fits : p.bitmap_size * 64 * page_size ≤ word_mod
  pub covers : p.total_pages ≤ p.bitmap_size * 64
  pub null_page : used p.bitmap 0 ≡ 1
  pub behind : (k : ℕ) → p.total_pages ≤ k → used p.bitmap k ≡ 1
