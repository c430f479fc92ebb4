-- ===== src/Pmm.antt =====
-- kernel/mem/pmm.c, the physical memory manager: one bit for each page, 1 for a page in use.
-- The words of the bitmap are a list; an access behind its end, which C leaves undefined, is
-- `none`.
pub mod Words
pub mod Alloc
pub mod Free
pub mod Init
pub mod Safety
mod Tests
use next_os.Prelude.{
  ℕ, zero, suc, ◌+◌, ◌-◌, ◌*◌, ◌/◌, ◌%◌, ◌^◌, bit_and, bit_or, Option, none, some, List, ltb, ◌==◌,
  if◌then◌else◌, get_or, set,
}
use next_os.Prelude.Words.{word_mod, not64}

abbrev pub page_size : ℕ
page_size = 4096

-- 0xFFFFFFFFFFFFFFFF, 64 pages in use
abbrev pub all_used : ℕ
all_used = 0xffff_ffff_ffff_ffff

pub record Pmm : Type 0 where
  pub bitmap : List ℕ
  pub total_pages : ℕ
  pub bitmap_size : ℕ

-- `(x + PAGE_SIZE - 1) & ~(PAGE_SIZE - 1)`
pub page_align : ℕ → ℕ
page_align x = bit_and ((x + page_size - 1) % word_mod) (not64 (page_size - 1))

-- The first loop of `pmm_init`, with `n` rounds left at index `i`.
pub mark_all : ℕ → ℕ → List ℕ → List ℕ
mark_all zero i bitmap = bitmap
mark_all (suc n) i bitmap = mark_all n (i + 1) (set bitmap i all_used)

-- `bitmap[p / 64] &= ~(1ULL << (p % 64))`
pub clear_page : List ℕ → ℕ → List ℕ
clear_page bitmap p =
    set bitmap (p / 64) (bit_and (get_or bitmap (p / 64) all_used) (not64 (2 ^ (p % 64))))

-- The second loop of `pmm_init`, with `n` rounds left at page `i`.
pub release_from : ℕ → ℕ → List ℕ → List ℕ
release_from zero i bitmap = bitmap
release_from (suc n) i bitmap = release_from n (i + 1) (clear_page bitmap i)

-- The first page behind the kernel, which ends at the address `kernel_end`, and the bitmap.
pub first_free_page : ℕ → ℕ → ℕ
first_free_page kernel_end bitmap_size =
    page_align ((page_align kernel_end + bitmap_size * 8 % word_mod) % word_mod) / page_size

-- `pmm_init`; `memory` is what the words at the bitmap's place held before.
pub init : ℕ → List ℕ → ℕ → Pmm
init kernel_end memory mem_size =
    let total_pages = mem_size / page_size in
    let bitmap_size = (total_pages + 63) / 64 in
    let first_free = first_free_page kernel_end bitmap_size in
    record {
      bitmap = release_from (total_pages - first_free) first_free (mark_all bitmap_size 0 memory);
      total_pages = total_pages;
      bitmap_size = bitmap_size;
    }

-- The inner loop of `pmm_alloc_page`: a clear bit of a word, from `bit` on.
pub find_bit : ℕ → ℕ → ℕ → Option ℕ
find_bit zero bit word = none
find_bit (suc n) bit word =
    let rest = find_bit n (bit + 1) word in if bit_and word (2 ^ bit) == 0 then some bit else rest

-- The outer loop: the indices of the first word with a clear bit and of that bit, from `i` on.
pub find_page : ℕ → ℕ → List ℕ → Option (ℕ × ℕ)
find_page zero i bitmap = none
find_page (suc n) i bitmap =
    let rest = find_page n (i + 1) bitmap in
    let word = get_or bitmap i all_used in
    if word == all_used
    then rest
    else elim (find_bit 64 0 word) [ none ↦ rest | some bit ↦ some (i, bit) ]

-- `pmm_alloc_page`: the address of the page, 0 if there is none.
pub alloc_page : Pmm → Pmm × ℕ
alloc_page p = elim (find_page p.bitmap_size 0 p.bitmap) [
  | none ↦ (p, 0)
  | some (i, bit) ↦ (
    record p { bitmap = set p.bitmap i (bit_or (get_or p.bitmap i all_used) (2 ^ bit)) },
    (i * 64 + bit) * page_size % word_mod,
  )
]

-- `pmm_free_page`; `none` if the page's word lies behind the bitmap.
pub free_page : Pmm → ℕ → Option Pmm
free_page p page =
    let i = page / page_size in
    if ltb (i / 64) p.bitmap_size then some (record p { bitmap = clear_page p.bitmap i }) else none
