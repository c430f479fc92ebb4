-- ===== src/Pmm/Init.antt =====
-- The bitmap that `pmm_init` leaves: the pages between the bitmap's end and the end of memory are
-- free, all others are used.
use next_os.Prelude.{
  ℕ, zero, suc, ◌+◌, ◌-◌, ◌*◌, ◌/◌, ◌%◌, ◌≤◌, ◌<◌, ◌≡◌, refl, ap, ◌∙◌, List, arith, ltb, leb, ◌&&◌,
  if◌then◌else◌, length, get_or, set, length-set, get_or_past,
}
use native.Mathlib.Decide.{dec_lt}
use next_os.Prelude.Bits.{bit_and_round}
use next_os.Prelude.Words.{word_mod}
use next_os.Pmm.{
  page_size, all_used, page_align, mark_all, clear_page, release_from, first_free_page, init,
}
use next_os.Pmm.Words.{
  used, IsWords, IsValid, bit_at-all_used, get_or-set, used-clear_page, IsWords-clear_page,
  length-clear_page,
}

-- Rounding up to a page, where the sum does not wrap.
page_align_lem : (x : ℕ) → x + 4095 < word_mod → page_align x ≡ (x + 4095) / 4096 * 4096
unfolding page_align
page_align_lem x h =
    let exact : (x + page_size - 1) % word_mod ≡ x + 4095 = omega arith in
    rw exact (bit_and_round 12 52 (x + 4095) (omega arith))

length-mark_all : (n i : ℕ) (bitmap : List ℕ) → length (mark_all n i bitmap) ≡ length bitmap
unfolding mark_all
length-mark_all zero i bitmap = refl
length-mark_all (suc n) i bitmap =
    length-mark_all n (i + 1) (set bitmap i all_used) ∙ length-set bitmap i all_used

-- The first loop leaves every word from `i` on with all its pages used, and those before it.
mark_all_lem :
    (n i : ℕ) (bitmap : List ℕ)
    → i + n ≡ length bitmap
    → ((j : ℕ) → j < i → get_or bitmap j all_used ≡ all_used)
    → (j : ℕ) → get_or (mark_all n i bitmap) j all_used ≡ all_used
unfolding mark_all
mark_all_lem zero i bitmap e before j = elim (dec_lt j i) [
  | yes lt ↦ before j lt
  | no ge ↦ get_or_past bitmap j all_used (omega arith)
]
mark_all_lem (suc n) i bitmap e before j =
    mark_all_lem n (i + 1) (set bitmap i all_used) (omega (arith, length-set bitmap i all_used))
      (λ k lt.
        rw (get_or-set bitmap i k all_used all_used (omega arith)) (ground (arith, before k)))
      j

length-release_from : (n i : ℕ) (bitmap : List ℕ) → length (release_from n i bitmap) ≡ length bitmap
unfolding release_from
length-release_from zero i bitmap = refl
length-release_from (suc n) i bitmap =
    length-release_from n (i + 1) (clear_page bitmap i) ∙ length-clear_page bitmap i

IsWords-release_from :
    (n i : ℕ) (bitmap : List ℕ)
    → n ≤ length bitmap * 64 - i
    → IsWords bitmap
    → IsWords (release_from n i bitmap)
unfolding release_from
IsWords-release_from zero i bitmap h ws = ws
IsWords-release_from (suc n) i bitmap h ws =
    IsWords-release_from n (i + 1) (clear_page bitmap i) (omega (arith, length-clear_page bitmap i))
      (IsWords-clear_page bitmap i (omega arith) ws)

-- The second loop frees the pages from `i` to `i + n`.
used-release_from :
    (n i : ℕ) (bitmap : List ℕ)
    → n ≤ length bitmap * 64 - i
    → (p : ℕ)
    → used (release_from n i bitmap) p ≡ (if leb i p && ltb p (i + n) then 0 else used bitmap p)
unfolding release_from
used-release_from zero i bitmap h p = ground arith
used-release_from (suc n) i bitmap h p =
    used-release_from n (i + 1) (clear_page bitmap i) (omega (arith, length-clear_page bitmap i)) p
    ∙ ground (arith, used-clear_page bitmap i p)

-- The pages that the kernel takes up, and those of the bitmap of `words` words behind it.
abbrev pub taken_pages : ℕ → ℕ → ℕ
taken_pages kernel_end words = (kernel_end + 4095) / 4096 + (words * 8 + 4095) / 4096

module _ (kernel_end : ℕ) (memory : List ℕ) (mem_size : ℕ)
    (sized : length memory ≡ (mem_size / page_size + 63) / 64) (word : mem_size < word_mod)
    (room : kernel_end + length memory * 8 + 8190 < word_mod) where
  abbrev first_free : ℕ
  first_free = first_free_page kernel_end ((mem_size / page_size + 63) / 64)

  marked : List ℕ
  marked = mark_all ((mem_size / page_size + 63) / 64) 0 memory

  length-marked : length marked ≡ (mem_size / page_size + 63) / 64
  unfolding marked
  length-marked = length-mark_all ((mem_size / page_size + 63) / 64) 0 memory ∙ sized

  words-marked : (j : ℕ) → get_or marked j all_used ≡ all_used
  unfolding marked
  words-marked =
      mark_all_lem ((mem_size / page_size + 63) / 64) 0 memory (omega (arith, sized))
        (λ j lt. absurd (omega arith))

  used-marked : (k : ℕ) → used marked k ≡ 1
  used-marked k = rw (words-marked (k / 64)) (bit_at-all_used (k % 64) (omega arith))

  used-released :
      (k : ℕ)
      → used (init kernel_end memory mem_size).bitmap k
        ≡ (if leb first_free k && ltb k (mem_size / page_size) then 0 else 1)
  unfolding init marked
  used-released k =
      used-release_from (mem_size / page_size - first_free) first_free marked
        (omega (arith, length-marked)) k
      ∙ ground (arith, used-marked k)

  first_free_exact : first_free ≡ taken_pages kernel_end (length memory)
  unfolding first_free_page
  first_free_exact =
      let base : page_align kernel_end ≡ (kernel_end + 4095) / 4096 * 4096 =
        page_align_lem kernel_end (omega arith) in
      let size : (mem_size / page_size + 63) / 64 * 8 ≡ length memory * 8 = omega arith in
      let sum : (page_align kernel_end + (mem_size / page_size + 63) / 64 * 8 % word_mod) % word_mod
          ≡ (kernel_end + 4095) / 4096 * 4096 + length memory * 8 =
        omega arith in
      let end =
        page_align_lem ((kernel_end + 4095) / 4096 * 4096 + length memory * 8) (omega arith) in
      rw (sum, end) (omega arith)

  -- After `pmm_init`, where the addresses do not wrap, the pages behind those that the kernel and the
  -- bitmap take up, each rounded up to whole pages, to the end of memory are free, and all others are
  -- used.
  pub used-init :
      (k : ℕ)
      → used (init kernel_end memory mem_size).bitmap k ≡ (
          if leb (taken_pages kernel_end (length memory)) k && ltb k (mem_size / page_size)
          then 0
          else 1)
  used-init k =
      used-released k
      ∙ ap (λ (first : ℕ). if leb first k && ltb k (mem_size / page_size) then 0 else 1)
          first_free_exact

  -- `pmm_init` establishes the invariant.
  pub init-IsValid : 0 < kernel_end → IsValid (init kernel_end memory mem_size)
  unfolding init marked
  init-IsValid pos = record {
    sized =
        length-release_from (mem_size / page_size - first_free) first_free marked ∙ length-marked;
    words =
        IsWords-release_from (mem_size / page_size - first_free) first_free marked
          (omega (arith, length-marked)) (λ j. rw (words-marked j) (omega arith));
    fits = omega arith;
    covers = omega arith;
    null_page = used-init 0 ∙ ground arith;
    behind = λ k le. used-init k ∙ ground arith;
  }
