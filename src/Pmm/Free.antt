-- ===== src/Pmm/Free.antt =====
-- What `pmm_free_page` writes, and that a freed page can be had again.
use next_os.Prelude.{
  ℕ, ◌/◌, ◌≤◌, ◌<◌, ◌≡◌, refl, ◌∙◌, inl, inr, some, arith, lt→ltb, ◌==◌, if◌then◌else◌, length,
}
use native.Mathlib.Decide.{dec_lt}
use next_os.Pmm.{Pmm, page_size, clear_page, alloc_page, free_page}
use next_os.Pmm.Words.{used, IsValid, used-clear_page, IsWords-clear_page, length-clear_page}
use next_os.Pmm.Alloc.{Allocated, alloc_page-cases}

-- Page `k` alone is given back.
pub record Freed (p q : Pmm) (k : ℕ) : Type 0 where
  pub marks : (j : ℕ) → used q.bitmap j ≡ (if k == j then 0 else used p.bitmap j)
  pub same_total : q.total_pages ≡ p.total_pages
  pub valid : IsValid q

module _ (p : Pmm) (v : IsValid p) (k : ℕ) (lo : 0 < k) (hi : k < p.total_pages) where
  clear_page-Freed : Freed p (record p { bitmap = clear_page p.bitmap k }) k
  clear_page-Freed = record {
    marks = marks;
    same_total = refl;
    valid = record {
      sized = length-clear_page p.bitmap k ∙ v.sized;
      words = IsWords-clear_page p.bitmap k inside v.words;
      fits = v.fits;
      covers = v.covers;
      null_page = rw (marks 0) (ground (arith, v.null_page));
      behind = λ j le. rw (marks j) (ground (arith, v.behind j le));
    };
  }
    where
      inside : k / 64 < length p.bitmap
      inside = omega (arith, v.sized, v.covers)

      marks : (j : ℕ) → used (clear_page p.bitmap k) j ≡ (if k == j then 0 else used p.bitmap j)
      marks j = used-clear_page p.bitmap k j inside

  -- `pmm_free_page` of an address in page `k`, which is in memory and not page 0, clears the bit
  -- of that page alone and keeps the state valid.
  pub free_page-Freed :
      (page : ℕ) → page / page_size ≡ k → (q : Pmm) × (free_page p page ≡ some q) × Freed p q k
  unfolding free_page
  free_page-Freed page e = (
    record p { bitmap = clear_page p.bitmap k },
    rw (e, lt→ltb (k / 64) p.bitmap_size (omega (arith, v.covers))),
    clear_page-Freed,
  )

-- A page that was freed is free again for `pmm_alloc_page`: the next call does not fail, and
-- returns that page or a lower one.
pub alloc_page-free_page :
    (p : Pmm)
    → IsValid p
    → (page k : ℕ) → 0 < k
    → k < p.total_pages
    → page / page_size ≡ k
    → (q : Pmm) × (j : ℕ) × (free_page p page ≡ some q)
      × (j ≤ k)
      × Allocated q (alloc_page q).0 (alloc_page q).1 j
alloc_page-free_page p v page k lo hi e =
    let (q, freed, f) = free_page-Freed p v k lo hi page e in
    let clear : used q.bitmap k ≡ 0 = rw (f.marks k) (ground arith) in
    elim (alloc_page-cases q f.valid) [
      | inl (r, all) ↦ absurd (omega (arith, all k, clear))
      | inr (j, a) ↦ (q, j, freed, lowest q k clear j a, a)
    ]
  where
    lowest :
        (q : Pmm) (k : ℕ)
        → used q.bitmap k ≡ 0
        → (j : ℕ) → Allocated q (alloc_page q).0 (alloc_page q).1 j
        → j ≤ k
    lowest q k clear j a = elim (dec_lt k j) [
      | yes lt ↦ absurd (omega (arith, a.lowest k (omega arith) lt, clear))
      | no ge ↦ omega arith
    ]
