-- ===== src/Pmm/Tests.antt =====
-- A machine with five pages of memory: the kernel ends in page 2, the bitmap fills page 3.
use next_os.Prelude.{
  ℕ, ◌≤◌, ◌<◌, ◌≡◌, refl, ◌⊎◌, true, false, Bool, some, List, [], ◌∷◌, arith, leb, ltb, ◌&&◌,
  if◌then◌else◌,
}
use next_os.Pmm.{
  Pmm, page_align, mark_all, clear_page, release_from, first_free_page, init, find_bit, find_page,
  alloc_page, free_page,
}
use next_os.Pmm.Words.{used, IsValid}
use next_os.Pmm.Alloc.{Allocated, alloc_page-cases}
use next_os.Pmm.Free.{alloc_page-free_page}
use next_os.Pmm.Init.{taken_pages, used-init, init-IsValid}
use next_os.Pmm.Safety.{here, update, IsOwned, alloc_page-exclusive}

abbrev memory : List ℕ
memory = 77 ∷ []

booted : Pmm
booted = init 10240 memory 20480

booted-IsValid : IsValid booted
unfolding booted
booted-IsValid = init-IsValid 10240 memory 20480 refl (omega arith) (omega arith) (omega arith)

-- Page 4 is the only one to hand out; the second call fails.
four_then_none : ((alloc_page booted).1 ≡ 16384) × ((alloc_page (alloc_page booted).0).1 ≡ 0)
unfolding booted init page_align mark_all clear_page release_from first_free_page find_bit find_page
    alloc_page
four_then_none = (refl, refl)

alloc_page-cases_example :
    ((alloc_page booted ≡ (booted, 0)) × ((k : ℕ) → used booted.bitmap k ≡ 1))
    ⊎ ((k : ℕ) × Allocated booted (alloc_page booted).0 (alloc_page booted).1 k)
alloc_page-cases_example = alloc_page-cases booted booted-IsValid

alloc_page-free_page_example :
    (q : Pmm) × (j : ℕ) × (free_page booted 12288 ≡ some q)
    × (j ≤ 3)
    × Allocated q (alloc_page q).0 (alloc_page q).1 j
unfolding booted init
alloc_page-free_page_example =
    alloc_page-free_page booted booted-IsValid 12288 3 (omega arith) (omega arith) refl

used-init_example :
    used (init 10240 memory 20480).bitmap 4
    ≡ (if leb (taken_pages 10240 1) 4 && ltb 4 5 then 0 else 1)
used-init_example = used-init 10240 memory 20480 refl (omega arith) (omega arith) 4

init-IsValid_example : IsValid (init 10240 memory 20480)
init-IsValid_example =
    init-IsValid 10240 memory 20480 refl (omega arith) (omega arith) (omega arith)

alloc_page-exclusive_example :
    ◌≡◌ {A = Bool} false false
    × (4 < booted.total_pages)
    × IsOwned (alloc_page booted).0 (update (λ k. false) 4 true)
unfolding booted init page_align mark_all clear_page release_from first_free_page find_bit find_page
    alloc_page
alloc_page-exclusive_example =
    alloc_page-exclusive {start = booted} 4 booted-IsValid here refl (omega arith)
