-- ===== src/Heap/Tests.antt =====
-- A heap from 4096 to 8080 with a payload of 112 bytes in use at 4120 and one free block behind it.
use next_os.Prelude.{
  ℕ, ◌+◌, ◌≤◌, ◌<◌, ◌≡◌, refl, sym, ap, some_inj, ◌⊎◌, true, false, some, List, [], ◌∷◌, arith,
  ◌==◌, if◌then◌else◌,
}
use next_os.Heap.{
  Heap, heap_init, write_header, align16, take_block, malloc_loop, kmalloc, coalesce, kfree,
  kcalloc, krealloc,
}
use next_os.Heap.Blocks.{Block, in_use}
use next_os.Heap.Alloc.{
  Holds, Mallocs, heap_init-Holds, kmalloc-Mallocs, kmalloc_wraps, kmalloc-apart,
}
use next_os.Heap.Free.{Freed, kfree-Freed}
use next_os.Heap.Bytes.{Callocs, kcalloc-Callocs}
use next_os.Heap.Realloc.{Reallocs, krealloc-Reallocs}

abbrev blank : Heap
blank = record {
  heap_start = 0;
  headers = λ a. record { size = 0; free = false; next = 0 };
  bytes = λ a. a;
}

abbrev fresh_row : List Block
fresh_row = record { size = 3960; free = true } ∷ []

fresh_heap : Heap
fresh_heap = heap_init 4096 3984 blank

fresh_heap-Holds : Holds 4096 8080 fresh_row fresh_heap
unfolding fresh_heap
fresh_heap-Holds = heap_init-Holds 4096 3984 blank (omega arith) (omega arith) (omega arith)

abbrev row : List Block
row = record { size = 112; free = false } ∷ record { size = 3824; free = true } ∷ []

abbrev heap : Heap
heap = record {
  heap_start = 4096;
  headers = λ a.
      if a == 4096
      then record { size = 112; free = false; next = 4232 }
      else record { size = 3824; free = true; next = 0 };
  bytes = λ a. a;
}

heap-Holds : Holds 4096 8080 row heap
heap-Holds = record {
  start = refl;
  layout = (refl, refl, refl, (refl, refl, refl, (refl, refl)));
  pos = omega arith;
  room = omega arith;
}

kmalloc-Mallocs_example :
    (r : Heap × ℕ) × (kmalloc 3 heap 100 ≡ some r)
    × Mallocs 4096 8080 (align16 100) row heap r
    × (100 ≤ align16 100)
kmalloc-Mallocs_example =
    kmalloc-Mallocs 4096 8080 row heap 3 100 heap-Holds (omega arith) (omega arith) (omega arith)

kmalloc_wraps_example :
    (8080 < 0xffff_ffff_ffff_ffff)
    × ((g : Heap) × (kmalloc 2 fresh_heap 0xffff_ffff_ffff_ffff ≡ some (g, 4120)))
kmalloc_wraps_example =
    kmalloc_wraps 4096 8080 (record { size = 3960; free = true }) [] fresh_heap 2
      0xffff_ffff_ffff_ffff fresh_heap-Holds (omega arith) refl (omega arith) (omega arith)

kmalloc-apart_example : (4256 + 100 + 24 ≤ 4120) ⊎ (4120 + 112 + 24 ≤ 4256)
unfolding kmalloc malloc_loop align16 take_block in_use
kmalloc-apart_example =
    kmalloc-apart 4096 8080 row heap (take_block heap 4232 112).0 3 100 4256 4120 112 heap-Holds
      (omega arith) (omega arith) (omega arith) refl (omega arith) refl

kfree-Freed_example : (g : Heap) × (kfree 3 heap 4120 ≡ some g) × Freed 4096 8080 4120 row heap g
unfolding in_use
kfree-Freed_example = kfree-Freed 4096 8080 4120 112 row heap 3 heap-Holds refl (omega arith)

kcalloc-Callocs_example :
    (r : Heap × ℕ) × (kcalloc 3 heap 4 25 ≡ some r) × Callocs 4096 8080 100 row heap r
kcalloc-Callocs_example =
    kcalloc-Callocs 4096 8080 row heap 3 4 25 heap-Holds (omega arith) (omega arith) (omega arith)

krealloc-Reallocs_example :
    (r : Heap × ℕ) × (krealloc 4 heap 4120 200 ≡ some r)
    × Reallocs 4096 8080 4120 112 200 row heap r
unfolding in_use
krealloc-Reallocs_example =
    krealloc-Reallocs 4096 8080 4120 112 row heap 4 200 heap-Holds refl (omega arith) (omega arith)
      (omega arith)

-- After both calls the heap is one free block again.
joins_all : (h : Heap) → (kfree 3 heap 4120 ≡ some h) → (h.headers 4096).size ≡ 3960
unfolding kfree coalesce write_header
joins_all h e = ap (λ k. (k.headers 4096).size) (some_inj (sym e))
