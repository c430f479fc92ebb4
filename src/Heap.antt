-- ===== src/Heap.antt =====
-- kernel/mem/heap.c, the first-fit kernel heap. Block headers and the bytes of payloads are two
-- stores indexed by address: a caller that writes only inside its payload changes no header.
-- A loop along the list of headers takes fuel, and `none` says that the fuel ran out.
pub mod Blocks
pub mod Layout
pub mod Regions
pub mod Malloc
pub mod Joins
pub mod Coalesce
pub mod Free
pub mod Bytes
pub mod Realloc
mod Tests
pub mod Alloc
use next_os.Prelude.{
  ℕ, zero, suc, ◌+◌, ◌-◌, ◌*◌, ◌%◌, bit_and, Bool, true, false, not, ◌&&◌, Option, none, some, ltb,
  leb, ◌==◌, if◌then◌else◌,
}
use next_os.Prelude.Words.{word_mod, not64}

-- `block_header_t`; `next` is 0 at the end of the list.
pub record Header : Type 0 where
  pub size : ℕ
  pub free : Bool
  pub next : ℕ

-- `sizeof(block_header_t)`: 8 + 4, padded to 16, and 8
abbrev pub header_size : ℕ
header_size = 24

pub record Heap : Type 0 where
  pub heap_start : ℕ
  pub headers : ℕ → Header
  pub bytes : ℕ → ℕ

unfoldable pub write_header : Heap → ℕ → Header → Heap
write_header h a v = record h { headers = λ b. if a == b then v else h.headers b }

unfoldable pub write_byte : Heap → ℕ → ℕ → Heap
write_byte h a v = record h { bytes = λ b. if a == b then v else h.bytes b }

-- `heap_init`
pub heap_init : ℕ → ℕ → Heap → Heap
heap_init start size h =
    write_header (record h { heap_start = start }) start
      (record { size = (size + word_mod - header_size) % word_mod; free = true; next = 0 })

-- `(size + 15) & ~15ULL`
pub align16 : ℕ → ℕ
align16 size = bit_and ((size + 15) % word_mod) (not64 15)

-- The body of the branch of `kmalloc` that takes the block at `cur`, for `size` bytes.
pub take_block : Heap → ℕ → ℕ → Heap × ℕ
take_block h cur size =
    let c = h.headers cur in
    let new_blk = (cur + header_size + size) % word_mod in
    let rest : Header = record {
      size = (c.size + 2 * word_mod - size - header_size) % word_mod;
      free = true;
      next = c.next;
    } in
    let split = record c { size = size; next = new_blk; free = false } in
    (
      if leb ((size + header_size + 16) % word_mod) c.size
          then write_header (write_header h new_blk rest) cur split
          else write_header h cur (record c { free = false }),
      (cur + header_size) % word_mod,
    )

-- The loop of `kmalloc`.
pub malloc_loop : ℕ → Heap → ℕ → ℕ → Option (Heap × ℕ)
malloc_loop zero h cur size = none
malloc_loop (suc n) h cur size =
    let rest = malloc_loop n h (h.headers cur).next size in
    if cur == 0
    then some (h, 0)
    else if (h.headers cur).free && leb size (h.headers cur).size
    then some (take_block h cur size)
    else rest

-- `kmalloc`: the heap after the call and the address returned, 0 for NULL.
pub kmalloc : ℕ → Heap → ℕ → Option (Heap × ℕ)
kmalloc fuel h size =
    if size == 0 then some (h, 0) else malloc_loop fuel h h.heap_start (align16 size)

-- The loop of `kfree` that joins adjacent free blocks.
pub coalesce : ℕ → Heap → ℕ → Option Heap
coalesce zero h cur = none
coalesce (suc n) h cur =
    let c = h.headers cur in
    let d = h.headers c.next in
    let merged = record c { size = (c.size + (header_size + d.size)) % word_mod; next = d.next } in
    let again = coalesce n (write_header h cur merged) cur in
    let along = coalesce n h c.next in
    if cur == 0 then some h else if c.free && (not (c.next == 0) && d.free) then again else along

-- `kfree`
pub kfree : ℕ → Heap → ℕ → Option Heap
kfree fuel h ptr =
    let blk = (ptr + word_mod - header_size) % word_mod in
    let freed = write_header h blk (record (h.headers blk) { free = true }) in
    if ptr == 0 then some h else coalesce fuel freed freed.heap_start

-- `for (i = 0; i < total; i++) p[i] = 0`, with `n` rounds left
pub zero_bytes : ℕ → ℕ → ℕ → Heap → Heap
zero_bytes zero i p h = h
zero_bytes (suc n) i p h = zero_bytes n (i + 1) p (write_byte h (p + i) 0)

-- `kcalloc` after its call of `kmalloc`
pub clear_block : ℕ → Option (Heap × ℕ) → Option (Heap × ℕ)
clear_block total none = none
clear_block total (some (h, ptr)) = some (if ptr == 0 then h else zero_bytes total 0 ptr h, ptr)

-- `kcalloc`
pub kcalloc : ℕ → Heap → ℕ → ℕ → Option (Heap × ℕ)
unfolding clear_block
kcalloc fuel h count size =
    let total = count * size % word_mod in clear_block total (kmalloc fuel h total)

-- `for (i = 0; i < blk->size; i++) dst[i] = src[i]`, with `n` rounds left
pub copy_bytes : ℕ → ℕ → ℕ → ℕ → Heap → Heap
copy_bytes zero i src dst h = h
copy_bytes (suc n) i src dst h =
    copy_bytes n (i + 1) src dst (write_byte h (dst + i) (h.bytes (src + i)))

-- A call of `kfree` in `krealloc`, which then returns `ptr`.
abbrev pub returning : ℕ → Option Heap → Option (Heap × ℕ)
returning ptr none = none
returning ptr (some h) = some (h, ptr)

-- `krealloc` after its call of `kmalloc`, which returned `new_ptr`: the bytes of the old block are
-- copied and it is freed.
pub move_block : ℕ → ℕ → Option (Heap × ℕ) → Option (Heap × ℕ)
move_block fuel ptr none = none
move_block fuel ptr (some (h, new_ptr)) =
    let blk = (ptr + word_mod - header_size) % word_mod in
    if new_ptr == 0
    then some (h, 0)
    else returning new_ptr (kfree fuel (copy_bytes (h.headers blk).size 0 ptr new_ptr h) ptr)

-- `krealloc`
pub krealloc : ℕ → Heap → ℕ → ℕ → Option (Heap × ℕ)
unfolding move_block
krealloc fuel h ptr new_size =
    let blk = (ptr + word_mod - header_size) % word_mod in
    if ptr == 0
    then kmalloc fuel h new_size
    else if new_size == 0
    then returning 0 (kfree fuel h ptr)
    else if leb new_size (h.headers blk).size
    then some (h, ptr)
    else move_block fuel ptr (kmalloc fuel h new_size)
