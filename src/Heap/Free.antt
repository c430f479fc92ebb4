-- ===== src/Heap/Free.antt =====
-- What `kfree` promises its callers.
use next_os.Prelude.{
  ℕ, ◌+◌, ◌-◌, ◌%◌, ◌≤◌, ◌<◌, ◌≡◌, refl, ap, ◌∙◌, false, none, some, List, [], ◌∷◌, arith, ◌==◌,
  if◌then◌else◌, length, lt→neb,
}
use mathlib.Core.Path.{subst}
use next_os.Prelude.Words.{word_mod}
use next_os.Heap.{Heap, write_header, coalesce, kfree}
use next_os.Heap.Blocks.{Block, release, join, in_use}
use next_os.Heap.Layout.{Layout, Layout-extent}
use next_os.Heap.Regions.{in_use-within}
use next_os.Heap.Alloc.{Holds}
use next_os.Heap.Joins.{in_use-release, length-release, in_use-join, Apart, join-Apart, length-join}
use next_os.Heap.Coalesce.{free_header, free_header-Layout, coalesce-Joins}

-- The heap after `ptr` was given back: it is not in use, all other payloads in use are as they
-- were, no two free blocks stand side by side, and no payload byte was written.
pub record Freed (lo hi ptr : ℕ) (bs : List Block) (h g : Heap) : Type 0 where
  pub row : List Block
  pub holds : Holds lo hi row g
  pub regions : (q : ℕ) → in_use q lo row ≡ (if ptr == q then none else in_use q lo bs)
  pub joined : Apart false row
  pub no_longer : length row ≤ length bs
  pub same_bytes : g.bytes ≡ h.bytes

join_all-Freed :
    (lo hi ptr : ℕ) (bs cs : List Block) (h k : Heap) (fuel : ℕ)
    → Holds lo hi bs h
    → cs ≡ release ptr lo bs
    → Layout k.headers lo lo hi cs
    → k.heap_start ≡ lo
    → k.bytes ≡ h.bytes
    → length bs < fuel
    → (g : Heap) × (coalesce fuel k lo ≡ some g) × Freed lo hi ptr bs h g
join_all-Freed lo hi ptr bs [] h k fuel v e l start bytes lt = absurd (omega (arith, l.0, v.pos))
join_all-Freed lo hi ptr bs (c ∷ cs) h k fuel v e l start bytes lt =
    let size : length (c ∷ cs) ≡ length bs = ap length e ∙ length-release ptr lo bs in
    let (g, ends, layout, same) = coalesce-Joins hi v.room fuel k lo c cs l v.pos (omega arith) in
    (
      g,
      ends,
      record {
        row = join c cs;
        holds = record {
          start = same.same_start ∙ start;
          layout = layout;
          pos = v.pos;
          room = v.room;
        };
        regions = λ q. in_use-join q lo c cs ∙ ap (in_use q lo) e ∙ in_use-release ptr q lo bs;
        joined = join-Apart false c cs refl;
        no_longer = omega (arith, length-join c cs);
        same_bytes = same.same_bytes ∙ bytes;
      },
    )

-- `kfree` of a payload's address marks its block and joins.
kfree_lem :
    (fuel : ℕ) (h : Heap) (ptr : ℕ)
    → 24 ≤ ptr
    → ptr < word_mod
    → kfree fuel h ptr
      ≡ coalesce fuel (write_header h (ptr - 24) (free_header h (ptr - 24))) h.heap_start
unfolding kfree write_header
kfree_lem fuel h ptr lo hi =
    let blk : (ptr + word_mod - 24) % word_mod ≡ ptr - 24 = omega arith in
    rw (lt→neb ptr (omega arith), blk)

-- `kfree` of a payload in use ends, given fuel for each block, and gives back that payload alone.
pub kfree-Freed :
    (lo hi ptr size : ℕ) (bs : List Block) (h : Heap) (fuel : ℕ)
    → Holds lo hi bs h
    → in_use ptr lo bs ≡ some size
    → length bs < fuel
    → (g : Heap) × (kfree fuel h ptr ≡ some g) × Freed lo hi ptr bs h g
kfree-Freed lo hi ptr size bs h fuel v used lt =
    let within = in_use-within ptr size lo bs used in
    let end = Layout-extent h.headers lo lo hi bs v.layout in
    let freed = write_header h (ptr - 24) (free_header h (ptr - 24)) in
    let (g, ends, f) =
      join_all-Freed lo hi ptr bs (release ptr lo bs) h freed fuel v refl
        (subst (λ q. Layout freed.headers lo lo hi (release q lo bs)) (back (omega (arith, within)))
          (free_header-Layout h (ptr - 24) lo lo hi bs v.layout))
        (start_kept (ptr - 24) ∙ v.start) (bytes_kept (ptr - 24)) lt in
    (
      g,
      kfree_lem fuel h ptr (omega (arith, within)) (omega (arith, within, end, v.room))
          ∙ ap (coalesce fuel freed) v.start
          ∙ ends,
      f,
    )
  where
    back : 24 ≤ ptr → ptr - 24 + 24 ≡ ptr
    back le = omega arith

    start_kept : (a : ℕ) → (write_header h a (free_header h a)).heap_start ≡ h.heap_start
    start_kept a = unfold write_header in refl

    bytes_kept : (a : ℕ) → (write_header h a (free_header h a)).bytes ≡ h.bytes
    bytes_kept a = unfold write_header in refl
