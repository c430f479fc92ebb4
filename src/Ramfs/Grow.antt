-- ===== src/Ramfs/Grow.antt =====
-- `ramfs_write` of kernel/fs/ramfs.c: the growth of an entry's buffer.
use next_os.Prelude.{
  ℕ, ◌+◌, ◌%◌, ◌≤◌, ◌<◌, ◌≡◌, refl, ap, ◌∙◌, ◌⊎◌, inl, inr, false, Option, none, some, List, length,
  get_or, take, ltb, leb, if◌then◌else◌, Option-cases, arith,
}
use native.Mathlib.Decide.{dec_le}
use next_os.Prelude.Words.{word_mod}
use next_os.Ramfs.Strings.{error, done}
use next_os.Ramfs.Table.{Entry}
use next_os.Ramfs.Files.{copy_old, with_block, grow_to, grow, max_data}
use next_os.Prelude.Slices.{overlay, length-overlay, get_or-overlay_in, get_or-take, length-take}

-- A block, `none` for NULL, is long enough for its capacity.
unfoldable pub Fits : Option (List ℕ) → ℕ → Type 0
Fits none capacity = capacity ≡ 0
Fits (some block) capacity = capacity ≤ length block

-- The invariant of an entry.
pub record Stored (e : Entry) : Type 0 where
  pub bounded : e.capacity ≤ max_data
  pub sized : e.size ≤ e.capacity
  pub fits : Fits e.content e.capacity

-- What `kmalloc` promises: a block that it returns is as long as asked for.
abbrev pub Allocates : (ℕ → Option (List ℕ)) → Type 0
Allocates kmalloc = (n : ℕ) (block : List ℕ) → kmalloc n ≡ some block → n ≤ length block

abbrev pub byte_at : Option (List ℕ) → ℕ → ℕ
byte_at none k = 0
byte_at (some block) k = get_or block k 0

-- What stays of an entry that grows.
pub record Grown (e : Entry) (needed : ℕ) (e' : Entry) : Type 0 where
  pub stored : Stored e'
  pub room : needed ≤ e'.capacity
  pub size_kept : e'.size ≡ e.size
  pub used_kept : e'.used ≡ e.used
  pub type_kept : e'.type ≡ e.type
  pub name_kept : e'.name ≡ e.name
  pub parent_kept : e'.parent ≡ e.parent
  pub bytes_kept : (k : ℕ) → k < e.size → byte_at e'.content k ≡ byte_at e.content k

-- The capacity that `grow` asks `kmalloc` for.
abbrev pub new_capacity : ℕ → ℕ
new_capacity needed = if ltb max_data (needed + 1024) then max_data else needed + 1024

from_zero : (k : ℕ) → k ≡ 0 + k
from_zero k = omega arith

copy_old-done :
    (content : Option (List ℕ)) (capacity size cap : ℕ) (block : List ℕ)
    → Fits content capacity
    → size ≤ capacity
    → capacity < cap
    → cap ≤ length block
    → (new : List ℕ) × (copy_old content size block ≡ done new)
      × (length new ≡ length block)
      × ((k : ℕ) → k < size → get_or new k 0 ≡ byte_at content k)
unfolding copy_old Fits
copy_old-done none capacity size cap block fits sized grows long =
    (block, refl, refl, λ k lt. absurd (omega arith))
copy_old-done (some old) capacity size cap block fits sized grows long =
    let whole = length-take size old (omega arith) in
    (
      overlay block 0 (take size old),
      ground arith,
      length-overlay block 0 (take size old),
      λ k lt.
          ap (λ q. get_or (overlay block 0 (take size old)) q 0) (from_zero k)
          ∙ get_or-overlay_in block 0 (take size old) k (omega arith) (omega arith)
          ∙ get_or-take size old k lt,
    )

grow_to-Grown :
    (e : Entry) (needed cap : ℕ) (block : List ℕ)
    → Stored e
    → e.capacity < needed
    → needed ≤ cap
    → cap ≤ max_data
    → cap ≤ length block
    → (e' : Entry) × (grow_to e cap (some block) ≡ done e') × Grown e needed e'
unfolding grow_to with_block Fits
grow_to-Grown e needed cap block v more enough bound long =
    let (new, copied, len, kept) =
      copy_old-done e.content e.capacity e.size cap block v.fits v.sized (omega arith) long in
    (
      record e { content = some new; capacity = cap },
      ap (with_block e cap) copied,
      record {
        stored = record { bounded = bound; sized = omega (arith, v.sized); fits = omega arith };
        room = enough;
        size_kept = refl;
        used_kept = refl;
        type_kept = refl;
        name_kept = refl;
        parent_kept = refl;
        bytes_kept = kept;
      },
    )

-- Why a write is refused: the buffer must grow, and is too large or cannot be allocated.
abbrev pub Refused : (ℕ → Option (List ℕ)) → Entry → ℕ → Type 0
Refused kmalloc e needed =
    (e.capacity < needed) × ((max_data < needed) ⊎ (kmalloc (new_capacity needed) ≡ none))

unchanged : (e : Entry) (needed : ℕ) → Stored e → needed ≤ e.capacity → Grown e needed e
unchanged e needed v room = record {
  stored = v;
  room = room;
  size_kept = refl;
  used_kept = refl;
  type_kept = refl;
  name_kept = refl;
  parent_kept = refl;
  bytes_kept = λ k lt. refl;
}

-- The growth where the code calls `kmalloc`.
grow-asks :
    (kmalloc : ℕ → Option (List ℕ)) (e : Entry) (needed : ℕ)
    → e.capacity < needed
    → needed ≤ max_data
    → grow kmalloc e needed ≡ grow_to e (new_capacity needed) (kmalloc (new_capacity needed))
unfolding grow
grow-asks kmalloc e needed more small =
    let whole : (needed + 1024) % word_mod ≡ needed + 1024 = omega arith in
    let no_room : leb needed e.capacity ≡ false = ground arith in
    let enough : ltb (new_capacity needed) needed ≡ false = ground arith in
    rw (whole, no_room, enough) refl

grow-large :
    (kmalloc : ℕ → Option (List ℕ)) (e : Entry) (needed : ℕ)
    → e.capacity < needed
    → max_data < needed
    → grow kmalloc e needed ≡ error
unfolding grow
grow-large kmalloc e needed more large = ground arith

grow-room :
    (kmalloc : ℕ → Option (List ℕ)) (e : Entry) (needed : ℕ)
    → needed ≤ e.capacity
    → grow kmalloc e needed ≡ done e
unfolding grow
grow-room kmalloc e needed room = ground arith

pub grow-cases :
    (kmalloc : ℕ → Option (List ℕ)) (e : Entry) (needed : ℕ)
    → Allocates kmalloc
    → Stored e
    → ((grow kmalloc e needed ≡ error) × Refused kmalloc e needed)
      ⊎ ((e' : Entry) × (grow kmalloc e needed ≡ done e') × Grown e needed e')
unfolding grow_to
grow-cases kmalloc e needed alloc v = elim (dec_le needed e.capacity) [
  | yes room ↦ inr (e, grow-room kmalloc e needed room, unchanged e needed v room)
  | no more ↦ elim (dec_le needed max_data) [
    | no large ↦
        inl (
          grow-large kmalloc e needed (omega arith) (omega arith),
          (omega arith, inl (omega arith)),
        )
    | yes small ↦
        let cap = new_capacity needed in
        let asks = grow-asks kmalloc e needed (omega arith) small in
        elim (Option-cases (kmalloc cap)) [
          | inl null ↦ inl (asks ∙ ap (grow_to e cap) null, (omega arith, inr null))
          | inr (block, got) ↦
              let (e', made, kept) =
                grow_to-Grown e needed cap block v (omega arith) (ground arith) (ground arith)
                  (alloc cap block got) in
              inr (e', asks ∙ ap (grow_to e cap) got ∙ made, kept)
        ]
  ]
]
