-- ===== src/Ramfs/Write.antt =====
-- `ramfs_write` of kernel/fs/ramfs.c: what becomes of the entry and of its bytes.
use next_os.Prelude.{
  ℕ, suc, ◌+◌, ◌%◌, ◌≤◌, ◌<◌, ◌≡◌, refl, ap, ◌∙◌, ◌⊎◌, inl, inr, false, Option, none, some, List,
  [], ◌∷◌, length, take, drop, ltb, leb, if◌then◌else◌, Bool-cases, arith,
}
use next_os.Prelude.Words.{word_mod}
use next_os.Ramfs.Strings.{error, done}
use next_os.Ramfs.Table.{Entry}
use next_os.Ramfs.Files.{
  read_block, read_entry, grow, write_block, with_content, write_grown, write_entry,
}
use next_os.Prelude.Slices.{overlay, length-overlay, get_or-overlay_out, take-overlay}
use next_os.Ramfs.Grow.{Fits, Stored, Allocates, byte_at, Grown, Refused, grow-cases}

-- The entry `e'` that a write of `buf` at `offset` makes of `e`.
pub record Written (e : Entry) (offset : ℕ) (buf : List ℕ) (e' : Entry) : Type 0 where
  pub stored : Stored e'
  pub size_new :
      e'.size ≡ (if ltb e.size (offset + length buf) then offset + length buf else e.size)
  pub used_kept : e'.used ≡ e.used
  pub type_kept : e'.type ≡ e.type
  pub name_kept : e'.name ≡ e.name
  pub parent_kept : e'.parent ≡ e.parent
  pub reads_back : read_entry (some e') offset (length buf) ≡ done buf
  pub others_kept :
      (k : ℕ)
      → k < e.size
      → (k < offset) ⊎ (offset + length buf ≤ k)
      → byte_at e'.content k ≡ byte_at e.content k

nothing_to_write : (buf : List ℕ) (offset : ℕ) → offset + length buf ≡ 0 → buf ≡ []
nothing_to_write [] offset h = refl
nothing_to_write (b ∷ buf) offset h = absurd (omega arith)

reads_done :
    (n offset : ℕ) (buf block : List ℕ)
    → offset + n ≤ length block
    → take n (drop offset block) ≡ buf
    → read_block (some block) offset n ≡ done buf
unfolding read_block
reads_done n offset buf block inside e = ground arith

write_block-done :
    (content : Option (List ℕ)) (capacity offset : ℕ) (buf : List ℕ)
    → Fits content capacity
    → offset + length buf ≤ capacity
    → (new : Option (List ℕ)) × (write_block content offset buf ≡ done new)
      × Fits new capacity
      × (read_block new offset (length buf) ≡ done buf)
      × ((k : ℕ) → (k < offset) ⊎ (offset + length buf ≤ k) → byte_at new k ≡ byte_at content k)
unfolding write_block read_block Fits
write_block-done none capacity offset [] fits room = (none, refl, fits, refl, λ k out. refl)
write_block-done none capacity offset (b ∷ buf) fits room = absurd (omega arith)
write_block-done (some block) capacity offset buf fits room =
    let len = length-overlay block offset buf in
    let inside : ltb (length block) (offset + length buf) ≡ false = ground arith in
    (
      some (overlay block offset buf),
      ground arith,
      omega (arith, len),
      reads_done (length buf) offset buf (overlay block offset buf) (omega (arith, len))
          (take-overlay block offset buf (omega arith)),
      λ k out. get_or-overlay_out block offset buf k out,
    )

read_entry-inside :
    (e : Entry) (offset n : ℕ)
    → offset + n < word_mod
    → offset + n ≤ e.size
    → 0 < n
    → read_entry (some e) offset n ≡ read_block e.content offset n
unfolding read_entry
read_entry-inside e offset n small inside pos =
    let whole : (offset + n) % word_mod ≡ offset + n = omega arith in
    let before : leb e.size offset ≡ false = ground arith in
    let kept : ltb e.size (offset + n) ≡ false = ground arith in rw (whole, before, kept) refl

-- A read of no bytes.
read_block-nothing :
    (content : Option (List ℕ)) (offset : ℕ) → read_block content offset 0 ≡ done []
unfolding read_block
read_block-nothing none offset = refl
read_block-nothing (some block) offset = refl

read_entry-nothing :
    (e : Entry) (offset : ℕ) → offset < word_mod → read_entry (some e) offset 0 ≡ done []
unfolding read_entry
read_entry-nothing e offset small = elim (Bool-cases (leb e.size offset)) [
  | inl past ↦ rw past refl
  | inr before ↦
      let kept : ltb e.size ((offset + 0) % word_mod) ≡ false = ground arith in
      rw (before, kept) (read_block-nothing e.content offset)
]

read_entry-whole :
    (e : Entry) (offset : ℕ) (buf : List ℕ)
    → offset + length buf < word_mod
    → offset + length buf ≤ e.size
    → read_block e.content offset (length buf) ≡ done buf
    → read_entry (some e) offset (length buf) ≡ done buf
read_entry-whole e offset [] small inside reads = read_entry-nothing e offset (omega arith)
read_entry-whole e offset (b ∷ buf) small inside reads =
    read_entry-inside e offset (suc (length buf)) small inside (omega arith) ∙ reads

write_grown-Written :
    (e g : Entry) (offset : ℕ) (buf : List ℕ)
    → offset + length buf < word_mod
    → Stored e
    → Grown e (offset + length buf) g
    → (e' : Entry) × (write_grown (offset + length buf) offset buf (done g) ≡ done e')
      × Written e offset buf e'
unfolding write_grown with_content
write_grown-Written e g offset buf small v grown =
    let needed = offset + length buf in
    let (new, wrote, fits, reads, kept) =
      write_block-done g.content g.capacity offset buf grown.stored.fits grown.room in
    let e' : Entry = record g {
      content = new;
      size = if ltb g.size needed then needed else g.size;
    } in
    let room = grown.room in
    let sized = grown.stored.sized in
    (
      e',
      ap (with_content g needed) wrote,
      record {
        stored = record { bounded = grown.stored.bounded; sized = ground arith; fits = fits };
        size_new = ap (λ q. if ltb q needed then needed else q) grown.size_kept;
        used_kept = grown.used_kept;
        type_kept = grown.type_kept;
        name_kept = grown.name_kept;
        parent_kept = grown.parent_kept;
        reads_back = read_entry-whole e' offset buf small (ground arith) reads;
        others_kept = λ k lt out. kept k out ∙ grown.bytes_kept k lt;
      },
    )

-- A write into a file whose entry is well-formed either is refused, since the buffer would exceed
-- 8192 bytes or `kmalloc` returns NULL, or leaves a well-formed entry: its size covers the bytes
-- written, a read of the same range returns them, and the other bytes of the file stay.
pub write_entry-cases :
    (kmalloc : ℕ → Option (List ℕ)) (e : Entry) (offset : ℕ) (buf : List ℕ)
    → Allocates kmalloc
    → Stored e
    → offset + length buf < word_mod
    → ((write_entry kmalloc (some e) offset buf ≡ error) × Refused kmalloc e (offset + length buf))
      ⊎ ((e' : Entry) × (write_entry kmalloc (some e) offset buf ≡ done e')
          × Written e offset buf e')
unfolding write_entry write_grown
write_entry-cases kmalloc e offset buf alloc v small =
    let needed = offset + length buf in
    let whole : needed % word_mod ≡ needed = omega arith in
    let at : (write_entry kmalloc (some e) offset buf
        ≡ write_grown needed offset buf (grow kmalloc e needed)) =
      ap (λ q. write_grown q offset buf (grow kmalloc e q)) whole in
    elim (grow-cases kmalloc e needed alloc v) [
      | inl (refused, why) ↦ inl (at ∙ ap (write_grown needed offset buf) refused, why)
      | inr (g, made, grown) ↦
          let (e', wrote, w) = write_grown-Written e g offset buf small v grown in
          inr (e', at ∙ ap (write_grown needed offset buf) made ∙ wrote, w)
    ]
