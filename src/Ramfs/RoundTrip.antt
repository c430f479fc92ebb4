-- ===== src/Ramfs/RoundTrip.antt =====
-- `ramfs_write` and `ramfs_read` of kernel/fs/ramfs.c, on the table.
use next_os.Prelude.{
  ℕ, ◌+◌, ◌%◌, ◌^◌, ◌<◌, ◌≡◌, refl, sym, ap, ◌∙◌, ◌⊎◌, inl, inr, ◌≢◌, Bool, true, false, Option,
  some, List, length, get_or, set, get_or-set_self, get_or-set_ne, leb, if◌then◌else◌, arith,
}
use mathlib.Core.Path.{subst}
use next_os.Prelude.Words.{word_mod}
use next_os.Ramfs.Strings.{error, done}
use next_os.Ramfs.Table.{Entry, Ramfs, no_entry, max_files, sync_to_disk}
use next_os.Ramfs.Files.{is_file, open_file, read_entry, ramfs_read, put_entry, ramfs_write}
use next_os.Ramfs.Grow.{Allocates, Refused}
use next_os.Ramfs.Write.{Written, write_entry-cases}
use next_os.Ramfs.Valid.{IsValid, set-IsValid, sync_to_disk-entries, sync_to_disk-count}

-- The guards pass for a file in use.
open_file_lem :
    (r : Ramfs) (i : ℕ)
    → i < max_files
    → (get_or r.entries i no_entry).used ≡ true
    → is_file (get_or r.entries i no_entry).type ≡ true
    → open_file r i ≡ some (get_or r.entries i no_entry)
unfolding open_file
open_file_lem r i lt used file =
    let whole : i % 2 ^ 32 ≡ i = omega arith in
    let inside : leb max_files i ≡ false = ground arith in rw (whole, inside, used, file) refl

-- The file at `i` after a write of `buf` at `offset`.
pub record Wrote (r : Ramfs) (i offset : ℕ) (buf : List ℕ) (r' : Ramfs) : Type 0 where
  pub valid : IsValid r'
  pub read_back : ramfs_read r' i offset (length buf) ≡ done buf
  pub entry : Written (get_or r.entries i no_entry) offset buf (get_or r'.entries i no_entry)
  pub others : (j : ℕ) → i ≢ j → get_or r'.entries j no_entry ≡ get_or r.entries j no_entry

put-Wrote :
    (r : Ramfs) (i offset : ℕ) (buf : List ℕ) (e' : Entry)
    → IsValid r
    → i < max_files
    → (get_or r.entries i no_entry).used ≡ true
    → is_file (get_or r.entries i no_entry).type ≡ true
    → Written (get_or r.entries i no_entry) offset buf e'
    → Wrote r i offset buf (sync_to_disk (record r { entries = set r.entries i e' }))
unfolding ramfs_read
put-Wrote r i offset buf e' v lt used file w =
    let e = get_or r.entries i no_entry in
    let s : Ramfs = record r { entries = set r.entries i e' } in
    let entries = sync_to_disk-entries s in
    let made : get_or (sync_to_disk s).entries i no_entry ≡ e' =
      ap (λ es. get_or es i no_entry) entries
      ∙ get_or-set_self r.entries i e' no_entry (omega (arith, v.table)) in
    let opens : open_file (sync_to_disk s) i ≡ some e' =
      open_file_lem (sync_to_disk s) i lt (ap (λ x. x.used) made ∙ w.used_kept ∙ used)
        (ap (λ x. is_file x.type) made ∙ ap is_file w.type_kept ∙ file)
      ∙ ap some made in
    record {
      valid =
          set-IsValid r (sync_to_disk s) i e' v lt entries
            (omega (
              arith,
              sync_to_disk-count s,
              ap {B = ℕ} (λ (b : Bool). if b then 1 else 0) w.used_kept,
            ))
            w.stored
            (λ j h off u used' path. off (
              v.distinct i j lt h used used'
                (sym w.parent_kept ∙ path.0, sym w.name_kept ∙ path.1)));
      read_back = ap (λ o. read_entry o offset (length buf)) opens ∙ w.reads_back;
      entry = subst (Written e offset buf) (sym made) w;
      others = λ j off.
          ap (λ es. get_or es j no_entry) entries ∙ get_or-set_ne r.entries i j e' no_entry off;
    }

-- On a valid table and with a `kmalloc` whose blocks are as long as asked for, `ramfs_write` into a
-- file in use, where the end of the range does not wrap, either fails with nothing changed, since
-- the buffer must grow and would exceed 8192 bytes or `kmalloc` returns NULL; or it leaves a valid
-- table, `ramfs_read` of the same range returns the bytes written, the other bytes of the file and
-- the other entries stay, and the size covers the range.
pub ramfs_write-cases :
    (kmalloc : ℕ → Option (List ℕ)) (r : Ramfs) (i offset : ℕ) (buf : List ℕ)
    → Allocates kmalloc
    → IsValid r
    → i < max_files
    → (get_or r.entries i no_entry).used ≡ true
    → is_file (get_or r.entries i no_entry).type ≡ true
    → offset + length buf < word_mod
    → ((ramfs_write kmalloc r i offset buf ≡ error)
        × Refused kmalloc (get_or r.entries i no_entry) (offset + length buf))
      ⊎ ((r' : Ramfs) × (ramfs_write kmalloc r i offset buf ≡ done r') × Wrote r i offset buf r')
unfolding ramfs_write put_entry
ramfs_write-cases kmalloc r i offset buf alloc v lt used file small =
    let e = get_or r.entries i no_entry in
    let opens = open_file_lem r i lt used file in
    let whole : i % 2 ^ 32 ≡ i = omega arith in
    elim (write_entry-cases kmalloc e offset buf alloc (v.stored i lt) small) [
      | inl (refused, why) ↦ inl (rw (whole, opens, refused) refl, why)
      | inr (e', wrote, w) ↦
          inr (_, rw (whole, opens, wrote) refl, put-Wrote r i offset buf e' v lt used file w)
    ]
