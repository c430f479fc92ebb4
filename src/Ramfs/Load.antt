-- ===== src/Ramfs/Load.antt =====
-- `ramfs_init` and `ramfs_load_from_disk` of kernel/fs/ramfs.c. `read` is `disk_read` of one sector
-- into a buffer: the bytes, or `none` for a negative result. `kmalloc` gives the bytes of a block
-- that is as long as asked for, or `none` for NULL.
use next_os.Prelude.{
  ℕ, zero, suc, ◌+◌, ◌-◌, ◌*◌, min, true, false, not, ◌||◌, Option, none, some, List, [], ◌∷◌, ltb,
  leb, ◌==◌, if◌then◌else◌, length, set, take, drop,
}
use next_os.Prelude.Slices.{overlay}
use next_os.Prelude.Bytes.{read32, c_string}
use next_os.Ramfs.Strings.{
  Outcome, fault, done, slash, desktop, documents, images, max_path, max_name,
}
use next_os.Ramfs.Table.{
  NodeType, file, directory, Entry, Ramfs, find_entry, find_slot, max_files, persist_lba,
  persist_magic, data_sectors,
}

-- The first loop of `ramfs_init`.
unfoldable pub cleared : List Entry → List Entry
cleared [] = []
cleared (e ∷ es) = record e { content = none; size = 0; capacity = 0; used = false } ∷ cleared es

unfoldable pub builtin : List ℕ → Entry
builtin name = record {
  name = name;
  parent = slash ∷ [];
  type = directory;
  content = none;
  size = 0;
  capacity = 0;
  used = true;
}

unfoldable pub with_builtins : List Entry → List Entry
with_builtins es = set (set (set es 0 (builtin desktop)) 1 (builtin documents)) 2 (builtin images)

-- A number other than those of the two enumerators is not represented.
unfoldable pub type_of : ℕ → NodeType
type_of code = if code == 0 then file else directory

-- What is saved of the sector of an entry.
unfoldable pub saved_entry : List ℕ → Entry
saved_entry sector = record {
  name = c_string sector;
  parent = c_string (drop 128 sector);
  type = type_of (read32 sector 384);
  content = none;
  size = read32 sector 388;
  capacity = 0;
  used = true;
}

unfoldable pub copy_sector : Option (List ℕ) → ℕ → ℕ → List ℕ → (List ℕ → List ℕ) → List ℕ
copy_sector none offset chunk block next = block
copy_sector (some sector) offset chunk block next = next (overlay block offset (take chunk sector))

-- The loop along the data sectors, with `n` left from sector `s` on.
unfoldable pub load_sectors : (ℕ → Option (List ℕ)) → ℕ → ℕ → ℕ → ℕ → List ℕ → List ℕ
load_sectors read zero s lba size block = block
load_sectors read (suc n) s lba size block =
    copy_sector (read (lba + s)) (s * 512) (min 512 (size - s * 512)) block
      (load_sectors read n (s + 1) lba size)

unfoldable pub filled : (ℕ → Option (List ℕ)) → ℕ → Entry → Option (List ℕ) → Entry
filled read lba e none = record e { content = none; size = 0; capacity = 0 }
filled read lba e (some block) = record e {
  content = some (load_sectors read (data_sectors e.size) 0 lba e.size block);
  capacity = e.size;
}

-- The entry with its data, which begins at the sector `lba`.
unfoldable pub with_data : (ℕ → Option (List ℕ)) → (ℕ → Option (List ℕ)) → ℕ → Entry → Entry
with_data kmalloc read lba e = if ltb 0 e.size then filled read lba e (kmalloc e.size) else e

-- An entry whose path is in the table is skipped.
unfoldable pub store_entry : Ramfs → Option ℕ → ℕ → Entry → Ramfs
store_entry r (some idx) slot e = r
store_entry r none slot e = record r {
  entries = set r.entries slot e;
  entry_count = r.entry_count + 1;
}

unfoldable pub load_slot : Ramfs → Option ℕ → Entry → (Ramfs → Outcome Ramfs) → Outcome Ramfs
load_slot r none e next = done r
load_slot r (some slot) e next = next (store_entry r (find_entry r e.parent e.name) slot e)

-- A round of the loop along the entries, at the sector `lba`; `next` goes on with the next ones.
unfoldable pub load_entry :
    (ℕ → Option (List ℕ))
    → (ℕ → Option (List ℕ))
    → ℕ
    → Ramfs
    → Option (List ℕ)
    → (ℕ → Ramfs → Outcome Ramfs)
    → Outcome Ramfs
load_entry kmalloc read lba r none next = done r
load_entry kmalloc read lba r (some sector) next =
    let e = saved_entry sector in
    if leb max_name (length e.name) || leb max_path (length e.parent)
    then fault
    else load_slot r (find_slot r) (with_data kmalloc read (lba + 1) e)
        (next (lba + 1 + data_sectors e.size))

unfoldable pub load_entries :
    (ℕ → Option (List ℕ)) → (ℕ → Option (List ℕ)) → ℕ → ℕ → Ramfs → Outcome Ramfs
load_entries kmalloc read zero lba r = done r
load_entries kmalloc read (suc n) lba r =
    load_entry kmalloc read lba r (read lba) (load_entries kmalloc read n)

unfoldable pub load_header :
    (ℕ → Option (List ℕ)) → (ℕ → Option (List ℕ)) → Ramfs → Option (List ℕ) → Outcome Ramfs
load_header kmalloc read r none = done r
load_header kmalloc read r (some sector) =
    let count = read32 sector 4 in
    if not (read32 sector 0 == persist_magic) || ltb (max_files - 3) count
    then done r
    else load_entries kmalloc read count (persist_lba + 1) r

-- `ramfs_load_from_disk`
unfoldable pub load_from_disk :
    (ℕ → Option (List ℕ)) → (ℕ → Option (List ℕ)) → Ramfs → Outcome Ramfs
load_from_disk kmalloc read r =
    if r.disk then load_header kmalloc read r (read persist_lba) else done r

unfoldable pub ramfs_init : (ℕ → Option (List ℕ)) → (ℕ → Option (List ℕ)) → Ramfs → Outcome Ramfs
ramfs_init kmalloc read r =
    load_from_disk kmalloc read
      (record r { entries = with_builtins (cleared r.entries); entry_count = 3 })
