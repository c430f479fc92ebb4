-- ===== src/Ramfs.antt =====
-- kernel/fs/ramfs.c, the file system in memory. `kmalloc` is an argument of `ramfs_write`: the
-- bytes of the block that it returns for a size, or `none` for NULL.
pub mod Strings
pub mod Table
pub mod Files
pub mod Grow
pub mod Write
pub mod Find
pub mod Valid
pub mod Create
pub mod Delete
pub mod Rename
pub mod RoundTrip
pub mod Lookup
pub mod Readdir
pub mod Place
pub mod Listing
pub mod Load
pub mod Decode
pub mod Sectors
pub mod Reload
pub mod Users
pub mod LoadLoop
pub mod Persist
mod Tests
mod LoadTests
pub mod Split
use next_os.Prelude.{
  ℕ, zero, suc, ◌+◌, ◌-◌, ◌%◌, ◌^◌, Bool, true, false, not, ◌&&◌, ◌||◌, Option, none, some, List,
  [], ◌∷◌, ◌++◌, ltb, leb, ◌==◌, if◌then◌else◌, length, get_or, set, take, drop, replicate,
}
use next_os.Prelude.Words.{word_mod}
use next_os.Ramfs.Strings.{
  Outcome, fault, error, done, same, slash, split_path, max_path, max_name, path_end, desktop,
  documents, images,
}
use next_os.Ramfs.Table.{
  NodeType, file, directory, Entry, Ramfs, no_entry, find_from, find_entry, find_slot, max_files,
  is_builtin, sync_to_disk,
}

-- `ramfs_create` once the slot is found.
unfoldable pub fill_slot : Ramfs → List ℕ → List ℕ → NodeType → Option ℕ → Outcome Ramfs
fill_slot r parent name type none = error
fill_slot r parent name type (some slot) =
    let entry : Entry = record {
      name = name;
      parent = parent;
      type = type;
      content = none;
      size = 0;
      capacity = 0;
      used = true;
    } in
    done (
      sync_to_disk
        (record r { entries = set r.entries slot entry; entry_count = r.entry_count + 1 }))

-- `ramfs_create` once the path is split and the name looked up.
unfoldable pub create_new : Ramfs → List ℕ → List ℕ → NodeType → Option ℕ → Outcome Ramfs
create_new r parent name type (some idx) = error
create_new r parent name type none = fill_slot r parent name type (find_slot r)

unfoldable pub create_at : Ramfs → NodeType → Outcome (List ℕ × List ℕ) → Outcome Ramfs
create_at r type fault = fault
create_at r type error = error
create_at r type (done (parent, name)) =
    if length name == 0 then error else create_new r parent name type (find_entry r parent name)

-- `ramfs_create` of a path that is not NULL; `error` changes nothing.
unfoldable pub ramfs_create : Ramfs → List ℕ → NodeType → Outcome Ramfs
ramfs_create r path type =
    if leb max_files r.entry_count then error else create_at r type (split_path path)

-- `ramfs_delete` once the entry is found.
unfoldable pub delete_found : Ramfs → List ℕ → List ℕ → Option ℕ → Outcome Ramfs
delete_found r parent name none = error
delete_found r parent name (some idx) =
    let e = get_or r.entries idx no_entry in
    let cleared = record e { content = none; size = 0; capacity = 0; used = false } in
    if is_builtin parent name
    then error
    else done (
        sync_to_disk
          (record r { entries = set r.entries idx cleared; entry_count = r.entry_count - 1 }))

unfoldable pub delete_at : Ramfs → Outcome (List ℕ × List ℕ) → Outcome Ramfs
delete_at r fault = fault
delete_at r error = error
delete_at r (done (parent, name)) = delete_found r parent name (find_entry r parent name)

-- `ramfs_delete` of a path that is not NULL
unfoldable pub ramfs_delete : Ramfs → List ℕ → Outcome Ramfs
ramfs_delete r path = delete_at r (split_path path)

-- `ramfs_rename` once the entry is found.
unfoldable pub rename_found : Ramfs → List ℕ → List ℕ → Option ℕ → Outcome Ramfs
rename_found r parent name none = error
rename_found r parent name (some idx) =
    let e = get_or r.entries idx no_entry in
    let renamed = record e { name = name; parent = parent } in
    done (sync_to_disk (record r { entries = set r.entries idx renamed }))

unfoldable pub rename_at :
    Ramfs → Outcome (List ℕ × List ℕ) → Outcome (List ℕ × List ℕ) → Outcome Ramfs
rename_at r fault target = fault
rename_at r error target = error
rename_at r (done source) fault = fault
rename_at r (done source) error = error
rename_at r (done (old_parent, old_name)) (done (new_parent, new_name)) =
    rename_found r new_parent new_name (find_entry r old_parent old_name)

-- `ramfs_rename` of paths that are not NULL
unfoldable pub ramfs_rename : Ramfs → List ℕ → List ℕ → Outcome Ramfs
ramfs_rename r old_path new_path = rename_at r (split_path old_path) (split_path new_path)
