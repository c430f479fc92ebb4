-- ===== src/Vfs.antt =====
-- kernel/fs/vfs.c, the virtual file system: the dispatch to ramfs and to the file system of the disk,
-- and the walk along a path. The state of the three drivers is part of the state. `kmalloc` is an
-- argument of the functions that reach it.
pub mod Node
pub mod Root
pub mod Shown
pub mod Children
pub mod Listing
pub mod OnFat32
pub mod Names
pub mod Walk
mod Tests
use next_os.Prelude.{
  ℕ, zero, suc, ◌+◌, ◌-◌, Bool, true, false, not, ◌&&◌, ◌||◌, Option, none, some, List, [], ◌∷◌,
  ltb, leb, ◌==◌, if◌then◌else◌, length, bytes_of,
}
use next_os.Prelude.Outcome.{Outcome, fault, error, done}
use next_os.Disk.{Driver}
use next_os.Fat32.{Fat32, fat32_init}
use next_os.Ext2.{Ext2, ext2_init}
use next_os.Ramfs.{ramfs_create, ramfs_delete, ramfs_rename}
use next_os.Ramfs.Strings.{same, slash, is_ramfs_path}
use next_os.Ramfs.Table.{NodeType, file, directory, Ramfs}
use next_os.Ramfs.Files.{ramfs_lookup, ramfs_read, ramfs_write}
use next_os.Ramfs.Readdir.{ramfs_readdir}
use next_os.Ramfs.Load.{ramfs_init}
use next_os.Vfs.Node.{
  Op, no_op, root_op, cfg_op, ramfs_op, disk_op, VfsNode, DiskFs, no_fs, fat32_fs, ext2_fs,
  disk_root, root_inode, cfg_name, cfg_node, cfg_read, readdir_disk, read_disk, write_disk,
}
use next_os.Vfs.Root.{vfs_child, is_ready, vfs_root_readdir}

pub record Vfs (D : Type 0) : Type 0 where
  pub root_node : VfsNode
  pub fs : DiskFs D
  pub ramfs : Ramfs

-- The result of a call with the state behind it; `none` says that the fuel ran out.
abbrev pub Result : Type 0 → Type 0 → Type 0
Result D A = Option (Vfs D × Outcome A)

unfoldable pub choose_fs : {D : Type 0} → Option (Fat32 D) → Option (Ext2 D) → DiskFs D
choose_fs (some f) ext2 = fat32_fs f
choose_fs none (some e) = ext2_fs e
choose_fs none none = no_fs

unfoldable pub with_root : {D : Type 0} → DiskFs D → Outcome Ramfs → Outcome (Vfs D)
with_root fs fault = fault
with_root fs error = error
with_root fs (done r) = done (record {
  root_node = record {
    name = bytes_of "/";
    type = directory;
    size = 0;
    inode = root_inode fs;
    fs_data = 0;
    read = no_op;
    write = no_op;
    readdir = root_op;
  };
  fs = fs;
  ramfs = r;
})

-- `disk_read` of one sector of the primary disk.
unfoldable pub read_sector : {D : Type 0} → Driver D → List ℕ → Option D → ℕ → Option (List ℕ)
read_sector drv scratch none lba = none
read_sector drv scratch (some d) lba =
    let (bytes, ok) = drv.read d lba 1 scratch in if ok then some bytes else none

-- A new state of the disk's file system.
unfoldable pub put_fs : {D A : Type 0} → Vfs D → Option (DiskFs D × Outcome A) → Result D A
put_fs v none = none
put_fs v (some (fs, answer)) = some (record v { fs = fs }, answer)

unfoldable pub put_written : {D : Type 0} → Vfs D → List ℕ → Outcome Ramfs → Result D ℕ
put_written v buf fault = some (v, fault)
put_written v buf error = some (v, error)
put_written v buf (done r) = some (record v { ramfs = r }, done (length buf))

unfoldable pub put_ramfs : {D : Type 0} → Vfs D → Outcome Ramfs → Vfs D × Outcome (Unit {0})
put_ramfs v fault = (v, fault)
put_ramfs v error = (v, error)
put_ramfs v (done r) = (record v { ramfs = r }, done tt)

-- The next component of a path, of at most `n` bytes, and what is left, without the slash behind it.
unfoldable pub after_component : List ℕ → List ℕ
after_component [] = []
after_component (c ∷ path) = if c == slash then path else c ∷ path

unfoldable pub next_component : ℕ → List ℕ → List ℕ × List ℕ
next_component zero path = ([], after_component path)
next_component (suc n) [] = ([], [])
next_component (suc n) (c ∷ path) =
    let (component, rest) = next_component n path in
    if c == slash then ([], path) else (c ∷ component, rest)

-- What the search in a directory does with one child; `next` goes on with the next one.
unfoldable pub search_child :
    {D : Type 0} → Result D VfsNode → List ℕ → (Vfs D → Result D VfsNode) → Result D VfsNode
search_child none component next = none
search_child (some (v, fault)) component next = some (v, fault)
search_child (some (v, error)) component next = some (v, error)
search_child (some (v, done child)) component next =
    let rest = next v in if same child.name component then some (v, done child) else rest

unfoldable pub walk_found :
    {D : Type 0} → Result D VfsNode → (Vfs D → VfsNode → Result D VfsNode) → Result D VfsNode
walk_found none next = none
walk_found (some (v, fault)) next = some (v, fault)
walk_found (some (v, error)) next = some (v, error)
walk_found (some (v, done child)) next = next v child

module _ {D : Type 0} (drv : Driver D) (scratch : List ℕ) (fuel : ℕ) where
  -- `vfs_init`, called once; `primary` is what `disk_get_primary` returns.
  unfoldable pub vfs_init : (ℕ → Option (List ℕ)) → Option D → Ramfs → Outcome (Vfs D)
  vfs_init kmalloc primary r =
      with_root
        (choose_fs (fat32_init drv scratch kmalloc primary) (ext2_init drv scratch kmalloc primary))
        (ramfs_init kmalloc (read_sector drv scratch primary) r)

  -- The call of a directory's `readdir`.
  unfoldable pub readdir_op : Op → Vfs D → VfsNode → ℕ → Result D VfsNode
  readdir_op no_op v dir index = some (v, error)
  readdir_op root_op v dir index = put_fs v (vfs_root_readdir drv scratch fuel v.fs v.ramfs index)
  readdir_op cfg_op v dir index = some (v, error)
  readdir_op ramfs_op v dir index = some (v, vfs_child (ramfs_readdir v.ramfs dir.fs_data index))
  readdir_op disk_op v dir index = put_fs v (readdir_disk drv scratch fuel v.fs dir index)

  unfoldable pub readdir_typed : NodeType → Vfs D → VfsNode → ℕ → Result D VfsNode
  readdir_typed file v dir index = some (v, error)
  readdir_typed directory v dir index = readdir_op dir.readdir v dir index

  unfoldable pub vfs_readdir : Vfs D → VfsNode → ℕ → Result D VfsNode
  vfs_readdir v dir index = readdir_typed dir.type v dir index

  -- The call of a node's `read`.
  unfoldable pub read_op : Op → Vfs D → VfsNode → ℕ → ℕ → Result D (List ℕ)
  read_op no_op v node offset size = some (v, error)
  read_op root_op v node offset size = some (v, error)
  read_op cfg_op v node offset size = some (v, cfg_read offset size)
  read_op ramfs_op v node offset size = some (v, ramfs_read v.ramfs node.fs_data offset size)
  read_op disk_op v node offset size = put_fs v (read_disk drv scratch fuel v.fs node offset size)

  unfoldable pub vfs_read : Vfs D → VfsNode → ℕ → ℕ → Result D (List ℕ)
  vfs_read v node offset size = read_op node.read v node offset size

  -- The call of a node's `write`.
  unfoldable pub write_op : (ℕ → Option (List ℕ)) → Op → Vfs D → VfsNode → ℕ → List ℕ → Result D ℕ
  write_op kmalloc no_op v node offset buf = some (v, error)
  write_op kmalloc root_op v node offset buf = some (v, error)
  write_op kmalloc cfg_op v node offset buf = some (v, error)
  write_op kmalloc ramfs_op v node offset buf =
      put_written v buf (ramfs_write kmalloc v.ramfs node.fs_data offset buf)
  write_op kmalloc disk_op v node offset buf =
      put_fs v (write_disk drv scratch fuel v.fs node offset buf)

  unfoldable pub vfs_write : (ℕ → Option (List ℕ)) → Vfs D → VfsNode → ℕ → List ℕ → Result D ℕ
  vfs_write kmalloc v node offset buf = write_op kmalloc node.write v node offset buf

  -- The inner loop of `vfs_open`, along the children from index `i` on.
  unfoldable pub search_dir : ℕ → Vfs D → VfsNode → ℕ → List ℕ → Result D VfsNode
  search_dir zero v dir i component = none
  search_dir (suc n) v dir i component =
      search_child (vfs_readdir v dir i) component (λ w. search_dir n w dir (i + 1) component)

  -- The outer loop of `vfs_open`. Each round takes at least one byte of the path.
  unfoldable pub walk : ℕ → Vfs D → VfsNode → List ℕ → Result D VfsNode
  walk n v current [] = some (v, done current)
  walk zero v current (c ∷ path) = none
  walk (suc n) v current (c ∷ path) =
      let (component, rest) = next_component 127 (c ∷ path) in
      walk_found (search_dir fuel v current 0 component) (λ w child. walk n w child rest)

  unfoldable pub walk_disk : Vfs D → List ℕ → Result D VfsNode
  walk_disk v path =
      let p = after_component path in
      if is_ready v.fs then walk (length p) v (disk_root v.fs) p else some (v, error)

  -- `vfs_open` of a path and a node that are not NULL
  unfoldable pub vfs_open : Vfs D → List ℕ → Result D VfsNode
  vfs_open v path =
      if same path (slash ∷ [])
      then some (v, done v.root_node)
      else if is_ramfs_path path
      then some (v, vfs_child (ramfs_lookup v.ramfs path))
      else if same path (slash ∷ cfg_name)
      then some (v, done cfg_node)
      else walk_disk v path

unfoldable pub vfs_create : {D : Type 0} → Vfs D → List ℕ → NodeType → Vfs D × Outcome (Unit {0})
vfs_create v path type =
    if is_ramfs_path path then put_ramfs v (ramfs_create v.ramfs path type) else (v, error)

unfoldable pub vfs_delete : {D : Type 0} → Vfs D → List ℕ → Vfs D × Outcome (Unit {0})
vfs_delete v path =
    if is_ramfs_path path then put_ramfs v (ramfs_delete v.ramfs path) else (v, error)

unfoldable pub vfs_rename : {D : Type 0} → Vfs D → List ℕ → List ℕ → Vfs D × Outcome (Unit {0})
vfs_rename v old_path new_path =
    if is_ramfs_path old_path
    then put_ramfs v (ramfs_rename v.ramfs old_path new_path)
    else (v, error)
