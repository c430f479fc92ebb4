-- ===== src/Vfs/Node.antt =====
-- kernel/fs/vfs.h and kernel/fs/vfs.c: the nodes, the drivers behind them, and nextos.cfg.
use next_os.Prelude.{
  ℕ, ◌+◌, ◌-◌, ◌%◌, ◌^◌, Bool, not, ◌&&◌, Option, none, some, List, [], ◌∷◌, ◌++◌, ltb, leb, ◌==◌,
  if◌then◌else◌, length, take, drop, bytes_of,
}
use next_os.Prelude.Outcome.{Outcome, fault, error, done}
use next_os.Disk.{Driver}
use next_os.Fat32
use next_os.Fat32.{Fat32, fat32_read, fat32_write, fat32_readdir}
use next_os.Ext2
use next_os.Ext2.{Ext2, ext2_read, ext2_write, ext2_readdir}
use next_os.Ramfs.Table.{NodeType, file, directory}
use next_os.Ramfs.Files.{Node}

-- A function pointer of a node: NULL, `vfs_root_readdir`, `cfg_read`, or a function of ramfs or of
-- the driver of the disk's file system.
pub data Op : Type 0 where
  no_op root_op cfg_op ramfs_op disk_op : Op

-- `vfs_node_t`
pub record VfsNode : Type 0 where
  pub name : List ℕ
  pub type : NodeType
  pub size : ℕ
  pub inode : ℕ
  pub fs_data : ℕ
  pub read : Op
  pub write : Op
  pub readdir : Op

-- The file system of the disk: `fs_type` and `disk_fs_ready` with the state of the driver.
pub data DiskFs (D : Type 0) : Type 0 where
  no_fs : DiskFs D
  fat32_fs : Fat32 D → DiskFs D
  ext2_fs : Ext2 D → DiskFs D

unfoldable pub node_type : Bool → NodeType
node_type is_directory = if is_directory then directory else file

unfoldable pub dir_op : Bool → Op → Op
dir_op is_directory op = if is_directory then op else no_op

-- The nodes that the three drivers fill in.
unfoldable pub ramfs_node : Node → VfsNode
ramfs_node n = record {
  name = n.name;
  type = n.type;
  size = n.size;
  inode = 0;
  fs_data = n.fs_data;
  read = ramfs_op;
  write = ramfs_op;
  readdir = dir_op n.is_dir ramfs_op;
}

unfoldable pub fat32_node : Fat32.DirNode → VfsNode
fat32_node n = record {
  name = n.name;
  type = node_type n.is_directory;
  size = n.size;
  inode = 0;
  fs_data = n.fs_data;
  read = disk_op;
  write = disk_op;
  readdir = dir_op n.is_directory disk_op;
}

unfoldable pub ext2_node : Ext2.DirNode → VfsNode
ext2_node n = record {
  name = n.name;
  type = node_type n.is_directory;
  size = n.size;
  inode = n.inode;
  fs_data = 0;
  read = disk_op;
  write = disk_op;
  readdir = dir_op n.is_directory disk_op;
}

unfoldable pub root_inode : {D : Type 0} → DiskFs D → ℕ
root_inode no_fs = 0
root_inode (fat32_fs f) = 0
root_inode (ext2_fs e) = 2

-- The local `disk_root` of `vfs_open` and `vfs_root_readdir`.
unfoldable pub disk_root : {D : Type 0} → DiskFs D → VfsNode
disk_root fs = record {
  name = bytes_of "/";
  type = directory;
  size = 0;
  inode = root_inode fs;
  fs_data = 0;
  read = no_op;
  write = no_op;
  readdir = disk_op;
}

abbrev pub cfg_name : List ℕ
cfg_name = bytes_of "nextos.cfg"

abbrev pub cfg_node : VfsNode
cfg_node = record {
  name = cfg_name;
  type = file;
  size = 0;
  inode = 0;
  fs_data = 0;
  read = cfg_op;
  write = no_op;
  readdir = no_op;
}

abbrev pub line_end : List ℕ
line_end = 10 ∷ []

abbrev pub cfg_content : List ℕ
cfg_content =
    (bytes_of "[nextOS Configuration]" ++ line_end)
    ++ ((bytes_of "This file stores system settings." ++ line_end)
        ++ (bytes_of "Managed automatically by Settings app." ++ line_end))

-- `cfg_read`. The offset and the size are cut to an `int`; a negative result of the cut size is an
-- error.
unfoldable pub cfg_read : ℕ → ℕ → Outcome (List ℕ)
cfg_read offset size =
    let o = offset % 2 ^ 32 in
    let s = size % 2 ^ 32 in
    let len = length cfg_content in
    let avail = if ltb o (2 ^ 31) then len - o else len + (2 ^ 32 - o) in
    let to_copy = if ltb s avail then s else avail in
    if ltb o (2 ^ 31) && leb len o
    then done []
    else if leb (2 ^ 31) s
    then error
    else if not (to_copy == 0) && ltb len (offset + to_copy)
    then fault
    else done (take to_copy (drop offset cfg_content))

unfoldable pub fat32_listed :
    {D : Type 0} → Option (Fat32 D × Option Fat32.DirNode) → Option (DiskFs D × Outcome VfsNode)
fat32_listed none = none
fat32_listed (some (f, none)) = some (fat32_fs f, error)
fat32_listed (some (f, some n)) = some (fat32_fs f, done (fat32_node n))

unfoldable pub ext2_listed :
    {D : Type 0} → Option (Ext2 D × Outcome Ext2.DirNode) → Option (DiskFs D × Outcome VfsNode)
ext2_listed none = none
ext2_listed (some (e, fault)) = some (ext2_fs e, fault)
ext2_listed (some (e, error)) = some (ext2_fs e, error)
ext2_listed (some (e, done n)) = some (ext2_fs e, done (ext2_node n))

-- The outcome of a call on `e`.
unfoldable pub ext2_outcome : {D R : Type 0} → Ext2 D → Outcome (Ext2 D × R) → DiskFs D × Outcome R
ext2_outcome e fault = (ext2_fs e, fault)
ext2_outcome e error = (ext2_fs e, error)
ext2_outcome e (done (g, r)) = (ext2_fs g, done r)

unfoldable pub fat32_bytes :
    {D : Type 0} → Option (Fat32 D × List ℕ) → Option (DiskFs D × Outcome (List ℕ))
fat32_bytes none = none
fat32_bytes (some (f, bytes)) = some (fat32_fs f, done bytes)

unfoldable pub fat32_written : {D : Type 0} → Option (Fat32 D × ℕ) → Option (DiskFs D × Outcome ℕ)
fat32_written none = none
fat32_written (some (f, count)) = some (fat32_fs f, done count)

-- The calls of the disk's file system; `none` says that the fuel of a FAT32 loop ran out.
module _ {D : Type 0} (drv : Driver D) (scratch : List ℕ) (fuel : ℕ) where
  unfoldable pub readdir_disk : DiskFs D → VfsNode → ℕ → Option (DiskFs D × Outcome VfsNode)
  readdir_disk no_fs node index = some (no_fs, error)
  readdir_disk (fat32_fs f) node index =
      fat32_listed (fat32_readdir drv scratch fuel f node.fs_data index)
  readdir_disk (ext2_fs e) node index = ext2_listed (ext2_readdir drv scratch e node.inode index)

  unfoldable pub read_disk : DiskFs D → VfsNode → ℕ → ℕ → Option (DiskFs D × Outcome (List ℕ))
  read_disk no_fs node offset size = some (no_fs, error)
  read_disk (fat32_fs f) node offset size =
      fat32_bytes (fat32_read drv scratch fuel f node.fs_data offset size)
  read_disk (ext2_fs e) node offset size =
      some (ext2_outcome e (ext2_read drv scratch e node.inode offset size))

  unfoldable pub write_disk : DiskFs D → VfsNode → ℕ → List ℕ → Option (DiskFs D × Outcome ℕ)
  write_disk no_fs node offset buf = some (no_fs, error)
  write_disk (fat32_fs f) node offset buf =
      fat32_written (fat32_write drv scratch fuel f node.fs_data offset buf)
  write_disk (ext2_fs e) node offset buf =
      some (ext2_outcome e (ext2_write drv scratch e node.inode offset buf))
