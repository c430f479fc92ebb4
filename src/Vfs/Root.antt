-- ===== src/Vfs/Root.antt =====
-- `vfs_root_readdir` of kernel/fs/vfs.c.
use next_os.Prelude.{
  ℕ, zero, suc, ◌+◌, ◌-◌, ◌^◌, Bool, true, false, ◌&&◌, ◌||◌, Option, none, some, List, ltb, ◌==◌,
  if◌then◌else◌, get_or,
}
use next_os.Prelude.Outcome.{Outcome, fault, error, done}
use next_os.Disk.{Driver}
use next_os.Ramfs.Strings.{same, desktop, documents, images}
use next_os.Ramfs.Table.{Ramfs}
use next_os.Ramfs.Files.{Node}
use next_os.Ramfs.Readdir.{ramfs_readdir}
use next_os.Vfs.Node.{
  VfsNode, DiskFs, no_fs, fat32_fs, ext2_fs, ramfs_node, disk_root, cfg_name, cfg_node,
  readdir_disk,
}

-- `fs_data` of the local `ramfs_root`, -1 in 64 bits
abbrev pub ramfs_sentinel : ℕ
ramfs_sentinel = 2 ^ 64 - 1

-- The loop that counts the entries of the root of ramfs, whose node is there under each index below
-- their number; `none` says that the fuel ran out, or a fault.
unfoldable pub count_next : Outcome Node → ℕ → Option ℕ → Option ℕ
count_next fault count rest = none
count_next error count rest = some count
count_next (done node) count rest = rest

unfoldable pub count_ramfs : ℕ → Ramfs → ℕ → Option ℕ
count_ramfs zero r count = none
count_ramfs (suc n) r count =
    count_next (ramfs_readdir r ramfs_sentinel count) count (count_ramfs n r (count + 1))

unfoldable pub is_dot_entry : List ℕ → Bool
is_dot_entry name =
    get_or name 0 0 == b'.'
    && (get_or name 1 0 == 0 || (get_or name 1 0 == b'.' && get_or name 2 0 == 0))

unfoldable pub is_ramfs_builtin : List ℕ → Bool
is_ramfs_builtin name = same name desktop || (same name documents || same name images)

-- The entries of the disk that are skipped.
unfoldable pub hidden : List ℕ → Bool
hidden name = is_dot_entry name || (is_ramfs_builtin name || same name cfg_name)

-- What the loop along the disk's entries comes to: the entry, or their number.
pub data RootScan : Type 0 where
  found_node : VfsNode → RootScan
  seen : ℕ → RootScan

unfoldable pub root_entry :
    {D : Type 0}
    → Option (DiskFs D × Outcome VfsNode)
    → ℕ
    → ℕ
    → (DiskFs D → ℕ → Option (DiskFs D × Outcome RootScan))
    → Option (DiskFs D × Outcome RootScan)
root_entry none disk_scan disk_idx next = none
root_entry (some (fs, fault)) disk_scan disk_idx next = some (fs, fault)
root_entry (some (fs, error)) disk_scan disk_idx next = some (fs, done (seen disk_scan))
root_entry (some (fs, done child)) disk_scan disk_idx next =
    let skip = next fs disk_scan in
    let more = next fs (disk_scan + 1) in
    if hidden child.name
    then skip
    else if disk_scan == disk_idx
    then some (fs, done (found_node child))
    else more

-- The answer behind the loop.
unfoldable pub root_end :
    {D : Type 0} → ℕ → Option (DiskFs D × Outcome RootScan) → Option (DiskFs D × Outcome VfsNode)
root_end disk_idx none = none
root_end disk_idx (some (fs, fault)) = some (fs, fault)
root_end disk_idx (some (fs, error)) = some (fs, error)
root_end disk_idx (some (fs, done (found_node child))) = some (fs, done child)
root_end disk_idx (some (fs, done (seen disk_scan))) =
    if disk_scan == disk_idx then some (fs, done cfg_node) else some (fs, error)

unfoldable pub vfs_child : Outcome Node → Outcome VfsNode
vfs_child fault = fault
vfs_child error = error
vfs_child (done node) = done (ramfs_node node)

unfoldable pub is_ready : {D : Type 0} → DiskFs D → Bool
is_ready no_fs = false
is_ready (fat32_fs f) = true
is_ready (ext2_fs e) = true

module _ {D : Type 0} (drv : Driver D) (scratch : List ℕ) (fuel : ℕ) where
  -- The loop along the disk's entries from index `i` on, which has no bound in the code; `none` says
  -- that the fuel ran out.
  unfoldable pub scan_root : ℕ → DiskFs D → ℕ → ℕ → ℕ → Option (DiskFs D × Outcome RootScan)
  scan_root zero fs i disk_scan disk_idx = none
  scan_root (suc n) fs i disk_scan disk_idx =
      root_entry (readdir_disk drv scratch fuel fs (disk_root fs) i) disk_scan disk_idx
        (λ g count. scan_root n g (i + 1) count disk_idx)

  unfoldable pub root_behind : DiskFs D → Ramfs → ℕ → Option ℕ → Option (DiskFs D × Outcome VfsNode)
  root_behind fs r index none = none
  root_behind fs r index (some ramfs_count) =
      if ltb index ramfs_count
      then some (fs, vfs_child (ramfs_readdir r ramfs_sentinel index))
      else if is_ready fs
      then root_end (index - ramfs_count) (scan_root fuel fs 0 0 (index - ramfs_count))
      else some (fs, error)

  -- `vfs_root_readdir` with an index that is not negative; the loop of ramfs has fuel for 128 entries.
  unfoldable pub vfs_root_readdir : DiskFs D → Ramfs → ℕ → Option (DiskFs D × Outcome VfsNode)
  vfs_root_readdir fs r index = root_behind fs r index (count_ramfs 129 r 0)
