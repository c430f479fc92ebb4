-- ===== src/Vfs/OnFat32.antt =====
-- The directories of kernel/fs/fat32.c as kernel/fs/vfs.c sees them.
use next_os.Prelude.{
  ℕ, zero, suc, ◌/◌, ◌%◌, ◌<◌, ◌≡◌, refl, ap, ◌∙◌, some, List, [], ◌∷◌, ◌==◌, if◌then◌else◌, length,
  get_elem?,
}
use next_os.Disk.{Driver, Holds}
use next_os.Fat32.{
  Fat32, Dirent, dir_node, dirent_size, cluster_size, cluster_to_lba, next_cluster, u32,
}
use next_os.Fat32.Chains.{Chain, with_buf}
use next_os.Fat32.Listing.{live, all_dirents, answer, fat32_readdir-live}
use next_os.Vfs.Node.{
  VfsNode, DiskFs, fat32_fs, fat32_node, fat32_listed, root_inode, disk_root, readdir_disk,
}
use next_os.Vfs.Root.{is_ready}
use next_os.Vfs.Children.{listed}
use next_os.Vfs.Listing.{Directory, Mounted}

-- The states that differ from `f` in the buffer only.
abbrev pub On : {D : Type 0} → Fat32 D → DiskFs D → Type 0
On f g = (buf : List ℕ) × (g ≡ fat32_fs (with_buf f buf))

unfoldable pub fat32_nodes : List Dirent → List VfsNode
fat32_nodes [] = []
fat32_nodes (de ∷ des) = fat32_node (dir_node de) ∷ fat32_nodes des

-- The answer of `fat32_readdir`, as the list of nodes gives it.
as_listed :
    {D : Type 0} (f : Fat32 D) (des : List Dirent) (index : ℕ)
    → fat32_listed (some (answer f (get_elem? des index)))
      ≡ some (fat32_fs f, listed (get_elem? (fat32_nodes des) index))
unfolding fat32_listed fat32_nodes
as_listed f [] index = refl
as_listed f (de ∷ des) zero = refl
as_listed f (de ∷ des) (suc index) = as_listed f des index

module _ {D : Type 0} (drv : Driver D) (scratch : List ℕ) (f : Fat32 D) (sector : ℕ → List ℕ) where
  rebuffered :
      (bs : List (List ℕ)) (cluster : ℕ) (buf : List ℕ)
      → Chain drv scratch sector f cluster bs
      → Chain drv scratch sector (with_buf f buf) cluster bs
  unfolding Chain cluster_to_lba next_cluster
  rebuffered [] cluster buf h = h
  rebuffered (b ∷ bs) cluster buf (going, is_b, h) =
      (going, is_b, rebuffered bs (next_cluster drv scratch f cluster) buf h)

  -- The nodes of a directory with the clusters `bs`.
  abbrev pub nodes_of : List (List ℕ) → List VfsNode
  nodes_of bs = fat32_nodes (live (all_dirents (cluster_size drv scratch f / dirent_size) bs))

  pub fat32-Directory :
      (fuel : ℕ) (dir : VfsNode) (bs : List (List ℕ))
      → Holds drv f.disk sector
      → Chain drv scratch sector f
          (if dir.fs_data == 0 then f.bpb.root_cluster else dir.fs_data % u32)
          bs
      → length bs < fuel
      → Directory drv scratch fuel (On f) dir (nodes_of bs)
  unfolding readdir_disk
  fat32-Directory fuel dir bs holds chain enough g (buf, is_g) index =
      let cluster = if dir.fs_data == 0 then f.bpb.root_cluster else dir.fs_data % u32 in
      let des = live (all_dirents (cluster_size drv scratch f / dirent_size) bs) in
      let (buf', run) =
        fat32_readdir-live drv scratch (with_buf f buf) sector fuel bs dir.fs_data index holds
          (rebuffered bs cluster buf chain) enough in
      (
        fat32_fs (with_buf f buf'),
        ap (λ x. readdir_disk drv scratch fuel x dir index) is_g
            ∙ ap fat32_listed run
            ∙ as_listed (with_buf f buf') des index,
        (buf', refl),
      )

  pub fat32-Mounted : Mounted (On f) (disk_root (fat32_fs f))
  unfolding is_ready disk_root root_inode
  fat32-Mounted = record {
    ready = λ g (buf, is_g). ap is_ready is_g;
    rooted = λ g (buf, is_g). ap disk_root is_g;
  }
