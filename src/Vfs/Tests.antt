-- ===== src/Vfs/Tests.antt =====
-- The virtual file system over the disk in memory of Fat32/Example.
use next_os.Prelude.{
  ℕ, ◌≡◌, refl, true, false, some, List, [], ◌∷◌, ◌++◌, length, get_elem?, replicate, arith,
}
use next_os.Prelude.Outcome.{done}
use next_os.Ramfs.Strings.{slash, same, starts_with, is_ramfs_path}
use next_os.Ramfs.Table.{file, Ramfs, no_entry}
use next_os.Ramfs.Persist.{builtins}
use next_os.Fat32.{dirent_at, skipped, dir_node, format_name, to_space, lower}
use next_os.Fat32.Listing.{live, all_dirents, dirents}
use next_os.Fat32.Example.{memory, sector, sector-Holds, mounted, blocks, chain}
use next_os.Vfs.{Vfs, vfs_open}
use next_os.Vfs.Node.{
  VfsNode, no_op, disk_op, DiskFs, fat32_fs, fat32_node, node_type, dir_op, cfg_name, cfg_node,
  disk_root,
}
use next_os.Vfs.Root.{vfs_root_readdir}
use next_os.Vfs.Children.{listed, root_children, visible}
use next_os.Vfs.Listing.{vfs_root_readdir-lists}
use next_os.Vfs.OnFat32.{On, fat32_nodes, nodes_of, fat32-Directory, fat32-Mounted}
use next_os.Vfs.Names.{first_named, NoSlash, IsComponent, joined}
use next_os.Vfs.Walk.{Leads, here, down, vfs_open-Leads}

abbrev files : Ramfs
files = record {
  entries = builtins ++ (no_entry ∷ []);
  entry_count = 3;
  disk = true;
  disk_writes = [];
}

thirty_two : length (nodes_of memory [] mounted sector blocks) ≡ 32
unfolding fat32_nodes live all_dirents dirents dirent_at skipped
thirty_two = refl

vfs_root_readdir-lists_example :
    (fs' : DiskFs (ℕ → List ℕ)) × (vfs_root_readdir memory [] 40 (fat32_fs mounted) files 7
      ≡ some (
        fs',
        listed (
            get_elem?
              (root_children files
                ++ (visible (nodes_of memory [] mounted sector blocks) ++ (cfg_node ∷ [])))
              7),
      ))
    × On mounted fs'
unfolding disk_root
vfs_root_readdir-lists_example =
    vfs_root_readdir-lists memory [] 40 (On mounted) (disk_root (fat32_fs mounted))
      (fat32_fs mounted) files (nodes_of memory [] mounted sector blocks) 7
      (fat32-Mounted memory [] mounted sector)
      (fat32-Directory memory [] mounted sector 40 (disk_root (fat32_fs mounted)) blocks
        sector-Holds chain (omega arith))
      ([], refl) (omega arith) (omega (arith, thirty_two))

-- The name of the first entry, whose bytes are all 2.
abbrev two_name : List ℕ
two_name = replicate 8 2 ++ (b'.' ∷ replicate 3 2)

abbrev two_node : VfsNode
two_node = record {
  name = two_name;
  type = file;
  size = 33686018;
  inode = 0;
  fs_data = 33686018;
  read = disk_op;
  write = disk_op;
  readdir = no_op;
}

two_name-IsComponent : IsComponent two_name
unfolding NoSlash
two_name-IsComponent = record {
  some_byte = omega arith;
  short = omega arith;
  plain = (
    refl,
    (refl, (refl, (refl, (refl, (refl, (refl, (refl, (refl, (refl, (refl, (refl, tt))))))))))),
  );
}

two_first : first_named two_name (nodes_of memory [] mounted sector blocks) ≡ some two_node
unfolding first_named fat32_nodes live all_dirents dirents dirent_at skipped same fat32_node
    node_type dir_op dir_node format_name to_space lower
two_first = refl

two-Leads :
    Leads memory [] 40
      (On mounted)
      (disk_root (fat32_fs mounted))
      (disk_root (fat32_fs mounted))
      (two_name ∷ [])
      two_node
unfolding disk_root
two-Leads =
    down (nodes_of memory [] mounted sector blocks)
      (record {
        typed = refl;
        by_disk = refl;
        lists =
            fat32-Directory memory [] mounted sector 40 (disk_root (fat32_fs mounted)) blocks
              sector-Holds chain (omega arith);
        bounded = omega (arith, thirty_two);
      })
      two_name-IsComponent two_first here

abbrev system : Vfs (ℕ → List ℕ)
system = record { root_node = disk_root (fat32_fs mounted); fs = fat32_fs mounted; ramfs = files }

two_not_ramfs : is_ramfs_path (slash ∷ joined (two_name ∷ [])) ≡ false
unfolding is_ramfs_path starts_with joined
two_not_ramfs = refl

two_not_cfg : same (slash ∷ joined (two_name ∷ [])) (slash ∷ cfg_name) ≡ false
unfolding same joined
two_not_cfg = refl

vfs_open-Leads_example :
    (fs : DiskFs (ℕ → List ℕ)) × (vfs_open memory [] 40 system (slash ∷ joined (two_name ∷ []))
      ≡ some (record system { fs = fs }, done two_node))
    × On mounted fs
vfs_open-Leads_example =
    vfs_open-Leads memory [] 40 (On mounted) (disk_root (fat32_fs mounted)) system two_node two_name
      [] (fat32-Mounted memory [] mounted sector) ([], refl) two-Leads two_name-IsComponent
      two_not_ramfs two_not_cfg
