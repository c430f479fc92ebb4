-- ===== src/Fat32/Tests.antt =====
-- The properties on a disk in memory with a file of two clusters, 2 and 3, of one sector each.
use next_os.Prelude.{
  ℕ, ◌/◌, ◌≤◌, ◌≡◌, refl, some, List, [], ◌∷◌, length, get_elem?, take, drop, bytes_of, arith,
}
use next_os.Disk.Parts.{concat}
use next_os.Fat32.{
  Fat32, Dirent, cluster_size, fat32_read, fat32_readdir, dirent_size, format_name, to_space, lower,
}
use next_os.Fat32.Chains.{with_buf}
use next_os.Fat32.Read.{fat32_read-content, fat32_read-ends}
use next_os.Fat32.Listing.{answer, live, all_dirents, fat32_readdir-live}
use next_os.Fat32.Example.{memory, sector, sector-Holds, mounted, blocks, chain}

fat32_read-content_example :
    (buf : List ℕ) × (fat32_read memory [] 3 mounted 2 510 4
      ≡ some (with_buf mounted buf, take 4 (drop 510 (concat blocks))))
fat32_read-content_example =
    fat32_read-content memory [] mounted sector 3 blocks 2 510 4 sector-Holds (omega arith)
      (omega arith) (omega arith) chain (omega arith)

-- The range goes over the border of the clusters.
over_border : take 4 (drop 510 (concat blocks)) ≡ 2 ∷ 2 ∷ 3 ∷ 3 ∷ []
over_border = refl

fat32_read-ends_example :
    (g : Fat32 (ℕ → List ℕ)) × (bytes : List ℕ) × (fat32_read memory [] 515 mounted 2 510 4
      ≡ some (g, bytes))
    × (length bytes ≤ 4)
fat32_read-ends_example =
    fat32_read-ends memory [] mounted sector 515 2 510 4 sector-Holds (omega arith) (omega arith)
      (omega arith) (omega arith)

fat32_readdir-live_example :
    (buf : List ℕ) × (fat32_readdir memory [] 3 mounted 0 20
      ≡ some (
          answer (with_buf mounted buf) (
            get_elem?
              (live (all_dirents (cluster_size memory [] mounted / dirent_size) blocks))
              20)))
fat32_readdir-live_example =
    fat32_readdir-live memory [] mounted sector 3 blocks 0 20 sector-Holds chain (omega arith)

a_name : Dirent
a_name = record {
  name = bytes_of "README  ";
  ext = bytes_of "TXT";
  attr = 0x20;
  cluster_hi = 0;
  cluster_lo = 2;
  file_size = 5;
}

formats : format_name a_name ≡ bytes_of "readme.txt"
unfolding format_name to_space lower a_name
formats = refl
