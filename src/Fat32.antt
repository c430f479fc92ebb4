-- ===== src/Fat32.antt =====
-- kernel/fs/fat32.c, the FAT32 driver, over a disk driver. `scratch` is what the stack holds where
-- `fat32_next_cluster` has its buffer. The loops along a chain of clusters take fuel; `none` says
-- that it ran out.
pub mod Chains
pub mod Read
pub mod Listing
pub mod Example
mod Tests
use next_os.Prelude.{
  ℕ, zero, suc, ◌+◌, ◌-◌, ◌*◌, ◌/◌, ◌%◌, ◌^◌, bit_and, bit_or, Bool, true, false, not, ◌&&◌, ◌||◌,
  Option, none, some, List, [], ◌∷◌, ◌++◌, ltb, leb, ◌==◌, if◌then◌else◌, length, get_or, take,
  drop,
}
use next_os.Prelude.Words.{word_mod}
use next_os.Prelude.Slices.{overlay}
use next_os.Prelude.Bytes.{read16, read32, c_string}
use next_os.Disk.{Driver}
use next_os.Disk.Parts.{part_start, part_end, part}

abbrev pub u32 : ℕ
u32 = 4294967296

-- The fields of `fat32_bpb_t` that the code reads.
pub record Bpb : Type 0 where
  pub bytes_per_sector : ℕ
  pub sectors_per_cluster : ℕ
  pub reserved_sectors : ℕ
  pub num_fats : ℕ
  pub root_entry_count : ℕ
  pub fat_size_32 : ℕ
  pub root_cluster : ℕ
  pub boot_sig : ℕ

-- The boot sector read as `fat32_bpb_t`.
unfoldable pub read_bpb : List ℕ → Bpb
read_bpb sector = record {
  bytes_per_sector = read16 sector 11;
  sectors_per_cluster = get_or sector 13 0;
  reserved_sectors = read16 sector 14;
  num_fats = get_or sector 16 0;
  root_entry_count = read16 sector 17;
  fat_size_32 = read32 sector 36;
  root_cluster = read32 sector 44;
  boot_sig = get_or sector 66 0;
}

-- `fat32_dirent_t`, without its times
pub record Dirent : Type 0 where
  pub name : List ℕ
  pub ext : List ℕ
  pub attr : ℕ
  pub cluster_hi : ℕ
  pub cluster_lo : ℕ
  pub file_size : ℕ

abbrev pub dirent_size : ℕ
dirent_size = 32

-- The directory entry at an index of a buffer.
unfoldable pub dirent_at : List ℕ → ℕ → Dirent
dirent_at buf i =
    let at = i * dirent_size in
    record {
      name = take 8 (drop at buf);
      ext = take 3 (drop (at + 8) buf);
      attr = get_or buf (at + 11) 0;
      cluster_hi = read16 buf (at + 20);
      cluster_lo = read16 buf (at + 26);
      file_size = read32 buf (at + 28);
    }

pub record Fat32 (D : Type 0) : Type 0 where
  pub bpb : Bpb
  pub disk : D
  pub fat_start_lba : ℕ
  pub data_start_lba : ℕ
  pub sectors_per_cluster : ℕ
  pub cluster_buf : List ℕ

abbrev pub end_of_chain : ℕ
end_of_chain = 0x0ffffff8

-- What the directory scan makes of a node; `name` is a C string.
pub record DirNode : Type 0 where
  pub name : List ℕ
  pub is_directory : Bool
  pub size : ℕ
  pub fs_data : ℕ

-- A part of a name, up to `n` bytes and up to a space.
unfoldable pub to_space : ℕ → List ℕ → List ℕ
to_space zero bytes = []
to_space (suc n) [] = []
to_space (suc n) (b ∷ bytes) = let rest = to_space n bytes in if b == b' ' then [] else b ∷ rest

-- The loop that turns capitals into small letters.
unfoldable pub lower : List ℕ → List ℕ
lower [] = []
lower (b ∷ bs) = (if leb b'A' b && leb b b'Z' then b + 32 else b) ∷ lower bs

-- `fat32_format_name`
unfoldable pub format_name : Dirent → List ℕ
format_name de = lower (
    c_string
      (to_space 8 de.name ++ (if get_or de.ext 0 0 == b' ' then [] else b'.' ∷ to_space 3 de.ext)))

-- The tests of `fat32_init`.
unfoldable pub bpb_ok : Bpb → Bool
bpb_ok b =
    b.bytes_per_sector == 512
    && (not (b.fat_size_32 == 0)
        && (not (b.sectors_per_cluster == 0)
            && (not (b.num_fats == 0)
                && (b.root_entry_count == 0 && (b.boot_sig == 0x28 || b.boot_sig == 0x29)))))

-- `fat32_init` once the boot sector is read and its block is allocated.
unfoldable pub mount : {D : Type 0} → D → Bpb → Option (List ℕ) → Option (Fat32 D)
mount d b none = none
mount d b (some block) = some (record {
  bpb = b;
  disk = d;
  fat_start_lba = b.reserved_sectors;
  data_start_lba = (b.reserved_sectors + b.num_fats * b.fat_size_32) % u32;
  sectors_per_cluster = b.sectors_per_cluster;
  cluster_buf = block;
})

-- What the scan of a cluster's entries comes to.
pub data Scan : Type 0 where
  ended : Scan
  found : Dirent → Scan
  passed : ℕ → Scan

-- Whether an entry is passed over without counting it.
unfoldable pub skipped : Dirent → Bool
skipped de = get_or de.name 0 0 == 0xe5 || (de.attr == 0x0f || not (bit_and de.attr 0x08 == 0))

-- The loop along the entries of a cluster, with `n` left from `i` on.
unfoldable pub scan : ℕ → ℕ → ℕ → ℕ → List ℕ → Scan
scan zero i entry_idx index buf = passed entry_idx
scan (suc n) i entry_idx index buf =
    let de = dirent_at buf i in
    let skip = scan n (i + 1) entry_idx index buf in
    let next = scan n (i + 1) (entry_idx + 1) index buf in
    if get_or de.name 0 0 == 0
    then ended
    else if skipped de
    then skip
    else if entry_idx == index
    then found de
    else next

unfoldable pub dir_node : Dirent → DirNode
dir_node de = record {
  name = format_name de;
  is_directory = not (bit_and de.attr 0x10 == 0);
  size = de.file_size;
  fs_data = de.cluster_hi * 65536 + de.cluster_lo;
}

module _ {D : Type 0} (drv : Driver D) (scratch : List ℕ) where
  -- `fat32_init`; `some` is its result 0. `primary` is what `disk_get_primary` returns, and `kmalloc`
  -- gives the bytes of a block or `none` for NULL.
  unfoldable pub fat32_init : (ℕ → Option (List ℕ)) → Option D → Option (Fat32 D)
  fat32_init kmalloc none = none
  fat32_init kmalloc (some d) =
      let (sector, ok) = drv.read d 0 1 scratch in
      let b = read_bpb sector in
      if ok && bpb_ok b then mount d b (kmalloc (b.sectors_per_cluster * 512)) else none

  unfoldable pub cluster_to_lba : Fat32 D → ℕ → ℕ
  cluster_to_lba f cluster = (f.data_start_lba + (cluster + u32 - 2) * f.sectors_per_cluster) % u32

  -- `fat32_next_cluster`
  unfoldable pub next_cluster : Fat32 D → ℕ → ℕ
  next_cluster f cluster =
      let fat_offset = cluster * 4 % u32 in
      let fat_sector = (f.fat_start_lba + fat_offset / f.bpb.bytes_per_sector) % u32 in
      let sector_buf = (drv.read f.disk fat_sector 1 scratch).0 in
      bit_and (read32 sector_buf (fat_offset % f.bpb.bytes_per_sector)) 0x0fffffff

  -- `read_cluster` into `cluster_buf`; no caller looks at its result.
  unfoldable pub read_cluster : Fat32 D → ℕ → Fat32 D
  read_cluster f cluster = record f {
    cluster_buf =
        (drv.read f.disk (cluster_to_lba f cluster) f.sectors_per_cluster f.cluster_buf).0;
  }

  abbrev pub cluster_size : Fat32 D → ℕ
  cluster_size f = f.sectors_per_cluster * 512 % u32

  -- The loop of `fat32_read`; `out` holds the bytes read so far.
  unfoldable pub read_loop : ℕ → Fat32 D → ℕ → ℕ → ℕ → ℕ → List ℕ → Option (Fat32 D × List ℕ)
  read_loop zero f offset size cluster pos out = none
  read_loop (suc n) f offset size cluster pos out =
      let g = read_cluster f cluster in
      let start = part_start offset pos in
      let stop = part_end (cluster_size f) size (length out) start in
      let behind = (pos + cluster_size f) % word_mod in
      let out' = if ltb offset behind then out ++ part g.cluster_buf start stop else out in
      let rest = read_loop n g offset size (next_cluster g cluster) behind out' in
      if ltb cluster end_of_chain && ltb (length out) size then rest else some (f, out)

  -- `fat32_read` of a node with the first cluster `fs_data`: the bytes read
  unfoldable pub fat32_read : ℕ → Fat32 D → ℕ → ℕ → ℕ → Option (Fat32 D × List ℕ)
  fat32_read fuel f fs_data offset size = read_loop fuel f offset size (fs_data % u32) 0 []

  -- The body of the loop of `fat32_write` for a cluster that the range meets, with the bytes `buf`
  -- left to write.
  unfoldable pub write_cluster : Fat32 D → ℕ → ℕ → ℕ → List ℕ → Fat32 D
  write_cluster f cluster start stop buf =
      let bytes = overlay f.cluster_buf start (take (stop - start) buf) in
      record f {
        cluster_buf = bytes;
        disk = drv.write f.disk (cluster_to_lba f cluster) f.sectors_per_cluster bytes;
      }

  -- The loop of `fat32_write`; `count` bytes of `buf` are written.
  unfoldable pub write_loop : ℕ → Fat32 D → ℕ → List ℕ → ℕ → ℕ → ℕ → Option (Fat32 D × ℕ)
  write_loop zero f offset buf cluster pos count = none
  write_loop (suc n) f offset buf cluster pos count =
      let g = read_cluster f cluster in
      let start = part_start offset pos in
      let stop = part_end (cluster_size f) (length buf) count start in
      let behind = (pos + cluster_size f) % word_mod in
      let meets = ltb offset behind in
      let h = if meets then write_cluster g cluster start stop (drop count buf) else g in
      let count' = if meets then count + (stop - start) else count in
      let rest = write_loop n h offset buf (next_cluster h cluster) behind count' in
      if ltb cluster end_of_chain && ltb count (length buf) then rest else some (f, count)

  -- `fat32_write`: the number of bytes written
  unfoldable pub fat32_write : ℕ → Fat32 D → ℕ → ℕ → List ℕ → Option (Fat32 D × ℕ)
  fat32_write fuel f fs_data offset buf = write_loop fuel f offset buf (fs_data % u32) 0 0

  -- What the loop of `fat32_readdir` does with the scan of a cluster; `rest` goes on with the next.
  unfoldable pub scanned :
      Fat32 D → Scan → (ℕ → Option (Fat32 D × Option DirNode)) → Option (Fat32 D × Option DirNode)
  scanned g ended rest = some (g, none)
  scanned g (found de) rest = some (g, some (dir_node de))
  scanned g (passed count) rest = rest count

  -- The loop of `fat32_readdir`
  unfoldable pub readdir_loop : ℕ → Fat32 D → ℕ → ℕ → ℕ → Option (Fat32 D × Option DirNode)
  readdir_loop zero f index cluster entry_idx = none
  readdir_loop (suc n) f index cluster entry_idx =
      let g = read_cluster f cluster in
      let s = scan (cluster_size f / dirent_size) 0 entry_idx index g.cluster_buf in
      let rest = readdir_loop n g index (next_cluster g cluster) in
      if ltb cluster end_of_chain then scanned g s rest else some (f, none)

  -- `fat32_readdir`; no node is its result -1.
  unfoldable pub fat32_readdir : ℕ → Fat32 D → ℕ → ℕ → Option (Fat32 D × Option DirNode)
  fat32_readdir fuel f fs_data index =
      readdir_loop fuel f index (if fs_data == 0 then f.bpb.root_cluster else fs_data % u32) 0
