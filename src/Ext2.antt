-- ===== src/Ext2.antt =====
-- kernel/fs/ext2.c, the EXT2 driver, over a disk driver. `scratch` is what the stack holds where a
-- function has a buffer. A division by 0, a write behind a buffer and a read of what it does not
-- hold are a fault. `read_inode` comes first in each operation and faults for blocks of more than 4096
-- bytes, which is also the size of the buffer of the indirect block in `ext2_read`.
pub mod Inodes
pub mod Read
pub mod Ranges
pub mod Content
pub mod Records
pub mod Listing
mod Tests
use next_os.Prelude.{
  ℕ, zero, suc, ◌+◌, ◌-◌, ◌*◌, ◌/◌, ◌%◌, ◌^◌, Bool, true, false, not, ◌&&◌, ◌||◌, Option, none,
  some, List, [], ◌∷◌, ◌++◌, ltb, leb, ◌==◌, if◌then◌else◌, length, get_or, take, drop,
}
use next_os.Prelude.Words.{word_mod}
use next_os.Prelude.Slices.{overlay}
use next_os.Prelude.Bytes.{read16, read32, c_string}
use next_os.Prelude.Outcome.{Outcome, fault, error, done}
use next_os.Disk.{Driver}
use next_os.Disk.Parts.{part_start, part_end, part}

abbrev pub u32 : ℕ
u32 = 4294967296

-- The fields of `ext2_superblock_t` that the code reads.
pub record Superblock : Type 0 where
  pub s_log_block_size : ℕ
  pub s_inodes_per_group : ℕ
  pub s_magic : ℕ
  pub s_rev_level : ℕ
  pub s_inode_size : ℕ

unfoldable pub read_superblock : List ℕ → Superblock
read_superblock buf = record {
  s_log_block_size = read32 buf 24;
  s_inodes_per_group = read32 buf 40;
  s_magic = read16 buf 56;
  s_rev_level = read32 buf 76;
  s_inode_size = read16 buf 88;
}

pub record Ext2 (D : Type 0) : Type 0 where
  pub sb : Superblock
  pub disk : D
  pub block_size : ℕ
  pub inode_size : ℕ
  pub block_buf : List ℕ
  pub part_start_lba : ℕ

-- The fields of `ext2_inode_t` that the code reads.
pub record Inode : Type 0 where
  pub i_size : ℕ
  pub i_block : List ℕ

-- `n` numbers of 32 bits from `at` on.
unfoldable pub words_at : ℕ → ℕ → List ℕ → List ℕ
words_at zero at buf = []
words_at (suc n) at buf = read32 buf at ∷ words_at n (at + 4) buf

unfoldable pub inode_of : List ℕ → Inode
inode_of bytes = record { i_size = read32 bytes 4; i_block = words_at 15 40 bytes }

-- `ext2_dirent_t`, whose name begins behind the fields
pub record Dirent : Type 0 where
  pub inode : ℕ
  pub rec_len : ℕ
  pub name_len : ℕ
  pub file_type : ℕ
  pub name : List ℕ

unfoldable pub dirent_at : List ℕ → ℕ → Dirent
dirent_at buf off = record {
  inode = read32 buf off;
  rec_len = read16 buf (off + 4);
  name_len = get_or buf (off + 6) 0;
  file_type = get_or buf (off + 7) 0;
  name = take (get_or buf (off + 6) 0) (drop (off + 8) buf);
}

pub record DirNode : Type 0 where
  pub name : List ℕ
  pub is_directory : Bool
  pub size : ℕ
  pub inode : ℕ

-- The partition entries of the boot record from index `i` on: the start of the first one of type
-- Linux that does not start at 0, or 0.
unfoldable pub find_partition : ℕ → ℕ → List ℕ → ℕ
find_partition zero i mbr = 0
find_partition (suc n) i mbr =
    let rest = find_partition n (i + 1) mbr in
    let lba_start = read32 mbr (446 + i * 16 + 8) in
    if get_or mbr (446 + i * 16 + 4) 0 == 0x83 && ltb 0 lba_start then lba_start else rest

-- The start of the partition from the boot record.
unfoldable pub partition_of : List ℕ → ℕ
partition_of mbr =
    if not (get_or mbr 510 0 == 0x55) || not (get_or mbr 511 0 == 0xaa)
    then 0
    else find_partition 4 0 mbr

-- `try_ext2_at` once the superblock is read and the block allocated.
unfoldable pub mount : {D : Type 0} → D → ℕ → Superblock → Option (List ℕ) → Option (Ext2 D)
mount d start_lba sb none = none
mount d start_lba sb (some block) = some (record {
  sb = sb;
  disk = d;
  block_size = 1024 * 2 ^ sb.s_log_block_size % u32;
  inode_size = if leb 1 sb.s_rev_level && ltb 0 sb.s_inode_size then sb.s_inode_size else 128;
  block_buf = block;
  part_start_lba = start_lba;
})

-- What the scan of a block's entries comes to; `outside` says that it reads behind the block, and
-- `stuck` that the fuel ran out.
pub data Scan : Type 0 where
  found : Dirent → Scan
  passed : ℕ → Scan
  outside : Scan
  stuck : Scan

-- The test of an entry at `off` reads its inode behind the block, or its length, unless the inode is 0.
unfoldable pub reads_outside : ℕ → ℕ → List ℕ → Bool
reads_outside block_size off buf =
    ltb off block_size
    && (ltb block_size (off + 4)
        || (not ((dirent_at buf off).inode == 0) && ltb block_size (off + 6)))

-- The inner loop of `ext2_readdir`, at the offset `off`.
unfoldable pub scan : ℕ → ℕ → ℕ → ℕ → ℕ → List ℕ → Scan
scan zero block_size off entry_idx index buf = stuck
scan (suc n) block_size off entry_idx index buf =
    let de = dirent_at buf off in
    let rest = scan n block_size (off + de.rec_len) (entry_idx + 1) index buf in
    let here = if ltb block_size (off + 8 + de.name_len) then outside else found de in
    if reads_outside block_size off buf
    then outside
    else if not (ltb off block_size) || (de.inode == 0 || de.rec_len == 0)
    then passed entry_idx
    else if entry_idx == index
    then here
    else rest

module _ {D : Type 0} (drv : Driver D) (scratch : List ℕ) where
  -- `find_ext2_partition`
  unfoldable pub find_ext2_partition : D → ℕ
  find_ext2_partition d =
      let (mbr, ok) = drv.read d 0 1 scratch in if ok then partition_of mbr else 0

  -- `try_ext2_at`; `some` is its result 0.
  unfoldable pub try_ext2_at : (ℕ → Option (List ℕ)) → D → ℕ → Option (Ext2 D)
  try_ext2_at kmalloc d start_lba =
      let (sb_buf, ok) = drv.read d ((start_lba + 2) % u32) 2 scratch in
      let sb = read_superblock sb_buf in
      if ok && sb.s_magic == 0xef53
      then mount d start_lba sb (kmalloc (1024 * 2 ^ sb.s_log_block_size % u32))
      else none

  -- The second attempt of `ext2_init`, on the whole disk.
  unfoldable pub or_whole_disk : (ℕ → Option (List ℕ)) → D → Option (Ext2 D) → Option (Ext2 D)
  or_whole_disk kmalloc d (some e) = some e
  or_whole_disk kmalloc d none = try_ext2_at kmalloc d 0

  -- `ext2_init`; `primary` is what `disk_get_primary` returns.
  unfoldable pub ext2_init : (ℕ → Option (List ℕ)) → Option D → Option (Ext2 D)
  ext2_init kmalloc none = none
  ext2_init kmalloc (some d) =
      let part_lba = find_ext2_partition d in
      or_whole_disk kmalloc d (if ltb 0 part_lba then try_ext2_at kmalloc d part_lba else none)

  -- `read_block` into a buffer that held `buf`
  unfoldable pub read_block : Ext2 D → ℕ → List ℕ → List ℕ
  read_block e block buf =
      let sectors = e.block_size / 512 in
      (drv.read e.disk (e.part_start_lba + block * sectors) sectors buf).0

  unfoldable pub write_block : Ext2 D → ℕ → List ℕ → Ext2 D
  write_block e block bytes =
      let sectors = e.block_size / 512 in
      record e { disk = drv.write e.disk (e.part_start_lba + block * sectors) sectors bytes }

  -- The inode that `read_inode` fills in, once its divisors and buffers are known to do.
  unfoldable pub inode_from : Ext2 D → ℕ → Inode
  inode_from e number =
      let group = number / e.sb.s_inodes_per_group in
      let index = number % e.sb.s_inodes_per_group in
      let bgd_buf = read_block e (if e.block_size == 1024 then 2 else 1) scratch in
      let inode_table_block = read32 bgd_buf (group * 32 + 8) in
      let offset = index * e.inode_size % u32 in
      let tmp = read_block e ((inode_table_block + offset / e.block_size) % u32) scratch in
      let count = if ltb e.inode_size 128 then e.inode_size else 128 in
      inode_of (take count (drop (offset % e.block_size) tmp) ++ drop count scratch)

  -- `read_inode`. The block must fit into its buffers of 4096 bytes, and the group's descriptor and
  -- the inode into the blocks that are read.
  unfoldable pub read_inode : Ext2 D → ℕ → Outcome Inode
  read_inode e inode_num =
      let number = (inode_num + u32 - 1) % u32 in
      let group = number / e.sb.s_inodes_per_group in
      let offset = number % e.sb.s_inodes_per_group * e.inode_size % u32 in
      let count = if ltb e.inode_size 128 then e.inode_size else 128 in
      if e.sb.s_inodes_per_group == 0 || e.block_size == 0 || ltb 4096 e.block_size
      then fault
      else if ltb e.block_size (group * 32 + 12) || ltb e.block_size (offset % e.block_size + count)
      then fault
      else done (inode_from e number)

  -- The loops of `ext2_read` along the blocks `ptrs` of the file, the first of which has the index
  -- `i`.
  unfoldable pub read_blocks : Ext2 D → ℕ → ℕ → List ℕ → ℕ → List ℕ → Ext2 D × List ℕ
  read_blocks e offset size [] i out = (e, out)
  read_blocks e offset size (ptr ∷ ptrs) i out =
      let block_start = i * e.block_size in
      let g : Ext2 D = record e { block_buf = read_block e ptr e.block_buf } in
      let start = part_start offset block_start in
      let stop = part_end e.block_size size (length out) start in
      let skip = read_blocks e offset size ptrs (i + 1) out in
      let rest = read_blocks g offset size ptrs (i + 1) (out ++ part g.block_buf start stop) in
      if not (ltb (length out) size) || ptr == 0
      then (e, out)
      else if leb (block_start + e.block_size) offset
      then skip
      else rest

  -- `ext2_read` once the range is cut to the file.
  unfoldable pub read_range : Ext2 D → Inode → ℕ → ℕ → Ext2 D × List ℕ
  read_range e inode offset size =
      let (g, out) = read_blocks e offset size (take 12 inode.i_block) 0 [] in
      let indirect_ptr = get_or inode.i_block 12 0 in
      let indirect = read_block g indirect_ptr scratch in
      if ltb (length out) size && not (indirect_ptr == 0)
      then read_blocks g offset size (words_at (e.block_size / 4) 0 indirect) 12 out
      else (g, out)

  -- `ext2_read` once the inode is read.
  unfoldable pub read_file : Ext2 D → ℕ → ℕ → Outcome Inode → Outcome (Ext2 D × List ℕ)
  read_file e offset size fault = fault
  read_file e offset size error = error
  read_file e offset size (done inode) =
      let cut =
        if ltb inode.i_size ((offset + size) % word_mod) then inode.i_size - offset else size in
      done (if leb inode.i_size offset then (e, []) else read_range e inode offset cut)

  -- `ext2_read` of a node with the inode number `inode_num`: the bytes read
  unfoldable pub ext2_read : Ext2 D → ℕ → ℕ → ℕ → Outcome (Ext2 D × List ℕ)
  ext2_read e inode_num offset size = read_file e offset size (read_inode e (inode_num % u32))

  -- The loop of `ext2_write`; `count` bytes of `buf` are written.
  unfoldable pub write_blocks : Ext2 D → ℕ → List ℕ → List ℕ → ℕ → ℕ → Ext2 D × ℕ
  write_blocks e offset buf [] i count = (e, count)
  write_blocks e offset buf (ptr ∷ ptrs) i count =
      let block_start = i * e.block_size in
      let start = part_start offset block_start in
      let stop = part_end e.block_size (length buf) count start in
      let bytes =
        overlay (read_block e ptr e.block_buf) start (take (stop - start) (drop count buf)) in
      let g = write_block (record e { block_buf = bytes }) ptr bytes in
      let skip = write_blocks e offset buf ptrs (i + 1) count in
      let rest = write_blocks g offset buf ptrs (i + 1) (count + (stop - start)) in
      if not (ltb count (length buf)) || ptr == 0
      then (e, count)
      else if leb (block_start + e.block_size) offset
      then skip
      else rest

  -- `ext2_write` once the inode is read.
  unfoldable pub write_file : Ext2 D → ℕ → List ℕ → Outcome Inode → Outcome (Ext2 D × ℕ)
  write_file e offset buf fault = fault
  write_file e offset buf error = error
  write_file e offset buf (done inode) =
      done (write_blocks e offset buf (take 12 inode.i_block) 0 0)

  -- `ext2_write`: the number of bytes written
  unfoldable pub ext2_write : Ext2 D → ℕ → ℕ → List ℕ → Outcome (Ext2 D × ℕ)
  ext2_write e inode_num offset buf = write_file e offset buf (read_inode e (inode_num % u32))

  -- The node of an entry whose inode is read.
  unfoldable pub node_from : Dirent → Outcome Inode → Outcome DirNode
  node_from de fault = fault
  node_from de error = error
  node_from de (done inode) = done (record {
    name = c_string de.name;
    is_directory = de.file_type == 2;
    size = inode.i_size;
    inode = de.inode;
  })

  -- The node of an entry. A name of 128 bytes or more is ended behind its buffer.
  unfoldable pub dir_node : Ext2 D → Dirent → Outcome DirNode
  dir_node e de = if leb 128 de.name_len then fault else node_from de (read_inode e de.inode)

  -- What the loop does with the scan of a block; `rest` goes on with the next one.
  unfoldable pub scanned :
      Ext2 D → Scan → (ℕ → Option (Ext2 D × Outcome DirNode)) → Option (Ext2 D × Outcome DirNode)
  scanned e stuck rest = none
  scanned e outside rest = some (e, fault)
  scanned e (found de) rest = some (e, dir_node e de)
  scanned e (passed count) rest = rest count

  -- The outer loop of `ext2_readdir`, along the blocks `ptrs`
  unfoldable pub readdir_blocks : Ext2 D → ℕ → List ℕ → ℕ → Option (Ext2 D × Outcome DirNode)
  readdir_blocks e index [] entry_idx = some (e, error)
  readdir_blocks e index (ptr ∷ ptrs) entry_idx =
      let g : Ext2 D = record e { block_buf = read_block e ptr e.block_buf } in
      let s = scan (suc e.block_size) e.block_size 0 entry_idx index g.block_buf in
      let rest = readdir_blocks g index ptrs in
      if ptr == 0 then some (e, error) else scanned g s rest

  -- `ext2_readdir` once the inode is read.
  unfoldable pub readdir_of : Ext2 D → ℕ → Outcome Inode → Option (Ext2 D × Outcome DirNode)
  readdir_of e index fault = some (e, fault)
  readdir_of e index error = some (e, error)
  readdir_of e index (done inode) = readdir_blocks e index (take 12 inode.i_block) 0

  -- `ext2_readdir`; `none` says that the fuel of the inner loop, one more than the bytes of a block,
  -- ran out.
  unfoldable pub ext2_readdir : Ext2 D → ℕ → ℕ → Option (Ext2 D × Outcome DirNode)
  ext2_readdir e inode_num index = readdir_of e index (read_inode e (inode_num % u32))
