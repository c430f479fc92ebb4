-- ===== src/Ext2/Inodes.antt =====
-- `read_inode` of kernel/fs/ext2.c: the inode with a number on a disk that can be read.
use next_os.Prelude.{
  ℕ, ◌+◌, ◌-◌, ◌*◌, ◌/◌, ◌%◌, ◌≤◌, ◌<◌, min, ◌≡◌, refl, ap, false, ◌||◌, List, ◌++◌, ltb, ◌==◌,
  if◌then◌else◌, take, drop, arith,
}
use next_os.Prelude.Bytes.{read32}
use next_os.Prelude.Outcome.{done}
use next_os.Disk.{Driver, Holds}
use next_os.Ext2.{Ext2, Inode, u32, inode_of, inode_from, read_inode}
use next_os.Ext2.Read.{block_at, read_block_lem}

-- The inodes of a disk whose sectors are `sector`.
module _ {D : Type 0} (e : Ext2 D) (sector : ℕ → List ℕ) (scratch : List ℕ) (inode_num : ℕ) where
  -- The block at which the inode table of the inode's group begins, from the group's descriptor.
  abbrev pub table_block : ℕ
  table_block =
      read32 (block_at e sector (if e.block_size == 1024 then 2 else 1))
        ((inode_num - 1) / e.sb.s_inodes_per_group * 32 + 8)

  -- Where the inode begins in the table.
  abbrev pub table_offset : ℕ
  table_offset = (inode_num - 1) % e.sb.s_inodes_per_group * e.inode_size

  -- The inode. Of one with fewer than 128 bytes the rest is what the stack held.
  abbrev pub inode_at : Inode
  inode_at = inode_of (
      take (min e.inode_size 128) (
        drop (table_offset % e.block_size)
          (block_at e sector ((table_block + table_offset / e.block_size) % u32)))
      ++ drop (min e.inode_size 128) scratch)

-- An inode number that the driver can read: blocks fit into its buffers of 4096 bytes, and the descriptor
-- of the inode's group and the inode each lie in one block.
pub record Readable {D : Type 0} (e : Ext2 D) (inode_num : ℕ) : Type 0 where
  pub numbered : 1 ≤ inode_num
  pub in_word : inode_num < u32
  pub some_inode : 0 < e.sb.s_inodes_per_group
  pub some_byte : 0 < e.block_size
  pub by_buffers : e.block_size ≤ 4096
  pub in_descriptors : (inode_num - 1) / e.sb.s_inodes_per_group * 32 + 12 ≤ e.block_size
  pub in_table : (inode_num - 1) % e.sb.s_inodes_per_group * e.inode_size < u32
  pub in_block :
      (inode_num - 1) % e.sb.s_inodes_per_group * e.inode_size % e.block_size + min e.inode_size 128
      ≤ e.block_size

count_lem : (n : ℕ) → (if ltb n 128 then n else 128) ≡ min n 128
count_lem n = ground arith

sized : (s b : ℕ) → 0 < s → 0 < b → b ≤ 4096 → (s == 0 || b == 0 || ltb 4096 b) ≡ false
sized s b hs hb small = ground arith

within : (b m n : ℕ) → m ≤ b → n ≤ b → (ltb b m || ltb b n) ≡ false
within b m n hm hn = ground arith

module _ {D : Type 0} (drv : Driver D) (scratch : List ℕ) (e : Ext2 D) (sector : ℕ → List ℕ) where
  inode_from-inode_at :
      (inode_num : ℕ)
      → Holds drv e.disk sector
      → Readable e inode_num
      → inode_from drv scratch e (inode_num - 1) ≡ inode_at e sector scratch inode_num
  unfolding inode_from
  inode_from-inode_at inode_num holds readable =
      let whole : (inode_num - 1) % e.sb.s_inodes_per_group * e.inode_size % u32
          ≡ (inode_num - 1) % e.sb.s_inodes_per_group * e.inode_size =
        omega (arith, readable.in_table) in
      rw
        (
          whole,
          count_lem e.inode_size,
          read_block_lem drv scratch e sector (if e.block_size == 1024 then 2 else 1) e.block_buf
              scratch holds,
          read_block_lem drv scratch e sector
              ((table_block e sector scratch inode_num
                  + table_offset e sector scratch inode_num / e.block_size)
                % u32)
              e.block_buf scratch holds,
        )
        refl

  -- A readable inode is read.
  pub read_inode-inode_at :
      (inode_num : ℕ)
      → Holds drv e.disk sector
      → Readable e inode_num
      → read_inode drv scratch e inode_num ≡ done (inode_at e sector scratch inode_num)
  unfolding read_inode
  read_inode-inode_at inode_num holds readable =
      let number : (inode_num + u32 - 1) % u32 ≡ inode_num - 1 =
        omega (arith, readable.numbered, readable.in_word) in
      let offset : (inode_num - 1) % e.sb.s_inodes_per_group * e.inode_size % u32
          ≡ (inode_num - 1) % e.sb.s_inodes_per_group * e.inode_size =
        omega (arith, readable.in_table) in
      let buffers : (e.sb.s_inodes_per_group == 0 || e.block_size == 0 || ltb 4096 e.block_size)
          ≡ false =
        sized (e.sb.s_inodes_per_group) e.block_size readable.some_inode readable.some_byte
          readable.by_buffers in
      let inside =
        within e.block_size ((inode_num - 1) / e.sb.s_inodes_per_group * 32 + 12)
          ((inode_num - 1) % e.sb.s_inodes_per_group * e.inode_size % e.block_size
            + min e.inode_size 128)
          readable.in_descriptors readable.in_block in
      rw (number, offset, count_lem e.inode_size, buffers, inside)
        (ap done (inode_from-inode_at inode_num holds readable))
