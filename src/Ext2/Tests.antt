-- ===== src/Ext2/Tests.antt =====
-- A disk in memory with a directory, the inode 2, and a file of two blocks, the inode 3.
use next_os.Prelude.{
  ℕ, ◌-◌, ◌%◌, ◌≤◌, min, ◌≡◌, refl, inl, inr, true, some, List, [], ◌∷◌, ◌++◌, ◌==◌, if◌then◌else◌,
  length, get_elem?, replicate, length-replicate, take, drop, Bool-cases, bytes_of, arith,
}
use next_os.Prelude.Outcome.{Outcome, done}
use next_os.Disk.{Driver, Holds, sectors_at, written}
use next_os.Ext2.{
  Ext2, dirent_at, DirNode, read_block, read_inode, inode_from, node_from, ext2_read, ext2_readdir,
  dir_node, words_at, inode_of, u32,
}
use next_os.Ext2.Read.{until_zero, with_buf, Sized}
use next_os.Ext2.Inodes.{inode_at, Readable}
use next_os.Ext2.Content.{file_bytes, ext2_read-content}
use next_os.Ext2.Records.{all_records, records_of, all_inside, records_inside}
use next_os.Ext2.Listing.{answer, Answers, ext2_readdir-records}

abbrev memory : Driver (ℕ → List ℕ)
memory = record {
  read = λ d lba count buf. (sectors_at d lba count, true);
  write = λ d lba count bytes. written d lba count bytes;
}

-- A sector with some bytes at its beginning.
abbrev begins : List ℕ → List ℕ
begins bytes = take 512 (bytes ++ replicate 512 0)

-- The inodes 1 to 3 of the table.
abbrev inodes : List ℕ
inodes =
    replicate 128 0
    ++ ((replicate 5 0 ++ (4 ∷ replicate 34 0) ++ (30 ∷ replicate 87 0))
        ++ (replicate 5 0 ++ (8 ∷ replicate 34 0) ++ (20 ∷ 0 ∷ 0 ∷ 0 ∷ 21 ∷ replicate 83 0)))

-- The records of the files `a` and `bc`.
abbrev records : List ℕ
records =
    (3 ∷ 0 ∷ 0 ∷ 0 ∷ 12 ∷ 0 ∷ 1 ∷ 1 ∷ b'a' ∷ 0 ∷ 0 ∷ 0 ∷ [])
    ++ (2 ∷ 0 ∷ 0 ∷ 0 ∷ 12 ∷ 0 ∷ 2 ∷ 2 ∷ b'b' ∷ b'c' ∷ 0 ∷ 0 ∷ [])

unfoldable stored : ℕ → List ℕ
stored lba =
    if lba == 4
    then replicate 8 0 ++ (5 ∷ replicate 503 0)
    else if lba == 10
    then begins inodes
    else if lba == 60
    then begins records
    else replicate 512 lba

length-stored : (lba : ℕ) → length (stored lba) ≡ 512
unfolding stored
length-stored lba = elim (Bool-cases (lba == 4)) [
  | inl first ↦ rw first refl
  | inr a ↦ elim (Bool-cases (lba == 10)) [
    | inl table ↦ rw (a, table) refl
    | inr b ↦ elim (Bool-cases (lba == 60)) [
      | inl names ↦ rw (a, b, names) refl
      | inr c ↦ rw (a, b, c) (length-replicate 512 lba)
    ]
  ]
]

stored-Holds : Holds memory stored stored
stored-Holds = record { whole = length-stored; reads = λ lba count buf. refl }

abbrev mounted : Ext2 (ℕ → List ℕ)
mounted = record {
  sb = record {
    s_log_block_size = 0;
    s_inodes_per_group = 8;
    s_magic = 0xef53;
    s_rev_level = 0;
    s_inode_size = 0;
  };
  disk = stored;
  block_size = 1024;
  inode_size = 128;
  block_buf = [];
  part_start_lba = 0;
}

file_inode :
    inode_at mounted stored [] (3 % u32)
    ≡ record { i_size = 2048; i_block = 20 ∷ 21 ∷ replicate 13 0 }
unfolding sectors_at stored inode_of words_at
file_inode = refl

-- Of an inode among the first eight.
mounted-Readable : (inode_num : ℕ) → 1 ≤ inode_num → inode_num ≤ 8 → Readable mounted inode_num
mounted-Readable inode_num low high = record {
  numbered = low;
  in_word = omega arith;
  some_inode = omega arith;
  some_byte = omega arith;
  by_buffers = omega arith;
  in_descriptors = omega arith;
  in_table = omega arith;
  in_block = omega arith;
}

mounted-Sized : Sized mounted 1022 4
mounted-Sized = record { some_byte = omega arith; by_sectors = refl; room = omega arith }

ext2_read-content_example :
    (buf : List ℕ) × (ext2_read memory [] mounted 3 1022 4
      ≡ done (
        with_buf mounted buf,
        take
            (min 4 ((inode_at mounted stored [] (3 % u32)).i_size - 1022))
            (drop 1022 (file_bytes mounted stored (inode_at mounted stored [] (3 % u32)))),
      ))
ext2_read-content_example =
    ext2_read-content memory [] mounted stored 3 1022 4 stored-Holds
      (mounted-Readable (3 % u32) (omega arith) (omega arith)) mounted-Sized
      (inr (rw file_inode refl))

directory_inside :
    all_inside mounted stored (until_zero (take 12 (inode_at mounted stored [] (2 % u32)).i_block))
    ≡ true
unfolding all_inside records_inside until_zero sectors_at stored inode_of words_at dirent_at
directory_inside = refl

ext2_readdir-records_example :
    (buf : List ℕ) × (o : Outcome DirNode) × (ext2_readdir memory [] mounted 2 1
      ≡ some (with_buf mounted buf, o))
    × Answers memory [] mounted stored
        (get_elem?
          (all_records mounted stored
            (until_zero (take 12 (inode_at mounted stored [] (2 % u32)).i_block)))
          1)
        o
ext2_readdir-records_example =
    ext2_readdir-records memory [] mounted stored 2 1 stored-Holds
      (mounted-Readable (2 % u32) (omega arith) (omega arith)) directory_inside

-- What it comes to on this disk.
second_record :
    answer memory [] mounted stored (get_elem? (all_records mounted stored (30 ∷ [])) 1)
    ≡ done (record { name = bytes_of "bc"; is_directory = true; size = 1024; inode = 2 })
unfolding all_records records_of dir_node node_from read_inode inode_from read_block sectors_at
    stored inode_of words_at dirent_at
second_record = refl
