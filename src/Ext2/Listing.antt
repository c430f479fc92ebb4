-- ===== src/Ext2/Listing.antt =====
-- `ext2_readdir`: the records of a directory, one after the other.
use next_os.Prelude.{
  ℕ, suc, ◌-◌, ◌%◌, ◌≤◌, ◌<◌, ◌≡◌, refl, sym, ap, ◌∙◌, inl, inr, true, false, Option, none, some,
  List, [], ◌∷◌, ◌++◌, leb, ◌==◌, get_elem?, take, Bool-cases, arith,
}
use next_os.Prelude.Outcome.{Outcome, fault, error, done}
use next_os.Disk.{Driver, Holds}
use next_os.Ext2.{
  Ext2, Dirent, DirNode, Scan, found, passed, outside, stuck, node_from, readdir_of, inode_from,
  scan, scanned, dir_node, read_block, read_inode, readdir_blocks, ext2_readdir, u32,
}
use next_os.Prelude.Bytes.{c_string}
use next_os.Ext2.Inodes.{inode_at, Readable, read_inode-inode_at}
use next_os.Ext2.Records.{
  Scanned, scan-Scanned, records_of-Records, records_of, records_inside, all_records, all_inside,
  both,
}
use next_os.Ext2.Read.{
  until_zero, until_zero_stop, until_zero_go, block_at, with_buf, read_block_lem,
}

module _ {D : Type 0} (drv : Driver D) (scratch : List ℕ) (e : Ext2 D) (sector : ℕ → List ℕ) where
  -- The answer for a record, or for none.
  abbrev pub answer : Option Dirent → Outcome DirNode
  answer none = error
  answer (some de) = dir_node drv scratch e de

  -- The node of a record does not depend on the buffer.
  dir_node_buf :
      (buf : List ℕ) (de : Dirent)
      → dir_node drv scratch (with_buf e buf) de ≡ dir_node drv scratch e de
  unfolding dir_node read_inode inode_from read_block
  dir_node_buf buf de = refl

  by_scan :
      (b : List ℕ) (count index : ℕ) (des more : List Dirent) (s : Scan)
      (rest : ℕ → Option (Ext2 D × Outcome DirNode))
      → Scanned count index des more s
      → ((k : ℕ)
          → k ≤ index
          → (buf' : List ℕ) × (rest k
              ≡ some (with_buf e buf', answer (get_elem? more (index - k)))))
      → (buf' : List ℕ) × (scanned drv scratch (with_buf e b) s rest
          ≡ some (with_buf e buf', answer (get_elem? (des ++ more) (index - count))))
  unfolding scanned Scanned
  by_scan b count index des more stuck rest h next = absurd h
  by_scan b count index des more outside rest h next = absurd h
  by_scan b count index des more (found de) rest h next =
      (b, ap (λ o. some (with_buf e b, o)) (dir_node_buf b de ∙ ap answer (sym h)))
  by_scan b count index des more (passed k) rest (le, h) next =
      let (buf', run) = next k le in
      (buf', run ∙ ap (λ o. some (with_buf e buf', answer o)) (sym h))

  readdir_blocks-stops :
      (index ptr count : ℕ) (ptrs buf : List ℕ)
      → (ptr == 0) ≡ true
      → readdir_blocks drv scratch (with_buf e buf) index (ptr ∷ ptrs) count
        ≡ some (with_buf e buf, error)
  unfolding readdir_blocks
  readdir_blocks-stops index ptr count ptrs buf over = rw over refl

  readdir_blocks-goes :
      (index ptr count : ℕ) (ptrs buf : List ℕ)
      → Holds drv e.disk sector
      → (ptr == 0) ≡ false
      → readdir_blocks drv scratch (with_buf e buf) index (ptr ∷ ptrs) count
        ≡ scanned drv scratch
            (with_buf e (block_at e sector ptr))
            (scan (suc e.block_size) e.block_size 0 count index (block_at e sector ptr))
            (readdir_blocks drv scratch (with_buf e (block_at e sector ptr)) index ptrs)
  unfolding readdir_blocks
  readdir_blocks-goes index ptr count ptrs buf holds going =
      rw (going, read_block_lem drv scratch e sector ptr buf buf holds) refl

  readdir_blocks-records :
      (index count : ℕ) (ptrs buf : List ℕ)
      → Holds drv e.disk sector
      → all_inside e sector (until_zero ptrs) ≡ true
      → count ≤ index
      → (buf' : List ℕ) × (readdir_blocks drv scratch (with_buf e buf) index ptrs count
          ≡ some (
            with_buf e buf',
            answer (get_elem? (all_records e sector (until_zero ptrs)) (index - count)),
          ))
  unfolding all_records all_inside until_zero readdir_blocks
  readdir_blocks-records index count [] buf holds kept le = (buf, refl)
  readdir_blocks-records index count (ptr ∷ ptrs) buf holds kept le = elim (Bool-cases (ptr == 0)) [
    | inl over ↦ (
      buf,
      readdir_blocks-stops index ptr count ptrs buf over
          ∙ ap
              (λ l.
                some (with_buf e buf, answer (get_elem? (all_records e sector l) (index - count))))
              (sym (until_zero_stop ptr ptrs over)),
    )
    | inr going ↦
        let b = block_at e sector ptr in
        let (first, others) =
          both (records_inside (suc e.block_size) e.block_size b 0)
            (all_inside e sector (until_zero ptrs))
            (sym (ap (all_inside e sector) (until_zero_go ptr ptrs going)) ∙ kept) in
        let des = records_of (suc e.block_size) e.block_size b 0 in
        let (buf', run) =
          by_scan b count index des (all_records e sector (until_zero ptrs))
            (scan (suc e.block_size) e.block_size 0 count index b)
            (readdir_blocks drv scratch (with_buf e b) index ptrs)
            (scan-Scanned (suc e.block_size) e.block_size 0 count index b des
              (all_records e sector (until_zero ptrs))
              (records_of-Records (suc e.block_size) e.block_size b 0 (omega arith) (omega arith)
                first)
              le (omega arith) (omega arith))
            (λ k k_le. readdir_blocks-records index k ptrs b holds others k_le) in
        (
          buf',
          readdir_blocks-goes index ptr count ptrs buf holds going
              ∙ run
              ∙ ap
                  (λ l.
                    some (
                      with_buf e buf',
                      answer (get_elem? (all_records e sector l) (index - count)),
                    ))
                  (sym (until_zero_go ptr ptrs going)),
        )
  ]

  -- What `ext2_readdir` answers for a record, or for none: -1 for none; a fault for a name of 128 bytes or
  -- more; and otherwise, for an inode that can be read, the node with the record's name and type and
  -- the size that the inode table has.
  pub record Answers (x : Option Dirent) (o : Outcome DirNode) : Type 0 where
    pub for_none : x ≡ none → o ≡ error
    pub long_name : (de : Dirent) → x ≡ some de → 128 ≤ de.name_len → o ≡ fault
    pub node :
        (de : Dirent)
        → x ≡ some de
        → de.name_len < 128
        → Readable e de.inode
        → o
          ≡ done (record {
            name = c_string de.name;
            is_directory = de.file_type == 2;
            size = (inode_at e sector scratch de.inode).i_size;
            inode = de.inode;
          })

  dir_node-long : (de : Dirent) → 128 ≤ de.name_len → dir_node drv scratch e de ≡ fault
  unfolding dir_node
  dir_node-long de long = let test : leb 128 de.name_len ≡ true = ground arith in rw test refl

  dir_node-Readable :
      (de : Dirent)
      → Holds drv e.disk sector
      → de.name_len < 128
      → Readable e de.inode
      → dir_node drv scratch e de
        ≡ done (record {
          name = c_string de.name;
          is_directory = de.file_type == 2;
          size = (inode_at e sector scratch de.inode).i_size;
          inode = de.inode;
        })
  unfolding dir_node node_from
  dir_node-Readable de holds short readable =
      let test : leb 128 de.name_len ≡ false = ground arith in
      rw test (
        ap (node_from drv scratch de)
          (read_inode-inode_at drv scratch e sector de.inode holds readable))

  answer-Answers : (x : Option Dirent) → Holds drv e.disk sector → Answers x (answer x)
  answer-Answers x holds = record {
    for_none = λ absent. ap answer absent;
    long_name = λ de there long. ap answer there ∙ dir_node-long de long;
    node = λ de there short readable. ap answer there ∙ dir_node-Readable de holds short readable;
  }

  -- `ext2_readdir` on a disk that can be read, of an inode that can be read and whose direct blocks in
  -- front of the first pointer that is 0 hold their records completely, ends, and answers for the
  -- record at the index among those of these blocks, each block's up to the first that is unused or
  -- has the length 0: with -1 if there is none, with a fault if its name has 128 bytes or more, and with
  -- its node if its inode can be read.
  pub ext2_readdir-records :
      (inode_num index : ℕ)
      → Holds drv e.disk sector
      → Readable e (inode_num % u32)
      → all_inside e sector
          (until_zero (take 12 (inode_at e sector scratch (inode_num % u32)).i_block))
        ≡ true
      → (buf : List ℕ) × (o : Outcome DirNode) × (ext2_readdir drv scratch e inode_num index
          ≡ some (with_buf e buf, o))
        × Answers
            (get_elem?
              (all_records e sector
                (until_zero (take 12 (inode_at e sector scratch (inode_num % u32)).i_block)))
              index)
            o
  unfolding ext2_readdir readdir_of
  ext2_readdir-records inode_num index holds readable kept =
      let whole : index - 0 ≡ index = omega arith in
      let ptrs = take 12 (inode_at e sector scratch (inode_num % u32)).i_block in
      let (buf, run) = readdir_blocks-records index 0 ptrs e.block_buf holds kept (omega arith) in
      let x = get_elem? (all_records e sector (until_zero ptrs)) index in
      (
        buf,
        answer x,
        ap (readdir_of drv scratch e index)
              (read_inode-inode_at drv scratch e sector (inode_num % u32) holds readable)
            ∙ run
            ∙ ap
                (λ q.
                  some
                    (with_buf e buf, answer (get_elem? (all_records e sector (until_zero ptrs)) q)))
                whole,
        answer-Answers x holds,
      )
