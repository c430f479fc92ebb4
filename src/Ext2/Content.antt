-- ===== src/Ext2/Content.antt =====
-- `ext2_read`: the bytes of a file of direct and indirect blocks.
use next_os.Prelude.{
  ℕ, ◌+◌, ◌-◌, ◌*◌, ◌/◌, ◌%◌, ◌≤◌, ◌<◌, min, ◌≡◌, refl, sym, ap, ◌∙◌, ◌⊎◌, inl, inr, true, false,
  not, ◌&&◌, List, [], ◌∷◌, ◌++◌, ltb, leb, ◌==◌, if◌then◌else◌, length, get_or, take, drop,
  length-append, Bool-cases, arith,
}
use mathlib.Core.Path.{ap₂}
use native.Mathlib.Decide.{dec_lt, dec_le}
use next_os.Prelude.Words.{word_mod}
use next_os.Disk.{Driver, Holds}
use next_os.Disk.Parts.{concat, append_nil}
use next_os.Ext2.{
  Ext2, Inode, u32, read_block, read_blocks, read_range, read_file, ext2_read, words_at,
}
use next_os.Ext2.Read.{
  until_zero, block_at, blocks_at, with_buf, Sized, read_blocks-content, block_length,
  read_block_lem,
}
use next_os.Prelude.Outcome.{done}
use next_os.Ext2.Inodes.{inode_at, Readable, read_inode-inode_at}
use next_os.Ext2.Ranges.{length-take-drop, range_append}

-- The block pointers that the indirect block of an inode holds.
abbrev pub indirect : {D : Type 0} → Ext2 D → (ℕ → List ℕ) → Inode → List ℕ
indirect e sector inode =
    words_at (e.block_size / 4) 0 (block_at e sector (get_or inode.i_block 12 0))

-- The bytes of a file: those of its direct blocks in front of the first pointer that is 0, and, if
-- there is an indirect block, of the blocks that it names in front of the first 0.
abbrev pub file_bytes : {D : Type 0} → Ext2 D → (ℕ → List ℕ) → Inode → List ℕ
file_bytes e sector inode =
    concat (blocks_at e sector (until_zero (take 12 inode.i_block)))
    ++ (if get_or inode.i_block 12 0 == 0
        then []
        else concat (blocks_at e sector (until_zero (indirect e sector inode))))

module _ {D : Type 0} (drv : Driver D) (scratch : List ℕ) (e : Ext2 D) (sector : ℕ → List ℕ) where
  length-concat :
      (offset size : ℕ) (ptrs : List ℕ)
      → Holds drv e.disk sector
      → Sized e offset size
      → length (concat (blocks_at e sector ptrs)) ≡ length ptrs * e.block_size
  length-concat offset size [] holds sized = omega arith
  length-concat offset size (p ∷ ps) holds sized =
      length-append (block_at e sector p) (concat (blocks_at e sector ps))
      ∙ omega (
        arith,
        block_length drv scratch e sector offset size p holds sized,
        length-concat offset size ps holds sized,
      )

  -- The bytes of the range that the direct blocks have.
  direct_part : Inode → ℕ → ℕ → List ℕ
  direct_part inode offset size =
      take size (drop offset (concat (blocks_at e sector (until_zero (take 12 inode.i_block)))))

  read_direct :
      (inode : Inode) (offset size : ℕ) (buf : List ℕ)
      → Holds drv e.disk sector
      → Sized e offset size
      → (buf' : List ℕ) × (read_blocks drv scratch
            (with_buf e buf)
            offset
            size
            (take 12 inode.i_block)
            0
            []
          ≡ (with_buf e buf', direct_part inode offset size))
  unfolding direct_part
  read_direct inode offset size buf holds sized =
      let (buf', run) =
        read_blocks-content drv scratch e sector offset size (take 12 inode.i_block) 0 buf [] holds
          sized (inl (omega arith)) (omega arith) in
      let whole : size - 0 ≡ size = omega arith in
      let start : offset - 0 * e.block_size ≡ offset = omega arith in
      (
        buf',
        run
            ∙ ap₂
                (λ k n. (
                  with_buf e buf',
                  take k
                      (drop n (concat (blocks_at e sector (until_zero (take 12 inode.i_block))))),
                ))
                whole start,
      )

  -- What the code does behind the direct blocks.
  read_rest : Inode → ℕ → ℕ → List ℕ → List ℕ → Ext2 D × List ℕ
  read_rest inode offset size buf out =
      if ltb (length out) size && not (get_or inode.i_block 12 0 == 0)
      then read_blocks drv scratch (with_buf e buf) offset size
          (words_at (e.block_size / 4) 0
            (read_block drv scratch (with_buf e buf) (get_or inode.i_block 12 0) scratch))
          12 out
      else (with_buf e buf, out)

  read_range-rest :
      (inode : Inode) (offset size : ℕ) (buf buf' out : List ℕ)
      → read_blocks drv scratch (with_buf e buf) offset size (take 12 inode.i_block) 0 []
        ≡ (with_buf e buf', out)
      → read_range drv scratch (with_buf e buf) inode offset size
        ≡ read_rest inode offset size buf' out
  unfolding read_range read_rest
  read_range-rest inode offset size buf buf' out run = rw run refl

  read_rest-stops :
      (inode : Inode) (offset size : ℕ) (buf out : List ℕ)
      → (ltb (length out) size && not (get_or inode.i_block 12 0 == 0)) ≡ false
      → read_rest inode offset size buf out ≡ (with_buf e buf, out)
  unfolding read_rest
  read_rest-stops inode offset size buf out over = rw over refl

  read_rest-goes :
      (inode : Inode) (offset size : ℕ) (buf out : List ℕ)
      → Holds drv e.disk sector
      → (ltb (length out) size && not (get_or inode.i_block 12 0 == 0)) ≡ true
      → read_rest inode offset size buf out
        ≡ read_blocks drv scratch (with_buf e buf) offset size (indirect e sector inode) 12 out
  unfolding read_rest
  read_rest-goes inode offset size buf out holds more =
      rw (more, read_block_lem drv scratch e sector (get_or inode.i_block 12 0) buf scratch holds)
        refl

  bytes_direct :
      (inode : Inode)
      → (get_or inode.i_block 12 0 == 0) ≡ true
      → file_bytes e sector inode ≡ concat (blocks_at e sector (until_zero (take 12 inode.i_block)))
  bytes_direct inode none_there =
      rw none_there (append_nil (concat (blocks_at e sector (until_zero (take 12 inode.i_block)))))

  bytes_both :
      (inode : Inode)
      → (get_or inode.i_block 12 0 == 0) ≡ false
      → file_bytes e sector inode
        ≡ concat (blocks_at e sector (until_zero (take 12 inode.i_block)))
          ++ concat (blocks_at e sector (until_zero (indirect e sector inode)))
  bytes_both inode there = rw there refl

  -- The indirect blocks have the rest of the range.
  twelve_of : {n p : ℕ} → (n ≡ 12) ⊎ (p ≡ 0) → (p == 0) ≡ false → n ≡ 12
  twelve_of (inl twelve) there = twelve
  twelve_of (inr none_there) there = ground arith

  read_rest-content :
      (inode : Inode) (offset size : ℕ) (buf : List ℕ)
      → Holds drv e.disk sector
      → Sized e offset size
      → (length (until_zero (take 12 inode.i_block)) ≡ 12) ⊎ (get_or inode.i_block 12 0 ≡ 0)
      → (buf' : List ℕ) × (read_rest inode offset size buf (direct_part inode offset size)
          ≡ (with_buf e buf', take size (drop offset (file_bytes e sector inode))))
  unfolding direct_part
  read_rest-content inode offset size buf holds sized full =
      let c1 = concat (blocks_at e sector (until_zero (take 12 inode.i_block))) in
      let c2 = concat (blocks_at e sector (until_zero (indirect e sector inode))) in
      let out = take size (drop offset c1) in
      let len = length-take-drop size offset c1 in
      let all = length-concat offset size (until_zero (take 12 inode.i_block)) holds sized in
      elim (Bool-cases (get_or inode.i_block 12 0 == 0)) [
        | inl none_there ↦ (
          buf,
          read_rest-stops inode offset size buf out (ground arith)
              ∙ ap (λ q. (with_buf e buf, take size (drop offset q)))
                  (sym (bytes_direct inode none_there)),
        )
        | inr there ↦ elim (dec_lt (length out) size) [
          | no done_all ↦
              let nothing : size - length out ≡ 0 = omega arith in
              (
                buf,
                read_rest-stops inode offset size buf out (ground arith)
                    ∙ ap (λ q. (with_buf e buf, q))
                        (sym (
                          ap (λ q. take size (drop offset q)) (bytes_both inode there)
                          ∙ range_append size offset c1 c2
                          ∙ ap (λ n. out ++ take n (drop (offset - length c1) c2)) nothing
                          ∙ append_nil out)),
              )
          | yes more ↦
              let twelve : length (until_zero (take 12 inode.i_block)) ≡ 12 =
                twelve_of full there in
              let long : length c1 ≡ 12 * e.block_size = all ∙ ap (λ n. n * e.block_size) twelve in
              let (buf', run) =
                read_blocks-content drv scratch e sector offset size (indirect e sector inode) 12
                  buf out holds sized (inl (omega (arith, len, long))) (omega arith) in
              (
                buf',
                read_rest-goes inode offset size buf out holds (ground arith)
                    ∙ run
                    ∙ ap (λ q. (with_buf e buf', q))
                        (sym (
                          ap (λ q. take size (drop offset q)) (bytes_both inode there)
                          ∙ range_append size offset c1 c2
                          ∙ ap (λ n. out ++ take (size - length out) (drop (offset - n) c2)) long)),
              )
        ]
      ]

  read_range-content :
      (inode : Inode) (offset size : ℕ) (buf : List ℕ)
      → Holds drv e.disk sector
      → Sized e offset size
      → (length (until_zero (take 12 inode.i_block)) ≡ 12) ⊎ (get_or inode.i_block 12 0 ≡ 0)
      → (buf' : List ℕ) × (read_range drv scratch (with_buf e buf) inode offset size
          ≡ (with_buf e buf', take size (drop offset (file_bytes e sector inode))))
  read_range-content inode offset size buf holds sized full =
      let (b1, first) = read_direct inode offset size buf holds sized in
      let (b2, rest) = read_rest-content inode offset size b1 holds sized full in
      (b2, read_range-rest inode offset size buf b1 (direct_part inode offset size) first ∙ rest)

  read_file-past :
      (inode : Inode) (offset size : ℕ)
      → inode.i_size ≤ offset
      → read_file drv scratch e offset size (done inode) ≡ done (e, [])
  unfolding read_file
  read_file-past inode offset size past =
      let test : leb inode.i_size offset ≡ true = ground arith in rw test refl

  read_file-cut :
      (inode : Inode) (offset size : ℕ)
      → offset + size < word_mod
      → offset < inode.i_size
      → read_file drv scratch e offset size (done inode)
        ≡ done (read_range drv scratch e inode offset (min size (inode.i_size - offset)))
  unfolding read_file
  read_file-cut inode offset size small before =
      let test : leb inode.i_size offset ≡ false = ground arith in
      let whole : (offset + size) % word_mod ≡ offset + size = omega arith in
      let cut : ((if ltb inode.i_size (offset + size) then inode.i_size - offset else size)
          ≡ min size (inode.i_size - offset)) =
        ground arith in
      rw (test, whole) (ap (λ n. done (read_range drv scratch e inode offset n)) cut)

  read_file-content :
      (inode : Inode) (offset size : ℕ)
      → Holds drv e.disk sector
      → Sized e offset size
      → (length (until_zero (take 12 inode.i_block)) ≡ 12) ⊎ (get_or inode.i_block 12 0 ≡ 0)
      → (buf : List ℕ) × (read_file drv scratch e offset size (done inode)
          ≡ done (
            with_buf e buf,
            take (min size (inode.i_size - offset)) (drop offset (file_bytes e sector inode)),
          ))
  read_file-content inode offset size holds sized full = elim (dec_le inode.i_size offset) [
    | yes past ↦
        let none_left : 0 ≡ min size (inode.i_size - offset) = omega arith in
        (
          e.block_buf,
          read_file-past inode offset size past
              ∙ ap (λ n. done (e, take n (drop offset (file_bytes e sector inode)))) none_left,
        )
    | no before ↦
        let cut = min size (inode.i_size - offset) in
        let (buf, run) =
          read_range-content inode offset cut e.block_buf holds
            (record {
              some_byte = sized.some_byte;
              by_sectors = sized.by_sectors;
              room = omega (arith, sized.room);
            })
            full in
        (
          buf,
          read_file-cut inode offset size (omega (arith, sized.room)) (omega arith) ∙ ap done run,
        )
  ]

  -- `ext2_read` of a file without holes, on a disk that can be read, whose block size is a multiple of
  -- 512 and at most 4096, with an inode number whose descriptor and inode each lie in one block, and
  -- with a range that does not come near 2^64, returns the bytes of the range that lie in front of the
  -- size that the inode table has for the file, from its direct blocks and those of its indirect block.
  pub ext2_read-content :
      (inode_num offset size : ℕ)
      → Holds drv e.disk sector
      → Readable e (inode_num % u32)
      → Sized e offset size
      → (length (until_zero (take 12 (inode_at e sector scratch (inode_num % u32)).i_block)) ≡ 12)
        ⊎ (get_or (inode_at e sector scratch (inode_num % u32)).i_block 12 0 ≡ 0)
      → (buf : List ℕ) × (ext2_read drv scratch e inode_num offset size
          ≡ done (
            with_buf e buf,
            take
                (min size ((inode_at e sector scratch (inode_num % u32)).i_size - offset))
                (drop offset (file_bytes e sector (inode_at e sector scratch (inode_num % u32)))),
          ))
  unfolding ext2_read
  ext2_read-content inode_num offset size holds readable sized full =
      let (buf, run) =
        read_file-content (inode_at e sector scratch (inode_num % u32)) offset size holds sized
          full in
      (
        buf,
        ap (read_file drv scratch e offset size)
              (read_inode-inode_at drv scratch e sector (inode_num % u32) holds readable)
            ∙ run,
      )
