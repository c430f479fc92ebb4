-- ===== src/Ramfs/Decode.antt =====
-- What `ramfs_load_from_disk` of kernel/fs/ramfs.c makes of the sector that `ramfs_sync_to_disk`
-- wrote for an entry.
use next_os.Prelude.{
  ℕ, suc, ◌+◌, ◌-◌, ◌%◌, ◌^◌, ◌≤◌, ◌<◌, ◌≡◌, refl, sym, ap, ◌∙◌, false, List, [], ◌∷◌, ◌++◌, ◌==◌,
  length, get_or, drop, replicate, length-append, length-replicate, arith,
}
use mathlib.Core.List.{append_assoc}
use next_os.Prelude.Slices.{drop_none, get_or-drop}
use next_os.Prelude.Bytes.{read32, c_string}
use next_os.Ramfs.Table.{NodeType, file, directory, Entry, pad_to, le32, type_code, disk_entry}
use next_os.Ramfs.Load.{type_of, saved_entry}

-- No byte of a string is NUL.
unfoldable pub NoNul : List ℕ → Type 0
NoNul [] = Unit
NoNul (b ∷ bs) = (0 < b) × NoNul bs

c_string-end : (xs ys : List ℕ) → NoNul xs → c_string (xs ++ (0 ∷ ys)) ≡ xs
unfolding NoNul
c_string-end [] ys h = refl
c_string-end (x ∷ xs) ys (pos, h) =
    let going : (x == 0) ≡ false = ground arith in rw going (ap (λ q. x ∷ q) (c_string-end xs ys h))

length-pad_to : (n : ℕ) (xs : List ℕ) → length xs ≤ n → length (pad_to n xs) ≡ n
unfolding pad_to
length-pad_to n xs le =
    length-append xs (replicate (n - length xs) 0)
    ∙ omega (arith, length-replicate {A = ℕ} (n - length xs) 0)

-- A string in a larger buffer, with other bytes behind it.
c_string-pad_to :
    (n : ℕ) (xs ys : List ℕ) → NoNul xs → length xs < n → c_string (pad_to n xs ++ ys) ≡ xs
unfolding pad_to
c_string-pad_to n xs ys h lt =
    let more : n - length xs ≡ suc (n - length xs - 1) = omega arith in
    ap (λ q. c_string ((xs ++ replicate q 0) ++ ys)) more
    ∙ ap c_string (append_assoc xs (replicate (suc (n - length xs - 1)) 0) ys)
    ∙ c_string-end xs (replicate (n - length xs - 1) 0 ++ ys) h

drop-pad_to : (n : ℕ) (xs ys : List ℕ) → length xs ≤ n → drop n (pad_to n xs ++ ys) ≡ ys
drop-pad_to n xs ys le =
    let long = length-pad_to n xs le in
    ap (λ q. drop q (pad_to n xs ++ ys)) (sym long) ∙ drop_none (pad_to n xs) ys

pub read32-le32 : (n : ℕ) (ys : List ℕ) → n < 2 ^ 32 → read32 (le32 n ++ ys) 0 ≡ n
unfolding le32
read32-le32 n ys lt = omega arith

read32-drop : (xs : List ℕ) (o at : ℕ) → read32 (drop o xs) at ≡ read32 xs (o + at)
read32-drop xs o at =
    let one : o + (at + 1) ≡ o + at + 1 = omega arith in
    let two : o + (at + 2) ≡ o + at + 2 = omega arith in
    let three : o + (at + 2 + 1) ≡ o + at + 2 + 1 = omega arith in
    omega (
      arith,
      get_or-drop o xs at,
      get_or-drop o xs (at + 1) ∙ ap (λ q. get_or xs q 0) one,
      get_or-drop o xs (at + 2) ∙ ap (λ q. get_or xs q 0) two,
      get_or-drop o xs (at + 2 + 1) ∙ ap (λ q. get_or xs q 0) three,
    )

type_of-type_code : (t : NodeType) → type_of (type_code t) ≡ t
unfolding type_of type_code
type_of-type_code file = refl
type_of-type_code directory = refl

type_code-small : (t : NodeType) → type_code t < 2 ^ 32
unfolding type_code
type_code-small file = omega arith
type_code-small directory = omega arith

sector_padded :
    (e : Entry)
    → disk_entry e
      ≡ (pad_to 128 e.name
          ++ (pad_to 256 e.parent ++ (le32 (type_code e.type) ++ le32 (e.size % 2 ^ 32))))
        ++ replicate
            (512
              - length (
                  pad_to 128 e.name
                  ++ (pad_to 256 e.parent ++ (le32 (type_code e.type) ++ le32 (e.size % 2 ^ 32)))))
            0
unfolding disk_entry pad_to
sector_padded e = refl

-- The parts of the sector, one behind the other.
sector_parts :
    (e : Entry)
    → disk_entry e
      ≡ pad_to 128 e.name
        ++ (pad_to 256 e.parent
            ++ (le32 (type_code e.type)
                ++ (le32 (e.size % 2 ^ 32)
                    ++ replicate
                        (512
                          - length (
                              pad_to 128 e.name
                              ++ (pad_to 256 e.parent
                                  ++ (le32 (type_code e.type) ++ le32 (e.size % 2 ^ 32)))))
                        0)))
unfolding disk_entry le32
sector_parts e =
    let zeros : List ℕ =
      replicate
        (512
          - length (
              pad_to 128 e.name
              ++ (pad_to 256 e.parent ++ (le32 (type_code e.type) ++ le32 (e.size % 2 ^ 32)))))
        0 in
    sector_padded e
    ∙ append_assoc (pad_to 128 e.name)
        (pad_to 256 e.parent ++ (le32 (type_code e.type) ++ le32 (e.size % 2 ^ 32))) zeros
    ∙ ap (λ q. pad_to 128 e.name ++ q)
        (append_assoc (pad_to 256 e.parent) (le32 (type_code e.type) ++ le32 (e.size % 2 ^ 32))
          zeros)

second_number : (n : ℕ) (ys : List ℕ) → read32 (le32 n ++ ys) 4 ≡ read32 ys 0
unfolding le32
second_number n ys = refl

-- An entry whose strings fit their fields on the disk.
pub record Savable (e : Entry) : Type 0 where
  pub name_ended : NoNul e.name
  pub name_short : length e.name < 128
  pub parent_ended : NoNul e.parent
  pub parent_short : length e.parent < 256

-- The fields that come back from the sector of an entry.
pub record SavedAs (e s : Entry) : Type 0 where
  pub same_name : s.name ≡ e.name
  pub same_parent : s.parent ≡ e.parent
  pub same_type : s.type ≡ e.type
  pub same_size : s.size ≡ e.size

pub saved_entry-disk_entry :
    (e : Entry) → Savable e → e.size < 2 ^ 32 → SavedAs e (saved_entry (disk_entry e))
unfolding saved_entry
saved_entry-disk_entry e ok small =
    let tail1 = drop 128 (disk_entry e) in
    let zeros : List ℕ =
      replicate
        (512
          - length (
              pad_to 128 e.name
              ++ (pad_to 256 e.parent ++ (le32 (type_code e.type) ++ le32 (e.size % 2 ^ 32)))))
        0 in
    let numbers : List ℕ = le32 (type_code e.type) ++ (le32 (e.size % 2 ^ 32) ++ zeros) in
    let behind_name : tail1 ≡ pad_to 256 e.parent ++ numbers =
      ap (drop 128) (sector_parts e)
      ∙ drop-pad_to 128 e.name (pad_to 256 e.parent ++ numbers) (omega (arith, ok.name_short)) in
    let behind_parent : drop 256 tail1 ≡ numbers =
      ap (drop 256) behind_name
      ∙ drop-pad_to 256 e.parent numbers (omega (arith, ok.parent_short)) in
    let code : read32 (disk_entry e) 384 ≡ type_code e.type =
      sym (read32-drop (disk_entry e) 128 256)
      ∙ sym (read32-drop tail1 256 0)
      ∙ ap (λ q. read32 q 0) behind_parent
      ∙ read32-le32 (type_code e.type) (le32 (e.size % 2 ^ 32) ++ zeros) (type_code-small e.type) in
    let size : read32 (disk_entry e) 388 ≡ e.size % 2 ^ 32 =
      sym (read32-drop (disk_entry e) 128 260)
      ∙ sym (read32-drop tail1 256 4)
      ∙ ap (λ q. read32 q 4) behind_parent
      ∙ second_number (type_code e.type) (le32 (e.size % 2 ^ 32) ++ zeros)
      ∙ read32-le32 (e.size % 2 ^ 32) zeros (omega arith) in
    record {
      same_name =
          ap c_string (sector_parts e)
          ∙ c_string-pad_to 128 e.name (pad_to 256 e.parent ++ numbers) ok.name_ended ok.name_short;
      same_parent =
          ap c_string behind_name
          ∙ c_string-pad_to 256 e.parent numbers ok.parent_ended ok.parent_short;
      same_type = ap type_of code ∙ type_of-type_code e.type;
      same_size = size ∙ omega (arith, small);
    }
