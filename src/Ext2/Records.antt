-- ===== src/Ext2/Records.antt =====
-- The scan of `ext2_readdir` of kernel/fs/ext2.c: the records of a block, one after the other.
use next_os.Prelude.{
  ℕ, zero, suc, ◌+◌, ◌-◌, ◌≤◌, ◌<◌, ◌≡◌, refl, ap, ◌∙◌, inl, inr, Bool, true, false, not, ◌||◌,
  some, List, [], ◌∷◌, ◌++◌, ltb, leb, ◌&&◌, ◌==◌, if◌then◌else◌, get_elem?, Bool-cases, arith,
}
use native.Mathlib.Decide.{ℕ_discrete, dec_le}
use next_os.Ext2.{Ext2, Dirent, Scan, found, passed, outside, stuck, reads_outside, dirent_at, scan}
use next_os.Ext2.Read.{block_at}

-- The record at `off` ends a block's records.
abbrev pub ends_at : ℕ → List ℕ → ℕ → Bool
ends_at block_size buf off =
    not (ltb off block_size) || ((dirent_at buf off).inode == 0 || (dirent_at buf off).rec_len == 0)

-- The records of a block from the offset `off` on, each `rec_len` bytes behind the one before.
unfoldable pub Records : ℕ → List ℕ → ℕ → List Dirent → Type 0
Records block_size buf off [] =
    (reads_outside block_size off buf ≡ false) × (ends_at block_size buf off ≡ true)
Records block_size buf off (de ∷ des) =
    (reads_outside block_size off buf ≡ false)
    × (ends_at block_size buf off ≡ false)
    × (ltb block_size (off + 8 + (dirent_at buf off).name_len) ≡ false)
    × (de ≡ dirent_at buf off)
    × Records block_size buf (off + (dirent_at buf off).rec_len) des

-- The scan of a block with the records `des`.
unfoldable pub Scanned : ℕ → ℕ → List Dirent → List Dirent → Scan → Type 0
Scanned count index des more stuck = ⊥
Scanned count index des more outside = ⊥
Scanned count index des more (found de) = get_elem? (des ++ more) (index - count) ≡ some de
Scanned count index des more (passed k) =
    (k ≤ index) × (get_elem? (des ++ more) (index - count) ≡ get_elem? more (index - k))

pushed :
    (count index : ℕ) (de : Dirent) (des more : List Dirent) (s : Scan)
    → count < index
    → Scanned (count + 1) index des more s
    → Scanned count index (de ∷ des) more s
unfolding Scanned
pushed count index de des more stuck lt h = h
pushed count index de des more outside lt h = h
pushed count index de des more (found x) lt h =
    let at : index - count ≡ suc (index - (count + 1)) = omega arith in
    ap (get_elem? (de ∷ (des ++ more))) at ∙ h
pushed count index de des more (passed k) lt (le, h) =
    let at : index - count ≡ suc (index - (count + 1)) = omega arith in
    (le, ap (get_elem? (de ∷ (des ++ more))) at ∙ h)

-- One round of fuel for each byte left of the block is enough.
pub scan-Scanned :
    (n block_size off count index : ℕ) (buf : List ℕ) (des more : List Dirent)
    → Records block_size buf off des
    → count ≤ index
    → block_size < n + off
    → 0 < n
    → Scanned count index des more (scan n block_size off count index buf)
unfolding scan Records Scanned
scan-Scanned zero block_size off count index buf des more rs le fuel pos = absurd (omega arith)
scan-Scanned (suc n) block_size off count index buf [] more (known, over) le fuel pos =
    rw (known, over) (le, refl)
scan-Scanned (suc n) block_size off count index buf (de ∷ des) more (known, going, whole, is_de, rs)
      le fuel pos =
    elim (ℕ_discrete count index) [
      | yes here ↦
          let test : (count == index) ≡ true = ground arith in
          let first : index - count ≡ 0 = omega arith in
          rw (known, going, test, whole) (ap (get_elem? (de ∷ (des ++ more))) first ∙ ap some is_de)
      | no off_index ↦
          let test : (count == index) ≡ false = ground arith in
          let steps : 0 < (dirent_at buf off).rec_len = ground arith in
          let inside : off < block_size = ground arith in
          rw (known, going, test)
            (pushed count index de des more
              (scan n block_size (off + (dirent_at buf off).rec_len) (count + 1) index buf)
              (omega arith)
              (scan-Scanned n block_size (off + (dirent_at buf off).rec_len) (count + 1) index buf
                des more rs (omega arith) (omega arith) (omega arith)))
    ]

neither : (a b : Bool) → (a && (false || (b && false))) ≡ false
neither a b = ground arith

split_false :
    (a b c : Bool) → a ≡ false → b ≡ false → (if b then true else if a then c else false) ≡ true → ⊥
split_false a b c ha hb h = ground arith

inside_test :
    (p q e w r : Bool)
    → p ≡ false
    → e ≡ false
    → (if p then true else if q then (if e then true else w && r) else false) ≡ true
    → (w ≡ true) × (r ≡ true)
inside_test p q e w r hp he h = ground arith

pub both : (a b : Bool) → (a && b) ≡ true → (a ≡ true) × (b ≡ true)
both a b h = ground arith

-- The records of a block, with fuel for each of its bytes.
unfoldable pub records_of : ℕ → ℕ → List ℕ → ℕ → List Dirent
records_of zero block_size buf off = []
records_of (suc n) block_size buf off =
    let rest = records_of n block_size buf (off + (dirent_at buf off).rec_len) in
    if ends_at block_size buf off then [] else dirent_at buf off ∷ rest

-- Each record that begins in the block has its fields and its name in it, up to the one that ends them.
unfoldable pub records_inside : ℕ → ℕ → List ℕ → ℕ → Bool
records_inside zero block_size buf off = true
records_inside (suc n) block_size buf off =
    let rest = records_inside n block_size buf (off + (dirent_at buf off).rec_len) in
    if leb block_size off
    then true
    else if leb (off + 8) block_size
    then (if ends_at block_size buf off
        then true
        else leb (off + 8 + (dirent_at buf off).name_len) block_size && rest)
    else false

not_outside :
    (n block_size : ℕ) (buf : List ℕ) (off : ℕ)
    → records_inside (suc n) block_size buf off ≡ true
    → reads_outside block_size off buf ≡ false
unfolding records_inside reads_outside
not_outside n block_size buf off h = elim (dec_le block_size off) [
  | yes past ↦ let test : ltb off block_size ≡ false = ground arith in rw test refl
  | no before ↦ elim (dec_le (off + 8) block_size) [
    | no cut ↦
        let behind : leb block_size off ≡ false = ground arith in
        let split : leb (off + 8) block_size ≡ false = ground arith in
        absurd (split_false _ _ _ split behind h)
    | yes fields ↦
        let four : ltb block_size (off + 4) ≡ false = ground arith in
        let six : ltb block_size (off + 6) ≡ false = ground arith in
        rw (four, six) (neither (ltb off block_size) (not ((dirent_at buf off).inode == 0)))
  ]
]

inside_next :
    (n block_size : ℕ) (buf : List ℕ) (off : ℕ)
    → ends_at block_size buf off ≡ false
    → records_inside (suc n) block_size buf off ≡ true
    → (ltb block_size (off + 8 + (dirent_at buf off).name_len) ≡ false)
      × (records_inside n block_size buf (off + (dirent_at buf off).rec_len) ≡ true)
unfolding records_inside
inside_next n block_size buf off going h =
    let before : leb block_size off ≡ false = ground arith in
    let (name_in, rest) =
      inside_test (leb block_size off) (leb (off + 8) block_size) (ends_at block_size buf off)
        (leb (off + 8 + (dirent_at buf off).name_len) block_size)
        (records_inside n block_size buf (off + (dirent_at buf off).rec_len)) before going h in
    (ground arith, rest)

pub records_of-Records :
    (n block_size : ℕ) (buf : List ℕ) (off : ℕ)
    → block_size < n + off
    → 0 < n
    → records_inside n block_size buf off ≡ true
    → Records block_size buf off (records_of n block_size buf off)
unfolding records_of Records
records_of-Records zero block_size buf off fuel pos kept = absurd (omega arith)
records_of-Records (suc n) block_size buf off fuel pos kept =
    elim (Bool-cases (ends_at block_size buf off)) [
      | inl over ↦ rw over (not_outside n block_size buf off kept, over)
      | inr going ↦
          let steps : 0 < (dirent_at buf off).rec_len = ground arith in
          let inside : off < block_size = ground arith in
          let (whole, kept_on) = inside_next n block_size buf off going kept in
          rw going (
            not_outside n block_size buf off kept,
            going,
            whole,
            refl,
            records_of-Records n block_size buf (off + (dirent_at buf off).rec_len) (omega arith)
                (omega arith) kept_on,
          )
    ]

-- The records of a directory's blocks.
unfoldable pub all_records : {D : Type 0} → Ext2 D → (ℕ → List ℕ) → List ℕ → List Dirent
all_records e sector [] = []
all_records e sector (ptr ∷ ptrs) =
    records_of (suc e.block_size) e.block_size (block_at e sector ptr) 0
    ++ all_records e sector ptrs

-- The records of all of the blocks lie in them.
unfoldable pub all_inside : {D : Type 0} → Ext2 D → (ℕ → List ℕ) → List ℕ → Bool
all_inside e sector [] = true
all_inside e sector (ptr ∷ ptrs) =
    records_inside (suc e.block_size) e.block_size (block_at e sector ptr) 0
    && all_inside e sector ptrs
