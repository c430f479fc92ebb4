-- ===== src/Ramfs/Sectors.antt =====
-- The sectors that `ramfs_sync_to_disk` of kernel/fs/ramfs.c writes, and the data that
-- `ramfs_load_from_disk` reads from such sectors.
use next_os.Prelude.{
  ℕ, zero, suc, ◌+◌, ◌-◌, ◌*◌, ◌%◌, ◌^◌, ◌≤◌, ◌<◌, min, ◌≡◌, refl, sym, ap, ◌∙◌, inl, inr, true,
  false, Option, none, some, List, [], ◌∷◌, ◌++◌, ltb, ◌==◌, if◌then◌else◌, length, get_or, take,
  drop, replicate, Bool-cases, arith,
}
use mathlib.Core.Path.{subst}
use native.Mathlib.Decide.{dec_lt}
use next_os.Prelude.Slices.{
  overlay, length-overlay, get_or-overlay_in, get_or-overlay_out, get_or-take, get_or-drop,
  length-take, take_all, take-append, length-drop,
}
use next_os.Disk.Parts.{append_nil}
use next_os.Ramfs.Table.{
  Entry, pad_to, data_writes, data_sectors, content_writes, entry_writes, is_user,
}
use next_os.Ramfs.Load.{copy_sector, load_sectors}

-- The sectors of a disk after some writes of one sector each.
unfoldable pub disk_after : List (ℕ × List ℕ) → (ℕ → List ℕ) → ℕ → List ℕ
disk_after [] d k = d k
disk_after ((lba, bytes) ∷ ws) d k = disk_after ws (λ q. if q == lba then bytes else d q) k

-- The disk has what was written.
unfoldable pub Finds : (ℕ → List ℕ) → List (ℕ × List ℕ) → Type 0
Finds d [] = Unit
Finds d ((lba, bytes) ∷ ws) = (d lba ≡ bytes) × Finds d ws

-- The writes go upwards, from `lo` on.
unfoldable pub Rising : ℕ → List (ℕ × List ℕ) → Type 0
Rising lo [] = Unit
Rising lo ((lba, bytes) ∷ ws) = (lo ≤ lba) × Rising (lba + 1) ws

disk_after-below :
    (ws : List (ℕ × List ℕ)) (d : ℕ → List ℕ) (lo k : ℕ)
    → Rising lo ws
    → k < lo
    → disk_after ws d k ≡ d k
unfolding disk_after Rising
disk_after-below [] d lo k up lt = refl
disk_after-below ((lba, bytes) ∷ ws) d lo k (le, up) lt =
    let other : (k == lba) ≡ false = ground arith in
    disk_after-below ws (λ q. if q == lba then bytes else d q) (lba + 1) k up (omega arith)
    ∙ rw other refl

-- Writes that go upwards are all found.
pub disk_after-Finds :
    (ws : List (ℕ × List ℕ)) (d : ℕ → List ℕ) (lo : ℕ) → Rising lo ws → Finds (disk_after ws d) ws
unfolding Finds disk_after Rising
disk_after-Finds [] d lo up = tt
disk_after-Finds ((lba, bytes) ∷ ws) d lo (le, up) =
    let here : (lba == lba) ≡ true = ground arith in
    (
      disk_after-below ws (λ q. if q == lba then bytes else d q) (lba + 1) lba up (omega arith)
          ∙ rw here refl,
      disk_after-Finds ws (λ q. if q == lba then bytes else d q) (lba + 1) up,
    )

-- Later writes act on the disk that the earlier ones left.
pub disk_after-append :
    (ws ws' : List (ℕ × List ℕ)) (d : ℕ → List ℕ) (k : ℕ)
    → disk_after (ws ++ ws') d k ≡ disk_after ws' (disk_after ws d) k
unfolding disk_after
disk_after-append [] ws' d k = refl
disk_after-append ((lba, bytes) ∷ ws) ws' d k =
    disk_after-append ws ws' (λ q. if q == lba then bytes else d q) k

pub Finds-append :
    (d : ℕ → List ℕ) (ws ws' : List (ℕ × List ℕ)) → Finds d (ws ++ ws') → Finds d ws × Finds d ws'
unfolding Finds
Finds-append d [] ws' h = (tt, h)
Finds-append d ((lba, bytes) ∷ ws) ws' (first, h) =
    let (left, right) = Finds-append d ws ws' h in ((first, left), right)

Rising-weaken : (ws : List (ℕ × List ℕ)) (lo lo' : ℕ) → lo' ≤ lo → Rising lo ws → Rising lo' ws
unfolding Rising
Rising-weaken [] lo lo' le up = tt
Rising-weaken ((lba, bytes) ∷ ws) lo lo' le (at, up) = (omega arith, up)

-- The data sectors of a file, and writes behind them.
Rising-data_writes :
    (n s lba size hi : ℕ) (block : List ℕ) (ws : List (ℕ × List ℕ))
    → lba + s + n ≤ hi
    → Rising hi ws
    → Rising (lba + s) (data_writes n s lba size block ++ ws)
unfolding Rising data_writes
Rising-data_writes zero s lba size hi block ws le up =
    Rising-weaken ws hi (lba + s) (omega arith) up
Rising-data_writes (suc n) s lba size hi block ws le up =
    let next : lba + (s + 1) ≡ lba + s + 1 = omega arith in
    (
      omega arith,
      subst (λ q. Rising q (data_writes n (s + 1) lba size block ++ ws)) next
          (Rising-data_writes n (s + 1) lba size hi block ws (omega arith) up),
    )

Rising-content_writes :
    (content : Option (List ℕ)) (lba size hi : ℕ) (ws : List (ℕ × List ℕ))
    → lba + data_sectors size ≤ hi
    → Rising hi ws
    → Rising lba (content_writes content lba size ++ ws)
unfolding content_writes
Rising-content_writes none lba size hi ws le up = Rising-weaken ws hi lba (omega arith) up
Rising-content_writes (some block) lba size hi ws le up = elim (Bool-cases (ltb 0 size)) [
  | inl has ↦
      let start : lba + 0 ≡ lba = omega arith in
      rw has (
        subst (λ q. Rising q (data_writes (data_sectors size) 0 lba size block ++ ws)) start
          (Rising-data_writes (data_sectors size) 0 lba size hi block ws (omega arith) up))
  | inr empty ↦ rw empty (Rising-weaken ws hi lba (omega arith) up)
]

pub Rising-entry_writes : (lba : ℕ) (es : List Entry) → Rising lba (entry_writes lba es)
unfolding entry_writes Rising
Rising-entry_writes lba [] = tt
Rising-entry_writes lba (e ∷ es) = elim (Bool-cases (is_user e)) [
  | inl user ↦
      let size = e.size % 2 ^ 32 in
      let next = lba + 1 + data_sectors size in
      rw user (
        omega arith,
        Rising-content_writes e.content (lba + 1) size next (entry_writes next es) (omega arith)
            (Rising-entry_writes next es),
      )
  | inr other ↦ rw other (Rising-entry_writes lba es)
]

-- The bytes of a data sector that count.
chunk_lem : (c n : ℕ) (xs : List ℕ) → c ≤ length xs → take c (pad_to n (take c xs)) ≡ take c xs
unfolding pad_to
chunk_lem c n xs le =
    let long = length-take c xs le in
    let none_left : c - length (take c xs) ≡ 0 = omega arith in
    let zeros : List ℕ = replicate (n - length (take c xs)) 0 in
    take-append c (take c xs) zeros
    ∙ ap (λ q. take c (take c xs) ++ take q zeros) none_left
    ∙ append_nil (take c (take c xs))
    ∙ take_all c (take c xs) (omega arith)

-- What is loaded of the sectors that a file's data was written to is the data.
pub load_sectors-bytes :
    (d : ℕ → List ℕ) (n s lba size : ℕ) (bytes0 block : List ℕ)
    → Finds d (data_writes n s lba size bytes0)
    → size ≤ length block
    → size ≤ length bytes0
    → size ≤ (s + n) * 512
    → ((k : ℕ) → k < size → k < s * 512 → get_or block k 0 ≡ get_or bytes0 k 0)
    → (k : ℕ) → k < size
    → get_or (load_sectors (λ q. some (d q)) n s lba size block) k 0 ≡ get_or bytes0 k 0
unfolding load_sectors copy_sector data_writes Finds
load_sectors-bytes d zero s lba size bytes0 block finds room long all before k lt =
    before k lt (omega arith)
load_sectors-bytes d (suc n) s lba size bytes0 block (here, finds) room long all before k lt =
    let o = s * 512 in
    let c = min 512 (size - o) in
    let avail : c ≤ length (drop o bytes0) = omega (arith, length-drop o bytes0) in
    let bytes : take c (d (lba + s)) ≡ take c (drop o bytes0) =
      ap (take c) here ∙ chunk_lem c 512 (drop o bytes0) avail in
    let count : length (take c (d (lba + s))) ≡ c =
      ap length bytes ∙ length-take c (drop o bytes0) avail in
    let made = overlay block o (take c (d (lba + s))) in
    load_sectors-bytes d n (s + 1) lba size bytes0 made finds
      (omega (arith, length-overlay block o (take c (d (lba + s))))) long (omega arith)
      (λ j inside under. elim (dec_lt j o) [
        | yes old ↦
            get_or-overlay_out block o (take c (d (lba + s))) j (inl old) ∙ before j inside old
        | no new ↦
            let at : j ≡ o + (j - o) = omega arith in
            ap (λ q. get_or made q 0) at
            ∙ get_or-overlay_in block o (take c (d (lba + s))) (j - o) (omega arith) (omega arith)
            ∙ ap (λ q. get_or q (j - o) 0) bytes
            ∙ get_or-take c (drop o bytes0) (j - o) (omega arith)
            ∙ get_or-drop o bytes0 (j - o)
            ∙ ap (λ q. get_or bytes0 q 0) (sym at)
      ])
      k lt
