-- ===== src/Fat32/Listing.antt =====
-- `fat32_readdir`: the entries of a directory, one after the other.
use next_os.Prelude.{
  ℕ, zero, suc, ◌+◌, ◌-◌, ◌/◌, ◌%◌, ◌≤◌, ◌<◌, Bool, not, ◌&&◌, ◌||◌, bit_and, ◌↔◌, ◌≡◌, refl, sym,
  ap, ◌∙◌, inl, inr, true, false, Option, none, some, List, [], ◌∷◌, ◌++◌, ltb, ◌==◌, if◌then◌else◌,
  length, get_or, get_elem?, Bool-cases, arith,
}
use native.Mathlib.Decide.{ℕ_discrete}
use next_os.Prelude.Bits.{bit_at}
use next_os.Prelude.Words.{bit_and-pow_eq_zero}
use next_os.Disk.{Driver, Holds, sectors_at}
use next_os.Fat32.{
  Fat32, Dirent, DirNode, Scan, ended, found, passed, dirent_at, dirent_size, skipped, scan,
  dir_node, scanned, end_of_chain, cluster_to_lba, next_cluster, cluster_size, readdir_loop,
  fat32_readdir, u32,
}
use next_os.Fat32.Chains.{Chain, with_buf, read_cluster_lem}

-- The first `n` entries of a cluster from index `i` on.
unfoldable pub dirents : ℕ → ℕ → List ℕ → List Dirent
dirents zero i buf = []
dirents (suc n) i buf = dirent_at buf i ∷ dirents n (i + 1) buf

zero_test : (a b : ℕ) → (a ≡ 0) ↔ (b ≡ 0) → (a == 0) ≡ (b == 0)
zero_test a b (to, from) = elim (ℕ_discrete a 0) [
  | yes a0 ↦
      let b0 = to a0 in
      let left : (a == 0) ≡ true = ground arith in
      let right : (b == 0) ≡ true = ground arith in left ∙ sym right
  | no a1 ↦ elim (ℕ_discrete b 0) [
    | yes b0 ↦ absurd (a1 (from b0))
    | no b1 ↦
        let left : (a == 0) ≡ false = ground arith in
        let right : (b == 0) ≡ false = ground arith in left ∙ sym right
  ]
]

passed_test : (a b c : Bool) → (a || (b || not c)) ≡ not (not a && (not b && c))
passed_test true b c = refl
passed_test false true c = refl
passed_test false false true = refl
passed_test false false false = refl

not-true : (b : Bool) → not b ≡ true → b ≡ false
not-true b h = ground arith

not-false : (b : Bool) → not b ≡ false → b ≡ true
not-false b h = ground arith

-- The entries of a directory's clusters.
unfoldable pub all_dirents : ℕ → List (List ℕ) → List Dirent
all_dirents n [] = []
all_dirents n (b ∷ bs) = dirents n 0 b ++ all_dirents n bs

-- An entry is listed unless it is deleted, which its first byte says, is a part of a long name, with
-- exactly the attributes 0 to 3, or a volume label, with the attribute 3.
abbrev pub shown : Dirent → Bool
shown de = not (get_or de.name 0 0 == 229) && (not (de.attr == 15) && bit_at de.attr 3 == 0)

label_bit : (attr : ℕ) → (bit_and attr 8 == 0) ≡ (bit_at attr 3 == 0)
label_bit attr =
    let same_bit : (bit_and attr 8 ≡ 0) ↔ (bit_at attr 3 ≡ 0) = bit_and-pow_eq_zero 3 attr in
    zero_test (bit_and attr 8) (bit_at attr 3) same_bit

-- What the code passes over.
skipped-shown : (de : Dirent) → skipped de ≡ not (shown de)
unfolding skipped
skipped-shown de =
    rw (label_bit de.attr)
      (passed_test (get_or de.name 0 0 == 229) (de.attr == 15) (bit_at de.attr 3 == 0))

-- The entries in front of the first that marks the end, of which only those that are shown.
unfoldable pub live : List Dirent → List Dirent
live [] = []
live (de ∷ des) =
    let rest = live des in
    if get_or de.name 0 0 == 0 then [] else if shown de then de ∷ rest else rest

-- Where the scan of a cluster ends, with `more` entries behind it.
Scanned : ℕ → ℕ → List Dirent → List Dirent → Scan → Type 0
Scanned count index des more ended = get_elem? (live (des ++ more)) (index - count) ≡ none
Scanned count index des more (found de) = get_elem? (live (des ++ more)) (index - count) ≡ some de
Scanned count index des more (passed count') =
    (count' ≤ index)
    × (get_elem? (live (des ++ more)) (index - count) ≡ get_elem? (live more) (index - count'))

live_last :
    (de : Dirent) (des : List Dirent) → (get_or de.name 0 0 == 0) ≡ true → live (de ∷ des) ≡ []
unfolding live
live_last de des last = rw last refl

live_skip :
    (de : Dirent) (des : List Dirent)
    → (get_or de.name 0 0 == 0) ≡ false
    → skipped de ≡ true
    → live (de ∷ des) ≡ live des
unfolding live
live_skip de des going skip =
    let unseen : shown de ≡ false = not-true (shown de) (sym (skipped-shown de) ∙ skip) in
    rw (going, unseen) refl

live_keep :
    (de : Dirent) (des : List Dirent)
    → (get_or de.name 0 0 == 0) ≡ false
    → skipped de ≡ false
    → live (de ∷ des) ≡ de ∷ live des
unfolding live
live_keep de des going keep =
    let seen : shown de ≡ true = not-false (shown de) (sym (skipped-shown de) ∙ keep) in
    rw (going, seen) refl

-- The scan of entries that are the same but for some that are passed over.
unlisted :
    (count index : ℕ) (des des' more : List Dirent) (s : Scan)
    → live (des' ++ more) ≡ live (des ++ more)
    → Scanned count index des more s
    → Scanned count index des' more s
unfolding Scanned
unlisted count index des des' more ended e h = ap (λ l. get_elem? l (index - count)) e ∙ h
unlisted count index des des' more (found de) e h = ap (λ l. get_elem? l (index - count)) e ∙ h
unlisted count index des des' more (passed k) e (le, h) =
    (le, ap (λ l. get_elem? l (index - count)) e ∙ h)

elem_next :
    (count index : ℕ) (de : Dirent) (l l' : List Dirent)
    → l' ≡ de ∷ l
    → count < index
    → get_elem? l' (index - count) ≡ get_elem? l (index - (count + 1))
elem_next count index de l l' e lt =
    let at : index - count ≡ suc (index - (count + 1)) = omega arith in
    ap (λ q. get_elem? q (index - count)) e ∙ ap (get_elem? (de ∷ l)) at

-- The scan behind an entry that counts.
pushed :
    (count index : ℕ) (de : Dirent) (des des' more : List Dirent) (s : Scan)
    → live (des' ++ more) ≡ de ∷ live (des ++ more)
    → count < index
    → Scanned (count + 1) index des more s
    → Scanned count index des' more s
unfolding Scanned
pushed count index de des des' more ended e lt h =
    elem_next count index de (live (des ++ more)) (live (des' ++ more)) e lt ∙ h
pushed count index de des des' more (found x) e lt h =
    elem_next count index de (live (des ++ more)) (live (des' ++ more)) e lt ∙ h
pushed count index de des des' more (passed k) e lt (le, h) =
    (le, elem_next count index de (live (des ++ more)) (live (des' ++ more)) e lt ∙ h)

scan-Scanned :
    (n i count index : ℕ) (buf : List ℕ) (more : List Dirent)
    → count ≤ index
    → Scanned count index (dirents n i buf) more (scan n i count index buf)
unfolding scan dirents Scanned
scan-Scanned zero i count index buf more le = (le, refl)
scan-Scanned (suc n) i count index buf more le =
    elim (Bool-cases (get_or (dirent_at buf i).name 0 0 == 0)) [
      | inl last ↦ rw last (
          ap (λ l. get_elem? l (index - count))
            (live_last (dirent_at buf i) (dirents n (i + 1) buf ++ more) last))
      | inr going ↦ elim (Bool-cases (skipped (dirent_at buf i))) [
        | inl skip ↦
            rw (going, skip)
              (unlisted count index (dirents n (i + 1) buf)
                (dirent_at buf i ∷ dirents n (i + 1) buf) more (scan n (i + 1) count index buf)
                (live_skip (dirent_at buf i) (dirents n (i + 1) buf ++ more) going skip)
                (scan-Scanned n (i + 1) count index buf more le))
        | inr kept ↦ elim (ℕ_discrete count index) [
          | yes here ↦
              let test : (count == index) ≡ true = ground arith in
              let zero_left : index - count ≡ 0 = omega arith in
              rw (going, kept, test)
                (ap (λ l. get_elem? l (index - count))
                    (live_keep (dirent_at buf i) (dirents n (i + 1) buf ++ more) going kept)
                  ∙ ap (get_elem? (dirent_at buf i ∷ live (dirents n (i + 1) buf ++ more)))
                      zero_left)
          | no off ↦
              let test : (count == index) ≡ false = ground arith in
              rw (going, kept, test)
                (pushed count index (dirent_at buf i) (dirents n (i + 1) buf)
                  (dirent_at buf i ∷ dirents n (i + 1) buf) more
                  (scan n (i + 1) (count + 1) index buf)
                  (live_keep (dirent_at buf i) (dirents n (i + 1) buf ++ more) going kept)
                  (omega arith) (scan-Scanned n (i + 1) (count + 1) index buf more (omega arith)))
        ]
      ]
    ]

-- The answer for an entry, or for none.
abbrev pub answer : {D : Type 0} → Fat32 D → Option Dirent → Fat32 D × Option DirNode
answer g none = (g, none)
answer g (some de) = (g, some (dir_node de))

module _ {D : Type 0} (drv : Driver D) (scratch : List ℕ) (f : Fat32 D) (sector : ℕ → List ℕ) where
  by_scan :
      (b : List ℕ) (count index : ℕ) (des more : List Dirent) (s : Scan)
      (rest : ℕ → Option (Fat32 D × Option DirNode))
      → Scanned count index des more s
      → ((k : ℕ)
          → k ≤ index
          → (buf' : List ℕ) × (rest k
              ≡ some (answer (with_buf f buf') (get_elem? (live more) (index - k)))))
      → (buf' : List ℕ) × (scanned drv scratch (with_buf f b) s rest
          ≡ some (answer (with_buf f buf') (get_elem? (live (des ++ more)) (index - count))))
  unfolding scanned Scanned
  by_scan b count index des more ended rest h next =
      (b, ap (λ o. some (answer (with_buf f b) o)) (sym h))
  by_scan b count index des more (found de) rest h next =
      (b, ap (λ o. some (answer (with_buf f b) o)) (sym h))
  by_scan b count index des more (passed k) rest (le, h) next =
      let (buf', e) = next k le in (buf', e ∙ ap (λ o. some (answer (with_buf f buf') o)) (sym h))

  readdir_loop-goes :
      (n : ℕ) (buf b : List ℕ) (index cluster count : ℕ)
      → Holds drv f.disk sector
      → b ≡ sectors_at sector (cluster_to_lba drv scratch f cluster) f.sectors_per_cluster
      → ltb cluster end_of_chain ≡ true
      → readdir_loop drv scratch (suc n) (with_buf f buf) index cluster count
        ≡ scanned drv scratch
            (with_buf f b)
            (scan (cluster_size drv scratch f / dirent_size) 0 count index b)
            (readdir_loop drv scratch n (with_buf f b) index (next_cluster drv scratch f cluster))
  unfolding readdir_loop next_cluster
  readdir_loop-goes n buf b index cluster count holds is_b going =
      rw (going, read_cluster_lem drv scratch f sector buf cluster holds, ← is_b) refl

  readdir_loop-live :
      (fuel : ℕ) (bs : List (List ℕ)) (buf : List ℕ) (index cluster count : ℕ)
      → Holds drv f.disk sector
      → Chain drv scratch sector f cluster bs
      → length bs < fuel
      → count ≤ index
      → (buf' : List ℕ) × (readdir_loop drv scratch fuel (with_buf f buf) index cluster count
          ≡ some (
              answer (with_buf f buf') (
                get_elem?
                  (live (all_dirents (cluster_size drv scratch f / dirent_size) bs))
                  (index - count))))
  unfolding readdir_loop Chain all_dirents live
  readdir_loop-live zero bs buf index cluster count holds chain enough le = absurd (omega arith)
  readdir_loop-live (suc n) [] buf index cluster count holds chain enough le = (buf, ground arith)
  readdir_loop-live (suc n) (b ∷ bs) buf index cluster count holds (going, is_b, chain) enough le =
      let count_in = cluster_size drv scratch f / dirent_size in
      let next = next_cluster drv scratch f cluster in
      let more = all_dirents count_in bs in
      let (buf', e) =
        by_scan b count index (dirents count_in 0 b) more (scan count_in 0 count index b)
          (readdir_loop drv scratch n (with_buf f b) index next)
          (scan-Scanned count_in 0 count index b more le)
          (λ k k_le. readdir_loop-live n bs b index next k holds chain (omega arith) k_le) in
      (buf', readdir_loop-goes n buf b index cluster count holds is_b (ground arith) ∙ e)

-- `fat32_readdir` of a directory whose clusters form a chain, on a disk that can be read, ends with as
-- many rounds as there are clusters and one more, and gives the node of the entry at the index among
-- the entries that are listed: those in front of the first end mark, in the order of the clusters,
-- without the deleted ones, the parts of long names and the volume labels; or -1 if there is none.
pub fat32_readdir-live :
    {D : Type 0} (drv : Driver D) (scratch : List ℕ) (f : Fat32 D) (sector : ℕ → List ℕ) (fuel : ℕ)
    (bs : List (List ℕ)) (fs_data index : ℕ)
    → Holds drv f.disk sector
    → Chain drv scratch sector f (if fs_data == 0 then f.bpb.root_cluster else fs_data % u32) bs
    → length bs < fuel
    → (buf : List ℕ) × (fat32_readdir drv scratch fuel f fs_data index
        ≡ some (
            answer
              (with_buf f buf)
              (get_elem? (live (all_dirents (cluster_size drv scratch f / dirent_size) bs)) index)))
unfolding fat32_readdir
fat32_readdir-live drv scratch f sector fuel bs fs_data index holds chain enough =
    let whole : index - 0 ≡ index = omega arith in
    let (buf, e) =
      readdir_loop-live drv scratch f sector fuel bs f.cluster_buf index
        (if fs_data == 0 then f.bpb.root_cluster else fs_data % u32) 0 holds chain enough
        (omega arith) in
    (
      buf,
      e
          ∙ ap
              (λ q. some (
                answer (with_buf f buf)
                  (get_elem? (live (all_dirents (cluster_size drv scratch f / dirent_size) bs)) q)))
              whole,
    )
