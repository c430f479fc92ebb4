-- ===== src/Fat32/Read.antt =====
-- `fat32_read`: the bytes of a file, which are those of its chain of clusters.
use next_os.Prelude.{
  ℕ, zero, suc, ◌+◌, ◌-◌, ◌*◌, ◌%◌, ◌≤◌, ◌<◌, ◌≡◌, refl, sym, ap, ◌∙◌, ◌⊎◌, inl, inr, ◌&&◌, some,
  List, [], ltb, length, take, drop, Bool-cases, arith,
}
use native.Mathlib.Decide.{dec_lt}
use next_os.Prelude.Words.{word_mod}
use next_os.Disk.{Driver, Holds, sectors_at, length-sectors_at}
use next_os.Disk.Parts.{concat, round_lem}
use next_os.Fat32.{Fat32, end_of_chain, cluster_to_lba, next_cluster, read_loop, fat32_read, u32}
use next_os.Fat32.Chains.{
  Chain, with_buf, read_loop-stops, read_loop-goes, Result, added-meets, added-misses, before,
  read_loop-content,
}

pub own_buf : {D : Type 0} (f : Fat32 D) → with_buf f f.cluster_buf ≡ f
own_buf f = refl

-- `fat32_read` of a file whose clusters form a chain, on a disk that can be read, with from 1 to 255
-- sectors for a cluster and a range that does not come near 2^64, ends, with as many rounds as there
-- are clusters and one more, and returns the bytes of the range that the clusters have.
pub fat32_read-content :
    {D : Type 0} (drv : Driver D) (scratch : List ℕ) (f : Fat32 D) (sector : ℕ → List ℕ) (fuel : ℕ)
    (bs : List (List ℕ)) (fs_data offset size : ℕ)
    → Holds drv f.disk sector
    → 0 < f.sectors_per_cluster
    → f.sectors_per_cluster < 256
    → offset + size + f.sectors_per_cluster * 512 < word_mod
    → Chain drv scratch sector f (fs_data % u32) bs
    → length bs < fuel
    → (buf : List ℕ) × (fat32_read drv scratch fuel f fs_data offset size
        ≡ some (with_buf f buf, take size (drop offset (concat bs))))
unfolding fat32_read Result
fat32_read-content drv scratch f sector fuel bs fs_data offset size holds s0 s1 room chain enough =
    let whole : offset - 0 ≡ offset = omega arith in
    let all : size - 0 ≡ size = omega arith in
    let (buf, run) =
      read_loop-content drv scratch f sector fuel bs f.cluster_buf offset size (fs_data % u32) 0 []
        holds s0 s1 room chain enough (inl (omega arith)) (omega arith) in
    (
      buf,
      ap (λ g. read_loop drv scratch fuel g offset size (fs_data % u32) 0 []) (sym (own_buf f))
          ∙ run
          ∙ ap (λ q. some (with_buf f buf, take q (drop (offset - 0) (concat bs)))) all
          ∙ ap (λ q. some (with_buf f buf, take size (drop q (concat bs)))) whole,
    )

module _ {D : Type 0} (drv : Driver D) (scratch : List ℕ) (f : Fat32 D) (sector : ℕ → List ℕ) where
  -- The loop ends with at most `size` bytes.
  Ends : ℕ → List ℕ → ℕ → ℕ → ℕ → ℕ → List ℕ → Type 0
  Ends fuel buf offset size cluster pos out =
      (g : Fat32 D) × (bytes : List ℕ) × (read_loop drv scratch fuel (with_buf f buf) offset size
          cluster pos out
        ≡ some (g, bytes))
      × (length bytes ≤ size)

  read_loop-Ends :
      (fuel : ℕ) (buf : List ℕ) (offset size cluster pos : ℕ) (out : List ℕ)
      → Holds drv f.disk sector
      → 0 < f.sectors_per_cluster
      → f.sectors_per_cluster < 256
      → offset + size + f.sectors_per_cluster * 512 < word_mod
      → offset + size < fuel + pos
      → 0 < fuel
      → (pos ≤ offset + length out) ⊎ (length out ≡ size)
      → length out ≤ size
      → Ends fuel buf offset size cluster pos out
  unfolding Ends
  read_loop-Ends zero buf offset size cluster pos out holds s0 s1 room enough some_fuel inv
        in_size =
      absurd (omega arith)
  read_loop-Ends (suc n) buf offset size cluster pos out holds s0 s1 room enough some_fuel inv
        in_size =
      elim (Bool-cases (ltb cluster end_of_chain && ltb (length out) size)) [
        | inr over ↦ (
          with_buf f buf,
          out,
          read_loop-stops drv scratch f sector n (with_buf f buf) offset size cluster pos out over,
          in_size,
        )
        | inl goes_on ↦
            let bsize = f.sectors_per_cluster * 512 in
            let b =
              sectors_at sector (cluster_to_lba drv scratch f cluster) f.sectors_per_cluster in
            let len =
              length-sectors_at sector (cluster_to_lba drv scratch f cluster) f.sectors_per_cluster
                holds.whole in
            let more : length out < size = ground arith in
            let near = before drv scratch f sector pos offset (length out) size inv more in
            let goes =
              read_loop-goes drv scratch f sector n buf b offset size cluster pos out holds refl
                goes_on (omega arith) (omega arith) in
            let next = next_cluster drv scratch f cluster in
            elim (dec_lt offset (pos + bsize)) [
              | yes meets ↦
                  let r =
                    round_lem bsize size offset pos out b [] len meets more (omega arith)
                      (omega arith) near in
                  let (g, bytes, rest, short) =
                    read_loop-Ends n b offset size next (pos + bsize) _ holds s0 s1 room
                      (omega arith) (omega arith) r.grows r.inside in
                  (
                    g,
                    bytes,
                    goes
                        ∙ ap (read_loop drv scratch n (with_buf f b) offset size next (pos + bsize))
                            (added-meets drv scratch f sector offset size pos out b meets)
                        ∙ rest,
                    short,
                  )
              | no misses ↦
                  let (g, bytes, rest, short) =
                    read_loop-Ends n b offset size next (pos + bsize) out holds s0 s1 room
                      (omega arith) (omega arith) (inl (omega arith)) in_size in
                  (
                    g,
                    bytes,
                    goes
                        ∙ ap (read_loop drv scratch n (with_buf f b) offset size next (pos + bsize))
                            (added-misses drv scratch f sector offset size pos out b misses)
                        ∙ rest,
                    short,
                  )
            ]
      ]

-- `fat32_read` ends whatever the allocation table holds, a table with cycles included, after at most
-- one round for each byte of the range and in front of it and one more, with at most `size` bytes,
-- on a disk that can be read, with from 1 to 255 sectors for a cluster and a range that does not come
-- near 2^64.
pub fat32_read-ends :
    {D : Type 0} (drv : Driver D) (scratch : List ℕ) (f : Fat32 D) (sector : ℕ → List ℕ)
    (fuel fs_data offset size : ℕ)
    → Holds drv f.disk sector
    → 0 < f.sectors_per_cluster
    → f.sectors_per_cluster < 256
    → offset + size + f.sectors_per_cluster * 512 < word_mod
    → offset + size < fuel
    → (g : Fat32 D) × (bytes : List ℕ) × (fat32_read drv scratch fuel f fs_data offset size
        ≡ some (g, bytes))
      × (length bytes ≤ size)
unfolding fat32_read Ends
fat32_read-ends drv scratch f sector fuel fs_data offset size holds s0 s1 room enough =
    read_loop-Ends drv scratch f sector fuel f.cluster_buf offset size (fs_data % u32) 0 [] holds s0
      s1 room (omega arith) (omega arith) (inl (omega arith)) (omega arith)
