-- ===== src/Fat32/Chains.antt =====
-- The loop of `fat32_read` of kernel/fs/fat32.c along a chain of clusters.
use next_os.Prelude.{
  ℕ, zero, suc, ◌+◌, ◌-◌, ◌*◌, ◌%◌, ◌≤◌, ◌<◌, ◌≡◌, refl, sym, ap, ◌∙◌, ◌⊎◌, inl, inr, true, false,
  ◌&&◌, some, List, [], ◌∷◌, ◌++◌, ltb, if◌then◌else◌, length, take, drop, arith,
}
use native.Mathlib.Decide.{dec_lt}
use next_os.Prelude.Words.{word_mod}
use next_os.Prelude.Slices.{drop-append_past}
use next_os.Disk.{Driver, Holds, sectors_at, length-sectors_at}
use next_os.Disk.Parts.{
  part_start, part_end, part, concat, round_lem, append_nil, take-nil, drop-nil,
}
use next_os.Fat32.{Fat32, end_of_chain, cluster_to_lba, next_cluster, read_cluster, read_loop, u32}

-- A chain of clusters from `cluster` on: the bytes of its clusters.
unfoldable pub Chain :
    {D : Type 0} → Driver D → List ℕ → (ℕ → List ℕ) → Fat32 D → ℕ → List (List ℕ) → Type 0
Chain drv scratch sector f cluster [] = end_of_chain ≤ cluster
Chain drv scratch sector f cluster (b ∷ bs) =
    (cluster < end_of_chain)
    × (b ≡ sectors_at sector (cluster_to_lba drv scratch f cluster) f.sectors_per_cluster)
    × Chain drv scratch sector f (next_cluster drv scratch f cluster) bs

-- Two states that differ in the buffer only.
abbrev pub with_buf : {D : Type 0} → Fat32 D → List ℕ → Fat32 D
with_buf f buf = record f { cluster_buf = buf }

module _ {D : Type 0} (drv : Driver D) (scratch : List ℕ) (f : Fat32 D) (sector : ℕ → List ℕ) where
  -- One call of `read_cluster`.
  pub read_cluster_lem :
      (buf : List ℕ) (cluster : ℕ)
      → Holds drv f.disk sector
      → read_cluster drv scratch (with_buf f buf) cluster
        ≡ with_buf f
            (sectors_at sector (cluster_to_lba drv scratch f cluster) f.sectors_per_cluster)
  unfolding read_cluster cluster_to_lba
  read_cluster_lem buf cluster holds =
      ap (λ r. with_buf f r.0)
        (holds.reads (cluster_to_lba drv scratch f cluster) f.sectors_per_cluster buf)

  pub read_loop-stops :
      (n : ℕ) (g : Fat32 D) (offset size cluster pos : ℕ) (out : List ℕ)
      → (ltb cluster end_of_chain && ltb (length out) size) ≡ false
      → read_loop drv scratch (suc n) g offset size cluster pos out ≡ some (g, out)
  unfolding read_loop
  read_loop-stops n g offset size cluster pos out over = rw over refl

  -- What a round adds for the cluster at `pos` with the bytes `b`.
  abbrev pub added : ℕ → ℕ → ℕ → List ℕ → List ℕ → List ℕ
  added offset size pos out b =
      let bsize = f.sectors_per_cluster * 512 in
      if ltb offset (pos + bsize)
      then out
        ++ part b (part_start offset pos) (part_end bsize size (length out) (part_start offset pos))
      else out

  -- A round of the loop.
  pub read_loop-goes :
      (n : ℕ) (buf b : List ℕ) (offset size cluster pos : ℕ) (out : List ℕ)
      → Holds drv f.disk sector
      → b ≡ sectors_at sector (cluster_to_lba drv scratch f cluster) f.sectors_per_cluster
      → (ltb cluster end_of_chain && ltb (length out) size) ≡ true
      → f.sectors_per_cluster * 512 % u32 ≡ f.sectors_per_cluster * 512
      → (pos + f.sectors_per_cluster * 512) % word_mod ≡ pos + f.sectors_per_cluster * 512
      → read_loop drv scratch (suc n) (with_buf f buf) offset size cluster pos out
        ≡ read_loop drv scratch n
            (with_buf f b)
            offset
            size
            (next_cluster drv scratch f cluster)
            (pos + f.sectors_per_cluster * 512)
            (added offset size pos out b)
  unfolding read_loop next_cluster
  read_loop-goes n buf b offset size cluster pos out holds is_b more c e =
      rw (more, read_cluster_lem buf cluster holds, c, e, ← is_b) refl

  -- What the loop has still to do, for the clusters `bs` that are left.
  unfoldable pub Result : ℕ → List (List ℕ) → List ℕ → ℕ → ℕ → ℕ → ℕ → List ℕ → Type 0
  Result fuel bs buf offset size cluster pos out =
      (buf' : List ℕ) × (read_loop drv scratch fuel (with_buf f buf) offset size cluster pos out
        ≡ some (with_buf f buf', out ++ take (size - length out) (drop (offset - pos) (concat bs))))

  pub added-meets :
      (offset size pos : ℕ) (out b : List ℕ)
      → offset < pos + f.sectors_per_cluster * 512
      → added offset size pos out b
        ≡ out
          ++ part b
              (part_start offset pos)
              (part_end (f.sectors_per_cluster * 512) size (length out) (part_start offset pos))
  added-meets offset size pos out b meets =
      let test : ltb offset (pos + f.sectors_per_cluster * 512) ≡ true = ground arith in
      rw test refl

  pub added-misses :
      (offset size pos : ℕ) (out b : List ℕ)
      → ¬ (offset < pos + f.sectors_per_cluster * 512)
      → added offset size pos out b ≡ out
  added-misses offset size pos out b misses =
      let test : ltb offset (pos + f.sectors_per_cluster * 512) ≡ false = ground arith in
      rw test refl

  pub before :
      (pos offset n size : ℕ) → (pos ≤ offset + n) ⊎ (n ≡ size) → n < size → pos ≤ offset + n
  before pos offset n size (inl near) more = near
  before pos offset n size (inr full) more = absurd (omega arith)

  pub read_loop-content :
      (fuel : ℕ) (bs : List (List ℕ)) (buf : List ℕ) (offset size cluster pos : ℕ) (out : List ℕ)
      → Holds drv f.disk sector
      → 0 < f.sectors_per_cluster
      → f.sectors_per_cluster < 256
      → offset + size + f.sectors_per_cluster * 512 < word_mod
      → Chain drv scratch sector f cluster bs
      → length bs < fuel
      → (pos ≤ offset + length out) ⊎ (length out ≡ size)
      → length out ≤ size
      → Result fuel bs buf offset size cluster pos out
  unfolding Chain Result
  read_loop-content zero bs buf offset size cluster pos out holds s0 s1 room chain enough inv
        in_size =
      absurd (omega arith)
  read_loop-content (suc n) [] buf offset size cluster pos out holds s0 s1 room chain enough inv
        in_size =
      (
        buf,
        read_loop-stops n (with_buf f buf) offset size cluster pos out (ground arith)
            ∙ ap (λ q. some (with_buf f buf, q))
                (sym (
                  ap (λ q. out ++ take (size - length out) q) (drop-nil (offset - pos))
                  ∙ ap (λ q. out ++ q) (take-nil (size - length out))
                  ∙ append_nil out)),
      )
  read_loop-content (suc n) (b ∷ bs) buf offset size cluster pos out holds s0 s1 room
        (live, is_b, chain) enough inv in_size =
      elim (dec_lt (length out) size) [
        | no full ↦
            let none_left : size - length out ≡ 0 = omega arith in
            (
              buf,
              read_loop-stops n (with_buf f buf) offset size cluster pos out (ground arith)
                  ∙ ap (λ q. some (with_buf f buf, q))
                      (sym (
                        ap (λ q. out ++ take q (drop (offset - pos) (b ++ concat bs))) none_left
                        ∙ append_nil out)),
            )
        | yes more ↦
            let bsize = f.sectors_per_cluster * 512 in
            let len : length b ≡ bsize =
              ap length is_b
              ∙ length-sectors_at sector (cluster_to_lba drv scratch f cluster)
                  f.sectors_per_cluster holds.whole in
            let near : pos ≤ offset + length out = before pos offset (length out) size inv more in
            let goes =
              read_loop-goes n buf b offset size cluster pos out holds is_b (ground arith)
                (omega arith) (omega arith) in
            let next = next_cluster drv scratch f cluster in
            elim (dec_lt offset (pos + bsize)) [
              | yes meets ↦
                  let r =
                    round_lem bsize size offset pos out b (concat bs) len meets more (omega arith)
                      (omega arith) near in
                  let (buf', rest) =
                    read_loop-content n bs b offset size next (pos + bsize) _ holds s0 s1 room chain
                      (omega arith) r.grows r.inside in
                  (
                    buf',
                    goes
                        ∙ ap (read_loop drv scratch n (with_buf f b) offset size next (pos + bsize))
                            (added-meets offset size pos out b meets)
                        ∙ rest
                        ∙ ap (λ q. some (with_buf f buf', q)) (sym r.taken),
                  )
              | no misses ↦
                  let further : offset - pos - length b ≡ offset - (pos + bsize) = omega arith in
                  let gone =
                    drop-append_past (offset - pos) b (concat bs) (omega arith)
                    ∙ ap (λ q. drop q (concat bs)) further in
                  let (buf', rest) =
                    read_loop-content n bs b offset size next (pos + bsize) out holds s0 s1 room
                      chain (omega arith) (inl (omega arith)) in_size in
                  (
                    buf',
                    goes
                        ∙ ap (read_loop drv scratch n (with_buf f b) offset size next (pos + bsize))
                            (added-misses offset size pos out b misses)
                        ∙ rest
                        ∙ ap (λ q. some (with_buf f buf', out ++ take (size - length out) q))
                            (sym gone),
                  )
            ]
      ]
