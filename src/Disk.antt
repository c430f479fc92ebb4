-- ===== src/Disk.antt =====
-- The interface of kernel/drivers/disk.c that the file systems use. The driver itself programs the
-- controllers and is a parameter.
pub mod Parts
use next_os.Prelude.{
  ℕ, zero, suc, ◌+◌, ◌-◌, ◌*◌, ◌≡◌, Bool, true, false, ◌&&◌, List, [], ◌∷◌, ◌++◌, leb, ltb,
  if◌then◌else◌, length, take, drop, refl, ◌∙◌, length-append, arith,
}

-- A driver over disks of type `D`. `read` stands for `disk_read`: it takes the sector, the number
-- of sectors and what the buffer held, and gives what it holds then and whether the result is not
-- negative. `write` stands for `disk_write`.
pub record Driver (D : Type 0) : Type 0 where
  pub read : D → ℕ → ℕ → List ℕ → List ℕ × Bool
  pub write : D → ℕ → ℕ → List ℕ → D

-- The bytes of `count` sectors from `lba` on.
unfoldable pub sectors_at : (ℕ → List ℕ) → ℕ → ℕ → List ℕ
sectors_at sector lba zero = []
sectors_at sector lba (suc count) = sector lba ++ sectors_at sector (lba + 1) count

-- The sectors after a write of `count` of them at `lba`.
abbrev pub written : (ℕ → List ℕ) → ℕ → ℕ → List ℕ → ℕ → List ℕ
written sector lba count bytes k =
    if leb lba k && ltb k (lba + count) then take 512 (drop ((k - lba) * 512) bytes) else sector k

module _ {D : Type 0} (drv : Driver D) where
  -- Every read of the disk succeeds and gives the sectors' bytes.
  pub record Holds (d : D) (sector : ℕ → List ℕ) : Type 0 where
    pub whole : (lba : ℕ) → length (sector lba) ≡ 512
    pub reads :
        (lba count : ℕ) (buf : List ℕ)
        → drv.read d lba count buf ≡ (sectors_at sector lba count, true)

pub length-sectors_at :
    (sector : ℕ → List ℕ) (lba count : ℕ)
    → ((k : ℕ) → length (sector k) ≡ 512)
    → length (sectors_at sector lba count) ≡ count * 512
unfolding sectors_at
length-sectors_at sector lba zero whole = refl
length-sectors_at sector lba (suc count) whole =
    length-append (sector lba) (sectors_at sector (lba + 1) count)
    ∙ omega (arith, whole lba, length-sectors_at sector (lba + 1) count whole)
