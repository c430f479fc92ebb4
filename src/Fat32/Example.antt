-- ===== src/Fat32/Example.antt =====
-- A disk in memory with a file of two clusters, 2 and 3, of one sector each.
use next_os.Prelude.{
  ℕ, ◌%◌, refl, inl, inr, true, List, [], ◌∷◌, ◌==◌, if◌then◌else◌, replicate, length-replicate,
  Bool-cases, arith,
}
use next_os.Disk.{Driver, Holds, sectors_at, written}
use next_os.Fat32.{Fat32, cluster_to_lba, next_cluster}
use next_os.Fat32.Chains.{Chain}

-- A disk is the list of its sectors' bytes.
abbrev pub memory : Driver (ℕ → List ℕ)
memory = record {
  read = λ d lba count buf. (sectors_at d lba count, true);
  write = λ d lba count bytes. written d lba count bytes;
}

-- The allocation table: cluster 3 follows cluster 2, and is the last.
abbrev table : List ℕ
table = 0 ∷ 0 ∷ 0 ∷ 0 ∷ 0 ∷ 0 ∷ 0 ∷ 0 ∷ 3 ∷ 0 ∷ 0 ∷ 0 ∷ 255 ∷ 255 ∷ 255 ∷ 15 ∷ replicate 496 0

unfoldable pub sector : ℕ → List ℕ
sector lba = if lba == 1 then table else replicate 512 (lba % 256)

pub sector-Holds : Holds memory sector sector
unfolding sector
sector-Holds = record {
  whole = λ lba. elim (Bool-cases (lba == 1)) [
    | inl is_table ↦ rw is_table refl
    | inr other ↦ rw other (length-replicate 512 (lba % 256))
  ];
  reads = λ lba count buf. refl;
}

abbrev pub mounted : Fat32 (ℕ → List ℕ)
mounted = record {
  bpb = record {
    bytes_per_sector = 512;
    sectors_per_cluster = 1;
    reserved_sectors = 1;
    num_fats = 1;
    root_entry_count = 0;
    fat_size_32 = 1;
    root_cluster = 2;
    boot_sig = 0x29;
  };
  disk = sector;
  fat_start_lba = 1;
  data_start_lba = 2;
  sectors_per_cluster = 1;
  cluster_buf = [];
}

abbrev pub blocks : List (List ℕ)
blocks = replicate 512 2 ∷ replicate 512 3 ∷ []

pub chain : Chain memory [] sector mounted 2 blocks
unfolding Chain cluster_to_lba next_cluster sectors_at sector
chain = (omega arith, refl, (omega arith, refl, omega arith))
