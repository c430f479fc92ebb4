-- ===== src/Gdt.antt =====
-- kernel/arch/x86_64/gdt.c, the segment table. The address of the task state segment is a parameter;
-- the loading of the table is left out.
pub mod Segments
mod Tests
use next_os.Prelude.{ℕ, ◌+◌, ◌-◌, ◌*◌, ◌/◌, ◌%◌, ◌^◌, bit_and, bit_or, List, [], ◌∷◌, set}

-- `struct gdt_entry`
pub record GdtEntry : Type 0 where
  pub limit_low : ℕ
  pub base_low : ℕ
  pub base_mid : ℕ
  pub access : ℕ
  pub granularity : ℕ
  pub base_high : ℕ

-- The size of `struct tss_entry`
abbrev pub tss_size : ℕ
tss_size = 104

unfoldable pub descriptor : ℕ → ℕ → ℕ → ℕ → GdtEntry
descriptor base limit access gran = record {
  limit_low = limit % 2 ^ 16;
  base_low = base % 2 ^ 16;
  base_mid = base / 2 ^ 16 % 2 ^ 8;
  access = access;
  granularity = bit_or (limit / 2 ^ 16 % 2 ^ 4) (bit_and gran 0xf0);
  base_high = base / 2 ^ 24 % 2 ^ 8;
}

unfoldable pub gdt_set_gate : List GdtEntry → ℕ → ℕ → ℕ → ℕ → ℕ → List GdtEntry
gdt_set_gate gdt idx base limit access gran = set gdt idx (descriptor base limit access gran)

-- The slot behind that of the task state segment.
unfoldable pub tss_upper : ℕ → GdtEntry
tss_upper tss_base = record {
  limit_low = tss_base / 2 ^ 32 % 2 ^ 16;
  base_low = tss_base / 2 ^ 48 % 2 ^ 16;
  base_mid = 0;
  access = 0;
  granularity = 0;
  base_high = 0;
}

-- `gdt_init`, up to the loading of the table
unfoldable pub gdt_init : ℕ → List GdtEntry → List GdtEntry
gdt_init tss_base gdt =
    let null = gdt_set_gate gdt 0 0 0 0 0 in
    let kernel_code = gdt_set_gate null 1 0 0xfffff 0x9a 0xa0 in
    let kernel_data = gdt_set_gate kernel_code 2 0 0xfffff 0x92 0xc0 in
    let user_code = gdt_set_gate kernel_data 3 0 0xfffff 0xfa 0xa0 in
    let user_data = gdt_set_gate user_code 4 0 0xfffff 0xf2 0xc0 in
    let tss = gdt_set_gate user_data 5 (tss_base % 2 ^ 32) (tss_size - 1) 0x89 0 in
    set tss 6 (tss_upper tss_base)
