-- ===== src/Gdt/Segments.antt =====
-- The segments of kernel/arch/x86_64/gdt.c, as the processor reads them.
use next_os.Prelude.{
  ℕ, ◌+◌, ◌-◌, ◌*◌, ◌/◌, ◌%◌, ◌^◌, ◌<◌, ◌≡◌, refl, ◌∙◌, List, [], ◌∷◌, length, get_or, arith,
}
use next_os.Gdt.{GdtEntry, descriptor, tss_size, tss_upper, gdt_set_gate, gdt_init}

-- The fields of a descriptor.
abbrev pub segment_base : GdtEntry → ℕ
segment_base e = e.base_low + e.base_mid * 2 ^ 16 + e.base_high * 2 ^ 24

abbrev pub segment_limit : GdtEntry → ℕ
segment_limit e = e.limit_low + e.granularity % 2 ^ 4 * 2 ^ 16

abbrev pub segment_flags : GdtEntry → ℕ
segment_flags e = e.granularity / 2 ^ 4

-- A segment with its base, limit, access byte and flags.
pub record IsSegment (e : GdtEntry) (base limit access flags : ℕ) : Type 0 where
  pub with_base : segment_base e ≡ base
  pub with_limit : segment_limit e ≡ limit
  pub with_access : e.access ≡ access
  pub with_flags : segment_flags e ≡ flags

-- The segments of a table: none at 0, code and data of the kernel and of user programs over all of the
-- memory, and the task state segment in two slots.
pub record Segments (gdt : List GdtEntry) (d : GdtEntry) (tss_base : ℕ) : Type 0 where
  pub null : IsSegment (get_or gdt 0 d) 0 0 0 0
  pub kernel_code : IsSegment (get_or gdt 1 d) 0 0xfffff 0x9a 0xa
  pub kernel_data : IsSegment (get_or gdt 2 d) 0 0xfffff 0x92 0xc
  pub user_code : IsSegment (get_or gdt 3 d) 0 0xfffff 0xfa 0xa
  pub user_data : IsSegment (get_or gdt 4 d) 0 0xfffff 0xf2 0xc
  pub tss_low : IsSegment (get_or gdt 5 d) (tss_base % 2 ^ 32) (tss_size - 1) 0x89 0
  pub tss_whole :
      segment_base (get_or gdt 5 d)
        + (get_or gdt 6 d).limit_low * 2 ^ 32
        + (get_or gdt 6 d).base_low * 2 ^ 48
      ≡ tss_base

whole_base :
    (n : ℕ) → n % 2 ^ 16 + n / 2 ^ 16 % 2 ^ 8 * 2 ^ 16 + n / 2 ^ 24 % 2 ^ 8 * 2 ^ 24 ≡ n % 2 ^ 32
whole_base n = omega arith

low_half : (n : ℕ) → n % 2 ^ 32 % 2 ^ 32 ≡ n % 2 ^ 32
low_half n = omega arith

-- After `gdt_init` the table has the segments of the kernel and of user programs, which cover all of
-- the memory, and that of the task state, whose two slots together hold all 64 bits of its address.
pub gdt_init-Segments :
    (gdt : List GdtEntry) (d : GdtEntry) (tss_base : ℕ)
    → length gdt ≡ 7
    → tss_base < 2 ^ 64
    → Segments (gdt_init tss_base gdt) d tss_base
unfolding gdt_init gdt_set_gate descriptor tss_upper
gdt_init-Segments [] d tss_base table small = absurd (omega arith)
gdt_init-Segments (a ∷ []) d tss_base table small = absurd (omega arith)
gdt_init-Segments (a ∷ b ∷ []) d tss_base table small = absurd (omega arith)
gdt_init-Segments (a ∷ b ∷ c ∷ []) d tss_base table small = absurd (omega arith)
gdt_init-Segments (a ∷ b ∷ c ∷ e ∷ []) d tss_base table small = absurd (omega arith)
gdt_init-Segments (a ∷ b ∷ c ∷ e ∷ f ∷ []) d tss_base table small = absurd (omega arith)
gdt_init-Segments (a ∷ b ∷ c ∷ e ∷ f ∷ g ∷ []) d tss_base table small = absurd (omega arith)
gdt_init-Segments (a ∷ b ∷ c ∷ e ∷ f ∷ g ∷ h ∷ more) d tss_base table small = record {
  null = record { with_base = refl; with_limit = refl; with_access = refl; with_flags = refl };
  kernel_code = record {
    with_base = refl;
    with_limit = refl;
    with_access = refl;
    with_flags = refl;
  };
  kernel_data = record {
    with_base = refl;
    with_limit = refl;
    with_access = refl;
    with_flags = refl;
  };
  user_code = record { with_base = refl; with_limit = refl; with_access = refl; with_flags = refl };
  user_data = record { with_base = refl; with_limit = refl; with_access = refl; with_flags = refl };
  tss_low = record {
    with_base = whole_base (tss_base % 2 ^ 32) ∙ low_half tss_base;
    with_limit = refl;
    with_access = refl;
    with_flags = refl;
  };
  tss_whole = omega (arith, whole_base (tss_base % 2 ^ 32), low_half tss_base);
}
