-- ===== src/Gdt/Tests.antt =====
-- A table without segments.
use next_os.Prelude.{refl, replicate, arith}
use next_os.Gdt.{GdtEntry, gdt_init}
use next_os.Gdt.Segments.{Segments, gdt_init-Segments}

abbrev no_segment : GdtEntry
no_segment = record {
  limit_low = 0;
  base_low = 0;
  base_mid = 0;
  access = 0;
  granularity = 0;
  base_high = 0;
}

gdt_init-Segments_example :
    Segments (gdt_init 0xffffffff80123456 (replicate 7 no_segment)) no_segment 0xffffffff80123456
gdt_init-Segments_example =
    gdt_init-Segments (replicate 7 no_segment) no_segment 0xffffffff80123456 refl (omega arith)
