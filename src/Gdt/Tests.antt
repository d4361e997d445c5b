-- ===== src/Gdt/Tests.antt =====
-- The theorems on kernel/src/gdt.rs at the segments of the kernel.
use noctis.Common.{◌^◌, ◌<◌, ◌≡◌, arith, true, false}
use noctis.Gdt.{null, create_segment, default_gdt, tss_size}
use noctis.Gdt.Fields.{
  IsFlat, segment_base, segment_limit, tss_base, tss_limit, create_segment_lem, default_gdt_lem,
}

create_segment_lem_example :
    let d = create_segment true false true 0x1234_5678 0xabcde 3 1 in
    (segment_base d ≡ 0x1234_5678)
    × (segment_limit d ≡ 0xabcde)
    × (d.dpl ≡ 3)
    × (d.base_low < 2 ^ 24)
    × (d.base_high < 2 ^ 8)
    × (d.limit_low < 2 ^ 16)
    × (d.limit_high < 2 ^ 4)
create_segment_lem_example =
    create_segment_lem true false true 0x1234_5678 0xabcde 3 1 (omega arith) (omega arith)
      (omega arith)

default_gdt_lem_example :
    let g = default_gdt 0xFFFF_8880_0010_0000 in
    (g.null_segment ≡ null)
    × IsFlat g.code_segment
    × (g.code_segment.executable ≡ true)
    × (g.code_segment.long ≡ true)
    × (g.code_segment.db ≡ false)
    × IsFlat g.data_segment
    × (g.data_segment.executable ≡ false)
    × (g.data_segment.long ≡ false)
    × (g.tss_segment.present ≡ true)
    × (g.tss_segment.desc_type ≡ 0)
    × (g.tss_segment.typ ≡ 9)
    × (g.tss_segment.dpl ≡ 0)
    × (tss_base g.tss_segment ≡ 0xFFFF_8880_0010_0000)
    × (tss_limit g.tss_segment ≡ tss_size)
    × (g.tss_segment.base_high < 2 ^ 40)
default_gdt_lem_example = default_gdt_lem 0xFFFF_8880_0010_0000 (omega arith)
