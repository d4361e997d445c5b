-- ===== src/Gdt/Fields.antt =====
-- What the processor reads from the descriptors.
use noctis.Common.{ℕ, ◌+◌, ◌*◌, ◌/◌, ◌^◌, ◌<◌, ◌≡◌, refl, arith, Bool, true, false}
use noctis.Common.Bits.{bit_and-mask}
use noctis.Gdt.{null, GdtSegmentDescriptor, create_segment, TssDescriptor, tss_size, default_gdt}

abbrev pub segment_base : GdtSegmentDescriptor → ℕ
segment_base d = d.base_high * 2 ^ 24 + d.base_low

abbrev pub segment_limit : GdtSegmentDescriptor → ℕ
segment_limit d = d.limit_high * 2 ^ 16 + d.limit_low

abbrev pub tss_base : TssDescriptor → ℕ
tss_base d = d.base_high * 2 ^ 24 + d.base_low

abbrev pub tss_limit : TssDescriptor → ℕ
tss_limit d = d.limit_high * 2 ^ 16 + d.limit_low

-- A segment of code or data, for the kernel alone, that is present, may be read or written, and covers
-- 4 GiB from address 0.
pub record IsFlat (d : GdtSegmentDescriptor) : Type 0 where
  pub base : segment_base d ≡ 0
  pub limit : segment_limit d ≡ 0xfffff
  pub in_pages : d.granularity ≡ 1
  pub present : d.present ≡ true
  pub code_or_data : d.descriptor_type ≡ 1
  pub privilege : d.dpl ≡ 0
  pub may : d.rw_flag ≡ true
  pub plain : d.dc ≡ false

-- A segment with a base of 32 bits, a limit of 20 bits and a privilege below 4 gives them back from
-- its fields, which have the widths of the descriptor: 24 and 8 bits, 16 and 4 bits, and 2 bits.
pub create_segment_lem :
    (writable dc executable : Bool) (base limit dpl granularity : ℕ)
    → base < 2 ^ 32
    → limit < 2 ^ 20
    → dpl < 4
    → let d = create_segment writable dc executable base limit dpl granularity in
      (segment_base d ≡ base)
      × (segment_limit d ≡ limit)
      × (d.dpl ≡ dpl)
      × (d.base_low < 2 ^ 24)
      × (d.base_high < 2 ^ 8)
      × (d.limit_low < 2 ^ 16)
      × (d.limit_high < 2 ^ 4)
unfolding create_segment
create_segment_lem writable dc executable base limit dpl granularity hb hl hd = (
  ground (arith, bit_and-mask 24 base),
  ground (arith, bit_and-mask 16 limit, bit_and-mask 8 (limit / 2 ^ 16)),
  ground (arith, bit_and-mask 2 dpl),
  ground (arith, bit_and-mask 24 base),
  ground arith,
  ground (arith, bit_and-mask 16 limit),
  ground (arith, bit_and-mask 8 (limit / 2 ^ 16)),
)

-- For a task state segment at an address of 64 bits, the table begins with the null descriptor and has
-- two segments for the kernel that are present and cover 4 GiB from address 0, one of 64-bit code that is
-- executable and one of data that is not and may be written; the descriptor of the task state segment is a
-- present one of the system, of an available 64-bit task state, and gives its address and limit back.
pub default_gdt_lem :
    (phys_addr : ℕ)
    → phys_addr < 2 ^ 64
    → let g = default_gdt phys_addr in
      (g.null_segment ≡ null)
      × IsFlat g.code_segment
      × (g.code_segment.executable ≡ true)
      × (g.code_segment.long ≡ true)
      × (g.code_segment.db ≡ false)
      × IsFlat g.data_segment
      × (g.data_segment.executable ≡ false)
      × (g.data_segment.long ≡ false)
      × (g.tss_segment.present ≡ true)
      × (g.tss_segment.desc_type ≡ 0)
      × (g.tss_segment.typ ≡ 9)
      × (g.tss_segment.dpl ≡ 0)
      × (tss_base g.tss_segment ≡ phys_addr)
      × (tss_limit g.tss_segment ≡ tss_size)
      × (g.tss_segment.base_high < 2 ^ 40)
unfolding default_gdt
default_gdt_lem phys_addr h =
    let flat_code : IsFlat (default_gdt phys_addr).code_segment = record {
      base = refl;
      limit = refl;
      in_pages = refl;
      present = refl;
      code_or_data = refl;
      privilege = refl;
      may = refl;
      plain = refl;
    } in
    let flat_data : IsFlat (default_gdt phys_addr).data_segment = record {
      base = refl;
      limit = refl;
      in_pages = refl;
      present = refl;
      code_or_data = refl;
      privilege = refl;
      may = refl;
      plain = refl;
    } in
    (
      refl,
      flat_code,
      refl,
      refl,
      refl,
      flat_data,
      refl,
      refl,
      refl,
      refl,
      refl,
      refl,
      ground (arith, bit_and-mask 24 phys_addr),
      refl,
      omega arith,
    )
