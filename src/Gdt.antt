-- ===== src/Gdt.antt =====
-- kernel/src/gdt.rs: the descriptors of segments and of the task state segment. A descriptor is the
-- record of its bit fields, each of which is wide enough for what the two `create` put there.
pub mod Fields
mod Tests
use noctis.Common.{ℕ, ◌+◌, ◌/◌, ◌^◌, bit_and, Bool, true, false, not}

pub record GdtSegmentDescriptor : Type 0 where
  pub limit_low : ℕ
  pub base_low : ℕ
  pub accessed : Bool
  pub rw_flag : Bool
  pub dc : Bool
  pub executable : Bool
  pub descriptor_type : ℕ
  pub dpl : ℕ
  pub present : Bool
  pub limit_high : ℕ
  pub avl : ℕ
  pub long : Bool
  pub db : Bool
  pub granularity : ℕ
  pub base_high : ℕ

-- `GdtSegemntDescriptor::null`
abbrev pub null : GdtSegmentDescriptor
null = record {
  limit_low = 0;
  base_low = 0;
  accessed = false;
  rw_flag = false;
  dc = false;
  executable = false;
  descriptor_type = 0;
  dpl = 0;
  present = false;
  limit_high = 0;
  avl = 0;
  long = false;
  db = false;
  granularity = 0;
  base_high = 0;
}

unfoldable pub create_segment : Bool → Bool → Bool → ℕ → ℕ → ℕ → ℕ → GdtSegmentDescriptor
create_segment writable dc executable base limit dpl granularity = record {
  limit_low = bit_and limit 0xffff;
  base_low = bit_and base 0xffffff;
  accessed = false;
  rw_flag = writable;
  dc = dc;
  executable = executable;
  descriptor_type = 0b01;
  dpl = bit_and dpl 0b11;
  present = true;
  limit_high = bit_and (limit / 2 ^ 16) 0xff;
  avl = 1;
  long = executable;
  db = not executable;
  granularity = bit_and granularity 0b1;
  base_high = base / 2 ^ 24;
}

-- `size_of::<Tss64Inner>()`
abbrev pub tss_size : ℕ
tss_size = 104

pub record TssDescriptor : Type 0 where
  pub limit_low : ℕ
  pub base_low : ℕ
  pub typ : ℕ
  pub desc_type : ℕ
  pub dpl : ℕ
  pub present : Bool
  pub limit_high : ℕ
  pub avl : ℕ
  pub long : Bool
  pub db : ℕ
  pub granularity : ℕ
  pub base_high : ℕ

unfoldable pub create_tss : ℕ → TssDescriptor
create_tss base = record {
  limit_low = bit_and tss_size 0xffff;
  base_low = bit_and base 0xffffff;
  typ = 0b1001;
  desc_type = 0b00;
  dpl = 0b00;
  present = true;
  limit_high = bit_and (tss_size / 2 ^ 16) 0xff;
  avl = 0;
  long = true;
  db = 0;
  granularity = 0b01;
  base_high = base / 2 ^ 24;
}

pub record Gdt : Type 0 where
  pub null_segment : GdtSegmentDescriptor
  pub code_segment : GdtSegmentDescriptor
  pub data_segment : GdtSegmentDescriptor
  pub tss_segment : TssDescriptor

-- The table of `GdtWrapper::default`, for a task state segment at `phys_addr`.
unfoldable pub default_gdt : ℕ → Gdt
unfolding create_segment create_tss
default_gdt phys_addr = record {
  null_segment = null;
  code_segment = create_segment true false true 0 0xfffff 0 0b1;
  data_segment = create_segment true false false 0 0xfffff 0 0b1;
  tss_segment = create_tss phys_addr;
}
