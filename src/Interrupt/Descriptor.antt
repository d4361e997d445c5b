-- ===== src/Interrupt/Descriptor.antt =====
-- `IdtDescriptor` and the table that `Idt::new` fills. A descriptor is the record of its bit fields.
pub mod Table
use noctis.Common.{ℕ, ◌+◌, ◌*◌, ◌/◌, ◌%◌, ◌^◌, bit_and, Bool, true, List, replicate, set}

pub record IdtDescriptor : Type 0 where
  pub offset_low : ℕ
  pub segment_selector : ℕ
  pub ist : ℕ
  pub gate_type : ℕ
  pub dpl : ℕ
  pub present : Bool
  pub offset_middle : ℕ
  pub offset_high : ℕ

unfoldable pub create : ℕ → ℕ → ℕ → ℕ → ℕ → IdtDescriptor
create segment_selector ist_index gate_type dpl f = record {
  offset_low = bit_and f 0xffff;
  segment_selector = segment_selector;
  ist = ist_index;
  gate_type = bit_and gate_type 0b1111;
  dpl = bit_and dpl 0b11;
  present = true;
  offset_middle = bit_and (f / 2 ^ 16) 0xffff;
  offset_high = f / 2 ^ 32 % 2 ^ 32;
}

abbrev pub idt_dpl_0 : ℕ
idt_dpl_0 = 0b00

abbrev pub idt_dpl_3 : ℕ
idt_dpl_3 = 0b11

abbrev pub idt_gate_type_intgate : ℕ
idt_gate_type_intgate = 0b1110

-- The addresses of the entry points, which the linker chooses.
pub record EntryPoints : Type 0 where
  pub unimplemented : ℕ
  pub entry_3 : ℕ
  pub entry_6 : ℕ
  pub entry_13 : ℕ
  pub entry_14 : ℕ
  pub entry_42 : ℕ

-- The table that `Idt::new` builds and loads.
unfoldable pub idt_entries : EntryPoints → ℕ → List IdtDescriptor
unfolding create
idt_entries p selector =
    let gate = λ (ist : ℕ) (dpl : ℕ) (f : ℕ). create selector ist idt_gate_type_intgate dpl f in
    let t0 = replicate 0x100 (gate 1 idt_dpl_0 p.unimplemented) in
    let t3 = set t0 3 (gate 1 idt_dpl_3 p.entry_3) in
    let t6 = set t3 6 (gate 1 idt_dpl_0 p.entry_6) in
    let t13 = set t6 13 (gate 1 idt_dpl_0 p.entry_13) in
    let t14 = set t13 14 (gate 1 idt_dpl_0 p.entry_14) in set t14 42 (gate 0 idt_dpl_0 p.entry_42)
