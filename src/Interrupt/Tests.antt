-- ===== src/Interrupt/Tests.antt =====
-- The theorems on kernel/src/idt.rs at one table and one machine.
use noctis.Common.{
  ℕ, ◌+◌, ◌^◌, ◌≤◌, ◌<◌, ◌≡◌, ◌≢◌, refl, arith, true, false, some, [], get_elem?, ok, panic,
  overflow, diverge, ◌>>=◌, ◌==◌, if◌then◌else◌,
}
use noctis.Timer.{base_addr}
use noctis.Task.Samples.{idle_kernel}
use noctis.Task.Scheduler.{switch}
use noctis.Interrupt.Descriptor.{IdtDescriptor, EntryPoints, idt_entries}
use noctis.Interrupt.Descriptor.Table.{offset, handler_of, AreAddresses, idt_entries_lem}
use noctis.Interrupt.Handler.{Machine, interrupt_handler, interrupt_handler_common}
use noctis.Interrupt.Handler.Ticks.{counted, interrupt_handler_lem, timer_schedules}

abbrev points : EntryPoints
points = record {
  unimplemented = 0xFFFF_FFFF_8000_1000;
  entry_3 = 0xFFFF_FFFF_8000_1010;
  entry_6 = 0xFFFF_FFFF_8000_1020;
  entry_13 = 0xFFFF_FFFF_8000_1030;
  entry_14 = 0xFFFF_FFFF_8000_1040;
  entry_42 = 0xFFFF_FFFF_8000_1050;
}

abbrev machine : Machine
machine = record {
  kernel = idle_kernel;
  timer = record { locked = false; value = record { base = base_addr; count = 7 } };
  writes = [];
}

points-AreAddresses : AreAddresses points
points-AreAddresses = record {
  fit_unimplemented = omega arith;
  fit_3 = omega arith;
  fit_6 = omega arith;
  fit_13 = omega arith;
  fit_14 = omega arith;
  fit_42 = omega arith;
}

idt_entries_lem_example :
    (d : IdtDescriptor) × (get_elem? (idt_entries points 8) 42 ≡ some d)
    × (offset d ≡ handler_of points 42)
    × (d.segment_selector ≡ 8)
    × (d.present ≡ true)
    × (d.gate_type ≡ 0b1110)
    × (d.dpl ≡ (if 42 == 3 then 3 else 0))
    × (d.ist ≡ (if 42 == 42 then 0 else 1))
idt_entries_lem_example = idt_entries_lem points 8 42 points-AreAddresses (omega arith)

abbrev vector : ℕ
vector = 42

interrupt_handler_lem_example :
    (vector ≡ 3 → interrupt_handler vector machine ≡ ok (tt, machine))
    × (vector ≡ vector
        → machine.timer.value.count + 1 < 2 ^ 32
        → interrupt_handler vector machine ≡ ok (tt, counted machine))
    × (vector ≡ vector
        → 2 ^ 32 ≤ machine.timer.value.count + 1
        → interrupt_handler vector machine ≡ panic overflow)
    × (vector ≢ 3 → vector ≢ vector → interrupt_handler vector machine ≡ diverge)
interrupt_handler_lem_example = interrupt_handler_lem vector machine refl (omega arith)

timer_schedules_example :
    (machine.kernel.ticks < 2 → interrupt_handler_common 4096 42 machine ≡ ok (tt, counted machine))
    × (2 ≤ machine.kernel.ticks
        → interrupt_handler_common 4096 42 machine ≡ (
            switch 4096 (counted machine).kernel >>= λ r.
            ok (tt, record (counted machine) { kernel = r.1 })))
timer_schedules_example =
    timer_schedules 4096 machine refl (omega arith) (omega arith) (omega arith)
