-- ===== src/Interrupt/Handler/Ticks.antt =====
-- What the handler does on each vector, and when the timer makes the scheduler run.
use noctis.Common.{
  ℕ, ◌+◌, ◌%◌, ◌^◌, ◌≤◌, ◌<◌, ◌≡◌, ◌≢◌, refl, ap, ◌∙◌, arith, true, false, ◌∷◌, Outcome, ok, panic,
  overflow, diverge, ◌>>=◌,
}
use noctis.MemLayout.{VirtAddr}
use noctis.Task.State.{Kernel, set_cpu}
use noctis.Task.Scheduler.{switch, check_and_schedule}
use noctis.Interrupt.Handler.{
  Machine, init_timer, get_count, interrupt_handler, interrupt_handler_common,
}

-- The machine after a timer interrupt: one more count and tick, the end of the interrupt written,
-- and the interrupts on.
abbrev pub counted : Machine → Machine
counted m = record m {
  kernel =
      set_cpu (record { interrupts = true })
        (record m.kernel { ticks = (m.kernel.ticks + 1) % 2 ^ 64 });
  timer = record {
    locked = false;
    value = record m.timer.value { count = m.timer.value.count + 1 };
  };
  writes = (m.timer.value.base + 0xB0, 0) ∷ m.writes;
}

-- On every vector, with the timer's lock free and its register's address in 64 bits: the breakpoint
-- changes nothing; the timer counts, or panics where its `u32` count is full; all others halt.
pub interrupt_handler_lem :
    (v : ℕ) (m : Machine)
    → m.timer.locked ≡ false
    → m.timer.value.base + 0xB0 < 2 ^ 64
    → (v ≡ 3 → interrupt_handler v m ≡ ok (tt, m))
      × (v ≡ 42 → m.timer.value.count + 1 < 2 ^ 32 → interrupt_handler v m ≡ ok (tt, counted m))
      × (v ≡ 42 → 2 ^ 32 ≤ m.timer.value.count + 1 → interrupt_handler v m ≡ panic overflow)
      × (v ≢ 3 → v ≢ 42 → interrupt_handler v m ≡ diverge)
unfolding interrupt_handler
interrupt_handler_lem v m free base =
    (λ a. ground arith, λ a b. ground arith, λ a b. ground arith, λ a b. ground arith)

-- With the timer's lock free and its registers' addresses in 64 bits, `init_timer` writes the divider, the
-- initial count and the periodic mode with vector 42, in this order, and `get_count` then gives the count
-- as it was; both leave interrupts on.
init_timer-get_count :
    (m : Machine)
    → m.timer.locked ≡ false
    → m.timer.value.base + 0x3E0 < 2 ^ 64
    → (m' : Machine) × (init_timer m ≡ ok (tt, m'))
      × (get_count m' ≡ ok (m.timer.value.count, m'))
      × (m'.writes
          ≡ (m.timer.value.base + 0x320, 0x2_002A)
            ∷ (m.timer.value.base + 0x380, 0x100_0000)
            ∷ (m.timer.value.base + 0x3E0, 0b100)
            ∷ m.writes)
      × (m'.kernel.memory.cpu.interrupts ≡ true)
unfolding init_timer get_count
init_timer-get_count m free base = (
  record m {
    kernel = set_cpu (record { interrupts = true }) m.kernel;
    timer = record { locked = false; value = m.timer.value };
    writes =
        (m.timer.value.base + 0x320, 0x2_002A)
        ∷ (m.timer.value.base + 0x380, 0x100_0000)
        ∷ (m.timer.value.base + 0x3E0, 0b100)
        ∷ m.writes;
  },
  ground arith,
  refl,
  refl,
  refl,
)

-- Under three ticks nothing is scheduled; from three on the call is `switch`.
check_and_schedule_lem :
    (resume : VirtAddr) (k : Kernel)
    → (k.ticks < 3 → check_and_schedule resume k ≡ ok (tt, k))
      × (3 ≤ k.ticks → check_and_schedule resume k ≡ switch resume k)
unfolding check_and_schedule
check_and_schedule_lem resume k = (λ a. ground arith, λ a. ground arith)

then_scheduled : Machine → Outcome (Unit {0} × Kernel) → Outcome (Unit {0} × Machine)
then_scheduled m r = r >>= λ q. ok (tt, record m { kernel = q.1 })

module _ (resume : VirtAddr) (m : Machine) (free : m.timer.locked ≡ false)
    (base : m.timer.value.base + 0xB0 < 2 ^ 64) (room : m.timer.value.count + 1 < 2 ^ 32) where
  ran :
      interrupt_handler_common resume 42 m
      ≡ then_scheduled (counted m) (check_and_schedule resume (counted m).kernel)
  unfolding interrupt_handler_common then_scheduled
  ran =
      ap
        (λ (o : Outcome (Unit {0} × Machine)).
          o >>= λ r. then_scheduled r.1 (check_and_schedule resume r.1.kernel))
        ((interrupt_handler_lem 42 m free base).1 refl room)

-- A timer interrupt with the timer's lock free, its register's address in 64 bits, and room in the
-- timer's count and in the ticks: up to the second tick it only
-- counts, and from the third on it ends as `switch` ends on the counted machine's kernel.
pub timer_schedules :
    (resume : VirtAddr) (m : Machine)
    → m.timer.locked ≡ false
    → m.timer.value.base + 0xB0 < 2 ^ 64
    → m.timer.value.count + 1 < 2 ^ 32
    → m.kernel.ticks + 1 < 2 ^ 64
    → (m.kernel.ticks < 2 → interrupt_handler_common resume 42 m ≡ ok (tt, counted m))
      × (2 ≤ m.kernel.ticks
          → interrupt_handler_common resume 42 m ≡ (
              switch resume (counted m).kernel >>= λ r.
              ok (tt, record (counted m) { kernel = r.1 })))
unfolding then_scheduled
timer_schedules resume m free base room ticks = (
  λ few.
      ran resume m free base room
      ∙ ap (then_scheduled (counted m))
          ((check_and_schedule_lem resume (counted m).kernel).0 (omega arith)),
  λ many.
      ran resume m free base room
      ∙ ap (then_scheduled (counted m))
          ((check_and_schedule_lem resume (counted m).kernel).1 (omega arith)),
)
