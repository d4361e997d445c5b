-- ===== src/Interrupt/Handler.antt =====
-- `interrupt_handler` and `check_and_schedule` of kernel/src/idt.rs, with the calls of
-- kernel/src/timer.rs that lock `LOCAL_APIC_TIMER`.
pub mod Ticks
use noctis.Common.{ℕ, ◌≤◌, List, Outcome, ok, diverge, leb, ◌==◌, if◌then◌else◌}
use noctis.Common as Common
use noctis.Spin.{SpinLock, with_lock}
use noctis.MemLayout.{VirtAddr}
use noctis.Timer
use noctis.Timer.{LocalApicTimer, Write}
use noctis.Task.State.{Kernel, set_cpu, tick}
use noctis.Task.Scheduler.{check_and_schedule}

-- The kernel with `LOCAL_APIC_TIMER` and the writes to the timer's registers, last first.
pub record Machine : Type 0 where
  pub kernel : Kernel
  pub timer : SpinLock LocalApicTimer
  pub writes : List Write

abbrev pub Step : Type 0
Step = Machine → Outcome (Unit {0} × Machine)

infixl 5 ◌>>◌
abbrev pub ◌>>◌ : Step → Step → Step
◌>>◌ f g m = Common.◌>>=◌ (f m) (λ r. g r.1)

unfoldable pub increment_count : Step
unfolding with_lock Timer.increment_count
increment_count m =
    Common.◌>>=◌
      (with_lock (λ t. Common.◌>>=◌ (Timer.increment_count t) (λ t'. ok (tt {0}, t'))) m.timer
        m.kernel.memory.cpu)
      λ r. ok (tt, record m { kernel = set_cpu r.1.1 m.kernel; timer = r.1.0 })

unfoldable pub notify_end_of_interrupt : Step
unfolding with_lock Timer.notify_end_of_interrupt
notify_end_of_interrupt m =
    Common.◌>>=◌
      (with_lock (λ t. Common.◌>>=◌ (Timer.notify_end_of_interrupt t m.writes) (λ w. ok (w, t)))
        m.timer m.kernel.memory.cpu)
      λ r. ok (tt, record m { kernel = set_cpu r.1.1 m.kernel; timer = r.1.0; writes = r.0 })

-- `init_timer` and `get_count` of kernel/src/timer.rs.
unfoldable pub init_timer : Step
unfolding with_lock Timer.init
init_timer m =
    Common.◌>>=◌
      (with_lock (λ t. Common.◌>>=◌ (Timer.init t m.writes) (λ w. ok (w, t))) m.timer
        m.kernel.memory.cpu)
      λ r. ok (tt, record m { kernel = set_cpu r.1.1 m.kernel; timer = r.1.0; writes = r.0 })

unfoldable pub get_count : Machine → Outcome (ℕ × Machine)
unfolding with_lock
get_count m =
    Common.◌>>=◌ (with_lock (λ t. ok (t.count, t)) m.timer m.kernel.memory.cpu)
      λ r. ok (r.0, record m { kernel = set_cpu r.1.1 m.kernel; timer = r.1.0 })

unfoldable pub tick_task : Step
unfolding tick
tick_task m = Common.◌>>=◌ (tick m.kernel) (λ r. ok (tt, record m { kernel = r.1 }))

-- The breakpoint returns and the timer is counted; every other vector halts for good. (The log lines
-- are left out.)
unfoldable pub interrupt_handler : ℕ → Step
unfolding increment_count notify_end_of_interrupt tick_task
interrupt_handler vector =
    if vector == 3
    then (λ m. ok (tt, m))
    else (if vector == 42
        then (increment_count >> notify_end_of_interrupt >> tick_task)
        else (λ m. diverge))

-- `interrupt_handler_common`: the handler, then `check_and_schedule`.
unfoldable pub interrupt_handler_common : VirtAddr → ℕ → Step
interrupt_handler_common resume vector = interrupt_handler vector >> λ m.
    Common.◌>>=◌ (check_and_schedule resume m.kernel) (λ r. ok (tt, record m { kernel = r.1 }))
