-- ===== src/Task/Scheduler/Turn.antt =====
-- `switch` of kernel/src/task.rs, on each outcome of its search.
use noctis.Common.{◌≡◌, refl, arith, Option, none, some, Outcome, ok, ◌>>=◌}
use noctis.MemLayout.{VirtAddr, PhysAddr}
use noctis.Task.State.{TaskRef, Kernel}
use noctis.Task.Scheduler.{choose, switch_to, switch}
use noctis.Task.Scheduler.RoundRobin.{on}
use noctis.Task.Scheduler.Handover.{IsHandedOver}
use noctis.Task.Scheduler.Switch.{begun}

-- The end of `switch` in the task that goes on.
abbrev pub turned : Outcome (Unit {0} × Kernel) → Outcome (Unit {0} × Kernel)
turned o = o >>= λ r. ok (tt, on r.1)

module _ (resume : VirtAddr) (k : Kernel) (current : TaskRef) where
  -- The two ends of `switch`, behind a search that found `r`.
  module _ {r : Option TaskRef} (chosen : choose (begun k) ≡ ok ((current, r), on (begun k))) where
    pub switch-none : r ≡ none → switch resume k ≡ ok (tt, on (begun k))
    unfolding switch
    switch-none e = ground (arith, chosen, e)

    pub switch-some :
        (t : TaskRef)
        → r ≡ some t
        → switch resume k ≡ turned (switch_to resume current t (on (begun k)))
    unfolding switch
    switch-some t e = rw chosen (rw e refl)

-- Between two free tasks the switch ends as `switch_to` does, with the interrupts on.
pub on-IsHandedOver :
    (k k' : Kernel) (prev next : TaskRef) (phys : PhysAddr)
    → IsHandedOver (on (begun k)) prev next phys k'
    → IsHandedOver k prev next phys (on k')
on-IsHandedOver k k' prev next phys h = record {
  current = h.current;
  stops = h.stops;
  starts = h.starts;
  space = h.space;
  prev_free = h.prev_free;
  next_free = h.next_free;
  kept_state = h.kept_state;
  others = h.others;
  queue = h.queue;
  refs = h.refs;
}
