-- ===== src/Task/Scheduler/Handover.antt =====
-- What a switch between two tasks leaves behind.
use noctis.Common.{ℕ, ◌≡◌, ◌≢◌, refl, ap, sym, ◌∙◌, ◌==◌, arith, Bool, true, false, some, ok}
use noctis.Spin.{SpinLock}
use noctis.MemLayout.{VirtAddr, PhysAddr, virt_to_phys}
use noctis.Task.State.{TaskState, Task, update, TaskRef, Kernel}
use noctis.Task.Context.Resume.{after}
use noctis.Task.Context.{switch_inner}
use noctis.Task.Scheduler.{hand_over, switch_to}

-- Task `next` runs in place of `prev`: the current task, the flags, `cr3`, free locks, and nothing
-- else of the tasks.
pub record IsHandedOver (k : Kernel) (prev next : TaskRef) (phys : PhysAddr) (k' : Kernel)
    : Type 0 where
  pub current : k'.current ≡ record { locked = false; value = some next }
  pub stops : (k'.task_at prev).value.running ≡ false
  pub starts : (k'.task_at next).value.running ≡ true
  pub space : k'.memory.cr3 ≡ phys
  pub prev_free : (k'.task_at prev).locked ≡ false
  pub next_free : (k'.task_at next).locked ≡ false
  pub kept_state : (k'.task_at prev).value.state ≡ (k.task_at prev).value.state
  pub others : (t : TaskRef) → t ≢ prev → t ≢ next → k'.task_at t ≡ k.task_at t
  pub queue : k'.tasks ≡ k.tasks
  pub refs : k'.next_ref ≡ k.next_ref

==-ne : (a b : ℕ) → a ≢ b → (a == b) ≡ false
==-ne a b h = ground arith

abbrev held : SpinLock Task → SpinLock Task
held l = record l { locked = true }

abbrev flagged : SpinLock Task → Bool → SpinLock Task
flagged l running = record { locked = false; value = record l.value { running = running } }

-- The two tasks after `hand_over`: each locked, then released with its flag changed.
abbrev handed_tasks : (TaskRef → SpinLock Task) → TaskRef → TaskRef → TaskRef → SpinLock Task
handed_tasks f prev next =
    update
      (update (update (update f prev (held (f prev))) next (held (f next))) prev
        (flagged (f prev) false))
      next (flagged (f next) true)

abbrev handed : Kernel → TaskRef → TaskRef → PhysAddr → Kernel
handed k prev next phys = record k {
  current = record { locked = false; value = some next };
  task_at = handed_tasks k.task_at prev next;
  memory = record k.memory { cpu = record { interrupts = true }; cr3 = phys };
}

hand_over-eq :
    (k : Kernel) (prev next : TaskRef) (table : VirtAddr) (phys : PhysAddr)
    → prev ≢ next
    → (k.task_at prev).locked ≡ false
    → (k.task_at next).locked ≡ false
    → k.current.locked ≡ false
    → (k.task_at next).value.page_table ≡ some table
    → virt_to_phys table ≡ ok phys
    → hand_over prev next k ≡ ok (tt, handed k prev next phys)
unfolding hand_over
hand_over-eq k prev next table phys ne f1 f2 f3 pt vp =
    let e = ==-ne next prev (λ h. ne (sym h)) in rw (f1, e, f2, f3, pt, vp)

handed-IsHandedOver :
    (k : Kernel) (prev next : TaskRef) (phys : PhysAddr)
    → prev ≢ next
    → IsHandedOver k prev next phys (handed k prev next phys)
handed-IsHandedOver k prev next phys ne = record {
  current = refl;
  stops = ground arith;
  starts = ground arith;
  space = refl;
  prev_free = ground arith;
  next_free = ground arith;
  kept_state = ground arith;
  others = λ t a b. ground arith;
  queue = refl;
  refs = refl;
}

-- What `switch_inner` leaves as it was.
record IsFrame (k : Kernel) (prev : TaskRef) (k' : Kernel) : Type 0 where
  current : k'.current ≡ k.current
  space : k'.memory.cr3 ≡ k.memory.cr3
  kept :
      (t : TaskRef)
      → ◌≡◌ {A = Bool × Bool × TaskState}
          ((k'.task_at t).value.running, (k'.task_at t).locked, (k'.task_at t).value.state)
          ((k.task_at t).value.running, (k.task_at t).locked, (k.task_at t).value.state)
  others : (t : TaskRef) → t ≢ prev → k'.task_at t ≡ k.task_at t
  queue : k'.tasks ≡ k.tasks
  refs : k'.next_ref ≡ k.next_ref

switch_inner-IsFrame :
    (resume : VirtAddr) (k : Kernel) (prev next : TaskRef)
    → (k' : Kernel) × (switch_inner resume prev next k ≡ ok (tt, k')) × IsFrame k prev k'
unfolding switch_inner
switch_inner-IsFrame resume k prev next = (
  after k (switch_inner resume prev next k),
  ground arith,
  record {
    current = ground arith;
    space = ground arith;
    kept = λ t. ground arith;
    others = λ t a. ground arith;
    queue = ground arith;
    refs = ground arith;
  },
)

-- A switch between two different tasks with free locks, the second with a page table that
-- `virt_to_phys` translates, comes to an end and hands over: `next` is the current task and runs,
-- `prev` does not, `cr3` is the table of `next`, the locks are free, and the other tasks are as before.
pub switch_to-IsHandedOver :
    (resume : VirtAddr) (k : Kernel) (prev next : TaskRef) (table : VirtAddr) (phys : PhysAddr)
    → prev ≢ next
    → (k.task_at prev).locked ≡ false
    → (k.task_at next).locked ≡ false
    → k.current.locked ≡ false
    → (k.task_at next).value.page_table ≡ some table
    → virt_to_phys table ≡ ok phys
    → (k' : Kernel) × (switch_to resume prev next k ≡ ok (tt, k'))
      × IsHandedOver k prev next phys k'
switch_to-IsHandedOver resume k prev next table phys ne f1 f2 f3 pt vp =
    let run = hand_over-eq k prev next table phys ne f1 f2 f3 pt vp in
    let h = handed-IsHandedOver k prev next phys ne in
    let (k', run', same) = switch_inner-IsFrame resume (handed k prev next phys) prev next in
    (
      k',
      unfold switch_to in ground (arith, run, run'),
      record {
        current = same.current ∙ h.current;
        stops = ap (λ (r : Bool × Bool × TaskState). r.0) (same.kept prev) ∙ h.stops;
        starts = ap (λ (r : Bool × Bool × TaskState). r.0) (same.kept next) ∙ h.starts;
        space = same.space ∙ h.space;
        prev_free = ap (λ (r : Bool × Bool × TaskState). r.1) (same.kept prev) ∙ h.prev_free;
        next_free = ap (λ (r : Bool × Bool × TaskState). r.1) (same.kept next) ∙ h.next_free;
        kept_state = ap (λ (r : Bool × Bool × TaskState). r.2) (same.kept prev) ∙ h.kept_state;
        others = λ t a b. same.others t a ∙ h.others t a b;
        queue = same.queue ∙ h.queue;
        refs = same.refs ∙ h.refs;
      },
    )
