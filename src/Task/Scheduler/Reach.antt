-- ===== src/Task/Scheduler/Reach.antt =====
-- The scheduler of kernel/src/task.rs as a state machine: from `init` on, by calls of `spawn`,
-- `switch` and `tick`, and by what the running task does with its own state.
use noctis.Common.{
  ℕ, zero, suc, ◌≡◌, ◌≢◌, refl, sym, ap, ◌∙◌, inl, inr, arith, false, none, some, Option, List, [],
  ◌∷◌, ◌++◌, ok, split_ok, Outcome-cases, Option-cases, get_elem?, ℕ_discrete,
}
use mathlib.Core.Path.{subst}
use noctis.MemLayout.{VirtAddr, PhysAddr, virt_to_phys}
use noctis.Paging.Memory.{Memory}
use noctis.Task.State.{TaskContext, TaskRef, Kernel, tick}
use noctis.Allocator.{Layout}
use noctis.Task.Scheduler.{allocate, reserve, position, init, hand_over, switch_to, switch, spawn}
use noctis.Task.Scheduler.RoundRobin.{on}
use noctis.Spin.{SpinLock}
use noctis.Task.Context.{switch_inner}
use noctis.Task.Scheduler.Handover.{switch_to-IsHandedOver}
use noctis.Task.Scheduler.Switch.{begun, switch_to_self}
use noctis.Task.Scheduler.Turn.{switch-none, switch-some, on-IsHandedOver, turned}
use noctis.Task.Scheduler.System.{
  IsSystem, IsSystem-chosen, IsHandedOver-IsSystem, IsSearched-mem, current-free,
}
use noctis.Task.Scheduler.Spawn.{AreAllocated, spawn-IsSystem}

-- One step of the kernel; `resume` is the label at which `switch_inner` goes on, and the other two are
-- what `Arc::new` and a growing list allocate.
pub data Step (resume : VirtAddr) (arc_layout : Layout) (growth : List TaskRef → Option Layout)
    (k k' : Kernel) : Type 0 where
  spawned :
      (func : VirtAddr)
      → spawn arc_layout growth func k ≡ ok (tt, k')
      → Step resume arc_layout growth k k'
  switched : switch resume k ≡ ok (tt, k') → Step resume arc_layout growth k k'
  ticked : tick k ≡ ok (tt, k') → Step resume arc_layout growth k k'
  worked :
      (registers : TaskContext) (memory : Memory) (words : VirtAddr → ℕ) (rip : VirtAddr)
      → k' ≡ record k { registers = registers; memory = memory; words = words; rip = rip }
      → Step resume arc_layout growth k k'

-- The kernels that come from a call of `init` on the empty list of tasks.
pub data Reach (resume : VirtAddr) (arc_layout : Layout) (growth : List TaskRef → Option Layout)
    : Kernel → Type 0 where
  started :
      (table : VirtAddr) (k k' : Kernel)
      → k.tasks ≡ record { locked = false; value = [] }
      → k.current ≡ record { locked = false; value = none }
      → init arc_layout growth table k ≡ ok (tt, k')
      → Reach resume arc_layout growth k'
  stepped :
      {k k' : Kernel}
      → Reach resume arc_layout growth k
      → Step resume arc_layout growth k k'
      → Reach resume arc_layout growth k'

sole : (r t i : ℕ) → get_elem? (r ∷ []) i ≡ some t → t ≡ r
sole r t zero e = cc
sole r t (suc i) e = cc

module _ (arc_layout : Layout) (growth : List TaskRef → Option Layout) where
  init-allocated :
      (table : VirtAddr) (k k' : Kernel)
      → k.tasks ≡ record { locked = false; value = [] }
      → init arc_layout growth table k ≡ ok (tt, k')
      → (m1 m2 : Memory) × AreAllocated arc_layout growth [] k.memory m1 m2
  unfolding init
  init-allocated table k k' tasks run = elim (Outcome-cases (allocate arc_layout k.memory)) [
    | inl ((u, m1), e) ↦
        let list =
          reserve arc_layout growth [] (record m1 { cpu = record { interrupts = false } }) in
        elim (Outcome-cases list) [
          | inl ((w, m2), e2) ↦ (m1, m2, record { arc = e; list = e2 })
          | inr (inl (m, failed)) ↦ absurd (ground arith)
          | inr (inr (inl (p, failed))) ↦ absurd (ground arith)
          | inr (inr (inr failed)) ↦ absurd (ground arith)
        ]
    | inr (inl (m, failed)) ↦ absurd (ground arith)
    | inr (inr (inl (p, failed))) ↦ absurd (ground arith)
    | inr (inr (inr failed)) ↦ absurd (ground arith)
  ]

  pub init-IsSystem :
      (table : VirtAddr) (k k' : Kernel)
      → k.tasks ≡ record { locked = false; value = [] }
      → k.current ≡ record { locked = false; value = none }
      → init arc_layout growth table k ≡ ok (tt, k')
      → IsSystem k' (k.next_ref ∷ []) k.next_ref
  unfolding init position
  init-IsSystem table k k' tasks current run =
      let (m1, m2, given) = init-allocated table k k' tasks run in
      let arc = given.arc in
      let list = given.list in
      record {
        tasks_free = ground arith;
        current_free = ground arith;
        all_free = λ i t e. ground (arith, sole k.next_ref t i e);
        in_use = λ i t e. ground (arith, sole k.next_ref t i e);
        place = (0, ground arith);
        running = λ i t e. ground (arith, sole k.next_ref t i e);
      }

-- A hand over that returns found a page table that could be translated.
hand_over-parts :
    (k : Kernel) (prev next : TaskRef)
    → prev ≢ next
    → (k.task_at prev).locked ≡ false
    → (k.task_at next).locked ≡ false
    → k.current.locked ≡ false
    → (k' : Kernel) → hand_over prev next k ≡ ok (tt, k')
    → (table : VirtAddr) × (phys : PhysAddr) × ((k.task_at next).value.page_table ≡ some table)
      × (virt_to_phys table ≡ ok phys)
unfolding hand_over
hand_over-parts k prev next ne f1 f2 f3 k' run =
    elim (Option-cases (k.task_at next).value.page_table) [
      | inl missing ↦ absurd (ground arith)
      | inr (table, has) ↦ elim (Outcome-cases (virt_to_phys table)) [
        | inl (phys, e) ↦ (table, phys, has, e)
        | inr (inl (m, failed)) ↦ absurd (ground arith)
        | inr (inr (inl (p, failed))) ↦ absurd (ground arith)
        | inr (inr (inr failed)) ↦ absurd (ground arith)
      ]
    ]

-- A turn that another task gets.
switched-IsSystem :
    (resume : VirtAddr) (k k' : Kernel) (tasks : List TaskRef) (current t i : TaskRef)
    (s : IsSystem k tasks current)
    → get_elem? tasks i ≡ some t
    → t ≢ current
    → turned (switch_to resume current t (on (begun k))) ≡ ok (tt, k')
    → IsSystem k' tasks t
unfolding switch_to
switched-IsSystem resume k k' tasks current t i s at ne run =
    let ne' : current ≢ t = λ e. ne (sym e) in
    let free = current-free s in
    let unlocked = s.all_free i t at in
    let idle = ap SpinLock.locked s.current_free in
    let ((_, k1), last, handed) =
      split_ok (λ (r : Unit {0} × Kernel). ok (tt, on r.1))
        (switch_to resume current t (on (begun k))) run in
    let ((_, k2), more, first) =
      split_ok (λ (r : Unit {0} × Kernel). switch_inner resume current t r.1)
        (hand_over current t (on (begun k))) handed in
    let (table, phys, has, translated) =
      hand_over-parts (on (begun k)) current t ne' free unlocked idle k2 first in
    let (k3, run', h) =
      switch_to-IsHandedOver resume (on (begun k)) current t table phys ne' free unlocked idle has
        translated in
    let same : on k3 ≡ k' = ground (arith, run') in
    subst (λ x. IsSystem x tasks t) same
      (IsHandedOver-IsSystem s i t phys (on k3) at ne (on-IsHandedOver k k3 current t phys h))

-- A kernel that differs elsewhere.
same-IsSystem :
    (k k' : Kernel) (tasks : List TaskRef) (current : TaskRef)
    → IsSystem k tasks current
    → k'.tasks ≡ k.tasks
    → k'.current ≡ k.current
    → k'.task_at ≡ k.task_at
    → k'.next_ref ≡ k.next_ref
    → IsSystem k' tasks current
same-IsSystem k k' tasks current s queue at_work all refs = record {
  tasks_free = queue ∙ s.tasks_free;
  current_free = at_work ∙ s.current_free;
  all_free = λ i t e. rw all (s.all_free i t e);
  in_use = λ i t e. rw refs (s.in_use i t e);
  place = s.place;
  running = λ i t e. rw all (s.running i t e);
}

switch-IsSystem :
    (resume : VirtAddr) (k k' : Kernel) (tasks : List TaskRef) (current : TaskRef)
    → IsSystem k tasks current
    → switch resume k ≡ ok (tt, k')
    → (t : TaskRef) × IsSystem k' tasks t
switch-IsSystem resume k k' tasks current s run =
    let (r, chosen, searched) = IsSystem-chosen s in
    elim (Option-cases r) [
      | inl e ↦
          let same : on (begun k) ≡ k' =
            let ended = switch-none resume k current chosen e in ground arith in
          (
            current,
            subst (λ x. IsSystem x tasks current) same
                (same-IsSystem k (on (begun k)) tasks current s refl refl refl refl),
          )
      | inr (t, e) ↦
          let ended = switch-some resume k current chosen t e in
          elim (ℕ_discrete t current) [
            | yes self ↦
                let stuck = switch_to_self resume current (on (begun k)) (current-free s) in
                absurd (ground arith)
            | no other ↦
                let (i, at) = IsSearched-mem k tasks _ _ t (rw e at searched) in
                (t, switched-IsSystem resume k k' tasks current t i s at other (sym ended ∙ run))
          ]
    ]

-- One step keeps what holds of the scheduler's state, for some list of tasks and current task.
Step-IsSystem :
    {resume : VirtAddr} {arc_layout : Layout} {growth : List TaskRef → Option Layout}
    {k k' : Kernel} (tasks : List TaskRef) (current : TaskRef)
    → IsSystem k tasks current
    → Step resume arc_layout growth k k'
    → (tasks' : List TaskRef) × (current' : TaskRef) × IsSystem k' tasks' current'
unfolding tick
Step-IsSystem {arc_layout} {growth} {k} {k'} tasks current s (spawned func run) = (
  tasks ++ k.next_ref ∷ [],
  current,
  spawn-IsSystem arc_layout growth func k k' tasks current s run,
)
Step-IsSystem {resume} {k} {k'} tasks current s (switched run) =
    let (t, s') = switch-IsSystem resume k k' tasks current s run in (tasks, t, s')
Step-IsSystem {k} {k'} tasks current s (ticked run) = (
  tasks,
  current,
  same-IsSystem k k' tasks current s (ground arith) (ground arith) (ground arith) (ground arith),
)
Step-IsSystem {k} {k'} tasks current s (worked registers memory words rip e) = (
  tasks,
  current,
  same-IsSystem k k' tasks current s (ap Kernel.tasks e) (ap Kernel.current e) (ap Kernel.task_at e)
      (ap Kernel.next_ref e),
)

-- In every reachable kernel the locks of the list, of the current task's reference and of the tasks of
-- the list are free, the current task is in the list, and it alone is marked as running.
pub Reach-IsSystem :
    {resume : VirtAddr} {arc_layout : Layout} {growth : List TaskRef → Option Layout} {k : Kernel}
    → Reach resume arc_layout growth k
    → (tasks : List TaskRef) × (current : TaskRef) × IsSystem k tasks current
Reach-IsSystem {arc_layout} {growth} (started table k k' tasks current run) =
    (k.next_ref ∷ [], k.next_ref, init-IsSystem arc_layout growth table k k' tasks current run)
Reach-IsSystem (stepped r step) =
    let (tasks, current, s) = Reach-IsSystem r in Step-IsSystem tasks current s step
