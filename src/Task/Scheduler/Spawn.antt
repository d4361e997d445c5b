-- ===== src/Task/Scheduler/Spawn.antt =====
-- `spawn` of kernel/src/task.rs, on a system of tasks.
use noctis.Common.{
  ℕ, ◌+◌, ◌-◌, ◌*◌, ◌≡◌, ◌≢◌, refl, sym, ap, ◌∙◌, arith, false, some, List, [], ◌∷◌, ◌++◌, ok,
  Option, Option-cases, inl, inr, Outcome-cases, split_ok, get_elem?-lt, get_elem?-front,
  get_elem?-snoc,
}
use noctis.MemLayout.{VirtAddr}
use noctis.Paging.Memory.{Memory}
use noctis.Paging.Table.{duplicate_kernel}
use noctis.Task.State.{runnable, Task, TaskRef, Kernel, default_context, on_memory, ◌>>=◌}
use noctis.Task.Context.{kernel_stack_size}
use noctis.Task.Context.Resume.{after}
use noctis.Allocator.{Layout}
use noctis.Task.Scheduler.{box_stack, copy_idle, allocate, reserve, enlist, spawn}
use noctis.Task.Scheduler.System.{IsSystem, current-free, get_elem?-position}
use noctis.Task.Scheduler.Switch.{position-get_elem?}

-- The new task: runnable, not running, about to call `func` on its own stack.
abbrev pub new_task_of : Kernel → VirtAddr → VirtAddr → VirtAddr → Task
new_task_of k func kstack table = record {
  pid = k.next_pid;
  state = runnable;
  running = false;
  context = record default_context { rsp = kstack + 8 * kernel_stack_size - 8; rflags = 0x202 };
  page_table = some table;
  kernel_stack = some kstack;
}

-- What `spawn` leaves of the scheduler's state.
pub record IsSpawned (k : Kernel) (tasks : List TaskRef) (new_one : Task) (k' : Kernel)
    : Type 0 where
  pub queue : k'.tasks ≡ record { locked = false; value = tasks ++ k.next_ref ∷ [] }
  pub current : k'.current ≡ k.current
  pub refs : k'.next_ref ≡ k.next_ref + 1
  pub added : k'.task_at k.next_ref ≡ record { locked = false; value = new_one }
  pub others : (t : TaskRef) → t ≢ k.next_ref → k'.task_at t ≡ k.task_at t

-- The memory behind the allocations of an `enlist` that returns.
pub record AreAllocated (arc_layout : Layout) (growth : List TaskRef → Option Layout)
    (tasks : List TaskRef) (m m1 m2 : Memory) : Type 0 where
  pub arc : allocate arc_layout m ≡ ok (tt, m1)
  pub list :
      reserve arc_layout growth tasks (record m1 { cpu = record { interrupts = false } })
      ≡ ok (tt, m2)

module _ (arc_layout : Layout) (growth : List TaskRef → Option Layout) where
  enlist-IsSpawned :
      (func kstack table : VirtAddr) (k : Kernel) (tasks : List TaskRef) (m1 m2 : Memory)
      → k.tasks ≡ record { locked = false; value = tasks }
      → AreAllocated arc_layout growth tasks k.memory m1 m2
      → (k' : Kernel) × (enlist arc_layout growth func kstack table k ≡ ok (tt, k'))
        × IsSpawned k tasks (new_task_of k func kstack table) k'
  unfolding enlist
  enlist-IsSpawned func kstack table k tasks m1 m2 tasks_free given =
      let arc = given.arc in
      let list = given.list in
      (
        after k (enlist arc_layout growth func kstack table k),
        ground arith,
        record {
          queue = ground arith;
          current = ground arith;
          refs = ground arith;
          added = ground arith;
          others = λ t a. ground arith;
        },
      )

  enlist-parts :
      (func kstack table : VirtAddr) (k k' : Kernel) (tasks : List TaskRef)
      → k.tasks ≡ record { locked = false; value = tasks }
      → enlist arc_layout growth func kstack table k ≡ ok (tt, k')
      → (m1 m2 : Memory) × AreAllocated arc_layout growth tasks k.memory m1 m2
  unfolding enlist
  enlist-parts func kstack table k k' tasks tasks_free run =
      elim (Outcome-cases (allocate arc_layout k.memory)) [
        | inl ((u, m1), e) ↦
            let list =
              reserve arc_layout growth tasks (record m1 { cpu = record { interrupts = false } }) in
            elim (Outcome-cases list) [
              | inl ((w, m2), e2) ↦ (m1, m2, record { arc = e; list = e2 })
              | inr (inl (m, failed)) ↦ absurd (ground arith)
              | inr (inr (inl (p, failed))) ↦ absurd (ground arith)
              | inr (inr (inr failed)) ↦ absurd (ground arith)
            ]
        | inr (inl (m, failed)) ↦ absurd (ground arith)
        | inr (inr (inl (p, failed))) ↦ absurd (ground arith)
        | inr (inr (inr failed)) ↦ absurd (ground arith)
      ]

-- What `copy_idle` leaves of it.
pub record IsSame (k k' : Kernel) : Type 0 where
  pub queue : k'.tasks ≡ k.tasks
  pub current : k'.current ≡ k.current
  pub refs : k'.next_ref ≡ k.next_ref
  pub pids : k'.next_pid ≡ k.next_pid
  pub all : (t : TaskRef) → k'.task_at t ≡ k.task_at t

pub copy_idle-IsSame :
    (k : Kernel) (current : TaskRef) (source table : VirtAddr) (m : Memory)
    → k.current ≡ record { locked = false; value = some current }
    → (k.task_at current).locked ≡ false
    → (k.task_at current).value.page_table ≡ some source
    → duplicate_kernel source (record k.memory { cpu = record { interrupts = false } })
      ≡ ok (table, m)
    → (k' : Kernel) × (copy_idle k ≡ ok (table, k')) × IsSame k k'
unfolding copy_idle
copy_idle-IsSame k current source table m current_free free has copied = (
  after k (copy_idle k),
  ground arith,
  record {
    queue = ground arith;
    current = ground arith;
    refs = ground arith;
    pids = ground arith;
    all = λ t. ground arith;
  },
)

copy_idle-parts :
    (k k' : Kernel) (current : TaskRef) (table : VirtAddr)
    → k.current ≡ record { locked = false; value = some current }
    → (k.task_at current).locked ≡ false
    → copy_idle k ≡ ok (table, k')
    → (source : VirtAddr) × (m : Memory) × ((k.task_at current).value.page_table ≡ some source)
      × (duplicate_kernel source (record k.memory { cpu = record { interrupts = false } })
          ≡ ok (table, m))
unfolding copy_idle
copy_idle-parts k k' current table current_free free run =
    elim (Option-cases (k.task_at current).value.page_table) [
      | inl missing ↦ absurd (ground arith)
      | inr (source, has) ↦
          let duplicate =
            duplicate_kernel source (record k.memory { cpu = record { interrupts = false } }) in
          elim (Outcome-cases duplicate) [
            | inl ((t, m), e) ↦ (source, m, has, ground arith)
            | inr (inl (m, failed)) ↦ absurd (ground arith)
            | inr (inr (inl (p, failed))) ↦ absurd (ground arith)
            | inr (inr (inr failed)) ↦ absurd (ground arith)
          ]
    ]

-- The three calls of a `spawn` that returns.
spawn-parts :
    (arc_layout : Layout) (growth : List TaskRef → Option Layout) (func : VirtAddr) (k k' : Kernel)
    → spawn arc_layout growth func k ≡ ok (tt, k')
    → (kstack table : VirtAddr) × (m : Memory) × (k2 : Kernel) × (copy_idle
          (record k { memory = m })
        ≡ ok (table, k2))
      × (enlist arc_layout growth func kstack table k2 ≡ ok (tt, k'))
unfolding spawn
spawn-parts arc_layout growth func k k' run =
    let ((kstack, k1), more, first) =
      split_ok (λ (r : VirtAddr × Kernel). (copy_idle >>= enlist arc_layout growth func r.0) r.1)
        (on_memory box_stack k) run in
    let ((table, k2), last, second) =
      split_ok (λ (r : VirtAddr × Kernel). enlist arc_layout growth func kstack r.0 r.1)
        (copy_idle k1) more in
    let ((p, m), made, boxed) =
      split_ok (λ (r : VirtAddr × Memory). ok (r.0, record k { memory = r.1 })) (box_stack k.memory)
        first in
    let same : record k { memory = m } ≡ k1 = ground arith in
    (kstack, table, m, k2, rw same second, last)

pub IsSame-IsSpawned :
    (k k2 k' : Kernel) (func kstack table : VirtAddr) (tasks : List TaskRef)
    → IsSame k k2
    → IsSpawned k2 tasks (new_task_of k2 func kstack table) k'
    → IsSpawned k tasks (new_task_of k func kstack table) k'
IsSame-IsSpawned k k2 k' func kstack table tasks same h = record {
  queue = rw same.refs at h.queue;
  current = h.current ∙ same.current;
  refs = rw same.refs at h.refs;
  added =
      ap k'.task_at (sym same.refs)
      ∙ h.added
      ∙ ap
          (λ (n : ℕ). record {
            locked = false;
            value = record (new_task_of k func kstack table) { pid = n };
          })
          same.pids;
  others = λ t ne. h.others t (λ e. ne (e ∙ same.refs)) ∙ same.all t;
}

-- A spawn that returns has put one more task at the end of the list, and changed no other.
pub spawn-IsSpawned :
    (arc_layout : Layout) (growth : List TaskRef → Option Layout) (func : VirtAddr) (k k' : Kernel)
    (tasks : List TaskRef) (current : TaskRef)
    → k.tasks ≡ record { locked = false; value = tasks }
    → k.current ≡ record { locked = false; value = some current }
    → (k.task_at current).locked ≡ false
    → spawn arc_layout growth func k ≡ ok (tt, k')
    → (kstack table : VirtAddr) × IsSpawned k tasks (new_task_of k func kstack table) k'
spawn-IsSpawned arc_layout growth func k k' tasks current tasks_free current_free free run =
    let (kstack, table, m, k2, copied, last) = spawn-parts arc_layout growth func k k' run in
    let (source, m2, has, duplicated) =
      copy_idle-parts (record k { memory = m }) k2 current table current_free free copied in
    let (k2', copied', same) =
      copy_idle-IsSame (record k { memory = m }) current source table m2 current_free free has
        duplicated in
    let e : k2' ≡ k2 = ground arith in
    let at_k2 = rw e at same in
    let here : IsSame k k2 = record {
      queue = at_k2.queue;
      current = at_k2.current;
      refs = at_k2.refs;
      pids = at_k2.pids;
      all = at_k2.all;
    } in
    let queue = here.queue ∙ tasks_free in
    let (m3, m4, given) = enlist-parts arc_layout growth func kstack table k2 k' tasks queue last in
    let (k'', last', h) =
      enlist-IsSpawned arc_layout growth func kstack table k2 tasks m3 m4 queue given in
    let e' : k'' ≡ k' = ground arith in
    (kstack, table, IsSame-IsSpawned k k2 k' func kstack table tasks here (rw e' at h))

-- `spawn` keeps what holds of the scheduler's state, with one more task.
pub spawn-IsSystem :
    (arc_layout : Layout) (growth : List TaskRef → Option Layout) (func : VirtAddr) (k k' : Kernel)
    (tasks : List TaskRef) (current : TaskRef)
    → IsSystem k tasks current
    → spawn arc_layout growth func k ≡ ok (tt, k')
    → IsSystem k' (tasks ++ k.next_ref ∷ []) current
spawn-IsSystem arc_layout growth func k k' tasks current s run =
    let at_c = position-get_elem? current tasks s.place.0 s.place.1 in
    let c_lt = get_elem?-lt tasks s.place.0 current at_c in
    let free = current-free s in
    let (kstack, table, h) =
      spawn-IsSpawned arc_layout growth func k k' tasks current s.tasks_free s.current_free free
        run in
    let old_lt = s.in_use s.place.0 current at_c in
    record {
      tasks_free = h.queue;
      current_free = h.current ∙ s.current_free;
      all_free = λ i t e. elim (get_elem?-snoc tasks k.next_ref t i e) [
        | inl before ↦
            rw (h.others t (λ x. absurd (omega (arith, x, s.in_use i t before))))
              (s.all_free i t before)
        | inr last ↦ rw (last, h.added) refl
      ];
      in_use = λ i t e. elim (get_elem?-snoc tasks k.next_ref t i e) [
        | inl before ↦ omega (arith, h.refs, s.in_use i t before)
        | inr last ↦ omega (arith, h.refs, last)
      ];
      place =
          get_elem?-position (tasks ++ k.next_ref ∷ []) s.place.0 current
            (get_elem?-front tasks (k.next_ref ∷ []) s.place.0 c_lt ∙ at_c);
      running = λ i t e. elim (get_elem?-snoc tasks k.next_ref t i e) [
        | inl before ↦
            rw (h.others t (λ x. absurd (omega (arith, x, s.in_use i t before))))
              (s.running i t before)
        | inr last ↦ rw (last, h.added) (ground arith)
      ];
    }
