-- ===== src/Task/Scheduler.antt =====
-- `init`, `switch` and `spawn` of kernel/src/task.rs.
pub mod RoundRobin
pub mod Handover
pub mod Switch
pub mod Turn
pub mod System
pub mod Spawn
pub mod Reach
mod Tests
use noctis.Common.{
  ℕ, zero, suc, ◌+◌, ◌%◌, Bool, true, false, Option, none, some, List, [], ◌∷◌, ◌++◌, Outcome, ok,
  diverge, unwrapped, out_of_memory, panic, some_or, length, get_elem?, ◌==◌, if◌then◌else◌,
}
use noctis.Common as Common
use noctis.Allocator.{Layout, alloc}
use noctis.MemLayout.{VirtAddr, virt_to_phys}
use noctis.Paging.Memory as Memory
use noctis.Paging.Table.{duplicate_kernel}
use noctis.Paging.Init.{write_cr3}
use noctis.Task.State.{
  TaskState, runnable, stopped, Task, TaskRef, Kernel, K, pure, lift, ◌>>=◌, ◌>>◌, on_memory,
  disable_interrupts, enable_interrupts, lock_tasks, drop_tasks, lock_current, drop_current,
  lock_task, drop_task, new_task, new_ref, current_task,
}
use noctis.Task.Context.{kernel_stack_size, setup_initial_call, switch_inner}

-- `tasks.iter().position(…)`
unfoldable pub position : TaskRef → List TaskRef → Option ℕ
position t [] = none
position t (u ∷ l) =
    if u == t then some 0 else elim (position t l) [ none ↦ none | some i ↦ some (i + 1) ]

abbrev pub is_runnable : TaskState → Bool
is_runnable runnable = true
is_runnable stopped = false

-- `task.lock().state`: the guard is a temporary, dropped at the end of the statement.
unfoldable pub state_of : TaskRef → K TaskState
unfolding lock_task drop_task
state_of t = do task ← lock_task t; drop_task t task; pure task.state

-- The `loop` of `switch`: `len` rounds are enough, since `i` comes back to `start`.
unfoldable pub find_runnable : ℕ → List TaskRef → ℕ → ℕ → K (Option TaskRef)
unfolding state_of
find_runnable zero tasks i start = lift diverge
find_runnable (suc fuel) tasks i start =
    let i' : ℕ = (i + 1) % length tasks in
    let rest = (if i' == start then pure none else find_runnable fuel tasks i' start) in
    elim (get_elem? tasks i) [
      | none ↦ rest
      | some t ↦ do state ← state_of t; if is_runnable state then pure (some t) else rest
    ]

abbrev pub start_index : Option ℕ → ℕ → ℕ
start_index none len = 0
start_index (some i) len = (i + 1) % len

-- The block of `switch` that holds the guard of `TASKS`.
unfoldable pub choose : K (TaskRef × Option TaskRef)
unfolding lock_tasks drop_tasks current_task position find_runnable
choose = do
  tasks ← lock_tasks
  current ← current_task
  let start = start_index (position current tasks) (length tasks)
  next ← (if length tasks == 0 then pure none else find_runnable (length tasks) tasks start start)
  drop_tasks tasks
  pure (current, next)

-- The second part of `switch`, for the two tasks of a switch: all that it does under their locks.
unfoldable pub hand_over : TaskRef → TaskRef → K (Unit {0})
unfolding lock_task drop_task lock_current drop_current write_cr3
hand_over prev next = do
  prev_task ← lock_task prev
  next_task ← lock_task next
  _ ← lock_current
  drop_current (some next)
  table ← lift (some_or unwrapped next_task.page_table)
  phys ← lift (virt_to_phys table)
  on_memory (write_cr3 phys)
  drop_task prev (record prev_task { running = false })
  drop_task next (record next_task { running = true })

module _ (resume : VirtAddr) where
  unfoldable pub switch_to : TaskRef → TaskRef → K (Unit {0})
  unfolding hand_over switch_inner
  switch_to prev next = do hand_over prev next; switch_inner resume prev next

  -- `x86::enable_interrupts()` follows in the task that goes on: one that was in `switch` before.
  unfoldable pub switch : K (Unit {0})
  unfolding choose switch_to
  switch = do
    disable_interrupts
    λ k. ok (tt, record k { ticks = 0 })
    (current, next) ← choose
    (elim next [ none ↦ pure tt | some t ↦ switch_to current t ])
    enable_interrupts

  -- `check_and_schedule` of kernel/src/idt.rs.
  unfoldable pub check_and_schedule : K (Unit {0})
  check_and_schedule k = if Common.leb 3 k.ticks then switch k else ok (tt, k)

abbrev pub stack_layout : Layout
stack_layout = record { size = kernel_stack_size; align = 4096 }

-- `Box::new` of a kernel stack.
unfoldable pub box_stack : Memory.M VirtAddr
unfolding alloc
box_stack m =
    Common.◌>>=◌ (alloc stack_layout m.heap m.cpu) λ r.
      if r.0 == 0 then panic out_of_memory else ok (r.0, record m { heap = r.1.0; cpu = r.1.1 })

-- `PageTable::duplicate_kernel` of the current task's table, under the lock of that task.
unfoldable pub copy_idle : K VirtAddr
unfolding current_task lock_task drop_task
copy_idle = do
  idle ← current_task
  idle_task ← lock_task idle
  source ← lift (some_or unwrapped idle_task.page_table)
  page_table ← on_memory (duplicate_kernel source)
  drop_task idle idle_task
  pure page_table

-- A block of the heap for `Arc::new` or a growing list; a null pointer is the allocation error.
unfoldable pub allocate : Layout → Memory.M (Unit {0})
unfolding alloc
allocate layout m =
    Common.◌>>=◌ (alloc layout m.heap m.cpu)
      λ r. if r.0 == 0 then panic out_of_memory else ok (tt, record m { heap = r.1.0; cpu = r.1.1 })

-- The layout of an `Arc<SpinLock<Task>>` with its counts is the compiler's; what a list allocates where it
-- has to grow for one more element is up to the standard library.
module _ (arc_layout : Layout) (growth : List TaskRef → Option Layout) where
  unfoldable pub reserve : List TaskRef → Memory.M (Unit {0})
  unfolding allocate
  reserve l = elim (growth l) [ none ↦ Memory.pure tt | some layout ↦ allocate layout ]

  unfoldable pub init : VirtAddr → K (Unit {0})
  unfolding new_task new_ref lock_tasks drop_tasks lock_current drop_current allocate reserve
  init page_table = do
    task ← new_task
    on_memory (allocate arc_layout)
    t ← new_ref (record task { state = runnable; running = true; page_table = some page_table })
    l ← lock_tasks
    on_memory (reserve l)
    drop_tasks (l ++ t ∷ [])
    _ ← lock_current
    drop_current (some t)

  -- The part of `spawn` that makes the task and puts it into `TASKS`.
  unfoldable pub enlist : VirtAddr → VirtAddr → VirtAddr → K (Unit {0})
  unfolding lock_task drop_task new_task new_ref lock_tasks drop_tasks setup_initial_call allocate
      reserve
  enlist func kstack page_table = do
    fresh ← new_task
    on_memory (allocate arc_layout)
    t ← new_ref fresh
    l ← lock_tasks
    on_memory (reserve l)
    drop_tasks (l ++ t ∷ [])
    task ← lock_task t
    context ← setup_initial_call task.context kstack func
    drop_task t (record task {
      context = context;
      kernel_stack = some kstack;
      state = runnable;
      page_table = some page_table;
    })

  unfoldable pub spawn : VirtAddr → K (Unit {0})
  spawn func = do
    kstack ← on_memory box_stack
    page_table ← copy_idle
    enlist func kstack page_table
