-- ===== src/Task/State.antt =====
-- The tasks of kernel/src/task.rs, the statics they are kept in, and the calls that lock them.
use noctis.Common.{
  ℕ, zero, suc, ◌+◌, ◌%◌, ◌^◌, Bool, true, false, Option, none, some, List, [], ◌∷◌, ◌++◌, Outcome,
  ok, unwrapped, some_or, ◌==◌, if◌then◌else◌,
}
use noctis.Common as Common
use noctis.Spin
use noctis.Spin.{Cpu, SpinLock}
use noctis.MemLayout.{VirtAddr}
use noctis.Paging.Memory.{Memory}
use noctis.Paging.Memory as Memory

pub data TaskState : Type 0 where
  runnable stopped : TaskState

pub record TaskContext : Type 0 where
  pub rbx : ℕ
  pub rbp : ℕ
  pub r12 : ℕ
  pub r13 : ℕ
  pub r14 : ℕ
  pub r15 : ℕ
  pub rsp : ℕ
  pub rflags : ℕ

unfoldable pub default_context : TaskContext
default_context = record {
  rbx = 0;
  rbp = 0;
  r12 = 0;
  r13 = 0;
  r14 = 0;
  r15 = 0;
  rsp = 0;
  rflags = 0;
}

pub record Task : Type 0 where
  pub pid : ℕ
  pub state : TaskState
  pub running : Bool
  pub context : TaskContext
  pub page_table : Option VirtAddr
  pub kernel_stack : Option VirtAddr

-- An `Arc<SpinLock<Task>>` is the address of the lock: `Arc::ptr_eq` compares addresses.
abbrev pub TaskRef : Type 0
TaskRef = ℕ

-- `CPU_CONTEXT_BLOCK` (`ticks`, `current`), `TASKS`, the counter of `Task::new`, the tasks behind
-- their `Arc`s, the memory of the page tables with the CPU's interrupt flag, the words of the kernel
-- stacks, and the registers of the CPU.
pub record Kernel : Type 0 where
  pub ticks : ℕ
  pub current : SpinLock (Option TaskRef)
  pub tasks : SpinLock (List TaskRef)
  pub next_pid : ℕ
  pub next_ref : TaskRef
  pub task_at : TaskRef → SpinLock Task
  pub memory : Memory
  pub words : VirtAddr → ℕ
  pub registers : TaskContext
  pub rip : VirtAddr

abbrev pub K : Type 0 → Type 0
K A = Kernel → Outcome (A × Kernel)

abbrev pub pure : {A : Type 0} → A → K A
pure a k = ok (a, k)

abbrev pub lift : {A : Type 0} → Outcome A → K A
lift r k = Common.◌>>=◌ r (λ a. ok (a, k))

infixl 5 ◌>>=◌ ◌>>◌
abbrev pub ◌>>=◌ : {A B : Type 0} → K A → (A → K B) → K B
◌>>=◌ f g k = Common.◌>>=◌ (f k) (λ r. g r.0 r.1)

abbrev pub ◌>>◌ : {B : Type 0} → K (Unit {0}) → K B → K B
f >> g = f >>= λ _. g

-- A call on the page tables.
abbrev pub on_memory : {A : Type 0} → Memory.M A → K A
on_memory f k = Common.◌>>=◌ (f k.memory) (λ r. ok (r.0, record k { memory = r.1 }))

abbrev pub set_cpu : Cpu → Kernel → Kernel
set_cpu cpu k = record k { memory = record k.memory { cpu = cpu } }

abbrev pub update : (TaskRef → SpinLock Task) → TaskRef → SpinLock Task → TaskRef → SpinLock Task
update f r l q = if q == r then l else f q

-- `cli` and `sti`
abbrev pub disable_interrupts : K (Unit {0})
disable_interrupts k = ok (tt, set_cpu (record { interrupts = false }) k)

abbrev pub enable_interrupts : K (Unit {0})
enable_interrupts k = ok (tt, set_cpu (record { interrupts = true }) k)

-- `TASKS.lock()`, and the drop of its guard after the list was changed to `l`.
unfoldable pub lock_tasks : K (List TaskRef)
unfolding Spin.lock
lock_tasks k =
    Common.◌>>=◌ (Spin.lock k.tasks k.memory.cpu)
      λ r. ok (r.0.value, set_cpu r.1 (record k { tasks = r.0 }))

unfoldable pub drop_tasks : List TaskRef → K (Unit {0})
unfolding Spin.release
drop_tasks l k =
    let r = Spin.release (record k.tasks { value = l }) k.memory.cpu in
    ok (tt, set_cpu r.1 (record k { tasks = r.0 }))

unfoldable pub lock_current : K (Option TaskRef)
unfolding Spin.lock
lock_current k =
    Common.◌>>=◌ (Spin.lock k.current k.memory.cpu)
      λ r. ok (r.0.value, set_cpu r.1 (record k { current = r.0 }))

unfoldable pub drop_current : Option TaskRef → K (Unit {0})
unfolding Spin.release
drop_current c k =
    let r = Spin.release (record k.current { value = c }) k.memory.cpu in
    ok (tt, set_cpu r.1 (record k { current = r.0 }))

unfoldable pub lock_task : TaskRef → K Task
unfolding Spin.lock
lock_task t k =
    Common.◌>>=◌ (Spin.lock (k.task_at t) k.memory.cpu)
      λ r. ok (r.0.value, set_cpu r.1 (record k { task_at = update k.task_at t r.0 }))

unfoldable pub drop_task : TaskRef → Task → K (Unit {0})
unfolding Spin.release
drop_task t task k =
    let r = Spin.release (record (k.task_at t) { value = task }) k.memory.cpu in
    ok (tt, set_cpu r.1 (record k { task_at = update k.task_at t r.0 }))

-- `Task::new`: `fetch_add` on an `AtomicU32` wraps.
unfoldable pub new_task : K Task
unfolding default_context
new_task k = ok (
  record {
    pid = k.next_pid;
    state = stopped;
    running = false;
    context = default_context;
    page_table = none;
    kernel_stack = none;
  },
  record k { next_pid = (k.next_pid + 1) % 2 ^ 32 },
)

-- `Arc::new(SpinLock::new(task))`, at an address that is not in use.
unfoldable pub new_ref : Task → K TaskRef
unfolding Spin.new
new_ref task k = ok (
  k.next_ref,
  record k { next_ref = k.next_ref + 1; task_at = update k.task_at k.next_ref (Spin.new task) },
)

-- `current_task()`
unfoldable pub current_task : K TaskRef
unfolding lock_current drop_current
current_task = do
  current ← lock_current
  t ← lift (some_or unwrapped current)
  drop_current current
  pure t

-- `tick()`: `fetch_add` on an `AtomicUsize` wraps.
unfoldable pub tick : K (Unit {0})
tick k = ok (tt, record k { ticks = (k.ticks + 1) % 2 ^ 64 })
