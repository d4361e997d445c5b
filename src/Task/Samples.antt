-- ===== src/Task/Samples.antt =====
-- Two kernels: an idle task alone, and the idle task with a second one.
use noctis.Common.{ℕ, Bool, true, false, none, some, List, [], ◌∷◌, ◌==◌, if◌then◌else◌}
use noctis.Spin.{SpinLock}
use noctis.Paging.Memory.{Memory}
use noctis.Task.State.{TaskContext, Task, TaskRef, Kernel, runnable}

abbrev pub context_at : ℕ → TaskContext
context_at rsp = record {
  rbx = 1;
  rbp = 2;
  r12 = 3;
  r13 = 4;
  r14 = 5;
  r15 = 6;
  rsp = rsp;
  rflags = 2;
}

abbrev pub memory : Memory
memory = record {
  heap = record { locked = false; value = record { start = 0; end = 0; next = 0 } };
  cpu = record { interrupts = true };
  nodes = λ node i. 0;
  cr3 = 0x1000;
}

-- A runnable task with the page table at `0xFFFF_8880_0000_5000`.
abbrev pub task_of : ℕ → Bool → ℕ → SpinLock Task
task_of pid running rsp = record {
  locked = false;
  value = record {
    pid = pid;
    state = runnable;
    running = running;
    context = context_at rsp;
    page_table = some 0xFFFF_8880_0000_5000;
    kernel_stack = none;
  };
}

abbrev pub kernel_of : List TaskRef → Kernel
kernel_of tasks = record {
  ticks = 0;
  current = record { locked = false; value = some 0 };
  tasks = record { locked = false; value = tasks };
  next_pid = 2;
  next_ref = 2;
  task_at = λ t. if t == 0 then task_of 0 true 0x9000 else task_of 1 false 0xB000;
  memory = memory;
  words = λ at. 0;
  registers = context_at 0x8000;
  rip = 0;
}

abbrev pub idle_kernel : Kernel
idle_kernel = kernel_of (0 ∷ [])

abbrev pub two_tasks : Kernel
two_tasks = kernel_of (0 ∷ 1 ∷ [])
