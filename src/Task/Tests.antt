-- ===== src/Task/Tests.antt =====
-- The theorems on kernel/src/task.rs at kernels of one and of two tasks.
use noctis.Common.{
  ℕ, zero, suc, ◌+◌, ◌-◌, ◌*◌, ◌≤◌, ◌≡◌, refl, inl, inr, arith, true, false, Option, some, List, [],
  ◌∷◌, ok, diverge, length, get_elem?, ◌==◌, if◌then◌else◌,
}
use noctis.Task.State.{TaskContext, TaskRef, Kernel}
use noctis.Task.Context.{
  write_word, flags_word, switch_inner, setup_initial_call, kernel_stack_size,
}
use noctis.Task.Context.Resume.{
  after, there_and_back, switch_inner-starts, setup_initial_call-outside,
}
use noctis.MemLayout.{virt_to_phys}
use noctis.Task.Scheduler.{find_runnable, switch_to, switch, position}
use noctis.Task.Scheduler.RoundRobin.{AllFree, on, IsSearched, find_runnable-IsSearched}
use noctis.Task.Scheduler.Handover.{IsHandedOver, switch_to-IsHandedOver}
use noctis.Task.Scheduler.Switch.{IsQuiet, switch-alone}
use noctis.Task.Samples.{context_at, task_of, kernel_of, idle_kernel, two_tasks}

AllFree-kernel_of : (l tasks : List TaskRef) → AllFree (kernel_of l) tasks
AllFree-kernel_of l tasks i t e = ground arith

abbrev both : List TaskRef
both = 0 ∷ 1 ∷ []

find_runnable-IsSearched_example :
    (r : Option TaskRef) × (k' : Kernel) × (find_runnable (length both) both 1 1 two_tasks
      ≡ ok (r, k'))
    × (k' ≡ on two_tasks)
    × IsSearched two_tasks both 1 (length both) r
find_runnable-IsSearched_example =
    find_runnable-IsSearched both 1 two_tasks (omega arith) (AllFree-kernel_of both both)

table_phys : virt_to_phys 0xFFFF_8880_0000_5000 ≡ ok 0x5000
unfolding virt_to_phys
table_phys = refl

switch_to-IsHandedOver_example :
    (k' : Kernel) × (switch_to 4096 0 1 two_tasks ≡ ok (tt, k'))
    × IsHandedOver two_tasks 0 1 0x5000 k'
switch_to-IsHandedOver_example =
    switch_to-IsHandedOver 4096 two_tasks 0 1 0xFFFF_8880_0000_5000 0x5000 (omega arith) refl refl
      refl refl table_phys

idle_kernel-IsQuiet : IsQuiet idle_kernel (0 ∷ []) 0 0
unfolding position
idle_kernel-IsQuiet = record {
  tasks_free = refl;
  current_free = refl;
  all_free = AllFree-kernel_of (0 ∷ []) (0 ∷ []);
  place = refl;
  in_range = omega arith;
}

only_idle : (i t : ℕ) → get_elem? (0 ∷ []) i ≡ some t → t ≡ 0
only_idle zero t e = cc
only_idle (suc i) t e = cc

switch-alone_example : switch 4096 idle_kernel ≡ diverge
switch-alone_example =
    switch-alone 4096 idle_kernel (0 ∷ []) 0 0 idle_kernel-IsQuiet refl
      (λ i t e ne. absurd (ne (only_idle i t e)))

-- Where task 0 is switched back to: its context saved, its two words on the stack, and task 1 running
-- on a stack of its own.
abbrev back_again : Kernel
back_again = record two_tasks {
  registers = context_at 0xC000;
  task_at = λ t.
      if t == 0
      then record (task_of 0 false 0x9000) {
        value = record (task_of 0 false 0x9000).value {
          context = record (context_at 0x8000) { rsp = 0x8000 - 8; rflags = flags_word two_tasks };
        };
      }
      else task_of 1 true 0xB000;
  words = write_word (write_word (λ at. 0) 0x7FF8 4096) 0x8000 0x1234;
}

context_saved :
    (back_again.task_at 0).value.context
    ≡ ((after two_tasks (switch_inner 4096 0 1 two_tasks)).task_at 0).value.context
unfolding switch_inner
context_saved = refl

there_and_back_example :
    (k : Kernel) × (switch_inner 4096 1 0 back_again ≡ ok (tt, k))
    × (k.registers ≡ record two_tasks.registers {
      rsp = two_tasks.registers.rsp + 8;
      rflags = flags_word two_tasks;
    })
    × (k.rip ≡ 0x1234)
    × (k.memory.cpu.interrupts ≡ two_tasks.memory.cpu.interrupts)
there_and_back_example =
    there_and_back 4096 two_tasks back_again 0 1 1 0x1234 (omega arith) (omega arith) context_saved
      (omega arith) refl refl (inr (omega arith))

-- A new task's context, and the kernel that is about to switch to it.
abbrev first_context : TaskContext
first_context = record (context_at 0) { rsp = 0x4000 + 8 * kernel_stack_size - 8; rflags = 0x202 }

abbrev called : Kernel
called = record two_tasks {
  words = write_word (λ at. 0) (0x4000 + 8 * kernel_stack_size - 8) 0x7777;
}

abbrev about_to_start : Kernel
about_to_start = record called {
  task_at = λ t. if t == 0 then task_of 0 true 0x9000 else record (task_of 1 false 0) {
    value = record (task_of 1 false 0).value { context = first_context };
  };
}

first_call : setup_initial_call (context_at 0) 0x4000 0x7777 two_tasks ≡ ok (first_context, called)
unfolding setup_initial_call
first_call = refl

switch_inner-starts_example :
    (k3 : Kernel) × (switch_inner 4096 0 1 about_to_start ≡ ok (tt, k3))
    × (k3.rip ≡ 0x7777)
    × (k3.memory.cpu.interrupts ≡ true)
switch_inner-starts_example =
    switch_inner-starts 4096 two_tasks called about_to_start (context_at 0) first_context 0x4000
      0x7777 0 1 (omega arith) first_call refl refl (inl (omega arith)) (omega arith)

setup_initial_call-outside_example :
    (context : TaskContext) × (k' : Kernel) × (setup_initial_call
        (context_at 0)
        0x4000
        0x7777
        two_tasks
      ≡ ok (context, k'))
    × (0x4000 + kernel_stack_size ≤ context.rsp)
    × (k'.words context.rsp ≡ 0x7777)
setup_initial_call-outside_example =
    setup_initial_call-outside (context_at 0) 0x4000 0x7777 two_tasks
