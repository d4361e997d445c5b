-- ===== src/Task/Scheduler/Tests.antt =====
-- The theorems on the scheduler's state at kernels of no, one and two tasks.
use noctis.Common.{
  ℕ, zero, suc, ◌+◌, ◌%◌, ◌<◌, ◌≡◌, ◌≢◌, refl, arith, false, Option, none, some, List, [], ◌∷◌, ok,
  diverge, length, get_elem?, ◌==◌, if◌then◌else◌,
}
use noctis.MemLayout.{VirtAddr, PhysAddr, virt_to_phys}
use noctis.Allocator.{Layout}
use noctis.Task.State.{TaskRef, Kernel, tick}
use noctis.Task.Samples.{kernel_of, two_tasks}
use noctis.Task.Scheduler.{init, position, switch, spawn, box_stack, copy_idle, enlist}
use noctis.Task.Scheduler.RoundRobin.{on, IsSearched}
use noctis.Task.Scheduler.Handover.{IsHandedOver}
use noctis.Task.Scheduler.Switch.{begun}
use noctis.Task.Scheduler.System.{IsSystem, switch_lem}
use noctis.Task.Context.Resume.{after}
use noctis.Paging.Table.{duplicate_kernel}
use noctis.Task.Scheduler.Spawn.{IsSpawned, new_task_of, spawn-IsSpawned}
use noctis.Task.Scheduler.Reach.{started, stepped, ticked, Reach-IsSystem}

abbrev both : List TaskRef
both = 0 ∷ 1 ∷ []

two_tasks-IsSystem : IsSystem two_tasks both 0
unfolding position
two_tasks-IsSystem = record {
  tasks_free = refl;
  current_free = refl;
  all_free = λ i t e. ground arith;
  in_use = λ i t e. at i t e;
  place = (0, refl);
  running = λ i t e. runs i t e;
}
  where
    at : (i t : ℕ) → get_elem? both i ≡ some t → t < 2
    at zero t e = ground arith
    at (suc zero) t e = ground arith
    at (suc (suc i)) t e = cc

    runs : (i t : ℕ) → get_elem? both i ≡ some t → (two_tasks.task_at t).value.running ≡ (t == 0)
    runs zero t e = ground arith
    runs (suc zero) t e = ground arith
    runs (suc (suc i)) t e = cc

switch_lem_example :
    (r : Option TaskRef) × IsSearched two_tasks both ((0 + 1) % length both) (length both) r
    × (r ≡ none → switch 4096 two_tasks ≡ ok (tt, on (begun two_tasks)))
    × (r ≡ some 0 → switch 4096 two_tasks ≡ diverge)
    × ((t : TaskRef) (table : VirtAddr) (phys : PhysAddr)
        → r ≡ some t
        → t ≢ 0
        → (two_tasks.task_at t).value.page_table ≡ some table
        → virt_to_phys table ≡ ok phys
        → (k' : Kernel) × (switch 4096 two_tasks ≡ ok (tt, k'))
          × IsHandedOver two_tasks 0 t phys k'
          × IsSystem k' both t)
unfolding two_tasks-IsSystem
switch_lem_example = switch_lem 4096 two_tasks both 0 two_tasks-IsSystem

-- An `Arc` of 136 bytes, and a list that allocates room for four references at first.
abbrev arc_layout : Layout
arc_layout = record { size = 136; align = 8 }

abbrev growth : List TaskRef → Option Layout
growth l = if length l == 0 then some (record { size = 32; align = 8 }) else none

abbrev with_heap : Kernel → Kernel
with_heap k = record k {
  memory = record k.memory {
    heap = record {
      locked = false;
      value = record { start = 0x4000; end = 0x2_0000; next = 0x4000 };
    };
  };
}

-- A kernel before `init`, and after it.
abbrev no_tasks : Kernel
no_tasks = record (with_heap (kernel_of [])) { current = record { locked = false; value = none } }

abbrev one_task : Kernel
one_task = after no_tasks (init arc_layout growth 0xFFFF_8880_0000_5000 no_tasks)

one_task_made : init arc_layout growth 0xFFFF_8880_0000_5000 no_tasks ≡ ok (tt, one_task)
unfolding init
one_task_made = refl

abbrev one_tick : Kernel
one_tick = after one_task (tick one_task)

one_tick_made : tick one_task ≡ ok (tt, one_tick)
unfolding tick
one_tick_made = refl

Reach-IsSystem_example :
    (tasks : List TaskRef) × (current : TaskRef) × IsSystem one_tick tasks current
Reach-IsSystem_example =
    Reach-IsSystem {resume = 4096} {arc_layout = arc_layout} {growth = growth} (
      stepped (started 0xFFFF_8880_0000_5000 no_tasks one_task refl refl one_task_made)
        (ticked one_tick_made))

-- A kernel with room for one stack, one table and an `Arc`, in which a task is spawned.
abbrev roomy : Kernel
roomy = with_heap two_tasks

abbrev three_tasks : Kernel
three_tasks = after roomy (spawn arc_layout growth 0x7777 roomy)

three_tasks_made : spawn arc_layout growth 0x7777 roomy ≡ ok (tt, three_tasks)
unfolding spawn box_stack copy_idle duplicate_kernel enlist
three_tasks_made = refl

spawn-IsSpawned_example :
    (kstack table : VirtAddr) × IsSpawned roomy both
      (new_task_of roomy 0x7777 kstack table)
      three_tasks
spawn-IsSpawned_example =
    spawn-IsSpawned arc_layout growth 0x7777 roomy three_tasks both 0 refl refl refl
      three_tasks_made
