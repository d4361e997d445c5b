-- ===== src/Task/Scheduler/System.antt =====
-- What holds of the scheduler's state between two calls, and how `switch` and `init` keep it.
use noctis.Common.{
  ℕ, zero, suc, ◌+◌, ◌%◌, ◌<◌, ◌≡◌, ◌≢◌, refl, sym, ap, ◌∙◌, arith, false, Option, none, some, List,
  [], ◌∷◌, ok, diverge, length, get_elem?, get_elem?-lt, ◌==◌, ℕ_discrete, inl, inr,
}
use noctis.Spin.{SpinLock}
use noctis.MemLayout.{VirtAddr, PhysAddr, virt_to_phys}
use noctis.Task.State.{TaskRef, Kernel}
use noctis.Task.Scheduler.{position, choose, switch}
use noctis.Task.Scheduler.RoundRobin.{AllFree, on, IsSearched}
use noctis.Task.Scheduler.Handover.{IsHandedOver, switch_to-IsHandedOver}
use noctis.Task.Scheduler.Switch.{
  IsQuiet, begun, choose-IsSearched, switch_to_self, position-get_elem?,
}
use noctis.Task.Scheduler.Turn.{switch-none, switch-some, on-IsHandedOver}

-- All locks are free, the tasks of the list have addresses in use, the current task is one of them,
-- and it alone is marked as running.
pub record IsSystem (k : Kernel) (tasks : List TaskRef) (current : TaskRef) : Type 0 where
  pub tasks_free : k.tasks ≡ record { locked = false; value = tasks }
  pub current_free : k.current ≡ record { locked = false; value = some current }
  pub all_free : AllFree k tasks
  pub in_use : (i t : ℕ) → get_elem? tasks i ≡ some t → t < k.next_ref
  pub place : (c : ℕ) × (position current tasks ≡ some c)
  pub running :
      (i t : ℕ) → get_elem? tasks i ≡ some t → (k.task_at t).value.running ≡ (t == current)

pub get_elem?-position :
    (l : List TaskRef) (i t : ℕ) → get_elem? l i ≡ some t → (c : ℕ) × (position t l ≡ some c)
unfolding position
get_elem?-position [] i t e = cc
get_elem?-position (u ∷ l) zero t e = (0, ground arith)
get_elem?-position (u ∷ l) (suc i) t e =
    let (c, found) = get_elem?-position l i t e in
    elim (ℕ_discrete u t) [
      | yes same ↦ (0, ground arith)
      | no other ↦ (c + 1, ground (arith, found))
    ]

module _ {k : Kernel} {tasks : List TaskRef} {current : TaskRef}
    (s : IsSystem k tasks current) where
  pub IsSystem-IsQuiet : IsQuiet k tasks current s.place.0
  IsSystem-IsQuiet = record {
    tasks_free = s.tasks_free;
    current_free = s.current_free;
    all_free = s.all_free;
    place = s.place.1;
    in_range =
        get_elem?-lt tasks s.place.0 current (position-get_elem? current tasks s.place.0 s.place.1);
  }

  pub IsSystem-chosen :
      (r : Option TaskRef) × (choose (begun k) ≡ ok ((current, r), on (begun k)))
      × IsSearched k tasks ((s.place.0 + 1) % length tasks) (length tasks) r
  IsSystem-chosen = choose-IsSearched (begun k) tasks current s.place.0 (record {
    tasks_free = s.tasks_free;
    current_free = s.current_free;
    all_free = s.all_free;
    place = s.place.1;
    in_range = IsSystem-IsQuiet.in_range;
  })

  pub current-free : (k.task_at current).locked ≡ false
  current-free = s.all_free s.place.0 current (position-get_elem? current tasks s.place.0 s.place.1)

  -- A task that is handed the CPU is the one that runs.
  pub IsHandedOver-IsSystem :
      (i t : ℕ) (phys : PhysAddr) (k' : Kernel)
      → get_elem? tasks i ≡ some t
      → t ≢ current
      → IsHandedOver k current t phys k'
      → IsSystem k' tasks t
  IsHandedOver-IsSystem i t phys k' at ne h = record {
    tasks_free = h.queue ∙ s.tasks_free;
    current_free = h.current;
    all_free = λ j u e. elim (ℕ_discrete u t) [
      | yes same ↦ rw same h.next_free
      | no other ↦ elim (ℕ_discrete u current) [
        | yes before ↦ rw before h.prev_free
        | no apart ↦ rw (h.others u apart other) (s.all_free j u e)
      ]
    ];
    in_use = λ j u e. rw h.refs (s.in_use j u e);
    place = get_elem?-position tasks i t at;
    running = λ j u e. elim (ℕ_discrete u t) [
      | yes same ↦ rw (same, h.starts) (ground arith)
      | no other ↦ elim (ℕ_discrete u current) [
        | yes before ↦ rw (before, h.stops) (ground arith)
        | no apart ↦ rw (h.others u apart other) (rw (s.running j u e) (ground arith))
      ]
    ];
  }

pub IsSearched-mem :
    (k : Kernel) (tasks : List TaskRef) (i n : ℕ) (t : TaskRef)
    → IsSearched k tasks i n (some t)
    → (j : ℕ) × (get_elem? tasks j ≡ some t)
IsSearched-mem k tasks i n t (inl (u, d, e, lt, first)) =
    ((i + d) % length tasks, ground (arith, first.found))
IsSearched-mem k tasks i n t (inr (e, h)) = cc

-- `switch` on a system with the current task at place `c` of the list, on each outcome of a search
-- in cyclic order from the place behind it. Where no task can run, the ticks are reset,
-- interrupts are on, whatever they were before, and nothing else changes; where the current task is found, `switch` never returns; where another task is
-- found, with a page table that `virt_to_phys` translates, that task runs in place of the current one,
-- and what holds of the scheduler's state holds again.
pub switch_lem :
    (resume : VirtAddr) (k : Kernel) (tasks : List TaskRef) (current : TaskRef)
    (s : IsSystem k tasks current)
    → (r : Option TaskRef) × IsSearched k tasks ((s.place.0 + 1) % length tasks) (length tasks) r
      × (r ≡ none → switch resume k ≡ ok (tt, on (begun k)))
      × (r ≡ some current → switch resume k ≡ diverge)
      × ((t : TaskRef) (table : VirtAddr) (phys : PhysAddr)
          → r ≡ some t
          → t ≢ current
          → (k.task_at t).value.page_table ≡ some table
          → virt_to_phys table ≡ ok phys
          → (k' : Kernel) × (switch resume k ≡ ok (tt, k'))
            × IsHandedOver k current t phys k'
            × IsSystem k' tasks t)
switch_lem resume k tasks current s =
    let (r, chosen, searched) = IsSystem-chosen s in
    let free = current-free s in
    (
      r,
      searched,
      λ e. switch-none resume k current chosen e,
      λ e.
          switch-some resume k current chosen current e
          ∙ rw (switch_to_self resume current (on (begun k)) free) refl,
      λ t table phys e ne has translated.
          let (i, at) = IsSearched-mem k tasks _ _ t (rw e at searched) in
          let (k1, run, h) =
            switch_to-IsHandedOver resume (on (begun k)) current t table phys (λ x. ne (sym x)) free
              (s.all_free i t at) (ap SpinLock.locked s.current_free) has translated in
          let h' = on-IsHandedOver k k1 current t phys h in
          (
            on k1,
            switch-some resume k current chosen t e ∙ rw run refl,
            h',
            IsHandedOver-IsSystem s i t phys (on k1) at ne h',
          ),
    )
