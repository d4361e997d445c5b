-- ===== src/Task/Scheduler/Switch.antt =====
-- `switch` of kernel/src/task.rs: which task it chooses, and a task that is chosen again.
use noctis.Common.{
  ℕ, zero, suc, ◌+◌, ◌-◌, ◌%◌, ◌<◌, ◌≡◌, ◌≢◌, ap, ◌∙◌, inl, inr, arith, true, false, Option, some,
  List, [], ◌∷◌, ok, diverge, length, get_elem?, Option-cases, ℕ_discrete,
}
use native.Mathlib.Nat.{mod-lt, mod-add-mod, mod-eq_of_lt, add-mod_right}
use noctis.Task.State.{runnable, stopped, TaskRef, Kernel, set_cpu}
use noctis.Task.Scheduler.{position, choose, switch_to, switch}
use noctis.Task.Scheduler.RoundRobin.{AllFree, state_at, on, IsSearched, find_runnable-IsSearched}

-- The scheduler's locks are free, and the current task stands at place `c` of the list.
pub record IsQuiet (k : Kernel) (tasks : List TaskRef) (current : TaskRef) (c : ℕ) : Type 0 where
  pub tasks_free : k.tasks ≡ record { locked = false; value = tasks }
  pub current_free : k.current ≡ record { locked = false; value = some current }
  pub all_free : AllFree k tasks
  pub place : position current tasks ≡ some c
  pub in_range : c < length tasks

pub choose-IsSearched :
    (k : Kernel) (tasks : List TaskRef) (current : TaskRef) (c : ℕ)
    → IsQuiet k tasks current c
    → (r : Option TaskRef) × (choose k ≡ ok ((current, r), on k))
      × IsSearched k tasks ((c + 1) % length tasks) (length tasks) r
unfolding choose
choose-IsSearched k tasks current c q =
    let start : ℕ = (c + 1) % length tasks in
    let (r, k', run, same, searched) =
      find_runnable-IsSearched tasks ((c + 1) % length tasks)
        (record (on k) { tasks = record { locked = true; value = tasks } })
        (mod-lt (c + 1) (omega arith)) q.all_free in
    (r, ground (arith, run, same, q.tasks_free, q.current_free, q.place), searched)

pub position-get_elem? :
    (t : TaskRef) (l : List TaskRef) (c : ℕ) → position t l ≡ some c → get_elem? l c ≡ some t
unfolding position
position-get_elem? t [] c e = cc
position-get_elem? t (u ∷ l) zero e = elim (Option-cases (position t l)) [
  | inl n ↦ ground (arith, n)
  | inr (i, s) ↦ ground (arith, s)
]
position-get_elem? t (u ∷ l) (suc c) e = elim (Option-cases (position t l)) [
  | inl n ↦ ground (arith, n)
  | inr (i, s) ↦ ground (arith, s, position-get_elem? t l c)
]

-- Offset `n - 1` from the place behind `c` is `c`.
full_circle : (c n : ℕ) → c < n → ((c + 1) % n + (n - 1)) % n ≡ c
full_circle c n h =
    mod-add-mod (c + 1) n (n - 1)
    ∙ ap (λ (x : ℕ). x % n) {y = c + n} (omega arith)
    ∙ add-mod_right c n
    ∙ mod-eq_of_lt h

pub switch_to_self :
    (resume : ℕ) (t : TaskRef) (k : Kernel)
    → (k.task_at t).locked ≡ false
    → switch_to resume t t k ≡ diverge
unfolding switch_to
switch_to_self resume t k free = ground arith

-- Where `switch` begins to choose: interrupts off, ticks at 0.
abbrev pub begun : Kernel → Kernel
begun k = set_cpu (record { interrupts = false }) (record k { ticks = 0 })

module _ (resume : ℕ) (k : Kernel) (tasks : List TaskRef) (current : TaskRef) (c : ℕ)
    (q : IsQuiet k tasks current c) where
  clash : (t : TaskRef) → state_at k t ≡ runnable → state_at k t ≡ stopped → ⊥
  clash t a b = cc

  chosen_alone :
      state_at k current ≡ runnable
      → ((i t : ℕ) → get_elem? tasks i ≡ some t → t ≢ current → state_at k t ≡ stopped)
      → {r : Option TaskRef} → IsSearched k tasks ((c + 1) % length tasks) (length tasks) r
      → r ≡ some current
  chosen_alone ready others (inl (t, d, e, lt, first)) = elim (ℕ_discrete t current) [
    | yes same ↦ e ∙ ap some same
    | no other ↦ absurd (
        clash t first.ready
          (others (((c + 1) % length tasks + d) % length tasks) t first.found other))
  ]
  chosen_alone ready others (inr (e, h)) = absurd (
      clash current ready (
        h (length tasks - 1) current (omega (arith, q.in_range)) (
          ap (get_elem? tasks) (full_circle c (length tasks) q.in_range)
          ∙ position-get_elem? current tasks c q.place)))

  -- With the scheduler's locks free and the current task in the list, where the current task is
  -- runnable and every other task of the list is stopped, `switch` never returns: it chooses the
  -- current task again and spins on the lock that it holds itself.
  pub switch-alone :
      state_at k current ≡ runnable
      → ((i t : ℕ) → get_elem? tasks i ≡ some t → t ≢ current → state_at k t ≡ stopped)
      → switch resume k ≡ diverge
  unfolding switch
  switch-alone ready others =
      let (r, chosen, searched) = choose-IsSearched (begun k) tasks current c quiet in
      let only = chosen_alone ready others searched in
      let free = q.all_free c current (position-get_elem? current tasks c q.place) in
      ground (arith, chosen, only, switch_to_self resume current (on (begun k)) free)
    where
      quiet : IsQuiet (begun k) tasks current c
      quiet = record {
        tasks_free = q.tasks_free;
        current_free = q.current_free;
        all_free = q.all_free;
        place = q.place;
        in_range = q.in_range;
      }
