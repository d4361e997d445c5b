-- ===== src/Task/Scheduler/RoundRobin.antt =====
-- The search of `switch` in kernel/src/task.rs, over the tasks in cyclic order.
use noctis.Common.{
  ℕ, zero, suc, ◌+◌, ◌-◌, ◌%◌, ◌≤◌, ◌<◌, ◌≡◌, ◌≢◌, refl, sym, ap, ◌∙◌, dec_lt, ℕ_discrete, ◌⊎◌, inl,
  inr, arith, true, false, Option, none, some, List, [], ◌∷◌, ok, length, get_elem?,
}
use mathlib.Core.Path.{fun_ext}
use native.Mathlib.Nat.{mod-add-mod, mod-eq-sub-mod, mod-eq_of_lt, mod-lt, add-mod_right}
use Prim.Native.Nat.{pred}
use noctis.Spin.{SpinLock}
use noctis.Task.State.{TaskState, runnable, stopped, Task, TaskRef, Kernel, set_cpu, update}
use noctis.Task.Scheduler.{state_of, find_runnable}

-- Every task of the list has a free lock.
abbrev pub AllFree : Kernel → List TaskRef → Type 0
AllFree k tasks = (i t : ℕ) → get_elem? tasks i ≡ some t → (k.task_at t).locked ≡ false

abbrev pub state_at : Kernel → TaskRef → TaskState
state_at k t = (k.task_at t).value.state

-- What a look at a free task leaves: the interrupts are on.
abbrev pub on : Kernel → Kernel
on = set_cpu (record { interrupts = true })

freed : SpinLock Task → SpinLock Task
freed l = record l { locked = false }

update-back :
    (f : TaskRef → SpinLock Task) (t : TaskRef) (l : SpinLock Task)
    → (f t).locked ≡ false
    → update (update f t l) t (freed (f t)) ≡ f
unfolding freed
update-back f t l free = fun_ext λ q. ground arith

state_of-free :
    (k : Kernel) (t : TaskRef)
    → (k.task_at t).locked ≡ false
    → state_of t k ≡ ok (state_at k t, on k)
unfolding state_of freed
state_of-free k t free = rw free (
    ap (λ (f : TaskRef → SpinLock Task). ok (state_at k t, record (on k) { task_at = f }))
      (update-back k.task_at t (record { locked = true; value = (k.task_at t).value }) free))

-- What the search returns: the first runnable task at or behind place `i` in cyclic order, before
-- `start` comes again; `d` is how far it went.
pub record IsFirst (state : TaskRef → TaskState) (tasks : List TaskRef) (i d : ℕ) (t : TaskRef)
    : Type 0 where
  pub found : get_elem? tasks ((i + d) % length tasks) ≡ some t
  pub ready : state t ≡ runnable
  pub earlier :
      (e : ℕ) (u : TaskRef)
      → e < d
      → get_elem? tasks ((i + e) % length tasks) ≡ some u
      → state u ≡ stopped

-- No task at the `left` places from `i` on is runnable.
abbrev pub NoneReady : (TaskRef → TaskState) → List TaskRef → ℕ → ℕ → Type 0
NoneReady state tasks i left =
    (e : ℕ) (u : TaskRef)
    → e < left
    → get_elem? tasks ((i + e) % length tasks) ≡ some u
    → state u ≡ stopped

get_elem?-below :
    {A : Type 0} (l : List A) (i : ℕ) → i < length l → (a : A) × (get_elem? l i ≡ some a)
get_elem?-below [] i h = absurd (omega arith)
get_elem?-below (x ∷ l) zero h = (x, refl)
get_elem?-below (x ∷ l) (suc i) h = get_elem?-below l i (omega arith)

-- One step of the search, on each branch.
module _ (fuel : ℕ) (tasks : List TaskRef) (i start : ℕ) (k : Kernel) (t : TaskRef)
    (here : get_elem? tasks i ≡ some t) (free : (k.task_at t).locked ≡ false) where
  step-runnable :
      state_at k t ≡ runnable → find_runnable (suc fuel) tasks i start k ≡ ok (some t, on k)
  unfolding find_runnable
  step-runnable ready = ground (arith, state_of-free k t free)

  step-last :
      state_at k t ≡ stopped
      → (i + 1) % length tasks ≡ start
      → find_runnable (suc fuel) tasks i start k ≡ ok (none, on k)
  unfolding find_runnable
  step-last idle back = ground (arith, state_of-free k t free)

  step-next :
      state_at k t ≡ stopped
      → (i + 1) % length tasks ≢ start
      → find_runnable (suc fuel) tasks i start k
        ≡ find_runnable fuel tasks ((i + 1) % length tasks) start (on k)
  unfolding find_runnable
  step-next idle back = ground (arith, state_of-free k t free)

next_place : (i e n : ℕ) → ((i + 1) % n + e) % n ≡ (i + (e + 1)) % n
next_place i e n = mod-add-mod (i + 1) n e ∙ ap (λ (x : ℕ). x % n) (omega arith)

last_place : (i left n : ℕ) → i < n → 0 < left → left ≤ n → (i + 1) % n ≡ (i + left) % n → left ≡ 1
last_place i left n h pos le e = elim (dec_lt (i + left) n) [
  | yes ahead ↦ omega (
    arith,
    mod-eq_of_lt {n = i + left} {m = n} ahead,
    mod-eq_of_lt {n = i + 1} {m = n} (omega arith),
  )
  | no wrapped ↦ elim (dec_lt (i + 1) n) [
    | yes short ↦ omega (arith, mod-eq_of_lt {n = i + 1} {m = n} short, turn (omega arith))
    | no long ↦ omega (
      arith,
      mod-eq-sub-mod {n = i + 1} {m = n} (omega arith),
      mod-eq_of_lt {n = i + 1 - n} {m = n} (omega arith),
      turn (omega arith),
    )
  ]
]
  where
    turn : n ≤ i + left → (i + left) % n ≡ i + left - n
    turn q = mod-eq-sub-mod {n = i + left} {m = n} q ∙ mod-eq_of_lt (omega arith)

some-eq : {a b : ℕ} → some a ≡ some b → a ≡ b
some-eq e = cc

state-cases : (s : TaskState) → (s ≡ runnable) ⊎ (s ≡ stopped)
state-cases runnable = inl refl
state-cases stopped = inr refl

module _ (k : Kernel) (tasks : List TaskRef) (i : ℕ) (t : TaskRef) (here : i < length tasks)
    (at_i : get_elem? tasks i ≡ some t) where
  at_zero : get_elem? tasks ((i + 0) % length tasks) ≡ some t
  at_zero =
      let e : (i + 0) % length tasks ≡ i =
        ap (λ (x : ℕ). x % length tasks) (omega arith) ∙ mod-eq_of_lt here in
      rw e at_i

  extend :
      (m : ℕ)
      → state_at k t ≡ stopped
      → NoneReady (state_at k) tasks ((i + 1) % length tasks) m
      → NoneReady (state_at k) tasks i (suc m)
  extend m idle h zero u lt at_u = let e : t ≡ u = some-eq (sym at_zero ∙ at_u) in rw (← e) idle
  extend m idle h (suc e) u lt at_u = h e u (omega arith) (
      ap (get_elem? tasks)
        (next_place i e (length tasks) ∙ ap (λ (x : ℕ). (i + x) % length tasks) (omega arith))
      ∙ at_u)

-- What the search over `left` places from `i` on returns.
abbrev pub IsSearched : Kernel → List TaskRef → ℕ → ℕ → Option TaskRef → Type 0
IsSearched k tasks i left r =
    ((t : TaskRef) × (d : ℕ) × (r ≡ some t) × (d < left) × IsFirst (state_at k) tasks i d t)
    ⊎ ((r ≡ none) × NoneReady (state_at k) tasks i left)

grow :
    (k : Kernel) (tasks : List TaskRef) (i : ℕ) (t : TaskRef) (m : ℕ) (r : Option TaskRef)
    → i < length tasks
    → get_elem? tasks i ≡ some t
    → state_at k t ≡ stopped
    → IsSearched k tasks ((i + 1) % length tasks) m r
    → IsSearched k tasks i (suc m) r
grow k tasks i t m r here at_i idle (inl (u, d, e, lt, first)) = inl (
  u,
  suc d,
  e,
  omega arith,
  record {
    found =
        ap (get_elem? tasks) (
          ap (λ (x : ℕ). (i + x) % length tasks) {y = d + 1} (omega arith)
          ∙ sym (next_place i d (length tasks)))
        ∙ first.found;
    ready = first.ready;
    earlier = extend k tasks i t here at_i d idle first.earlier;
  },
)
grow k tasks i t m r here at_i idle (inr (e, h)) = inr (e, extend k tasks i t here at_i m idle h)

module _ (tasks : List TaskRef) (start : ℕ) (in_range : start < length tasks) where
  search :
      (fuel i left : ℕ) (k : Kernel)
      → AllFree k tasks
      → left ≤ fuel
      → 0 < left
      → left ≤ length tasks
      → i < length tasks
      → (i + left) % length tasks ≡ start
      → (r : Option TaskRef) × (k' : Kernel) × (find_runnable fuel tasks i start k ≡ ok (r, k'))
        × (k' ≡ on k)
        × IsSearched k tasks i left r
  search zero i left k free le pos small here back = absurd (omega arith)
  search (suc fuel) i zero k free le pos small here back = absurd (omega arith)
  search (suc fuel) i (suc m) k free le pos small here back =
      let (t, at_i) = get_elem?-below tasks i here in
      let unlocked = free i t at_i in
      elim (state-cases (state_at k t)) [
        | inl ready ↦ (
          some t,
          on k,
          step-runnable fuel tasks i start k t at_i unlocked ready,
          refl,
          inl (
            t,
            0,
            refl,
            pos,
            record {
              found = at_zero k tasks i t here at_i;
              ready = ready;
              earlier = λ e u lt. absurd (omega arith);
            },
          ),
        )
        | inr idle ↦ elim (ℕ_discrete ((i + 1) % length tasks) start) [
          | yes back_at_start ↦
              let one : m ≡ 0 =
                ap pred
                  (last_place i (suc m) (length tasks) here pos small (back_at_start ∙ sym back)) in
              (
                none,
                on k,
                step-last fuel tasks i start k t at_i unlocked idle back_at_start,
                refl,
                inr (
                  refl,
                  rw one (extend k tasks i t here at_i 0 idle (λ e u lt. absurd (omega arith))),
                ),
              )
          | no ahead ↦
              let n = length tasks in
              let ne : m ≢ 0 =
                λ e. ahead (ap (λ (x : ℕ). (i + x) % n) {x = 1} {y = suc m} (omega arith) ∙ back) in
              let (r, k', run, same, searched) =
                search fuel ((i + 1) % n) m (on k) free (omega arith) (omega arith) (omega arith)
                  (mod-lt (i + 1) (omega arith))
                  (next_place i m n
                    ∙ ap (λ (x : ℕ). (i + x) % n) {y = suc m} (omega arith)
                    ∙ back) in
              (
                r,
                k',
                step-next fuel tasks i start k t at_i unlocked idle ahead ∙ run,
                same,
                grow k tasks i t m r here at_i idle searched,
              )
        ]
      ]

-- From a `start` inside the list, with every task's lock free and a round for each task,
-- `find_runnable` ends; it leaves the kernel as it was but for the interrupts, which are on, and returns
-- the first runnable task at or behind `start` in cyclic order, or `none` where no task of
-- the list is runnable.
pub find_runnable-IsSearched :
    (tasks : List TaskRef) (start : ℕ) (k : Kernel)
    → start < length tasks
    → AllFree k tasks
    → (r : Option TaskRef) × (k' : Kernel) × (find_runnable (length tasks) tasks start start k
        ≡ ok (r, k'))
      × (k' ≡ on k)
      × IsSearched k tasks start (length tasks) r
find_runnable-IsSearched tasks start k in_range free =
    search tasks start in_range (length tasks) start (length tasks) k free (omega arith)
      (omega arith) (omega arith) in_range
      (add-mod_right start (length tasks) ∙ mod-eq_of_lt in_range)
