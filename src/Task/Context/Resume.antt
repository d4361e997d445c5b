-- ===== src/Task/Context/Resume.antt =====
-- `switch_inner` of kernel/src/task.rs, for a task that it left before and for a new one.
use noctis.Common.{ℕ, ◌+◌, ◌-◌, ◌*◌, ◌≤◌, ◌≡◌, ◌≢◌, ◌⊎◌, ◌∙◌, arith, true, Outcome, ok}
use noctis.MemLayout.{VirtAddr}
use noctis.Task.State.{TaskContext, TaskRef, Kernel}
use noctis.Task.Context.{
  write_word, flags_word, switch_inner, setup_initial_call, kernel_stack_size,
}

-- The stack words of a task that stopped at `rsp`, and those that a task at `rsp'` writes.
abbrev pub Apart : ℕ → ℕ → Type 0
Apart rsp rsp' = (rsp' + 8 ≤ rsp) ⊎ (rsp + 24 ≤ rsp')

-- The state that a call leaves.
abbrev pub after : {A : Type 0} → Kernel → Outcome (A × Kernel) → Kernel
after k (ok (_, k')) = k'
after k _ = k

module _ (resume : VirtAddr) (k1 k2 : Kernel) (a c : TaskRef) (c≢a : c ≢ a) where
  pub switch_inner-resumes :
      (ra : ℕ)
      → (k2.task_at a).value.context
        ≡ record k1.registers { rsp = k1.registers.rsp - 8; rflags = flags_word k1 }
      → 16 ≤ k1.registers.rsp
      → k2.words (k1.registers.rsp - 8) ≡ resume
      → k2.words k1.registers.rsp ≡ ra
      → Apart k1.registers.rsp k2.registers.rsp
      → (k : Kernel) × (switch_inner resume c a k2 ≡ ok (tt, k))
        × (k.registers ≡ record k1.registers { rsp = k1.registers.rsp + 8; rflags = flags_word k1 })
        × (k.rip ≡ ra)
        × (k.memory.cpu.interrupts ≡ k1.memory.cpu.interrupts)
  unfolding switch_inner
  switch_inner-resumes ra context room label return_address apart = (
    after k2 (switch_inner resume c a k2),
    ground arith,
    ground arith,
    ground arith,
    ground arith,
  )

  switch_inner-saves :
      (b : TaskRef)
      → a ≢ b
      → ((after k1 (switch_inner resume a b k1)).task_at a).value.context
        ≡ record k1.registers { rsp = k1.registers.rsp - 8; rflags = flags_word k1 }
  unfolding switch_inner
  switch_inner-saves b a≢b = ground arith

-- Task `a` is switched away to `b`, and later `c` switches to `a`. If `a`'s saved context and the two
-- words on its stack are still there, and `c` does not write them, `a` goes on behind its call of
-- `switch_inner`, with the registers, the stack pointer and the interrupt flag that it had.
pub there_and_back :
    (resume : VirtAddr) (k1 k2 : Kernel) (a b c : TaskRef) (ra : ℕ)
    → a ≢ b
    → c ≢ a
    → (k2.task_at a).value.context
      ≡ ((after k1 (switch_inner resume a b k1)).task_at a).value.context
    → 16 ≤ k1.registers.rsp
    → k2.words (k1.registers.rsp - 8) ≡ resume
    → k2.words k1.registers.rsp ≡ ra
    → Apart k1.registers.rsp k2.registers.rsp
    → (k : Kernel) × (switch_inner resume c a k2 ≡ ok (tt, k))
      × (k.registers ≡ record k1.registers { rsp = k1.registers.rsp + 8; rflags = flags_word k1 })
      × (k.rip ≡ ra)
      × (k.memory.cpu.interrupts ≡ k1.memory.cpu.interrupts)
there_and_back resume k1 k2 a b c ra a≢b c≢a context =
    switch_inner-resumes resume k1 k2 a c c≢a ra
      (context ∙ switch_inner-saves resume k1 k2 a c c≢a b a≢b)

-- The first switch to a task whose context `setup_initial_call` made, with its stack untouched and
-- `prev` writing elsewhere, jumps to the task's function with interrupts on.
pub switch_inner-starts :
    (resume : VirtAddr) (k k' k2 : Kernel) (old context : TaskContext) (kstack func : VirtAddr)
    (prev next : TaskRef)
    → prev ≢ next
    → setup_initial_call old kstack func k ≡ ok (context, k')
    → (k2.task_at next).value.context ≡ context
    → k2.words context.rsp ≡ k'.words context.rsp
    → Apart context.rsp k2.registers.rsp
    → func ≢ resume
    → (k3 : Kernel) × (switch_inner resume prev next k2 ≡ ok (tt, k3))
      × (k3.rip ≡ func)
      × (k3.memory.cpu.interrupts ≡ true)
unfolding switch_inner setup_initial_call
switch_inner-starts resume k k' k2 old context kstack func prev next ne made here kept apart other =
    (after k2 (switch_inner resume prev next k2), ground arith, ground arith, ground arith)

-- The initial stack pointer lies outside the block of the stack, whatever the block: `stack_top` is
-- stepped by elements of 8 bytes.
pub setup_initial_call-outside :
    (old : TaskContext) (kstack func : VirtAddr) (k : Kernel)
    → (context : TaskContext) × (k' : Kernel) × (setup_initial_call old kstack func k
        ≡ ok (context, k'))
      × (kstack + kernel_stack_size ≤ context.rsp)
      × (k'.words context.rsp ≡ func)
unfolding setup_initial_call
setup_initial_call-outside old kstack func k = (
  record old { rsp = kstack + 8 * kernel_stack_size - 8; rflags = 0x202 },
  record k { words = write_word k.words (kstack + 8 * kernel_stack_size - 8) func },
  ground arith,
  omega arith,
  ground arith,
)
