-- ===== src/Task/Context.antt =====
-- The stack of a new task and the switch of the registers, in kernel/src/task.rs.
pub mod Resume
use noctis.Common.{ℕ, ◌+◌, ◌-◌, ◌*◌, ◌/◌, ◌%◌, ◌^◌, Bool, Outcome, ok, ◌==◌, if◌then◌else◌}
use noctis.Spin.{Cpu}
use noctis.MemLayout.{VirtAddr}
use noctis.Task.State.{
  TaskContext, TaskRef, Kernel, K, update, pure, ◌>>=◌, ◌>>◌, set_cpu, enable_interrupts,
}

abbrev pub kernel_stack_size : ℕ
kernel_stack_size = 4096 * 4

abbrev pub write_word : (VirtAddr → ℕ) → VirtAddr → ℕ → VirtAddr → ℕ
write_word words at value p = if p == at then value else words p

-- `push_stack`: a `*mut u64` goes down by 8 bytes.
unfoldable pub push_stack : VirtAddr → ℕ → K VirtAddr
push_stack rsp value k = ok (rsp - 8, record k { words = write_word k.words (rsp - 8) value })

-- The source steps a `*mut u64` by `KERNEL_STACK_SIZE`, which counts elements of 8 bytes.
unfoldable pub setup_initial_call : TaskContext → VirtAddr → VirtAddr → K TaskContext
unfolding push_stack
setup_initial_call self kstack func = do
  stack_top ← push_stack (kstack + 8 * kernel_stack_size) func
  pure (record self { rsp = stack_top; rflags = 0x202 })

-- The `rflags` register, with the interrupt flag (bit 9) where the CPU keeps it.
abbrev pub flags_word : Kernel → ℕ
flags_word k =
    k.registers.rflags / 1024 * 1024
    + (if k.memory.cpu.interrupts then 512 else 0)
    + k.registers.rflags % 512

-- `popfq` of the word `flags`.
abbrev pub pop_flags : ℕ → Kernel → Kernel
pop_flags flags k =
    set_cpu (record { interrupts = flags / 512 % 2 == 1 })
      (record k { registers = record k.registers { rflags = flags } })

-- `ret`
unfoldable pub ret : K (Unit {0})
ret k = ok (
  tt,
  record k {
    rip = k.words k.registers.rsp;
    registers = record k.registers { rsp = k.registers.rsp + 8 };
  },
)

abbrev set_context : TaskRef → TaskContext → Kernel → Kernel
set_context t c k =
    let l = k.task_at t in
    record k { task_at = update k.task_at t (record l { value = record l.value { context = c } }) }

-- `resume` is the address of the label `2:` of `switch_inner`.
module _ (resume : VirtAddr) where
  -- The first half: the address of the label on the stack, the registers into `*current`.
  unfoldable pub save_context : TaskRef → K (Unit {0})
  save_context current k =
      let rsp : ℕ = k.registers.rsp - 8 in
      let flags : ℕ = flags_word k in
      let words = write_word (write_word k.words rsp resume) (rsp - 8) flags in
      ok (
        tt,
        set_context current (record k.registers { rsp = rsp; rflags = flags })
            (record k { words = words; registers = record k.registers { rsp = rsp } }),
      )

  -- The second half: the registers from `*next`, its flags by `push` and `popfq`, and `ret`.
  unfoldable pub load_context : TaskRef → K (Unit {0})
  unfolding ret
  load_context next k =
      let c : TaskContext = (k.task_at next).value.context in
      ret (
        pop_flags c.rflags
          (record k { words = write_word k.words (c.rsp - 8) c.rflags; registers = c }))

  -- A task that was switched away before goes on at the label, with a second `ret`.
  unfoldable pub switch_inner : TaskRef → TaskRef → K (Unit {0})
  unfolding save_context load_context ret
  switch_inner current next = do
    save_context current
    load_context next
    λ k. if k.rip == resume then ret k else ok (tt, k)
