-- ===== src/Interrupt/Entry/Frame.antt =====
-- The frame that `interrupt_handler` of kernel/src/idt.rs is called with.
use noctis.Common.{
  ℕ, ◌+◌, ◌-◌, ◌*◌, ◌%◌, ◌≤◌, ◌≡◌, ◌≢◌, refl, ap, ◌∙◌, arith, List, ◌++◌, some, get_elem?, ◌==◌,
  if◌then◌else◌,
}
use noctis.Interrupt.Entry.{
  Register, rax, rcx, rdx, rbx, rsp, rbp, rsi, rdi, r8, r9, r10, r11, r12, r13, r14, r15, number,
  Processor, Instruction, push_number, step, run, interrupt_entry_without_ecode,
  interrupt_entry_with_ecode, save_registers, align_stack, InterruptStackFrame, read_frame,
  read_context,
}
use noctis.Interrupt.Entry.Bracket.{Fits, run-append}
use noctis.Interrupt.Entry.Saved.{push_number-ne, Called, align_stack-Called, pushes, order}
use noctis.Interrupt.Entry.Slots.{IsStored, pushes-IsStored}

-- The frame as it lies in memory: the registers in the order in which they were pushed last, which is not
-- that of the fields; the stack pointer among them is that of its own push.
abbrev pub frame_of : Processor → ℕ → ℕ → ℕ → InterruptStackFrame
frame_of p top index error_code = record {
  registers = record {
    rax = p.registers rax;
    rbx = p.registers rcx;
    rcx = p.registers rdx;
    rdx = p.registers rbx;
    rsi = top - 104;
    rdi = p.registers rbp;
    rbp = p.registers rsi;
    rsp = p.registers rdi;
    r8 = p.registers r8;
    r9 = p.registers r9;
    r10 = p.registers r10;
    r11 = p.registers r11;
    r12 = p.registers r12;
    r13 = p.registers r13;
    r14 = p.registers r14;
    r15 = p.registers r15;
  };
  vector = index;
  error_code = error_code;
  context = read_context p.words top;
}

module _ (s : Processor) (fits : Fits 160 s) where
  abbrev m : Processor
  m = run (pushes order) s

  abbrev c : Processor
  c = run align_stack m

  stored : IsStored order s m
  stored = pushes-IsStored order s (omega (arith, fits.0))

  called : Called m c
  called = align_stack-Called m (
    omega (arith, fits.0, stored.pointer),
    omega (arith, fits.1, stored.pointer),
    omega (arith, fits.2, stored.pointer),
  )

  -- The words of the frame, by the place of a register in the order of the pushes and in memory.
  slot_word :
      (i j : ℕ) (r : Register)
      → get_elem? order i ≡ some r
      → i + j ≡ 15
      → c.words (c.registers rdi + 8 * j)
        ≡ (if number r == 4 then s.registers rsp - 8 * i else s.registers r)
  slot_word i j r at sum =
      ap (λ (a : ℕ). c.words (a + 8 * j)) called.argument
      ∙ called.above (m.registers rsp + 8 * j) (omega arith)
      ∙ ap m.words (omega (arith, stored.pointer, fits.0))
      ∙ stored.slot i r at

  top_word : (j : ℕ) → c.words (c.registers rdi + (128 + 8 * j)) ≡ s.words (s.registers rsp + 8 * j)
  top_word j =
      ap (λ (a : ℕ). c.words (a + (128 + 8 * j))) called.argument
      ∙ called.above (m.registers rsp + (128 + 8 * j)) (omega arith)
      ∙ ap m.words (omega (arith, stored.pointer, fits.0))
      ∙ stored.above (s.registers rsp + 8 * j) (omega arith)

  context_word :
      (j : ℕ) → c.words (c.registers rdi + 144 + 8 * j) ≡ s.words (s.registers rsp + 16 + 8 * j)
  context_word j = ap c.words (omega arith) ∙ top_word (j + 2) ∙ ap s.words (omega arith)

  vector_word : c.words (c.registers rdi + 128) ≡ s.words (s.registers rsp)
  vector_word = ap c.words (omega arith) ∙ top_word 0 ∙ ap s.words (omega arith)

  rsp_word : c.words (c.registers rdi + 32) ≡ s.registers rsp + 16 - 104
  rsp_word = slot_word 11 4 rsp refl refl ∙ omega arith

  saved_frame :
      read_frame c.words (c.registers rdi)
      ≡ frame_of s
          (s.registers rsp + 16)
          (s.words (s.registers rsp))
          (s.words (s.registers rsp + 8))
  saved_frame = λ t. record {
    registers = record {
      rax = slot_word 15 0 rax refl refl t;
      rbx = slot_word 14 1 rcx refl refl t;
      rcx = slot_word 13 2 rdx refl refl t;
      rdx = slot_word 12 3 rbx refl refl t;
      rsi = rsp_word t;
      rdi = slot_word 10 5 rbp refl refl t;
      rbp = slot_word 9 6 rsi refl refl t;
      rsp = slot_word 8 7 rdi refl refl t;
      r8 = slot_word 7 8 r8 refl refl t;
      r9 = slot_word 6 9 r9 refl refl t;
      r10 = slot_word 5 10 r10 refl refl t;
      r11 = slot_word 4 11 r11 refl refl t;
      r12 = slot_word 3 12 r12 refl refl t;
      r13 = slot_word 2 13 r13 refl refl t;
      r14 = slot_word 1 14 r14 refl refl t;
      r15 = slot_word 0 15 r15 refl refl t;
    };
    vector = vector_word t;
    error_code = top_word 1 t;
    context = record {
      rip = context_word 0 t;
      cs = context_word 1 t;
      rflags = context_word 2 t;
      rsp = context_word 3 t;
      ss = context_word 4 t;
    };
  }

called_run :
    (stub : List Instruction) (p : Processor)
    → run (stub ++ save_registers ++ align_stack) p
      ≡ run align_stack (run (pushes order) (run stub p))
called_run stub p =
    run-append (stub ++ save_registers) align_stack p
    ∙ ap (run align_stack) (run-append stub save_registers p)

read_context-eq :
    (v w : ℕ → ℕ) (at : ℕ) → ((a : ℕ) → at ≤ a → v a ≡ w a) → read_context v at ≡ read_context w at
read_context-eq v w at same = λ t. record {
  rip = same (at + 0) (omega arith) t;
  cs = same (at + 8) (omega arith) t;
  rflags = same (at + 16) (omega arith) t;
  rsp = same (at + 24) (omega arith) t;
  ss = same (at + 32) (omega arith) t;
}

-- The call behind a stub.
abbrev pub CalledWith : List Instruction → Processor → InterruptStackFrame → Type 0
CalledWith stub p frame =
    ((run (stub ++ save_registers ++ align_stack) p).registers rsp % 16 ≡ 0)
    × (read_frame (run (stub ++ save_registers ++ align_stack) p).words
          ((run (stub ++ save_registers ++ align_stack) p).registers rdi)
        ≡ frame)

called_with :
    (stub : List Instruction) (p : Processor)
    → Fits 160 (run stub p)
    → CalledWith stub p (
        frame_of
          (run stub p)
          ((run stub p).registers rsp + 16)
          ((run stub p).words ((run stub p).registers rsp))
          ((run stub p).words ((run stub p).registers rsp + 8)))
called_with stub p fits =
    let e = called_run stub p in
    (
      ap (λ (x : Processor). x.registers rsp % 16) e ∙ (called (run stub p) fits).aligned,
      ap (λ (x : Processor). read_frame x.words (x.registers rdi)) e
          ∙ saved_frame (run stub p) fits,
    )

without_ecode-Fits :
    (index : ℕ) (p : Processor)
    → Fits 176 p
    → Fits 160 (run (interrupt_entry_without_ecode index) p)
unfolding run
without_ecode-Fits index p fits = omega (arith, fits.0, fits.1, fits.2)

with_ecode-Fits :
    (index : ℕ) (p : Processor) → Fits 176 p → Fits 160 (run (interrupt_entry_with_ecode index) p)
unfolding run
with_ecode-Fits index p fits = omega (arith, fits.0, fits.1, fits.2)

-- A frame is given by its registers other than the stack pointer, and by its other parts.
frame_of-eq :
    (p q : Processor) (top top' index index' code code' : ℕ)
    → ((r : Register) → r ≢ rsp → q.registers r ≡ p.registers r)
    → top' ≡ top
    → index' ≡ index
    → code' ≡ code
    → ((a : ℕ) → top ≤ a → q.words a ≡ p.words a)
    → frame_of q top' index' code' ≡ frame_of p top index code
frame_of-eq p q top top' index index' code code' same e1 e2 e3 above = λ t. record {
  registers = record {
    rax = same rax (λ e. cc) t;
    rbx = same rcx (λ e. cc) t;
    rcx = same rdx (λ e. cc) t;
    rdx = same rbx (λ e. cc) t;
    rsi = ap (λ (a : ℕ). a - 104) e1 t;
    rdi = same rbp (λ e. cc) t;
    rbp = same rsi (λ e. cc) t;
    rsp = same rdi (λ e. cc) t;
    r8 = same r8 (λ e. cc) t;
    r9 = same r9 (λ e. cc) t;
    r10 = same r10 (λ e. cc) t;
    r11 = same r11 (λ e. cc) t;
    r12 = same r12 (λ e. cc) t;
    r13 = same r13 (λ e. cc) t;
    r14 = same r14 (λ e. cc) t;
    r15 = same r15 (λ e. cc) t;
  };
  vector = e2 t;
  error_code = e3 t;
  context = (ap (read_context q.words) e1 ∙ read_context-eq q.words p.words top above) t;
}

without_ecode-frame_of :
    (index : ℕ) (p : Processor)
    → Fits 176 p
    → (let s = run (interrupt_entry_without_ecode index) p in
        frame_of s
          (s.registers rsp + 16)
          (s.words (s.registers rsp))
          (s.words (s.registers rsp + 8))
        ≡ frame_of p (p.registers rsp) index 0)
unfolding run
without_ecode-frame_of index p fits =
    frame_of-eq p (run (interrupt_entry_without_ecode index) p) (p.registers rsp)
      (p.registers rsp - 8 - 8 + 16) index _ 0 _
      (λ r ne. push_number-ne index r (step (push_number 0) p) ne ∙ push_number-ne 0 r p ne)
      (omega (arith, fits.0)) (ground arith) (ground (arith, fits.0))
      (λ a h. ground (arith, fits.0))

with_ecode-frame_of :
    (index : ℕ) (p : Processor)
    → Fits 176 p
    → (let s = run (interrupt_entry_with_ecode index) p in
        frame_of s
          (s.registers rsp + 16)
          (s.words (s.registers rsp))
          (s.words (s.registers rsp + 8))
        ≡ frame_of p (p.registers rsp + 8) index (p.words (p.registers rsp)))
unfolding run
with_ecode-frame_of index p fits =
    frame_of-eq p (run (interrupt_entry_with_ecode index) p) (p.registers rsp + 8)
      (p.registers rsp - 8 + 16) index _ (p.words (p.registers rsp)) _
      (λ r ne. push_number-ne index r p ne) (omega (arith, fits.0)) (ground arith)
      (ground (
        arith,
        fits.0,
        ap p.words {x = p.registers rsp - 8 + 8} {y = p.registers rsp} (omega (arith, fits.0)),
      ))
      (λ a h. ground (arith, fits.0))

-- With room on a stack that lies on 8 bytes, both kinds of stub, the pushes and the alignment call the
-- handler with the stack pointer on 16 bytes and with the address of a frame that holds the vector, the
-- error code, which is 0 where the processor pushes none, the words that the processor pushed, and the
-- registers. These lie in the order of the pushes: `rbx`, `rcx`, `rdx`, `rsi`, `rdi`, `rbp` and `rsp` of
-- the frame are read as others.
pub called_frame :
    (index : ℕ) (p : Processor)
    → Fits 176 p
    → CalledWith (interrupt_entry_without_ecode index) p (frame_of p (p.registers rsp) index 0)
      × CalledWith
          (interrupt_entry_with_ecode index)
          p
          (frame_of p (p.registers rsp + 8) index (p.words (p.registers rsp)))
called_frame index p fits =
    let (aligned1, frame1) =
      called_with (interrupt_entry_without_ecode index) p (without_ecode-Fits index p fits) in
    let (aligned2, frame2) =
      called_with (interrupt_entry_with_ecode index) p (with_ecode-Fits index p fits) in
    (
      (aligned1, frame1 ∙ without_ecode-frame_of index p fits),
      (aligned2, frame2 ∙ with_ecode-frame_of index p fits),
    )
