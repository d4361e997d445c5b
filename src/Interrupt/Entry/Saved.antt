-- ===== src/Interrupt/Entry/Saved.antt =====
-- What the entry stubs of kernel/src/idt.rs save, pass on and restore.
use noctis.Common.{
  ℕ, ◌+◌, ◌-◌, ◌*◌, ◌/◌, ◌%◌, ◌≤◌, ◌≡◌, ◌≢◌, refl, ap, ◌∙◌, arith, true, List, [], ◌∷◌, ◌++◌,
  ℕ_discrete,
}
use noctis.Common.Bits.{bit_and-high}
use noctis.Interrupt.Entry.{
  Register, rax, rcx, rdx, rbx, rsp, rbp, rsi, rdi, r8, r9, r10, r11, r12, r13, r14, r15, number,
  Processor, push_word, Function, Instruction, push, pop, push_number, load_rsp, add_rsp, call,
  step, run, interrupt_entry_without_ecode, interrupt_entry_with_ecode, align_stack, common_path,
}
use noctis.Interrupt.Entry.Bracket.{
  run-append, KeepsStack, bracket, listed, same_number, Fits, bracket-Restores,
}

-- What `interrupt_handler` is called with: the frame's address in `rdi`, the stack pointer on 16 bytes
-- below the frame, above it the word that leads back to the frame, and the frame as it was.
pub record Called (p c : Processor) : Type 0 where
  pub argument : c.registers rdi ≡ p.registers rsp
  pub aligned : c.registers rsp % 16 ≡ 0
  pub below : c.registers rsp + 16 ≤ p.registers rsp
  pub room : p.registers rsp ≤ c.registers rsp + 24
  pub link : c.words (c.registers rsp + 8) ≡ p.registers rsp
  pub above : (a : ℕ) → p.registers rsp ≤ a → c.words a ≡ p.words a

pub align_stack-Called : (p : Processor) → Fits 32 p → Called p (run align_stack p)
unfolding run
align_stack-Called p fits =
    let s = p.registers rsp in
    let mask = bit_and-high 4 60 (s - 16) (omega (arith, fits.1)) in
    let at : (run align_stack p).registers rsp ≡ (s - 16) / 16 * 16 = ground (arith, mask) in
    record {
      argument = ground (arith, fits.0);
      aligned = omega (arith, at);
      below = omega (arith, at, fits.0);
      room = omega (arith, at, fits.2);
      link = ground (arith, at, fits.0, fits.2);
      above = λ a h. ground (arith, fits.0);
    }

-- The call, and the way back to the frame.
returned :
    (back : ℕ) (handler : Function) (p c : Processor)
    → Called p c
    → 32 ≤ p.registers rsp
    → KeepsStack (push_word back c) (handler (push_word back c))
    → KeepsStack p (step (load_rsp 8) (step (call back handler) c))
unfolding step
returned back handler p c called deep keeps =
    let q = handler (push_word back c) in
    let at : q.registers rsp ≡ c.registers rsp - 8 = keeps.pointer in
    let room : 8 ≤ c.registers rsp = omega (arith, called.room) in
    let link : q.words (q.registers rsp + 8 + 8) ≡ p.registers rsp =
      ap (λ (a : ℕ). q.words (a + 8 + 8)) at
      ∙ keeps.above (c.registers rsp - 8 + 8 + 8) (omega arith)
      ∙ ground (arith, called.link) in
    record {
      pointer = ground (arith, link);
      above = λ a h.
          keeps.above a (omega (arith, called.below))
          ∙ ground (arith, called.below, called.above a);
    }

abbrev pub pushes : List Register → List Instruction
pushes [] = []
pushes (r ∷ rs) = push r ∷ pushes rs

abbrev pub pops : List Register → List Instruction
pops [] = []
pops (r ∷ rs) = pops rs ++ pop r ∷ []

bracket-run :
    (rs : List Register) (middle : List Instruction) (p : Processor)
    → run (pops rs) (run middle (run (pushes rs) p)) ≡ bracket rs (run middle) p
unfolding run
bracket-run [] middle p = refl
bracket-run (r ∷ rs) middle p =
    run-append (pops rs) (pop r ∷ []) (run middle (run (pushes rs) (step (push r) p)))
    ∙ ap (step (pop r)) (bracket-run rs middle (step (push r) p))

-- The registers in the order in which they are pushed.
abbrev pub order : List Register
order =
    r15 ∷ r14 ∷ r13 ∷ r12 ∷ r11 ∷ r10 ∷ r9 ∷ r8 ∷ rdi ∷ rsi ∷ rbp ∷ rsp ∷ rbx ∷ rdx ∷ rcx ∷ rax ∷ []

order-listed : (r : Register) → listed r order ≡ true
order-listed rax = refl
order-listed r = refl

add_rsp-ne :
    (n : ℕ) (r : Register) (q : Processor)
    → r ≢ rsp
    → (step (add_rsp n) q).registers r ≡ q.registers r
unfolding step
add_rsp-ne n r q ne = elim (ℕ_discrete (number r) 4) [
  | yes e ↦ absurd (ne (same_number r rsp e))
  | no other ↦ ground arith
]

pub push_number-ne :
    (n : ℕ) (r : Register) (q : Processor)
    → r ≢ rsp
    → (step (push_number n) q).registers r ≡ q.registers r
unfolding step
push_number-ne n r q ne = elim (ℕ_discrete (number r) 4) [
  | yes e ↦ absurd (ne (same_number r rsp e))
  | no other ↦ ground arith
]

add_rsp-rsp : (n : ℕ) (q : Processor) → (step (add_rsp n) q).registers rsp ≡ q.registers rsp + n
unfolding step
add_rsp-rsp n q = refl

add_rsp-words : (n a : ℕ) (q : Processor) → (step (add_rsp n) q).words a ≡ q.words a
unfolding step
add_rsp-words n a q = refl

module _ (back : ℕ) (handler : Function) (keeps : (c : Processor) → KeepsStack c (handler c)) where
  -- The call with what stands around it, up to the pops.
  abbrev inner : List Instruction
  inner = align_stack ++ call back handler ∷ load_rsp 8 ∷ []

  inner-KeepsStack : (p : Processor) → Fits 32 p → KeepsStack p (run inner p)
  unfolding run
  inner-KeepsStack p fits =
      returned back handler p (run align_stack p) (align_stack-Called p fits) fits.0
        (keeps (push_word back (run align_stack p)))

  common_path-run :
      (p : Processor)
      → run (common_path back handler) p ≡ step (add_rsp 0x10) (bracket order (run inner) p)
  unfolding run
  common_path-run p =
      run-append (pushes order) (inner ++ (pops order ++ add_rsp 0x10 ∷ [])) p
      ∙ run-append inner (pops order ++ add_rsp 0x10 ∷ []) (run (pushes order) p)
      ∙ run-append (pops order) (add_rsp 0x10 ∷ []) (run inner (run (pushes order) p))
      ∙ ap (step (add_rsp 0x10)) (bracket-run order inner p)

  -- Behind the common path every register holds what it held before it, but for the stack pointer, which
  -- has left the vector and the error code; the stack above is as it was.
  common_path-restores :
      (p : Processor)
      → Fits 160 p
      → ((r : Register) → r ≢ rsp → (run (common_path back handler) p).registers r ≡ p.registers r)
        × ((run (common_path back handler) p).registers rsp ≡ p.registers rsp + 16)
        × ((a : ℕ) → p.registers rsp ≤ a → (run (common_path back handler) p).words a ≡ p.words a)
  common_path-restores p fits =
      let whole =
        bracket-Restores order 32 (run inner) inner-KeepsStack p
          (omega (arith, fits.0), fits.1, fits.2) in
      let q = bracket order (run inner) p in
      let e = common_path-run p in
      (
        λ r ne.
            ap (λ (x : Processor). x.registers r) e
            ∙ add_rsp-ne 16 r q ne
            ∙ whole.kept r (order-listed r),
        ap (λ (x : Processor). x.registers rsp) e
            ∙ add_rsp-rsp 16 q
            ∙ ap (λ (a : ℕ). a + 16) whole.stack.pointer,
        λ a h. ap (λ (x : Processor). x.words a) e ∙ add_rsp-words 16 a q ∙ whole.stack.above a h,
      )

  -- What the interrupted code finds again, with `popped` bytes gone from the stack.
  pub record Resumes (popped : ℕ) (p q : Processor) : Type 0 where
    pub registers : (r : Register) → r ≢ rsp → q.registers r ≡ p.registers r
    pub pointer : q.registers rsp ≡ p.registers rsp + popped
    pub stack : (a : ℕ) → p.registers rsp ≤ a → q.words a ≡ p.words a

  -- With a handler that leaves the stack pointer and the stack above it as they were, and with room on a
  -- stack that lies on 8 bytes, both kinds of stub followed by the common path leave, at the call of
  -- `check_and_schedule`, every register and the stack above as they were at the interrupt, and the stack
  -- pointer at the words that the processor pushed last, the error code taken off.
  pub entry-Resumes :
      (index : ℕ) (p : Processor)
      → Fits 176 p
      → Resumes 0 p (run (interrupt_entry_without_ecode index ++ common_path back handler) p)
        × Resumes 8 p (run (interrupt_entry_with_ecode index ++ common_path back handler) p)
  unfolding run
  entry-Resumes index p fits =
      let p1 = run (interrupt_entry_without_ecode index) p in
      let p2 = run (interrupt_entry_with_ecode index) p in
      let (regs1, at1, above1) = common_path-restores p1 (omega (arith, fits.0, fits.1, fits.2)) in
      let (regs2, at2, above2) = common_path-restores p2 (omega (arith, fits.0, fits.1, fits.2)) in
      (
        record {
          registers = λ r ne.
              regs1 r ne
              ∙ push_number-ne index r (step (push_number 0) p) ne
              ∙ push_number-ne 0 r p ne;
          pointer = at1 ∙ omega (arith, fits.0);
          stack = λ a h. above1 a (omega arith) ∙ ground arith;
        },
        record {
          registers = λ r ne. regs2 r ne ∙ push_number-ne index r p ne;
          pointer = at2 ∙ omega (arith, fits.0);
          stack = λ a h. above2 a (omega arith) ∙ ground arith;
        },
      )
