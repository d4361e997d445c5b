-- ===== src/Interrupt/Entry.antt =====
-- The entry stubs of kernel/src/idt.rs and `interrupt_handler_common`, instruction by instruction.
pub mod Bracket
pub mod Saved
pub mod Slots
pub mod Frame
mod Tests
use noctis.Common.{ℕ, ◌+◌, ◌-◌, ◌*◌, ◌^◌, bit_and, List, [], ◌∷◌, ◌++◌, ◌==◌, if◌then◌else◌}

pub data Register : Type 0 where
  rax rcx rdx rbx rsp rbp rsi rdi r8 r9 r10 r11 r12 r13 r14 r15 : Register

-- The number that stands for the register in an instruction.
abbrev pub number : Register → ℕ
number rax = 0
number rcx = 1
number rdx = 2
number rbx = 3
number rsp = 4
number rbp = 5
number rsi = 6
number rdi = 7
number r8 = 8
number r9 = 9
number r10 = 10
number r11 = 11
number r12 = 12
number r13 = 13
number r14 = 14
number r15 = 15

-- The registers, and the words of 8 bytes at their addresses.
pub record Processor : Type 0 where
  pub registers : Register → ℕ
  pub words : ℕ → ℕ

abbrev pub load_register : Register → ℕ → Processor → Processor
load_register r v p = record p {
  registers = λ q. if number q == number r then v else p.registers q;
}

abbrev pub push_word : ℕ → Processor → Processor
push_word v p =
    let at : ℕ = p.registers rsp - 8 in
    load_register rsp at (record p { words = λ a. if a == at then v else p.words a })

-- A function that is called, from its first instruction to its `ret`.
abbrev pub Function : Type 0
Function = Processor → Processor

pub data Instruction : Type 0 where
  push pop : Register → Instruction
  -- `push` of a number, and of the word at the top of the stack
  push_number : ℕ → Instruction
  push_top : Instruction
  -- `and rsp, …`, `mov rsp, [rsp + …]` and `add rsp, …`
  and_rsp load_rsp add_rsp : ℕ → Instruction
  -- `call`, with the address behind it
  call : ℕ → Function → Instruction

unfoldable pub step : Instruction → Processor → Processor
step (push r) p = push_word (p.registers r) p
step (push_number n) p = push_word n p
step push_top p = push_word (p.words (p.registers rsp)) p
step (pop r) p =
    load_register r (p.words (p.registers rsp)) (load_register rsp (p.registers rsp + 8) p)
step (and_rsp mask) p = load_register rsp (bit_and (p.registers rsp) mask) p
step (load_rsp offset) p = load_register rsp (p.words (p.registers rsp + offset)) p
step (add_rsp n) p = load_register rsp (p.registers rsp + n) p
step (call back f) p = let q = f (push_word back p) in load_register rsp (q.registers rsp + 8) q

unfoldable pub run : List Instruction → Processor → Processor
unfolding step
run [] p = p
run (i ∷ l) p = run l (step i p)

-- The stubs: a vector, below it the error code, which is 0 where the processor pushes none.
abbrev pub interrupt_entry_without_ecode : ℕ → List Instruction
interrupt_entry_without_ecode index = push_number 0 ∷ push_number index ∷ []

abbrev pub interrupt_entry_with_ecode : ℕ → List Instruction
interrupt_entry_with_ecode index = push_number index ∷ []

abbrev pub save_registers : List Instruction
save_registers =
    push r15
    ∷ push r14
    ∷ push r13
    ∷ push r12
    ∷ push r11
    ∷ push r10
    ∷ push r9
    ∷ push r8
    ∷ push rdi
    ∷ push rsi
    ∷ push rbp
    ∷ push rsp
    ∷ push rbx
    ∷ push rdx
    ∷ push rcx
    ∷ push rax
    ∷ []

-- The frame's address into `rdi`, and the stack pointer twice below it, on 16 bytes.
abbrev pub align_stack : List Instruction
align_stack = push rsp ∷ pop rdi ∷ push rsp ∷ push_top ∷ and_rsp 0xFFFF_FFFF_FFFF_FFF0 ∷ []

abbrev pub restore_registers : List Instruction
restore_registers =
    load_rsp 8
    ∷ pop rax
    ∷ pop rcx
    ∷ pop rdx
    ∷ pop rbx
    ∷ pop rsp
    ∷ pop rbp
    ∷ pop rsi
    ∷ pop rdi
    ∷ pop r8
    ∷ pop r9
    ∷ pop r10
    ∷ pop r11
    ∷ pop r12
    ∷ pop r13
    ∷ pop r14
    ∷ pop r15
    ∷ add_rsp 0x10
    ∷ []

-- `interrupt_handler_common` up to the call of `check_and_schedule`; the `iretq` follows that.
module _ (back : ℕ) (interrupt_handler : Function) where
  abbrev pub common_path : List Instruction
  common_path =
      save_registers ++ align_stack ++ (call back interrupt_handler ∷ []) ++ restore_registers

-- What the handler reads through its reference, in the order of the fields in memory (`repr(C)`).
pub record InterruptRegisters : Type 0 where
  pub rax : ℕ
  pub rbx : ℕ
  pub rcx : ℕ
  pub rdx : ℕ
  pub rsi : ℕ
  pub rdi : ℕ
  pub rbp : ℕ
  pub rsp : ℕ
  pub r8 : ℕ
  pub r9 : ℕ
  pub r10 : ℕ
  pub r11 : ℕ
  pub r12 : ℕ
  pub r13 : ℕ
  pub r14 : ℕ
  pub r15 : ℕ

pub record InterruptContext : Type 0 where
  pub rip : ℕ
  pub cs : ℕ
  pub rflags : ℕ
  pub rsp : ℕ
  pub ss : ℕ

pub record InterruptStackFrame : Type 0 where
  pub registers : InterruptRegisters
  pub vector : ℕ
  pub error_code : ℕ
  pub context : InterruptContext

abbrev pub read_registers : (ℕ → ℕ) → ℕ → InterruptRegisters
read_registers words at = record {
  rax = words (at + 0);
  rbx = words (at + 8);
  rcx = words (at + 16);
  rdx = words (at + 24);
  rsi = words (at + 32);
  rdi = words (at + 40);
  rbp = words (at + 48);
  rsp = words (at + 56);
  r8 = words (at + 64);
  r9 = words (at + 72);
  r10 = words (at + 80);
  r11 = words (at + 88);
  r12 = words (at + 96);
  r13 = words (at + 104);
  r14 = words (at + 112);
  r15 = words (at + 120);
}

abbrev pub read_context : (ℕ → ℕ) → ℕ → InterruptContext
read_context words at = record {
  rip = words (at + 0);
  cs = words (at + 8);
  rflags = words (at + 16);
  rsp = words (at + 24);
  ss = words (at + 32);
}

abbrev pub read_frame : (ℕ → ℕ) → ℕ → InterruptStackFrame
read_frame words at = record {
  registers = read_registers words at;
  vector = words (at + 128);
  error_code = words (at + 136);
  context = read_context words (at + 144);
}
