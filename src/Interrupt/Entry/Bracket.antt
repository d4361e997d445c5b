-- ===== src/Interrupt/Entry/Bracket.antt =====
-- Pushes, and the pops that undo them, on the stack of kernel/src/idt.rs.
use noctis.Common.{
  ℕ, ◌+◌, ◌-◌, ◌*◌, ◌%◌, ◌^◌, ◌≤◌, ◌<◌, ◌≡◌, refl, sym, ap, ◌∙◌, arith, Bool, true, false, List, [],
  ◌∷◌, ◌++◌, ◌==◌, if◌then◌else◌, ◌||◌, ℕ_discrete, length,
}
use noctis.Interrupt.Entry.{
  Register, rax, rcx, rdx, rbx, rsp, rbp, rsi, rdi, r8, r9, r10, r11, r12, r13, r14, r15, number,
  Processor, Function, Instruction, push, pop, step, run,
}

pub run-append : (a b : List Instruction) (p : Processor) → run (a ++ b) p ≡ run b (run a p)
unfolding run
run-append [] b p = refl
run-append (i ∷ a) b p = run-append a b (step i p)

-- What a function leaves of the processor: the stack pointer, and the words at and above it.
pub record KeepsStack (p q : Processor) : Type 0 where
  pub pointer : q.registers rsp ≡ p.registers rsp
  pub above : (a : ℕ) → p.registers rsp ≤ a → q.words a ≡ p.words a

-- The registers of a list, pushed before `middle` and popped behind it in the opposite order.
abbrev pub bracket : List Register → Function → Function
bracket [] middle p = middle p
bracket (r ∷ rs) middle p = step (pop r) (bracket rs middle (step (push r) p))

abbrev pub listed : Register → List Register → Bool
listed q [] = false
listed q (r ∷ rs) = number q == number r || listed q rs

-- The register of a number.
abbrev pub numbered : ℕ → Register
numbered n =
    if n == 0
    then rax
    else if n == 1
    then rcx
    else if n == 2
    then rdx
    else if n == 3
    then rbx
    else if n == 4
    then rsp
    else if n == 5
    then rbp
    else if n == 6
    then rsi
    else if n == 7
    then rdi
    else if n == 8
    then r8
    else if n == 9
    then r9
    else if n == 10
    then r10
    else if n == 11
    then r11
    else if n == 12
    then r12
    else if n == 13
    then r13
    else if n == 14
    then r14
    else r15

pub numbered-number : (q : Register) → numbered (number q) ≡ q
numbered-number rax = refl
numbered-number q = refl

pub same_number : (q r : Register) → number q ≡ number r → q ≡ r
same_number q r e = sym (numbered-number q) ∙ ap numbered e ∙ numbered-number r

-- A stack pointer on 8 bytes with room below it.
abbrev pub Fits : ℕ → Processor → Type 0
Fits room p = (room ≤ p.registers rsp) × (p.registers rsp < 2 ^ 64) × (p.registers rsp % 8 ≡ 0)

-- The state behind the pops: the stack as it was, and the listed registers.
pub record Restores (rs : List Register) (p q : Processor) : Type 0 where
  pub stack : KeepsStack p q
  pub kept : (r : Register) → listed r rs ≡ true → q.registers r ≡ p.registers r

pub pushed-Fits :
    (r : Register) (p : Processor) (room : ℕ) → Fits (room + 8) p → Fits room (step (push r) p)
unfolding step
pushed-Fits r p room fits = omega (arith, fits.0, fits.1, fits.2)

pub restored :
    (r : Register) (rs : List Register) (p q : Processor)
    → 8 ≤ p.registers rsp
    → Restores rs (step (push r) p) q
    → Restores (r ∷ rs) p (step (pop r) q)
unfolding step
restored r rs p q room inner =
    let at : q.registers rsp ≡ p.registers rsp - 8 = inner.stack.pointer in
    let saved : q.words (q.registers rsp) ≡ p.registers r =
      ap q.words at ∙ inner.stack.above (p.registers rsp - 8) (omega arith) ∙ ground arith in
    record {
      stack = record {
        pointer = elim (ℕ_discrete 4 (number r)) [
          | yes e ↦ let same = ap p.registers (same_number rsp r e) in ground arith
          | no ne ↦ ground arith
        ];
        above = λ a h. inner.stack.above a (omega arith) ∙ ground arith;
      };
      kept = λ x h. elim (ℕ_discrete (number x) (number r)) [
        | yes e ↦ let same = ap p.registers (same_number x r e) in ground arith
        | no ne ↦ elim (ℕ_discrete (number x) 4) [
          | yes e ↦ let same = ap p.registers (same_number x rsp e) in ground arith
          | no other ↦
              let deeper : listed x rs ≡ true = ground arith in
              let before = inner.kept x deeper in ground arith
        ]
      ];
    }

-- Pushes around a call that keeps the stack, and the pops behind it, restore what was pushed.
pub bracket-Restores :
    (rs : List Register) (room : ℕ) (middle : Function)
    → ((p : Processor) → Fits room p → KeepsStack p (middle p))
    → (p : Processor) → Fits (8 * length rs + room) p
    → Restores rs p (bracket rs middle p)
bracket-Restores [] room middle keeps p fits = record {
  stack = keeps p (omega (arith, fits.0), fits.1, fits.2);
  kept = λ r h. cc;
}
bracket-Restores (r ∷ rs) room middle keeps p fits =
    restored r rs p (bracket rs middle (step (push r) p)) (omega (arith, fits.0)) (
      bracket-Restores rs room middle keeps (step (push r) p)
        (pushed-Fits r p (8 * length rs + room) (omega (arith, fits.0), fits.1, fits.2)))
