-- ===== src/Interrupt/Entry/Slots.antt =====
-- The words that the pushes of kernel/src/idt.rs leave.
use noctis.Common.{
  ℕ, zero, suc, ◌+◌, ◌-◌, ◌*◌, ◌≤◌, ◌≡◌, refl, ap, ◌∙◌, arith, List, [], ◌∷◌, some, get_elem?,
  length, ◌==◌, if◌then◌else◌, ℕ_discrete,
}
use mathlib.Core.Option.{some-injective}
use noctis.Interrupt.Entry.{Register, rsp, number, Processor, push, step, run}
use noctis.Interrupt.Entry.Bracket.{same_number}
use noctis.Interrupt.Entry.Saved.{pushes}

-- The words below the stack pointer, each 8 bytes deep, that the pushes leave.
pub record IsStored (rs : List Register) (p q : Processor) : Type 0 where
  pub pointer : q.registers rsp ≡ p.registers rsp - 8 * length rs
  pub above : (a : ℕ) → p.registers rsp ≤ a → q.words a ≡ p.words a
  pub slot :
      (i : ℕ) (r : Register)
      → get_elem? rs i ≡ some r
      → q.words (p.registers rsp - 8 * (i + 1))
        ≡ (if number r == 4 then p.registers rsp - 8 * i else p.registers r)

pub pushed_word :
    (r : Register) (p : Processor) → (step (push r) p).words (p.registers rsp - 8) ≡ p.registers r
unfolding step
pushed_word r p = ground arith

pub by_number :
    (p : Processor) (r : Register)
    → p.registers r ≡ (if number r == 4 then p.registers rsp - 0 else p.registers r)
by_number p r = elim (ℕ_discrete (number r) 4) [
  | yes e ↦ let same = ap p.registers (same_number r rsp e) in ground arith
  | no ne ↦ ground arith
]

pub pushes-IsStored :
    (rs : List Register) (p : Processor)
    → 8 * length rs ≤ p.registers rsp
    → IsStored rs p (run (pushes rs) p)
unfolding run
pushes-IsStored [] p room = record {
  pointer = omega arith;
  above = λ a h. refl;
  slot = λ i r e. cc;
}
pushes-IsStored (r ∷ rs) p room =
    let p1 = step (push r) p in
    let rest = pushes-IsStored rs p1 (omega arith) in
    let q = run (pushes rs) p1 in
    record {
      pointer = omega (arith, rest.pointer);
      above = λ a h. rest.above a (omega arith) ∙ ground arith;
      slot = slots r rs p q room rest;
    }
  where
    slots :
        (r : Register) (rs : List Register) (p q : Processor)
        → 8 * suc (length rs) ≤ p.registers rsp
        → IsStored rs (step (push r) p) q
        → (i : ℕ) (x : Register) → get_elem? (r ∷ rs) i ≡ some x
        → q.words (p.registers rsp - 8 * (i + 1))
          ≡ (if number x == 4 then p.registers rsp - 8 * i else p.registers x)
    slots r rs p q room rest zero x e =
        rest.above (p.registers rsp - 8) (omega arith)
        ∙ pushed_word r p
        ∙ by_number p r
        ∙ ap (λ (y : Register). if number y == 4 then p.registers rsp - 0 else p.registers y)
            (some-injective r x e)
    slots r rs p q room rest (suc i) x e = ap q.words (omega arith) ∙ rest.slot i x e ∙ ground arith
