-- ===== src/Interrupt/Entry/Tests.antt =====
-- The theorems on the entry stubs of kernel/src/idt.rs at one interrupt.
use noctis.Common.{◌+◌, refl, arith, ◌++◌, ◌==◌, if◌then◌else◌}
use noctis.Interrupt.Entry.{
  rax, rsp, number, Processor, load_register, Function, run, interrupt_entry_without_ecode,
  interrupt_entry_with_ecode, common_path,
}
use noctis.Interrupt.Entry.Bracket.{KeepsStack, Fits}
use noctis.Interrupt.Entry.Saved.{Resumes, entry-Resumes}
use noctis.Interrupt.Entry.Frame.{CalledWith, frame_of, called_frame}

-- A handler that writes a register.
abbrev handler : Function
handler p = load_register rax 7 p

handler-KeepsStack : (p : Processor) → KeepsStack p (handler p)
handler-KeepsStack p = record { pointer = refl; above = λ a h. refl }

abbrev interrupted : Processor
interrupted = record { registers = λ r. if number r == 4 then 0x8000 else 17; words = λ a. a + 1 }

interrupted-Fits : Fits 176 interrupted
interrupted-Fits = (omega arith, omega arith, refl)

entry-Resumes_example :
    Resumes 0x4000 handler handler-KeepsStack 0 interrupted
      (run (interrupt_entry_without_ecode 42 ++ common_path 0x4000 handler) interrupted)
    × Resumes 0x4000 handler handler-KeepsStack 8 interrupted
        (run (interrupt_entry_with_ecode 42 ++ common_path 0x4000 handler) interrupted)
entry-Resumes_example =
    entry-Resumes 0x4000 handler handler-KeepsStack 42 interrupted interrupted-Fits

called_frame_example :
    CalledWith
      (interrupt_entry_without_ecode 42)
      interrupted
      (frame_of interrupted (interrupted.registers rsp) 42 0)
    × CalledWith (interrupt_entry_with_ecode 42) interrupted (
        frame_of interrupted
          (interrupted.registers rsp + 8)
          42
          (interrupted.words (interrupted.registers rsp)))
called_frame_example = called_frame 42 interrupted interrupted-Fits
