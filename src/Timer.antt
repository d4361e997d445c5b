-- ===== src/Timer.antt =====
-- kernel/src/timer.rs: the local APIC timer, with its registers as a list of writes, last first.
use noctis.Common.{
  ℕ, ◌+◌, ◌*◌, ◌^◌, List, ◌∷◌, Outcome, ok, panic, overflow, ◌>>=◌, add_usize, bit_or, ltb, ◌==◌,
  if◌then◌else◌,
}

pub record LocalApicTimer : Type 0 where
  pub base : ℕ
  pub count : ℕ

abbrev pub base_addr : ℕ
base_addr = 0xFEE0_0000

abbrev pub timer : ℕ
timer = 0x320

abbrev pub timer_div : ℕ
timer_div = 0x3E0

abbrev pub timer_init_count : ℕ
timer_init_count = 0x380

abbrev pub end_of_interrupt : ℕ
end_of_interrupt = 0xB0

-- `write_volatile`: an address and a value.
abbrev pub Write : Type 0
Write = ℕ × ℕ

unfoldable pub new : LocalApicTimer
new = record { base = base_addr; count = 0 }

unfoldable pub register : LocalApicTimer → ℕ → Outcome ℕ
register self offset = add_usize self.base offset

unfoldable pub init : LocalApicTimer → List Write → Outcome (List Write)
unfolding register
init self writes = do
  div ← register self timer_div
  count ← register self timer_init_count
  mode ← register self timer
  ok ((mode, bit_or (0b010 * 2 ^ 16) 0x2a) ∷ (count, 0x100_0000) ∷ (div, 0b100) ∷ writes)

-- `count += 1` on a `u32`, then the reset that the source has for the wrapped count.
unfoldable pub increment_count : LocalApicTimer → Outcome LocalApicTimer
increment_count self = do
  count ← (if ltb (self.count + 1) (2 ^ 32) then ok (self.count + 1) else panic overflow)
  ok (record self { count = if count == 0 then 1 else count })

unfoldable pub notify_end_of_interrupt : LocalApicTimer → List Write → Outcome (List Write)
unfolding register
notify_end_of_interrupt self writes = do at ← register self end_of_interrupt; ok ((at, 0) ∷ writes)
