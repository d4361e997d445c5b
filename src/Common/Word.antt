-- ===== src/Common/Word.antt =====
-- `usize` and `u64`: 64 bits, with the overflow checks of the debug build.
use Prim.Native.Nat.{ℕ, ◌+◌, ◌-◌, ◌*◌, ◌/◌, ◌^◌}
use noctis.Common.Tests.{ltb, leb, if◌then◌else◌}
use noctis.Common.Results.{Outcome, ok, panic, overflow}

abbrev pub word : ℕ
word = 2 ^ 64

-- `a + b`, `a - b` and `a * b` panic where the result does not fit.
abbrev pub add_usize : ℕ → ℕ → Outcome ℕ
add_usize a b = if ltb (a + b) word then ok (a + b) else panic overflow

abbrev pub sub_usize : ℕ → ℕ → Outcome ℕ
sub_usize a b = if leb b a then ok (a - b) else panic overflow

abbrev pub mul_usize : ℕ → ℕ → Outcome ℕ
mul_usize a b = if ltb (a * b) word then ok (a * b) else panic overflow

-- `!a`
abbrev pub not_word : ℕ → ℕ
not_word a = word - 1 - a

-- `a >> k`
infixl 60 ◌>>>◌
abbrev pub ◌>>>◌ : ℕ → ℕ → ℕ
a >>> k = a / 2 ^ k
