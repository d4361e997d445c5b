-- ===== src/Spin.antt =====
-- kernel/src/spin.rs: the spin lock, as one CPU sees it. `lock` swaps `true` in until it reads
-- `false`; on one CPU nobody else can release the lock meanwhile, so a held lock spins for ever.
pub mod Cpus
pub mod Exclusion
mod Tests
use noctis.Common.{Bool, true, false, Outcome, ok, diverge, ◌>>=◌, if◌then◌else◌}

-- The interrupt flag, which `cli` clears and `sti` sets.
pub record Cpu : Type 0 where
  pub interrupts : Bool

pub record SpinLock {ℓ} (A : Type ℓ) : Type ℓ where
  pub locked : Bool
  pub value : A

module _ {ℓ} {A : Type ℓ} where
  unfoldable pub new : A → SpinLock A
  new a = record { locked = false; value = a }

  -- `SpinLock::lock`: the swap, then `cli`. The guard is the lock itself, held.
  unfoldable pub lock : SpinLock A → Cpu → Outcome (SpinLock A × Cpu)
  lock l cpu =
      if l.locked then diverge else ok (record l { locked = true }, record { interrupts = false })

  -- `SpinGuard::drop`: the store, then `sti`, whatever the flag was before `lock`.
  unfoldable pub release : SpinLock A → Cpu → SpinLock A × Cpu
  release l cpu = (record l { locked = false }, record { interrupts = true })

-- A call that holds the guard of a lock for as long as `body` works on its value.
unfoldable pub with_lock {ℓ κ} :
    {A : Type ℓ} {B : Type κ}
    → (A → Outcome (B × A))
    → SpinLock A
    → Cpu
    → Outcome (B × (SpinLock A × Cpu))
unfolding lock release
with_lock body l cpu = do
  (held, off) ← lock l cpu
  (b, a) ← body held.value
  ok (b, release (record held { value = a }) off)
