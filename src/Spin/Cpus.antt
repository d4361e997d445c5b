-- ===== src/Spin/Cpus.antt =====
-- kernel/src/spin.rs with any number of CPUs: each instruction of `lock` and of the drop of its guard
-- is one step, and the steps of the CPUs come in any order.
use noctis.Common.{ℕ, ◌≡◌, Bool, true, false, ◌==◌, if◌then◌else◌}

-- Where a CPU stands: outside, or spinning there; behind the swap that found the lock free; with the
-- guard; behind the store of its drop.
pub data Place : Type 0 where
  outside swapped guarded stored : Place

-- One lock, and of each CPU its place and its interrupt flag, which other code on the CPU changes too:
-- the drop of another lock's guard sets it, whoever holds this one.
pub record Cpus : Type 0 where
  pub locked : Bool
  pub place : ℕ → Place
  pub interrupts : ℕ → Bool

abbrev pub put {ℓ} : {A : Type ℓ} → (ℕ → A) → ℕ → A → ℕ → A
put f i a j = if j == i then a else f j

-- What CPU `i` does next.
pub data Move (i : ℕ) (s t : Cpus) : Type 0 where
  -- `swap(true)` reads `false` and ends the loop.
  win :
      s.place i ≡ outside
      → s.locked ≡ false
      → t ≡ record s { locked = true; place = put s.place i swapped }
      → Move i s t
  -- `swap(true)` reads `true`, and the loop goes round.
  lose : s.place i ≡ outside → s.locked ≡ true → t ≡ record s { locked = true } → Move i s t
  cli :
      s.place i ≡ swapped
      → t ≡ record s { place = put s.place i guarded; interrupts = put s.interrupts i false }
      → Move i s t
  store :
      s.place i ≡ guarded
      → t ≡ record s { locked = false; place = put s.place i stored }
      → Move i s t
  sti :
      s.place i ≡ stored
      → t ≡ record s { place = put s.place i outside; interrupts = put s.interrupts i true }
      → Move i s t
  -- Other code, such as `lock` and the drop of the guard of another lock.
  other : (flag : Bool) → t ≡ record s { interrupts = put s.interrupts i flag } → Move i s t

pub data Reach : Cpus → Type 0 where
  booted :
      (interrupts : ℕ → Bool)
      → Reach (record { locked = false; place = λ i. outside; interrupts = interrupts })
  moved : {s t : Cpus} (i : ℕ) → Reach s → Move i s t → Reach t
