-- ===== src/Spin/Tests.antt =====
-- The theorems on kernel/src/spin.rs with two CPUs, the first of which has just won the lock.
use noctis.Common.{refl, true, false}
use noctis.Spin.Cpus.{outside, swapped, Cpus, put, win, booted, moved}
use noctis.Spin.Exclusion.{IsExclusive, Reach-IsExclusive}

abbrev quiet : Cpus
quiet = record { locked = false; place = λ i. outside; interrupts = λ i. true }

abbrev first_won : Cpus
first_won = record quiet { locked = true; place = put quiet.place 0 swapped }

Reach-IsExclusive_example : IsExclusive first_won
Reach-IsExclusive_example =
    Reach-IsExclusive {s = first_won}
      (moved {s = quiet} 0 (booted (λ i. true)) (win refl refl refl))
