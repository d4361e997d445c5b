-- ===== src/Spin/Exclusion.antt =====
-- What the lock of kernel/src/spin.rs promises to several CPUs.
use noctis.Common.{ℕ, ◌≡◌, refl, arith, Bool, true, false}
use noctis.Spin.Cpus.{
  Place, outside, swapped, guarded, stored, Cpus, Move, win, lose, cli, store, sti, other, Reach,
  booted, moved,
}

-- The CPU owns the lock.
abbrev pub owns : Place → Bool
owns outside = false
owns swapped = true
owns guarded = true
owns stored = false

pub record IsExclusive (s : Cpus) : Type 0 where
  pub free : s.locked ≡ false → (i : ℕ) → owns (s.place i) ≡ false
  pub sole : (i j : ℕ) → owns (s.place i) ≡ true → owns (s.place j) ≡ true → i ≡ j

Move-IsExclusive : {i : ℕ} {s t : Cpus} → Move i s t → IsExclusive s → IsExclusive t
Move-IsExclusive {i} {s} (win at free e) x = record {
  free = λ u j. ground (arith, e);
  sole = λ j k a b. ground (arith, e, x.free free j, x.free free k);
}
Move-IsExclusive {i} {s} (lose at taken e) x = record {
  free = λ u j. ground (arith, e);
  sole = λ j k a b. ground (arith, e, x.sole j k);
}
Move-IsExclusive {i} {s} (cli at e) x = record {
  free = λ u j.
      ground (arith, e, λ (h : s.locked ≡ false). x.free h i, λ (h : s.locked ≡ false). x.free h j);
  sole = λ j k a b. ground (arith, e, x.sole j k, x.sole i k, x.sole j i);
}
Move-IsExclusive {i} {s} (store at e) x = record {
  free = λ u j. ground (arith, e, x.sole i j);
  sole = λ j k a b. ground (arith, e, x.sole j k);
}
Move-IsExclusive {i} {s} (sti at e) x = record {
  free = λ u j. ground (arith, e, λ (h : s.locked ≡ false). x.free h j);
  sole = λ j k a b. ground (arith, e, x.sole j k);
}
Move-IsExclusive {i} {s} (other flag e) x = record {
  free = λ u j. ground (arith, e, λ (h : s.locked ≡ false). x.free h j);
  sole = λ j k a b. ground (arith, e, x.sole j k);
}

-- However the steps of the CPUs are ordered, and whatever other code does to their interrupt flags in
-- between, no two CPUs own the lock, and a free lock has no owner.
pub Reach-IsExclusive : {s : Cpus} → Reach s → IsExclusive s
Reach-IsExclusive (booted interrupts) = record { free = λ u j. refl; sole = λ j k a b. cc }
Reach-IsExclusive (moved i r move) = Move-IsExclusive move (Reach-IsExclusive r)
