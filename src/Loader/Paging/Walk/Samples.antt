-- ===== src/Loader/Paging/Walk/Samples.antt =====
-- What the firmware may leave for loader/src/paging.rs: a table, and blocks side by side.
use noctis.Common.{
  ℕ, zero, suc, false, ◌+◌, ◌*◌, ◌%◌, ◌^◌, ◌≤◌, ◌<◌, ◌≡◌, arith, List, [], ◌∷◌, ◌==◌, if◌then◌else◌,
}
use noctis.Paging.Entry as Kernel
use noctis.Loader.Paging.Entry.{PhysAddr}
use noctis.Loader.Paging.Memory.{Memory}
use noctis.Loader.Paging.Walk.{Lacks, Stock}
use noctis.Loader.Paging.Walk.Window.{root_shape}

abbrev pub pages_from : ℕ → PhysAddr → List PhysAddr
pages_from zero p = []
pages_from (suc n) p = p ∷ pages_from n (p + 4096)

Lacks-below : (n x p : ℕ) → x < p → Lacks x (pages_from n p)
Lacks-below zero x p h = tt
Lacks-below (suc n) x p h = (λ e. omega arith, Lacks-below n x (p + 4096) (omega arith))

pub pages-Stock :
    (local n p : ℕ)
    → local < p
    → p % 4096 ≡ 0
    → p + n * 4096 < 2 ^ 52
    → Stock (root_shape local) n (pages_from n p)
pages-Stock local zero p h a f = tt
pages-Stock local (suc n) p h a f = (
  a,
  omega arith,
  ground arith,
  Lacks-below n p (p + 4096) (omega arith),
  pages-Stock local n (p + 4096) (omega arith) (omega arith) (omega arith),
)

-- The firmware has one table, with a first entry.
abbrev pub booted : Memory
booted = record {
  nodes = λ n i. if i == 0 then 0x2003 else 0;
  blocks = pages_from 7 0x10_0000;
  cr3 = 0x1000;
}

pub booted-upper :
    (i : ℕ) → 256 ≤ i → i < 512 → Kernel.is_present (booted.nodes booted.cr3 i) ≡ false
unfolding Kernel.is_present
booted-upper i lo hi = ground arith
