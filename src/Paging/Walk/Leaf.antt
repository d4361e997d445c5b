-- ===== src/Paging/Walk/Leaf.antt =====
-- A store into a table of the last level, in kernel/src/paging.rs.
use noctis.Common.{ℕ, ◌≡◌, ◌≢◌, refl, ap, arith}
use noctis.Paging.Entry.{PageTableEntry}
use noctis.Paging.Memory.{Memory}
use noctis.Tables.{write}
use noctis.Tables.Store.{stored-IsNet}
use noctis.Paging.Walk.{Shape, IsTree, net}
use noctis.Paging.Walk.Entries.{Beside}

abbrev pub stored : Memory → ℕ → ℕ → PageTableEntry → Memory
stored m l k e = record m { nodes = write m.nodes l k e }

module _ {root room : ℕ} {s : Shape} {m : Memory} (tree : IsTree root room s m) (l k : ℕ)
    (rank : s.rank l ≡ 1) (e : PageTableEntry) where
  pub stored-IsTree : IsTree root room s (stored m l k e)
  stored-IsTree = record {
    top = tree.top;
    children = (stored-IsNet (net tree) l k rank e).children;
    used = tree.used;
    heap_free = tree.heap_free;
    heap = tree.heap;
    low = tree.low;
    high = tree.high;
    left = tree.left;
  }

  pub stored-Beside : Beside s s m (stored m l k e)
  stored-Beside = record {
    grows = omega arith;
    apart = λ x j lt r. let ne : x ≢ l = λ same. omega (arith, ap s.rank same) in ground arith;
    unranked = λ x lt r. r;
    upper = λ x j r p. let ne : x ≢ l = λ same. omega (arith, ap s.rank same) in ground arith;
    kept_rank = λ x r. refl;
  }
