-- ===== src/Loader/Paging/Walk/Descend.antt =====
-- The walk of `PageTable::map` in loader/src/paging.rs on a tree of tables: it ends at the last table.
use noctis.Common.{ℕ, zero, suc, ◌+◌, ◌≤◌, ◌≡◌, refl, ap, ◌∙◌, arith, Bool, some, ok, List, [], ◌∷◌}
use noctis.MemLayout.Index.{digit, nth_level_table_index-digit}
use noctis.MemLayout as MemLayout
use noctis.Paging.Entry as Kernel
use noctis.Tables.{child, leaf, Shape, IsOpen}
use noctis.Tables.Ways.{digit-lt, opened, leaf-zero, leaf-present}
use noctis.Loader.Address.{VirtAddr, nth_level_table_index}
use noctis.Loader.Paging.Entry.{PhysAddr}
use noctis.Loader.Paging.Memory.{Memory}
use noctis.Loader.Paging.Table.{get_or_alloc_next_level_table, descend}
use noctis.Loader.Paging.Walk.{IsTree, trans_Beside, Extends, same_Extends}
use noctis.Loader.Paging.Walk.Stepped.{at_room, stepped}

pub kept-IsOpen :
    {root : PhysAddr} {s s' : Shape} {m m' : Memory}
    → Extends root s s' m m'
    → (v : VirtAddr) → IsOpen s v
    → IsOpen s' v
kept-IsOpen a v o = ap (λ (f : ℕ → Bool). f (digit v 4)) a.opens ∙ o

trans_Extends :
    {root : PhysAddr} {s s1 s2 : Shape} {m m1 m2 : Memory}
    → Extends root s s1 m m1
    → Extends root s1 s2 m1 m2
    → Extends root s s2 m m2
trans_Extends a b = record {
  kept = λ n i r p.
      b.kept n i (omega (arith, a.ranks n r)) (ap Kernel.is_present (a.kept n i r p) ∙ p)
      ∙ a.kept n i r p;
  ranks = λ n r. b.ranks n (omega (arith, a.ranks n r)) ∙ a.ranks n r;
  opens = b.opens ∙ a.opens;
  same = λ v o. b.same v (kept-IsOpen a v o) ∙ a.same v o;
  cr3 = b.cr3 ∙ a.cr3;
  beside = trans_Beside a.beside b.beside;
}

-- The levels that `descend` visits from depth `d`.
abbrev from_depth : ℕ → List ℕ
from_depth zero = []
from_depth (suc d) = (d + 2) ∷ from_depth d

pub record Descended (root room v d x : ℕ) (s : Shape) (m : Memory) (l : PhysAddr) (s' : Shape)
    (m' : Memory) : Type 0 where
  pub run : descend (from_depth d) v x m ≡ ok (l, m')
  pub tree' : IsTree root room s' m'
  pub way : leaf 0 m'.nodes v d x ≡ some l
  pub extends : Extends root s s' m m'

index-digit :
    (v level : ℕ) → 1 ≤ level → level ≤ 4 → nth_level_table_index v level ≡ ok (digit v level)
unfolding nth_level_table_index MemLayout.nth_level_table_index
index-digit v level lo hi = nth_level_table_index-digit v level lo hi

descend-step :
    (v x i c l d : ℕ) (m m1 m2 : Memory)
    → nth_level_table_index v (d + 2) ≡ ok i
    → get_or_alloc_next_level_table x i m ≡ ok (c, m1)
    → descend (from_depth d) v c m1 ≡ ok (l, m2)
    → descend (from_depth (suc d)) v x m ≡ ok (l, m2)
unfolding descend
descend-step v x i c l d m m1 m2 e1 e2 e3 = rw (e1, e2, e3) refl

pub descended :
    (root room v d x : ℕ) (s : Shape) (m : Memory)
    → IsTree root (d + room) s m
    → d ≤ 3
    → IsOpen s v
    → s.rank x ≡ suc d
    → (l : PhysAddr) × (s' : Shape) × (m' : Memory) × Descended root room v d x s m l s' m'
unfolding descend
descended root room v zero x s m tree small o rank = (
  x,
  s,
  m,
  record {
    run = refl;
    tree' = at_room (omega arith) tree;
    way = leaf-zero 0 m.nodes v x;
    extends = same_Extends root s m;
  },
)
descended root room v (suc d) x s m tree small o rank =
    let i = digit v (d + 2) in
    let (c, s1, m1, first) =
      stepped root (d + room) x i d s m (at_room (omega arith) tree) rank (digit-lt v (d + 2))
        (opened s v d o) in
    let (l, s2, m2, rest) =
      descended root room v d c s1 m1 first.tree' (omega arith) (kept-IsOpen first.extends v o)
        first.level in
    let kept =
      rest.extends.kept x i (omega (arith, first.extends.ranks x (omega arith))) first.there in
    (
      l,
      s2,
      m2,
      record {
        run =
            descend-step v x i c l d m m1 m2 (index-digit v (d + 2) (omega arith) (omega arith))
              first.run rest.run;
        tree' = rest.tree';
        way =
            leaf-present 0 m2.nodes v d x (ap Kernel.is_present kept ∙ first.there)
            ∙ ap (leaf 0 m2.nodes v d) (ap (child 0) kept ∙ first.points)
            ∙ rest.way;
        extends = trans_Extends first.extends rest.extends;
      },
    )
