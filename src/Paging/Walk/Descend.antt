-- ===== src/Paging/Walk/Descend.antt =====
-- `descend` of kernel/src/paging.rs on a tree of tables: it ends at the last table of the walk.
use noctis.Common.{
  ℕ, zero, suc, ◌+◌, ◌≤◌, ◌<◌, ◌≡◌, inl, inr, refl, ap, ◌∙◌, arith, Bool, true, Bool-cases, some,
  ok, List, [], ◌∷◌,
}
use mathlib.Core.Path.{subst}
use noctis.MemLayout.{VirtAddr, nth_level_table_index, liner_mapping_base_vaddr}
use noctis.MemLayout.Index.{digit, nth_level_table_index-digit}
use noctis.Paging.Entry.{is_present}
use noctis.Paging.Memory.{Memory}
use noctis.Paging.Memory.Node.{box_node-boxed}
use noctis.Paging.Table.{get_or_alloc_next_level_table, descend}
use noctis.Paging.Walk.{child, leaf, Shape, Open, IsOpen, IsTree}
use noctis.Tables.Ways.{digit-lt, opened, leaf-zero, leaf-present}
use noctis.Tables.Grow.{grow_shape}
use noctis.Paging.Walk.Entries.{pointer, grown, Beside, Extends, found_table, new_table}
use noctis.Paging.Walk.Grow.{fresh, lo, hi, here, is_grown, grown-IsTree, grown-Extends}

-- The result of a call that returned table `c`.
record Stepped (root room n i d : ℕ) (s : Shape) (m : Memory) (c : VirtAddr) (s' : Shape)
    (m' : Memory) : Type 0 where
  run : get_or_alloc_next_level_table n i m ≡ ok (c, m')
  tree' : IsTree root room s' m'
  there : is_present (m'.nodes n i) ≡ true
  points : child (m'.nodes n i) ≡ c
  level : s'.rank c ≡ suc d
  extends : Extends root s s' m m'

pub lessen : {root a b : ℕ} {s : Shape} {m : Memory} → b ≤ a → IsTree root a s m → IsTree root b s m
lessen {root} {a} {b} {s} {m} less tree = record {
  top = tree.top;
  children = tree.children;
  used = tree.used;
  heap_free = tree.heap_free;
  heap = tree.heap;
  low = tree.low;
  high = tree.high;
  left = omega (arith, tree.left);
}

pub at_room :
    {root a b : ℕ} {s : Shape} {m : Memory} → a ≡ b → IsTree root a s m → IsTree root b s m
at_room {root} {a} {b} {s} {m} e tree = subst (λ k. IsTree root k s m) e tree

pub same_Beside : (s : Shape) (m : Memory) → Beside s s m m
same_Beside s m = record {
  grows = omega arith;
  apart = λ x j lt r. refl;
  unranked = λ x lt r. r;
  upper = λ x j r p. refl;
  kept_rank = λ x r. refl;
}

pub trans_Beside :
    {s s1 s2 : Shape} {m m1 m2 : Memory} → Beside s s1 m m1 → Beside s1 s2 m1 m2 → Beside s s2 m m2
trans_Beside {s} {s1} {s2} {m} {m1} {m2} a b = record {
  grows = omega (arith, a.grows, b.grows);
  apart = λ x j lt r. b.apart x j (omega (arith, a.grows)) (a.unranked x lt r) ∙ a.apart x j lt r;
  unranked = λ x lt r. b.unranked x (omega (arith, a.grows)) (a.unranked x lt r);
  upper = λ x j r p.
      b.upper x j (omega (arith, a.kept_rank x (omega arith))) (ap is_present (a.upper x j r p) ∙ p)
      ∙ a.upper x j r p;
  kept_rank = λ x r. b.kept_rank x (omega (arith, a.kept_rank x r)) ∙ a.kept_rank x r;
}

pub same_Extends : (root : VirtAddr) (s : Shape) (m : Memory) → Extends root s s m m
same_Extends root s m = record {
  kept = λ n i r p. refl;
  ranks = λ n r. refl;
  opens = refl;
  same = λ v o. refl;
  cr3 = refl;
  beside = same_Beside s m;
}

stepped :
    (root room n i d : ℕ) (s : Shape) (m : Memory)
    → IsTree root (suc room) s m
    → s.rank n ≡ suc (suc d)
    → i < 512
    → Open s i d
    → (c : VirtAddr) × (s' : Shape) × (m' : Memory) × Stepped root room n i d s m c s' m'
stepped root room n i d s m tree rank h o = elim (Bool-cases (is_present (m.nodes n i))) [
  | inl p ↦
      let (rank_c, owner_c, _) = tree.children n i d rank h o p in
      let under = tree.used (child (m.nodes n i)) (omega (arith, rank_c)) in
      (
        child (m.nodes n i),
        s,
        m,
        record {
          run = found_table n i m h p (omega (arith, under, tree.high, tree.left));
          tree' = lessen (omega arith) tree;
          there = p;
          points = refl;
          level = rank_c;
          extends = same_Extends root s m;
        },
      )
  | inr absent ↦
      let (p, made, behind, aligned, near) =
        box_node-boxed m tree.heap_free tree.heap (omega (arith, tree.left)) in
      let is = here tree n i d rank h absent p behind near aligned in
      (
        p,
        grow_shape s n i p (suc d),
        grown m n i p (pointer p),
        record {
          run =
              new_table n i m p h absent made
                (fresh tree n i d rank h absent p behind near aligned n (omega arith))
                (lo tree n i d rank h absent p behind near aligned)
                (hi tree n i d rank h absent p behind near aligned) aligned;
          tree' = grown-IsTree tree n i d rank h absent p behind near aligned;
          there = ap is_present (is_grown tree n i d rank h absent p behind near aligned).at ∙ is.0;
          points = ap child (is_grown tree n i d rank h absent p behind near aligned).at ∙ is.1;
          level = (is_grown tree n i d rank h absent p behind near aligned).level;
          extends = grown-Extends tree n i d rank h absent p behind near aligned;
        },
      )
]

pub kept-IsOpen :
    {root : VirtAddr} {s s' : Shape} {m m' : Memory}
    → Extends root s s' m m'
    → (v : VirtAddr) → IsOpen s v
    → IsOpen s' v
kept-IsOpen a v o = ap (λ (f : ℕ → Bool). f (digit v 4)) a.opens ∙ o

pub trans_Extends :
    {root : VirtAddr} {s s1 s2 : Shape} {m m1 m2 : Memory}
    → Extends root s s1 m m1
    → Extends root s1 s2 m1 m2
    → Extends root s s2 m m2
trans_Extends {root} {s} {s1} {s2} {m} {m1} {m2} a b = record {
  kept = λ n i r p.
      b.kept n i (omega (arith, a.ranks n r)) (ap is_present (a.kept n i r p) ∙ p) ∙ a.kept n i r p;
  ranks = λ n r. b.ranks n (omega (arith, a.ranks n r)) ∙ a.ranks n r;
  opens = b.opens ∙ a.opens;
  same = λ v o. b.same v (kept-IsOpen a v o) ∙ a.same v o;
  cr3 = b.cr3 ∙ a.cr3;
  beside = trans_Beside a.beside b.beside;
}

-- The levels that `descend` visits from depth `d`.
abbrev pub from_depth : ℕ → List ℕ
from_depth zero = []
from_depth (suc d) = (d + 2) ∷ from_depth d

pub record Descended (root room v d x : ℕ) (s : Shape) (m : Memory) (l : VirtAddr) (s' : Shape)
    (m' : Memory) : Type 0 where
  pub run : descend (from_depth d) v x m ≡ ok (l, m')
  pub tree' : IsTree root room s' m'
  pub way : leaf m'.nodes v d x ≡ some l
  pub level : s'.rank l ≡ 1
  pub extends : Extends root s s' m m'

descend-step :
    (v x i c l d : ℕ) (m m1 m2 : Memory)
    → nth_level_table_index v (d + 2) ≡ ok i
    → get_or_alloc_next_level_table x i m ≡ ok (c, m1)
    → descend (from_depth d) v c m1 ≡ ok (l, m2)
    → descend (from_depth (suc d)) v x m ≡ ok (l, m2)
unfolding descend
descend-step v x i c l d m m1 m2 e1 e2 e3 = rw (e1, e2, e3) refl

pub descended :
    (root room v d x : ℕ) (s : Shape) (m : Memory)
    → IsTree root (d + room) s m
    → d ≤ 3
    → IsOpen s v
    → s.rank x ≡ suc d
    → (l : VirtAddr) × (s' : Shape) × (m' : Memory) × Descended root room v d x s m l s' m'
unfolding descend
descended root room v zero x s m tree small o rank = (
  x,
  s,
  m,
  record {
    run = refl;
    tree' = at_room (omega arith) tree;
    way = leaf-zero liner_mapping_base_vaddr m.nodes v x;
    level = rank;
    extends = same_Extends root s m;
  },
)
descended root room v (suc d) x s m tree small o rank =
    let i = digit v (d + 2) in
    let (c, s1, m1, first) =
      stepped root (d + room) x i d s m (at_room (omega arith) tree) rank (digit-lt v (d + 2))
        (opened s v d o) in
    let (l, s2, m2, rest) =
      descended root room v d c s1 m1 first.tree' (omega arith) (kept-IsOpen first.extends v o)
        first.level in
    let kept =
      rest.extends.kept x i (omega (arith, first.extends.ranks x (omega arith))) first.there in
    (
      l,
      s2,
      m2,
      record {
        run =
            descend-step v x i c l d m m1 m2
              (nth_level_table_index-digit v (d + 2) (omega arith) (omega arith)) first.run
              rest.run;
        tree' = rest.tree';
        way =
            leaf-present liner_mapping_base_vaddr m2.nodes v d x (ap is_present kept ∙ first.there)
            ∙ ap (leaf m2.nodes v d) (ap child kept ∙ first.points)
            ∙ rest.way;
        level = rest.level;
        extends = trans_Extends first.extends rest.extends;
      },
    )
