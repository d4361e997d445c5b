-- ===== src/Loader/Paging/Walk/Stepped.antt =====
-- `get_or_alloc_next_level_table` of loader/src/paging.rs on a tree of tables.
use noctis.Common.{
  ℕ, suc, ◌%◌, ◌^◌, ◌≤◌, ◌<◌, ◌≡◌, ◌≢◌, inl, inr, refl, sym, ap, ◌∙◌, arith, true, false,
  Bool-cases, ok, List, [], ◌∷◌,
}
use mathlib.Core.Path.{subst}
use noctis.Paging.Entry as Kernel
use noctis.Tables.{child, Shape, Open}
use noctis.Tables.Grow.{grow, grow_shape, IsGrown, grow-IsGrown}
use noctis.Loader.Paging.Entry.{PhysAddr, paddr}
use noctis.Loader.Paging.Entry.Same.{is_present-eq, paddr-eq}
use noctis.Loader.Paging.Memory.{Memory}
use noctis.Loader.Paging.Table.{get_or_alloc_next_level_table}
use noctis.Loader.Paging.Walk.{
  Lacks, Stock, Stock-less, Stock-kept, IsTree, Beside, Extends, same_Extends, pointer,
  pointer-child,
}

pub found_table :
    (n i : ℕ) (m : Memory)
    → i < 512
    → Kernel.is_present (m.nodes n i) ≡ true
    → get_or_alloc_next_level_table n i m ≡ ok (child 0 (m.nodes n i), m)
unfolding get_or_alloc_next_level_table
found_table n i m h p =
    let q = is_present-eq (m.nodes n i) ∙ p in let a = paddr-eq (m.nodes n i) in ground arith

-- The memory with a table in block `p`, where the entry leads.
abbrev pub grown : Memory → ℕ → ℕ → PhysAddr → List PhysAddr → Memory
grown m n i p rest = record m { nodes = grow m.nodes n i p (pointer p); blocks = rest }

pub new_table :
    (n i : ℕ) (m : Memory) (p : PhysAddr) (rest : List PhysAddr)
    → m.blocks ≡ p ∷ rest
    → i < 512
    → Kernel.is_present (m.nodes n i) ≡ false
    → n ≢ p
    → p < 2 ^ 52
    → p % 4096 ≡ 0
    → get_or_alloc_next_level_table n i m ≡ ok (p, grown m n i p rest)
unfolding get_or_alloc_next_level_table
new_table n i m p rest e h absent ne low aligned =
    let gone = is_present-eq (m.nodes n i) ∙ absent in
    let present = is_present-eq (pointer p) ∙ (pointer-child p low aligned).0 in
    let address : paddr (pointer p) ≡ p =
      omega (arith, paddr-eq (pointer p), (pointer-child p low aligned).1) in
    ground (arith, e)

-- The result of a call that returned table `c`.
pub record Stepped (root room n i d : ℕ) (s : Shape) (m : Memory) (c : PhysAddr) (s' : Shape)
    (m' : Memory) : Type 0 where
  pub run : get_or_alloc_next_level_table n i m ≡ ok (c, m')
  pub tree' : IsTree root room s' m'
  pub there : Kernel.is_present (m'.nodes n i) ≡ true
  pub points : child 0 (m'.nodes n i) ≡ c
  pub level : s'.rank c ≡ suc d
  pub extends : Extends root s s' m m'

pub lessen : {root a b : ℕ} {s : Shape} {m : Memory} → b ≤ a → IsTree root a s m → IsTree root b s m
lessen {root} {a} {b} {s} {m} less tree = record {
  net = tree.net;
  stock = Stock-less s a b m.blocks less tree.stock;
}

pub at_room :
    {root a b : ℕ} {s : Shape} {m : Memory} → a ≡ b → IsTree root a s m → IsTree root b s m
at_room {root} {a} {b} {s} {m} e tree = subst (λ k. IsTree root k s m) e tree

pub grown-Beside :
    {root : ℕ} (m : Memory) (n i d : ℕ) (s : Shape) (p : PhysAddr) (rest : List PhysAddr)
    → m.blocks ≡ p ∷ rest
    → IsGrown 0 root s
        (grow_shape s n i p (suc d))
        m.nodes
        (grown m n i p rest).nodes
        n
        i
        d
        p
        (pointer p)
    → s.rank n ≡ suc (suc d)
    → Beside s (grow_shape s n i p (suc d)) m (grown m n i p rest)
grown-Beside m n i d s p rest e now rank =
    let differ : (x : ℕ) → Lacks x m.blocks → x ≢ p =
      λ x l same. (subst (Lacks x) e l).0 (sym same) in
    record {
      blocks = λ x l. (subst (Lacks x) e l).1;
      apart = λ x j l r. now.old x j (differ x l) (inl λ same. omega (arith, ap s.rank same));
      unranked = λ x l r. now.old_rank x (differ x l) ∙ r;
      upper = λ x j r q. now.kept x j (omega arith) q;
      kept_rank = now.kept_rank;
    }

pub made :
    (root room n i d : ℕ) (s : Shape) (m : Memory) (blocks : List PhysAddr)
    → m.blocks ≡ blocks
    → IsTree root (suc room) s m
    → Stock s (suc room) blocks
    → s.rank n ≡ suc (suc d)
    → i < 512
    → Kernel.is_present (m.nodes n i) ≡ false
    → (c : PhysAddr) × (s' : Shape) × (m' : Memory) × Stepped root room n i d s m c s' m'
made root room n i d s m [] e tree stock rank h absent = absurd stock
made root room n i d s m (p ∷ rest) e tree (aligned, low, free, avoids, stock) rank h absent =
    let is = pointer-child p low aligned in
    let fresh : (x : ℕ) → 0 < s.rank x → x ≢ p = λ x r same. omega (arith, ap s.rank same) in
    let now = grow-IsGrown tree.net n i d rank h absent p fresh (pointer p) is.0 is.1 is.2 in
    let s' = grow_shape s n i p (suc d) in
    (
      p,
      s',
      grown m n i p rest,
      record {
        run = new_table n i m p rest e h absent (fresh n (omega arith)) low aligned;
        tree' = record {
          net = now.tree;
          stock = Stock-kept s s' p room rest now.old_rank avoids stock;
        };
        there = ap Kernel.is_present now.at ∙ is.0;
        points = ap (child 0) now.at ∙ is.1;
        level = now.level;
        extends = record {
          kept = now.kept;
          ranks = now.kept_rank;
          opens = refl;
          same = now.same;
          cr3 = refl;
          beside = grown-Beside m n i d s p rest e now rank;
        };
      },
    )

pub stepped :
    (root room n i d : ℕ) (s : Shape) (m : Memory)
    → IsTree root (suc room) s m
    → s.rank n ≡ suc (suc d)
    → i < 512
    → Open s i d
    → (c : PhysAddr) × (s' : Shape) × (m' : Memory) × Stepped root room n i d s m c s' m'
stepped root room n i d s m tree rank h o = elim (Bool-cases (Kernel.is_present (m.nodes n i))) [
  | inl p ↦ (
    child 0 (m.nodes n i),
    s,
    m,
    record {
      run = found_table n i m h p;
      tree' = lessen (omega arith) tree;
      there = p;
      points = refl;
      level = (tree.net.children n i d rank h o p).0;
      extends = same_Extends root s m;
    },
  )
  | inr absent ↦ made root room n i d s m m.blocks refl tree tree.stock rank h absent
]
