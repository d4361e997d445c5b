-- ===== src/Loader/Paging/Walk.antt =====
-- Trees of tables in loader/src/paging.rs, and the blocks that its allocator has for more tables.
pub mod Stepped
pub mod Descend
pub mod Pages
pub mod Mapping
pub mod Huge
pub mod Window
pub mod Early
pub mod Samples
mod Tests
use noctis.Common.{
  ℕ, zero, suc, ◌+◌, ◌%◌, ◌^◌, ◌≤◌, ◌<◌, ◌≡◌, ◌≢◌, refl, ap, ◌∙◌, arith, List, [], ◌∷◌, bit_or,
  true, ok,
}
use noctis.Paging.Entry as Kernel
use noctis.Paging.Entry.Fields.{Rights, table_entry}
use noctis.Tables.{child, lookup, Shape, IsOpen, IsPlain, IsNet}
use noctis.Loader.Paging.Entry.{
  PhysAddr, PageTableEntry, is_present, attr_value, read_write_execute_kernel,
}
use noctis.Loader.Paging.Memory.{Memory}

-- `x` is none of the blocks.
abbrev pub Lacks : PhysAddr → List PhysAddr → Type 0
Lacks x [] = Unit {0}
Lacks x (q ∷ blocks) = (q ≢ x) × Lacks x blocks

-- The next `k` blocks of the allocator are pages below bit 52, are no tables of the tree, and come up
-- once each.
abbrev pub Stock : Shape → ℕ → List PhysAddr → Type 0
Stock s zero blocks = Unit {0}
Stock s (suc k) [] = ⊥
Stock s (suc k) (p ∷ blocks) =
    (p % 4096 ≡ 0) × (p < 2 ^ 52) × (s.rank p ≡ 0) × Lacks p blocks × Stock s k blocks

pub Stock-less :
    (s : Shape) (k j : ℕ) (blocks : List PhysAddr) → j ≤ k → Stock s k blocks → Stock s j blocks
Stock-less s k zero blocks le a = tt
Stock-less s zero (suc j) blocks le a = absurd (omega arith)
Stock-less s (suc k) (suc j) [] le a = absurd a
Stock-less s (suc k) (suc j) (q ∷ blocks) le (page, low, free, avoids, a) =
    (page, low, free, avoids, Stock-less s k j blocks (omega arith) a)

-- Blocks that are no tables stay so where one other becomes a table.
pub Stock-kept :
    (s s' : Shape) (p : PhysAddr) (k : ℕ) (blocks : List PhysAddr)
    → ((x : PhysAddr) → x ≢ p → s'.rank x ≡ s.rank x)
    → Lacks p blocks
    → Stock s k blocks
    → Stock s' k blocks
Stock-kept s s' p zero blocks same a b = tt
Stock-kept s s' p (suc k) [] same a b = absurd b
Stock-kept s s' p (suc k) (q ∷ blocks) same (ne, a) (page, low, free, avoids, b) =
    (page, low, same q ne ∙ free, avoids, Stock-kept s s' p k blocks same a b)

-- The tables below the open entries of `root` form a tree, and there are blocks for `room` more.
pub record IsTree (root : PhysAddr) (room : ℕ) (s : Shape) (m : Memory) : Type 0 where
  pub net : IsNet 0 root s m.nodes
  pub stock : Stock s room m.blocks

-- What growing and storing leave of the nodes that are no tables of the tree and no blocks of the
-- allocator, and of the entries above the last level.
pub record Beside (s s' : Shape) (m m' : Memory) : Type 0 where
  pub blocks : (x : PhysAddr) → Lacks x m.blocks → Lacks x m'.blocks
  pub apart : (x j : ℕ) → Lacks x m.blocks → s.rank x ≡ 0 → m'.nodes x j ≡ m.nodes x j
  pub unranked : (x : ℕ) → Lacks x m.blocks → s.rank x ≡ 0 → s'.rank x ≡ 0
  pub upper :
      (x j : ℕ) → 1 < s.rank x → Kernel.is_present (m.nodes x j) ≡ true → m'.nodes x j ≡ m.nodes x j
  pub kept_rank : (x : ℕ) → 0 < s.rank x → s'.rank x ≡ s.rank x

pub same_Beside : (s : Shape) (m : Memory) → Beside s s m m
same_Beside s m = record {
  blocks = λ x l. l;
  apart = λ x j l r. refl;
  unranked = λ x l r. r;
  upper = λ x j r p. refl;
  kept_rank = λ x r. refl;
}

pub trans_Beside :
    {s s1 s2 : Shape} {m m1 m2 : Memory} → Beside s s1 m m1 → Beside s1 s2 m1 m2 → Beside s s2 m m2
trans_Beside a b = record {
  blocks = λ x l. b.blocks x (a.blocks x l);
  apart = λ x j l r. b.apart x j (a.blocks x l) (a.unranked x l r) ∙ a.apart x j l r;
  unranked = λ x l r. b.unranked x (a.blocks x l) (a.unranked x l r);
  upper = λ x j r p.
      b.upper x j (omega (arith, a.kept_rank x (omega arith)))
        (ap Kernel.is_present (a.upper x j r p) ∙ p)
      ∙ a.upper x j r p;
  kept_rank = λ x r. b.kept_rank x (omega (arith, a.kept_rank x r)) ∙ a.kept_rank x r;
}

-- What growing leaves of the tables that were there, and of what they translate.
pub record Extends (root : PhysAddr) (s s' : Shape) (m m' : Memory) : Type 0 where
  pub kept :
      (n i : ℕ) → 0 < s.rank n → Kernel.is_present (m.nodes n i) ≡ true → m'.nodes n i ≡ m.nodes n i
  pub ranks : (n : ℕ) → 0 < s.rank n → s'.rank n ≡ s.rank n
  pub opens : s'.is_open ≡ s.is_open
  pub same : (v : ℕ) → IsOpen s v → lookup 0 m'.nodes root v ≡ lookup 0 m.nodes root v
  pub cr3 : m'.cr3 ≡ m.cr3
  pub beside : Beside s s' m m'

pub same_Extends : (root : PhysAddr) (s : Shape) (m : Memory) → Extends root s s m m
same_Extends root s m = record {
  kept = λ n i r p. refl;
  ranks = λ n r. refl;
  opens = refl;
  same = λ v o. refl;
  cr3 = refl;
  beside = same_Beside s m;
}

-- The new entry for a table.
abbrev pub pointer : PhysAddr → PageTableEntry
pointer p = bit_or p (attr_value read_write_execute_kernel)

pub pointer-child :
    (p : PhysAddr)
    → p < 2 ^ 52
    → p % 4096 ≡ 0
    → (Kernel.is_present (pointer p) ≡ true) × (child 0 (pointer p) ≡ p) × IsPlain (pointer p)
unfolding attr_value Kernel.attr_value
pointer-child p f h =
    let (granted, address) = table_entry p (omega arith) h in
    (
      ap Rights.present granted,
      omega (arith, address),
      (
        ap Rights.huge granted,
        ap Rights.writable granted,
        ap Rights.user granted,
        ap Rights.executable granted,
      ),
    )
