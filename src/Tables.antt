-- ===== src/Tables.antt =====
-- Four levels of page tables, as the code that fills them walks them, and the trees of tables in which
-- the entry that it finds is the one by which the processor translates (Tables/Translate.antt). `base` is the address at which physical memory is seen: that of the
-- linear window in the kernel, 0 in the loader.
pub mod Ways
pub mod Store
pub mod Grow
pub mod Range
pub mod Huge
pub mod Translate
pub mod Direct
use noctis.Common.{
  ℕ, zero, suc, ◌+◌, ◌*◌, ◌/◌, ◌%◌, ◌^◌, ◌≤◌, ◌<◌, ◌≡◌, Bool, true, false, Option, none, some, ◌==◌,
  ◌&&◌, if◌then◌else◌,
}
use noctis.MemLayout.{VirtAddr}
use noctis.MemLayout.Index.{digit}
use noctis.Paging.Entry.{
  PageTableEntry, is_present, is_writable, is_user_accessible, is_huge, is_executable, paddr,
}

-- The entries of the tables, by the addresses at which these are seen.
abbrev pub Nodes : Type 0
Nodes = VirtAddr → ℕ → PageTableEntry

abbrev pub write : Nodes → VirtAddr → ℕ → PageTableEntry → Nodes
write nodes node index e n i = if n == node && i == index then e else nodes n i

-- The table that an entry points to.
abbrev pub child : ℕ → PageTableEntry → VirtAddr
child base e = paddr e + base

-- The last table on the way of address `v` from a table at depth `d` above the last level.
pub leaf : ℕ → Nodes → VirtAddr → ℕ → VirtAddr → Option VirtAddr
leaf base nodes v zero x = some x
leaf base nodes v (suc d) x = elim (is_present (nodes x (digit v (d + 2)))) [
  | true ↦ leaf base nodes v d (child base (nodes x (digit v (d + 2))))
  | false ↦ none
]

abbrev pub entry_in : Nodes → VirtAddr → Option VirtAddr → PageTableEntry
entry_in nodes v none = 0
entry_in nodes v (some l) = nodes l (digit v 1)

-- The entry of the last level on the way of `v`, 0 where there is none.
unfoldable pub lookup : ℕ → Nodes → VirtAddr → VirtAddr → PageTableEntry
unfolding leaf
lookup base nodes root v = entry_in nodes v (leaf base nodes v 3 root)

-- The number of the page, of 36 bits.
abbrev pub page : VirtAddr → ℕ
page v = v / 4096 % 2 ^ 36

-- What is known of the tables besides their entries: the level of each, 0 for what is no table, the
-- one place that points to it, and which entries of the uppermost table lead to tables only. The others
-- may lead to pages of 1 GiB.
pub record Shape : Type 0 where
  pub rank : VirtAddr → ℕ
  pub owner : VirtAddr → VirtAddr × ℕ
  pub is_open : ℕ → Bool

abbrev pub Open : Shape → ℕ → ℕ → Type 0
Open s i d = d ≡ 2 → s.is_open i ≡ true

abbrev pub IsOpen : Shape → VirtAddr → Type 0
IsOpen s v = s.is_open (digit v 4) ≡ true

-- The entry leads to a table and takes no right away from the kernel: it is not the entry of a huge page.
abbrev pub IsPlain : PageTableEntry → Type 0
IsPlain e =
    (is_huge e ≡ false)
    × (is_writable e ≡ true)
    × (is_user_accessible e ≡ false)
    × (is_executable e ≡ true)

-- The tables below the open entries of `root` form a tree, whose entries above the last level are plain.
pub record IsNet (base : ℕ) (root : VirtAddr) (s : Shape) (nodes : Nodes) : Type 0 where
  pub top : s.rank root ≡ 4
  pub children :
      (n i d : ℕ)
      → s.rank n ≡ suc (suc d)
      → i < 512
      → Open s i d
      → is_present (nodes n i) ≡ true
      → (s.rank (child base (nodes n i)) ≡ suc d)
        × (s.owner (child base (nodes n i)) ≡ (n, i))
        × IsPlain (nodes n i)
