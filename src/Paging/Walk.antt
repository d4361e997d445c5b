-- ===== src/Paging/Walk.antt =====
-- What the tables of kernel/src/paging.rs translate: the trees of tables that the code builds, on which the
-- processor's walk (Tables/Translate.antt) ends at the entries that the code has written.
pub mod Entries
pub mod Grow
pub mod Descend
pub mod Leaf
pub mod Pages
pub mod Mapping
pub mod Sections
pub mod Window
pub mod Space
pub mod Reached
pub mod Boot
mod Tests
use noctis.Common.{ℕ, zero, suc, ◌+◌, ◌*◌, ◌≤◌, ◌<◌, ◌≡◌, true, false, Option}
use noctis.MemLayout.{VirtAddr, liner_mapping_base_vaddr, liner_mapping_size}
use noctis.Allocator.Laws.{IsHeap}
use noctis.Paging.Entry.{PageTableEntry, is_present}
use noctis.Paging.Memory.{Memory}
use noctis.Tables
use noctis.Tables.{IsPlain, IsNet}
pub use noctis.Tables.{Nodes, entry_in, page, Shape, Open, IsOpen}

-- The table that an entry points to, seen in the linear window.
abbrev pub child : PageTableEntry → VirtAddr
child e = Tables.child liner_mapping_base_vaddr e

abbrev pub leaf : Nodes → VirtAddr → ℕ → VirtAddr → Option VirtAddr
leaf nodes v d x = Tables.leaf liner_mapping_base_vaddr nodes v d x

abbrev pub lookup : Nodes → VirtAddr → VirtAddr → PageTableEntry
lookup nodes root v = Tables.lookup liner_mapping_base_vaddr nodes root v

-- The tables below the open entries of `root` form a tree of plain entries in the linear window, below what the
-- heap has left; the heap has room for `room` more tables.
pub record IsTree (root : VirtAddr) (room : ℕ) (s : Shape) (m : Memory) : Type 0 where
  pub top : s.rank root ≡ 4
  pub children :
      (n i d : ℕ)
      → s.rank n ≡ suc (suc d)
      → i < 512
      → Open s i d
      → is_present (m.nodes n i) ≡ true
      → (s.rank (child (m.nodes n i)) ≡ suc d)
        × (s.owner (child (m.nodes n i)) ≡ (n, i))
        × IsPlain (m.nodes n i)
  pub used : (n : ℕ) → 0 < s.rank n → n < m.heap.value.next
  pub heap_free : m.heap.locked ≡ false
  pub heap : IsHeap m.heap.value
  pub low : liner_mapping_base_vaddr ≤ m.heap.value.next
  pub high : m.heap.value.end ≤ liner_mapping_base_vaddr + liner_mapping_size
  pub left : m.heap.value.next + 8192 * room ≤ m.heap.value.end

pub net :
    {root room : ℕ} {s : Shape} {m : Memory}
    → IsTree root room s m
    → IsNet liner_mapping_base_vaddr root s m.nodes
net tree = record { top = tree.top; children = tree.children }
