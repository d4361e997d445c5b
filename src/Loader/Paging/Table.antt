-- ===== src/Loader/Paging/Table.antt =====
-- `PageTableEntry`'s node methods and `PageTable` of loader/src/paging.rs. A `&mut PageTableEntry` is
-- the node that holds the entry and its index; a `&mut PageTableNode` is the node's address.
use noctis.Common.{
  ℕ, zero, suc, ◌+◌, ◌/◌, ◌%◌, ◌^◌, bit_or, Bool, true, false, not, ◌&&◌, Option, none, some, err,
  already_allocated, unwrapped, some_or, assert, add_usize, mul_usize, ◌==◌, if◌then◌else◌, List,
  [], ◌∷◌,
}
use noctis.Loader.Address as Address
use noctis.Loader.Address.{VirtAddr, nth_level_table_index, pml4_index, pdpt_index, pt_index}
use noctis.Loader.Paging.Entry.{
  PhysAddr, PageTableAttr, read_write_execute_kernel, read_write_kernel_1gib, attr_value,
  PageTableEntry, is_present, paddr, set_entry,
}
use noctis.Loader.Paging.Memory.{M, pure, lift, unwrap, ◌>>=◌, ◌>>◌, load, store, box_node}

abbrev pub page_size : ℕ
page_size = 4096

unfoldable pub next_node_mut : PageTableEntry → Option PhysAddr
unfolding is_present paddr
next_node_mut self = if not (is_present self) then none else some (paddr self)

unfoldable pub alloc_next_level_table : PhysAddr → ℕ → M (Unit {0})
unfolding is_present load store attr_value box_node
alloc_next_level_table node index = do
  self ← load node index
  if is_present self
      then lift (err already_allocated)
      else do next ← box_node; store node index (bit_or next (attr_value read_write_execute_kernel))

unfoldable pub get_or_alloc_next_level_table : PhysAddr → ℕ → M PhysAddr
unfolding is_present load alloc_next_level_table next_node_mut
get_or_alloc_next_level_table node index = do
  self ← load node index
  (if not (is_present self) then unwrap (alloc_next_level_table node index) else pure tt)
  self' ← load node index
  lift (some_or unwrapped (next_node_mut self'))

unfoldable pub set_entry_at : PhysAddr → ℕ → PhysAddr → PageTableAttr → M (Unit {0})
unfolding load store set_entry
set_entry_at node index phys attr = do
  _ ← load node index
  e ← lift (set_entry phys attr)
  store node index e

-- `for level in (2..=4).rev()`
unfoldable pub descend : List ℕ → VirtAddr → PhysAddr → M PhysAddr
unfolding nth_level_table_index get_or_alloc_next_level_table
descend [] vaddr node = pure node
descend (level ∷ levels) vaddr node = do
  index ← lift (nth_level_table_index vaddr level)
  next ← get_or_alloc_next_level_table node index
  descend levels vaddr next

abbrev pub levels : List ℕ
levels = 4 ∷ 3 ∷ 2 ∷ []

-- `for i in 0..(num_pages / (1 << 18))`, with the rounds left first.
unfoldable pub map_huge : ℕ → ℕ → PhysAddr → ℕ → PhysAddr → PageTableAttr → M (Unit {0})
unfolding load store set_entry
map_huge zero i pdpt index phys attr = pure tt
map_huge (suc left) i pdpt index phys attr = do
  at ← lift (add_usize index i)
  _ ← load pdpt at
  offset ← lift (mul_usize i (2 ^ 30))
  target ← lift (add_usize phys offset)
  e ← lift (set_entry target attr)
  store pdpt at e
  map_huge left (i + 1) pdpt index phys attr

-- `for i in 0..num_pages`, with the rounds left first.
module _ (self : PhysAddr) (start_index : ℕ) (attr : PageTableAttr) where
  unfoldable pub map_pages : ℕ → ℕ → PhysAddr → VirtAddr → PhysAddr → M (Unit {0})
  unfolding descend set_entry_at Address.add
  map_pages zero i node vaddr paddr = pure tt
  map_pages (suc left) i node vaddr paddr = do
    sum ← lift (add_usize start_index i)
    let index = sum % 512
    node' ← (if index == 0 && not (i == 0) then descend levels vaddr self else pure node)
    set_entry_at node' index paddr attr
    paddr' ← lift (add_usize paddr page_size)
    map_pages left (i + 1) node' (Address.add vaddr page_size) paddr'

abbrev pub is_1gib : PageTableAttr → Bool
is_1gib read_write_kernel_1gib = true
is_1gib _ = false

-- `PageTable::map`
unfoldable pub map_range : PhysAddr → VirtAddr → PhysAddr → ℕ → PageTableAttr → M (Unit {0})
unfolding map_huge map_pages descend get_or_alloc_next_level_table pml4_index pdpt_index pt_index
map_range self virt_start phys_start num_pages attr = do
  lift (assert (virt_start % page_size == 0))
  lift (assert (phys_start % page_size == 0))
  if is_1gib attr && virt_start % 2 ^ 30 == 0 && phys_start % 2 ^ 30 == 0 && num_pages % 2 ^ 18 == 0
      then (do
        index4 ← lift (pml4_index virt_start)
        index3 ← lift (pdpt_index virt_start)
        pdpt ← get_or_alloc_next_level_table self index4
        map_huge (num_pages / 2 ^ 18) 0 pdpt index3 phys_start attr)
      else do
        node ← descend levels virt_start self
        start_index ← lift (pt_index virt_start)
        map_pages self start_index attr num_pages 0 node virt_start phys_start

-- `usize::div_ceil`
abbrev pub div_ceil : ℕ → ℕ → ℕ
div_ceil a b = if 0 == a % b then a / b else a / b + 1

unfoldable pub create_mapping : PhysAddr → VirtAddr → PhysAddr → ℕ → PageTableAttr → M (Unit {0})
unfolding map_range
create_mapping self virt_start phys_start size attr =
    map_range self virt_start phys_start (div_ceil size page_size) attr
