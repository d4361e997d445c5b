-- ===== src/Paging/Table/Huge.antt =====
-- The loop that maps pages of 1 GiB.
use noctis.Common.{ℕ, zero, suc, ◌+◌, ◌*◌, ◌%◌, ◌^◌, ◌≤◌, ◌<◌, ◌≡◌, ◌≢◌, refl, ◌∙◌, ◌⊎◌, arith, ok}
use noctis.MemLayout.{VirtAddr, PhysAddr}
use noctis.Paging.Entry.{PageTableAttr, PageTableEntry, paddr, set_entry}
use noctis.Paging.Entry.Fields.{rights, decode, set_entry_lem}
use noctis.Paging.Memory.{Memory, write}
use noctis.Paging.Table.{map_huge}
use noctis.Tables.Huge.{put-join}

-- An entry that holds an address and the rights of an attribute.
abbrev pub Holds : PageTableEntry → PhysAddr → PageTableAttr → Type 0
Holds e p a = (paddr e ≡ p) × (decode e ≡ rights a)

-- The rounds from `lo` up to `hi` have each written their entry, and nothing else has changed.
pub record IsMapped (pdpt : VirtAddr) (index : ℕ) (phys : PhysAddr) (attr : PageTableAttr)
    (lo hi : ℕ) (m m' : Memory) : Type 0 where
  pub entries :
      (j : ℕ) → lo ≤ j → j < hi → Holds (m'.nodes pdpt (index + j)) (phys + j * 2 ^ 30) attr
  pub others :
      (n j : ℕ) → (n ≢ pdpt) ⊎ ((j < index + lo) ⊎ (index + hi ≤ j)) → m'.nodes n j ≡ m.nodes n j
  pub heap : m'.heap ≡ m.heap
  pub cr3 : m'.cr3 ≡ m.cr3

abbrev put : VirtAddr → ℕ → PageTableEntry → Memory → Memory
put node i e m = record m { nodes = write m.nodes node i e }

module _ (pdpt : VirtAddr) (index : ℕ) (phys : PhysAddr) (attr : PageTableAttr) where
  map_huge-next :
      (left i : ℕ) (m : Memory) (e : PageTableEntry)
      → index + i < 512
      → phys + i * 2 ^ 30 < 2 ^ 63
      → set_entry (phys + i * 2 ^ 30) attr ≡ ok e
      → map_huge (suc left) i pdpt index phys attr m
        ≡ map_huge left (i + 1) pdpt index phys attr (put pdpt (index + i) e m)
  unfolding map_huge
  map_huge-next left i m e room fits set = ground (arith, set)

  put-IsMapped :
      (i hi : ℕ) (m m' : Memory) (e : PageTableEntry)
      → i < hi
      → Holds e (phys + i * 2 ^ 30) attr
      → IsMapped pdpt index phys attr (i + 1) hi (put pdpt (index + i) e m) m'
      → IsMapped pdpt index phys attr i hi m m'
  put-IsMapped i hi m m' e lt holds rest =
      let all =
        put-join {IsRight = λ e p. Holds e p attr} i hi m.nodes m'.nodes e lt holds
          (record { entries = rest.entries; others = rest.others }) in
      record { entries = all.entries; others = all.others; heap = rest.heap; cr3 = rest.cr3 }

  rounds :
      (left i : ℕ) (m : Memory)
      → index + (i + left) ≤ 512
      → phys % 2 ^ 30 ≡ 0
      → phys + (i + left) * 2 ^ 30 ≤ 2 ^ 63
      → (m' : Memory) × (map_huge left i pdpt index phys attr m ≡ ok (tt, m'))
        × IsMapped pdpt index phys attr i (i + left) m m'
  rounds zero i m room aligned fits = (
    m,
    unfold map_huge in refl,
    record {
      entries = λ j a b. absurd (omega arith);
      others = λ n j a. refl;
      heap = refl;
      cr3 = refl;
    },
  )
  rounds (suc left) i m room aligned fits =
      let taken = (set_entry_lem (phys + i * 2 ^ 30) attr (omega arith)).0 in
      let (e, set, address, granted) = taken (omega arith) (omega arith) in
      let (m', run, rest) =
        rounds left (i + 1) (put pdpt (index + i) e m) (omega arith) aligned (omega arith) in
      let shift : i + suc left ≡ i + 1 + left = omega arith in
      (
        m',
        map_huge-next left i m e (omega arith) (omega arith) set ∙ run,
        rw shift (put-IsMapped i (i + 1 + left) m m' e (omega arith) (address, granted) rest),
      )

-- The rounds for `n` pages of 1 GiB, from an aligned address on, that stay inside the node and below
-- bit 63, come to an end: entry `index + j` of the node then holds the address of page `j` and the
-- rights of the attribute, and every other entry is as before.
pub map_huge-IsMapped :
    (n : ℕ) (pdpt : VirtAddr) (index : ℕ) (phys : PhysAddr) (attr : PageTableAttr) (m : Memory)
    → index + n ≤ 512
    → phys % 2 ^ 30 ≡ 0
    → phys + n * 2 ^ 30 ≤ 2 ^ 63
    → (m' : Memory) × (map_huge n 0 pdpt index phys attr m ≡ ok (tt, m'))
      × IsMapped pdpt index phys attr 0 n m m'
map_huge-IsMapped n pdpt index phys attr m room aligned fits =
    let (m', run, mapped) = rounds pdpt index phys attr n 0 m (omega arith) aligned (omega arith) in
    let e : 0 + n ≡ n = omega arith in (m', run, rw e at mapped)
