-- ===== src/Loader/Paging/Walk/Huge.antt =====
-- The loop of `PageTable::map` in loader/src/paging.rs over pages of 1 GiB.
use noctis.Common.{ℕ, zero, suc, ◌+◌, ◌*◌, ◌%◌, ◌^◌, ◌≤◌, ◌<◌, ◌≡◌, refl, ◌∙◌, arith, ok}
use noctis.Paging.Table.Huge.{Holds}
use noctis.Tables.Huge.{Fills, put-join}
use noctis.Loader.Paging.Entry.{PhysAddr, PageTableAttr, PageTableEntry, set_entry}
use noctis.Loader.Paging.Entry.Same.{kernel_attr}
use noctis.Loader.Paging.Memory.{Memory}
use noctis.Loader.Paging.Table.{map_huge}
use noctis.Loader.Paging.Walk.Pages.{stored, written}

-- The rounds from `lo` up to `hi` have each written their entry, and nothing else has changed.
pub record IsMapped (pdpt : PhysAddr) (index : ℕ) (phys : PhysAddr) (attr : PageTableAttr)
    (lo hi : ℕ) (m m' : Memory) : Type 0 where
  pub fills : Fills pdpt index phys (λ e q. Holds e q (kernel_attr attr)) lo hi m.nodes m'.nodes
  pub blocks : m'.blocks ≡ m.blocks
  pub cr3 : m'.cr3 ≡ m.cr3

module _ (pdpt : PhysAddr) (index : ℕ) (phys : PhysAddr) (attr : PageTableAttr) where
  map_huge-next :
      (left i : ℕ) (m : Memory) (e : PageTableEntry)
      → index + i < 512
      → phys + i * 2 ^ 30 < 2 ^ 63
      → set_entry (phys + i * 2 ^ 30) attr ≡ ok e
      → map_huge (suc left) i pdpt index phys attr m
        ≡ map_huge left (i + 1) pdpt index phys attr (stored m pdpt (index + i) e)
  unfolding map_huge
  map_huge-next left i m e room fits set = ground (arith, set)

  pub rounds :
      (left i : ℕ) (m : Memory)
      → index + (i + left) ≤ 512
      → phys % 2 ^ 30 ≡ 0
      → phys + (i + left) * 2 ^ 30 ≤ 2 ^ 63
      → (m' : Memory) × (map_huge left i pdpt index phys attr m ≡ ok (tt, m'))
        × IsMapped pdpt index phys attr i (i + left) m m'
  rounds zero i m room aligned fits = (
    m,
    unfold map_huge in refl,
    record {
      fills = record { entries = λ j a b. absurd (omega arith); others = λ n j a. refl };
      blocks = refl;
      cr3 = refl;
    },
  )
  rounds (suc left) i m room aligned fits =
      let (e, set, right) = written (phys + i * 2 ^ 30) attr (omega arith) (omega arith) in
      let m1 = stored m pdpt (index + i) e in
      let (m', run, rest) = rounds left (i + 1) m1 (omega arith) aligned (omega arith) in
      let shift : i + suc left ≡ i + 1 + left = omega arith in
      let all =
        put-join {IsRight = λ e q. Holds e q (kernel_attr attr)} i (i + 1 + left) m.nodes m'.nodes e
          (omega arith) right rest.fills in
      (
        m',
        map_huge-next left i m e (omega arith) (omega arith) set ∙ run,
        rw shift (record { fills = all; blocks = rest.blocks; cr3 = rest.cr3 }),
      )
