-- ===== src/Paging/Memory.antt =====
-- The memory that the page tables live in, and calls that change it: the nodes by their virtual
-- address, the heap that new nodes come from, and the register `cr3`.
pub mod Node
use noctis.Common.{
  ℕ, ◌≡◌, Bool, true, false, Option, none, some, Outcome, ok, panic, out_of_bounds, out_of_memory,
  ltb, ◌==◌, ◌&&◌, if◌then◌else◌,
}
use noctis.Common as Common
use noctis.Spin.{Cpu, SpinLock}
use noctis.Allocator.{LinerAllocator, Layout, alloc}
use noctis.MemLayout.{PhysAddr, VirtAddr}
use noctis.Paging.Entry.{PageTableEntry}

-- A `PageTableNode` has 512 entries.
pub record Memory : Type 0 where
  pub heap : SpinLock LinerAllocator
  pub cpu : Cpu
  pub nodes : VirtAddr → ℕ → PageTableEntry
  pub cr3 : PhysAddr

abbrev pub M : Type 0 → Type 0
M A = Memory → Outcome (A × Memory)

abbrev pub pure : {A : Type 0} → A → M A
pure a m = ok (a, m)

abbrev pub lift : {A : Type 0} → Outcome A → M A
lift r m = Common.◌>>=◌ r (λ a. ok (a, m))

-- `.unwrap()` and `.expect(…)`
abbrev pub unwrap : {A : Type 0} → M A → M A
unwrap f m = Common.unwrap (f m)

infixl 5 ◌>>=◌ ◌>>◌
abbrev pub ◌>>=◌ : {A B : Type 0} → M A → (A → M B) → M B
◌>>=◌ f g m = Common.◌>>=◌ (f m) (λ r. g r.0 r.1)

abbrev pub ◌>>◌ : {B : Type 0} → M (Unit {0}) → M B → M B
f >> g = f >>= λ _. g

abbrev pub write :
    (VirtAddr → ℕ → PageTableEntry) → VirtAddr → ℕ → PageTableEntry → VirtAddr → ℕ → PageTableEntry
write nodes node index e n i = if n == node && i == index then e else nodes n i

-- `entries[index]`, bounds check included.
unfoldable pub load : VirtAddr → ℕ → M PageTableEntry
load node index m = if ltb index 512 then ok (m.nodes node index, m) else panic out_of_bounds

unfoldable pub store : VirtAddr → ℕ → PageTableEntry → M (Unit {0})
store node index e m =
    if ltb index 512
    then ok (tt, record m { nodes = write m.nodes node index e })
    else panic out_of_bounds

abbrev pub node_layout : Layout
node_layout = record { size = 4096; align = 4096 }

-- `Box::new` of a zeroed node: a block of the heap; a null pointer is the allocation error.
unfoldable pub box_node : M VirtAddr
unfolding alloc
box_node m = Common.◌>>=◌ (alloc node_layout m.heap m.cpu) λ r.
    if r.0 == 0
    then panic out_of_memory
    else ok (
      r.0,
      record m { heap = r.1.0; cpu = r.1.1; nodes = λ n i. if n == r.0 then 0 else m.nodes n i },
    )
