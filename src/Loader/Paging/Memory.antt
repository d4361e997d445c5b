-- ===== src/Loader/Paging/Memory.antt =====
-- The memory that the tables of loader/src/paging.rs live in. The loader runs with physical addresses
-- equal to virtual ones.
use noctis.Common.{
  ℕ, Bool, List, [], ◌∷◌, Option, none, some, Outcome, ok, panic, out_of_bounds, out_of_memory, ltb,
  ◌==◌, ◌&&◌, if◌then◌else◌,
}
use noctis.Common as Common
use noctis.Loader.Paging.Entry.{PhysAddr, PageTableEntry}

-- The tables by their address; the blocks that the allocator of the firmware gives out next; `cr3`.
pub record Memory : Type 0 where
  pub nodes : PhysAddr → ℕ → PageTableEntry
  pub blocks : List PhysAddr
  pub cr3 : PhysAddr

abbrev pub M : Type 0 → Type 0
M A = Memory → Outcome (A × Memory)

abbrev pub pure : {A : Type 0} → A → M A
pure a m = ok (a, m)

abbrev pub lift : {A : Type 0} → Outcome A → M A
lift r m = Common.◌>>=◌ r (λ a. ok (a, m))

abbrev pub unwrap : {A : Type 0} → M A → M A
unwrap f m = Common.unwrap (f m)

infixl 5 ◌>>=◌ ◌>>◌
abbrev pub ◌>>=◌ : {A B : Type 0} → M A → (A → M B) → M B
◌>>=◌ f g m = Common.◌>>=◌ (f m) (λ r. g r.0 r.1)

abbrev pub ◌>>◌ : {B : Type 0} → M (Unit {0}) → M B → M B
f >> g = f >>= λ _. g

abbrev pub write :
    (PhysAddr → ℕ → PageTableEntry) → PhysAddr → ℕ → PageTableEntry → PhysAddr → ℕ → PageTableEntry
write nodes node index e n i = if n == node && i == index then e else nodes n i

-- `entries[index]`, bounds check included.
unfoldable pub load : PhysAddr → ℕ → M PageTableEntry
load node index m = if ltb index 512 then ok (m.nodes node index, m) else panic out_of_bounds

unfoldable pub store : PhysAddr → ℕ → PageTableEntry → M (Unit {0})
store node index e m =
    if ltb index 512
    then ok (tt, record m { nodes = write m.nodes node index e })
    else panic out_of_bounds

-- `Box::new` of a zeroed node: the next block of the allocator, where there is one.
unfoldable pub box_node : M PhysAddr
box_node m = elim m.blocks [
  | [] ↦ panic out_of_memory
  | p ∷ rest ↦ ok (p, record m { nodes = λ n i. if n == p then 0 else m.nodes n i; blocks = rest })
]
