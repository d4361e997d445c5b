-- ===== src/Allocator.antt =====
-- kernel/src/allocator.rs: the linear allocator behind the kernel's heap.
pub mod Laws
pub mod Blocks
mod Tests
use noctis.Common.{
  ℕ, ◌+◌, ◌-◌, bit_and, Bool, Outcome, ok, ◌>>=◌, ◌>>◌, word, add_usize, sub_usize, not_word, ltb,
  if◌then◌else◌,
}
use noctis.Spin.{Cpu, SpinLock, with_lock}

pub record LinerAllocator : Type 0 where
  pub start : ℕ
  pub end : ℕ
  pub next : ℕ

-- `core::alloc::Layout`: a size and an alignment, which is a power of two.
pub record Layout : Type 0 where
  pub size : ℕ
  pub align : ℕ

abbrev pub null_mut : ℕ
null_mut = 0

unfoldable pub new : LinerAllocator
new = record { start = 0; end = 0; next = 0 }

unfoldable pub init : ℕ → ℕ → LinerAllocator → Outcome LinerAllocator
init start size self = do
  end ← add_usize start size
  ok (record { start = start; end = end; next = start })

-- The body of `GlobalAlloc::alloc`, under the lock.
unfoldable pub bump : Layout → LinerAllocator → Outcome (ℕ × LinerAllocator)
bump layout allocator = do
  sum ← add_usize allocator.next layout.align
  rounded ← sub_usize sum 1
  mask ← sub_usize layout.align 1
  let alloc_start = bit_and rounded (not_word mask)
  let alloc_end = alloc_start + layout.size
  ok (
      if ltb alloc_end word
      then if ltb allocator.end alloc_end
        then (null_mut, allocator)
        else (alloc_start, record allocator { next = alloc_end })
      else (null_mut, allocator))

unfoldable pub alloc :
    Layout → SpinLock LinerAllocator → Cpu → Outcome (ℕ × (SpinLock LinerAllocator × Cpu))
unfolding bump with_lock
alloc layout = with_lock (bump layout)

-- `init_allocator`
unfoldable pub init_allocator :
    ℕ → ℕ → SpinLock LinerAllocator → Cpu → Outcome (Unit {0} × (SpinLock LinerAllocator × Cpu))
unfolding init with_lock
init_allocator start size = with_lock λ self. do self' ← init start size self; ok (tt, self')
