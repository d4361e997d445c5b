-- ===== src/Paging/Memory/Node.antt =====
-- A new node of kernel/src/paging.rs: where it lies and what it leaves of the memory.
use noctis.Common.{
  ℕ, ◌+◌, ◌*◌, ◌/◌, ◌%◌, ◌^◌, ◌≤◌, ◌<◌, ◌≡◌, ◌≢◌, refl, ap, ◌∙◌, inl, inr, arith, Bool, true, false,
  Outcome, ok, err, panic, diverge, out_of_memory, word, ◌==◌, if◌then◌else◌,
}
use noctis.Common as Common
use noctis.Spin.{Cpu, SpinLock}
use noctis.Allocator.{LinerAllocator, alloc}
use noctis.Allocator.Laws.{IsHeap, bump_lem}
use noctis.Allocator.Blocks.{alloc-step}
use noctis.MemLayout.{VirtAddr}
use noctis.Paging.Memory.{Memory, node_layout, box_node}

-- What the zeroed node leaves of the memory.
pub record IsZeroed (new : VirtAddr) (m m0 : Memory) : Type 0 where
  pub zeroed : (j : ℕ) → m0.nodes new j ≡ 0
  pub others : (n j : ℕ) → n ≢ new → m0.nodes n j ≡ m.nodes n j
  pub cr3 : m0.cr3 ≡ m.cr3

-- `box_node` behind the call of `alloc`, whatever that gave.
boxed_node :
    Memory → Outcome (VirtAddr × (SpinLock LinerAllocator × Cpu)) → Outcome (VirtAddr × Memory)
boxed_node m o = Common.◌>>=◌ o λ r.
    if r.0 == 0
    then panic out_of_memory
    else ok (
      r.0,
      record m { heap = r.1.0; cpu = r.1.1; nodes = λ n i. if n == r.0 then 0 else m.nodes n i },
    )

boxed_node-IsZeroed :
    (new : VirtAddr) (m m0 : Memory) (o : Outcome (VirtAddr × (SpinLock LinerAllocator × Cpu)))
    → boxed_node m o ≡ ok (new, m0)
    → IsZeroed new m m0
unfolding boxed_node
boxed_node-IsZeroed new m m0 (ok (p, (l, c))) e = record {
  zeroed = λ j. ground arith;
  others = λ n j a. ground arith;
  cr3 = ground arith;
}
boxed_node-IsZeroed new m m0 (err x) e = cc
boxed_node-IsZeroed new m m0 (panic x) e = cc
boxed_node-IsZeroed new m m0 diverge e = cc

pub box_node-IsZeroed :
    (new : VirtAddr) (m m0 : Memory) → box_node m ≡ ok (new, m0) → IsZeroed new m m0
unfolding box_node boxed_node
box_node-IsZeroed new m m0 e = boxed_node-IsZeroed new m m0 (alloc node_layout m.heap m.cpu) e

-- The memory with a zeroed node at `p`.
abbrev pub boxed : Memory → VirtAddr → Memory
boxed m p = record m {
  heap = record { locked = false; value = record m.heap.value { next = p + 4096 } };
  cpu = record { interrupts = true };
  nodes = λ n i. if n == p then 0 else m.nodes n i;
}

boxed_node-made :
    (m : Memory) (p : VirtAddr) (h' : LinerAllocator)
    → 0 < p
    → h' ≡ record m.heap.value { next = p + 4096 }
    → boxed_node m (ok (p, (record { locked = false; value = h' }, record { interrupts = true })))
      ≡ ok (p, boxed m p)
unfolding boxed_node
boxed_node-made m p h' pos e = ground arith

-- With two pages of room a node is placed on the next page boundary.
pub box_node-boxed :
    (m : Memory)
    → m.heap.locked ≡ false
    → IsHeap m.heap.value
    → m.heap.value.next + 8192 ≤ m.heap.value.end
    → (p : VirtAddr) × (box_node m ≡ ok (p, boxed m p))
      × (m.heap.value.next ≤ p)
      × (p % 4096 ≡ 0)
      × (p < m.heap.value.next + 4096)
unfolding box_node boxed_node
box_node-boxed m free heap room =
    let (p, h', run, placed) =
      bump_lem 12 4096 (omega arith) m.heap.value heap (omega (arith, heap.fits)) in
    elim placed [
      | inl at ↦ (
        p,
        ap
              (λ (b : Bool).
                boxed_node m
                  (alloc node_layout (record { locked = b; value = m.heap.value }) m.cpu))
              free
            ∙ ap (boxed_node m) (alloc-step node_layout m.heap.value m.cpu run)
            ∙ boxed_node-made m p h' (omega (arith, at.after, heap.begins, heap.not_null))
                at.advanced,
        at.after,
        at.aligned,
        at.first,
      )
      | inr refused ↦
          let q : ℕ = (m.heap.value.next + 4095) / 4096 * 4096 in
          absurd (omega (arith, refused.full q (omega arith) (omega arith)))
    ]
