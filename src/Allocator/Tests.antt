-- ===== src/Allocator/Tests.antt =====
-- The theorems on kernel/src/allocator.rs at small heaps.
use noctis.Common.{ℕ, ◌+◌, ◌≡◌, refl, ◌⊎◌, arith, true, ok, List, [], ◌∷◌}
use noctis.Spin.{Cpu, SpinLock}
use noctis.Allocator.{LinerAllocator, Layout, bump}
use noctis.Allocator.Laws.{IsHeap, IsPlaced, IsRefused, bump_lem}
use noctis.Allocator.Blocks.{Block, AllLayouts, boot, AreDisjoint, boot-AreDisjoint}

abbrev heap : LinerAllocator
heap = record { start = 4096; end = 8192; next = 4100 }

abbrev byte_and_page : List Layout
byte_and_page = record { size = 1; align = 1 } ∷ record { size = 4096; align = 4096 } ∷ []

abbrev cpu : Cpu
cpu = record { interrupts = true }

bump_heap : bump (record { size = 24; align = 16 }) heap ≡ ok (4112, record heap { next = 4136 })
unfolding bump
bump_heap = refl

heap-IsHeap : IsHeap heap
heap-IsHeap = record {
  begins = omega arith;
  within = omega arith;
  fits = omega arith;
  not_null = omega arith;
}

byte_and_page-AllLayouts : AllLayouts (4096 + 16384) byte_and_page
byte_and_page-AllLayouts = (
  record { exponent = 0; small = omega arith; power = refl; in_range = omega arith },
  (record { exponent = 12; small = omega arith; power = refl; in_range = omega arith }, tt),
)

boot-AreDisjoint_example :
    (bs : List Block) × (s : SpinLock LinerAllocator × Cpu) × (boot 4096 16384 byte_and_page cpu
      ≡ ok (bs, s))
    × AreDisjoint 4096 (4096 + 16384) bs
boot-AreDisjoint_example =
    boot-AreDisjoint 4096 16384 byte_and_page cpu (omega arith) (omega arith)
      byte_and_page-AllLayouts

bump_lem_example :
    (p : ℕ) × (h' : LinerAllocator) × (bump (record { size = 24; align = 16 }) heap ≡ ok (p, h'))
    × (IsPlaced (record { size = 24; align = 16 }) heap p h'
        ⊎ IsRefused (record { size = 24; align = 16 }) heap p h')
bump_lem_example = bump_lem 4 24 (omega arith) heap heap-IsHeap (omega arith)
