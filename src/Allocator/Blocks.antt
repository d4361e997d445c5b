-- ===== src/Allocator/Blocks.antt =====
-- Runs of allocations by kernel/src/allocator.rs, and the blocks that they hand out.
use noctis.Common.{
  ℕ, zero, suc, ◌+◌, ◌%◌, ◌^◌, ◌≤◌, ◌<◌, ◌≡◌, refl, ◌≢◌, ◌⊎◌, inl, inr, arith, Outcome, ok, ◌>>=◌,
  word, false, true, List, [], ◌∷◌, some, get_elem?,
}
use noctis.Spin.{Cpu, SpinLock}
use noctis.Allocator.{LinerAllocator, Layout, bump, alloc, init_allocator, null_mut}
use noctis.Allocator.Laws.{IsHeap, IsPlaced, IsRefused, bump_lem}

-- A block, or the null pointer, with the layout that was asked for.
abbrev pub Block : Type 0
Block = ℕ × Layout

-- A program that asks for one block after another.
pub alloc_all :
    List Layout
    → SpinLock LinerAllocator
    → Cpu
    → Outcome (List Block × (SpinLock LinerAllocator × Cpu))
unfolding alloc
alloc_all [] l cpu = ok ([], (l, cpu))
alloc_all (a ∷ rest) l cpu = do
  (p, (l', cpu')) ← alloc a l cpu
  (blocks, last) ← alloc_all rest l' cpu'
  ok ((p, a) ∷ blocks, last)

-- A layout as `Layout::from_size_align` makes it, whose rounding stays in range up to `top`.
pub record IsLayout (top : ℕ) (l : Layout) : Type 0 where
  pub exponent : ℕ
  pub small : exponent < 64
  pub power : l.align ≡ 2 ^ exponent
  pub in_range : top + l.align < word

abbrev pub AllLayouts : ℕ → List Layout → Type 0
AllLayouts top [] = Unit {0}
AllLayouts top (l ∷ ls) = IsLayout top l × AllLayouts top ls

-- Each block that is no null pointer is aligned and lies in what the earlier ones left of `lo..hi`.
abbrev pub InOrder : ℕ → ℕ → List Block → Type 0
InOrder lo hi [] = lo ≤ hi
InOrder lo hi ((p, l) ∷ bs) =
    ((p ≡ null_mut) × InOrder lo hi bs)
    ⊎ ((lo ≤ p) × (p % l.align ≡ 0) × InOrder (p + l.size) hi bs)

bump-step :
    (l : Layout) (h : LinerAllocator)
    → IsHeap h
    → IsLayout h.end l
    → (p : ℕ) × (h' : LinerAllocator) × (bump l h ≡ ok (p, h'))
      × (IsPlaced l h p h' ⊎ IsRefused l h p h')
bump-step l h heap fit =
    rw layout_eq (bump_lem fit.exponent l.size fit.small h heap (omega (arith, fit.power)))
  where
    layout_eq : l ≡ record { size = l.size; align = 2 ^ fit.exponent }
    layout_eq = ground (arith, fit.power)

pub alloc-step :
    (l : Layout) (h : LinerAllocator) (cpu : Cpu) {p : ℕ} {h' : LinerAllocator}
    → bump l h ≡ ok (p, h')
    → alloc l (record { locked = false; value = h }) cpu
      ≡ ok (p, (record { locked = false; value = h' }, record { interrupts = true }))
unfolding alloc
alloc-step l h cpu e = rw e

kept :
    (l : Layout) (h : LinerAllocator) {p : ℕ} {h' : LinerAllocator}
    → IsHeap h
    → IsPlaced l h p h'
    → IsHeap (record h { next = p + l.size })
kept l h heap placed = ground arith

alloc_all-cons :
    (l : Layout) (ls : List Layout) (h h' : LinerAllocator) (cpu : Cpu) {p : ℕ} {bs : List Block}
    {s : SpinLock LinerAllocator × Cpu}
    → bump l h ≡ ok (p, h')
    → alloc_all ls (record { locked = false; value = h' }) (record { interrupts = true })
      ≡ ok (bs, s)
    → alloc_all (l ∷ ls) (record { locked = false; value = h }) cpu ≡ ok ((p, l) ∷ bs, s)
unfolding alloc_all
alloc_all-cons l ls h h' cpu e rest = rw (e, rest)

-- From a free lock every run of allocations comes to an end, with its blocks in order.
pub alloc_all-InOrder :
    (ls : List Layout) (h : LinerAllocator) (cpu : Cpu)
    → IsHeap h
    → AllLayouts h.end ls
    → (bs : List Block) × (s : SpinLock LinerAllocator × Cpu) × (alloc_all ls
          (record { locked = false; value = h })
          cpu
        ≡ ok (bs, s))
      × InOrder h.next h.end bs
alloc_all-InOrder [] h cpu heap fits =
    ([], (record { locked = false; value = h }, cpu), unfold alloc_all in refl, heap.within)
alloc_all-InOrder (l ∷ ls) h cpu heap (fit, fits) =
    let (p, h', e, o) = bump-step l h heap fit in
    elim o [
      | inl placed ↦
          let (bs, s, r, order) =
            alloc_all-InOrder ls (record h { next = p + l.size }) (record { interrupts = true })
              (kept l h heap placed) fits in
          (
            (p, l) ∷ bs,
            s,
            alloc_all-cons l ls h _ cpu (rw placed.advanced at e) r,
            inr (placed.after, placed.aligned, order),
          )
      | inr refused ↦
          let (bs, s, r, order) = alloc_all-InOrder ls h (record { interrupts = true }) heap fits in
          (
            (p, l) ∷ bs,
            s,
            alloc_all-cons l ls h _ cpu (rw refused.unchanged at e) r,
            inl (refused.null, order),
          )
    ]

le_of_InOrder : (bs : List Block) (lo hi : ℕ) → InOrder lo hi bs → lo ≤ hi
le_of_InOrder [] lo hi o = o
le_of_InOrder ((p, l) ∷ bs) lo hi (inl o) = le_of_InOrder bs lo hi o.1
le_of_InOrder ((p, l) ∷ bs) lo hi (inr o) = omega (arith, o.0, le_of_InOrder bs (p + l.size) hi o.2)

-- A block of the run is aligned and lies inside `lo..hi`.
pub InOrder-from :
    (bs : List Block) (lo hi j q : ℕ) (m : Layout)
    → InOrder lo hi bs
    → get_elem? bs j ≡ some (q, m)
    → q ≢ null_mut
    → (lo ≤ q) × (q + m.size ≤ hi) × (q % m.align ≡ 0)
InOrder-from [] lo hi j q m o e ne = cc
InOrder-from ((p, l) ∷ bs) lo hi zero q m o e ne = ground (arith, le_of_InOrder bs (p + l.size) hi)
InOrder-from ((p, l) ∷ bs) lo hi (suc j) q m o e ne =
    ground (arith, InOrder-from bs lo hi j q m, InOrder-from bs (p + l.size) hi j q m)

-- Two blocks that a run hands out do not overlap: the later one begins behind the earlier one.
pub InOrder-disjoint :
    (bs : List Block) (lo hi i j p q : ℕ) (l m : Layout)
    → InOrder lo hi bs
    → i < j
    → get_elem? bs i ≡ some (p, l)
    → get_elem? bs j ≡ some (q, m)
    → p ≢ null_mut
    → q ≢ null_mut
    → p + l.size ≤ q
InOrder-disjoint [] lo hi i j p q l m o lt ei ej np nq = cc
InOrder-disjoint (b ∷ bs) lo hi i zero p q l m o lt ei ej np nq = elim lt [ ]
InOrder-disjoint ((a, k) ∷ bs) lo hi zero (suc j) p q l m o lt ei ej np nq =
    ground (arith, InOrder-from bs (a + k.size) hi j q m)
InOrder-disjoint ((a, k) ∷ bs) lo hi (suc i) (suc j) p q l m o lt ei ej np nq =
    ground (
      arith,
      InOrder-disjoint bs lo hi i j p q l m,
      InOrder-disjoint bs (a + k.size) hi i j p q l m,
    )

-- Blocks at different places of a list lie apart, and each is aligned inside `lo..hi`.
pub record AreDisjoint (lo hi : ℕ) (bs : List Block) : Type 0 where
  pub inside :
      (j q : ℕ) (m : Layout)
      → get_elem? bs j ≡ some (q, m)
      → q ≢ null_mut
      → (lo ≤ q) × (q + m.size ≤ hi) × (q % m.align ≡ 0)
  pub apart :
      (i j p q : ℕ) (l m : Layout)
      → i < j
      → get_elem? bs i ≡ some (p, l)
      → get_elem? bs j ≡ some (q, m)
      → p ≢ null_mut
      → q ≢ null_mut
      → p + l.size ≤ q

abbrev pub fresh : SpinLock LinerAllocator
fresh = record { locked = false; value = record { start = 0; end = 0; next = 0 } }

pub boot : ℕ → ℕ → List Layout → Cpu → Outcome (List Block × (SpinLock LinerAllocator × Cpu))
unfolding init_allocator
boot start size ls cpu = do
  (_, (l, cpu')) ← init_allocator start size fresh cpu
  alloc_all ls l cpu'

-- A heap that `init_allocator` sets up within 64 bits, and that does not begin at address 0, serves to
-- the end every list of layouts whose alignments are powers of two and whose sums of the heap's end with
-- an alignment fit in 64 bits (a sum that does not fit would panic): each block that is no null pointer is aligned, lies inside the
-- heap, and none overlaps another.
pub boot-AreDisjoint :
    (start size : ℕ) (ls : List Layout) (cpu : Cpu)
    → 0 < start
    → start + size < word
    → AllLayouts (start + size) ls
    → (bs : List Block) × (s : SpinLock LinerAllocator × Cpu) × (boot start size ls cpu
        ≡ ok (bs, s))
      × AreDisjoint start (start + size) bs
unfolding boot
boot-AreDisjoint start size ls cpu pos fits layouts =
    let (bs, s, e, o) =
      alloc_all-InOrder ls (record { start = start; end = start + size; next = start })
        (record { interrupts = true }) (omega arith) layouts in
    (
      bs,
      s,
      ground (arith, e),
      record {
        inside = λ j q m. InOrder-from bs start (start + size) j q m o;
        apart = λ i j p q l m. InOrder-disjoint bs start (start + size) i j p q l m o;
      },
    )
