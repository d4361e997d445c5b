-- ===== src/Paging/Table/Duplicate.antt =====
-- What `duplicate_kernel` makes of the top level of a table.
use noctis.Common.{
  ℕ, zero, suc, ◌+◌, ◌≤◌, ◌<◌, ◌≡◌, ◌≢◌, refl, ◌⊎◌, inl, inr, ◌∙◌, arith, ok, if◌then◌else◌,
  Bool-cases, ap, ℕ_discrete,
}
use noctis.MemLayout.{VirtAddr}
use noctis.Paging.Entry.{PageTableEntry, is_present}
use noctis.Paging.Memory.{Memory, write, box_node}
use noctis.Paging.Memory.Node.{box_node-IsZeroed}
use noctis.Paging.Table.{copy_present, duplicate_kernel}

-- The entries from `lo` up to `hi` of node `new` are those of `self` that are present, and nothing
-- else has changed.
pub record IsCopied (self new lo hi : ℕ) (m m' : Memory) : Type 0 where
  pub inside :
      (j : ℕ)
      → lo ≤ j
      → j < hi
      → m'.nodes new j ≡ (if is_present (m.nodes self j) then m.nodes self j else m.nodes new j)
  pub outside : (j : ℕ) → (j < lo) ⊎ (hi ≤ j) → m'.nodes new j ≡ m.nodes new j
  pub others : (n j : ℕ) → n ≢ new → m'.nodes n j ≡ m.nodes n j
  pub heap : m'.heap ≡ m.heap
  pub cr3 : m'.cr3 ≡ m.cr3

-- The first entry of the loop, taken over where it is present.
first : ℕ → ℕ → ℕ → Memory → Memory
first self new i m =
    if is_present (m.nodes self i)
    then record m { nodes = write m.nodes new i (m.nodes self i) }
    else m

copy_present-first :
    (left i self new : ℕ) (m : Memory)
    → i < 512
    → copy_present (suc left) i self new m ≡ copy_present left (i + 1) self new (first self new i m)
unfolding copy_present first
copy_present-first left i self new m h = elim (Bool-cases (is_present (m.nodes self i))) [
  | inl p ↦ ground (arith, p)
  | inr p ↦ ground (arith, p)
]

first-IsCopied :
    (self new i : ℕ) (m : Memory) → self ≢ new → IsCopied self new i (i + 1) m (first self new i m)
unfolding first
first-IsCopied self new i m ne = elim (Bool-cases (is_present (m.nodes self i))) [
  | inl p ↦ record {
    inside = λ j a b. ground (arith, p);
    outside = λ j a. ground (arith, p);
    others = λ n j a. ground (arith, p);
    heap = ground (arith, p);
    cr3 = ground (arith, p);
  }
  | inr p ↦ record {
    inside = λ j a b. ground (arith, p);
    outside = λ j a. ground (arith, p);
    others = λ n j a. ground (arith, p);
    heap = ground (arith, p);
    cr3 = ground (arith, p);
  }
]

-- One entry, then the ones behind it.
IsCopied-join :
    (self new i hi : ℕ) (m m1 m2 : Memory)
    → self ≢ new
    → i < hi
    → IsCopied self new i (i + 1) m m1
    → IsCopied self new (i + 1) hi m1 m2
    → IsCopied self new i hi m m2
IsCopied-join self new i hi m m1 m2 ne lt one rest = record {
  inside = λ j a b. elim (ℕ_discrete j i) [
    | yes same ↦ rest.outside j (inl (omega arith)) ∙ one.inside j a (omega arith)
    | no later ↦
        rest.inside j (omega arith) b
        ∙ ap (λ (e : PageTableEntry). if is_present e then e else m1.nodes new j)
            (one.others self j ne)
        ∙ ap (λ (e : PageTableEntry). if is_present (m.nodes self j) then m.nodes self j else e)
            (one.outside j (inr (omega arith)))
  ];
  outside = λ j a. elim a [
    | inl below ↦ rest.outside j (inl (omega arith)) ∙ one.outside j (inl below)
    | inr above ↦ rest.outside j (inr above) ∙ one.outside j (inr (omega arith))
  ];
  others = λ n j a. rest.others n j a ∙ one.others n j a;
  heap = rest.heap ∙ one.heap;
  cr3 = rest.cr3 ∙ one.cr3;
}

copy_present-IsCopied :
    (left i self new : ℕ) (m : Memory)
    → self ≢ new
    → i + left ≤ 512
    → (m' : Memory) × (copy_present left i self new m ≡ ok (tt, m'))
      × IsCopied self new i (i + left) m m'
copy_present-IsCopied zero i self new m ne h = (
  m,
  unfold copy_present in refl,
  record {
    inside = λ j a b. absurd (omega arith);
    outside = λ j a. refl;
    others = λ n j a. refl;
    heap = refl;
    cr3 = refl;
  },
)
copy_present-IsCopied (suc left) i self new m ne h =
    let (m', run, rest) =
      copy_present-IsCopied left (i + 1) self new (first self new i m) ne (omega arith) in
    let e : i + suc left ≡ i + 1 + left = omega arith in
    (
      m',
      copy_present-first left i self new m (omega arith) ∙ run,
      rw e (
          IsCopied-join self new i (i + 1 + left) m (first self new i m) m' ne (omega arith)
            (first-IsCopied self new i m ne) rest),
    )

-- Where the heap has room for a node at another address than `self`, `duplicate_kernel` returns it:
-- each of its 512 entries is that of `self` where that is present, and 0 elsewhere, and every node
-- but the new one is as before.
pub duplicate_kernel_lem :
    (self new : VirtAddr) (m m0 : Memory)
    → box_node m ≡ ok (new, m0)
    → self ≢ new
    → (m' : Memory) × (duplicate_kernel self m ≡ ok (new, m'))
      × ((j : ℕ)
          → j < 512
          → m'.nodes new j ≡ (if is_present (m.nodes self j) then m.nodes self j else 0))
      × ((n j : ℕ) → n ≢ new → m'.nodes n j ≡ m.nodes n j)
      × (m'.heap ≡ m0.heap)
      × (m'.cr3 ≡ m.cr3)
unfolding duplicate_kernel
duplicate_kernel_lem self new m m0 boxed ne =
    let (m', run, copied) = copy_present-IsCopied 512 0 self new m0 ne (omega arith) in
    let zero_node = box_node-IsZeroed new m m0 boxed in
    (
      m',
      rw boxed (rw run refl),
      λ j h.
          copied.inside j (omega arith) h
          ∙ ap (λ (e : PageTableEntry). if is_present (m0.nodes self j) then m0.nodes self j else e)
              (zero_node.zeroed j)
          ∙ ap (λ (e : PageTableEntry). if is_present e then e else 0) (zero_node.others self j ne),
      λ n j a. copied.others n j a ∙ zero_node.others n j a,
      copied.heap,
      copied.cr3 ∙ zero_node.cr3,
    )
