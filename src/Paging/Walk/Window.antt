-- ===== src/Paging/Walk/Window.antt =====
-- The first two steps of `init_paging` of kernel/src/paging.rs: an empty table, and the linear window.
use noctis.Common.{
  ℕ, suc, ◌+◌, ◌*◌, ◌^◌, ◌≤◌, ◌<◌, ◌≡◌, ◌≢◌, refl, sym, ap, ◌∙◌, inl, arith, true, false, ok, ◌==◌,
  if◌then◌else◌,
}
use noctis.Allocator.Laws.{IsHeap}
use mathlib.Core.Path.{subst}
use noctis.Spin.{SpinLock}
use noctis.Allocator.{LinerAllocator}
use noctis.MemLayout.{VirtAddr, liner_mapping_base_vaddr, liner_mapping_size}
use noctis.MemLayout.Index.{digit}
use noctis.Paging.Entry.{is_present, read_write_kernel_1gib}
use noctis.Paging.Memory.{Memory, box_node}
use noctis.Paging.Memory.Node.{boxed, box_node-boxed}
use noctis.Paging.Table.{get_or_alloc_next_level_table, map_huge, map_range, create_mapping}
use noctis.Paging.Table.Huge.{Holds, map_huge-IsMapped}
use noctis.Paging.Walk.{entry_in, lookup, child, Shape, IsTree}
use noctis.Tables.{IsPlain}
use noctis.Tables.Ways.{leaf-absent}
use noctis.Tables.Grow.{absent_zero, present_zero}
use noctis.Tables.Huge.{frame_at}
use noctis.Tables as Tables
use noctis.Paging.Walk.Entries.{pointer, pointer-child, grown, new_table}
use noctis.Paging.Walk.Sections.{gate}

abbrev pub root_shape : VirtAddr → Shape
root_shape root = record {
  rank = λ x. if x == root then 4 else 0;
  owner = λ x. (0, 0);
  is_open = gate;
}

-- The heap has room for `room` tables, and lies in the linear window.
pub record HasRoom (room : ℕ) (m : Memory) : Type 0 where
  pub unlocked : m.heap.locked ≡ false
  pub heap : IsHeap m.heap.value
  pub low : liner_mapping_base_vaddr ≤ m.heap.value.next
  pub high : m.heap.value.end ≤ liner_mapping_base_vaddr + liner_mapping_size
  pub left : m.heap.value.next + 8192 * room ≤ m.heap.value.end

boxed-HasRoom :
    (room : ℕ) (m : Memory) (p : VirtAddr)
    → HasRoom (suc room) m
    → m.heap.value.next ≤ p
    → p < m.heap.value.next + 4096
    → HasRoom room (boxed m p)
boxed-HasRoom room m p h behind near = record {
  unlocked = refl;
  heap = record {
    begins = omega (arith, h.heap.begins);
    within = omega (arith, h.left);
    fits = h.heap.fits;
    not_null = h.heap.not_null;
  };
  low = omega (arith, h.low);
  high = h.high;
  left = omega (arith, h.left);
}

same_room : (room : ℕ) (m m' : Memory) → m'.heap ≡ m.heap → HasRoom room m → HasRoom room m'
same_room room m m' e h =
    let at_heap : SpinLock LinerAllocator → Type 0 = λ l. HasRoom room (record m' { heap = l }) in
    subst at_heap (sym e)
      (record { unlocked = h.unlocked; heap = h.heap; low = h.low; high = h.high; left = h.left })

-- A table that is empty but for the entry of the linear window.
root-IsTree :
    (root room : ℕ) (m : Memory)
    → HasRoom room m
    → root < m.heap.value.next
    → ((i : ℕ) → i ≢ 273 → m.nodes root i ≡ 0)
    → IsTree root room (root_shape root) m
root-IsTree root room m h under empty = record {
  top = ground arith;
  children = λ n i d r lt o p.
      let at : n ≡ root = ground arith in
      let deep : d ≡ 2 = ground arith in
      let other : i ≢ 273 = ground (arith, o deep) in
      absurd
        (present_zero (sym (ap is_present (ap (λ (x : ℕ). m.nodes x i) at ∙ empty i other)) ∙ p));
  used = λ n r. ground arith;
  heap_free = h.unlocked;
  heap = h.heap;
  low = h.low;
  high = h.high;
  left = h.left;
}

root-lookup :
    (root : ℕ) (m : Memory)
    → ((i : ℕ) → i ≢ 273 → m.nodes root i ≡ 0)
    → (w : VirtAddr) → gate (digit w 4) ≡ true
    → lookup m.nodes root w ≡ 0
unfolding Tables.lookup
root-lookup root m empty w o =
    let other : digit w 4 ≢ 273 = ground arith in
    ap (entry_in m.nodes w) (
      leaf-absent liner_mapping_base_vaddr m.nodes w 2 root
        (ap is_present (empty (digit w 4) other) ∙ absent_zero))

window-run :
    (root pdpt : ℕ) (m m1 m2 : Memory)
    → get_or_alloc_next_level_table root 273 m ≡ ok (pdpt, m1)
    → map_huge 512 0 pdpt 0 0 read_write_kernel_1gib m1 ≡ ok (tt, m2)
    → create_mapping root liner_mapping_base_vaddr 0 liner_mapping_size read_write_kernel_1gib m
      ≡ ok (tt, m2)
unfolding create_mapping map_range
window-run root pdpt m m1 m2 e1 e2 = rw (e1, e2) refl

-- The linear window: one plain entry of the table leads to a node outside the tree, whose 512 entries hold
-- the first 512 GiB.
pub record IsWindow (root : VirtAddr) (m : Memory) : Type 0 where
  pub present : is_present (m.nodes root 273) ≡ true
  pub plain : IsPlain (m.nodes root 273)
  pub frames :
      (j : ℕ)
      → j < 512
      → Holds (m.nodes (child (m.nodes root 273)) j) (j * 2 ^ 30) read_write_kernel_1gib

pub record Opened (room : ℕ) (m : Memory) (root : VirtAddr) (m' : Memory) : Type 0 where
  pub placed : box_node m ≡ ok (root, boxed m root)
  pub run :
      create_mapping root liner_mapping_base_vaddr 0 liner_mapping_size read_write_kernel_1gib
        (boxed m root)
      ≡ ok (tt, m')
  pub tree : IsTree root room (root_shape root) m'
  pub nothing : (w : VirtAddr) → gate (digit w 4) ≡ true → lookup m'.nodes root w ≡ 0
  pub window : IsWindow root m'
  pub given : child (m'.nodes root 273) < m'.heap.value.next
  pub outside : root ≢ child (m'.nodes root 273)
  pub above : liner_mapping_base_vaddr ≤ root
  pub below : root < liner_mapping_base_vaddr + liner_mapping_size

pub opened :
    (room : ℕ) (m : Memory)
    → HasRoom (suc (suc room)) m
    → (root : VirtAddr) × (m' : Memory) × Opened room m root m'
opened room m h =
    let (root, placed, behind, aligned, near) =
      box_node-boxed m h.unlocked h.heap (omega (arith, h.left)) in
    let m0 = boxed m root in
    let h0 = boxed-HasRoom (suc room) m root h behind near in
    let (pdpt, made, behind1, aligned1, near1) =
      box_node-boxed m0 refl h0.heap (omega (arith, h0.left)) in
    let m1 = grown m0 root 273 pdpt (pointer pdpt) in
    let h1 = boxed-HasRoom room m0 pdpt h0 behind1 near1 in
    let lo : liner_mapping_base_vaddr ≤ pdpt = omega (arith, h0.low) in
    let hi : pdpt < liner_mapping_base_vaddr + liner_mapping_size =
      omega (arith, h0.high, h0.left) in
    let (m2, run, mapped) =
      map_huge-IsMapped 512 pdpt 0 0 read_write_kernel_1gib m1 (omega arith) refl (omega arith) in
    let ne : root ≢ pdpt = omega arith in
    let empty : (i : ℕ) → i ≢ 273 → m2.nodes root i ≡ 0 =
      λ i other. mapped.others root i (inl ne) ∙ ground arith in
    let at : m2.nodes root 273 ≡ pointer pdpt = mapped.others root 273 (inl ne) ∙ ground arith in
    let (present, points, plain) = pointer-child pdpt lo hi aligned1 in
    let to_pdpt : child (m2.nodes root 273) ≡ pdpt = ap child at ∙ points in
    let next : m2.heap.value.next ≡ pdpt + 4096 =
      ap (λ (l : SpinLock LinerAllocator). l.value.next) mapped.heap in
    (
      root,
      m2,
      record {
        placed = placed;
        run =
            window-run root pdpt m0 m1 m2
              (new_table root 273 m0 pdpt (omega arith) (ground (arith, absent_zero)) made ne lo hi
                aligned1)
              run;
        tree =
            root-IsTree root room m2 (same_room room (boxed m0 pdpt) m2 mapped.heap h1)
              (omega (arith, next)) empty;
        nothing = root-lookup root m2 empty;
        window = record {
          present = ap is_present at ∙ present;
          plain = subst IsPlain (sym at) plain;
          frames = λ j lt.
              frame_at (λ e q. Holds e q read_write_kernel_1gib) m2.nodes
                (child (m2.nodes root 273)) pdpt j to_pdpt (mapped.entries j (omega arith) lt);
        };
        given = omega (arith, to_pdpt, next);
        outside = λ same. ne (same ∙ to_pdpt);
        above = omega (arith, h.low);
        below = omega (arith, h.high, h.left);
      },
    )
