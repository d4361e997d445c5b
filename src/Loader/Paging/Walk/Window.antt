-- ===== src/Loader/Paging/Walk/Window.antt =====
-- The first steps of `init_early_paging` of loader/src/paging.rs: the copy of the table of the firmware, and
-- the linear window.
use noctis.Common.{
  ℕ, suc, ◌+◌, ◌*◌, ◌^◌, ◌≤◌, ◌<◌, ◌≡◌, ◌≢◌, ◌⊎◌, inl, inr, refl, sym, ap, ◌∙◌, arith, Bool, true,
  false, not, List, [], ◌∷◌, ok, ltb, ◌==◌, ◌&&◌, if◌then◌else◌,
}
use mathlib.Core.Path.{subst}
use noctis.MemLayout.Index.{digit}
use noctis.Paging.Entry as Kernel
use noctis.Paging.Table.Huge.{Holds}
use noctis.Tables as Tables
use noctis.Tables.{child, entry_in, lookup, page, Shape, IsOpen, IsPlain, IsNet}
use noctis.Tables.Ways.{leaf-absent}
use noctis.Loader.Address.{VirtAddr}
use noctis.Loader.Paging.Entry.{PhysAddr, PageTableEntry, read_write_kernel_1gib}
use noctis.Loader.Paging.Memory.{Memory}
use noctis.Loader.Paging.Table.{get_or_alloc_next_level_table, map_huge, create_mapping}
use noctis.Loader.Paging.Early.{kernel_direct_start, kernel_direct_size}
use noctis.Loader.Paging.Walk.{Lacks, Stock, IsTree, pointer, pointer-child}
use noctis.Loader.Paging.Walk.Stepped.{grown, new_table}
use noctis.Loader.Paging.Walk.Huge.{rounds}

-- The entries of the upper half, but the one of the linear window.
abbrev pub gate : ℕ → Bool
gate i = not (ltb i 256) && not (i == 273)

abbrev pub root_shape : PhysAddr → Shape
root_shape root = record {
  rank = λ x. if x == root then 4 else 0;
  owner = λ x. (0, 0);
  is_open = gate;
}

-- The memory with a copy of the firmware's table in the variable.
abbrev pub copied : PhysAddr → Memory → Memory
copied local m = record m { nodes = λ n i. if n == local then m.nodes m.cr3 i else m.nodes n i }

pub window-run :
    (root pdpt : ℕ) (m m1 m2 : Memory)
    → get_or_alloc_next_level_table root 273 m ≡ ok (pdpt, m1)
    → map_huge 512 0 pdpt 0 0 read_write_kernel_1gib m1 ≡ ok (tt, m2)
    → create_mapping root kernel_direct_start 0 kernel_direct_size read_write_kernel_1gib m
      ≡ ok (tt, m2)
unfolding create_mapping
window-run root pdpt m m1 m2 e1 e2 = rw (e1, e2) refl

-- No entry of the upper half is present but the one of the linear window.
abbrev pub IsBare : (ℕ → PageTableEntry) → Type 0
IsBare entries = (i : ℕ) → gate i ≡ true → i < 512 → Kernel.is_present (entries i) ≡ false

pub root-IsNet :
    (root : PhysAddr) (m : Memory) → IsBare (m.nodes root) → IsNet 0 root (root_shape root) m.nodes
root-IsNet root m bare = record {
  top = ground arith;
  children = λ n i d r lt o p.
      let at : n ≡ root = ground arith in
      let deep : d ≡ 2 = ground arith in
      let gone = ap (λ (x : ℕ). Kernel.is_present (m.nodes x i)) at ∙ bare i (o deep) lt in
      absurd (ground arith);
}

pub root-lookup :
    (root : ℕ) (m : Memory)
    → IsBare (m.nodes root)
    → (w : VirtAddr) → gate (digit w 4) ≡ true
    → lookup 0 m.nodes root w ≡ 0
unfolding Tables.lookup
root-lookup root m bare w o =
    ap (entry_in m.nodes w) (leaf-absent 0 m.nodes w 2 root (bare (digit w 4) o (omega arith)))

pub copied-local : (local i : ℕ) (m : Memory) → (copied local m).nodes local i ≡ m.nodes m.cr3 i
copied-local local i m = ground arith

pub gate-upper : (i : ℕ) → gate i ≡ true → (256 ≤ i) × (i ≢ 273)
gate-upper i o = (ground arith, ground arith)

pub grown-at :
    (n i p : ℕ) (m : Memory) (rest : List PhysAddr) → (grown m n i p rest).nodes n i ≡ pointer p
grown-at n i p m rest = ground arith

pub grown-else :
    (n i p x j : ℕ) (m : Memory) (rest : List PhysAddr)
    → x ≢ p
    → (x ≢ n) ⊎ (j ≢ i)
    → (grown m n i p rest).nodes x j ≡ m.nodes x j
grown-else n i p x j m rest far other = ground arith

-- Behind the mapping of the linear window, with its node in block `pdpt`.
pub record Opened (room local pdpt : ℕ) (m m' : Memory) : Type 0 where
  pub run :
      create_mapping local kernel_direct_start 0 kernel_direct_size read_write_kernel_1gib
        (copied local m)
      ≡ ok (tt, m')
  pub tree : IsTree local room (root_shape local) m'
  pub bare : IsBare (m'.nodes local)
  pub at : m'.nodes local 273 ≡ pointer pdpt
  pub leads :
      (Kernel.is_present (pointer pdpt) ≡ true)
      × (child 0 (pointer pdpt) ≡ pdpt)
      × IsPlain (pointer pdpt)
  pub frames :
      (j : ℕ)
      → j < 512
      → Holds (m'.nodes pdpt (0 + j)) (0 + j * 2 ^ 30) Kernel.read_write_kernel_1gib
  pub others :
      (x j : ℕ) → x ≢ pdpt → (x ≢ local) ⊎ (j ≢ 273) → m'.nodes x j ≡ (copied local m).nodes x j
  pub outside : pdpt ≢ local
  pub spare : Lacks pdpt m'.blocks
  pub lacks : (x : ℕ) → Lacks x m.blocks → (x ≢ pdpt) × Lacks x m'.blocks

pub opened :
    (room local : ℕ) (m : Memory) (blocks : List PhysAddr)
    → m.blocks ≡ blocks
    → Stock (root_shape local) (suc room) blocks
    → ((i : ℕ) → 256 ≤ i → i < 512 → Kernel.is_present (m.nodes m.cr3 i) ≡ false)
    → (pdpt : PhysAddr) × (m' : Memory) × Opened room local pdpt m m'
opened room local m [] e stock upper = absurd stock
opened room local m (pdpt ∷ rest) e (aligned, low, free, once, stock) upper =
    let m0 = copied local m in
    let m1 = grown m0 local 273 pdpt rest in
    let ne : pdpt ≢ local = ground arith in
    let far : local ≢ pdpt = λ same. ne (sym same) in
    let (m2, run, mapped) =
      rounds pdpt 0 0 read_write_kernel_1gib 512 0 m1 (omega arith) refl (omega arith) in
    let kept : (x j : ℕ) → x ≢ pdpt → (x ≢ local) ⊎ (j ≢ 273) → m2.nodes x j ≡ m0.nodes x j =
      λ x j far other.
        mapped.fills.others x j (inl far) ∙ grown-else local 273 pdpt x j m0 rest far other in
    let bare : IsBare (m2.nodes local) = λ i o lt.
      let (up, other) = gate-upper i o in
      ap Kernel.is_present (kept local i far (inr other) ∙ copied-local local i m)
      ∙ upper i up lt in
    (
      pdpt,
      m2,
      record {
        run =
            window-run local pdpt m0 m1 m2
              (new_table local 273 m0 pdpt rest e (omega arith)
                (ap Kernel.is_present (copied-local local 273 m)
                  ∙ upper 273 (omega arith) (omega arith))
                far low aligned)
              run;
        tree = record {
          net = root-IsNet local m2 bare;
          stock = subst (Stock (root_shape local) room) (sym mapped.blocks) stock;
        };
        bare = bare;
        at = mapped.fills.others local 273 (inl far) ∙ grown-at local 273 pdpt m0 rest;
        leads = pointer-child pdpt low aligned;
        frames = λ j lt. mapped.fills.entries j (omega arith) lt;
        others = kept;
        outside = ne;
        spare = subst (Lacks pdpt) (sym mapped.blocks) once;
        lacks = λ x l.
            let at = subst (Lacks x) e l in
            (λ same. at.0 (sym same), subst (Lacks x) (sym mapped.blocks) at.1);
      },
    )
