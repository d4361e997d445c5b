-- ===== src/Tables/Direct.antt =====
-- What the processor translates by the linear window that kernel/src/paging.rs and loader/src/paging.rs
-- map: one entry of the uppermost table, and a node of 512 entries for pages of 1 GiB.
use noctis.Common.{
  ℕ, ◌+◌, ◌*◌, ◌/◌, ◌%◌, ◌^◌, ◌<◌, ◌≡◌, refl, sym, ap, ◌∙◌, arith, true, false, Option, some,
}
use mathlib.Core.Path.{subst}
use noctis.MemLayout.{PhysAddr, VirtAddr}
use noctis.MemLayout.Index.{digit}
use noctis.Paging.Entry.{PageTableEntry, is_present, read_write_kernel_1gib}
use noctis.Paging.Entry.Fields.{Rights}
use noctis.Paging.Table.Huge.{Holds}
use noctis.Tables.{Nodes, child, IsPlain}
use noctis.Tables.Ways.{digit-lt}
use noctis.Tables.Translate.{Translation, in_page, restrict, walk, walk-plain, walk-huge, translate}

-- An address that the kernel may read and write, but where it may execute nothing.
abbrev pub plain_data : PhysAddr → Option Translation
plain_data p = some record { address = p; writable = true; user = false; executable = false }

huge-Holds :
    (up e : PageTableEntry) (p : PhysAddr) (w : VirtAddr)
    → IsPlain up
    → Holds e p read_write_kernel_1gib
    → restrict up (some (in_page 30 e w)) ≡ plain_data (p / 2 ^ 30 * 2 ^ 30 + w % 2 ^ 30)
huge-Holds up e p w (small, writes, user, runs) (address, r) =
    rw (writes, user, runs, ap Rights.writable r, ap Rights.executable r, address) refl

-- Address `p` of physical memory is seen at the place of the window that it has.
pub translate-direct :
    (base root : ℕ) (nodes : Nodes)
    → is_present (nodes root 273) ≡ true
    → IsPlain (nodes root 273)
    → ((j : ℕ)
        → j < 512
        → Holds (nodes (child base (nodes root 273)) j) (j * 2 ^ 30) read_write_kernel_1gib)
    → (p : PhysAddr) → p < 2 ^ 39
    → translate base nodes root (0xFFFF_8880_0000_0000 + p) ≡ plain_data p
unfolding translate
translate-direct base root nodes here plain frames p h =
    let w = 0xFFFF_8880_0000_0000 + p in
    let i : digit w 4 ≡ 273 = omega arith in
    let pdpt = child base (nodes root 273) in
    let entry = frames (digit w 3) (digit-lt w 3) in
    let e = nodes pdpt (digit w 3) in
    walk-plain base nodes w 2 root (ap (λ (k : ℕ). is_present (nodes root k)) i ∙ here)
      (subst (λ k. IsPlain (nodes root k)) (sym i) plain).0
    ∙ ap (λ (k : ℕ). restrict (nodes root k) (walk base nodes w 2 (child base (nodes root k)))) i
    ∙ ap (restrict (nodes root 273))
        (walk-huge base nodes w 1 pdpt (ap Rights.present entry.1) (ap Rights.huge entry.1))
    ∙ huge-Holds (nodes root 273) e (digit w 3 * 2 ^ 30) w plain entry
    ∙ ap plain_data (omega arith)
