-- ===== src/Tables/Translate.antt =====
-- The processor's walk of four levels of page tables, for the tables of kernel/src/paging.rs and
-- loader/src/paging.rs, and what it makes of a tree of tables. It reads the low 48 bits of an address, which
-- is canonical; an address field is the one that `paddr` reads, of which the processor uses the bits below
-- bit 52.
use noctis.Common.{
  ℕ, zero, suc, ◌+◌, ◌*◌, ◌/◌, ◌%◌, ◌^◌, ◌<◌, ◌≡◌, ◌≢◌, inl, inr, refl, sym, ap, ◌∙◌, arith, Bool,
  true, false, Bool-cases, Option, none, some, ◌&&◌, if◌then◌else◌,
}
use noctis.MemLayout.{VirtAddr, PhysAddr}
use noctis.MemLayout.Index.{digit}
use noctis.Paging.Entry.{
  PageTableAttr, PageTableEntry, is_present, is_writable, is_user_accessible, is_huge,
  is_executable, paddr,
}
use noctis.Paging.Entry.Fields.{Rights, rights, paddr-eq}
use noctis.Paging.Table.Huge.{Holds}
use noctis.Tables.{Nodes, child, leaf, entry_in, lookup, page, Shape, IsOpen, IsPlain, IsNet}
use noctis.Tables.Ways.{digit-lt, opened, leaf-zero, leaf-present, leaf-absent}
use noctis.Tables.Grow.{absent_zero}
use noctis.Tables.Store.{Agree-page}
use noctis.Tables.Range.{Translates}

-- The physical address, and what may be done there.
pub record Translation : Type 0 where
  pub address : PhysAddr
  pub writable : Bool
  pub user : Bool
  pub executable : Bool

-- By an entry that maps a page of `2 ^ k` bytes.
abbrev pub in_page : ℕ → PageTableEntry → VirtAddr → Translation
in_page k e v = record {
  address = paddr e / 2 ^ k * 2 ^ k + v % 2 ^ k;
  writable = is_writable e;
  user = is_user_accessible e;
  executable = is_executable e;
}

-- What an entry above leaves of the rights: those that both grant.
abbrev pub restrict : PageTableEntry → Option Translation → Option Translation
restrict e none = none
restrict e (some t) = some record {
  address = t.address;
  writable = is_writable e && t.writable;
  user = is_user_accessible e && t.user;
  executable = is_executable e && t.executable;
}

-- An entry with the bit of a huge page: a page of 2 MiB one level above the last, of 1 GiB two above; in
-- the uppermost table the bit is reserved, and the walk faults.
abbrev pub large : ℕ → PageTableEntry → VirtAddr → Option Translation
large zero e v = some (in_page 21 e v)
large (suc zero) e v = some (in_page 30 e v)
large (suc (suc d)) e v = none

-- The walk from table `x`, `d` levels above the last; `none` is a page fault.
unfoldable pub walk : ℕ → Nodes → VirtAddr → ℕ → VirtAddr → Option Translation
walk base nodes v zero x =
    let e = nodes x (digit v 1) in if is_present e then some (in_page 12 e v) else none
walk base nodes v (suc d) x =
    let e = nodes x (digit v (d + 2)) in
    let rest = walk base nodes v d (child base e) in
    if is_present e then (if is_huge e then large d e v else restrict e rest) else none

-- What the processor translates `v` to by the tables below `root`.
unfoldable pub translate : ℕ → Nodes → VirtAddr → VirtAddr → Option Translation
unfolding walk
translate base nodes root v = walk base nodes v 3 root

-- What an entry of the last level gives below plain entries, or with its own right of user mode.
abbrev pub seen : VirtAddr → PageTableEntry → Bool → Option Translation
seen v e u =
    if is_present e
    then some record {
      address = paddr e + v % 4096;
      writable = is_writable e;
      user = u && is_user_accessible e;
      executable = is_executable e;
    }
    else none

whole_frame : (e : PageTableEntry) → paddr e / 4096 * 4096 ≡ paddr e
whole_frame e = omega (arith, paddr-eq e)

last-seen :
    (base : ℕ) (nodes : Nodes) (v x : VirtAddr)
    → walk base nodes v zero x ≡ seen v (nodes x (digit v 1)) true
unfolding walk
last-seen base nodes v x =
    ap
      (λ (a : PhysAddr).
        if is_present (nodes x (digit v 1))
        then some record {
          address = a + v % 4096;
          writable = is_writable (nodes x (digit v 1));
          user = is_user_accessible (nodes x (digit v 1));
          executable = is_executable (nodes x (digit v 1));
        }
        else none)
      (whole_frame (nodes x (digit v 1)))

walk-absent :
    (base : ℕ) (nodes : Nodes) (v : VirtAddr) (d x : ℕ)
    → is_present (nodes x (digit v (d + 2))) ≡ false
    → walk base nodes v (suc d) x ≡ none
unfolding walk
walk-absent base nodes v d x gone = rw gone refl

pub walk-plain :
    (base : ℕ) (nodes : Nodes) (v : VirtAddr) (d x : ℕ)
    → is_present (nodes x (digit v (d + 2))) ≡ true
    → is_huge (nodes x (digit v (d + 2))) ≡ false
    → walk base nodes v (suc d) x
      ≡ restrict
          (nodes x (digit v (d + 2)))
          (walk base nodes v d (child base (nodes x (digit v (d + 2)))))
unfolding walk
walk-plain base nodes v d x here small = rw (here, small) refl

pub walk-huge :
    (base : ℕ) (nodes : Nodes) (v : VirtAddr) (d x : ℕ)
    → is_present (nodes x (digit v (d + 2))) ≡ true
    → is_huge (nodes x (digit v (d + 2))) ≡ true
    → walk base nodes v (suc d) x ≡ large d (nodes x (digit v (d + 2))) v
unfolding walk
walk-huge base nodes v d x here big = rw (here, big) refl

restrict-seen :
    (e leaf_entry : PageTableEntry) (v : VirtAddr) (u : Bool)
    → IsPlain e
    → restrict e (seen v leaf_entry u) ≡ seen v leaf_entry false
restrict-seen e leaf_entry v u (small, w, user, x) = elim (Bool-cases (is_present leaf_entry)) [
  | inl here ↦ rw (here, w, user, x) refl
  | inr gone ↦ rw (gone) refl
]

-- Below the last table nothing, or the entry there.
abbrev ends : Nodes → VirtAddr → Option VirtAddr → Bool → Option Translation
ends nodes v l u = seen v (entry_in nodes v l) u

pub seen_zero : (v : VirtAddr) (u : Bool) → seen v 0 u ≡ none
seen_zero v u = rw (absent_zero) refl

-- No table above has a say in the right of user mode.
abbrev alone : ℕ → Bool
alone zero = true
alone (suc d) = false

module _ {base root : ℕ} {s : Shape} {nodes : Nodes} (tree : IsNet base root s nodes) where
  -- From every table of the tree the walk ends at the entry that the code finds.
  walk-seen :
      (v : VirtAddr) (d x : ℕ)
      → IsOpen s v
      → s.rank x ≡ suc d
      → walk base nodes v d x ≡ ends nodes v (leaf base nodes v d x) (alone d)
  walk-seen v zero x o r =
      last-seen base nodes v x
      ∙ sym (ap (λ (l : Option VirtAddr). ends nodes v l true) (leaf-zero base nodes v x))
  walk-seen v (suc d) x o r =
      let j = digit v (d + 2) in
      let e = nodes x j in
      elim (Bool-cases (is_present e)) [
        | inr gone ↦
            walk-absent base nodes v d x gone
            ∙ sym (seen_zero v false)
            ∙ sym (
                ap (λ (l : Option VirtAddr). ends nodes v l false)
                  (leaf-absent base nodes v d x gone))
        | inl here ↦
            let (level, _, plain) =
              tree.children x j d r (digit-lt v (d + 2)) (opened s v d o) here in
            walk-plain base nodes v d x here plain.0
            ∙ ap (restrict e) (walk-seen v d (child base e) o level)
            ∙ restrict-seen e (entry_in nodes v (leaf base nodes v d (child base e))) v (alone d)
                plain
            ∙ sym (
                ap (λ (l : Option VirtAddr). ends nodes v l false)
                  (leaf-present base nodes v d x here))
      ]

  -- The processor translates an address below an open entry by the entry that the code finds.
  pub translate-lookup :
      (v : VirtAddr)
      → IsOpen s v
      → translate base nodes root v ≡ seen v (lookup base nodes root v) false
  unfolding translate lookup
  translate-lookup v o = walk-seen v 3 root o tree.top

-- The translation to the frame `p` with the rights that the attribute names, for the kernel alone.
abbrev pub granted : PhysAddr → PageTableAttr → VirtAddr → Option Translation
granted p attr w =
    if (rights attr).present
    then some record {
      address = p + w % 4096;
      writable = (rights attr).writable;
      user = false;
      executable = (rights attr).executable;
    }
    else none

pub seen-Holds :
    (e : PageTableEntry) (p : PhysAddr) (attr : PageTableAttr) (w : VirtAddr)
    → Holds e p attr
    → seen w e false ≡ granted p attr w
seen-Holds e p attr w (address, r) =
    rw (ap Rights.present r, ap Rights.writable r, ap Rights.executable r, address) refl

-- Behind a mapping the processor translates each of its `left` pages from `v` on to its frame from `p` on
-- with the rights of the attribute, and every other page below an open entry as before.
pub record Remaps (base root : ℕ) (s : Shape) (attr : PageTableAttr) (v p left : ℕ)
    (nodes nodes' : Nodes) : Type 0 where
  pub pages :
      (j w : ℕ)
      → j < left
      → page w ≡ page (v + j * 4096)
      → translate base nodes' root w ≡ granted (p + j * 4096) attr w
  pub others :
      (w : VirtAddr)
      → IsOpen s w
      → ((j : ℕ) → j < left → page w ≢ page (v + j * 4096))
      → translate base nodes' root w ≡ translate base nodes root w

pub page-IsOpen : (s : Shape) (v w : VirtAddr) → page w ≡ page v → IsOpen s v → IsOpen s w
page-IsOpen s v w same o = ap s.is_open (Agree-page w v same).0.0 ∙ o

pub translated :
    {base root : ℕ} {s s' : Shape} {nodes nodes' : Nodes}
    → (attr : PageTableAttr) (v p left : ℕ) → IsNet base root s nodes
    → IsNet base root s' nodes'
    → s'.is_open ≡ s.is_open
    → ((j : ℕ) → j < left → IsOpen s (v + j * 4096))
    → Translates base root s (λ e q. Holds e q attr) v p left nodes nodes'
    → Remaps base root s attr v p left nodes nodes'
translated {base} {root} {s} {s'} {nodes} {nodes'} attr v p left tree tree' still opens done =
    let open' : (w : VirtAddr) → IsOpen s w → IsOpen s' w =
      λ w o. ap (λ (f : ℕ → Bool). f (digit w 4)) still ∙ o in
    record {
      pages = λ j w lt same.
          translate-lookup tree' w (open' w (page-IsOpen s (v + j * 4096) w same (opens j lt)))
          ∙ seen-Holds (lookup base nodes' root w) (p + j * 4096) attr w (done.pages j w lt same);
      others = λ w o h.
          translate-lookup tree' w (open' w o)
          ∙ ap (λ (e : PageTableEntry). seen w e false) (done.others w o h)
          ∙ sym (translate-lookup tree w o);
    }
