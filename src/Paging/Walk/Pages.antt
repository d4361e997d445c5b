-- ===== src/Paging/Walk/Pages.antt =====
-- The loop of `PageTable::map` in kernel/src/paging.rs over pages of 4 KiB, on a tree of tables.
use noctis.Common.{
  ℕ, zero, suc, ◌+◌, ◌*◌, ◌%◌, ◌^◌, ◌≤◌, ◌<◌, ◌≡◌, ◌≢◌, inl, inr, refl, ap, ◌∙◌, arith, Bool, false,
  Bool-cases, some, ok, add_usize, word, if◌then◌else◌,
}
use mathlib.Core.Path.{subst}
use noctis.MemLayout.{VirtAddr, add, liner_mapping_base_vaddr}
use noctis.MemLayout.Index.{digit}
use noctis.Paging.Entry.{PageTableAttr, PageTableEntry, set_entry}
use noctis.Paging.Entry.Fields.{set_entry_lem}
use noctis.Paging.Memory.{M, Memory, pure}
use noctis.Paging.Table.{page_size, descend, levels, set_entry_at, map_pages}
use noctis.Paging.Table.Huge.{Holds}
use noctis.Tables.Ways.{leaf-Agree, leaf-rank}
use noctis.Tables.Range.{turns, turns-false, next_Agree, Translates, joined}
use noctis.Tables.Store.{stored-leaf, stored-lookup, stored-else}
use noctis.Paging.Walk.{leaf, lookup, page, Shape, IsOpen, IsTree, net}
use noctis.Paging.Walk.Entries.{Beside, Extends}
use noctis.Paging.Walk.Descend.{
  at_room, lessen, same_Beside, trans_Beside, same_Extends, kept-IsOpen, descended,
}
use noctis.Paging.Walk.Leaf.{stored, stored-IsTree, stored-Beside}

-- `left` pages from `v` on are translated to the frames from `p` on with the rights of the attribute,
-- and every other page below an open entry as before.
pub record IsTranslated (root : VirtAddr) (s : Shape) (v p : ℕ) (attr : PageTableAttr) (left : ℕ)
    (m m' : Memory) : Type 0 where
  pub pages :
      (j w : ℕ)
      → j < left
      → page w ≡ page (v + j * 4096)
      → Holds (lookup m'.nodes root w) (p + j * 4096) attr
  pub others :
      (w : VirtAddr)
      → IsOpen s w
      → ((j : ℕ) → j < left → page w ≢ page (v + j * 4096))
      → lookup m'.nodes root w ≡ lookup m.nodes root w
  pub cr3 : m'.cr3 ≡ m.cr3

abbrev table_for : VirtAddr → ℕ → ℕ → VirtAddr → VirtAddr → M VirtAddr
table_for root start i v node = if turns start i then descend levels v root else pure node

record Fetched (root room start i v node : ℕ) (s : Shape) (m : Memory) (node' : VirtAddr)
    (s' : Shape) (m' : Memory) : Type 0 where
  run : table_for root start i v node m ≡ ok (node', m')
  tree' : IsTree root room s' m'
  way : leaf m'.nodes v 3 root ≡ some node'
  extends : Extends root s s' m m'

fetched :
    (root room start i v node : ℕ) (s : Shape) (m : Memory)
    → IsTree root (3 + room) s m
    → IsOpen s v
    → (turns start i ≡ false → leaf m.nodes v 3 root ≡ some node)
    → (node' : VirtAddr) × (s' : Shape) × (m' : Memory) × Fetched root room start i v node s m node'
        s' m'
fetched root room start i v node s m tree o cached = elim (Bool-cases (turns start i)) [
  | inl new ↦
      let (l, s', m', found) = descended root room v 3 root s m tree (omega arith) o tree.top in
      (
        l,
        s',
        m',
        record {
          run =
              ap (λ (b : Bool). (if b then descend levels v root else pure node) m) new ∙ found.run;
          tree' = found.tree';
          way = found.way;
          extends = found.extends;
        },
      )
  | inr old ↦ (
    node,
    s,
    m,
    record {
      run = ap (λ (b : Bool). (if b then descend levels v root else pure node) m) old;
      tree' = lessen (omega arith) tree;
      way = cached old;
      extends = same_Extends root s m;
    },
  )
]

set_entry_at-stored :
    (node k p : ℕ) (attr : PageTableAttr) (e : PageTableEntry) (m : Memory)
    → k < 512
    → set_entry p attr ≡ ok e
    → set_entry_at node k p attr m ≡ ok (tt, stored m node k e)
unfolding set_entry_at
set_entry_at-stored node k p attr e m h set = ground (arith, set)

add_page : (a : ℕ) → a + 4096 < word → add a page_size ≡ ok (a + 4096)
unfolding add
add_page a h = ground arith

add_index : (a b : ℕ) → a + b < word → add_usize a b ≡ ok (a + b)
add_index a b h = ground arith

map_pages-next :
    (root start left i node node' v p : ℕ) (attr : PageTableAttr) (m m1 m2 : Memory)
    → start + i < word
    → v + 4096 < word
    → p + 4096 < word
    → table_for root start i v node m ≡ ok (node', m1)
    → set_entry_at node' ((start + i) % 512) p attr m1 ≡ ok (tt, m2)
    → map_pages root start attr (suc left) i node v p m
      ≡ map_pages root start attr left (i + 1) node' (v + 4096) (p + 4096) m2
unfolding map_pages
map_pages-next root start left i node node' v p attr m m1 m2 h1 h2 h3 found put =
    rw (add_index start i h1, found, put, add_page v h2, add_page p h3) refl

-- The same of the tables alone.
pub translates :
    {root v p left : ℕ} {attr : PageTableAttr} {s : Shape} {m m' : Memory}
    → IsTranslated root s v p attr left m m'
    → Translates liner_mapping_base_vaddr root s (λ e q. Holds e q attr) v p left m.nodes m'.nodes
translates done = record { pages = done.pages; others = done.others }

pub reshape :
    (root left v p : ℕ) (attr : PageTableAttr) (s s' : Shape) (m m' : Memory)
    → s'.is_open ≡ s.is_open
    → IsTranslated root s' v p attr left m m'
    → IsTranslated root s v p attr left m m'
reshape root left v p attr s s' m m' same done = record {
  pages = done.pages;
  others = λ w o h. done.others w (ap (λ (f : ℕ → Bool). f (digit w 4)) same ∙ o) h;
  cr3 = done.cr3;
}

-- What is asked of the addresses of `left` pages.
pub record IsRange (s : Shape) (start left i v p : ℕ) : Type 0 where
  pub count : left ≤ 2 ^ 36
  pub indices : start + i + left < word
  pub index : digit v 1 ≡ (start + i) % 512
  pub frames : p + left * 4096 < 2 ^ 63
  pub frame : p % 4096 ≡ 0
  pub opens : (j : ℕ) → j < left → IsOpen s (v + j * 4096)
  pub virtual : v + left * 4096 < word

next-IsRange :
    (s s' : Shape) (start left i v p : ℕ)
    → s'.is_open ≡ s.is_open
    → IsRange s start (suc left) i v p
    → IsRange s' start left (i + 1) (v + 4096) (p + 4096)
next-IsRange s s' start left i v p same r = record {
  count = omega (arith, r.count);
  indices = omega (arith, r.indices);
  index = omega (arith, r.index);
  frames = omega (arith, r.frames);
  frame = omega (arith, r.frame);
  opens = λ j lt.
      ap (λ (f : ℕ → Bool). f (digit (v + 4096 + j * 4096) 4)) same
      ∙ subst (λ a. IsOpen s a) (omega arith) (r.opens (j + 1) (omega arith));
  virtual = omega (arith, r.virtual);
}

pub map_pages-IsTranslated :
    (root spare start : ℕ) (attr : PageTableAttr) (left i node v p : ℕ) (s : Shape) (m : Memory)
    → IsTree root (spare + 3 * left) s m
    → IsRange s start left i v p
    → (turns start i ≡ false → leaf m.nodes v 3 root ≡ some node)
    → (m' : Memory) × (s' : Shape) × (map_pages root start attr left i node v p m ≡ ok (tt, m'))
      × IsTree root spare s' m'
      × (s'.is_open ≡ s.is_open)
      × Beside s s' m m'
      × IsTranslated root s v p attr left m m'
unfolding map_pages
map_pages-IsTranslated root spare start attr zero i node v p s m tree range cached = (
  m,
  s,
  refl,
  at_room (omega arith) tree,
  refl,
  same_Beside s m,
  record { pages = λ j w lt same. absurd (omega arith); others = λ w o h. refl; cr3 = refl },
)
map_pages-IsTranslated root spare start attr (suc left) i node v p s m tree range cached =
    let o : IsOpen s v = subst (λ a. IsOpen s a) (omega arith) (range.opens 0 (omega arith)) in
    let (l, s1, m1, got) =
      fetched root (spare + 3 * left) start i v node s m (at_room (omega arith) tree) o cached in
    let o1 = kept-IsOpen got.extends v o in
    let (e, set, address, granted) =
      (set_entry_lem p attr (omega (arith, range.frames))).0 range.frame
        (omega (arith, range.frames)) in
    let k = (start + i) % 512 in
    let m2 = stored m1 l k e in
    let rank = leaf-rank (net got.tree') v 3 root l o1 got.tree'.top got.way in
    let (m', s', run, tree', still, beside, rest) =
      map_pages-IsTranslated root spare start attr left (i + 1) l (v + 4096) (p + 4096) s1 m2
        (stored-IsTree got.tree' l k rank e)
        (next-IsRange s s1 start left i v p got.extends.opens range)
        (λ old.
          let agree = next_Agree v (λ full. turns-false start i old (omega (arith, range.index))) in
          stored-leaf (net got.tree') l k rank e (v + 4096) 3 root (ap s1.is_open agree.0 ∙ o1)
            got.tree'.top
          ∙ leaf-Agree liner_mapping_base_vaddr m1.nodes (v + 4096) v 3 root agree
          ∙ got.way) in
    (
      m',
      s',
      map_pages-next root start left i node l v p attr m m1 m2 (omega (arith, range.indices))
            (omega (arith, range.virtual)) (omega (arith, range.frames)) got.run
            (set_entry_at-stored l k p attr e m1 (omega arith) set)
          ∙ run,
      tree',
      still ∙ got.extends.opens,
      trans_Beside {s2 = s'} {m2 = m'} got.extends.beside
          (trans_Beside {s2 = s'} {m2 = m'} (stored-Beside got.tree' l k rank e) beside),
      (let both =
            joined v p left m.nodes m2.nodes m'.nodes e (omega (arith, range.count))
              (address, granted) o
              (stored-lookup (net got.tree') l k rank e v o1 got.way range.index)
              (λ w ow other.
                stored-else (net got.tree') l k rank e v o1 got.way range.index w
                  (kept-IsOpen got.extends w ow) other
                ∙ got.extends.same w ow)
              (translates
                (reshape root left (v + 4096) (p + 4096) attr s s1 m2 m' got.extends.opens rest)) in
          record { pages = both.pages; others = both.others; cr3 = rest.cr3 ∙ got.extends.cr3 }),
    )
