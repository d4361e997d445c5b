-- ===== src/Loader/Paging/Walk/Mapping.antt =====
-- `PageTable::create_mapping` of loader/src/paging.rs over pages of 4 KiB, on a tree of tables.
use noctis.Common.{bit_and, ℕ, ◌+◌, ◌*◌, ◌/◌, ◌%◌, ◌^◌, ◌≤◌, ◌<◌, ◌≡◌, refl, ◌∙◌, arith, false, ok}
use noctis.MemLayout.Index.{digit}
use noctis.Tables.{Shape, IsOpen}
use noctis.Tables.Ways.{digit-lt}
use noctis.Tables.Translate.{Remaps, translated}
use noctis.Loader.Paging.Entry.Same.{kernel_attr}
use noctis.Paging.Walk.Mapping.{aligned_test, last_index}
use noctis.Loader.Paging.Entry.{PageTableAttr}
use noctis.Loader.Paging.Memory.{Memory}
use noctis.Loader.Paging.Table.{
  page_size, descend, levels, map_pages, map_range, create_mapping, is_1gib, div_ceil,
}
use noctis.Loader.Paging.Walk.{IsTree, Beside, trans_Beside}
use noctis.Loader.Paging.Walk.Stepped.{at_room}
use noctis.Loader.Paging.Walk.Descend.{kept-IsOpen, descended}
use noctis.Loader.Paging.Walk.Pages.{InHalf, IsTranslated, map_pages-IsTranslated}

map_range-pages :
    (self v p n node k : ℕ) (attr : PageTableAttr) (m m1 m2 : Memory)
    → v % 4096 ≡ 0
    → p % 4096 ≡ 0
    → is_1gib attr ≡ false
    → descend levels v self m ≡ ok (node, m1)
    → bit_and (v / 4096) 511 ≡ k
    → map_pages self k attr n 0 node v p m1 ≡ ok (tt, m2)
    → map_range self v p n attr m ≡ ok (tt, m2)
unfolding map_range
map_range-pages self v p n node k attr m m1 m2 hv hp small found index mapped =
    rw (aligned_test v hv, aligned_test p hp, small, found, index, mapped) refl

-- The mapping, by the entries that it leaves.
pub mapped_pages :
    (root spare v p size : ℕ) (attr : PageTableAttr) (s : Shape) (m : Memory)
    → IsTree root (spare + 3 + 3 * div_ceil size page_size) s m
    → IsOpen s v
    → ((j : ℕ) → j < div_ceil size page_size → IsOpen s (v + j * 4096))
    → is_1gib attr ≡ false
    → v % 4096 ≡ 0
    → p % 4096 ≡ 0
    → div_ceil size page_size ≤ 2 ^ 36
    → InHalf v (div_ceil size page_size)
    → p + div_ceil size page_size * 4096 < 2 ^ 63
    → (m' : Memory) × (s' : Shape) × (create_mapping root v p size attr m ≡ ok (tt, m'))
      × IsTree root spare s' m'
      × (s'.is_open ≡ s.is_open)
      × Beside s s' m m'
      × IsTranslated root s v p attr (div_ceil size page_size) m m'
unfolding create_mapping
mapped_pages root spare v p size attr s m tree o opens small hv hp count half frames =
    let n = div_ceil size page_size in
    let (l, s1, m1, found) =
      descended root (spare + 3 * n) v 3 root s m (at_room (omega arith) tree) (omega arith) o
        tree.net.top in
    let (m', s', run, tree', still, beside, done) =
      map_pages-IsTranslated root spare (digit v 1) attr n 0 l v p s1 m1 found.tree'
        (record {
          count = count;
          indices = omega (arith, digit-lt v 1);
          index = omega arith;
          frames = frames;
          frame = hp;
          opens = λ j lt. kept-IsOpen found.extends (v + j * 4096) (opens j lt);
          virtual = half;
        })
        (λ _. found.way) in
    (
      m',
      s',
      map_range-pages root v p n l (digit v 1) attr m m1 m' hv hp small found.run (last_index v)
          run,
      tree',
      still ∙ found.extends.opens,
      trans_Beside {s2 = s'} {m2 = m'} found.extends.beside beside,
      record {
        tables = record {
          pages = done.tables.pages;
          others = λ w ow h.
              done.tables.others w (kept-IsOpen found.extends w ow) h ∙ found.extends.same w ow;
        };
        cr3 = done.cr3 ∙ found.extends.cr3;
      },
    )

-- The tables below the open entries of `root` are a tree of plain entries, and the allocator has blocks for `spare`
-- tables, three more and three for each page: pages below bit 52 that differ and are no tables. Then a
-- mapping of page-aligned addresses in one half of the canonical ones, of at most 2^36 pages, the first
-- and all mapped ones below open entries, to frames below bit 52, with another attribute than the one for
-- pages of 1 GiB, succeeds. Behind it the processor's walk translates each of its pages to its frame
-- with the rights of the attribute, for the kernel alone, and every other page below an open entry as
-- before, `cr3` has stayed, and the
-- tables below the same open entries are a tree, with blocks for `spare` tables. A node that was neither a
-- table of the tree nor a block of the allocator keeps its entries, and so do the tables above the last
-- level keep those that are present.
pub create_mapping-IsTranslated :
    (root spare v p size : ℕ) (attr : PageTableAttr) (s : Shape) (m : Memory)
    → IsTree root (spare + 3 + 3 * div_ceil size page_size) s m
    → IsOpen s v
    → ((j : ℕ) → j < div_ceil size page_size → IsOpen s (v + j * 4096))
    → is_1gib attr ≡ false
    → v % 4096 ≡ 0
    → p % 4096 ≡ 0
    → div_ceil size page_size ≤ 2 ^ 36
    → InHalf v (div_ceil size page_size)
    → p + div_ceil size page_size * 4096 < 2 ^ 52
    → (m' : Memory) × (s' : Shape) × (create_mapping root v p size attr m ≡ ok (tt, m'))
      × IsTree root spare s' m'
      × (s'.is_open ≡ s.is_open)
      × Beside s s' m m'
      × Remaps 0 root s (kernel_attr attr) v p (div_ceil size page_size) m.nodes m'.nodes
      × (m'.cr3 ≡ m.cr3)
create_mapping-IsTranslated root spare v p size attr s m tree o opens small hv hp count half
      frames =
    let (m', s', run, tree', still, beside, done) =
      mapped_pages root spare v p size attr s m tree o opens small hv hp count half (omega arith) in
    (
      m',
      s',
      run,
      tree',
      still,
      beside,
      translated (kernel_attr attr) v p (div_ceil size page_size) tree.net tree'.net still opens
          done.tables,
      done.cr3,
    )
