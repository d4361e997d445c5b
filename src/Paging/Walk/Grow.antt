-- ===== src/Paging/Walk/Grow.antt =====
-- `get_or_alloc_next_level_table` of kernel/src/paging.rs on a tree of tables.
use noctis.Common.{
  ℕ, suc, ◌+◌, ◌%◌, ◌≤◌, ◌<◌, ◌≡◌, ◌≢◌, inl, refl, ap, ◌∙◌, arith, true, false, ℕ_discrete,
}
use noctis.MemLayout.{VirtAddr, liner_mapping_base_vaddr, liner_mapping_size}
use noctis.Paging.Entry.{is_present}
use noctis.Paging.Memory.{Memory}
use noctis.Tables.{IsPlain}
use noctis.Tables.Grow.{grow_shape, IsGrown, grow-IsGrown}
use noctis.Paging.Walk.{child, Shape, IsTree, net}
use noctis.Paging.Walk.Entries.{pointer, grown, pointer-child, Beside, Extends}

module _ {root room : ℕ} {s : Shape} {m : Memory} (tree : IsTree root (suc room) s m) (n i d : ℕ)
    (rank : s.rank n ≡ suc (suc d)) (index : i < 512) (absent : is_present (m.nodes n i) ≡ false)
    (p : VirtAddr) (behind : m.heap.value.next ≤ p) (near : p < m.heap.value.next + 4096)
    (aligned : p % 4096 ≡ 0) where
  pub fresh : (x : ℕ) → 0 < s.rank x → x ≢ p
  fresh x r = omega (arith, tree.used x r)

  abbrev m' : Memory
  m' = grown m n i p (pointer p)

  abbrev s' : Shape
  s' = grow_shape s n i p (suc d)

  pub lo : liner_mapping_base_vaddr ≤ p
  lo = omega (arith, tree.low)

  pub hi : p < liner_mapping_base_vaddr + liner_mapping_size
  hi = omega (arith, tree.high, tree.left)

  pub here : (is_present (pointer p) ≡ true) × (child (pointer p) ≡ p) × IsPlain (pointer p)
  here = pointer-child p lo hi aligned

  pub is_grown : IsGrown liner_mapping_base_vaddr root s s' m.nodes m'.nodes n i d p (pointer p)
  is_grown =
      grow-IsGrown (net tree) n i d rank index absent p fresh (pointer p) here.0 here.1 here.2

  pub grown-IsTree : IsTree root room s' m'
  grown-IsTree = record {
    top = is_grown.tree.top;
    children = is_grown.tree.children;
    used = λ x r. elim (ℕ_discrete x p) [
      | yes new ↦ omega arith
      | no ne ↦ omega (arith, tree.used x (omega (arith, is_grown.old_rank x ne)))
    ];
    heap_free = refl;
    heap = record {
      begins = omega (arith, tree.heap.begins);
      within = omega (arith, tree.left);
      fits = tree.heap.fits;
      not_null = tree.heap.not_null;
    };
    low = omega (arith, tree.low);
    high = tree.high;
    left = omega (arith, tree.left);
  }

  grown-Beside : Beside s s' m m'
  grown-Beside = record {
    grows = omega arith;
    apart = λ x j lt r.
        is_grown.old x j (λ same. omega arith) (inl λ same. omega (arith, ap s.rank same));
    unranked = λ x lt r. is_grown.old_rank x (λ same. omega arith) ∙ r;
    upper = λ x j r q. is_grown.kept x j (omega arith) q;
    kept_rank = is_grown.kept_rank;
  }

  pub grown-Extends : Extends root s s' m m'
  grown-Extends = record {
    kept = is_grown.kept;
    ranks = is_grown.kept_rank;
    opens = refl;
    same = is_grown.same;
    cr3 = refl;
    beside = grown-Beside;
  }
