-- ===== src/Tables/Store.antt =====
-- A store into a table of the last level, in kernel/src/paging.rs and loader/src/paging.rs: it changes what
-- one page is translated to and no more.
use noctis.Common.{
  ℕ, zero, suc, ◌+◌, ◌≡◌, ◌≢◌, ◌⊎◌, inl, inr, refl, sym, ap, ◌∙◌, arith, Bool-cases, Option, none,
  some, ℕ_discrete,
}
use mathlib.Core.Path.{subst}
use noctis.MemLayout.{VirtAddr}
use noctis.MemLayout.Index.{digit}
use noctis.Paging.Entry.{PageTableEntry, is_present}
use noctis.Tables.{Nodes, write, child, leaf, entry_in, lookup, page, Shape, IsOpen, IsPlain, IsNet}
use noctis.Tables.Ways.{
  Agree, digit-lt, opened, leaf-zero, leaf-present, leaf-absent, leaf-Agree, leaf-inj,
}

-- The page number is made of the four digits.
page-Agree : (v w : VirtAddr) → Agree v w 3 → digit v 1 ≡ digit w 1 → page v ≡ page w
page-Agree v w (a, (b, (c, _))) d = omega (arith, a, b, c, d)

pub Agree-page : (v w : VirtAddr) → page v ≡ page w → Agree v w 3 × (digit v 1 ≡ digit w 1)
Agree-page v w e = ((omega arith, (omega arith, (omega arith, tt))), omega arith)

module _ {base root : ℕ} {s : Shape} {nodes : Nodes} (tree : IsNet base root s nodes) (l k : ℕ)
    (rank : s.rank l ≡ 1) (e : PageTableEntry) where
  abbrev nodes' : Nodes
  nodes' = write nodes l k e

  upper : (x j d : ℕ) → s.rank x ≡ suc (suc d) → nodes' x j ≡ nodes x j
  upper x j d r = let ne : x ≢ l = λ same. omega (arith, ap s.rank same) in ground arith

  pub stored-IsNet : IsNet base root s nodes'
  stored-IsNet = record {
    top = tree.top;
    children = λ n i d r h o p.
        let at = upper n i d r in
        let (rank_c, owner_c, plain_c) = tree.children n i d r h o (sym (ap is_present at) ∙ p) in
        (
          ap (λ (y : ℕ). s.rank (child base y)) at ∙ rank_c,
          ap (λ (y : ℕ). s.owner (child base y)) at ∙ owner_c,
          subst IsPlain (sym at) plain_c,
        );
  }

  pub stored-leaf :
      (v : VirtAddr) (d x : ℕ)
      → IsOpen s v
      → s.rank x ≡ suc d
      → leaf base nodes' v d x ≡ leaf base nodes v d x
  stored-leaf v zero x o r = leaf-zero base nodes' v x ∙ sym (leaf-zero base nodes v x)
  stored-leaf v (suc d) x o r =
      let j = digit v (d + 2) in
      let at = upper x j d r in
      elim (Bool-cases (is_present (nodes x j))) [
        | inl q ↦
            leaf-present base nodes' v d x (ap is_present at ∙ q)
            ∙ ap (λ (y : PageTableEntry). leaf base nodes' v d (child base y)) at
            ∙ stored-leaf v d (child base (nodes x j)) o
                (tree.children x j d r (digit-lt v (d + 2)) (opened s v d o) q).0
            ∙ sym (leaf-present base nodes v d x q)
        | inr gone ↦
            leaf-absent base nodes' v d x (ap is_present at ∙ gone)
            ∙ sym (leaf-absent base nodes v d x gone)
      ]

  entry_stored : nodes' l k ≡ e
  entry_stored = ground arith

  entry_else : (x j : ℕ) → (x ≢ l) ⊎ (j ≢ k) → nodes' x j ≡ nodes x j
  entry_else x j o = ground arith

  -- Where the way of `v` ends at the table, its page is translated by the new entry.
  pub stored-lookup :
      (v : VirtAddr)
      → IsOpen s v
      → leaf base nodes v 3 root ≡ some l
      → digit v 1 ≡ k
      → (w : VirtAddr) → page w ≡ page v
      → lookup base nodes' root w ≡ e
  unfolding lookup
  stored-lookup v o way index w same =
      let (agree, last) = Agree-page w v same in
      ap (entry_in nodes' w) (
        stored-leaf w 3 root (ap s.is_open agree.0 ∙ o) tree.top
        ∙ leaf-Agree base nodes w v 3 root agree
        ∙ way)
      ∙ ap (nodes' l) (last ∙ index)
      ∙ entry_stored

  entries_else :
      (w : VirtAddr) (o : Option VirtAddr)
      → ((x : ℕ) → o ≡ some x → (x ≢ l) ⊎ (digit w 1 ≢ k))
      → entry_in nodes' w o ≡ entry_in nodes w o
  entries_else w none h = refl
  entries_else w (some x) h = entry_else x (digit w 1) (h x refl)

  -- Every other page is translated as before.
  pub stored-else :
      (v : VirtAddr)
      → IsOpen s v
      → leaf base nodes v 3 root ≡ some l
      → digit v 1 ≡ k
      → (w : VirtAddr) → IsOpen s w
      → page w ≢ page v
      → lookup base nodes' root w ≡ lookup base nodes root w
  unfolding lookup
  stored-else v o way index w ow other =
      ap (entry_in nodes' w) (stored-leaf w 3 root ow tree.top)
      ∙ entries_else w (leaf base nodes w 3 root) λ x ends. elim (ℕ_discrete x l) [
        | no ne ↦ inl ne
        | yes same ↦ inr λ d.
            let to_l : leaf base nodes w 3 root ≡ some l = ends ∙ ap some same in
            other (
              page-Agree w v (leaf-inj tree w v 3 root root l ow o tree.top tree.top to_l way).1
                (d ∙ sym index))
      ]
