-- ===== src/Tables/Grow.antt =====
-- A new table below an entry that was not present: it is a table of the tree, and nothing is translated
-- otherwise.
use noctis.Common.{
  ℕ, zero, suc, ◌+◌, ◌<◌, ◌≡◌, ◌≢◌, ◌⊎◌, inl, inr, refl, sym, ap, ◌∙◌, arith, true, false,
  Bool-cases, ℕ_discrete, ◌==◌, if◌then◌else◌,
}
use mathlib.Core.Path.{subst}
use noctis.MemLayout.{VirtAddr}
use noctis.MemLayout.Index.{digit}
use noctis.Paging.Entry.{PageTableEntry, is_present}
use noctis.Tables.{Nodes, write, child, leaf, entry_in, lookup, Shape, Open, IsOpen, IsPlain, IsNet}
use noctis.Tables.Ways.{digit-lt, opened, leaf-zero, leaf-present, leaf-absent}

pub present_zero : is_present 0 ≡ true → ⊥
unfolding is_present
present_zero e = cc

clash : true ≡ false → ⊥
clash e = cc

pub absent_zero : is_present 0 ≡ false
unfolding is_present
absent_zero = refl

-- The tables with a zeroed one at `p`, and the entry that leads to it.
abbrev pub grow : Nodes → ℕ → ℕ → VirtAddr → PageTableEntry → Nodes
grow nodes n i p e = write (λ x j. if x == p then 0 else nodes x j) n i e

-- The new table is owned by the entry that points to it.
abbrev pub grow_shape : Shape → ℕ → ℕ → VirtAddr → ℕ → Shape
grow_shape s n i p r = record {
  rank = λ x. if x == p then r else s.rank x;
  owner = λ x. if x == p then (n, i) else s.owner x;
  is_open = s.is_open;
}

-- What growing makes of the tables: a tree again, in which the new table has its place, and what it leaves.
pub record IsGrown (base root : ℕ) (s s' : Shape) (nodes nodes' : Nodes) (n i d : ℕ) (p : VirtAddr)
    (e : PageTableEntry) : Type 0 where
  pub tree : IsNet base root s' nodes'
  pub at : nodes' n i ≡ e
  pub level : s'.rank p ≡ suc d
  pub old : (x j : ℕ) → x ≢ p → (x ≢ n) ⊎ (j ≢ i) → nodes' x j ≡ nodes x j
  pub old_rank : (x : ℕ) → x ≢ p → s'.rank x ≡ s.rank x
  pub kept : (x j : ℕ) → 0 < s.rank x → is_present (nodes x j) ≡ true → nodes' x j ≡ nodes x j
  pub kept_rank : (x : ℕ) → 0 < s.rank x → s'.rank x ≡ s.rank x
  pub same : (v : VirtAddr) → IsOpen s v → lookup base nodes' root v ≡ lookup base nodes root v

module _ {base root : ℕ} {s : Shape} {nodes : Nodes} (tree : IsNet base root s nodes) (n i d : ℕ)
    (rank : s.rank n ≡ suc (suc d)) (index : i < 512) (absent : is_present (nodes n i) ≡ false)
    (p : VirtAddr) (fresh : (x : ℕ) → 0 < s.rank x → x ≢ p) (e_new : PageTableEntry)
    (present : is_present e_new ≡ true) (address : child base e_new ≡ p)
    (plain : IsPlain e_new) where
  abbrev nodes' : Nodes
  nodes' = grow nodes n i p e_new

  abbrev s' : Shape
  s' = grow_shape s n i p (suc d)

  -- The entries, levels and owners behind the change.
  at_pointer : nodes' n i ≡ e_new
  at_pointer = ground arith

  at_new : (j : ℕ) → nodes' p j ≡ 0
  at_new j = ground (arith, fresh n)

  at_old : (x j : ℕ) → x ≢ p → (x ≢ n) ⊎ (j ≢ i) → nodes' x j ≡ nodes x j
  at_old x j ne other = ground arith

  rank_new : s'.rank p ≡ suc d
  rank_new = ground arith

  rank_old : (x : ℕ) → x ≢ p → s'.rank x ≡ s.rank x
  rank_old x ne = ground arith

  owner_new : s'.owner p ≡ (n, i)
  owner_new = ground arith

  owner_old : (x : ℕ) → x ≢ p → s'.owner x ≡ s.owner x
  owner_old x ne = ground arith

  old_child :
      (x j e : ℕ)
      → s.rank x ≡ suc (suc e)
      → j < 512
      → Open s j e
      → is_present (nodes x j) ≡ true
      → child base (nodes x j) ≢ p
  old_child x j e r h o q =
      fresh (child base (nodes x j)) (omega (arith, (tree.children x j e r h o q).0))

  place : (x j : ℕ) → ((x ≡ n) × (j ≡ i)) ⊎ ((x ≢ n) ⊎ (j ≢ i))
  place x j = elim (ℕ_discrete x n) [
    | no a ↦ inr (inl a)
    | yes a ↦ elim (ℕ_discrete j i) [ yes b ↦ inl (a, b) | no b ↦ inr (inr b) ]
  ]

  grown-children :
      (x j e : ℕ)
      → s'.rank x ≡ suc (suc e)
      → j < 512
      → Open s' j e
      → is_present (nodes' x j) ≡ true
      → (s'.rank (child base (nodes' x j)) ≡ suc e)
        × (s'.owner (child base (nodes' x j)) ≡ (x, j))
        × IsPlain (nodes' x j)
  grown-children x j e r h o q = elim (ℕ_discrete x p) [
    | yes new ↦
        absurd (present_zero (sym (ap is_present (ap (λ (y : ℕ). nodes' y j) new ∙ at_new j)) ∙ q))
    | no ne ↦ elim (place x j) [
      | inl (same_n, same_i) ↦
          let at : nodes' x j ≡ e_new =
            ap (λ (y : ℕ). nodes' y j) same_n ∙ ap (nodes' n) same_i ∙ at_pointer in
          let to_p : child base (nodes' x j) ≡ p = ap (child base) at ∙ address in
          (
            ap s'.rank to_p ∙ rank_new ∙ omega (arith, rank_old x ne, ap s.rank same_n),
            ap s'.owner to_p ∙ owner_new ∙ ground arith,
            subst IsPlain (sym at) plain,
          )
      | inr other ↦
          let at = at_old x j ne other in
          let r' = sym (rank_old x ne) ∙ r in
          let q' = sym (ap is_present at) ∙ q in
          let (rank_c, owner_c, plain_c) = tree.children x j e r' h o q' in
          let c_ne = old_child x j e r' h o q' in
          (
            ap (λ (y : ℕ). s'.rank (child base y)) at
                ∙ rank_old (child base (nodes x j)) c_ne
                ∙ rank_c,
            ap (λ (y : ℕ). s'.owner (child base y)) at
                ∙ owner_old (child base (nodes x j)) c_ne
                ∙ owner_c,
            subst IsPlain (sym at) plain_c,
          )
    ]
  ]

  grown-IsNet : IsNet base root s' nodes'
  grown-IsNet = record {
    top = rank_old root (fresh root (omega (arith, tree.top))) ∙ tree.top;
    children = grown-children;
  }

  -- The new table translates nothing.
  look_new : (v : VirtAddr) (e : ℕ) → entry_in nodes' v (leaf base nodes' v e p) ≡ 0
  look_new v zero = ap (entry_in nodes' v) (leaf-zero base nodes' v p) ∙ at_new (digit v 1)
  look_new v (suc e) =
      ap (entry_in nodes' v)
        (leaf-absent base nodes' v e p (ap is_present (at_new (digit v (e + 2))) ∙ absent_zero))

  -- No way from an old table translates otherwise.
  grown-look :
      (v : VirtAddr) (e x : ℕ)
      → IsOpen s v
      → s.rank x ≡ suc e
      → entry_in nodes' v (leaf base nodes' v e x) ≡ entry_in nodes v (leaf base nodes v e x)
  grown-look v zero x o r =
      ap (entry_in nodes' v) (leaf-zero base nodes' v x)
      ∙ at_old x (digit v 1) (fresh x (omega arith)) (inl λ same. omega (arith, ap s.rank same))
      ∙ sym (ap (entry_in nodes v) (leaf-zero base nodes v x))
  grown-look v (suc e) x o r =
      let j = digit v (e + 2) in
      elim (place x j) [
        | inl (same_n, same_i) ↦
            let at : nodes' x j ≡ e_new =
              ap (λ (y : ℕ). nodes' y j) same_n ∙ ap (nodes' n) same_i ∙ at_pointer in
            let gone : is_present (nodes x j) ≡ false =
              ap is_present (ap (λ (y : ℕ). nodes y j) same_n ∙ ap (nodes n) same_i) ∙ absent in
            ap (entry_in nodes' v) (
              leaf-present base nodes' v e x (ap is_present at ∙ present)
              ∙ ap (λ (y : PageTableEntry). leaf base nodes' v e (child base y)) at
              ∙ ap (leaf base nodes' v e) address)
            ∙ look_new v e
            ∙ sym (ap (entry_in nodes v) (leaf-absent base nodes v e x gone))
        | inr other ↦
            let at = at_old x j (fresh x (omega arith)) other in
            elim (Bool-cases (is_present (nodes x j))) [
              | inl q ↦
                  ap (entry_in nodes' v) (
                    leaf-present base nodes' v e x (ap is_present at ∙ q)
                    ∙ ap (λ (y : PageTableEntry). leaf base nodes' v e (child base y)) at)
                  ∙ grown-look v e (child base (nodes x j)) o
                      (tree.children x j e r (digit-lt v (e + 2)) (opened s v e o) q).0
                  ∙ sym (ap (entry_in nodes v) (leaf-present base nodes v e x q))
              | inr gone ↦
                  ap (entry_in nodes' v) (leaf-absent base nodes' v e x (ap is_present at ∙ gone))
                  ∙ sym (ap (entry_in nodes v) (leaf-absent base nodes v e x gone))
            ]
      ]

  rank_kept : (x : ℕ) → 0 < s.rank x → s'.rank x ≡ s.rank x
  rank_kept x r = rank_old x (fresh x r)

  same_lookup : (v : VirtAddr) → IsOpen s v → lookup base nodes' root v ≡ lookup base nodes root v
  unfolding lookup
  same_lookup v o = grown-look v 3 root o tree.top

  kept_entry : (x j : ℕ) → 0 < s.rank x → is_present (nodes x j) ≡ true → nodes' x j ≡ nodes x j
  kept_entry = λ x j r q. at_old x j (fresh x r) (elim (place x j) [
    | inl (same_n, same_i) ↦
        let gone = ap is_present (ap (λ (y : ℕ). nodes y j) same_n ∙ ap (nodes n) same_i) in
        absurd (clash (sym q ∙ gone ∙ absent))
    | inr other ↦ other
  ])

  pub grow-IsGrown : IsGrown base root s s' nodes nodes' n i d p e_new
  grow-IsGrown = record {
    tree = grown-IsNet;
    at = at_pointer;
    level = rank_new;
    old = at_old;
    old_rank = rank_old;
    kept = kept_entry;
    kept_rank = rank_kept;
    same = same_lookup;
  }
