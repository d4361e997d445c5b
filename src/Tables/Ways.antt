-- ===== src/Tables/Ways.antt =====
-- A table of a tree is reached by one way only.
use noctis.Common.{
  ℕ, zero, suc, ◌+◌, ◌<◌, ◌≡◌, inl, inr, refl, sym, ap, ◌∙◌, arith, true, false, Bool-cases, none,
  some,
}
use noctis.MemLayout.{VirtAddr}
use noctis.MemLayout.Index.{digit}
use noctis.Paging.Entry.{is_present}
use noctis.Tables.{Nodes, child, leaf, Shape, Open, IsOpen, IsNet}

-- Two addresses with the same digits above the last level, up to depth `d`.
abbrev pub Agree : VirtAddr → VirtAddr → ℕ → Type 0
Agree v w zero = Unit {0}
Agree v w (suc d) = (digit v (d + 2) ≡ digit w (d + 2)) × Agree v w d

pub digit-lt : (v l : ℕ) → digit v l < 512
digit-lt v l = omega arith

pub leaf-present :
    (base : ℕ) (nodes : Nodes) (v : VirtAddr) (d x : ℕ)
    → is_present (nodes x (digit v (d + 2))) ≡ true
    → leaf base nodes v (suc d) x ≡ leaf base nodes v d (child base (nodes x (digit v (d + 2))))
unfolding leaf
leaf-present base nodes v d x p = rw (p, leaf) refl

pub leaf-absent :
    (base : ℕ) (nodes : Nodes) (v : VirtAddr) (d x : ℕ)
    → is_present (nodes x (digit v (d + 2))) ≡ false
    → leaf base nodes v (suc d) x ≡ none
unfolding leaf
leaf-absent base nodes v d x p = rw (p, leaf) refl

pub leaf-zero : (base : ℕ) (nodes : Nodes) (v x : VirtAddr) → leaf base nodes v zero x ≡ some x
unfolding leaf
leaf-zero base nodes v x = refl

-- A way that ends goes through an entry that is present.
pub leaf-some :
    (base : ℕ) (nodes : Nodes) (v : VirtAddr) (d x l : ℕ)
    → leaf base nodes v (suc d) x ≡ some l
    → (is_present (nodes x (digit v (d + 2))) ≡ true)
      × (leaf base nodes v d (child base (nodes x (digit v (d + 2)))) ≡ some l)
leaf-some base nodes v d x l e = elim (Bool-cases (is_present (nodes x (digit v (d + 2))))) [
  | inl p ↦ (p, sym (leaf-present base nodes v d x p) ∙ e)
  | inr p ↦ let gone = leaf-absent base nodes v d x p in absurd (ground arith)
]

-- Addresses with the same upper digits have the same last table.
pub leaf-Agree :
    (base : ℕ) (nodes : Nodes) (v w : VirtAddr) (d x : ℕ)
    → Agree v w d
    → leaf base nodes v d x ≡ leaf base nodes w d x
unfolding leaf
leaf-Agree base nodes v w zero x a = refl
leaf-Agree base nodes v w (suc d) x (e, a) =
    elim (Bool-cases (is_present (nodes x (digit w (d + 2))))) [
      | inl p ↦
          leaf-present base nodes v d x (ap (λ (i : ℕ). is_present (nodes x i)) e ∙ p)
          ∙ ap (λ (i : ℕ). leaf base nodes v d (child base (nodes x i))) e
          ∙ leaf-Agree base nodes v w d (child base (nodes x (digit w (d + 2)))) a
          ∙ sym (leaf-present base nodes w d x p)
      | inr p ↦
          leaf-absent base nodes v d x (ap (λ (i : ℕ). is_present (nodes x i)) e ∙ p)
          ∙ sym (leaf-absent base nodes w d x p)
    ]

pub opened : (s : Shape) (v : VirtAddr) (d : ℕ) → IsOpen s v → Open s (digit v (d + 2)) d
opened s v d o e = ap (λ (k : ℕ). s.is_open (digit v (k + 2))) e ∙ o

module _ {base root : ℕ} {s : Shape} {nodes : Nodes} (tree : IsNet base root s nodes) where
  -- The last table of a way is a table of the last level.
  pub leaf-rank :
      (v : VirtAddr) (d x l : ℕ)
      → IsOpen s v
      → s.rank x ≡ suc d
      → leaf base nodes v d x ≡ some l
      → s.rank l ≡ 1
  leaf-rank v zero x l o r e = let same = leaf-zero base nodes v x in ground arith
  leaf-rank v (suc d) x l o r e =
      let (p, rest) = leaf-some base nodes v d x l e in
      leaf-rank v d (child base (nodes x (digit v (d + 2)))) l o
        (tree.children x (digit v (d + 2)) d r (digit-lt v (d + 2)) (opened s v d o) p).0 rest

  -- Two ways to one table are the same way.
  pub leaf-inj :
      (v w : VirtAddr) (d x y l : ℕ)
      → IsOpen s v
      → IsOpen s w
      → s.rank x ≡ suc d
      → s.rank y ≡ suc d
      → leaf base nodes v d x ≡ some l
      → leaf base nodes w d y ≡ some l
      → (x ≡ y) × Agree v w d
  leaf-inj v w zero x y l ov ow rx ry ex ey =
      let sx = leaf-zero base nodes v x in let sy = leaf-zero base nodes w y in (ground arith, tt)
  leaf-inj v w (suc d) x y l ov ow rx ry ex ey =
      let i = digit v (d + 2) in
      let j = digit w (d + 2) in
      let (p, restx) = leaf-some base nodes v d x l ex in
      let (q, resty) = leaf-some base nodes w d y l ey in
      let (rank_x, own_x, _) = tree.children x i d rx (digit-lt v (d + 2)) (opened s v d ov) p in
      let (rank_y, own_y, _) = tree.children y j d ry (digit-lt w (d + 2)) (opened s w d ow) q in
      let (same, agree) =
        leaf-inj v w d (child base (nodes x i)) (child base (nodes y j)) l ov ow rank_x rank_y restx
          resty in
      let places : ◌≡◌ {A = VirtAddr × ℕ} (x, i) (y, j) = sym own_x ∙ ap s.owner same ∙ own_y in
      (ap (λ (p : VirtAddr × ℕ). p.0) places, (ap (λ (p : VirtAddr × ℕ). p.1) places, agree))
