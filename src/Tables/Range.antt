-- ===== src/Tables/Range.antt =====
-- A range of pages, mapped one after the other by the loops of kernel/src/paging.rs and
-- loader/src/paging.rs.
use noctis.Common.{
  ℕ, suc, ◌+◌, ◌-◌, ◌*◌, ◌%◌, ◌^◌, ◌<◌, ◌≡◌, ◌≢◌, sym, ap, ◌∙◌, arith, Bool, false, not, ◌==◌, ◌&&◌,
  ℕ_discrete,
}
use mathlib.Core.Path.{subst}
use noctis.MemLayout.{VirtAddr}
use noctis.MemLayout.Index.{digit}
use noctis.Paging.Entry.{PageTableEntry}
use noctis.Tables.{Nodes, lookup, page, Shape, IsOpen}
use noctis.Tables.Ways.{Agree}
use noctis.Tables.Store.{Agree-page}

-- Whether a round looks for its table anew.
abbrev pub turns : ℕ → ℕ → Bool
turns start i = (start + i) % 512 == 0 && not (i == 0)

pub turns-false : (start i : ℕ) → turns start (i + 1) ≡ false → (start + (i + 1)) % 512 ≢ 0
turns-false start i e = ground arith

pub next_Agree : (v : VirtAddr) → digit v 1 ≢ 511 → Agree (v + 4096) v 3
next_Agree v h = (omega arith, (omega arith, (omega arith, tt)))

-- Pages less than 2^36 apart differ.
page-far : (v j : ℕ) → 0 < j → j < 2 ^ 36 → page v ≢ page (v + j * 4096)
page-far v j lo hi same = omega arith

-- `left` pages from `v` on are translated by entries that are right for the frames from `p` on, and every
-- other page below an open entry as before.
pub record Translates (base root : ℕ) (s : Shape) (IsRight : PageTableEntry → ℕ → Type 0)
    (v p left : ℕ) (nodes nodes' : Nodes) : Type 0 where
  pub pages :
      (j w : ℕ)
      → j < left
      → page w ≡ page (v + j * 4096)
      → IsRight (lookup base nodes' root w) (p + j * 4096)
  pub others :
      (w : VirtAddr)
      → IsOpen s w
      → ((j : ℕ) → j < left → page w ≢ page (v + j * 4096))
      → lookup base nodes' root w ≡ lookup base nodes root w

-- A page and the ones behind it.
pub joined :
    {base root : ℕ} {s : Shape} {IsRight : PageTableEntry → ℕ → Type 0}
    → (v p left : ℕ) (nodes nodes2 nodes' : Nodes) (e : PageTableEntry) → left < 2 ^ 36
    → IsRight e p
    → IsOpen s v
    → ((w : VirtAddr) → page w ≡ page v → lookup base nodes2 root w ≡ e)
    → ((w : VirtAddr)
        → IsOpen s w
        → page w ≢ page v
        → lookup base nodes2 root w ≡ lookup base nodes root w)
    → Translates base root s IsRight (v + 4096) (p + 4096) left nodes2 nodes'
    → Translates base root s IsRight v p (suc left) nodes nodes'
joined {base} {root} {s} {IsRight} v p left nodes nodes2 nodes' e small right o here away rest =
    record {
      pages = λ j w lt same. elim (ℕ_discrete j 0) [
        | yes first ↦
            let on : page w ≡ page v = ground arith in
            let at : lookup base nodes' root w ≡ e =
              rest.others w (ap s.is_open (Agree-page w v on).0.0 ∙ o) (λ j' b both.
                page-far v (j' + 1) (omega arith) (omega arith)
                  (sym on ∙ both ∙ ap page (omega arith)))
              ∙ here w on in
            let frame : p + j * 4096 ≡ p = omega arith in rw (at, frame) right
        | no later ↦
            subst (λ q. IsRight (lookup base nodes' root w) q) (omega arith)
              (rest.pages (j - 1) w (omega arith) (same ∙ ap page (omega arith)))
      ];
      others = λ w ow h.
          rest.others w ow (λ j b both. h (j + 1) (omega arith) (both ∙ ap page (omega arith)))
          ∙ away w ow (λ same. h 0 (omega arith) (same ∙ ap page (omega arith)));
    }
