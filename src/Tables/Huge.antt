-- ===== src/Tables/Huge.antt =====
-- A table whose entries lead to pages of 1 GiB, filled by the loops of kernel/src/paging.rs and
-- loader/src/paging.rs.
use noctis.Common.{ℕ, ◌+◌, ◌*◌, ◌^◌, ◌≤◌, ◌<◌, ◌≡◌, ◌≢◌, sym, ◌∙◌, ◌⊎◌, inl, inr, arith, ℕ_discrete}
use mathlib.Core.Path.{subst}
use noctis.MemLayout.{VirtAddr}
use noctis.Paging.Entry.{PageTableEntry}
use noctis.Tables.{Nodes, write}

-- The entries from round `lo` up to round `hi` are right for their pages, and no others have changed.
pub record Fills (pdpt : VirtAddr) (index phys : ℕ) (IsRight : PageTableEntry → ℕ → Type 0)
    (lo hi : ℕ) (nodes nodes' : Nodes) : Type 0 where
  pub entries : (j : ℕ) → lo ≤ j → j < hi → IsRight (nodes' pdpt (index + j)) (phys + j * 2 ^ 30)
  pub others :
      (n j : ℕ) → (n ≢ pdpt) ⊎ ((j < index + lo) ⊎ (index + hi ≤ j)) → nodes' n j ≡ nodes n j

pub put-join :
    {pdpt index phys : ℕ} {IsRight : PageTableEntry → ℕ → Type 0}
    → (i hi : ℕ) (nodes nodes' : Nodes) (e : PageTableEntry) → i < hi
    → IsRight e (phys + i * 2 ^ 30)
    → Fills pdpt index phys IsRight (i + 1) hi (write nodes pdpt (index + i) e) nodes'
    → Fills pdpt index phys IsRight i hi nodes nodes'
put-join {pdpt} {index} {phys} {IsRight} i hi nodes nodes' e lt right rest = record {
  entries = λ j a b. elim (ℕ_discrete i j) [
    | yes same ↦
        let here : nodes' pdpt (index + j) ≡ e =
          rest.others pdpt (index + j) (inr (inl (omega arith))) ∙ ground arith in
        let place : phys + j * 2 ^ 30 ≡ phys + i * 2 ^ 30 = omega arith in rw (here, place) right
    | no later ↦ rest.entries j (omega arith) b
  ];
  others = λ n j a. elim a [
    | inl other ↦ rest.others n j (inl other) ∙ ground arith
    | inr (inl below) ↦ rest.others n j (inr (inl (omega arith))) ∙ ground arith
    | inr (inr above) ↦ rest.others n j (inr (inr above)) ∙ ground arith
  ];
}

-- The entry of round `j` of a node that was filled from 0 on.
pub frame_at :
    (IsRight : PageTableEntry → ℕ → Type 0) (nodes : Nodes) (c d j : ℕ)
    → c ≡ d
    → IsRight (nodes d (0 + j)) (0 + j * 2 ^ 30)
    → IsRight (nodes c j) (j * 2 ^ 30)
frame_at IsRight nodes c d j e h =
    subst (λ a. IsRight (nodes a j) (j * 2 ^ 30)) (sym e)
      (subst (λ a. IsRight (nodes d a) (j * 2 ^ 30)) {x = 0 + j} (omega arith)
        (subst (λ q. IsRight (nodes d (0 + j)) q) {x = 0 + j * 2 ^ 30} (omega arith) h))
