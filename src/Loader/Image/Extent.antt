-- ===== src/Loader/Image/Extent.antt =====
-- What `get_kernel_size` of loader/src/main.rs says of the segments.
use noctis.Common.{
  ℕ, zero, suc, ◌+◌, ◌≤◌, ◌<◌, ◌≡◌, ◌≢◌, refl, sym, ap, ◌∙◌, ◌⊎◌, inl, inr, arith, ok, List, [],
  ◌∷◌, word, some, get_elem?, ℕ_discrete, dec_lt,
}
use noctis.Loader.Image.{ProgramHeader, usize_max, lesser, greater, extend_size, get_kernel_size}

abbrev pub At : List ProgramHeader → ProgramHeader → Type 0
At segments ph = (i : ℕ) × (get_elem? segments i ≡ some ph)

pub At-cons : (x y : ProgramHeader) (l : List ProgramHeader) → At (x ∷ l) y → (y ≡ x) ⊎ At l y
At-cons x y l (zero, e) = inl cc
At-cons x y l (suc i, e) = inr (i, e)

-- A value that a running minimum or maximum ends at: the one it began at, or one of a segment.
abbrev pub Reached : ℕ → List ProgramHeader → (ProgramHeader → ℕ) → ℕ → ℕ → Type 0
Reached pt_load segments f a r =
    (r ≡ a) ⊎ ((ph : ProgramHeader) × At segments ph × (ph.p_type ≡ pt_load) × (f ph ≡ r))

abbrev pub end_of : ProgramHeader → ℕ
end_of ph = ph.p_vaddr + ph.p_memsz

-- The least and greatest addresses of the segments to be loaded, from the values `a`, `b`, `c` on.
pub record IsExtent (pt_load : ℕ) (segments : List ProgramHeader) (a b c virt phys end : ℕ)
    : Type 0 where
  pub virt_least :
      (virt ≤ a) × ((ph : ProgramHeader) → At segments ph → ph.p_type ≡ pt_load → virt ≤ ph.p_vaddr)
  pub phys_least :
      (phys ≤ b) × ((ph : ProgramHeader) → At segments ph → ph.p_type ≡ pt_load → phys ≤ ph.p_paddr)
  pub end_greatest :
      (c ≤ end) × ((ph : ProgramHeader) → At segments ph → ph.p_type ≡ pt_load → end_of ph ≤ end)
  pub virt_reached : Reached pt_load segments (λ ph. ph.p_vaddr) a virt
  pub phys_reached : Reached pt_load segments (λ ph. ph.p_paddr) b phys
  pub end_reached : Reached pt_load segments end_of c end

lesser-lem : (a b : ℕ) → (lesser a b ≤ a) × (lesser a b ≤ b) × ((lesser a b ≡ a) ⊎ (b ≡ lesser a b))
lesser-lem a b = elim (dec_lt b a) [
  | yes h ↦ (ground arith, ground arith, inr (ground arith))
  | no h ↦ (ground arith, ground arith, inl (ground arith))
]

greater-lem :
    (a b : ℕ) → (a ≤ greater a b) × (b ≤ greater a b) × ((greater a b ≡ a) ⊎ (b ≡ greater a b))
greater-lem a b = elim (dec_lt a b) [
  | yes h ↦ (ground arith, ground arith, inr (ground arith))
  | no h ↦ (ground arith, ground arith, inl (ground arith))
]

module _ (pt_load : ℕ) where
  further :
      (x : ProgramHeader) (l : List ProgramHeader) (f : ProgramHeader → ℕ) (a a' r : ℕ)
      → x.p_type ≡ pt_load
      → (a' ≡ a) ⊎ (f x ≡ a')
      → Reached pt_load l f a' r
      → Reached pt_load (x ∷ l) f a r
  further x l f a a' r load step (inr (ph, (i, at), t, e)) = inr (ph, (suc i, at), t, e)
  further x l f a a' r load (inl same) (inl e) = inl (e ∙ same)
  further x l f a a' r load (inr from_x) (inl e) = inr (x, (0, refl), load, from_x ∙ sym e)

  past :
      (x : ProgramHeader) (l : List ProgramHeader) (f : ProgramHeader → ℕ) (a r : ℕ)
      → Reached pt_load l f a r
      → Reached pt_load (x ∷ l) f a r
  past x l f a r (inr (ph, (i, at), t, e)) = inr (ph, (suc i, at), t, e)
  past x l f a r (inl e) = inl e

  load_step :
      (x : ProgramHeader) (l : List ProgramHeader) (a b c : ℕ)
      → x.p_type ≡ pt_load
      → end_of x < word
      → extend_size pt_load (x ∷ l) a b c
        ≡ extend_size pt_load l (lesser a x.p_vaddr) (lesser b x.p_paddr) (greater c (end_of x))
  unfolding extend_size
  load_step x l a b c load within = ground arith

  skip_step :
      (x : ProgramHeader) (l : List ProgramHeader) (a b c : ℕ)
      → x.p_type ≢ pt_load
      → extend_size pt_load (x ∷ l) a b c ≡ extend_size pt_load l a b c
  unfolding extend_size
  skip_step x l a b c other = ground arith

  extended :
      (segments : List ProgramHeader) (a b c : ℕ)
      → ((ph : ProgramHeader) → At segments ph → end_of ph < word)
      → (virt phys end : ℕ) × (extend_size pt_load segments a b c ≡ ok (virt, (phys, end)))
        × IsExtent pt_load segments a b c virt phys end
  unfolding extend_size
  extended [] a b c fits = (
    a,
    b,
    c,
    refl,
    record {
      virt_least = (omega arith, λ ph (i, at) t. cc);
      phys_least = (omega arith, λ ph (i, at) t. cc);
      end_greatest = (omega arith, λ ph (i, at) t. cc);
      virt_reached = inl refl;
      phys_reached = inl refl;
      end_reached = inl refl;
    },
  )
  extended (x ∷ l) a b c fits = elim (ℕ_discrete x.p_type pt_load) [
    | yes load ↦
        let (va, vx, vr) = lesser-lem a x.p_vaddr in
        let (pa, px, pr) = lesser-lem b x.p_paddr in
        let (ec, ex, er) = greater-lem c (end_of x) in
        let (virt, phys, end, run, e) =
          extended l (lesser a x.p_vaddr) (lesser b x.p_paddr) (greater c (end_of x))
            (λ ph (i, at). fits ph (suc i, at)) in
        let within = fits x (0, refl) in
        (
          virt,
          phys,
          end,
          load_step x l a b c load within ∙ run,
          record {
            virt_least = (
              omega (arith, va, e.virt_least.0),
              λ ph at t. elim (At-cons x ph l at) [
                | inl same ↦ omega (arith, ap ProgramHeader.p_vaddr same, vx, e.virt_least.0)
                | inr later ↦ e.virt_least.1 ph later t
              ],
            );
            phys_least = (
              omega (arith, pa, e.phys_least.0),
              λ ph at t. elim (At-cons x ph l at) [
                | inl same ↦ omega (arith, ap ProgramHeader.p_paddr same, px, e.phys_least.0)
                | inr later ↦ e.phys_least.1 ph later t
              ],
            );
            end_greatest = (
              omega (arith, ec, e.end_greatest.0),
              λ ph at t. elim (At-cons x ph l at) [
                | inl same ↦ omega (arith, ap end_of same, ex, e.end_greatest.0)
                | inr later ↦ e.end_greatest.1 ph later t
              ],
            );
            virt_reached =
                further x l (λ ph. ph.p_vaddr) a (lesser a x.p_vaddr) virt load vr e.virt_reached;
            phys_reached =
                further x l (λ ph. ph.p_paddr) b (lesser b x.p_paddr) phys load pr e.phys_reached;
            end_reached = further x l end_of c (greater c (end_of x)) end load er e.end_reached;
          },
        )
    | no other ↦
        let (virt, phys, end, run, e) = extended l a b c (λ ph (i, at). fits ph (suc i, at)) in
        (
          virt,
          phys,
          end,
          skip_step x l a b c other ∙ run,
          record {
            virt_least = (
              e.virt_least.0,
              λ ph at t. elim (At-cons x ph l at) [
                | inl same ↦ absurd (other (sym (ap ProgramHeader.p_type same) ∙ t))
                | inr later ↦ e.virt_least.1 ph later t
              ],
            );
            phys_least = (
              e.phys_least.0,
              λ ph at t. elim (At-cons x ph l at) [
                | inl same ↦ absurd (other (sym (ap ProgramHeader.p_type same) ∙ t))
                | inr later ↦ e.phys_least.1 ph later t
              ],
            );
            end_greatest = (
              e.end_greatest.0,
              λ ph at t. elim (At-cons x ph l at) [
                | inl same ↦ absurd (other (sym (ap ProgramHeader.p_type same) ∙ t))
                | inr later ↦ e.end_greatest.1 ph later t
              ],
            );
            virt_reached = past x l (λ ph. ph.p_vaddr) a virt e.virt_reached;
            phys_reached = past x l (λ ph. ph.p_paddr) b phys e.phys_reached;
            end_reached = past x l end_of c end e.end_reached;
          },
        )
  ]

  -- Where the end of each segment fits a word, `get_kernel_size` gives the least virtual and physical
  -- address and the greatest end of the segments to be loaded: each is a bound that one of them
  -- reaches, or the value that the loop began with.
  pub get_kernel_size_lem :
      (segments : List ProgramHeader)
      → ((ph : ProgramHeader) → At segments ph → end_of ph < word)
      → (virt phys end : ℕ) × (get_kernel_size pt_load segments ≡ ok (virt, (phys, end)))
        × IsExtent pt_load segments usize_max usize_max 0 virt phys end
  unfolding get_kernel_size
  get_kernel_size_lem segments fits = extended segments usize_max usize_max 0 fits
