-- ===== src/Loader/Load/Segments.antt =====
-- What the loop of `load_to_memory` in loader/src/main.rs leaves in memory.
use noctis.Common.{
  ℕ, suc, ◌+◌, ◌-◌, ◌≤◌, ◌<◌, ◌≡◌, ◌≢◌, refl, sym, ap, ◌∙◌, ◌⊎◌, inl, inr, arith, ok, List, [], ◌∷◌,
  ℕ_discrete,
}
use noctis.Loader.Image.{ProgramHeader}
use noctis.Loader.Image.Extent.{At, At-cons}
use noctis.Loader.Load.{Bytes, copy_bytes, zero_bytes, load_segment, load_segments}

-- The address is none of the segment.
abbrev pub Misses : ℕ → ProgramHeader → Type 0
Misses a ph = (a < ph.p_paddr) ⊎ (ph.p_paddr + ph.p_memsz ≤ a)

-- The segment lies in memory as the file has it, with zeros behind.
pub record IsLoaded (kernel_ref : Bytes) (ph : ProgramHeader) (bytes : Bytes) : Type 0 where
  pub file : (i : ℕ) → i < ph.p_filesz → bytes (ph.p_paddr + i) ≡ kernel_ref (ph.p_offset + i)
  pub zeros : (i : ℕ) → ph.p_filesz ≤ i → i < ph.p_memsz → bytes (ph.p_paddr + i) ≡ 0

abbrev loaded : Bytes → ProgramHeader → Bytes → Bytes
loaded kernel_ref ph bytes =
    zero_bytes (ph.p_paddr + ph.p_filesz) (ph.p_memsz - ph.p_filesz)
      (copy_bytes kernel_ref ph.p_offset ph.p_paddr ph.p_filesz bytes)

load_segment-ok :
    (kernel_ref : Bytes) (ph : ProgramHeader) (bytes : Bytes)
    → ph.p_filesz ≤ ph.p_memsz
    → load_segment kernel_ref ph bytes ≡ ok (loaded kernel_ref ph bytes)
unfolding load_segment
load_segment-ok kernel_ref ph bytes h = ground arith

copied :
    (kernel_ref : Bytes) (ph : ProgramHeader) (bytes : Bytes) (i : ℕ)
    → i < ph.p_filesz
    → loaded kernel_ref ph bytes (ph.p_paddr + i)
      ≡ kernel_ref (ph.p_offset + (ph.p_paddr + i - ph.p_paddr))
copied kernel_ref ph bytes i lt = ground arith

loaded-IsLoaded :
    (kernel_ref : Bytes) (ph : ProgramHeader) (bytes : Bytes)
    → ph.p_filesz ≤ ph.p_memsz
    → IsLoaded kernel_ref ph (loaded kernel_ref ph bytes)
loaded-IsLoaded kernel_ref ph bytes h = record {
  file = λ i lt. copied kernel_ref ph bytes i lt ∙ ap kernel_ref (omega arith);
  zeros = λ i ge lt. ground arith;
}

loaded-Misses :
    (kernel_ref : Bytes) (ph : ProgramHeader) (bytes : Bytes) (a : ℕ)
    → ph.p_filesz ≤ ph.p_memsz
    → Misses a ph
    → loaded kernel_ref ph bytes a ≡ bytes a
loaded-Misses kernel_ref ph bytes a h (inl below) = ground arith
loaded-Misses kernel_ref ph bytes a h (inr above) = ground arith

-- No two segments to be loaded share an address, and none is larger in the file than in memory.
abbrev pub AreApart : ℕ → List ProgramHeader → Type 0
AreApart pt_load [] = Unit {0}
AreApart pt_load (ph ∷ segments) =
    (ph.p_type ≡ pt_load → ph.p_filesz ≤ ph.p_memsz)
    × (ph.p_type ≡ pt_load
        → (q : ProgramHeader) → At segments q
        → q.p_type ≡ pt_load
        → (i : ℕ) → i < ph.p_memsz
        → Misses (ph.p_paddr + i) q)
    × AreApart pt_load segments

module _ (pt_load : ℕ) where
  load_step :
      (kernel_ref : Bytes) (ph : ProgramHeader) (l : List ProgramHeader) (bytes : Bytes)
      → ph.p_type ≡ pt_load
      → ph.p_filesz ≤ ph.p_memsz
      → load_segments pt_load kernel_ref (ph ∷ l) bytes
        ≡ load_segments pt_load kernel_ref l (loaded kernel_ref ph bytes)
  unfolding load_segments
  load_step kernel_ref ph l bytes load h = ground (arith, load_segment-ok kernel_ref ph bytes h)

  skip_step :
      (kernel_ref : Bytes) (ph : ProgramHeader) (l : List ProgramHeader) (bytes : Bytes)
      → ph.p_type ≢ pt_load
      → load_segments pt_load kernel_ref (ph ∷ l) bytes ≡ load_segments pt_load kernel_ref l bytes
  unfolding load_segments
  skip_step kernel_ref ph l bytes other = ground arith

  pub record AreLoaded (kernel_ref : Bytes) (segments : List ProgramHeader) (bytes bytes' : Bytes)
      : Type 0 where
    pub inside :
        (ph : ProgramHeader) → At segments ph → ph.p_type ≡ pt_load → IsLoaded kernel_ref ph bytes'
    pub outside :
        (a : ℕ)
        → ((ph : ProgramHeader) → At segments ph → ph.p_type ≡ pt_load → Misses a ph)
        → bytes' a ≡ bytes a

  kept-IsLoaded :
      (kernel_ref : Bytes) (ph : ProgramHeader) (l : List ProgramHeader) (bytes bytes' : Bytes)
      → ph.p_filesz ≤ ph.p_memsz
      → ((q : ProgramHeader)
          → At l q
          → q.p_type ≡ pt_load
          → (i : ℕ) → i < ph.p_memsz
          → Misses (ph.p_paddr + i) q)
      → AreLoaded kernel_ref l (loaded kernel_ref ph bytes) bytes'
      → IsLoaded kernel_ref ph bytes'
  kept-IsLoaded kernel_ref ph l bytes bytes' h apart rest =
      let here = loaded-IsLoaded kernel_ref ph bytes h in
      record {
        file = λ i lt.
            rest.outside (ph.p_paddr + i) (λ q at t. apart q at t i (omega arith)) ∙ here.file i lt;
        zeros = λ i ge lt.
            rest.outside (ph.p_paddr + i) (λ q at t. apart q at t i lt) ∙ here.zeros i ge lt;
      }

  -- For a file that lies apart from the destinations, as `kernel_ref` does from `bytes`, the loop ends where
  -- no two segments to be loaded share an address and none is larger in the file than in memory. Each of them then lies in memory as the file has it, with zeros up to its size, and
  -- every other byte is as before.
  pub load_segments_lem :
      (kernel_ref : Bytes) (segments : List ProgramHeader) (bytes : Bytes)
      → AreApart pt_load segments
      → (bytes' : Bytes) × (load_segments pt_load kernel_ref segments bytes ≡ ok bytes')
        × AreLoaded kernel_ref segments bytes bytes'
  unfolding load_segments
  load_segments_lem kernel_ref [] bytes apart =
      (bytes, refl, record { inside = λ ph (i, at) t. cc; outside = λ a h. refl })
  load_segments_lem kernel_ref (x ∷ l) bytes (small, apart, more) =
      elim (ℕ_discrete x.p_type pt_load) [
        | yes load ↦
            let (bytes', run, rest) =
              load_segments_lem kernel_ref l (loaded kernel_ref x bytes) more in
            (
              bytes',
              load_step kernel_ref x l bytes load (small load) ∙ run,
              record {
                inside = λ ph at t. elim (At-cons x ph l at) [
                  | inl same ↦
                      let here =
                        kept-IsLoaded kernel_ref x l bytes bytes' (small load) (apart load) rest in
                      rw same here
                  | inr later ↦ rest.inside ph later t
                ];
                outside = λ a h.
                    rest.outside a (λ ph (i, at). h ph (suc i, at))
                    ∙ loaded-Misses kernel_ref x bytes a (small load) (h x (0, refl) load);
              },
            )
        | no other ↦
            let (bytes', run, rest) = load_segments_lem kernel_ref l bytes more in
            (
              bytes',
              skip_step kernel_ref x l bytes other ∙ run,
              record {
                inside = λ ph at t. elim (At-cons x ph l at) [
                  | inl same ↦ absurd (other (sym (ap ProgramHeader.p_type same) ∙ t))
                  | inr later ↦ rest.inside ph later t
                ];
                outside = λ a h. rest.outside a (λ ph (i, at). h ph (suc i, at));
              },
            )
      ]
