-- ===== src/Loader/Image.antt =====
-- `get_kernel_size` of loader/src/main.rs: the extent of the kernel image.
pub mod Extent
use noctis.Common.{
  ℕ, ◌+◌, ◌-◌, ◌<◌, ◌^◌, Bool, Outcome, ok, ◌>>=◌, List, [], ◌∷◌, add_usize, ltb, ◌==◌,
  if◌then◌else◌,
}

-- What the loader reads of a program header.
pub record ProgramHeader : Type 0 where
  pub p_type : ℕ
  pub p_offset : ℕ
  pub p_vaddr : ℕ
  pub p_paddr : ℕ
  pub p_filesz : ℕ
  pub p_memsz : ℕ

abbrev pub usize_max : ℕ
usize_max = 2 ^ 64 - 1

-- `usize::min` and `usize::max`
abbrev pub lesser : ℕ → ℕ → ℕ
lesser a b = if ltb b a then b else a

abbrev pub greater : ℕ → ℕ → ℕ
greater a b = if ltb a b then b else a

-- The type of a segment to be loaded is a constant of the `elf` crate.
module _ (pt_load : ℕ) where
  -- The loop over the segments, with the three running values.
  unfoldable pub extend_size : List ProgramHeader → ℕ → ℕ → ℕ → Outcome (ℕ × (ℕ × ℕ))
  extend_size [] start_virt start_phys end_virt = ok (start_virt, (start_phys, end_virt))
  extend_size (ph ∷ segments) start_virt start_phys end_virt =
      if ph.p_type == pt_load
      then (do
        segment_end ← add_usize ph.p_vaddr ph.p_memsz
        extend_size segments (lesser start_virt ph.p_vaddr) (lesser start_phys ph.p_paddr)
            (greater end_virt segment_end))
      else extend_size segments start_virt start_phys end_virt

  unfoldable pub get_kernel_size : List ProgramHeader → Outcome (ℕ × (ℕ × ℕ))
  unfolding extend_size
  get_kernel_size segments = extend_size segments usize_max usize_max 0
