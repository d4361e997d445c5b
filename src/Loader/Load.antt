-- ===== src/Loader/Load.antt =====
-- The loop of `load_to_memory` in loader/src/main.rs that copies the segments of the kernel to their frames.
pub mod Segments
mod Tests
use noctis.Common.{
  ℕ, ◌+◌, ◌-◌, ◌/◌, ◌<◌, ◌≤◌, Bool, ◌&&◌, Outcome, ok, ◌>>=◌, ◌>>◌, List, [], ◌∷◌, add_usize,
  sub_usize, unwrap, assert, ltb, leb, ◌==◌, if◌then◌else◌,
}
use noctis.Loader.Address as Address
use noctis.Loader.Image.{ProgramHeader, get_kernel_size}
use noctis.Loader.Paging.Entry.{PhysAddr}
use noctis.Loader.Paging.Memory.{Memory}
use noctis.Loader.Paging.Early.{init_early_paging}

-- The bytes at their addresses, of the file or of the memory.
abbrev pub Bytes : Type 0
Bytes = ℕ → ℕ

-- `ptr::copy_nonoverlapping`, from offset `src` of the file, and `ptr::write_bytes` of zeros.
abbrev pub copy_bytes : Bytes → ℕ → ℕ → ℕ → Bytes → Bytes
copy_bytes kernel_ref src dst count bytes a =
    if leb dst a && ltb a (dst + count) then kernel_ref (src + (a - dst)) else bytes a

abbrev pub zero_bytes : ℕ → ℕ → Bytes → Bytes
zero_bytes dst count bytes a = if leb dst a && ltb a (dst + count) then 0 else bytes a

-- The body of the loop; the destination lies apart from the file.
unfoldable pub load_segment : Bytes → ProgramHeader → Bytes → Outcome Bytes
load_segment kernel_ref ph bytes = do
  rest ← sub_usize ph.p_memsz ph.p_filesz
  ok (
      zero_bytes (ph.p_paddr + ph.p_filesz) rest
        (copy_bytes kernel_ref ph.p_offset ph.p_paddr ph.p_filesz bytes))

-- The loop over the segments. The type of one to be loaded is a constant of the `elf` crate; `kernel_ref`
-- and `segments` are what was read and parsed of the file.
module _ (pt_load : ℕ) where
  unfoldable pub load_segments : Bytes → List ProgramHeader → Bytes → Outcome Bytes
  unfolding load_segment
  load_segments kernel_ref [] bytes = ok bytes
  load_segments kernel_ref (ph ∷ segments) bytes =
      if ph.p_type == pt_load
      then (do bytes' ← load_segment kernel_ref ph bytes; load_segments kernel_ref segments bytes')
      else load_segments kernel_ref segments bytes
