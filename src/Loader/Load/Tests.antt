-- ===== src/Loader/Load/Tests.antt =====
-- The theorem on the loop of `load_to_memory` in loader/src/main.rs at a kernel of one segment.
use noctis.Common.{◌≡◌, arith, List, [], ◌∷◌, ok}
use noctis.Loader.Image.{ProgramHeader}
use noctis.Loader.Load.{Bytes, load_segments}
use noctis.Loader.Load.Segments.{AreLoaded, load_segments_lem}

-- A segment to be loaded, of type 1.
abbrev header : ProgramHeader
header = record {
  p_type = 1;
  p_offset = 0x1000;
  p_vaddr = 0xFFFF_FFFF_8020_0000;
  p_paddr = 0x20_0000;
  p_filesz = 0x800;
  p_memsz = 0x1000;
}

abbrev headers : List ProgramHeader
headers = header ∷ []

load_segments_lem_example :
    (bytes' : Bytes) × (load_segments 1 (λ a. a) headers (λ a. 255) ≡ ok bytes')
    × AreLoaded 1 (λ a. a) headers (λ a. 255) bytes'
load_segments_lem_example =
    load_segments_lem 1 (λ a. a) headers (λ a. 255) (λ t. omega arith, λ t q (i, at) u. cc, tt)
