-- ===== src/Loader/Tests.antt =====
-- The theorems on the loader at one address, two descriptors and two segments.
use noctis.Common.{
  Option, none, some, ℕ, zero, suc, ◌==◌, if◌then◌else◌, word, refl, ap, none, some, ◌+◌, ◌%◌, ◌^◌,
  ◌≤◌, ◌<◌, ◌≡◌, arith, List, [], ◌∷◌, ok, panic, assertion,
}
use noctis.Loader.Address.{canonicalize, add, align_up_to_page}
use noctis.MemLayout.{page_align_up}
use noctis.Loader.Address.Canonical.{IsCanonical, canonicalize_lem, add_lem, align_up_to_page-eq}
use noctis.Loader.Regions.{MemoryRegionArray, empty_array}
use noctis.Loader.Regions.Collect.{MemoryMap, collect_regions}
use noctis.Loader.Regions.Collect.Whole.{IsMap, regions_from, collect_regions_lem}
use noctis.Loader.Image.{ProgramHeader, usize_max, get_kernel_size}
use noctis.Loader.Image.Extent.{At, end_of, IsExtent, get_kernel_size_lem}
use noctis.Loader.Regions.Filled.{IsFilled}

canonicalize_lem_example :
    IsCanonical (canonicalize 0x0000_8880_0000_0000)
    × (canonicalize 0x0000_8880_0000_0000 % 2 ^ 48 ≡ 0x0000_8880_0000_0000 % 2 ^ 48)
    × (IsCanonical 0x0000_8880_0000_0000
        → canonicalize 0x0000_8880_0000_0000 ≡ 0x0000_8880_0000_0000)
canonicalize_lem_example = canonicalize_lem 0x0000_8880_0000_0000 (omega arith)

add_lem_example :
    IsCanonical (add 0x0000_7FFF_FFFF_F000 4096)
    × (add 0x0000_7FFF_FFFF_F000 4096 % 2 ^ 48 ≡ (0x0000_7FFF_FFFF_F000 + 4096) % 2 ^ 48)
    × (add (add 0x0000_7FFF_FFFF_F000 4096) 4096 ≡ add 0x0000_7FFF_FFFF_F000 (4096 + 4096))
add_lem_example = add_lem 0x0000_7FFF_FFFF_F000 4096 4096 (omega arith)

align_up_to_page-eq_example : align_up_to_page 5000 ≡ page_align_up 5000
align_up_to_page-eq_example = align_up_to_page-eq 5000 (omega arith)

-- A map of two descriptors of 48 bytes; 3 and 7 are the types that become usable.
abbrev two_descriptors : MemoryMap
two_descriptors = record {
  map = λ offset.
      if offset == 0
      then record { typ = 7; physical_start = 0; number_of_pages = 160 }
      else record { typ = 0; physical_start = 0xA_0000; number_of_pages = 96 };
  map_size = 96;
  map_key = 1;
  desc_size = 48;
  desc_ver = 1;
}

two_descriptors-IsMap : IsMap 2 two_descriptors
two_descriptors-IsMap = record {
  size = refl;
  descriptor = omega arith;
  fits = omega arith;
  lengths = λ offset. ground arith;
}

collect_regions_lem_example :
    (2 ≤ 128
      → (a : MemoryRegionArray) × (collect_regions 3 7 3 two_descriptors 0 empty_array ≡ ok a)
        × IsFilled (regions_from 3 7 two_descriptors 2 0) a)
    × (128 < 2 → collect_regions 3 7 3 two_descriptors 0 empty_array ≡ panic assertion)
collect_regions_lem_example = collect_regions_lem 3 7 2 two_descriptors two_descriptors-IsMap

-- A segment to be loaded, of type 1, and one that is not.
abbrev two_headers : List ProgramHeader
two_headers =
    record {
      p_type = 1;
      p_offset = 0x1000;
      p_vaddr = 0xFFFF_FFFF_8020_0000;
      p_paddr = 0x20_0000;
      p_filesz = 0x2000;
      p_memsz = 0x3000;
    }
    ∷ record { p_type = 2; p_offset = 0; p_vaddr = 0; p_paddr = 0; p_filesz = 0; p_memsz = 0x100 }
    ∷ []

abbrev end_at : Option ProgramHeader → ℕ
end_at none = 0
end_at (some h) = end_of h

two_headers-fit : (ph : ProgramHeader) → At two_headers ph → end_of ph < word
two_headers-fit ph (zero, e) = omega (arith, ap end_at e)
two_headers-fit ph (suc zero, e) = omega (arith, ap end_at e)
two_headers-fit ph (suc (suc i), e) = cc

get_kernel_size_lem_example :
    (virt phys end : ℕ) × (get_kernel_size 1 two_headers ≡ ok (virt, (phys, end)))
    × IsExtent 1 two_headers usize_max usize_max 0 virt phys end
get_kernel_size_lem_example = get_kernel_size_lem 1 two_headers two_headers-fit
