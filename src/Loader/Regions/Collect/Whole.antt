-- ===== src/Loader/Regions/Collect/Whole.antt =====
-- What the loop of loader/src/main.rs over the memory map collects.
use mathlib.Core.Path.{fun_ext}
use noctis.Common.{
  ℕ, zero, suc, ◌+◌, ◌*◌, ◌≤◌, ◌<◌, ◌≡◌, refl, ap, ◌∙◌, arith, List, [], ◌∷◌, none, some, Outcome,
  ok, panic, assertion, ◌>>=◌, word, length, ◌==◌, ◌||◌, if◌then◌else◌,
}
use noctis.Loader.Regions.{reserved, usable, MemoryRegion, MemoryRegionArray, empty_array, push}
use noctis.Loader.Regions.Filled.{IsFilled, push_all, push_all_lem}
use noctis.Loader.Regions.Collect.{
  MemoryDescriptor, MemoryMap, next_descriptor, region_of, collect_regions,
}

-- The map holds `n` descriptors: its size is `n` times the size of one, which is not 0, and the size and
-- the length of every region fit a word.
pub record IsMap (n : ℕ) (memory_map : MemoryMap) : Type 0 where
  pub size : memory_map.map_size ≡ n * memory_map.desc_size
  pub descriptor : 0 < memory_map.desc_size
  pub fits : memory_map.map_size < word
  pub lengths : (offset : ℕ) → (memory_map.map offset).number_of_pages * 4096 < word

module _ (boot_services_code conventional_memory : ℕ) (memory_map : MemoryMap) where
  -- The region of a descriptor, with its length in bytes: usable where the firmware's type is one of the
  -- two, and reserved with any other.
  abbrev pub plain_region : MemoryDescriptor → MemoryRegion
  plain_region d = record {
    base = d.physical_start;
    len = d.number_of_pages * 4096;
    typ = if d.typ == conventional_memory || d.typ == boot_services_code then usable else reserved;
  }

  -- The regions of the descriptors from an offset on.
  pub regions_from : ℕ → ℕ → List MemoryRegion
  regions_from zero offset = []
  regions_from (suc left) offset =
      plain_region (memory_map.map offset) ∷ regions_from left (offset + memory_map.desc_size)

  length-regions_from : (left offset : ℕ) → length (regions_from left offset) ≡ left
  unfolding regions_from
  length-regions_from zero offset = refl
  length-regions_from (suc left) offset =
      ap (λ (n : ℕ). suc n) (length-regions_from left (offset + memory_map.desc_size))

  next_descriptor-end :
      (offset : ℕ) → memory_map.map_size ≤ offset → next_descriptor memory_map offset ≡ ok none
  unfolding next_descriptor
  next_descriptor-end offset h = ground arith

  next_descriptor-some :
      (offset : ℕ)
      → offset < memory_map.map_size
      → offset + memory_map.desc_size < word
      → next_descriptor memory_map offset
        ≡ ok (some (memory_map.map offset, offset + memory_map.desc_size))
  unfolding next_descriptor
  next_descriptor-some offset h fits = ground arith

  region_of-ok :
      (d : MemoryDescriptor)
      → d.number_of_pages * 4096 < word
      → region_of boot_services_code conventional_memory d ≡ ok (plain_region d)
  unfolding region_of
  region_of-ok d h = ground arith

  -- With a round for each descriptor and one more, the loop pushes the regions in their order.
  collected :
      (n : ℕ)
      → IsMap n memory_map
      → (left offset : ℕ) (a : MemoryRegionArray)
      → offset + left * memory_map.desc_size ≡ memory_map.map_size
      → collect_regions boot_services_code conventional_memory (suc left) memory_map offset a
        ≡ push_all (regions_from left offset) a
  unfolding collect_regions push_all regions_from
  collected n whole zero offset a at = let e = next_descriptor-end offset (omega arith) in rw e refl
  collected n whole (suc left) offset a at =
      let size = memory_map.desc_size in
      let step : suc left * size ≡ size + left * size = omega arith in
      let e =
        next_descriptor-some offset (omega (arith, whole.descriptor)) (omega (arith, whole.fits)) in
      let r = region_of-ok (memory_map.map offset) (whole.lengths offset) in
      rw (e, r)
        (ap
          (λ (f : MemoryRegionArray → Outcome MemoryRegionArray).
            push (plain_region (memory_map.map offset)) a >>= f)
          (fun_ext λ a'. collected n whole left (offset + size) a' (omega arith)))

-- On a map of `n` descriptors the loop ends within `n + 1` rounds. Up to 128 of them become regions, in
-- their order, usable where the firmware's type is one of the two and reserved otherwise, with the length of
-- their pages; with more the assertion of `push` fails.
pub collect_regions_lem :
    (boot_services_code conventional_memory n : ℕ) (memory_map : MemoryMap)
    → IsMap n memory_map
    → (n ≤ 128
        → (a : MemoryRegionArray) × (collect_regions boot_services_code conventional_memory
              (suc n)
              memory_map
              0
              empty_array
            ≡ ok a)
          × IsFilled (regions_from boot_services_code conventional_memory memory_map n 0) a)
      × (128 < n
          → collect_regions boot_services_code conventional_memory (suc n) memory_map 0 empty_array
            ≡ panic assertion)
collect_regions_lem b c n memory_map whole =
    let all = collected b c memory_map n whole n 0 empty_array (omega (arith, whole.size)) in
    let size = length-regions_from b c memory_map n 0 in
    let (fits, over) = push_all_lem (regions_from b c memory_map n 0) in
    (
      λ h. let (a, run, filled) = fits (omega (arith, size)) in (a, all ∙ run, filled),
      λ h. all ∙ over (omega (arith, size)),
    )
