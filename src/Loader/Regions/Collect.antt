-- ===== src/Loader/Regions/Collect.antt =====
-- `MemoryMapIterator` of loader/src/memory.rs, and the loop of loader/src/main.rs that turns the
-- descriptors of the firmware into regions.
pub mod Whole
use noctis.Common.{
  ℕ, zero, suc, ◌+◌, ◌*◌, ◌≤◌, ◌<◌, ◌≡◌, arith, Bool, true, false, Option, none, some, Outcome, ok,
  diverge, ◌>>=◌, add_usize, mul_usize, leb, ◌==◌, if◌then◌else◌,
}
use noctis.Loader.Regions.{
  MemoryRegionType, reserved, usable, MemoryRegion, MemoryRegionArray, empty_array, push,
}

-- What the loader reads of a descriptor of the firmware.
pub record MemoryDescriptor : Type 0 where
  pub typ : ℕ
  pub physical_start : ℕ
  pub number_of_pages : ℕ

-- The buffer gives the descriptor at each offset.
pub record MemoryMap : Type 0 where
  pub map : ℕ → MemoryDescriptor
  pub map_size : ℕ
  pub map_key : ℕ
  pub desc_size : ℕ
  pub desc_ver : ℕ

-- `MemoryMapIterator::next`: the descriptor and the offset behind it.
unfoldable pub next_descriptor : MemoryMap → ℕ → Outcome (Option (MemoryDescriptor × ℕ))
next_descriptor self offset =
    if leb self.map_size offset
    then ok none
    else add_usize offset self.desc_size >>= λ offset'. ok (some (self.map offset, offset'))

abbrev page_size : ℕ
page_size = 4096

-- The two types that the loop tells from the others are constants of the interface of the firmware.
module _ (boot_services_code conventional_memory : ℕ) where
  abbrev pub region_type : ℕ → MemoryRegionType
  region_type t =
      if t == boot_services_code
      then usable
      else if t == conventional_memory
      then usable
      else reserved

  unfoldable pub region_of : MemoryDescriptor → Outcome MemoryRegion
  region_of desc = do
    len ← mul_usize desc.number_of_pages page_size
    ok (record { base = desc.physical_start; len = len; typ = region_type desc.typ })

  -- `for desc in memory_map.iter()`, from an offset on.
  unfoldable pub collect_regions : ℕ → MemoryMap → ℕ → MemoryRegionArray → Outcome MemoryRegionArray
  unfolding next_descriptor region_of
  collect_regions zero memory_map offset memory_regions = diverge
  collect_regions (suc fuel) memory_map offset memory_regions = do
    item ← next_descriptor memory_map offset
    elim item [
      | none ↦ ok memory_regions
      | some r ↦ do
        region ← region_of r.0
        memory_regions' ← push region memory_regions
        collect_regions fuel memory_map r.1 memory_regions'
    ]
