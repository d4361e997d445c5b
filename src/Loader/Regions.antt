-- ===== src/Loader/Regions.antt =====
-- `MemoryRegionArray` of loader/src/memory.rs.
pub mod Filled
pub mod Collect
use noctis.Common.{
  ℕ, ◌+◌, ◌≤◌, ◌<◌, ◌≡◌, refl, ap, ◌∙◌, ◌⊎◌, inl, inr, arith, List, [], ◌∷◌, Option, some, Outcome,
  ok, panic, assertion, assert, ◌>>=◌, ◌>>◌, ltb, length, set, replicate, get_elem?, length-set,
  get_elem?-set_self, get_elem?-set_ne,
}

pub data MemoryRegionType : Type 0 where
  reserved usable : MemoryRegionType

pub record MemoryRegion : Type 0 where
  pub base : ℕ
  pub len : ℕ
  pub typ : MemoryRegionType

abbrev pub zeroed : MemoryRegion
zeroed = record { base = 0; len = 0; typ = reserved }

abbrev pub max_memory_region_len : ℕ
max_memory_region_len = 128

pub record MemoryRegionArray : Type 0 where
  pub regions : List MemoryRegion
  pub count : ℕ

unfoldable pub empty_array : MemoryRegionArray
empty_array = record { regions = replicate max_memory_region_len zeroed; count = 0 }

unfoldable pub push : MemoryRegion → MemoryRegionArray → Outcome MemoryRegionArray
push region self = do
  assert (ltb self.count max_memory_region_len)
  ok (record { regions = set self.regions self.count region; count = self.count + 1 })
