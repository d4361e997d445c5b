-- ===== src/MemLayout/Translate.antt =====
-- `phys_to_virt` and `virt_to_phys`, on every branch.
use noctis.Common.{
  ℕ, ◌+◌, ◌-◌, ◌≤◌, ◌<◌, ◌≡◌, arith, Outcome, ok, panic, overflow, assertion, unsupported, ◌>>=◌,
  word,
}
use noctis.MemLayout.{
  PhysAddr, phys_to_virt, virt_to_phys, liner_mapping_base_vaddr, liner_mapping_size,
  kernel_code_base_vaddr, max_phys_addr,
}

pub round_trip : PhysAddr → Outcome PhysAddr
round_trip p = do v ← phys_to_virt p; virt_to_phys v

-- Where the window of the kernel image begins, seen from the linear window.
abbrev pub alias_start : ℕ
alias_start = kernel_code_base_vaddr - liner_mapping_base_vaddr

-- `virt_to_phys` behind `phys_to_virt`, by where the address lies: the address itself up to the size of
-- the linear window; unsupported from there to where the window of the kernel image begins; from
-- there on, where the sum fits in 64 bits, the smaller address that the image's window gives; an
-- overflow where it does not; and the failed assertion from `MAX_PHYS_ADDR` on.
pub round_trip_lem :
    (p : PhysAddr)
    → (p ≤ liner_mapping_size → round_trip p ≡ ok p)
      × (liner_mapping_size < p → p < alias_start → round_trip p ≡ panic unsupported)
      × (alias_start ≤ p
          → p + liner_mapping_base_vaddr < word
          → round_trip p ≡ ok (p - alias_start))
      × (word ≤ p + liner_mapping_base_vaddr → p < max_phys_addr → round_trip p ≡ panic overflow)
      × (max_phys_addr ≤ p → round_trip p ≡ panic assertion)
unfolding round_trip phys_to_virt virt_to_phys
round_trip_lem p = (
  λ h. ground arith,
  λ h k. ground arith,
  λ h k. ground arith,
  λ h k. ground arith,
  λ h. ground arith,
)
