-- ===== src/Loader/Address/Canonical.antt =====
-- Canonical addresses, and sums of them.
use noctis.Common.{
  ℕ, ◌+◌, ◌-◌, ◌/◌, ◌%◌, ◌^◌, ◌≤◌, ◌<◌, ◌≡◌, ap, ◌∙◌, ◌⊎◌, inl, inr, arith, word, bit_and, not_word,
  dec_lt,
}
use noctis.Common.Bits.{bit_and-mask, bit_and-bit, bit_or-cut, bit_or-zero, bit_or-ones}
use noctis.Loader.Address.{VirtAddr, canonicalize, add, align_up_to_page}
use noctis.MemLayout.{page_align_up}

-- Bits 47 to 63 are all equal.
abbrev pub IsCanonical : VirtAddr → Type 0
IsCanonical v = (v < 2 ^ 47) ⊎ ((2 ^ 64 - 2 ^ 47 ≤ v) × (v < 2 ^ 64))

canonicalize-low : (a : ℕ) → a / 2 ^ 47 % 2 ≡ 0 → canonicalize a ≡ a % 2 ^ 48
unfolding canonicalize
canonicalize-low a h = ground (arith, bit_and-bit 47 a, bit_and-mask 48 a)

canonicalize-high :
    (a : ℕ) → a < word → a / 2 ^ 47 % 2 ≡ 1 → canonicalize a ≡ 2 ^ 64 - 2 ^ 48 + a % 2 ^ 48
unfolding canonicalize
canonicalize-high a w h = ground (
  arith,
  bit_and-bit 47 a,
  bit_or-cut 48 (a / 2 ^ 48) (2 ^ 16 - 1) (a % 2 ^ 48) 0,
  bit_or-ones 16 (a / 2 ^ 48),
  bit_or-zero (a % 2 ^ 48),
)

-- Every 64-bit number is made canonical: its low 48 bits are kept, and a canonical address stays as
-- it is.
pub canonicalize_lem :
    (a : ℕ)
    → a < word
    → IsCanonical (canonicalize a)
      × (canonicalize a % 2 ^ 48 ≡ a % 2 ^ 48)
      × (IsCanonical a → canonicalize a ≡ a)
canonicalize_lem a w = elim (dec_lt (a / 2 ^ 47 % 2) 1) [
  | yes low ↦
      let e = canonicalize-low a (omega arith) in
      (
        inl (omega (arith, e)),
        omega (arith, e),
        λ c. elim c [
          | inl below ↦ omega (arith, e)
          | inr above ↦ absurd (omega (arith, above.0, above.1))
        ],
      )
  | no high ↦
      let e = canonicalize-high a w (omega arith) in
      (
        inr (omega (arith, e), omega (arith, e)),
        omega (arith, e),
        λ c. elim c [
          | inl below ↦ absurd (omega arith)
          | inr above ↦ omega (arith, e, above.0, above.1)
        ],
      )
]

-- The low 48 bits decide.
canonicalize-same :
    (a b : ℕ) → a < word → b < word → a % 2 ^ 48 ≡ b % 2 ^ 48 → canonicalize a ≡ canonicalize b
canonicalize-same a b wa wb e = elim (dec_lt (a / 2 ^ 47 % 2) 1) [
  | yes low ↦
      omega (arith, e, canonicalize-low a (omega arith), canonicalize-low b (omega (arith, e)))
  | no high ↦
      omega
        (arith, e, canonicalize-high a wa (omega arith), canonicalize-high b wb (omega (arith, e)))
]

add-again : (v : VirtAddr) (a b : ℕ) → v < word → add (add v a) b ≡ add v (a + b)
unfolding add
add-again v a b w =
    let s = (v + a) % 2 ^ 64 in
    let c = canonicalize_lem s (omega arith) in
    canonicalize-same ((canonicalize s + b) % 2 ^ 64) ((v + (a + b)) % 2 ^ 64) (omega arith)
      (omega arith) (omega (arith, c.1))

-- A step from an address of 64 bits ends at a canonical address with the low 48 bits of the sum, and two
-- steps are one step by both, also where a sum wraps or crosses the gap of what is not canonical.
pub add_lem :
    (v : VirtAddr) (a b : ℕ)
    → v < word
    → IsCanonical (add v a)
      × (add v a % 2 ^ 48 ≡ (v + a) % 2 ^ 48)
      × (add (add v a) b ≡ add v (a + b))
unfolding add
add_lem v a b w =
    let c = canonicalize_lem ((v + a) % 2 ^ 64) (omega arith) in
    (c.0, omega (arith, c.1), add-again v a b w)

-- A sum that is canonical is taken as it is.
pub add-IsCanonical : (v a : ℕ) → v + a < word → IsCanonical (v + a) → add v a ≡ v + a
unfolding add
add-IsCanonical v a w c =
    ap canonicalize {x = (v + a) % 2 ^ 64} (omega arith) ∙ (canonicalize_lem (v + a) w).2 c

-- Where `size + 4096` fits in 64 bits the loader rounds a size to pages as the kernel does.
pub align_up_to_page-eq :
    (size : ℕ) → size + 4096 < word → align_up_to_page size ≡ page_align_up size
unfolding align_up_to_page page_align_up
align_up_to_page-eq size h = ground (
  arith,
  ap (λ (x : ℕ). bit_and x (not_word 4095)) {x = size + 4096 - 1} {y = size + 4095} (omega arith),
)
