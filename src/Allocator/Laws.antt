-- ===== src/Allocator/Laws.antt =====
-- What one call of the linear allocator promises.
use native.Mathlib.Nat.{
  one-le-pow, mul-mod_left, div-add-mod', mod-lt, div-lt_iff_lt-mul, mul-le-mul_right,
}
use noctis.Common.{
  ℕ, suc, ◌+◌, ◌-◌, ◌*◌, ◌/◌, ◌%◌, ◌^◌, ◌≤◌, ◌<◌, bit_and, ◌≡◌, refl, ap, ◌∙◌, ◌⊎◌, inl, inr, arith,
  ok, panic, overflow, word, not_word, ltb, if◌then◌else◌, dec_lt,
}
use noctis.Common.Bits.{bit_and-high, pow_add}
use noctis.Allocator.{LinerAllocator, Layout, bump, null_mut}

pub cut_word : (k : ℕ) → k < 64 → word ≡ 2 ^ (64 - k) * 2 ^ k
cut_word k h = ap (λ t. 2 ^ t) {x = 64} (omega arith) ∙ pow_add (64 - k) k

pred_mul : (t s : ℕ) → 1 ≤ t → (t - 1) * s + s ≡ t * s
pred_mul ℕ.zero s h = elim h [ ]
pred_mul (suc t) s h = let e : suc t - 1 ≡ t = omega arith in rw e (omega arith)

-- `x & !(2 ^ k - 1)` rounds down.
pub round_down :
    (k x : ℕ) → k < 64 → x < word → bit_and x (not_word (2 ^ k - 1)) ≡ x / 2 ^ k * 2 ^ k
round_down k x h hx = ap (bit_and x) mask ∙ bit_and-high k (64 - k) x (omega (arith, cut_word k h))
  where
    mask : not_word (2 ^ k - 1) ≡ (2 ^ (64 - k) - 1) * 2 ^ k
    mask = omega (
      arith,
      cut_word k h,
      pred_mul (2 ^ (64 - k)) (2 ^ k) (one-le-pow (64 - k) 2 (omega arith)),
      one-le-pow k 2,
    )

-- Rounding up to a multiple of `d` gives the least one that is not below.
round_up :
    (d x : ℕ)
    → 0 < d
    → ((x + d - 1) / d * d % d ≡ 0) × (x ≤ (x + d - 1) / d * d) × ((x + d - 1) / d * d < x + d)
round_up d x h = (
  mul-mod_left ((x + d - 1) / d) d,
  omega (arith, div-add-mod' (x + d - 1) d, mod-lt (x + d - 1) h),
  omega (arith, div-add-mod' (x + d - 1) d, mod-lt (x + d - 1) h),
)

round_up-least : (d x q : ℕ) → 0 < d → x ≤ q → q % d ≡ 0 → (x + d - 1) / d * d ≤ q
round_up-least d x q h le multiple =
    let quotient : (x + d - 1) / d < q / d + 1 =
      (div-lt_iff_lt-mul h).1 (omega (arith, div-add-mod' q d)) in
    omega (arith, mul-le-mul_right d (quotient), div-add-mod' q d)

-- The heap that `init` sets up and `alloc` keeps.
pub record IsHeap (h : LinerAllocator) : Type 0 where
  pub begins : h.start ≤ h.next
  pub within : h.next ≤ h.end
  pub fits : h.end < word
  pub not_null : 0 < h.start

-- A block of layout `l` at `p`, the first aligned place at or after `next`, inside the heap.
pub record IsPlaced (l : Layout) (h : LinerAllocator) (p : ℕ) (h' : LinerAllocator) : Type 0 where
  pub aligned : p % l.align ≡ 0
  pub after : h.next ≤ p
  pub first : p < h.next + l.align
  pub room : p + l.size ≤ h.end
  pub advanced : h' ≡ record h { next = p + l.size }

-- No aligned block of layout `l` fits behind `next`; the null pointer and the heap as it was.
pub record IsRefused (l : Layout) (h : LinerAllocator) (p : ℕ) (h' : LinerAllocator) : Type 0 where
  pub null : p ≡ null_mut
  pub unchanged : h' ≡ h
  pub full : (q : ℕ) → h.next ≤ q → q % l.align ≡ 0 → h.end < q + l.size

module _ (k size : ℕ) (small : k < 64) (h : LinerAllocator) (heap : IsHeap h) where
  abbrev layout : Layout
  layout = record { size = size; align = 2 ^ k }

  abbrev place : ℕ
  place = (h.next + 2 ^ k - 1) / 2 ^ k * 2 ^ k

  bump-eq :
      h.next + 2 ^ k < word
      → bump layout h
        ≡ ok (
            if ltb h.end (place + size)
            then (null_mut, h)
            else (place, record h { next = place + size }))
  unfolding bump
  bump-eq room = ground (arith, round_down k (h.next + 2 ^ k - 1) small, heap.fits, one-le-pow k 2)

  -- On a heap as `init` sets it up, for a power of two below `2 ^ 64` as the alignment, and where `next`
  -- and the alignment add up to no more than 64 bits: a call returns; it places the block, or it gives
  -- null and changes nothing, and then no aligned block of the size fits behind `next`.
  pub bump_lem :
      h.next + 2 ^ k < word
      → (p : ℕ) × (h' : LinerAllocator) × (bump layout h ≡ ok (p, h'))
        × (IsPlaced layout h p h' ⊎ IsRefused layout h p h')
  bump_lem room = elim (dec_lt h.end (place + size)) [
    | yes full ↦ (
      null_mut,
      h,
      rw (bump-eq room) (ground arith),
      inr (record {
        null = refl;
        unchanged = refl;
        full = λ q after multiple.
            omega (
              arith,
              round_up-least (2 ^ k) h.next q (one-le-pow k 2 (omega arith)) after multiple,
            );
      }),
    )
    | no fits ↦ (
      place,
      record h { next = place + size },
      rw (bump-eq room) (ground arith),
      inl (record {
        aligned = rounded.0;
        after = rounded.1;
        first = rounded.2;
        room = omega arith;
        advanced = refl;
      }),
    )
  ]
    where
      rounded : (place % 2 ^ k ≡ 0) × (h.next ≤ place) × (place < h.next + 2 ^ k)
      rounded = round_up (2 ^ k) h.next (one-le-pow k 2 (omega arith))

-- The sum that rounds up is checked for overflow only by the debug build: it panics.
pub bump-overflow :
    (l : Layout) (h : LinerAllocator) → word ≤ h.next + l.align → bump l h ≡ panic overflow
unfolding bump
bump-overflow l h over = ground arith
