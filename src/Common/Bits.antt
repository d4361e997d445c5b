-- ===== src/Common/Bits.antt =====
-- `&` and `|` cut at any bit: the low `k` digits and the digits above do not meet.
use Prim.Native.Nat.{min, max, digits, bit_and-bitwise, bit_or-bitwise}
use Prim.Native.Nat.{ℕ, zero, suc, ◌+◌, ◌-◌, ◌*◌, ◌/◌, ◌%◌, ◌^◌, ◌≤◌, ◌<◌, bit_and, bit_or}
use mathlib.Core.Path.{◌≡◌, refl, ap, ap₂}
use native.Mathlib.Nat.{pow-suc, pow-zero, one-le-pow, add-zero, add-suc, div-lt_iff_lt-mul}
use native.Mathlib.Omega.{arith}

-- Two counts of digits to go that both suffice give one result.
module _ (stop : ℕ → ℕ) (join : ℕ → ℕ → ℕ) where
  digits_enough : (m n x y : ℕ) → x ≤ m → x ≤ n → digits stop join m x y ≡ digits stop join n x y
  digits_enough zero zero x y h k = refl
  digits_enough (suc m) (suc n) (suc x) y h k =
      omega (arith, digits_enough m n (suc x / 2) (y / 2) (omega arith) (omega arith))
  digits_enough (suc m) (suc n) zero y h k = refl
  digits_enough zero (suc n) zero y h k = refl
  digits_enough zero (suc n) (suc x) y h k = absurd (omega arith)
  digits_enough (suc m) zero zero y h k = refl
  digits_enough (suc m) zero (suc x) y h k = absurd (omega arith)

low_digit_and : (x y : ℕ) → bit_and x y ≡ bit_and (x / 2) (y / 2) * 2 + min (x % 2) (y % 2)
low_digit_and zero y = omega (arith, bit_and-bitwise 0 y, bit_and-bitwise 0 (y / 2))
low_digit_and (suc x) y = omega (
  arith,
  bit_and-bitwise (suc x) y,
  bit_and-bitwise (suc x / 2) (y / 2),
  digits_enough (λ _. 0) min x (suc x / 2) (suc x / 2) (y / 2) (omega arith) (omega arith),
)

low_digit_or : (x y : ℕ) → bit_or x y ≡ bit_or (x / 2) (y / 2) * 2 + max (x % 2) (y % 2)
low_digit_or zero y = omega (arith, bit_or-bitwise 0 y, bit_or-bitwise 0 (y / 2))
low_digit_or (suc x) y = omega (
  arith,
  bit_or-bitwise (suc x) y,
  bit_or-bitwise (suc x / 2) (y / 2),
  digits_enough (λ y. y) max x (suc x / 2) (suc x / 2) (y / 2) (omega arith) (omega arith),
)

double_high : (q k : ℕ) → q * 2 ^ suc k ≡ 2 * (q * 2 ^ k)
double_high q k = omega (arith, ap (λ (t : ℕ). q * t) (pow-suc 2 k))

-- Operands cut at bit `k`.
pub bit_and-cut :
    (k p q r s : ℕ)
    → r < 2 ^ k
    → s < 2 ^ k
    → bit_and (p * 2 ^ k + r) (q * 2 ^ k + s) ≡ bit_and p q * 2 ^ k + bit_and r s
bit_and-cut zero p q r s hr hs = ground arith
bit_and-cut (suc k) p q r s hr hs = ground (
  arith,
  low_digit_and (p * 2 ^ suc k + r) (q * 2 ^ suc k + s),
  low_digit_and r s,
  double_high p k,
  double_high q k,
  double_high (bit_and p q) k,
  pow-suc 2 k,
  bit_and-cut k p q (r / 2) (s / 2) (omega (arith, pow-suc 2 k)) (omega (arith, pow-suc 2 k)),
)

pub bit_or-cut :
    (k p q r s : ℕ)
    → r < 2 ^ k
    → s < 2 ^ k
    → bit_or (p * 2 ^ k + r) (q * 2 ^ k + s) ≡ bit_or p q * 2 ^ k + bit_or r s
bit_or-cut zero p q r s hr hs = ground arith
bit_or-cut (suc k) p q r s hr hs = ground (
  arith,
  low_digit_or (p * 2 ^ suc k + r) (q * 2 ^ suc k + s),
  low_digit_or r s,
  double_high p k,
  double_high q k,
  double_high (bit_or p q) k,
  pow-suc 2 k,
  bit_or-cut k p q (r / 2) (s / 2) (omega (arith, pow-suc 2 k)) (omega (arith, pow-suc 2 k)),
)

pub zero-bit_and : (y : ℕ) → bit_and 0 y ≡ 0
zero-bit_and y = bit_and-bitwise 0 y

pub zero-bit_or : (y : ℕ) → bit_or 0 y ≡ y
zero-bit_or y = bit_or-bitwise 0 y

-- Induction on a bound `2 ^ k`; every number has one.
below_pow : (x : ℕ) → x < 2 ^ x
below_pow zero = omega arith
below_pow (suc x) = omega (arith, below_pow x, pow-suc 2 x)

bit_and-zero_below : (k x : ℕ) → x < 2 ^ k → bit_and x 0 ≡ 0
bit_and-zero_below zero x h = ground (arith, zero-bit_and 0)
bit_and-zero_below (suc k) x h =
    ground (arith, low_digit_and x 0, pow-suc 2 k, bit_and-zero_below k (x / 2))

pub bit_and-zero : (x : ℕ) → bit_and x 0 ≡ 0
bit_and-zero x = bit_and-zero_below x x (below_pow x)

bit_or-zero_below : (k x : ℕ) → x < 2 ^ k → bit_or x 0 ≡ x
bit_or-zero_below zero x h = ground (arith, zero-bit_or 0)
bit_or-zero_below (suc k) x h =
    ground (arith, low_digit_or x 0, pow-suc 2 k, bit_or-zero_below k (x / 2))

-- All ones absorb what is below them.
pub bit_or-ones : (k x : ℕ) → x < 2 ^ k → bit_or x (2 ^ k - 1) ≡ 2 ^ k - 1
bit_or-ones zero x h = ground (arith, zero-bit_or 0)
bit_or-ones (suc k) x h = ground (
  arith,
  low_digit_or x (2 ^ suc k - 1),
  pow-suc 2 k,
  one-le-pow k 2,
  ap (bit_or (x / 2)) {x = (2 ^ suc k - 1) / 2} {y = 2 ^ k - 1} (omega (arith, pow-suc 2 k)),
  bit_or-ones k (x / 2),
)

pub bit_or-zero : (x : ℕ) → bit_or x 0 ≡ x
bit_or-zero x = bit_or-zero_below x x (below_pow x)

-- `k` ones keep a number of `k` digits.
pub bit_and-ones : (k x : ℕ) → x < 2 ^ k → bit_and x (2 ^ k - 1) ≡ x
bit_and-ones zero x h = ground (arith, zero-bit_and 0)
bit_and-ones (suc k) x h =
    ground
      (arith, low_digit_and x (2 ^ suc k - 1), pow-suc 2 k, one-le-pow k 2, bit_and-ones k (x / 2))

-- `x & (2 ^ k - 1)`
pub bit_and-mask : (k x : ℕ) → bit_and x (2 ^ k - 1) ≡ x % 2 ^ k
bit_and-mask k x = ground (
  arith,
  one-le-pow k 2,
  bit_and-cut k (x / 2 ^ k) 0 (x % 2 ^ k) (2 ^ k - 1),
  bit_and-zero (x / 2 ^ k),
  bit_and-ones k (x % 2 ^ k),
)

div_below : (k n x : ℕ) → x < 2 ^ n * 2 ^ k → x / 2 ^ k < 2 ^ n
div_below k n x = (div-lt_iff_lt-mul (one-le-pow k 2 (omega arith))).1

-- `n` ones above `k` zeros.
pub bit_and-high :
    (k n x : ℕ) → x < 2 ^ n * 2 ^ k → bit_and x ((2 ^ n - 1) * 2 ^ k) ≡ x / 2 ^ k * 2 ^ k
bit_and-high k n x h = ground (
  arith,
  one-le-pow k 2,
  as_fields,
  bit_and-cut k (x / 2 ^ k) (2 ^ n - 1) (x % 2 ^ k) 0,
  bit_and-zero (x % 2 ^ k),
  bit_and-ones n (x / 2 ^ k) (div_below k n x h),
)
  where
    as_fields :
        bit_and x ((2 ^ n - 1) * 2 ^ k)
        ≡ bit_and (x / 2 ^ k * 2 ^ k + x % 2 ^ k) ((2 ^ n - 1) * 2 ^ k + 0)
    as_fields = ap₂ bit_and (omega arith) (omega arith)

-- `x & (1 << k)`
pub bit_and-bit : (k x : ℕ) → bit_and x (2 ^ k) ≡ x / 2 ^ k % 2 * 2 ^ k
bit_and-bit k x = ground (
  arith,
  one-le-pow k 2,
  bit_and-cut k (x / 2 ^ k) 1 (x % 2 ^ k) 0,
  bit_and-zero (x % 2 ^ k),
  bit_and-mask 1 (x / 2 ^ k),
)

-- Fields that do not meet are added.
pub bit_or-fields : (k q r : ℕ) → r < 2 ^ k → bit_or (q * 2 ^ k) r ≡ q * 2 ^ k + r
bit_or-fields k q r h =
    ground (arith, one-le-pow k 2, bit_or-cut k q 0 0 r, bit_or-zero q, zero-bit_or r)

pub pow_add : (m n : ℕ) → 2 ^ (m + n) ≡ 2 ^ m * 2 ^ n
pow_add m zero = rw add-zero (omega (arith, pow-zero 2))
pow_add m (suc n) = simp (add-suc, pow-suc) (omega (arith, ap (λ (t : ℕ). t * 2) (pow_add m n)))
