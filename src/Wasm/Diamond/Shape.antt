-- ===== src/Wasm/Diamond/Shape.antt =====
-- The numbers that the two functions compute, and the picture that they make.
use noctis.Common.{
  ℕ, zero, suc, ◌+◌, ◌-◌, ◌*◌, ◌/◌, ◌%◌, ◌^◌, ◌≤◌, ◌<◌, ◌≡◌, refl, arith, List, [], ◌∷◌, ◌++◌, some,
  ok, replicate, dec_lt, ap, ◌∙◌,
}
use noctis.Common.Int.{ℤ, pos}
use noctis.Wasm.Syntax.{Store, Runtime, add_i32, sub_i32, mul_i32}
use noctis.Wasm.Machine.{call_func}
use noctis.Wasm.Diamond.{wasm_space, wasm_star, enough, rows, wasm_round}

add_i32-pos : (a b : ℕ) → a + b < 2 ^ 31 → add_i32 (pos a) (pos b) ≡ ok (pos (a + b))
unfolding add_i32
add_i32-pos a b h = ground arith

sub_i32-pos : (a b : ℕ) → a < 2 ^ 31 → b ≤ a → sub_i32 (pos a) (pos b) ≡ ok (pos (a - b))
unfolding sub_i32
sub_i32-pos a b h le = ground arith

mul_i32-pos : (a b : ℕ) → a * b < 2 ^ 31 → mul_i32 (pos a) (pos b) ≡ ok (pos (a * b))
unfolding mul_i32
mul_i32-pos a b h = ground arith

-- A runtime between two calls.
abbrev pub resting : Store → List ℤ → Runtime
resting store stack = record { store = store; stack = stack; call_stack = [] }

-- Blanks and stars of line `n`.
abbrev pub blanks : ℕ → ℕ → ℕ
blanks size n = (size / 2 - n) + (n - size / 2)

abbrev pub stars : ℕ → ℕ → ℕ
stars size n = size - 2 * blanks size n

module _ (size n : ℕ) (stack : List ℤ) (fits : size < 2 ^ 31) (odd : size % 2 ≡ 1)
    (line : n < size) where
  -- Called on line `n` of a picture of odd height, the first function gives the blanks of the line,
  -- and leaves the runtime as at the start.
  pub call_func-wasm_space :
      call_func enough 0 (pos n ∷ []) (resting (wasm_space size) stack)
      ≡ ok (some (pos (blanks size n)), resting (wasm_space size) [])
  unfolding call_func
  call_func-wasm_space = ground (arith, sub_i32-pos (size / 2) n, sub_i32-pos n (size / 2))

  star_above :
      n < size / 2
      → call_func enough 0 (pos n ∷ []) (resting (wasm_star size) stack)
        ≡ ok (some (pos (n * 2 + 1)), resting (wasm_star size) [])
  unfolding call_func
  star_above above = ground (arith, mul_i32-pos n 2, add_i32-pos (n * 2) 1)

  star_below :
      size / 2 ≤ n
      → call_func enough 0 (pos n ∷ []) (resting (wasm_star size) stack)
        ≡ ok (some (pos (size - 2 * (n - size / 2))), resting (wasm_star size) [])
  unfolding call_func
  star_below below = ground (
    arith,
    sub_i32-pos n (size / 2),
    mul_i32-pos 2 (n - size / 2),
    sub_i32-pos size (2 * (n - size / 2)),
  )

  -- Called on line `n` of a picture of odd height, the second function gives the stars of the line,
  -- and leaves the runtime as at the start.
  pub call_func-wasm_star :
      call_func enough 0 (pos n ∷ []) (resting (wasm_star size) stack)
      ≡ ok (some (pos (stars size n)), resting (wasm_star size) [])
  call_func-wasm_star = elim (dec_lt n (size / 2)) [
    | yes above ↦
        star_above above
        ∙ ap (λ (v : ℕ). ok (some (pos v), resting (wasm_star size) [])) (omega arith)
    | no below ↦
        star_below (omega arith)
        ∙ ap (λ (v : ℕ). ok (some (pos v), resting (wasm_star size) [])) (omega arith)
  ]

-- The picture that is meant: lines `n` up to `n + left`, centred.
pub picture : ℕ → ℕ → ℕ → List ℕ
picture size zero n = []
picture size (suc left) n =
    (replicate (blanks size n) b' ' ++ (replicate (stars size n) b'*' ++ 10 ∷ []))
    ++ picture size left (n + 1)

rows-picture :
    (size : ℕ)
    → size < 2 ^ 31
    → size % 2 ≡ 1
    → (left n : ℕ) (s t : List ℤ) → n + left ≡ size
    → rows left n (resting (wasm_space size) s) (resting (wasm_star size) t)
      ≡ ok (picture size left n)
unfolding rows picture
rows-picture size fits odd zero n s t e = refl
rows-picture size fits odd (suc left) n s t e =
    rw
      (
        call_func-wasm_space size n s fits odd (omega arith),
        call_func-wasm_star size n t fits odd (omega arith),
        rows-picture size fits odd left (n + 1) [] [] (omega arith),
      )
      refl

-- Where the allocations of its vectors and strings succeed, which the model leaves out, the round prints for
-- every odd height below `2 ^ 31` the centred diamond of that height between two newlines: it ends
-- within the fuel, and no instruction panics.
pub wasm_round-picture :
    (size : ℕ)
    → size < 2 ^ 31
    → size % 2 ≡ 1
    → wasm_round size ≡ ok (10 ∷ (picture size size 0 ++ 10 ∷ []))
unfolding wasm_round
wasm_round-picture size fits odd =
    ground (arith, rows-picture size fits odd size 0 [] [] (omega arith))
