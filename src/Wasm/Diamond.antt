-- ===== src/Wasm/Diamond.antt =====
-- `wasm_entry` of kernel/src/wasm.rs: the two functions that it interprets, and what it prints.
pub mod Shape
use noctis.Common.{
  ℕ, zero, suc, ◌+◌, ◌/◌, List, [], ◌∷◌, ◌++◌, Option, none, some, Outcome, ok, ◌>>=◌, replicate,
}
use noctis.Common.Int.{ℤ, pos}
use noctis.Wasm.Syntax.{
  Block, void, Instruction, if_block, end, return, const, local_get, i32_lts, i32_add, i32_sub,
  i32_mul, i32, InternalFuncInst, Store, Runtime, as_usize, new,
}
use noctis.Wasm.Machine.{call_func}

-- The height of the diamond.
abbrev pub size : ℕ
size = 15

abbrev pub half : ℕ → ℤ
half size = pos (size / 2)

-- A function from one `i32` to another.
abbrev pub unary : List Instruction → Store
unary body = record {
  funcs =
      record {
        func_type = record { params = i32 ∷ []; results = i32 ∷ [] };
        code = record { locals = []; body = body };
      }
      ∷ [];
}

abbrev if_void : Instruction
if_void = if_block (record { block_type = void })

abbrev pub wasm_space : ℕ → Store
wasm_space size = unary (
    local_get 0
    ∷ const (half size)
    ∷ i32_lts
    ∷ if_void
    ∷ const (half size)
    ∷ local_get 0
    ∷ i32_sub
    ∷ return
    ∷ end
    ∷ local_get 0
    ∷ const (half size)
    ∷ i32_sub
    ∷ return
    ∷ [])

abbrev pub wasm_star : ℕ → Store
wasm_star size = unary (
    local_get 0
    ∷ const (half size)
    ∷ i32_lts
    ∷ if_void
    ∷ local_get 0
    ∷ const (pos 2)
    ∷ i32_mul
    ∷ const (pos 1)
    ∷ i32_add
    ∷ return
    ∷ end
    ∷ const (pos size)
    ∷ const (pos 2)
    ∷ local_get 0
    ∷ const (half size)
    ∷ i32_sub
    ∷ i32_mul
    ∷ i32_sub
    ∷ return
    ∷ [])

-- More rounds than either function takes.
abbrev pub enough : ℕ
enough = 20

abbrev pub unwrap_or : Option ℤ → ℤ → ℤ
unwrap_or none d = d
unwrap_or (some v) d = v

abbrev pub row : ℤ → ℤ → List ℕ
row space star = replicate (as_usize space) b' ' ++ (replicate (as_usize star) b'*' ++ 10 ∷ [])

-- `for n in 0..size`, with the rounds left first.
unfoldable pub rows : ℕ → ℕ → Runtime → Runtime → Outcome (List ℕ)
unfolding call_func
rows zero n runtime_space runtime_star = ok []
rows (suc left) n runtime_space runtime_star = do
  (space, runtime_space') ← call_func enough 0 (pos n ∷ []) runtime_space
  (star, runtime_star') ← call_func enough 0 (pos n ∷ []) runtime_star
  rest ← rows left (n + 1) runtime_space' runtime_star'
  ok (row (unwrap_or space (pos 0)) (unwrap_or star (pos 0)) ++ rest)

-- One round of the loop of `wasm_entry`, up to its `hlt`.
unfoldable pub wasm_round : ℕ → Outcome (List ℕ)
unfolding rows new
wasm_round size = do
  text ← rows size 0 (new (wasm_space size)) (new (wasm_star size))
  ok (10 ∷ (text ++ 10 ∷ []))
