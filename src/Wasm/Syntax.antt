-- ===== src/Wasm/Syntax.antt =====
-- The instructions, frames and functions of kernel/src/wasm.rs. A `Vec` used as a stack is a list
-- with its last element first; an `i32` is an integer with the range checks of the debug build.
use noctis.Common.{
  ℕ, zero, suc, ◌+◌, ◌-◌, ◌^◌, Bool, ◌&&◌, List, [], Outcome, ok, panic, overflow, ltb, leb,
  if◌then◌else◌,
}
use noctis.Common.Int.{ℤ, pos, negsuc, pos_part, neg_part, ◌+ℤ◌, ◌-ℤ◌, ◌*ℤ◌}

pub data BlockType : Type 0 where
  void : BlockType

unfoldable pub result_count : BlockType → ℕ
result_count void = 0

pub record Block : Type 0 where
  pub block_type : BlockType

pub data Instruction : Type 0 where
  if_block : Block → Instruction
  end return : Instruction
  const : ℤ → Instruction
  local_get : ℕ → Instruction
  i32_lts i32_add i32_sub i32_mul : Instruction
  call : ℕ → Instruction

pub data LabelKind : Type 0 where
  label_if : LabelKind

pub record Label : Type 0 where
  pub kind : LabelKind
  pub pc : ℕ
  pub sp : ℕ
  pub arity : ℕ

-- `pc` is an `isize`, -1 before the first instruction.
pub record Frame : Type 0 where
  pub pc : ℤ
  pub sp : ℕ
  pub insts : List Instruction
  pub arity : ℕ
  pub labels : List Label
  pub locals : List ℤ

pub data ValueType : Type 0 where
  i32 : ValueType

pub record FuncType : Type 0 where
  pub params : List ValueType
  pub results : List ValueType

pub record Func : Type 0 where
  pub locals : List ℤ
  pub body : List Instruction

-- `FuncInst` has the one case `Internal`.
pub record InternalFuncInst : Type 0 where
  pub func_type : FuncType
  pub code : Func

pub record Store : Type 0 where
  pub funcs : List InternalFuncInst

pub record Runtime : Type 0 where
  pub store : Store
  pub stack : List ℤ
  pub call_stack : List Frame

unfoldable pub new : Store → Runtime
new store = record { store = store; stack = []; call_stack = [] }

abbrev pub in_i32 : ℤ → Bool
in_i32 z = ltb (pos_part z) (2 ^ 31) && leb (neg_part z) (2 ^ 31)

abbrev pub checked : ℤ → Outcome ℤ
checked z = if in_i32 z then ok z else panic overflow

-- `+`, `-` and `*` on `i32`
unfoldable pub add_i32 : ℤ → ℤ → Outcome ℤ
unfolding ◌+ℤ◌
add_i32 a b = checked (a +ℤ b)

unfoldable pub sub_i32 : ℤ → ℤ → Outcome ℤ
unfolding ◌-ℤ◌
sub_i32 a b = checked (a -ℤ b)

unfoldable pub mul_i32 : ℤ → ℤ → Outcome ℤ
unfolding ◌*ℤ◌
mul_i32 a b = checked (a *ℤ b)

-- `pc += 1` and `pc as usize`
abbrev pub next_pc : ℤ → ℤ
next_pc (pos n) = pos (n + 1)
next_pc (negsuc zero) = pos 0
next_pc (negsuc (suc n)) = negsuc n

abbrev pub as_usize : ℤ → ℕ
as_usize (pos n) = n
as_usize (negsuc n) = 2 ^ 64 - n - 1
