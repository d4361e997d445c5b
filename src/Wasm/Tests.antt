-- ===== src/Wasm/Tests.antt =====
-- The theorems on kernel/src/wasm.rs at small pictures and programs.
use noctis.Common.{◌+◌, ◌≡◌, refl, arith, List, [], ◌∷◌, ◌++◌, ok, length}
use noctis.Common.Int.{pos}
use noctis.Wasm.Syntax.{
  void, Block, Instruction, if_block, end, return, const, i32_add, Label, label_if, Frame, Runtime,
  result_count, add_i32, sub_i32, mul_i32,
}
use noctis.Wasm.Machine.{get_end_addr, continue, dispatch}
use noctis.Wasm.Machine.Blocks.{IsBalanced, get_end_addr-IsBalanced, skipped_if}
use noctis.Wasm.Diamond.{wasm_round}
use noctis.Wasm.Diamond.Shape.{picture, wasm_round-picture}

-- " * ", "***" and " * ", less the blanks behind.
three_lines : wasm_round 3 ≡ ok (10 ∷ 32 ∷ 42 ∷ 10 ∷ 42 ∷ 42 ∷ 42 ∷ 10 ∷ 32 ∷ 42 ∷ 10 ∷ 10 ∷ [])
unfolding wasm_round add_i32 sub_i32 mul_i32
three_lines = refl

abbrev block : Block
block = record { block_type = void }

-- The code between the outer `if` and its `end`.
abbrev nested : List Instruction
nested = const (pos 1) ∷ if_block block ∷ (return ∷ []) ++ end ∷ []

nested-IsBalanced : IsBalanced nested
nested-IsBalanced =
    IsBalanced.plain (const (pos 1)) (λ k e. cc) (λ e. cc)
      (IsBalanced.block block (IsBalanced.plain return (λ k e. cc) (λ e. cc) IsBalanced.nil)
        IsBalanced.nil)

get_end_addr-IsBalanced_example :
    get_end_addr
      ((i32_add ∷ []) ++ if_block block ∷ (nested ++ end ∷ (return ∷ [])))
      (length (i32_add ∷ []))
    ≡ ok (length (i32_add ∷ []) + 1 + length nested)
get_end_addr-IsBalanced_example =
    get_end_addr-IsBalanced (i32_add ∷ []) nested (return ∷ []) block nested-IsBalanced

abbrev at_if : Frame
at_if = record {
  pc = pos 0;
  sp = 0;
  insts = if_block block ∷ (nested ++ end ∷ (end ∷ []));
  arity = 0;
  labels = [];
  locals = [];
}

abbrev ready : Runtime
ready = record { store = record { funcs = [] }; stack = pos 0 ∷ []; call_stack = at_if ∷ [] }

abbrev label_left : Label
label_left = record { kind = label_if; pc = 5; sp = 0; arity = 0 }

skipped_if_example :
    (dispatch (if_block block) at_if [] ready
      ≡ ok (
          continue (record ready {
            stack = [];
            call_stack = record at_if { pc = pos 5; labels = label_left ∷ [] } ∷ [];
          })))
    × (dispatch end
          (record at_if { labels = label_left ∷ [] })
          []
          (record ready { stack = pos 9 ∷ [] })
        ≡ ok
            (continue (record ready { stack = []; call_stack = record at_if { pc = pos 5 } ∷ [] })))
unfolding result_count
skipped_if_example =
    skipped_if [] nested (end ∷ []) block at_if [] ready [] (pos 9 ∷ []) nested-IsBalanced refl refl
      refl

wasm_round-picture_example : wasm_round 15 ≡ ok (10 ∷ (picture 15 15 0 ++ 10 ∷ []))
wasm_round-picture_example = wasm_round-picture 15 (omega arith) refl
