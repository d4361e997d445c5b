-- ===== src/Wasm/Machine.antt =====
-- `Runtime`'s methods, `stack_unwind` and `get_end_addr` of kernel/src/wasm.rs.
pub mod Blocks
use mathlib.Core.List.{reverse}
use noctis.Common.{
  ℕ, zero, suc, ◌+◌, ◌-◌, ◌<◌, Bool, true, false, ◌&&◌, List, [], ◌∷◌, ◌++◌, Option, none, some,
  Outcome, ok, panic, diverge, out_of_bounds, unwrapped, not_found, ◌>>=◌, ◌>>◌, some_or, sub_usize,
  length, get_elem?, take, drop, replicate, ltb, leb, ◌==◌, if◌then◌else◌,
}
use noctis.Common.Int.{ℤ, pos, negsuc, ltb_ℤ}
use noctis.Wasm.Syntax.{
  Block, Instruction, if_block, end, return, const, local_get, i32_lts, i32_add, i32_sub, i32_mul,
  call, Label, label_if, Frame, InternalFuncInst, Store, Runtime, result_count, add_i32, sub_i32,
  mul_i32, next_pc, as_usize,
}

-- `Vec::pop`, whose `None` panics at every call.
abbrev pub pop : List ℤ → Outcome (ℤ × List ℤ)
pop [] = panic not_found
pop (v ∷ s) = ok (v, s)

-- `stack.drain(sp..)` keeps the lowest `sp` values.
abbrev pub drain : ℕ → List ℤ → Outcome (List ℤ)
drain sp stack =
    if leb sp (length stack) then ok (drop (length stack - sp) stack) else panic out_of_bounds

unfoldable pub stack_unwind : List ℤ → ℕ → ℕ → Outcome (List ℤ)
stack_unwind stack sp arity =
    if ltb 0 arity
    then (do (val, rest) ← pop stack; kept ← drain sp rest; ok (val ∷ kept))
    else drain sp stack

-- The loop of `get_end_addr`, over the instructions behind `pc`.
unfoldable pub scan_end : List Instruction → ℕ → ℕ → Outcome ℕ
scan_end [] pc depth = panic unwrapped
scan_end (if_block b ∷ rest) pc depth = scan_end rest (pc + 1) (depth + 1)
scan_end (end ∷ rest) pc zero = ok pc
scan_end (end ∷ rest) pc (suc depth) = scan_end rest (pc + 1) depth
scan_end (_ ∷ rest) pc depth = scan_end rest (pc + 1) depth

unfoldable pub get_end_addr : List Instruction → ℕ → Outcome ℕ
unfolding scan_end
get_end_addr insts pc = scan_end (drop (pc + 1) insts) (pc + 1) 0

unfoldable pub push_frame : InternalFuncInst → Runtime → Outcome Runtime
push_frame func self = do
  let params = length func.func_type.params
  bottom ← sub_usize (length self.stack) params
  let locals = reverse (take params self.stack)
  let stack = drop params self.stack
  let frame : Frame = record {
    pc = negsuc 0;
    sp = length stack;
    insts = func.code.body;
    arity = length func.func_type.results;
    labels = [];
    locals = locals ++ replicate (length func.code.locals) (pos 0);
  }
  ok (record self { stack = stack; call_stack = frame ∷ self.call_stack })

-- A loop of `execute` goes on or breaks.
pub data Turn : Type 0 where
  continue break : Runtime → Turn

-- The two operands of an arithmetic instruction, and its result pushed.
abbrev binary : (ℤ → ℤ → Outcome ℤ) → Runtime → Outcome Turn
binary op self = do
  (rhs, s1) ← pop self.stack
  (lhs, s2) ← pop s1
  v ← op lhs rhs
  ok (continue (record self { stack = v ∷ s2 }))

abbrev less_i32 : ℤ → ℤ → Outcome ℤ
less_i32 lhs rhs = ok (if ltb_ℤ lhs rhs then pos 1 else pos 0)

-- The end of a frame: `return`, or `end` with no label left.
abbrev leave : Frame → List Frame → Runtime → Outcome Turn
leave frame frames self = do
  stack ← stack_unwind self.stack frame.sp frame.arity
  ok (continue (record self { stack = stack; call_stack = frames }))

end_label : List Label → Frame → List Frame → Runtime → Outcome Turn
end_label [] frame frames self = leave frame frames self
end_label (label ∷ labels) frame frames self = do
  stack ← stack_unwind self.stack label.sp label.arity
  let frame' = record frame { pc = pos label.pc; labels = labels }
  ok (continue (record self { stack = stack; call_stack = frame' ∷ frames }))

-- `cond == 0`
abbrev is_zero : ℤ → Bool
is_zero (pos n) = n == 0
is_zero (negsuc n) = false

-- The `match inst` of `execute`: `frame` is the last frame, its `pc` already on `inst`, and it
-- stands in `self.call_stack` above `frames`.
unfoldable pub dispatch : Instruction → Frame → List Frame → Runtime → Outcome Turn
unfolding stack_unwind get_end_addr push_frame end_label result_count
dispatch i32_add frame frames self = binary add_i32 self
dispatch i32_sub frame frames self = binary sub_i32 self
dispatch i32_mul frame frames self = binary mul_i32 self
dispatch i32_lts frame frames self = binary less_i32 self
dispatch (const val) frame frames self = ok (continue (record self { stack = val ∷ self.stack }))
dispatch (local_get idx) frame frames self = do
  val ← some_or not_found (get_elem? frame.locals idx)
  ok (continue (record self { stack = val ∷ self.stack }))
dispatch (call idx) frame frames self = do
  func ← some_or not_found (get_elem? self.store.funcs idx)
  self' ← push_frame func self
  ok (continue self')
dispatch (if_block block) frame frames self = do
  (cond, stack) ← pop self.stack
  end_pc ← get_end_addr frame.insts (as_usize frame.pc)
  let pc = if is_zero cond then pos end_pc else frame.pc
  let label : Label = record {
    kind = label_if;
    pc = end_pc;
    sp = length stack;
    arity = result_count block.block_type;
  }
  let frame' = record frame { pc = pc; labels = label ∷ frame.labels }
  ok (continue (record self { stack = stack; call_stack = frame' ∷ frames }))
dispatch return frame frames self = leave frame frames self
dispatch end frame frames self = end_label frame.labels frame frames self

fetch : Option Instruction → Frame → List Frame → Runtime → Outcome Turn
unfolding dispatch
fetch none frame frames self = ok (break self)
fetch (some inst) frame frames self = dispatch inst frame frames self

-- One round of the loop of `execute`.
unfoldable pub step : List Frame → Runtime → Outcome Turn
unfolding fetch
step [] self = ok (break self)
step (frame ∷ frames) self =
    let frame' = record frame { pc = next_pc frame.pc } in
    fetch (get_elem? frame'.insts (as_usize frame'.pc)) frame' frames
      (record self { call_stack = frame' ∷ frames })

-- `execute`, for as many rounds as `fuel` allows.
unfoldable pub execute : ℕ → Runtime → Outcome Runtime
unfolding step
execute zero self = diverge
execute (suc fuel) self = do
  turn ← step self.call_stack self
  elim turn [ continue self' ↦ execute fuel self' | break self' ↦ ok self' ]

unfoldable pub invoke : ℕ → InternalFuncInst → Runtime → Outcome (Option ℤ × Runtime)
unfolding push_frame execute
invoke fuel func self = do
  pushed ← push_frame func self
  done ← execute fuel pushed
  if ltb 0 (length func.func_type.results)
      then (do (val, stack) ← pop done.stack; ok (some val, record done { stack = stack }))
      else ok (none, done)

unfoldable pub call_func : ℕ → ℕ → List ℤ → Runtime → Outcome (Option ℤ × Runtime)
unfolding invoke
call_func fuel idx args self = do
  func ← some_or not_found (get_elem? self.store.funcs idx)
  invoke fuel func (record self { stack = reverse args })
