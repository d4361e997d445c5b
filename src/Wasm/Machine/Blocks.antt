-- ===== src/Wasm/Machine/Blocks.antt =====
-- `get_end_addr` of kernel/src/wasm.rs, the code that it passes over, and the label of an `if`.
use noctis.Common.{
  ℕ, suc, ◌+◌, ◌-◌, ◌≡◌, refl, ap, ◌∙◌, arith, List, [], ◌∷◌, ◌++◌, ok, length, drop, length-append,
}
use mathlib.Core.List.{append_assoc}
use native.Mathlib.Numerals.{add-one}
use noctis.Common.Int.{ℤ, pos}
use noctis.Wasm.Syntax.{
  BlockType, void, Block, Instruction, if_block, end, Label, label_if, Frame, Runtime, result_count,
}
use noctis.Wasm.Machine.{scan_end, get_end_addr, continue, dispatch}

-- Code in which every `if` has its `end`.
pub data IsBalanced : List Instruction → Type 0 where
  nil : IsBalanced []
  plain :
      {r : List Instruction} (i : Instruction)
      → ((k : Block) → i ≡ if_block k → ⊥)
      → (i ≡ end → ⊥)
      → IsBalanced r
      → IsBalanced (i ∷ r)
  block :
      {b r : List Instruction} (k : Block)
      → IsBalanced b
      → IsBalanced r
      → IsBalanced (if_block k ∷ (b ++ end ∷ r))

scan_end-plain :
    (i : Instruction) (r : List Instruction) (pc depth : ℕ)
    → ((k : Block) → i ≡ if_block k → ⊥)
    → (i ≡ end → ⊥)
    → scan_end (i ∷ r) pc depth ≡ scan_end r (pc + 1) depth
unfolding scan_end
scan_end-plain (if_block k) r pc depth f g = absurd (f k refl)
scan_end-plain end r pc depth f g = absurd (g refl)
scan_end-plain _ r pc depth f g = refl

scan_end-close :
    (l : List Instruction) (pc depth : ℕ)
    → scan_end (end ∷ l) pc (depth + 1) ≡ scan_end l (pc + 1) depth
unfolding scan_end
scan_end-close l pc depth = rw (add-one depth)

drop-behind :
    (before : List Instruction) (i : Instruction) (rest : List Instruction)
    → drop (length before + 1) (before ++ i ∷ rest) ≡ rest
drop-behind [] i rest = refl
drop-behind (j ∷ before) i rest =
    let e : length (j ∷ before) + 1 ≡ suc (length before + 1) = omega arith in
    rw e (drop-behind before i rest)

drop-append : (later stack : List ℤ) → drop (length later) (later ++ stack) ≡ stack
drop-append [] stack = refl
drop-append (v ∷ later) stack = drop-append later stack

drop-later :
    (later stack : List ℤ) → drop (length (later ++ stack) - length stack) (later ++ stack) ≡ stack
drop-later later stack =
    let e : length (later ++ stack) - length stack ≡ length later =
      omega (arith, length-append later stack) in
    rw e (drop-append later stack)

result_count-zero : (t : BlockType) → result_count t ≡ 0
unfolding result_count
result_count-zero void = refl

-- Balanced code is passed over as a whole, at any depth.
scan_end-IsBalanced :
    {b : List Instruction}
    → IsBalanced b
    → (rest : List Instruction) (pc depth : ℕ)
    → scan_end (b ++ rest) pc depth ≡ scan_end rest (pc + length b) depth
unfolding scan_end
scan_end-IsBalanced nil rest pc depth = ap (λ (n : ℕ). scan_end rest n depth) (omega arith)
scan_end-IsBalanced (plain {r} i f g balanced) rest pc depth =
    scan_end-plain i (r ++ rest) pc depth f g
    ∙ scan_end-IsBalanced balanced rest (pc + 1) depth
    ∙ ap (λ (n : ℕ). scan_end rest n depth) (omega arith)
scan_end-IsBalanced (block {b} {r} k inner after) rest pc depth =
    ap (λ (l : List Instruction). scan_end l (pc + 1) (depth + 1)) (append_assoc b (end ∷ r) rest)
    ∙ scan_end-IsBalanced inner (end ∷ (r ++ rest)) (pc + 1) (depth + 1)
    ∙ scan_end-close (r ++ rest) (pc + 1 + length b) depth
    ∙ scan_end-IsBalanced after rest (pc + 1 + length b + 1) depth
    ∙ ap (λ (n : ℕ). scan_end rest n depth) (omega (arith, length-append b (end ∷ r)))

-- At an `if` whose code up to its `end` is balanced, `get_end_addr` returns the place of that `end`.
pub get_end_addr-IsBalanced :
    (before b rest : List Instruction) (k : Block)
    → IsBalanced b
    → get_end_addr (before ++ if_block k ∷ (b ++ end ∷ rest)) (length before)
      ≡ ok (length before + 1 + length b)
unfolding get_end_addr
get_end_addr-IsBalanced before b rest k balanced =
    ap (λ (l : List Instruction). scan_end l (length before + 1) 0)
      (drop-behind before (if_block k) (b ++ end ∷ rest))
    ∙ scan_end-IsBalanced balanced (end ∷ rest) (length before + 1) 0

-- An `if` with balanced code up to its `end`, on a false condition, jumps to that `end` and leaves a
-- label; `end` with that label, whatever was pushed above the stack of the `if`, goes back to the
-- `end` of the `if` and drops what was pushed.
pub skipped_if :
    (before b rest : List Instruction) (k : Block) (f : Frame) (frames : List Frame)
    (self : Runtime) (stack later : List ℤ)
    → IsBalanced b
    → f.insts ≡ before ++ if_block k ∷ (b ++ end ∷ rest)
    → f.pc ≡ pos (length before)
    → self.stack ≡ pos 0 ∷ stack
    → let target = length before + 1 + length b in
      let label : Label = record {
        kind = label_if;
        pc = target;
        sp = length stack;
        arity = result_count k.block_type;
      } in
      (dispatch (if_block k) f frames self
        ≡ ok (
            continue (record self {
              stack = stack;
              call_stack = record f { pc = pos target; labels = label ∷ f.labels } ∷ frames;
            })))
      × (dispatch end
            (record f { labels = label ∷ f.labels })
            frames
            (record self { stack = later ++ stack })
          ≡ ok (
              continue (record self {
                stack = stack;
                call_stack = record f { pc = pos target } ∷ frames;
              })))
unfolding dispatch
skipped_if before b rest k f frames self stack later balanced e p s = (
  ground (
    arith,
    ap (λ (l : List Instruction). get_end_addr l (length before)) e,
    get_end_addr-IsBalanced before b rest k balanced,
  ),
  ground (arith, result_count-zero k.block_type, drop-later later stack, length-append later stack),
)
