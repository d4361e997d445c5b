-- ===== src/Interrupt/Descriptor/Table.antt =====
-- Which entry point the table gives for each vector.
use noctis.Common.{
  ℕ, zero, suc, ◌+◌, ◌*◌, ◌/◌, ◌^◌, ◌<◌, ◌≡◌, refl, ◌∙◌, arith, true, List, Option, some, replicate,
  set, length, get_elem?, ℕ_discrete, length-set, get_elem?-set_self, get_elem?-set_ne,
  length-replicate, ◌==◌, if◌then◌else◌,
}
use noctis.Common.Bits.{bit_and-mask}
use noctis.Interrupt.Descriptor.{
  IdtDescriptor, create, EntryPoints, idt_entries, idt_gate_type_intgate,
}

-- The address that the CPU puts together from a descriptor.
abbrev pub offset : IdtDescriptor → ℕ
offset d = d.offset_high * 2 ^ 32 + d.offset_middle * 2 ^ 16 + d.offset_low

-- The handler and the privilege that are meant for a vector.
abbrev pub handler_of : EntryPoints → ℕ → ℕ
handler_of p v =
    if v == 3
    then p.entry_3
    else (if v == 6
        then p.entry_6
        else (if v == 13
            then p.entry_13
            else (if v == 14
                then p.entry_14
                else (if v == 42 then p.entry_42 else p.unimplemented))))

offset-create : (s i g d f : ℕ) → f < 2 ^ 64 → offset (create s i g d f) ≡ f
unfolding create
offset-create s i g d f h = ground (arith, bit_and-mask 16 f, bit_and-mask 16 (f / 2 ^ 16))

get_elem?-replicate :
    {A : Type 0} (n : ℕ) (a : A) (i : ℕ) → i < n → get_elem? (replicate n a) i ≡ some a
get_elem?-replicate zero a i h = absurd (omega arith)
get_elem?-replicate (suc n) a zero h = refl
get_elem?-replicate (suc n) a (suc i) h = get_elem?-replicate n a i (omega arith)

get_elem?-set :
    {A : Type 0} (l : List A) (i j : ℕ) (v : A)
    → i < length l
    → get_elem? (set l i v) j ≡ (if j == i then some v else get_elem? l j)
get_elem?-set l i j v h = elim (ℕ_discrete i j) [
  | yes e ↦ ground (arith, get_elem?-set_self l i v h)
  | no ne ↦ get_elem?-set_ne l v ne ∙ ground arith
]

-- The addresses are 64 bits wide.
pub record AreAddresses (p : EntryPoints) : Type 0 where
  pub fit_unimplemented : p.unimplemented < 2 ^ 64
  pub fit_3 : p.entry_3 < 2 ^ 64
  pub fit_6 : p.entry_6 < 2 ^ 64
  pub fit_13 : p.entry_13 < 2 ^ 64
  pub fit_14 : p.entry_14 < 2 ^ 64
  pub fit_42 : p.entry_42 < 2 ^ 64

gate_of : EntryPoints → ℕ → ℕ → IdtDescriptor
gate_of p s v =
    create s (if v == 42 then 0 else 1) idt_gate_type_intgate (if v == 3 then 3 else 0)
      (handler_of p v)

-- Five writes into a long enough list, read at any place.
get_elem?-writes :
    {A : Type 0} (l : List A) (a3 a6 a13 a14 a42 : A) (v : ℕ)
    → length l ≡ 256
    → get_elem? (set (set (set (set (set l 3 a3) 6 a6) 13 a13) 14 a14) 42 a42) v ≡ (
        if v == 42
        then some a42
        else (if v == 14
            then some a14
            else (if v == 13
                then some a13
                else (if v == 6 then some a6 else (if v == 3 then some a3 else get_elem? l v)))))
get_elem?-writes l a3 a6 a13 a14 a42 v h =
    let l3 = set l 3 a3 in
    let l6 = set l3 6 a6 in
    let l13 = set l6 13 a13 in
    let l14 = set l13 14 a14 in
    let n3 = length-set l 3 a3 ∙ h in
    let n6 = length-set l3 6 a6 ∙ n3 in
    let n13 = length-set l6 13 a13 ∙ n6 in
    let n14 = length-set l13 14 a14 ∙ n13 in
    rw (
      get_elem?-set l14 42 v a42 (omega arith),
      get_elem?-set l13 14 v a14 (omega arith),
      get_elem?-set l6 13 v a13 (omega arith),
      get_elem?-set l3 6 v a6 (omega arith),
      get_elem?-set l 3 v a3 (omega arith),
    )

-- The nested tests, read as one gate; `g` makes a gate of a stack, a privilege and an address.
gate_cases :
    {A : Type 0} (g : ℕ → ℕ → ℕ → A) (p : EntryPoints) (v : ℕ) (o : Option A)
    → o ≡ some (g 1 0 p.unimplemented)
    → (if v == 42
        then some (g 0 0 p.entry_42)
        else (if v == 14
            then some (g 1 0 p.entry_14)
            else (if v == 13
                then some (g 1 0 p.entry_13)
                else (if v == 6
                    then some (g 1 0 p.entry_6)
                    else (if v == 3 then some (g 1 3 p.entry_3) else o)))))
      ≡ some (g (if v == 42 then 0 else 1) (if v == 3 then 3 else 0) (handler_of p v))
gate_cases g p v o h = ground arith

get_elem?-idt_entries :
    (p : EntryPoints) (s v : ℕ) → v < 256 → get_elem? (idt_entries p s) v ≡ some (gate_of p s v)
unfolding idt_entries gate_of
get_elem?-idt_entries p s v h =
    let gate = λ (ist : ℕ) (dpl : ℕ) (f : ℕ). create s ist idt_gate_type_intgate dpl f in
    get_elem?-writes (replicate 256 (gate 1 0 p.unimplemented)) (gate 1 3 p.entry_3)
      (gate 1 0 p.entry_6) (gate 1 0 p.entry_13) (gate 1 0 p.entry_14) (gate 0 0 p.entry_42) v
      (length-replicate 256 (gate 1 0 p.unimplemented))
    ∙ gate_cases gate p v (get_elem? (replicate 256 (gate 1 0 p.unimplemented)) v)
        (get_elem?-replicate 256 (gate 1 0 p.unimplemented) v h)

-- With entry points of 64 bits, every vector has a present interrupt gate. Its address is that of the vector's entry point, or of
-- the handler for what is not implemented; only the breakpoint can be raised from user mode, and only
-- the timer runs on the stack of the interrupted code.
pub idt_entries_lem :
    (p : EntryPoints) (s v : ℕ)
    → AreAddresses p
    → v < 256
    → (d : IdtDescriptor) × (get_elem? (idt_entries p s) v ≡ some d)
      × (offset d ≡ handler_of p v)
      × (d.segment_selector ≡ s)
      × (d.present ≡ true)
      × (d.gate_type ≡ 0b1110)
      × (d.dpl ≡ (if v == 3 then 3 else 0))
      × (d.ist ≡ (if v == 42 then 0 else 1))
unfolding gate_of create
idt_entries_lem p s v fits h = (
  gate_of p s v,
  get_elem?-idt_entries p s v h,
  offset-create s (if v == 42 then 0 else 1) idt_gate_type_intgate (if v == 3 then 3 else 0)
      (handler_of p v) (ground arith),
  refl,
  refl,
  refl,
  ground arith,
  refl,
)
