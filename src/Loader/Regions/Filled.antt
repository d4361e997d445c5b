-- ===== src/Loader/Regions/Filled.antt =====
-- What a run of `push` leaves in the array.
use mathlib.Core.List.{append_assoc}
use noctis.Common.{
  ℕ, ◌+◌, ◌≤◌, ◌<◌, ◌≡◌, refl, sym, ap, ◌∙◌, arith, List, [], ◌∷◌, ◌++◌, Outcome, ok, panic,
  assertion, ◌>>=◌, length, set, get_elem?, length-set, get_elem?-set_self, get_elem?-set_ne,
  get_elem?-front, get_elem?-last, length-append, ℕ_discrete, dec_lt,
}
use noctis.Loader.Regions.{
  MemoryRegion, MemoryRegionArray, max_memory_region_len, empty_array, push,
}

-- An array of the fixed length, filled up to `count` with the regions `l`, in their order.
pub record IsFilled (l : List MemoryRegion) (a : MemoryRegionArray) : Type 0 where
  pub full_length : length a.regions ≡ max_memory_region_len
  pub counted : a.count ≡ length l
  pub holds : (i : ℕ) → i < length l → get_elem? a.regions i ≡ get_elem? l i

-- One region after another.
unfoldable pub push_all : List MemoryRegion → MemoryRegionArray → Outcome MemoryRegionArray
push_all [] a = ok a
push_all (r ∷ l) a = do a' ← push r a; push_all l a'

append_nil : {A : Type 0} (p : List A) → p ++ [] ≡ p
append_nil [] = refl
append_nil (x ∷ p) = ap (λ l. x ∷ l) (append_nil p)

push-IsFilled :
    (p : List MemoryRegion) (r : MemoryRegion) (a : MemoryRegionArray)
    → IsFilled p a
    → length p < 128
    → (a' : MemoryRegionArray) × (push r a ≡ ok a') × IsFilled (p ++ r ∷ []) a'
unfolding push
push-IsFilled p r a filled room = (
  record { regions = set a.regions a.count r; count = a.count + 1 },
  ground (arith, filled.counted),
  record {
    full_length = length-set a.regions a.count r ∙ filled.full_length;
    counted = omega (arith, filled.counted, length-append p (r ∷ []));
    holds = λ i h. elim (ℕ_discrete a.count i) [
      | yes here ↦
          ap (get_elem? (set a.regions a.count r)) (sym here)
          ∙ get_elem?-set_self a.regions a.count r
              (omega (arith, filled.full_length, filled.counted))
          ∙ sym (get_elem?-last p r)
          ∙ ap (get_elem? (p ++ r ∷ [])) (sym filled.counted ∙ here)
      | no other ↦
          let below : i < length p = omega (arith, filled.counted, length-append p (r ∷ [])) in
          get_elem?-set_ne a.regions r other
          ∙ filled.holds i below
          ∙ sym (get_elem?-front p (r ∷ []) i below)
    ];
  },
)

push-full : (r : MemoryRegion) (a : MemoryRegionArray) → 128 ≤ a.count → push r a ≡ panic assertion
unfolding push
push-full r a full = ground arith

push_all-from :
    (l p : List MemoryRegion) (a : MemoryRegionArray)
    → IsFilled p a
    → length p + length l ≤ 128
    → (a' : MemoryRegionArray) × (push_all l a ≡ ok a') × IsFilled (p ++ l) a'
unfolding push_all
push_all-from [] p a filled room = (a, refl, rw (append_nil p) filled)
push_all-from (r ∷ l) p a filled room =
    let (a1, one, filled1) = push-IsFilled p r a filled (omega arith) in
    let (a', rest, filled') =
      push_all-from l (p ++ r ∷ []) a1 filled1 (omega (arith, length-append p (r ∷ []))) in
    (a', rw one rest, rw (append_assoc p (r ∷ []) l) at filled')

push_all-over :
    (l p : List MemoryRegion) (a : MemoryRegionArray)
    → IsFilled p a
    → length p ≤ 128
    → 128 < length p + length l
    → push_all l a ≡ panic assertion
unfolding push_all
push_all-over [] p a filled fits over = absurd (omega arith)
push_all-over (r ∷ l) p a filled fits over = elim (dec_lt (length p) 128) [
  | yes room ↦
      let (a1, one, filled1) = push-IsFilled p r a filled room in
      let size = length-append p (r ∷ []) in
      rw one (push_all-over l (p ++ r ∷ []) a1 filled1 (omega (arith, size)) (omega (arith, size)))
  | no full ↦ let e = push-full r a (omega (arith, filled.counted)) in rw e refl
]

empty_array-IsFilled : IsFilled [] empty_array
unfolding empty_array
empty_array-IsFilled = record {
  full_length = refl;
  counted = refl;
  holds = λ i h. absurd (omega arith);
}

-- Up to 128 regions are kept in the order in which they were pushed; one more fails the assertion.
pub push_all_lem :
    (l : List MemoryRegion)
    → (length l ≤ 128 → (a : MemoryRegionArray) × (push_all l empty_array ≡ ok a) × IsFilled l a)
      × (128 < length l → push_all l empty_array ≡ panic assertion)
push_all_lem l = (
  λ h. push_all-from l [] empty_array empty_array-IsFilled (omega arith),
  λ h. push_all-over l [] empty_array empty_array-IsFilled (omega arith) (omega arith),
)
