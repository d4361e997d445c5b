-- ===== src/Common/Results.antt =====
-- What a call comes to in the debug build: a value, an `Err`, a panic, or a loop that never ends.
use mathlib.Core.Path.{◌≡◌, refl}
use mathlib.Core.Logic.{◌⊎◌, inl, inr}
use mathlib.Core.Bool.{Bool, true, false}
use mathlib.Core.Option.{Option, none, some}

-- The `&'static str` errors of the page tables.
pub data Message : Type 0 where
  not_page_aligned already_allocated : Message

pub data Panic : Type 0 where
  overflow assertion out_of_bounds unwrapped out_of_memory not_found unsupported : Panic

pub data Outcome {ℓ} (A : Type ℓ) : Type ℓ where
  ok : A → Outcome A
  err : Message → Outcome A
  panic : Panic → Outcome A
  diverge : Outcome A

-- `?` and the sequence of statements.
infixl 5 ◌>>=◌ ◌>>◌
abbrev pub ◌>>=◌ {ℓ κ} : {A : Type ℓ} {B : Type κ} → Outcome A → (A → Outcome B) → Outcome B
diverge >>= f = diverge
panic p >>= f = panic p
err e >>= f = err e
ok a >>= f = f a

abbrev pub ◌>>◌ {ℓ} : {B : Type ℓ} → Outcome (Unit {0}) → Outcome B → Outcome B
m >> k = m >>= λ _. k

-- `assert!` and `debug_assert!`.
abbrev pub assert : Bool → Outcome (Unit {0})
assert true = ok tt
assert false = panic assertion

-- `.unwrap()` and `.expect(…)` on a `Result` and on an `Option`.
abbrev pub unwrap {ℓ} : {A : Type ℓ} → Outcome A → Outcome A
unwrap (ok a) = ok a
unwrap (err e) = panic unwrapped
unwrap (panic p) = panic p
unwrap diverge = diverge

abbrev pub some_or {ℓ} : {A : Type ℓ} → Panic → Option A → Outcome A
some_or p none = panic p
some_or p (some a) = ok a

-- To split on the outcome of a call and keep the equation.
pub Outcome-cases {ℓ} :
    {A : Type ℓ} (o : Outcome A)
    → ((a : A) × (o ≡ ok a))
      ⊎ ((m : Message) × (o ≡ err m))
      ⊎ ((p : Panic) × (o ≡ panic p))
      ⊎ (o ≡ diverge)
Outcome-cases (ok a) = inl (a, refl)
Outcome-cases (err m) = inr (inl (m, refl))
Outcome-cases (panic p) = inr (inr (inl (p, refl)))
Outcome-cases diverge = inr (inr (inr refl))

-- A sequence gives a value only where its first call does.
pub split_ok {ℓ κ} :
    {B : Type κ} {A : Type ℓ} {b : B} (f : A → Outcome B) (o : Outcome A)
    → (o >>= f) ≡ ok b
    → (a : A) × (f a ≡ ok b) × (o ≡ ok a)
split_ok f diverge e = cc
split_ok f (panic p) e = cc
split_ok f (err m) e = cc
split_ok f (ok a) e = (a, e, refl)
