-- ===== src/Prelude/Run.antt =====
-- The outcome of code that may do what C++ leaves undefined, or may not end.
use mathlib.Core.Option.{Option, none, some}
use mathlib.Core.Path.{◌≡◌, subst}

-- A division by zero, a shift by too much, an access outside an allocation, to one that was freed, through a null
-- pointer or to a page that is not mapped, a read of memory that holds no object, or a `while(1)`.
pub data Fault : Type 0 where
  out_of_bounds : Fault
  uninitialised : Fault
  division_by_zero : Fault
  use_after_free : Fault
  null_dereference : Fault
  bad_shift : Fault
  page_fault : Fault
  halted : Fault

-- `out_of_fuel` says only that a loop was not given enough rounds.
pub data Run {ℓ} (Value : Type ℓ) : Type ℓ where
  out_of_fuel : Run Value
  fault : Fault → Run Value
  ok : Value → Run Value

infixl 5 ◌>>=◌
-- A fault, or a lack of fuel, ends the sequence.
abbrev pub ◌>>=◌ {ℓ κ} : {S : Type ℓ} {T : Type κ} → Run S → (S → Run T) → Run T
out_of_fuel >>= next = out_of_fuel
fault why >>= next = fault why
ok value >>= next = next value

abbrev pub expect {ℓ} : {S : Type ℓ} → Fault → Option S → Run S
expect why none = fault why
expect why (some value) = ok value

-- Total correctness: a normal end, and a value with the property `Post`.
abbrev pub Returns {ℓ κ} : {S : Type ℓ} → Run S → (S → Type κ) → Type (ℓ ⊔ κ)
Returns {S} run Post = (value : S) × (run ≡ ok value) × Post value

-- A run that is known keeps the property.
pub Returns_at {ℓ κ} :
    {S : Type ℓ} {run : Run S} {Post : S → Type κ} {value : S}
    → Returns run Post
    → run ≡ ok value
    → Post value
Returns_at {Post} {value} (b, e, p) f = let same : b ≡ value = cc in subst Post same p
