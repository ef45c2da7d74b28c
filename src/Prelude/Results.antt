-- ===== src/Prelude/Results.antt =====
-- What a call gives back: a value, a Python exception, or the mark of a loop whose fuel ran out.
use mathlib.Core.Path.{◌≡◌, refl}
use mathlib.Core.Logic.{◌⊎◌, inl, inr}

pub data Error : Type 0 where
  -- KeyError
  unknown_key : Error
  -- ScopeTreeInvariantError
  broken_invariant : Error
  -- AttributeError
  no_attribute : Error
  -- UnicodeDecodeError
  bad_encoding : Error
  -- an exception that the reading of a tool's output raises
  bad_output : Error
  -- a loop of the model used up its fuel; no such exception exists in the program
  out_of_fuel : Error

pub data Outcome {ℓ} (A : Type ℓ) : Type ℓ where
  ok : A → Outcome A
  raised : Error → Outcome A

infixl 5 ◌>>=◌
abbrev pub ◌>>=◌ {ℓ κ} : {A : Type ℓ} {B : Type κ} → Outcome A → (A → Outcome B) → Outcome B
raised error >>= _ = raised error
ok value >>= next = next value

-- What is known when both steps returned.
pub >>=-eq-ok {ℓ κ} :
    {A : Type ℓ} {B : Type κ} (first : Outcome A) (next : A → Outcome B) {result : B}
    → (first >>= next) ≡ ok result
    → (value : A) × (first ≡ ok value) × (next value ≡ ok result)
>>=-eq-ok (raised error) next returned = cc returned
>>=-eq-ok (ok value) next returned = (value, refl, returned)

pub Outcome-cases {ℓ} :
    {A : Type ℓ} (o : Outcome A)
    → ((value : A) × (o ≡ ok value)) ⊎ ((error : Error) × (o ≡ raised error))
Outcome-cases (ok value) = inl (value, refl)
Outcome-cases (raised error) = inr (error, refl)
