-- ===== src/Outcome.antt =====
-- How a call of the program ends: with a value, or with a fault that no code of it catches.
use budd.Common.{Bool, true, false, ◌≡◌, refl, ◌⊎◌, inl, inr}

pub data Fault : Type 0 where
  -- a failed `assert`; the build files choose the Debug build, which keeps them
  assertion : Fault
  -- a read or a write outside of an object
  out_of_bounds : Fault
  -- `std::length_error`, of a vector or a string
  length_error : Fault
  -- `std::invalid_argument` and `std::out_of_range`, of `std::stoi`
  invalid_argument out_of_range : Fault
  -- `std::logic_error`, of `ThreadPool::enqueue`
  logic_error : Fault
  -- a sum of `int`s that is not an `int`, which the language leaves undefined
  overflow : Fault
  -- `LOG(FATAL)`, which ends the process
  fatal : Fault
  -- no behaviour of the program: the bound on the rounds of a modelled loop was too small
  out_of_fuel : Fault

pub data Outcome {ℓ} (A : Type ℓ) : Type ℓ where
  ok : A → Outcome A
  err : Fault → Outcome A

-- What follows is run on a value only; a fault ends the call.
module _ {ℓ κ} {V : Type ℓ} {W : Type κ} where
  infixl 5 ◌>>=◌
  abbrev pub ◌>>=◌ : Outcome V → (V → Outcome W) → Outcome W
  err fault >>= next = err fault
  ok v >>= next = next v

infixl 5 ◌>>◌
abbrev pub ◌>>◌ {ℓ} : {W : Type ℓ} → Outcome (Unit {0}) → Outcome W → Outcome W
err fault >> next = err fault
ok passed >> next = next

-- `assert (b)`, and the conditions under which the language or a library faults.
abbrev pub demand : Bool → Fault → Outcome (Unit {0})
demand false fault = err fault
demand true fault = ok tt

pub Outcome-cases {ℓ} :
    {A : Type ℓ} (o : Outcome A) → ((a : A) × (o ≡ ok a)) ⊎ ((e : Fault) × (o ≡ err e))
Outcome-cases (ok a) = inl (a, refl)
Outcome-cases (err e) = inr (e, refl)
