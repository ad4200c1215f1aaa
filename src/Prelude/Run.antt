-- ===== src/Prelude/Run.antt =====
-- How a piece of kernel code ends, and the rules for code that ends well.

use mathlib.Core.Path.{◌≡◌, refl}
use mathlib.Core.Bool.{Bool, true, false}
use os_edf.Prelude.Tests.{if◌then◌else◌}

-- A value; a failed `assert` or a `panic`; `while (1);`; an access outside its object, which C leaves
-- undefined; the running thread goes to sleep, and what follows is for another one; or the end of the model's fuel.
pub data Run {ℓ} (A : Type ℓ) : Type ℓ where
  ok : A → Run A
  panic : Run A
  hang : Run A
  fault : Run A
  suspend : Run A
  out_of_fuel : Run A

-- What follows runs on the value, if there is one.
infixl 5 ◌>>=◌ ◌>>◌
abbrev pub ◌>>=◌ {ℓ κ} : {A : Type ℓ} {B : Type κ} → Run A → (A → Run B) → Run B
◌>>=◌ (ok value) next = next value
◌>>=◌ panic next = panic
◌>>=◌ hang next = hang
◌>>=◌ fault next = fault
◌>>=◌ suspend next = suspend
◌>>=◌ out_of_fuel next = out_of_fuel

abbrev pub ◌>>◌ {ℓ} : {B : Type ℓ} → Run (Unit {0}) → Run B → Run B
first >> second = first >>= λ _. second

-- assert(b)
abbrev pub assert : Bool → Run (Unit {0})
assert true = ok tt
assert false = panic

-- The code ends normally, with a value that satisfies `P`.
pub data Ends {ℓ κ} {A : Type ℓ} (P : A → Type κ) : Run A → Type (ℓ ⊔ κ) where
  ends : {a : A} → P a → Ends P (ok a)

module _ {ℓ κ} {A : Type ℓ} {P : A → Type κ} where
  -- The parts are reached in the order of the code.
  pub Ends-bind {ℓ' κ'} :
      {B : Type ℓ'} {Q : B → Type κ'} {first : Run A} {next : A → Run B}
      → Ends P first
      → ((value : A) → P value → Ends Q (next value))
      → Ends Q (first >>= next)
  Ends-bind (ends holds) then_ends = then_ends _ holds

  pub Ends-if :
      {yes_part no_part : Run A} (test : Bool)
      → (test ≡ true → Ends P yes_part)
      → (test ≡ false → Ends P no_part)
      → Ends P (if test then yes_part else no_part)
  Ends-if true holds fails = holds refl
  Ends-if false holds fails = fails refl

  pub Ends-map {κ'} :
      {Q : A → Type κ'} {code : Run A}
      → Ends P code
      → ((value : A) → P value → Q value)
      → Ends Q code
  Ends-map (ends holds) weaken = ends (weaken _ holds)

  -- Two facts of the same end
  pub Ends-both {κ'} :
      {Q : A → Type κ'} {code : Run A} → Ends P code → Ends Q code → Ends (λ a. P a × Q a) code
  Ends-both (ends p) (ends q) = ends (p, q)
