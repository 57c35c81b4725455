-- ===== src/Outcome.antt =====
-- Results of code that can panic; `out_of_fuel` has no counterpart in the program and stands for a
-- recursion that the model cut off.
use bfl.Prelude.{none, some, Option, ◌≡◌, ◌≢◌, refl}

pub data Outcome {ℓ} (A : Type ℓ) : Type ℓ where
  ok : A → Outcome A
  panic out_of_fuel : Outcome A

infixl 5 ◌>>=◌
abbrev pub ◌>>=◌ {ℓ κ} : {A : Type ℓ} {B : Type κ} → Outcome A → (A → Outcome B) → Outcome B
ok a >>= f = f a
panic >>= f = panic
out_of_fuel >>= f = out_of_fuel

-- A read that panics where there is nothing.
abbrev pub unwrap {ℓ} : {A : Type ℓ} → Option A → Outcome A
unwrap none = panic
unwrap (some a) = ok a

pub ok-injective {ℓ} : {A : Type ℓ} {a b : A} → ok a ≡ ok b → a ≡ b
ok-injective e = cc e

-- A bind that gives a value has one to go on from.
pub >>=-value {ℓ κ} :
    {A : Type ℓ} {B : Type κ} {r : B} (o : Outcome A) (next : A → Outcome B)
    → (o >>= next) ≡ ok r
    → (x : A) × (o ≡ ok x) × (next x ≡ ok r)
>>=-value panic next e = cc
>>=-value out_of_fuel next e = cc
>>=-value (ok x) next e = (x, refl, e)

-- A bind whose parts do not run out of fuel does not.
pub >>=-returns {ℓ κ} :
    {A : Type ℓ} {B : Type κ} (m : Outcome A) (f : A → Outcome B)
    → m ≢ out_of_fuel
    → ((a : A) → f a ≢ out_of_fuel)
    → (m >>= f) ≢ out_of_fuel
>>=-returns (ok a) f n g = g a
>>=-returns panic f n g = λ e. cc e
>>=-returns out_of_fuel f n g = absurd (n refl)

pub ok-returns {ℓ} : {A : Type ℓ} (a : A) → ok a ≢ out_of_fuel
ok-returns a e = cc e

pub panic-returns {ℓ} : {A : Type ℓ} → ◌≢◌ {A = Outcome A} panic out_of_fuel
panic-returns e = cc e

pub unwrap-returns {ℓ} : {A : Type ℓ} (o : Option A) → unwrap o ≢ out_of_fuel
unwrap-returns none = λ e. cc e
unwrap-returns (some a) = λ e. cc e
