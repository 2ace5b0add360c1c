-- ===== src/Prelude/Outcome.antt =====
-- What a run of C code comes to: a value, or behaviour that the language leaves undefined
-- (an access out of bounds, a signed overflow), or a loop that used up the model's fuel.

use mathlib.Core.Path.{◌≡◌, refl}
use mathlib.Core.Bool.{Bool, true, false}

pub data Outcome {ℓ} (A : Type ℓ) : Type ℓ where
  done : A → Outcome A
  fault : Outcome A
  out_of_fuel : Outcome A

infixl 5 ◌>>=◌ ◌>>◌
abbrev pub ◌>>=◌ {ℓ κ} : {A : Type ℓ} {B : Type κ} → Outcome A → (A → Outcome B) → Outcome B
done a >>= f = f a
fault >>= f = fault
out_of_fuel >>= f = out_of_fuel

-- Go on only where the access is in bounds.
abbrev pub check : Bool → Outcome (Unit {0})
check true = done tt
check false = fault

abbrev pub ◌>>◌ {ℓ} : {B : Type ℓ} → Outcome (Unit {0}) → Outcome B → Outcome B
m >> k = m >>= λ _. k

abbrev pub lift {ℓ κ} : {A : Type ℓ} {B : Type κ} → (A → B) → Outcome A → Outcome B
lift f (done a) = done (f a)
lift f fault = fault
lift f out_of_fuel = out_of_fuel

-- Two runs whose first steps agree, and whose results agree up to `h` from there on.
module _ {ℓ κ μ} {A : Type ℓ} {B : Type κ} {C : Type μ} (h : B → C) where
  pub bind-lift :
      (m : Outcome A) (f : A → Outcome C) (g : A → Outcome B)
      → ((a : A) → f a ≡ lift h (g a))
      → (m >>= f) ≡ lift h (m >>= g)
  bind-lift (done a) f g e = e a
  bind-lift fault f g e = refl
  bind-lift out_of_fuel f g e = refl

  pub lift-bind-lift {ν} :
      {A' : Type ν} (k : A → A') (m : Outcome A) (f : A' → Outcome C) (g : A → Outcome B)
      → ((a : A) → f (k a) ≡ lift h (g a))
      → (lift k m >>= f) ≡ lift h (m >>= g)
  lift-bind-lift k (done a) f g e = e a
  lift-bind-lift k fault f g e = refl
  lift-bind-lift k out_of_fuel f g e = refl

pub bind_assoc {ℓ κ μ} :
    {A : Type ℓ} {B : Type κ} {C : Type μ} (m : Outcome A) (f : A → Outcome B) (g : B → Outcome C)
    → (m >>= λ a. f a >>= g) ≡ (m >>= f >>= g)
bind_assoc (done a) f g = refl
bind_assoc fault f g = refl
bind_assoc out_of_fuel f g = refl

-- Inversion of a run that comes to a value.
pub >>=-eq-done {ℓ κ} :
    {A : Type ℓ} {B : Type κ} (m : Outcome A) (f : A → Outcome B) {b : B}
    → (m >>= f) ≡ done b
    → (a : A) × (m ≡ done a) × (f a ≡ done b)
>>=-eq-done (done a) f h = (a, refl, h)
>>=-eq-done fault f h = cc
>>=-eq-done out_of_fuel f h = cc

-- `lift-bind-lift` with what the first step came to.
pub lift-bind-lift_of {ℓ κ μ ν} :
    {A : Type ℓ} {B : Type κ} {C : Type μ} {A' : Type ν} (h : B → C) (k : A → A') (m : Outcome A)
    (f : A' → Outcome C) (g : A → Outcome B)
    → ((a : A) → m ≡ done a → f (k a) ≡ lift h (g a))
    → (lift k m >>= f) ≡ lift h (m >>= g)
lift-bind-lift_of h k (done a) f g e = e a refl
lift-bind-lift_of h k fault f g e = refl
lift-bind-lift_of h k out_of_fuel f g e = refl

pub bind-eq {ℓ κ} :
    {A : Type ℓ} {B : Type κ} (m : Outcome A) (f g : A → Outcome B)
    → ((a : A) → f a ≡ g a)
    → (m >>= f) ≡ (m >>= g)
bind-eq (done a) f g e = e a
bind-eq fault f g e = refl
bind-eq out_of_fuel f g e = refl

-- `bind-eq` with what the first step came to.
pub bind-eq_of {ℓ κ} :
    {A : Type ℓ} {B : Type κ} (m : Outcome A) (f g : A → Outcome B)
    → ((a : A) → m ≡ done a → f a ≡ g a)
    → (m >>= f) ≡ (m >>= g)
bind-eq_of (done a) f g e = e a refl
bind-eq_of fault f g e = refl
bind-eq_of out_of_fuel f g e = refl

-- Two runs with the same first step, whose results agree up to `h` and `h'`.
pub lift-eq_of {ℓ κ μ ν} :
    {A : Type ℓ} {B : Type κ} {B' : Type μ} {C : Type ν} (h : B → C) (h' : B' → C) (m : Outcome A)
    (f : A → Outcome B) (g : A → Outcome B')
    → ((a : A) → m ≡ done a → lift h (f a) ≡ lift h' (g a))
    → lift h (m >>= f) ≡ lift h' (m >>= g)
lift-eq_of h h' (done a) f g e = e a refl
lift-eq_of h h' fault f g e = refl
lift-eq_of h h' out_of_fuel f g e = refl
