-- ===== src/Prelude/Outcome.antt =====
-- How a piece of the program ends. `fault` is an abnormal end: a failed `assert`, an exception of
-- `std::vector::at`, a null pointer or a read past the end of an array. `out_of_fuel` has no
-- counterpart in the program: it says that a model of a loop was given too little fuel.
use drone_server.Prelude.{◌≡◌, refl, subst, ◌≢◌, Bool, true, false, if◌then◌else◌}

pub data Outcome {ℓ} (A : Type ℓ) : Type ℓ where
  ok : A → Outcome A
  fault : Outcome A
  out_of_fuel : Outcome A

infixl 5 ◌>>=◌
abbrev pub ◌>>=◌ {ℓ κ} : {A : Type ℓ} {B : Type κ} → Outcome A → (A → Outcome B) → Outcome B
ok a >>= f = f a
fault >>= f = fault
out_of_fuel >>= f = out_of_fuel

-- The piece did not run out of fuel, and `P` holds of its result if it ended normally.
abbrev pub Ensures {ℓ} : {A : Type ℓ} → (A → Type 0) → Outcome A → Type 0
Ensures P (ok a) = P a
Ensures P fault = Unit {0}
Ensures P out_of_fuel = ⊥

pub Ensures-bind {ℓ κ} :
    {A : Type ℓ} {B : Type κ} (P : A → Type 0) (Q : B → Type 0) (r : Outcome A) (f : A → Outcome B)
    → Ensures P r
    → ((a : A) → P a → Ensures Q (f a))
    → Ensures Q (r >>= f)
Ensures-bind P Q (ok a) f h k = k a h
Ensures-bind P Q fault f h k = tt
Ensures-bind P Q out_of_fuel f h k = h

pub Ensures-if {ℓ} :
    {A : Type ℓ} (P : A → Type 0) (b : Bool) (x y : Outcome A)
    → (b ≡ true → Ensures P x)
    → (b ≡ false → Ensures P y)
    → Ensures P (if b then x else y)
Ensures-if P true x y h k = h refl
Ensures-if P false x y h k = k refl

pub Ensures-ne-out_of_fuel {ℓ} :
    {A : Type ℓ} (P : A → Type 0) (r : Outcome A) → Ensures P r → r ≢ out_of_fuel
Ensures-ne-out_of_fuel P (ok a) h e = cc
Ensures-ne-out_of_fuel P fault h e = cc
Ensures-ne-out_of_fuel P out_of_fuel h e = h

-- The piece ended normally, and `P` holds of its result.
abbrev pub Yields {ℓ} : {A : Type ℓ} → (A → Type 0) → Outcome A → Type 0
Yields P (ok a) = P a
Yields P fault = ⊥
Yields P out_of_fuel = ⊥

pub Yields-bind {ℓ κ} :
    {A : Type ℓ} {B : Type κ} (P : A → Type 0) (Q : B → Type 0) (r : Outcome A) (f : A → Outcome B)
    → Yields P r
    → ((a : A) → P a → Yields Q (f a))
    → Yields Q (r >>= f)
Yields-bind P Q (ok a) f h k = k a h
Yields-bind P Q fault f h k = absurd h
Yields-bind P Q out_of_fuel f h k = absurd h

pub Yields-imp {ℓ} :
    {A : Type ℓ} (P Q : A → Type 0) (r : Outcome A)
    → Yields P r
    → ((a : A) → P a → Q a)
    → Yields Q r
Yields-imp P Q (ok a) h k = k a h
Yields-imp P Q fault h k = h
Yields-imp P Q out_of_fuel h k = h

pub Ensures-Yields {ℓ} : {A : Type ℓ} (P : A → Type 0) (r : Outcome A) → Yields P r → Ensures P r
Ensures-Yields P (ok a) h = h
Ensures-Yields P fault h = tt
Ensures-Yields P out_of_fuel h = h

-- If the piece ends normally, `P` holds of its result.
abbrev pub Permits {ℓ} : {A : Type ℓ} → (A → Type 0) → Outcome A → Type 0
Permits P (ok a) = P a
Permits P fault = Unit {0}
Permits P out_of_fuel = Unit {0}

pub Permits-bind {ℓ κ} :
    {A : Type ℓ} {B : Type κ} (P : A → Type 0) (Q : B → Type 0) (r : Outcome A) (f : A → Outcome B)
    → Permits P r
    → ((a : A) → P a → Permits Q (f a))
    → Permits Q (r >>= f)
Permits-bind P Q (ok a) f h k = k a h
Permits-bind P Q fault f h k = tt
Permits-bind P Q out_of_fuel f h k = tt

-- What is bound first does not matter to the rest.
pub Permits-after {ℓ κ} :
    {A : Type ℓ} {B : Type κ} (Q : B → Type 0) (r : Outcome A) (f : A → Outcome B)
    → ((a : A) → Permits Q (f a))
    → Permits Q (r >>= f)
Permits-after Q (ok a) f k = k a
Permits-after Q fault f k = tt
Permits-after Q out_of_fuel f k = tt

pub Permits-if {ℓ} :
    {A : Type ℓ} (P : A → Type 0) (b : Bool) (x y : Outcome A)
    → (b ≡ true → Permits P x)
    → (b ≡ false → Permits P y)
    → Permits P (if b then x else y)
Permits-if P true x y h k = h refl
Permits-if P false x y h k = k refl

pub Permits-imp {ℓ} :
    {A : Type ℓ} (P Q : A → Type 0) (r : Outcome A)
    → Permits P r
    → ((a : A) → P a → Q a)
    → Permits Q r
Permits-imp P Q (ok a) h k = k a h
Permits-imp P Q fault h k = tt
Permits-imp P Q out_of_fuel h k = tt

pub Permits-Yields {ℓ} : {A : Type ℓ} (P : A → Type 0) (r : Outcome A) → Yields P r → Permits P r
Permits-Yields P (ok a) h = h
Permits-Yields P fault h = tt
Permits-Yields P out_of_fuel h = tt

pub Permits-both {ℓ} :
    {A : Type ℓ} (P Q : A → Type 0) (r : Outcome A)
    → Permits P r
    → Permits Q r
    → Permits (λ a. P a × Q a) r
Permits-both P Q (ok a) h k = (h, k)
Permits-both P Q fault h k = tt
Permits-both P Q out_of_fuel h k = tt

-- What a piece permits, and what it gave.
pub Permits-given {ℓ} :
    {A : Type ℓ} (P : A → Type 0) (r : Outcome A) (a : A) → r ≡ ok a → Permits P r → P a
Permits-given P r a e h = subst (Permits P) e h

-- A piece that ends normally has what it permits.
pub Yields-Permits {ℓ} :
    {A : Type ℓ} (P : A → Type 0) (r : Outcome A)
    → Yields (λ a. Unit {0}) r
    → Permits P r
    → Yields P r
Yields-Permits P (ok a) h k = k
Yields-Permits P fault h k = h
Yields-Permits P out_of_fuel h k = h
