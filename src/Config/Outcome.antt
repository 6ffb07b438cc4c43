-- ===== src/Config/Outcome.antt =====
-- How a run of the parser of app/hao_config.cpp ends.
use hao_server.Base.{◌≡◌, ◌≢◌, refl, Bool, true, false, if◌then◌else◌}

-- A value; an exception; at the end of the text, a loop that goes on until an allocation fails; and, in the model alone,
-- fuel that runs out.
pub data Outcome {ℓ} (A : Type ℓ) : Type ℓ where
  ok : A → Outcome A
  thrown unending out_of_fuel : Outcome A

infixl 5 ◌>>=◌
abbrev pub ◌>>=◌ {ℓ κ} : {A : Type ℓ} {B : Type κ} → Outcome A → (A → Outcome B) → Outcome B
ok a >>= f = f a
thrown >>= f = thrown
unending >>= f = unending
out_of_fuel >>= f = out_of_fuel

-- The fuel was enough, and a value has the property.
pub data Settles {ℓ κ} {A : Type ℓ} (P : A → Type κ) : Outcome A → Type (ℓ ⊔ κ) where
  yields : {a : A} → P a → Settles P (ok a)
  throws : Settles P thrown
  hangs : Settles P unending

module _ {ℓ κ} {A : Type ℓ} {P : A → Type κ} where
  pub Settles-out_of_fuel : {r : Outcome A} → Settles P r → r ≢ out_of_fuel
  Settles-out_of_fuel (yields h) = cc
  Settles-out_of_fuel throws = cc
  Settles-out_of_fuel hangs = cc

  pub Settles-if :
      (b : Bool) {x y : Outcome A}
      → (b ≡ true → Settles P x)
      → (b ≡ false → Settles P y)
      → Settles P (if b then x else y)
  Settles-if true p q = p refl
  Settles-if false p q = q refl

  pub Settles-bind {ℓ' κ'} :
      {B : Type ℓ'} {Q : B → Type κ'} {r : Outcome A} {f : A → Outcome B}
      → Settles P r
      → ((a : A) → P a → Settles Q (f a))
      → Settles Q (r >>= f)
  Settles-bind (yields {a} h) k = k a h
  Settles-bind throws k = throws
  Settles-bind hangs k = hangs

  pub Settles-weaken {κ'} :
      {Q : A → Type κ'} {r : Outcome A} → Settles P r → ((a : A) → P a → Q a) → Settles Q r
  Settles-weaken (yields {a} h) k = yields (k a h)
  Settles-weaken throws k = throws
  Settles-weaken hangs k = hangs
