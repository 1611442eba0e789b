-- ===== src/Base/Fault.antt =====
-- Code that can stop: `none` is a failed `assert`, an access outside a buffer or a loop that has not
-- ended within its fuel.
use mathlib.Core.Bool.{Bool, true, false}
use mathlib.Core.Option.{Option, none, some}
use mathlib.Core.Path.{◌≡◌, subst}

infixl 5 ◌>>=◌ ◌>>◌
abbrev pub ◌>>=◌ {ℓ κ} : {A : Type ℓ} {B : Type κ} → Option A → (A → Option B) → Option B
none >>= f = none
some a >>= f = f a

abbrev pub ◌>>◌ {ℓ} : {B : Type ℓ} → Option (Unit {0}) → Option B → Option B
m >> k = m >>= λ _. k

abbrev pub assert : Bool → Option (Unit {0})
assert true = some tt
assert false = none

-- A property of the result, where there is one.
abbrev pub OnSome {ℓ κ} : {A : Type ℓ} → (A → Type κ) → Option A → Type κ
OnSome P none = Unit
OnSome P (some a) = P a

pub OnSome-some {ℓ κ} :
    {A : Type ℓ} (P : A → Type κ) {o : Option A} {a : A} → OnSome P o → o ≡ some a → P a
OnSome-some P h e = subst (OnSome P) e h

-- A step after a step: `elim x [ none ↦ none | some a ↦ f a ]`.
pub OnSome-elim {ℓ κ λ₁ λ₂} :
    {A : Type ℓ} {B : Type κ} (P : A → Type λ₁) (Q : B → Type λ₂) (x : Option A) (f : A → Option B)
    → OnSome P x
    → ((a : A) → P a → OnSome Q (f a))
    → OnSome Q (elim x as (λ _. Option B) [ none ↦ none | some a ↦ f a ])
OnSome-elim P Q none f h k = tt
OnSome-elim P Q (some a) f h k = k a h
