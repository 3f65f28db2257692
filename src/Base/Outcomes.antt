-- ===== src/Base/Outcomes.antt =====
-- Results that may be missing: how they chain, and what is said of them.
use mathlib.Core.Bool.{Bool, true, false}
use mathlib.Core.Option.{Option, none, some}
use mathlib.Core.Path.{◌≡◌, refl, subst}
use rofl_fork.Base.Tests.{if◌then◌else◌, some_injective}
use native.Mathlib.Omega.{arith}

infixl 5 ◌>>=◌
abbrev pub ◌>>=◌ {ℓ κ} : {A : Type ℓ} {B : Type κ} → Option A → (A → Option B) → Option B
none >>= f = none
some a >>= f = f a

-- There is a result, and it has the property.
abbrev pub Gives {ℓ} : {A : Type ℓ} → (A → Type 0) → Option A → Type 0
Gives P none = false ≡ true
Gives P (some a) = P a

-- If there is a result, it has the property.
abbrev pub Allows {ℓ} : {A : Type ℓ} → (A → Type 0) → Option A → Type 0
Allows P none = true ≡ true
Allows P (some a) = P a

module _ {ℓ κ} {A : Type ℓ} {B : Type κ} where
  pub Gives-bind :
      (P : A → Type 0) (Q : B → Type 0) (o : Option A) (f : A → Option B)
      → Gives P o
      → ((a : A) → P a → Gives Q (f a))
      → Gives Q (o >>= f)
  Gives-bind P Q none f g h = ground arith
  Gives-bind P Q (some a) f g h = h a g

  pub Allows-bind :
      (P : A → Type 0) (Q : B → Type 0) (o : Option A) (f : A → Option B)
      → Allows P o
      → ((a : A) → P a → Allows Q (f a))
      → Allows Q (o >>= f)
  Allows-bind P Q none f g h = refl
  Allows-bind P Q (some a) f g h = h a g

module _ {ℓ} {A : Type ℓ} where
  pub Allows-map :
      (P Q : A → Type 0) (o : Option A) → Allows P o → ((a : A) → P a → Q a) → Allows Q o
  Allows-map P Q none g h = refl
  Allows-map P Q (some a) g h = h a g

  pub Gives-map : (P Q : A → Type 0) (o : Option A) → Gives P o → ((a : A) → P a → Q a) → Gives Q o
  Gives-map P Q none g h = g
  Gives-map P Q (some a) g h = h a g

  pub Allows-unless :
      (P : A → Type 0) (b : Bool) (o : Option A)
      → (b ≡ false → Allows P o)
      → Allows P (if b then none else o)
  Allows-unless P true o h = refl
  Allows-unless P false o h = h refl

  pub Allows-if :
      (P : A → Type 0) (b : Bool) (o p : Option A)
      → Allows P o
      → Allows P p
      → Allows P (if b then o else p)
  Allows-if P true o p g h = g
  Allows-if P false o p g h = h

  -- What holds of every value holds of the result.
  pub Allows-all : (P : A → Type 0) (o : Option A) → ((a : A) → P a) → Allows P o
  Allows-all P none h = refl
  Allows-all P (some a) h = h a

  pub Allows-always : (o : Option A) → Allows (λ a. true ≡ true) o
  Allows-always o = Allows-all (λ a. true ≡ true) o (λ a. refl)

  pub Allows-some : (P : A → Type 0) (o : Option A) (a : A) → Allows P o → o ≡ some a → P a
  Allows-some P none a g e = ground arith
  Allows-some P (some b) a g e = subst P (some_injective e) g

  pub Gives-some : (P : A → Type 0) (o : Option A) → Gives P o → (a : A) × (o ≡ some a) × P a
  Gives-some P none g = ground arith
  Gives-some P (some a) g = (a, refl, g)
