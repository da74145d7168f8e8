-- ===== src/Common/Returns.antt =====
-- Code that may stop without a result: a panic of the run time, or fuel that ran out, is `none`.
use mathlib.Core.Option.{Option, none, some, some-injective}
use mathlib.Core.Bool.{Bool, true, false}
use mathlib.Core.Path.{◌≡◌, refl, subst}
use llmproxy.Common.Tests.{if◌then◌else◌}

infixl 5 ◌>>=◌
abbrev pub ◌>>=◌ {ℓ κ} : {A : Type ℓ} {B : Type κ} → Option A → (A → Option B) → Option B
none >>= f = none
some a >>= f = f a

-- The code has a result, and the result satisfies `P`.
pub data Returns {ℓ κ} {A : Type ℓ} (P : A → Type κ) : Option A → Type (ℓ ⊔ κ) where
  returns : {a : A} → P a → Returns P (some a)

pub Returns-if {ℓ κ} :
    {A : Type ℓ} {P : A → Type κ} {yes no : Option A} (test : Bool)
    → (test ≡ true → Returns P yes)
    → (test ≡ false → Returns P no)
    → Returns P (if test then yes else no)
Returns-if false _ on_no = on_no refl
Returns-if true on_yes _ = on_yes refl

module _ {ℓ κ} {A : Type ℓ} {P : A → Type κ} where
  pub Returns-bind {ℓ' κ'} :
      {m : Option A} {B : Type ℓ'} {f : A → Option B} {Q : B → Type κ'}
      → Returns P m
      → ((a : A) → P a → Returns Q (f a))
      → Returns Q (m >>= f)
  Returns-bind (returns p) k = k _ p

  pub Returns-weaken {κ'} :
      {Q : A → Type κ'} {m : Option A} → Returns P m → ((a : A) → P a → Q a) → Returns Q m
  Returns-weaken (returns p) k = returns (k _ p)

  pub Returns-value : {m : Option A} → Returns P m → (a : A) × (m ≡ some a) × P a
  Returns-value (returns p) = (_, refl, p)

  pub Returns-at : {m : Option A} {a : A} → Returns P m → m ≡ some a → P a
  Returns-at (returns p) e = subst P (some-injective _ _ e) p

-- If the code has a result, the result satisfies `P`: for a step that may not be possible.
abbrev pub Allows {ℓ κ} : {A : Type ℓ} → (A → Type κ) → Option A → Type κ
Allows P none = Unit
Allows P (some a) = P a

pub Allows-at {ℓ κ} :
    {A : Type ℓ} (P : A → Type κ) {m : Option A} {a : A} → Allows P m → m ≡ some a → P a
Allows-at P h e = subst (Allows P) e h
