-- ===== src/Common/Lists.antt =====
-- Lists measured and indexed by native numbers, under the library's names.
use Prim.Native.Nat.{ℕ, zero, suc, ◌+◌, ◌≤◌, ◌<◌}
use mathlib.Core.List.{List, [], ◌∷◌, ◌++◌, append-nil, append_assoc, Permᴰ, Perm}
use mathlib.Core.Bool.{Bool, false}
use mathlib.Core.HLevel.{×_prop, Unit-prop}
use mathlib.Core.Logic.{∥∥₁_elim}
use mathlib.Core.Option.{Option, none, some}
use mathlib.Core.Path.{◌≡◌, refl, ap, ◌∙◌}
use native.Mathlib.Nat.{ℕ_set}
use native.Mathlib.Omega.{arith}
use llmproxy.Common.Tests.{if◌then◌else◌}

-- A predicate that holds of every entry.
abbrev pub All {ℓ κ} : {A : Type ℓ} → (A → Type κ) → List A → Type κ
All P [] = Unit
All P (x ∷ xs) = P x × All P xs

module _ {ℓ} {A : Type ℓ} where
  abbrev pub length : List A → ℕ
  length [] = 0
  length (x ∷ xs) = suc (length xs)

  abbrev pub get_elem? : List A → ℕ → Option A
  get_elem? [] i = none
  get_elem? (x ∷ xs) zero = some x
  get_elem? (x ∷ xs) (suc i) = get_elem? xs i

  abbrev pub get_or : List A → ℕ → A → A
  get_or [] i d = d
  get_or (x ∷ xs) zero d = x
  get_or (x ∷ xs) (suc i) d = get_or xs i d

  -- A write out of bounds changes nothing.
  abbrev pub set : List A → ℕ → A → List A
  set [] i v = []
  set (x ∷ xs) zero v = v ∷ xs
  set (x ∷ xs) (suc i) v = x ∷ set xs i v

  abbrev pub take : ℕ → List A → List A
  take zero xs = []
  take (suc n) [] = []
  take (suc n) (x ∷ xs) = x ∷ take n xs

  abbrev pub drop : ℕ → List A → List A
  drop zero xs = xs
  drop (suc n) [] = []
  drop (suc n) (x ∷ xs) = drop n xs

  pub length-append : (xs ys : List A) → length (xs ++ ys) ≡ length xs + length ys
  length-append [] ys = omega arith
  length-append (x ∷ xs) ys = omega (arith, length-append xs ys)

  pub length-set : (xs : List A) (i : ℕ) (v : A) → length (set xs i v) ≡ length xs
  length-set [] i v = refl
  length-set (x ∷ xs) zero v = refl
  length-set (x ∷ xs) (suc i) v = ap suc (length-set xs i v)

  pub length-take : (n : ℕ) (xs : List A) → n ≤ length xs → length (take n xs) ≡ n
  length-take zero xs h = refl
  length-take (suc n) [] h = absurd (omega arith)
  length-take (suc n) (x ∷ xs) h = ap suc (length-take n xs (omega arith))

  Permᴰ-length : {xs ys : List A} → Permᴰ xs ys → length xs ≡ length ys
  Permᴰ-length (Permᴰ.trans first second) = Permᴰ-length first ∙ Permᴰ-length second
  Permᴰ-length (Permᴰ.swap _ _) = refl
  Permᴰ-length (Permᴰ.cons _ rest) = ap suc (Permᴰ-length rest)
  Permᴰ-length Permᴰ.nil = refl

  pub length-perm : {xs ys : List A} → Perm xs ys → length xs ≡ length ys
  length-perm p = ∥∥₁_elim p (ℕ_set _ _) Permᴰ-length

  pub get_elem?-get_or :
      (xs : List A) (i : ℕ) (d : A) → i < length xs → get_elem? xs i ≡ some (get_or xs i d)
  get_elem?-get_or [] i d h = absurd (omega arith)
  get_elem?-get_or (x ∷ xs) zero d h = refl
  get_elem?-get_or (x ∷ xs) (suc i) d h = get_elem?-get_or xs i d (omega arith)

  pub lt_of_get_elem? : (xs : List A) (i : ℕ) {x : A} → get_elem? xs i ≡ some x → i < length xs
  lt_of_get_elem? [] i e = cc
  lt_of_get_elem? (x ∷ xs) zero e = omega arith
  lt_of_get_elem? (x ∷ xs) (suc i) e = omega (arith, lt_of_get_elem? xs i e)

  pub get_or-append :
      (xs ys : List A) (i : ℕ) (d : A) → i < length xs → get_or (xs ++ ys) i d ≡ get_or xs i d
  get_or-append [] ys i d h = absurd (omega arith)
  get_or-append (x ∷ xs) ys zero d h = refl
  get_or-append (x ∷ xs) ys (suc i) d h = get_or-append xs ys i d (omega arith)

  pub get_or-take :
      (n : ℕ) (xs : List A) (i : ℕ) (d : A) → i < n → get_or (take n xs) i d ≡ get_or xs i d
  get_or-take zero xs i d h = absurd (omega arith)
  get_or-take (suc n) [] i d h = refl
  get_or-take (suc n) (x ∷ xs) zero d h = refl
  get_or-take (suc n) (x ∷ xs) (suc i) d h = get_or-take n xs i d (omega arith)

  pub take-append_last :
      (n : ℕ) (xs : List A) (d : A) → length xs ≡ suc n → take n xs ++ get_or xs n d ∷ [] ≡ xs
  take-append_last zero (x ∷ []) d h = refl
  take-append_last (suc n) (x ∷ xs) d h = ap (◌∷◌ x) (take-append_last n xs d (omega arith))
  take-append_last n xs d h = absurd (omega arith)

module _ {ℓ κ} {A : Type ℓ} (P : A → Type κ) where
  All-prop : ((x : A) → IsProp (P x)) → (xs : List A) → IsProp (All P xs)
  All-prop h [] = Unit-prop
  All-prop h (x ∷ xs) = ×_prop (h x) (All-prop h xs)

  Permᴰ-All : {xs ys : List A} → Permᴰ xs ys → All P xs → All P ys
  Permᴰ-All Permᴰ.nil a = a
  Permᴰ-All (Permᴰ.cons e p) a = (rw e at a.0, Permᴰ-All p a.1)
  Permᴰ-All (Permᴰ.swap e f) a = (rw f at a.1.0, (rw e at a.0, a.1.1))
  Permᴰ-All (Permᴰ.trans p q) a = Permᴰ-All q (Permᴰ-All p a)

  pub All-perm : ((x : A) → IsProp (P x)) → {xs ys : List A} → Perm xs ys → All P xs → All P ys
  All-perm h p a = ∥∥₁_elim p (All-prop h _) (λ d. Permᴰ-All d a)

  pub All-append : (xs ys : List A) → All P xs → All P ys → All P (xs ++ ys)
  All-append [] ys a b = b
  All-append (x ∷ xs) ys a b = (a.0, All-append xs ys a.1 b)

pub length-eq-zero {ℓ} : {A : Type ℓ} (xs : List A) → length xs ≡ 0 → xs ≡ []
length-eq-zero [] h = refl
length-eq-zero (x ∷ xs) h = absurd (omega arith)

-- The number of entries that pass a test.
abbrev pub count {ℓ} : {A : Type ℓ} → (A → Bool) → List A → ℕ
count p [] = 0
count p (x ∷ xs) = (if p x then 1 else 0) + count p xs

pub count-append {ℓ} :
    {A : Type ℓ} (p : A → Bool) (xs ys : List A) → count p (xs ++ ys) ≡ count p xs + count p ys
count-append p [] ys = omega arith
count-append p (x ∷ xs) ys = omega (arith, count-append p xs ys)

abbrev pub concat {ℓ} : {A : Type ℓ} → List (List A) → List A
concat [] = []
concat (xs ∷ xss) = xs ++ concat xss

pub concat-append_last {ℓ} :
    {A : Type ℓ} (xss : List (List A)) (ys : List A) → concat (xss ++ ys ∷ []) ≡ concat xss ++ ys
concat-append_last [] ys = append-nil ys
concat-append_last (xs ∷ xss) ys =
    rw (concat-append_last xss ys, append_assoc xs (concat xss) ys) refl

Permᴰ-count {ℓ} :
    {A : Type ℓ} (p : A → Bool) {xs ys : List A} → Permᴰ xs ys → count p xs ≡ count p ys
Permᴰ-count p (Permᴰ.trans first second) = Permᴰ-count p first ∙ Permᴰ-count p second
Permᴰ-count p (Permᴰ.swap {l = l} e f) = rw (e, f) (omega arith)
Permᴰ-count p (Permᴰ.cons e rest) = rw (e, Permᴰ-count p rest) refl
Permᴰ-count p Permᴰ.nil = refl

pub count-perm {ℓ} :
    {A : Type ℓ} (p : A → Bool) {xs ys : List A} → Perm xs ys → count p xs ≡ count p ys
count-perm p same = ∥∥₁_elim same (ℕ_set _ _) (Permᴰ-count p)

-- Entries that are all taken out of a test do not count.
pub count-none {ℓ} :
    {A : Type ℓ} (p : A → Bool) (xs : List A) → All (λ x. p x ≡ false) xs → count p xs ≡ 0
count-none p [] h = refl
count-none p (x ∷ xs) h = rw h.0 (omega (arith, count-none p xs h.1))
