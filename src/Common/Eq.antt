-- ===== src/Common/Eq.antt =====
-- Types with a Boolean equality, and Go's maps as association lists over such keys.
use Prim.Native.Char.{code}
use Prim.Native.String.{String}
use text.Mathlib.Text.{◌==◌ as str_eq}
use text.Mathlib.TextEquality.{eq_iff}
use llmproxy.Common.{
  ℕ, ◌≡◌, ◌↔◌, refl, Bool, true, false, ◌&&◌, List, [], ◌∷◌, Option, none, some, arith, ◌==◌,
  if◌then◌else◌,
}

pub record Eq {ℓ} (A : Type ℓ) : Type ℓ where
  pub beq : A → A → Bool
  pub beq_iff : (x y : A) → (beq x y ≡ true) ↔ (x ≡ y)

-- Byte strings, as Go's `string` and `[]byte` where the program builds them.
abbrev pub Bytes : Type 0
Bytes = List ℕ

abbrev pub bytes_eq : Bytes → Bytes → Bool
bytes_eq [] [] = true
bytes_eq (a ∷ x) (b ∷ y) = (a == b) && bytes_eq x y
bytes_eq _ _ = false

pub bytes_eq_sound : (x y : Bytes) → bytes_eq x y ≡ true → x ≡ y
bytes_eq_sound [] [] h = refl
bytes_eq_sound (a ∷ x) (b ∷ y) h = ground (arith, bytes_eq_sound x y)
bytes_eq_sound [] (b ∷ y) h = cc
bytes_eq_sound (a ∷ x) [] h = cc

pub bytes_eq_refl : (x : Bytes) → bytes_eq x x ≡ true
bytes_eq_refl [] = refl
bytes_eq_refl (a ∷ x) = ground (arith, bytes_eq_refl x)

pub bytes_eq_iff : (x y : Bytes) → (bytes_eq x y ≡ true) ↔ (x ≡ y)
bytes_eq_iff x y = (bytes_eq_sound x y, λ e. rw e (bytes_eq_refl y))

instance abbrev pub bytes_instance : Eq Bytes
bytes_instance = record { beq = bytes_eq; beq_iff = bytes_eq_iff }

instance abbrev pub string_instance : Eq String
string_instance = record { beq = str_eq; beq_iff = eq_iff }

-- The bytes of an ASCII text.
abbrev pub codes : String → Bytes
codes String.[] = []
codes (String.◌∷◌ c s) = code c ∷ codes s

abbrev pub Dict {ℓ} : Type 0 → Type ℓ → Type ℓ
Dict K V = List (K × V)

module _ {ℓ} {K : Type 0} {V : Type ℓ} ⦃e : Eq K⦄ where
  unfoldable pub lookup : K → Dict K V → Option V
  lookup k [] = none
  lookup k ((j, v) ∷ m) = if e.beq j k then some v else lookup k m

  unfoldable pub insert : K → V → Dict K V → Dict K V
  insert k v [] = (k, v) ∷ []
  insert k v ((j, w) ∷ m) = if e.beq j k then (k, v) ∷ m else (j, w) ∷ insert k v m

  unfoldable pub delete : K → Dict K V → Dict K V
  delete k [] = []
  delete k ((j, w) ∷ m) = if e.beq j k then delete k m else (j, w) ∷ delete k m

  pub lookup-insert :
      (k j : K) (v : V) (m : Dict K V)
      → lookup j (insert k v m) ≡ (if e.beq k j then some v else lookup j m)
  unfolding lookup insert
  lookup-insert k j v [] = refl
  lookup-insert k j v ((i, w) ∷ m) =
      ground (arith, e.beq_iff k j, e.beq_iff i k, e.beq_iff i j, lookup-insert k j v m)

  pub lookup-delete :
      (k j : K) (m : Dict K V) → lookup j (delete k m) ≡ (if e.beq k j then none else lookup j m)
  unfolding lookup delete
  lookup-delete k j [] = ground arith
  lookup-delete k j ((i, w) ∷ m) =
      ground (arith, e.beq_iff k j, e.beq_iff i k, e.beq_iff i j, lookup-delete k j m)

pub beq_refl : {K : Type 0} ⦃e : Eq K⦄ (k : K) → e.beq k k ≡ true
beq_refl ⦃e⦄ k = (e.beq_iff k k).1 refl
