-- ===== src/Common/Arrays.antt =====
-- Writes and swaps in a list used as an array, read with a default `d`.
use mathlib.Core.List.{perm_middle, append-nil}
use mathlib.Core.List.Perm
use llmproxy.Common.{
  ℕ, zero, suc, ◌<◌, ◌≡◌, refl, List, [], ◌∷◌, ◌++◌, Perm, arith, length, get_or, set, length-set,
  ◌==◌, if◌then◌else◌,
}

module _ {ℓ} {A : Type ℓ} (d : A) where
  pub get_or-set :
      (a : List A) (i j : ℕ) (v : A)
      → i < length a
      → get_or (set a i v) j d ≡ (if i == j then v else get_or a j d)
  get_or-set [] i j v h = absurd (omega arith)
  get_or-set (x ∷ a) zero zero v h = refl
  get_or-set (x ∷ a) (suc i) (suc j) v h = ground (arith, get_or-set a i j v)
  get_or-set (x ∷ a) i j v h = ground arith

  -- A write trades the old entry for the new one.
  set-perm : (a : List A) (i : ℕ) (v : A) → i < length a → Perm (get_or a i d ∷ set a i v) (v ∷ a)
  set-perm (x ∷ rest) (suc i) v le =
      let tail = set-perm rest i v (omega arith) in
      Perm.trans (Perm.swap x _ _) (Perm.trans (Perm.cons x tail) (Perm.swap v x rest))
  set-perm (x ∷ rest) zero v le = Perm.swap v x rest
  set-perm [] i v le = absurd (omega arith)

  module _ (a : List A) (i j : ℕ) (hi : i < length a) (hj : j < length a) where
    -- The slice after `a[i], a[j] = a[j], a[i]`.
    abbrev pub swapped : List A
    swapped = set (set a i (get_or a j d)) j (get_or a i d)

    pub length-swapped : length swapped ≡ length a
    length-swapped = simp length-set

    pub get_or-swapped :
        (c : ℕ)
        → get_or swapped c d
          ≡ (if j == c then get_or a i d else if i == c then get_or a j d else get_or a c d)
    get_or-swapped c = rw (
      get_or-set (set a i (get_or a j d)) j c (get_or a i d) (rw length-set hj),
      get_or-set a i c (get_or a j d) hi,
    )

    pub swapped-perm : Perm swapped a
    swapped-perm =
        let b = set a i (get_or a j d) in
        let kept : get_or b j d ≡ get_or a j d = ground (arith, get_or-set a i j (get_or a j d)) in
        let second = rw kept at (set-perm b j (get_or a i d) (rw length-set hj)) in
        Perm.cons_inv (Perm.trans second (set-perm a i (get_or a j d) hi))

module _ {ℓ} {A : Type ℓ} where
  pub append_last-perm : (a : List A) (x : A) → Perm (a ++ x ∷ []) (x ∷ a)
  append_last-perm a x = rw (append-nil a) at (perm_middle {a = x} a [])
