-- ===== src/Heap/Order.antt =====
-- The heap order below a bound `n`, for entries compared by a strict weak order.
use mathlib.Core.List.Perm
use llmproxy.Common.{
  ℕ, zero, suc, ◌≤◌, ◌<◌, ◌≡◌, refl, Bool, true, false, List, some, Perm, arith, length, get_elem?,
  get_or, get_elem?-get_or, lt_of_get_elem?,
}
use llmproxy.Common.Arrays.{swapped, get_or-swapped, swapped-perm}
use llmproxy.Heap.{parent, swap, less_at}

-- What `Less` has to satisfy: it is asymmetric, and "not below" is transitive.
pub record StrictWeak {ℓ} {A : Type ℓ} (less : A → A → Bool) : Type ℓ where
  pub asym : (x y : A) → less x y ≡ true → less y x ≡ false
  pub not_trans : (x y z : A) → less y x ≡ false → less z y ≡ false → less z x ≡ false
  pub irrefl : (x : A) → less x x ≡ false

-- No entry comes before its parent.
abbrev pub IsHeap {ℓ} : {A : Type ℓ} → (A → A → Bool) → List A → Type ℓ
IsHeap {A} less a =
    (c : ℕ) (x y : A) → get_elem? a (parent c) ≡ some x → get_elem? a c ≡ some y → less y x ≡ false

module _ {ℓ} {A : Type ℓ} (less : A → A → Bool) (d : A) where
  -- `a[c]` does not come before `a[p]`.
  abbrev pub Below : List A → ℕ → ℕ → Type 0
  Below a p c = less (get_or a c d) (get_or a p d) ≡ false

  abbrev pub IsHeapBelow : ℕ → List A → Type 0
  IsHeapBelow n a = (c : ℕ) → 0 < c → c < n → Below a (parent c) c

  -- What a sift loop below `n` leaves: the heap order, the same entries, and the rest of the slice.
  pub record Sifted (n : ℕ) (a b : List A) : Type ℓ where
    pub ordered : IsHeapBelow n b
    pub same : Perm b a
    pub rest : (c : ℕ) → n ≤ c → get_or b c d ≡ get_or a c d

module _ {ℓ} {A : Type ℓ} (d : A) where
  pub less_at_lem :
      (less : A → A → Bool) (a : List A) (i j : ℕ)
      → i < length a
      → j < length a
      → less_at less a i j ≡ some (less (get_or a i d) (get_or a j d))
  unfolding less_at
  less_at_lem less a i j hi hj = rw (get_elem?-get_or a i d hi, get_elem?-get_or a j d hj)

  pub swap_lem :
      (a : List A) (i j : ℕ) (hi : i < length a) (hj : j < length a)
      → swap a i j ≡ some (swapped d a i j hi hj)
  unfolding swap
  swap_lem a i j hi hj = rw (get_elem?-get_or a i d hi, get_elem?-get_or a j d hj)

module _ {ℓ} {A : Type ℓ} {less : A → A → Bool} (d : A) where
  -- What one more swap below `n` leaves, after the loop went on from it.
  pub Sifted-swapped :
      {n : ℕ} {a b : List A} (i j : ℕ) (hi : i < length a) (hj : j < length a)
      → i < n
      → j < n
      → Sifted less d n (swapped d a i j hi hj) b
      → Sifted less d n a b
  Sifted-swapped {a = a} i j hi hj p q s = record {
    ordered = s.ordered;
    same = Perm.trans s.same (swapped-perm d a i j hi hj);
    rest = λ c h. ground (arith, s.rest c h, get_or-swapped d a i j hi hj c);
  }

  pub Sifted-refl : {n : ℕ} {a : List A} → IsHeapBelow less d n a → Sifted less d n a a
  Sifted-refl h = record { ordered = h; same = Perm.rfl; rest = λ c p. refl }

module _ {ℓ} {A : Type ℓ} {less : A → A → Bool} (sw : StrictWeak less) (d : A) where
  pub IsHeap-IsHeapBelow :
      (a : List A) (n : ℕ) → n ≤ length a → IsHeap less a → IsHeapBelow less d n a
  IsHeap-IsHeapBelow a n le h c p q =
      h c _ _ (get_elem?-get_or a (parent c) d (omega arith)) (get_elem?-get_or a c d (omega arith))

  pub IsHeapBelow-IsHeap : (a : List A) → IsHeapBelow less d (length a) a → IsHeap less a
  IsHeapBelow-IsHeap a h zero x y ex ey = ground (arith, sw.irrefl x)
  IsHeapBelow-IsHeap a h (suc c) x y ex ey = ground (
    arith,
    h (suc c),
    lt_of_get_elem? a (suc c) ey,
    get_elem?-get_or a (suc c) d,
    get_elem?-get_or a (parent (suc c)) d,
  )

  root-Below_fuel :
      (k n : ℕ) (a : List A) (c : ℕ) → c < k → IsHeapBelow less d n a → c < n → Below less d a 0 c
  root-Below_fuel zero n a c f h q = absurd (omega arith)
  root-Below_fuel (suc k) n a zero f h q = sw.irrefl _
  root-Below_fuel (suc k) n a (suc c) f h q =
      sw.not_trans _ _ _ (root-Below_fuel k n a (parent (suc c)) (omega arith) h (omega arith))
        (h (suc c) (omega arith) q)

  -- Nothing comes before the root.
  pub root-Below :
      (n : ℕ) (a : List A) (c : ℕ) → IsHeapBelow less d n a → c < n → Below less d a 0 c
  root-Below n a c h q = root-Below_fuel (suc c) n a c (omega arith) h q
