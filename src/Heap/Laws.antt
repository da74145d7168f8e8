-- ===== src/Heap/Laws.antt =====
-- `Push`, `Pop` and `Remove` of `container/heap` keep the heap order and the entries.
use mathlib.Core.List.Perm
use llmproxy.Common.{
  ℕ, suc, ◌-◌, ◌≤◌, ◌<◌, ◌≡◌, ◌≢◌, refl, ◌∙◌, Bool, true, false, List, [], ◌∷◌, ◌++◌, Option, some,
  Perm, arith, All, length, get_elem?, get_or, take, length-append, length-take, length-perm,
  get_elem?-get_or, get_or-append, get_or-take, take-append_last, ◌==◌, Bool-cases, if◌then◌else◌,
  inl, inr,
}
use llmproxy.Common.Returns.{◌>>=◌, Returns, returns, Returns-bind, Returns-weaken, Returns-if}
use llmproxy.Common.Arrays.{swapped, length-swapped, get_or-swapped, swapped-perm, append_last-perm}
use llmproxy.Heap.{parent, up, down, pop_last, push, pop, remove}
use llmproxy.Heap.Order.{
  StrictWeak, IsHeap, IsHeapBelow, Below, Sifted, swap_lem, IsHeap-IsHeapBelow, IsHeapBelow-IsHeap,
  root-Below,
}
use llmproxy.Heap.Up.{up_restores}
use llmproxy.Heap.Down.{down_restores, down_settled}

module _ {ℓ} {A : Type ℓ} {less : A → A → Bool} (sw : StrictWeak less) where
  -- A heap of exactly the entries `a`.
  abbrev pub HeapOf : List A → List A → Type ℓ
  HeapOf a b = IsHeap less b × Perm b a

  abbrev pub Extracts : List A → A × List A → Type ℓ
  Extracts a r = IsHeap less r.1 × Perm (r.0 ∷ r.1) a

  All-of_below :
      (a : List A) (x d : A)
      → ((c : ℕ) → c < length a → less (get_or a c d) x ≡ false)
      → All (λ y. less y x ≡ false) a
  All-of_below [] x d h = tt
  All-of_below (y ∷ a) x d h =
      (h 0 (omega arith), All-of_below a x d (λ c p. h (suc c) (omega arith)))

  -- `push` adds exactly the entry.
  pub push_correct : (a : List A) (x : A) → IsHeap less a → Returns (HeapOf (x ∷ a)) (push less a x)
  unfolding push
  push_correct a x h =
      let b = a ++ x ∷ [] in
      let size = length-append a (x ∷ []) in
      let old = IsHeap-IsHeapBelow sw x a (length a) (omega arith) h in
      Returns-weaken
        (up_restores sw x (length b) b (length a) (omega arith) (record {
          inside = omega (arith, size);
          edges = λ c p q r. ground (
            arith,
            size,
            old c,
            get_or-append a (x ∷ []) c x,
            get_or-append a (x ∷ []) (parent c) x,
          );
          bridged = λ c p q r s. absurd (omega (arith, size));
        }))
        λ e s. (
          IsHeapBelow-IsHeap sw x e (rw (length-perm s.same) s.ordered),
          Perm.trans s.same (append_last-perm a x),
        )

  -- The last entry is cut off a slice that is in order below it.
  cut :
      (d : A) (n : ℕ) (a c : List A)
      → length c ≡ suc n
      → IsHeapBelow less d n c
      → Perm c a
      → Returns (λ r. Extracts a r × (r.0 ≡ get_or c n d)) (pop_last c)
  unfolding pop_last
  cut d n a c size h p =
      let m : length c - 1 ≡ n = omega arith in
      let whole = take-append_last n c d size in
      let cut_size = length-take n c (omega arith) in
      rw (m, get_elem?-get_or c n d (omega arith))
        (returns (
          (
            IsHeapBelow-IsHeap sw d (take n c) (
                rw cut_size (λ e q r.
                  ground (arith, h e q r, get_or-take n c e d, get_or-take n c (parent e) d))),
            Perm.trans (Perm.symm (append_last-perm (take n c) _)) (rw whole p),
          ),
          refl,
        ))

  pop_correct_at :
      (d : A) (a : List A)
      → IsHeap less a
      → 0 < length a
      → Returns (λ r. Extracts a r × All (λ y. less y r.0 ≡ false) a) (pop less a)
  unfolding pop
  pop_correct_at d a h ne =
      let n = length a - 1 in
      let hn : n < length a = omega arith in
      let at = get_or-swapped d a 0 n ne hn in
      let size = length-swapped d a 0 n ne hn in
      let old = IsHeap-IsHeapBelow sw d a (length a) (omega arith) h in
      rw (swap_lem d a 0 n ne hn) (
        Returns-bind
          (down_restores sw d n (swapped d a 0 n ne hn) 0 (omega (arith, size)) (record {
            edges = λ c p q r. ground (arith, old c, at c, at (parent c));
            bridged = λ c p. absurd (omega arith);
          }))
          λ r s.
            let same = Perm.trans s.same (swapped-perm d a 0 n ne hn) in
            Returns-weaken (cut d n a r.0 (omega (arith, length-perm same)) s.ordered same)
              λ t (e, top). (
                e,
                All-of_below a t.0 d λ c q.
                    ground (arith, top, s.rest n, at n, root-Below sw d (length a) a c old q),
              ))

  -- `pop` takes out one entry, and no entry comes before it.
  pub pop_correct :
      (a : List A)
      → IsHeap less a
      → 0 < length a
      → Returns (λ r. Extracts a r × All (λ y. less y r.0 ≡ false) a) (pop less a)
  pop_correct [] h ne = absurd (omega arith)
  pop_correct (x ∷ a) h ne = pop_correct_at x (x ∷ a) h ne

  module _ (d : A) (a : List A) (i n : ℕ) (h : IsHeap less a) (size : length a ≡ suc n)
      (hi : i < length a) (hn : n < length a) (lt : i < n) where
    -- The slice after the entry at `i` was exchanged with the last one.
    abbrev moved_last : List A
    moved_last = swapped d a i n hi hn

    at_edge : (c : ℕ) → 0 < c → c < n → c ≢ i → parent c ≢ i → Below less d moved_last (parent c) c
    at_edge c p q r s = ground (
      arith,
      IsHeap-IsHeapBelow sw d a (length a) (omega arith) h c,
      get_or-swapped d a i n hi hn c,
      get_or-swapped d a i n hi hn (parent c),
    )

    -- The children of `i` do not come before the parent of `i`.
    across : (c : ℕ) → 0 < i → 0 < c → c < n → parent c ≡ i → Below less d moved_last (parent i) c
    across c p q r s = ground (
      arith,
      IsHeap-IsHeapBelow sw d a (length a) (omega arith) h c,
      IsHeap-IsHeapBelow sw d a (length a) (omega arith) h i,
      get_or-swapped d a i n hi hn c,
      get_or-swapped d a i n hi hn (parent i),
      sw.not_trans (get_or a (parent i) d) (get_or a i d) (get_or a c d),
    )

    inside : n ≤ length moved_last
    inside = omega (arith, length-swapped d a i n hi hn)

    -- The code after the exchange.
    abbrev sift : Option (List A)
    sift = do (c, moved) ← down less moved_last i n; if moved then some c else up less c i

    Sifted-up :
        (c : List A)
        → Sifted less d n moved_last c
        → Returns (Sifted less d n moved_last) (up less c i)
    Sifted-up c s =
        Returns-weaken
          (up_restores sw d n c i (omega (arith, inside, length-perm s.same)) (record {
            inside = lt;
            edges = λ e p q r. s.ordered e p q;
            bridged = λ e p q r t. ground (
              arith,
              s.ordered e,
              s.ordered i,
              sw.not_trans (get_or c (parent i) d) (get_or c i d) (get_or c e d),
            );
          }))
          λ e t. record {
            ordered = t.ordered;
            same = Perm.trans t.same s.same;
            rest = λ k p. t.rest k p ∙ s.rest k p;
          }

    -- The new entry does not come before the parent of `i`: it sinks.
    sinks :
        (0 < i → Below less d moved_last (parent i) i) → Returns (Sifted less d n moved_last) sift
    sinks ok =
        Returns-bind
          (down_restores sw d n moved_last i inside
            (record { edges = λ c p q r. ground (arith, ok, at_edge c); bridged = across }))
          λ r s. Returns-if r.1 (λ _. returns s) (λ _. Sifted-up r.0 s)

    -- The new entry comes before the parent of `i`: it stays, and then rises.
    rises :
        0 < i
        → less (get_or moved_last i d) (get_or moved_last (parent i) d) ≡ true
        → Returns (Sifted less d n moved_last) sift
    rises pos before =
        let x = get_or moved_last i d in
        let p = get_or moved_last (parent i) d in
        let below : (c : ℕ) → 0 < c → c < n → parent c ≡ i → Below less d moved_last i c =
          λ c q r s.
            sw.not_trans x p (get_or moved_last c d) (sw.asym x p before) (across c pos q r s) in
        Returns-bind (down_settled sw d n moved_last i inside (omega (arith, inside)) below)
          λ r (same, still).
            rw (same, still)
              (up_restores sw d n moved_last i inside (record {
                inside = lt;
                edges = λ c p q r. ground (arith, at_edge c, below c);
                bridged = across;
              }))

    sift_correct : Returns (Sifted less d n moved_last) sift
    sift_correct =
        elim (Bool-cases (less (get_or moved_last i d) (get_or moved_last (parent i) d))) [
          | inl before ↦ elim (Bool-cases (i == 0)) [
            | inl top ↦ sinks (λ p. absurd (ground arith))
            | inr below ↦ rises (ground arith) before
          ]
          | inr after ↦ sinks (λ _. after)
        ]

  -- `remove` takes out the entry at the index.
  remove_correct_at :
      (d : A) (a : List A) (i : ℕ)
      → IsHeap less a
      → i < length a
      → Returns (λ r. Extracts a r × (get_elem? a i ≡ some r.0)) (remove less a i)
  unfolding remove
  remove_correct_at d a i h hi =
      let n = length a - 1 in
      let hn : n < length a = omega arith in
      let size : length a ≡ suc n = omega arith in
      let found = get_elem?-get_or a i d hi in
      elim (Bool-cases (i == n)) [
        | inl last ↦
            let m : i ≡ n = ground arith in
            rw last (
              Returns-weaken
                (cut d n a a size
                  (λ c p q. IsHeap-IsHeapBelow sw d a (length a) (omega arith) h c p (omega arith))
                  Perm.rfl)
                λ r (e, top). (e, cc (m, found, top)))
        | inr inner ↦
            let lt : i < n = ground arith in
            rw (inner, swap_lem d a i n hi hn)
              (Returns-bind (sift_correct d a i n h size hi hn lt) λ c s.
                let same = Perm.trans s.same (swapped-perm d a i n hi hn) in
                Returns-weaken (cut d n a c (omega (arith, length-perm same)) s.ordered same)
                  λ r (e, top).
                    (e, ground (arith, top, found, s.rest n, get_or-swapped d a i n hi hn n)))
      ]

  pub remove_correct :
      (a : List A) (i : ℕ)
      → IsHeap less a
      → i < length a
      → Returns (λ r. Extracts a r × (get_elem? a i ≡ some r.0)) (remove less a i)
  remove_correct [] i h hi = absurd (omega arith)
  remove_correct (x ∷ a) i h hi = remove_correct_at x (x ∷ a) i h hi
