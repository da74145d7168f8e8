-- ===== src/Heap/Up.antt =====
-- `up` restores the heap order when one entry may come before its parent.
use llmproxy.Common.{ℕ, zero, suc, ◌+◌, ◌≤◌, ◌<◌, ◌≡◌, ◌≢◌, Bool, List, arith, length, ◌==◌, get_or}
use llmproxy.Common.Returns.{Returns, returns, Returns-weaken, Returns-if}
use llmproxy.Common.Arrays.{swapped, length-swapped, get_or-swapped}
use llmproxy.Heap.{parent, up, up_loop}
use llmproxy.Heap.Order.{
  StrictWeak, Below, Sifted, Sifted-swapped, Sifted-refl, less_at_lem, swap_lem,
}

module _ {ℓ} {A : Type ℓ} {less : A → A → Bool} (sw : StrictWeak less) (d : A) where
  -- Every edge but the one above `j` is in order.
  pub record UpInv (n : ℕ) (a : List A) (j : ℕ) : Type 0 where
    pub inside : j < n
    pub edges : (c : ℕ) → 0 < c → c < n → c ≢ j → Below less d a (parent c) c
    pub bridged : (c : ℕ) → 0 < j → 0 < c → c < n → parent c ≡ j → Below less d a (parent j) c

  swapped-UpInv :
      (n : ℕ) (a : List A) (j : ℕ) (hp : parent j < length a) (hj : j < length a)
      → UpInv n a j
      → 0 < j
      → less (get_or a j d) (get_or a (parent j) d) ≡ Bool.true
      → UpInv n (swapped d a (parent j) j hp hj) (parent j)
  swapped-UpInv n a j hp hj v pos lt =
      let at = get_or-swapped d a (parent j) j hp hj in
      let x = get_or a j d in
      let p = get_or a (parent j) d in
      let turned = sw.asym x p lt in
      record {
        inside = omega (arith, v.inside);
        edges = λ c h q r. ground (
          arith,
          turned,
          at c,
          at (parent c),
          v.edges c,
          v.bridged c,
          sw.not_trans x p (get_or a c d),
        );
        bridged = λ c h q r s. ground (
          arith,
          at c,
          at (parent (parent j)),
          v.edges c,
          v.edges (parent j),
          sw.not_trans (get_or a (parent (parent j)) d) p (get_or a c d),
        );
      }

  up_loop_restores :
      (k n : ℕ) (a : List A) (j : ℕ)
      → j < k
      → n ≤ length a
      → UpInv n a j
      → Returns (Sifted less d n a) (up_loop less k a j)
  unfolding up_loop
  up_loop_restores zero n a j f le v = absurd (omega arith)
  up_loop_restores (suc k) n a j f le v =
      let hj : j < length a = omega (arith, v.inside) in
      let hp : parent j < length a = omega (arith, v.inside) in
      Returns-if (parent j == j) (λ e. returns (Sifted-refl d (λ c p q. ground (arith, v.edges c))))
        (λ e. rw (less_at_lem d less a j (parent j) hj hp) (
          Returns-if (less (get_or a j d) (get_or a (parent j) d))
            (λ lt. rw (swap_lem d a (parent j) j hp hj) (
              Returns-weaken
                (up_loop_restores k n _ (parent j) (ground arith) (rw length-swapped le)
                  (swapped-UpInv n a j hp hj v (ground arith) lt))
                (λ b s. Sifted-swapped d (parent j) j hp hj (omega (arith, v.inside)) v.inside s)))
            (λ settled. returns (Sifted-refl d (λ c p q. ground (arith, v.edges c))))))

  pub up_restores :
      (n : ℕ) (a : List A) (j : ℕ)
      → n ≤ length a
      → UpInv n a j
      → Returns (Sifted less d n a) (up less a j)
  unfolding up
  up_restores n a j le v = up_loop_restores (j + 1) n a j (omega arith) le v
