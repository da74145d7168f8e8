-- ===== src/Heap/Down.antt =====
-- `down` restores the heap order below `n` when one entry may come after its children.
use llmproxy.Common.{
  ℕ, zero, suc, ◌+◌, ◌-◌, ◌*◌, ◌≤◌, ◌<◌, ◌≡◌, ◌≢◌, ◌⊎◌, refl, Bool, true, false, List, arith,
  length, ltb, leb, get_or, if◌then◌else◌,
}
use native.Mathlib.Numerals.{add-one}
use llmproxy.Common.Returns.{Returns, returns, Returns-bind, Returns-weaken, Returns-if}
use llmproxy.Common.Arrays.{swapped, length-swapped, get_or-swapped}
use llmproxy.Heap.{parent, smaller_child, down, down_loop}
use llmproxy.Heap.Order.{
  StrictWeak, Below, Sifted, Sifted-swapped, Sifted-refl, less_at_lem, swap_lem,
}

module _ {ℓ} {A : Type ℓ} {less : A → A → Bool} (sw : StrictWeak less) (d : A) where
  -- Every edge but those below `i` is in order.
  pub record DownInv (n : ℕ) (a : List A) (i : ℕ) : Type 0 where
    pub edges : (c : ℕ) → 0 < c → c < n → parent c ≢ i → Below less d a (parent c) c
    pub bridged : (c : ℕ) → 0 < i → 0 < c → c < n → parent c ≡ i → Below less d a (parent i) c

  -- `m` is a child of `i`, and no child comes before it.
  record IsSmallerChild (n : ℕ) (a : List A) (i m : ℕ) : Type 0 where
    inside : m < n
    child : (m ≡ 2 * i + 1) ⊎ (m ≡ 2 * i + 2)
    least : (c : ℕ) → 0 < c → c < n → parent c ≡ i → Below less d a m c

  smaller_child-IsSmallerChild :
      (n : ℕ) (a : List A) (i : ℕ)
      → n ≤ length a
      → 2 * i + 1 < n
      → Returns (IsSmallerChild n a i) (smaller_child less a i n)
  unfolding smaller_child
  smaller_child-IsSmallerChild n a i le h =
      let l = 2 * i + 1 in
      let r = 2 * i + 1 + 1 in
      let x = get_or a l d in
      let y = get_or a r d in
      Returns-if (ltb r n)
        (λ e. rw (less_at_lem d less a r l (ground arith) (omega arith)) (
          returns {a = if less y x then r else l} (record {
            inside = ground arith;
            child = ground arith;
            least = λ c p q s. ground (arith, sw.irrefl x, sw.irrefl y, sw.asym y x);
          })))
        (λ e. returns (record {
          inside = h;
          child = omega arith;
          least = λ c p q s. ground (arith, sw.irrefl x);
        }))

  swapped-DownInv :
      (n : ℕ) (a : List A) (i m : ℕ) (hi : i < length a) (hm : m < length a)
      → DownInv n a i
      → IsSmallerChild n a i m
      → less (get_or a m d) (get_or a i d) ≡ true
      → DownInv n (swapped d a i m hi hm) m
  swapped-DownInv n a i m hi hm v s lt =
      let at = get_or-swapped d a i m hi hm in
      let turned = sw.asym (get_or a m d) (get_or a i d) lt in
      record {
        edges = λ c p q r.
            ground
              (arith, turned, at c, at (parent c), v.edges c, v.bridged m, s.least c, s.inside);
        bridged = λ c p q r t. ground (arith, at c, at (parent m), v.edges c);
      }

  down_loop_restores :
      (k n : ℕ) (a : List A) (i : ℕ)
      → n - i < k
      → n ≤ length a
      → DownInv n a i
      → Returns (λ r. Sifted less d n a r.0) (down_loop less k a i n)
  unfolding down_loop
  down_loop_restores zero n a i f le v = absurd (omega arith)
  down_loop_restores (suc k) n a i f le v =
      Returns-if (leb n (2 * i + 1))
        (λ e. returns (Sifted-refl d (λ c p q. ground (arith, v.edges c))))
        (λ e. Returns-bind (smaller_child-IsSmallerChild n a i le (ground arith)) λ m s.
          let hi : i < length a = omega (arith, s.inside, s.child) in
          let hm : m < length a = omega (arith, s.inside) in
          rw (less_at_lem d less a m i hm hi) (
            Returns-if (less (get_or a m d) (get_or a i d))
              (λ lt. rw (swap_lem d a i m hi hm) (
                Returns-weaken
                  (down_loop_restores k n _ m (omega (arith, s.inside, s.child))
                    (rw length-swapped le) (swapped-DownInv n a i m hi hm v s lt))
                  (λ r s'.
                    Sifted-swapped d i m hi hm (omega (arith, s.inside, s.child)) s.inside s')))
              (λ settled. returns (
                Sifted-refl d (λ c p q. ground (
                  arith,
                  v.edges c,
                  s.least c,
                  sw.not_trans (get_or a i d) (get_or a m d) (get_or a c d),
                ))))))

  pub down_restores :
      (n : ℕ) (a : List A) (i : ℕ)
      → n ≤ length a
      → DownInv n a i
      → Returns (λ r. Sifted less d n a r.0) (down less a i n)
  unfolding down
  down_restores n a i le v =
      Returns-bind (down_loop_restores (n + 1) n a i (omega arith) le v) λ r sifted. returns sifted

  -- `down` does not touch the slice where no child comes before the entry.
  pub down_settled :
      (n : ℕ) (a : List A) (i : ℕ)
      → n ≤ length a
      → i < length a
      → ((c : ℕ) → 0 < c → c < n → parent c ≡ i → Below less d a i c)
      → Returns (λ r. (r.0 ≡ a) × (r.1 ≡ false)) (down less a i n)
  unfolding down down_loop
  down_settled n a i le hi h = rw add-one (
      Returns-bind {P = λ r. (r.0 ≡ a) × (r.1 ≡ i)}
        (Returns-if (leb n (2 * i + 1)) (λ e. returns (refl, refl))
          (λ e. Returns-bind (smaller_child-IsSmallerChild n a i le (ground arith)) λ m s.
            rw
              (
                less_at_lem d less a m i (omega (arith, s.inside)) hi,
                h m (omega (arith, s.child)) s.inside (omega (arith, s.child)),
              )
              (returns (refl, refl))))
        λ r (e, f). returns (e, ground arith))
