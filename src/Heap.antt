-- ===== src/Heap.antt =====
-- The sift loops and operations of Go's `container/heap`, over a slice and a `Less` on entries.
-- An index out of range panics: `none`. The loops run on fuel, which `none` also reports.
pub mod Order
pub mod Up
pub mod Down
pub mod Laws
use llmproxy.Common.{
  ℕ, zero, suc, ◌+◌, ◌-◌, ◌*◌, ◌/◌, Bool, true, false, ◌&&◌, ◌||◌, not, List, [], ◌∷◌, ◌++◌, Option,
  none, some, length, get_elem?, set, take, ltb, leb, ◌==◌, if◌then◌else◌,
}
use llmproxy.Common.Returns.{◌>>=◌}

abbrev pub parent : ℕ → ℕ
parent c = (c - 1) / 2

module _ {ℓ} {A : Type ℓ} where
  -- `a[i], a[j] = a[j], a[i]`
  unfoldable pub swap : List A → ℕ → ℕ → Option (List A)
  swap a i j = do x ← get_elem? a i; y ← get_elem? a j; some (set (set a i y) j x)

  -- The heap's own `Pop`: the last entry, and the slice without it.
  unfoldable pub pop_last : List A → Option (A × List A)
  pop_last a = let n = length a - 1 in do x ← get_elem? a n; some (x, take n a)

module _ {ℓ} {A : Type ℓ} (less : A → A → Bool) where
  unfoldable pub less_at : List A → ℕ → ℕ → Option Bool
  less_at a i j = do x ← get_elem? a i; y ← get_elem? a j; some (less x y)

  unfoldable pub up_loop : ℕ → List A → ℕ → Option (List A)
  up_loop zero a j = none
  up_loop (suc k) a j =
      let i = parent j in
      let rise = swap a i j >>= λ b. up_loop k b i in
      let step = less_at a j i >>= λ below. if below then rise else some a in
      if i == j then some a else step

  unfoldable pub up : List A → ℕ → Option (List A)
  unfolding up_loop
  up a j = up_loop (j + 1) a j

  -- The smaller child of `i` below `n`; the left one exists.
  unfoldable pub smaller_child : List A → ℕ → ℕ → Option ℕ
  smaller_child a i n =
      let j1 = 2 * i + 1 in
      let j2 = j1 + 1 in
      if ltb j2 n
      then (do smaller ← less_at a j2 j1; some (if smaller then j2 else j1))
      else some j1

  -- The slice, and the index that the entry comes to.
  unfoldable pub down_loop : ℕ → List A → ℕ → ℕ → Option (List A × ℕ)
  down_loop zero a i n = none
  down_loop (suc k) a i n =
      let step : Option (List A × ℕ) = do
        j ← smaller_child a i n
        below ← less_at a j i
        let sink = swap a i j >>= λ b. down_loop k b j n
        if below then sink else some (a, i)
      in if leb n (2 * i + 1) then some (a, i) else step

  -- Also says whether the entry moved.
  unfoldable pub down : List A → ℕ → ℕ → Option (List A × Bool)
  unfolding down_loop smaller_child
  down a i n = do (b, j) ← down_loop (n + 1) a i n; some (b, ltb i j)

  unfoldable pub push : List A → A → Option (List A)
  push a x = up (a ++ x ∷ []) (length a)

  unfoldable pub pop : List A → Option (A × List A)
  pop a = let n = length a - 1 in do b ← swap a 0 n; (c, _) ← down b 0 n; pop_last c

  unfoldable pub remove : List A → ℕ → Option (A × List A)
  remove a i =
      let n = length a - 1 in
      let sift : Option (List A) = do
        b ← swap a i n
        (c, moved) ← down b i n
        if moved then some c else up c i
      in (if i == n then some a else sift) >>= pop_last
