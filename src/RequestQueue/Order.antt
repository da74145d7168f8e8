-- ===== src/RequestQueue/Order.antt =====
-- The order in which requests leave the queue, and the position estimate.
use mathlib.Core.List.{Permᴰ}
use mathlib.Core.Logic.{∥∥₁_elim}
use native.Mathlib.Nat.{ℕ_set}
use llmproxy.Common.{
  ℕ, ◌+◌, ◌<◌, ◌≤◌, ◌≡◌, refl, ◌∙◌, ◌⊎◌, true, List, [], ◌∷◌, Perm, arith, length, if◌then◌else◌,
}
use llmproxy.Common.Int.{◌<ℤ◌, eqb_ℤ_iff}
use llmproxy.Heap.Order.{StrictWeak}
use llmproxy.RequestQueue.{PendingRequest, less, position_loop}

-- A higher priority leaves first; of one priority, the earlier request.
abbrev pub Before : PendingRequest → PendingRequest → Type 0
Before x y = (y.priority <ℤ x.priority) ⊎ ((x.priority ≡ y.priority) × (x.timestamp < y.timestamp))

pub less-Before : (x y : PendingRequest) → less x y ≡ true → Before x y
unfolding less
less-Before x y h = ground (arith, eqb_ℤ_iff x.priority y.priority)

pub less-StrictWeak : StrictWeak less
unfolding less
less-StrictWeak = record {
  asym = λ x y h. ground arith;
  not_trans = λ x y z h k. ground arith;
  irrefl = λ x. ground arith;
}

-- How many of the requests leave before `req`.
pub count_before : PendingRequest → List PendingRequest → ℕ
count_before req [] = 0
count_before req (r ∷ rs) = (if less r req then 1 else 0) + count_before req rs

pub position_loop-count_before :
    (req : PendingRequest) (n : ℕ) (rs : List PendingRequest)
    → position_loop req n rs ≡ n + count_before req rs
unfolding position_loop count_before less
position_loop-count_before req n [] = omega arith
position_loop-count_before req n (r ∷ rs) =
    ground (arith, position_loop-count_before req n rs, position_loop-count_before req (n + 1) rs)

Permᴰ-count_before :
    (req : PendingRequest) {xs ys : List PendingRequest}
    → Permᴰ xs ys
    → count_before req xs ≡ count_before req ys
unfolding count_before
Permᴰ-count_before req Permᴰ.nil = refl
Permᴰ-count_before req (Permᴰ.cons e p) = rw e (omega (arith, Permᴰ-count_before req p))
Permᴰ-count_before req (Permᴰ.swap e f) = rw (e, f) (omega arith)
Permᴰ-count_before req (Permᴰ.trans p q) = Permᴰ-count_before req p ∙ Permᴰ-count_before req q

pub count_before-perm :
    (req : PendingRequest) {xs ys : List PendingRequest}
    → Perm xs ys
    → count_before req xs ≡ count_before req ys
count_before-perm req p = ∥∥₁_elim p (ℕ_set _ _) (Permᴰ-count_before req)

-- A request does not count itself.
pub count_before_self :
    (req : PendingRequest) (xs : List PendingRequest)
    → count_before req (req ∷ xs) ≡ count_before req xs
unfolding count_before
count_before_self req xs = ground (arith, less-StrictWeak.irrefl req)

pub count_before-le-length :
    (req : PendingRequest) (xs : List PendingRequest) → count_before req xs ≤ length xs
unfolding count_before
count_before-le-length req [] = omega arith
count_before-le-length req (x ∷ xs) = ground (arith, count_before-le-length req xs)
