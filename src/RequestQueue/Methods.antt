-- ===== src/RequestQueue/Methods.antt =====
-- The methods of the queue keep its invariant, and do what their comments promise.
use mathlib.Core.List.Perm
use mathlib.Core.Bool.{Bool-set}
use mathlib.Core.Option.{some-injective}
use Prim.Native.String.{String}
use text.Mathlib.Text.{◌==◌ as str_eq}
use llmproxy.Common.{
  ℕ, zero, suc, ◌+◌, ◌<◌, ◌≡◌, ◌⊎◌, refl, ap, sym, ◌∙◌, lt_of_get_elem?, Bool, true, false, ◌++◌,
  ◌&&◌, not, List, [], ◌∷◌, some, none, Perm, arith, All, length, length-perm, get_elem?, All-perm,
  length-eq-zero, ◌==◌, Bool-cases, Option-cases, inl, inr,
}
use llmproxy.Common.Int.{ℤ, pos, negsuc, ◌≤ℤ◌, ◌<ℤ◌}
use llmproxy.Common.Returns.{Returns, returns, Returns-bind, Returns-weaken, Returns-if}
use llmproxy.Heap.Order.{IsHeap}
use llmproxy.Heap.Laws.{push_correct, pop_correct, remove_correct}
use llmproxy.RequestQueue.{
  PendingRequest, less, RequestQueue, new_request_queue, refuses, enqueue, Outcome, got, finished,
  blocked, dequeue_loop, dequeue_blocking, index_from, remove,
}
use llmproxy.RequestQueue.Order.{
  less-StrictWeak, count_before, position_loop-count_before, count_before-perm, count_before_self,
}

-- The heap is in order, and a positive maximum bounds it.
pub record IsValid (q : RequestQueue) : Type 0 where
  pub ordered : IsHeap less q.heap
  pub bounded : pos 0 <ℤ q.max → pos (length q.heap) ≤ℤ q.max

pub new-IsValid : (max_size : ℤ) → IsValid (new_request_queue max_size)
unfolding new_request_queue
new-IsValid max_size = record { ordered = λ c x y e f. cc; bounded = λ h. omega arith }

pub empty-IsValid : (q : RequestQueue) → q.heap ≡ [] → IsValid q
empty-IsValid q e = record {
  ordered = λ c x y f g. absurd (omega (arith, lt_of_get_elem? q.heap c g, ap length e));
  bounded = λ p. omega (arith, ap length e);
}

-- What `enqueue` does on each branch.
pub data Enqueued (q : RequestQueue) (req : PendingRequest) : RequestQueue × ℤ × ℤ → Type 0 where
  refused : refuses q ≡ true → Enqueued q req (q, negsuc 0, negsuc 0)
  accepted :
      {q' : RequestQueue} {p n : ℕ}
      → refuses q ≡ false
      → IsValid q'
      → Perm q'.heap (req ∷ q.heap)
      → q'.max ≡ q.max
      → q'.closed ≡ q.closed
      → p ≡ count_before req q.heap
      → n ≡ length q.heap + 1
      → Enqueued q req (q', pos p, pos n)

pub enqueue_correct :
    (q : RequestQueue) (req : PendingRequest) → IsValid q → Returns (Enqueued q req) (enqueue q req)
unfolding enqueue
enqueue_correct q req v =
    Returns-if (refuses q) (λ e. returns (refused e))
      (λ e. Returns-bind (push_correct less-StrictWeak q.heap req v.ordered) λ h (ordered, same).
        let size : length h ≡ suc (length q.heap) = length-perm same in
        returns (
          accepted e
            (record { ordered = ordered; bounded = λ p. ground (arith, size, v.bounded p) }) same
            refl refl
            (ground (
              arith,
              position_loop-count_before req 0 h,
              count_before-perm req same,
              count_before_self req q.heap,
            ))
            (omega (arith, size))))

-- What one run of `DequeueBlocking` does: it drops cancelled requests only, and hands out a
-- request that no request left in the queue comes before.
pub data Dequeued (cancelled : PendingRequest → Bool) (q : RequestQueue)
    : RequestQueue × Outcome → Type 0 where
  item :
      {q' : RequestQueue} {r : PendingRequest} (dropped : List PendingRequest)
      → IsValid q'
      → (q'.max ≡ q.max) × (q'.closed ≡ q.closed)
      → cancelled r ≡ false
      → All (λ x. cancelled x ≡ true) dropped
      → Perm (dropped ++ r ∷ q'.heap) q.heap
      → All (λ y. less y r ≡ false) q'.heap
      → Dequeued cancelled q (q', got r)
  no_item :
      {q' : RequestQueue} {o : Outcome} (dropped : List PendingRequest)
      → (q'.heap ≡ []) × (q'.max ≡ q.max) × (q'.closed ≡ q.closed)
      → All (λ x. cancelled x ≡ true) dropped
      → Perm dropped q.heap
      → ((o ≡ finished) × (q.closed ≡ true)) ⊎ ((o ≡ blocked) × (q.closed ≡ false))
      → Dequeued cancelled q (q', o)

module _ (cancelled : PendingRequest → Bool) where
  -- A run that begins by dropping `x`.
  Dequeued-drop :
      {q : RequestQueue} {h : List PendingRequest} (x : PendingRequest)
      → cancelled x ≡ true
      → Perm (x ∷ h) q.heap
      → {r : RequestQueue × Outcome} → Dequeued cancelled (record q { heap = h }) r
      → Dequeued cancelled q r
  Dequeued-drop x e p (item dropped v same live gone all least) =
      item (x ∷ dropped) v same live (e, gone) (Perm.trans (Perm.cons x all) p) least
  Dequeued-drop x e p (no_item dropped same gone all how) =
      no_item (x ∷ dropped) same (e, gone) (Perm.trans (Perm.cons x all) p) how

  dequeue_loop_correct :
      (k : ℕ) (q : RequestQueue)
      → length q.heap < k
      → IsValid q
      → Returns (Dequeued cancelled q) (dequeue_loop k cancelled q)
  unfolding dequeue_loop
  dequeue_loop_correct zero q f v = absurd (omega arith)
  dequeue_loop_correct (suc k) q f v =
      Returns-if ((length q.heap == 0) && not q.closed)
        (λ e.
          let empty : q.heap ≡ [] = length-eq-zero q.heap (ground arith) in
          returns
            (no_item [] (empty, refl, refl) tt (simp empty Perm.rfl) (inr (refl, ground arith))))
        (λ e.
          Returns-if (q.closed && (length q.heap == 0))
            (λ c.
              let empty : q.heap ≡ [] = length-eq-zero q.heap (ground arith) in
              returns (
                no_item [] (empty, refl, refl) tt (simp empty Perm.rfl) (inl (refl, ground arith))))
            (λ c.
              Returns-bind (pop_correct less-StrictWeak q.heap v.ordered (ground arith))
                λ (x, h) ((ordered, same), least).
                  let size : suc (length h) ≡ length q.heap = length-perm same in
                  let v' : IsValid (record q { heap = h }) = record {
                    ordered = ordered;
                    bounded = λ p. ground (arith, size, v.bounded p);
                  } in
                  Returns-if (cancelled x)
                    (λ gone.
                      Returns-weaken
                        (dequeue_loop_correct k (record q { heap = h }) (omega (arith, size)) v')
                        (λ r d. Dequeued-drop x gone same d))
                    (λ live. returns (
                      item [] v' (refl, refl) live tt same
                        (All-perm (λ y. less y x ≡ false) (λ y. Bool-set _ _) (Perm.symm same)
                          least).1))))

  -- On a valid queue a run of `DequeueBlocking` up to its next wait does not panic and needs no
  -- more rounds than the heap has requests and one. It drops cancelled requests only; it hands out
  -- a live request that no request left in the valid queue comes before, or it ends with an empty
  -- heap, by `nil` if the queue is closed and by waiting if it is not.
  pub dequeue_correct :
      (q : RequestQueue) → IsValid q → Returns (Dequeued cancelled q) (dequeue_blocking cancelled q)
  unfolding dequeue_blocking
  dequeue_correct q v = dequeue_loop_correct (length q.heap + 1) q (omega arith) v

-- The request at the index is the first with the id.
pub data IsFirst (request_id : String) : List PendingRequest → ℕ → PendingRequest → Type 0 where
  here :
      {r : PendingRequest} {rs : List PendingRequest}
      → str_eq r.id request_id ≡ true
      → IsFirst request_id (r ∷ rs) 0 r
  later :
      {x r : PendingRequest} {rs : List PendingRequest} {i : ℕ}
      → str_eq x.id request_id ≡ false
      → IsFirst request_id rs i r
      → IsFirst request_id (x ∷ rs) (suc i) r

pub data Removed (q : RequestQueue) (request_id : String) : RequestQueue × ℤ → Type 0 where
  absent : All (λ r. str_eq r.id request_id ≡ false) q.heap → Removed q request_id (q, negsuc 0)
  removed :
      {q' : RequestQueue} {r : PendingRequest} {i : ℕ}
      → IsFirst request_id q.heap i r
      → IsValid q'
      → Perm (r ∷ q'.heap) q.heap
      → (q'.max ≡ q.max) × (q'.closed ≡ q.closed)
      → Removed q request_id (q', pos i)

index_from-none :
    (i : ℕ) (request_id : String) (rs : List PendingRequest)
    → index_from i request_id rs ≡ none
    → All (λ r. str_eq r.id request_id ≡ false) rs
unfolding index_from
index_from-none i request_id [] h = tt
index_from-none i request_id (r ∷ rs) h = elim (Bool-cases (str_eq r.id request_id)) [
  | inl e ↦ cc (rw e at h)
  | inr e ↦ (e, index_from-none (suc i) request_id rs (rw e at h))
]

index_from-some :
    (i : ℕ) (request_id : String) (rs : List PendingRequest) (n : ℕ)
    → index_from i request_id rs ≡ some n
    → (j : ℕ) × (r : PendingRequest) × (n ≡ i + j)
      × (get_elem? rs j ≡ some r)
      × IsFirst request_id rs j r
unfolding index_from
index_from-some i request_id [] n h = cc
index_from-some i request_id (r ∷ rs) n h = elim (Bool-cases (str_eq r.id request_id)) [
  | inl e ↦ (0, r, ground arith, refl, here e)
  | inr e ↦
      let (j, x, at, found, first) = index_from-some (suc i) request_id rs n (rw e at h) in
      (suc j, x, omega (arith, at), found, later e first)
]

-- On a valid queue `Remove` does not panic: it answers -1 and changes nothing if no request has the
-- id; else it takes out the first request of the heap that has it, answers its index, keeps all
-- other requests, and the queue stays valid.
pub remove_by_id_correct :
    (q : RequestQueue) (request_id : String)
    → IsValid q
    → Returns (Removed q request_id) (remove q request_id)
unfolding remove
remove_by_id_correct q request_id v = elim (Option-cases (index_from 0 request_id q.heap)) [
  | inl e ↦ rw (e, remove) (returns (absent (index_from-none 0 request_id q.heap e)))
  | inr (i, e) ↦
      let (j, r, at, found, first) = index_from-some 0 request_id q.heap i e in
      let same_index : j ≡ i = omega (arith, at) in
      let found' = rw same_index at found in
      rw (e, remove)
        (Returns-bind
          (remove_correct less-StrictWeak q.heap i v.ordered (lt_of_get_elem? q.heap i found'))
          λ (x, h) ((ordered, same), taken).
            let same_item : r ≡ x = some-injective _ _ (sym found' ∙ taken) in
            let size : suc (length h) ≡ length q.heap = length-perm same in
            returns (
              removed (rw same_index at (rw same_item at first))
                (record { ordered = ordered; bounded = λ p. ground (arith, size, v.bounded p) })
                same (refl, refl)))
]
