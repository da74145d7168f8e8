-- ===== src/Pool/Requests.antt =====
-- No request is lost between the queue, the workers and the goroutines that put one back, but where
-- the queue refuses it.
use llmproxy.Common.{
  ℕ, suc, ◌+◌, ◌≡◌, refl, ap, ◌∙◌, Bool, true, false, List, [], ◌∷◌, ◌++◌, Perm, arith, All, length,
  length-append, count, count-append, count-perm, inl, inr, if◌then◌else◌,
}
use llmproxy.Common.Int.{ℤ, pos, ◌+ℤ◌, ◌-ℤ◌}
use llmproxy.Common.Returns.{Returns, Returns-at, Returns-bind, returns}
use llmproxy.RequestQueue.{
  PendingRequest, RequestQueue, new_request_queue, close, refuses, Outcome, got, finished, blocked,
}
use llmproxy.RequestQueue.Methods.{
  IsValid, new-IsValid, Enqueued, refused, accepted, enqueue_correct, Dequeued, item, no_item,
  dequeue_correct, empty-IsValid,
}
use llmproxy.Pool.{
  Pool, admit_or_hold, after_dequeue, wake_up, hand_back, stop, Step, work, wake, finish, shut,
  Reach, begin, next, submit,
}

-- All places of the requests that pass a test.
abbrev pub everywhere : (PendingRequest → Bool) → Pool → ℕ
everywhere p m =
    count p m.queue.heap
    + count p m.sleeping
    + count p m.busy
    + count p m.answered
    + count p m.refused

module _ (ends : PendingRequest → Bool) where
  -- A request whose context never ends is in exactly one place: in the queue, held back, with a
  -- worker, answered, or refused when it was to be put back. The queue is valid, and the gauge of
  -- the active workers is the number of requests with a worker.
  pub record Kept (taken : List PendingRequest) (m : Pool) : Type 0 where
    pub valid : IsValid m.queue
    pub somewhere :
        (p : PendingRequest → Bool)
        → ((x : PendingRequest) → ends x ≡ true → p x ≡ false)
        → everywhere p m ≡ count p taken
    pub gauge : m.active_worker ≡ pos (length m.busy)

  -- Cancelled requests do not pass a test for requests whose context never ends.
  none-cancelled :
      (cancelled p : PendingRequest → Bool)
      → ((x : PendingRequest) → cancelled x ≡ true → ends x ≡ true)
      → ((x : PendingRequest) → ends x ≡ true → p x ≡ false)
      → (xs : List PendingRequest) → All (λ x. cancelled x ≡ true) xs
      → count p xs ≡ 0
  none-cancelled cancelled p c e [] a = refl
  none-cancelled cancelled p c e (x ∷ xs) a =
      rw (e x (c x a.0)) (omega (arith, none-cancelled cancelled p c e xs a.1))

  admit_or_hold-Kept :
      (allowed : Bool) (r : PendingRequest) (q : RequestQueue) (taken : List PendingRequest)
      (m : Pool)
      → IsValid q
      → ((p : PendingRequest → Bool)
          → ((x : PendingRequest) → ends x ≡ true → p x ≡ false)
          → count p (r ∷ q.heap) ≡ count p m.queue.heap)
      → Kept taken m
      → Kept taken (admit_or_hold allowed r (record m { queue = q }))
  unfolding admit_or_hold ◌+ℤ◌ ◌-ℤ◌
  admit_or_hold-Kept true r q taken m v same k = record {
    valid = v;
    somewhere = λ p e. omega (arith, same p e, k.somewhere p e);
    gauge = ground (arith, k.gauge);
  }
  admit_or_hold-Kept false r q taken m v same k = record {
    valid = v;
    somewhere = λ p e. omega (arith, same p e, k.somewhere p e);
    gauge = ground (arith, k.gauge);
  }

  emptied-Kept :
      (cancelled : PendingRequest → Bool)
      → ((x : PendingRequest) → cancelled x ≡ true → ends x ≡ true)
      → (taken : List PendingRequest) (m : Pool) (q : RequestQueue) (dropped : List PendingRequest)
      → q.heap ≡ []
      → All (λ x. cancelled x ≡ true) dropped
      → Perm dropped m.queue.heap
      → Kept taken m
      → Kept taken (record m { queue = q })
  emptied-Kept cancelled c taken m q dropped empty gone same k = record {
    valid = empty-IsValid q empty;
    somewhere = λ p e. omega (
      arith,
      k.somewhere p e,
      ap (count p) empty,
      count-perm p same,
      none-cancelled cancelled p c e dropped gone,
    );
    gauge = k.gauge;
  }

  after_dequeue-Kept :
      (allowed : Bool) (cancelled : PendingRequest → Bool)
      → ((x : PendingRequest) → cancelled x ≡ true → ends x ≡ true)
      → (taken : List PendingRequest) (m : Pool) (q : RequestQueue) (o : Outcome)
      → Dequeued cancelled m.queue (q, o)
      → Kept taken m
      → Kept taken (after_dequeue allowed q o m)
  unfolding after_dequeue
  after_dequeue-Kept allowed cancelled c taken m q _ (item {r = r} dropped v _ _ gone same _) k =
      admit_or_hold-Kept allowed r q taken m v
        (λ p e. omega (
          arith,
          count-perm p same,
          count-append p dropped (r ∷ q.heap),
          none-cancelled cancelled p c e dropped gone,
        ))
        k
  after_dequeue-Kept allowed cancelled c taken m q finished (no_item dropped h gone same how) k =
      emptied-Kept cancelled c taken m q dropped h.0 gone same k
  after_dequeue-Kept allowed cancelled c taken m q blocked (no_item dropped h gone same how) k =
      emptied-Kept cancelled c taken m q dropped h.0 gone same k
  after_dequeue-Kept allowed cancelled c taken m q (got r) (no_item dropped h gone same how) k =
      elim how [ inl e ↦ cc (e.0) | inr e ↦ cc (e.0) ]

  -- One request leaves a list.
  count-middle :
      (p : PendingRequest → Bool) (r : PendingRequest) (before after xs : List PendingRequest)
      → xs ≡ before ++ r ∷ after
      → count p xs ≡ (if p r then 1 else 0) + count p (before ++ after)
  count-middle p r before after xs e =
      omega (arith, ap (count p) e, count-append p before (r ∷ after), count-append p before after)

  put_back-done :
      (r : PendingRequest) (rest taken : List PendingRequest) (m : Pool)
      → ((p : PendingRequest → Bool) → count p m.sleeping ≡ (if p r then 1 else 0) + count p rest)
      → Kept taken m
      → (x : RequestQueue × ℤ × ℤ) → Enqueued m.queue r x
      → Kept taken (record m {
        queue = x.0;
        sleeping = rest;
        refused = if refuses m.queue then r ∷ m.refused else m.refused;
      })
  put_back-done r rest taken m left k _ (refused e) = rw e (record {
    valid = k.valid;
    somewhere = λ p f. omega (arith, k.somewhere p f, left p);
    gauge = k.gauge;
  })
  put_back-done r rest taken m left k _ (accepted e v same _ _ _ _) = rw e (record {
    valid = v;
    somewhere = λ p f. omega (arith, k.somewhere p f, left p, count-perm p same);
    gauge = k.gauge;
  })

  put_back-Kept :
      (r : PendingRequest) (rest taken : List PendingRequest) (m : Pool)
      → ((p : PendingRequest → Bool) → count p m.sleeping ≡ (if p r then 1 else 0) + count p rest)
      → Kept taken m
      → Returns (Kept taken) (wake_up false r rest m)
  unfolding wake_up
  put_back-Kept r rest taken m left k =
      Returns-bind (enqueue_correct m.queue r k.valid)
        λ _ done. returns (put_back-done r rest taken m left k _ done)

  wake_up-Kept :
      (gone : Bool) (r : PendingRequest) (rest taken : List PendingRequest) (m : Pool)
      → (gone ≡ true → ends r ≡ true)
      → ((p : PendingRequest → Bool) → count p m.sleeping ≡ (if p r then 1 else 0) + count p rest)
      → Kept taken m
      → Returns (Kept taken) (wake_up gone r rest m)
  unfolding wake_up
  wake_up-Kept false r rest taken m e left k = put_back-Kept r rest taken m left k
  wake_up-Kept true r rest taken m e left k = returns (record {
    valid = k.valid;
    somewhere = λ p f.
        let out : count p m.sleeping ≡ 0 + count p rest = left p ∙ rw (f r (e refl)) refl in
        omega (arith, k.somewhere p f, out);
    gauge = k.gauge;
  })

  hand_back-Kept :
      (r : PendingRequest) (rest taken : List PendingRequest) (m : Pool)
      → ((p : PendingRequest → Bool) → count p m.busy ≡ (if p r then 1 else 0) + count p rest)
      → length m.busy ≡ suc (length rest)
      → Kept taken m
      → Kept taken (hand_back r rest m)
  unfolding hand_back ◌-ℤ◌
  hand_back-Kept r rest taken m left size k = record {
    valid = k.valid;
    somewhere = λ p f. omega (arith, k.somewhere p f, left p);
    gauge = ground (arith, k.gauge, size);
  }

  Step-Kept :
      {m m' : Pool} {taken : List PendingRequest} → Kept taken m → Step ends m m' → Kept taken m'
  unfolding stop close
  Step-Kept {m = m} {taken = taken} k (work {q = q} {o = o} allowed cancelled c e) =
      after_dequeue-Kept allowed cancelled c taken m q o
        (Returns-at (dequeue_correct cancelled m.queue k.valid) e) k
  Step-Kept {m = m} {taken = taken} k (wake gone r before after c e f) =
      Returns-at
        (wake_up-Kept gone r (before ++ after) taken m c
          (λ p. count-middle p r before after m.sleeping e) k)
        f
  Step-Kept {m = m} {taken = taken} k (finish r before after e) =
      hand_back-Kept r (before ++ after) taken m (λ p. count-middle p r before after m.busy e)
        (omega (arith, ap length e, length-append before (r ∷ after), length-append before after)) k
  Step-Kept k shut = record {
    valid = record { ordered = k.valid.ordered; bounded = k.valid.bounded };
    somewhere = k.somewhere;
    gauge = k.gauge;
  }

  submit-Kept :
      (r : PendingRequest) (taken : List PendingRequest) (m : Pool) (x : RequestQueue × ℤ × ℤ)
      → Enqueued m.queue r x
      → Kept taken m
      → Kept (if refuses m.queue then taken else r ∷ taken) (record m { queue = x.0 })
  submit-Kept r taken m _ (refused e) k =
      rw e (record { valid = k.valid; somewhere = k.somewhere; gauge = k.gauge })
  submit-Kept r taken m _ (accepted e v same _ _ _ _) k = rw e (record {
    valid = v;
    somewhere = λ p f. omega (arith, k.somewhere p f, count-perm p same);
    gauge = k.gauge;
  })

  -- However handlers, workers and the goroutines that put a request back interleave, whatever the
  -- limiter answers and whenever the pool is stopped: of the requests that the queue took in, each
  -- whose context never ends is in exactly one of the queue, the requests that are held back, those
  -- with a worker, those with a result, and those that the queue refused to take back (so many of
  -- them there pass a test for such requests as of those taken in); the queue is valid, and the
  -- gauge of the active workers is the number of requests with a worker.
  pub Reach-Kept :
      {max_size : ℤ} {m : Pool} {taken : List PendingRequest}
      → Reach ends max_size m taken
      → Kept taken m
  unfolding new_request_queue
  Reach-Kept {max_size} begin = record {
    valid = new-IsValid max_size;
    somewhere = λ p e. omega arith;
    gauge = refl;
  }
  Reach-Kept (next r s) = Step-Kept (Reach-Kept r) s
  Reach-Kept (submit {m = m} {taken = taken} r reached e) =
      submit-Kept r taken m _ (Returns-at (enqueue_correct m.queue r (Reach-Kept reached).valid) e)
        (Reach-Kept reached)
