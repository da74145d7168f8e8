-- ===== src/AsyncLogger/Accounting.antt =====
-- No entry that the channel of the log took in is lost or written twice, however the handlers, the
-- worker, `Flush` and `Close` interleave.
use llmproxy.Common.{
  ℕ, ◌+◌, ◌≤◌, ◌<◌, ◌≡◌, refl, ap, Bool, true, false, List, [], ◌∷◌, ◌++◌, Option, none, some,
  arith, count, count-append, length, length-append, if_prove, ltb, ltb→lt,
}
use llmproxy.Common.Returns.{Allows, Allows-at}
use llmproxy.AsyncLogger.{
  Half, Phase, serving, draining, exited, new_half, send_or_drop, insert_batch, flush_batch,
  received, serve_one, receives, ticks, observes_stop, flush_begins, flush_receives, close, Event,
  work_receive, work_tick, work_stop, do_flush, flush_next, do_close, perform, Reach, begin, taken,
  full, inside,
}

-- What a running call of `Flush` holds.
abbrev pub in_flush {ℓ} : {A : Type ℓ} → Option (List A) → List A
in_flush none = []
in_flush (some got) = got

abbrev pub count_all {ℓ} : {A : Type ℓ} → (A → Bool) → List (List A) → ℕ
count_all p [] = 0
count_all p (b ∷ bs) = count p b + count_all p bs

module _ {ℓ} {A : Type ℓ} where
  -- Every entry that was accepted is in exactly one place: in a bulk insert, in the batch, in the
  -- hands of `Flush`, or in the channel. The channel is within its capacity.
  pub record Kept (buffer_size : ℕ) (accepted : List A) (h : Half A) : Type ℓ where
    pub everything :
        (p : A → Bool)
        → count_all p h.inserts
            + count p h.batch
            + count p (in_flush h.flushing)
            + count p h.channel.buffer
          ≡ count p accepted
    pub size : h.channel.capacity ≡ buffer_size
    pub bounded : length h.channel.buffer ≤ h.channel.capacity

  -- Besides, the batch of a worker that serves is smaller than the limit, and a worker that
  -- returned left none behind.
  pub record Accounted (limit buffer_size : ℕ) (accepted : List A) (h : Half A) : Type ℓ where
    pub kept : Kept buffer_size accepted h
    pub small : h.phase ≡ serving → length h.batch < limit
    pub finished : h.phase ≡ exited → h.batch ≡ []

  -- The entries do not depend on the other fields.
  unmoved-Kept :
      {buffer_size : ℕ} {accepted : List A} (h : Half A) (phase : Phase) (stopped : Bool)
      (dropped : ℕ)
      → Kept buffer_size accepted h
      → Kept buffer_size accepted (record h { phase = phase; stopped = stopped; dropped = dropped })
  unmoved-Kept h phase stopped dropped k = record {
    everything = k.everything;
    size = k.size;
    bounded = k.bounded;
  }

  count_all-insert_batch :
      (p : A → Bool) (b : List A) (bs : List (List A))
      → count_all p (insert_batch b bs) ≡ count_all p bs + count p b
  unfolding insert_batch
  count_all-insert_batch p [] bs = omega arith
  count_all-insert_batch p (x ∷ xs) [] = omega arith
  count_all-insert_batch p (x ∷ xs) (b ∷ bs) = omega (arith, count_all-insert_batch p (x ∷ xs) bs)

module _ {ℓ} {A : Type ℓ} (limit buffer_size : ℕ) (positive : 0 < limit) where
  new-Accounted : Accounted limit buffer_size [] (new_half {A = A} buffer_size)
  new-Accounted = record {
    kept = record { everything = λ p. omega arith; size = refl; bounded = omega arith };
    small = λ _. positive;
    finished = λ _. refl;
  }

  module _ {accepted : List A} where
    flush_batch-Accounted :
        (h : Half A)
        → Kept buffer_size accepted h
        → Accounted limit buffer_size accepted (flush_batch h)
    unfolding flush_batch
    flush_batch-Accounted h k = record {
      kept = record {
        everything = λ p. omega (arith, k.everything p, count_all-insert_batch p h.batch h.inserts);
        size = k.size;
        bounded = k.bounded;
      };
      small = λ _. positive;
      finished = λ _. refl;
    }

    received-Kept :
        (h : Half A) (x : A) (rest : List A)
        → x ∷ rest ≡ h.channel.buffer
        → Kept buffer_size accepted h
        → Kept buffer_size accepted (received x rest h)
    received-Kept h x rest e k = record {
      everything =
          λ p. omega (arith, k.everything p, ap (count p) e, count-append p h.batch (x ∷ []));
      size = k.size;
      bounded = omega (arith, k.bounded, ap length e);
    }

    -- The phase and the buffer that a step looks at.
    module _ (h : Half A) (inv : Accounted limit buffer_size accepted h) where
      receives-Accounted :
          (phase : Phase) (buffer : List A)
          → phase ≡ h.phase
          → buffer ≡ h.channel.buffer
          → Allows (Accounted limit buffer_size accepted) (receives limit h phase buffer)
      unfolding receives serve_one
      receives-Accounted serving [] _ _ = tt
      receives-Accounted serving (x ∷ rest) e f =
          if_prove (Accounted limit buffer_size accepted) (ltb (length (h.batch ++ x ∷ [])) limit)
            (λ less. record {
              kept = received-Kept h x rest f inv.kept;
              small = λ _. ltb→lt _ _ less;
              finished = λ done. cc;
            })
            (λ _. flush_batch-Accounted (received x rest h) (received-Kept h x rest f inv.kept))
      receives-Accounted draining [] e f = record {
        kept = unmoved-Kept (flush_batch h) exited _ _ (flush_batch-Accounted h inv.kept).kept;
        small = λ now. cc;
        finished = λ _. refl;
      }
      receives-Accounted draining (x ∷ rest) e f = record {
        kept = received-Kept h x rest f inv.kept;
        small = λ now. cc;
        finished = λ now. cc;
      }
      receives-Accounted exited _ _ _ = tt

      ticks-Accounted :
          (phase : Phase) → Allows (Accounted limit buffer_size accepted) (ticks h phase)
      unfolding ticks
      ticks-Accounted serving = flush_batch-Accounted h inv.kept
      ticks-Accounted draining = tt
      ticks-Accounted exited = tt

      observes_stop-Accounted :
          (phase : Phase) (stopped : Bool)
          → Allows (Accounted limit buffer_size accepted) (observes_stop h phase stopped)
      unfolding observes_stop
      observes_stop-Accounted serving true = record {
        kept = unmoved-Kept h _ _ _ inv.kept;
        small = λ now. cc;
        finished = λ now. cc;
      }
      observes_stop-Accounted serving false = tt
      observes_stop-Accounted draining _ = tt
      observes_stop-Accounted exited _ = tt

      flush_begins-Accounted :
          (flushing : Option (List A))
          → flushing ≡ h.flushing
          → Allows (Accounted limit buffer_size accepted) (flush_begins h flushing)
      unfolding flush_begins
      flush_begins-Accounted none e = record {
        kept = record {
          everything = λ p. omega (arith, inv.kept.everything p, ap (λ f. count p (in_flush f)) e);
          size = inv.kept.size;
          bounded = inv.kept.bounded;
        };
        small = inv.small;
        finished = inv.finished;
      }
      flush_begins-Accounted (some got) e = tt

      flush_receives-Accounted :
          (flushing : Option (List A)) (buffer : List A)
          → flushing ≡ h.flushing
          → buffer ≡ h.channel.buffer
          → Allows (Accounted limit buffer_size accepted) (flush_receives h flushing buffer)
      unfolding flush_receives
      flush_receives-Accounted none _ _ _ = tt
      flush_receives-Accounted (some got) [] e f = record {
        kept = record {
          everything = λ p. omega (
            arith,
            inv.kept.everything p,
            ap (λ g. count p (in_flush g)) e,
            count_all-insert_batch p got h.inserts,
          );
          size = inv.kept.size;
          bounded = inv.kept.bounded;
        };
        small = inv.small;
        finished = inv.finished;
      }
      flush_receives-Accounted (some got) (x ∷ rest) e f = record {
        kept = record {
          everything = λ p. omega (
            arith,
            inv.kept.everything p,
            ap (λ g. count p (in_flush g)) e,
            ap (count p) f,
            count-append p got (x ∷ []),
          );
          size = inv.kept.size;
          bounded = omega (arith, inv.kept.bounded, ap length f);
        };
        small = inv.small;
        finished = inv.finished;
      }

      perform-Accounted :
          (e : Event) → Allows (Accounted limit buffer_size accepted) (perform limit e h)
      unfolding perform close
      perform-Accounted work_receive = receives-Accounted h.phase h.channel.buffer refl refl
      perform-Accounted work_tick = ticks-Accounted h.phase
      perform-Accounted work_stop = observes_stop-Accounted h.phase h.stopped
      perform-Accounted do_flush = flush_begins-Accounted h.flushing refl
      perform-Accounted flush_next = flush_receives-Accounted h.flushing h.channel.buffer refl refl
      perform-Accounted do_close = record {
        kept = unmoved-Kept h _ _ _ inv.kept;
        small = inv.small;
        finished = inv.finished;
      }

      sent-Accounted :
          (x : A)
          → length h.channel.buffer < h.channel.capacity
          → Accounted limit buffer_size (accepted ++ x ∷ []) (send_or_drop x h)
      unfolding send_or_drop
      sent-Accounted x room =
          if_prove (Accounted limit buffer_size (accepted ++ x ∷ []))
            (ltb (length h.channel.buffer) h.channel.capacity)
            (λ _. record {
              kept = record {
                everything = λ p. omega (
                  arith,
                  inv.kept.everything p,
                  count-append p accepted (x ∷ []),
                  count-append p h.channel.buffer (x ∷ []),
                );
                size = inv.kept.size;
                bounded = omega (arith, room, length-append h.channel.buffer (x ∷ []));
              };
              small = inv.small;
              finished = inv.finished;
            })
            (λ no. absurd (ground (arith, room)))

      dropped-Accounted :
          (x : A)
          → h.channel.capacity ≤ length h.channel.buffer
          → Accounted limit buffer_size accepted (send_or_drop x h)
      unfolding send_or_drop
      dropped-Accounted x no_room =
          if_prove (Accounted limit buffer_size accepted)
            (ltb (length h.channel.buffer) h.channel.capacity)
            (λ yes. absurd (ground (arith, no_room)))
            (λ _. record {
              kept = unmoved-Kept h _ _ _ inv.kept;
              small = inv.small;
              finished = inv.finished;
            })

  -- However the events interleave: each entry that the channel took in is in exactly one of a
  -- bulk insert, the batch, the hands of `Flush` and the channel (so many entries there pass a
  -- test as of those taken in), the channel is within its capacity, the batch of a worker that
  -- serves is smaller than the positive limit, and a worker that returned left none behind.
  pub Reach-Accounted :
      {may : Event → Bool} {h : Half A} {accepted : List A}
      → Reach limit may buffer_size h accepted
      → Accounted limit buffer_size accepted h
  Reach-Accounted begin = new-Accounted
  Reach-Accounted (taken {h = h} x r room) = sent-Accounted h (Reach-Accounted r) x room
  Reach-Accounted (full {h = h} x r no_room) = dropped-Accounted h (Reach-Accounted r) x no_room
  Reach-Accounted (inside {h = h} {accepted = accepted} e r _ f) =
      Allows-at (Accounted limit buffer_size accepted) (perform-Accounted h (Reach-Accounted r) e) f
