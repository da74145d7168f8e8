-- ===== src/AsyncLogger/Order.antt =====
-- Without `Flush` the log is written in the order in which the handlers sent it, and a worker that
-- is stopped hands all that the channel took in to bulk inserts before it returns.
use mathlib.Core.Path.{subst}
use llmproxy.Common.{
  ℕ, suc, ◌≡◌, refl, ap, sym, ◌∙◌, Bool, true, false, not, List, [], ◌∷◌, ◌++◌, arith, concat,
  concat-append_last, append-nil, append_assoc, length, if_prove, ltb,
}
use llmproxy.Common.Returns.{◌>>=◌, Allows, Allows-at, Returns, returns}
use llmproxy.AsyncLogger.{
  Half, Phase, serving, draining, exited, send_or_drop, insert_batch, flush_batch, received,
  serve_one, receives, ticks, observes_stop, close, Event, of_flush, work_receive, work_tick,
  work_stop, do_flush, flush_next, do_close, perform, rounds, Reach, begin, taken, full, inside,
}

-- The entries on their way to the database, the first one first.
abbrev pub entries {ℓ} : {A : Type ℓ} → Half A → List A
entries h = concat h.inserts ++ (h.batch ++ h.channel.buffer)

module _ {ℓ} {A : Type ℓ} where
  concat-insert_batch :
      (b : List A) (bs : List (List A)) → concat (insert_batch b bs) ≡ concat bs ++ b
  unfolding insert_batch
  concat-insert_batch [] bs = sym (append-nil (concat bs))
  concat-insert_batch (x ∷ xs) bs = concat-append_last bs (x ∷ xs)

  entries-flush_batch : (h : Half A) → entries (flush_batch h) ≡ entries h
  unfolding flush_batch
  entries-flush_batch h =
      rw
        (
          concat-insert_batch h.batch h.inserts,
          append_assoc (concat h.inserts) h.batch h.channel.buffer,
        )
        refl

  entries-received :
      (h : Half A) (x : A) (rest : List A)
      → x ∷ rest ≡ h.channel.buffer
      → entries (received x rest h) ≡ entries h
  entries-received h x rest e =
      rw (append_assoc h.batch (x ∷ []) rest)
        (ap (λ buffer. concat h.inserts ++ (h.batch ++ buffer)) e)

module _ {ℓ} {A : Type ℓ} (limit : ℕ) where
  entries-receives :
      (h : Half A) (phase : Phase) (buffer : List A)
      → buffer ≡ h.channel.buffer
      → Allows (λ h'. entries h' ≡ entries h) (receives limit h phase buffer)
  unfolding receives serve_one
  entries-receives h serving [] _ = tt
  entries-receives h serving (x ∷ rest) e =
      if_prove (λ h'. entries h' ≡ entries h) (ltb (length (h.batch ++ x ∷ [])) limit)
        (λ _. entries-received h x rest e)
        (λ _. entries-flush_batch (received x rest h) ∙ entries-received h x rest e)
  entries-receives h draining [] e = entries-flush_batch h
  entries-receives h draining (x ∷ rest) e = entries-received h x rest e
  entries-receives h exited _ _ = tt

  entries-ticks :
      (h : Half A) (phase : Phase) → Allows (λ h'. entries h' ≡ entries h) (ticks h phase)
  unfolding ticks
  entries-ticks h serving = entries-flush_batch h
  entries-ticks h draining = tt
  entries-ticks h exited = tt

  entries-observes_stop :
      (h : Half A) (phase : Phase) (stopped : Bool)
      → Allows (λ h'. entries h' ≡ entries h) (observes_stop h phase stopped)
  unfolding observes_stop
  entries-observes_stop h serving true = refl
  entries-observes_stop h serving false = tt
  entries-observes_stop h draining _ = tt
  entries-observes_stop h exited _ = tt

  entries-perform :
      (e : Event) (h : Half A)
      → not (of_flush e) ≡ true
      → Allows (λ h'. entries h' ≡ entries h) (perform limit e h)
  unfolding perform close of_flush
  entries-perform work_receive h _ = entries-receives h h.phase h.channel.buffer refl
  entries-perform work_tick h _ = entries-ticks h h.phase
  entries-perform work_stop h _ = entries-observes_stop h h.phase h.stopped
  entries-perform do_flush h e = cc
  entries-perform flush_next h e = cc
  entries-perform do_close h _ = refl

  module _ (buffer_size : ℕ) where
    -- While no call of `Flush` runs, the bulk inserts, the batch and the channel hold the entries
    -- that the channel took in, in the order in which it did.
    pub Reach-ordered :
        {h : Half A} {accepted : List A}
        → Reach limit (λ e. not (of_flush e)) buffer_size h accepted
        → entries h ≡ accepted
    unfolding send_or_drop
    Reach-ordered begin = refl
    Reach-ordered (taken {h = h} {accepted = accepted} x r room) =
        if_prove (λ h'. entries h' ≡ accepted ++ x ∷ [])
          (ltb (length h.channel.buffer) h.channel.capacity)
          (λ _.
            rw
              (
                sym (append_assoc h.batch h.channel.buffer (x ∷ [])),
                sym (append_assoc (concat h.inserts) (h.batch ++ h.channel.buffer) (x ∷ [])),
              )
              (ap (λ xs. xs ++ x ∷ []) (Reach-ordered r)))
          (λ no. absurd (ground (arith, room)))
    Reach-ordered (full {h = h} {accepted = accepted} x r no_room) =
        if_prove (λ h'. entries h' ≡ accepted) (ltb (length h.channel.buffer) h.channel.capacity)
          (λ yes. absurd (ground (arith, no_room))) (λ _. Reach-ordered r)
    Reach-ordered (inside {h = h} e r quiet f) =
        Allows-at (λ h'. entries h' ≡ entries h) (entries-perform e h quiet) f ∙ Reach-ordered r

-- Where a worker that drains ends: it returned, with nothing left in the batch or the channel.
pub record Drained {ℓ} {A : Type ℓ} (handed : List A) (h : Half A) : Type ℓ where
  pub returned : h.phase ≡ exited
  pub nothing_left : (h.batch ≡ []) × (h.channel.buffer ≡ [])
  pub all_handed : concat h.inserts ≡ handed

module _ {ℓ} {A : Type ℓ} (limit : ℕ) where
  rounds-Drained :
      (h : Half A) (phase : Phase) (buffer : List A)
      → phase ≡ h.phase
      → phase ≡ draining
      → buffer ≡ h.channel.buffer
      → Returns
          (Drained (entries h))
          (receives limit h phase buffer >>= λ h'. rounds limit (length buffer) h')
  unfolding rounds receives flush_batch
  rounds-Drained h draining [] e d f = returns (record {
    returned = refl;
    nothing_left = (refl, sym f);
    all_handed =
        concat-insert_batch h.batch h.inserts
        ∙ ap (λ xs. concat h.inserts ++ xs) (sym (append-nil h.batch) ∙ ap (λ xs. h.batch ++ xs) f);
  })
  rounds-Drained h draining (x ∷ rest) e d f =
      subst (λ xs. Returns (Drained xs) (rounds limit (suc (length rest)) (received x rest h)))
        (entries-received h x rest f)
        (rounds-Drained (received x rest h) h.phase rest refl (sym e) refl)
  rounds-Drained h serving _ e d f = cc
  rounds-Drained h exited _ e d f = cc

  -- If the worker of a log that was stopped has begun to drain, no call of `Flush` has run, and no
  -- other goroutine uses the channel from there on, then the worker returns after one round for
  -- each entry in the channel and one more, with every entry that the channel took in handed to a
  -- bulk insert, in the order in which it did. Whether that insert succeeds is the database's: one
  -- that fails loses its entries.
  pub rounds-delivers :
      {buffer_size : ℕ} {h : Half A} {accepted : List A}
      → Reach limit (λ e. not (of_flush e)) buffer_size h accepted
      → h.phase ≡ draining
      → Returns (Drained accepted) (rounds limit (suc (length h.channel.buffer)) h)
  unfolding rounds
  rounds-delivers {buffer_size} {h} r e =
      subst (λ xs. Returns (Drained xs) (rounds limit (suc (length h.channel.buffer)) h))
        (Reach-ordered limit buffer_size r) (rounds-Drained h h.phase h.channel.buffer refl e refl)
