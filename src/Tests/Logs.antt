-- ===== src/Tests/Logs.antt =====
-- Runs of the asynchronous log.
use llmproxy.Common.{ℕ, refl, Bool, true, false, not, [], ◌∷◌, none, some, arith}
use llmproxy.Common.Returns.{Returns}
use llmproxy.AsyncLogger.{
  Half, serving, draining, new_half, send_or_drop, Event, of_flush, work_receive, work_stop,
  do_flush, flush_next, do_close, perform, rounds, Reach, begin, taken, full, inside,
}
use llmproxy.AsyncLogger.Accounting.{Accounted, Reach-Accounted}
use llmproxy.AsyncLogger.Order.{Drained, rounds-delivers}

-- Two entries are taken in, and a third one is dropped.
abbrev busy : Half ℕ
busy = send_or_drop 9 (send_or_drop 8 (send_or_drop 7 (new_half 2)))

busy-Reach : (may : Event → Bool) → Reach 2 may 2 busy (7 ∷ 8 ∷ [])
unfolding send_or_drop
busy-Reach may = full 9 (taken 8 (taken 7 begin (omega arith)) (omega arith)) (omega arith)

-- The worker has one of them in its batch, and `Flush` has the other.
abbrev shared : Half ℕ
shared = record {
  channel = record { capacity = 2; buffer = [] };
  batch = 7 ∷ [];
  phase = serving;
  stopped = false;
  flushing = some (8 ∷ []);
  inserts = [];
  dropped = 1;
}

shared-Reach : Reach 2 (λ _. true) 2 shared (7 ∷ 8 ∷ [])
unfolding send_or_drop perform
shared-Reach =
    inside flush_next
      (inside do_flush (inside work_receive (busy-Reach (λ _. true)) refl refl) refl refl) refl refl

Reach-Accounted_example : Accounted 2 2 (7 ∷ 8 ∷ []) shared
Reach-Accounted_example = Reach-Accounted 2 2 (omega arith) shared-Reach

-- The worker of a stopped log before its first receive.
abbrev stopped_log : Half ℕ
stopped_log = record {
  channel = record { capacity = 2; buffer = 7 ∷ 8 ∷ [] };
  batch = [];
  phase = draining;
  stopped = true;
  flushing = none;
  inserts = [];
  dropped = 1;
}

stopped_log-Reach : Reach 2 (λ e. not (of_flush e)) 2 stopped_log (7 ∷ 8 ∷ [])
unfolding send_or_drop perform of_flush
stopped_log-Reach =
    inside work_stop (inside do_close (busy-Reach (λ e. not (of_flush e))) refl refl) refl refl

rounds-delivers_example : Returns (Drained (7 ∷ 8 ∷ [])) (rounds 2 3 stopped_log)
rounds-delivers_example = rounds-delivers 2 stopped_log-Reach refl
