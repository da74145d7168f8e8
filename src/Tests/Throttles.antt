-- ===== src/Tests/Throttles.antt =====
-- Two calls that find the same last line: the clock of both says 7, and one of them prints.
use llmproxy.Common.{ℕ, refl, [], ◌∷◌}
use llmproxy.Logging.Throttle.{
  add_blocked, Attempt, load_last, swap_last, reset_blocked, Calls, counts, loads, swaps, resets,
  Reach, start, next, IsSpaced, Reach-IsSpaced,
}

abbrev attempt : ℕ → Attempt
attempt count = record { count = count; now = 7; last = 0 }

abbrev reset : Calls
reset = record {
  throttle = record { blocked = 0; last = 7; printed = 7 ∷ [] };
  counted = [];
  attempts = [];
  printing = 0;
}

reset-Reach : Reach reset
unfolding add_blocked load_last swap_last reset_blocked
reset-Reach =
    next
      (next
        (next
          (next (next (next (next start counts) counts) (loads 2 7 [] (1 ∷ []) refl))
            (loads 1 7 [] [] refl))
          (swaps (attempt 1) [] (attempt 2 ∷ []) refl))
        (swaps (attempt 2) [] [] refl))
      (resets 0 refl)

Reach-IsSpaced_example : IsSpaced reset.throttle.printed
Reach-IsSpaced_example = Reach-IsSpaced reset-Reach
