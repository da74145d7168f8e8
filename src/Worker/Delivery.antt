-- ===== src/Worker/Delivery.antt =====
-- What the client of a request gets from the attempts, if a failed attempt holds back all it wrote.
use Prim.Native.String.{String}
use llmproxy.Common.{
  ℕ, zero, suc, ◌*◌, ◌≡◌, refl, Bool, true, false, List, [], ◌∷◌, Option, some, Mem, Option-cases,
  inl, inr,
}
use llmproxy.Common.Int.{ℤ}
use llmproxy.Common.Returns.{Returns, returns, Returns-bind, Returns-if, Returns-value}
use llmproxy.Domain.{ModelNode, AttemptLog, ExecutionResult}
use llmproxy.Http.{ResponseWriter}
use llmproxy.Proxy.{Forwarded}
use llmproxy.RetryRecorder.{Recorder, new_recorder}
use llmproxy.Worker.{
  pick_node, succeeded, will_retry, retry_loop, rounds, start_with, serve_candidates, failure,
  success, status_of, finish_failed, error_type_of,
}
use llmproxy.Worker.Attempts.{pick_node-Eligible}

module _ (forward : ℕ → ModelNode → Recorder → Option Forwarded) (candidates : List ModelNode)
    (w : ResponseWriter) where
  -- How a request ends for the client, whose writer is `w` before.
  pub data Served : ResponseWriter × ExecutionResult → Type 0 where
    delivered :
        (attempt : ℕ) (node : ModelNode) (f : Forwarded) (attempts : List AttemptLog)
        → Mem node candidates
        → node.enabled ≡ true
        → forward attempt node (new_recorder w) ≡ some f
        → succeeded f ≡ true
        → Served (f.recorder.w, success node f attempts)
    gave_up :
        (attempt : ℕ) (node : ModelNode) (f : Forwarded) (attempts : List AttemptLog)
        → Mem node candidates
        → forward attempt node (new_recorder w) ≡ some f
        → succeeded f ≡ false
        → Served
            (finish_failed f, failure (status_of f) (error_type_of f) (error_type_of f) attempts)
    untouched :
        (status : ℤ) (error : String) (attempts : List AttemptLog)
        → Served (w, failure status error "" attempts)

  module _
      (total : (attempt : ℕ) (node : ModelNode)
        → Mem node candidates
        → Returns (λ (f : Forwarded). Unit {0}) (forward attempt node (new_recorder w)))
      (holds_back : (attempt : ℕ) (node : ModelNode) (f : Forwarded)
        → Mem node candidates
        → forward attempt node (new_recorder w) ≡ some f
        → succeeded f ≡ false
        → f.recorder.w ≡ w)
      (draw : ℕ → ℕ) (cancelled : ℕ → Bool) (max_attempts : ℤ) where
    forwarded :
        (attempt : ℕ) (node : ModelNode)
        → Mem node candidates
        → Returns
            (λ f. forward attempt node (new_recorder w) ≡ some f)
            (forward attempt node (new_recorder w))
    forwarded attempt node there =
        let (f, e, _) = Returns-value (total attempt node there) in rw e (returns refl)

    retry_loop-Served :
        (k attempt : ℕ) (excluded : List String) (attempts : List AttemptLog)
        → Returns Served (
            retry_loop forward draw cancelled max_attempts candidates k attempt excluded attempts w)
    unfolding retry_loop
    retry_loop-Served zero attempt excluded attempts = returns (untouched _ _ attempts)
    retry_loop-Served (suc k) attempt excluded attempts =
        Returns-if (cancelled attempt) (λ _. returns (untouched _ _ attempts))
          (λ _. elim (Option-cases (pick_node (draw (2 * attempt)) candidates excluded)) [
            | inl e ↦ rw e (returns (untouched _ _ attempts))
            | inr (node, e) ↦
                let fit = pick_node-Eligible _ candidates excluded node e in
                rw e (
                  Returns-bind (forwarded attempt node fit.0) λ f at.
                    Returns-if (succeeded f)
                      (λ good. returns (delivered attempt node f _ fit.0 fit.1.0 at good))
                      (λ bad.
                        Returns-if
                          (will_retry forward draw cancelled max_attempts candidates attempt
                            (node.id ∷ excluded))
                          (λ _.
                            rw (holds_back attempt node f fit.0 at bad)
                              (retry_loop-Served k (suc attempt) (node.id ∷ excluded) _))
                          (λ _. returns (gave_up attempt node f _ fit.0 at bad))))
          ])

    start_with-Served :
        (cs : List ModelNode)
        → Returns Served (start_with forward draw cancelled max_attempts candidates cs w)
    unfolding start_with
    start_with-Served [] = returns (untouched _ _ [])
    start_with-Served (n ∷ ns) = retry_loop-Served (rounds max_attempts) 1 [] []

    -- If every attempt at a candidate returns, and one that fails leaves the client's writer as it
    -- was, then the client gets the whole output of one attempt and no other: that of a successful
    -- attempt at an enabled candidate, which the result names, or what a failed attempt held back or
    -- an error page in its place; or nothing at all, with a failure as the result.
    pub serve_candidates_delivers :
        Returns Served (serve_candidates forward draw cancelled max_attempts candidates w)
    unfolding serve_candidates
    serve_candidates_delivers = start_with-Served candidates
