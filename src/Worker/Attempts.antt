-- ===== src/Worker/Attempts.antt =====
-- Which nodes a request is tried at, and how often.
use mathlib.Core.Bool.{Bool-set}
use mathlib.Core.HLevel.{×_prop}
use mathlib.Core.List.{Mem-prop, not-mem-nil, mem-cons_self, mem-cons_of_mem, eq-or-mem_of_mem-cons}
use mathlib.Core.Logic.Or
use mathlib.Core.Option.{some-injective}
use Prim.Native.String.{String}
use text.Mathlib.Text.{◌==◌ as str_eq}
use text.Mathlib.TextEquality.{eq_iff}
use llmproxy.Common.{
  ℕ, zero, suc, ◌+◌, ◌*◌, ◌≤◌, ◌≡◌, refl, ap, Bool, true, false, ◌&&◌, not, List, [], ◌∷◌, ◌++◌,
  Option, some, Mem, arith, All, All-append, length, length-append, get_elem?, if_prove, Bool-cases,
  Option-cases, inl, inr,
}
use llmproxy.Common.Int.{ℤ}
use llmproxy.Common.Returns.{Returns, returns, Returns-bind, Returns-if}
use llmproxy.Domain.{ModelNode, AttemptLog, ExecutionResult}
use llmproxy.Http.{ResponseWriter}
use llmproxy.Proxy.{Forwarded}
use llmproxy.Router.{pick}
use llmproxy.RetryRecorder.{Recorder, new_recorder}
use llmproxy.Worker.{
  is_excluded, available, pick_node, log_of, succeeded, will_retry, retry_loop, rounds, start_with,
  serve_candidates, failure, success, finish_failed,
}

mem_of_get_elem? :
    (ns : List ModelNode) (i : ℕ) (n : ModelNode) → get_elem? ns i ≡ some n → Mem n ns
mem_of_get_elem? [] i n h = cc
mem_of_get_elem? (m ∷ ns) zero n h = rw (some-injective _ _ h) mem-cons_self
mem_of_get_elem? (m ∷ ns) (suc i) n h = mem-cons_of_mem m (mem_of_get_elem? ns i n h)

-- A picked node is one of those offered.
pub pick-mem : (draw : ℕ) (ns : List ModelNode) (n : ModelNode) → pick draw ns ≡ some n → Mem n ns
unfolding pick
pick-mem draw [] n h = cc
pick-mem draw (m ∷ []) n h = rw (some-injective _ _ h) mem-cons_self
pick-mem draw (m ∷ k ∷ ns) n h = mem_of_get_elem? (m ∷ k ∷ ns) _ n h

abbrev pub Eligible : List ModelNode → List String → ModelNode → Type 0
Eligible candidates excluded n =
    Mem n candidates × ((n.enabled ≡ true) × (is_excluded n.id excluded ≡ false))

available-Eligible :
    (ns : List ModelNode) (excluded : List String) (n : ModelNode)
    → Mem n (available ns excluded)
    → Eligible ns excluded n
unfolding available
available-Eligible [] excluded n = λ h. absurd (not-mem-nil h)
available-Eligible (m ∷ ns) excluded n =
    let later : Mem n (available ns excluded) → Eligible (m ∷ ns) excluded n = λ h.
      let (found, fit) = available-Eligible ns excluded n h in (mem-cons_of_mem m found, fit) in
    if_prove (λ ms. Mem n ms → Eligible (m ∷ ns) excluded n)
      (not (is_excluded m.id excluded) && m.enabled)
      (λ fit h.
        Or.elim (×_prop Mem-prop (×_prop (Bool-set _ _) (Bool-set _ _))) (eq-or-mem_of_mem-cons h)
          (λ same. (rw same mem-cons_self, rw same (ground (arith, fit), ground (arith, fit))))
          later)
      (λ _. later)

pub pick_node-Eligible :
    (draw : ℕ) (candidates : List ModelNode) (excluded : List String) (n : ModelNode)
    → pick_node draw candidates excluded ≡ some n
    → Eligible candidates excluded n
unfolding pick_node
pick_node-Eligible draw candidates excluded n h =
    available-Eligible candidates excluded n (pick-mem draw _ n h)

-- No node is tried twice.
abbrev pub Distinct : List AttemptLog → Type 0
Distinct [] = Unit
Distinct (a ∷ as_) = All (λ b. str_eq a.node_id b.node_id ≡ false) as_ × Distinct as_

Distinct-append_last :
    (as_ : List AttemptLog) (x : AttemptLog)
    → Distinct as_
    → All (λ a. str_eq a.node_id x.node_id ≡ false) as_
    → Distinct (as_ ++ x ∷ [])
Distinct-append_last [] x d h = (tt, tt)
Distinct-append_last (a ∷ as_) x d h =
    (All-append _ as_ (x ∷ []) d.0 (h.0, tt), Distinct-append_last as_ x d.1 h.1)

All-map :
    {P Q : AttemptLog → Type 0} (as_ : List AttemptLog)
    → ((a : AttemptLog) → P a → Q a)
    → All P as_
    → All Q as_
All-map [] k h = tt
All-map (a ∷ as_) k h = (k a h.0, All-map as_ k h.1)

excluded-differs :
    (x y : String) (excluded : List String)
    → is_excluded x excluded ≡ true
    → is_excluded y excluded ≡ false
    → str_eq x y ≡ false
excluded-differs x y excluded h k = elim (Bool-cases (str_eq x y)) [
  | inl e ↦ cc (h, k, (eq_iff x y).0 e)
  | inr e ↦ e
]

-- The attempts made so far: distinct eligible nodes, all of them excluded, and no more than `n`.
pub record Tried (candidates : List ModelNode) (excluded : List String) (n : ℕ)
    (attempts : List AttemptLog) : Type 0 where
  pub distinct : Distinct attempts
  pub offered :
      All
        (λ a. (m : ModelNode) × Mem m candidates × (m.enabled ≡ true) × (m.id ≡ a.node_id))
        attempts
  pub barred : All (λ a. is_excluded a.node_id excluded ≡ true) attempts
  pub few : length attempts ≤ n

Tried-add :
    {candidates : List ModelNode} {excluded : List String} {n : ℕ} {attempts : List AttemptLog}
    (attempt : ℕ) (node : ModelNode) (f : Forwarded)
    → Eligible candidates excluded node
    → Tried candidates excluded n attempts
    → Tried candidates (node.id ∷ excluded) (suc n) (attempts ++ log_of attempt node f ∷ [])
unfolding log_of is_excluded
Tried-add {candidates} {excluded} {n} {attempts} attempt node f (there, (on, fresh)) t = record {
  distinct =
      Distinct-append_last attempts _ t.distinct
        (All-map attempts (λ a h. excluded-differs a.node_id node.id excluded h fresh) t.barred);
  offered = All-append _ attempts _ t.offered ((node, there, on, refl), tt);
  barred =
      All-append _ attempts _ (All-map attempts (λ a h. ground (arith, h)) t.barred)
        (ground (arith, (eq_iff node.id node.id).1 refl), tt);
  few = omega (arith, length-append attempts (log_of attempt node f ∷ []), t.few);
}

none-Tried : {candidates : List ModelNode} → Tried candidates [] 0 []
none-Tried = record { distinct = tt; offered = tt; barred = tt; few = omega arith }

-- What holds of the attempts of a result.
pub record Fair (candidates : List ModelNode) (max_attempts : ℤ) (res : ExecutionResult)
    : Type 0 where
  pub distinct : Distinct res.attempts
  pub offered :
      All
        (λ a. (m : ModelNode) × Mem m candidates × (m.enabled ≡ true) × (m.id ≡ a.node_id))
        res.attempts
  pub few : length res.attempts ≤ rounds max_attempts

abbrev pub Done : List ModelNode → ℤ → ResponseWriter × ExecutionResult → Type 0
Done candidates max_attempts (w, res) = Fair candidates max_attempts res

module _ (forward : ℕ → ModelNode → Recorder → Option Forwarded) (candidates : List ModelNode)
    (total : (attempt : ℕ) (node : ModelNode) (r : Recorder)
      → Mem node candidates
      → Returns (λ (f : Forwarded). Unit {0}) (forward attempt node r))
    (draw : ℕ → ℕ) (cancelled : ℕ → Bool) (max_attempts : ℤ) where
  stop_here :
      {excluded : List String} {n : ℕ} {attempts : List AttemptLog} (w : ResponseWriter)
      (res : ExecutionResult)
      → Tried candidates excluded n attempts
      → n ≤ rounds max_attempts
      → res.attempts ≡ attempts
      → Returns (Done candidates max_attempts) (some (w, res))
  stop_here w res t le e = returns (record {
    distinct = rw e t.distinct;
    offered = rw e t.offered;
    few = omega (arith, t.few, ap length e);
  })

  retry_loop-Fair :
      (k attempt n : ℕ) (excluded : List String) (attempts : List AttemptLog) (w : ResponseWriter)
      → n + k ≤ rounds max_attempts
      → Tried candidates excluded n attempts
      → Returns
          (Done candidates max_attempts)
          (retry_loop forward draw cancelled max_attempts candidates k attempt excluded attempts w)
  unfolding retry_loop failure success
  retry_loop-Fair zero attempt n excluded attempts w le t = stop_here w _ t (omega arith) refl
  retry_loop-Fair (suc k) attempt n excluded attempts w le t =
      Returns-if (cancelled attempt) (λ _. stop_here w _ t (omega arith) refl)
        (λ _. elim (Option-cases (pick_node (draw (2 * attempt)) candidates excluded)) [
          | inl e ↦ rw e (stop_here w _ t (omega arith) refl)
          | inr (node, e) ↦ rw e (
              let fit = pick_node-Eligible _ candidates excluded node e in
              Returns-bind (total attempt node (new_recorder w) fit.0) λ f _.
                let t' = Tried-add attempt node f fit t in
                Returns-if (succeeded f) (λ _. stop_here f.recorder.w _ t' (omega arith) refl)
                  (λ _.
                    Returns-if
                      (will_retry forward draw cancelled max_attempts candidates attempt
                        (node.id ∷ excluded))
                      (λ _.
                        retry_loop-Fair k (suc attempt) (suc n) (node.id ∷ excluded) _ f.recorder.w
                          (omega arith) t')
                      (λ _. stop_here (finish_failed f) _ t' (omega arith) refl)))
        ])

  start_with-Fair :
      (cs : List ModelNode) (w : ResponseWriter)
      → Returns
          (Done candidates max_attempts)
          (start_with forward draw cancelled max_attempts candidates cs w)
  unfolding start_with failure
  start_with-Fair [] w = stop_here w _ none-Tried (omega arith) refl
  start_with-Fair (n ∷ ns) w =
      retry_loop-Fair (rounds max_attempts) 1 0 [] [] w (omega arith) none-Tried

  -- If every attempt at a candidate returns, the retries end with a result, whatever the errors, the
  -- draws and the cancellations are: no more than `MaxRetryAttempts` attempts are logged, none if
  -- that is negative, no two at nodes of one id, and each at a node that is an enabled candidate.
  pub serve_candidates_fair :
      (w : ResponseWriter)
      → Returns
          (Done candidates max_attempts)
          (serve_candidates forward draw cancelled max_attempts candidates w)
  unfolding serve_candidates
  serve_candidates_fair w = start_with-Fair candidates w
