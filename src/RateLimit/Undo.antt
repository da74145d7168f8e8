-- ===== src/RateLimit/Undo.antt =====
-- A refused request gives back what it had reserved.
use Prim.Native.String.{String}
use llmproxy.Common.{
  ℕ, ◌+◌, ◌≡◌, refl, ap, true, false, List, [], ◌∷◌, ◌++◌, arith, if◌then◌else◌, Bool-cases, inl,
  inr, ◌⊎◌, if_prove, none, some, Option-cases, ◌∙◌,
}
use llmproxy.Common.Int.{ℤ, pos, negsuc, ◌+ℤ◌, ◌-ℤ◌, leb_ℤ}
use llmproxy.Common.Eq.{Bytes, bytes_eq, bytes_eq_sound}
use llmproxy.Cache.{Cache, IsFallible, Restores}
use llmproxy.RateLimit.{
  FloatOps, Limiter, Layer, Decision, Checked, pass, stop, undo, rpm_key, window_timestamp,
  rpm_loop, tpm_loop, allow_request, unlimited, check_tpm, get_count, second_of, rpm_blocked,
  cache_error, log_active_limit, rpm_layers, tpm_layers, estimate, counter_ttl,
}

-- How often a key was incremented.
pub times : Bytes → List Bytes → ℕ
times j [] = 0
times j (k ∷ ks) = (if bytes_eq k j then 1 else 0) + times j ks

times-append_one :
    (j k : Bytes) (ks : List Bytes)
    → times j (ks ++ k ∷ []) ≡ times j ks + (if bytes_eq k j then 1 else 0)
unfolding times
times-append_one j k [] = omega arith
times-append_one j k (i ∷ ks) = omega (arith, times-append_one j k ks)

module _ {S : Type 0} (c : Cache S) (store : IsFallible c) (restores : Restores c) where
  open store use {count}

  -- What a decrement leaves.
  decr_count :
      (k j : Bytes) (s : S)
      → count j (c.incr_by k (negsuc 0) counter_ttl s).0
        ≡ (if bytes_eq k j then count k s +ℤ negsuc 0 else count j s)
  decr_count k j s =
      let (v, e) = restores k counter_ttl s in
      (store.incr_done k (negsuc 0) counter_ttl s v (omega arith) e).1 j

  -- The state `s` is `s₀` with one increment for each key of the list.
  pub Reserves : S → List Bytes → S → Type 0
  Reserves s₀ ks s = (j : Bytes) → count j s ≡ count j s₀ +ℤ pos (times j ks)

  undo_count :
      (ks : List Bytes) (j : Bytes) (s : S) → count j s ≡ count j (undo c ks s) +ℤ pos (times j ks)
  unfolding undo times ◌+ℤ◌
  undo_count [] j s = ground arith
  undo_count (k ∷ ks) j s =
      let s' = (c.incr_by k (negsuc 0) counter_ttl s).0 in
      let ih = undo_count ks j s' in
      let one = decr_count k j s in
      elim (Bool-cases (bytes_eq k j)) [
        | inl same ↦
            let e : count k s ≡ count j s = ap (λ i. count i s) (bytes_eq_sound k j same) in
            rw same (ground (arith, ih, rw same at one, e))
        | inr other ↦ rw other (ground (arith, ih, rw other at one))
      ]

  Reserves-incr :
      (s₀ : S) (ks : List Bytes) (s : S) (k : Bytes) (v : ℤ)
      → (c.incr_by k (pos 1) counter_ttl s).1 ≡ some v
      → Reserves s₀ ks s
      → Reserves s₀ (ks ++ k ∷ []) (c.incr_by k (pos 1) counter_ttl s).0
  unfolding Reserves ◌+ℤ◌
  Reserves-incr s₀ ks s k v e h j =
      let one = (store.incr_done k (pos 1) counter_ttl s v (omega arith) e).1 j in
      elim (Bool-cases (bytes_eq k j)) [
        | inl same ↦
            let e : count k s ≡ count j s = ap (λ i. count i s) (bytes_eq_sound k j same) in
            ground (arith, h j, rw same at one, e, rw same at (times-append_one j k ks))
        | inr other ↦ ground (arith, h j, rw other at one, rw other at (times-append_one j k ks))
      ]

  -- An increment that failed is no reservation.
  Reserves-failed :
      (s₀ : S) (ks : List Bytes) (s : S) (k : Bytes)
      → (c.incr_by k (pos 1) counter_ttl s).1 ≡ none
      → Reserves s₀ ks s
      → Reserves s₀ ks (c.incr_by k (pos 1) counter_ttl s).0
  unfolding Reserves
  Reserves-failed s₀ ks s k e h j =
      store.incr_failed k j (pos 1) counter_ttl s (omega arith) e ∙ h j

  -- What the RPM loop leaves behind: its reservations, or nothing.
  Settled : S → S × Checked → Type 0
  Settled s₀ (s, pass ks) = Reserves s₀ ks s
  Settled s₀ (s, stop d) = (d.allowed ≡ false) × ((j : Bytes) → count j s ≡ count j s₀)

  Settled-pass : (s₀ s : S) (ks : List Bytes) → Reserves s₀ ks s → Settled s₀ (s, pass ks)
  unfolding Settled
  Settled-pass s₀ s ks h = h

  Settled-stop :
      (s₀ s : S) (d : Decision)
      → d.allowed ≡ false
      → ((j : Bytes) → count j s ≡ count j s₀)
      → Settled s₀ (s, stop d)
  unfolding Settled
  Settled-stop s₀ s d e h = (e, h)

  undo-Reserves :
      (s₀ : S) (ks : List Bytes) (s : S)
      → Reserves s₀ ks s
      → (j : Bytes) → count j (undo c ks s) ≡ count j s₀
  unfolding Reserves ◌+ℤ◌
  undo-Reserves s₀ ks s h j = ground (arith, h j, undo_count ks j s)

  module _ (F : FloatOps) (now : ℕ) where
    rpm_loop-Settled :
        (layers : List Layer) (ks : List Bytes) (s₀ s : S)
        → Reserves s₀ ks s
        → Settled s₀ (rpm_loop F c now layers ks s)
    unfolding rpm_loop
    rpm_loop-Settled [] ks s₀ s h = Settled-pass s₀ s ks h
    rpm_loop-Settled (layer ∷ layers) ks s₀ s h =
        let k = rpm_key layer.scope layer.id (window_timestamp now) in
        let r = c.incr_by k (pos 1) counter_ttl s in
        let before = get_count c (rpm_key layer.scope layer.id (window_timestamp now -ℤ pos 1)) s in
        if_prove (Settled s₀) (leb_ℤ layer.limit (pos 0)) (λ _. rpm_loop-Settled layers ks s₀ s h)
          (λ _. elim (Option-cases r.1) [
            | inl e ↦ rw e (
                Settled-stop s₀ _ cache_error refl
                  (undo-Reserves s₀ ks r.0 (Reserves-failed s₀ ks s k e h)))
            | inr (v, e) ↦
                let counted = Reserves-incr s₀ ks s k v e h in
                let estimated = estimate F v before (second_of now) in
                rw e (
                  if_prove (Settled s₀) (F.gtb estimated (F.of_int layer.limit))
                    (λ _.
                      Settled-stop s₀ _ (rpm_blocked F estimated layer.limit) refl
                        (undo-Reserves s₀ (ks ++ k ∷ []) _ counted))
                    (λ _. rpm_loop-Settled layers (ks ++ k ∷ []) s₀ _ counted))
          ])

    -- What the TPM loop leaves behind.
    Concluded : S → List Bytes → S × Decision → Type 0
    Concluded s₀ ks (s, d) =
        ((d.allowed ≡ true) × Reserves s₀ ks s)
        ⊎ ((d.allowed ≡ false) × ((j : Bytes) → count j s ≡ count j s₀))

    tpm_loop-Concluded :
        (layers : List Layer) (ks : List Bytes) (s₀ s : S)
        → Reserves s₀ ks s
        → Concluded s₀ ks (tpm_loop F c now layers ks s)
    unfolding tpm_loop Concluded
    tpm_loop-Concluded [] ks s₀ s h = inl (refl, h)
    tpm_loop-Concluded (layer ∷ layers) ks s₀ s h =
        let rest = tpm_loop-Concluded layers ks s₀ s h in
        if_prove (Concluded s₀ ks) (leb_ℤ layer.limit (pos 0)) (λ _. rest)
          (λ _. if_prove (Concluded s₀ ks) _ (λ _. inr (refl, undo-Reserves s₀ ks s h)) (λ _. rest))

    check_tpm-Concluded :
        (l : Limiter) (layers : List Layer) (s₀ : S) (r : S × Checked)
        → Settled s₀ r
        → (check_tpm F c now l layers r).2.allowed ≡ false
        → (j : Bytes) → count j (check_tpm F c now l layers r).0 ≡ count j s₀
    unfolding check_tpm Settled Concluded
    check_tpm-Concluded l layers s₀ (s, stop d) h e j = h.1 j
    check_tpm-Concluded l layers s₀ (s, pass ks) h e j =
        elim (tpm_loop-Concluded layers ks s₀ s h) [
          | inl (yes_, _) ↦ cc (e, yes_)
          | inr (_, same) ↦ same j
        ]

    Reserves-none : (s : S) → Reserves s [] s
    unfolding Reserves times ◌+ℤ◌
    Reserves-none s j = ground arith

    -- Over a store in which an increment may fail, and then does nothing, but a decrement does not: a
    -- request that the limiter refuses, because a count or an estimate passes a limit or because an
    -- increment failed, leaves every counter of the store as it was.
    pub allow_request_refused :
        (l : Limiter) (key_id alias : String) (s : S)
        → (allow_request F c now l key_id alias s).2.allowed ≡ false
        → (j : Bytes) → count j (allow_request F c now l key_id alias s).0 ≡ count j s
    unfolding allow_request
    allow_request_refused l key_id alias s =
        if_prove
          (λ (r : S × Limiter × Decision).
            r.2.allowed ≡ false → (j : Bytes) → count j r.0 ≡ count j s)
          (unlimited l key_id alias) (λ _ e j. refl)
          (λ _.
            check_tpm-Concluded (log_active_limit l key_id alias) (tpm_layers l key_id alias) s _
              (rpm_loop-Settled (rpm_layers l key_id alias) [] s s (Reserves-none s)))
