-- ===== src/RateLimit/Charging.antt =====
-- RecordTokens charges the tokens of a request to the current window of each layer, and to nothing
-- else.
use Prim.Native.String.{String}
use text.Mathlib.Text.{◌==◌ as str_eq}
use llmproxy.Common.{
  arith, ℕ, ◌≡◌, refl, ap, sym, ◌∙◌, Bool, false, ◌||◌, List, [], ◌∷◌, if◌then◌else◌, Bool-cases,
  inl, inr,
}
use llmproxy.Common.Int.{ℤ, pos, ◌+ℤ◌, leb_ℤ}
use llmproxy.Common.Eq.{Bytes, bytes_eq, bytes_eq_sound}
use llmproxy.Cache.{Cache, IsCounting}
use llmproxy.RateLimit.{tpm_key, window_timestamp, record_loop, record_tokens, counter_ttl}

abbrev pub is_one_of : Bytes → List Bytes → Bool
is_one_of j [] = false
is_one_of j (k ∷ ks) = bytes_eq k j || is_one_of j ks

abbrev AreDistinct : List Bytes → Type 0
AreDistinct [] = Unit
AreDistinct (k ∷ ks) = (is_one_of k ks ≡ false) × AreDistinct ks

-- The keys of the counters that a request is charged to.
abbrev pub charged_keys : ℕ → String → String → List Bytes
charged_keys now key_id alias =
    let ts = window_timestamp now in
    tpm_key "global" "" ts ∷ tpm_key "model" alias ts ∷ tpm_key "key" key_id ts ∷ []

charged_keys-AreDistinct :
    (now : ℕ) (key_id alias : String) → AreDistinct (charged_keys now key_id alias)
unfolding tpm_key
charged_keys-AreDistinct now key_id alias = elim (Bool-cases (str_eq alias "")) [
  | inl e ↦ elim (Bool-cases (str_eq key_id "")) [
    | inl f ↦ rw (e, f) (refl, (refl, (refl, tt)))
    | inr f ↦ rw (e, f) (refl, (refl, (refl, tt)))
  ]
  | inr e ↦ elim (Bool-cases (str_eq key_id "")) [
    | inl f ↦ rw (e, f) (refl, (refl, (refl, tt)))
    | inr f ↦ rw (e, f) (refl, (refl, (refl, tt)))
  ]
]

module _ {S : Type 0} (c : Cache S) (counting : IsCounting c) where
  open counting use {count}

  record_loop_charged :
      (ks : List Bytes) (delta : ℤ) (s : S) (j : Bytes)
      → AreDistinct ks
      → count j (record_loop c ks delta s).0
        ≡ (if is_one_of j ks then count j s +ℤ delta else count j s)
  unfolding record_loop
  record_loop_charged [] delta s j d = refl
  record_loop_charged (k ∷ ks) delta s j d =
      let one = counting.incr_count k j delta counter_ttl s (omega arith) in
      rw (counting.incr_value k delta counter_ttl s (omega arith), record_loop)
        (record_loop_charged ks delta (c.incr_by k delta counter_ttl s).0 j d.1
          ∙ elim (Bool-cases (bytes_eq k j)) [
            | inl e ↦
                let same : k ≡ j = bytes_eq_sound k j e in
                let last : is_one_of j ks ≡ false = ap (λ i. is_one_of i ks) (sym same) ∙ d.0 in
                rw (e, last) (one ∙ rw e (ap (λ i. count i s +ℤ delta) same))
            | inr e ↦
                let kept : count j (c.incr_by k delta counter_ttl s).0 ≡ count j s =
                  one ∙ rw e refl in
                rw e (ap (λ z. if is_one_of j ks then z +ℤ delta else z) kept)
          ])

  -- Over a counting store, `RecordTokens` of a positive number of tokens adds it to the counter of
  -- the current window of the global layer, of the model and of the key, once each, and to no
  -- other counter; of no tokens, or a negative number, it changes nothing.
  pub record_tokens_charged :
      (now : ℕ) (key_id alias : String) (tokens : ℤ) (s : S) (j : Bytes)
      → count j (record_tokens c now key_id alias tokens s).0 ≡ (
          if leb_ℤ tokens (pos 0)
          then count j s
          else if is_one_of j (charged_keys now key_id alias)
          then count j s +ℤ tokens
          else count j s)
  unfolding record_tokens
  record_tokens_charged now key_id alias tokens s j = elim (Bool-cases (leb_ℤ tokens (pos 0))) [
    | inl e ↦ rw (e, record_tokens) refl
    | inr e ↦
        rw (e, record_tokens)
          (record_loop_charged (charged_keys now key_id alias) tokens s j
            (charged_keys-AreDistinct now key_id alias))
  ]
