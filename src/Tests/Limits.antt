-- ===== src/Tests/Limits.antt =====
-- The limiter over the memory cache, with fixed-point numbers of 60 parts in place of float64.
use llmproxy.Common.{
  if_prove, ◌&&◌, Option, sym, ◌∙◌, ℕ, ◌+◌, ◌*◌, ◌/◌, ◌≡◌, refl, false, [], ◌∷◌, some, none, arith,
  if◌then◌else◌,
}
use llmproxy.Common.Int.{eqb_ℤ, ℤ, pos, negsuc, ◌+ℤ◌, ◌-ℤ◌, ltb_ℤ, leb_ℤ}
use llmproxy.Common.Eq.{Bytes, codes, bytes_eq, lookup, insert, bytes_instance, string_instance}
use llmproxy.Common.Decimal.{format_int, parse_int}
use llmproxy.MemoryCache.{MemoryCache, new_memory_cache, current_of, get, incr_by, as_cache}
use llmproxy.MemoryCache.Laws.{counter, incr_by-get, as_cache-IsCounting}
use llmproxy.MemoryCache.Expiry.{Increment, incr_all, counter_lifetime}
use llmproxy.Cache.{Cache, IsCounting, IsFallible, Restores}
use mathlib.Core.Option.{some-injective}
use llmproxy.RateLimit.{
  FloatOps, Limiter, allow_request, check_tpm, rpm_loop, tpm_loop, unlimited, model_rpm, model_tpm,
  key_rpm, key_tpm, log_active_limit, get_count, estimate, rpm_blocked, tpm_blocked, rpm_key,
  tpm_key, undo, window_timestamp,
}
use llmproxy.RateLimit.Undo.{allow_request_refused}

abbrev times : ℤ → ℤ → ℤ
times (pos a) (pos b) = pos (a * b / 60)
times (pos a) (negsuc b) = pos 0
times (negsuc a) y = pos 0

abbrev over : ℤ → ℤ → ℤ
over (pos a) (pos b) = pos (a * 60 / b)
over (pos a) (negsuc b) = pos 0
over (negsuc a) y = pos 0

abbrev scaled : ℤ → ℤ
scaled (pos a) = pos (a * 60)
scaled (negsuc a) = negsuc (a * 60 + 59)

abbrev whole : ℤ → ℤ
whole (pos a) = pos (a / 60)
whole (negsuc a) = negsuc 0

abbrev sixtieths : FloatOps
sixtieths = record {
  Float = ℤ;
  of_int = scaled;
  add = ◌+ℤ◌;
  sub = ◌-ℤ◌;
  mul = times;
  div = over;
  gtb = λ x y. ltb_ℤ y x;
  geb = λ x y. leb_ℤ y x;
  trunc = whole;
}

-- One request a minute in all, two for the model, any number for the key.
abbrev limiter : Limiter
limiter = record {
  global = record { tpm = pos 0; rpm = pos 1; max_retries = pos 0 };
  model_limits = ("m", record { tpm = pos 0; rpm = pos 2; max_retries = pos 0 }) ∷ [];
  key_limits = λ key_id. none;
  logged = [];
}

abbrev noon : ℕ
noon = 1_700_000_000_000_000_000

abbrev store : Cache MemoryCache
store = as_cache noon

abbrev counting : IsCounting store
counting = as_cache-IsCounting noon

abbrev counted : MemoryCache
counted = (allow_request sixtieths store noon limiter "k" "m" new_memory_cache).0

second_refused : (allow_request sixtieths store noon limiter "k" "m" counted).2.allowed ≡ false
unfolding allow_request check_tpm rpm_loop tpm_loop unlimited model_rpm model_tpm key_rpm key_tpm
    log_active_limit get_count estimate rpm_blocked tpm_blocked as_cache incr_by get lookup insert
    format_int parse_int rpm_key tpm_key new_memory_cache undo current_of ◌+ℤ◌ ◌-ℤ◌
second_refused = refl

-- The memory cache, but for one counter of which an increment by one fails.
abbrev model_key : Bytes
model_key = rpm_key "model" "m" (window_timestamp noon)

abbrev faulty : Cache MemoryCache
faulty = record {
  get = store.get;
  put = store.put;
  incr_by = λ k d ttl s.
      if bytes_eq k model_key && eqb_ℤ d (pos 1) then (s, none) else store.incr_by k d ttl s;
}

unfoldable faulty-IsFallible : IsFallible faulty
unfolding as_cache-IsCounting
faulty-IsFallible = record {
  count = counter noon;
  incr_done = λ k d ttl s v h.
      if_prove
        (λ (z : MemoryCache × Option ℤ).
          z.1 ≡ some v
          → (v ≡ counter noon k s +ℤ d)
            × ((j : Bytes)
                → counter noon j z.0
                  ≡ (if bytes_eq k j then counter noon k s +ℤ d else counter noon j s)))
        (bytes_eq k model_key && eqb_ℤ d (pos 1)) (λ _ e. cc e)
        (λ _ e. (
          some-injective _ _ (sym e ∙ counting.incr_value k d ttl s h),
          λ j. counting.incr_count k j d ttl s h,
        ));
  incr_failed = λ k j d ttl s h.
      if_prove (λ (z : MemoryCache × Option ℤ). z.1 ≡ none → counter noon j z.0 ≡ counter noon j s)
        (bytes_eq k model_key && eqb_ℤ d (pos 1)) (λ _ e. refl)
        (λ _ e. cc (e, counting.incr_value k d ttl s h));
}

faulty-Restores : Restores faulty
unfolding as_cache
faulty-Restores k ttl s =
    if_prove (λ (z : MemoryCache × Option ℤ). (v : ℤ) × (z.1 ≡ some v))
      (bytes_eq k model_key && eqb_ℤ (negsuc 0) (pos 1)) (λ e. absurd (ground (arith, e)))
      (λ _. (_, refl))

-- The global layer counts, the layer of the model fails, and the count is taken back.
faulty_refused :
    (allow_request sixtieths faulty noon limiter "k" "m" new_memory_cache).2.allowed ≡ false
unfolding allow_request check_tpm rpm_loop tpm_loop unlimited model_rpm model_tpm key_rpm key_tpm
    log_active_limit get_count estimate rpm_blocked tpm_blocked as_cache incr_by get lookup insert
    format_int parse_int rpm_key tpm_key new_memory_cache undo current_of ◌+ℤ◌ ◌-ℤ◌
faulty_refused = refl

allow_request_refused_example :
    counter noon
      (rpm_key "global" "" (window_timestamp noon))
      (allow_request sixtieths faulty noon limiter "k" "m" new_memory_cache).0
    ≡ counter noon (rpm_key "global" "" (window_timestamp noon)) new_memory_cache
unfolding faulty-IsFallible
allow_request_refused_example =
    allow_request_refused faulty faulty-IsFallible faulty-Restores sixtieths noon limiter "k" "m"
      new_memory_cache faulty_refused (rpm_key "global" "" (window_timestamp noon))

-- A counter that holds 7 grows by 5.
abbrev seven : MemoryCache
seven = (incr_by noon (codes "a") (pos 7) 1000 new_memory_cache).0

incr_by_run :
    get noon (codes "a") (incr_by noon (codes "a") (pos 5) 1000 seven).0 ≡ some (codes "12")
unfolding get incr_by new_memory_cache lookup insert current_of parse_int format_int ◌+ℤ◌
incr_by_run = refl

incr_by-get_example : get noon (codes "a") (incr_by noon (codes "a") (pos 5) 1000 seven).0 ≡ (
    if bytes_eq (codes "a") (codes "a")
    then some (format_int (counter noon (codes "a") seven +ℤ pos 5))
    else get noon (codes "a") seven)
incr_by-get_example = incr_by-get noon (codes "a") (pos 5) 1000 seven (codes "a")

absent_at_start : (t : ℕ) (k : Bytes) → get t k new_memory_cache ≡ none
unfolding get new_memory_cache lookup
absent_at_start t k = refl

abbrev increment_at : ℕ → Bytes → Increment
increment_at t k = record { at = t; key = k; delta = pos 1; ttl = 61 }

counter_lifetime_example :
    get 100 (codes "a") (
      incr_all
        (increment_at 60 (codes "a") ∷ increment_at 61 (codes "b") ∷ [])
        (incr_by 0 (codes "a") (pos 1) 61 new_memory_cache).0)
    ≡ none
counter_lifetime_example =
    counter_lifetime 0 100 (codes "a") (pos 1) 61 new_memory_cache
      (increment_at 60 (codes "a") ∷ increment_at 61 (codes "b") ∷ []) (omega arith)
      (absent_at_start 0 (codes "a")) (omega arith, (omega arith, tt)) (omega arith)
