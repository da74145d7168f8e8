-- ===== src/MemoryCache/Laws.antt =====
-- The memory cache implements the counter store, and its keys live exactly as long as they should.
use llmproxy.Common.{
  ℕ, ◌≡◌, refl, [], ◌∷◌, none, some, arith, ap, if◌then◌else◌, Option-cases, inl, inr,
}
use llmproxy.Common.Int.{ℤ, pos, ◌+ℤ◌}
use llmproxy.Common.Eq.{Bytes, bytes_eq, lookup, lookup-insert, bytes_instance}
use llmproxy.Common.Decimal.{format_int, parse_int, parse_int-format_int}
use llmproxy.Cache.{IsCounting}
use llmproxy.MemoryCache.{MemoryCache, get, current_of, incr_by, deadline, as_cache}

-- The number that a key stands for at a time.
unfoldable pub counter : ℕ → Bytes → MemoryCache → ℤ
counter now k c = elim (get now k c) [ none ↦ pos 0 | some v ↦ parse_int v ]

current_of-parse_int : (v : Bytes) → current_of v ≡ parse_int v
unfolding current_of parse_int
current_of-parse_int [] = refl
current_of-parse_int (b ∷ s) = refl

plus_zero : (d : ℤ) → pos 0 +ℤ d ≡ d
unfolding ◌+ℤ◌
plus_zero d = ground arith

module _ (now : ℕ) (k : Bytes) (d : ℤ) (ttl : ℕ) (c : MemoryCache) where
  -- `incr_by` returns the old count of the key, 0 for one that is absent or expired, plus the delta.
  pub incr_by-value : (incr_by now k d ttl c).1 ≡ counter now k c +ℤ d
  unfolding counter incr_by get
  incr_by-value = elim (Option-cases (lookup k c.entries)) [
    | inl e ↦ ground (arith, plus_zero d)
    | inr (v, e) ↦ ground (arith, plus_zero d, current_of-parse_int v.value)
  ]

  -- An increment of a key makes it read as the decimal digits of its old count, 0 if it was absent
  -- or expired, plus the delta, and every other key reads as before.
  pub incr_by-get :
      (j : Bytes)
      → get now j (incr_by now k d ttl c).0
        ≡ (if bytes_eq k j then some (format_int (counter now k c +ℤ d)) else get now j c)
  unfolding counter incr_by get
  incr_by-get j = elim (Option-cases (lookup k c.entries)) [
    | inl e ↦ ground (
      arith,
      plus_zero d,
      lookup-insert k j (record { value = format_int d; expire_at = deadline now ttl }) c.entries,
    )
    | inr (v, e) ↦ ground (
      arith,
      plus_zero d,
      current_of-parse_int v.value,
      lookup-insert k j (record { value = format_int d; expire_at = deadline now ttl }) c.entries,
      lookup-insert k j (record v { value = format_int (current_of v.value +ℤ d) }) c.entries,
    )
  ]

-- The memory cache is a counter store for every call of a client, whenever that reads the clock.
unfoldable pub as_cache-IsCounting : (now : ℕ) → IsCounting (as_cache now)
unfolding as_cache counter
as_cache-IsCounting now = record {
  count = counter now;
  incr_value = λ k d ttl c h. ap some (incr_by-value now k d ttl c);
  incr_count = λ k j d ttl c h.
      ground (arith, incr_by-get now k d ttl c j, parse_int-format_int (counter now k c +ℤ d));
  get_hit = λ k v c e. ground (arith, e);
  get_miss = λ k c e. ground (arith, e);
}
