-- ===== src/Tests/Counters.antt =====
-- A Redis that is a map from keys to numbers with the time that they have left.
use llmproxy.Common.{if◌then◌else◌, false, ℕ, ◌/◌, ◌≡◌, refl, [], ◌∷◌, Option, none, some}
use llmproxy.Common.Int.{ℤ, pos, negsuc, ◌+ℤ◌}
use llmproxy.Common.Eq.{Bytes, Dict, codes, lookup, insert, delete, bytes_instance}
use llmproxy.Common.Decimal.{in_int64, format_int, parse_int}
use llmproxy.Domain.{GoError, Result, ok, failed}
use llmproxy.RedisCache.{Redis, incr_script, expire_new, incr_by}

abbrev Counters : Type 0
Counters = Dict Bytes (ℤ × Option ℕ)

abbrev number : Bytes → Counters → ℤ
number k s = elim (lookup k s) [ none ↦ pos 0 | some v ↦ v.0 ]

abbrev left : Bytes → Counters → Option ℕ
left k s = elim (lookup k s) [ none ↦ none | some v ↦ v.1 ]

abbrev seconds_left : Option ℕ → ℤ
seconds_left none = negsuc 0
seconds_left (some t) = pos (t / 1000)

abbrev seconds_of : Bytes → Counters → ℤ
seconds_of k s = elim (lookup k s) [ none ↦ negsuc 1 | some v ↦ seconds_left v.1 ]

abbrev expire_at : Bytes → ℕ → Counters → Counters
expire_at k t s = elim (lookup k s) [ none ↦ s | some v ↦ insert k (v.0, some t) s ]

-- A sum that does not fit into 64 bits is refused.
abbrev out_of_range : GoError
out_of_range = record {
  deadline_exceeded = false;
  cancelled = false;
  text = "ERR increment or decrement would overflow";
}

abbrev add_to : Bytes → ℤ → Counters → Counters × Result ℤ
add_to k d s =
    if in_int64 (number k s +ℤ d)
    then (insert k (number k s +ℤ d, left k s) s, ok (number k s +ℤ d))
    else (s, failed out_of_range)

abbrev counters : Redis Counters
counters = record {
  get = λ k s. ok (elim (lookup k s) [ none ↦ none | some v ↦ some (format_int v.0) ]);
  set = λ k v ttl s. (insert k (parse_int v, none) s, none);
  del = λ k s. (delete k s, none);
  incrby = λ k d s. add_to k d s;
  ttl = seconds_of;
  pexpire = expire_at;
}

-- What INCRBY puts under a key.
abbrev raised : Bytes → ℤ → Counters → ℤ × Option ℕ
raised k d s = (number k s +ℤ d, left k s)

-- One more than the greatest number is refused.
full_run :
    (incr_by counters
      (codes "rpm")
      (pos 1)
      61_000_000_000
      ((codes "rpm", (pos 9_223_372_036_854_775_807, none)) ∷ [])).1
    ≡ none
unfolding incr_by incr_script expire_new lookup insert ◌+ℤ◌
full_run = refl
