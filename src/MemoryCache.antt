-- ===== src/MemoryCache.antt =====
-- internal/storage/memory/cache.go: counters and values with a time to live, in a map under a lock.
-- Times are nanoseconds. Each method is atomic under the lock and takes the reading of the clock.
pub mod Laws
pub mod Expiry
use llmproxy.Common.{
  ℕ, ◌+◌, Bool, true, false, ◌&&◌, not, List, [], ◌∷◌, Option, none, some, ltb, if◌then◌else◌,
}
use llmproxy.Common.Int.{ℤ, pos, ◌+ℤ◌}
use llmproxy.Common.Eq.{Bytes, Dict, lookup, insert, delete, bytes_instance}
use llmproxy.Common.Decimal.{format_int, parse_int}
use llmproxy.Cache.{Cache}

-- `expire_at` is `none` for the zero time, no expiry.
pub record CacheEntry : Type 0 where
  pub value : Bytes
  pub expire_at : Option ℕ

unfoldable pub expired : CacheEntry → ℕ → Bool
expired e now = elim e.expire_at [ none ↦ false | some t ↦ ltb t now ]

-- `done` says that the channel of that name is closed.
pub record MemoryCache : Type 0 where
  pub entries : Dict Bytes CacheEntry
  pub done : Bool

unfoldable pub new_memory_cache : MemoryCache
new_memory_cache = record { entries = []; done = false }

unfoldable pub sweep : ℕ → Dict Bytes CacheEntry → Dict Bytes CacheEntry
sweep now [] = []
sweep now ((k, e) ∷ m) = let rest = sweep now m in if expired e now then rest else (k, e) ∷ rest

-- One tick of `cleanup`.
unfoldable pub cleanup : ℕ → MemoryCache → MemoryCache
unfolding sweep
cleanup now c = record c { entries = sweep now c.entries }

unfoldable pub get : ℕ → Bytes → MemoryCache → Option Bytes
unfolding expired
get now key c = elim (lookup key c.entries) [
  | none ↦ none
  | some e ↦ if expired e now then none else some e.value
]

abbrev pub deadline : ℕ → ℕ → Option ℕ
deadline now ttl = if ltb 0 ttl then some (now + ttl) else none

unfoldable pub put : ℕ → Bytes → Bytes → ℕ → MemoryCache → MemoryCache
put now key value ttl c = record c {
  entries = insert key (record { value = value; expire_at = deadline now ttl }) c.entries;
}

unfoldable pub remove : Bytes → MemoryCache → MemoryCache
remove key c = record c { entries = delete key c.entries }

fresh : ℕ → Bytes → ℤ → ℕ → MemoryCache → MemoryCache × ℤ
fresh now key delta ttl c = (
  record c {
    entries =
        insert key (record { value = format_int delta; expire_at = deadline now ttl }) c.entries;
  },
  delta,
)

-- The value of an entry as a number; an empty value is 0.
unfoldable pub current_of : Bytes → ℤ
current_of [] = pos 0
current_of (b ∷ s) = parse_int (b ∷ s)

unfoldable pub incr_by : ℕ → Bytes → ℤ → ℕ → MemoryCache → MemoryCache × ℤ
unfolding fresh expired
incr_by now key delta ttl c = elim (lookup key c.entries) [
  | none ↦ fresh now key delta ttl c
  | some e ↦ if expired e now then fresh now key delta ttl c else (
    record c {
      entries =
          insert key (record e { value = format_int (current_of e.value +ℤ delta) }) c.entries;
    },
    current_of e.value +ℤ delta,
  )
]

-- A second `Close` closes a closed channel, which panics.
unfoldable pub close : MemoryCache → Option MemoryCache
close c = if c.done then none else some (record c { done = true })

-- The cache as the limiter sees it in a call that reads the clock at `now`.
unfoldable pub as_cache : ℕ → Cache MemoryCache
unfolding get put incr_by
as_cache now = record {
  get = get now;
  put = λ k v ttl c. (put now k v ttl c, true);
  incr_by = λ k d ttl c. ((incr_by now k d ttl c).0, some (incr_by now k d ttl c).1);
}
