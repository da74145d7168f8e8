-- ===== src/Cache.antt =====
-- internal/storage/interfaces.go, `Cache`: the counter store that the rate limiter is a client of.
-- `S` is the state of the backend. The clock is read once for a call of the client: the operations
-- of one request see one time, which `S`'s operations are given as part of the record.
use llmproxy.Common.{ℕ, ◌≤◌, ◌≡◌, Bool, Option, none, some, if◌then◌else◌}
use llmproxy.Common.Int.{ℤ, pos, negsuc, ◌+ℤ◌}
use llmproxy.Common.Eq.{Bytes, bytes_eq}
use llmproxy.Common.Decimal.{parse_int}

pub record Cache (S : Type 0) : Type 0 where
  pub get : Bytes → S → Option Bytes
  -- `false` is an error.
  pub put : Bytes → Bytes → ℕ → S → S × Bool
  -- `none` is an error.
  pub incr_by : Bytes → ℤ → ℕ → S → S × Option ℤ

-- What a client may rely on: the keys hold counters, `incr_by` with a time to live of at least a
-- millisecond adds to one of them and returns its new value, and `get` reads one.
pub record IsCounting {S : Type 0} (c : Cache S) : Type 0 where
  pub count : Bytes → S → ℤ
  pub incr_value :
      (k : Bytes) (d : ℤ) (ttl : ℕ) (s : S)
      → 1_000_000 ≤ ttl
      → (c.incr_by k d ttl s).1 ≡ some (count k s +ℤ d)
  pub incr_count :
      (k j : Bytes) (d : ℤ) (ttl : ℕ) (s : S)
      → 1_000_000 ≤ ttl
      → count j (c.incr_by k d ttl s).0 ≡ (if bytes_eq k j then count k s +ℤ d else count j s)
  pub get_hit : (k v : Bytes) (s : S) → c.get k s ≡ some v → count k s ≡ parse_int v
  pub get_miss : (k : Bytes) (s : S) → c.get k s ≡ none → count k s ≡ pos 0

-- The same of a store whose increments may fail: one that succeeds adds to one counter and returns its
-- new value, and one that fails leaves every counter as it was.
pub record IsFallible {S : Type 0} (c : Cache S) : Type 0 where
  pub count : Bytes → S → ℤ
  pub incr_done :
      (k : Bytes) (d : ℤ) (ttl : ℕ) (s : S) (v : ℤ)
      → 1_000_000 ≤ ttl
      → (c.incr_by k d ttl s).1 ≡ some v
      → (v ≡ count k s +ℤ d)
        × ((j : Bytes)
            → count j (c.incr_by k d ttl s).0
              ≡ (if bytes_eq k j then count k s +ℤ d else count j s))
  pub incr_failed :
      (k j : Bytes) (d : ℤ) (ttl : ℕ) (s : S)
      → 1_000_000 ≤ ttl
      → (c.incr_by k d ttl s).1 ≡ none
      → count j (c.incr_by k d ttl s).0 ≡ count j s

-- No decrement fails.
abbrev pub Restores : {S : Type 0} → Cache S → Type 0
Restores {S} c =
    (k : Bytes) (ttl : ℕ) (s : S) → (v : ℤ) × ((c.incr_by k (negsuc 0) ttl s).1 ≡ some v)
