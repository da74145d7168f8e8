-- ===== src/RedisCache.antt =====
-- internal/storage/redis/cache.go: the counter store in Redis. The client is a parameter: the commands
-- that the code and its Lua script give. The script runs as one command; its text is what
-- `incr_script` does.
pub mod Contract
use llmproxy.Common.{ℕ, ◌/◌, Bool, true, false, Option, none, some, if◌then◌else◌}
use llmproxy.Common.Int.{ℤ, negsuc, eqb_ℤ}
use llmproxy.Common.Eq.{Bytes}
use llmproxy.Domain.{GoError, Result, ok, failed}
use llmproxy.Cache.{Cache}

-- A failure is an error of the connection or of the command; `set` takes a time to live in
-- nanoseconds, `pexpire` one in milliseconds, and the answer of TTL is in seconds, -1 for a key
-- without one and -2 for no key.
pub record Redis (S : Type 0) : Type 0 where
  pub get : Bytes → S → Result (Option Bytes)
  pub set : Bytes → Bytes → ℕ → S → S × Option GoError
  pub del : Bytes → S → S × Option GoError
  pub incrby : Bytes → ℤ → S → S × Result ℤ
  pub ttl : Bytes → S → ℤ
  pub pexpire : Bytes → ℕ → S → S

-- `Milliseconds()`
abbrev pub milliseconds : ℕ → ℕ
milliseconds ns = ns / 1_000_000

abbrev pub found : Result (Option Bytes) → Option Bytes
found (ok v) = v
found (failed e) = none

abbrev pub done : {S : Type 0} → S × Option GoError → S × Bool
done (s, none) = (s, true)
done (s, some e) = (s, false)

module _ {S : Type 0} (r : Redis S) where
  unfoldable pub get : Bytes → S → Option Bytes
  get key s = found (r.get key s)

  unfoldable pub put : Bytes → Bytes → ℕ → S → S × Bool
  put key value ttl s = done (r.set key value ttl s)

  unfoldable pub remove : Bytes → S → S × Option GoError
  remove key s = r.del key s

  -- The script: a failed INCRBY ends it.
  unfoldable pub expire_new : Bytes → ℕ → S × Result ℤ → S × Option ℤ
  expire_new key ttl_ms (s, failed e) = (s, none)
  expire_new key ttl_ms (s, ok val) =
      (if eqb_ℤ (r.ttl key s) (negsuc 0) then r.pexpire key ttl_ms s else s, some val)

  unfoldable pub incr_script : Bytes → ℤ → ℕ → S → S × Option ℤ
  unfolding expire_new
  incr_script key delta ttl_ms s = expire_new key ttl_ms (r.incrby key delta s)

  unfoldable pub incr_by : Bytes → ℤ → ℕ → S → S × Option ℤ
  unfolding incr_script
  incr_by key delta ttl s = incr_script key delta (milliseconds ttl) s

-- The store as the rate limiter sees it.
unfoldable pub as_cache : {S : Type 0} → Redis S → Cache S
unfolding get put incr_by
as_cache r = record { get = get r; put = put r; incr_by = incr_by r }
