-- ===== src/RedisCache/Contract.antt =====
-- The counter store in Redis keeps the contract of the interface.
use llmproxy.Common.{ℕ, ◌<◌, ◌≡◌, false, Option, none, some, if◌then◌else◌}
use llmproxy.Common.Int.{ℤ, negsuc, eqb_ℤ, ◌+ℤ◌}
use llmproxy.Common.Eq.{Bytes, bytes_eq}
use llmproxy.Domain.{GoError, ok, failed}
use llmproxy.RedisCache.{Redis, milliseconds}

-- What the commands do to the number under a key, and to the time that it has left; of a key that is
-- not there the number is 0, and there is no time. INCRBY is refused for a value that is no number and
-- for a sum that is out of range; a command that fails does nothing. TTL and PEXPIRE follow an INCRBY
-- that succeeded in the script, so that their key is there.
pub record IsRedis {S : Type 0} (r : Redis S) (number : Bytes → S → ℤ) (left : Bytes → S → Option ℕ)
    : Type 0 where
  pub incrby_value :
      (k : Bytes) (d : ℤ) (s : S) (v : ℤ) → (r.incrby k d s).1 ≡ ok v → v ≡ number k s +ℤ d
  pub incrby_number :
      (k j : Bytes) (d : ℤ) (s : S) (v : ℤ)
      → (r.incrby k d s).1 ≡ ok v
      → number j (r.incrby k d s).0 ≡ (if bytes_eq k j then number k s +ℤ d else number j s)
  pub incrby_left : (k j : Bytes) (d : ℤ) (s : S) → left j (r.incrby k d s).0 ≡ left j s
  pub incrby_failed :
      (k j : Bytes) (d : ℤ) (s : S) (e : GoError)
      → (r.incrby k d s).1 ≡ failed e
      → number j (r.incrby k d s).0 ≡ number j s
  pub ttl_none :
      (k : Bytes) (d : ℤ) (s : S) (v : ℤ)
      → (r.incrby k d s).1 ≡ ok v
      → left k s ≡ none
      → r.ttl k (r.incrby k d s).0 ≡ negsuc 0
  pub ttl_some :
      (k : Bytes) (d : ℤ) (s : S) (v : ℤ) (t : ℕ)
      → (r.incrby k d s).1 ≡ ok v
      → left k s ≡ some t
      → eqb_ℤ (r.ttl k (r.incrby k d s).0) (negsuc 0) ≡ false
  pub pexpire_number :
      (k j : Bytes) (d : ℤ) (t : ℕ) (s : S) (v : ℤ)
      → (r.incrby k d s).1 ≡ ok v
      → 0 < t
      → number j (r.pexpire k t (r.incrby k d s).0) ≡ number j (r.incrby k d s).0
  pub pexpire_left :
      (k j : Bytes) (d : ℤ) (t : ℕ) (s : S) (v : ℤ)
      → (r.incrby k d s).1 ≡ ok v
      → 0 < t
      → left j (r.pexpire k t (r.incrby k d s).0) ≡ (if bytes_eq k j then some t else left j s)

-- A call of IncrBy that succeeds: the key reads as its old number plus the delta and the others as
-- before; a key that had no time left to it gets the one that is asked for, and one that had keeps it.
-- One that fails answers no number, and every key has its number and its time as before.
pub data Incremented {S : Type 0} (number : Bytes → S → ℤ) (left : Bytes → S → Option ℕ) (k : Bytes)
    (d : ℤ) (ttl : ℕ) (before : S) : S × Option ℤ → Type 0 where
  incremented :
      {after : S}
      → ((j : Bytes)
          → number j after ≡ (if bytes_eq k j then number k before +ℤ d else number j before))
      → ((j : Bytes)
          → left j after ≡ (
              if bytes_eq k j
              then elim (left k before) [ none ↦ some (milliseconds ttl) | some t ↦ some t ]
              else left j before))
      → Incremented number left k d ttl before (after, some (number k before +ℤ d))
  refused :
      {after : S}
      → ((j : Bytes) → number j after ≡ number j before)
      → ((j : Bytes) → left j after ≡ left j before)
      → Incremented number left k d ttl before (after, none)

module _ {S : Type 0} (r : Redis S) (number : Bytes → S → ℤ) (left : Bytes → S → Option ℕ)
    (redis : IsRedis r number left) where
  module _ (k : Bytes) (d : ℤ) (ttl : ℕ) (s : S) (v : ℤ) (e : (r.incrby k d s).1 ≡ ok v)
      (long : 0 < milliseconds ttl) where
    -- The state that INCRBY leaves.
    abbrev counted : S
    counted = (r.incrby k d s).0
