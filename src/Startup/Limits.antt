-- ===== src/Startup/Limits.antt =====
-- The limits that the start hands to the rate limiter: those of the models, and those of the keys with
-- their cache.
use Prim.Native.String.{String}
use text.Mathlib.Text.{◌==◌ as str_eq}
use text.Mathlib.TextEquality.{eq_iff}
use llmproxy.Common.{
  ℕ, ◌+◌, ◌≤◌, ◌≡◌, Bool, false, ◌&&◌, ◌||◌, not, List, [], ◌∷◌, Option, none, some, arith,
  if◌then◌else◌,
}
use llmproxy.Common.Int.{pos, leb_ℤ}
use llmproxy.Common.Eq.{Dict, lookup, insert, lookup-insert, string_instance}
use llmproxy.Domain.{ModelNode, RateLimitConfig}
use llmproxy.Storage.{Storage}
use llmproxy.Startup.{
  alias_limits, model_limits_loop, limit_of, KeyCache, key_limit_of, key_limit_ttl,
}

abbrev pub lists : String → List String → Bool
lists a [] = false
lists a (b ∷ aliases) = str_eq b a || lists a aliases

-- The first node that lists the alias and has a positive limit.
abbrev pub first_limit : String → List ModelNode → Option RateLimitConfig
first_limit a [] = none
first_limit a (n ∷ ns) =
    if not (leb_ℤ n.tpm (pos 0) && leb_ℤ n.rpm (pos 0)) && lists a n.aliases
    then some (limit_of n)
    else first_limit a ns

abbrev pub or_else : {A : Type 0} → Option A → Option A → Option A
or_else (some x) y = some x
or_else none y = y

lookup-alias_limits :
    (a : String) (limit : RateLimitConfig) (aliases : List String) (m : Dict String RateLimitConfig)
    → lookup a (alias_limits limit aliases m)
      ≡ or_else (lookup a m) (if lists a aliases then some limit else none)
unfolding alias_limits
lookup-alias_limits a limit [] m = ground arith
lookup-alias_limits a limit (b ∷ aliases) m = ground (
  arith,
  eq_iff b a,
  lookup-insert b a limit m,
  lookup-alias_limits a limit aliases m,
  lookup-alias_limits a limit aliases (insert b limit m),
)

-- The limit of an alias is that of the first node which lists it and has a limit.
pub lookup-model_limits_loop :
    (a : String) (ns : List ModelNode) (m : Dict String RateLimitConfig)
    → lookup a (model_limits_loop ns m) ≡ or_else (lookup a m) (first_limit a ns)
unfolding model_limits_loop
lookup-model_limits_loop a [] m = ground arith
lookup-model_limits_loop a (n ∷ ns) m = ground (
  arith,
  lookup-alias_limits a (limit_of n) n.aliases m,
  lookup-model_limits_loop a ns m,
  lookup-model_limits_loop a ns (alias_limits (limit_of n) n.aliases m),
)

-- The storage as it is at each moment.
module _ {S : Type 0} (st : Storage S) (at : ℕ → S) where
  -- What the storage answers for a key at a moment.
  abbrev pub answer_at : ℕ → String → Option RateLimitConfig
  answer_at u id = key_limit_of (st.get_api_key id (at u))

  -- A cache that calls have filled up to a moment: each asked the storage at a moment `u`, and kept
  -- the answer at a moment `later`. Calls at the same time may keep theirs in any order.
  pub data Filled : KeyCache → ℕ → Type 0 where
    empty : (t : ℕ) → Filled [] t
    wait : {c : KeyCache} {t : ℕ} (later : ℕ) → Filled c t → t ≤ later → Filled c later
    kept :
        {c : KeyCache} {t : ℕ} (id : String) (u later : ℕ)
        → Filled c t
        → t ≤ later
        → u ≤ later
        → Filled (insert id (answer_at u id, later + key_limit_ttl) c) later

  -- A limit that the storage answered at a moment `u`, and that was kept at `later`.
  pub record IsAnswer (now : ℕ) (id : String) (limit : Option RateLimitConfig) (later : ℕ)
      : Type 0 where
    pub u : ℕ
    pub asked : u ≤ later
    pub past : later ≤ now
    pub answer : limit ≡ answer_at u id
