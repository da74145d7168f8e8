-- ===== src/Startup.antt =====
-- cmd/proxyllm/main.go: how the start brings the storage in line with the configuration, and what it
-- hands to the router and to the rate limiter. Go visits a map in any order, so that a loop over one
-- takes the entries in the order of its visit. An exit of the program is a failure. Signals, the log
-- lines and the construction of the other components are left out.
pub mod Tables
pub mod Limits
pub mod Reconciled
use Prim.Native.String.{String}
use text.Mathlib.Text.{◌==◌ as str_eq}
use llmproxy.Common.{
  ℕ, ◌+◌, Bool, true, false, ◌&&◌, ◌||◌, List, [], ◌∷◌, Option, none, some, ltb, if◌then◌else◌,
}
use llmproxy.Common.Int.{ℤ, pos, leb_ℤ, ltb_ℤ}
use llmproxy.Common.Eq.{Dict, lookup, insert, string_instance}
use llmproxy.Domain.{GoError, Result, ok, failed, ModelNode, ApiKey, RateLimitConfig}
use llmproxy.Config.{Environment, CacheConfig}
use llmproxy.Router.{Router, new_router, sync}
use llmproxy.Storage.{Storage}

-- `config.DefaultConfigDir`
abbrev pub default_config_dir : String
default_config_dir = "data"

-- `_, ok := m[k]`
abbrev pub has_key : {A : Type 0} → String → Dict String A → Bool
has_key k m = elim (lookup k m) [ none ↦ false | some _ ↦ true ]

module _ {S A : Type 0} where
  -- A loop that writes entries, and leaves the program at the first error.
  unfoldable pub upsert_all : (A → S → S × Option GoError) → List A → S → S × Option GoError
  upsert_all upsert [] s = (s, none)
  upsert_all upsert (a ∷ as_) s =
      let written = upsert a s in
      let rest = upsert_all upsert as_ written.0 in
      elim written.1 [ none ↦ rest | some e ↦ (written.0, some e) ]

  -- A loop that removes the entries that are not wanted, whether or not that works.
  unfoldable pub delete_stale :
      (A → String) → (String → S → S × Option GoError) → (String → Bool) → List A → S → S
  delete_stale id_of remove wanted [] s = s
  delete_stale id_of remove wanted (a ∷ as_) s =
      delete_stale id_of remove wanted as_ (if wanted (id_of a) then s else (remove (id_of a) s).0)

  -- The entries are read for that first, and left as they are if they cannot be read.
  unfoldable pub reconcile :
      (A → String) → (String → S → S × Option GoError) → (String → Bool) → Result (List A) → S → S
  unfolding delete_stale
  reconcile id_of remove wanted (failed e) s = s
  reconcile id_of remove wanted (ok as_) s = delete_stale id_of remove wanted as_ s

-- What follows a write, if there was no error.
abbrev pub and_then :
    {S : Type 0} → S × Option GoError → (S → S × Option GoError) → S × Option GoError
and_then (s, none) f = f s
and_then (s, some e) f = (s, some e)

-- The providers as the loop writes them, and the keys, of which one with no value is passed over.
unfoldable pub provided_nodes : List (String × ModelNode) → List ModelNode
provided_nodes [] = []
provided_nodes ((id, n) ∷ m) = record n { id = id } ∷ provided_nodes m

unfoldable pub provided_keys : List (String × ApiKey) → List ApiKey
provided_keys [] = []
provided_keys ((id, k) ∷ m) =
    let rest = provided_keys m in if str_eq k.key "" then rest else record k { id = id } ∷ rest

-- The limits of the models: that of the first node which lists the alias and has a limit.
alias_limits :
    RateLimitConfig → List String → Dict String RateLimitConfig → Dict String RateLimitConfig
alias_limits limit [] m = m
alias_limits limit (a ∷ aliases) m =
    alias_limits limit aliases (if has_key a m then m else insert a limit m)

abbrev pub limit_of : ModelNode → RateLimitConfig
limit_of n = record { tpm = n.tpm; rpm = n.rpm; max_retries = pos 0 }

unfoldable pub model_limits_loop :
    List ModelNode → Dict String RateLimitConfig → Dict String RateLimitConfig
unfolding alias_limits
model_limits_loop [] m = m
model_limits_loop (n ∷ ns) m = model_limits_loop ns (
    if leb_ℤ n.tpm (pos 0) && leb_ℤ n.rpm (pos 0) then m else alias_limits (limit_of n) n.aliases m)

-- The limits of the keys, each of which is kept for a while: the limit, and when it ends.
abbrev pub KeyCache : Type 0
KeyCache = Dict String (Option RateLimitConfig × ℕ)

-- 30 s in nanoseconds.
abbrev pub key_limit_ttl : ℕ
key_limit_ttl = 30_000_000_000

unfoldable pub key_limit_of : Result (Option ApiKey) → Option RateLimitConfig
key_limit_of (failed e) = none
key_limit_of (ok none) = none
key_limit_of (ok (some k)) =
    if ltb_ℤ (pos 0) k.tpm || ltb_ℤ (pos 0) k.rpm
    then some (record { tpm = k.tpm; rpm = k.rpm; max_retries = pos 0 })
    else none

abbrev pub fresh_limit : ℕ → Option (Option RateLimitConfig × ℕ) → Option (Option RateLimitConfig)
fresh_limit now none = none
fresh_limit now (some (limit, expires_at)) = if ltb now expires_at then some limit else none

module _ {S : Type 0} (st : Storage S) where
  -- The clock is at `now`, and at `later` where the answer of the storage is kept.
  unfoldable pub key_limits : ℕ → ℕ → String → S → KeyCache → Option RateLimitConfig × KeyCache
  unfolding key_limit_of
  key_limits now later id s cache = elim (fresh_limit now (lookup id cache)) [
    | some limit ↦ (limit, cache)
    | none ↦
        let limit = key_limit_of (st.get_api_key id s) in
        (limit, insert id (limit, later + key_limit_ttl) cache)
  ]

  -- The tables are brought in line with the configuration: `providers` and `api_keys` are its maps,
  -- `node_visit` and `key_visit` the orders in which the loops visit them.
  unfoldable pub init_tables :
      Dict String ModelNode
      → Dict String ApiKey
      → List (String × ModelNode)
      → List (String × ApiKey)
      → S
      → S × Option GoError
  unfolding upsert_all reconcile provided_nodes provided_keys
  init_tables providers api_keys node_visit key_visit s =
      and_then (upsert_all st.upsert_node (provided_nodes node_visit) s) λ s1.
        let s2 =
          reconcile (λ (n : ModelNode). n.id) st.delete_node (λ id. has_key id providers)
            (st.list_nodes s1) s1 in
        and_then (upsert_all st.upsert_api_key (provided_keys key_visit) s2) λ s3. (
          reconcile (λ (k : ApiKey). k.id) st.delete_api_key (λ id. has_key id api_keys)
              (st.list_api_keys s3) s3,
          none,
        )

  -- The router and the limits of the models, or the error of an exit; `visit` is the order in which
  -- the router's loop visits its map.
  load_nodes :
      List ModelNode → Result (List ModelNode) → Result (Router × Dict String RateLimitConfig)
  load_nodes visit (failed e) = failed e
  load_nodes visit (ok ns) = ok (sync visit ns new_router, model_limits_loop ns [])

  finish_start :
      List ModelNode → S × Option GoError → S × Result (Router × Dict String RateLimitConfig)
  unfolding load_nodes
  finish_start visit (s, some e) = (s, failed e)
  finish_start visit (s, none) = (s, load_nodes visit (st.list_nodes s))

  unfoldable pub start :
      Dict String ModelNode
      → Dict String ApiKey
      → List (String × ModelNode)
      → List (String × ApiKey)
      → List ModelNode
      → S
      → S × Result (Router × Dict String RateLimitConfig)
  unfolding init_tables finish_start
  start providers api_keys node_visit key_visit visit s =
      finish_start visit (init_tables providers api_keys node_visit key_visit s)

-- The directory of the configuration, unless a flag names one; the argument says whether /app/data is
-- a directory.
unfoldable pub data_dir : Environment → Bool → String
data_dir env in_container =
    if str_eq (env "PROXYLLM_DATA_DIR") ""
    then (if in_container then "/app/data" else default_config_dir)
    else env "PROXYLLM_DATA_DIR"

-- The backend of the counters; the argument is whether a configured Redis answers.
pub data CacheChoice : Type 0 where
  redis_cache memory_cache : CacheChoice

unfoldable pub choose_cache : CacheConfig → Bool → CacheChoice
choose_cache cfg answers = if str_eq cfg.kind "redis" && answers then redis_cache else memory_cache
