-- ===== src/Retention.antt =====
-- internal/logging/retention.go: one run of the cleaner. Of the two tiers of the log, the request
-- logs and their details, each is pruned by rows and by days, and then by size if a size is set. An
-- error is only printed. A size that cannot be read counts as 0. `fuel` is what the loops by size
-- get in the state in which they start.
use Prim.Native.String.{String}
use llmproxy.Common.{
  ◌≡◌, ℕ, suc, ◌*◌, ◌<◌, Bool, true, false, ◌&&◌, ◌||◌, Option, none, some, inl, inr, [],
  if◌then◌else◌, Bool-cases, arith, if_prove,
}
use llmproxy.Common.Int.{ℤ, pos, ◌≤ℤ◌, ◌<ℤ◌, ltb_ℤ, pos_part}
use llmproxy.Common.Eq.{Bytes}
use llmproxy.Common.Returns.{◌>>=◌, Returns, returns, Returns-bind, Returns-value}
use llmproxy.Domain.{GoError, Result, ok, failed}
use llmproxy.SqlLogger.{
  Database, prune_request_logs, prune_detail_logs, prune_request_logs_by_size,
  prune_detail_logs_by_size, prune_by_size, request_size_sql, detail_size_sql, incremental_vacuum,
  delete_oldest_requests_sql, delete_oldest_details_sql,
}
use llmproxy.SqlLogger.Pruning.{IsShrinking, Pruned, prune_by_size-Pruned}

-- The limits of a tier; `max_size_mb` of 0 or less is none.
pub record Limits : Type 0 where
  pub max_rows : ℤ
  pub max_days : ℤ
  pub max_size_mb : ℤ

pub record RetentionCleaner : Type 0 where
  pub basic : Limits
  pub detail : Limits

-- `int64(mb) * mb` of a positive number of megabytes.
unfoldable pub bytes_of : ℤ → ℤ
bytes_of megabytes = pos (pos_part megabytes * 1_048_576)

bytes_of_positive : (megabytes : ℤ) → pos 0 <ℤ megabytes → pos 0 <ℤ bytes_of megabytes
unfolding bytes_of
bytes_of_positive megabytes h = ground (arith, h)

-- `before, _ := …`
unfoldable pub size_or_zero : Result ℤ → ℤ
size_or_zero (ok n) = n
size_or_zero (failed e) = pos 0

abbrev pub no_error : Option GoError → Bool
no_error none = true
no_error (some e) = false

module _ {S : Type 0} (size : S → Result ℤ) (by_size : ℤ → S → Option (S × Option GoError)) where
  -- The part of a tier that goes by size, with whether something was pruned.
  unfoldable pub clean_by_size : Limits → S × Bool → Option (S × Bool)
  unfolding bytes_of size_or_zero
  clean_by_size limits (s, pruned) =
      if ltb_ℤ (pos 0) limits.max_size_mb
        && ltb_ℤ (bytes_of limits.max_size_mb) (size_or_zero (size s))
      then (by_size (bytes_of limits.max_size_mb) s >>= λ r. some (r.0, pruned || no_error r.1))
      else some (s, pruned)

  unfoldable pub clean_tier :
      (ℤ → ℤ → S → S × Option GoError) → Limits → S × Bool → Option (S × Bool)
  unfolding clean_by_size
  clean_tier prune limits (s, pruned) =
      let r = prune limits.max_rows limits.max_days s in
      clean_by_size limits (
        r.0,
        pruned
            || (no_error r.1 && (ltb_ℤ (pos 0) limits.max_rows || ltb_ℤ (pos 0) limits.max_days)),
      )

module _ {S : Type 0} (db : Database S) (cutoff : ℤ → String) (fuel fuel' : S → ℕ) where
  clean_basic : Limits → S → Option (S × Bool)
  unfolding clean_tier
  clean_basic limits s =
      clean_tier (db.scalar request_size_sql [])
        (λ max_bytes s. prune_request_logs_by_size db (fuel s) max_bytes s)
        (prune_request_logs db cutoff) limits (s, false)

  clean_detail : Limits → S × Bool → Option (S × Bool)
  unfolding clean_tier
  clean_detail limits r =
      clean_tier (db.scalar detail_size_sql [])
        (λ max_bytes s. prune_detail_logs_by_size db (fuel' s) max_bytes s)
        (prune_detail_logs db cutoff) limits r

  -- `none` is out of fuel.
  unfoldable pub clean : RetentionCleaner → S → Option S
  unfolding clean_basic clean_detail
  clean c s = do
    r ← clean_basic c.basic s
    q ← clean_detail c.detail r
    some (if q.1 then (incremental_vacuum db q.0).0 else q.0)

-- How a tier ends that began in the state `s`, which its pruning by rows and days leaves: it has no
-- limit on its size, or the size is within it or cannot be read, and the state stays; or the loop that
-- deletes by size ran from there, and ended within the limit or with an error. The last argument of
-- `looped` is the rows of the table.
pub data TierDone {S : Type 0} (db : Database S) (size_sql delete_sql : Bytes) (what : String)
    (limits : Limits) (s : S) : S × Bool → Type 0 where
  unlimited :
      {p : Bool}
      → limits.max_size_mb ≤ℤ pos 0
      → TierDone db size_sql delete_sql what limits s (s, p)
  small :
      {p : Bool}
      → size_or_zero (db.scalar size_sql [] s) ≤ℤ bytes_of limits.max_size_mb
      → TierDone db size_sql delete_sql what limits s (s, p)
  looped :
      {p : Bool} {e : Option GoError} (s' : S) (rows : ℕ)
      → prune_by_size db (suc rows) size_sql delete_sql what (bytes_of limits.max_size_mb) s
        ≡ some (s', e)
      → Pruned db size_sql delete_sql (bytes_of limits.max_size_mb) (s', e)
      → TierDone db size_sql delete_sql what limits s (s', p)

module _ {S : Type 0} (db : Database S) (size_sql delete_sql : Bytes) (batch : ℕ) (what : String)
    (law : IsShrinking db size_sql delete_sql batch) (positive : 0 < batch) where
  clean_by_size-TierDone :
      (limits : Limits) (r : S × Bool)
      → Returns (TierDone db size_sql delete_sql what limits r.0) (
          clean_by_size
            (db.scalar size_sql [])
            (λ max_bytes s.
              prune_by_size db (suc (law.rows s)) size_sql delete_sql what max_bytes s)
            limits
            r)
  unfolding clean_by_size
  clean_by_size-TierDone limits (s, p) =
      if_prove (Returns (TierDone db size_sql delete_sql what limits s))
        (ltb_ℤ (pos 0) limits.max_size_mb
          && ltb_ℤ (bytes_of limits.max_size_mb) (size_or_zero (db.scalar size_sql [] s)))
        (λ over.
          let some_limit : pos 0 <ℤ bytes_of limits.max_size_mb =
            bytes_of_positive limits.max_size_mb (ground (arith, over)) in
          let (r, ran, ended) = Returns-value (
            prune_by_size-Pruned db size_sql delete_sql batch what (bytes_of limits.max_size_mb) law
              positive some_limit s) in
          rw ran (returns (looped r.0 (law.rows s) ran ended)))
        (λ under. elim (Bool-cases (ltb_ℤ (pos 0) limits.max_size_mb)) [
          | inl set ↦ returns (small (ground (arith, set, under)))
          | inr unset ↦ returns (unlimited (ground (arith, unset)))
        ])

  clean_tier-TierDone :
      (prune : ℤ → ℤ → S → S × Option GoError) (limits : Limits) (r : S × Bool)
      → Returns
          (TierDone db size_sql delete_sql what limits
            (prune limits.max_rows limits.max_days r.0).0)
          (clean_tier
            (db.scalar size_sql [])
            (λ max_bytes s.
              prune_by_size db (suc (law.rows s)) size_sql delete_sql what max_bytes s)
            prune
            limits
            r)
  unfolding clean_tier
  clean_tier-TierDone prune limits (s, p) = clean_by_size-TierDone limits _

module _ {S : Type 0} (db : Database S) (cutoff : ℤ → String) (c : RetentionCleaner) (s : S) where
  -- The basic tier was pruned by rows and days from the state of the start, then by size; the tier of
  -- the details in the same way from the state that this left; and then there may be a vacuum.
  pub data Cleaned : S → Type 0 where
    cleaned :
        (after_basic after_detail : S × Bool)
        → TierDone db request_size_sql delete_oldest_requests_sql "prune by size: " c.basic
            (prune_request_logs db cutoff c.basic.max_rows c.basic.max_days s).0
            after_basic
        → TierDone db detail_size_sql delete_oldest_details_sql "prune detail by size: " c.detail
            (prune_detail_logs db cutoff c.detail.max_rows c.detail.max_days after_basic.0).0
            after_detail
        → Cleaned
            (if after_detail.1 then (incremental_vacuum db after_detail.0).0 else after_detail.0)

  -- Over a database in which an empty table has size 0 and a batch takes out a positive number of
  -- rows, a run of the cleaner ends, with one round for each row and one more as fuel of its loops.
  -- The request logs are pruned by rows and days from the state of the start, and the details from
  -- the state that the request logs' tier left; after that each tier is left as it is if it has no
  -- limit on its size, or is within it or unreadable, and else where its loop ended.
  pub clean-Cleaned :
      (batch batch' : ℕ) (law : IsShrinking db request_size_sql delete_oldest_requests_sql batch)
      (law' : IsShrinking db detail_size_sql delete_oldest_details_sql batch')
      → 0 < batch
      → 0 < batch'
      → Returns Cleaned (clean db cutoff (λ t. suc (law.rows t)) (λ t. suc (law'.rows t)) c s)
  unfolding clean clean_basic clean_detail prune_request_logs_by_size prune_detail_logs_by_size
  clean-Cleaned batch batch' law law' positive positive' =
      Returns-bind
        (clean_tier-TierDone db request_size_sql delete_oldest_requests_sql batch "prune by size: "
          law positive (prune_request_logs db cutoff) c.basic (s, false))
        λ r d.
          Returns-bind
            (clean_tier-TierDone db detail_size_sql delete_oldest_details_sql batch'
              "prune detail by size: " law' positive' (prune_detail_logs db cutoff) c.detail r)
            λ q e. returns (cleaned r q d e)
