-- ===== src/SqlLogger.antt =====
-- internal/storage/sqlite/logger.go: the log in the database. The database is a parameter; what the
-- code hands to it, the text of a statement and its arguments, is modelled, with each run of white
-- space in a statement as one blank. What a begin, a commit and a rollback do to the state is the
-- database's. The loops that delete in batches run on fuel.
pub mod Scan
pub mod Queries
pub mod Filters
pub mod Pruning
pub mod Safety
pub mod RoundTrip
use Prim.Native.String.{String}
use llmproxy.Common.{
  ℕ, zero, suc, ◌+◌, Bool, true, false, ◌&&◌, List, [], ◌∷◌, ◌++◌, Option, none, some,
  if◌then◌else◌,
}
use llmproxy.Common.Int.{ℤ, pos, leb_ℤ, ltb_ℤ}
use llmproxy.Common.Eq.{Bytes, codes}
use llmproxy.Domain.{
  GoError, Result, ok, failed, wrap, RequestLog, DetailLog, LogStats, TimeSeriesPoint, TopEntity,
}

-- An argument of a statement, or a column of a row; `raw` is a text that the model has as bytes,
-- and `null` is the NULL of SQL.
pub data Argument : Type 0 where
  textual : String → Argument
  raw : Bytes → Argument
  numeric : ℤ → Argument
  null : Argument

-- The calls of database/sql; `scalar` and the readers of statistics include the scan of the result,
-- and `scan_error` is the error of a row that does not have the columns that are scanned.
pub record Database (S : Type 0) : Type 0 where
  pub exec : Bytes → List Argument → S → S × Option GoError
  pub begin : S → S × Option GoError
  pub prepare : Bytes → S → Option GoError
  pub commit : S → S × Option GoError
  pub rollback : S → S
  pub scan_error : GoError
  pub scalar : Bytes → List Argument → S → Result ℤ
  pub query_rows : Bytes → List Argument → S → Result (List (List Argument))
  pub query_row : Bytes → List Argument → S → Result (Option (List Argument))
  pub stats_row : Bytes → List Argument → S → Result LogStats
  pub series_rows : Bytes → List Argument → S → Result (List TimeSeriesPoint)
  pub top_rows : Bytes → List Argument → S → Result (List TopEntity)

-- `boolToInt`
unfoldable pub bool_to_int : Bool → ℤ
bool_to_int true = pos 1
bool_to_int false = pos 0

abbrev pub insert_request_sql : Bytes
insert_request_sql =
    codes
      "INSERT OR IGNORE INTO request_logs (id,session_id,timestamp,api_key_id,model_alias,node_id,actual_model, "
    ++ codes
        "prompt_tokens,completion_tokens,total_tokens,duration_ms,status_code, stream,error_msg,has_detail) "
    ++ codes "VALUES (?,?,?,?,?,?,?,?,?,?,?,?,?,?,?)"

abbrev pub insert_detail_sql : Bytes
insert_detail_sql =
    codes
      "INSERT OR IGNORE INTO detail_logs (trace_id,session_id,timestamp,request_body,response_body) "
    ++ codes "VALUES (?,?,?,?,?)"

-- `format` is the UTC time in the layout RFC3339Nano.
unfoldable pub request_row : (ℕ → String) → RequestLog → List Argument
unfolding bool_to_int
request_row format log =
    textual log.id
    ∷ textual log.session_id
    ∷ textual (format log.timestamp)
    ∷ textual log.api_key_id
    ∷ textual log.model_alias
    ∷ textual log.node_id
    ∷ textual log.actual_model
    ∷ numeric log.prompt_tokens
    ∷ numeric log.completion_tokens
    ∷ numeric log.total_tokens
    ∷ numeric (pos log.duration_ms)
    ∷ numeric log.status_code
    ∷ numeric (bool_to_int log.stream)
    ∷ textual log.error_msg
    ∷ numeric (bool_to_int log.has_detail)
    ∷ []

unfoldable pub detail_row_of : (ℕ → String) → DetailLog → List Argument
detail_row_of format log =
    textual log.trace_id
    ∷ textual log.session_id
    ∷ textual (format log.timestamp)
    ∷ raw log.request_body
    ∷ raw log.response_body
    ∷ []

unfoldable pub request_rows_of : (ℕ → String) → List RequestLog → List (List Argument)
unfolding request_row
request_rows_of format [] = []
request_rows_of format (log ∷ logs) = request_row format log ∷ request_rows_of format logs

unfoldable pub detail_rows_of : (ℕ → String) → List DetailLog → List (List Argument)
unfolding detail_row_of
detail_rows_of format [] = []
detail_rows_of format (log ∷ logs) = detail_row_of format log ∷ detail_rows_of format logs

abbrev pub request_size_sql : Bytes
request_size_sql =
    codes "SELECT COALESCE(SUM( LENGTH(id) + LENGTH(session_id) + LENGTH(timestamp) + "
    ++ codes "LENGTH(api_key_id) + LENGTH(model_alias) + LENGTH(node_id) + "
    ++ codes "LENGTH(actual_model) + LENGTH(error_msg) + 64 ), 0) FROM request_logs"

abbrev pub detail_size_sql : Bytes
detail_size_sql =
    codes "SELECT COALESCE(SUM( LENGTH(trace_id) + LENGTH(session_id) + LENGTH(timestamp) + "
    ++ codes "LENGTH(request_body) + LENGTH(response_body) ), 0) FROM detail_logs"

abbrev pub delete_oldest_requests_sql : Bytes
delete_oldest_requests_sql =
    codes
      "DELETE FROM request_logs WHERE id IN ( SELECT id FROM request_logs ORDER BY timestamp ASC LIMIT 500 )"

abbrev pub delete_oldest_details_sql : Bytes
delete_oldest_details_sql =
    codes
      "DELETE FROM detail_logs WHERE trace_id IN ( SELECT trace_id FROM detail_logs ORDER BY timestamp ASC LIMIT 100 )"

module _ {S : Type 0} (db : Database S) where
  unfoldable pub insert_request_log : (ℕ → String) → RequestLog → S → S × Option GoError
  unfolding request_row
  insert_request_log format log s = db.exec insert_request_sql (request_row format log) s

  unfoldable pub insert_detail_log : (ℕ → String) → DetailLog → S → S × Option GoError
  unfolding detail_row_of
  insert_detail_log format log s = db.exec insert_detail_sql (detail_row_of format log) s

  -- The loop over the rows, inside the transaction.
  unfoldable pub insert_all : Bytes → List (List Argument) → S → S × Option GoError
  insert_all statement [] tx = (tx, none)
  insert_all statement (row ∷ rows) tx =
      let r = db.exec statement row tx in
      elim r.1 [ some e ↦ r | none ↦ insert_all statement rows r.0 ]

  -- The commit, where the loop ended without an error; else the deferred rollback, which does nothing
  -- after a commit, whether or not that failed.
  unfoldable pub end_transaction : S × Option GoError → S × Option GoError
  end_transaction (tx, some e) = (db.rollback tx, some e)
  end_transaction (tx, none) = db.commit tx

  unfoldable pub in_transaction : Bytes → List (List Argument) → S → S × Option GoError
  unfolding insert_all end_transaction
  in_transaction statement [] s = (s, none)
  in_transaction statement (row ∷ rows) s =
      let begun = db.begin s in
      elim begun.1 [
        | some e ↦ begun
        | none ↦ elim (db.prepare statement begun.0) [
          | some e ↦ (db.rollback begun.0, some e)
          | none ↦ end_transaction (insert_all statement (row ∷ rows) begun.0)
        ]
      ]

  unfoldable pub bulk_insert_request_logs : (ℕ → String) → List RequestLog → S → S × Option GoError
  unfolding in_transaction request_rows_of
  bulk_insert_request_logs format logs s =
      in_transaction insert_request_sql (request_rows_of format logs) s

  unfoldable pub bulk_insert_detail_logs : (ℕ → String) → List DetailLog → S → S × Option GoError
  unfolding in_transaction detail_rows_of
  bulk_insert_detail_logs format logs s =
      in_transaction insert_detail_sql (detail_rows_of format logs) s

  -- The deletion of the rows that are too old and of those that are too many; `cutoff` is the text
  -- of the time `max_days` days ago.
  delete_extra : Bytes → ℤ → S → S × Option GoError
  delete_extra extra max_rows s =
      if ltb_ℤ (pos 0) max_rows then db.exec extra (numeric max_rows ∷ []) s else (s, none)

  unfoldable pub prune_rows : Bytes → Bytes → (ℤ → String) → ℤ → ℤ → S → S × Option GoError
  unfolding delete_extra
  prune_rows old extra cutoff max_rows max_days s =
      if ltb_ℤ (pos 0) max_days
      then (let r = db.exec old (textual (cutoff max_days) ∷ []) s in
          elim r.1 [ some e ↦ r | none ↦ delete_extra extra max_rows r.0 ])
      else delete_extra extra max_rows s

  unfoldable pub prune_request_logs : (ℤ → String) → ℤ → ℤ → S → S × Option GoError
  unfolding prune_rows
  prune_request_logs = prune_rows (codes "DELETE FROM request_logs WHERE timestamp < ?") (
      codes
        "DELETE FROM request_logs WHERE id IN ( SELECT id FROM request_logs ORDER BY timestamp DESC LIMIT -1 OFFSET ? )")

  unfoldable pub prune_detail_logs : (ℤ → String) → ℤ → ℤ → S → S × Option GoError
  unfolding prune_rows
  prune_detail_logs = prune_rows (codes "DELETE FROM detail_logs WHERE timestamp < ?") (
      codes
        "DELETE FROM detail_logs WHERE trace_id IN ( SELECT trace_id FROM detail_logs ORDER BY timestamp DESC LIMIT -1 OFFSET ? )")

  -- Batches of the oldest rows are deleted until the size is within the limit. `none` is out of
  -- fuel.
  unfoldable pub size_loop : ℕ → Bytes → Bytes → String → ℤ → S → Option (S × Option GoError)
  size_loop zero size_sql delete_sql what max_bytes s = none
  size_loop (suc k) size_sql delete_sql what max_bytes s = elim (db.scalar size_sql [] s) [
    | failed e ↦ some (s, some (wrap "size check: " e))
    | ok size ↦ elim (leb_ℤ size max_bytes) [
      | true ↦ some (s, none)
      | false ↦
          let r = db.exec delete_sql [] s in
          elim r.1 [
            | some e ↦ some (r.0, some (wrap what e))
            | none ↦ size_loop k size_sql delete_sql what max_bytes r.0
          ]
    ]
  ]

  unfoldable pub prune_by_size : ℕ → Bytes → Bytes → String → ℤ → S → Option (S × Option GoError)
  unfolding size_loop
  prune_by_size fuel size_sql delete_sql what max_bytes s =
      if leb_ℤ max_bytes (pos 0)
      then some (s, none)
      else size_loop fuel size_sql delete_sql what max_bytes s

  unfoldable pub prune_request_logs_by_size : ℕ → ℤ → S → Option (S × Option GoError)
  unfolding prune_by_size
  prune_request_logs_by_size fuel =
      prune_by_size fuel request_size_sql delete_oldest_requests_sql "prune by size: "

  unfoldable pub prune_detail_logs_by_size : ℕ → ℤ → S → Option (S × Option GoError)
  unfolding prune_by_size
  prune_detail_logs_by_size fuel =
      prune_by_size fuel detail_size_sql delete_oldest_details_sql "prune detail by size: "

  unfoldable pub incremental_vacuum : S → S × Option GoError
  incremental_vacuum s = db.exec (codes "PRAGMA incremental_vacuum") [] s
