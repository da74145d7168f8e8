-- ===== src/SqlLogger/Queries.antt =====
-- The queries of the log: their conditions and arguments, the page, and the column to group by.
use Prim.Native.String.{String, ◌++◌ as ◌<>◌}
use text.Mathlib.Text.{◌==◌ as str_eq}
use llmproxy.Common.{
  ℕ, ◌*◌, ◌-◌, ◌%◌, ltb, Bool, true, false, ◌||◌, not, List, [], ◌∷◌, ◌++◌, Option, none, some,
  if◌then◌else◌,
}
use llmproxy.Common.Int.{ℤ, pos, negsuc, pos_part, ◌-ℤ◌, ltb_ℤ, leb_ℤ}
use llmproxy.Common.Eq.{Bytes, codes}
use llmproxy.Common.Decimal.{format_int}
use llmproxy.Domain.{
  Result, ok, failed, LogFilter, RequestLog, DetailLog, LogStats, TimeSeriesPoint, TopEntity,
}
use llmproxy.SqlLogger.{Argument, textual, raw, numeric, Database}
use llmproxy.SqlLogger.Scan.{scan_detail_log, scan_all}

-- `conds` and `args`
abbrev pub Built : Type 0
Built = List Bytes × List Argument

-- One of the tests of the filter, with what its body appends to `conds` and to `args`.
pub record Condition : Type 0 where
  pub test : Bool
  pub cond : Bytes
  pub args : List Argument

unfoldable pub append_all : List Condition → Built → Built
append_all [] built = built
append_all (c ∷ cs) (conds, all) =
    append_all cs (if c.test then (conds ++ c.cond ∷ [], all ++ c.args) else (conds, all))

abbrev pub is_set : String → Bool
is_set s = not (str_eq s "")

-- The text of a time, if there is one.
abbrev pub time_arguments : (ℕ → String) → Option ℕ → List Argument
time_arguments format none = []
time_arguments format (some t) = textual (format t) ∷ []

abbrev pub has_time : Option ℕ → Bool
has_time none = false
has_time (some t) = true

-- The tests in their order.
abbrev pub conditions : (ℕ → String) → LogFilter → List Condition
conditions format f =
    let kw = textual ("%" <> f.keyword <> "%") in
    record {
      test = is_set f.api_key_id;
      cond = codes "api_key_id=?";
      args = textual f.api_key_id ∷ [];
    }
    ∷ record {
      test = is_set f.model_alias;
      cond = codes "model_alias=?";
      args = textual f.model_alias ∷ [];
    }
    ∷ record { test = is_set f.node_id; cond = codes "node_id=?"; args = textual f.node_id ∷ [] }
    ∷ record {
      test = is_set f.session_id;
      cond = codes "session_id=?";
      args = textual f.session_id ∷ [];
    }
    ∷ record {
      test = ltb_ℤ (pos 0) f.status_code;
      cond = codes "status_code=?";
      args = numeric f.status_code ∷ [];
    }
    ∷ record {
      test = f.error_only;
      cond = codes "(status_code >= 400 OR error_msg != '')";
      args = [];
    }
    ∷ record {
      test = is_set f.keyword;
      cond = codes "(error_msg LIKE ? OR id LIKE ?)";
      args = kw ∷ kw ∷ [];
    }
    ∷ record {
      test = has_time f.start_time;
      cond = codes "timestamp >= ?";
      args = time_arguments format f.start_time;
    }
    ∷ record {
      test = has_time f.end_time;
      cond = codes "timestamp <= ?";
      args = time_arguments format f.end_time;
    }
    ∷ []

-- `strings.Join(conds, " AND ")`
unfoldable pub join_and : List Bytes → Bytes
join_and [] = []
join_and (c ∷ []) = c
join_and (c ∷ d ∷ cs) = c ++ codes " AND " ++ join_and (d ∷ cs)

abbrev pub where_text : List Bytes → Bytes
where_text [] = []
where_text (c ∷ cs) = codes " WHERE " ++ join_and (c ∷ cs)

unfoldable pub build_log_filter : (ℕ → String) → LogFilter → Bytes × List Argument
unfolding append_all join_and
build_log_filter format f =
    let built = append_all (conditions format f) ([], []) in (where_text built.0, built.1)

abbrev pub log_columns : Bytes
log_columns =
    codes "SELECT id,session_id,timestamp,api_key_id,model_alias,node_id,actual_model,"
    ++ codes
        "prompt_tokens,completion_tokens,total_tokens,duration_ms,status_code,stream,error_msg,has_detail "
    ++ codes "FROM request_logs"

abbrev pub at_least_one : ℤ → ℤ → ℤ
at_least_one n default = if ltb_ℤ n (pos 1) then default else n

-- A product as an `int` of 64 bits, which wraps.
unfoldable pub wrap_int64 : ℕ → ℤ
wrap_int64 n =
    if ltb (n % 18_446_744_073_709_551_616) 9_223_372_036_854_775_808
    then pos (n % 18_446_744_073_709_551_616)
    else negsuc (18_446_744_073_709_551_615 - n % 18_446_744_073_709_551_616)

-- The tail of the query of a page; both numbers are positive.
unfoldable pub page_text : ℤ → ℤ → Bytes
page_text page page_size =
    let offset = wrap_int64 (pos_part (page -ℤ pos 1) * pos_part page_size) in
    codes " ORDER BY timestamp DESC LIMIT "
    ++ format_int page_size
    ++ codes " OFFSET "
    ++ format_int offset

unfoldable pub page_query : Bytes → LogFilter → Bytes
unfolding page_text
page_query where_ f =
    log_columns
    ++ where_
    ++ page_text (at_least_one f.page (pos 1)) (at_least_one f.page_size (pos 20))

abbrev pub stats_head : Bytes
stats_head =
    codes "SELECT COUNT(*), COALESCE(SUM(prompt_tokens), 0), COALESCE(SUM(completion_tokens), 0), "
    ++ codes "COALESCE(SUM(total_tokens), 0) FROM request_logs"

unfoldable pub stats_query : Bytes → Bytes
stats_query where_ = stats_head ++ where_

unfoldable pub time_format : String → Bytes
time_format granularity =
    if str_eq granularity "day" then codes "'%Y-%m-%dT00:00:00Z'" else codes "'%Y-%m-%dT%H:00:00Z'"

abbrev pub series_columns : Bytes
series_columns =
    codes ", timestamp) as bucket, COUNT(*), COALESCE(SUM(prompt_tokens), 0), "
    ++ codes
        "COALESCE(SUM(completion_tokens), 0), COALESCE(SUM(total_tokens), 0) FROM request_logs "

unfoldable pub series_query : Bytes → String → Bytes
unfolding time_format
series_query where_ granularity =
    codes "SELECT strftime("
    ++ time_format granularity
    ++ series_columns
    ++ where_
    ++ codes " GROUP BY bucket ORDER BY bucket ASC "

unfoldable pub top_column : String → Bytes
top_column group_by =
    if str_eq group_by "api_key_id"
    then codes "api_key_id"
    else if str_eq group_by "node_id"
    then codes "node_id"
    else codes "model_alias"

unfoldable pub top_limit : ℤ → ℤ
top_limit limit = if leb_ℤ limit (pos 0) || ltb_ℤ (pos 100) limit then pos 10 else limit

abbrev pub top_columns : Bytes
top_columns =
    codes
      " as name, COUNT(*), COALESCE(SUM(total_tokens), 0) as tokens, COALESCE(SUM(prompt_tokens), 0), "
    ++ codes "COALESCE(SUM(completion_tokens), 0), COALESCE(AVG(duration_ms), 0), "
    ++ codes
        "CASE WHEN COUNT(*) > 0 THEN COALESCE(SUM(total_tokens), 0) / COUNT(*) ELSE 0 END FROM request_logs "

unfoldable pub top_query : Bytes → String → ℤ → Bytes
unfolding top_column top_limit
top_query where_ group_by limit =
    codes "SELECT "
    ++ top_column group_by
    ++ top_columns
    ++ where_
    ++ codes " GROUP BY name ORDER BY tokens DESC LIMIT "
    ++ format_int (top_limit limit)

module _ {S : Type 0} (db : Database S) (format : ℕ → String) (parse : String → ℕ) where
  -- The rows of a query.
  read_rows : Result (List (List Argument)) → Result (List RequestLog)
  unfolding scan_all
  read_rows (failed e) = failed e
  read_rows (ok rows) = scan_all db.scan_error parse rows

  unfoldable pub query_logs : LogFilter → S → Result (List RequestLog × ℤ)
  unfolding build_log_filter page_query read_rows
  query_logs f s =
      let built = build_log_filter format f in
      elim (db.scalar (codes "SELECT COUNT(*) FROM request_logs" ++ built.0) built.1 s) [
        | failed e ↦ failed e
        | ok total ↦ elim (read_rows (db.query_rows (page_query built.0 f) built.1 s)) [
          | failed e ↦ failed e
          | ok logs ↦ ok (logs, total)
        ]
      ]

  unfoldable pub export_logs : LogFilter → S → Result (List RequestLog)
  unfolding build_log_filter read_rows
  export_logs f s =
      let built = build_log_filter format f in
      read_rows (
        db.query_rows (log_columns ++ built.0 ++ codes " ORDER BY timestamp DESC LIMIT 100000")
          built.1 s)

  -- A row that is not there is no error.
  read_detail : Result (Option (List Argument)) → Result (Option DetailLog)
  unfolding scan_detail_log
  read_detail (failed e) = failed e
  read_detail (ok none) = ok none
  read_detail (ok (some row)) = elim (scan_detail_log parse row) [
    | none ↦ failed db.scan_error
    | some d ↦ ok (some d)
  ]

  unfoldable pub get_detail : Bytes → S → Result (Option DetailLog)
  unfolding read_detail
  get_detail trace_id s = read_detail (
      db.query_row
        (codes
          "SELECT trace_id,session_id,timestamp,request_body,response_body FROM detail_logs WHERE trace_id=?")
        (raw trace_id ∷ []) s)

  unfoldable pub stats : LogFilter → S → Result LogStats
  unfolding build_log_filter stats_query
  stats f s = let built = build_log_filter format f in db.stats_row (stats_query built.0) built.1 s

  unfoldable pub stats_time_series : LogFilter → String → S → Result (List TimeSeriesPoint)
  unfolding build_log_filter series_query
  stats_time_series f granularity s =
      let built = build_log_filter format f in
      db.series_rows (series_query built.0 granularity) built.1 s

  unfoldable pub stats_top : LogFilter → String → ℤ → S → Result (List TopEntity)
  unfolding build_log_filter top_query
  stats_top f group_by limit s =
      let built = build_log_filter format f in
      db.top_rows (top_query built.0 group_by limit) built.1 s
