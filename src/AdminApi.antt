-- ===== src/AdminApi.antt =====
-- internal/api/admin.go: the handlers of the administrator's API, which only read. The storage and
-- the log are what they answer in the state at hand; the encoding of the records as JSON and the
-- parser of times are parameters.
pub mod Masking
use Prim.Native.String.{String}
use text.Mathlib.Text.{◌==◌ as str_eq}
use llmproxy.Common.{
  ℕ, suc, ◌+◌, ◌-◌, Bool, true, false, ◌||◌, List, [], ◌∷◌, ◌++◌, Option, none, some, length, take,
  drop, ltb, ◌==◌, if◌then◌else◌,
}
use llmproxy.Common.Int.{ℤ, pos, ltb_ℤ}
use llmproxy.Common.Eq.{Bytes, codes}
use llmproxy.Common.Decimal.{atoi}
use llmproxy.Json.{Value, num, obj, end, field}
use llmproxy.Domain.{
  ModelNode, ApiKey, Result, ok, failed, RequestLog, DetailLog, LogStats, LogFilter,
  TimeSeriesPoint, TopEntity,
}
use llmproxy.Stream.{after_prefix}
use llmproxy.Http
use llmproxy.Http.{ResponseWriter, header_set}
use llmproxy.Middleware.{write_json, write_error}
use llmproxy.SqlLogger.{Database}
use llmproxy.SqlLogger.Queries.{
  query_logs, export_logs, get_detail, stats, stats_time_series, stats_top,
}

-- `query` is `r.URL.Query().Get`.
pub record AdminRequest : Type 0 where
  pub method : String
  pub path : Bytes
  pub query : String → String

-- What the handlers ask of the storage and of the log.
pub record AdminStore : Type 0 where
  pub list_nodes : Result (List ModelNode)
  pub get_node : Bytes → Result (Option ModelNode)
  pub list_api_keys : Result (List ApiKey)

pub record LogReader : Type 0 where
  pub read_logs : LogFilter → Result (List RequestLog × ℤ)
  pub read_all : LogFilter → Result (List RequestLog)
  pub read_detail : Bytes → Result (Option DetailLog)
  pub read_stats : LogFilter → Result LogStats
  pub read_series : LogFilter → String → Result (List TimeSeriesPoint)
  pub read_top : LogFilter → String → ℤ → Result (List TopEntity)

-- The log in the database, in the state `s`.
abbrev pub reader_of : {S : Type 0} → Database S → (ℕ → String) → (String → ℕ) → S → LogReader
reader_of db format parse s = record {
  read_logs = λ f. query_logs db format parse f s;
  read_all = λ f. export_logs db format parse f s;
  read_detail = λ id. get_detail db format parse id s;
  read_stats = λ f. stats db format parse f s;
  read_series = λ f granularity. stats_time_series db format parse f granularity s;
  read_top = λ f group_by limit. stats_top db format parse f group_by limit s;
}

-- `json.Marshal` of the records; an API key is encoded with the text that stands for it.
pub record Encoders : Type 0 where
  pub bytes_of : Value → Bytes
  pub of_nodes : List ModelNode → Value
  pub of_node : ModelNode → Value
  pub of_keys : List (ApiKey × Bytes) → Value
  pub of_logs : List RequestLog → Value
  pub line_of : RequestLog → Bytes
  pub of_detail : DetailLog → Value
  pub of_series : List TimeSeriesPoint → Value
  pub of_top : List TopEntity → Value

-- The prefix and the last four bytes of a key, or nothing of a short one.
unfoldable pub mask : Bytes → Bytes
mask k = if ltb 7 (length k) then take 3 k ++ codes "***" ++ drop (length k - 4) k else codes "****"

-- The loop that masks: the keys without their secrets, and the texts in their place.
unfoldable pub masked : List ApiKey → List (ApiKey × Bytes)
unfolding mask
masked [] = []
masked (k ∷ ks) = (record k { key = "" }, mask (codes k.key)) ∷ masked ks

-- `strings.TrimPrefix`
unfoldable pub trim_prefix : Bytes → Bytes → Bytes
unfolding after_prefix
trim_prefix prefix s = elim (after_prefix prefix s) [ none ↦ s | some rest ↦ rest ]

unfoldable pub int_query : String → ℤ → ℤ
unfolding atoi
int_query s default =
    if str_eq s ""
    then default
    else elim (atoi (codes s)) [ none ↦ default | some v ↦ if ltb_ℤ v (pos 1) then default else v ]

unfoldable pub time_query : (String → Option ℕ) → String → Option ℕ
time_query parse_time v = if str_eq v "" then none else parse_time v

unfoldable pub parse_log_filter : (String → Option ℕ) → AdminRequest → LogFilter
unfolding int_query time_query
parse_log_filter parse_time r = record {
  api_key_id = r.query "api_key_id";
  model_alias = r.query "model";
  node_id = r.query "node_id";
  session_id = r.query "session_id";
  status_code = int_query (r.query "status_code") (pos 0);
  error_only = str_eq (r.query "error_only") "true" || str_eq (r.query "error_only") "1";
  keyword = r.query "keyword";
  start_time = time_query parse_time (r.query "start");
  end_time = time_query parse_time (r.query "end");
  page = int_query (r.query "page") (pos 1);
  page_size = int_query (r.query "page_size") (pos 20);
}

-- The number of enabled entries.
enabled_nodes : List ModelNode → ℕ
enabled_nodes [] = 0
enabled_nodes (n ∷ ns) = (if n.enabled then 1 else 0) + enabled_nodes ns

enabled_keys : List ApiKey → ℕ
enabled_keys [] = 0
enabled_keys (k ∷ ks) = (if k.enabled then 1 else 0) + enabled_keys ks

-- `nodes, _ := …`
abbrev or_nil {ℓ} : {A : Type ℓ} → Result (List A) → List A
or_nil (ok xs) = xs
or_nil (failed e) = []

-- The loop of the encoder over the lines; a write that fails ends it.
export_lines : (RequestLog → Bytes) → List RequestLog → ResponseWriter → ResponseWriter
export_lines line_of [] w = w
export_lines line_of (log ∷ logs) w =
    let r = Http.write (line_of log) w in
    elim r.1 [ true ↦ export_lines line_of logs r.0 | false ↦ r.0 ]

abbrev or_default : String → String → String
or_default s default = if str_eq s "" then default else s

module _ (enc : Encoders) (store : AdminStore) (reader : LogReader) (parse_time : String → Option ℕ)
    (r : AdminRequest) (w : ResponseWriter) where
  get_only : ResponseWriter → ResponseWriter
  get_only answer =
      if str_eq r.method "GET"
      then answer
      else write_error enc.bytes_of (pos 405) "method not allowed" w

  -- An error of the storage is a 500.
  answer_with {ℓ} : {A : Type ℓ} → Result A → (A → ResponseWriter) → ResponseWriter
  answer_with (failed e) f = write_error enc.bytes_of (pos 500) e.text w
  answer_with (ok a) f = f a

  unfoldable pub nodes : ResponseWriter
  unfolding get_only answer_with
  nodes =
      get_only
        (answer_with store.list_nodes λ ns. write_json enc.bytes_of (pos 200) (enc.of_nodes ns) w)

  answer_found {ℓ} : {A : Type ℓ} → String → (A → Value) → Option A → ResponseWriter
  answer_found message encode none = write_error enc.bytes_of (pos 404) message w
  answer_found message encode (some a) = write_json enc.bytes_of (pos 200) (encode a) w

  unfoldable pub node_by_id : ResponseWriter
  unfolding get_only answer_with answer_found trim_prefix
  node_by_id = get_only (
      let id = trim_prefix (codes "/admin/nodes/") r.path in
      if length id == 0
      then write_error enc.bytes_of (pos 400) "missing node id" w
      else answer_with (store.get_node id) (answer_found "node not found" enc.of_node))

  unfoldable pub keys : ResponseWriter
  unfolding get_only answer_with masked
  keys = get_only (
      answer_with store.list_api_keys
        λ ks. write_json enc.bytes_of (pos 200) (enc.of_keys (masked ks)) w)

  unfoldable pub logs : ResponseWriter
  unfolding get_only answer_with parse_log_filter
  logs = get_only (
      let f = parse_log_filter parse_time r in
      answer_with (reader.read_logs f) λ found.
        write_json enc.bytes_of (pos 200)
          (obj (
            field "total" (num found.1 0)
              (field "page" (num f.page 0) (field "data" (enc.of_logs found.0) end))))
          w)

  unfoldable pub log_export : ResponseWriter
  unfolding get_only answer_with parse_log_filter export_lines
  log_export = get_only (
      answer_with (reader.read_all (parse_log_filter parse_time r)) λ found.
        export_lines enc.line_of found (record w {
          header =
              header_set "Content-Disposition" "attachment; filename=logs_export.jsonl"
                (header_set "Content-Type" "application/x-jsonlines" w.header);
        }))

  unfoldable pub log_detail : ResponseWriter
  unfolding get_only answer_with answer_found trim_prefix
  log_detail = get_only (
      let id = trim_prefix (codes "/admin/logs/") r.path in
      if length id == 0
      then write_error enc.bytes_of (pos 400) "missing trace id" w
      else answer_with (reader.read_detail id) (answer_found "detail not found" enc.of_detail))

  -- `start_of_day` is the start of the current day in UTC.
  unfoldable pub admin_stats : ℕ → ResponseWriter
  unfolding get_only answer_with parse_log_filter enabled_nodes enabled_keys
  admin_stats start_of_day = get_only (
      let f = parse_log_filter parse_time r in
      let g : LogFilter = record f {
        start_time = elim f.start_time [ none ↦ some start_of_day | some t ↦ some t ];
      } in
      answer_with (reader.read_stats g) λ found.
        let ns = or_nil store.list_nodes in
        let ks = or_nil store.list_api_keys in
        write_json enc.bytes_of (pos 200)
          (obj (
            field "requests_today" (num found.total_requests 0) (
              field "prompt_tokens" (num found.prompt_tokens 0) (
                field "completion_tokens" (num found.completion_tokens 0) (
                  field "tokens_today" (num found.total_tokens 0) (
                    field "active_nodes" (num (pos (enabled_nodes ns)) 0) (
                      field "total_nodes" (num (pos (length ns)) 0) (
                        field "active_keys" (num (pos (enabled_keys ks)) 0)
                          (field "total_keys" (num (pos (length ks)) 0) end)))))))))
          w)

  unfoldable pub admin_stats_time_series : ResponseWriter
  unfolding get_only answer_with parse_log_filter
  admin_stats_time_series = get_only (
      answer_with
        (reader.read_series (parse_log_filter parse_time r)
          (or_default (r.query "granularity") "day"))
        λ found. write_json enc.bytes_of (pos 200) (enc.of_series found) w)

  unfoldable pub admin_stats_top : ResponseWriter
  unfolding get_only answer_with parse_log_filter int_query
  admin_stats_top = get_only (
      answer_with
        (reader.read_top (parse_log_filter parse_time r)
          (or_default (r.query "group_by") "model_alias") (int_query (r.query "limit") (pos 10)))
        λ found. write_json enc.bytes_of (pos 200) (enc.of_top found) w)
