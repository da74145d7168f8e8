-- ===== src/Tests/Tables.antt =====
-- Runs of the log in the database.
use Prim.Native.String.{String, count, ◌∷◌ as push}
use Prim.Native.String.count
use llmproxy.Common.{
  ℕ, zero, suc, ap, ◌∙◌, ◌*◌, ◌-◌, ◌≡◌, refl, true, false, [], ◌∷◌, none, some, arith, ltb,
  if◌then◌else◌,
}
use llmproxy.Common.Int.{pos}
use llmproxy.Common.Eq.{bytes_eq, codes}
use llmproxy.Common.Returns.{Returns}
use llmproxy.Domain.{GoError, ok, failed, LogFilter, RequestLog}
use llmproxy.SqlLogger.{
  textual, numeric, Database, prune_by_size, request_rows_of, request_size_sql,
  delete_oldest_requests_sql,
}
use llmproxy.SqlLogger.Queries.{build_log_filter, append_all, join_and}
use llmproxy.SqlLogger.Scan.{scan_all}
use llmproxy.SqlLogger.RoundTrip.{scan_all-request_rows_of}
use llmproxy.SqlLogger.Filters.{IsBound, build_log_filter-IsBound}
use llmproxy.SqlLogger.Safety.{IsSafe, build_log_filter-IsSafe}
use llmproxy.SqlLogger.Pruning.{IsShrinking, Pruned, prune_by_size-Pruned}

abbrev full_disk : GoError
full_disk = record { deadline_exceeded = false; cancelled = false; text = "disk is full" }

-- A database that is the number of its rows, each of ten bytes: it deletes up to 500 rows, refuses a
-- row when it has more than 1500, and has nothing to read.
abbrev numbers : Database ℕ
numbers = record {
  exec = λ sql args s.
      if bytes_eq sql delete_oldest_requests_sql
      then (s - 500, none)
      else if ltb 1500 s
      then (s, some full_disk)
      else (suc s, none);
  begin = λ s. (s, none);
  prepare = λ sql s. none;
  commit = λ s. (s, none);
  rollback = λ s. s;
  scan_error = full_disk;
  scalar = λ sql args s. ok (pos (s * 10));
  query_rows = λ sql args s. ok [];
  query_row = λ sql args s. ok none;
  stats_row = λ sql args s. failed full_disk;
  series_rows = λ sql args s. ok [];
  top_rows = λ sql args s. ok [];
}

abbrev numbers_shrink : IsShrinking numbers request_size_sql delete_oldest_requests_sql 500
numbers_shrink = record { rows = λ s. s; empty_size = λ s e. rw e refl; deleted = λ s e. refl }

prune_by_size-Pruned_example :
    Returns (Pruned numbers request_size_sql delete_oldest_requests_sql (pos 5000)) (
      prune_by_size numbers 1201 request_size_sql delete_oldest_requests_sql "prune"
        (pos 5000)
        1200)
prune_by_size-Pruned_example =
    prune_by_size-Pruned numbers request_size_sql delete_oldest_requests_sql 500 "prune" (pos 5000)
      numbers_shrink (omega arith) (omega arith) 1200

abbrev filter_of : String → LogFilter
filter_of model = record {
  api_key_id = "";
  model_alias = model;
  node_id = "";
  session_id = "";
  status_code = pos 500;
  error_only = true;
  keyword = "";
  start_time = some 7;
  end_time = none;
  page = pos 2;
  page_size = pos 20;
}

filter_run : build_log_filter (λ t. "T") (filter_of "m") ≡ (
  codes
      " WHERE model_alias=? AND status_code=? AND (status_code >= 400 OR error_msg != '') AND timestamp >= ?",
  textual "m" ∷ numeric (pos 500) ∷ textual "T" ∷ [],
)
unfolding build_log_filter append_all join_and
filter_run = refl

build_log_filter-IsBound_example :
    IsBound
      (build_log_filter (λ t. "T") (filter_of "m")).0
      (build_log_filter (λ t. "T") (filter_of "m")).1
      (filter_of "m")
      "day"
      (pos 5)
build_log_filter-IsBound_example = build_log_filter-IsBound (λ t. "T") (filter_of "m") "day" (pos 5)

build_log_filter-IsSafe_example :
    IsSafe (λ t. "T") (filter_of "m") (filter_of "' OR 1=1 --") "day'" "1; DROP TABLE x" (pos 1000)
build_log_filter-IsSafe_example =
    build_log_filter-IsSafe (λ t. "T") (filter_of "m") (filter_of "' OR 1=1 --") "day'"
      "1; DROP TABLE x" (pos 1000)
      (record {
        same_key = refl;
        same_model = refl;
        same_node = refl;
        same_session = refl;
        same_status = refl;
        same_errors = refl;
        same_keyword = refl;
        same_start = refl;
        same_end = refl;
      })

-- A time is written as so many strokes.
strokes : ℕ → String
strokes zero = ""
strokes (suc n) = push "|" (strokes n)

count-strokes : (n : ℕ) → count (strokes n) ≡ n
unfolding strokes
count-strokes zero = count.nil
count-strokes (suc n) = count.cons "|" (strokes n) ∙ ap suc (count-strokes n)

abbrev refused_log : RequestLog
refused_log = record {
  id = "r1";
  session_id = "s";
  timestamp = 7;
  api_key_id = "k";
  model_alias = "m";
  node_id = "";
  actual_model = "";
  prompt_tokens = pos 0;
  completion_tokens = pos 0;
  total_tokens = pos 0;
  duration_ms = 3;
  status_code = pos 503;
  stream = true;
  error_msg = "queue full";
  has_detail = false;
}

scan_all-request_rows_of_example :
    scan_all full_disk count (request_rows_of strokes (refused_log ∷ [])) ≡ ok (refused_log ∷ [])
scan_all-request_rows_of_example =
    scan_all-request_rows_of strokes count count-strokes full_disk (refused_log ∷ [])
