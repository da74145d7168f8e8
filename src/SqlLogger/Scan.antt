-- ===== src/SqlLogger/Scan.antt =====
-- internal/storage/sqlite/logger.go: the scan of the rows of the log.
use Prim.Native.String.{String}
use llmproxy.Common.{ℕ, not, List, [], ◌∷◌, Option, none, some}
use llmproxy.Common.Int.{pos, pos_part, eqb_ℤ}
use llmproxy.Domain.{GoError, Result, ok, failed, RequestLog, DetailLog}
use llmproxy.SqlLogger.{Argument, textual, raw, numeric}

-- `scanRequestLog`: `parse` is `time.Parse`, whose error is dropped.
unfoldable pub scan_request_log : (String → ℕ) → List Argument → Option RequestLog
scan_request_log parse
      (textual id
        ∷ textual session_id
        ∷ textual ts
        ∷ textual api_key_id
        ∷ textual model_alias
        ∷ textual node_id
        ∷ textual actual_model
        ∷ numeric prompt
        ∷ numeric completion
        ∷ numeric total
        ∷ numeric duration
        ∷ numeric status
        ∷ numeric stream
        ∷ textual error_msg
        ∷ numeric has_detail
        ∷ []) =
    some (record {
      id = id;
      session_id = session_id;
      timestamp = parse ts;
      api_key_id = api_key_id;
      model_alias = model_alias;
      node_id = node_id;
      actual_model = actual_model;
      prompt_tokens = prompt;
      completion_tokens = completion;
      total_tokens = total;
      duration_ms = pos_part duration;
      status_code = status;
      stream = not (eqb_ℤ stream (pos 0));
      error_msg = error_msg;
      has_detail = not (eqb_ℤ has_detail (pos 0));
    })
scan_request_log parse _ = none

-- The scan in `GetDetail`.
unfoldable pub scan_detail_log : (String → ℕ) → List Argument → Option DetailLog
scan_detail_log parse (textual id ∷ textual session_id ∷ textual ts ∷ raw body ∷ raw answer ∷ []) =
    some (record {
      trace_id = id;
      session_id = session_id;
      timestamp = parse ts;
      request_body = body;
      response_body = answer;
    })
scan_detail_log parse _ = none

-- The loop over the rows, which ends at the first one that does not scan.
unfoldable pub scan_all : GoError → (String → ℕ) → List (List Argument) → Result (List RequestLog)
unfolding scan_request_log
scan_all error parse [] = ok []
scan_all error parse (row ∷ rows) =
    let rest = scan_all error parse rows in
    elim (scan_request_log parse row) [
      | none ↦ failed error
      | some log ↦ elim rest [ ok logs ↦ ok (log ∷ logs) | failed e ↦ failed e ]
    ]
