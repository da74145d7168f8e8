-- ===== src/SqlLogger/RoundTrip.antt =====
-- A row that was written is read back as the entry that it was written for.
use Prim.Native.String.{String}
use llmproxy.Common.{ℕ, ◌≡◌, refl, Bool, true, false, not, List, [], ◌∷◌, some}
use llmproxy.Common.Int.{pos, eqb_ℤ}
use llmproxy.Domain.{GoError, RequestLog, ok}
use llmproxy.SqlLogger.{Argument, bool_to_int, request_row, request_rows_of}
use llmproxy.SqlLogger.Scan.{scan_request_log, scan_all}

pub bool_to_int_back : (b : Bool) → not (eqb_ℤ (bool_to_int b) (pos 0)) ≡ b
unfolding bool_to_int
bool_to_int_back true = refl
bool_to_int_back false = refl

scan_all-cons :
    (error : GoError) (parse : String → ℕ) (row : List Argument) (rows : List (List Argument))
    (log : RequestLog) (logs : List RequestLog)
    → scan_request_log parse row ≡ some log
    → scan_all error parse rows ≡ ok logs
    → scan_all error parse (row ∷ rows) ≡ ok (log ∷ logs)
unfolding scan_all
scan_all-cons error parse row rows log logs e f = rw (e, f, scan_all) refl

-- `time.Parse` reads what `Format` wrote.
module _ (format : ℕ → String) (parse : String → ℕ) (law : (t : ℕ) → parse (format t) ≡ t) where
  scan-request_row : (log : RequestLog) → scan_request_log parse (request_row format log) ≡ some log
  unfolding scan_request_log request_row
  scan-request_row log =
      simp (law log.timestamp, bool_to_int_back log.stream, bool_to_int_back log.has_detail) refl

  -- If the parser of times reads what their format wrote, then the scan of the rows that a bulk
  -- insert writes yields the entries, all of them and in order.
  pub scan_all-request_rows_of :
      (error : GoError) (logs : List RequestLog)
      → scan_all error parse (request_rows_of format logs) ≡ ok logs
  unfolding scan_all request_rows_of
  scan_all-request_rows_of error [] = refl
  scan_all-request_rows_of error (log ∷ logs) =
      scan_all-cons error parse (request_row format log) (request_rows_of format logs) log logs
        (scan-request_row log) (scan_all-request_rows_of error logs)
