-- ===== src/Tests/Workers.antt =====
-- Runs of the workers' loop, and of the cleaner.
use Prim.Native.String.{String}
use llmproxy.Common.{ℕ, suc, ◌-◌, ◌*◌, refl, Bool, false, List, [], ◌∷◌, none, arith, if◌then◌else◌}
use llmproxy.Common.Int.{pos, ◌+ℤ◌, ◌-ℤ◌}
use llmproxy.Common.Eq.{bytes_eq}
use llmproxy.Common.Returns.{Returns}
use llmproxy.Domain.{GoError, endpoint_chat, ok}
use llmproxy.SqlLogger.{
  Database, request_size_sql, detail_size_sql, delete_oldest_requests_sql,
  delete_oldest_details_sql,
}
use llmproxy.SqlLogger.Pruning.{IsShrinking}
use llmproxy.Retention.{RetentionCleaner, clean, Cleaned, clean-Cleaned}
use llmproxy.Heap
use llmproxy.RequestQueue.{
  PendingRequest, RequestQueue, new_request_queue, enqueue, refuses, position_loop, less,
  dequeue_blocking, dequeue_loop,
}
use llmproxy.Pool.{
  Pool, new_pool, after_dequeue, admit_or_hold, wake_up, work, wake, Reach, begin, next, submit,
}
use llmproxy.Pool.Requests.{Kept, Reach-Kept}

abbrev request : String → ℕ → PendingRequest
request id time = record {
  id = id;
  session_id = "s";
  request_id = id;
  priority = pos 0;
  api_key_id = "k";
  model_alias = "m";
  endpoint_type = endpoint_chat;
  timestamp = time;
  body_bytes = [];
  headers = [];
  method = "POST";
  path = "/v1/chat/completions";
  remote_addr = "10.0.0.1:1";
  writer = 0;
  result_chan = 0;
  context = 0;
  cancel = 0;
  queue_wait_ms = pos 0;
  execution_ms = pos 0;
  ratelimit_retries = pos 0;
}

abbrev never : PendingRequest → Bool
never r = false

abbrev queue_of : List PendingRequest → RequestQueue
queue_of rs = record { heap = rs; max = pos 1; closed = false }

-- The limiter refuses the first request, so that it is held back.
abbrev held : Pool
held = record (new_pool (queue_of [])) { sleeping = request "a" 1 ∷ []; blocked_count = 1 }

-- Meanwhile a second one fills the queue, which then refuses to take the first one back.
abbrev lost : Pool
lost = record (new_pool (queue_of (request "b" 2 ∷ []))) {
  refused = request "a" 1 ∷ [];
  blocked_count = 1;
}

held-Reach : Reach never (pos 1) held (request "a" 1 ∷ [])
unfolding enqueue refuses position_loop less Heap.push Heap.up Heap.up_loop Heap.less_at Heap.swap
    new_request_queue dequeue_blocking dequeue_loop after_dequeue admit_or_hold ◌+ℤ◌ ◌-ℤ◌ Heap.pop
    Heap.pop_last Heap.down Heap.down_loop
held-Reach = next (submit (request "a" 1) begin refl) (work false never (λ x e. e) refl)

lost-Reach : Reach never (pos 1) lost (request "b" 2 ∷ request "a" 1 ∷ [])
unfolding enqueue refuses position_loop less Heap.push Heap.up Heap.up_loop Heap.less_at Heap.swap
    new_request_queue wake_up
lost-Reach =
    next (submit (request "b" 2) held-Reach refl)
      (wake false (request "a" 1) [] [] (λ e. e) refl refl)

Reach-Kept_example : Kept never (request "b" 2 ∷ request "a" 1 ∷ []) lost
Reach-Kept_example = Reach-Kept never lost-Reach

abbrev full_disk : GoError
full_disk = record { deadline_exceeded = false; cancelled = false; text = "disk is full" }

-- A database of two tables that are the numbers of their rows, of a thousand and ten thousand bytes.
abbrev two_tables : Database (ℕ × ℕ)
two_tables = record {
  exec = λ sql args s.
      if bytes_eq sql delete_oldest_requests_sql
      then ((s.0 - 500, s.1), none)
      else if bytes_eq sql delete_oldest_details_sql
      then ((s.0, s.1 - 100), none)
      else (s, none);
  begin = λ s. (s, none);
  prepare = λ sql s. none;
  commit = λ s. (s, none);
  rollback = λ s. s;
  scan_error = full_disk;
  scalar =
      λ sql args s. ok (pos (if bytes_eq sql request_size_sql then s.0 * 1000 else s.1 * 10_000));
  query_rows = λ sql args s. ok [];
  query_row = λ sql args s. ok none;
  stats_row = λ sql args s. ok (record {
    total_requests = pos 0;
    prompt_tokens = pos 0;
    completion_tokens = pos 0;
    total_tokens = pos 0;
  });
  series_rows = λ sql args s. ok [];
  top_rows = λ sql args s. ok [];
}

abbrev requests_shrink : IsShrinking two_tables request_size_sql delete_oldest_requests_sql 500
requests_shrink = record { rows = λ s. s.0; empty_size = λ s e. rw e refl; deleted = λ s e. refl }

abbrev details_shrink : IsShrinking two_tables detail_size_sql delete_oldest_details_sql 100
details_shrink = record { rows = λ s. s.1; empty_size = λ s e. rw e refl; deleted = λ s e. refl }

abbrev one_megabyte : RetentionCleaner
one_megabyte = record {
  basic = record { max_rows = pos 0; max_days = pos 30; max_size_mb = pos 1 };
  detail = record { max_rows = pos 0; max_days = pos 7; max_size_mb = pos 1 };
}

clean-Cleaned_example :
    Returns
      (Cleaned two_tables (λ days. "T") one_megabyte (2000, 150))
      (clean two_tables (λ days. "T") (λ t. suc t.0) (λ t. suc t.1) one_megabyte (2000, 150))
clean-Cleaned_example =
    clean-Cleaned two_tables (λ days. "T") one_megabyte (2000, 150) 500 100 requests_shrink
      details_shrink (omega arith) (omega arith)
