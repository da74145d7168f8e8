-- ===== src/Metrics.antt =====
-- internal/metrics/metrics.go: the counters of the program and the text in which they are read.
-- A counter is an atomic number of 64 bits, and `getCounter` makes one that is missing.
use Prim.Native.String.{String, ◌++◌ as ◌<>◌}
use llmproxy.Common.{
  ℕ, ◌+◌, ◌%◌, ◌≡◌, refl, Bool, true, false, List, [], ◌∷◌, ◌++◌, Option, none, some, arith, ap,
  ◌∙◌, Bool-cases, inl, inr, count, ◌<◌, if◌then◌else◌,
}
use llmproxy.Common.Int.{ℤ, pos, ◌+ℤ◌, ◌-ℤ◌, leb_ℤ, pos_part}
use llmproxy.Common.Eq.{Bytes, codes, Dict, lookup, insert, lookup-insert, string_instance}
use llmproxy.Common.Decimal.{format_nat, format_int}

-- 2 ^ 64
abbrev pub uint64_range : ℕ
uint64_range = 18_446_744_073_709_551_616

pub record Registry : Type 0 where
  pub requests_total : Dict String ℕ
  pub tokens_total : Dict String ℕ
  pub queue_length : Dict String ℤ
  pub worker_busy_count : ℤ

unfoldable pub empty_registry : Registry
empty_registry = record {
  requests_total = [];
  tokens_total = [];
  queue_length = [];
  worker_busy_count = pos 0;
}

-- `getCounter(m, label).Load()`
value_of : Option ℕ → ℕ
value_of none = 0
value_of (some n) = n

unfoldable pub counter_at : String → Dict String ℕ → ℕ
unfolding value_of
counter_at label m = value_of (lookup label m)

-- `getCounter(m, label).Add(n)`
unfoldable pub bump : String → ℕ → Dict String ℕ → Dict String ℕ
unfolding counter_at
bump label n m = insert label ((counter_at label m + n) % uint64_range) m

unfoldable pub status_label : String → String → String
status_label model status = "model=\"" <> model <> "\",status=\"" <> status <> "\""

unfoldable pub type_label : String → String → String
type_label model token_type = "model=\"" <> model <> "\",type=\"" <> token_type <> "\""

unfoldable pub inc_requests : String → String → Registry → Registry
unfolding bump status_label
inc_requests model status r = record r {
  requests_total = bump (status_label model status) 1 r.requests_total;
}

unfoldable pub add_tokens : String → String → ℤ → Registry → Registry
unfolding bump type_label
add_tokens model token_type count r = if leb_ℤ count (pos 0) then r else record r {
  tokens_total = bump (type_label model token_type) (pos_part count) r.tokens_total;
}

unfoldable pub set_queue_length : String → ℤ → Registry → Registry
set_queue_length model length r = record r { queue_length = insert model length r.queue_length }

unfoldable pub inc_worker_busy : Registry → Registry
inc_worker_busy r = record r { worker_busy_count = r.worker_busy_count +ℤ pos 1 }

unfoldable pub dec_worker_busy : Registry → Registry
dec_worker_busy r = record r { worker_busy_count = r.worker_busy_count -ℤ pos 1 }

-- The lines of a family of counters and of the gauges, for the order in which `Range` meets them.
counter_lines : String → Dict String ℕ → Bytes
counter_lines name [] = []
counter_lines name ((k, n) ∷ m) =
    codes (name <> "{" <> k <> "} ") ++ format_nat n ++ codes "\n" ++ counter_lines name m

gauge_lines : Dict String ℤ → Bytes
gauge_lines [] = []
gauge_lines ((k, n) ∷ m) =
    codes ("proxyllm_queue_length{model=\"" <> k <> "\"} ")
    ++ format_int n
    ++ codes "\n"
    ++ gauge_lines m

unfoldable pub write_prometheus : Registry → Bytes
unfolding counter_lines gauge_lines
write_prometheus r =
    codes "# HELP proxyllm_requests_total Total number of requests processed.\n"
    ++ codes "# TYPE proxyllm_requests_total counter\n"
    ++ counter_lines "proxyllm_requests_total" r.requests_total
    ++ codes "# HELP proxyllm_tokens_total Total number of tokens processed.\n"
    ++ codes "# TYPE proxyllm_tokens_total counter\n"
    ++ counter_lines "proxyllm_tokens_total" r.tokens_total
    ++ codes "# HELP proxyllm_queue_length Current number of requests in queue.\n"
    ++ codes "# TYPE proxyllm_queue_length gauge\n"
    ++ gauge_lines r.queue_length
    ++ codes "# HELP proxyllm_worker_busy_count Current number of busy worker goroutines.\n"
    ++ codes "# TYPE proxyllm_worker_busy_count gauge\n"
    ++ codes "proxyllm_worker_busy_count "
    ++ format_int r.worker_busy_count
    ++ codes "\n"

value_of-if :
    (test : Bool) (n : ℕ) (o : Option ℕ)
    → value_of (if test then some n else o) ≡ (if test then n else value_of o)
unfolding value_of
value_of-if true n o = refl
value_of-if false n o = refl

-- A bump adds to the counter of its label, up to the wrap at 2 ^ 64, and to no other.
pub counter_at-bump :
    (label other : String) (n : ℕ) (m : Dict String ℕ)
    → counter_at other (bump label n m) ≡ (
        if string_instance.beq label other
        then (counter_at label m + n) % uint64_range
        else counter_at other m)
unfolding counter_at bump value_of
counter_at-bump label other n m =
    ap value_of (lookup-insert label other ((counter_at label m + n) % uint64_range) m)
    ∙ value_of-if (string_instance.beq label other) ((counter_at label m + n) % uint64_range)
        (lookup other m)

-- `IncRequests` of each model and status of a list, the first one first.
unfoldable pub count_requests : List (String × String) → Registry → Registry
unfolding inc_requests
count_requests [] r = r
count_requests ((model, status) ∷ calls) r = count_requests calls (inc_requests model status r)

-- However the requests end, the counter of a label is the number of those that ended under this
-- label besides what it was, up to the wrap at 2 ^ 64, below which it was.
pub counter_at-count_requests :
    (label : String) (calls : List (String × String)) (r : Registry)
    → counter_at label r.requests_total < uint64_range
    → counter_at label (count_requests calls r).requests_total
      ≡ (counter_at label r.requests_total
          + count (λ call. string_instance.beq (status_label call.0 call.1) label) calls)
        % uint64_range
unfolding count_requests inc_requests
counter_at-count_requests label [] r h = omega (arith, h)
counter_at-count_requests label ((model, status) ∷ calls) r h =
    let here = status_label model status in
    let bumped = counter_at-bump here label 1 r.requests_total in
    let same = (string_instance.beq_iff here label).0 in
    let rest = counter_at-count_requests label calls (inc_requests model status r) in
    elim (Bool-cases (string_instance.beq here label)) [
      | inl e ↦
          let now : counter_at label (bump here 1 r.requests_total)
              ≡ (counter_at label r.requests_total + 1) % uint64_range =
            bumped ∙ rw e (ap (λ l. (counter_at l r.requests_total + 1) % uint64_range) (same e)) in
          rw e (omega (arith, rest (omega (arith, h, now)), now))
      | inr e ↦
          let now : counter_at label (bump here 1 r.requests_total)
              ≡ counter_at label r.requests_total =
            bumped ∙ rw e refl in
          rw e (omega (arith, rest (omega (arith, h, now)), now))
    ]
