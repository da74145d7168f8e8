-- ===== src/SqlLogger/Filters.antt =====
-- Every text that goes to the database has as many placeholders as arguments, and none holds a text
-- that came from outside.
use Prim.Native.String.{String}
use text.Mathlib.Text.{◌==◌ as str_eq}
use llmproxy.Common.{
  ◌*◌, ℕ, ◌+◌, ◌≡◌, refl, ◌∙◌, true, List, [], ◌∷◌, ◌++◌, Option, none, some, arith, ◌==◌, count,
  count-append, length, length-append, All, if_prove,
}
use llmproxy.Common.Int.{pos_part, ℤ, pos, ◌-ℤ◌}
use llmproxy.Common.Eq.{Bytes, codes}
use llmproxy.Common.Decimal.{format_int, count-format_int}
use llmproxy.Domain.{LogFilter}
use llmproxy.SqlLogger.{Argument}
use llmproxy.SqlLogger.Queries.{
  Built, Condition, append_all, has_time, time_arguments, conditions, join_and, where_text,
  build_log_filter, log_columns, at_least_one, wrap_int64, stats_head, series_columns, top_columns,
  page_text, page_query, stats_query, time_format, series_query, top_column, top_limit, top_query,
}

-- The placeholders of a statement.
abbrev pub marks : Bytes → ℕ
marks = count (λ c. c == 63)

total_marks : List Bytes → ℕ
total_marks [] = 0
total_marks (c ∷ cs) = marks c + total_marks cs

marks_after : (literal rest : Bytes) → marks literal ≡ 0 → marks (literal ++ rest) ≡ marks rest
marks_after literal rest e = omega (arith, e, count-append (λ c. c == 63) literal rest)

marks_before : (rest literal : Bytes) → marks literal ≡ 0 → marks (rest ++ literal) ≡ marks rest
marks_before rest literal e = omega (arith, e, count-append (λ c. c == 63) rest literal)

marks-format_int : (n : ℤ) → marks (format_int n) ≡ 0
marks-format_int n = count-format_int (λ c. c == 63) n (λ c low high. ground arith) refl

total_marks-append : (cs ds : List Bytes) → total_marks (cs ++ ds) ≡ total_marks cs + total_marks ds
unfolding total_marks
total_marks-append [] ds = omega arith
total_marks-append (c ∷ cs) ds = omega (arith, total_marks-append cs ds)

marks-join_and : (cs : List Bytes) → marks (join_and cs) ≡ total_marks cs
unfolding join_and total_marks
marks-join_and [] = refl
marks-join_and (c ∷ []) = omega arith
marks-join_and (c ∷ d ∷ cs) = omega (
  arith,
  count-append (λ c. c == 63) (c ++ codes " AND ") (join_and (d ∷ cs)),
  marks_before c (codes " AND ") refl,
  marks-join_and (d ∷ cs),
)

IsBalanced : Built → Type 0
IsBalanced built = total_marks built.0 ≡ length built.1

IsMarked : Condition → Type 0
IsMarked c = c.test ≡ true → marks c.cond ≡ length c.args

append_all-IsBalanced :
    (cs : List Condition) (built : Built)
    → All IsMarked cs
    → IsBalanced built
    → IsBalanced (append_all cs built)
unfolding append_all IsBalanced IsMarked total_marks
append_all-IsBalanced [] built m b = b
append_all-IsBalanced (c ∷ cs) (conds, all) m b = append_all-IsBalanced cs _ m.1 (
    if_prove (λ (z : Built). total_marks z.0 ≡ length z.1) c.test
      (λ t.
        omega (arith, m.0 t, b, total_marks-append conds (c.cond ∷ []), length-append all c.args))
      (λ _. b))

time_marks :
    (format : ℕ → String) (t : Option ℕ) → has_time t ≡ true → 1 ≡ length (time_arguments format t)
time_marks format none e = cc
time_marks format (some t) e = refl

conditions-IsMarked : (format : ℕ → String) (f : LogFilter) → All IsMarked (conditions format f)
unfolding IsMarked
conditions-IsMarked format f = (
  λ _. refl,
  (
    λ _. refl,
    (
      λ _. refl,
      (
        λ _. refl,
        (
          λ _. refl,
          (
            λ _. refl,
            (λ _. refl, (time_marks format f.start_time, (time_marks format f.end_time, tt))),
          ),
        ),
      ),
    ),
  ),
)

marks-where_text : (cs : List Bytes) → marks (where_text cs) ≡ total_marks cs
unfolding total_marks
marks-where_text [] = refl
marks-where_text (c ∷ cs) =
    marks_after (codes " WHERE ") (join_and (c ∷ cs)) refl ∙ marks-join_and (c ∷ cs)

-- The texts of the queries, and that each has a placeholder for every argument of the filter.
pub record IsBound (w : Bytes) (args : List Argument) (f : LogFilter) (name : String) (limit : ℤ)
    : Type 0 where
  pub counted : marks (codes "SELECT COUNT(*) FROM request_logs" ++ w) ≡ length args
  pub page : marks (page_query w f) ≡ length args
  pub export :
      marks (log_columns ++ w ++ codes " ORDER BY timestamp DESC LIMIT 100000") ≡ length args
  pub stats : marks (stats_query w) ≡ length args
  pub series : marks (series_query w name) ≡ length args
  pub top : marks (top_query w name limit) ≡ length args

marks-page_text : (page page_size : ℤ) → marks (page_text page page_size) ≡ 0
unfolding page_text
marks-page_text page page_size =
    let front = codes " ORDER BY timestamp DESC LIMIT " ++ format_int page_size in
    let offset = wrap_int64 (pos_part (page -ℤ pos 1) * pos_part page_size) in
    marks_before (front ++ codes " OFFSET ") (format_int offset) (marks-format_int offset)
    ∙ marks_before front (codes " OFFSET ") refl
    ∙ marks_before (codes " ORDER BY timestamp DESC LIMIT ") (format_int page_size)
        (marks-format_int page_size)

-- A text between a head and a tail without placeholders.
marks_between :
    (head w tail : Bytes) → marks head ≡ 0 → marks tail ≡ 0 → marks (head ++ w ++ tail) ≡ marks w
marks_between head w tail e f = marks_before (head ++ w) tail f ∙ marks_after head w e

marks-time_format : (granularity : String) → marks (time_format granularity) ≡ 0
unfolding time_format
marks-time_format granularity =
    if_prove (λ z. marks z ≡ 0) (str_eq granularity "day") (λ _. refl) (λ _. refl)

marks-top_column : (group_by : String) → marks (top_column group_by) ≡ 0
unfolding top_column
marks-top_column group_by =
    if_prove (λ z. marks z ≡ 0) (str_eq group_by "api_key_id") (λ _. refl)
      (λ _. if_prove (λ z. marks z ≡ 0) (str_eq group_by "node_id") (λ _. refl) (λ _. refl))

-- Every query of the log has as many placeholders as the filter has arguments.
pub build_log_filter-IsBound :
    (format : ℕ → String) (f : LogFilter) (name : String) (limit : ℤ)
    → IsBound (build_log_filter format f).0 (build_log_filter format f).1 f name limit
unfolding build_log_filter IsBalanced total_marks page_query stats_query series_query top_query
build_log_filter-IsBound format f name limit =
    let built = append_all (conditions format f) ([], []) in
    let w = where_text built.0 in
    let bound : marks w ≡ length built.1 =
      marks-where_text built.0
      ∙ append_all-IsBalanced (conditions format f) ([], []) (conditions-IsMarked format f) refl in
    record {
      counted = marks_after (codes "SELECT COUNT(*) FROM request_logs") w refl ∙ bound;
      page =
          marks_between log_columns w
            (page_text (at_least_one f.page (pos 1)) (at_least_one f.page_size (pos 20))) refl
            (marks-page_text _ _)
          ∙ bound;
      export =
          marks_between log_columns w (codes " ORDER BY timestamp DESC LIMIT 100000") refl refl
          ∙ bound;
      stats = marks_after stats_head w refl ∙ bound;
      series =
          let head = codes "SELECT strftime(" ++ time_format name in
          marks_between (head ++ series_columns) w (codes " GROUP BY bucket ORDER BY bucket ASC ")
            (marks_before head series_columns refl
              ∙ marks_before (codes "SELECT strftime(") (time_format name) (marks-time_format name))
            refl
          ∙ bound;
      top =
          let head = codes "SELECT " ++ top_column name in
          let ending = codes " GROUP BY name ORDER BY tokens DESC LIMIT " in
          marks_before (head ++ top_columns ++ w ++ ending) (format_int (top_limit limit))
            (marks-format_int (top_limit limit))
          ∙ marks_between (head ++ top_columns) w ending
              (marks_before head top_columns refl
                ∙ marks_before (codes "SELECT ") (top_column name) (marks-top_column name))
              refl
          ∙ bound;
    }
