-- ===== src/SqlLogger/Safety.antt =====
-- What comes from outside reaches the database as an argument, never as a part of a statement.
use mathlib.Core.List.{mem-cons_self, mem-cons_of_mem}
use Prim.Native.String.{String}
use text.Mathlib.Text.{◌==◌ as str_eq}
use llmproxy.Common.{
  ℕ, ◌≡◌, refl, ap, ◌∙◌, ◌||◌, List, [], ◌∷◌, ◌++◌, arith, Mem, Bool-cases, inl, inr, if◌then◌else◌,
}
use llmproxy.Common.Int.{ℤ, pos, ◌≤ℤ◌, ltb_ℤ, leb_ℤ}
use llmproxy.Domain.{LogFilter}
use llmproxy.SqlLogger.Queries.{
  Built, Condition, append_all, is_set, has_time, conditions, where_text, build_log_filter,
  top_column, top_limit, time_format, page_query, series_query, top_query,
}

-- The two filters set the same conditions, whatever the values are.
pub record SameShape (f g : LogFilter) : Type 0 where
  pub same_key : is_set f.api_key_id ≡ is_set g.api_key_id
  pub same_model : is_set f.model_alias ≡ is_set g.model_alias
  pub same_node : is_set f.node_id ≡ is_set g.node_id
  pub same_session : is_set f.session_id ≡ is_set g.session_id
  pub same_status : ltb_ℤ (pos 0) f.status_code ≡ ltb_ℤ (pos 0) g.status_code
  pub same_errors : f.error_only ≡ g.error_only
  pub same_keyword : is_set f.keyword ≡ is_set g.keyword
  pub same_start : has_time f.start_time ≡ has_time g.start_time
  pub same_end : has_time f.end_time ≡ has_time g.end_time

SameTexts : List Condition → List Condition → Type 0
SameTexts [] [] = Unit
SameTexts (c ∷ cs) (d ∷ ds) = (c.test ≡ d.test) × (c.cond ≡ d.cond) × SameTexts cs ds
SameTexts _ _ = ⊥

-- One test on both sides.
appended_texts :
    (c d : Condition) (b b' : Built)
    → c.test ≡ d.test
    → c.cond ≡ d.cond
    → b.0 ≡ b'.0
    → (if c.test then (b.0 ++ c.cond ∷ [], b.1 ++ c.args) else b).0
      ≡ (if d.test then (b'.0 ++ d.cond ∷ [], b'.1 ++ d.args) else b').0
appended_texts c d (conds, all) (conds', all') e f g = elim (Bool-cases d.test) [
  | inl t ↦ rw (e ∙ t, t) (rw (f, g) refl)
  | inr t ↦ rw (e ∙ t, t) g
]

append_all-texts :
    (cs ds : List Condition) (b b' : Built)
    → SameTexts cs ds
    → b.0 ≡ b'.0
    → (append_all cs b).0 ≡ (append_all ds b').0
unfolding append_all SameTexts
append_all-texts [] [] b b' s e = e
append_all-texts (c ∷ cs) (d ∷ ds) (conds, all) (conds', all') s e =
    append_all-texts cs ds _ _ s.2 (appended_texts c d (conds, all) (conds', all') s.0 s.1 e)
append_all-texts [] (d ∷ ds) b b' s e = absurd s
append_all-texts (c ∷ cs) [] b b' s e = absurd s

-- What the client of `f` can do to the statements: each is one that a client of `g` gets who names one
-- of two granularities, one of three columns and a limit between 1 and 100, and of the page only the
-- two numbers are in it.
pub record IsSafe (format : ℕ → String) (f g : LogFilter) (granularity name : String) (limit : ℤ)
    : Type 0 where
  pub same_text : (build_log_filter format f).0 ≡ (build_log_filter format g).0
  pub same_page :
      page_query (build_log_filter format f).0 f
      ≡ page_query
          (build_log_filter format g).0
          (record g { page = f.page; page_size = f.page_size })
  pub known_series :
      (known : String) × Mem known ("day" ∷ "hour" ∷ [])
      × (series_query (build_log_filter format f).0 granularity
          ≡ series_query (build_log_filter format g).0 known)
  pub known_top :
      (known : String) × (n : ℤ) × Mem known ("api_key_id" ∷ "node_id" ∷ "model_alias" ∷ [])
      × (pos 1 ≤ℤ n)
      × (n ≤ℤ pos 100)
      × (top_query (build_log_filter format f).0 name limit
          ≡ top_query (build_log_filter format g).0 known n)

time_format_known :
    (granularity : String)
    → (known : String) × Mem known ("day" ∷ "hour" ∷ [])
      × (time_format granularity ≡ time_format known)
unfolding time_format
time_format_known granularity = elim (Bool-cases (str_eq granularity "day")) [
  | inl e ↦ ("day", mem-cons_self, rw e refl)
  | inr e ↦ ("hour", mem-cons_of_mem _ mem-cons_self, rw e refl)
]

top_column_known :
    (name : String)
    → (known : String) × Mem known ("api_key_id" ∷ "node_id" ∷ "model_alias" ∷ [])
      × (top_column name ≡ top_column known)
unfolding top_column
top_column_known name = elim (Bool-cases (str_eq name "api_key_id")) [
  | inl e ↦ ("api_key_id", mem-cons_self, rw e refl)
  | inr e ↦ elim (Bool-cases (str_eq name "node_id")) [
    | inl f ↦ ("node_id", mem-cons_of_mem _ mem-cons_self, rw (e, f) refl)
    | inr f ↦ ("model_alias", mem-cons_of_mem _ (mem-cons_of_mem _ mem-cons_self), rw (e, f) refl)
  ]
]

top_limit_known :
    (limit : ℤ) → (n : ℤ) × (pos 1 ≤ℤ n) × (n ≤ℤ pos 100) × (top_limit limit ≡ top_limit n)
unfolding top_limit
top_limit_known limit = elim (Bool-cases (leb_ℤ limit (pos 0) || ltb_ℤ (pos 100) limit)) [
  | inl e ↦ (pos 10, omega arith, omega arith, rw e refl)
  | inr e ↦ (limit, ground (arith, e), ground (arith, e), refl)
]

build_log_filter-texts :
    (format : ℕ → String) (f g : LogFilter)
    → SameShape f g
    → (build_log_filter format f).0 ≡ (build_log_filter format g).0
unfolding build_log_filter SameTexts
build_log_filter-texts format f g h = ap where_text (
    append_all-texts (conditions format f) (conditions format g) ([], []) ([], [])
      (
        h.same_key,
        refl,
        (
          h.same_model,
          refl,
          (
            h.same_node,
            refl,
            (
              h.same_session,
              refl,
              (
                h.same_status,
                refl,
                (
                  h.same_errors,
                  refl,
                  (h.same_keyword, refl, (h.same_start, refl, (h.same_end, refl, tt))),
                ),
              ),
            ),
          ),
        ),
      )
      refl)

-- No text of the client gets into a statement of the log. For filters that set the same conditions
-- the conditions have one text, whatever the values are, and the query of a page differs in its two
-- numbers only; the series in time is that of one of two granularities, and the top list that of one
-- of three columns and of a limit between 1 and 100, whatever the client names.
pub build_log_filter-IsSafe :
    (format : ℕ → String) (f g : LogFilter) (granularity name : String) (limit : ℤ)
    → SameShape f g
    → IsSafe format f g granularity name limit
unfolding page_query series_query top_query
build_log_filter-IsSafe format f g granularity name limit h =
    let same = build_log_filter-texts format f g h in
    let (known, listed, as_known) = time_format_known granularity in
    let (column, among, as_column) = top_column_known name in
    let (n, low, high, as_n) = top_limit_known limit in
    record {
      same_text = same;
      same_page = rw same refl;
      known_series = (known, listed, rw (same, as_known) refl);
      known_top = (column, n, among, low, high, rw (same, as_column, as_n) refl);
    }
