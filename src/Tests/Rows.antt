-- ===== src/Tests/Rows.antt =====
-- A database of two tables, each a map from identifiers to rows, and the storage in it.
use Prim.Native.String.{String}
use text.Mathlib.Text.{◌==◌ as str_eq}
use llmproxy.Common.{false, List, [], ◌∷◌, Option, none, some, if◌then◌else◌}
use llmproxy.Common.Eq.{Bytes, Dict, bytes_eq, lookup, insert, delete, string_instance}
use llmproxy.Json.{end}
use llmproxy.Domain.{GoError, ok, failed}
use llmproxy.SqlLogger.{Argument, textual, Database}
use llmproxy.SqlStorage.Statements.{
  upsert_node_sql, upsert_key_sql, list_nodes_sql, delete_node_sql, delete_key_sql,
}
use llmproxy.SqlStorage.Entries.{Columns}
use llmproxy.SqlStorage.Rows.{
  Row, value_at, merged, upsert_node_columns, node_columns, upsert_key_columns, key_columns,
}
use llmproxy.SqlStorage.Table.{rows_of}
use llmproxy.Tests.Stores.{keys_of}

-- A row with its time of creation.
abbrev Held : Type 0
Held = Dict String (String × Row)

abbrev built : String → String × Row → Row
built k (t, r) col =
    if str_eq col "id" then textual k else if str_eq col "created_at" then textual t else r col

abbrev row_at : Held → String → Option Row
row_at m k = elim (lookup k m) [ none ↦ none | some v ↦ some (built k v) ]

abbrev constraint : GoError
constraint = record {
  deadline_exceeded = false;
  cancelled = false;
  text = "NOT NULL constraint failed";
}

-- The time of creation has to be a text.
abbrev put_row : String → Row → Argument → Held → Held × Option GoError
put_row id new (textual t) m = (insert id (t, new) m, none)
put_row id new _ m = (m, some constraint)

abbrev write_row : List String → List Argument → Held → Held × Option GoError
write_row columns (textual id ∷ values) m =
    let new = merged (row_at m id) (value_at columns (textual id ∷ values)) in
    put_row id new (new "created_at") m
write_row columns _ m = (m, some constraint)

abbrev erase_row : List Argument → Held → Held × Option GoError
erase_row (textual id ∷ []) m = (delete id m, none)
erase_row _ m = (m, some constraint)

abbrev State : Type 0
State = Held × Held

abbrev in_nodes : State → Held × Option GoError → State × Option GoError
in_nodes s r = ((r.0, s.1), r.1)

abbrev in_keys : State → Held × Option GoError → State × Option GoError
in_keys s r = ((s.0, r.0), r.1)

abbrev exec : Bytes → List Argument → State → State × Option GoError
exec sql args s =
    if bytes_eq sql upsert_node_sql
    then in_nodes s (write_row upsert_node_columns args s.0)
    else if bytes_eq sql delete_node_sql
    then in_nodes s (erase_row args s.0)
    else if bytes_eq sql upsert_key_sql
    then in_keys s (write_row upsert_key_columns args s.1)
    else if bytes_eq sql delete_key_sql
    then in_keys s (erase_row args s.1)
    else (s, some constraint)

abbrev two_tables : Database State
two_tables = record {
  exec = exec;
  begin = λ s. (s, none);
  prepare = λ sql s. none;
  commit = λ s. (s, none);
  rollback = λ s. s;
  scan_error = constraint;
  scalar = λ sql args s. failed constraint;
  query_rows = λ sql args s.
      if bytes_eq sql list_nodes_sql
      then ok (rows_of node_columns (row_at s.0) (keys_of s.0))
      else ok (rows_of key_columns (row_at s.1) (keys_of s.1));
  query_row = λ sql args s. ok none;
  stats_row = λ sql args s. failed constraint;
  series_rows = λ sql args s. ok [];
  top_rows = λ sql args s. ok [];
}

abbrev one_text : Columns
one_text = record {
  of_list = λ l. elim l [ [] ↦ "" | s ∷ rest ↦ s ];
  to_list = λ s. s ∷ [];
  of_fields = λ f. "{}";
  to_fields = λ s. end;
  format = λ t. "day";
  parse = λ s. some 7;
}
