-- ===== src/SqlStorage.antt =====
-- internal/storage/sqlite/storage.go: the nodes and API keys in the database, which is a parameter as
-- in SqlLogger.
pub mod Statements
pub mod Entries
pub mod Schema
pub mod Rows
pub mod Table
pub mod Keeping
use Prim.Native.String.{String}
use text.Mathlib.Text.{◌==◌ as str_eq}
use llmproxy.Common.{ℕ, not, List, [], ◌∷◌, ◌++◌, map, Option, none, some, if◌then◌else◌}
use llmproxy.Common.Int.{ℤ, pos, eqb_ℤ}
use llmproxy.Common.Eq.{Bytes, codes}
use llmproxy.Json.{Fields}
use llmproxy.Domain.{GoError, Result, ok, failed, ModelNode, ApiKey}
use llmproxy.SqlLogger.{Argument, textual, numeric, null, Database, bool_to_int}
use llmproxy.Storage.{Storage}
use llmproxy.SqlStorage.Statements.{
  upsert_node_sql, select_node, get_node_sql, list_nodes_sql, delete_node_sql, upsert_key_sql,
  select_key, get_key_sql, get_key_by_value_sql, list_keys_sql, delete_key_sql,
}
use llmproxy.SqlStorage.Entries.{
  Columns, StoredNode, StoredKey, node_args, key_args, scan_node, scan_key, scan_one, scan_rows,
  scan_list,
}

module _ {S : Type 0} (db : Database S) (c : Columns) where
  unfoldable pub upsert_node : ℕ → StoredNode → S → S × Option GoError
  unfolding node_args
  upsert_node now n = db.exec upsert_node_sql (node_args c now n)

  unfoldable pub get_node : String → S → Result (Option StoredNode)
  unfolding scan_node
  get_node id s =
      scan_one db.scan_error (scan_node c) (db.query_row get_node_sql (textual id ∷ []) s)

  unfoldable pub list_nodes : S → Result (List StoredNode)
  unfolding scan_node scan_rows
  list_nodes s = scan_list db.scan_error (scan_node c) (db.query_rows list_nodes_sql [] s)

  unfoldable pub delete_node : String → S → S × Option GoError
  delete_node id = db.exec delete_node_sql (textual id ∷ [])

  unfoldable pub upsert_api_key : ℕ → StoredKey → S → S × Option GoError
  unfolding key_args
  upsert_api_key now k = db.exec upsert_key_sql (key_args c now k)

  unfoldable pub get_api_key : String → S → Result (Option StoredKey)
  unfolding scan_key
  get_api_key id s =
      scan_one db.scan_error (scan_key c) (db.query_row get_key_sql (textual id ∷ []) s)

  unfoldable pub get_api_key_by_value : String → S → Result (Option StoredKey)
  unfolding scan_key
  get_api_key_by_value value s =
      scan_one db.scan_error (scan_key c) (db.query_row get_key_by_value_sql (textual value ∷ []) s)

  unfoldable pub list_api_keys : S → Result (List StoredKey)
  unfolding scan_key scan_rows
  list_api_keys s = scan_list db.scan_error (scan_key c) (db.query_rows list_keys_sql [] s)

  unfoldable pub delete_api_key : String → S → S × Option GoError
  delete_api_key id = db.exec delete_key_sql (textual id ∷ [])

abbrev pub plain_all : {A B : Type 0} → (A → B) → Result (List A) → Result (List B)
plain_all f (failed e) = failed e
plain_all f (ok as_) = ok (map f as_)

abbrev pub plain_one : {A B : Type 0} → (A → B) → Result (Option A) → Result (Option B)
plain_one f (failed e) = failed e
plain_one f (ok none) = ok none
plain_one f (ok (some a)) = ok (some (f a))

-- The entries without their times, which nothing but the storage reads; the clock is at `now`.
abbrev pub as_storage : {S : Type 0} → Database S → Columns → ℕ → Storage S
as_storage db c now = record {
  upsert_node =
      λ n. upsert_node db c now (record { node = n; created_at = none; updated_at = none });
  list_nodes = λ s. plain_all (λ (n : StoredNode). n.node) (list_nodes db c s);
  delete_node = delete_node db c;
  upsert_api_key = λ k. upsert_api_key db c now (record { key = k; created_at = none });
  get_api_key = λ id s. plain_one (λ (k : StoredKey). k.key) (get_api_key db c id s);
  list_api_keys = λ s. plain_all (λ (k : StoredKey). k.key) (list_api_keys db c s);
  delete_api_key = delete_api_key db c;
}
