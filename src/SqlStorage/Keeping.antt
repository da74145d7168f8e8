-- ===== src/SqlStorage/Keeping.antt =====
-- The storage in the database keeps its tables, if the statements do what they say.
use Prim.Native.String.{String}
use text.Mathlib.Text.{◌==◌ as str_eq}
use llmproxy.Common.{ℕ, ◌≡◌, List, [], ◌∷◌, Option, none}
use llmproxy.Domain.{ModelNode, ApiKey}
use llmproxy.Storage.{Contents}
use llmproxy.SqlLogger.{Argument, null, Database}
use llmproxy.SqlStorage.{delete_node, delete_api_key}
use llmproxy.SqlStorage.Statements.{upsert_node_sql, upsert_key_sql, list_nodes_sql, list_keys_sql}
use llmproxy.SqlStorage.Entries.{Columns, StoredNode, StoredKey, scan_node, scan_key}
use llmproxy.SqlStorage.Rows.{
  Row, upsert_node_columns, node_columns, upsert_key_columns, key_columns, NodeFits, KeyFits,
}
use llmproxy.SqlStorage.Table.{IsSqlTable, of_row}

abbrev first : List Argument → Argument
first [] = null
first (a ∷ row) = a

-- The statements on the two tables.
pub record IsDatabase {S : Type 0} (db : Database S) (c : Columns)
    (node_row key_row : S → String → Option Row) : Type 0 where
  pub nodes :
      IsSqlTable
        (db.exec upsert_node_sql)
        (delete_node db c)
        (db.query_rows list_nodes_sql [])
        upsert_node_columns
        node_columns
        node_row
  pub keys :
      IsSqlTable
        (db.exec upsert_key_sql)
        (delete_api_key db c)
        (db.query_rows list_keys_sql [])
        upsert_key_columns
        key_columns
        key_row
  pub node_write :
      (args : List Argument) (s : S) (k : String)
      → key_row (db.exec upsert_node_sql args s).0 k ≡ key_row s k
  pub node_erase :
      (id : String) (s : S) (k : String) → key_row (delete_node db c id s).0 k ≡ key_row s k
  pub key_write :
      (args : List Argument) (s : S) (k : String)
      → node_row (db.exec upsert_key_sql args s).0 k ≡ node_row s k
  pub key_erase :
      (id : String) (s : S) (k : String) → node_row (delete_api_key db c id s).0 k ≡ node_row s k

-- The entries are what the rows scan to.
abbrev pub contents_of :
    {S : Type 0} → Columns → (S → String → Option Row) → (S → String → Option Row) → Contents S
contents_of c node_row key_row = record {
  node_at = λ s k. of_row node_columns (scan_node c) (λ (n : StoredNode). n.node) (node_row s k);
  key_at = λ s k. of_row key_columns (scan_key c) (λ (k : StoredKey). k.key) (key_row s k);
  node_fits = NodeFits c;
  key_fits = KeyFits c;
}

module _ {S : Type 0} (db : Database S) (c : Columns) (now : ℕ) where
  abbrev plain_node : ModelNode → StoredNode
  plain_node n = record { node = n; created_at = none; updated_at = none }

  abbrev plain_key : ApiKey → StoredKey
  plain_key k = record { key = k; created_at = none }
