-- ===== src/SqlStorage/Schema.antt =====
-- internal/storage/sqlite/storage.go: the tables and columns that the program makes when it opens the
-- database. The call that opens the file is the driver's.
use llmproxy.Common.{List, [], ◌∷◌, ◌++◌, Option, none, some}
use llmproxy.Common.Eq.{Bytes, codes}
use llmproxy.Domain.{GoError, wrap}
use llmproxy.SqlLogger.{Database}

-- The tables and indices of the program.
abbrev pub schema : List Bytes
schema =
    (codes "CREATE TABLE IF NOT EXISTS model_nodes ( id TEXT PRIMARY KEY, name TEXT NOT "
      ++ codes "NULL DEFAULT '', aliases TEXT NOT NULL DEFAULT '[]', base_url TEXT NOT NULL, "
      ++ codes "api_key TEXT NOT NULL DEFAULT '', model_name TEXT NOT NULL DEFAULT '', "
      ++ codes "endpoint_type TEXT NOT NULL DEFAULT 'all', tpm INTEGER NOT NULL DEFAULT 0, rpm "
      ++ codes "INTEGER NOT NULL DEFAULT 0, override TEXT NOT NULL DEFAULT '{}', timeout_sec "
      ++ codes "INTEGER NOT NULL DEFAULT 120, enabled INTEGER NOT NULL DEFAULT 1, created_at "
      ++ codes "TEXT NOT NULL, updated_at TEXT NOT NULL )")
    ∷ (codes "CREATE TABLE IF NOT EXISTS api_keys ( id TEXT PRIMARY KEY, key_value TEXT NOT "
        ++ codes "NULL UNIQUE, name TEXT NOT NULL DEFAULT '', enabled INTEGER NOT NULL DEFAULT 1, "
        ++ codes "rate_limit TEXT, allow_models TEXT NOT NULL DEFAULT '[]', created_at TEXT NOT "
        ++ codes "NULL, expires_at TEXT )")
    ∷ (codes "CREATE TABLE IF NOT EXISTS request_logs ( id TEXT PRIMARY KEY, session_id TEXT "
        ++ codes "NOT NULL DEFAULT '', timestamp TEXT NOT NULL, api_key_id TEXT NOT NULL DEFAULT "
        ++ codes "'', model_alias TEXT NOT NULL DEFAULT '', node_id TEXT NOT NULL DEFAULT '', "
        ++ codes "actual_model TEXT NOT NULL DEFAULT '', prompt_tokens INTEGER NOT NULL DEFAULT "
        ++ codes "0, completion_tokens INTEGER NOT NULL DEFAULT 0, total_tokens INTEGER NOT NULL "
        ++ codes "DEFAULT 0, duration_ms INTEGER NOT NULL DEFAULT 0, status_code INTEGER NOT NULL "
        ++ codes "DEFAULT 0, stream INTEGER NOT NULL DEFAULT 0, error_msg TEXT NOT NULL DEFAULT "
        ++ codes "'', has_detail INTEGER NOT NULL DEFAULT 0 )")
    ∷ (codes "CREATE INDEX IF NOT EXISTS idx_rl_timestamp ON request_logs(timestamp)")
    ∷ (codes "CREATE INDEX IF NOT EXISTS idx_rl_api_key_id ON request_logs(api_key_id)")
    ∷ (codes "CREATE INDEX IF NOT EXISTS idx_rl_model_alias ON request_logs(model_alias)")
    ∷ (codes "CREATE INDEX IF NOT EXISTS idx_rl_session_id ON request_logs(session_id)")
    ∷ (codes "CREATE INDEX IF NOT EXISTS idx_rl_node_id ON request_logs(node_id)")
    ∷ (codes "CREATE TABLE IF NOT EXISTS detail_logs ( trace_id TEXT PRIMARY KEY, session_id "
        ++ codes "TEXT NOT NULL DEFAULT '', timestamp TEXT NOT NULL, request_body TEXT NOT NULL "
        ++ codes "DEFAULT '', response_body TEXT NOT NULL DEFAULT '' )")
    ∷ (codes "CREATE INDEX IF NOT EXISTS idx_dl_session_id ON detail_logs(session_id)")
    ∷ (codes "CREATE INDEX IF NOT EXISTS idx_dl_timestamp ON detail_logs(timestamp)")
    ∷ []

-- The columns that an older schema lacks.
abbrev pub upgrades : List Bytes
upgrades =
    codes "ALTER TABLE model_nodes ADD COLUMN rate_limit TEXT"
    ∷ codes "ALTER TABLE model_nodes ADD COLUMN tpm INTEGER NOT NULL DEFAULT 0"
    ∷ codes "ALTER TABLE model_nodes ADD COLUMN rpm INTEGER NOT NULL DEFAULT 0"
    ∷ codes "ALTER TABLE api_keys ADD COLUMN tpm INTEGER NOT NULL DEFAULT 0"
    ∷ codes "ALTER TABLE api_keys ADD COLUMN rpm INTEGER NOT NULL DEFAULT 0"
    ∷ []

module _ {S : Type 0} (db : Database S) where
  unfoldable pub create_all : List Bytes → S → S × Option GoError
  create_all [] s = (s, none)
  create_all (sql ∷ sqls) s =
      let done = db.exec sql [] s in
      let rest = create_all sqls done.0 in
      elim done.1 [ none ↦ rest | some e ↦ (done.0, some (wrap "migrate: " e)) ]

  -- A column that is there is an error, and is left.
  unfoldable pub upgrade_all : List Bytes → S → S
  upgrade_all [] s = s
  upgrade_all (sql ∷ sqls) s = upgrade_all sqls (db.exec sql [] s).0

  finish_migrate : S × Option GoError → S × Option GoError
  unfolding upgrade_all
  finish_migrate (s, some e) = (s, some e)
  finish_migrate (s, none) = (upgrade_all upgrades s, none)

  unfoldable pub migrate : S → S × Option GoError
  unfolding create_all finish_migrate
  migrate s = finish_migrate (create_all schema s)
