-- ===== src/SqlStorage/Statements.antt =====
-- internal/storage/sqlite/storage.go: the statements on nodes and keys. A run of white space is one
-- blank.
use llmproxy.Common.{◌++◌}
use llmproxy.Common.Eq.{Bytes, codes}

abbrev pub upsert_node_sql : Bytes
upsert_node_sql =
    codes
      "INSERT INTO model_nodes (id,name,aliases,base_url,api_key,model_name,endpoint_type,override,timeout_sec,enabled,created_at,updated_at,tpm,rpm) "
    ++ codes "VALUES (?,?,?,?,?,?,?,?,?,?,?,?,?,?) "
    ++ codes "ON CONFLICT(id) DO UPDATE SET name=excluded.name, aliases=excluded.aliases, "
    ++ codes
        "base_url=excluded.base_url, api_key=excluded.api_key, model_name=excluded.model_name, "
    ++ codes "endpoint_type=excluded.endpoint_type, override=excluded.override, "
    ++ codes "timeout_sec=excluded.timeout_sec, enabled=excluded.enabled, "
    ++ codes "updated_at=excluded.updated_at, tpm=excluded.tpm, rpm=excluded.rpm"

abbrev pub select_node : Bytes
select_node =
    codes
      "SELECT id, name, aliases, base_url, api_key, model_name, endpoint_type, tpm, rpm, override, timeout_sec, enabled, created_at, updated_at FROM model_nodes"

abbrev pub get_node_sql : Bytes
get_node_sql = select_node ++ codes " WHERE id=?"

abbrev pub list_nodes_sql : Bytes
list_nodes_sql = select_node ++ codes " ORDER BY name ASC"

abbrev pub delete_node_sql : Bytes
delete_node_sql = codes "DELETE FROM model_nodes WHERE id=?"

abbrev pub upsert_key_sql : Bytes
upsert_key_sql =
    codes
      "INSERT INTO api_keys (id,key_value,name,enabled,tpm,rpm,allow_models,created_at,expires_at) "
    ++ codes "VALUES (?,?,?,?,?,?,?,?,?) "
    ++ codes "ON CONFLICT(id) DO UPDATE SET key_value=excluded.key_value, name=excluded.name, "
    ++ codes "enabled=excluded.enabled, tpm=excluded.tpm, rpm=excluded.rpm, "
    ++ codes "allow_models=excluded.allow_models, expires_at=excluded.expires_at"

abbrev pub select_key : Bytes
select_key =
    codes
      "SELECT id, key_value, name, enabled, tpm, rpm, allow_models, created_at, expires_at FROM api_keys"

abbrev pub get_key_sql : Bytes
get_key_sql = select_key ++ codes " WHERE id=?"

abbrev pub get_key_by_value_sql : Bytes
get_key_by_value_sql = select_key ++ codes " WHERE key_value=?"

abbrev pub list_keys_sql : Bytes
list_keys_sql = select_key ++ codes " ORDER BY created_at DESC"

abbrev pub delete_key_sql : Bytes
delete_key_sql = codes "DELETE FROM api_keys WHERE id=?"
