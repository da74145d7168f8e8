-- ===== src/SqlStorage/Rows.antt =====
-- A row of a table by its columns: what an upsert writes is what a query with another order of the
-- columns reads back.
use Prim.Native.String.{String}
use text.Mathlib.Text.{◌==◌ as str_eq}
use llmproxy.Common.{ℕ, ◌≡◌, refl, false, List, [], ◌∷◌, Option, none, some, if◌then◌else◌}
use llmproxy.Domain.{ModelNode, ApiKey}
use llmproxy.SqlLogger.{Argument, textual, null}
use llmproxy.SqlLogger.RoundTrip.{bool_to_int_back}
use llmproxy.SqlStorage.Entries.{
  Columns, StoredNode, StoredKey, or_now, node_args, key_args, expiry, scan_node, scan_key,
  scan_expiry,
}

abbrev pub Row : Type 0
Row = String → Argument

-- The values of an INSERT by the names of its columns.
abbrev pub value_at : List String → List Argument → Row
value_at (c ∷ cs) (a ∷ as_) k = if str_eq c k then a else value_at cs as_ k
value_at _ _ k = null

abbrev pub select : List String → Row → List Argument
select [] r = []
select (c ∷ cs) r = r c ∷ select cs r

-- ON CONFLICT sets every column but `id` and `created_at`.
abbrev pub merged : Option Row → Row → Row
merged none new k = new k
merged (some old) new k = if str_eq k "created_at" then old k else new k

-- The columns as the statements list them.
abbrev pub upsert_node_columns : List String
upsert_node_columns =
    "id" ∷ "name" ∷ "aliases" ∷ "base_url" ∷ "api_key" ∷ "model_name" ∷ "endpoint_type" ∷ "override"
    ∷ "timeout_sec" ∷ "enabled" ∷ "created_at" ∷ "updated_at" ∷ "tpm" ∷ "rpm" ∷ []

abbrev pub node_columns : List String
node_columns =
    "id" ∷ "name" ∷ "aliases" ∷ "base_url" ∷ "api_key" ∷ "model_name" ∷ "endpoint_type" ∷ "tpm"
    ∷ "rpm" ∷ "override" ∷ "timeout_sec" ∷ "enabled" ∷ "created_at" ∷ "updated_at" ∷ []

abbrev pub upsert_key_columns : List String
upsert_key_columns =
    "id" ∷ "key_value" ∷ "name" ∷ "enabled" ∷ "tpm" ∷ "rpm" ∷ "allow_models" ∷ "created_at"
    ∷ "expires_at" ∷ []

abbrev pub key_columns : List String
key_columns =
    "id" ∷ "key_value" ∷ "name" ∷ "enabled" ∷ "tpm" ∷ "rpm" ∷ "allow_models" ∷ "created_at"
    ∷ "expires_at" ∷ []

-- The columns of an entry are read back as they are written: JSON and the format of times have all of
-- what it holds.
abbrev pub NodeFits : Columns → ModelNode → Type 0
NodeFits c n =
    (c.to_list (c.of_list n.aliases) ≡ n.aliases)
    × (c.to_fields (c.of_fields n.override) ≡ n.override)

abbrev pub ExpiryFits : Columns → Option ℕ → Type 0
ExpiryFits c none = Unit
ExpiryFits c (some t) = (c.parse (c.format t) ≡ some t) × (str_eq (c.format t) "" ≡ false)

abbrev pub KeyFits : Columns → ApiKey → Type 0
KeyFits c k = (c.to_list (c.of_list k.allow_models) ≡ k.allow_models) × ExpiryFits c k.expires_at

-- The time of creation in the row that was there, or that of the row that is written.
abbrev pub CreatedIn : Option Row → String → String → Type 0
CreatedIn none now t = t ≡ now
CreatedIn (some old) now t = old "created_at" ≡ textual t

module _ (c : Columns) where
  pub scan-node_args :
      (now : ℕ) (n : StoredNode) (old : Option Row) (t : String)
      → NodeFits c n.node
      → CreatedIn old (c.format (or_now now n.created_at)) t
      → scan_node c
          (select node_columns (merged old (value_at upsert_node_columns (node_args c now n))))
        ≡ some
            (record { node = n.node; created_at = c.parse t; updated_at = c.parse (c.format now) })
  unfolding scan_node node_args
  scan-node_args now n none t fit h = simp (h, fit.0, fit.1, bool_to_int_back n.node.enabled) refl
  scan-node_args now n (some old) t fit h =
      simp (h, fit.0, fit.1, bool_to_int_back n.node.enabled) refl

  scan_expiry-expiry : (t : Option ℕ) → ExpiryFits c t → scan_expiry c (expiry c t) ≡ some t
  unfolding scan_expiry expiry
  scan_expiry-expiry none fit = refl
  scan_expiry-expiry (some t) fit = rw (fit.1, fit.0) refl

  pub scan-key_args :
      (now : ℕ) (k : StoredKey) (old : Option Row) (t : String)
      → KeyFits c k.key
      → CreatedIn old (c.format (or_now now k.created_at)) t
      → scan_key c
          (select key_columns (merged old (value_at upsert_key_columns (key_args c now k))))
        ≡ some (record { key = k.key; created_at = c.parse t })
  unfolding scan_key key_args
  scan-key_args now k none t fit h =
      rw (scan_expiry-expiry k.key.expires_at fit.1, scan_key)
        (simp (h, fit.0, bool_to_int_back k.key.enabled) refl)
  scan-key_args now k (some old) t fit h =
      rw (h, scan_key)
        (rw (scan_expiry-expiry k.key.expires_at fit.1, scan_key)
          (simp (fit.0, bool_to_int_back k.key.enabled) refl))
