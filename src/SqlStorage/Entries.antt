-- ===== src/SqlStorage/Entries.antt =====
-- internal/storage/sqlite/storage.go: how nodes and keys become arguments of statements, and are read
-- back from rows. The encoders of the columns that hold JSON are parameters, and so are the format and
-- the parser of times, whose errors the code drops. The zero time is `none`.
use Prim.Native.String.{String}
use text.Mathlib.Text.{◌==◌ as str_eq}
use llmproxy.Common.{ℕ, not, List, [], ◌∷◌, Option, none, some, if◌then◌else◌}
use llmproxy.Common.Int.{pos, eqb_ℤ}
use llmproxy.Json.{Fields}
use llmproxy.Domain.{GoError, Result, ok, failed, ModelNode, ApiKey}
use llmproxy.SqlLogger.{Argument, textual, numeric, null, bool_to_int}

-- A decoder yields what it leaves in the field: the zero value, if it fails at once.
pub record Columns : Type 0 where
  pub of_list : List String → String
  pub to_list : String → List String
  pub of_fields : Fields → String
  pub to_fields : String → Fields
  pub format : ℕ → String
  pub parse : String → Option ℕ

-- `ModelNode` and `APIKey` with their times.
pub record StoredNode : Type 0 where
  pub node : ModelNode
  pub created_at : Option ℕ
  pub updated_at : Option ℕ

pub record StoredKey : Type 0 where
  pub key : ApiKey
  pub created_at : Option ℕ

-- `if t.IsZero() { t = now }`
unfoldable pub or_now : ℕ → Option ℕ → ℕ
or_now now none = now
or_now now (some t) = t

module _ (c : Columns) where
  unfoldable pub node_args : ℕ → StoredNode → List Argument
  unfolding or_now bool_to_int
  node_args now n =
      textual n.node.id
      ∷ textual n.node.name
      ∷ textual (c.of_list n.node.aliases)
      ∷ textual n.node.base_url
      ∷ textual n.node.api_key
      ∷ textual n.node.model_name
      ∷ textual n.node.endpoint_type
      ∷ textual (c.of_fields n.node.override)
      ∷ numeric n.node.timeout_sec
      ∷ numeric (bool_to_int n.node.enabled)
      ∷ textual (c.format (or_now now n.created_at))
      ∷ textual (c.format now)
      ∷ numeric n.node.tpm
      ∷ numeric n.node.rpm
      ∷ []

  unfoldable pub expiry : Option ℕ → Argument
  expiry none = null
  expiry (some t) = textual (c.format t)

  unfoldable pub key_args : ℕ → StoredKey → List Argument
  unfolding or_now bool_to_int expiry
  key_args now k =
      textual k.key.id
      ∷ textual k.key.key
      ∷ textual k.key.name
      ∷ numeric (bool_to_int k.key.enabled)
      ∷ numeric k.key.tpm
      ∷ numeric k.key.rpm
      ∷ textual (c.of_list k.key.allow_models)
      ∷ textual (c.format (or_now now k.created_at))
      ∷ expiry k.key.expires_at
      ∷ []

  -- `scanNode` of a row that is there.
  unfoldable pub scan_node : List Argument → Option StoredNode
  scan_node
        (textual id
          ∷ textual name
          ∷ textual aliases
          ∷ textual base_url
          ∷ textual api_key
          ∷ textual model_name
          ∷ textual endpoint_type
          ∷ numeric tpm
          ∷ numeric rpm
          ∷ textual override
          ∷ numeric timeout_sec
          ∷ numeric enabled
          ∷ textual created_at
          ∷ textual updated_at
          ∷ []) =
      some (record {
        node = record {
          id = id;
          name = name;
          aliases = c.to_list aliases;
          base_url = base_url;
          api_key = api_key;
          model_name = model_name;
          endpoint_type = endpoint_type;
          tpm = tpm;
          rpm = rpm;
          override = c.to_fields override;
          timeout_sec = timeout_sec;
          enabled = not (eqb_ℤ enabled (pos 0));
        };
        created_at = c.parse created_at;
        updated_at = c.parse updated_at;
      })
  scan_node _ = none

  -- A `sql.NullString`. The pointer is set also if the text is no time: it is the zero time then, the
  -- earliest that there is.
  unfoldable pub scan_expiry : Argument → Option (Option ℕ)
  scan_expiry null = some none
  scan_expiry (textual t) =
      some (if str_eq t "" then none else some (elim (c.parse t) [ none ↦ 0 | some u ↦ u ]))
  scan_expiry _ = none

  -- `scanAPIKey` of a row that is there.
  unfoldable pub scan_key : List Argument → Option StoredKey
  unfolding scan_expiry
  scan_key
        (textual id
          ∷ textual key
          ∷ textual name
          ∷ numeric enabled
          ∷ numeric tpm
          ∷ numeric rpm
          ∷ textual allow_models
          ∷ textual created_at
          ∷ expires_at
          ∷ []) =
      elim (scan_expiry expires_at) [
        | none ↦ none
        | some expires ↦ some (record {
          key = record {
            id = id;
            key = key;
            name = name;
            enabled = not (eqb_ℤ enabled (pos 0));
            tpm = tpm;
            rpm = rpm;
            allow_models = c.to_list allow_models;
            expires_at = expires;
          };
          created_at = c.parse created_at;
        })
      ]
  scan_key _ = none

-- A row that is not there is no error.
abbrev pub scan_one :
    {A : Type 0}
    → GoError
    → (List Argument → Option A)
    → Result (Option (List Argument))
    → Result (Option A)
scan_one error scan (failed e) = failed e
scan_one error scan (ok none) = ok none
scan_one error scan (ok (some row)) = elim (scan row) [ none ↦ failed error | some a ↦ ok (some a) ]

unfoldable pub scan_rows :
    {A : Type 0} → GoError → (List Argument → Option A) → List (List Argument) → Result (List A)
scan_rows error scan [] = ok []
scan_rows error scan (row ∷ rows) =
    let rest = scan_rows error scan rows in
    elim (scan row) [
      | none ↦ failed error
      | some a ↦ elim rest [ ok as_ ↦ ok (a ∷ as_) | failed e ↦ failed e ]
    ]

abbrev pub scan_list :
    {A : Type 0}
    → GoError
    → (List Argument → Option A)
    → Result (List (List Argument))
    → Result (List A)
scan_list error scan (failed e) = failed e
scan_list error scan (ok rows) = scan_rows error scan rows
