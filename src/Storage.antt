-- ===== src/Storage.antt =====
-- internal/storage/interfaces.go, `Storage`: where the program keeps its nodes and API keys, as far
-- as its start asks for them. `S` is the state of the backend.
use Prim.Native.String.{String}
use text.Mathlib.Text.{◌==◌ as str_eq}
use llmproxy.Common.{◌≡◌, ◌↔◌, List, Option, none, some, Mem, if◌then◌else◌}
use llmproxy.Domain.{GoError, Result, ok, ModelNode, ApiKey}

-- A method that writes yields an error, if there is one.
pub record Storage (S : Type 0) : Type 0 where
  pub upsert_node : ModelNode → S → S × Option GoError
  pub list_nodes : S → Result (List ModelNode)
  pub delete_node : String → S → S × Option GoError
  pub upsert_api_key : ApiKey → S → S × Option GoError
  pub get_api_key : String → S → Result (Option ApiKey)
  pub list_api_keys : S → Result (List ApiKey)
  pub delete_api_key : String → S → S × Option GoError

-- What a client may rely on for one of the two tables, of entries with an identifier: an upsert
-- without an error puts an entry that fits under its identifier, a removal without an error takes out what is
-- there, and a list that is read has the entries of the table.
pub record IsTable {S A : Type 0} (id_of : A → String) (upsert : A → S → S × Option GoError)
    (list : S → Result (List A)) (remove : String → S → S × Option GoError)
    (entry : S → String → Option A) (fits : A → Type 0) : Type 0 where
  pub upserted :
      (a : A) (s : S) (k : String)
      → fits a
      → (upsert a s).1 ≡ none
      → entry (upsert a s).0 k ≡ (if str_eq (id_of a) k then some a else entry s k)
  pub removed :
      (id : String) (s : S) (k : String)
      → (remove id s).1 ≡ none
      → entry (remove id s).0 k ≡ (if str_eq id k then none else entry s k)
  pub listed :
      (s : S) (xs : List A) (a : A) → list s ≡ ok xs → Mem a xs ↔ (entry s (id_of a) ≡ some a)
  pub keyed : (s : S) (k : String) (a : A) → entry s k ≡ some a → id_of a ≡ k

-- What a state of the storage has in its two tables, and which entries fit into them.
pub record Contents (S : Type 0) : Type 1 where
  pub node_at : S → String → Option ModelNode
  pub key_at : S → String → Option ApiKey
  pub node_fits : ModelNode → Type 0
  pub key_fits : ApiKey → Type 0

-- Both tables are kept, and do not touch each other.
pub record IsKeeping {S : Type 0} (st : Storage S) (view : Contents S) : Type 0 where
  pub nodes :
      IsTable
        (λ (n : ModelNode). n.id)
        st.upsert_node
        st.list_nodes
        st.delete_node
        view.node_at
        view.node_fits
  pub keys :
      IsTable
        (λ (k : ApiKey). k.id)
        st.upsert_api_key
        st.list_api_keys
        st.delete_api_key
        view.key_at
        view.key_fits
  pub upsert_node_key :
      (n : ModelNode) (s : S) (k : String) → view.key_at (st.upsert_node n s).0 k ≡ view.key_at s k
  pub delete_node_key :
      (id : String) (s : S) (k : String) → view.key_at (st.delete_node id s).0 k ≡ view.key_at s k
  pub upsert_key_node :
      (a : ApiKey) (s : S) (k : String)
      → view.node_at (st.upsert_api_key a s).0 k ≡ view.node_at s k
  pub delete_key_node :
      (id : String) (s : S) (k : String)
      → view.node_at (st.delete_api_key id s).0 k ≡ view.node_at s k

-- The lists can be read, and removals succeed.
pub record IsReliable {S : Type 0} (st : Storage S) : Type 0 where
  pub nodes_read : (s : S) → (ns : List ModelNode) × (st.list_nodes s ≡ ok ns)
  pub keys_read : (s : S) → (ks : List ApiKey) × (st.list_api_keys s ≡ ok ks)
  pub node_deleted : (id : String) (s : S) → (st.delete_node id s).1 ≡ none
  pub key_deleted : (id : String) (s : S) → (st.delete_api_key id s).1 ≡ none
