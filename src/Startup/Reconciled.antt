-- ===== src/Startup/Reconciled.antt =====
-- The start leaves the storage and the router in line with the configuration.
use Prim.Native.String.{String}
use mathlib.Core.Path.{fun_ext, subst}
use text.Mathlib.Text.{◌==◌ as str_eq}
use text.Mathlib.TextEquality.{eq_iff}
use llmproxy.Common.{
  ◌≡◌, ◌⊎◌, refl, sym, ap, ◌∙◌, true, List, [], ◌∷◌, Option, none, some, All, arith, Bool-cases,
  Option-cases, inl, inr, if◌then◌else◌,
}
use llmproxy.Common.Eq.{Dict, lookup, string_instance}
use llmproxy.Domain.{GoError, Result, ok, failed, ModelNode, ApiKey, RateLimitConfig}
use llmproxy.Router.{Router, new_router, sync}
use llmproxy.Router.Refinement.{
  Table, put, put_all, IsVisit, Implements, Run-Implements, begin, next, replace, perform,
}
use llmproxy.Storage.{Storage, Contents, IsKeeping, IsReliable}
use llmproxy.Startup.{
  has_key, provided_nodes, provided_keys, upsert_all, reconcile, init_tables, load_nodes,
  finish_start, start,
}
use llmproxy.Startup.Tables.{
  overwrite, names, names_of_mem, overwrite-Written, upsert_all-entry, reconcile-entry,
  upsert_all-shown, reconcile-shown, upsert_all-failed, and_then_rule,
}
use llmproxy.Startup.Limits.{first_limit, lookup-model_limits_loop}

-- A loop over a map: it meets entries of the map, and every key.
pub record IsOrder {A : Type 0} (visit : List (String × A)) (m : Dict String A) : Type 0 where
  pub present : All (λ (e : String × A). lookup e.0 m ≡ some e.1) visit
  pub complete : (k : String) → names (λ (e : String × A). e.0) k visit ≡ has_key k m

-- The node of the configuration under an identifier.
abbrev pub node_for : Dict String ModelNode → Table
node_for providers k = elim (lookup k providers) [
  | none ↦ none
  | some n ↦ some (record n { id = k })
]

-- The key of the configuration under an identifier; one without a value leaves what was there.
abbrev pub key_for : Dict String ApiKey → (String → Option ApiKey) → String → Option ApiKey
key_for api_keys old k = elim (lookup k api_keys) [
  | none ↦ none
  | some a ↦ if str_eq a.key "" then old k else some (record a { id = k })
]

put_all-overwrite :
    (ns : List ModelNode) (t : Table) (k : String)
    → put_all ns t k ≡ overwrite (λ (n : ModelNode). n.id) ns t k
put_all-overwrite [] t k = refl
put_all-overwrite (n ∷ ns) t k = put_all-overwrite ns (put n t) k

overwrite-nodes :
    (providers : Dict String ModelNode) (visit : List (String × ModelNode)) (t : Table) (k : String)
    → All (λ (e : String × ModelNode). lookup e.0 providers ≡ some e.1) visit
    → overwrite (λ (n : ModelNode). n.id) (provided_nodes visit) t k
      ≡ (if names (λ (e : String × ModelNode). e.0) k visit then node_for providers k else t k)
unfolding provided_nodes
overwrite-nodes providers [] t k h = refl
overwrite-nodes providers ((id, n) ∷ visit) t k h = ground (
  arith,
  eq_iff id k,
  h.0,
  overwrite-nodes providers visit (λ j. if str_eq id j then some (record n { id = id }) else t j) k
      h.1,
)

overwrite-keys :
    (api_keys : Dict String ApiKey) (visit : List (String × ApiKey)) (t : String → Option ApiKey)
    (k : String)
    → All (λ (e : String × ApiKey). lookup e.0 api_keys ≡ some e.1) visit
    → overwrite (λ (a : ApiKey). a.id) (provided_keys visit) t k
      ≡ (if names (λ (e : String × ApiKey). e.0) k visit then key_for api_keys t k else t k)
unfolding provided_keys
overwrite-keys api_keys [] t k h = refl
overwrite-keys api_keys ((id, a) ∷ visit) t k h = elim (Bool-cases (str_eq a.key "")) [
  | inl skipped ↦
      rw (skipped, provided_keys)
        (ground (arith, eq_iff id k, h.0, skipped, overwrite-keys api_keys visit t k h.1))
  | inr held ↦
      rw (held, provided_keys)
        (ground (
          arith,
          eq_iff id k,
          h.0,
          held,
          overwrite-keys api_keys visit
              (λ j. if str_eq id j then some (record a { id = id }) else t j) k h.1,
        ))
]

module _ {S : Type 0} (st : Storage S) (view : Contents S) (keep : IsKeeping st view)
    (works : IsReliable st) (providers : Dict String ModelNode)
    (api_keys : Dict String ApiKey) where
  open view use {node_at, key_at, node_fits, key_fits}

  -- An error of a write to the storage.
  pub Refused : GoError → Type 0
  Refused e =
      ((n : ModelNode) × (t : S) × ((st.upsert_node n t).1 ≡ some e))
      ⊎ ((a : ApiKey) × (t : S) × ((st.upsert_api_key a t).1 ≡ some e))

  -- The tables are those of the configuration, but for keys without a value, which are as before.
  pub record Reconciled (before after : S) : Type 0 where
    pub nodes : (k : String) → node_at after k ≡ node_for providers k
    pub keys : (k : String) → key_at after k ≡ key_for api_keys (key_at before) k

  -- The program has left with the error of a write, or it runs on these tables, with a router that
  -- implements the table of the configuration's nodes, and with the limit of an alias from the first
  -- node in the storage's list that lists it and has a limit.
  pub data Started (before : S) : S × Result (Router × Dict String RateLimitConfig) → Type 0 where
    exited : {after : S} {e : GoError} → Refused e → Started before (after, failed e)
    running :
        {after : S} {r : Router} {limits : Dict String RateLimitConfig} (ns : List ModelNode)
        → Reconciled before after
        → Implements r (node_for providers)
        → st.list_nodes after ≡ ok ns
        → ((alias : String) → lookup alias limits ≡ first_limit alias ns)
        → Started before (after, ok (r, limits))

  Inited : S → S × Option GoError → Type 0
  Inited before (after, none) = Reconciled before after
  Inited before (after, some e) = Refused e

  module _ (node_visit : List (String × ModelNode)) (key_visit : List (String × ApiKey))
      (each_node : IsOrder node_visit providers) (each_key : IsOrder key_visit api_keys)
      (nodes_fit : All node_fits (provided_nodes node_visit))
      (keys_fit : All key_fits (provided_keys key_visit)) where
    abbrev written_nodes : S → S × Option GoError
    written_nodes = upsert_all st.upsert_node (provided_nodes node_visit)

    abbrev tidy_nodes : S → S
    tidy_nodes s =
        reconcile (λ (n : ModelNode). n.id) st.delete_node (λ id. has_key id providers)
          (st.list_nodes s) s

    abbrev written_keys : S → S × Option GoError
    written_keys = upsert_all st.upsert_api_key (provided_keys key_visit)

    abbrev tidy_keys : S → S
    tidy_keys s =
        reconcile (λ (a : ApiKey). a.id) st.delete_api_key (λ id. has_key id api_keys)
          (st.list_api_keys s) s

    tidy_nodes-entry :
        (s : S) (k : String)
        → (written_nodes s).1 ≡ none
        → node_at (tidy_nodes (written_nodes s).0) k ≡ node_for providers k
    tidy_nodes-entry s k done =
        let kept =
          reconcile-entry keep.nodes works.node_deleted works.nodes_read
            (λ id. has_key id providers) (written_nodes s).0 k in
        let put = upsert_all-entry keep.nodes (provided_nodes node_visit) s k nodes_fit done in
        let over = overwrite-nodes providers node_visit (node_at s) k each_node.present in
        let full = each_node.complete k in ground (arith, kept, put, over, full)

    tidy_keys-entry :
        (s : S) (k : String)
        → (written_keys s).1 ≡ none
        → key_at (tidy_keys (written_keys s).0) k ≡ key_for api_keys (key_at s) k
    tidy_keys-entry s k done =
        let kept =
          reconcile-entry keep.keys works.key_deleted works.keys_read (λ id. has_key id api_keys)
            (written_keys s).0 k in
        let put = upsert_all-entry keep.keys (provided_keys key_visit) s k keys_fit done in
        let over = overwrite-keys api_keys key_visit (key_at s) k each_key.present in
        let full = each_key.complete k in ground (arith, kept, put, over, full)

    nodes_keep_keys : (s : S) → key_at (tidy_nodes (written_nodes s).0) ≡ key_at s
    nodes_keep_keys s =
        reconcile-shown key_at (λ (n : ModelNode). n.id) st.delete_node
          (λ id t. fun_ext (keep.delete_node_key id t)) (λ id. has_key id providers)
          (st.list_nodes (written_nodes s).0) (written_nodes s).0
        ∙ upsert_all-shown key_at st.upsert_node (λ n t. fun_ext (keep.upsert_node_key n t))
            (provided_nodes node_visit) s

    keys_keep_nodes : (s : S) → node_at (tidy_keys (written_keys s).0) ≡ node_at s
    keys_keep_nodes s =
        reconcile-shown node_at (λ (a : ApiKey). a.id) st.delete_api_key
          (λ id t. fun_ext (keep.delete_key_node id t)) (λ id. has_key id api_keys)
          (st.list_api_keys (written_keys s).0) (written_keys s).0
        ∙ upsert_all-shown node_at st.upsert_api_key (λ a t. fun_ext (keep.upsert_key_node a t))
            (provided_keys key_visit) s

    init_tables-Inited :
        (s : S) → Inited s (init_tables st providers api_keys node_visit key_visit s)
    unfolding init_tables Inited Refused
    init_tables-Inited s =
        and_then_rule (Inited s) (written_nodes s) _
          (λ e h. inl (upsert_all-failed st.upsert_node (provided_nodes node_visit) s e h))
          (λ done.
            let s2 = tidy_nodes (written_nodes s).0 in
            and_then_rule (Inited s) (written_keys s2) _
              (λ e h. inr (upsert_all-failed st.upsert_api_key (provided_keys key_visit) s2 e h))
              (λ over. record {
                nodes = λ k. ap (λ t. t k) (keys_keep_nodes s2) ∙ tidy_nodes-entry s k done;
                keys = λ k.
                    tidy_keys-entry s2 k over ∙ ap (λ t. key_for api_keys t k) (nodes_keep_keys s);
              }))

    -- The list of the nodes, put one after the other, is the table that it is the list of.
    put_all-entry :
        (s : S) (ns : List ModelNode) (k : String)
        → st.list_nodes s ≡ ok ns
        → put_all ns (λ j. none) k ≡ node_at s k
    put_all-entry s ns k e =
        put_all-overwrite ns (λ j. none) k
        ∙ (elim (overwrite-Written (λ (n : ModelNode). n.id) ns (λ j. none) k) [
          | inr (n, found, m, same) ↦
              found
              ∙ sym (subst (λ j. node_at s j ≡ some n) same ((keep.nodes.listed s ns n e).0 m))
          | inl (missing, out) ↦ elim (Option-cases (node_at s k)) [
            | inl nothing ↦ missing ∙ sym nothing
            | inr (n, there) ↦
                let same = keep.nodes.keyed s k n there in
                let listed : names (λ (n : ModelNode). n.id) n.id ns ≡ true =
                  names_of_mem (λ (n : ModelNode). n.id) n ns
                    ((keep.nodes.listed s ns n e).1
                      (subst (λ j. node_at s j ≡ some n) (sym same) there)) in
                cc (subst (λ j. names (λ (n : ModelNode). n.id) j ns ≡ true) same listed, out)
          ]
        ])

    module _ (visit : List ModelNode) (each_loaded : IsVisit visit (node_for providers)) where
      load_nodes-Started :
          (before after : S)
          → Reconciled before after
          → Started before (finish_start st visit (after, none))
      unfolding finish_start load_nodes perform lookup
      load_nodes-Started before after rec =
          let (ns, e) = works.nodes_read after in
          let table : (λ k. put_all ns (λ j. none) k) ≡ node_for providers =
            fun_ext (λ k. put_all-entry after ns k e ∙ rec.nodes k) in
          let loaded : Implements (sync visit ns new_router) (λ k. put_all ns (λ j. none) k) =
            Run-Implements
              (next (replace ns) visit begin (subst (IsVisit visit) (sym table) each_loaded)) in
          rw (e, load_nodes)
            (running ns rec (subst (Implements (sync visit ns new_router)) table loaded) e
              (λ alias. lookup-model_limits_loop alias ns []))

      -- Over a storage that keeps what fits, where what is provided fits, whose lists can be read and whose removals succeed,
      -- and whatever it held before: the start exits with the error of a write to the storage, or it
      -- ends with the configuration's nodes and keys as the tables of the storage, but for a key whose
      -- value is empty, which is as before; the router implements the table of the configuration's
      -- nodes, whatever order its loop visits them in; and the limit of an alias is that of the first
      -- node in the storage's list that lists it and has a limit.
      pub start-Started :
          (s : S) → Started s (start st providers api_keys node_visit key_visit visit s)
      unfolding start Inited
      start-Started s =
          finish (init_tables st providers api_keys node_visit key_visit s) (init_tables-Inited s)
        where
          finish : (p : S × Option GoError) → Inited s p → Started s (finish_start st visit p)
          finish (after, none) rec = load_nodes-Started s after rec
          finish (after, some e) refused = exited refused
