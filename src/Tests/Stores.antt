-- ===== src/Tests/Stores.antt =====
-- A storage that is two maps, and the start over it.
use Prim.Native.String.{String}
use mathlib.Core.HLevel.{hedberg}
use mathlib.Core.List.{not-mem-nil, mem-cons_self, mem-cons_of_mem, eq-or-mem_of_mem-cons}
use mathlib.Core.Logic.Or
use text.Mathlib.Text.{◌==◌ as str_eq}
use text.Mathlib.TextEquality.{eq_iff}
use llmproxy.Common.{
  ◌≡◌, refl, ap, Bool, true, false, List, [], ◌∷◌, Option, none, some, Mem, Bool-cases,
  Option-cases, inl, inr, if◌then◌else◌,
}
use llmproxy.Common.Eq.{Dict, lookup, insert, delete, lookup-insert, lookup-delete, string_instance}
use llmproxy.Domain.{ok, ModelNode, ApiKey}
use llmproxy.Storage.{Storage, Contents, IsTable, IsKeeping, IsReliable}

pub String-discrete : (s t : String) → Dec (s ≡ t)
String-discrete s t = elim (Bool-cases (str_eq s t)) [
  | inl e ↦ yes ((eq_iff s t).0 e)
  | inr e ↦ no (λ f. cc ((eq_iff s t).1 f, e))
]

pub ModelNode-set : IsSet ModelNode
ModelNode-set = hlevel (hedberg String-discrete)

pub ApiKey-set : IsSet ApiKey
ApiKey-set = hlevel (hedberg String-discrete)

abbrev pub keys_of : {A : Type 0} → Dict String A → List String
keys_of [] = []
keys_of ((k, a) ∷ m) = k ∷ keys_of m

abbrev pub has : String → List String → Bool
has k [] = false
has k (j ∷ js) = if str_eq j k then true else has k js

pub has-keys_of :
    {A : Type 0} (k : String) (m : Dict String A) (a : A)
    → lookup k m ≡ some a
    → has k (keys_of m) ≡ true
unfolding lookup
has-keys_of k [] a e = cc e
has-keys_of k ((j, b) ∷ m) a e = elim (Bool-cases (str_eq j k)) [
  | inl here ↦ rw here refl
  | inr other ↦ rw other (has-keys_of k m a (rw other at e))
]

abbrev pub entry : {A : Type 0} → (String → A → A) → Dict String A → String → Option A
entry stamp m k = elim (lookup k m) [ none ↦ none | some a ↦ some (stamp k a) ]

abbrev pub values : {A : Type 0} → (String → A → A) → Dict String A → List String → List A
values stamp m [] = []
values stamp m (k ∷ ks) = elim (lookup k m) [
  | none ↦ values stamp m ks
  | some a ↦ stamp k a ∷ values stamp m ks
]

module _ {A : Type 0} (A_set : IsSet A) (id_of : A → String) (stamp : String → A → A)
    (stamped : (k : String) (a : A) → id_of (stamp k a) ≡ k)
    (stamp_own : (a : A) → stamp (id_of a) a ≡ a) where
  option_set : IsSet (Option A)
  option_set = hlevel A_set

  entry-keyed : (m : Dict String A) (k : String) (a : A) → entry stamp m k ≡ some a → id_of a ≡ k
  entry-keyed m k a e = elim (Option-cases (lookup k m)) [
    | inl miss ↦ cc (rw (miss, entry) at e)
    | inr (b, hit) ↦ cc (rw (hit, entry) at e, stamped k b)
  ]

  mem-values :
      (m : Dict String A) (ks : List String) (a : A)
      → Mem a (values stamp m ks)
      → entry stamp m (id_of a) ≡ some a
  mem-values m [] a h = absurd (not-mem-nil h)
  mem-values m (k ∷ ks) a h = elim (Option-cases (lookup k m)) [
    | inl miss ↦ mem-values m ks a (rw (miss, values) at h)
    | inr (b, hit) ↦
        Or.elim (option_set _ _) (eq-or-mem_of_mem-cons (rw (hit, values) at h))
          (λ same.
            let key : id_of a ≡ k = cc (stamped k b, same) in rw key (rw (hit, entry) (cc same)))
          (λ later. mem-values m ks a later)
  ]

  values-mem :
      (m : Dict String A) (ks : List String) (k : String) (a : A)
      → has k ks ≡ true
      → entry stamp m k ≡ some a
      → Mem a (values stamp m ks)
  values-mem m [] k a h e = cc h
  values-mem m (j ∷ ks) k a h e = elim (Bool-cases (str_eq j k)) [
    | inl here ↦
        let same = (eq_iff j k).0 here in
        (elim (Option-cases (lookup j m)) [
          | inl miss ↦ cc (rw (miss, entry) at (rw (← same) at e))
          | inr (b, hit) ↦
              let is_b : stamp j b ≡ a = cc (rw (hit, entry) at (rw (← same) at e)) in
              rw (hit, values) (rw is_b mem-cons_self)
        ])
    | inr other ↦
        let later = values-mem m ks k a (rw other at h) e in
        (elim (Option-cases (lookup j m)) [
          | inl miss ↦ rw (miss, values) later
          | inr (b, hit) ↦ rw (hit, values) (mem-cons_of_mem _ later)
        ])
  ]

  pub map-IsTable :
      IsTable id_of
        (λ a m. (insert (id_of a) a m, none))
        (λ m. ok (values stamp m (keys_of m)))
        (λ id m. (delete id m, none))
        (entry stamp)
        (λ a. Unit {0})
  map-IsTable = record {
    upserted = λ a m k fit e.
        let read = lookup-insert (id_of a) k a m in
        elim (Bool-cases (str_eq (id_of a) k)) [
          | inl here ↦
              let same = (eq_iff (id_of a) k).0 here in
              rw (entry, read, here) (ap some (rw same at (stamp_own a)))
          | inr other ↦ rw (entry, read, other) refl
        ];
    removed = λ id m k e.
        let read = lookup-delete id k m in
        elim (Bool-cases (str_eq id k)) [
          | inl here ↦ rw (entry, read, here) refl
          | inr other ↦ rw (entry, read, other) refl
        ];
    listed = λ m xs a e.
        let all : values stamp m (keys_of m) ≡ xs = cc e in
        (
          λ h. mem-values m (keys_of m) a (rw all h),
          λ there. elim (Option-cases (lookup (id_of a) m)) [
            | inl miss ↦ cc (rw (miss, entry) at there)
            | inr (b, hit) ↦
                rw (← all)
                  (values-mem m (keys_of m) (id_of a) a (has-keys_of (id_of a) m b hit) there)
          ],
        );
    keyed = entry-keyed;
  }

abbrev pub stamp_node : String → ModelNode → ModelNode
stamp_node k n = record n { id = k }

abbrev pub stamp_key : String → ApiKey → ApiKey
stamp_key k a = record a { id = k }

abbrev pub Maps : Type 0
Maps = Dict String ModelNode × Dict String ApiKey

-- The two maps never fail.
abbrev pub maps : Storage Maps
maps = record {
  upsert_node = λ n s. ((insert n.id n s.0, s.1), none);
  list_nodes = λ s. ok (values stamp_node s.0 (keys_of s.0));
  delete_node = λ id s. ((delete id s.0, s.1), none);
  upsert_api_key = λ a s. ((s.0, insert a.id a s.1), none);
  get_api_key = λ id s. ok (entry stamp_key s.1 id);
  list_api_keys = λ s. ok (values stamp_key s.1 (keys_of s.1));
  delete_api_key = λ id s. ((s.0, delete id s.1), none);
}

abbrev pub maps_view : Contents Maps
maps_view = record {
  node_at = λ s. entry stamp_node s.0;
  key_at = λ s. entry stamp_key s.1;
  node_fits = λ n. Unit;
  key_fits = λ a. Unit;
}

pub maps-IsKeeping : IsKeeping maps maps_view
maps-IsKeeping =
    let nodes =
      map-IsTable ModelNode-set (λ (n : ModelNode). n.id) stamp_node (λ k n. refl) (λ n. refl) in
    let keys = map-IsTable ApiKey-set (λ (a : ApiKey). a.id) stamp_key (λ k a. refl) (λ a. refl) in
    record {
      nodes = record {
        upserted = λ n s k fit e. nodes.upserted n s.0 k tt refl;
        removed = λ id s k e. nodes.removed id s.0 k refl;
        listed = λ s xs n e. nodes.listed s.0 xs n e;
        keyed = λ s k n e. nodes.keyed s.0 k n e;
      };
      keys = record {
        upserted = λ a s k fit e. keys.upserted a s.1 k tt refl;
        removed = λ id s k e. keys.removed id s.1 k refl;
        listed = λ s xs a e. keys.listed s.1 xs a e;
        keyed = λ s k a e. keys.keyed s.1 k a e;
      };
      upsert_node_key = λ n s k. refl;
      delete_node_key = λ id s k. refl;
      upsert_key_node = λ a s k. refl;
      delete_key_node = λ id s k. refl;
    }

pub maps-IsReliable : IsReliable maps
maps-IsReliable = record {
  nodes_read = λ s. (_, refl);
  keys_read = λ s. (_, refl);
  node_deleted = λ id s. refl;
  key_deleted = λ id s. refl;
}
