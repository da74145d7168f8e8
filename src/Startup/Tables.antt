-- ===== src/Startup/Tables.antt =====
-- The loops of the start over a table of the storage: what they write, and what they remove.
use Prim.Native.String.{String}
use mathlib.Core.Bool.{Bool-set}
use mathlib.Core.List.{not-mem-nil, mem-cons_self, mem-cons_of_mem, eq-or-mem_of_mem-cons}
use mathlib.Core.Logic.Or
use mathlib.Core.Path.{fun_ext}
use text.Mathlib.Text.{◌==◌ as str_eq}
use text.Mathlib.TextEquality.{eq_iff}
use llmproxy.Common.{
  ◌≡◌, ◌⊎◌, refl, sym, ap, ◌∙◌, Bool, true, false, ◌&&◌, not, List, [], ◌∷◌, Option, none, some,
  Mem, All, arith, Bool-cases, Option-cases, inl, inr, if_prove, if◌then◌else◌,
}
use llmproxy.Domain.{GoError, Result, ok, failed}
use llmproxy.Storage.{IsTable}
use llmproxy.Startup.{and_then, upsert_all, delete_stale, reconcile}

module _ {A : Type 0} (id_of : A → String) where
  -- A table after entries were put into it, one after the other.
  abbrev pub overwrite : List A → (String → Option A) → String → Option A
  overwrite [] t k = t k
  overwrite (a ∷ as_) t k = overwrite as_ (λ j. if str_eq (id_of a) j then some a else t j) k

  -- One of the entries has the identifier.
  abbrev pub names : String → List A → Bool
  names k [] = false
  names k (a ∷ as_) = if str_eq (id_of a) k then true else names k as_

  -- What a key reads as after that: as before, or as one of the entries.
  abbrev pub Written : List A → (String → Option A) → String → Option A → Type 0
  Written as_ t k r =
      ((r ≡ t k) × (names k as_ ≡ false)) ⊎ ((a : A) × (r ≡ some a) × Mem a as_ × (id_of a ≡ k))

  pub overwrite-Written :
      (as_ : List A) (t : String → Option A) (k : String) → Written as_ t k (overwrite as_ t k)
  overwrite-Written [] t k = inl (refl, refl)
  overwrite-Written (a ∷ as_) t k =
      elim (overwrite-Written as_ (λ j. if str_eq (id_of a) j then some a else t j) k) [
        | inr (b, e, m, n) ↦ inr (b, e, mem-cons_of_mem _ m, n)
        | inl (e, out) ↦ elim (Bool-cases (str_eq (id_of a) k)) [
          | inl here ↦ inr (a, rw here at e, mem-cons_self, (eq_iff (id_of a) k).0 here)
          | inr other ↦ inl (rw other at e, rw other out)
        ]
      ]

  pub names_of_mem : (a : A) (as_ : List A) → Mem a as_ → names (id_of a) as_ ≡ true
  names_of_mem a [] h = absurd (not-mem-nil h)
  names_of_mem a (b ∷ as_) h =
      Or.elim (Bool-set _ _) (eq-or-mem_of_mem-cons h)
        (λ same. let e = (eq_iff (id_of b) (id_of a)).1 (ap id_of (sym same)) in rw e refl)
        (λ m.
          let rest = names_of_mem a as_ m in
          if_prove (λ z. z ≡ true) (str_eq (id_of b) (id_of a)) (λ _. refl) (λ _. rest))

module _ {S A : Type 0} {id_of : A → String} {upsert : A → S → S × Option GoError}
    {list : S → Result (List A)} {remove : String → S → S × Option GoError}
    {entry : S → String → Option A} {fits : A → Type 0}
    (table : IsTable id_of upsert list remove entry fits) where
  -- A loop that ends without an error has written its entries, in order.
  pub upsert_all-entry :
      (as_ : List A) (s : S) (k : String)
      → All fits as_
      → (upsert_all upsert as_ s).1 ≡ none
      → entry (upsert_all upsert as_ s).0 k ≡ overwrite id_of as_ (entry s) k
  unfolding upsert_all
  upsert_all-entry [] s k w h = refl
  upsert_all-entry (a ∷ as_) s k w h = elim (Option-cases (upsert a s).1) [
    | inr (e, failure) ↦ cc (rw (failure, upsert_all) at h)
    | inl done ↦
        let put : entry (upsert a s).0 ≡ (λ j. if str_eq (id_of a) j then some a else entry s j) =
          fun_ext (λ j. table.upserted a s j w.0 done) in
        rw (done, upsert_all)
          (upsert_all-entry as_ (upsert a s).0 k w.1 (rw (done, upsert_all) at h)
            ∙ ap (λ t. overwrite id_of as_ t k) put)
  ]

  pub delete_stale-entry :
      ((id : String) (s : S) → (remove id s).1 ≡ none)
      → (wanted : String → Bool) (as_ : List A) (s : S) (k : String)
      → entry (delete_stale id_of remove wanted as_ s) k
        ≡ (if not (wanted k) && names id_of k as_ then none else entry s k)
  unfolding delete_stale
  delete_stale-entry works wanted [] s k = ground arith
  delete_stale-entry works wanted (a ∷ as_) s k = ground (
    arith,
    delete_stale-entry works wanted as_ s k,
    delete_stale-entry works wanted as_ (remove (id_of a) s).0 k,
    table.removed (id_of a) s k (works (id_of a) s),
    eq_iff (id_of a) k,
  )

  -- What is left is what is wanted, if the entries can be read and removals succeed.
  pub reconcile-entry :
      ((id : String) (s : S) → (remove id s).1 ≡ none)
      → ((s : S) → (as_ : List A) × (list s ≡ ok as_))
      → (wanted : String → Bool) (s : S) (k : String)
      → entry (reconcile id_of remove wanted (list s) s) k ≡ (if wanted k then entry s k else none)
  unfolding reconcile
  reconcile-entry works reads wanted s k =
      let (as_, e) = reads s in
      rw e (
        delete_stale-entry works wanted as_ s k ∙ elim (Bool-cases (wanted k)) [
          | inl w ↦ rw w refl
          | inr w ↦ rw w (elim (Option-cases (entry s k)) [
            | inl gone ↦ rw gone (ground arith)
            | inr (a, there) ↦
                let same = table.keyed s k a there in
                let listed : names id_of (id_of a) as_ ≡ true =
                  names_of_mem id_of a as_ ((table.listed s as_ a e).1 (rw same there)) in
                rw (rw same at listed) refl
          ])
        ])

-- An error of the loop is one of a write.
pub upsert_all-failed :
    {S A : Type 0} (upsert : A → S → S × Option GoError) (as_ : List A) (s : S) (e : GoError)
    → (upsert_all upsert as_ s).1 ≡ some e
    → (a : A) × (t : S) × ((upsert a t).1 ≡ some e)
unfolding upsert_all
upsert_all-failed upsert [] s e h = cc h
upsert_all-failed upsert (a ∷ as_) s e h = elim (Option-cases (upsert a s).1) [
  | inl done ↦ upsert_all-failed upsert as_ (upsert a s).0 e (rw (done, upsert_all) at h)
  | inr (d, failure) ↦ (a, s, failure ∙ rw (failure, upsert_all) at h)
]

pub and_then_rule :
    {S : Type 0} (P : S × Option GoError → Type 0) (m : S × Option GoError)
    (f : S → S × Option GoError)
    → ((e : GoError) → m.1 ≡ some e → P (m.0, some e))
    → (m.1 ≡ none → P (f m.0))
    → P (and_then m f)
and_then_rule P (s, none) f on_error on_done = on_done refl
and_then_rule P (s, some e) f on_error on_done = on_error e refl

-- Loops over one table leave what another shows as it was.
module _ {S A B : Type 0} (shown : S → B) where
  pub upsert_all-shown :
      (upsert : A → S → S × Option GoError)
      → ((a : A) (s : S) → shown (upsert a s).0 ≡ shown s)
      → (as_ : List A) (s : S) → shown (upsert_all upsert as_ s).0 ≡ shown s
  unfolding upsert_all
  upsert_all-shown upsert keeps [] s = refl
  upsert_all-shown upsert keeps (a ∷ as_) s =
      let rest = upsert_all-shown upsert keeps as_ (upsert a s).0 ∙ keeps a s in
      elim (Option-cases (upsert a s).1) [
        | inl done ↦ rw (done, upsert_all) rest
        | inr (e, failure) ↦ rw (failure, upsert_all) (keeps a s)
      ]

  pub delete_stale-shown :
      (id_of : A → String) (remove : String → S → S × Option GoError)
      → ((id : String) (s : S) → shown (remove id s).0 ≡ shown s)
      → (wanted : String → Bool) (as_ : List A) (s : S)
      → shown (delete_stale id_of remove wanted as_ s) ≡ shown s
  unfolding delete_stale
  delete_stale-shown id_of remove keeps wanted [] s = refl
  delete_stale-shown id_of remove keeps wanted (a ∷ as_) s =
      delete_stale-shown id_of remove keeps wanted as_
        (if wanted (id_of a) then s else (remove (id_of a) s).0)
      ∙ if_prove (λ z. shown z ≡ shown s) (wanted (id_of a)) (λ _. refl) (λ _. keeps (id_of a) s)

  pub reconcile-shown :
      (id_of : A → String) (remove : String → S → S × Option GoError)
      → ((id : String) (s : S) → shown (remove id s).0 ≡ shown s)
      → (wanted : String → Bool) (read : Result (List A)) (s : S)
      → shown (reconcile id_of remove wanted read s) ≡ shown s
  unfolding reconcile
  reconcile-shown id_of remove keeps wanted (failed e) s = refl
  reconcile-shown id_of remove keeps wanted (ok as_) s =
      delete_stale-shown id_of remove keeps wanted as_ s
