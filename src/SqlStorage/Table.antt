-- ===== src/SqlStorage/Table.antt =====
-- A table of the database, as its statements show it, is a table of the storage.
use Prim.Native.String.{String}
use mathlib.Core.List.{not-mem-nil, mem-cons_self, mem-cons_of_mem, eq-or-mem_of_mem-cons}
use mathlib.Core.Logic.Or
use mathlib.Core.Path.{subst}
use text.Mathlib.Text.{◌==◌ as str_eq}
use text.Mathlib.TextEquality.{eq_iff}
use llmproxy.Common.{
  ◌≡◌, ◌↔◌, ◌⊎◌, refl, ap, Bool, true, false, List, [], ◌∷◌, map, Option, none, some, Mem, length,
  Bool-cases, Option-cases, inl, inr, if◌then◌else◌,
}
use llmproxy.Domain.{GoError, Result, ok, Result-cases}
use llmproxy.Storage.{IsTable}
use llmproxy.SqlLogger.{Argument, textual}
use llmproxy.SqlStorage.{plain_all}
use llmproxy.SqlStorage.Entries.{scan_rows, scan_list}
use llmproxy.SqlStorage.Rows.{Row, value_at, select, merged}

abbrev pub has : String → List String → Bool
has k [] = false
has k (j ∷ js) = if str_eq j k then true else has k js

-- The rows under some identifiers, as a query of the columns shows them.
abbrev pub rows_of : List String → (String → Option Row) → List String → List (List Argument)
rows_of columns row [] = []
rows_of columns row (id ∷ ids) = elim (row id) [
  | none ↦ rows_of columns row ids
  | some r ↦ select columns r ∷ rows_of columns row ids
]

-- What the statements on one table of the database do: `written` names the columns of the INSERT, and
-- `shown` those of the SELECT. The primary key is the first column.
pub record IsSqlTable {S : Type 0} (write : List Argument → S → S × Option GoError)
    (erase : String → S → S × Option GoError) (read : S → Result (List (List Argument)))
    (written shown : List String) (row : S → String → Option Row) : Type 0 where
  pub upsert :
      (id : String) (values : List Argument) (s : S) (k : String)
      → length (textual id ∷ values) ≡ length written
      → (write (textual id ∷ values) s).1 ≡ none
      → row (write (textual id ∷ values) s).0 k ≡ (
          if str_eq id k
          then some (merged (row s id) (value_at written (textual id ∷ values)))
          else row s k)
  pub delete :
      (id : String) (s : S) (k : String)
      → (erase id s).1 ≡ none
      → row (erase id s).0 k ≡ (if str_eq id k then none else row s k)
  pub all :
      (s : S) (rows : List (List Argument))
      → read s ≡ ok rows
      → (ids : List String) × (rows ≡ rows_of shown (row s) ids)
        × ((k : String) (r : Row) → row s k ≡ some r → has k ids ≡ true)
  pub named : (s : S) (k : String) (r : Row) → row s k ≡ some r → r "id" ≡ textual k
  pub dated :
      (s : S) (k : String) (r : Row)
      → row s k ≡ some r
      → (t : String) × (r "created_at" ≡ textual t)

-- The entry that a row stands for, if it scans.
abbrev pub of_row :
    {A B : Type 0} → List String → (List Argument → Option B) → (B → A) → Option Row → Option A
of_row shown scan plain none = none
of_row shown scan plain (some r) = elim (scan (select shown r)) [
  | none ↦ none
  | some b ↦ some (plain b)
]

module _ {S A B : Type 0} {write : List Argument → S → S × Option GoError}
    {erase : String → S → S × Option GoError} {read : S → Result (List (List Argument))}
    {written shown : List String} {row : S → String → Option Row}
    (sql : IsSqlTable write erase read written shown row) (A_set : IsSet A) (error : GoError)
    (scan : List Argument → Option B) (plain : B → A) (id_of : A → String)
    (values : A → List Argument) (fits : A → Type 0)
    (wide : (a : A) → length (textual (id_of a) ∷ values a) ≡ length written)
    (back : (a : A) (old : Option Row)
      → fits a
      → ((r : Row) → old ≡ some r → (t : String) × (r "created_at" ≡ textual t))
      → (b : B) × (scan
            (select shown (merged old (value_at written (textual (id_of a) ∷ values a))))
          ≡ some b)
        × (plain b ≡ a))
    (scanned_id : (r : Row) (b : B)
      → scan (select shown r) ≡ some b
      → r "id" ≡ textual (id_of (plain b))) where
  option_set : IsSet (Option A)
  option_set = hlevel A_set

  of_row-cases :
      (o : Option Row) (a : A)
      → of_row shown scan plain o ≡ some a
      → (r : Row) × (b : B) × (o ≡ some r) × (scan (select shown r) ≡ some b) × (plain b ≡ a)
  of_row-cases none a e = cc e
  of_row-cases (some r) a e = elim (Option-cases (scan (select shown r))) [
    | inl miss ↦ cc (rw (miss, of_row) at e)
    | inr (b, hit) ↦ (r, b, refl, hit, cc (rw (hit, of_row) at e))
  ]

  of_row-keyed :
      (s : S) (k : String) (a : A) → of_row shown scan plain (row s k) ≡ some a → id_of a ≡ k
  of_row-keyed s k a e =
      let (r, b, there, hit, same) = of_row-cases (row s k) a e in
      cc (sql.named s k r there, scanned_id r b hit, same)

  upsert-of_row :
      (a : A) (s : S) (k : String)
      → fits a
      → (write (textual (id_of a) ∷ values a) s).1 ≡ none
      → of_row shown scan plain (row (write (textual (id_of a) ∷ values a) s).0 k)
        ≡ (if str_eq (id_of a) k then some a else of_row shown scan plain (row s k))
  upsert-of_row a s k fit done =
      let put = sql.upsert (id_of a) (values a) s k (wide a) done in
      let (b, hit, same) = back a (row s (id_of a)) fit (λ r e. sql.dated s (id_of a) r e) in
      elim (Bool-cases (str_eq (id_of a) k)) [
        | inl here ↦ rw (put, here) (rw (hit, of_row) (ap some same))
        | inr other ↦ rw (put, other) refl
      ]

  delete-of_row :
      (id : String) (s : S) (k : String)
      → (erase id s).1 ≡ none
      → of_row shown scan plain (row (erase id s).0 k)
        ≡ (if str_eq id k then none else of_row shown scan plain (row s k))
  delete-of_row id s k done =
      let gone = sql.delete id s k done in
      elim (Bool-cases (str_eq id k)) [
        | inl here ↦ rw (gone, here) refl
        | inr other ↦ rw (gone, other) refl
      ]

  -- How the scan of the rows begins.
  scan_rows-cases :
      (s : S) (id : String) (ids : List String) (bs : List B)
      → scan_rows error scan (rows_of shown (row s) (id ∷ ids)) ≡ ok bs
      → ((row s id ≡ none) × (scan_rows error scan (rows_of shown (row s) ids) ≡ ok bs))
        ⊎ ((r : Row) × (b : B) × (rest : List B) × (row s id ≡ some r)
            × (scan (select shown r) ≡ some b)
            × (scan_rows error scan (rows_of shown (row s) ids) ≡ ok rest)
            × (bs ≡ b ∷ rest))
  unfolding scan_rows
  scan_rows-cases s id ids bs e = elim (Option-cases (row s id)) [
    | inl gone ↦ inl (gone, rw (gone, rows_of) at e)
    | inr (r, there) ↦
        let e' = rw (there, rows_of) at e in
        elim (Option-cases (scan (select shown r))) [
          | inl miss ↦ cc (rw (miss, scan_rows) at e')
          | inr (b, hit) ↦ elim (Result-cases (scan_rows error scan (rows_of shown (row s) ids))) [
            | inr (d, broken) ↦ cc (rw (hit, scan_rows) at e', broken)
            | inl (rest, read_) ↦
                inr (r, b, rest, there, hit, read_, cc (rw (hit, read_, scan_rows) at e'))
          ]
        ]
  ]

  mem-scan :
      (s : S) (ids : List String) (bs : List B) (a : A)
      → scan_rows error scan (rows_of shown (row s) ids) ≡ ok bs
      → Mem a (map plain bs)
      → of_row shown scan plain (row s (id_of a)) ≡ some a
  unfolding scan_rows
  mem-scan s [] bs a e m =
      let none_read : bs ≡ [] = cc e in
      absurd (not-mem-nil (subst (λ xs. Mem a (map plain xs)) none_read m))
  mem-scan s (id ∷ ids) bs a e m = elim (scan_rows-cases s id ids bs e) [
    | inl (_, rest) ↦ mem-scan s ids bs a rest m
    | inr (r, b, rest, there, hit, more, first) ↦
        Or.elim (option_set _ _)
          (eq-or-mem_of_mem-cons (subst (λ xs. Mem a (map plain xs)) first m))
          (λ same.
            let key : id_of a ≡ id = cc (sql.named s id r there, scanned_id r b hit, same) in
            rw (key, there) (rw (hit, of_row) (cc same)))
          (λ m'. mem-scan s ids rest a more m')
  ]

  scan-mem :
      (s : S) (ids : List String) (bs : List B) (a : A) (k : String)
      → scan_rows error scan (rows_of shown (row s) ids) ≡ ok bs
      → has k ids ≡ true
      → of_row shown scan plain (row s k) ≡ some a
      → Mem a (map plain bs)
  scan-mem s [] bs a k e h there = cc h
  scan-mem s (id ∷ ids) bs a k e h found = elim (Bool-cases (str_eq id k)) [
    | inr other ↦
        let later : has k ids ≡ true = rw other at h in
        (elim (scan_rows-cases s id ids bs e) [
          | inl (_, rest) ↦ scan-mem s ids bs a k rest later found
          | inr (r, b, rest, _, _, more, first) ↦
              rw first (mem-cons_of_mem _ (scan-mem s ids rest a k more later found))
        ])
    | inl here ↦
        let same = (eq_iff id k).0 here in
        (elim (scan_rows-cases s id ids bs e) [
          | inl (gone, _) ↦ cc (rw gone at (rw (← same) at found))
          | inr (r, b, rest, there, hit, _, first) ↦
              let is_b : plain b ≡ a =
                cc (rw (hit, of_row) at (rw there at (rw (← same) at found))) in
              rw first (rw is_b mem-cons_self)
        ])
  ]

  listed_of_row :
      (s : S) (xs : List A) (a : A)
      → plain_all plain (scan_list error scan (read s)) ≡ ok xs
      → Mem a xs ↔ (of_row shown scan plain (row s (id_of a)) ≡ some a)
  listed_of_row s xs a e = elim (Result-cases (read s)) [
    | inr (d, broken) ↦ cc (rw broken at e)
    | inl (rows, read_) ↦
        let (ids, shown_rows, complete) = sql.all s rows read_ in
        let e' : plain_all plain (scan_rows error scan (rows_of shown (row s) ids)) ≡ ok xs =
          rw shown_rows at (rw read_ at e) in
        elim (Result-cases (scan_rows error scan (rows_of shown (row s) ids))) [
          | inr (d, broken) ↦ cc (rw broken at e')
          | inl (bs, scanned) ↦
              let all : map plain bs ≡ xs = cc (rw scanned at e') in
              (
                λ m. mem-scan s ids bs a scanned (rw all m),
                λ there.
                    let (r, _, here, _, _) = of_row-cases (row s (id_of a)) a there in
                    rw (← all)
                      (scan-mem s ids bs a (id_of a) scanned (complete (id_of a) r here) there),
              )
        ]
  ]

  pub of_row-IsTable :
      IsTable id_of
        (λ a. write (textual (id_of a) ∷ values a))
        (λ s. plain_all plain (scan_list error scan (read s)))
        erase
        (λ s k. of_row shown scan plain (row s k))
        fits
  of_row-IsTable = record {
    upserted = upsert-of_row;
    removed = delete-of_row;
    listed = listed_of_row;
    keyed = of_row-keyed;
  }
