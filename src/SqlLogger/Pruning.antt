-- ===== src/SqlLogger/Pruning.antt =====
-- The loops that delete by size end, with a table that is small enough.
use Prim.Native.String.{String}
use llmproxy.Common.{
  ℕ, zero, suc, ◌-◌, ◌<◌, ◌≡◌, ◌==◌, false, [], Option, none, some, inl, inr, arith, Bool-cases,
  Option-cases, if_prove,
}
use llmproxy.Common.Int.{ℤ, pos, ◌≤ℤ◌, ◌<ℤ◌, leb_ℤ}
use llmproxy.Common.Eq.{Bytes}
use llmproxy.Common.Returns.{Returns, returns}
use llmproxy.Domain.{GoError, ok, failed, Result-cases}
use llmproxy.SqlLogger.{Database, size_loop, prune_by_size}

module _ {S : Type 0} (db : Database S) where
  -- What SQLite says of the statements: the size of an empty table is 0, and a deletion that
  -- succeeds takes out as many rows as its limit says, or all there are.
  pub record IsShrinking (size_sql delete_sql : Bytes) (batch : ℕ) : Type 0 where
    pub rows : S → ℕ
    pub empty_size : (s : S) → rows s ≡ 0 → db.scalar size_sql [] s ≡ ok (pos 0)
    pub deleted :
        (s : S)
        → (db.exec delete_sql [] s).1 ≡ none
        → rows (db.exec delete_sql [] s).0 ≡ rows s - batch

  -- How a loop ends: the size is within the limit, or a statement failed.
  pub data Pruned (size_sql delete_sql : Bytes) (max_bytes : ℤ) : S × Option GoError → Type 0 where
    within :
        {s : S} {size : ℤ}
        → db.scalar size_sql [] s ≡ ok size
        → size ≤ℤ max_bytes
        → Pruned size_sql delete_sql max_bytes (s, none)
    size_failed :
        {s : S} {e e' : GoError}
        → db.scalar size_sql [] s ≡ failed e
        → Pruned size_sql delete_sql max_bytes (s, some e')
    delete_failed :
        {s : S} {e e' : GoError}
        → (db.exec delete_sql [] s).1 ≡ some e
        → Pruned size_sql delete_sql max_bytes ((db.exec delete_sql [] s).0, some e')

  module _ (size_sql delete_sql : Bytes) (batch : ℕ) (what : String) (max_bytes : ℤ)
      (law : IsShrinking size_sql delete_sql batch) (positive : 0 < batch)
      (some_limit : pos 0 <ℤ max_bytes) where
    nonempty :
        (s : S) (size : ℤ)
        → db.scalar size_sql [] s ≡ ok size
        → leb_ℤ size max_bytes ≡ false
        → 0 < law.rows s
    nonempty s size f large = elim (Bool-cases (law.rows s == 0)) [
      | inl e ↦
          let same : size ≡ pos 0 = cc (f, law.empty_size s (ground (arith, e))) in
          absurd (ground (arith, same, large, some_limit))
      | inr e ↦ ground (arith, e)
    ]

    size_loop-Pruned :
        (k : ℕ) (s : S)
        → law.rows s < k
        → Returns
            (Pruned size_sql delete_sql max_bytes)
            (size_loop db k size_sql delete_sql what max_bytes s)
    unfolding size_loop
    size_loop-Pruned zero s h = absurd (omega arith)
    size_loop-Pruned (suc k) s h = elim (Result-cases (db.scalar size_sql [] s)) [
      | inr (e, f) ↦ rw (f, size_loop) (returns (size_failed f))
      | inl (size, f) ↦ elim (Bool-cases (leb_ℤ size max_bytes)) [
        | inl small ↦ rw (f, size_loop, small) (returns (within f (ground (arith, small))))
        | inr large ↦ elim (Option-cases (db.exec delete_sql [] s).1) [
          | inr (e, g) ↦ rw (f, size_loop, large, g) (returns (delete_failed g))
          | inl g ↦
              rw (f, size_loop, large, g)
                (size_loop-Pruned k (db.exec delete_sql [] s).0
                  (omega (arith, h, law.deleted s g, nonempty s size f large)))
        ]
      ]
    ]

    -- A positive limit on the size of a table, over a database in which an empty table has size 0
    -- and a deletion takes out a positive number of rows: the loop ends after at most one round for
    -- each row and one more, and then the size is within the limit, or a statement failed and the
    -- result is an error.
    pub prune_by_size-Pruned :
        (s : S)
        → Returns
            (Pruned size_sql delete_sql max_bytes)
            (prune_by_size db (suc (law.rows s)) size_sql delete_sql what max_bytes s)
    unfolding prune_by_size
    prune_by_size-Pruned s =
        if_prove (Returns (Pruned size_sql delete_sql max_bytes)) (leb_ℤ max_bytes (pos 0))
          (λ e. absurd (ground (arith, e, some_limit)))
          (λ _. size_loop-Pruned (suc (law.rows s)) s (omega arith))
