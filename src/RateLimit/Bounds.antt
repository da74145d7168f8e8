-- ===== src/RateLimit/Bounds.antt =====
-- A request that the limiter admits is within the limit of each layer.
use Prim.Native.String.{String}
use text.Mathlib.Text.{◌==◌ as str_eq}
use llmproxy.Common.{ℕ, ◌≡◌, ◌⊎◌, sym, false, List, [], ◌∷◌, All, inl, inr, Option-cases}
use llmproxy.Common.Int.{pos, ◌≤ℤ◌}
use llmproxy.Common.Eq.{Bytes, bytes_eq}
use llmproxy.Cache.{Cache, IsCounting}
use llmproxy.RateLimit.{FloatOps, Layer, Checked, pass, stop, rpm_key, window_timestamp, get_count}

module _ {S : Type 0} (c : Cache S) (counting : IsCounting c) where
  open counting use {count}

  pub get_count-count : (k : Bytes) (s : S) → get_count c k s ≡ count k s
  unfolding get_count
  get_count-count k s = elim (Option-cases (c.get k s)) [
    | inl e ↦ rw (e, get_count) (sym (counting.get_miss k s e))
    | inr (v, e) ↦ rw (e, get_count) (sym (counting.get_hit k v s e))
  ]

  -- Every counter lies between 0 and `m`.
  unfoldable pub Bounded : ℕ → S → Type 0
  Bounded m s = (j : Bytes) → (pos 0 ≤ℤ count j s) × (count j s ≤ℤ pos m)

  module _ (F : FloatOps) (now : ℕ) where
    abbrev key_of : Layer → Bytes
    key_of y = rpm_key y.scope y.id (window_timestamp now)

    -- No two layers have one key.
    abbrev Distinct : List Layer → Type 0
    Distinct [] = Unit
    Distinct (y ∷ ys) = All (λ z. bytes_eq (key_of z) (key_of y) ≡ false) ys × Distinct ys

    abbrev pub WithinLimit : S → Layer → Type 0
    WithinLimit s y = (y.limit ≤ℤ pos 0) ⊎ (count (key_of y) s ≤ℤ y.limit)

    Kept : Bytes → S → S × Checked → Type 0
    Kept j s₀ (s, pass ks) = count j s ≡ count j s₀
    Kept j s₀ (s, stop d) = Unit

    Within : List Layer → S × Checked → Type 0
    Within ys (s, pass ks) = All (WithinLimit s) ys
    Within ys (s, stop d) = d.allowed ≡ false
