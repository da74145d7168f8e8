-- ===== src/RateLimit/Ieee.antt =====
-- What the limiter takes from IEEE 754.
use llmproxy.Common.{ℕ, ◌<◌, ◌≡◌, true, false}
use llmproxy.Common.Int.{ℤ, pos, ◌≤ℤ◌}
use llmproxy.RateLimit.{FloatOps, estimate}

-- The integers that float64 holds exactly.
abbrev pub exact_max : ℕ
exact_max = 9_007_199_254_740_992

-- What IEEE 754 says of the operations, on the values that the limiter hands them.
pub record IsIeee (F : FloatOps) : Type 0 where
  -- One minus the share of the minute lies in [0, 1].
  pub weight_range :
      (sec : ℕ)
      → sec < 60
      → (F.geb
            (F.sub (F.of_int (pos 1)) (F.div (F.of_int (pos sec)) (F.of_int (pos 60))))
            (F.of_int (pos 0))
          ≡ true)
        × (F.geb
              (F.of_int (pos 1))
              (F.sub (F.of_int (pos 1)) (F.div (F.of_int (pos sec)) (F.of_int (pos 60))))
            ≡ true)
  pub mul_nonneg :
      (p : ℤ) (w : F.Float)
      → pos 0 ≤ℤ p
      → F.geb w (F.of_int (pos 0)) ≡ true
      → F.geb (F.of_int (pos 1)) w ≡ true
      → F.geb (F.mul (F.of_int p) w) (F.of_int (pos 0)) ≡ true
  -- Addition of what is not negative does not bring an exact integer below another.
  pub add_grows :
      (a b : ℤ) (y : F.Float)
      → pos 0 ≤ℤ a
      → a ≤ℤ pos exact_max
      → pos 0 ≤ℤ b
      → b ≤ℤ pos exact_max
      → F.geb y (F.of_int (pos 0)) ≡ true
      → F.gtb (F.add (F.of_int a) y) (F.of_int b) ≡ false
      → a ≤ℤ b

-- An estimate that does not pass the limit keeps the count of the window within it.
pub estimate_bounds :
    {F : FloatOps} (ieee : IsIeee F) (a b p : ℤ) (sec : ℕ)
    → sec < 60
    → (pos 0 ≤ℤ a) × (a ≤ℤ pos exact_max)
    → (pos 0 ≤ℤ b) × (b ≤ℤ pos exact_max)
    → pos 0 ≤ℤ p
    → F.gtb (estimate F a p sec) (F.of_int b) ≡ false
    → a ≤ℤ b
unfolding estimate
estimate_bounds ieee a b p sec hs ha hb hp over =
    let (low, high) = ieee.weight_range sec hs in
    ieee.add_grows a b _ ha.0 ha.1 hb.0 hb.1 (ieee.mul_nonneg p _ hp low high) over
