-- ===== src/Common/Decimal.antt =====
-- `strconv.FormatInt` and `strconv.ParseInt` in base ten, over bytes.
use llmproxy.Common.{
  ℕ, zero, suc, ◌+◌, ◌-◌, ◌*◌, ◌/◌, ◌%◌, ◌≤◌, ◌<◌, ◌≡◌, refl, ◌∙◌, ◌&&◌, [], ◌∷◌, ◌++◌, ap, inl,
  inr, Bool-cases, Option, none, some, arith, ltb, leb, ◌==◌, if◌then◌else◌, Bool, false, count,
  count-append,
}
use llmproxy.Common.Int.{ℤ, pos, negsuc, leb_ℤ}
use llmproxy.Common.Eq.{Bytes}
use llmproxy.Common.Returns.{◌>>=◌}

format_digits : ℕ → ℕ → Bytes
format_digits zero n = []
format_digits (suc k) n =
    let front = format_digits k (n / 10) in
    if ltb n 10 then (48 + n) ∷ [] else front ++ (48 + n % 10) ∷ []

unfoldable pub format_nat : ℕ → Bytes
unfolding format_digits
format_nat n = format_digits (n + 1) n

unfoldable pub format_int : ℤ → Bytes
unfolding format_nat
format_int (pos n) = format_nat n
format_int (negsuc n) = b'-' ∷ format_nat (suc n)

parse_digits : ℕ → Bytes → Option ℕ
parse_digits acc [] = some acc
parse_digits acc (c ∷ s) =
    if leb 48 c && ltb c 58 then parse_digits (acc * 10 + (c - 48)) s else none

-- An empty text is no number.
unfoldable pub parse_nat : Bytes → Option ℕ
unfolding parse_digits
parse_nat [] = none
parse_nat (c ∷ s) = parse_digits 0 (c ∷ s)

abbrev negate : ℕ → ℤ
negate zero = pos 0
negate (suc n) = negsuc n

-- The number that a text spells, of any size; `none` is a syntax error.
unfoldable pub parse_int? : Bytes → Option ℤ
unfolding parse_nat
parse_int? [] = none
parse_int? (c ∷ s) =
    if c == b'-'
    then (do n ← parse_nat s; some (negate n))
    else if c == b'+'
    then (do n ← parse_nat s; some (pos n))
    else (do n ← parse_nat (c ∷ s); some (pos n))

-- `strconv.Atoi` on a machine with 64-bit integers: out of range is an error too.
abbrev pub in_int64 : ℤ → Bool
in_int64 n = leb_ℤ n (pos 9_223_372_036_854_775_807) && leb_ℤ (negsuc 9_223_372_036_854_775_807) n

unfoldable pub atoi : Bytes → Option ℤ
unfolding parse_int?
atoi s = elim (parse_int? s) [ none ↦ none | some n ↦ if in_int64 n then some n else none ]

-- `n, _ := strconv.ParseInt(s, 10, 64)`: the error is dropped, and the number is then 0.
unfoldable pub parse_int : Bytes → ℤ
unfolding parse_int?
parse_int s = elim (parse_int? s) [ some n ↦ n | none ↦ pos 0 ]

parse_digits-append :
    (acc : ℕ) (s t : Bytes)
    → parse_digits acc (s ++ t) ≡ (parse_digits acc s >>= λ n. parse_digits n t)
unfolding parse_digits
parse_digits-append acc [] t = refl
parse_digits-append acc (c ∷ s) t = ground (arith, parse_digits-append (acc * 10 + (c - 48)) s t)

parse_digits_one : (acc d : ℕ) → d < 10 → parse_digits acc ((48 + d) ∷ []) ≡ some (acc * 10 + d)
unfolding parse_digits
parse_digits_one acc d h = ground arith

parse_digits-format : (k n : ℕ) → n < k → parse_digits 0 (format_digits k n) ≡ some n
unfolding format_digits
parse_digits-format zero n h = absurd (omega arith)
parse_digits-format (suc k) n h = elim (Bool-cases (ltb n 10)) [
  | inl small ↦ rw small (parse_digits_one 0 n (ground arith) ∙ ap some (omega arith))
  | inr large ↦
      rw (large, parse_digits-append, parse_digits-format k (n / 10) (ground arith))
        (parse_digits_one (n / 10) (n % 10) (omega arith) ∙ ap some (omega arith))
]

abbrev StartsWithDigit : Bytes → Type 0
StartsWithDigit s = (c : ℕ) × (rest : Bytes) × (s ≡ c ∷ rest) × (48 ≤ c) × (c < 58)

format_digits-StartsWithDigit : (k n : ℕ) → n < k → StartsWithDigit (format_digits k n)
unfolding format_digits
format_digits-StartsWithDigit zero n h = absurd (omega arith)
format_digits-StartsWithDigit (suc k) n h = elim (Bool-cases (ltb n 10)) [
  | inl small ↦ rw small (48 + n, [], refl, omega arith, ground arith)
  | inr large ↦
      let (c, rest, e, low, high) = format_digits-StartsWithDigit k (n / 10) (ground arith) in
      rw (large, e) (c, rest ++ (48 + n % 10) ∷ [], refl, low, high)
]

pub parse_nat-format_nat : (n : ℕ) → parse_nat (format_nat n) ≡ some n
unfolding parse_nat format_nat
parse_nat-format_nat n =
    let (c, rest, e, low, high) = format_digits-StartsWithDigit (n + 1) n (omega arith) in
    let whole = parse_digits-format (n + 1) n (omega arith) in rw e (rw e at whole)

-- What `FormatInt` writes `ParseInt` reads back, for every integer.
pub parse_int-format_int : (z : ℤ) → parse_int (format_int z) ≡ z
unfolding parse_int format_int
parse_int-format_int (pos n) =
    let (c, rest, e, low, high) = format_digits-StartsWithDigit (n + 1) n (omega arith) in
    let whole = rw e at (parse_nat-format_nat n) in rw e (ground (arith, whole))
parse_int-format_int (negsuc n) = ground (arith, parse_nat-format_nat (suc n))

count-format_digits :
    (p : ℕ → Bool) (k n : ℕ)
    → ((c : ℕ) → 48 ≤ c → c < 58 → p c ≡ false)
    → count p (format_digits k n) ≡ 0
unfolding format_digits
count-format_digits p zero n h = refl
count-format_digits p (suc k) n h = elim (Bool-cases (ltb n 10)) [
  | inl small ↦ rw (small, h (48 + n) (omega arith) (ground arith)) refl
  | inr large ↦
      let last : p (48 + n % 10) ≡ false = h (48 + n % 10) (omega arith) (omega arith) in
      rw
        (
          large,
          count-append p (format_digits k (n / 10)) ((48 + n % 10) ∷ []),
          count-format_digits p k (n / 10) h,
          last,
        )
        refl
]

-- A test that no digit and no minus passes is passed by no byte of a number.
pub count-format_int :
    (p : ℕ → Bool) (n : ℤ)
    → ((c : ℕ) → 48 ≤ c → c < 58 → p c ≡ false)
    → p b'-' ≡ false
    → count p (format_int n) ≡ 0
unfolding format_int format_nat
count-format_int p (pos n) h minus = count-format_digits p (n + 1) n h
count-format_int p (negsuc n) h minus = rw (minus, count-format_digits p (suc n + 1) (suc n) h) refl
