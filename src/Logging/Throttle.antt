-- ===== src/Logging/Throttle.antt =====
-- internal/logging/chain_logger.go, LogRateLimitCheck: requests that the limiter holds back are
-- counted, and a line with the count is printed now and then. The calls run in several goroutines
-- over two atomic numbers, so that an operation below is one access to them. Times are in seconds.
-- `printed` is not in the code: it lists the times of the lines, the last one first.
use llmproxy.Common.{
  ℕ, suc, ◌+◌, ◌≤◌, ◌≡◌, refl, arith, Bool-cases, inl, inr, List, [], ◌∷◌, ◌++◌, Option, none, some,
  All, ltb, ◌==◌, if◌then◌else◌,
}

pub record Throttle : Type 0 where
  pub blocked : ℕ
  pub last : ℕ
  pub printed : List ℕ

abbrev pub new_throttle : Throttle
new_throttle = record { blocked = 0; last = 0; printed = [] }

-- `rlBlockedCount.Add(1)`
unfoldable pub add_blocked : Throttle → Throttle
add_blocked t = record t { blocked = suc t.blocked }

-- A call that has loaded `last` and goes on, with what it counted and its reading of the clock.
pub record Attempt : Type 0 where
  pub count : ℕ
  pub now : ℕ
  pub last : ℕ

unfoldable pub load_last : ℕ → ℕ → Throttle → Option Attempt
load_last count now t =
    if ltb now (t.last + 5) then none else some (record { count = count; now = now; last = t.last })

-- `CompareAndSwap`, after which the line is printed; `none`: the call returns.
unfoldable pub swap_last : Attempt → Throttle → Option Throttle
swap_last a t =
    if t.last == a.last then some (record t { last = a.now; printed = a.now ∷ t.printed }) else none

-- `rlBlockedCount.Store(0)`
unfoldable pub reset_blocked : Throttle → Throttle
reset_blocked t = record t { blocked = 0 }

-- The throttle and the calls under way: those that have counted, those that go on to the swap, and how
-- many have printed.
pub record Calls : Type 0 where
  pub throttle : Throttle
  pub counted : List ℕ
  pub attempts : List Attempt
  pub printing : ℕ

abbrev pub with_attempt : Option Attempt → List Attempt → List Attempt
with_attempt none as_ = as_
with_attempt (some a) as_ = a ∷ as_

abbrev pub swapped : Option Throttle → List Attempt → Calls → Calls
swapped none rest c = record c { attempts = rest }
swapped (some t) rest c = record c { throttle = t; attempts = rest; printing = suc c.printing }

pub data Step : Calls → Calls → Type 0 where
  counts :
      {c : Calls}
      → Step c (record c {
        throttle = add_blocked c.throttle;
        counted = suc c.throttle.blocked ∷ c.counted;
      })
  loads :
      {c : Calls} (count now : ℕ) (before after : List ℕ)
      → c.counted ≡ before ++ count ∷ after
      → Step c (record c {
        counted = before ++ after;
        attempts = with_attempt (load_last count now c.throttle) c.attempts;
      })
  swaps :
      {c : Calls} (a : Attempt) (before after : List Attempt)
      → c.attempts ≡ before ++ a ∷ after
      → Step c (swapped (swap_last a c.throttle) (before ++ after) c)
  resets :
      {c : Calls} (n : ℕ)
      → c.printing ≡ suc n
      → Step c (record c { throttle = reset_blocked c.throttle; printing = n })

pub data Reach : Calls → Type 0 where
  start : Reach (record { throttle = new_throttle; counted = []; attempts = []; printing = 0 })
  next : {c d : Calls} → Reach c → Step c d → Reach d

-- Each time is at least 5 s after the one before it, the first at least 5 s after the zero time.
pub IsSpaced : List ℕ → Type 0
IsSpaced [] = Unit
IsSpaced (t ∷ []) = 5 ≤ t
IsSpaced (t ∷ u ∷ ts) = (u + 5 ≤ t) × IsSpaced (u ∷ ts)

abbrev newest : List ℕ → ℕ
newest [] = 0
newest (t ∷ ts) = t

record IsThrottled (c : Calls) : Type 0 where
  last_printed : c.throttle.last ≡ newest c.throttle.printed
  spaced : IsSpaced c.throttle.printed
  waited : All (λ a. a.last + 5 ≤ a.now) c.attempts

All-without :
    {A : Type 0} (P : A → Type 0) (a : A) (before after : List A)
    → All P (before ++ a ∷ after)
    → P a × All P (before ++ after)
All-without P a [] after h = (h.0, h.1)
All-without P a (b ∷ before) after h =
    let rest = All-without P a before after h.1 in (rest.0, (h.0, rest.1))

IsSpaced-cons : (t : ℕ) (ts : List ℕ) → newest ts + 5 ≤ t → IsSpaced ts → IsSpaced (t ∷ ts)
unfolding IsSpaced
IsSpaced-cons t [] h s = h
IsSpaced-cons t (u ∷ ts) h s = (h, s)

load_last-waited :
    (count now : ℕ) (t : Throttle) (as_ : List Attempt)
    → All (λ a. a.last + 5 ≤ a.now) as_
    → All (λ a. a.last + 5 ≤ a.now) (with_attempt (load_last count now t) as_)
unfolding load_last
load_last-waited count now t as_ h = elim (Bool-cases (ltb now (t.last + 5))) [
  | inl early ↦ rw (early, load_last) h
  | inr late ↦ rw (late, load_last) (ground (arith, late), h)
]

swap_last-IsThrottled :
    (c : Calls) (a : Attempt) (rest : List Attempt)
    → IsThrottled c
    → a.last + 5 ≤ a.now
    → All (λ b. b.last + 5 ≤ b.now) rest
    → IsThrottled (swapped (swap_last a c.throttle) rest c)
unfolding swap_last
swap_last-IsThrottled c a rest i h w = elim (Bool-cases (c.throttle.last == a.last)) [
  | inl same ↦
      let gap : newest c.throttle.printed + 5 ≤ a.now = ground (arith, same, i.last_printed, h) in
      rw (same, swap_last)
        (record {
          last_printed = refl;
          spaced = IsSpaced-cons a.now c.throttle.printed gap i.spaced;
          waited = w;
        })
  | inr other ↦
      rw (other, swap_last)
        (record { last_printed = i.last_printed; spaced = i.spaced; waited = w })
]

Step-IsThrottled : {c d : Calls} → Step c d → IsThrottled c → IsThrottled d
unfolding add_blocked reset_blocked
Step-IsThrottled counts i = record {
  last_printed = i.last_printed;
  spaced = i.spaced;
  waited = i.waited;
}
Step-IsThrottled (loads {c = c} count now before after e) i = record {
  last_printed = i.last_printed;
  spaced = i.spaced;
  waited = load_last-waited count now c.throttle c.attempts i.waited;
}
Step-IsThrottled (swaps {c = c} a before after e) i =
    let parts = All-without (λ b. b.last + 5 ≤ b.now) a before after (rw e at i.waited) in
    swap_last-IsThrottled c a (before ++ after) i parts.0 parts.1
Step-IsThrottled (resets n e) i = record {
  last_printed = i.last_printed;
  spaced = i.spaced;
  waited = i.waited;
}

Reach-IsThrottled : {c : Calls} → Reach c → IsThrottled c
unfolding IsSpaced
Reach-IsThrottled start = record { last_printed = refl; spaced = tt; waited = tt }
Reach-IsThrottled (next r s) = Step-IsThrottled s (Reach-IsThrottled r)

-- However the calls interleave, and whatever their clocks say, any two lines that follow each other
-- are at least 5 s apart.
pub Reach-IsSpaced : {c : Calls} → Reach c → IsSpaced c.throttle.printed
Reach-IsSpaced r = (Reach-IsThrottled r).spaced
