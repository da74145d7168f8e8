-- ===== src/MemoryCache/Expiry.antt =====
-- The time to live of a counter: set when the counter is created, and never again.
use llmproxy.Common.{
  ℕ, ◌+◌, ◌≤◌, ◌<◌, ◌≡◌, ◌∙◌, false, List, [], ◌∷◌, none, some, arith, All, Option-cases,
  Bool-cases, inl, inr,
}
use llmproxy.Common.Int.{ℤ, ◌+ℤ◌}
use llmproxy.Common.Eq.{
  Bytes, bytes_eq, bytes_eq_sound, bytes_eq_refl, lookup, lookup-insert, bytes_instance,
}
use llmproxy.Common.Decimal.{format_int}
use llmproxy.MemoryCache.{MemoryCache, CacheEntry, get, current_of, incr_by, deadline}

-- The key has an entry that expires after the time.
abbrev pub ExpiresAt : Bytes → ℕ → MemoryCache → Type 0
ExpiresAt k t c = (e : CacheEntry) × (lookup k c.entries ≡ some e) × (e.expire_at ≡ some t)

-- A counter that is absent or expired starts anew, with the whole time to live.
pub incr_by-ExpiresAt_new :
    (now : ℕ) (k : Bytes) (d : ℤ) (ttl : ℕ) (c : MemoryCache)
    → 0 < ttl
    → get now k c ≡ none
    → ExpiresAt k (now + ttl) (incr_by now k d ttl c).0
unfolding incr_by get
incr_by-ExpiresAt_new now k d ttl c h e =
    let entry : CacheEntry = record { value = format_int d; expire_at = deadline now ttl } in
    let stored = lookup-insert k k entry c.entries in
    (entry, ground (arith, bytes_eq_refl k, stored), ground arith)

incr_by-other :
    (now : ℕ) (k j : Bytes) (d : ℤ) (ttl : ℕ) (c : MemoryCache)
    → bytes_eq k j ≡ false
    → lookup j (incr_by now k d ttl c).0.entries ≡ lookup j c.entries
unfolding incr_by
incr_by-other now k j d ttl c h =
    let entry : CacheEntry = record { value = format_int d; expire_at = deadline now ttl } in
    let anew = lookup-insert k j entry c.entries in
    elim (Option-cases (lookup k c.entries)) [
      | inl e ↦ ground (arith, anew)
      | inr (v, e) ↦ ground (
        arith,
        anew,
        lookup-insert k j (record v { value = format_int (current_of v.value +ℤ d) }) c.entries,
      )
    ]

-- Any later increment, of this key or of another, leaves the deadline where it is.
pub incr_by-ExpiresAt :
    (now : ℕ) (k j : Bytes) (d : ℤ) (ttl t : ℕ) (c : MemoryCache)
    → now ≤ t
    → ExpiresAt j t c
    → ExpiresAt j t (incr_by now k d ttl c).0
unfolding incr_by
incr_by-ExpiresAt now k j d ttl t c h (e, found, at) = elim (Bool-cases (bytes_eq k j)) [
  | inl same ↦
      let entry : CacheEntry = record e { value = format_int (current_of e.value +ℤ d) } in
      let eq = bytes_eq_sound k j same in
      (entry, ground (arith, found, at, eq, bytes_eq_refl j, lookup-insert j j entry c.entries), at)
  | inr other ↦ (e, incr_by-other now k j d ttl c other ∙ found, at)
]

-- Once the deadline has passed the key reads as absent.
pub get_expired :
    (now : ℕ) (k : Bytes) (t : ℕ) (c : MemoryCache) → ExpiresAt k t c → t < now → get now k c ≡ none
unfolding get
get_expired now k t c (e, found, at) h = ground (arith, found, at)

-- One increment of a run: when, of which key, by how much, with which time to live.
pub record Increment : Type 0 where
  pub at : ℕ
  pub key : Bytes
  pub delta : ℤ
  pub ttl : ℕ

unfoldable pub incr_all : List Increment → MemoryCache → MemoryCache
incr_all [] c = c
incr_all (i ∷ is) c = incr_all is (incr_by i.at i.key i.delta i.ttl c).0

incr_all-ExpiresAt :
    (is : List Increment) (j : Bytes) (t : ℕ) (c : MemoryCache)
    → All (λ i. i.at ≤ t) is
    → ExpiresAt j t c
    → ExpiresAt j t (incr_all is c)
unfolding incr_all
incr_all-ExpiresAt [] j t c h e = e
incr_all-ExpiresAt (i ∷ is) j t c h e =
    incr_all-ExpiresAt is j t _ h.1 (incr_by-ExpiresAt i.at i.key j i.delta i.ttl t c h.0 e)

-- The time to live runs from the creation of a counter: if an increment with a positive time to
-- live finds the key absent or expired, then after any increments up to the deadline the key reads
-- as absent at every later time, however it was used in between.
pub counter_lifetime :
    (created u : ℕ) (k : Bytes) (d : ℤ) (ttl : ℕ) (c : MemoryCache) (is : List Increment)
    → 0 < ttl
    → get created k c ≡ none
    → All (λ i. i.at ≤ created + ttl) is
    → created + ttl < u
    → get u k (incr_all is (incr_by created k d ttl c).0) ≡ none
counter_lifetime created u k d ttl c is pos_ttl absent_key h late =
    get_expired u k (created + ttl) _
      (incr_all-ExpiresAt is k (created + ttl) _ h
        (incr_by-ExpiresAt_new created k d ttl c pos_ttl absent_key))
      late
