-- ===== src/RateLimit.antt =====
-- internal/ratelimit/limiter.go: the three-layer limiter, as a client of a counter store.
-- Every method passes the state of the store on; `now` is the reading of the clock in nanoseconds.
-- Go's float64 is a parameter, `FloatOps`.
pub mod Undo
pub mod Ieee
pub mod Bounds
pub mod Charging
use Prim.Native.String.{String}
use text.Mathlib.Text.{◌==◌ as str_eq}
use llmproxy.Common.{
  ℕ, ◌+◌, ◌/◌, ◌%◌, ◌*◌, Bool, true, false, ◌&&◌, ◌||◌, List, [], ◌∷◌, ◌++◌, Option, none, some,
  if◌then◌else◌,
}
use llmproxy.Common.Int.{ℤ, pos, negsuc, ◌+ℤ◌, ◌-ℤ◌, ltb_ℤ, leb_ℤ}
use llmproxy.Common.Eq.{Bytes, codes, Dict, lookup, bytes_eq, string_instance}
use llmproxy.Common.Decimal.{format_int, parse_int}
use llmproxy.Domain.{RateLimitConfig, RateLimitStatus}
use llmproxy.Cache.{Cache}

-- The operations on float64 that the limiter uses; `trunc` is `int(x)`.
pub record FloatOps : Type 1 where
  pub Float : Type 0
  pub of_int : ℤ → Float
  pub add : Float → Float → Float
  pub sub : Float → Float → Float
  pub mul : Float → Float → Float
  pub div : Float → Float → Float
  pub gtb : Float → Float → Bool
  pub geb : Float → Float → Bool
  pub trunc : Float → ℤ

-- `key_limits` answers `none` also where the function is nil. `logged` holds the keys of
-- `loggedLimits`.
pub record Limiter : Type 0 where
  pub global : RateLimitConfig
  pub model_limits : Dict String RateLimitConfig
  pub key_limits : String → Option RateLimitConfig
  pub logged : List Bytes

unfoldable pub update_model_limits : Limiter → Dict String RateLimitConfig → Limiter
update_model_limits l limits = record l { model_limits = limits }

abbrev pub rpm_of : Option RateLimitConfig → ℤ
rpm_of none = pos 0
rpm_of (some cfg) = cfg.rpm

abbrev pub tpm_of : Option RateLimitConfig → ℤ
tpm_of none = pos 0
tpm_of (some cfg) = cfg.tpm

unfoldable pub model_rpm : Limiter → String → ℤ
model_rpm l alias = rpm_of (lookup alias l.model_limits)

unfoldable pub model_tpm : Limiter → String → ℤ
model_tpm l alias = tpm_of (lookup alias l.model_limits)

unfoldable pub key_rpm : Limiter → String → ℤ
key_rpm l key_id = rpm_of (l.key_limits key_id)

unfoldable pub key_tpm : Limiter → String → ℤ
key_tpm l key_id = tpm_of (l.key_limits key_id)

abbrev window_key : Bytes → String → String → ℤ → Bytes
window_key prefix scope id ts =
    if str_eq id ""
    then prefix ++ codes scope ++ codes ":" ++ format_int ts
    else prefix ++ codes scope ++ codes ":" ++ codes id ++ codes ":" ++ format_int ts

unfoldable pub rpm_key : String → String → ℤ → Bytes
rpm_key scope id ts = window_key (codes "rl:rpm:") scope id ts

unfoldable pub tpm_key : String → String → ℤ → Bytes
tpm_key scope id ts = window_key (codes "rl:tpm:") scope id ts

-- `61 * time.Second`
abbrev pub counter_ttl : ℕ
counter_ttl = 61_000_000_000

-- `now.Unix() / 60`
abbrev pub window_timestamp : ℕ → ℤ
window_timestamp now = pos (now / 1_000_000_000 / 60)

-- `now.Second()`
abbrev pub second_of : ℕ → ℕ
second_of now = now / 1_000_000_000 % 60

pub record Layer : Type 0 where
  pub scope : String
  pub id : String
  pub limit : ℤ

abbrev pub no_status : RateLimitStatus
no_status = record {
  rpm_current = pos 0;
  rpm_limit = pos 0;
  tpm_current = pos 0;
  tpm_limit = pos 0;
  block_reason = "";
}

-- `(allowed, status, err)`; `failed` says that `err` is not nil.
pub record Decision : Type 0 where
  pub allowed : Bool
  pub status : RateLimitStatus
  pub failed : Bool

abbrev pub allow : Decision
allow = record { allowed = true; status = no_status; failed = false }

-- The loop over the RPM layers goes on with the keys that it incremented, or returns.
pub data Checked : Type 0 where
  pass : List Bytes → Checked
  stop : Decision → Checked

is_logged : Bytes → List Bytes → Bool
is_logged k [] = false
is_logged k (j ∷ js) = bytes_eq j k || is_logged k js

-- The `LoadOrStore` of `logActiveLimit`.
unfoldable pub log_active_limit : Limiter → String → String → Limiter
unfolding is_logged
log_active_limit l key_id model =
    let key = codes model ++ codes ":" ++ codes key_id in
    record l { logged = if is_logged key l.logged then l.logged else key ∷ l.logged }

abbrev pub rpm_layers : Limiter → String → String → List Layer
rpm_layers l key_id alias =
    record { scope = "global"; id = ""; limit = l.global.rpm }
    ∷ record { scope = "model"; id = alias; limit = model_rpm l alias }
    ∷ record { scope = "key"; id = key_id; limit = key_rpm l key_id }
    ∷ []

abbrev pub tpm_layers : Limiter → String → String → List Layer
tpm_layers l key_id alias =
    record { scope = "global"; id = ""; limit = l.global.tpm }
    ∷ record { scope = "model"; id = alias; limit = model_tpm l alias }
    ∷ record { scope = "key"; id = key_id; limit = key_tpm l key_id }
    ∷ []

unfoldable pub unlimited : Limiter → String → String → Bool
unlimited l key_id alias =
    leb_ℤ l.global.rpm (pos 0)
    && leb_ℤ l.global.tpm (pos 0)
    && leb_ℤ (model_rpm l alias) (pos 0)
    && leb_ℤ (model_tpm l alias) (pos 0)
    && leb_ℤ (key_rpm l key_id) (pos 0)
    && leb_ℤ (key_tpm l key_id) (pos 0)

module _ {S : Type 0} (c : Cache S) where
  unfoldable pub get_count : Bytes → S → ℤ
  get_count key s = elim (c.get key s) [ none ↦ pos 0 | some v ↦ parse_int v ]

  unfoldable pub undo : List Bytes → S → S
  undo [] s = s
  undo (k ∷ ks) s = undo ks (c.incr_by k (negsuc 0) counter_ttl s).0

  record_loop : List Bytes → ℤ → S → S × Bool
  record_loop [] delta s = (s, true)
  record_loop (k ∷ ks) delta s =
      let r = c.incr_by k delta counter_ttl s in
      elim r.1 [ none ↦ (r.0, false) | some _ ↦ record_loop ks delta r.0 ]

  -- `false` is an error.
  unfoldable pub record_tokens : ℕ → String → String → ℤ → S → S × Bool
  unfolding record_loop
  record_tokens now key_id alias actual_tokens s =
      let ts = window_timestamp now in
      if leb_ℤ actual_tokens (pos 0)
      then (s, true)
      else record_loop
          (tpm_key "global" "" ts ∷ tpm_key "model" alias ts ∷ tpm_key "key" key_id ts ∷ [])
          actual_tokens s

  -- `Check`: a write and a read of the probe key; `false` is an error.
  unfoldable pub check : S → S × Bool
  check s =
      let r = c.put (codes "health:probe") (codes "1") 10_000_000_000 s in
      if r.1
      then (r.0, elim (c.get (codes "health:probe") r.0) [ none ↦ false | some _ ↦ true ])
      else (r.0, false)

abbrev pub cache_error : Decision
cache_error = record {
  allowed = false;
  status = record no_status { block_reason = "cache_error" };
  failed = true;
}

module _ (F : FloatOps) where
  unfoldable pub rpm_blocked : F.Float → ℤ → Decision
  rpm_blocked estimated limit = record {
    allowed = false;
    status = record no_status {
      rpm_current = F.trunc estimated;
      rpm_limit = limit;
      block_reason = "limit_exceeded";
    };
    failed = false;
  }

  unfoldable pub tpm_blocked : F.Float → ℤ → Decision
  tpm_blocked estimated limit = record {
    allowed = false;
    status = record no_status {
      tpm_current = F.trunc estimated;
      tpm_limit = limit;
      block_reason = "limit_exceeded";
    };
    failed = false;
  }

  -- `float64(curr) + float64(prev)*(1.0-weight)` with `weight := float64(second) / 60.0`
  unfoldable pub estimate : ℤ → ℤ → ℕ → F.Float
  estimate curr prev second =
      let weight = F.div (F.of_int (pos second)) (F.of_int (pos 60)) in
      F.add (F.of_int curr) (F.mul (F.of_int prev) (F.sub (F.of_int (pos 1)) weight))

  module _ {S : Type 0} (c : Cache S) (now : ℕ) where
    unfoldable pub rpm_loop : List Layer → List Bytes → S → S × Checked
    unfolding rpm_blocked
    rpm_loop [] incremented s = (s, pass incremented)
    rpm_loop (layer ∷ layers) incremented s =
        let curr_key = rpm_key layer.scope layer.id (window_timestamp now) in
        let prev_key = rpm_key layer.scope layer.id (window_timestamp now -ℤ pos 1) in
        let skip = rpm_loop layers incremented s in
        let r = c.incr_by curr_key (pos 1) counter_ttl s in
        let counted = incremented ++ curr_key ∷ [] in
        let rest = rpm_loop layers counted r.0 in
        let checked : S × Checked = elim r.1 [
          | none ↦ (undo c incremented r.0, stop cache_error)
          | some curr ↦
              let estimated = estimate curr (get_count c prev_key s) (second_of now) in
              if F.gtb estimated (F.of_int layer.limit)
              then (undo c counted r.0, stop (rpm_blocked estimated layer.limit))
              else rest
        ] in
        if leb_ℤ layer.limit (pos 0) then skip else checked

    unfoldable pub tpm_loop : List Layer → List Bytes → S → S × Decision
    unfolding tpm_blocked
    tpm_loop [] incremented s = (s, allow)
    tpm_loop (layer ∷ layers) incremented s =
        let curr_key = tpm_key layer.scope layer.id (window_timestamp now) in
        let prev_key = tpm_key layer.scope layer.id (window_timestamp now -ℤ pos 1) in
        let rest = tpm_loop layers incremented s in
        let estimated =
          estimate (get_count c curr_key s) (get_count c prev_key s) (second_of now) in
        let checked =
          if F.geb estimated (F.of_int layer.limit)
          then (undo c incremented s, tpm_blocked estimated layer.limit)
          else rest in
        if leb_ℤ layer.limit (pos 0) then rest else checked

    -- The part of `AllowRequest` after the RPM loop; `l` is the limiter that it leaves.
    unfoldable pub check_tpm : Limiter → List Layer → S × Checked → S × Limiter × Decision
    check_tpm l layers (s, stop d) = (s, l, d)
    check_tpm l layers (s, pass incremented) =
        let t = tpm_loop layers incremented s in (t.0, l, t.1)

    unfoldable pub allow_request : Limiter → String → String → S → S × Limiter × Decision
    allow_request l key_id alias s =
        let checked =
          check_tpm (log_active_limit l key_id alias) (tpm_layers l key_id alias)
            (rpm_loop (rpm_layers l key_id alias) [] s) in
        if unlimited l key_id alias then (s, l, allow) else checked
