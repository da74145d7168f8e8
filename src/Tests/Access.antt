-- ===== src/Tests/Access.antt =====
-- Tokens and keys.
use llmproxy.Common.{◌≡◌, ◌↔◌, refl, true, [], ◌∷◌, Option, none, some, inr, inl, if◌then◌else◌}
use llmproxy.Common.Int.{pos}
use llmproxy.Common.Eq.{Bytes, bytes_eq, codes}
use llmproxy.Domain.{ApiKey, Result, ok}
use llmproxy.Stream.{after_prefix}
use llmproxy.Auth.{
  InTime, expired_key, extract_token, is_expired, judge, authenticate, authenticate_iff,
}

abbrev key : ApiKey
key = record {
  id = "k";
  key = "secret";
  name = "team";
  enabled = true;
  tpm = pos 0;
  rpm = pos 0;
  allow_models = "m" ∷ [];
  expires_at = some 100;
}

abbrev pub keys : Bytes → Result (Option ApiKey)
keys token = ok (if bytes_eq token (codes "secret") then some key else none)

token_run : extract_token (codes "Bearer secret") ≡ some (codes "secret")
unfolding extract_token after_prefix
token_run = refl

-- A key is refused once its time is over.
late_run : authenticate keys 101 (codes "secret") ≡ inl expired_key
unfolding authenticate judge is_expired
late_run = refl

authenticate_iff_example :
    (authenticate keys 50 (codes "secret") ≡ inr key)
    ↔ ((keys (codes "secret") ≡ ok (some key)) × (key.enabled ≡ true) × InTime 50 key.expires_at)
authenticate_iff_example = authenticate_iff keys 50 (codes "secret") key
