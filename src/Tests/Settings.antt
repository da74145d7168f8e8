-- ===== src/Tests/Settings.antt =====
-- Runs of the loader of the configuration.
use Prim.Native.String.{◌++◌ as ◌<>◌}
use text.Mathlib.Text.{◌==◌ as str_eq}
use llmproxy.Common.{◌≡◌, refl, true, [], ◌∷◌, if◌then◌else◌}
use llmproxy.Common.Int.{pos, negsuc}
use llmproxy.Common.Decimal.{atoi, parse_int?, parse_nat}
use llmproxy.Common.Eq.{insert, string_instance}
use llmproxy.Json.{end}
use llmproxy.Domain.{ModelNode, ok}
use llmproxy.Config.{
  Environment, Files, defaults, apply_env, apply_server, apply_limits, parts_or, int_or, env_int,
  split_commas,
}

abbrev environment : Environment
environment name =
    if str_eq name "PROXYLLM_SERVER_CORS_ORIGINS"
    then "a,b"
    else if str_eq name "PROXYLLM_RL_RPM"
    then "-5"
    else if str_eq name "PROXYLLM_RL_TPM"
    then "many"
    else ""

-- A number that is not one leaves the default.
numbers_run :
    (apply_env environment defaults).rate_limit
    ≡ record { tpm = pos 0; rpm = negsuc 4; max_retries = pos 2 }
unfolding apply_env apply_limits int_or env_int defaults atoi parse_int? parse_nat
numbers_run = refl

origins_run : (apply_env environment defaults).server.cors_origins ≡ "a" ∷ "b" ∷ []
unfolding apply_env apply_server parts_or split_commas
origins_run = refl

abbrev provider : ModelNode
provider = record {
  id = "";
  name = "first";
  aliases = "m" ∷ [];
  base_url = "http://a";
  api_key = "";
  model_name = "";
  endpoint_type = "";
  tpm = pos 0;
  rpm = pos 0;
  override = end;
  timeout_sec = pos 0;
  enabled = true;
}

-- One file, with one provider.
abbrev one_file : Files
one_file = record {
  join = λ dir name. dir <> "/" <> name;
  exists = λ path. str_eq path "data/providers.toml";
  decode = λ path cfg. ok (record cfg { providers = insert "a" provider cfg.providers });
}
