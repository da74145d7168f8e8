-- ===== src/Tests/Admins.antt =====
-- Runs of the administrator's API.
use Prim.Native.String.{String}
use text.Mathlib.Text.{◌==◌ as str_eq}
use llmproxy.Common.{◌≡◌, refl, true, false, [], ◌∷◌, none, inr, arith, if◌then◌else◌}
use llmproxy.Common.Int.{pos}
use llmproxy.Common.Eq.{codes}
use llmproxy.Json.{null}
use llmproxy.Domain.{ApiKey, GoError, failed, ok}
use llmproxy.Http.{ResponseWriter}
use llmproxy.AdminApi.{AdminRequest, AdminStore, LogReader, Encoders, mask, keys, parse_log_filter}
use llmproxy.AdminApi.Masking.{
  none_left, one_more, keys-AreAlike, IsInRange, parse_log_filter-IsInRange,
}

abbrev missing : GoError
missing = record { deadline_exceeded = false; cancelled = false; text = "no rows" }

abbrev key_with : String → ApiKey
key_with secret = record {
  id = "k";
  key = secret;
  name = "team";
  enabled = true;
  tpm = pos 0;
  rpm = pos 0;
  allow_models = [];
  expires_at = none;
}

abbrev encoders : Encoders
encoders = record {
  bytes_of = λ v. codes "json";
  of_nodes = λ ns. null;
  of_node = λ n. null;
  of_keys = λ ks. null;
  of_logs = λ ls. null;
  line_of = λ l. [];
  of_detail = λ d. null;
  of_series = λ ps. null;
  of_top = λ ts. null;
}

abbrev store : AdminStore
store = record { list_nodes = ok []; get_node = λ id. ok none; list_api_keys = ok [] }

abbrev reader : LogReader
reader = record {
  read_logs = λ f. failed missing;
  read_all = λ f. failed missing;
  read_detail = λ id. failed missing;
  read_stats = λ f. failed missing;
  read_series = λ f granularity. failed missing;
  read_top = λ f group_by limit. failed missing;
}

-- A query with a page that is no number.
abbrev request : AdminRequest
request = record {
  method = "GET";
  path = codes "/admin/keys";
  query = λ name. if str_eq name "page" then "-3" else "";
}

abbrev client : ResponseWriter
client = record { header = []; sent = none; body = []; broken = false }

mask_run : mask (codes "sk-abcdefgh1234") ≡ codes "sk-***1234"
unfolding mask
mask_run = refl

keys-AreAlike_example :
    keys encoders
      (record store { list_api_keys = ok (key_with "sk-abcdefgh1234" ∷ []) })
      reader
      (λ s. none)
      request
      client
    ≡ keys encoders
        (record store { list_api_keys = ok (key_with "sk-x1234" ∷ []) })
        reader
        (λ s. none)
        request
        client
keys-AreAlike_example =
    keys-AreAlike encoders store reader (λ s. none) request client (key_with "sk-abcdefgh1234" ∷ [])
      (key_with "sk-x1234" ∷ [])
      (one_more (key_with "sk-abcdefgh1234") "sk-x1234" (inr (omega arith, omega arith, refl, refl))
        none_left)

parse_log_filter-IsInRange_example : IsInRange (parse_log_filter (λ s. none) request)
parse_log_filter-IsInRange_example = parse_log_filter-IsInRange (λ s. none) request
