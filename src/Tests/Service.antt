-- ===== src/Tests/Service.antt =====
-- The theorem on src/proxy/service.rs at a request of the model "m".
use my_ai_gateway.Prelude.{refl, some, none, ◌==◌, ◌≡◌, if◌then◌else◌, arith}
use my_ai_gateway.Domain.Protocol.{openai_chat_completions}
use my_ai_gateway.Prelude.Text.{strip_prefix}
use my_ai_gateway.Auth.{hash_key, supplied_key}
use my_ai_gateway.Auth.Identity.{matches_static}
use my_ai_gateway.Auth.VirtualKeys.Lapsed.{HasLapsed, expired}
use my_ai_gateway.Proxy.Service.Keys.{Denied, proxy-Denied}
use my_ai_gateway.Proxy.Json.{Json}
use my_ai_gateway.Proxy.Service.{ProxyRequest, AppState, proxy, keys_after}
use my_ai_gateway.Proxy.Service.Checks.{Ends, proxy-Ends}
use my_ai_gateway.Tests.Data.{config, context, env, live}
use my_ai_gateway.Tests.Auth.{sha, db}
use my_ai_gateway.Tests.Settlement.{fresh}
use my_ai_gateway.Tests.Stream.{Value, text, object, nobody, having, reading_back}

abbrev json : Json Value
json = reading_back (object (having "model" (text "m") nobody))

abbrev state : AppState Value
state = record {
  resolver = record { config = config; runtime_routes = none };
  stream_config = context.stream_config;
  api_key = none;
  database = some db;
}

abbrev request : ProxyRequest
request = record {
  body = "{}";
  protocol = openai_chat_completions;
  request_id = "r";
  started = 1_000;
  headers = λ name. if name == "x-api-key" then some "gw_01" else none;
  checked_at = 2_000;
}

proxy-Ends_example :
    Ends json sha env state request fresh live (proxy json sha env state request fresh live)
proxy-Ends_example = proxy-Ends json sha env state request fresh live

-- The key expired at the instant 1000.
db-HasLapsed : HasLapsed (hash_key sha "gw_01") 1_000 db.keys
unfolding hash_key
db-HasLapsed = record { present = refl; lapsed = (λ e. expired 1_000 refl (omega arith), tt) }

proxy-Denied_example :
    Denied json sha env state request fresh live (proxy json sha env state request fresh live)
    × (keys_after json sha env state request ≡ some db)
unfolding supplied_key strip_prefix matches_static
proxy-Denied_example =
    proxy-Denied json sha env state request 1_000 db "gw_01" fresh live refl refl refl db-HasLapsed
      (omega arith)
