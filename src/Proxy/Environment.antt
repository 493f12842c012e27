-- ===== src/Proxy/Environment.antt =====
-- What the proxy uses of its surroundings: the clocks, the network and the JSON library.
use my_ai_gateway.Prelude.{ℕ, Bool, Option, String}
use my_ai_gateway.Domain.Protocol.{Protocol}
use my_ai_gateway.Domain.Config.{AccountConfig}
use my_ai_gateway.Health.Types.{AccountHealth}
use my_ai_gateway.Health.Breaker.{Chrono}
use my_ai_gateway.Health.Registry.{
  HealthRegistry, is_available, get_health, mark_failure_with_details, mark_success,
}
use my_ai_gateway.Proxy.Transport.{StreamConfig, UpstreamResult}

-- A call of `forward_url_with_config`.
pub record HttpCall : Type 0 where
  pub url : String
  pub account : AccountConfig
  pub source_id : String
  pub protocol : Protocol
  pub body : String

-- `W` is the state of the world. While an exchange waits, other requests may change the registry: it is
-- returned as they leave it. `test` says whether the build is a test build.
pub record Environment (W : Type 0) : Type 0 where
  pub test : Bool
  pub chrono : Chrono
  pub utc_now : W → ℕ × W
  pub instant_now : W → ℕ × W
  pub sleep : ℕ → W → W
  pub forward_url :
      W → HealthRegistry → StreamConfig → HttpCall → UpstreamResult × HealthRegistry × W
  pub parse_from_rfc2822 : String → Option ℕ
  pub with_model : String → String → Option String

-- The state that a request works on.
pub record Live (W : Type 0) : Type 0 where
  pub world : W
  pub health : HealthRegistry

module _ {W : Type 0} (env : Environment W) where
  -- The calls of the registry, each at its reading of the clock.
  unfoldable pub read_health : Live W → String → AccountHealth × Live W
  read_health live id =
      let (now, w) = env.utc_now live.world in
      (get_health env.chrono now live.health id, record live { world = w })

  unfoldable pub check_available : Live W → String → Bool × Live W
  check_available live id =
      let (now, w) = env.utc_now live.world in
      (is_available env.chrono now live.health id, record live { world = w })

  unfoldable pub mark_failed : Live W → String → String → String → Live W
  mark_failed live id code message =
      let (now, w) = env.utc_now live.world in
      record {
        world = w;
        health =
            (mark_failure_with_details env.chrono now live.health id "passive" (Option.some code)
              (Option.some message)).0;
      }

  unfoldable pub mark_succeeded : Live W → String → Live W
  mark_succeeded live id =
      let (now, w) = env.utc_now live.world in
      record { world = w; health = mark_success env.chrono now live.health id }
