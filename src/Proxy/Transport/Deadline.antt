-- ===== src/Proxy/Transport/Deadline.antt =====
-- `earliest_send_timeout` of src/proxy/transport.rs.
use my_ai_gateway.Prelude.{ℕ, ◌+◌, ◌≤◌, ◌≡◌, some, arith, ◌⊎◌, ◌-◌}
use my_ai_gateway.Proxy.Transport.{StreamConfig, StreamTermination, earliest_send_timeout}

-- The limit `d` on sending never lets a request pass a deadline: with a total limit, `d` from now ends
-- no later than the total limit after the start of the request, unless that is past and `d` is 0; with a
-- connection limit, `d` is at most that limit.
pub earliest_send_timeout-le :
    (now started d : ℕ) (config : StreamConfig) (t : StreamTermination)
    → earliest_send_timeout now started config ≡ some (d, t)
    → ((config.total_timeout ≡ 0) ⊎ (d ≤ (started + config.total_timeout) - now))
      × ((config.connection_timeout ≡ 0) ⊎ (d ≤ config.connection_timeout))
unfolding earliest_send_timeout
earliest_send_timeout-le now started d config t h = ground arith
