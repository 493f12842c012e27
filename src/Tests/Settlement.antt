-- ===== src/Tests/Settlement.antt =====
-- The theorems on src/proxy/settlement.rs at concrete inputs.
use my_ai_gateway.Prelude.{◌+◌, ◌-◌, ◌≤◌, true, false, ◌≡◌, ◌⊎◌, refl}
use my_ai_gateway.Proxy.Settlement.{
  SettlementManager, with_limits, enter, acquire, close, collect, act, drained, Reachable, created,
  acted,
}
use my_ai_gateway.Proxy.Settlement.Capacity.{reachable-bounds}
use my_ai_gateway.Proxy.Settlement.Drain.{work, GoesOn, stays, settles_on, drain_ends}

abbrev pub fresh : SettlementManager
fresh = record {
  permits = 2;
  writes = 1;
  capacity = 2;
  closing = false;
  draining = false;
  collected = 0;
  entered = 0;
  holding = 0;
  admitted = 0;
  waiting = 0;
  writing = 0;
}

abbrev entered_one : SettlementManager
entered_one = record fresh { entered = 1 }

abbrev shut : SettlementManager
shut = record entered_one { closing = true }

abbrev holding_one : SettlementManager
holding_one = record shut { entered = 0; permits = 1; holding = 1 }

reachable-shut : Reachable 2 1 shut
unfolding with_limits act
reachable-shut = acted close (acted enter (created {m = fresh} refl) refl) refl

-- The shutdown waits while one call is about to hold a permit.
abbrev waits : SettlementManager
waits = record shut { draining = true; permits = 0; collected = 2 }

reachable-waits : Reachable 2 1 waits
unfolding act
reachable-waits = acted collect reachable-shut refl

reachable-bounds_example :
    (0 + 0 + 0 + 0 ≤ 2)
    × (0 ≤ 1)
    × (waits.draining ≡ false → waits.permits ≡ 2 - (0 + 0 + 0 + 0))
    × (waits.draining ≡ true → (waits.permits ≡ 0) × (waits.collected ≡ 2 - (0 + 0 + 0 + 0)))
reachable-bounds_example = reachable-bounds reachable-waits

drain_ends_example :
    (1 + work holding_one ≤ work shut) × ((drained holding_one ≡ true) ⊎ GoesOn holding_one)
unfolding act
drain_ends_example = drain_ends reachable-shut refl (settles_on acquire refl refl stays)
