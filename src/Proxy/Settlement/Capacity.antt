-- ===== src/Proxy/Settlement/Capacity.antt =====
-- The bounds that src/proxy/settlement.rs keeps.
use my_ai_gateway.Prelude.{ℕ, ◌+◌, ◌-◌, ◌≤◌, ◌<◌, ◌≡◌, true, false, some, arith}
use my_ai_gateway.Proxy.Settlement.{
  SettlementManager, with_limits, Action, enter, acquire, recheck, drop_permit, spawn, begin_write,
  finish_write, close, collect, finish_drain, Reply, act, release, Reachable, created, acted,
}

-- Every permit is available or held by exactly one user.
pub record IsBalanced (capacity writes : ℕ) (m : SettlementManager) : Type 0 where
  pub limit : m.capacity ≡ capacity
  pub permits_held :
      m.permits + m.collected + m.holding + m.admitted + m.waiting + m.writing ≡ capacity
  pub writes_held : m.writes + m.writing ≡ writes
  pub some_writes : 0 < writes
  pub taken : m.draining ≡ true → m.permits ≡ 0
  pub nobody_waits : m.draining ≡ false → m.collected ≡ 0
  pub after_closing : m.draining ≡ true → m.closing ≡ true

created-IsBalanced :
    (capacity writes : ℕ) (m : SettlementManager)
    → with_limits capacity writes ≡ some m
    → IsBalanced capacity writes m
unfolding with_limits
created-IsBalanced capacity writes m e = ground arith

act-IsBalanced :
    (capacity writes : ℕ) (a : Action) (m m' : SettlementManager) (reply : Reply)
    → IsBalanced capacity writes m
    → act a m ≡ some (reply, m')
    → IsBalanced capacity writes m'
unfolding act release
act-IsBalanced capacity writes enter m m' reply h e = ground arith
act-IsBalanced capacity writes acquire m m' reply h e = ground arith
act-IsBalanced capacity writes recheck m m' reply h e = ground arith
act-IsBalanced capacity writes drop_permit m m' reply h e = ground arith
act-IsBalanced capacity writes spawn m m' reply h e = ground arith
act-IsBalanced capacity writes begin_write m m' reply h e = ground arith
act-IsBalanced capacity writes finish_write m m' reply h e = ground arith
act-IsBalanced capacity writes close m m' reply h e = ground arith
act-IsBalanced capacity writes collect m m' reply h e = ground arith
act-IsBalanced capacity writes finish_drain m m' reply h e = ground arith

pub reachable-IsBalanced :
    {capacity writes : ℕ} {m : SettlementManager}
    → Reachable capacity writes m
    → IsBalanced capacity writes m
reachable-IsBalanced {capacity = capacity} {writes = writes} (created {m = m} e) =
    created-IsBalanced capacity writes m e
reachable-IsBalanced {capacity = capacity} {writes = writes}
      (acted a {m = m} {m' = m'} {reply = reply} r e) =
    act-IsBalanced capacity writes a m m' reply (reachable-IsBalanced r) e

-- However reservations, spawned tasks, writes and the shutdown interleave: the requests that hold a
-- permit are at most the capacity, the tasks that write at once are at most the limit of writes. Unless
-- the shutdown waits, a permit is available exactly for each request fewer than the capacity. While it
-- waits, none is available, so nobody else gets one, and the shutdown has these permits.
pub reachable-bounds :
    {capacity writes : ℕ} {m : SettlementManager}
    → Reachable capacity writes m
    → (m.holding + m.admitted + m.waiting + m.writing ≤ capacity)
      × (m.writing ≤ writes)
      × (m.draining ≡ false
          → m.permits ≡ capacity - (m.holding + m.admitted + m.waiting + m.writing))
      × (m.draining ≡ true
          → (m.permits ≡ 0)
            × (m.collected ≡ capacity - (m.holding + m.admitted + m.waiting + m.writing)))
reachable-bounds r =
    let h = reachable-IsBalanced r in
    ground (arith, h.permits_held, h.writes_held, h.taken, h.nobody_waits)
