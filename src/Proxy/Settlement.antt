-- ===== src/Proxy/Settlement.antt =====
-- src/proxy/settlement.rs: `SettlementManager`, its permits, and the tasks that hold them. The atomic
-- operations of the callers and of the tasks are the actions; any of them may come next.
pub mod Capacity
pub mod Drain
pub mod Reserve
use my_ai_gateway.Prelude.{
  ℕ, ◌+◌, ◌-◌, Bool, true, false, not, ◌&&◌, Option, none, some, ltb, leb, eqb, if◌then◌else◌, List,
  [], ◌∷◌, and_then,
}

abbrev pub max_outstanding_accounted_requests : ℕ
max_outstanding_accounted_requests = 64

abbrev pub max_concurrent_writes : ℕ
max_concurrent_writes = 8

pub data AdmissionError : Type 0 where
  saturated is_closing : AdmissionError

-- `permits` and `writes` are the available permits of the two semaphores; `collected` are the permits that
-- the `acquire_many` of a `drain` has, and `draining` is whether it waits or has them all. tokio's semaphore
-- is fair: a waiter takes the permits that are available and then each one that is released, before
-- anybody else. The other counts say where the users of the manager are: calls of `try_reserve` past the first check, calls that hold a permit before the
-- second check, admitted permits, tasks that wait for a write permit, and tasks that write.
pub record SettlementManager : Type 0 where
  pub permits : ℕ
  pub writes : ℕ
  pub capacity : ℕ  -- u32
  pub closing : Bool
  pub draining : Bool
  pub collected : ℕ
  pub entered : ℕ
  pub holding : ℕ
  pub admitted : ℕ
  pub waiting : ℕ
  pub writing : ℕ

-- `with_limits`, which panics on a limit of zero.
unfoldable pub with_limits : ℕ → ℕ → Option SettlementManager
with_limits capacity writes =
    if ltb 0 capacity && ltb 0 writes
    then some (record {
      permits = capacity;
      writes = writes;
      capacity = capacity;
      closing = false;
      draining = false;
      collected = 0;
      entered = 0;
      holding = 0;
      admitted = 0;
      waiting = 0;
      writing = 0;
    })
    else none

unfoldable pub with_capacity : ℕ → Option SettlementManager
unfolding with_limits
with_capacity capacity = with_limits capacity max_concurrent_writes

-- The three steps of `try_reserve` are `enter`, `acquire` and `recheck`. An admitted permit is dropped, or
-- spawned with a future, whose task begins and finishes its write. The three steps of `drain` are `close`,
-- its store, `collect`, with which `acquire_many(capacity)` begins, and `finish_drain`, with which it has
-- all permits and `drain` returns, so that it drops them. The process calls `drain` once; drains that
-- follow each other are allowed, not two that wait at the same time.
pub data Action : Type 0 where
  enter acquire recheck drop_permit spawn begin_write finish_write close collect finish_drain :
      Action

-- What is left of `try_reserve`: an error, a permit, or nothing yet.
pub data Reply : Type 0 where
  refused : AdmissionError → Reply
  reserved silent : Reply

-- A permit that is released goes to the waiter, if there is one.
unfoldable pub release : SettlementManager → SettlementManager
release m =
    if m.draining
    then record m { collected = m.collected + 1 }
    else record m { permits = m.permits + 1 }

-- One action, if there is somebody to take it.
unfoldable pub act : Action → SettlementManager → Option (Reply × SettlementManager)
unfolding release
act enter m =
    if m.closing
    then some (refused is_closing, m)
    else some (silent, record m { entered = m.entered + 1 })
act acquire m =
    if ltb 0 m.entered
    then (if ltb 0 m.permits
        then some (
          silent,
          record m { entered = m.entered - 1; permits = m.permits - 1; holding = m.holding + 1 },
        )
        else some (refused saturated, record m { entered = m.entered - 1 }))
    else none
act recheck m =
    if ltb 0 m.holding
    then (if m.closing
        then some (refused is_closing, release (record m { holding = m.holding - 1 }))
        else some (reserved, record m { holding = m.holding - 1; admitted = m.admitted + 1 }))
    else none
act drop_permit m =
    if ltb 0 m.admitted
    then some (silent, release (record m { admitted = m.admitted - 1 }))
    else none
act spawn m =
    if ltb 0 m.admitted
    then some (silent, record m { admitted = m.admitted - 1; waiting = m.waiting + 1 })
    else none
act begin_write m =
    if ltb 0 m.waiting && ltb 0 m.writes
    then some (
      silent,
      record m { waiting = m.waiting - 1; writes = m.writes - 1; writing = m.writing + 1 },
    )
    else none
act finish_write m =
    if ltb 0 m.writing
    then some (silent, release (record m { writing = m.writing - 1; writes = m.writes + 1 }))
    else none
act close m = some (silent, record m { closing = true })
act collect m =
    if m.closing && not m.draining
    then some (silent, record m { permits = 0; collected = m.permits; draining = true })
    else none
act finish_drain m =
    if m.draining && leb m.capacity m.collected
    then some
        (silent, record m { permits = m.permits + m.collected; collected = 0; draining = false })
    else none

-- `acquire_many(capacity)` of `drain` has every permit.
abbrev pub drained : SettlementManager → Bool
drained m = m.draining && leb m.capacity m.collected

-- The managers that a new one can become.
pub data Reachable (capacity writes : ℕ) : SettlementManager → Type 0 where
  created :
      {m : SettlementManager}
      → Path (Option SettlementManager) (with_limits capacity writes) (some m)
      → Reachable capacity writes m
  acted :
      (a : Action) {m m' : SettlementManager} {reply : Reply}
      → Reachable capacity writes m
      → Path (Option (Reply × SettlementManager)) (act a m) (some (reply, m'))
      → Reachable capacity writes m'

-- A call of `try_reserve` that nothing interrupts.
unfoldable pub try_reserve : SettlementManager → Option AdmissionError × SettlementManager
try_reserve m =
    if m.closing
    then (some is_closing, m)
    else if ltb 0 m.permits
    then (none, record m { permits = m.permits - 1; admitted = m.admitted + 1 })
    else (some saturated, m)
