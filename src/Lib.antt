-- ===== src/Lib.antt =====
-- A verification library for my-ai-gateway: a gateway that accepts model requests in three protocols,
-- resolves each to a route of upstream accounts, tries the accounts in turn and remembers their health.
--
-- Parts and how they interact. A request names a protocol and a model. Routing (src/domain/routing.rs)
-- finds the route: among published routes by name, else among configured routes by pattern, with the
-- capabilities of src/domain/config.rs. The proxy (src/proxy) then runs one of two policies over the
-- lines of the route. Each attempt calls the upstream and reports its result to the health registry
-- (src/infra/health.rs), which the policies ask before they try an account; the registry keeps its
-- state in memory or in the tables of src/infra/db/health.rs.
--
-- Files and sources.
--   Prelude: Boolean tests, lists on native numbers and the string functions of the standard library.
--   Health/Types, Backoff, Breaker, View, Registry: src/infra/health.rs. `HealthConfig`,
--     `MemoryAccountState` and `AccountHealth` are records; `exponential_backoff`, `memory_health`,
--     `health_from_row` and the methods of `HealthRegistry` are functions of their names.
--     `mark_memory_failure` is split into `count_failure`, `trip` and `observe_failure` on an entry.
--   Health/Database: src/infra/db/health.rs, its two transactions in Health/Database/Recording. A
--     transaction is a function from the tables to the tables.
--   Domain/Protocol, Config, Capability: src/domain/protocol.rs and src/domain/config.rs.
--     Domain/Config/Matrix and Validate: the validation, whose messages are the texts of the source and
--     whose `expect`s are panics of the model.
--   Domain/Routing with Candidate, Selection, Runtime, and Domain/Intersection: src/domain/routing.rs.
--     `resolve_candidate` is a chain of results with the source's error codes; `resolve_selected` ranks,
--     sorts and tries; `resolve_runtime_route` reads published routes.
--   Proxy/Transport: data and pure functions of src/proxy/transport.rs and src/proxy/stream.rs.
--   Proxy/Environment: the clocks, the network and the JSON library, as parameters.
--   Proxy/Policy, Attempt: src/proxy/policy.rs, src/proxy/attempt.rs and src/proxy/forward.rs.
--   Proxy/Fallback: src/proxy/fallback.rs. Proxy/Ordered: src/proxy/ordered.rs. Proxy/Weighted:
--     src/proxy/weighted.rs. A loop over lines is recursion on the list of lines.
--   Proxy/Json: serde_json, as a parameter. Proxy/Usage: the observers of src/proxy/usage.rs that the
--     event tracker feeds; Proxy/Usage/Report: the normalised report. Proxy/Completion:
--     src/proxy/completion.rs. Proxy/Accounting: src/proxy/accounting.rs.
--   Proxy/Stream/Termination: `merge_terminal`, `classify_frame` and the gateway's frames of
--     src/proxy/stream.rs. Proxy/Stream/Tracker and Feed: `SseEventTracker`; its methods change the tracker
--     and the activity together, as a `Scan`. Proxy/Stream/Native: `NativeState` and `next_native`; a turn
--     of its loop is a function of the instants that it reads and of the polls of its `select!`.
--   Proxy/Settlement: src/proxy/settlement.rs, as the atomic actions of its callers and tasks, the waiter of
--     `drain` in tokio's fair semaphore among them.
--   Proxy/Attribution: src/proxy/attribution.rs.
--   Proxy/Service: `proxy` of src/proxy/service.rs, from the body to the policy that serves it.
--   Auth: src/auth.rs, with Auth/Identity. Auth/VirtualKeys, Rotation, Authenticate and Scopes:
--     src/infra/db/virtual_keys.rs. A transaction is a function of the table and of the instants that it
--     reads; the constraints of src/migrations on ids, hashes and origins are part of an insertion.
--     Auth/VirtualKeys/Insert and Auth/Rotation/Outcome: how an insertion and a rotation end.
--     Auth/Rotation/Contract: the contract of a rotation, in terms of searches of the table. The instants
--     of this table are taken as whole microseconds, as its columns hold them.
--     Auth/Steps: the operations on the table in any order.
--   SourceUrl/Address, Policy, Allowlist: src/source_url.rs; SourceUrl/Address/Never lists the addresses that
--     it never allows. SourceUrl/Redirect: its redirects.
--   Tests: data and runs at concrete inputs.
--
-- Conventions. Instants and durations are counts of nanoseconds; counters of u32 and i32 saturate or wrap
-- as the source does, written out. A `HashMap` is an association list in its iteration order. The clock is
-- an argument, or a reading of the environment's world. While an exchange with an upstream waits, other
-- requests may change the registry, so the environment returns the registry as they leave it. All
-- recursion is on lists and counts, so there is no fuel: a run of a supervised body is recursion on the
-- list of the readings of its turns, and the deadline theorem says how many turns are enough.
--
-- Parameters. `Json` stands for serde_json, with the behaviour of its objects and strings that it documents;
-- `checked_add` for the range of instants; `Parsers` for the url and ipnet crates and the text of addresses.
-- `Sha256` stands for the digests of sha2, their comparison by subtle and their text.
-- `Chrono` stands for chrono's `Duration::from_std`, documented to hold every duration of up
-- to `i64::MAX` milliseconds, and for the TIMESTAMPTZ columns of the health tables, documented to hold whole
-- microseconds. `Environment` stands for the clocks, the HTTP exchange of reqwest behind
-- `forward_url_with_config`, the date parser of chrono and the JSON edit of serde_json. `test` says
-- whether the build is a test build, which alone has an adapter.
--
-- The sums of i64 wrap around, as in a release build, and the tokenizer of tiktoken is a function from
-- texts to numbers of tokens.
--
-- Not modelled: the tables of usage records, the control plane and the
-- administration API, log lines, metrics, the resolution of credentials, SQL and HTTP themselves.
pub mod Prelude
pub mod Health
pub mod Domain
pub mod Proxy
pub mod SourceUrl
pub mod Auth
mod Tests
