-- ===== src/Lib.antt =====
-- pulsate: a model of the traffic gateway's core, with its correctness theorems.
--
-- The gateway takes a request to a route (the router), answers it from a response cache where the
-- route has one (the cache layer) or sends it to one target of a pool (the proxy), and nodes of a
-- cluster keep one membership view and one shared counter by gossip. The parts meet in the HTTP
-- layer, which calls them one after the other. A configuration file is lexed, parsed, lowered and
-- validated, and a store publishes what compiles. Each part is modelled by itself, as explicit state
-- passing: an operation takes the state and returns its result and the new state.
--
-- * Flow and Flow/ model crates/pulsate-flow/src: Flow/Span (span.rs and diag.rs), Flow/Token and
--   Flow/Lexer (lexer.rs), Flow/Value (value.rs), Flow/Ast (ast.rs), Flow/Parser, Flow/Routes and
--   Flow/Statements (parser.rs, and `parse` of lib.rs). Flow/Scan, Flow/Spelling, Flow/Round and
--   Flow/Cover are about the lexer, Flow/Progress, Flow/Advance, Flow/Pipelines and Flow/Totality
--   about the parser, Flow/Typing about `type_atom`.
-- * Config and Config/ model crates/pulsate-config/src: Config/Model (model.rs, and the snapshot of
--   crates/pulsate-core/src/snapshot.rs), Config/Args, Config/Blocks, Config/Routing, Config/Lower,
--   Config/Names, Config/Check and Config/Compile (compile.rs), Config/Store (store.rs), Config/Build
--   (router.rs).
--   Config/Valid, Config/Terminal, Config/Handled, Config/Refers and Config/Accepted are about
--   `compile`,
--   Config/Publication about the store, Config/Retrying about the `retry` block, Config/Built about
--   the router and the pools.
-- * Pipeline models the ingress phase of crates/pulsate-pipeline/src/lib.rs; Pipeline/Passage is about
--   it.
-- * Util and Util/ model crates/pulsate-util/src: Util/Units (parse.rs), Util/BufferPool (pool.rs).
-- * Router and Router/ model crates/pulsate-router/src/lib.rs: `Router.route`, `Route::score`,
--   `SiteRoutes::host_score` and the text functions under them. `best_of` of Prelude/Best is
--   `max_by_key` over a `filter_map`: the last of the best.
-- * Cache and Cache/ model crates/pulsate-cache/src/lib.rs. Cache/Store is `Inner` and `MemoryStore`,
--   Cache/Policy is `CacheConfig`, the key and `cacheable_ttl`, Cache/Layer is `lookup`,
--   `maybe_store` and `evict_until_fits`. The other files prove what they are named for.
-- * Proxy and Proxy/ model crates/pulsate-proxy/src/lib.rs: `Upstream` with `pick`, the passive
--   circuit breaker, the counts of requests in flight, and `Registry`. Proxy/Headers and Proxy/Forward model
--   src/forward.rs beside it; Proxy/Stripping, Proxy/Retries and Proxy/Inflight are about it,
--   Proxy/Targets about the targets of a new pool.
-- * Cluster and Cluster/ model crates/pulsate-cluster/src/lib.rs (Cluster/Counter is `GCounter`,
--   Cluster/Members is `Membership`), src/gossip/wire.rs (Cluster/Wire) and src/gossip/mod.rs
--   (Cluster/Peers: `Shared`, `reconcile`, `apply_update`, `mark_suspect`, `mark_alive`, the locked
--   part of `reap_suspects`; Cluster/Runtime and Cluster/Dispatch: the rest of `Runtime`, with the
--   datagrams that go out as values). Cluster/Replicas takes a counter up to the order of its slots, as a
--   quotient.
-- * Waf and Waf/ model crates/pulsate-waf/src/lib.rs: Waf/RateLimiter, Waf/Engine (`WafEngine` and
--   `normalize`), Waf/Acl (`IpAcl` and `Block`) and Waf/Audit (`AuditLog`), and src/cidr.rs
--   (Waf/Cidr). Waf/Ranges, Waf/Access, Waf/Evasion, Waf/Chain and Waf/Tampering prove what they are
--   named for. Core models the error codes of crates/pulsate-core/src/error.rs that the modelled parts
--   use.
-- * Prelude and Prelude/ hold Boolean tests, equality as an interface, association lists, text
--   operations, the choice of a best element and sorted sets; Net is `std::net`'s addresses; Http is
--   the interface to the http crate's header map, and Http/Sample and Http/Folded are instances of it.
--
-- Conventions. A string is the list of its bytes; times are nanoseconds of one monotonic clock,
-- which is an argument; a map is an association list, and what is proved of one does not read its
-- order, but for the entry that `min_by_key` takes among equals. 64-bit and 32-bit counts wrap, as
-- they do in a release build; lengths of lists are not bounded. A shared object behind a lock or
-- atomics is a state, and one method call is one step of it.
--
-- Parameters: the header map of the http crate (`HeaderApi`, with the laws that the code relies
-- on), the digest that the std hasher gives for a client's address, the audit log's keyed digest,
-- lossy UTF-8 decoding (with the law that it leaves ASCII text as it is, where that is used), the
-- parsing and printing of an address, and the types of the middleware and the cache layer that a
-- route carries. For forwarding: what the network answers to an attempt, when it begins and ends,
-- what other requests do to the pool meanwhile, and the parsing of an address. For configurations:
-- the debug and number printing of the standard library and the environment's variables. A float is
-- kept as the text it is read from. The postcard encoding has no model: a datagram is its frame.
--
-- Fuel: the decoding loop of the firewall has the eight passes of the source. The eviction loop has
-- one round for each entry of the store, and each round that goes on takes one out, so the bound is
-- never what ends it. The lexer has one round for each byte and one more, and each round takes a byte. The parser's loops
-- have one round for each token that is left and one more, and each takes a token; blocks and arrays
-- are nested less deep than there are tokens. That these are enough is proved. All other loops are
-- structural.
--
-- Not modelled: sockets, tasks and signals; the stack, which is taken to hold the parser's recursion,
-- though the source sets no limit to the depth of blocks and arrays; what the cache does behind a
-- lookup that panicked and poisoned its mutex; the waiting of the gossip node's loop; the rendering of
-- diagnostics; the egress phase of the middleware; the ACME client, the Kubernetes controller, the control API
-- and the migration tools.
pub mod Prelude
pub mod Core
pub mod Http
pub mod Net
pub mod Flow
pub mod Config
pub mod Util
pub mod Router
pub mod Proxy
pub mod Cache
pub mod Waf
pub mod Cluster
pub mod Pipeline
