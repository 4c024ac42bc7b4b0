-- ===== src/Lib.antt =====
-- rginx is an HTTP reverse proxy. For a request it chooses a virtual host by the Host header and a
-- route in it, checks that the route may be used, reads a bounded body, chooses peers of the route's
-- upstream by weight and health, and forwards the request; answers are kept in a cache.
--
-- Prelude holds the shared names: tests and lists on the native numbers, texts as lists of bytes, hash
-- maps as lists of entries. `usize`, `u32` and `u64` are natural numbers; counters that can wrap do so.
--
-- Routing, from crates/rginx-core/src/config and crates/rginx-http/src/router.rs:
--   Matcher (route.rs): `RouteMatcher::matches`, `prefix_matches`, `RouteAccessControl::allows`.
--   ServerName (server_name.rs, virtual_host.rs): `match_server_name` and the best pattern for a host.
--   Router (router.rs): `select_route_with_context`, `select_vhost`.
--   Networks and regular expressions are parameters: the functions that test an address or a path.
-- Upstream, from crates/rginx-core/src/config/upstream: `next_peers_in_pool` and its callers. A pool is
--   the list of its peers instead of their indices. The loop over the offsets is by the rounds that are
--   left, as many as the total weight. The atomic cursor is a field that each call returns.
-- Health, from crates/rginx-http/src/proxy/health/registry:
--   State (state.rs): the passive and active health of one peer.
--   Registry (state.rs, guards.rs): the health of all peers. An `Arc<PeerHealth>` is an address in a
--   list of cells, so that endpoints share the cell of their peer as they do in the program.
--   Selection (selection.rs): the endpoints to try for a request. It asks Upstream for an order of the
--   peers, a parameter for their endpoints, and Registry for their health. The `while` over the depth
--   has fuel for one round more than the limit: each round but the last one takes an endpoint.
--   Snapshot (snapshot.rs): what the admin interface shows.
--   The clock is an argument, and times are milliseconds. A lock makes each operation one step.
-- Rolling, from crates/rginx-http/src/state/counters/rolling.rs: events counted by second.
-- BodyLimit, from crates/rginx-http/src/timeout/body/max_bytes.rs: `MaxBytesBody` over a list of the
--   answers of the inner body.
-- CacheIndex, from crates/rginx-http/src/cache/{state,index}.rs: entries, reference counts of the
--   hashes of bodies, and the schedule of accesses.
-- HealthCodec, from crates/rginx-http/src/proxy/health/grpc_health_codec.rs: the messages of the gRPC
--   health check. The index into a payload is the list of the bytes that are left. A `u64` has at most
--   ten bytes; the loop over the fields has a round for each byte, since a field takes at least one.
-- Transition, from crates/rginx-http/src/transition.rs: `plan_config_transition`.
-- ClientAddress, from crates/rginx-http/src/client_ip.rs: `resolve_client_address`. Addresses and networks
--   are parameters, with the functions of `std::net`, `ipnet` and `http` on them. `none` is a panic.
-- ProxyProtocol, from crates/rginx-http/src/server/proxy_protocol.rs: the header in front of a
--   connection. The socket is the list of the bytes to come.
-- CacheRange, from crates/rginx-http/src/cache: ranges of bytes that are cached in slices.
--   CacheRange (request.rs): `cacheable_range_request`, `response_content_range_matches_request`.
--   Plan (entry/response.rs): `downstream_range_trim_plan`. Trim (store/range.rs):
--   `DownstreamRangeTrimBody`. Of the policy and of the server only the fields are kept that these
--   functions read. A slice of no bytes would divide by zero in the program.
-- FillLock, from crates/rginx-http/src/cache/runtime/fill_lock.rs: who fills an entry of the cache.
--   Events are the requests, the readers that are attached and the guards that are dropped.
-- GrpcWeb, from crates/rginx-http/src/proxy/grpc_web: GrpcWeb (codec.rs) has the messages, Bodies and
--   Requests the bodies of the folder body. The loop over a request body has fuel for the answers of
--   the inner body, its end and a frame of trailers: each turn that does not answer uses one of them.
-- SnapshotBus, from crates/rginx-http/src/state/snapshot_bus.rs and state/traffic/snapshot.rs: versions of
--   the state, and Delta (state/snapshots/delta.rs), what has changed since one. A call that marks a
--   change is a `fetch_add` (`begin_mark`) and a `store` for each component (`store_next`); in Changes
--   such calls interleave step by step, in one order for all threads.
-- Compression, from crates/rginx-http/src/compression: the choice of a coding and its conditions
--   (accept_encoding.rs, content_type.rs, options.rs); Encode (mod.rs), the response that is sent. The
--   encoders and `f32` are parameters, and a body is what collecting it gives.
--
-- Not modelled: TLS, HTTP/2 and HTTP/3, files and sockets, shared memory, tasks and signals, which are
-- calls of libraries and of the system; the loading and checking of the configuration, the rest of the
-- cache, rate limits and counters of connections.
pub mod Prelude
pub mod Routing
pub mod Upstream
pub mod Health
pub mod Rolling
pub mod BodyLimit
pub mod ClientAddress
pub mod ProxyProtocol
pub mod CacheRange
pub mod CacheIndex
pub mod HealthCodec
pub mod GrpcWeb
pub mod FillLock
pub mod SnapshotBus
pub mod Compression
pub mod Transition
