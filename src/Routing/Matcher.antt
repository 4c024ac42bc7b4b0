-- ===== src/Routing/Matcher.antt =====
-- crates/rginx-core/src/config/route.rs: routes, their path and gRPC matchers, access control.
-- A route's action, cache policy and content types for compression are left out: matching reads
-- none of them. A compiled regular expression is its `is_match` function.
pub mod Paths
pub mod Access
use rginx.Prelude.{
  ℕ, ◌+◌, Bool, true, false, ◌&&◌, ◌||◌, Option, none, some, List, is_empty, any, length,
  is_none_or, is_some_and, is_some, if◌then◌else◌, Bytes, codes, bytes_eq, strip_prefix,
  starts_with, ends_with,
}

pub data IpAddr : Type 0 where
  v4 v6 : Bytes → IpAddr

-- An `ipnet::IpNet`, by its `contains`.
pub record IpNet : Type 0 where
  pub contains : IpAddr → Bool

pub record RouteAccessControl : Type 0 where
  pub allow_cidrs : List IpNet
  pub deny_cidrs : List IpNet

unfoldable pub allows : RouteAccessControl → IpAddr → Bool
allows control ip =
    if any (λ cidr. cidr.contains ip) control.deny_cidrs
    then false
    else is_empty control.allow_cidrs || any (λ cidr. cidr.contains ip) control.allow_cidrs

pub record RouteRateLimit : Type 0 where
  pub requests_per_sec : ℕ
  pub burst : ℕ

pub data RouteBufferingPolicy : Type 0 where
  auto on off : RouteBufferingPolicy

pub data RouteCompressionPolicy : Type 0 where
  off auto force : RouteCompressionPolicy

pub record RouteRegexMatcher : Type 0 where
  pub pattern : Bytes
  pub case_insensitive : Bool
  pub regex : Bytes → Bool

pub data RouteMatcher : Type 0 where
  exact preferred_prefix prefix : Bytes → RouteMatcher
  regex : RouteRegexMatcher → RouteMatcher

abbrev pub slash : Bytes
slash = codes "/"

unfoldable pub prefix_matches : Bytes → Bytes → Bool
prefix_matches pre path =
    if bytes_eq pre slash
    then true
    else if bytes_eq path pre
    then true
    else is_some_and (strip_prefix pre path)
        λ remainder. if ends_with slash pre then true else starts_with slash remainder

unfoldable pub matches : RouteMatcher → Bytes → Bool
matches (exact expected) path = bytes_eq path expected
matches (preferred_prefix pre) path = prefix_matches pre path
matches (prefix pre) path = prefix_matches pre path
matches (regex m) path = m.regex path

unfoldable pub matcher_priority : RouteMatcher → ℕ × ℕ
matcher_priority (exact path) = (4, length path)
matcher_priority (preferred_prefix path) = (3, length path)
matcher_priority (regex _) = (2, 0)
matcher_priority (prefix path) = (1, length path)

pub record GrpcRouteMatch : Type 0 where
  pub service : Option Bytes
  pub method : Option Bytes

unfoldable pub grpc_matches : GrpcRouteMatch → Bytes → Bytes → Bool
grpc_matches m service method =
    is_none_or m.service (λ expected. bytes_eq expected service)
    && is_none_or m.method (λ expected. bytes_eq expected method)

abbrev bool_rank : Bool → ℕ
bool_rank true = 1
bool_rank false = 0

unfoldable pub grpc_priority : GrpcRouteMatch → ℕ
grpc_priority m = bool_rank (is_some m.service) + bool_rank (is_some m.method)

pub record Route : Type 0 where
  pub id : Bytes
  pub matcher : RouteMatcher
  pub grpc_match : Option GrpcRouteMatch
  pub access_control : RouteAccessControl
  pub rate_limit : Option RouteRateLimit
  pub allow_early_data : Bool
  pub request_buffering : RouteBufferingPolicy
  pub response_buffering : RouteBufferingPolicy
  pub compression : RouteCompressionPolicy
  pub compression_min_bytes : Option ℕ
  pub streaming_response_idle_timeout : Option ℕ

abbrev pub grpc_rank_of : Option GrpcRouteMatch → ℕ
grpc_rank_of none = 0
grpc_rank_of (some m) = grpc_priority m

pub route_priority : Route → ℕ × ℕ × ℕ
unfolding matcher_priority
route_priority r =
    ((matcher_priority r.matcher).0, (matcher_priority r.matcher).1, grpc_rank_of r.grpc_match)
