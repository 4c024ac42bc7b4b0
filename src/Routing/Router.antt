-- ===== src/Routing/Router.antt =====
-- crates/rginx-http/src/router.rs: choosing a route in a virtual host, and the virtual host.
pub mod Specificity
pub mod Chosen
pub mod Cases
pub mod Spec
pub mod Hosts
use rginx.Prelude.{
  ℕ, suc, Bool, true, false, not, ◌&&◌, Option, none, some, List, [], ◌∷◌, length, Ordering, ltb,
  ◌==◌, if◌then◌else◌, is_none_or, is_some_and, Bytes,
}
use mathlib.Core.Option
use rginx.Routing.Matcher.{
  Route, RouteMatcher, exact, preferred_prefix, prefix, regex, matches, grpc_matches, grpc_rank_of,
}
use rginx.Routing.ServerName.{VirtualHost, priority, cmp_priority, best_server_name_match}

pub record GrpcRequestMatch : Type 0 where
  pub service : Bytes
  pub method : Bytes

pub record RouteMatchContext : Type 0 where
  pub path : Bytes
  pub grpc : Option GrpcRequestMatch

unfoldable pub route_matches : Route → RouteMatchContext → Bool
route_matches route context =
    if not (matches route.matcher context.path)
    then false
    else is_none_or route.grpc_match
        λ m. is_some_and context.grpc (λ g. grpc_matches m g.service g.method)

pub record Candidate : Type 0 where
  pub index : ℕ
  pub route : Route
  pub match_len : ℕ
  pub grpc_rank : ℕ
  pub preferred_prefix : Bool

abbrev pub candidate : ℕ → Route → ℕ → Bool → Candidate
candidate index route match_len preferred = record {
  index = index;
  route = route;
  match_len = match_len;
  grpc_rank = grpc_rank_of route.grpc_match;
  preferred_prefix = preferred;
}

pub select_more_specific : Option Candidate → Candidate → Candidate
select_more_specific none new = new
select_more_specific (some existing) new =
    if ltb existing.match_len new.match_len
    then new
    else if ltb new.match_len existing.match_len
    then existing
    else if new.preferred_prefix && not existing.preferred_prefix
    then new
    else if not new.preferred_prefix && existing.preferred_prefix
    then existing
    else if ltb existing.grpc_rank new.grpc_rank
    then new
    else if ltb new.grpc_rank existing.grpc_rank
    then existing
    else if ltb new.index existing.index
    then new
    else existing

-- The two variables of the loop.
pub record Best : Type 0 where
  pub exact : Option Candidate
  pub prefix : Option Candidate

pub place : ℕ → Route → RouteMatcher → Best → Best
unfolding select_more_specific
place index route (exact path) b = record b {
  exact = some (select_more_specific b.exact (candidate index route (length path) false));
}
place index route (preferred_prefix path) b = record b {
  prefix = some (select_more_specific b.prefix (candidate index route (length path) true));
}
place index route (prefix path) b = record b {
  prefix = some (select_more_specific b.prefix (candidate index route (length path) false));
}
place index route (regex _) b = b

pub scan : RouteMatchContext → ℕ → List Route → Best → Best
unfolding place
scan context index [] b = b
scan context index (route ∷ routes) b =
    scan context (suc index) routes
      (if route_matches route context then place index route route.matcher b else b)

abbrev pub is_regex : RouteMatcher → Bool
is_regex (regex _) = true
is_regex _ = false

pub first_regex : RouteMatchContext → List Route → Option Route
first_regex context [] = none
first_regex context (route ∷ routes) =
    if is_regex route.matcher && route_matches route context
    then some route
    else first_regex context routes

pub prefix_or_regex : Option Candidate → Option Route → Option Route
prefix_or_regex none found = found
prefix_or_regex (some c) none = some c.route
prefix_or_regex (some c) (some route) = if c.preferred_prefix then some c.route else some route

pub decide : Best → Option Route → Option Route
unfolding prefix_or_regex
decide b found = elim b.exact [ some c ↦ some c.route | none ↦ prefix_or_regex b.prefix found ]

unfoldable pub select_route_with_context : List Route → RouteMatchContext → Option Route
unfolding scan first_regex decide
select_route_with_context routes context =
    decide (scan context 0 routes (record { exact = none; prefix = none }))
      (first_regex context routes)

unfoldable pub select_route : List Route → Bytes → Option Route
select_route routes path = select_route_with_context routes (record { path = path; grpc = none })

pub keep_better :
    Option ((ℕ × ℕ) × VirtualHost) → ℕ × ℕ → VirtualHost → Option ((ℕ × ℕ) × VirtualHost)
keep_better none priority vhost = some (priority, vhost)
keep_better (some (current, chosen)) priority vhost = elim (cmp_priority priority current) [
  | Ordering.gt ↦ some (priority, vhost)
  | _ ↦ some (current, chosen)
]

pub select_from :
    Bytes → List VirtualHost → Option ((ℕ × ℕ) × VirtualHost) → Option ((ℕ × ℕ) × VirtualHost)
unfolding keep_better
select_from host [] selected = selected
select_from host (vhost ∷ vhosts) selected =
    select_from host vhosts (elim (best_server_name_match vhost host) [
      | none ↦ selected
      | some matched ↦ keep_better selected (priority matched) vhost
    ])

pub or_default : VirtualHost → Option ((ℕ × ℕ) × VirtualHost) → VirtualHost
or_default default none = default
or_default default (some (_, vhost)) = vhost

unfoldable pub select_vhost : List VirtualHost → VirtualHost → Bytes → VirtualHost
unfolding select_from or_default
select_vhost vhosts default host = or_default default (select_from host vhosts none)

unfoldable pub select_route_by_host_with_context :
    VirtualHost → List VirtualHost → Bytes → RouteMatchContext → Option (VirtualHost × Route)
unfolding select_vhost select_route_with_context
select_route_by_host_with_context default vhosts host context =
    let vhost = select_vhost vhosts default host in
    Option.map (λ route. (vhost, route)) (select_route_with_context vhost.routes context)
