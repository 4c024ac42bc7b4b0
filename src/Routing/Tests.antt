-- ===== src/Routing/Tests.antt =====
-- Runs of the routing code, and its theorems at concrete inputs.
use Prim.Native.String.{String}
use rginx.Prelude.{
  ◌≡◌, refl, ◌⊎◌, ◌↔◌, true, false, none, some, List, [], ◌∷◌, Memᴰ, Bytes, codes, All,
}
use rginx.Routing.Matcher.{
  v4, IpNet, RouteMatcher, exact, prefix, regex, Route, RouteBufferingPolicy,
  RouteCompressionPolicy, slash, allows, prefix_matches, matches,
}
use rginx.Routing.Matcher.Paths.{IsBelow, prefix_matches_iff}
use rginx.Routing.Matcher.Access.{IsAllowed, allows_iff}
use rginx.Routing.ServerName.{
  ServerNameMatch, dot_wildcard, leading_wildcard, VirtualHost, priority, match_pattern,
  match_server_name, best_matching_server_name_pattern, best_server_name_match,
}
use rginx.Routing.ServerName.Patterns.{IsSubdomain, match_pattern-wildcard_iff}
use rginx.Routing.ServerName.Best.{
  AtMost, best_matching_server_name_pattern-max, best_matching_server_name_pattern-none_iff,
}
use rginx.Routing.Router.{RouteMatchContext, route_matches, select_route_with_context, select_vhost}
use rginx.Routing.Router.Chosen.{Yields, IsFirstRegex}
use rginx.Routing.Router.Spec.{
  select_route_with_context-listed, select_route_with_context-Yields,
  select_route_with_context-first, select_route_with_context-none_iff,
}
use rginx.Routing.Router.Hosts.{select_vhost-max, select_vhost-default}

abbrev route : String → RouteMatcher → Route
route id m = record {
  id = codes id;
  matcher = m;
  grpc_match = none;
  access_control = record { allow_cidrs = []; deny_cidrs = [] };
  rate_limit = none;
  allow_early_data = false;
  request_buffering = RouteBufferingPolicy.auto;
  response_buffering = RouteBufferingPolicy.auto;
  compression = RouteCompressionPolicy.auto;
  compression_min_bytes = none;
  streaming_response_idle_timeout = none;
}

abbrev root : Route
root = route "root" (prefix (codes "/"))

abbrev api : Route
api = route "api" (prefix (codes "/api"))

abbrev health : Route
health = route "health" (exact (codes "/api/health"))

abbrev any_regex : Route
any_regex =
    route "any"
      (regex (record { pattern = codes ".*"; case_insensitive = false; regex = λ _. true }))

abbrev routes : List Route
routes = root ∷ api ∷ health ∷ []

abbrev to : String → RouteMatchContext
to path = record { path = codes path; grpc = none }

chosen_health : select_route_with_context routes (to "/api/health") ≡ some health
unfolding select_route_with_context route_matches matches prefix_matches
chosen_health = refl

chosen_api : select_route_with_context routes (to "/api/users") ≡ some api
unfolding select_route_with_context route_matches matches prefix_matches
chosen_api = refl

chosen_root : select_route_with_context routes (to "/apix") ≡ some root
unfolding select_route_with_context route_matches matches prefix_matches
chosen_root = refl

chosen_regex : select_route_with_context (any_regex ∷ routes) (to "/api/users") ≡ some any_regex
unfolding select_route_with_context route_matches matches prefix_matches
chosen_regex = refl

api_matches : route_matches api (to "/api/health") ≡ true
unfolding route_matches matches prefix_matches
api_matches = refl

prefix_matches_iff_example :
    (prefix_matches (codes "/api") (codes "/apix") ≡ true)
    ↔ ((codes "/api" ≡ slash) ⊎ IsBelow (codes "/api") (codes "/apix"))
prefix_matches_iff_example = prefix_matches_iff (codes "/api") (codes "/apix")

select_route_with_context-listed_example :
    Memᴰ health routes × (route_matches health (to "/api/health") ≡ true)
select_route_with_context-listed_example =
    select_route_with_context-listed routes (to "/api/health") health chosen_health

select_route_with_context-Yields_example : Yields (to "/api/health") routes health api.matcher api
select_route_with_context-Yields_example =
    select_route_with_context-Yields routes (to "/api/health") health api chosen_health
      (Memᴰ.tail (Memᴰ.head refl)) api_matches

select_route_with_context-first_example :
    IsFirstRegex (to "/api/users") (any_regex ∷ routes) any_regex
select_route_with_context-first_example =
    select_route_with_context-first (any_regex ∷ routes) (to "/api/users") any_regex chosen_regex
      refl

select_route_with_context-none_iff_example :
    (select_route_with_context (api ∷ []) (to "/x") ≡ none)
    ↔ All (λ q. route_matches q (to "/x") ≡ false) (api ∷ [])
select_route_with_context-none_iff_example = select_route_with_context-none_iff (api ∷ []) (to "/x")

abbrev office : IpNet
office = record { contains = λ ip. true }

allows_iff_example :
    (allows (record { allow_cidrs = office ∷ []; deny_cidrs = [] }) (v4 (10 ∷ 0 ∷ 0 ∷ 1 ∷ []))
      ≡ true)
    ↔ IsAllowed (record { allow_cidrs = office ∷ []; deny_cidrs = [] }) (v4 (10 ∷ 0 ∷ 0 ∷ 1 ∷ []))
allows_iff_example =
    allows_iff (record { allow_cidrs = office ∷ []; deny_cidrs = [] }) (v4 (10 ∷ 0 ∷ 0 ∷ 1 ∷ []))

abbrev patterns : List Bytes
patterns = codes "*.Example.com" ∷ codes "api.example.com" ∷ codes "api.*" ∷ []

host_tests :
    (best_matching_server_name_pattern patterns (codes "API.example.com:8443")
      ≡ some (codes "api.example.com", ServerNameMatch.exact))
    × (match_server_name (codes "*.Example.com") (codes "API.example.com:8443")
        ≡ some (leading_wildcard 11))
    × (best_matching_server_name_pattern patterns (codes "example.com") ≡ none)
    × (match_server_name (codes ".example.com") (codes "example.com") ≡ some (dot_wildcard 11))
unfolding best_matching_server_name_pattern match_server_name priority
host_tests = (refl, refl, refl, refl)

match_pattern-wildcard_iff_example :
    ((match_pattern (codes ".a.b") (codes "x.a.b") ≡ some (dot_wildcard 3))
      ↔ ((codes "x.a.b" ≡ codes "a.b") ⊎ IsSubdomain (codes "a.b") (codes "x.a.b")))
    × ((match_pattern (codes "*.a.b") (codes "x.a.b") ≡ some (leading_wildcard 3))
        ↔ IsSubdomain (codes "a.b") (codes "x.a.b"))
match_pattern-wildcard_iff_example =
    match_pattern-wildcard_iff (codes "a.b") (codes "x.a.b") (λ e. cc e)

best_matching_server_name_pattern-max_example :
    Memᴰ (codes "api.example.com") patterns
    × (match_server_name (codes "api.example.com") (codes "API.example.com:8443")
        ≡ some ServerNameMatch.exact)
    × AtMost (priority (leading_wildcard 11)) (priority ServerNameMatch.exact)
best_matching_server_name_pattern-max_example =
    best_matching_server_name_pattern-max patterns (codes "API.example.com:8443")
      (codes "api.example.com") (codes "*.Example.com") ServerNameMatch.exact (leading_wildcard 11)
      host_tests.0 (Memᴰ.head refl) host_tests.1

best_matching_server_name_pattern-none_iff_example :
    (best_matching_server_name_pattern patterns (codes "example.com") ≡ none)
    ↔ All (λ p. match_server_name p (codes "example.com") ≡ none) patterns
best_matching_server_name_pattern-none_iff_example =
    best_matching_server_name_pattern-none_iff patterns (codes "example.com")

abbrev site : VirtualHost
site = record { id = codes "site"; server_names = patterns; routes = routes }

abbrev fallback : VirtualHost
fallback = record { id = codes "default"; server_names = []; routes = [] }

site_match : best_server_name_match site (codes "API.example.com:8443") ≡ some ServerNameMatch.exact
unfolding best_server_name_match best_matching_server_name_pattern match_server_name priority
site_match = refl

site_mismatch : best_server_name_match site (codes "other.org") ≡ none
unfolding best_server_name_match best_matching_server_name_pattern match_server_name priority
site_mismatch = refl

select_vhost-max_example :
    (m : ServerNameMatch) × Memᴰ
      (select_vhost (site ∷ []) fallback (codes "API.example.com:8443"))
      (site ∷ [])
    × (best_server_name_match
          (select_vhost (site ∷ []) fallback (codes "API.example.com:8443"))
          (codes "API.example.com:8443")
        ≡ some m)
    × AtMost (priority ServerNameMatch.exact) (priority m)
select_vhost-max_example =
    select_vhost-max (site ∷ []) fallback site (codes "API.example.com:8443") ServerNameMatch.exact
      (Memᴰ.head refl) site_match

select_vhost-default_example : select_vhost (site ∷ []) fallback (codes "other.org") ≡ fallback
select_vhost-default_example =
    select_vhost-default (site ∷ []) fallback (codes "other.org") (site_mismatch, tt)
