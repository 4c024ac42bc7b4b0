-- ===== src/Routing/Router/Spec.antt =====
-- The specification of route selection: which route is chosen, and when none is.
use rginx.Prelude.{
  ◌≡◌, refl, inl, inr, ◌↔◌, true, false, none, some, List, Memᴰ, arith, All, All-mem, Option-cases,
}
use rginx.Routing.Matcher.{Route, RouteMatcher, exact, regex}
use rginx.Routing.Router.{RouteMatchContext, route_matches, is_regex, select_route_with_context}
use rginx.Routing.Router.Specificity.{is_exact, is_prefix}
use rginx.Routing.Router.Chosen.{
  IsFirstRegex, Yields, Choice, by_exact, by_preferred, by_regex, by_prefix, select-Choice,
}
use rginx.Routing.Router.Cases.{Choice-Yields, kind_of, Choice-listed, none-All}

exact_not_regex : (m : RouteMatcher) → is_exact m ≡ true → is_regex m ≡ true → ⊥
exact_not_regex (exact _) h k = cc
exact_not_regex _ h k = cc

prefix_not_regex : (m : RouteMatcher) → is_prefix m ≡ true → is_regex m ≡ true → ⊥
prefix_not_regex (regex _) h k = cc
prefix_not_regex _ h k = cc

Choice-first :
    (context : RouteMatchContext) (routes : List Route) (r : Route)
    → is_regex r.matcher ≡ true
    → Choice context routes r
    → IsFirstRegex context routes r
Choice-first context routes r k (by_regex n p f) = f
Choice-first context routes r k (by_exact c o s) =
    absurd (exact_not_regex r.matcher (rw (← s) (kind_of context routes is_exact c o).2) k)
Choice-first context routes r k (by_preferred c n o s _) =
    absurd (prefix_not_regex r.matcher (rw (← s) (kind_of context routes is_prefix c o).2) k)
Choice-first context routes r k (by_prefix c n o s _) =
    absurd (prefix_not_regex r.matcher (rw (← s) (kind_of context routes is_prefix c o).2) k)

-- The chosen route is in the list and matches the request.
pub select_route_with_context-listed :
    (routes : List Route) (context : RouteMatchContext) (r : Route)
    → select_route_with_context routes context ≡ some r
    → Memᴰ r routes × (route_matches r context ≡ true)
select_route_with_context-listed routes context r h =
    Choice-listed context routes r (select-Choice context routes r h)

-- Every matching route `q` bounds the chosen route `r`. If `q` is exact, so is `r`. If `q` is a
-- prefix, `r` is exact, or a regular expression, or a prefix at least as specific as `q`; a
-- regular expression wins over a preferred prefix only if a plain prefix matches that is at least
-- as specific. If `q` is a regular expression, `r` is exact, a preferred prefix or one as well.
-- Among exact routes and among prefixes the longer path comes first, then the preferred prefix,
-- then the more precise gRPC condition.
pub select_route_with_context-Yields :
    (routes : List Route) (context : RouteMatchContext) (r q : Route)
    → select_route_with_context routes context ≡ some r
    → Memᴰ q routes
    → route_matches q context ≡ true
    → Yields context routes r q.matcher q
select_route_with_context-Yields routes context r q h m k =
    Choice-Yields context routes r q m k q.matcher refl (select-Choice context routes r h)

-- A chosen regular expression is the first one of the list that matches.
pub select_route_with_context-first :
    (routes : List Route) (context : RouteMatchContext) (r : Route)
    → select_route_with_context routes context ≡ some r
    → is_regex r.matcher ≡ true
    → IsFirstRegex context routes r
select_route_with_context-first routes context r h k =
    Choice-first context routes r k (select-Choice context routes r h)

-- No route is chosen exactly when none of the list matches the request.
pub select_route_with_context-none_iff :
    (routes : List Route) (context : RouteMatchContext)
    → (select_route_with_context routes context ≡ none)
      ↔ All (λ q. route_matches q context ≡ false) routes
select_route_with_context-none_iff routes context = (
  none-All context routes,
  λ a. elim (Option-cases (select_route_with_context routes context)) [
    | inl e ↦ e
    | inr (r, e) ↦
        let (m, k) = select_route_with_context-listed routes context r e in
        let no : route_matches r context ≡ false =
          All-mem (λ q. route_matches q context ≡ false) m a in
        absurd (ground arith)
  ],
)
