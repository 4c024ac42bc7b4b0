-- ===== src/Routing/Router/Chosen.antt =====
-- What the chosen route is among the routes of a virtual host.
use rginx.Prelude.{
  ◌≡◌, refl, ◌⊎◌, inl, inr, Bool, true, false, ◌&&◌, Option, none, some, List, [], ◌∷◌, ◌++◌, Memᴰ,
  ap, arith, All, Bool-cases,
}
use rginx.Routing.Matcher.{Route, RouteMatcher, exact, preferred_prefix, prefix, regex}
use rginx.Routing.Router.{
  RouteMatchContext, Candidate, route_matches, is_regex, first_regex, decide,
  select_route_with_context,
}
use rginx.Routing.Router.Specificity.{
  is_exact, is_preferred, is_prefix, AtLeast, fold_side, scan-sides,
}

abbrev pub is_regex_match : RouteMatchContext → Route → Bool
is_regex_match context q = is_regex q.matcher && route_matches q context

-- `r` is the first regular expression of the list that matches.
abbrev pub IsFirstRegex : RouteMatchContext → List Route → Route → Type 0
IsFirstRegex context routes r =
    (before after : List Route) × (routes ≡ before ++ r ∷ after)
    × All (λ q. is_regex_match context q ≡ false) before
    × (is_regex_match context r ≡ true)

-- A plain prefix that matches and is at least as specific as `q`.
abbrev pub IsOverridden : RouteMatchContext → List Route → Route → Type 0
IsOverridden context routes q =
    (p : Route) × Memᴰ p routes
    × (route_matches p context ≡ true)
    × (is_prefix p.matcher ≡ true)
    × (is_preferred p.matcher ≡ false)
    × AtLeast p q

-- What a matching route `q` of the list tells of the chosen route `r`, by the kind of `q`.
abbrev pub Yields : RouteMatchContext → List Route → Route → RouteMatcher → Route → Type 0
Yields context routes r (exact _) q = (is_exact r.matcher ≡ true) × AtLeast r q
Yields context routes r (preferred_prefix _) q =
    (is_exact r.matcher ≡ true)
    ⊎ (((is_regex r.matcher ≡ true) × IsOverridden context routes q)
        ⊎ ((is_prefix r.matcher ≡ true) × AtLeast r q))
Yields context routes r (prefix _) q =
    (is_exact r.matcher ≡ true)
    ⊎ ((is_regex r.matcher ≡ true) ⊎ ((is_prefix r.matcher ≡ true) × AtLeast r q))
Yields context routes r (regex _) q =
    (is_exact r.matcher ≡ true) ⊎ ((is_preferred r.matcher ≡ true) ⊎ (is_regex r.matcher ≡ true))

module _ (context : RouteMatchContext) where
  abbrev pub NoRegex : List Route → Type 0
  NoRegex = All λ q. is_regex_match context q ≡ false

  pub regex-cases :
      (routes : List Route)
      → ((first_regex context routes ≡ none) × NoRegex routes)
        ⊎ ((r : Route) × (first_regex context routes ≡ some r) × IsFirstRegex context routes r)
  unfolding first_regex
  regex-cases [] = inl (refl, tt)
  regex-cases (q ∷ qs) = elim (Bool-cases (is_regex_match context q)) [
    | inl e ↦ inr (q, (rw e refl), ([], qs, refl, tt, e))
    | inr e ↦ elim (regex-cases qs) [
      | inl (h, a) ↦ inl ((rw e h), (e, a))
      | inr (r, h, (before, after, s, a, m)) ↦
          inr (r, (rw e h), (q ∷ before, after, ap (◌∷◌ q) s, (e, a), m))
    ]
  ]

  pub mem-middle :
      (before : List Route) (r : Route) (after : List Route) → Memᴰ r (before ++ r ∷ after)
  mem-middle [] r after = Memᴰ.head refl
  mem-middle (q ∷ before) r after = Memᴰ.tail (mem-middle before r after)

  pub IsFirstRegex-mem :
      {routes : List Route} {r : Route} → IsFirstRegex context routes r → Memᴰ r routes
  IsFirstRegex-mem {r} (before, after, e, _, _) = rw e (mem-middle before r after)

  abbrev pub exact_of : List Route → Option Candidate
  exact_of routes = fold_side is_exact context 0 routes none

  abbrev pub prefix_of : List Route → Option Candidate
  prefix_of routes = fold_side is_prefix context 0 routes none

  pub select-sides :
      (routes : List Route)
      → select_route_with_context routes context
        ≡ decide
            (record { exact = exact_of routes; prefix = prefix_of routes })
            (first_regex context routes)
  unfolding select_route_with_context
  select-sides routes =
      rw (scan-sides context 0 routes (record { exact = none; prefix = none })) refl

  -- The four ways in which a route is chosen.
  pub data Choice (routes : List Route) (r : Route) : Type 0 where
    by_exact : (c : Candidate) → exact_of routes ≡ some c → c.route ≡ r → Choice routes r
    by_preferred :
        (c : Candidate)
        → exact_of routes ≡ none
        → prefix_of routes ≡ some c
        → c.route ≡ r
        → c.preferred_prefix ≡ true
        → Choice routes r
    by_regex :
        exact_of routes ≡ none
        → ((c : Candidate) → prefix_of routes ≡ some c → c.preferred_prefix ≡ false)
        → IsFirstRegex context routes r
        → Choice routes r
    by_prefix :
        (c : Candidate)
        → exact_of routes ≡ none
        → prefix_of routes ≡ some c
        → c.route ≡ r
        → NoRegex routes
        → Choice routes r

  Choice-of :
      (routes : List Route) (r : Route) (o p : Option Candidate) (f : Option Route)
      → exact_of routes ≡ o
      → prefix_of routes ≡ p
      → (((f ≡ none) × NoRegex routes)
          ⊎ ((q : Route) × (f ≡ some q) × IsFirstRegex context routes q))
      → decide (record { exact = o; prefix = p }) f ≡ some r
      → Choice routes r
  unfolding decide
  Choice-of routes r (some c) p f eo ep cs h = by_exact c eo (ground arith)
  Choice-of routes r none none none eo ep cs h = absurd (ground arith)
  Choice-of routes r none none (some q) eo ep (inl (n, _)) h = absurd (ground arith)
  Choice-of routes r none none (some q) eo ep (inr (q', e, first)) h =
      let same : q' ≡ r = cc in by_regex eo (λ c k. absurd (cc k)) (rw same at first)
  Choice-of routes r none (some c) none eo ep (inl (_, nothing)) h =
      by_prefix c eo ep (ground arith) nothing
  Choice-of routes r none (some c) none eo ep (inr (q', e, first)) h = absurd (ground arith)
  Choice-of routes r none (some c) (some q) eo ep (inl (n, _)) h = absurd (ground arith)
  Choice-of routes r none (some c) (some q) eo ep (inr (q', e, first)) h =
      elim (Bool-cases c.preferred_prefix) [
        | inl k ↦ by_preferred c eo ep (ground arith) k
        | inr k ↦
            let same : q' ≡ r = ground arith in
            by_regex eo (λ d m. let s : c ≡ d = cc in rw s at k) (rw same at first)
      ]

  pub select-Choice :
      (routes : List Route) (r : Route)
      → select_route_with_context routes context ≡ some r
      → Choice routes r
  select-Choice routes r h =
      Choice-of routes r _ _ _ refl refl (regex-cases routes) (rw (select-sides routes) at h)
