-- ===== src/Routing/Router/Cases.antt =====
-- What each case of the choice says about the routes that match.
use rginx.Prelude.{
  ◌≡◌, refl, sym, ◌∙◌, inl, inr, Bool, true, false, ◌&&◌, Option, none, some, List, Memᴰ, arith,
  All, All-mem, All-of-mem, Bool-cases,
}
use rginx.Routing.Matcher.{Route, RouteMatcher, exact, preferred_prefix, prefix, regex}
use rginx.Routing.Router.{
  RouteMatchContext, Candidate, route_matches, is_regex, first_regex, decide,
  select_route_with_context,
}
use rginx.Routing.Router.Specificity.{
  is_exact, is_prefix, AtLeast, Covers, fold_side, fold-Covers, fold-IsMatch, fold-preferred,
}
use rginx.Routing.Router.Chosen.{
  is_regex_match, IsOverridden, Yields, exact_of, prefix_of, Choice, by_exact, by_preferred,
  by_regex, by_prefix, select-sides, regex-cases, IsFirstRegex-mem,
}

module _ (context : RouteMatchContext) (routes : List Route) where
  covered :
      (kind : RouteMatcher → Bool) (q : Route)
      → Memᴰ q routes
      → route_matches q context ≡ true
      → kind q.matcher ≡ true
      → Covers (fold_side kind context 0 routes none) q
  covered kind q m h k =
      All-mem
        (λ q.
          (route_matches q context && kind q.matcher) ≡ true
          → Covers (fold_side kind context 0 routes none) q)
        m (fold-Covers kind context routes) (rw h k)

  covered-some :
      (kind : RouteMatcher → Bool) (q : Route) (c : Candidate)
      → fold_side kind context 0 routes none ≡ some c
      → Memᴰ q routes
      → route_matches q context ≡ true
      → kind q.matcher ≡ true
      → AtLeast c.route q
  covered-some kind q c e m h k = rw e at (covered kind q m h k)

  not_none :
      (kind : RouteMatcher → Bool) (q : Route)
      → fold_side kind context 0 routes none ≡ none
      → Memᴰ q routes
      → route_matches q context ≡ true
      → kind q.matcher ≡ true
      → ⊥
  not_none kind q e m h k = rw e at (covered kind q m h k)

  pub kind_of :
      (kind : RouteMatcher → Bool) (c : Candidate)
      → fold_side kind context 0 routes none ≡ some c
      → Memᴰ c.route routes × (route_matches c.route context ≡ true) × (kind c.route.matcher ≡ true)
  kind_of kind c e =
      let (m, h) = fold-IsMatch kind context routes c e in (m, ground arith, ground arith)

  pub Choice-listed :
      (r : Route) → Choice context routes r → Memᴰ r routes × (route_matches r context ≡ true)
  Choice-listed r (by_exact c e s) = let (m, h, _) = kind_of is_exact c e in rw (← s) (m, h)
  Choice-listed r (by_preferred c n e s k) =
      let (m, h, _) = kind_of is_prefix c e in rw (← s) (m, h)
  Choice-listed r (by_regex n p f) =
      (IsFirstRegex-mem context f, (let (_, _, _, _, k) = f in ground arith))
  Choice-listed r (by_prefix c n e s k) = let (m, h, _) = kind_of is_prefix c e in rw (← s) (m, h)

  overridden :
      (q : Route) (o : Option Candidate)
      → prefix_of context routes ≡ o
      → Covers o q
      → ((c : Candidate) → prefix_of context routes ≡ some c → c.preferred_prefix ≡ false)
      → IsOverridden context routes q
  overridden q none e h p = elim h [ ]
  overridden q (some c) e h p =
      let (m, k, pre) = kind_of is_prefix c e in
      (c.route, m, k, pre, (sym (fold-preferred is_prefix context routes c e) ∙ p c e), h)

  module _ (r q : Route) (m : Memᴰ q routes) (h : route_matches q context ≡ true) where
    pub Choice-Yields :
        (matcher : RouteMatcher)
        → q.matcher ≡ matcher
        → Choice context routes r
        → Yields context routes r matcher q
    Choice-Yields (exact p) e (by_exact c o s) =
        rw (← s) ((kind_of is_exact c o).2, covered-some is_exact q c o m h (rw e refl))
    Choice-Yields (exact p) e (by_preferred c n o s k) =
        absurd (not_none is_exact q n m h (rw e refl))
    Choice-Yields (exact p) e (by_regex n k f) = absurd (not_none is_exact q n m h (rw e refl))
    Choice-Yields (exact p) e (by_prefix c n o s k) = absurd (not_none is_exact q n m h (rw e refl))
    Choice-Yields (preferred_prefix p) e (by_exact c o s) = inl (rw (← s) (kind_of is_exact c o).2)
    Choice-Yields (preferred_prefix p) e (by_preferred c n o s k) =
        inr
          (inr (rw (← s) ((kind_of is_prefix c o).2, covered-some is_prefix q c o m h (rw e refl))))
    Choice-Yields (preferred_prefix p) e (by_regex n k f) = inr (
        inl (
          (let (_, _, _, _, g) = f in ground arith),
          overridden q _ refl (covered is_prefix q m h (rw e refl)) k,
        ))
    Choice-Yields (preferred_prefix p) e (by_prefix c n o s k) =
        inr
          (inr (rw (← s) ((kind_of is_prefix c o).2, covered-some is_prefix q c o m h (rw e refl))))
    Choice-Yields (prefix p) e (by_exact c o s) = inl (rw (← s) (kind_of is_exact c o).2)
    Choice-Yields (prefix p) e (by_preferred c n o s k) =
        inr
          (inr (rw (← s) ((kind_of is_prefix c o).2, covered-some is_prefix q c o m h (rw e refl))))
    Choice-Yields (prefix p) e (by_regex n k f) =
        inr (inl (let (_, _, _, _, g) = f in ground arith))
    Choice-Yields (prefix p) e (by_prefix c n o s k) =
        inr
          (inr (rw (← s) ((kind_of is_prefix c o).2, covered-some is_prefix q c o m h (rw e refl))))
    Choice-Yields (regex p) e (by_exact c o s) = inl (rw (← s) (kind_of is_exact c o).2)
    Choice-Yields (regex p) e (by_preferred c n o s k) =
        inr (inl (rw (← s) (sym (fold-preferred is_prefix context routes c o) ∙ k)))
    Choice-Yields (regex p) e (by_regex n k f) = inr (inr (let (_, _, _, _, g) = f in ground arith))
    Choice-Yields (regex p) e (by_prefix c n o s k) =
        let no : (is_regex q.matcher && route_matches q context) ≡ false =
          All-mem (λ q. is_regex_match context q ≡ false) m k in
        let here : is_regex q.matcher ≡ true = rw e refl in absurd (ground arith)

  decide-none :
      (o p : Option Candidate) (f : Option Route)
      → decide (record { exact = o; prefix = p }) f ≡ none
      → (o ≡ none) × (p ≡ none) × (f ≡ none)
  unfolding decide
  decide-none o p f h = ground arith

  no_regex :
      (q : Route)
      → first_regex context routes ≡ none
      → Memᴰ q routes
      → is_regex_match context q ≡ false
  no_regex q f m = elim (regex-cases context routes) [
    | inl (_, a) ↦ All-mem (λ q. is_regex_match context q ≡ false) m a
    | inr (r, e, _) ↦ absurd (cc)
  ]

  unmatched :
      (q : Route) (matcher : RouteMatcher)
      → q.matcher ≡ matcher
      → exact_of context routes ≡ none
      → prefix_of context routes ≡ none
      → first_regex context routes ≡ none
      → Memᴰ q routes
      → route_matches q context ≡ true
      → ⊥
  unmatched q (exact _) e o p f m k = not_none is_exact q o m k (rw e refl)
  unmatched q (preferred_prefix _) e o p f m k = not_none is_prefix q p m k (rw e refl)
  unmatched q (prefix _) e o p f m k = not_none is_prefix q p m k (rw e refl)
  unmatched q (regex _) e o p f m k =
      let no : (is_regex q.matcher && route_matches q context) ≡ false = no_regex q f m in
      let here : is_regex q.matcher ≡ true = rw e refl in ground arith

  pub none-All :
      select_route_with_context routes context ≡ none
      → All (λ q. route_matches q context ≡ false) routes
  none-All h =
      let (e, p, f) = decide-none _ _ _ (rw (select-sides context routes) at h) in
      All-of-mem (λ q. route_matches q context ≡ false) routes
        (λ q m. elim (Bool-cases (route_matches q context)) [
          | inr k ↦ k
          | inl k ↦ absurd (unmatched q q.matcher refl e p f m k)
        ])
