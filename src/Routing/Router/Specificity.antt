-- ===== src/Routing/Router/Specificity.antt =====
-- The two folds of the loop over the routes, and what they keep.
use rginx.Prelude.{
  ℕ, suc, ◌<◌, ◌≤◌, ◌≡◌, refl, ◌⊎◌, inl, inr, Bool, true, false, ◌&&◌, Option, none, some, List, [],
  ◌∷◌, Memᴰ, length, if◌then◌else◌, arith, All, Bool-cases,
}
use rginx.Routing.Matcher.{
  Route, RouteMatcher, exact, preferred_prefix, prefix, regex, grpc_rank_of,
}
use rginx.Routing.Router.{
  RouteMatchContext, Candidate, candidate, Best, route_matches, select_more_specific, place, scan,
}

abbrev pub is_exact : RouteMatcher → Bool
is_exact (exact _) = true
is_exact _ = false

abbrev pub is_preferred : RouteMatcher → Bool
is_preferred (preferred_prefix _) = true
is_preferred _ = false

abbrev pub is_prefix : RouteMatcher → Bool
is_prefix (preferred_prefix _) = true
is_prefix (prefix _) = true
is_prefix _ = false

abbrev pub path_len : RouteMatcher → ℕ
path_len (exact path) = length path
path_len (preferred_prefix path) = length path
path_len (prefix path) = length path
path_len (regex _) = 0

abbrev pub rank : Bool → ℕ
rank true = 1
rank false = 0

-- `r` is at least as specific as `q`: the longer path, then the preferred prefix, then the more
-- precise gRPC condition.
abbrev pub AtLeast : Route → Route → Type 0
AtLeast r q =
    (path_len q.matcher < path_len r.matcher)
    ⊎ ((path_len q.matcher ≡ path_len r.matcher)
        × ((rank (is_preferred q.matcher) < rank (is_preferred r.matcher))
            ⊎ ((rank (is_preferred q.matcher) ≡ rank (is_preferred r.matcher))
                × (grpc_rank_of q.grpc_match ≤ grpc_rank_of r.grpc_match))))

pub AtLeast-trans : (r q p : Route) → AtLeast r q → AtLeast q p → AtLeast r p
AtLeast-trans r q p h k = omega arith

-- A candidate that holds its route's own key.
pub record IsKeyed (c : Candidate) : Type 0 where
  pub len : c.match_len ≡ path_len c.route.matcher
  pub preferred : c.preferred_prefix ≡ is_preferred c.route.matcher
  pub grpc : c.grpc_rank ≡ grpc_rank_of c.route.grpc_match

pub select-AtLeast :
    (c d : Candidate)
    → IsKeyed c
    → IsKeyed d
    → AtLeast (select_more_specific (some c) d).route c.route
      × AtLeast (select_more_specific (some c) d).route d.route
      × IsKeyed (select_more_specific (some c) d)
unfolding select_more_specific
select-AtLeast c d h k = ground arith

abbrev pub keyed : ℕ → Route → Candidate
keyed index r = candidate index r (path_len r.matcher) (is_preferred r.matcher)

-- One of the two variables of the loop, over the routes of one kind.
pub fold_side :
    (RouteMatcher → Bool) → RouteMatchContext → ℕ → List Route → Option Candidate → Option Candidate
fold_side kind context index [] o = o
fold_side kind context index (r ∷ rs) o = fold_side kind context (suc index) rs (
    if route_matches r context && kind r.matcher
    then some (select_more_specific o (keyed index r))
    else o)

place-sides :
    (index : ℕ) (r : Route) (m : RouteMatcher) (b : Best)
    → r.matcher ≡ m
    → place index r m b ≡ record {
      exact = if is_exact m then some (select_more_specific b.exact (keyed index r)) else b.exact;
      prefix =
          if is_prefix m then some (select_more_specific b.prefix (keyed index r)) else b.prefix;
    }
unfolding place
place-sides index r (exact path) b e = rw e
place-sides index r (preferred_prefix path) b e = rw e
place-sides index r (prefix path) b e = rw e
place-sides index r (regex _) b e = refl

pub scan-sides :
    (context : RouteMatchContext) (index : ℕ) (rs : List Route) (b : Best)
    → scan context index rs b ≡ record {
      exact = fold_side is_exact context index rs b.exact;
      prefix = fold_side is_prefix context index rs b.prefix;
    }
unfolding scan fold_side
scan-sides context index [] b = refl
scan-sides context index (r ∷ rs) b = elim (Bool-cases (route_matches r context)) [
  | inl e ↦
      rw (e, scan, fold_side)
        (rw (place-sides index r r.matcher b refl) (scan-sides context (suc index) rs _))
  | inr e ↦ rw (e, scan, fold_side) (scan-sides context (suc index) rs b)
]

abbrev Keyed : Option Candidate → Type 0
Keyed none = Unit
Keyed (some c) = IsKeyed c

-- The variable holds a route at least as specific as `q`.
abbrev pub Covers : Option Candidate → Route → Type 0
Covers none q = ⊥
Covers (some c) q = AtLeast c.route q

module _ (kind : RouteMatcher → Bool) (context : RouteMatchContext) where
  select-Keyed :
      (o : Option Candidate) (index : ℕ) (r : Route)
      → Keyed o
      → Keyed (some (select_more_specific o (keyed index r)))
        × Covers (some (select_more_specific o (keyed index r))) r
        × ((q : Route) → Covers o q → Covers (some (select_more_specific o (keyed index r))) q)
  unfolding select_more_specific
  select-Keyed none index r k =
      (record { len = refl; preferred = refl; grpc = refl }, omega arith, λ q h. elim h [ ])
  select-Keyed (some c) index r k =
      let (old, new, keys) =
        select-AtLeast c (keyed index r) k (record { len = refl; preferred = refl; grpc = refl }) in
      (
        keys,
        new,
        λ q h. AtLeast-trans (select_more_specific (some c) (keyed index r)).route c.route q old h,
      )

  select-either :
      (o : Option Candidate) (d : Candidate)
      → (select_more_specific o d ≡ d) ⊎ (o ≡ some (select_more_specific o d))
  unfolding select_more_specific
  select-either none d = inl refl
  select-either (some c) d = ground arith

  fold-Keyed :
      (index : ℕ) (rs : List Route) (o out : Option Candidate)
      → fold_side kind context index rs o ≡ out
      → Keyed o
      → Keyed out
        × ((q : Route) → Covers o q → Covers out q)
        × All (λ q. (route_matches q context && kind q.matcher) ≡ true → Covers out q) rs
  unfolding fold_side
  fold-Keyed index [] o out h k = (rw (← h) k, (λ q c. rw (← h) c), tt)
  fold-Keyed index (r ∷ rs) o out h k =
      elim (Bool-cases (route_matches r context && kind r.matcher)) [
        | inl e ↦
            let (keys, new, old) = select-Keyed o index r k in
            let (final, keeps, covers) =
              fold-Keyed (suc index) rs (some (select_more_specific o (keyed index r))) out
                (rw (e, fold_side) at h) keys in
            (final, (λ q c. keeps q (old q c)), ((λ _. keeps r new), covers))
        | inr e ↦
            let (final, keeps, covers) =
              fold-Keyed (suc index) rs o out (rw (e, fold_side) at h) k in
            (final, keeps, ((λ m. cc), covers))
      ]

  -- At the end of the loop the variable holds a route at least as specific as every matching one.
  pub fold-Covers :
      (rs : List Route)
      → All
          (λ q.
            (route_matches q context && kind q.matcher) ≡ true
            → Covers (fold_side kind context 0 rs none) q)
          rs
  fold-Covers rs = (fold-Keyed 0 rs none _ refl tt).2

  pub fold-preferred :
      (rs : List Route) (c : Candidate)
      → fold_side kind context 0 rs none ≡ some c
      → c.preferred_prefix ≡ is_preferred c.route.matcher
  fold-preferred rs c h = (fold-Keyed 0 rs none (some c) h tt).0.preferred

  abbrev pub IsMatch : List Route → Route → Type 0
  IsMatch rs r = Memᴰ r rs × ((route_matches r context && kind r.matcher) ≡ true)

  fold-origin :
      (index : ℕ) (rs : List Route) (o : Option Candidate) (c : Candidate)
      → fold_side kind context index rs o ≡ some c
      → (o ≡ some c) ⊎ IsMatch rs c.route
  unfolding fold_side
  fold-origin index [] o c h = inl h
  fold-origin index (r ∷ rs) o c h = elim (Bool-cases (route_matches r context && kind r.matcher)) [
    | inl e ↦
        elim (fold-origin (suc index) rs (some (select_more_specific o (keyed index r))) c
          (rw (e, fold_side) at h)) [
            | inl s ↦ elim (select-either o (keyed index r)) [
              | inl new ↦ let same : c.route ≡ r = cc in inr (Memᴰ.head same, rw same e)
              | inr old ↦ inl (cc)
            ]
            | inr (m, k) ↦ inr (Memᴰ.tail m, k)
          ]
    | inr e ↦ elim (fold-origin (suc index) rs o c (rw (e, fold_side) at h)) [
      | inl s ↦ inl s
      | inr (m, k) ↦ inr (Memᴰ.tail m, k)
    ]
  ]

  pub fold-IsMatch :
      (rs : List Route) (c : Candidate)
      → fold_side kind context 0 rs none ≡ some c
      → IsMatch rs c.route
  fold-IsMatch rs c h = elim (fold-origin 0 rs none c h) [ inl e ↦ absurd (cc e) | inr m ↦ m ]
