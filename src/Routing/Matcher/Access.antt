-- ===== src/Routing/Matcher/Access.antt =====
-- Who may use a route.
use rginx.Prelude.{
  ◌≡◌, refl, ◌⊎◌, inl, inr, ◌↔◌, Bool, true, false, ◌||◌, List, [], ◌∷◌, Memᴰ, is_empty, any, All,
  arith, any-eq-false_iff, any-mem, mem-any,
}
use rginx.Routing.Matcher.{IpAddr, IpNet, RouteAccessControl, allows}

abbrev pub IsAllowed : RouteAccessControl → IpAddr → Type 0
IsAllowed control ip =
    All (λ (cidr : IpNet). cidr.contains ip ≡ false) control.deny_cidrs
    × ((control.allow_cidrs ≡ [])
        ⊎ ((cidr : IpNet) × Memᴰ cidr control.allow_cidrs × (cidr.contains ip ≡ true)))

-- An address is let in exactly when no denied network contains it and either no network is listed
-- as allowed or one of those contains it: denial comes before permission.
pub allows_iff :
    (control : RouteAccessControl) (ip : IpAddr) → (allows control ip ≡ true) ↔ IsAllowed control ip
unfolding allows
allows_iff control ip = (
  λ h. (
    (any-eq-false_iff (λ (cidr : IpNet). cidr.contains ip) control.deny_cidrs).0 (ground arith),
    allowed control.allow_cidrs (ground arith),
  ),
  λ (denied, listed). back denied listed,
)
  where
    denies : List IpNet → Bool
    denies = any λ cidr. cidr.contains ip

    allowed :
        (nets : List IpNet)
        → (is_empty nets || denies nets) ≡ true
        → (nets ≡ []) ⊎ ((cidr : IpNet) × Memᴰ cidr nets × (cidr.contains ip ≡ true))
    allowed [] h = inl refl
    allowed (net ∷ nets) h = inr (any-mem (λ (cidr : IpNet). cidr.contains ip) (net ∷ nets) h)

    back :
        All (λ (cidr : IpNet). cidr.contains ip ≡ false) control.deny_cidrs
        → (control.allow_cidrs ≡ [])
          ⊎ ((cidr : IpNet) × Memᴰ cidr control.allow_cidrs × (cidr.contains ip ≡ true))
        → allows control ip ≡ true
    back denied (inl e) =
        rw ((any-eq-false_iff (λ (cidr : IpNet). cidr.contains ip) control.deny_cidrs).1 denied, e)
          refl
    back denied (inr (cidr, m, h)) = ground (
      arith,
      (any-eq-false_iff (λ (cidr : IpNet). cidr.contains ip) control.deny_cidrs).1 denied,
      mem-any (λ (cidr : IpNet). cidr.contains ip) m h,
    )
