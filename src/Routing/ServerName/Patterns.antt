-- ===== src/Routing/ServerName/Patterns.antt =====
-- What the wildcard patterns of server names accept.
use rginx.Prelude.{
  ◌≡◌, refl, sym, ap, ◌∙◌, ◌≢◌, ◌⊎◌, ◌↔◌, true, some, [], ◌∷◌, ◌++◌, arith, Bytes, codes,
  bytes_eq_iff, ends_with, ends_with_iff, length, length-append,
}
use rginx.Routing.ServerName.{dot_wildcard, leading_wildcard, match_pattern}

-- The host has at least one label, maybe an empty one, before `suffix`.
abbrev pub IsSubdomain : Bytes → Bytes → Type 0
IsSubdomain suffix hostname = (x : Bytes) × (hostname ≡ x ++ (codes "." ++ suffix))

IsSubdomain-ne : (suffix hostname : Bytes) → IsSubdomain suffix hostname → hostname ≢ suffix
IsSubdomain-ne suffix hostname (x, e) same =
    absurd (omega (arith, ap length (sym same ∙ e), length-append x (codes "." ++ suffix)))

ends_with-IsSubdomain :
    (suffix hostname : Bytes)
    → (ends_with (codes "." ++ suffix) hostname ≡ true) ↔ IsSubdomain suffix hostname
ends_with-IsSubdomain suffix hostname = ends_with_iff (codes "." ++ suffix) hostname

-- The pattern ".s" takes the host "s" and every host that ends in ".s"; the pattern "*.s" takes the
-- hosts that end in ".s" and never "s" itself. The match carries the length of "s".
pub match_pattern-wildcard_iff :
    (suffix hostname : Bytes)
    → suffix ≢ []
    → ((match_pattern (codes "." ++ suffix) hostname ≡ some (dot_wildcard (length suffix)))
        ↔ ((hostname ≡ suffix) ⊎ IsSubdomain suffix hostname))
      × ((match_pattern (codes "*." ++ suffix) hostname ≡ some (leading_wildcard (length suffix)))
          ↔ IsSubdomain suffix hostname)
unfolding match_pattern
match_pattern-wildcard_iff [] hostname h = absurd (h refl)
match_pattern-wildcard_iff (c ∷ s) hostname h = (
  ground (arith, ends_with-IsSubdomain (c ∷ s) hostname, bytes_eq_iff hostname (c ∷ s)),
  ground (
    arith,
    ends_with-IsSubdomain (c ∷ s) hostname,
    bytes_eq_iff hostname (c ∷ s),
    IsSubdomain-ne (c ∷ s) hostname,
  ),
)
