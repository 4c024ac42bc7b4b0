-- ===== src/Routing/ServerName.antt =====
-- crates/rginx-core/src/config/server_name.rs and virtual_host.rs: server names against a host.
-- Texts are the bytes of their UTF-8; letter case is that of ASCII.
pub mod Patterns
pub mod Best
use rginx.Prelude.{
  ℕ, Bool, true, false, ◌&&◌, ◌||◌, Option, none, some, List, [], ◌∷◌, ◌++◌, length, is_empty,
  compare, Ordering, ltb, leb, ◌==◌, if◌then◌else◌, Bytes, codes, bytes_eq, bytes_cmp, then_cmp,
  strip_prefix, starts_with, ends_with, to_ascii_lowercase, is_some, trim, split_at,
}
use mathlib.Core.Option
use mathlib.Core.List.{reverse}
use rginx.Routing.Matcher.{Route}

pub data ServerNameMatch : Type 0 where
  exact : ServerNameMatch
  dot_wildcard leading_wildcard trailing_wildcard : ℕ → ServerNameMatch

unfoldable pub priority : ServerNameMatch → ℕ × ℕ
priority exact = (4, 0)
priority (dot_wildcard suffix_len) = (2, suffix_len)
priority (leading_wildcard suffix_len) = (2, suffix_len)
priority (trailing_wildcard prefix_len) = (1, prefix_len)

-- `str::strip_suffix`, the suffix first.
pub strip_suffix : Bytes → Bytes → Option Bytes
strip_suffix suffix s = Option.map reverse (strip_prefix (reverse suffix) (reverse s))

pub before_bracket : Bytes × Option Bytes → Option Bytes
before_bracket (addr, none) = none
before_bracket (addr, some _) = some addr

pub bracketed : Bytes → Option Bytes
unfolding before_bracket
bracketed host = elim (strip_prefix (codes "[") host) [
  | none ↦ none
  | some rest ↦ before_bracket (split_at b']' rest)
]

unfoldable pub normalize_host_for_match : Bytes → Bytes
unfolding bracketed
normalize_host_for_match host = elim (bracketed host) [
  | some addr ↦ to_ascii_lowercase addr
  | none ↦ to_ascii_lowercase (split_at b':' host).0
]

pub match_dot : Bytes → Bytes → Option ServerNameMatch
match_dot suffix hostname =
    if is_empty suffix
    then none
    else if bytes_eq hostname suffix || ends_with (codes "." ++ suffix) hostname
    then some (dot_wildcard (length suffix))
    else none

pub match_leading : Bytes → Bytes → Option ServerNameMatch
match_leading suffix hostname =
    if is_empty suffix || bytes_eq hostname suffix
    then none
    else if ends_with (codes "." ++ suffix) hostname
    then some (leading_wildcard (length suffix))
    else none

pub match_trailing : Bytes → Bytes → Option ServerNameMatch
match_trailing pre hostname =
    if is_empty pre || bytes_eq hostname pre then none else elim (strip_prefix pre hostname) [
      | none ↦ none
      | some remainder ↦
          if starts_with (codes ".") remainder && ltb 1 (length remainder)
          then some (trailing_wildcard (length pre))
          else none
    ]

-- `match_server_name` once host and pattern are normalised.
pub match_pattern : Bytes → Bytes → Option ServerNameMatch
unfolding match_dot match_leading match_trailing
match_pattern pattern hostname =
    if is_empty pattern then none else elim (strip_prefix (codes ".") pattern) [
      | some suffix ↦ match_dot suffix hostname
      | none ↦ elim (strip_prefix (codes "*.") pattern) [
        | some suffix ↦ match_leading suffix hostname
        | none ↦ elim (strip_suffix (codes ".*") pattern) [
          | some pre ↦ match_trailing pre hostname
          | none ↦ if bytes_eq hostname pattern then some exact else none
        ]
      ]
    ]

unfoldable pub match_server_name : Bytes → Bytes → Option ServerNameMatch
unfolding match_pattern normalize_host_for_match strip_suffix
match_server_name pattern host =
    match_pattern (to_ascii_lowercase (trim pattern)) (normalize_host_for_match host)

-- `Ord` on the priorities.
unfoldable pub cmp_priority : ℕ × ℕ → ℕ × ℕ → Ordering
cmp_priority (a, b) (c, d) = then_cmp (compare a c) (compare b d)

-- One step of `Iterator::max_by`, which keeps the later of two equal elements.
pub keep_max : Bytes × ServerNameMatch → Bytes × ServerNameMatch → Bytes × ServerNameMatch
unfolding cmp_priority
keep_max (p, m) (q, n) = elim (then_cmp (cmp_priority (priority m) (priority n)) (bytes_cmp q p)) [
  | Ordering.gt ↦ (p, m)
  | _ ↦ (q, n)
]

pub max_with : Option (Bytes × ServerNameMatch) → Bytes × ServerNameMatch → Bytes × ServerNameMatch
unfolding keep_max
max_with none c = c
max_with (some b) c = keep_max b c

-- The loop of `filter_map` and `max_by`, with the best match so far.
pub best_from :
    Bytes → Option (Bytes × ServerNameMatch) → List Bytes → Option (Bytes × ServerNameMatch)
unfolding max_with
best_from host best [] = best
best_from host best (p ∷ ps) =
    best_from host
      (elim (match_server_name p host) [
        | none ↦ best
        | some matched ↦ some (max_with best (p, matched))
      ])
      ps

unfoldable pub best_matching_server_name_pattern :
    List Bytes → Bytes → Option (Bytes × ServerNameMatch)
unfolding best_from
best_matching_server_name_pattern patterns host = best_from host none patterns

pub record VirtualHost : Type 0 where
  pub id : Bytes
  pub server_names : List Bytes
  pub routes : List Route

unfoldable pub best_server_name_match : VirtualHost → Bytes → Option ServerNameMatch
best_server_name_match vhost host =
    Option.map (λ m. m.1) (best_matching_server_name_pattern vhost.server_names host)

unfoldable pub matches_host : VirtualHost → Bytes → Bool
matches_host vhost host = is_empty vhost.server_names || is_some (best_server_name_match vhost host)
