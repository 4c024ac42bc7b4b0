-- ===== src/Routing/Matcher/Paths.antt =====
-- What a prefix matcher accepts.
use rginx.Prelude.{
  ◌≡◌, refl, sym, ◌∙◌, ◌⊎◌, inl, inr, ◌↔◌, true, [], ◌++◌, append-nil, arith, Bytes, bytes_eq,
  bytes_eq_iff, bytes_eq_refl, strip_prefix, strip_prefix_iff, starts_with_iff, ends_with,
  Bool-cases, Option-cases,
}
use rginx.Routing.Matcher.{slash, prefix_matches}

-- A path at or below `pre`: after it there is nothing, or `pre` or the rest has the separating
-- slash.
abbrev pub IsBelow : Bytes → Bytes → Type 0
IsBelow pre path =
    (rest : Bytes) × (path ≡ pre ++ rest)
    × ((rest ≡ []) ⊎ ((ends_with slash pre ≡ true) ⊎ ((r : Bytes) × (rest ≡ slash ++ r))))

prefix_matches-IsBelow :
    (pre path : Bytes) → prefix_matches pre path ≡ true → (pre ≡ slash) ⊎ IsBelow pre path
unfolding prefix_matches
prefix_matches-IsBelow pre path h = elim (Bool-cases (bytes_eq pre slash)) [
  | inl e ↦ inl ((bytes_eq_iff pre slash).0 e)
  | inr n ↦ elim (Bool-cases (bytes_eq path pre)) [
    | inl e ↦ inr ([], (bytes_eq_iff path pre).0 e ∙ sym (append-nil pre), inl refl)
    | inr m ↦ elim (Option-cases (strip_prefix pre path)) [
      | inl e ↦ absurd (ground arith)
      | inr (rest, e) ↦ inr (
        rest,
        (strip_prefix_iff pre path rest).0 e,
        inr (elim (Bool-cases (ends_with slash pre)) [
          | inl k ↦ inl k
          | inr k ↦ inr ((starts_with_iff slash rest).0 (ground arith))
        ]),
      )
    ]
  ]
]

IsBelow-prefix_matches : (pre path : Bytes) → IsBelow pre path → prefix_matches pre path ≡ true
unfolding prefix_matches
IsBelow-prefix_matches pre path (rest, e, inl empty) =
    rw (e, empty, append-nil pre) (rw (bytes_eq_refl pre, prefix_matches) (ground arith))
IsBelow-prefix_matches pre path (rest, e, inr (inl k)) =
    ground (arith, (strip_prefix_iff pre path rest).1 e)
IsBelow-prefix_matches pre path (rest, e, inr (inr (r, k))) =
    ground (arith, (strip_prefix_iff pre path rest).1 e, (starts_with_iff slash rest).1 (r, k))

-- A prefix route takes every path if its prefix is "/", and otherwise exactly the prefix itself
-- and the paths below it: what follows the prefix is empty, or the prefix ends in a slash, or what
-- follows begins with one. So "/api" takes "/api" and "/api/x", and not "/apix".
pub prefix_matches_iff :
    (pre path : Bytes) → (prefix_matches pre path ≡ true) ↔ ((pre ≡ slash) ⊎ IsBelow pre path)
unfolding prefix_matches
prefix_matches_iff pre path = (
  prefix_matches-IsBelow pre path,
  λ h. elim h [
    | inl e ↦ rw (e, prefix_matches) (ground arith)
    | inr b ↦ IsBelow-prefix_matches pre path b
  ],
)
