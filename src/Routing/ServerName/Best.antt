-- ===== src/Routing/ServerName/Best.antt =====
-- The best of several server names for a host.
use rginx.Prelude.{
  ℕ, ◌<◌, ◌≤◌, ◌≡◌, refl, sym, ap, ◌∙◌, ◌⊎◌, inl, inr, ◌↔◌, Option, none, some, List, [], ◌∷◌, Memᴰ,
  arith, All, All-mem, All-of-mem, Option-cases, Bytes,
}
use rginx.Routing.ServerName.{
  ServerNameMatch, priority, match_server_name, keep_max, max_with, best_from,
  best_matching_server_name_pattern,
}

-- The order of the priorities: the kind of the pattern first, then its length.
abbrev pub AtMost : ℕ × ℕ → ℕ × ℕ → Type 0
AtMost p q = (p.0 < q.0) ⊎ ((p.0 ≡ q.0) × (p.1 ≤ q.1))

pub AtMost-trans : (p q r : ℕ × ℕ) → AtMost p q → AtMost q r → AtMost p r
AtMost-trans p q r h k = omega arith

abbrev Holds : Option (Bytes × ServerNameMatch) → ServerNameMatch → Type 0
Holds none n = ⊥
Holds (some (p, m)) n = AtMost (priority n) (priority m)

keep_max-AtMost :
    (p q : Bytes) (m n : ServerNameMatch)
    → AtMost (priority m) (priority (keep_max (p, m) (q, n)).1)
      × AtMost (priority n) (priority (keep_max (p, m) (q, n)).1)
      × ((keep_max (p, m) (q, n) ≡ (p, m)) ⊎ (keep_max (p, m) (q, n) ≡ (q, n)))
unfolding keep_max
keep_max-AtMost p q m n = ground arith

-- A pattern of the list and its match.
abbrev pub IsFound : Bytes → List Bytes → Bytes × ServerNameMatch → Type 0
IsFound host patterns (p, m) = Memᴰ p patterns × (match_server_name p host ≡ some m)

-- A pattern that does not match, or whose match is at most the best one.
abbrev Held : Bytes → Option (Bytes × ServerNameMatch) → Bytes → Type 0
Held host out p =
    (match_server_name p host ≡ none)
    ⊎ ((n : ServerNameMatch) × (match_server_name p host ≡ some n) × Holds out n)

module _ (host : Bytes) where
  max_with-Holds :
      (best : Option (Bytes × ServerNameMatch)) (q : Bytes) (n : ServerNameMatch)
      → ((k : ServerNameMatch) → Holds best k → Holds (some (max_with best (q, n))) k)
        × Holds (some (max_with best (q, n))) n
        × ((best ≡ some (max_with best (q, n))) ⊎ (max_with best (q, n) ≡ (q, n)))
  unfolding max_with
  max_with-Holds none q n = ((λ k h. elim h [ ]), omega arith, inr refl)
  max_with-Holds (some (p, m)) q n =
      let (old, new, either) = keep_max-AtMost p q m n in
      (
        (λ k h. AtMost-trans (priority k) (priority m) (priority (keep_max (p, m) (q, n)).1) h old),
        new,
        ground arith,
      )

  best_from-Holds :
      (best out : Option (Bytes × ServerNameMatch)) (ps : List Bytes)
      → best_from host best ps ≡ out
      → ((k : ServerNameMatch) → Holds best k → Holds out k)
        × All (Held host out) ps
        × ((best ≡ out) ⊎ ((c : Bytes × ServerNameMatch) × (out ≡ some c) × IsFound host ps c))
  unfolding best_from
  best_from-Holds best out [] h = ((λ k x. rw (← h) x), tt, inl h)
  best_from-Holds best out (p ∷ ps) h = elim (Option-cases (match_server_name p host)) [
    | inl e ↦
        let (keeps, all, origin) = best_from-Holds best out ps (rw (e, best_from) at h) in
        (
          keeps,
          (inl e, all),
          (elim origin [ inl o ↦ inl o | inr (c, o, (m, k)) ↦ inr (c, o, (Memᴰ.tail m, k)) ]),
        )
    | inr (n, e) ↦
        let (old, new, either) = max_with-Holds best p n in
        let (keeps, all, origin) =
          best_from-Holds (some (max_with best (p, n))) out ps (rw (e, best_from) at h) in
        (
          (λ k x. keeps k (old k x)),
          (inr (n, e, keeps n new), all),
          (elim origin [
            | inl o ↦ elim either [
              | inl b ↦ inl (b ∙ o)
              | inr s ↦ inr ((p, n), (sym o ∙ ap some s), (Memᴰ.head refl, e))
            ]
            | inr (c, o, (m, k)) ↦ inr (c, o, (Memᴰ.tail m, k))
          ]),
        )
  ]

-- The pattern that is returned is one of the list, it matches the host as stated, and no pattern
-- of the list that matches has a higher priority.
pub best_matching_server_name_pattern-max :
    (patterns : List Bytes) (host p q : Bytes) (m n : ServerNameMatch)
    → best_matching_server_name_pattern patterns host ≡ some (p, m)
    → Memᴰ q patterns
    → match_server_name q host ≡ some n
    → Memᴰ p patterns × (match_server_name p host ≡ some m) × AtMost (priority n) (priority m)
unfolding best_matching_server_name_pattern
best_matching_server_name_pattern-max patterns host p q m n h k e =
    let (_, all, origin) = best_from-Holds host none (some (p, m)) patterns h in
    let (found, matched) = from_list origin in
    (found, matched, held (All-mem (Held host (some (p, m))) k all))
  where
    from_list :
        (◌≡◌ {A = Option (Bytes × ServerNameMatch)} none (some (p, m)))
          ⊎ ((c : Bytes × ServerNameMatch) × (some (p, m) ≡ some c) × IsFound host patterns c)
        → IsFound host patterns (p, m)
    from_list (inl o) = absurd (ground arith)
    from_list (inr (c, o, f)) = let same : c ≡ (p, m) = cc in rw same at f

    held : Held host (some (p, m)) q → AtMost (priority n) (priority m)
    held (inl miss) = absurd (cc)
    held (inr (k, s, a)) = let same : k ≡ n = cc in rw same at a

-- No pattern is returned exactly when none of the list matches.
pub best_matching_server_name_pattern-none_iff :
    (patterns : List Bytes) (host : Bytes)
    → (best_matching_server_name_pattern patterns host ≡ none)
      ↔ All (λ p. match_server_name p host ≡ none) patterns
unfolding best_matching_server_name_pattern
best_matching_server_name_pattern-none_iff patterns host = (
  λ h.
      let (_, all, _) = best_from-Holds host none none patterns h in
      All-of-mem (λ p. match_server_name p host ≡ none) patterns
        (λ q m. unheld q (All-mem (Held host none) m all)),
  λ a. elim (Option-cases (best_from host none patterns)) [
    | inl e ↦ e
    | inr (c, e) ↦
        let (_, _, origin) = best_from-Holds host none (some c) patterns e in
        absurd (unfound c a origin)
  ],
)
  where
    unheld : (q : Bytes) → Held host none q → match_server_name q host ≡ none
    unheld q (inl e) = e
    unheld q (inr (k, s, a)) = absurd a

    unfound :
        (c : Bytes × ServerNameMatch)
        → All (λ p. match_server_name p host ≡ none) patterns
        → (◌≡◌ {A = Option (Bytes × ServerNameMatch)} none (some c))
          ⊎ ((d : Bytes × ServerNameMatch) × (some c ≡ some d) × IsFound host patterns d)
        → ⊥
    unfound c a (inl o) = ground arith
    unfound c a (inr (d, o, (m, k))) =
        let no : match_server_name d.0 host ≡ none =
          All-mem (λ p. match_server_name p host ≡ none) m a in
        ground arith
