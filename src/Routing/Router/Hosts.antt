-- ===== src/Routing/Router/Hosts.antt =====
-- The specification of the choice of a virtual host.
use rginx.Prelude.{
  ℕ, ◌≡◌, refl, sym, ◌∙◌, ◌⊎◌, inl, inr, Option, none, some, List, [], ◌∷◌, Memᴰ, arith, All,
  All-mem, Option-cases, Bytes,
}
use rginx.Routing.ServerName.{
  ServerNameMatch, VirtualHost, priority, cmp_priority, best_server_name_match,
}
use rginx.Routing.ServerName.Best.{AtMost}
use rginx.Routing.Router.{keep_better, select_from, or_default, select_vhost}

abbrev Selected : Type 0
Selected = Option ((ℕ × ℕ) × VirtualHost)

abbrev HoldsPriority : Selected → ℕ × ℕ → Type 0
HoldsPriority none n = ⊥
HoldsPriority (some (p, _)) n = AtMost n p

abbrev HeldHost : Bytes → Selected → VirtualHost → Type 0
HeldHost host out v =
    (best_server_name_match v host ≡ none)
    ⊎ ((n : ServerNameMatch) × (best_server_name_match v host ≡ some n)
        × HoldsPriority out (priority n))

-- A virtual host of the list, with the priority of its best server name.
abbrev IsCandidate : Bytes → List VirtualHost → (ℕ × ℕ) × VirtualHost → Type 0
IsCandidate host vhosts (p, v) =
    Memᴰ v vhosts
    × (m : ServerNameMatch) × (best_server_name_match v host ≡ some m)
    × (priority m ≡ p)

keep_better-HoldsPriority :
    (o : Selected) (p : ℕ × ℕ) (v : VirtualHost)
    → ((k : ℕ × ℕ) → HoldsPriority o k → HoldsPriority (keep_better o p v) k)
      × HoldsPriority (keep_better o p v) p
      × ((keep_better o p v ≡ o) ⊎ (keep_better o p v ≡ some (p, v)))
unfolding keep_better cmp_priority
keep_better-HoldsPriority none p v = ((λ k h. elim h [ ]), omega arith, inr refl)
keep_better-HoldsPriority (some (c, w)) p v = ((λ k h. ground arith), ground arith, ground arith)

module _ (host : Bytes) where
  select_from-HeldHost :
      (vhosts : List VirtualHost) (o out : Selected)
      → select_from host vhosts o ≡ out
      → ((k : ℕ × ℕ) → HoldsPriority o k → HoldsPriority out k)
        × All (HeldHost host out) vhosts
        × ((o ≡ out) ⊎ ((c : (ℕ × ℕ) × VirtualHost) × (out ≡ some c) × IsCandidate host vhosts c))
  unfolding select_from
  select_from-HeldHost [] o out h = ((λ k x. rw (← h) x), tt, inl h)
  select_from-HeldHost (v ∷ vs) o out h = elim (Option-cases (best_server_name_match v host)) [
    | inl e ↦
        let (keeps, all, origin) = select_from-HeldHost vs o out (rw (e, select_from) at h) in
        (
          keeps,
          (inl e, all),
          (elim origin [
            | inl s ↦ inl s
            | inr (c, s, (m, k, e, t)) ↦ inr (c, s, (Memᴰ.tail m, k, e, t))
          ]),
        )
    | inr (n, e) ↦
        let (old, new, either) = keep_better-HoldsPriority o (priority n) v in
        let (keeps, all, origin) =
          select_from-HeldHost vs (keep_better o (priority n) v) out (rw (e, select_from) at h) in
        (
          (λ k x. keeps k (old k x)),
          (inr (n, e, keeps (priority n) new), all),
          (elim origin [
            | inl s ↦ elim either [
              | inl b ↦ inl (sym b ∙ s)
              | inr b ↦ inr ((priority n, v), (sym s ∙ b), (Memᴰ.head refl, n, e, refl))
            ]
            | inr (c, s, (m, k, e, t)) ↦ inr (c, s, (Memᴰ.tail m, k, e, t))
          ]),
        )
  ]

candidate_of :
    (host : Bytes) (vhosts : List VirtualHost) (p : ℕ × ℕ) (v : VirtualHost)
    → (◌≡◌ {A = Selected} none (some (p, v)))
      ⊎ ((c : (ℕ × ℕ) × VirtualHost) × (some (p, v) ≡ some c) × IsCandidate host vhosts c)
    → Memᴰ v vhosts
      × (m : ServerNameMatch) × (best_server_name_match v host ≡ some m)
      × (priority m ≡ p)
candidate_of host vhosts p v (inl o) = absurd (ground arith)
candidate_of host vhosts p v (inr (c, o, (mem, m, matched, same))) =
    let s : c ≡ (p, v) = cc in (rw s at mem, m, rw s at matched, rw s at same)

at_most :
    (host : Bytes) (q : VirtualHost) (p : ℕ × ℕ) (v : VirtualHost) (n : ServerNameMatch)
    → best_server_name_match q host ≡ some n
    → HeldHost host (some (p, v)) q
    → AtMost (priority n) p
at_most host q p v n e (inl miss) = absurd (cc)
at_most host q p v n e (inr (k, s, a)) = let same : k ≡ n = cc in rw same at a

-- If the server names of a virtual host `q` of the list match the host, then the chosen virtual
-- host is in the list, its server names match, and its best match has at least the priority of
-- the best match of `q`.
pub select_vhost-max :
    (vhosts : List VirtualHost) (default q : VirtualHost) (host : Bytes) (n : ServerNameMatch)
    → Memᴰ q vhosts
    → best_server_name_match q host ≡ some n
    → (m : ServerNameMatch) × Memᴰ (select_vhost vhosts default host) vhosts
      × (best_server_name_match (select_vhost vhosts default host) host ≡ some m)
      × AtMost (priority n) (priority m)
unfolding select_vhost
select_vhost-max vhosts default q host n k e = go (select_from host vhosts none) refl
  where
    go :
        (out : Selected)
        → select_from host vhosts none ≡ out
        → (m : ServerNameMatch) × Memᴰ (select_vhost vhosts default host) vhosts
          × (best_server_name_match (select_vhost vhosts default host) host ≡ some m)
          × AtMost (priority n) (priority m)
    go none h =
        let (_, all, _) = select_from-HeldHost host vhosts none none h in
        elim (All-mem (HeldHost host none) k all) [
          | inl miss ↦ absurd (cc)
          | inr (_, _, a) ↦ elim a [ ]
        ]
    go (some (p, v)) h =
        let (_, all, origin) = select_from-HeldHost host vhosts none (some (p, v)) h in
        let (mem, m, matched, same) = candidate_of host vhosts p v origin in
        rw (h, select_vhost, or_default)
          (
            m,
            mem,
            matched,
            rw same (at_most host q p v n e (All-mem (HeldHost host (some (p, v))) k all)),
          )

-- If no virtual host of the list matches the host, the default one is chosen.
pub select_vhost-default :
    (vhosts : List VirtualHost) (default : VirtualHost) (host : Bytes)
    → All (λ v. best_server_name_match v host ≡ none) vhosts
    → select_vhost vhosts default host ≡ default
unfolding select_vhost
select_vhost-default vhosts default host a = elim (Option-cases (select_from host vhosts none)) [
  | inl e ↦ rw (e, select_vhost, or_default) refl
  | inr ((p, v), e) ↦
      let (_, _, origin) = select_from-HeldHost host vhosts none (some (p, v)) e in
      let (mem, m, matched, _) = candidate_of host vhosts p v origin in
      let miss : best_server_name_match v host ≡ none =
        All-mem (λ v. best_server_name_match v host ≡ none) mem a in
      absurd (cc)
]
