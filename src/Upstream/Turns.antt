-- ===== src/Upstream/Turns.antt =====
-- Weighted round robin: which peer comes first, call after call.
use rginx.Prelude.{
  ℕ, zero, suc, ◌+◌, ◌%◌, ◌<◌, ◌≤◌, ◌≡◌, refl, sym, ap, ◌∙◌, ◌⊎◌, inl, inr, Bool, false, Option,
  some, List, [], ◌∷◌, ◌++◌, arith, filter, is_some_and, Bool-cases, Option-cases, length,
  get_elem?, min, ◌==◌, is_empty, ◌||◌,
}
use mathlib.Core.List.{head?}
use native.Mathlib.Nat.{mod-eq_of_lt, mod-lt}
use rginx.Upstream.{
  UpstreamPeer, Upstream, peers_for_pool, total_weight, peer_position_for_weighted_slot, is_seen,
  unseen, push_at, mark, done, go, weighted_round, weighted_loop, weighted_peers,
  next_peers_in_pool, word,
}
use rginx.Upstream.Slots.{
  owner_from, owner_from-some, peer_position-owner, count_range, count_range-ext,
  count_range-rotate, count_range-owned_by, owned_by,
}

module _ (pool : List UpstreamPeer) (total start count : ℕ) where
  push_at-cons :
      (p : ℕ) (x : UpstreamPeer) (rest : List UpstreamPeer)
      → (r : List UpstreamPeer) × (push_at pool p (x ∷ rest) ≡ x ∷ r)
  unfolding push_at
  push_at-cons p x rest = elim (Option-cases (get_elem? pool p)) [
    | inl e ↦ (rest, rw (e, push_at) refl)
    | inr (y, e) ↦ (rest ++ y ∷ [], rw (e, push_at) refl)
  ]

  -- A round keeps the first peer that is selected.
  round-head :
      (offset : ℕ) (seen : List Bool) (x : UpstreamPeer) (rest : List UpstreamPeer)
      → ((r : List UpstreamPeer) × (weighted_round pool total start count offset seen (x ∷ rest)
            ≡ done (x ∷ r)))
        ⊎ ((s : List Bool) × (r : List UpstreamPeer) × (weighted_round pool total start count offset
                seen
                (x ∷ rest)
              ≡ go s (x ∷ r)))
  unfolding weighted_round
  round-head offset seen x rest =
      elim (Option-cases (peer_position_for_weighted_slot pool ((start + offset) % total))) [
        | inl e ↦ inr (seen, rest, rw (e, weighted_round) refl)
        | inr (p, e) ↦ elim (Bool-cases (is_seen seen p)) [
          | inl s ↦ inr (seen, rest, ground arith)
          | inr s ↦
              let (r, k) = push_at-cons p x rest in
              elim (Bool-cases (length (x ∷ r) == count)) [
                | inl d ↦ inl (r, ground arith)
                | inr d ↦ inr (mark seen p, r, ground arith)
              ]
        ]
      ]

  weighted_loop-head :
      (rounds offset : ℕ) (seen : List Bool) (x : UpstreamPeer) (rest : List UpstreamPeer)
      → head? (weighted_loop pool total start count rounds offset seen (x ∷ rest)) ≡ some x
  unfolding weighted_loop
  weighted_loop-head zero offset seen x rest = refl
  weighted_loop-head (suc rounds) offset seen x rest = elim (round-head offset seen x rest) [
    | inl (r, e) ↦ rw (e, weighted_loop) refl
    | inr (s, r, e) ↦ rw (e, weighted_loop) (weighted_loop-head rounds (suc offset) s x r)
  ]

  unseen-false : (ps : List UpstreamPeer) (i : ℕ) → is_seen (unseen ps) i ≡ false
  unseen-false [] i = refl
  unseen-false (p ∷ ps) zero = refl
  unseen-false (p ∷ ps) (suc i) = unseen-false ps i

  -- The first round selects the owner of the first slot.
  round-first :
      (x : UpstreamPeer)
      → start < total
      → owner_from pool 0 start ≡ some x
      → (weighted_round pool total start count 0 (unseen pool) [] ≡ done (x ∷ []))
        ⊎ ((s : List Bool) × (weighted_round pool total start count 0 (unseen pool) []
              ≡ go s (x ∷ [])))
  unfolding weighted_round push_at
  round-first x h owned = elim (peer_position-owner pool start) [
    | inl (_, miss) ↦ absurd (cc)
    | inr (p, found, at, _) ↦
        let e : start + 0 ≡ start = omega arith in
        let slot : (start + 0) % total ≡ start = rw e (mod-eq_of_lt h) in
        let here : get_elem? pool p ≡ some x = at ∙ owned in
        let pushed : push_at pool p [] ≡ x ∷ [] = rw (here, push_at) refl in
        rw (slot, found, unseen-false pool p, pushed, weighted_round)
          (elim (Bool-cases (1 == count)) [
            | inl d ↦ inl (rw d refl)
            | inr d ↦ inr (mark (unseen pool) p, rw d refl)
          ])
  ]

  weighted_loop-first :
      (rounds : ℕ) (x : UpstreamPeer)
      → 0 < rounds
      → start < total
      → owner_from pool 0 start ≡ some x
      → head? (weighted_loop pool total start count rounds 0 (unseen pool) []) ≡ some x
  unfolding weighted_loop
  weighted_loop-first zero x pos h owned = absurd (omega arith)
  weighted_loop-first (suc rounds) x pos h owned = elim (round-first x h owned) [
    | inl e ↦ rw (e, weighted_loop) refl
    | inr (s, e) ↦ rw (e, weighted_loop) (weighted_loop-head rounds 1 s x [])
  ]

abbrev pub head_is : (UpstreamPeer → Bool) → List UpstreamPeer → Bool
head_is test peers = is_some_and (head? peers) test

-- The first peer is the owner of the slot at which the order starts.
weighted_peers-head :
    (pool : List UpstreamPeer) (start limit : ℕ)
    → start < total_weight pool
    → 0 < limit
    → head? (weighted_peers pool start limit) ≡ owner_from pool 0 start
unfolding weighted_peers
weighted_peers-head pool start limit h l =
    let (x, owned) = owner_from-some pool 0 start (omega arith) (omega arith) in
    let some_weight : (total_weight pool == 0) ≡ false = ground arith in
    rw (some_weight, weighted_peers)
      (weighted_loop-first pool (total_weight pool) start (min limit (length pool))
          (total_weight pool) x (omega arith) h owned
        ∙ sym owned)

-- The upstream after `k` calls.
pub after : ℕ → Upstream → ℕ → Bool → Upstream
after zero u limit backup = u
after (suc k) u limit backup = after k (next_peers_in_pool u limit backup).1 limit backup

total_weight-nonempty : (ps : List UpstreamPeer) → 0 < total_weight ps → is_empty ps ≡ false
total_weight-nonempty [] h = absurd (omega arith)
total_weight-nonempty (p ∷ ps) h = refl

module _ (u : Upstream) (limit : ℕ) (backup : Bool) (positive : 0 < limit) where
  abbrev pool : List UpstreamPeer
  pool = peers_for_pool u.peers backup

  -- A call at any cursor: the first peer, and the next cursor.
  call :
      (c : ℕ)
      → 0 < total_weight pool
      → (head? (next_peers_in_pool (record u { cursor = c }) limit backup).0
          ≡ owner_from pool 0 (c % total_weight pool))
        × ((next_peers_in_pool (record u { cursor = c }) limit backup).1
            ≡ record u { cursor = (c + 1) % word })
  unfolding next_peers_in_pool
  call c w =
      let filled : (is_empty pool || limit == 0) ≡ false =
        ground (arith, total_weight-nonempty pool) in
      let weighty : (total_weight pool == 0) ≡ false = ground arith in
      rw (filled, weighty)
        (weighted_peers-head pool (c % total_weight pool) limit (mod-lt c w) positive, refl)

  -- While the cursor does not wrap, the call number `k` starts at the cursor plus `k`.
  after-cursor :
      (k c : ℕ)
      → 0 < total_weight pool
      → c + k < word
      → after k (record u { cursor = c }) limit backup ≡ record u { cursor = c + k }
  unfolding after
  after-cursor zero c w h = let e : c + 0 ≡ c = omega arith in rw e refl
  after-cursor (suc k) c w h =
      let e : (c + 1) % word ≡ c + 1 = mod-eq_of_lt (omega arith) in
      let s : c + 1 + k ≡ c + suc k = omega arith in
      rw ((call c w).1, e)
        (after-cursor k (c + 1) w (omega arith) ∙ ap (λ x. record u { cursor = x }) s)

-- Weighted round robin is exact: as long as the cursor does not wrap, among as many calls in a row
-- as the total weight of the pool, those that put a peer passing `test` first are as many as the
-- weights of the pool's peers passing it add up to.
pub next_peers_in_pool-fair :
    (u : Upstream) (limit : ℕ) (backup : Bool) (test : UpstreamPeer → Bool)
    → 0 < limit
    → 0 < total_weight (peers_for_pool u.peers backup)
    → u.cursor + total_weight (peers_for_pool u.peers backup) ≤ word
    → count_range
        (λ k. head_is test (next_peers_in_pool (after k u limit backup) limit backup).0)
        0
        (total_weight (peers_for_pool u.peers backup))
      ≡ total_weight (filter test (peers_for_pool u.peers backup))
next_peers_in_pool-fair u limit backup test positive w h =
    count_range-ext (λ k. head_is test (next_peers_in_pool (after k u limit backup) limit backup).0)
      (λ k. owned_by test pool' 0 ((u.cursor + k) % total_weight pool')) 0 (total_weight pool')
      (λ k l b. rw (after-cursor u limit backup positive k u.cursor w (omega arith)) (
        ap (λ (o : Option UpstreamPeer). is_some_and o test)
          (call u limit backup positive (u.cursor + k) w).0))
    ∙ count_range-rotate (owned_by test pool' 0) u.cursor (total_weight pool') w
    ∙ count_range-owned_by test pool' 0
  where
    pool' : List UpstreamPeer
    pool' = peers_for_pool u.peers backup
