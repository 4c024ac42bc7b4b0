-- ===== src/Upstream/Rounds.antt =====
-- The loop over the offsets, run to its end.
use rginx.Prelude.{
  ℕ, zero, suc, ◌+◌, ◌-◌, ◌%◌, ◌<◌, ◌≤◌, ◌≡◌, sym, ap, ◌∙◌, inl, inr, Bool, false, some, List, [],
  ◌∷◌, Memᴰ, arith, length, length-append, get_elem?, ◌==◌, ltb, min, Bool-cases,
}
use native.Mathlib.Nat.{mod-eq_of_lt, add-mod_right}
use rginx.Upstream.{UpstreamPeer, total_weight, unseen, weighted_loop, weighted_peers}
use rginx.Upstream.Slots.{owner_from, owned_slot}
use rginx.Upstream.Loop.{
  Inv, Inv-unseen, all_seen, mem-push, mem-last, skips, pushes, round-RoundCase,
}

module _ (pool : List UpstreamPeer) (total start count : ℕ) where
  -- What is selected stays selected.
  loop-keeps :
      (rounds offset : ℕ) (seen : List Bool) (selected : List UpstreamPeer) (x : UpstreamPeer)
      → Inv pool seen selected
      → Memᴰ x selected
      → Memᴰ x (weighted_loop pool total start count rounds offset seen selected)
  unfolding weighted_loop
  loop-keeps zero offset seen selected x v m = m
  loop-keeps (suc rounds) offset seen selected x v m =
      elim (round-RoundCase pool total start count offset seen selected v) [
        | skips e _ ↦ rw (e, weighted_loop) (loop-keeps rounds (suc offset) seen selected x v m)
        | pushes y next _ v' step ↦ elim step [
          | inl (e, _) ↦ rw (e, weighted_loop) (mem-push y m)
          | inr (e, _) ↦
              rw (e, weighted_loop) (loop-keeps rounds (suc offset) next _ x v' (mem-push y m))
        ]
      ]

  mem-position :
      {x : UpstreamPeer} {xs : List UpstreamPeer}
      → Memᴰ x xs
      → (p : ℕ) × (p < length xs) × (get_elem? xs p ≡ some x)
  mem-position (Memᴰ.head e) = (0, omega arith, ap some (sym e))
  mem-position (Memᴰ.tail m) = let (p, l, e) = mem-position m in (suc p, omega arith, e)

  -- Once as many are selected as the pool has, every peer of the pool is.
  full :
      (seen : List Bool) (selected : List UpstreamPeer) (x : UpstreamPeer)
      → Inv pool seen selected
      → length selected ≡ length pool
      → Memᴰ x pool
      → Memᴰ x selected
  full seen selected x v h m =
      let (p, l, e) = mem-position m in
      v.kept p x (all_seen seen p (omega (arith, v.counted, v.sized)) (omega (arith, v.sized))) e

  loop-Owner :
      (rounds offset o : ℕ) (seen : List Bool) (selected : List UpstreamPeer) (x : UpstreamPeer)
      → Inv pool seen selected
      → count ≡ length pool
      → Memᴰ x pool
      → offset ≤ o
      → o < offset + rounds
      → owner_from pool 0 ((start + o) % total) ≡ some x
      → Memᴰ x (weighted_loop pool total start count rounds offset seen selected)
  unfolding weighted_loop
  loop-Owner zero offset o seen selected x v c m l u owned = absurd (omega arith)
  loop-Owner (suc rounds) offset o seen selected x v c m l u owned =
      elim (round-RoundCase pool total start count offset seen selected v) [
        | skips e has ↦
            rw (e, weighted_loop)
              (elim (Bool-cases (ltb offset o)) [
                | inl later ↦
                    loop-Owner rounds (suc offset) o seen selected x v c m (ground arith)
                      (omega arith) owned
                | inr now ↦
                    let same : offset ≡ o = ground arith in
                    loop-keeps rounds (suc offset) seen selected x v (has x (rw same owned))
              ])
        | pushes y next here v' step ↦ elim step [
          | inl (e, d) ↦ rw (e, weighted_loop) (full next _ x v' (d ∙ c) m)
          | inr (e, d) ↦
              rw (e, weighted_loop)
                (elim (Bool-cases (ltb offset o)) [
                  | inl later ↦
                      loop-Owner rounds (suc offset) o next _ x v' c m (ground arith) (omega arith)
                        owned
                  | inr now ↦
                      let same : offset ≡ o = ground arith in
                      let both : some y ≡ some x = sym here ∙ rw same owned in
                      let found : y ≡ x = cc in
                      loop-keeps rounds (suc offset) next _ x v'
                        (rw (← found) (mem-last selected y))
                ])
        ]
      ]

  loop-length :
      (rounds offset : ℕ) (seen : List Bool) (selected : List UpstreamPeer)
      → Inv pool seen selected
      → length selected < count
      → length (weighted_loop pool total start count rounds offset seen selected) ≤ count
  unfolding weighted_loop
  loop-length zero offset seen selected v h = omega arith
  loop-length (suc rounds) offset seen selected v h =
      elim (round-RoundCase pool total start count offset seen selected v) [
        | skips e _ ↦ rw (e, weighted_loop) (loop-length rounds (suc offset) seen selected v h)
        | pushes y next _ v' step ↦ elim step [
          | inl (e, d) ↦ rw (e, weighted_loop) (omega arith)
          | inr (e, d) ↦
              rw (e, weighted_loop)
                (loop-length rounds (suc offset) next _ v'
                  (omega (arith, length-append selected (y ∷ []))))
        ]
      ]

-- The round in which a slot comes up.
round_of :
    (start total s : ℕ)
    → start < total
    → s < total
    → (o : ℕ) × (o < total) × ((start + o) % total ≡ s)
round_of start total s h l = elim (Bool-cases (ltb s start)) [
  | inr behind ↦
      let e : start + (s - start) ≡ s = ground arith in
      (s - start, omega arith, rw e (mod-eq_of_lt l))
  | inl before ↦
      let e : start + (s + total - start) ≡ s + total = ground arith in
      (s + total - start, ground arith, rw e (add-mod_right s total ∙ mod-eq_of_lt l))
]

pub weighted_peers-complete :
    (pool : List UpstreamPeer) (start limit : ℕ) (x : UpstreamPeer)
    → start < total_weight pool
    → length pool ≤ limit
    → Memᴰ x pool
    → 0 < x.weight
    → Memᴰ x (weighted_peers pool start limit)
unfolding weighted_peers
weighted_peers-complete pool start limit x h l m w =
    let weighty : (total_weight pool == 0) ≡ false = ground arith in
    let (s, _, below, owned) = owned_slot pool 0 m w in
    let (o, in_range, at) = round_of start (total_weight pool) s h (omega arith) in
    rw (weighty, weighted_peers)
      (loop-Owner pool (total_weight pool) start (min limit (length pool)) (total_weight pool) 0 o
        (unseen pool) [] x (Inv-unseen pool) (omega arith) m (omega arith) (omega arith)
        (rw at owned))

pub weighted_peers-length :
    (pool : List UpstreamPeer) (start limit : ℕ)
    → 0 < limit
    → length (weighted_peers pool start limit) ≤ min limit (length pool)
unfolding weighted_peers
weighted_peers-length [] start limit l = omega arith
weighted_peers-length (p ∷ ps) start limit l = elim (Bool-cases (total_weight (p ∷ ps) == 0)) [
  | inl e ↦ rw (e, weighted_peers) (omega arith)
  | inr e ↦
      rw (e, weighted_peers)
        (loop-length (p ∷ ps) (total_weight (p ∷ ps)) start (min limit (length (p ∷ ps)))
          (total_weight (p ∷ ps)) 0 (unseen (p ∷ ps)) [] (Inv-unseen (p ∷ ps)) (omega arith))
]
