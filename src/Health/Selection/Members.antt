-- ===== src/Health/Selection/Members.antt =====
-- What is picked from the batches.
use rginx.Prelude.{
  ℕ, zero, suc, ◌+◌, ◌<◌, ◌≤◌, inl, inr, List, [], ◌∷◌, ◌++◌, length, length-append, get_elem?,
  Option-cases, Bool-cases, arith, ◌==◌, ltb, ltb→lt,
}
use rginx.Health.Selection.{ResolvedUpstreamPeer, pick_round, pick_loop}

pick_round-length :
    (batches : List (List ResolvedUpstreamPeer)) (limit depth : ℕ)
    (selected : List ResolvedUpstreamPeer)
    → length selected < limit
    → length (pick_round batches limit depth selected).0 ≤ limit
unfolding pick_round
pick_round-length [] limit depth selected h = omega (arith, h)
pick_round-length (b ∷ bs) limit depth selected h = elim (Option-cases (get_elem? b depth)) [
  | inl e ↦ rw (e, pick_round) (pick_round-length bs limit depth selected h)
  | inr (x, e) ↦ elim (Bool-cases (length selected + 1 == limit)) [
    | inl full ↦ rw (e, full, pick_round) (omega (arith, length-append selected (x ∷ []), h))
    | inr room ↦
        rw (e, room, pick_round)
          (pick_round-length bs limit depth (selected ++ x ∷ [])
            (ground (arith, length-append selected (x ∷ []), h, room)))
  ]
]

pub pick_loop-length :
    (fuel : ℕ) (batches : List (List ResolvedUpstreamPeer)) (limit depth : ℕ)
    (selected : List ResolvedUpstreamPeer)
    → length selected ≤ limit
    → length (pick_loop fuel batches limit depth selected) ≤ limit
unfolding pick_loop
pick_loop-length zero batches limit depth selected h = h
pick_loop-length (suc fuel) batches limit depth selected h =
    elim (Bool-cases (ltb (length selected) limit)) [
      | inr full ↦ rw (full, pick_loop) h
      | inl room ↦
          let r =
            pick_round-length batches limit depth selected (ltb→lt (length selected) limit room) in
          elim (Bool-cases (pick_round batches limit depth selected).1) [
            | inr stop ↦ rw (room, stop, pick_loop) r
            | inl go ↦
                rw (room, go, pick_loop) (pick_loop-length fuel batches limit (depth + 1) _ r)
          ]
    ]
