-- ===== src/Health/Selection/Complete.antt =====
-- Every endpoint that can be selected is counted: the rounds over the batches miss none.
use rginx.Prelude.{
  ℕ, zero, suc, ◌+◌, ◌-◌, ◌<◌, ◌≤◌, min, Ordering, ◌≡◌, refl, ◌∙◌, ap, inl, inr, Bool, true, false,
  none, some, List, [], ◌∷◌, ◌++◌, length, length-append, get_elem?, is_empty, Option-cases,
  Bool-cases, arith, ◌==◌, ltb, ltb→lt, if◌then◌else◌, Bytes,
}
use rginx.Upstream.{Upstream, UpstreamPeer}
use rginx.Health.Registry.{PeerHealthRegistry, active_requests, ensure_endpoint}
use rginx.Health.Selection.{
  ResolvedUpstreamPeer, pick_round, pick_loop, sort_by, insert_by, sift, order_endpoints,
  batches_of, ensure_all, endpoint_is_selectable, select_available_peers,
}

abbrev Batches : Type 0
Batches = List (List ResolvedUpstreamPeer)

-- How many batches are deeper than `depth`, and how many endpoints stand at or below it.
abbrev gain : Batches → ℕ → ℕ
gain [] depth = 0
gain (b ∷ bs) depth = (if ltb depth (length b) then 1 else 0) + gain bs depth

abbrev total : Batches → ℕ → ℕ
total [] depth = 0
total (b ∷ bs) depth = (length b - depth) + total bs depth

get_elem?-none : (b : List ResolvedUpstreamPeer) (i : ℕ) → get_elem? b i ≡ none → length b ≤ i
get_elem?-none [] i h = omega arith
get_elem?-none (x ∷ xs) zero h = absurd (cc)
get_elem?-none (x ∷ xs) (suc i) h = omega (arith, get_elem?-none xs i h)

get_elem?-some :
    (b : List ResolvedUpstreamPeer) (i : ℕ) (x : ResolvedUpstreamPeer)
    → get_elem? b i ≡ some x
    → i < length b
get_elem?-some [] i x h = absurd (cc)
get_elem?-some (y ∷ xs) zero x h = omega arith
get_elem?-some (y ∷ xs) (suc i) x h = omega (arith, get_elem?-some xs i x h)

total-gain : (bs : Batches) (depth : ℕ) → total bs depth ≡ gain bs depth + total bs (depth + 1)
total-gain [] depth = omega arith
total-gain (b ∷ bs) depth = ground (arith, total-gain bs depth)

total_of_gain : (bs : Batches) (depth : ℕ) → gain bs depth ≡ 0 → total bs depth ≡ 0
total_of_gain [] depth h = refl
total_of_gain (b ∷ bs) depth h = ground (arith, total_of_gain bs depth (ground arith))

pick_round-gain :
    (bs : Batches) (limit depth : ℕ) (selected : List ResolvedUpstreamPeer)
    → length selected < limit
    → (length (pick_round bs limit depth selected).0 ≡ min limit (length selected + gain bs depth))
      × ((pick_round bs limit depth selected).1 ≡ ltb 0 (gain bs depth))
unfolding pick_round
pick_round-gain [] limit depth selected h = (omega (arith, h), ground arith)
pick_round-gain (b ∷ bs) limit depth selected h = elim (Option-cases (get_elem? b depth)) [
  | inl e ↦
      let (l, adv) = pick_round-gain bs limit depth selected h in
      let shallow : ltb depth (length b) ≡ false = ground (arith, get_elem?-none b depth e) in
      rw (e, shallow, pick_round) (omega (arith, l), adv ∙ ap (ltb 0) (omega arith))
  | inr (x, e) ↦
      let deep : ltb depth (length b) ≡ true = ground (arith, get_elem?-some b depth x e) in
      elim (Bool-cases (length selected + 1 == limit)) [
        | inl full ↦
            rw (e, full, deep, pick_round)
              (ground (arith, length-append selected (x ∷ []), full), ground arith)
        | inr room ↦
            let (l, adv) =
              pick_round-gain bs limit depth (selected ++ x ∷ [])
                (ground (arith, length-append selected (x ∷ []), h, room)) in
            rw (e, room, deep, pick_round)
              (omega (arith, l, length-append selected (x ∷ [])), ground arith)
      ]
]

-- With one round more than there is room for, the loop takes all endpoints, up to the limit.
pick_loop-total :
    (fuel : ℕ) (bs : Batches) (limit depth : ℕ) (selected : List ResolvedUpstreamPeer)
    → length selected ≤ limit
    → limit - length selected < fuel
    → length (pick_loop fuel bs limit depth selected) ≡ min limit (length selected + total bs depth)
unfolding pick_loop
pick_loop-total zero bs limit depth selected h f = absurd (omega (arith, f))
pick_loop-total (suc fuel) bs limit depth selected h f =
    elim (Bool-cases (ltb (length selected) limit)) [
      | inr full ↦ rw (full, pick_loop) (ground (arith, full, h))
      | inl room ↦
          let (l, adv) = pick_round-gain bs limit depth selected (ground arith) in
          let picked = (pick_round bs limit depth selected).0 in
          elim (Bool-cases (ltb 0 (gain bs depth))) [
            | inr stop ↦
                rw (room, adv ∙ stop, pick_loop)
                  (omega (arith, l, total_of_gain bs depth (ground arith), total-gain bs depth))
            | inl go ↦
                rw (room, adv ∙ go, pick_loop)
                  (omega (
                    arith,
                    l,
                    total-gain bs depth,
                    pick_loop-total fuel bs limit (depth + 1) picked (omega (arith, l)) (
                        omega (
                          arith,
                          l,
                          f,
                          ltb→lt 0 (gain bs depth) go,
                          ltb→lt (length selected) limit room,
                        )),
                  ))
          ]
    ]

length-insert_by :
    {A : Type 0} (cmp : A → A → Ordering) (x : A) (xs : List A)
    → length (insert_by cmp x xs) ≡ suc (length xs)
length-insert_by cmp x [] = refl
length-insert_by cmp x (y ∷ ys) = ground (arith, length-insert_by cmp x ys)

length-sort_by :
    {A : Type 0} (cmp : A → A → Ordering) (xs : List A) → length (sort_by cmp xs) ≡ length xs
length-sort_by cmp [] = refl
length-sort_by cmp (x ∷ xs) =
    length-insert_by cmp x (sort_by cmp xs) ∙ ap suc (length-sort_by cmp xs)

keep-length :
    (b : Bool) (e : ResolvedUpstreamPeer)
    (rest : PeerHealthRegistry × List ResolvedUpstreamPeer × ℕ)
    → let out : PeerHealthRegistry × List ResolvedUpstreamPeer × ℕ =
        (if b then (rest.0, e ∷ rest.1, rest.2) else (rest.0, rest.1, suc rest.2)) in
      length out.1 + out.2 ≡ suc (length rest.1 + rest.2)
keep-length true e rest = omega arith
keep-length false e rest = omega arith

batch-total :
    (a : List ResolvedUpstreamPeer) (bs : Batches)
    → total (if is_empty a then bs else a ∷ bs) 0 ≡ length a + total bs 0
batch-total [] bs = omega arith
batch-total (x ∷ xs) bs = omega arith

sift-length :
    (now : ℕ) (name : Bytes) (r : PeerHealthRegistry) (es : List ResolvedUpstreamPeer)
    → length (sift now name r es).1 + (sift now name r es).2 ≡ length es
unfolding sift
sift-length now name r [] = omega arith
sift-length now name r (e ∷ es) =
    let r' = (ensure_endpoint r name e.endpoint_key e.logical_peer_url).0 in
    keep-length (endpoint_is_selectable r' name now e (active_requests r' name e.logical_peer_url))
      e (sift now name r' es)
    ∙ ap suc (sift-length now name r' es)

order_endpoints-length :
    (r : PeerHealthRegistry) (name : Bytes) (es : List ResolvedUpstreamPeer)
    → length (order_endpoints r name es) ≡ length es
unfolding order_endpoints
order_endpoints-length r name es = length-sort_by _ es

-- The endpoints that the resolver has for some peers.
abbrev pub resolved : (UpstreamPeer → List ResolvedUpstreamPeer) → List UpstreamPeer → ℕ
resolved resolve [] = 0
resolved resolve (p ∷ ps) = length (resolve p) + resolved resolve ps

module _ (resolve : UpstreamPeer → List ResolvedUpstreamPeer) (now : ℕ) where
  batches_of-total :
      (name : Bytes) (r : PeerHealthRegistry) (ps : List UpstreamPeer)
      → total (batches_of resolve now name r ps).1 0 + (batches_of resolve now name r ps).2
        ≡ resolved resolve ps
  unfolding batches_of
  batches_of-total name r [] = omega arith
  batches_of-total name r (p ∷ ps) =
      let ensured = ensure_all r name (resolve p) in
      let es = order_endpoints ensured name (resolve p) in
      let (r', available, skipped) = sift now name ensured es in
      omega (
        arith,
        batch-total available (batches_of resolve now name r' ps).1,
        batches_of-total name r' ps,
        sift-length now name ensured es,
        order_endpoints-length ensured name (resolve p),
      )

  -- If any endpoints are asked for, then of those that the resolver has for the ordered peers each is
  -- either counted as skipped or can be chosen: as many are chosen as are left, up to the limit.
  pub select_available_peers_complete :
      (r : PeerHealthRegistry) (u : Upstream) (ordered : List UpstreamPeer) (limit : ℕ)
      → 0 < limit
      → length (select_available_peers resolve now r u ordered limit).1.peers
        ≡ min limit (
            resolved resolve ordered
            - (select_available_peers resolve now r u ordered limit).1.skipped_unhealthy)
  unfolding select_available_peers
  select_available_peers_complete r u ordered limit positive =
      let some_asked : (limit == 0) ≡ false = ground arith in
      rw (some_asked, select_available_peers)
        (omega (
          arith,
          batches_of-total u.name r ordered,
          pick_loop-total (limit + 1) (batches_of resolve now u.name r ordered).1 limit 0 []
              (omega arith) (omega arith),
        ))
