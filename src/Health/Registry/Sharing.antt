-- ===== src/Health/Registry/Sharing.antt =====
-- The endpoints of a peer share its cell.
use rginx.Prelude.{
  ℕ, ◌<◌, ◌≡◌, refl, ◌∙◌, ap, inl, inr, false, none, some, [], length, get_elem?, unwrap_or, or,
  Bytes, Map, get, insert, get-insert, get-insert_other, Option-cases, Bool-cases, bytes_eq,
  bytes_eq_comm,
}
use rginx.Health.State
use rginx.Health.Registry.Guards.{get_elem?-set_elem}
use rginx.Health.State.{PeerHealthPolicy, PeerHealthState, health_default}
use rginx.Health.Registry.{
  PeerHealthRegistry, lock, store, lookup, get_health, get_endpoint, get_logical_peer,
  notify_change, ensure_endpoint, record_failure, is_available,
}

-- Looking up an endpoint that was just put in.
lookup-insert :
    (m : Map (Map ℕ)) (name key : Bytes) (a : ℕ)
    → lookup (insert m name (insert (unwrap_or (get m name) []) key a)) name key ≡ some a
lookup-insert m name key a =
    rw (get-insert m name (insert (unwrap_or (get m name) []) key a), lookup)
      (get-insert (unwrap_or (get m name) []) key a)

lookup-insert_other :
    (m : Map (Map ℕ)) (name key other : Bytes) (a : ℕ)
    → bytes_eq key other ≡ false
    → lookup (insert m name (insert (unwrap_or (get m name) []) key a)) name other
      ≡ lookup m name other
lookup-insert_other m name key other a h =
    rw (get-insert m name (insert (unwrap_or (get m name) []) key a), lookup)
      (get-insert_other (unwrap_or (get m name) []) key other a h
        ∙ elim (Option-cases (get m name)) [
          | inl e ↦ rw (e, lookup) refl
          | inr (x, e) ↦ rw (e, lookup) refl
        ])

module _ (r : PeerHealthRegistry) (name : Bytes) where
  -- A new endpoint of a known peer gets the peer's cell, and no cell is made or changed.
  ensure_endpoint-get_endpoint :
      (key url : Bytes) (a : ℕ)
      → get_endpoint r name key ≡ none
      → get_logical_peer r name url ≡ some a
      → (get_endpoint (ensure_endpoint r name key url).0 name key ≡ some a)
        × ((ensure_endpoint r name key url).0.peers ≡ r.peers)
        × ((ensure_endpoint r name key url).0.cells ≡ r.cells)
        × ((ensure_endpoint r name key url).0.policies ≡ r.policies)
  unfolding ensure_endpoint
  ensure_endpoint-get_endpoint key url a fresh known =
      rw (fresh, known, ensure_endpoint)
        (lookup-insert r.endpoint_peers name key a, refl, refl, refl)

  ensure_endpoint-get_endpoint_other :
      (key url other : Bytes)
      → bytes_eq key other ≡ false
      → get_endpoint (ensure_endpoint r name key url).0 name other ≡ get_endpoint r name other
  unfolding ensure_endpoint
  ensure_endpoint-get_endpoint_other key url other h =
      elim (Option-cases (get_endpoint r name key)) [
        | inr (a, e) ↦ rw (e, ensure_endpoint) refl
        | inl e ↦ rw (e, ensure_endpoint) (lookup-insert_other r.endpoint_peers name key other _ h)
      ]

notified-available :
    (r : PeerHealthRegistry) (name key : Bytes) (a t : ℕ)
    → get_health r name key ≡ some a
    → is_available (notify_change r name) name key t ≡ State.is_available (lock r a) t
unfolding is_available
notified-available r name key a t e = elim (Bool-cases r.has_notifier) [
  | inl h ↦ rw (h, e) refl
  | inr h ↦ rw (h, e) refl
]

-- A failure recorded under one key is seen under every key with the same cell.
failure-seen :
    (r : PeerHealthRegistry) (name key₁ key₂ : Bytes) (a now t : ℕ) (policy : PeerHealthPolicy)
    → get r.policies name ≡ some policy
    → get_health r name key₁ ≡ some a
    → get_health r name key₂ ≡ some a
    → a < length r.cells
    → is_available (record_failure r name key₁ now).0 name key₂ t
      ≡ State.is_available (State.record_failure (lock r a) policy now).0 t
unfolding is_available record_failure State.is_available
failure-seen r name key₁ key₂ a now t policy p e₁ e₂ valid =
    rw (p, e₁, record_failure)
      (notified-available (store r a (State.record_failure (lock r a) policy now).0) name key₂ a t
          e₂
        ∙ ap (λ o. State.is_available (unwrap_or o health_default) t)
            (get_elem?-set_elem r.cells a (State.record_failure (lock r a) policy now).0 valid))

module _ (r : PeerHealthRegistry) (name : Bytes) where
  -- Let two new endpoints with different keys be made, one after the other, for a peer whose cell the
  -- registry has, of an upstream with a policy. If then a failure is recorded for the first, the second
  -- is available exactly when the cell of the peer is after that failure.
  pub endpoints-fail-together :
      (key₁ key₂ url : Bytes) (a now t : ℕ) (policy : PeerHealthPolicy)
      → bytes_eq key₁ key₂ ≡ false
      → get_endpoint r name key₁ ≡ none
      → get_endpoint r name key₂ ≡ none
      → get_logical_peer r name url ≡ some a
      → get r.policies name ≡ some policy
      → a < length r.cells
      → let both = (ensure_endpoint (ensure_endpoint r name key₁ url).0 name key₂ url).0 in
        is_available (record_failure both name key₁ now).0 name key₂ t
        ≡ State.is_available (State.record_failure (lock r a) policy now).0 t
  endpoints-fail-together key₁ key₂ url a now t policy ne fresh₁ fresh₂ known p valid =
      let one = (ensure_endpoint r name key₁ url).0 in
      let (f₁, peers, cells, policies) =
        ensure_endpoint-get_endpoint r name key₁ url a fresh₁ known in
      let (f₂, peers', cells', policies') =
        ensure_endpoint-get_endpoint one name key₂ url a
          (ensure_endpoint-get_endpoint_other r name key₁ url key₂ ne ∙ fresh₂)
          (ap (λ m. lookup m name url) peers ∙ known) in
      let both = (ensure_endpoint one name key₂ url).0 in
      let kept : get_endpoint both name key₁ ≡ some a =
        ensure_endpoint-get_endpoint_other one name key₂ url key₁ (bytes_eq_comm key₂ key₁ ∙ ne)
        ∙ f₁ in
      failure-seen both name key₁ key₂ a now t policy
        (ap (λ m. get m name) (policies' ∙ policies) ∙ p)
        (ap (λ o. or o (get_logical_peer both name key₁)) kept)
        (ap (λ o. or o (get_logical_peer both name key₂)) f₂) (rw (cells' ∙ cells) valid)
      ∙ ap
          (λ cs.
            State.is_available
              (State.record_failure (unwrap_or (get_elem? cs a) health_default) policy now).0 t)
          (cells' ∙ cells)
