-- ===== src/Health/Registry/Guards.antt =====
-- Guards of active requests.
use rginx.Prelude.{
  ℕ, zero, suc, ◌+◌, ◌<◌, ◌≡◌, refl, ◌∙◌, ap, Bool, none, some, List, [], ◌∷◌, length, get_elem?,
  unwrap_or, if◌then◌else◌, Bytes, arith,
}
use rginx.Health.State.{
  PeerHealthState, health_default, increment_active_requests, decrement_active_requests, u64,
}
use rginx.Health.Registry.{
  PeerHealthRegistry, lock, store, set_elem, get_health, notify_change, ActivePeerGuard,
  track_active_request, drop_guard,
}

pub get_elem?-set_elem :
    (xs : List PeerHealthState) (i : ℕ) (s : PeerHealthState)
    → i < length xs
    → get_elem? (set_elem xs i s) i ≡ some s
get_elem?-set_elem [] i s h = absurd (omega (arith, h))
get_elem?-set_elem (x ∷ xs) zero s h = refl
get_elem?-set_elem (x ∷ xs) (suc i) s h = get_elem?-set_elem xs i s (omega (arith, h))

set_elem-set_elem :
    (xs : List PeerHealthState) (i : ℕ) (s t : PeerHealthState)
    → set_elem (set_elem xs i s) i t ≡ set_elem xs i t
set_elem-set_elem [] i s t = refl
set_elem-set_elem (x ∷ xs) zero s t = refl
set_elem-set_elem (x ∷ xs) (suc i) s t = ap (◌∷◌ x) (set_elem-set_elem xs i s t)

set_elem-id :
    (xs : List PeerHealthState) (i : ℕ)
    → set_elem xs i (unwrap_or (get_elem? xs i) health_default) ≡ xs
set_elem-id [] i = refl
set_elem-id (x ∷ xs) zero = refl
set_elem-id (x ∷ xs) (suc i) = ap (◌∷◌ x) (set_elem-id xs i)

decrement-increment :
    (s : PeerHealthState)
    → s.active_requests + 1 < u64
    → (decrement_active_requests (increment_active_requests s).0).0 ≡ s
unfolding decrement_active_requests increment_active_requests
decrement-increment s h = ap (λ k. record s { active_requests = k }) (omega (arith, h))

notified-cells :
    (b : Bool) (r : PeerHealthRegistry) (name : Bytes)
    → (if b then notify_change r name else r).cells ≡ r.cells
notified-cells b r name = ground arith

module _ (r : PeerHealthRegistry) (name url : Bytes) where
  track-cells :
      (a : ℕ)
      → get_health r name url ≡ some a
      → ((track_active_request r name url).0.cells
          ≡ set_elem r.cells a (increment_active_requests (lock r a)).0)
        × ((track_active_request r name url).1.peer ≡ some a)
  unfolding track_active_request
  track-cells a e =
      rw (e, track_active_request)
        (
          notified-cells (increment_active_requests (lock r a)).1
              (store r a (increment_active_requests (lock r a)).0) name,
          refl,
        )

drop-cells :
    (r : PeerHealthRegistry) (g : ActivePeerGuard) (a : ℕ)
    → g.peer ≡ some a
    → ((drop_guard r g).0.cells ≡ set_elem r.cells a (decrement_active_requests (lock r a)).0)
      × ((drop_guard r g).1.peer ≡ none)
unfolding drop_guard
drop-cells r g a e =
    rw (e, drop_guard)
      (
        notified-cells (decrement_active_requests (lock r a)).1
            (store r a (decrement_active_requests (lock r a)).0) g.upstream_name,
        refl,
      )

-- A request that is tracked and whose guard is dropped leaves the health of every peer as it was, and
-- the guard is empty then.
pub track_active_request-drop_guard :
    (r : PeerHealthRegistry) (name url : Bytes) (a : ℕ)
    → get_health r name url ≡ some a
    → a < length r.cells
    → (lock r a).active_requests + 1 < u64
    → let (tracked, guard) = track_active_request r name url in
      ((drop_guard tracked guard).0.cells ≡ r.cells) × ((drop_guard tracked guard).1.peer ≡ none)
track_active_request-drop_guard r name url a e valid room =
    let (c, p) = track-cells r name url a e in
    let (d, q) =
      drop-cells (track_active_request r name url).0 (track_active_request r name url).1 a p in
    let s = (increment_active_requests (lock r a)).0 in
    (
      d
          ∙ ap
              (λ cells.
                set_elem cells a
                  (decrement_active_requests (unwrap_or (get_elem? cells a) health_default)).0)
              c
          ∙ ap
              (λ o.
                set_elem (set_elem r.cells a s) a
                  (decrement_active_requests (unwrap_or o health_default)).0)
              (get_elem?-set_elem r.cells a s valid)
          ∙ set_elem-set_elem r.cells a s (decrement_active_requests s).0
          ∙ ap (set_elem r.cells a) (decrement-increment (lock r a) room)
          ∙ set_elem-id r.cells a,
      q,
    )
