-- ===== src/Upstream/Slots.antt =====
-- Who owns a slot of the weighted order, and how many slots each peer owns.
use rginx.Prelude.{
  ℕ, zero, suc, ◌+◌, ◌<◌, ◌≤◌, ◌≡◌, refl, sym, ap, ◌%◌, ◌⊎◌, inl, inr, Bool, true, false, Option,
  none, some, List, Memᴰ, [], ◌∷◌, arith, get_elem?, filter, ltb, is_some_and, if◌then◌else◌,
  Bool-cases, length,
}
use native.Mathlib.Nat.{mod-eq_of_lt}
use rginx.Upstream.{UpstreamPeer, total_weight, position_from, peer_position_for_weighted_slot}

-- The peer whose range of slots holds `slot`, where the first range starts at `offset`.
pub owner_from : List UpstreamPeer → ℕ → ℕ → Option UpstreamPeer
owner_from [] offset slot = none
owner_from (peer ∷ peers) offset slot =
    if ltb slot (offset + peer.weight)
    then some peer
    else owner_from peers (offset + peer.weight) slot

-- The position that is found is that of the owner.
position_from-owner :
    (pool : List UpstreamPeer) (i offset slot : ℕ)
    → ((position_from pool i offset slot ≡ none) × (owner_from pool offset slot ≡ none))
      ⊎ ((p : ℕ) × (position_from pool i offset slot ≡ some (i + p))
          × (get_elem? pool p ≡ owner_from pool offset slot)
          × (p < length pool))
unfolding position_from owner_from
position_from-owner [] i offset slot = inl (refl, refl)
position_from-owner (x ∷ xs) i offset slot = elim (Bool-cases (ltb slot (offset + x.weight))) [
  | inl e ↦ inr (0, (rw e (ground arith)), (rw e refl), omega arith)
  | inr e ↦ elim (position_from-owner xs (suc i) (offset + x.weight) slot) [
    | inl (a, b) ↦ inl ((rw e a), (rw e b))
    | inr (p, a, b, c) ↦ inr (suc p, (rw e (ground arith)), (rw e b), omega arith)
  ]
]

pub peer_position-owner :
    (pool : List UpstreamPeer) (slot : ℕ)
    → ((peer_position_for_weighted_slot pool slot ≡ none) × (owner_from pool 0 slot ≡ none))
      ⊎ ((p : ℕ) × (peer_position_for_weighted_slot pool slot ≡ some p)
          × (get_elem? pool p ≡ owner_from pool 0 slot)
          × (p < length pool))
unfolding peer_position_for_weighted_slot
peer_position-owner pool slot = elim (position_from-owner pool 0 0 slot) [
  | inl (a, b) ↦ inl (a, b)
  | inr (p, a, b, c) ↦ inr (p, ground arith, b, c)
]

-- Every slot below the total weight has an owner.
pub owner_from-some :
    (pool : List UpstreamPeer) (offset slot : ℕ)
    → offset ≤ slot
    → slot < offset + total_weight pool
    → (peer : UpstreamPeer) × (owner_from pool offset slot ≡ some peer)
unfolding owner_from
owner_from-some [] offset slot l h = absurd (omega arith)
owner_from-some (x ∷ xs) offset slot l h = elim (Bool-cases (ltb slot (offset + x.weight))) [
  | inl e ↦ (x, rw e refl)
  | inr e ↦
      let (p, k) = owner_from-some xs (offset + x.weight) slot (ground arith) (omega arith) in
      (p, rw e k)
]

abbrev pub count_true : Bool → ℕ
count_true true = 1
count_true false = 0

-- How often `f` holds among the `n` numbers from `lo` on.
pub count_range : (ℕ → Bool) → ℕ → ℕ → ℕ
count_range f lo zero = 0
count_range f lo (suc n) = count_true (f lo) + count_range f (suc lo) n

pub count_range-add :
    (f : ℕ → Bool) (lo m n : ℕ)
    → count_range f lo (m + n) ≡ count_range f lo m + count_range f (lo + m) n
unfolding count_range
count_range-add f lo zero n =
    let e : 0 + n ≡ n = omega arith in let k : lo + 0 ≡ lo = omega arith in rw (e, k) (omega arith)
count_range-add f lo (suc m) n =
    let e : suc m + n ≡ suc (m + n) = omega arith in
    let k : lo + suc m ≡ suc lo + m = omega arith in
    rw (e, k) (omega (arith, count_range-add f (suc lo) m n))

abbrev pub owned_by : (UpstreamPeer → Bool) → List UpstreamPeer → ℕ → ℕ → Bool
owned_by test pool offset slot = is_some_and (owner_from pool offset slot) test

count_range-const :
    (f : ℕ → Bool) (b : Bool) (lo n : ℕ)
    → ((s : ℕ) → lo ≤ s → s < lo + n → f s ≡ b)
    → count_range f lo n ≡ (if b then n else 0)
unfolding count_range
count_range-const f b lo zero h = ground arith
count_range-const f b lo (suc n) h =
    rw (h lo (omega arith) (omega arith))
      (ground (arith, count_range-const f b (suc lo) n (λ s l u. h s (omega arith) (omega arith))))

pub count_range-ext :
    (f g : ℕ → Bool) (lo n : ℕ)
    → ((s : ℕ) → lo ≤ s → s < lo + n → f s ≡ g s)
    → count_range f lo n ≡ count_range g lo n
unfolding count_range
count_range-ext f g lo zero h = refl
count_range-ext f g lo (suc n) h =
    rw (h lo (omega arith) (omega arith))
      (omega (arith, count_range-ext f g (suc lo) n (λ s l u. h s (omega arith) (omega arith))))

-- The owner beyond the first peer's slots is that of the other peers.
owned_by-cons :
    (test : UpstreamPeer → Bool) (x : UpstreamPeer) (xs : List UpstreamPeer) (offset n : ℕ)
    → count_range (owned_by test (x ∷ xs) offset) (offset + x.weight) n
      ≡ count_range (owned_by test xs (offset + x.weight)) (offset + x.weight) n
unfolding owner_from
owned_by-cons test x xs offset n =
    count_range-ext (owned_by test (x ∷ xs) offset) (owned_by test xs (offset + x.weight))
      (offset + x.weight) n (λ s l u. ground arith)

owned_by-head :
    (test : UpstreamPeer → Bool) (x : UpstreamPeer) (xs : List UpstreamPeer) (offset : ℕ)
    → count_range (owned_by test (x ∷ xs) offset) offset x.weight ≡ (if test x then x.weight else 0)
unfolding owner_from
owned_by-head test x xs offset =
    count_range-const (owned_by test (x ∷ xs) offset) (test x) offset x.weight
      (λ s l u. ground arith)

-- A test on peers holds for the owners of as many slots as the weights of the peers that pass it.
pub count_range-owned_by :
    (test : UpstreamPeer → Bool) (pool : List UpstreamPeer) (offset : ℕ)
    → count_range (owned_by test pool offset) offset (total_weight pool)
      ≡ total_weight (filter test pool)
unfolding count_range
count_range-owned_by test [] offset = refl
count_range-owned_by test (x ∷ xs) offset = ground (
  arith,
  count_range-add (owned_by test (x ∷ xs) offset) offset x.weight (total_weight xs),
  owned_by-head test x xs offset,
  owned_by-cons test x xs offset (total_weight xs),
  count_range-owned_by test xs (offset + x.weight),
)

count_range-shift :
    (f : ℕ → Bool) (lo n : ℕ) → count_range (λ k. f (suc k)) lo n ≡ count_range f (suc lo) n
unfolding count_range
count_range-shift f lo zero = refl
count_range-shift f lo (suc n) = omega (arith, count_range-shift f (suc lo) n)

abbrev turn : (ℕ → Bool) → ℕ → ℕ → ℕ → Bool
turn g c t k = g ((c + k) % t)

turn-period : (g : ℕ → Bool) (c t : ℕ) → turn g c t t ≡ turn g c t 0
turn-period g c t = ap g (grind arith)

-- The first number or the last one may be taken apart.
count_range-last :
    (f : ℕ → Bool) (n : ℕ)
    → count_true (f 0) + count_range f 1 n ≡ count_range f 0 n + count_true (f n)
unfolding count_range
count_range-last f n =
    let e : 1 + n ≡ n + 1 = omega arith in
    let k : 0 + n ≡ n = omega arith in
    omega (
      arith,
      count_range-add f 0 1 n,
      count_range-add f 0 n 1,
      ap (count_range f 0) e,
      ap (λ (s : ℕ). count_true (f s)) k,
    )

-- A window of the length of the period sees every remainder once.
pub count_range-rotate :
    (g : ℕ → Bool) (c t : ℕ) → 0 < t → count_range (λ k. g ((c + k) % t)) 0 t ≡ count_range g 0 t
count_range-rotate g zero t h =
    count_range-ext (λ k. g ((0 + k) % t)) g 0 t
      (λ s l u. ap g (let e : 0 + s ≡ s = omega arith in rw e (mod-eq_of_lt (omega arith))))
count_range-rotate g (suc c) t h = omega (
  arith,
  count_range-rotate g c t h,
  count_range-shift (turn g c t) 0 t,
  count_range-ext (λ k. g ((suc c + k) % t)) (λ k. turn g c t (suc k)) 0 t
      (λ s l u. let e : suc c + s ≡ c + suc s = omega arith in ap (λ x. g (x % t)) e),
  count_range-last (turn g c t) t,
  ap count_true (turn-period g c t),
)

-- A peer with a weight owns a slot.
pub owned_slot :
    (pool : List UpstreamPeer) (offset : ℕ) {x : UpstreamPeer}
    → Memᴰ x pool
    → 0 < x.weight
    → (s : ℕ) × (offset ≤ s)
      × (s < offset + total_weight pool)
      × (owner_from pool offset s ≡ some x)
unfolding owner_from
owned_slot [] offset m w = elim m [ ]
owned_slot (y ∷ ys) offset {x} (Memᴰ.head e) w =
    let k : y.weight ≡ x.weight = ap (λ (p : UpstreamPeer). p.weight) (sym e) in
    (offset, omega arith, omega arith, ground arith)
owned_slot (y ∷ ys) offset (Memᴰ.tail m) w =
    let (s, l, u, o) = owned_slot ys (offset + y.weight) m w in
    (s, omega arith, omega arith, ground arith)
