-- ===== src/Upstream/Loop.antt =====
-- The invariant of the weighted loop: what is marked as seen has been selected.
use rginx.Prelude.{
  ℕ, zero, suc, ◌+◌, ◌%◌, ◌<◌, ◌≤◌, ◌≡◌, ◌≢◌, refl, sym, ap, ◌∙◌, ◌⊎◌, inl, inr, Bool, true, false,
  some, List, [], ◌∷◌, ◌++◌, Memᴰ, arith, length, length-append, get_elem?, ◌==◌, Bool-cases,
}
use rginx.Upstream.{
  UpstreamPeer, peer_position_for_weighted_slot, is_seen, mark, unseen, push_at, done, go,
  weighted_round,
}
use rginx.Upstream.Slots.{owner_from, peer_position-owner, count_true}

pub seen_count : List Bool → ℕ
seen_count [] = 0
seen_count (b ∷ bs) = count_true b + seen_count bs

seen_count-le : (bs : List Bool) → seen_count bs ≤ length bs
unfolding seen_count
seen_count-le [] = omega arith
seen_count-le (b ∷ bs) = ground (arith, seen_count-le bs)

-- If as many positions are seen as there are, all are seen.
pub all_seen :
    (bs : List Bool) (i : ℕ) → seen_count bs ≡ length bs → i < length bs → is_seen bs i ≡ true
unfolding seen_count
all_seen [] i h l = absurd (omega arith)
all_seen (b ∷ bs) zero h l = ground (arith, seen_count-le bs)
all_seen (b ∷ bs) (suc i) h l = all_seen bs i (ground (arith, seen_count-le bs)) (omega arith)

seen_count-mark :
    (bs : List Bool) (i : ℕ)
    → i < length bs
    → is_seen bs i ≡ false
    → seen_count (mark bs i) ≡ suc (seen_count bs)
unfolding seen_count
seen_count-mark [] i l h = absurd (omega arith)
seen_count-mark (b ∷ bs) zero l h = ground arith
seen_count-mark (b ∷ bs) (suc i) l h = omega (arith, seen_count-mark bs i (omega arith) h)

length-mark : (bs : List Bool) (i : ℕ) → length (mark bs i) ≡ length bs
length-mark [] i = refl
length-mark (b ∷ bs) zero = refl
length-mark (b ∷ bs) (suc i) = ap suc (length-mark bs i)

is_seen-mark :
    (bs : List Bool) (i j : ℕ) → is_seen (mark bs i) j ≡ true → (i ≡ j) ⊎ (is_seen bs j ≡ true)
is_seen-mark [] i j h = inr h
is_seen-mark (b ∷ bs) zero zero h = inl refl
is_seen-mark (b ∷ bs) zero (suc j) h = inr h
is_seen-mark (b ∷ bs) (suc i) zero h = inr h
is_seen-mark (b ∷ bs) (suc i) (suc j) h = elim (is_seen-mark bs i j h) [
  | inl e ↦ inl (ap suc e)
  | inr e ↦ inr e
]

pub mem-push :
    (y : UpstreamPeer) {x : UpstreamPeer} {xs : List UpstreamPeer}
    → Memᴰ x xs
    → Memᴰ x (xs ++ y ∷ [])
mem-push y (Memᴰ.head e) = Memᴰ.head e
mem-push y (Memᴰ.tail m) = Memᴰ.tail (mem-push y m)

pub mem-last : (xs : List UpstreamPeer) (y : UpstreamPeer) → Memᴰ y (xs ++ y ∷ [])
mem-last [] y = Memᴰ.head refl
mem-last (x ∷ xs) y = Memᴰ.tail (mem-last xs y)

module _ (pool : List UpstreamPeer) where
  pub record Inv (seen : List Bool) (selected : List UpstreamPeer) : Type 0 where
    pub sized : length seen ≡ length pool
    pub counted : seen_count seen ≡ length selected
    pub kept :
        (p : ℕ) (x : UpstreamPeer)
        → is_seen seen p ≡ true
        → get_elem? pool p ≡ some x
        → Memᴰ x selected

  push_at-some :
      (p : ℕ) (y : UpstreamPeer) (selected : List UpstreamPeer)
      → get_elem? pool p ≡ some y
      → push_at pool p selected ≡ selected ++ y ∷ []
  unfolding push_at
  push_at-some p y selected e = rw (e, push_at) refl

  pub Inv-push :
      (p : ℕ) (y : UpstreamPeer) (seen : List Bool) (selected : List UpstreamPeer)
      → Inv seen selected
      → p < length pool
      → get_elem? pool p ≡ some y
      → is_seen seen p ≡ false
      → Inv (mark seen p) (selected ++ y ∷ [])
  Inv-push p y seen selected v l e new = record {
    sized = length-mark seen p ∙ v.sized;
    counted = omega (
      arith,
      seen_count-mark seen p (omega (arith, v.sized)) new,
      v.counted,
      length-append selected (y ∷ []),
    );
    kept = λ q x s at. elim (is_seen-mark seen p q s) [
      | inl same ↦
          let both : some y ≡ some x = sym e ∙ ap (get_elem? pool) same ∙ at in
          let here : y ≡ x = cc in rw (← here) (mem-last selected y)
      | inr old ↦ mem-push y (v.kept q x old at)
    ];
  }

  -- What one round does, with the owner of its slot.
  pub data RoundCase (total start count offset : ℕ) (seen : List Bool)
      (selected : List UpstreamPeer) : Type 0 where
    skips :
        weighted_round pool total start count offset seen selected ≡ go seen selected
        → ((x : UpstreamPeer)
            → owner_from pool 0 ((start + offset) % total) ≡ some x
            → Memᴰ x selected)
        → RoundCase total start count offset seen selected
    pushes :
        (y : UpstreamPeer) (next : List Bool)
        → owner_from pool 0 ((start + offset) % total) ≡ some y
        → Inv next (selected ++ y ∷ [])
        → (((weighted_round pool total start count offset seen selected ≡ done (selected ++ y ∷ []))
              × (length (selected ++ y ∷ []) ≡ count))
            ⊎ ((weighted_round pool total start count offset seen selected
                  ≡ go next (selected ++ y ∷ []))
                × (length (selected ++ y ∷ []) ≢ count)))
        → RoundCase total start count offset seen selected

  get-some :
      (xs : List UpstreamPeer) (p : ℕ)
      → p < length xs
      → (y : UpstreamPeer) × (get_elem? xs p ≡ some y)
  get-some [] p l = absurd (omega arith)
  get-some (x ∷ xs) zero l = (x, refl)
  get-some (x ∷ xs) (suc p) l = get-some xs p (omega arith)

  module _ (total start count offset : ℕ) (seen : List Bool) (selected : List UpstreamPeer) where
    abbrev slot : ℕ
    slot = (start + offset) % total

    push-case :
        (p : ℕ) (y : UpstreamPeer)
        → Inv seen selected
        → peer_position_for_weighted_slot pool slot ≡ some p
        → get_elem? pool p ≡ some y
        → owner_from pool 0 slot ≡ some y
        → p < length pool
        → is_seen seen p ≡ false
        → RoundCase total start count offset seen selected
    unfolding weighted_round
    push-case p y v found at owned l new =
        pushes y (mark seen p) owned (Inv-push p y seen selected v l at new) (
          rw (found, new, push_at-some p y selected at, weighted_round)
            (elim (Bool-cases (length (selected ++ y ∷ []) == count)) [
              | inl d ↦ inl ((rw d refl), ground arith)
              | inr d ↦ inr ((rw d refl), ground arith)
            ]))

    pub round-RoundCase : Inv seen selected → RoundCase total start count offset seen selected
    unfolding weighted_round
    round-RoundCase v = elim (peer_position-owner pool slot) [
      | inl (e, miss) ↦ skips (rw (e, weighted_round) refl) (λ x h. absurd (cc))
      | inr (p, found, at, l) ↦
          let (y, here) = get-some pool p l in
          let owned : owner_from pool 0 slot ≡ some y = sym at ∙ here in
          elim (Bool-cases (is_seen seen p)) [
            | inl s ↦ skips (rw (found, s, weighted_round) refl) (λ x h. v.kept p x s (at ∙ h))
            | inr s ↦ push-case p y v found here owned l s
          ]
    ]

length-unseen : (ps : List UpstreamPeer) → length (unseen ps) ≡ length ps
length-unseen [] = refl
length-unseen (p ∷ ps) = ap suc (length-unseen ps)

nothing_seen : (ps : List UpstreamPeer) (i : ℕ) → is_seen (unseen ps) i ≡ false
nothing_seen [] i = refl
nothing_seen (p ∷ ps) zero = refl
nothing_seen (p ∷ ps) (suc i) = nothing_seen ps i

seen_count-unseen : (ps : List UpstreamPeer) → seen_count (unseen ps) ≡ 0
unfolding seen_count
seen_count-unseen [] = refl
seen_count-unseen (p ∷ ps) = omega (arith, seen_count-unseen ps)

pub Inv-unseen : (pool : List UpstreamPeer) → Inv pool (unseen pool) []
Inv-unseen pool = record {
  sized = length-unseen pool;
  counted = seen_count-unseen pool;
  kept = λ p x s e. absurd (ground (arith, nothing_seen pool p));
}
