-- ===== src/CacheIndex/Counts.antt =====
-- Counting entries by hash, and the counts of references.
use rginx.Prelude.{
  ℕ, ◌+◌, ◌-◌, ◌≤◌, ◌≡◌, refl, ◌∙◌, inl, inr, Bool, true, false, Option, none, some, [], ◌∷◌, ◌==◌,
  unwrap_or, Bytes, bytes_eq, bytes_eq_comm, bytes_eq_iff, Map, get, insert, remove, get-insert,
  get-insert_other, get-remove, get-remove_other, arith, Bool-cases, Option-cases,
}
use rginx.CacheIndex.{CacheIndexEntry, increment_hash_ref, decrement_hash_ref}

-- How many entries have a hash.
abbrev pub one_if : Bool → ℕ
one_if true = 1
one_if false = 0

abbrev pub count_hash : Map CacheIndexEntry → Bytes → ℕ
count_hash [] hash = 0
count_hash ((k, e) ∷ rest) hash = one_if (bytes_eq e.hash hash) + count_hash rest hash

abbrev pub count_in : Option CacheIndexEntry → Bytes → ℕ
count_in none hash = 0
count_in (some e) hash = one_if (bytes_eq e.hash hash)

-- No key stands twice.
abbrev pub Uniq : Map CacheIndexEntry → Type 0
Uniq [] = Unit
Uniq ((k, e) ∷ rest) = (get rest k ≡ none) × Uniq rest

pub count_hash-insert :
    (m : Map CacheIndexEntry) (key hash : Bytes) (e : CacheIndexEntry)
    → count_hash (insert m key e) hash + count_in (get m key) hash
      ≡ count_hash m hash + one_if (bytes_eq e.hash hash)
count_hash-insert [] key hash e = omega arith
count_hash-insert ((k, x) ∷ rest) key hash e = elim (Bool-cases (bytes_eq k key)) [
  | inl h ↦ rw h (omega arith)
  | inr h ↦ rw h (omega (arith, count_hash-insert rest key hash e))
]

pub count_in-count_hash :
    (m : Map CacheIndexEntry) (key hash : Bytes) → count_in (get m key) hash ≤ count_hash m hash
count_in-count_hash [] key hash = omega arith
count_in-count_hash ((k, x) ∷ rest) key hash = elim (Bool-cases (bytes_eq k key)) [
  | inl h ↦ rw h (omega arith)
  | inr h ↦ rw h (omega (arith, count_in-count_hash rest key hash))
]

remove-absent : (m : Map CacheIndexEntry) (key : Bytes) → get m key ≡ none → remove m key ≡ m
remove-absent [] key h = refl
remove-absent ((k, x) ∷ rest) key h = ground (arith, remove-absent rest key)

pub count_hash-remove :
    (m : Map CacheIndexEntry) (key hash : Bytes)
    → Uniq m
    → count_hash (remove m key) hash + count_in (get m key) hash ≡ count_hash m hash
count_hash-remove [] key hash u = omega arith
count_hash-remove ((k, x) ∷ rest) key hash (fresh, u) = elim (Bool-cases (bytes_eq k key)) [
  | inl h ↦
      let same : k ≡ key = (bytes_eq_iff k key).0 h in
      rw (h, remove-absent rest key (rw⁻¹ same fresh)) (omega arith)
  | inr h ↦ rw h (omega (arith, count_hash-remove rest key hash u))
]

abbrev pub count_of : Map ℕ → Bytes → ℕ
count_of counts hash = unwrap_or (get counts hash) 0

pub count_of-increment :
    (counts : Map ℕ) (hash other : Bytes)
    → count_of (increment_hash_ref counts hash) other
      ≡ count_of counts other + one_if (bytes_eq hash other)
unfolding increment_hash_ref
count_of-increment counts hash other = elim (Bool-cases (bytes_eq hash other)) [
  | inl h ↦
      let same : hash ≡ other = (bytes_eq_iff hash other).0 h in
      rw (h, ← same, get-insert counts hash (unwrap_or (get counts hash) 0 + 1)) refl
  | inr h ↦
      rw (h, get-insert_other counts hash other (unwrap_or (get counts hash) 0 + 1) h) (omega arith)
]

decremented :
    (counts : Map ℕ) (hash : Bytes) (c : ℕ)
    → get counts hash ≡ some c
    → count_of (decrement_hash_ref counts hash) hash ≡ count_of counts hash - 1
unfolding decrement_hash_ref
decremented counts hash c e = elim (Bool-cases (c - 1 == 0)) [
  | inl z ↦
      rw (e, z, decrement_hash_ref, get-remove (insert counts hash (c - 1)) hash) (ground arith)
  | inr z ↦ rw (e, z, decrement_hash_ref, get-insert counts hash (c - 1)) refl
]

decremented_other :
    (counts : Map ℕ) (hash other : Bytes) (c : ℕ)
    → get counts hash ≡ some c
    → bytes_eq hash other ≡ false
    → count_of (decrement_hash_ref counts hash) other ≡ count_of counts other
unfolding decrement_hash_ref
decremented_other counts hash other c e h = elim (Bool-cases (c - 1 == 0)) [
  | inl z ↦
      rw
        (
          e,
          z,
          decrement_hash_ref,
          get-remove_other (insert counts hash (c - 1)) hash other h,
          get-insert_other counts hash other (c - 1) h,
        )
        refl
  | inr z ↦ rw (e, z, decrement_hash_ref, get-insert_other counts hash other (c - 1) h) refl
]

pub count_of-decrement :
    (counts : Map ℕ) (hash other : Bytes)
    → count_of (decrement_hash_ref counts hash) other
      ≡ count_of counts other - one_if (bytes_eq hash other)
unfolding decrement_hash_ref
count_of-decrement counts hash other = elim (Bool-cases (bytes_eq hash other)) [
  | inl h ↦
      let same : hash ≡ other = (bytes_eq_iff hash other).0 h in
      rw (h, ← same)
        (elim (Option-cases (get counts hash)) [
          | inl e ↦ rw (e, decrement_hash_ref, e) (omega arith)
          | inr (c, e) ↦ decremented counts hash c e
        ])
  | inr h ↦ elim (Option-cases (get counts hash)) [
    | inl e ↦ rw (e, h, decrement_hash_ref) (omega arith)
    | inr (c, e) ↦ rw h (decremented_other counts hash other c e h ∙ omega arith)
  ]
]

pub Uniq-insert :
    (m : Map CacheIndexEntry) (key : Bytes) (e : CacheIndexEntry) → Uniq m → Uniq (insert m key e)
Uniq-insert [] key e u = (refl, tt)
Uniq-insert ((k, x) ∷ rest) key e (fresh, u) = elim (Bool-cases (bytes_eq k key)) [
  | inl h ↦ rw h (fresh, u)
  | inr h ↦
      rw h
        (get-insert_other rest key k e (bytes_eq_comm key k ∙ h) ∙ fresh, Uniq-insert rest key e u)
]

get-remove-none :
    (m : Map CacheIndexEntry) (key k : Bytes) → get m k ≡ none → get (remove m key) k ≡ none
get-remove-none m key k h = elim (Bool-cases (bytes_eq key k)) [
  | inl e ↦ let same : key ≡ k = (bytes_eq_iff key k).0 e in rw (← same) (get-remove m key)
  | inr e ↦ get-remove_other m key k e ∙ h
]

pub Uniq-remove : (m : Map CacheIndexEntry) (key : Bytes) → Uniq m → Uniq (remove m key)
Uniq-remove [] key u = tt
Uniq-remove ((k, x) ∷ rest) key (fresh, u) = elim (Bool-cases (bytes_eq k key)) [
  | inl h ↦ rw h (Uniq-remove rest key u)
  | inr h ↦ rw h (get-remove-none rest key k fresh, Uniq-remove rest key u)
]
