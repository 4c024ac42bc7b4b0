-- ===== src/CacheIndex/References.antt =====
-- The reference counts of the hashes are exact.
use rginx.Prelude.{
  ℕ, ◌<◌, ◌≡◌, refl, ap, ◌↔◌, inl, inr, true, List, [], ◌∷◌, is_some, Bytes, get, arith, Bool-cases,
  Option-cases,
}
use rginx.CacheIndex.Counts.{
  count_hash, count_in, count_of, Uniq, count_hash-insert, count_in-count_hash, count_hash-remove,
  count_of-increment, count_of-decrement, Uniq-insert, Uniq-remove,
}
use rginx.CacheIndex.{
  first, CacheIndexEntry, CacheIndexState, empty_index, decrement_hash_ref, schedule_entry_access,
  unschedule_entry_access, insert_entry, remove_entry, reschedule_entry_access,
  pop_oldest_scheduled_entry, hash_is_referenced,
}

-- What the index promises: an entry for each key, and for each hash the number of its entries.
pub record IsCounted (index : CacheIndexState) : Type 0 where
  pub uniq : Uniq index.entries
  pub counted : (hash : Bytes) → count_of index.hash_ref_counts hash ≡ count_hash index.entries hash

-- The operations on the schedule leave the entries and the counts alone.
unschedule-kept :
    (index : CacheIndexState) (key : Bytes)
    → IsCounted index
    → IsCounted (unschedule_entry_access index key)
unfolding unschedule_entry_access
unschedule-kept index key v = elim (Option-cases (get index.access_ticket_by_key key)) [
  | inl e ↦ rw (e, unschedule_entry_access) v
  | inr (t, e) ↦ rw (e, unschedule_entry_access) record { uniq = v.uniq; counted = v.counted }
]

schedule-kept :
    (index : CacheIndexState) (key : Bytes) (last_access : ℕ)
    → IsCounted index
    → IsCounted (schedule_entry_access index key last_access)
unfolding schedule_entry_access
schedule-kept index key last_access v =
    let w = unschedule-kept index key v in record { uniq = w.uniq; counted = w.counted }

insert_entry-IsCounted :
    (index : CacheIndexState) (key : Bytes) (entry : CacheIndexEntry)
    → IsCounted index
    → IsCounted (insert_entry index key entry).0
unfolding insert_entry
insert_entry-IsCounted index key entry v = schedule-kept _ key entry.last_access_unix_ms record {
  uniq = Uniq-insert index.entries key entry v.uniq;
  counted = λ hash. elim (Option-cases (get index.entries key)) [
    | inl e ↦ rw e (
        omega (
          arith,
          count_of-increment index.hash_ref_counts entry.hash hash,
          v.counted hash,
          count_hash-insert index.entries key hash entry,
          ap (λ o. count_in o hash) e,
        ))
    | inr (x, e) ↦ rw e (
        omega (
          arith,
          count_of-increment (decrement_hash_ref index.hash_ref_counts x.hash) entry.hash hash,
          count_of-decrement index.hash_ref_counts x.hash hash,
          v.counted hash,
          count_hash-insert index.entries key hash entry,
          count_in-count_hash index.entries key hash,
          ap (λ o. count_in o hash) e,
        ))
  ];
}

remove_entry-IsCounted :
    (index : CacheIndexState) (key : Bytes) → IsCounted index → IsCounted (remove_entry index key).0
unfolding remove_entry
remove_entry-IsCounted index key v = elim (Option-cases (get index.entries key)) [
  | inl e ↦ rw (e, remove_entry) v
  | inr (x, e) ↦
      rw (e, remove_entry)
        (unschedule-kept _ key record {
          uniq = Uniq-remove index.entries key v.uniq;
          counted = λ hash. omega (
            arith,
            count_of-decrement index.hash_ref_counts x.hash hash,
            v.counted hash,
            count_hash-remove index.entries key hash v.uniq,
            ap (λ o. count_in o hash) e,
          );
        })
]

-- One operation on the index.
pub data Operation : Type 0 where
  insert_at : Bytes → CacheIndexEntry → Operation
  remove_at : Bytes → Operation
  reschedule : Bytes → ℕ → Operation
  pop_oldest : Operation

pub operate : CacheIndexState → Operation → CacheIndexState
operate index (Operation.insert_at key entry) = (insert_entry index key entry).0
operate index (Operation.remove_at key) = (remove_entry index key).0
operate index (Operation.reschedule key t) = reschedule_entry_access index key t
operate index Operation.pop_oldest = (pop_oldest_scheduled_entry index).0

pub operations : CacheIndexState → List Operation → CacheIndexState
unfolding operate
operations index [] = index
operations index (o ∷ os) = operations (operate index o) os

operate-IsCounted :
    (index : CacheIndexState) (o : Operation) → IsCounted index → IsCounted (operate index o)
unfolding operate reschedule_entry_access pop_oldest_scheduled_entry
operate-IsCounted index (Operation.insert_at key entry) v = insert_entry-IsCounted index key entry v
operate-IsCounted index (Operation.remove_at key) v = remove_entry-IsCounted index key v
operate-IsCounted index (Operation.reschedule key t) v =
    elim (Bool-cases (is_some (get index.entries key))) [
      | inl e ↦ rw (e, operate, reschedule_entry_access) (schedule-kept index key t v)
      | inr e ↦ rw (e, operate, reschedule_entry_access) v
    ]
operate-IsCounted index Operation.pop_oldest v = elim (Option-cases (first index.access_schedule)) [
  | inl e ↦ rw (e, operate, pop_oldest_scheduled_entry) v
  | inr (x, e) ↦
      rw (e, operate, pop_oldest_scheduled_entry) record { uniq = v.uniq; counted = v.counted }
]

operations-IsCounted :
    (index : CacheIndexState) (os : List Operation)
    → IsCounted index
    → IsCounted (operations index os)
unfolding operations
operations-IsCounted index [] v = v
operations-IsCounted index (o ∷ os) v =
    operations-IsCounted (operate index o) os (operate-IsCounted index o v)

-- After any sequence of operations on an empty index, a hash counts as referenced exactly when some
-- entry of the index has it.
pub hash_is_referenced_iff :
    (os : List Operation) (hash : Bytes)
    → (hash_is_referenced (operations empty_index os) hash ≡ true)
      ↔ (0 < count_hash (operations empty_index os).entries hash)
unfolding hash_is_referenced
hash_is_referenced_iff os hash =
    let v = operations-IsCounted empty_index os (record { uniq = tt; counted = λ h. refl }) in
    ground (arith, v.counted hash)
