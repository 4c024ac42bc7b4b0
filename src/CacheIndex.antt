-- ===== src/CacheIndex.antt =====
-- crates/rginx-http/src/cache/{state,index}.rs: the index of a cache zone. The lock of the index makes
-- each operation atomic; the schedule, a `BTreeSet`, is a list that is searched for its least entry.
pub mod Counts
pub mod References
mod Tests
use rginx.Prelude.{
  ℕ, zero, suc, ◌+◌, ◌-◌, ◌^◌, min, compare, Ordering, Bool, true, false, not, ◌&&◌, Option, none,
  some, List, [], ◌∷◌, filter, if◌then◌else◌, ltb, ◌==◌, is_some, unwrap_or, Bytes, bytes_eq,
  bytes_cmp, then_cmp, Map, get, insert, remove,
}

pub data CacheIndexEntryKind : Type 0 where
  response hit_for_pass : CacheIndexEntryKind

-- `CacheIndexEntry`: the fields that the index reads, and those of an entry's life.
pub record CacheIndexEntry : Type 0 where
  pub kind : CacheIndexEntryKind
  pub hash : Bytes
  pub base_key : Bytes
  pub stored_at_unix_ms : ℕ
  pub tags : List Bytes
  pub body_size_bytes : ℕ
  pub expires_at_unix_ms : ℕ
  pub last_access_unix_ms : ℕ

pub record CacheAccessScheduleTicket : Type 0 where
  pub last_access_unix_ms : ℕ
  pub ticket : ℕ

pub record CacheAccessScheduleEntry : Type 0 where
  pub last_access_unix_ms : ℕ
  pub ticket : ℕ
  pub key : Bytes

-- The fields of `CacheIndex` that its own operations read or change.
pub record CacheIndexState : Type 0 where
  pub entries : Map CacheIndexEntry
  pub hash_ref_counts : Map ℕ
  pub maintenance_next_ticket : ℕ
  pub access_schedule : List CacheAccessScheduleEntry
  pub access_ticket_by_key : Map CacheAccessScheduleTicket

abbrev pub empty_index : CacheIndexState
empty_index = record {
  entries = [];
  hash_ref_counts = [];
  maintenance_next_ticket = 0;
  access_schedule = [];
  access_ticket_by_key = [];
}

-- The derived order of the schedule's entries, and their derived equality.
abbrev cmp_scheduled : CacheAccessScheduleEntry → CacheAccessScheduleEntry → Ordering
cmp_scheduled a b =
    then_cmp (compare a.last_access_unix_ms b.last_access_unix_ms)
      (then_cmp (compare a.ticket b.ticket) (bytes_cmp a.key b.key))

abbrev scheduled_eq : CacheAccessScheduleEntry → CacheAccessScheduleEntry → Bool
scheduled_eq a b =
    (a.last_access_unix_ms == b.last_access_unix_ms)
    && (a.ticket == b.ticket)
    && bytes_eq a.key b.key

abbrev first_of :
    CacheAccessScheduleEntry → List CacheAccessScheduleEntry → CacheAccessScheduleEntry
first_of a [] = a
first_of a (b ∷ rest) = first_of (elim (cmp_scheduled b a) [ Ordering.lt ↦ b | _ ↦ a ]) rest

-- `BTreeSet::first`, `remove` and `insert`.
abbrev pub first : List CacheAccessScheduleEntry → Option CacheAccessScheduleEntry
first [] = none
first (a ∷ rest) = some (first_of a rest)

abbrev pub take_out :
    List CacheAccessScheduleEntry → CacheAccessScheduleEntry → List CacheAccessScheduleEntry
take_out set a = filter (λ b. not (scheduled_eq b a)) set

abbrev pub put_in :
    List CacheAccessScheduleEntry → CacheAccessScheduleEntry → List CacheAccessScheduleEntry
put_in set a = a ∷ take_out set a

pub increment_hash_ref : Map ℕ → Bytes → Map ℕ
increment_hash_ref counts hash = insert counts hash (unwrap_or (get counts hash) 0 + 1)

pub decrement_hash_ref : Map ℕ → Bytes → Map ℕ
decrement_hash_ref counts hash = elim (get counts hash) [
  | none ↦ counts
  | some count ↦
      if count - 1 == 0
      then remove (insert counts hash (count - 1)) hash
      else insert counts hash (count - 1)
]

pub unschedule_entry_access : CacheIndexState → Bytes → CacheIndexState
unschedule_entry_access index key = elim (get index.access_ticket_by_key key) [
  | none ↦ index
  | some ticket ↦ record index {
    access_ticket_by_key = remove index.access_ticket_by_key key;
    access_schedule = take_out index.access_schedule (record {
      last_access_unix_ms = ticket.last_access_unix_ms;
      ticket = ticket.ticket;
      key = key;
    });
  }
]

pub schedule_entry_access : CacheIndexState → Bytes → ℕ → CacheIndexState
unfolding unschedule_entry_access
schedule_entry_access index key last_access =
    let cleared = unschedule_entry_access index key in
    let ticket = cleared.maintenance_next_ticket in
    record cleared {
      maintenance_next_ticket = min (ticket + 1) (2 ^ 64 - 1);
      access_schedule =
          put_in cleared.access_schedule
            (record { last_access_unix_ms = last_access; ticket = ticket; key = key });
      access_ticket_by_key =
          insert cleared.access_ticket_by_key key
            (record { last_access_unix_ms = last_access; ticket = ticket });
    }

abbrev forget : Option CacheIndexEntry → Map ℕ → Map ℕ
forget none counts = counts
forget (some existing) counts = decrement_hash_ref counts existing.hash

pub insert_entry :
    CacheIndexState → Bytes → CacheIndexEntry → CacheIndexState × Option CacheIndexEntry
unfolding increment_hash_ref decrement_hash_ref schedule_entry_access
insert_entry index key entry =
    let existing = get index.entries key in
    let counted = record index {
      entries = insert index.entries key entry;
      hash_ref_counts = increment_hash_ref (forget existing index.hash_ref_counts) entry.hash;
    } in
    (schedule_entry_access counted key entry.last_access_unix_ms, existing)

pub remove_entry : CacheIndexState → Bytes → CacheIndexState × Option CacheIndexEntry
unfolding decrement_hash_ref unschedule_entry_access
remove_entry index key = elim (get index.entries key) [
  | none ↦ (index, none)
  | some removed ↦ (
    unschedule_entry_access
        (record index {
          entries = remove index.entries key;
          hash_ref_counts = decrement_hash_ref index.hash_ref_counts removed.hash;
        })
        key,
    some removed,
  )
]

unfoldable pub hash_is_referenced : CacheIndexState → Bytes → Bool
hash_is_referenced index hash = ltb 0 (unwrap_or (get index.hash_ref_counts hash) 0)

pub reschedule_entry_access : CacheIndexState → Bytes → ℕ → CacheIndexState
unfolding schedule_entry_access
reschedule_entry_access index key last_access =
    if is_some (get index.entries key) then schedule_entry_access index key last_access else index

pub oldest_scheduled_access_unix_ms : CacheIndexState → Option ℕ
oldest_scheduled_access_unix_ms index = elim (first index.access_schedule) [
  | none ↦ none
  | some entry ↦ some entry.last_access_unix_ms
]

pub pop_oldest_scheduled_entry : CacheIndexState → CacheIndexState × Option (Bytes × ℕ)
pop_oldest_scheduled_entry index = elim (first index.access_schedule) [
  | none ↦ (index, none)
  | some scheduled ↦ (
    record index {
      access_schedule = take_out index.access_schedule scheduled;
      access_ticket_by_key = remove index.access_ticket_by_key scheduled.key;
    },
    some (scheduled.key, scheduled.last_access_unix_ms),
  )
]

abbrev pub is_hit_for_pass : CacheIndexEntry → Bool
is_hit_for_pass entry = elim entry.kind [
  | CacheIndexEntryKind.hit_for_pass ↦ true
  | CacheIndexEntryKind.response ↦ false
]
