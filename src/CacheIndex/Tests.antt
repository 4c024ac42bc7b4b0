-- ===== src/CacheIndex/Tests.antt =====
-- Runs of the index, and the example of its theorem.
use rginx.Prelude.{ℕ, ◌≡◌, ◌<◌, ◌↔◌, refl, true, List, [], ◌∷◌, Bytes, codes, some}
use rginx.CacheIndex.{
  CacheIndexEntry, CacheIndexEntryKind, empty_index, hash_is_referenced, insert_entry,
  increment_hash_ref, decrement_hash_ref, schedule_entry_access, unschedule_entry_access,
  oldest_scheduled_access_unix_ms,
}
use rginx.CacheIndex.Counts.{count_hash}
use rginx.CacheIndex.References.{Operation, operations, hash_is_referenced_iff}

abbrev entry : Bytes → ℕ → CacheIndexEntry
entry hash t = record {
  kind = CacheIndexEntryKind.response;
  hash = hash;
  base_key = codes "k";
  stored_at_unix_ms = 1;
  tags = [];
  body_size_bytes = 10;
  expires_at_unix_ms = 100;
  last_access_unix_ms = t;
}

-- Two keys share a body, and one of them is replaced.
abbrev script : List Operation
script =
    Operation.insert_at (codes "a") (entry (codes "h1") 5)
    ∷ Operation.insert_at (codes "b") (entry (codes "h1") 3)
    ∷ Operation.insert_at (codes "a") (entry (codes "h2") 7)
    ∷ []

oldest_is_b :
    oldest_scheduled_access_unix_ms
      (insert_entry
        (insert_entry empty_index (codes "a") (entry (codes "h1") 5)).0
        (codes "b")
        (entry (codes "h1") 3)).0
    ≡ some 3
unfolding oldest_scheduled_access_unix_ms insert_entry increment_hash_ref decrement_hash_ref
    schedule_entry_access unschedule_entry_access
oldest_is_b = refl

hash_is_referenced_iff_example :
    (hash_is_referenced (operations empty_index script) (codes "h1") ≡ true)
    ↔ (0 < count_hash (operations empty_index script).entries (codes "h1"))
hash_is_referenced_iff_example = hash_is_referenced_iff script (codes "h1")
