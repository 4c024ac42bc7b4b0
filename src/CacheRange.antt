-- ===== src/CacheRange.antt =====
-- crates/rginx-http/src/cache/request.rs and cache/entry/response.rs: requests for a range of bytes,
-- which the cache keeps as aligned slices. A `u64` is a number below 2 ^ 64. `http::HeaderMap` and the
-- numbers of `http::StatusCode` are parameters.
pub mod Plan
pub mod Trim
pub mod Served
mod Tests
use rginx.Prelude.{
  ℕ, ◌+◌, ◌-◌, ◌*◌, ◌/◌, ◌^◌, min, Bool, true, false, not, ◌&&◌, ◌||◌, Option, none, some, List, [],
  ◌∷◌, ◌++◌, length, is_empty, any, leb, ltb, ◌==◌, if◌then◌else◌, ◌>>=◌, is_some, Bytes, codes,
  bytes_eq, strip_prefix, trim, parse_uint, to_decimal, HeaderMaps, get_header, split_once, Result,
  err, ok, and_then,
}

pub record CacheableRangeRequest : Type 0 where
  pub request_start : ℕ
  pub request_end : ℕ
  pub cache_start : ℕ
  pub cache_end : ℕ

pub data Method : Type 0 where
  get head : Method
  other_method : Bytes → Method

pub data CacheRangeRequestPolicy : Type 0 where
  bypass cache : CacheRangeRequestPolicy

pub record RouteCachePolicy : Type 0 where
  pub range_requests : CacheRangeRequestPolicy
  pub slice_size_bytes : Option ℕ
  pub convert_head : Bool

abbrev pub u64_bound : ℕ
u64_bound = 2 ^ 64

-- `u64::saturating_add`.
abbrev pub saturating_add : ℕ → ℕ → ℕ
saturating_add a b = min (a + b) (u64_bound - 1)

abbrev pub parse_u64 : Bytes → Option ℕ
parse_u64 s = parse_uint u64_bound s

abbrev pub is_get_or_head : Method → Bool
is_get_or_head Method.get = true
is_get_or_head Method.head = true
is_get_or_head (Method.other_method name) = false

abbrev pub caches_ranges : CacheRangeRequestPolicy → Bool
caches_ranges CacheRangeRequestPolicy.bypass = false
caches_ranges CacheRangeRequestPolicy.cache = true

pub cache_key_method : Method → RouteCachePolicy → Method
cache_key_method Method.head policy = if policy.convert_head then Method.get else Method.head
cache_key_method Method.get policy = Method.get
cache_key_method (Method.other_method name) policy = Method.other_method name

-- The ends of a range, in front of and behind the separator, without blanks.
pub parse_ends : Bytes → Option (ℕ × ℕ)
parse_ends value = split_once b'-' value >>= λ (start, end). do
  s ← parse_u64 (trim start)
  e ← parse_u64 (trim end)
  some (s, e)

pub ordered_range : ℕ × ℕ → Option CacheableRangeRequest
ordered_range (start, end) =
    if leb start end
    then some
        record { request_start = start; request_end = end; cache_start = start; cache_end = end }
    else none

-- The tests on empty ends are those that `parse::<u64>` makes.
pub parse_single_bounded_byte_range : Bytes → Option CacheableRangeRequest
parse_single_bounded_byte_range value = strip_prefix (codes "bytes=") (trim value) >>= λ rest.
    if any (λ c. c == b',') (trim rest) then none else parse_ends (trim rest) >>= ordered_range

pub within_slice : CacheableRangeRequest → ℕ → Option CacheableRangeRequest
within_slice request slice_size =
    let slice_start = request.request_start / slice_size * slice_size in
    let slice_end = saturating_add slice_start (slice_size - 1) in
    if leb request.request_end slice_end
    then some record {
      request_start = request.request_start;
      request_end = request.request_end;
      cache_start = slice_start;
      cache_end = slice_end;
    }
    else none

pub cacheable_range_request_for_policy :
    CacheableRangeRequest → RouteCachePolicy → Option CacheableRangeRequest
cacheable_range_request_for_policy request policy = elim policy.slice_size_bytes [
  | none ↦ some request
  | some slice_size ↦ within_slice request slice_size
]

pub upstream_header_value : CacheableRangeRequest → Bytes
upstream_header_value range =
    codes "bytes=" ++ (to_decimal range.cache_start ++ b'-' ∷ to_decimal range.cache_end)

pub needs_downstream_trimming : CacheableRangeRequest → Bool
needs_downstream_trimming range =
    not (range.request_start == range.cache_start) || not (range.request_end == range.cache_end)

abbrev pub only_value : List Bytes → Option Bytes
only_value [] = none
only_value (value ∷ []) = some value
only_value (value ∷ next ∷ rest) = none

module _ {Headers : Type 0} (maps : HeaderMaps Headers) where
  pub cacheable_range_request_from_parts :
      Method → Headers → RouteCachePolicy → Option CacheableRangeRequest
  cacheable_range_request_from_parts method headers policy =
      if caches_ranges policy.range_requests && is_get_or_head method
      then (do
        value ← only_value (maps.get_all headers (codes "range"))
        text ← maps.to_str value
        request ← parse_single_bounded_byte_range text
        cacheable_range_request_for_policy request policy)
      else none

  pub cacheable_range_request : Method → Headers → RouteCachePolicy → Option CacheableRangeRequest
  cacheable_range_request method headers policy =
      cacheable_range_request_from_parts (cache_key_method method policy) headers policy

  pub apply_upstream_range_headers : Method → Headers → RouteCachePolicy → Headers
  apply_upstream_range_headers method headers policy =
      elim (cacheable_range_request_from_parts (cache_key_method method policy) headers policy) [
        | none ↦ headers
        | some range ↦
            maps.insert_header (maps.remove_header headers (codes "range")) (codes "range")
              (upstream_header_value range)
      ]

  -- The part in front of the total of a header Content-Range, and the total's text.
  pub content_range_parts : Headers → Option (Bytes × Bytes)
  content_range_parts headers = do
    value ← get_header maps headers (codes "content-range")
    text ← maps.to_str value
    range ← strip_prefix (codes "bytes ") (trim text)
    split_once b'/' range

  pub response_content_range_matches_request : Method → RouteCachePolicy → Headers → Headers → Bool
  response_content_range_matches_request method policy request_headers headers =
      elim (cacheable_range_request method request_headers policy) [
        | none ↦ false
        | some expected ↦
            elim (content_range_parts headers >>= λ (range, total). parse_ends range) [
              | none ↦ false
              | some (start, end) ↦
                  start == expected.cache_start
                  && leb expected.request_end end
                  && leb end expected.cache_end
            ]
      ]
