-- ===== src/CacheRange/Tests.antt =====
-- Ranges of a small object, and the example of the theorem on them.
use rginx.Prelude.{
  ◌≡◌, refl, true, none, some, List, [], ◌∷◌, if◌then◌else◌, arith, Bytes, codes, bytes_eq,
  HeaderMaps, ok, Polled, data_of, errors_of,
}
use rginx.Prelude.Polled.{pending, frame}
use rginx.Prelude.Frame.{data_frame}
use rginx.CacheRange.{
  CacheableRangeRequest, Method, RouteCachePolicy, CacheRangeRequestPolicy,
  parse_single_bounded_byte_range, parse_ends, ordered_range, cacheable_range_request,
  cacheable_range_request_from_parts, within_slice, cacheable_range_request_for_policy,
  cache_key_method, needs_downstream_trimming, content_range_parts,
  response_content_range_matches_request, upstream_header_value,
}
use rginx.CacheRange.Plan.{
  CachedContentRange, DownstreamRangeTrimPlan, parse_cached_content_range,
  downstream_range_trim_plan,
}
use rginx.CacheRange.Plan.Covered.{downstream_range_trim_plan-serves}
use rginx.CacheRange.Trim.{RangeError, trim_body, poll_ranges}

-- Headers as the function from names to values.
abbrev Headers : Type 0
Headers = Bytes → List Bytes

abbrev maps : HeaderMaps Headers
maps = record {
  get_all = λ headers name. headers name;
  insert_header =
      λ headers name value asked. if bytes_eq name asked then value ∷ [] else headers asked;
  remove_header = λ headers name asked. if bytes_eq name asked then [] else headers asked;
  to_str = λ s. some s;
}

abbrev one_header : Bytes → Bytes → Headers
one_header name value = λ asked. if bytes_eq name asked then value ∷ [] else []

-- Slices of four bytes.
abbrev policy : RouteCachePolicy
policy = record {
  range_requests = CacheRangeRequestPolicy.cache;
  slice_size_bytes = some 4;
  convert_head = true;
}

abbrev asked_for : Headers
asked_for = one_header (codes "range") (codes "bytes=5-6")

abbrev answer : Headers
answer = one_header (codes "content-range") (codes "bytes 4-7/10")

abbrev request : CacheableRangeRequest
request = record { request_start = 5; request_end = 6; cache_start = 4; cache_end = 7 }

abbrev cached : CachedContentRange
cached = record { start = 4; end = 7; total = some 10 }

request_is_sliced : cacheable_range_request maps Method.head asked_for policy ≡ some request
unfolding cacheable_range_request cacheable_range_request_from_parts cache_key_method
    parse_single_bounded_byte_range parse_ends ordered_range cacheable_range_request_for_policy
    within_slice
request_is_sliced = refl

-- A range over two slices, an open one and two ranges are not cached.
over_two_slices :
    cacheable_range_request maps Method.get (one_header (codes "range") (codes "bytes=3-4")) policy
    ≡ none
unfolding cacheable_range_request cacheable_range_request_from_parts cache_key_method
    parse_single_bounded_byte_range parse_ends ordered_range cacheable_range_request_for_policy
    within_slice
over_two_slices = refl

open_range : parse_single_bounded_byte_range (codes "bytes=3-") ≡ none
unfolding parse_single_bounded_byte_range parse_ends
open_range = refl

two_ranges : parse_single_bounded_byte_range (codes "bytes=0-1,3-4") ≡ none
unfolding parse_single_bounded_byte_range
two_ranges = refl

slice_asked_for : upstream_header_value request ≡ codes "bytes=4-7"
unfolding upstream_header_value
slice_asked_for = refl

trimmed : needs_downstream_trimming request ≡ true
unfolding needs_downstream_trimming
trimmed = refl

answer_is_parsed : parse_cached_content_range maps answer ≡ some cached
unfolding parse_cached_content_range content_range_parts parse_ends
answer_is_parsed = refl

answer_matches :
    response_content_range_matches_request maps Method.head policy asked_for answer ≡ true
unfolding response_content_range_matches_request cacheable_range_request
    cacheable_range_request_from_parts cache_key_method parse_single_bounded_byte_range parse_ends
    ordered_range cacheable_range_request_for_policy within_slice content_range_parts
answer_matches = refl

abbrev whole : Bytes
whole = codes "0123456789"

abbrev frames : List (Polled RangeError)
frames = frame (data_frame (codes "45")) ∷ pending ∷ frame (data_frame (codes "67")) ∷ []

downstream_range_trim_plan-serves_example :
    (plan : DownstreamRangeTrimPlan Headers) × (downstream_range_trim_plan maps 206 answer
        Method.head asked_for policy
      ≡ ok (some plan))
    × (data_of (poll_ranges 4 (trim_body frames plan)) ≡ codes "56")
    × (errors_of (poll_ranges 4 (trim_body frames plan)) ≡ [])
downstream_range_trim_plan-serves_example =
    downstream_range_trim_plan-serves maps Method.head policy asked_for answer request cached whole
      frames 3 request_is_sliced trimmed answer_is_parsed answer_matches (omega arith) refl
      (refl, (refl, (refl, tt))) (omega arith)
