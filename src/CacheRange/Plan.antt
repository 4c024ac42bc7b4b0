-- ===== src/CacheRange/Plan.antt =====
-- crates/rginx-http/src/cache/entry/response.rs: which bytes of a cached slice answer a request.
pub mod Covered
use rginx.Prelude.{
  ℕ, ◌+◌, ◌-◌, min, Bool, true, false, not, ◌&&◌, ◌||◌, Option, none, some, List, [], ◌∷◌, ◌++◌,
  leb, ltb, ◌==◌, if◌then◌else◌, ◌>>=◌, Bytes, codes, bytes_eq, trim, to_decimal, HeaderMaps,
  Result, err, ok, and_then,
}
use rginx.CacheRange.{
  CacheableRangeRequest, Method, RouteCachePolicy, parse_u64, parse_ends, cacheable_range_request,
  needs_downstream_trimming, content_range_parts, response_content_range_matches_request,
}

pub record CachedContentRange : Type 0 where
  pub start : ℕ
  pub end : ℕ
  pub total : Option ℕ

-- The errors of kind `InvalidData`.
pub data InvalidRange : Type 0 where
  invalid_content_range unexpected_start not_satisfiable : InvalidRange

pub record DownstreamRangeTrimPlan (Headers : Type 0) : Type 0 where
  pub headers : Headers
  pub skip_bytes : ℕ
  pub emit_bytes : ℕ

abbrev pub parse_total : Bytes → Option (Option ℕ)
parse_total text =
    if bytes_eq text (codes "*") then some none else parse_u64 text >>= λ total. some (some total)

abbrev pub partial_content : ℕ
partial_content = 206

abbrev pub total_text : Option ℕ → Bytes
total_text none = codes "*"
total_text (some total) = to_decimal total

module _ {Headers : Type 0} (maps : HeaderMaps Headers) where
  unfoldable pub parse_cached_content_range : Headers → Option CachedContentRange
  parse_cached_content_range headers = content_range_parts maps headers >>= λ (range, total).
      parse_ends range >>= λ (start, end). do
        known ← parse_total (trim total)
        some record { start = start; end = end; total = known }

  pub update_downstream_range_headers : Headers → ℕ → ℕ → Option ℕ → ℕ → Headers
  update_downstream_range_headers headers response_start response_end total response_len =
      maps.insert_header
        (maps.insert_header headers (codes "content-length") (to_decimal response_len))
        (codes "content-range")
        (codes "bytes "
          ++ (to_decimal response_start
              ++ b'-' ∷ (to_decimal response_end ++ b'/' ∷ total_text total)))

  -- The checks of the cached range against the requested one, and the plan.
  pub plan_within :
      CacheableRangeRequest
      → CachedContentRange
      → Headers
      → Result InvalidRange (DownstreamRangeTrimPlan Headers)
  plan_within request cached headers =
      let response_end = min request.request_end cached.end in
      if not (cached.start == request.cache_start)
      then err InvalidRange.unexpected_start
      else if ltb request.request_start cached.start || ltb response_end request.request_start
      then err InvalidRange.not_satisfiable
      else ok record {
        headers =
            update_downstream_range_headers headers request.request_start response_end cached.total
              (response_end - request.request_start + 1);
        skip_bytes = request.request_start - cached.start;
        emit_bytes = response_end - request.request_start + 1;
      }

  pub plan_for :
      CacheableRangeRequest → Headers → Result InvalidRange (DownstreamRangeTrimPlan Headers)
  plan_for request headers = elim (parse_cached_content_range headers) [
    | none ↦ err InvalidRange.invalid_content_range
    | some cached ↦ plan_within request cached headers
  ]

  -- `none` where the slice is sent on as it is.
  pub downstream_range_trim_plan :
      ℕ
      → Headers
      → Method
      → Headers
      → RouteCachePolicy
      → Result InvalidRange (Option (DownstreamRangeTrimPlan Headers))
  downstream_range_trim_plan status headers method request_headers policy =
      elim (cacheable_range_request maps method request_headers policy) [
        | none ↦ ok none
        | some request ↦
            if not (needs_downstream_trimming request)
              || (not (status == partial_content)
                  || not (
                      response_content_range_matches_request maps method policy request_headers
                        headers))
            then ok none
            else and_then (plan_for request headers) (λ plan. ok (some plan))
      ]
