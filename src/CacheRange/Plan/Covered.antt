-- ===== src/CacheRange/Plan/Covered.antt =====
-- A request for a range is answered by its bytes, from the slice that holds them.
use rginx.Prelude.{
  ℕ, suc, ◌+◌, ◌-◌, ◌<◌, ◌≤◌, ◌≡◌, refl, ◌∙◌, min, true, false, ◌||◌, Option, some, List, [],
  length, take, drop, take-drop-slice, length-take, length-drop, ltb, ◌==◌, arith, bind-some, All,
  Bytes, HeaderMaps, ok, Polled, data_of, errors_of, goes_on, trim,
}
use rginx.CacheRange.{
  CacheableRangeRequest, Method, RouteCachePolicy, parse_ends, cacheable_range_request,
  content_range_parts, needs_downstream_trimming, response_content_range_matches_request,
}
use rginx.CacheRange.Plan.{
  CachedContentRange, DownstreamRangeTrimPlan, parse_total, parse_cached_content_range,
  update_downstream_range_headers, plan_within, plan_for, downstream_range_trim_plan,
}
use rginx.CacheRange.Served.{Ordered, cacheable_range_request-Ordered}
use rginx.CacheRange.Trim.{RangeError, trim_body, poll_ranges}
use rginx.CacheRange.Trim.Sent.{poll_ranges-sent}

ends-same :
    (start end : ℕ) (known : Option ℕ) (cached : CachedContentRange)
    → ◌≡◌ {A = Option CachedContentRange}
        (some record { start = start; end = end; total = known })
        (some cached)
    → ◌≡◌ {A = Option (ℕ × ℕ)} (some (start, end)) (some (cached.start, cached.end))
ends-same start end known cached h = cc

-- The cached range starts where the slice does and holds what is asked for.
abbrev pub Covers : CacheableRangeRequest → CachedContentRange → Type 0
Covers request cached =
    (cached.start ≡ request.cache_start)
    × (request.request_end ≤ cached.end)
    × (cached.end ≤ request.cache_end)

module _ {Headers : Type 0} (maps : HeaderMaps Headers) where
  -- What a header Content-Range says if it is parsed.
  parsed-ends :
      (headers : Headers) (cached : CachedContentRange)
      → parse_cached_content_range maps headers ≡ some cached
      → (range total : Bytes) × (content_range_parts maps headers ≡ some (range, total))
        × (parse_ends range ≡ some (cached.start, cached.end))
  unfolding parse_cached_content_range
  parsed-ends headers cached e =
      let ((range, total), p, f) = bind-some (content_range_parts maps headers) _ cached e in
      let ((start, end), q, g) = bind-some (parse_ends range) _ cached f in
      let (known, _, h) = bind-some (parse_total (trim total)) _ cached g in
      (range, total, p, q ∙ ends-same start end known cached h)

  matches-Covers :
      (method : Method) (policy : RouteCachePolicy) (request_headers headers : Headers)
      (request : CacheableRangeRequest) (cached : CachedContentRange)
      → cacheable_range_request maps method request_headers policy ≡ some request
      → parse_cached_content_range maps headers ≡ some cached
      → response_content_range_matches_request maps method policy request_headers headers ≡ true
      → Covers request cached
  unfolding response_content_range_matches_request
  matches-Covers method policy request_headers headers request cached r c m =
      let (range, total, p, q) = parsed-ends headers cached c in
      let tests = rw (response_content_range_matches_request, r, p, q) at m in ground (arith, tests)

  plan_within-ok :
      (request : CacheableRangeRequest) (cached : CachedContentRange) (headers : Headers)
      → Ordered request
      → Covers request cached
      → plan_within maps request cached headers
        ≡ ok record {
          headers =
              update_downstream_range_headers maps headers request.request_start request.request_end
                cached.total
                (request.request_end - request.request_start + 1);
          skip_bytes = request.request_start - cached.start;
          emit_bytes = request.request_end - request.request_start + 1;
        }
  unfolding plan_within
  plan_within-ok request cached headers (a, b, c) (d, e, f) =
      let end : min request.request_end cached.end ≡ request.request_end = omega (arith, e) in
      let starts : (cached.start == request.cache_start) ≡ true = ground (arith, d) in
      let fits : (ltb request.request_start cached.start
            || ltb request.request_end request.request_start)
          ≡ false =
        ground (arith, a, b, d) in
      rw (plan_within, end, starts, fits) refl

  slice_data :
      (request : CacheableRangeRequest) (cached : CachedContentRange) (whole : Bytes)
      → Ordered request
      → Covers request cached
      → cached.end < length whole
      → (take (request.request_end - request.request_start + 1) (
            drop
              (request.request_start - cached.start)
              (take (cached.end - cached.start + 1) (drop cached.start whole)))
          ≡ take
              (request.request_end - request.request_start + 1)
              (drop request.request_start whole))
        × (ltb (length (take (cached.end - cached.start + 1) (drop cached.start whole))) (
              request.request_start
              - cached.start
              + (request.request_end - request.request_start + 1))
            ≡ false)
  slice_data request cached whole (a, b, c) (d, e, f) fits =
      let before : cached.start + (request.request_start - cached.start) ≡ request.request_start =
        omega (arith, a, d) in
      let all : cached.end - cached.start + 1
          ≡ request.request_start
            - cached.start
            + (request.request_end
                - request.request_start
                + 1
                + (cached.end - request.request_end)) =
        omega (arith, a, b, d, e) in
      let long : length (take (cached.end - cached.start + 1) (drop cached.start whole))
          ≡ cached.end - cached.start + 1 =
        omega (
          arith,
          length-take (cached.end - cached.start + 1) (drop cached.start whole),
          length-drop cached.start whole,
          a,
          b,
          d,
          e,
          fits,
        ) in
      (
        rw
            (
              all,
              take-drop-slice cached.start (request.request_start - cached.start)
                  (request.request_end - request.request_start + 1)
                  (cached.end - request.request_end) whole,
              before,
            )
            refl,
        rw long (ground (arith, a, b, d, e)),
      )

  -- For a request of a range that is cached in slices and needs trimming, and an answer 206 whose header
  -- Content-Range is parsed and accepted, with the bytes of an object that it names in its body, however
  -- they are cut into frames: there is a plan, and the trimmed body sends the requested bytes of
  -- the object, all of them and without an error.
  pub downstream_range_trim_plan-serves :
      (method : Method) (policy : RouteCachePolicy) (request_headers headers : Headers)
      (request : CacheableRangeRequest) (cached : CachedContentRange) (whole : Bytes)
      (inner : List (Polled RangeError)) (n : ℕ)
      → cacheable_range_request maps method request_headers policy ≡ some request
      → needs_downstream_trimming request ≡ true
      → parse_cached_content_range maps headers ≡ some cached
      → response_content_range_matches_request maps method policy request_headers headers ≡ true
      → cached.end < length whole
      → data_of inner ≡ take (cached.end - cached.start + 1) (drop cached.start whole)
      → All (λ p. goes_on p ≡ true) inner
      → length inner ≤ n
      → (plan : DownstreamRangeTrimPlan Headers) × (downstream_range_trim_plan maps 206 headers
            method request_headers policy
          ≡ ok (some plan))
        × (data_of (poll_ranges (suc n) (trim_body inner plan))
            ≡ take
                (request.request_end - request.request_start + 1)
                (drop request.request_start whole))
        × (errors_of (poll_ranges (suc n) (trim_body inner plan)) ≡ [])
  unfolding downstream_range_trim_plan plan_for
  downstream_range_trim_plan-serves method policy request_headers headers request cached whole inner
        n r t c m fits body goes enough =
      let ordered = cacheable_range_request-Ordered maps method request_headers policy request r in
      let covers = matches-Covers method policy request_headers headers request cached r c m in
      let (bytes, full) = slice_data request cached whole ordered covers fits in
      let (d, f) =
        poll_ranges-sent inner n (request.request_start - cached.start)
          (request.request_end - request.request_start + 1) goes (omega arith) enough in
      (
        record {
          headers =
              update_downstream_range_headers maps headers request.request_start request.request_end
                cached.total (request.request_end - request.request_start + 1);
          skip_bytes = request.request_start - cached.start;
          emit_bytes = request.request_end - request.request_start + 1;
        },
        rw
            (
              downstream_range_trim_plan,
              r,
              t,
              m,
              plan_for,
              c,
              plan_within-ok request cached headers ordered covers,
            )
            refl,
        d ∙ rw (body, bytes) refl,
        f ∙ rw (body, full) refl,
      )
