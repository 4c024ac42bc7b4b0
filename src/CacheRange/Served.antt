-- ===== src/CacheRange/Served.antt =====
-- A request for a range is answered by its bytes, from the slice that holds them.
use rginx.Prelude.{
  ℕ, ◌-◌, ◌*◌, ◌/◌, ◌≤◌, ◌≡◌, inl, inr, ◌&&◌, some, leb, ◌==◌, arith, Bool-cases, Option-cases,
  bind-some, Bytes, codes, HeaderMaps, strip_prefix, trim, any,
}
use native.Mathlib.Nat.{div-mul-le_self}
use rginx.CacheRange.{
  CacheableRangeRequest, Method, RouteCachePolicy, within_slice, ordered_range, parse_ends,
  saturating_add, parse_single_bounded_byte_range, cacheable_range_request_for_policy,
  cacheable_range_request_from_parts, cacheable_range_request, cache_key_method, caches_ranges,
  is_get_or_head, only_value,
}

-- The requested bytes lie within those of the slice.
abbrev pub Ordered : CacheableRangeRequest → Type 0
Ordered r =
    (r.cache_start ≤ r.request_start)
    × (r.request_start ≤ r.request_end)
    × (r.request_end ≤ r.cache_end)

within_slice-Ordered :
    (request sliced : CacheableRangeRequest) (slice_size : ℕ)
    → request.request_start ≤ request.request_end
    → within_slice request slice_size ≡ some sliced
    → Ordered sliced
unfolding within_slice
within_slice-Ordered request sliced slice_size h e =
    elim (Bool-cases (
      leb request.request_end
        (saturating_add (request.request_start / slice_size * slice_size) (slice_size - 1)))) [
          | inl f ↦ ground (arith, h, e, f, div-mul-le_self request.request_start slice_size)
          | inr f ↦ absurd (ground (arith, e, f))
        ]

ordered_range-Ordered :
    (ends : ℕ × ℕ) (range : CacheableRangeRequest) → ordered_range ends ≡ some range → Ordered range
unfolding ordered_range
ordered_range-Ordered (start, end) range e = elim (Bool-cases (leb start end)) [
  | inl f ↦ ground (arith, e, f)
  | inr f ↦ absurd (ground (arith, e, f))
]

parse-Ordered :
    (value : Bytes) (range : CacheableRangeRequest)
    → parse_single_bounded_byte_range value ≡ some range
    → Ordered range
unfolding parse_single_bounded_byte_range
parse-Ordered value range e =
    let (rest, _, f) = bind-some (strip_prefix (codes "bytes=") (trim value)) _ range e in
    elim (Bool-cases (any (λ c. c == b',') (trim rest))) [
      | inl c ↦ absurd (ground (arith, f, c))
      | inr c ↦
          let (ends, _, o) = bind-some (parse_ends (trim rest)) ordered_range range (rw c at f) in
          ordered_range-Ordered ends range o
    ]

policy-Ordered :
    (request range : CacheableRangeRequest) (policy : RouteCachePolicy)
    → Ordered request
    → cacheable_range_request_for_policy request policy ≡ some range
    → Ordered range
unfolding cacheable_range_request_for_policy
policy-Ordered request range policy (g, h, k) e = elim (Option-cases policy.slice_size_bytes) [
  | inl s ↦
      let same : some request ≡ some range = rw (cacheable_range_request_for_policy, s) at e in
      ground (arith, same, g, h, k)
  | inr (size, s) ↦
      within_slice-Ordered request range size h (rw (cacheable_range_request_for_policy, s) at e)
]

module _ {Headers : Type 0} (maps : HeaderMaps Headers) where
  parts-Ordered :
      (method : Method) (headers : Headers) (policy : RouteCachePolicy)
      (range : CacheableRangeRequest)
      → cacheable_range_request_from_parts maps method headers policy ≡ some range
      → Ordered range
  unfolding cacheable_range_request_from_parts
  parts-Ordered method headers policy range e =
      elim (Bool-cases (caches_ranges policy.range_requests && is_get_or_head method)) [
        | inr f ↦ absurd (ground (arith, rw (cacheable_range_request_from_parts, f) at e))
        | inl f ↦
            let (value, _, g) =
              bind-some (only_value (maps.get_all headers (codes "range"))) _ range
                (rw (cacheable_range_request_from_parts, f) at e) in
            let (text, _, h) = bind-some (maps.to_str value) _ range g in
            let (request, o, k) = bind-some (parse_single_bounded_byte_range text) _ range h in
            policy-Ordered request range policy (parse-Ordered text request o) k
      ]

  -- Whatever its headers are, the bytes that a request asks for lie in the slice that is cached for it,
  -- and they are not empty.
  pub cacheable_range_request-Ordered :
      (method : Method) (headers : Headers) (policy : RouteCachePolicy)
      (range : CacheableRangeRequest)
      → cacheable_range_request maps method headers policy ≡ some range
      → Ordered range
  unfolding cacheable_range_request
  cacheable_range_request-Ordered method headers policy range e =
      parts-Ordered (cache_key_method method policy) headers policy range e
