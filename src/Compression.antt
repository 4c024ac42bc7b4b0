-- ===== src/Compression.antt =====
-- crates/rginx-http/src/compression: whether and how the body of a response is compressed. Parameters
-- are the encoders, `f32` with its comparisons, and `http` on headers. A body is what collecting it gives.
pub mod Encode
use rginx.Prelude.{
  ℕ, ◌+◌, ◌*◌, ◌/◌, ◌^◌, Bool, true, false, not, ◌&&◌, ◌||◌, Option, none, some, List, [], ◌∷◌,
  ◌++◌, length, is_empty, any, filter, get_elem?, leb, ltb, ◌==◌, if◌then◌else◌, ◌>>=◌, or,
  unwrap_or, Bytes, codes, bytes_eq, starts_with, eq_ignore_ascii_case, trim, split, split_once,
  parse_uint, to_decimal, HeaderMaps, get_header, contains_header, Result, err, ok,
}
use mathlib.Core.List.{map}
use rginx.ClientAddress.{join}
use rginx.Routing.Matcher.{RouteBufferingPolicy, RouteCompressionPolicy}

pub data ContentCoding : Type 0 where
  brotli gzip : ContentCoding

abbrev pub coding_name : ContentCoding → Bytes
coding_name ContentCoding.brotli = codes "br"
coding_name ContentCoding.gzip = codes "gzip"

pub record ResponseCompressionOptions : Type 0 where
  pub response_buffering : RouteBufferingPolicy
  pub compression : RouteCompressionPolicy
  pub compression_min_bytes : Option ℕ
  pub compression_content_types : List Bytes

-- `f32`, and what it is compared with.
pub record Floats (Float : Type 0) : Type 0 where
  pub zero : Float
  pub one : Float
  pub larger : Float → Float → Float
  pub above : Float → Float → Bool
  pub at_least : Float → Float → Bool
  pub parse : Bytes → Option Float

pub record Libraries (Headers Float : Type 0) : Type 0 where
  pub maps : HeaderMaps Headers
  pub append_header : Headers → Bytes → Bytes → Headers
  pub from_str : Bytes → Option Bytes
  pub floats : Floats Float
  pub compress : ContentCoding → Bytes → Result Bytes Bytes

abbrev pub min_compressible_response_bytes : ℕ
min_compressible_response_bytes = 256

abbrev pub max_compressible_response_bytes : ℕ
max_compressible_response_bytes = 1024 * 1024

abbrev pub default_min : RouteCompressionPolicy → ℕ
default_min RouteCompressionPolicy.force = 1
default_min RouteCompressionPolicy.auto = min_compressible_response_bytes
default_min RouteCompressionPolicy.off = min_compressible_response_bytes

pub min_bytes : ResponseCompressionOptions → ℕ
min_bytes options = unwrap_or options.compression_min_bytes (default_min options.compression)

abbrev pub is_off : RouteCompressionPolicy → Bool
is_off RouteCompressionPolicy.off = true
is_off RouteCompressionPolicy.auto = false
is_off RouteCompressionPolicy.force = false

abbrev pub buffers : RouteBufferingPolicy → Bool × Bool
buffers RouteBufferingPolicy.on = (true, false)
buffers RouteBufferingPolicy.off = (false, true)
buffers RouteBufferingPolicy.auto = (false, false)

pub response_compression_disabled : ResponseCompressionOptions → Bool
response_compression_disabled options =
    is_off options.compression || (buffers options.response_buffering).1

pub is_compressible_mime : Bytes → Bool
is_compressible_mime mime =
    starts_with (codes "text/") mime
    || any (bytes_eq mime) (
        codes "application/json"
        ∷ codes "application/problem+json"
        ∷ codes "application/javascript"
        ∷ codes "application/xml"
        ∷ codes "application/xhtml+xml"
        ∷ codes "image/svg+xml"
        ∷ [])

pub content_type_is_eligible : Bytes → ResponseCompressionOptions → Bool
unfolding is_compressible_mime
content_type_is_eligible content_type options =
    let mime = trim (unwrap_or (get_elem? (split b';' content_type) 0) content_type) in
    if is_empty options.compression_content_types
    then is_compressible_mime mime
    else any (λ candidate. eq_ignore_ascii_case (trim candidate) mime)
        options.compression_content_types

pub data ResponseBody : Type 0 where
  streamed : Result Bytes Bytes → Option ℕ → ResponseBody
  full : Bytes → ResponseBody

pub record HttpResponse (Headers : Type 0) : Type 0 where
  pub status : ℕ
  pub headers : Headers
  pub body : ResponseBody

pub record AcceptedEncodings (Float : Type 0) : Type 0 where
  pub brotli_q : Option Float
  pub gzip_q : Option Float
  pub wildcard_q : Option Float

module _ {Float : Type 0} (floats : Floats Float) where
  abbrev pub update : Option Float → Float → Option Float
  update none q = some q
  update (some current) q = some (floats.larger current q)

  pub record_coding : AcceptedEncodings Float → Bytes × Float → AcceptedEncodings Float
  record_coding accepted (coding, q) =
      if eq_ignore_ascii_case coding (codes "br")
      then record accepted { brotli_q = update accepted.brotli_q q }
      else if eq_ignore_ascii_case coding (codes "gzip")
      then record accepted { gzip_q = update accepted.gzip_q q }
      else if bytes_eq coding (codes "*")
      then record accepted { wildcard_q = update accepted.wildcard_q q }
      else accepted

  pub record_all : AcceptedEncodings Float → List (Bytes × Float) → AcceptedEncodings Float
  unfolding record_coding
  record_all accepted [] = accepted
  record_all accepted (item ∷ items) = record_all (record_coding accepted item) items

  pub quality_for : AcceptedEncodings Float → ContentCoding → Float
  quality_for accepted ContentCoding.brotli =
      unwrap_or (or accepted.brotli_q accepted.wildcard_q) floats.zero
  quality_for accepted ContentCoding.gzip =
      unwrap_or (or accepted.gzip_q accepted.wildcard_q) floats.zero

  pub choose : Float → Float → Option ContentCoding
  choose brotli_q gzip_q =
      if floats.above brotli_q floats.zero
      then (if floats.above gzip_q floats.zero && not (floats.at_least brotli_q gzip_q)
          then some ContentCoding.gzip
          else some ContentCoding.brotli)
      else if floats.above gzip_q floats.zero
      then some ContentCoding.gzip
      else none

  -- The parameter `q`, the last one of them, of the parts behind the coding.
  pub parse_quality : Float → List Bytes → Option Float
  parse_quality q [] = some q
  parse_quality q (part ∷ parts) =
      let same = parse_quality q parts in
      elim (split_once b'=' (trim part)) [
        | none ↦ same
        | some (name, value) ↦
            if eq_ignore_ascii_case (trim name) (codes "q")
            then floats.parse (trim value) >>= (λ new. parse_quality new parts)
            else same
      ]

  pub parse_accept_encoding_item : Bytes → Option (Bytes × Float)
  unfolding parse_quality
  parse_accept_encoding_item item = elim (split b';' item) [
    | [] ↦ none
    | coding ∷ parts ↦
        if is_empty (trim coding)
        then none
        else parse_quality floats.one parts >>= (λ q. some (trim coding, q))
  ]
