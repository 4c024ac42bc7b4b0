-- ===== src/Compression/Encode.antt =====
-- crates/rginx-http/src/compression/mod.rs, with the headers that accept_encoding.rs and content_type.rs
-- read and write: the encoding of a response.
pub mod Answered
mod Tests
use rginx.Prelude.{
  ℕ, ◌^◌, ◌≡◌, Bool, true, false, not, ◌&&◌, ◌||◌, Option, none, some, List, [], ◌∷◌, ◌++◌, length,
  is_empty, any, leb, ltb, ◌==◌, if◌then◌else◌, ◌>>=◌, or, Bytes, codes, bytes_eq,
  eq_ignore_ascii_case, trim, split, parse_uint, to_decimal, HeaderMaps, get_header,
  contains_header, Result, err, ok,
}
use rginx.ClientAddress.{join}
use rginx.CacheRange.{Method}
use rginx.Routing.Matcher.{RouteBufferingPolicy}
use rginx.Compression.{
  ContentCoding, coding_name, ResponseCompressionOptions, Libraries, min_bytes, ResponseBody,
  HttpResponse, AcceptedEncodings, record_all, quality_for, choose, parse_accept_encoding_item,
  response_compression_disabled, content_type_is_eligible, max_compressible_response_bytes,
}

-- The values that are text, and the items between their commas.
abbrev pub readable : (Bytes → Option Bytes) → List Bytes → List Bytes
readable to_str [] = []
readable to_str (value ∷ values) =
    let rest = readable to_str values in
    elim (to_str value) [ none ↦ rest | some text ↦ split b',' text ++ rest ]

abbrev pub values_of {ℓ κ} : {A : Type ℓ} → {B : Type κ} → (A → Option B) → List A → List B
values_of f [] = []
values_of f (a ∷ rest) =
    let others = values_of f rest in elim (f a) [ none ↦ others | some b ↦ b ∷ others ]

abbrev pub is_head : Method → Bool
is_head Method.head = true
is_head Method.get = false
is_head (Method.other_method name) = false

-- The tokens that the items name, each once; `none` at a star.
pub vary_tokens : List Bytes → List Bytes → Option (List Bytes)
vary_tokens values [] = some values
vary_tokens values (item ∷ items) =
    let same = vary_tokens values items in
    let more = vary_tokens (values ++ (trim item ∷ [])) items in
    if is_empty (trim item)
    then same
    else if bytes_eq (trim item) (codes "*")
    then none
    else if any (λ existing. eq_ignore_ascii_case existing (trim item)) values
    then same
    else more

abbrev pub with_token : List Bytes → Bytes → List Bytes
with_token values token =
    if any (λ existing. eq_ignore_ascii_case existing token) values
    then values
    else values ++ (token ∷ [])

module _ {Headers Float : Type 0} (libraries : Libraries Headers Float) where
  pub preferred_response_encoding : Headers → Option ContentCoding
  unfolding record_all quality_for choose parse_accept_encoding_item
  preferred_response_encoding headers =
      let accepted =
        record_all libraries.floats (record { brotli_q = none; gzip_q = none; wildcard_q = none })
          (values_of (parse_accept_encoding_item libraries.floats) (
            readable libraries.maps.to_str
              (libraries.maps.get_all headers (codes "accept-encoding")))) in
      choose libraries.floats (quality_for libraries.floats accepted ContentCoding.brotli)
        (quality_for libraries.floats accepted ContentCoding.gzip)

  pub merge_vary_header : Headers → Bytes → Headers
  unfolding vary_tokens
  merge_vary_header headers token =
      elim (vary_tokens []
        (readable libraries.maps.to_str (libraries.maps.get_all headers (codes "vary")))) [
          | none ↦ libraries.maps.insert_header headers (codes "vary") (codes "*")
          | some values ↦ elim (libraries.from_str (join (with_token values token))) [
            | none ↦ libraries.append_header headers (codes "vary") (codes "Accept-Encoding")
            | some value ↦ libraries.maps.insert_header headers (codes "vary") value
          ]
        ]

  pub response_is_eligible : Headers → ℕ → ResponseCompressionOptions → Bool
  unfolding content_type_is_eligible
  response_is_eligible headers status options =
      if (leb 100 status && ltb status 200) || status == 204 || status == 304
      then false
      else if status == 206
          || contains_header libraries.maps headers (codes "content-range")
          || contains_header libraries.maps headers (codes "content-encoding")
      then false
      else elim (get_header libraries.maps headers (codes "content-type")
          >>= libraries.maps.to_str) [
            | none ↦ false
            | some content_type ↦ content_type_is_eligible content_type options
          ]

  pub parse_content_length : Headers → Option ℕ
  parse_content_length headers =
      get_header libraries.maps headers (codes "content-length")
      >>= libraries.maps.to_str
      >>= parse_uint (2 ^ 64)

  abbrev pub exact_size : ResponseBody → Option ℕ
  exact_size (ResponseBody.streamed result hint) = hint
  exact_size (ResponseBody.full bytes) = some (length bytes)

  abbrev pub is_on : RouteBufferingPolicy → Bool
  is_on RouteBufferingPolicy.on = true
  is_on RouteBufferingPolicy.auto = false
  is_on RouteBufferingPolicy.off = false

  pub compression_candidate_length : Headers → ResponseBody → ResponseCompressionOptions → Option ℕ
  unfolding parse_content_length
  compression_candidate_length headers body options =
      or (parse_content_length headers)
        (if is_on options.response_buffering then exact_size body else none)

  pub clear_compression_headers : Headers → Headers
  clear_compression_headers headers =
      libraries.maps.remove_header (libraries.maps.remove_header headers (codes "content-encoding"))
        (codes "content-length")

  -- The digits are always the text of a header.
  pub set_content_length : Headers → ℕ → Headers
  set_content_length headers count =
      libraries.maps.insert_header headers (codes "content-length") (to_decimal count)

  pub buffered_response : HttpResponse Headers → Bytes → HttpResponse Headers
  unfolding clear_compression_headers set_content_length
  buffered_response parts body = record parts {
    headers = set_content_length (clear_compression_headers parts.headers) (length body);
    body = ResponseBody.full body;
  }

  abbrev pub collect : ResponseBody → Result Bytes Bytes
  collect (ResponseBody.streamed result hint) = result
  collect (ResponseBody.full bytes) = ok bytes

  -- Of a body that fails while it is collected.
  pub failed_response : HttpResponse Headers → HttpResponse Headers
  unfolding clear_compression_headers set_content_length
  failed_response parts = record {
    status = 500;
    headers =
        set_content_length
          (libraries.maps.remove_header (clear_compression_headers parts.headers)
            (codes "accept-ranges"))
          0;
    body = ResponseBody.full [];
  }

  pub compressed_response : HttpResponse Headers → ContentCoding → Bytes → HttpResponse Headers
  unfolding clear_compression_headers set_content_length merge_vary_header
  compressed_response parts coding compressed = record parts {
    headers =
        libraries.maps.remove_header
          (set_content_length
            (merge_vary_header
              (libraries.maps.insert_header (clear_compression_headers parts.headers)
                (codes "content-encoding") (coding_name coding))
              (codes "Accept-Encoding"))
            (length compressed))
          (codes "accept-ranges");
    body = ResponseBody.full compressed;
  }

  -- What becomes of the collected body.
  pub encode_collected :
      HttpResponse Headers → ContentCoding → Result Bytes Bytes → HttpResponse Headers
  unfolding buffered_response failed_response compressed_response
  encode_collected parts coding (err error) = failed_response parts
  encode_collected parts coding (ok collected) = elim (libraries.compress coding collected) [
    | err error ↦ buffered_response parts collected
    | ok compressed ↦
        if ltb (length compressed) (length collected)
        then compressed_response parts coding compressed
        else buffered_response parts collected
  ]

  pub maybe_encode_response :
      Method → Headers → ResponseCompressionOptions → HttpResponse Headers → HttpResponse Headers
  unfolding preferred_response_encoding response_is_eligible compression_candidate_length
      encode_collected response_compression_disabled min_bytes
  maybe_encode_response method request_headers options response =
      if response_compression_disabled options
      then response
      else elim (preferred_response_encoding request_headers) [
        | none ↦ response
        | some coding ↦
            if is_head method
            then response
            else if not (response_is_eligible response.headers response.status options)
            then response
            else elim (compression_candidate_length response.headers response.body options) [
              | none ↦ response
              | some content_length ↦
                  if ltb max_compressible_response_bytes content_length
                    || ltb content_length (min_bytes options)
                  then response
                  else encode_collected response coding (collect response.body)
            ]
      ]
