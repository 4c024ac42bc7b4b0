-- ===== src/Compression/Encode/Tests.antt =====
-- A text that is compressed, and the example of the theorem on responses.
use rginx.Prelude.{
  ℕ, ◌≡◌, refl, ◌⊎◌, true, false, Option, none, some, List, [], ◌∷◌, ◌++◌, if◌then◌else◌, ltb, leb,
  max, Bytes, codes, bytes_eq, bytes_eq_refl, HeaderLaws, ok,
}
use rginx.CacheRange.{Method}
use rginx.Routing.Matcher.{RouteBufferingPolicy, RouteCompressionPolicy}
use rginx.Compression.{
  ContentCoding, ResponseCompressionOptions, Libraries, ResponseBody, HttpResponse,
}
use rginx.Compression.Encode.{preferred_response_encoding, merge_vary_header, maybe_encode_response}
use rginx.Compression.Encode.Answered.{
  AppendsApart, is_wanted, Encoded, maybe_encode_response-Encoded,
}

abbrev Headers : Type 0
Headers = Bytes → List Bytes

abbrev put : Headers → Bytes → List Bytes → Headers
put headers name values asked = if bytes_eq name asked then values else headers asked

-- A quality in tenths.
abbrev tenths : Bytes → Option ℕ
tenths s =
    if bytes_eq s (codes "0")
    then some 0
    else if bytes_eq s (codes "0.5")
    then some 5
    else if bytes_eq s (codes "1")
    then some 10
    else none

abbrev libraries : Libraries Headers ℕ
libraries = record {
  maps = record {
    get_all = λ headers name. headers name;
    insert_header = λ headers name value. put headers name (value ∷ []);
    remove_header = λ headers name. put headers name [];
    to_str = λ s. some s;
  };
  append_header = λ headers name value. put headers name (headers name ++ (value ∷ []));
  from_str = λ s. some s;
  floats = record {
    zero = 0;
    one = 10;
    larger = max;
    above = λ a b. ltb b a;
    at_least = λ a b. leb b a;
    parse = tenths;
  };
  compress = λ coding s. ok (codes "short");
}

laws : HeaderLaws libraries.maps
laws = record {
  get_all-insert_header = λ headers name value. rw (bytes_eq_refl name) refl;
  get_all-insert_other = λ headers name other value h. rw h refl;
  visible-to_str = λ s h. refl;
  get_all-remove_header = λ headers name. rw (bytes_eq_refl name) refl;
  get_all-remove_other = λ headers name other h. rw h refl;
}

appends_apart : AppendsApart libraries
appends_apart headers name other value h = rw h refl

abbrev asking : Bytes → Headers
asking value = put (λ name. []) (codes "accept-encoding") (value ∷ [])

-- At the same quality it is Brotli, and a coding of quality zero is not taken.
same_quality :
    preferred_response_encoding libraries (asking (codes "gzip, BR;q=1"))
    ≡ some ContentCoding.brotli
unfolding preferred_response_encoding
same_quality = refl

wildcard :
    preferred_response_encoding libraries (asking (codes "br;q=0, *;q=0.5"))
    ≡ some ContentCoding.gzip
unfolding preferred_response_encoding
wildcard = refl

star :
    merge_vary_header libraries
      (put (λ name. []) (codes "vary") (codes "Origin, *" ∷ []))
      (codes "Accept-Encoding")
      (codes "vary")
    ≡ codes "*" ∷ []
unfolding merge_vary_header
star = refl

merged :
    merge_vary_header libraries
      (put (λ name. []) (codes "vary") (codes "Origin, origin" ∷ []))
      (codes "Accept-Encoding")
      (codes "vary")
    ≡ codes "Origin, Accept-Encoding" ∷ []
unfolding merge_vary_header
merged = refl

abbrev options : ResponseCompressionOptions
options = record {
  response_buffering = RouteBufferingPolicy.on;
  compression = RouteCompressionPolicy.force;
  compression_min_bytes = none;
  compression_content_types = [];
}

abbrev page : HttpResponse Headers
page = record {
  status = 200;
  headers = put (λ name. []) (codes "content-type") (codes "text/html; charset=utf-8" ∷ []);
  body = ResponseBody.full (codes "a longer text");
}

sent :
    (maybe_encode_response libraries Method.get (asking (codes "gzip")) options page).body
    ≡ ResponseBody.full (codes "short")
unfolding maybe_encode_response
sent = refl

maybe_encode_response-Encoded_example :
    ((is_wanted libraries Method.get (asking (codes "gzip")) options page ≡ false)
      × (maybe_encode_response libraries Method.get (asking (codes "gzip")) options page ≡ page))
    ⊎ ((is_wanted libraries Method.get (asking (codes "gzip")) options page ≡ true)
        × (coding : ContentCoding) × (preferred_response_encoding libraries (asking (codes "gzip"))
            ≡ some coding)
        × Encoded libraries coding page
            (maybe_encode_response libraries Method.get (asking (codes "gzip")) options page))
maybe_encode_response-Encoded_example =
    maybe_encode_response-Encoded libraries laws appends_apart Method.get (asking (codes "gzip"))
      options page
