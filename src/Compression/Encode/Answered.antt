-- ===== src/Compression/Encode/Answered.antt =====
-- What a client is answered with: which headers go with which body.
use rginx.Prelude.{
  ℕ, ◌≡◌, ◌<◌, refl, ◌∙◌, ◌⊎◌, inl, inr, Bool, true, false, not, ◌&&◌, ◌||◌, some, List, [], ◌∷◌,
  length, leb, ltb, ltb→lt, arith, Bool-cases, Option-cases, Result-cases, is_some, is_some_and,
  Bytes, codes, bytes_eq, to_decimal, HeaderLaws, Result, err, ok,
}
use rginx.ClientAddress.{join}
use rginx.CacheRange.{Method}
use rginx.Compression.{
  ContentCoding, coding_name, ResponseCompressionOptions, Libraries, min_bytes, ResponseBody,
  HttpResponse, response_compression_disabled, max_compressible_response_bytes,
}
use rginx.Compression.Encode.{
  readable, with_token, is_head, vary_tokens, preferred_response_encoding, merge_vary_header,
  response_is_eligible, compression_candidate_length, clear_compression_headers, set_content_length,
  buffered_response, collect, failed_response, compressed_response, encode_collected,
  maybe_encode_response,
}

module _ {Headers Float : Type 0} (libraries : Libraries Headers Float) where
  -- `HeaderMap::append` leaves the values of other names alone.
  abbrev pub AppendsApart : Type 0
  AppendsApart =
      (headers : Headers) (name other value : Bytes)
      → bytes_eq name other ≡ false
      → libraries.maps.get_all (libraries.append_header headers name value) other
        ≡ libraries.maps.get_all headers other

  -- The conditions on which a body is collected.
  abbrev pub is_wanted : Method → Headers → ResponseCompressionOptions → HttpResponse Headers → Bool
  is_wanted method request_headers options response =
      not (response_compression_disabled options)
      && is_some (preferred_response_encoding libraries request_headers)
      && not (is_head method)
      && response_is_eligible libraries response.headers response.status options
      && is_some_and (compression_candidate_length libraries response.headers response.body options)
          (λ count. leb (min_bytes options) count && leb count max_compressible_response_bytes)

  -- The length and the coding that the headers name.
  abbrev pub Labelled : Headers → ℕ → List Bytes → Type 0
  Labelled headers count codings =
      (libraries.maps.get_all headers (codes "content-length") ≡ to_decimal count ∷ [])
      × (libraries.maps.get_all headers (codes "content-encoding") ≡ codings)

  -- The answers to a body that was collected.
  pub data Encoded (coding : ContentCoding) (response : HttpResponse Headers)
      : HttpResponse Headers → Type 0 where
    failed :
        (answer : HttpResponse Headers) (error : Bytes)
        → collect libraries response.body ≡ err error
        → answer.status ≡ 500
        → answer.body ≡ ResponseBody.full []
        → Labelled answer.headers 0 []
        → Encoded coding response answer
    plain :
        (answer : HttpResponse Headers) (bytes : Bytes)
        → collect libraries response.body ≡ ok bytes
        → answer.status ≡ response.status
        → answer.body ≡ ResponseBody.full bytes
        → Labelled answer.headers (length bytes) []
        → Encoded coding response answer
    compressed :
        (answer : HttpResponse Headers) (bytes shorter : Bytes)
        → collect libraries response.body ≡ ok bytes
        → libraries.compress coding bytes ≡ ok shorter
        → length shorter < length bytes
        → answer.status ≡ response.status
        → answer.body ≡ ResponseBody.full shorter
        → Labelled answer.headers (length shorter) (coding_name coding ∷ [])
        → libraries.maps.get_all answer.headers (codes "accept-ranges") ≡ []
        → Encoded coding response answer

within-outside :
    (least count : ℕ)
    → (leb least count && leb count max_compressible_response_bytes)
      ≡ not (ltb max_compressible_response_bytes count || ltb count least)
within-outside least count = ground arith

module _ {Headers Float : Type 0} (libraries : Libraries Headers Float)
    (laws : HeaderLaws libraries.maps) (appends : AppendsApart libraries) where
  cleared-coding :
      (headers : Headers)
      → libraries.maps.get_all
          (clear_compression_headers libraries headers)
          (codes "content-encoding")
        ≡ []
  unfolding clear_compression_headers
  cleared-coding headers =
      laws.get_all-remove_other _ (codes "content-length") (codes "content-encoding") refl
      ∙ laws.get_all-remove_header headers (codes "content-encoding")

  -- Of the headers but `content-length`.
  set_content_length-other :
      (headers : Headers) (count : ℕ) (name : Bytes)
      → bytes_eq (codes "content-length") name ≡ false
      → libraries.maps.get_all (set_content_length libraries headers count) name
        ≡ libraries.maps.get_all headers name
  unfolding set_content_length
  set_content_length-other headers count name h =
      laws.get_all-insert_other headers (codes "content-length") name (to_decimal count) h

  set_content_length-length :
      (headers : Headers) (count : ℕ)
      → libraries.maps.get_all (set_content_length libraries headers count) (codes "content-length")
        ≡ to_decimal count ∷ []
  unfolding set_content_length
  set_content_length-length headers count =
      laws.get_all-insert_header headers (codes "content-length") (to_decimal count)

  merge_vary_header-other :
      (headers : Headers) (token name : Bytes)
      → bytes_eq (codes "vary") name ≡ false
      → libraries.maps.get_all (merge_vary_header libraries headers token) name
        ≡ libraries.maps.get_all headers name
  unfolding merge_vary_header
  merge_vary_header-other headers token name h =
      elim (Option-cases (
        vary_tokens []
          (readable libraries.maps.to_str (libraries.maps.get_all headers (codes "vary"))))) [
            | inl e ↦
                rw (e, merge_vary_header)
                  (laws.get_all-insert_other headers (codes "vary") name (codes "*") h)
            | inr (values, e) ↦
                rw (e, merge_vary_header)
                  (elim (Option-cases (libraries.from_str (join (with_token values token)))) [
                    | inl f ↦ rw f (appends headers (codes "vary") name (codes "Accept-Encoding") h)
                    | inr (value, f) ↦
                        rw f (laws.get_all-insert_other headers (codes "vary") name value h)
                  ])
          ]

  buffered-Encoded :
      (response : HttpResponse Headers) (coding : ContentCoding) (bytes : Bytes)
      → collect libraries response.body ≡ ok bytes
      → Encoded libraries coding response (buffered_response libraries response bytes)
  unfolding buffered_response
  buffered-Encoded response coding bytes h = plain _ bytes h refl refl (
    set_content_length-length _ (length bytes),
    set_content_length-other _ (length bytes) (codes "content-encoding") refl
        ∙ cleared-coding response.headers,
  )

  failed-Encoded :
      (response : HttpResponse Headers) (coding : ContentCoding) (error : Bytes)
      → collect libraries response.body ≡ err error
      → Encoded libraries coding response (failed_response libraries response)
  unfolding failed_response
  failed-Encoded response coding error h = failed _ error h refl refl (
    set_content_length-length _ 0,
    set_content_length-other _ 0 (codes "content-encoding") refl
        ∙ laws.get_all-remove_other _ (codes "accept-ranges") (codes "content-encoding") refl
        ∙ cleared-coding response.headers,
  )

  compressed-Encoded :
      (response : HttpResponse Headers) (coding : ContentCoding) (bytes shorter : Bytes)
      → collect libraries response.body ≡ ok bytes
      → libraries.compress coding bytes ≡ ok shorter
      → length shorter < length bytes
      → Encoded libraries coding response (compressed_response libraries response coding shorter)
  unfolding compressed_response
  compressed-Encoded response coding bytes shorter h c l =
      compressed _ bytes shorter h c l refl refl
        (
          laws.get_all-remove_other _ (codes "accept-ranges") (codes "content-length") refl
              ∙ set_content_length-length _ (length shorter),
          laws.get_all-remove_other _ (codes "accept-ranges") (codes "content-encoding") refl
              ∙ set_content_length-other _ (length shorter) (codes "content-encoding") refl
              ∙ merge_vary_header-other _ (codes "Accept-Encoding") (codes "content-encoding") refl
              ∙ laws.get_all-insert_header _ (codes "content-encoding") (coding_name coding),
        )
        (laws.get_all-remove_header _ (codes "accept-ranges"))

  encode_collected-Encoded :
      (response : HttpResponse Headers) (coding : ContentCoding) (result : Result Bytes Bytes)
      → collect libraries response.body ≡ result
      → Encoded libraries coding response (encode_collected libraries response coding result)
  unfolding encode_collected
  encode_collected-Encoded response coding (err error) h = failed-Encoded response coding error h
  encode_collected-Encoded response coding (ok bytes) h =
      elim (Result-cases (libraries.compress coding bytes)) [
        | inl (error, e) ↦ rw (e, encode_collected) (buffered-Encoded response coding bytes h)
        | inr (shorter, e) ↦
            rw (e, encode_collected)
              (elim (Bool-cases (ltb (length shorter) (length bytes))) [
                | inl l ↦ rw l (compressed-Encoded response coding bytes shorter h e (ltb→lt _ _ l))
                | inr l ↦ rw l (buffered-Encoded response coding bytes h)
              ])
      ]

  -- If one of the conditions `is_wanted` fails, the response is passed on as it is. If they all hold,
  -- there is a preferred coding and, with what `http` documents of headers: a body that cannot be
  -- collected becomes an empty one with the status 500; any other answer keeps the status and has as
  -- its body either the collected one, and no Content-Encoding, or what the encoder of that coding
  -- made of it, which is shorter, with that Content-Encoding and without Accept-Ranges. Content-Length
  -- is the length of the body that is sent.
  pub maybe_encode_response-Encoded :
      (method : Method) (request_headers : Headers) (options : ResponseCompressionOptions)
      (response : HttpResponse Headers)
      → ((is_wanted libraries method request_headers options response ≡ false)
          × (maybe_encode_response libraries method request_headers options response ≡ response))
        ⊎ ((is_wanted libraries method request_headers options response ≡ true)
            × (coding : ContentCoding) × (preferred_response_encoding libraries request_headers
                ≡ some coding)
            × Encoded libraries coding response
                (maybe_encode_response libraries method request_headers options response))
  unfolding maybe_encode_response
  maybe_encode_response-Encoded method request_headers options response =
      elim (Bool-cases (response_compression_disabled options)) [
        | inl d ↦ rw (d, maybe_encode_response) (inl (refl, refl))
        | inr d ↦
            rw d (elim (Option-cases (preferred_response_encoding libraries request_headers)) [
              | inl p ↦ rw p (inl (refl, refl))
              | inr (coding, p) ↦ rw p (elim (Bool-cases (is_head method)) [
                | inl m ↦ rw m (inl (refl, refl))
                | inr m ↦
                    rw m
                      (elim (Bool-cases
                        (response_is_eligible libraries response.headers response.status options)) [
                          | inr e ↦ rw e (inl (refl, refl))
                          | inl e ↦
                              rw e
                                (elim (Option-cases (
                                  compression_candidate_length libraries response.headers
                                    response.body options)) [
                                      | inl c ↦ rw c (inl (refl, refl))
                                      | inr (count, c) ↦
                                          rw c
                                            (elim (Bool-cases (
                                              ltb max_compressible_response_bytes count
                                              || ltb count (min_bytes options))) [
                                                | inl o ↦
                                                    rw (within-outside (min_bytes options) count, o)
                                                      (inl (refl, refl))
                                                | inr o ↦
                                                    rw (within-outside (min_bytes options) count, o)
                                                      (inr (
                                                        refl,
                                                        coding,
                                                        refl,
                                                        encode_collected-Encoded response coding _
                                                            refl,
                                                      ))
                                              ])
                                    ])
                        ])
              ])
            ])
      ]
