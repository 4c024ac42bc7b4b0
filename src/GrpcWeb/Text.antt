-- ===== src/GrpcWeb/Text.antt =====
-- A body of gRPC-Web text does not depend on how it is cut into chunks.
pub mod Decode
use rginx.Prelude.{
  ℕ, suc, ◌+◌, ◌-◌, ◌*◌, ◌/◌, ◌%◌, ◌<◌, ◌≤◌, ◌≡◌, refl, sym, ap, ◌∙◌, inl, inr, Bool, true, false,
  not, Option, none, some, List, [], ◌∷◌, ◌++◌, length, is_empty, take, drop, filter, unwrap_or,
  ◌==◌, if◌then◌else◌, arith, Bool-cases, append_assoc, append-nil, length-append, length-take,
  length-drop, take-append-drop, All, Bytes, Result, err, ok, and_then, Result-cases,
}
use native.Mathlib.Nat.{div-mul-le_self, lt-div-mul-add}
use rginx.GrpcWeb.{
  Base64, InvalidBody, decode_quanta, full_quanta, unless_empty, is_ascii_whitespace,
  decode_grpc_web_text_chunk, decode_grpc_web_text_final, encode_grpc_web_text_chunk,
  flush_grpc_web_text_chunk,
}

-- What RFC 4648 says of the engines: groups of three bytes are four characters each, which are not
-- white space and are decoded by themselves; only a last, shorter group is padded.
pub record Base64Laws (base64 : Base64) : Type 0 where
  pub encode-nil : base64.encode [] ≡ []
  pub encode-group :
      (a b c : ℕ) (s : Bytes)
      → base64.encode (a ∷ b ∷ c ∷ s) ≡ base64.encode (a ∷ b ∷ c ∷ []) ++ base64.encode s
  pub encode_no_pad-whole :
      (s : Bytes) → length s % 3 ≡ 0 → base64.encode_no_pad s ≡ base64.encode s
  pub length-encode : (q : Bytes) → 0 < length q → length q ≤ 3 → length (base64.encode q) ≡ 4
  pub decode-encode :
      (q : Bytes) → 0 < length q → length q ≤ 3 → base64.decode (base64.encode q) ≡ some q
  pub encode-printed : (s : Bytes) → All (λ c. is_ascii_whitespace c ≡ false) (base64.encode s)

abbrev pub concat : List Bytes → Bytes
concat [] = []
concat (s ∷ rest) = s ++ concat rest

pub full_quanta-bounds :
    (size : ℕ) (s : Bytes)
    → 0 < size
    → (full_quanta size s ≤ length s) × (length s < full_quanta size s + size)
full_quanta-bounds size s h = (div-mul-le_self (length s) size, lt-div-mul-add h)

module _ (base64 : Base64) where
  -- All chunks are encoded, and what is carried over at the end.
  abbrev pub encode_chunks : Bytes → List Bytes → Bytes
  encode_chunks carryover [] = unwrap_or (flush_grpc_web_text_chunk base64 carryover).0 []
  encode_chunks carryover (chunk ∷ chunks) =
      let (out, left) = encode_grpc_web_text_chunk base64 carryover chunk in
      unwrap_or out [] ++ encode_chunks left chunks

  abbrev pub decode_chunks : Bytes → List Bytes → Result InvalidBody Bytes
  decode_chunks carryover [] =
      and_then (decode_grpc_web_text_final base64 carryover).0 (λ out. ok (unwrap_or out []))
  decode_chunks carryover (chunk ∷ chunks) =
      let (out, left) = decode_grpc_web_text_chunk base64 carryover chunk in
      and_then out
        (λ first. and_then (decode_chunks left chunks) (λ rest. ok (unwrap_or first [] ++ rest)))

  module _ (laws : Base64Laws base64) where
    encode-append :
        (xs ys : Bytes)
        → length xs % 3 ≡ 0
        → base64.encode (xs ++ ys) ≡ base64.encode xs ++ base64.encode ys
    encode-append [] ys h = rw laws.encode-nil refl
    encode-append (a ∷ []) ys h = absurd (omega (arith, h))
    encode-append (a ∷ b ∷ []) ys h = absurd (omega (arith, h))
    encode-append (a ∷ b ∷ c ∷ xs) ys h =
        rw
          (
            laws.encode-group a b c (xs ++ ys),
            laws.encode-group a b c xs,
            encode-append xs ys (omega (arith, h)),
          )
          (sym
            (append_assoc (base64.encode (a ∷ b ∷ c ∷ [])) (base64.encode xs) (base64.encode ys)))

    -- However the data are cut into chunks, what is encoded is the text of all of them.
    pub encode_chunks-concat :
        (carryover : Bytes) (chunks : List Bytes)
        → encode_chunks carryover chunks ≡ base64.encode (carryover ++ concat chunks)
    unfolding encode_grpc_web_text_chunk flush_grpc_web_text_chunk
    encode_chunks-concat [] [] = sym laws.encode-nil
    encode_chunks-concat (c ∷ carryover) [] = ap base64.encode (sym (append-nil (c ∷ carryover)))
    encode_chunks-concat carryover (chunk ∷ chunks) =
        elim (Bool-cases (full_quanta 3 (carryover ++ chunk) == 0)) [
          | inl e ↦
              rw (encode_grpc_web_text_chunk, e)
                (encode_chunks-concat (carryover ++ chunk) chunks
                  ∙ ap base64.encode (append_assoc carryover chunk (concat chunks)))
          | inr e ↦
              let all = carryover ++ chunk in
              let (le, lt) = full_quanta-bounds 3 all (omega arith) in
              let whole : length (take (full_quanta 3 all) all) % 3 ≡ 0 =
                omega (arith, length-take (full_quanta 3 all) all, le) in
              rw
                (
                  encode_grpc_web_text_chunk,
                  e,
                  laws.encode_no_pad-whole (take (full_quanta 3 all) all) whole,
                  encode_chunks-concat (drop (full_quanta 3 all) all) chunks,
                )
                (sym (
                    encode-append (take (full_quanta 3 all) all)
                      (drop (full_quanta 3 all) all ++ concat chunks) whole)
                  ∙ ap base64.encode (
                      sym (
                        append_assoc (take (full_quanta 3 all) all) (drop (full_quanta 3 all) all)
                          (concat chunks))
                      ∙ ap (λ s. s ++ concat chunks) (take-append-drop (full_quanta 3 all) all)
                      ∙ append_assoc carryover chunk (concat chunks)))
        ]
