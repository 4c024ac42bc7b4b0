-- ===== src/GrpcWeb/Trailers.antt =====
-- The trailers of a response are read back from their frame.
use rginx.Prelude.{
  ℕ, suc, ◌+◌, ◌/◌, ◌%◌, ◌^◌, ◌<◌, ◌≡◌, refl, sym, ap, ◌∙◌, Bool, true, false, some, [], ◌∷◌, ◌++◌,
  length, is_empty, take-length-append, drop-length-append, length-append, ltb, ◌==◌, arith,
  append_assoc, All, All-append, Lacks, split, split_once-append, split_by-append, trim, trim-blank,
  Bytes, codes, ok,
}
use rginx.GrpcWeb.{
  HeaderTexts, Entries, ParsedGrpcWebRequestFrame, from_be_bytes, strip_cr, trailer_entry,
  trailer_line, trailer_lines, decode_grpc_web_trailer_block, parse_frame, whole_frame,
  decode_grpc_web_request_frame, trailer_block, encode_grpc_web_trailers,
}

-- A name and a value as `http` keeps them: the tests give them back, the value has no blanks at its ends.
abbrev pub Kept : HeaderTexts → Bytes × Bytes → Type 0
Kept texts (name, value) =
    (texts.to_name name ≡ some name)
    × (texts.to_value value ≡ some value)
    × (texts.is_utf8 (b' ' ∷ value) ≡ true)
    × (trim value ≡ value)
    × Lacks (λ c. c == b'\n') name
    × Lacks (λ c. c == b':') name
    × Lacks (λ c. c == b'\n') value

strip_cr-append : (s : Bytes) → strip_cr (s ++ b'\r' ∷ []) ≡ s
strip_cr-append [] = refl
strip_cr-append (c ∷ []) = refl
strip_cr-append (c ∷ d ∷ s) = ap (◌∷◌ c) (strip_cr-append (d ∷ s))

-- A line without its end.
abbrev line_of : Bytes → Bytes → Bytes
line_of name value = name ++ (codes ": " ++ value)

nonempty-line : (name value : Bytes) → is_empty (line_of name value) ≡ false
nonempty-line [] value = refl
nonempty-line (c ∷ name) value = refl

block-lines :
    (name value : Bytes) (rest : Entries)
    → trailer_block ((name, value) ∷ rest)
      ≡ (line_of name value ++ b'\r' ∷ []) ++ b'\n' ∷ trailer_block rest
block-lines name value rest =
    let behind = b'\r' ∷ b'\n' ∷ trailer_block rest in
    sym (
      append_assoc (line_of name value) (b'\r' ∷ []) (b'\n' ∷ trailer_block rest)
      ∙ append_assoc name (codes ": " ++ value) behind)

trailer_line-Kept :
    (texts : HeaderTexts) (name value : Bytes)
    → Kept texts (name, value)
    → trailer_line texts (line_of name value) ≡ ok (name, value)
unfolding trailer_line trailer_entry
trailer_line-Kept texts name value (n, v, u, t, _, colon, _) =
    rw
      (
        trailer_line,
        split_once-append b':' name (b' ' ∷ value) colon,
        trailer_entry,
        n,
        u,
        trim-blank value,
        t,
        v,
      )
      refl

trailer_lines-Kept :
    (texts : HeaderTexts) (trailers : Entries)
    → All (Kept texts) trailers
    → trailer_lines texts (split b'\n' (trailer_block trailers)) ≡ ok trailers
unfolding trailer_lines
trailer_lines-Kept texts [] h = refl
trailer_lines-Kept texts ((name, value) ∷ rest) (k, h) =
    let (_, _, _, _, fn, _, fv) = k in
    let whole : Lacks (λ c. c == b'\n') (line_of name value ++ b'\r' ∷ []) =
      All-append _ (line_of name value) (b'\r' ∷ [])
        (All-append _ name (codes ": " ++ value) fn (refl, (refl, fv))) (refl, tt) in
    rw
      (
        block-lines name value rest,
        split_by-append _ (line_of name value ++ b'\r' ∷ []) b'\n' (trailer_block rest) whole refl,
        trailer_lines,
        strip_cr-append (line_of name value),
        nonempty-line name value,
        trailer_line-Kept texts name value k,
        trailer_lines-Kept texts rest h,
      )
      refl

from-to_be_bytes :
    (n : ℕ)
    → n < 2 ^ 32
    → from_be_bytes (n / 2 ^ 24 % 256) (n / 2 ^ 16 % 256) (n / 2 ^ 8 % 256) (n % 256) ≡ n
from-to_be_bytes n h = omega (arith, h)

-- A list of entries as `http` keeps them, whose lines are fewer than 2 ^ 32 bytes, is read back from
-- the frame that it is encoded in, and what stands behind the frame is left.
pub decode_grpc_web_request_frame-encode :
    (texts : HeaderTexts) (trailers : Entries) (rest : Bytes) (inner_finished : Bool)
    → All (Kept texts) trailers
    → length (trailer_block trailers) < 2 ^ 32
    → decode_grpc_web_request_frame texts
        (encode_grpc_web_trailers trailers ++ rest)
        inner_finished
        false
      ≡ (ok (some (ParsedGrpcWebRequestFrame.trailer_frame trailers)), rest)
unfolding decode_grpc_web_request_frame encode_grpc_web_trailers whole_frame parse_frame
    decode_grpc_web_trailer_block
decode_grpc_web_request_frame-encode texts trailers rest inner_finished h fits =
    let block = trailer_block trailers in
    let enough : ltb (length (encode_grpc_web_trailers trailers ++ rest)) (5 + length block)
        ≡ false =
      ground (arith, length-append block rest) in
    let five : 5 + length block ≡ suc (suc (suc (suc (suc (length block))))) = omega arith in
    rw
      (
        decode_grpc_web_request_frame,
        encode_grpc_web_trailers,
        from-to_be_bytes (length block) fits,
        whole_frame,
        enough,
        five,
        parse_frame,
        take-length-append block rest,
        drop-length-append block rest,
        decode_grpc_web_trailer_block,
        trailer_lines-Kept texts trailers h,
      )
      refl
