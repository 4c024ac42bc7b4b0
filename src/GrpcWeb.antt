-- ===== src/GrpcWeb.antt =====
-- crates/rginx-http/src/proxy/grpc_web/codec.rs: messages and trailers of gRPC-Web, in binary and as
-- text. A `BytesMut` is an argument, and what is left of it stands in the result. Parameters are
-- `base64` (the engines STANDARD and STANDARD_NO_PAD) and the tests of `http` on names and values. A
-- `HeaderMap` is the list of its entries, as it is iterated over.
pub mod Text
pub mod Trailers
pub mod Bodies
pub mod Requests
mod Tests
use rginx.Prelude.{
  ℕ, ◌+◌, ◌*◌, ◌/◌, ◌%◌, ◌^◌, ◌-◌, Bool, true, false, not, ◌&&◌, ◌||◌, Option, none, some, List, [],
  ◌∷◌, ◌++◌, length, is_empty, take, drop, filter, get_elem?, unwrap_or, leb, ltb, ◌==◌,
  if◌then◌else◌, Bytes, codes, bytes_eq, split, split_once, trim, is_white_space, Result, err, ok,
  and_then,
}

pub data InvalidBody : Type 0 where
  trailers_not_terminal incomplete_header incomplete_payload missing_colon invalid_name not_utf8
        invalid_value invalid_base64 incomplete_base64 unexpected_frame :
      InvalidBody
  inner_failed : Bytes → InvalidBody

abbrev pub Entries : Type 0
Entries = List (Bytes × Bytes)

pub data ParsedGrpcWebRequestFrame : Type 0 where
  data_frame : Bytes → ParsedGrpcWebRequestFrame
  trailer_frame : Entries → ParsedGrpcWebRequestFrame

pub record Base64 : Type 0 where
  pub encode : Bytes → Bytes
  pub encode_no_pad : Bytes → Bytes
  pub decode : Bytes → Option Bytes

-- `HeaderName::from_bytes`, `str::from_utf8` and `HeaderValue::from_str`.
pub record HeaderTexts : Type 0 where
  pub to_name : Bytes → Option Bytes
  pub is_utf8 : Bytes → Bool
  pub to_value : Bytes → Option Bytes

-- `u32::to_be_bytes` and `from_be_bytes`, and `as u32`.
abbrev pub to_be_bytes : ℕ → Bytes
to_be_bytes n = n / 2 ^ 24 % 256 ∷ n / 2 ^ 16 % 256 ∷ n / 2 ^ 8 % 256 ∷ n % 256 ∷ []

abbrev pub from_be_bytes : ℕ → ℕ → ℕ → ℕ → ℕ
from_be_bytes a b c d = a * 2 ^ 24 + b * 2 ^ 16 + c * 2 ^ 8 + d

-- `strip_suffix(b"\r")`, or the line as it is.
abbrev pub strip_cr : Bytes → Bytes
strip_cr [] = []
strip_cr (c ∷ []) = if c == b'\r' then [] else c ∷ []
strip_cr (c ∷ d ∷ s) = c ∷ strip_cr (d ∷ s)

abbrev or_err : {A : Type 0} → InvalidBody → Option A → Result InvalidBody A
or_err e none = err e
or_err e (some a) = ok a

-- The name and the value of a line, from in front of its colon and from behind it.
pub trailer_entry : HeaderTexts → Bytes × Bytes → Result InvalidBody (Bytes × Bytes)
trailer_entry texts (before, behind) =
    and_then (or_err InvalidBody.invalid_name (texts.to_name before)) λ name.
      if not (texts.is_utf8 behind)
      then err InvalidBody.not_utf8
      else and_then (or_err InvalidBody.invalid_value (texts.to_value (trim behind)))
          λ value. ok (name, value)

pub trailer_line : HeaderTexts → Bytes → Result InvalidBody (Bytes × Bytes)
trailer_line texts line =
    and_then (or_err InvalidBody.missing_colon (split_once b':' line)) (trailer_entry texts)

pub trailer_lines : HeaderTexts → List Bytes → Result InvalidBody Entries
trailer_lines texts [] = ok []
trailer_lines texts (line ∷ lines) =
    let rest = trailer_lines texts lines in
    if is_empty (strip_cr line)
    then rest
    else and_then (trailer_line texts (strip_cr line))
        (λ entry. and_then rest (λ entries. ok (entry ∷ entries)))

pub decode_grpc_web_trailer_block : HeaderTexts → Bytes → Result InvalidBody Entries
decode_grpc_web_trailer_block texts payload = trailer_lines texts (split b'\n' payload)

-- A frame with its header and payload, of which the flags are the first byte.
pub parse_frame : HeaderTexts → ℕ → Bytes → Result InvalidBody (Option ParsedGrpcWebRequestFrame)
parse_frame texts flags frame =
    if leb 128 (flags % 256)
    then and_then (decode_grpc_web_trailer_block texts (drop 5 frame))
        (λ trailers. ok (some (ParsedGrpcWebRequestFrame.trailer_frame trailers)))
    else ok (some (ParsedGrpcWebRequestFrame.data_frame frame))

-- Too few bytes: more may come, unless the inner body has ended.
abbrev incomplete : Bool → InvalidBody → Result InvalidBody (Option ParsedGrpcWebRequestFrame)
incomplete inner_finished e = if inner_finished then err e else ok none

pub whole_frame :
    HeaderTexts
    → Bytes
    → Bool
    → ℕ
    → ℕ
    → Result InvalidBody (Option ParsedGrpcWebRequestFrame) × Bytes
whole_frame texts buffer inner_finished flags len =
    if ltb (length buffer) (5 + len)
    then (incomplete inner_finished InvalidBody.incomplete_payload, buffer)
    else (parse_frame texts flags (take (5 + len) buffer), drop (5 + len) buffer)

pub decode_grpc_web_request_frame :
    HeaderTexts
    → Bytes
    → Bool
    → Bool
    → Result InvalidBody (Option ParsedGrpcWebRequestFrame) × Bytes
decode_grpc_web_request_frame texts [] inner_finished saw = (ok none, [])
decode_grpc_web_request_frame texts (f ∷ a ∷ b ∷ c ∷ d ∷ s) inner_finished saw =
    if saw
    then (err InvalidBody.trailers_not_terminal, f ∷ a ∷ b ∷ c ∷ d ∷ s)
    else whole_frame texts (f ∷ a ∷ b ∷ c ∷ d ∷ s) inner_finished f (from_be_bytes a b c d)
decode_grpc_web_request_frame texts buffer inner_finished saw =
    if saw
    then (err InvalidBody.trailers_not_terminal, buffer)
    else (incomplete inner_finished InvalidBody.incomplete_header, buffer)

-- `u8::is_ascii_whitespace`, which leaves out the vertical tab.
abbrev pub is_ascii_whitespace : ℕ → Bool
is_ascii_whitespace c = is_white_space c && not (c == 11)

-- `Bytes`, unless there are none.
abbrev pub unless_empty : Bytes → Option Bytes
unless_empty s = if is_empty s then none else some s

-- `chunks_exact(4)` on the text, each decoded by itself; fewer than four bytes at its end stay out.
pub decode_quanta : Base64 → Bytes → Result InvalidBody Bytes
decode_quanta base64 (a ∷ b ∷ c ∷ d ∷ s) =
    let rest = decode_quanta base64 s in
    and_then (or_err InvalidBody.invalid_base64 (base64.decode (a ∷ b ∷ c ∷ d ∷ [])))
      λ chunk. and_then rest (λ decoded. ok (chunk ++ decoded))
decode_quanta base64 s = ok []

abbrev pub full_quanta : ℕ → Bytes → ℕ
full_quanta size s = length s / size * size

pub decode_grpc_web_text_chunk : Base64 → Bytes → Bytes → Result InvalidBody (Option Bytes) × Bytes
decode_grpc_web_text_chunk base64 carryover chunk =
    let text = carryover ++ filter (λ c. not (is_ascii_whitespace c)) chunk in
    let complete_len = full_quanta 4 text in
    if complete_len == 0 then (ok none, text) else (
      and_then (decode_quanta base64 (take complete_len text))
          (λ decoded. ok (unless_empty decoded)),
      drop complete_len text,
    )

pub decode_grpc_web_text_final : Base64 → Bytes → Result InvalidBody (Option Bytes) × Bytes
decode_grpc_web_text_final base64 carryover =
    if is_empty carryover
    then (ok none, carryover)
    else if not (length carryover % 4 == 0)
    then (err InvalidBody.incomplete_base64, carryover)
    else (and_then (decode_quanta base64 carryover) (λ decoded. ok (unless_empty decoded)), [])

pub encode_grpc_web_text_chunk : Base64 → Bytes → Bytes → Option Bytes × Bytes
encode_grpc_web_text_chunk base64 carryover chunk =
    let all = carryover ++ chunk in
    let complete_len = full_quanta 3 all in
    if complete_len == 0
    then (none, all)
    else (some (base64.encode_no_pad (take complete_len all)), drop complete_len all)

pub flush_grpc_web_text_chunk : Base64 → Bytes → Option Bytes × Bytes
flush_grpc_web_text_chunk base64 carryover =
    if is_empty carryover then (none, carryover) else (some (base64.encode carryover), [])

abbrev pub trailer_block : Entries → Bytes
trailer_block [] = []
trailer_block ((name, value) ∷ rest) =
    name ++ (codes ": " ++ (value ++ (codes "\r\n" ++ trailer_block rest)))

pub encode_grpc_web_trailers : Entries → Bytes
encode_grpc_web_trailers trailers =
    128 ∷ (to_be_bytes (length (trailer_block trailers)) ++ trailer_block trailers)
