-- ===== src/HealthCodec.antt =====
-- crates/rginx-http/src/proxy/health/grpc_health_codec.rs: the messages of the gRPC health check. The
-- index into a payload is the list of the bytes that are left; `usize` has 64 bits.
pub mod Varints
pub mod Frames
pub mod Fields
mod Tests
use rginx.Prelude.{
  ℕ, zero, suc, ◌+◌, ◌-◌, ◌*◌, ◌/◌, ◌%◌, ◌^◌, Bool, true, false, ◌&&◌, Option, none, some, List, [],
  ◌∷◌, ◌++◌, length, drop, is_empty, if◌then◌else◌, ltb, leb, ◌==◌, is_some_and, Bytes, bytes_eq,
  codes, Result, ok, err, and_then,
}

pub data GrpcHealthServingStatus : Type 0 where
  unknown serving not_serving service_unknown : GrpcHealthServingStatus
  other : ℕ → GrpcHealthServingStatus

abbrev pub from_u64 : ℕ → GrpcHealthServingStatus
from_u64 value =
    if value == 0
    then GrpcHealthServingStatus.unknown
    else if value == 1
    then GrpcHealthServingStatus.serving
    else if value == 2
    then GrpcHealthServingStatus.not_serving
    else if value == 3
    then GrpcHealthServingStatus.service_unknown
    else GrpcHealthServingStatus.other value

abbrev pub is_serving : GrpcHealthServingStatus → Bool
is_serving GrpcHealthServingStatus.serving = true
is_serving _ = false

-- The errors, by their messages. `out_of_fuel` is not one of the program's.
pub data InvalidProbe : Type 0 where
  incomplete_header compressed_response varint_too_large varint_eof : InvalidProbe
  length_mismatch : ℕ → ℕ → InvalidProbe
  field_eof unsupported_wire_type : ℕ → InvalidProbe
  out_of_fuel : InvalidProbe

-- The `loop`: seven bits in each byte, the lowest first. A `u64` has at most ten bytes.
pub varint_bytes : ℕ → ℕ → Bytes
varint_bytes zero value = []
varint_bytes (suc fuel) value =
    let rest = varint_bytes fuel (value / 128) in
    if value / 128 == 0 then value % 128 ∷ [] else (value % 128 + 128) ∷ rest

abbrev pub append_protobuf_varint : Bytes → ℕ → Bytes
append_protobuf_varint buffer value = buffer ++ varint_bytes 10 value

-- The loop. The bits that are shifted in are above those of `value`, so that `|` adds them; those
-- above 64 bits are lost.
pub varint_from : Bytes → ℕ → ℕ → Result InvalidProbe (ℕ × Bytes)
varint_from [] value shift = err InvalidProbe.varint_eof
varint_from (byte ∷ rest) value shift =
    let more = varint_from rest (value + (byte % 128 * 2 ^ shift) % 2 ^ 64) (shift + 7) in
    if ltb byte 128
    then ok (value + (byte % 128 * 2 ^ shift) % 2 ^ 64, rest)
    else if leb 64 (shift + 7)
    then err InvalidProbe.varint_too_large
    else more

pub decode_protobuf_varint : Bytes → Result InvalidProbe (ℕ × Bytes)
unfolding varint_from
decode_protobuf_varint payload = varint_from payload 0 0

-- The bytes behind the next `n`, for a field of a wire type.
abbrev skip_bytes : ℕ → ℕ → Bytes → Result InvalidProbe Bytes
skip_bytes wire_type n payload =
    if ltb (length payload) n then err (InvalidProbe.field_eof wire_type) else ok (drop n payload)

pub skip_protobuf_field : Bytes → ℕ → Result InvalidProbe Bytes
skip_protobuf_field payload wire_type =
    if wire_type == 0
    then and_then (decode_protobuf_varint payload) (λ (_, rest). ok rest)
    else if wire_type == 1
    then skip_bytes wire_type 8 payload
    else if wire_type == 2
    then and_then (decode_protobuf_varint payload) (λ (len, rest). skip_bytes wire_type len rest)
    else if wire_type == 5
    then skip_bytes wire_type 4 payload
    else err (InvalidProbe.unsupported_wire_type wire_type)

-- One field: the status that it sets, or the one so far, and what follows it.
pub decode_field :
    GrpcHealthServingStatus → Bytes → Result InvalidProbe (GrpcHealthServingStatus × Bytes)
unfolding decode_protobuf_varint skip_protobuf_field
decode_field status payload = and_then (decode_protobuf_varint payload) λ (tag, rest).
    if tag / 8 == 1 && tag % 8 == 0
    then and_then (decode_protobuf_varint rest) (λ (value, rest'). ok (from_u64 value, rest'))
    else and_then (skip_protobuf_field rest (tag % 8)) (λ rest'. ok (status, rest'))

-- The `while`. A field has a byte, so the number of the bytes is fuel enough.
pub decode_fields :
    ℕ → GrpcHealthServingStatus → Bytes → Result InvalidProbe GrpcHealthServingStatus
unfolding decode_field
decode_fields fuel status [] = ok status
decode_fields zero status (b ∷ bs) = err InvalidProbe.out_of_fuel
decode_fields (suc fuel) status (b ∷ bs) =
    and_then (decode_field status (b ∷ bs)) (λ (next, rest). decode_fields fuel next rest)

pub decode_grpc_health_check_response_payload : Bytes → Result InvalidProbe GrpcHealthServingStatus
unfolding decode_fields
decode_grpc_health_check_response_payload payload =
    decode_fields (length payload) GrpcHealthServingStatus.unknown payload

-- `u32::to_be_bytes` and `from_be_bytes`.
abbrev pub to_be_bytes : ℕ → Bytes
to_be_bytes n = (n / 2 ^ 24) % 256 ∷ (n / 2 ^ 16) % 256 ∷ (n / 2 ^ 8) % 256 ∷ n % 256 ∷ []

abbrev pub from_be_bytes : ℕ → ℕ → ℕ → ℕ → ℕ
from_be_bytes a b c d = a * 2 ^ 24 + b * 2 ^ 16 + c * 2 ^ 8 + d

pub decode_grpc_frame_payload : Bytes → Result InvalidProbe Bytes
decode_grpc_frame_payload (compressed ∷ a ∷ b ∷ c ∷ d ∷ payload) =
    if not_zero compressed
    then err InvalidProbe.compressed_response
    else if length payload == from_be_bytes a b c d
    then ok payload
    else err (InvalidProbe.length_mismatch (5 + from_be_bytes a b c d) (5 + length payload))
  where
    not_zero : ℕ → Bool
    not_zero n = ltb 0 n
decode_grpc_frame_payload _ = err InvalidProbe.incomplete_header

abbrev pub framed : Bytes → Bytes
framed payload = 0 ∷ (to_be_bytes (length payload % 2 ^ 32) ++ payload)

pub request_payload : Bytes → Bytes
unfolding varint_bytes
request_payload service =
    if is_empty service then [] else append_protobuf_varint (10 ∷ []) (length service) ++ service

pub encode_grpc_health_check_request : Bytes → Bytes
unfolding request_payload
encode_grpc_health_check_request service = framed (request_payload service)

pub decode_grpc_health_check_response : Bytes → Result InvalidProbe (Option GrpcHealthServingStatus)
unfolding decode_grpc_frame_payload decode_grpc_health_check_response_payload
decode_grpc_health_check_response body =
    if is_empty body
    then ok none
    else and_then (decode_grpc_frame_payload body) λ payload.
      and_then (decode_grpc_health_check_response_payload payload) (λ status. ok (some status))

pub data GrpcHealthProbeResult : Type 0 where
  probe_serving : GrpcHealthProbeResult
  probe_not_serving : Bool → Option Bytes → Option GrpcHealthServingStatus → GrpcHealthProbeResult

-- `evaluate_grpc_health_probe_response`, from whether the HTTP status is a success, the value of
-- `grpc-status` and the collected body.
pub evaluate_grpc_health_probe_response :
    Bool → Option Bytes → Bytes → Result InvalidProbe GrpcHealthProbeResult
unfolding decode_grpc_health_check_response
evaluate_grpc_health_probe_response is_success grpc_status body =
    and_then (decode_grpc_health_check_response body) λ serving_status. ok (
      if is_success
        && is_some_and grpc_status (λ s. bytes_eq s (codes "0"))
        && is_some_and serving_status is_serving
      then GrpcHealthProbeResult.probe_serving
      else GrpcHealthProbeResult.probe_not_serving is_success grpc_status serving_status)
