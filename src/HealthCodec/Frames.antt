-- ===== src/HealthCodec/Frames.antt =====
-- The frame around a payload.
use rginx.Prelude.{ℕ, ◌/◌, ◌%◌, ◌^◌, ◌<◌, ◌≡◌, refl, true, length, ◌==◌, arith, Bytes, ok}
use rginx.HealthCodec.{
  decode_grpc_frame_payload, framed, from_be_bytes, encode_grpc_health_check_request,
  request_payload,
}

from_be_bytes-to_be_bytes :
    (n : ℕ)
    → n < 2 ^ 32
    → from_be_bytes ((n / 2 ^ 24) % 256) ((n / 2 ^ 16) % 256) ((n / 2 ^ 8) % 256) (n % 256) ≡ n
from_be_bytes-to_be_bytes n h = omega (arith, h)

-- The request for a service is a frame from which its payload is read back, if the payload has fewer
-- than 2 ^ 32 bytes.
pub decode_grpc_frame_payload-encode :
    (service : Bytes)
    → length (request_payload service) < 2 ^ 32
    → decode_grpc_frame_payload (encode_grpc_health_check_request service)
      ≡ ok (request_payload service)
unfolding decode_grpc_frame_payload encode_grpc_health_check_request
decode_grpc_frame_payload-encode service small = frame (request_payload service) small
  where
    frame : (p : Bytes) → length p < 2 ^ 32 → decode_grpc_frame_payload (framed p) ≡ ok p
    frame p h =
        let n = length p % 2 ^ 32 in
        let same : (length p
              == from_be_bytes ((n / 2 ^ 24) % 256) ((n / 2 ^ 16) % 256) ((n / 2 ^ 8) % 256)
                  (n % 256))
            ≡ true =
          ground (arith, from_be_bytes-to_be_bytes n (omega (arith, h)), h) in
        rw (same, decode_grpc_frame_payload) refl
