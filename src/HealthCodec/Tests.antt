-- ===== src/HealthCodec/Tests.antt =====
-- Runs of the codec, and the examples of its theorems.
use rginx.Prelude.{◌≡◌, ◌≢◌, refl, true, some, [], ◌∷◌, ◌++◌, codes, arith, ok, err}
use rginx.HealthCodec.{
  GrpcHealthProbeResult, InvalidProbe, varint_bytes, varint_from, append_protobuf_varint,
  decode_protobuf_varint, skip_protobuf_field, decode_field, decode_fields,
  decode_grpc_health_check_response_payload, decode_grpc_frame_payload,
  decode_grpc_health_check_response, encode_grpc_health_check_request, request_payload,
  evaluate_grpc_health_probe_response,
}
use rginx.HealthCodec.Varints.{decode_protobuf_varint-append_protobuf_varint}
use rginx.HealthCodec.Frames.{decode_grpc_frame_payload-encode}
use rginx.HealthCodec.Fields.{decode_payload-ends}

-- A frame with the status SERVING behind a field of another number.
serving_response :
    evaluate_grpc_health_probe_response true
      (some (codes "0"))
      (0 ∷ 0 ∷ 0 ∷ 0 ∷ 5 ∷ 18 ∷ 1 ∷ 65 ∷ 8 ∷ 1 ∷ [])
    ≡ ok GrpcHealthProbeResult.probe_serving
unfolding evaluate_grpc_health_probe_response decode_grpc_health_check_response
    decode_grpc_frame_payload decode_grpc_health_check_response_payload decode_fields decode_field
    decode_protobuf_varint varint_from skip_protobuf_field
serving_response = refl

decode_protobuf_varint-append_protobuf_varint_example :
    decode_protobuf_varint (append_protobuf_varint [] 300 ++ 7 ∷ []) ≡ ok (300, 7 ∷ [])
decode_protobuf_varint-append_protobuf_varint_example =
    decode_protobuf_varint-append_protobuf_varint 300 (7 ∷ []) (omega arith)

request_of_app : request_payload (codes "app") ≡ 10 ∷ 3 ∷ codes "app"
unfolding request_payload varint_bytes
request_of_app = refl

decode_grpc_frame_payload-encode_example :
    decode_grpc_frame_payload (encode_grpc_health_check_request (codes "app"))
    ≡ ok (request_payload (codes "app"))
unfolding request_payload varint_bytes
decode_grpc_frame_payload-encode_example =
    decode_grpc_frame_payload-encode (codes "app") (omega arith)

decode_payload-ends_example :
    decode_grpc_health_check_response_payload (8 ∷ 1 ∷ []) ≢ err InvalidProbe.out_of_fuel
decode_payload-ends_example = decode_payload-ends (8 ∷ 1 ∷ [])
