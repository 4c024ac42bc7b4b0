-- ===== src/HealthCodec/Fields.antt =====
-- The loop over the fields ends: a field takes at least one byte.
use rginx.Prelude.{
  ℕ, zero, suc, ◌+◌, ◌<◌, ◌≤◌, ◌≡◌, ◌≢◌, refl, inl, inr, Bool, true, false, [], ◌∷◌, length,
  length-drop, drop, ltb, leb, ◌==◌, if◌then◌else◌, ◌&&◌, ◌%◌, ◌/◌, ◌*◌, ◌^◌, Bool-cases, arith,
  Bytes, Result, ok, err, and_then,
}
use rginx.HealthCodec.{
  GrpcHealthServingStatus, InvalidProbe, varint_from, decode_protobuf_varint, skip_protobuf_field,
  decode_field, decode_fields, decode_grpc_health_check_response_payload,
}
use rginx.HealthCodec.InvalidProbe.{out_of_fuel}

abbrev is_fuel : InvalidProbe → Bool
is_fuel out_of_fuel = true
is_fuel _ = false

-- A step that fails for a reason of the program, or leaves fewer than `n` bytes.
abbrev Consumes {ℓ} : {A : Type ℓ} → ℕ → Result InvalidProbe (A × Bytes) → Type 0
Consumes n (err e) = is_fuel e ≡ false
Consumes n (ok (a, rest)) = length rest < n

abbrev Leaves : ℕ → Result InvalidProbe Bytes → Type 0
Leaves n (err e) = is_fuel e ≡ false
Leaves n (ok rest) = length rest < n

either {ℓ κ} :
    {A : Type ℓ} (P : A → Type κ) (b : Bool) {x y : A} → P x → P y → P (if b then x else y)
either P true h k = h
either P false h k = k

weaken {ℓ} :
    {A : Type ℓ} (k n : ℕ) (m : Result InvalidProbe (A × Bytes))
    → k ≤ n
    → Consumes k m
    → Consumes n m
weaken k n (err e) le h = h
weaken k n (ok (a, rest)) le h = omega (arith, le, h)

varint_from-Consumes :
    (bytes : Bytes) (value shift : ℕ) → Consumes (length bytes) (varint_from bytes value shift)
unfolding varint_from
varint_from-Consumes [] value shift = refl
varint_from-Consumes (b ∷ bs) value shift =
    either (Consumes (suc (length bs))) (ltb b 128) (omega arith) (
      either (Consumes (suc (length bs))) (leb 64 (shift + 7)) refl (
        weaken (length bs) (suc (length bs)) _ (omega arith)
          (varint_from-Consumes bs (value + (b % 128 * 2 ^ shift) % 2 ^ 64) (shift + 7))))

and_then-Consumes {ℓ κ} :
    {A : Type ℓ} {B : Type κ} (n : ℕ) (m : Result InvalidProbe (A × Bytes))
    (f : A × Bytes → Result InvalidProbe (B × Bytes))
    → Consumes n m
    → ((a : A) (rest : Bytes) → length rest < n → Consumes n (f (a, rest)))
    → Consumes n (and_then m f)
and_then-Consumes n (err e) f h k = h
and_then-Consumes n (ok (a, rest)) f h k = k a rest h

and_then-Leaves {ℓ} :
    {A : Type ℓ} (n : ℕ) (m : Result InvalidProbe (A × Bytes))
    (f : A × Bytes → Result InvalidProbe Bytes)
    → Consumes n m
    → ((a : A) (rest : Bytes) → length rest < n → Leaves n (f (a, rest)))
    → Leaves n (and_then m f)
and_then-Leaves n (err e) f h k = h
and_then-Leaves n (ok (a, rest)) f h k = k a rest h

Leaves-Consumes {ℓ} :
    {A : Type ℓ} (n : ℕ) (a : A) (m : Result InvalidProbe Bytes)
    → Leaves n m
    → Consumes n (and_then m (λ rest. ok (a, rest)))
Leaves-Consumes n a (err e) h = h
Leaves-Consumes n a (ok rest) h = h

decode_varint-Consumes :
    (n : ℕ) (payload : Bytes) → length payload ≤ n → Consumes n (decode_protobuf_varint payload)
unfolding decode_protobuf_varint
decode_varint-Consumes n payload h =
    weaken (length payload) n _ h (varint_from-Consumes payload 0 0)

skip_bytes-Leaves :
    (n wire k : ℕ) (payload : Bytes)
    → length payload < n
    → Leaves n
        (if ltb (length payload) k then err (InvalidProbe.field_eof wire) else ok (drop k payload))
skip_bytes-Leaves n wire k payload h = elim (Bool-cases (ltb (length payload) k)) [
  | inl e ↦ rw e refl
  | inr e ↦ rw e (omega (arith, length-drop k payload, h))
]

skip-Leaves :
    (n wire : ℕ) (payload : Bytes)
    → length payload < n
    → Leaves n (skip_protobuf_field payload wire)
unfolding skip_protobuf_field
skip-Leaves n wire payload h =
    let varint = decode_varint-Consumes n payload (omega (arith, h)) in
    either (Leaves n) (wire == 0)
      (and_then-Leaves n (decode_protobuf_varint payload) (λ (_, rest). ok rest) varint
        (λ _ rest l. l))
      (either (Leaves n) (wire == 1) (skip_bytes-Leaves n wire 8 payload h) (
        either (Leaves n) (wire == 2)
          (and_then-Leaves n (decode_protobuf_varint payload)
            (λ (len, rest).
              if ltb (length rest) len
              then err (InvalidProbe.field_eof wire)
              else ok (drop len rest))
            varint (λ len rest l. skip_bytes-Leaves n wire len rest l))
          (either (Leaves n) (wire == 5) (skip_bytes-Leaves n wire 4 payload h) refl)))

decode_field-Consumes :
    (status : GrpcHealthServingStatus) (payload : Bytes)
    → Consumes (length payload) (decode_field status payload)
unfolding decode_field
decode_field-Consumes status payload =
    and_then-Consumes (length payload) (decode_protobuf_varint payload) _
      (decode_varint-Consumes (length payload) payload (omega arith))
      λ tag rest l.
        either (Consumes (length payload)) (tag / 8 == 1 && tag % 8 == 0)
          (and_then-Consumes (length payload) (decode_protobuf_varint rest) _
            (decode_varint-Consumes (length payload) rest (omega (arith, l))) (λ _ _ k. k))
          (Leaves-Consumes (length payload) status (skip_protobuf_field rest (tag % 8))
            (skip-Leaves (length payload) (tag % 8) rest l))

err-is_fuel :
    (e : InvalidProbe) (m : Result InvalidProbe GrpcHealthServingStatus)
    → m ≡ err e
    → is_fuel e ≡ false
    → m ≢ err out_of_fuel
err-is_fuel e m k h = λ same. let f : e ≡ out_of_fuel = cc in absurd (cc)

enough :
    (fuel : ℕ) (m : Result InvalidProbe (GrpcHealthServingStatus × Bytes))
    → Consumes (suc fuel) m
    → ((s : GrpcHealthServingStatus) (rest : Bytes)
        → length rest ≤ fuel
        → decode_fields fuel s rest ≢ err out_of_fuel)
    → and_then m (λ (next, rest). decode_fields fuel next rest) ≢ err out_of_fuel
enough fuel (err e) h k = err-is_fuel e _ refl h
enough fuel (ok (s, rest)) h k = k s rest (omega (arith, h))

decode_fields-ends :
    (fuel : ℕ) (status : GrpcHealthServingStatus) (payload : Bytes)
    → length payload ≤ fuel
    → decode_fields fuel status payload ≢ err out_of_fuel
unfolding decode_fields
decode_fields-ends fuel status [] h = λ same. absurd (cc)
decode_fields-ends zero status (b ∷ bs) h = λ same. absurd (omega (arith, h))
decode_fields-ends (suc fuel) status (b ∷ bs) h =
    enough fuel (decode_field status (b ∷ bs))
      (weaken (length (b ∷ bs)) (suc fuel) _ h (decode_field-Consumes status (b ∷ bs)))
      (λ s rest l. decode_fields-ends fuel s rest l)

-- Whatever the payload, the loop over its fields ends with a status or an error of the program: the
-- length of the payload is fuel enough.
pub decode_payload-ends :
    (payload : Bytes) → decode_grpc_health_check_response_payload payload ≢ err out_of_fuel
unfolding decode_grpc_health_check_response_payload
decode_payload-ends payload = decode_fields-ends (length payload) _ payload (omega arith)
