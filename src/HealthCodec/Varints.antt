-- ===== src/HealthCodec/Varints.antt =====
-- A varint is decoded to what was encoded.
use rginx.Prelude.{
  ℕ, zero, suc, ◌+◌, ◌*◌, ◌/◌, ◌%◌, ◌^◌, ◌<◌, ◌≤◌, ◌≡◌, refl, ◌∙◌, ap, inl, inr, true, false, [],
  ◌∷◌, ◌++◌, ltb, ltb→lt, leb, ◌==◌, Bool-cases, arith, Bytes, ok,
}
use rginx.HealthCodec.{append_protobuf_varint, varint_bytes, varint_from, decode_protobuf_varint}
use native.Mathlib.Nat.{pow-suc, mul-le-mul_left, mod-eq_of_lt, pow-le-pow_right}

split_low : (v p q r : ℕ) → v ≡ r + 128 * q → v * p ≡ r * p + q * (p * 128)
split_low v p q r h = rw h (grind arith)

low-le : (v p : ℕ) → v % 128 * p ≤ v * p
low-le v p = omega (arith, split_low v p (v / 128) (v % 128) (omega arith))

shifted : (shift : ℕ) → 2 ^ (shift + 7) ≡ 2 ^ shift * 128
shifted shift = grind (
  arith,
  pow-suc 2 shift,
  pow-suc 2 (shift + 1),
  pow-suc 2 (shift + 2),
  pow-suc 2 (shift + 3),
  pow-suc 2 (shift + 4),
  pow-suc 2 (shift + 5),
  pow-suc 2 (shift + 6),
)

high-fits : (v shift : ℕ) → v * 2 ^ shift < 2 ^ 64 → v / 128 * 2 ^ (shift + 7) < 2 ^ 64
high-fits v shift fits =
    rw (shifted shift)
      (omega (arith, fits, split_low v (2 ^ shift) (v / 128) (v % 128) (omega arith)))

shift-small : (v shift : ℕ) → 128 ≤ v → v * 2 ^ shift < 2 ^ 64 → leb 64 (shift + 7) ≡ false
shift-small v shift big fits = elim (Bool-cases (leb 64 (shift + 7))) [
  | inr e ↦ e
  | inl e ↦ absurd (
      omega (
        arith,
        fits,
        mul-le-mul_left (2 ^ shift) big,
        shifted shift,
        pow-le-pow_right {n = 2} (omega arith) {i = 64} {j = shift + 7} (ground (arith, e)),
      ))
]

-- The last byte, and one with more to follow.
varint_from-last :
    (byte acc shift : ℕ) (rest : Bytes)
    → byte < 128
    → byte * 2 ^ shift < 2 ^ 64
    → varint_from (byte ∷ rest) acc shift ≡ ok (acc + byte * 2 ^ shift, rest)
unfolding varint_from
varint_from-last byte acc shift rest low fits =
    let is_last : ltb byte 128 ≡ true = ground arith in
    let kept : (byte % 128 * 2 ^ shift) % 2 ^ 64 ≡ byte * 2 ^ shift =
      ap (λ k. (k * 2 ^ shift) % 2 ^ 64) (omega (arith, low)) ∙ mod-eq_of_lt fits in
    rw (is_last, kept, varint_from) refl

varint_from-more :
    (byte acc shift : ℕ) (rest : Bytes)
    → byte < 128
    → byte * 2 ^ shift < 2 ^ 64
    → leb 64 (shift + 7) ≡ false
    → varint_from ((byte + 128) ∷ rest) acc shift
      ≡ varint_from rest (acc + byte * 2 ^ shift) (shift + 7)
unfolding varint_from
varint_from-more byte acc shift rest low fits room =
    let goes_on : ltb (byte + 128) 128 ≡ false = ground arith in
    let kept : ((byte + 128) % 128 * 2 ^ shift) % 2 ^ 64 ≡ byte * 2 ^ shift =
      ap (λ k. (k * 2 ^ shift) % 2 ^ 64) (omega (arith, low)) ∙ mod-eq_of_lt fits in
    rw (goes_on, room, kept, varint_from) refl

varint_bytes-last :
    (fuel value acc shift : ℕ) (rest : Bytes)
    → value * 2 ^ shift < 2 ^ 64
    → value < 128
    → varint_from (varint_bytes (suc fuel) value ++ rest) acc shift
      ≡ ok (acc + value * 2 ^ shift, rest)
unfolding varint_bytes
varint_bytes-last fuel value acc shift rest fits low =
    let ends : (value / 128 == 0) ≡ true = ground (arith, low) in
    let whole : value % 128 ≡ value = omega (arith, low) in
    rw (ends, varint_bytes, whole) (varint_from-last value acc shift rest low fits)

join :
    (value acc shift : ℕ)
    → acc + value % 128 * 2 ^ shift + value / 128 * 2 ^ (shift + 7) ≡ acc + value * 2 ^ shift
join value acc shift =
    rw (shifted shift)
      (omega (arith, split_low value (2 ^ shift) (value / 128) (value % 128) (omega arith)))

varint_from-varint_bytes :
    (fuel value acc shift : ℕ) (rest : Bytes)
    → value * 2 ^ shift < 2 ^ 64
    → value < 128 ^ suc fuel
    → varint_from (varint_bytes (suc fuel) value ++ rest) acc shift
      ≡ ok (acc + value * 2 ^ shift, rest)
unfolding varint_bytes
varint_from-varint_bytes zero value acc shift rest fits enough =
    varint_bytes-last zero value acc shift rest fits (omega (arith, enough))
varint_from-varint_bytes (suc fuel) value acc shift rest fits enough =
    elim (Bool-cases (ltb value 128)) [
      | inl last ↦ varint_bytes-last (suc fuel) value acc shift rest fits (ltb→lt value 128 last)
      | inr more ↦
          let big : 128 ≤ value = ground (arith, more) in
          let goes_on : (value / 128 == 0) ≡ false = ground (arith, big) in
          rw (goes_on, varint_bytes)
            (varint_from-more (value % 128) acc shift
                (varint_bytes (suc fuel) (value / 128) ++ rest) (omega arith)
                (omega (arith, low-le value (2 ^ shift), fits)) (shift-small value shift big fits)
              ∙ varint_from-varint_bytes fuel (value / 128) (acc + value % 128 * 2 ^ shift)
                  (shift + 7) rest (high-fits value shift fits)
                  (omega (arith, enough, pow-suc 128 (suc fuel)))
              ∙ ap (λ v. ok (v, rest)) (join value acc shift))
    ]

-- A `u64` is decoded to itself from its bytes, and what follows them is left.
pub decode_protobuf_varint-append_protobuf_varint :
    (value : ℕ) (rest : Bytes)
    → value < 2 ^ 64
    → decode_protobuf_varint (append_protobuf_varint [] value ++ rest) ≡ ok (value, rest)
unfolding decode_protobuf_varint
decode_protobuf_varint-append_protobuf_varint value rest fits =
    varint_from-varint_bytes 9 value 0 0 rest (omega (arith, fits)) (omega (arith, fits))
    ∙ ap (λ v. ok (v, rest)) (omega arith)
