-- ===== src/Prelude/Decimal.antt =====
-- Numbers in decimal: `str::parse` of an unsigned integer, and `to_string` of one.
use Prim.Native.Nat.{ℕ, zero, suc, ◌+◌, ◌-◌, ◌*◌, ◌/◌, ◌%◌, ◌^◌, ◌<◌}
use mathlib.Core.Path.{◌≡◌, refl, ap, ◌∙◌}
use mathlib.Core.Logic.{inl, inr}
use mathlib.Core.Bool.{Bool, true, false, not, ◌&&◌}
use mathlib.Core.List.{[], ◌∷◌}
use mathlib.Core.Option.{Option, none, some}
use native.Mathlib.Omega.{arith}
use native.Mathlib.Nat.{pow-suc}
use rginx.Prelude.Tests.{if◌then◌else◌, ltb, ltb→lt, leb, ◌==◌, Bool-cases, ◌>>=◌}
use rginx.Prelude.Lists.{is_empty, All}
use rginx.Prelude.Text.{Bytes}

abbrev pub digit_value : ℕ → Option ℕ
digit_value c = if leb b'0' c && leb c b'9' then some (c - b'0') else none

-- The value of the digits, below the bound, with the value of those before them.
abbrev pub digits_value : ℕ → ℕ → Bytes → Option ℕ
digits_value bound value [] = some value
digits_value bound value (c ∷ s) = digit_value c >>= λ d.
    let next = value * 10 + d in
    let rest = digits_value bound next s in if ltb next bound then rest else none

-- `str::parse` of an unsigned integer below the bound: a sign `+` may precede the digits.
abbrev pub parse_uint : ℕ → Bytes → Option ℕ
parse_uint bound [] = none
parse_uint bound (c ∷ s) =
    if c == b'+' && not (is_empty s) then digits_value bound 0 s else digits_value bound 0 (c ∷ s)

-- The digits of a number in front of a text, by as many divisions as there may be digits.
abbrev pub digits_onto : ℕ → ℕ → Bytes → Bytes
digits_onto zero n s = s
digits_onto (suc most) n s =
    let more = digits_onto most (n / 10) ((b'0' + n % 10) ∷ s) in
    if ltb n 10 then (b'0' + n) ∷ s else more

-- `to_string` of a u64, which has at most 20 digits.
abbrev pub to_decimal : ℕ → Bytes
to_decimal n = digits_onto 20 n []

digits_value-digit :
    (bound value d : ℕ) (s : Bytes)
    → d < 10
    → value * 10 + d < bound
    → digits_value bound value ((b'0' + d) ∷ s) ≡ digits_value bound (value * 10 + d) s
digits_value-digit bound value d s h b = ground arith

digits_value-digits_onto :
    (bound most n : ℕ) (s : Bytes)
    → n < 10 ^ most
    → n < bound
    → digits_value bound 0 (digits_onto most n s) ≡ digits_value bound n s
digits_value-digits_onto bound zero n s h b = let e : n ≡ 0 = omega (arith, h) in rw e refl
digits_value-digits_onto bound (suc most) n s h b = elim (Bool-cases (ltb n 10)) [
  | inl e ↦
      let start : 0 * 10 + n ≡ n = omega arith in
      rw e (
        digits_value-digit bound 0 n s (ltb→lt n 10 e) (omega (arith, b))
        ∙ ap (λ v. digits_value bound v s) start)
  | inr e ↦
      let fits : n / 10 < 10 ^ most = omega (arith, h, pow-suc 10 most) in
      let whole : n / 10 * 10 + n % 10 ≡ n = omega arith in
      rw e (
        digits_value-digits_onto bound most (n / 10) ((b'0' + n % 10) ∷ s) fits (omega (arith, b))
        ∙ digits_value-digit bound (n / 10) (n % 10) s (omega arith) (omega (arith, b))
        ∙ ap (λ v. digits_value bound v s) whole)
]

-- A decimal digit.
abbrev pub is_digit : ℕ → Bool
is_digit c = leb b'0' c && leb c b'9'

digits_onto-digits :
    (most n : ℕ) (s : Bytes)
    → All (λ c. is_digit c ≡ true) s
    → All (λ c. is_digit c ≡ true) (digits_onto most n s)
digits_onto-digits zero n s h = h
digits_onto-digits (suc most) n s h = elim (Bool-cases (ltb n 10)) [
  | inl e ↦ rw e (ground arith, h)
  | inr e ↦ rw e (digits_onto-digits most (n / 10) ((b'0' + n % 10) ∷ s) (ground arith, h))
]

digits_onto-nonempty :
    (most n : ℕ) (s : Bytes) → is_empty s ≡ false → is_empty (digits_onto most n s) ≡ false
digits_onto-nonempty zero n s h = h
digits_onto-nonempty (suc most) n s h = elim (Bool-cases (ltb n 10)) [
  | inl e ↦ rw e refl
  | inr e ↦ rw e (digits_onto-nonempty most (n / 10) ((b'0' + n % 10) ∷ s) refl)
]

pub to_decimal-digits : (n : ℕ) → All (λ c. is_digit c ≡ true) (to_decimal n)
to_decimal-digits n = digits_onto-digits 20 n [] tt

pub to_decimal-nonempty : (n : ℕ) → is_empty (to_decimal n) ≡ false
to_decimal-nonempty n = elim (Bool-cases (ltb n 10)) [
  | inl e ↦ rw e refl
  | inr e ↦ rw e (digits_onto-nonempty 19 (n / 10) ((b'0' + n % 10) ∷ []) refl)
]

-- Without a sign the digits are the number.
parse_uint-digits :
    (bound : ℕ) (s : Bytes)
    → All (λ c. is_digit c ≡ true) s
    → is_empty s ≡ false
    → parse_uint bound s ≡ digits_value bound 0 s
parse_uint-digits bound [] h n = absurd (ground arith)
parse_uint-digits bound (c ∷ s) (e, h) n = let k : (c == b'+') ≡ false = ground arith in rw k refl

-- A number below the bound and below 10 ^ 20 is read back from its decimal.
pub parse_uint-to_decimal :
    (bound n : ℕ) → n < bound → n < 10 ^ 20 → parse_uint bound (to_decimal n) ≡ some n
parse_uint-to_decimal bound n b h =
    parse_uint-digits bound (to_decimal n) (to_decimal-digits n) (to_decimal-nonempty n)
    ∙ digits_value-digits_onto bound 20 n [] h b
