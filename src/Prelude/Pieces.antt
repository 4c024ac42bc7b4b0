-- ===== src/Prelude/Pieces.antt =====
-- Lemmas on pieces and white space: a text without separators is one piece, and stays as it is when it
-- is trimmed.
use Prim.Native.Nat.{ℕ}
use mathlib.Core.Path.{◌≡◌, refl, ap}
use mathlib.Core.Bool.{Bool, true, false, ◌||◌}
use mathlib.Core.Option.{some}
use native.Mathlib.Omega.{arith}
use mathlib.Core.List.{List, [], ◌∷◌, ◌++◌, reverse, reverse_aux, reverse-reverse}
use rginx.Prelude.Tests.{◌==◌, leb}
use rginx.Prelude.Lists.{All, is_empty}
use rginx.Prelude.Text.{Bytes}
use rginx.Prelude.White.{
  is_white_space, trim, trim_start, trim_end, trim_by, white_end, split_by, split_whitespace,
  white_length, white_bytes, white_pieces, split_at, split_once,
}

module _ {ℓ κ} {A : Type ℓ} (P : A → Type κ) where
  pub All-reverse_aux : (xs ys : List A) → All P xs → All P ys → All P (reverse_aux xs ys)
  All-reverse_aux [] ys h k = k
  All-reverse_aux (x ∷ xs) ys (e, h) k = All-reverse_aux xs (x ∷ ys) h (e, k)

-- No byte of the text passes the test.
abbrev pub Lacks : (ℕ → Bool) → Bytes → Type 0
Lacks sep s = All (λ c. sep c ≡ false) s

pub split_by-whole : (sep : ℕ → Bool) (s : Bytes) → Lacks sep s → split_by sep s ≡ s ∷ []
split_by-whole sep [] h = refl
split_by-whole sep (c ∷ s) (e, h) = rw (e, split_by-whole sep s h) refl

pub split_by-append :
    (sep : ℕ → Bool) (s : Bytes) (c : ℕ) (rest : Bytes)
    → Lacks sep s
    → sep c ≡ true
    → split_by sep (s ++ c ∷ rest) ≡ s ∷ split_by sep rest
split_by-append sep [] c rest h e = rw e refl
split_by-append sep (b ∷ s) c rest (k, h) e = rw (k, split_by-append sep s c rest h e) refl

-- A byte that is white space of ASCII or not ASCII.
abbrev pub is_wide : ℕ → Bool
is_wide c = is_white_space c || leb 128 c

white_bytes-narrow : (a b c : ℕ) → is_wide a ≡ false → white_bytes a b c ≡ 0
white_bytes-narrow a b c h = ground arith

white_length-Lacks : (s : Bytes) → Lacks is_wide s → white_length s ≡ 0
white_length-Lacks [] h = refl
white_length-Lacks (a ∷ []) (e, h) = white_bytes-narrow a 0 0 e
white_length-Lacks (a ∷ b ∷ []) (e, h) = white_bytes-narrow a b 0 e
white_length-Lacks (a ∷ b ∷ c ∷ s) (e, h) = white_bytes-narrow a b c e

white_end-Lacks : (s : Bytes) → Lacks is_wide s → white_end s ≡ 0
white_end-Lacks [] h = refl
white_end-Lacks (c ∷ []) (e, h) = white_bytes-narrow c 0 0 e
white_end-Lacks (c ∷ b ∷ []) (e, (f, h)) = ground (arith, e, f)
white_end-Lacks (c ∷ b ∷ a ∷ s) (e, (f, (g, h))) = ground (arith, e, f)

trim_by-whole : (white : Bytes → ℕ) (s : Bytes) → white s ≡ 0 → trim_by white 0 s ≡ s
trim_by-whole white [] h = refl
trim_by-whole white (c ∷ s) h = rw h refl

pub trim-Lacks : (s : Bytes) → Lacks is_wide s → trim s ≡ s
trim-Lacks s h =
    rw
      (
        trim_by-whole white_length s (white_length-Lacks s h),
        trim_by-whole white_end (reverse s)
            (white_end-Lacks (reverse s) (All-reverse_aux _ s [] h tt)),
      )
      (reverse-reverse s)

trim_start-blank : (s : Bytes) → trim_start (b' ' ∷ s) ≡ trim_start s
trim_start-blank [] = refl
trim_start-blank (a ∷ []) = refl
trim_start-blank (a ∷ b ∷ s) = refl

pub trim-blank : (s : Bytes) → trim (b' ' ∷ s) ≡ trim s
trim-blank s = ap trim_end (trim_start-blank s)

-- No white space of Unicode begins at a byte of the text.
abbrev pub Solid : Bytes → Type 0
Solid [] = Unit
Solid (c ∷ s) = (white_length (c ∷ s) ≡ 0) × Solid s

-- A word: a text that is not empty and has no white space.
abbrev pub Word : Bytes → Type 0
Word s = (is_empty s ≡ false) × Solid s

-- A blank is no byte of a longer character.
white_bytes-second : (a c : ℕ) → white_bytes a b' ' c ≡ white_bytes a 0 0
white_bytes-second a c = ground arith

white_bytes-third : (a b : ℕ) → white_bytes a b b' ' ≡ white_bytes a b 0
white_bytes-third a b = ground arith

white_length-append :
    (c : ℕ) (s rest : Bytes) → white_length (c ∷ (s ++ b' ' ∷ rest)) ≡ white_length (c ∷ s)
white_length-append c [] [] = white_bytes-second c 0
white_length-append c [] (r ∷ rest) = white_bytes-second c r
white_length-append c (d ∷ []) rest = white_bytes-third c d
white_length-append c (d ∷ e ∷ s) rest = refl

white_pieces-append :
    (s rest : Bytes) → Solid s → white_pieces 0 (s ++ b' ' ∷ rest) ≡ s ∷ white_pieces 0 rest
white_pieces-append [] [] h = refl
white_pieces-append [] (a ∷ []) h = refl
white_pieces-append [] (a ∷ b ∷ rest) h = refl
white_pieces-append (c ∷ s) rest (e, h) =
    rw (white_length-append c s rest, e, white_pieces-append s rest h) refl

white_pieces-whole : (s : Bytes) → Solid s → white_pieces 0 s ≡ s ∷ []
white_pieces-whole [] h = refl
white_pieces-whole (c ∷ s) (e, h) = rw (e, white_pieces-whole s h) refl

-- The first word before a blank, and the last one.
pub split_whitespace-append :
    (s rest : Bytes) → Word s → split_whitespace (s ++ b' ' ∷ rest) ≡ s ∷ split_whitespace rest
split_whitespace-append s rest (n, h) = rw (white_pieces-append s rest h, n) refl

pub split_whitespace-Word : (s : Bytes) → Word s → split_whitespace s ≡ s ∷ []
split_whitespace-Word s (n, h) = rw (white_pieces-whole s h, n) refl

pub split_at-append :
    (sep : ℕ) (s rest : Bytes)
    → Lacks (λ c. c == sep) s
    → split_at sep (s ++ sep ∷ rest) ≡ (s, some rest)
split_at-append sep [] rest h = let e : (sep == sep) ≡ true = ground arith in rw e refl
split_at-append sep (c ∷ s) rest (e, h) = rw (e, split_at-append sep s rest h) refl

pub split_once-append :
    (sep : ℕ) (s rest : Bytes)
    → Lacks (λ c. c == sep) s
    → split_once sep (s ++ sep ∷ rest) ≡ some (s, rest)
split_once-append sep s rest h =
    rw (split_once, split_at-append sep s rest h, split_at-append sep s rest h) refl
