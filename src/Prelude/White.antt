-- ===== src/Prelude/White.antt =====
-- White space and separators in a text. A text is the list of the bytes of its UTF-8.
use Prim.Native.Nat.{ℕ, zero, suc, ◌-◌}
use mathlib.Core.Bool.{Bool, true, false, ◌&&◌, ◌||◌}
use mathlib.Core.Option.{Option, none, some}
use mathlib.Core.List.{List, [], ◌∷◌, reverse}
use rginx.Prelude.Tests.{leb, ◌==◌, if◌then◌else◌}
use rginx.Prelude.Lists.{is_empty, filter}
use rginx.Prelude.Text.{Bytes}

abbrev pub is_white_space : ℕ → Bool
is_white_space c = (leb 9 c && leb c 13) || c == 32

-- The white space of Unicode that is two and three bytes long in UTF-8: U+0085 and U+00A0; U+1680,
-- U+2000 to U+200A, U+2028, U+2029, U+202F, U+205F and U+3000.
abbrev pub is_white_pair : ℕ → ℕ → Bool
is_white_pair a b = a == 194 && (b == 133 || b == 160)

abbrev pub is_white_triple : ℕ → ℕ → ℕ → Bool
is_white_triple a b c =
    (a == 225 && b == 154 && c == 128)
    || (a == 226 && b == 128 && ((leb 128 c && leb c 138) || c == 168 || c == 169 || c == 175))
    || (a == 226 && b == 129 && c == 159)
    || (a == 227 && b == 128 && c == 128)

abbrev pub white_bytes : ℕ → ℕ → ℕ → ℕ
white_bytes a b c =
    if is_white_space a
    then 1
    else if is_white_pair a b
    then 2
    else if is_white_triple a b c
    then 3
    else 0

-- How many bytes the white space is long that a text begins with: none if it begins with another character.
abbrev pub white_length : Bytes → ℕ
white_length [] = 0
white_length (a ∷ []) = white_bytes a 0 0
white_length (a ∷ b ∷ []) = white_bytes a b 0
white_length (a ∷ b ∷ c ∷ s) = white_bytes a b c

-- The same for the end of a text, which is given in reverse.
abbrev pub white_end : Bytes → ℕ
white_end [] = 0
white_end (c ∷ []) = white_bytes c 0 0
white_end (c ∷ b ∷ []) = if is_white_space c then 1 else if is_white_pair b c then 2 else 0
white_end (c ∷ b ∷ a ∷ s) =
    if is_white_space c
    then 1
    else if is_white_pair b c
    then 2
    else if is_white_triple a b c
    then 3
    else 0

-- Without the white space at the start, whose length is given, and the bytes still to skip of it.
abbrev pub trim_by : (Bytes → ℕ) → ℕ → Bytes → Bytes
trim_by white skip [] = []
trim_by white zero (c ∷ s) =
    let width = white (c ∷ s) in
    let rest = trim_by white (width - 1) s in if width == 0 then c ∷ s else rest
trim_by white (suc skip) (c ∷ s) = trim_by white skip s

abbrev pub trim_start : Bytes → Bytes
trim_start s = trim_by white_length 0 s

abbrev pub trim_end : Bytes → Bytes
trim_end s = reverse (trim_by white_end 0 (reverse s))

-- `str::trim`, on UTF-8.
abbrev pub trim : Bytes → Bytes
trim s = trim_end (trim_start s)

-- The byte in front of the first of the pieces.
abbrev pub onto_first : ℕ → List Bytes → List Bytes
onto_first c [] = (c ∷ []) ∷ []
onto_first c (piece ∷ pieces) = (c ∷ piece) ∷ pieces

-- The pieces between the bytes that pass the test: always one piece more than there are such bytes.
abbrev pub split_by : (ℕ → Bool) → Bytes → List Bytes
split_by sep [] = [] ∷ []
split_by sep (c ∷ s) =
    let pieces = split_by sep s in if sep c then [] ∷ pieces else onto_first c pieces

-- `str::split` at one byte.
abbrev pub split : ℕ → Bytes → List Bytes
split sep s = split_by (λ c. c == sep) s

-- The pieces between the characters of white space, with the bytes still to skip of one of them.
abbrev pub white_pieces : ℕ → Bytes → List Bytes
white_pieces skip [] = [] ∷ []
white_pieces zero (c ∷ s) =
    let width = white_length (c ∷ s) in
    let pieces = white_pieces (width - 1) s in
    if width == 0 then onto_first c pieces else [] ∷ pieces
white_pieces (suc skip) (c ∷ s) = white_pieces skip s

-- `str::split_whitespace`, on UTF-8.
abbrev pub split_whitespace : Bytes → List Bytes
split_whitespace s =
    filter (λ piece. elim (is_empty piece) [ true ↦ false | false ↦ true ]) (white_pieces 0 s)

-- The part before the first `sep`, and the part behind it if there is one (`str::split_once`).
abbrev pub split_at : ℕ → Bytes → Bytes × Option Bytes
split_at sep [] = ([], none)
split_at sep (c ∷ s) = let (a, b) = split_at sep s in if c == sep then ([], some s) else (c ∷ a, b)

-- `str::split_once`.
abbrev pub split_once : ℕ → Bytes → Option (Bytes × Bytes)
split_once sep s =
    let (before, behind) = split_at sep s in
    elim behind [ none ↦ none | some rest ↦ some (before, rest) ]
