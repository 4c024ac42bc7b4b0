-- ===== src/ProxyProtocol/Line.antt =====
-- A well-formed line is read as it is written, and nothing behind it is taken from the stream.
use rginx.Prelude.{
  ℕ, ◌+◌, ◌<◌, ◌≤◌, ◌≡◌, refl, sym, ap, ◌∙◌, inl, inr, true, false, [], ◌∷◌, ◌++◌, length, leb,
  ◌==◌, arith, Bool-cases, append_assoc, length-append, Bytes, codes, ends_with, Lacks, Result, ok,
}
use mathlib.Core.List.{reverse-append}
use rginx.ProxyProtocol.{ProxyError, max_proxy_protocol_header_bytes, read_header}

-- Of the bytes `all`, the result took a line within the limit, which is the header if there is one.
abbrev pub Takes : Bytes → Result ProxyError Bytes × Bytes → Type 0
Takes all (header, rest) =
    (line : Bytes) × (all ≡ line ++ rest)
    × (length line ≤ max_proxy_protocol_header_bytes)
    × ((taken : Bytes) → header ≡ ok taken → taken ≡ line)

read_header-from :
    (header stream : Bytes)
    → length header ≤ max_proxy_protocol_header_bytes
    → Takes (header ++ stream) (read_header header stream)
unfolding read_header
read_header-from header [] h = elim (Bool-cases (leb 108 (length header))) [
  | inl e ↦ rw e (header, refl, h, λ taken k. absurd (cc))
  | inr e ↦ rw e (header, refl, h, λ taken k. absurd (cc))
]
read_header-from header (byte ∷ stream) h = elim (Bool-cases (leb 108 (length header))) [
  | inl e ↦ rw (e, read_header) (header, refl, h, λ taken k. absurd (cc))
  | inr e ↦
      let short : length header < 108 = ground arith in
      let next : length (header ++ byte ∷ []) ≤ 108 =
        omega (arith, length-append header (byte ∷ []), short) in
      elim (Bool-cases (ends_with (codes "\r\n") (header ++ byte ∷ []))) [
        | inl f ↦
            rw (e, f, read_header)
              (
                header ++ byte ∷ [],
                sym (append_assoc header (byte ∷ []) stream),
                next,
                λ taken k. ground (arith, k),
              )
        | inr f ↦
            rw (e, f, read_header)
              (rw (← append_assoc header (byte ∷ []) stream)
                (read_header-from (header ++ byte ∷ []) stream next))
      ]
]

-- Whatever comes in, what is read is a prefix of the stream of at most 108 bytes, the header is all of
-- it, and everything behind it is left for the connection.
pub read_header-Takes : (stream : Bytes) → Takes stream (read_header [] stream)
read_header-Takes stream = read_header-from [] stream (omega arith)

abbrev pub line_end : Bytes
line_end = codes "\r\n"

ends_with-other :
    (s : Bytes) (b : ℕ) → (b == b'\n') ≡ false → ends_with line_end (s ++ b ∷ []) ≡ false
ends_with-other s b h = rw (reverse-append s (b ∷ [])) (ground (arith, h))

ends_with-line_end : (s : Bytes) → ends_with line_end (s ++ b'\r' ∷ [] ++ b'\n' ∷ []) ≡ true
ends_with-line_end s =
    rw (reverse-append (s ++ b'\r' ∷ []) (b'\n' ∷ []), reverse-append s (b'\r' ∷ [])) refl

-- One more byte is read.
read_header-step :
    (header : Bytes) (byte : ℕ) (stream : Bytes)
    → length header < 108
    → ends_with line_end (header ++ byte ∷ []) ≡ false
    → read_header header (byte ∷ stream) ≡ read_header (header ++ byte ∷ []) stream
unfolding read_header
read_header-step header byte stream h e =
    let l : leb 108 (length header) ≡ false = ground arith in rw (read_header, l, e) refl

pub read_header-line :
    (header text rest : Bytes)
    → Lacks (λ c. c == b'\n') text
    → length header + length text + 2 ≤ 108
    → read_header header (text ++ b'\r' ∷ b'\n' ∷ rest) ≡ (ok (header ++ (text ++ line_end)), rest)
unfolding read_header
read_header-line header [] rest h fits =
    let short : length header < 108 = omega (arith, fits) in
    let l : leb 108 (length (header ++ b'\r' ∷ [])) ≡ false =
      rw (length-append header (b'\r' ∷ [])) (ground arith) in
    read_header-step header b'\r' (b'\n' ∷ rest) short (ends_with-other header b'\r' refl)
    ∙ rw (read_header, l, ends_with-line_end header)
        (ap (λ all. (ok all, rest)) (append_assoc header (b'\r' ∷ []) (b'\n' ∷ [])))
read_header-line header (c ∷ text) rest (e, h) fits =
    let short : length header < 108 = omega (arith, fits) in
    let fits' : length (header ++ c ∷ []) + length text + 2 ≤ 108 =
      omega (arith, fits, length-append header (c ∷ [])) in
    read_header-step header c (text ++ b'\r' ∷ b'\n' ∷ rest) short (ends_with-other header c e)
    ∙ read_header-line (header ++ c ∷ []) text rest h fits'
    ∙ ap (λ all. (ok all, rest)) (append_assoc header (c ∷ []) (text ++ line_end))
