-- ===== src/ProxyProtocol/Source.antt =====
-- The source that a well-formed line names.
use rginx.Prelude.{
  ℕ, ◌+◌, ◌≤◌, ◌≡◌, refl, inl, inr, Bool-cases, Bool, true, false, Option, none, some, [], ◌∷◌,
  ◌++◌, length, ◌==◌, arith, Bytes, codes, white_length, white_bytes, Solid, split_whitespace,
  split_whitespace-append, split_whitespace-Word, Word, Lacks, All-append, All-reverse_aux, ok,
  if◌then◌else◌, bytes_eq,
}
use mathlib.Core.List.{reverse, reverse-append, reverse-reverse}
use rginx.ProxyProtocol.{
  parse_u16, parse_parts, parse_source, parse_proxy_protocol_v1, read_proxy_protocol_source_addr,
  strip_line_ends,
}
use rginx.ProxyProtocol.Line.{line_end, read_header-line}

-- The words of a line, and the line without its end.
abbrev pub tcp : Bool → Bytes
tcp six = if six then codes "TCP6" else codes "TCP4"

abbrev pub header_text : Bool → Bytes → Bytes → Bytes → Bytes → Bytes
header_text six src dst sport dport =
    codes "PROXY"
    ++ b' ' ∷ (tcp six ++ b' ' ∷ (src ++ b' ' ∷ (dst ++ b' ' ∷ (sport ++ b' ' ∷ dport))))

white_bytes-line_feed : (a b c : ℕ) → white_bytes a b c ≡ 0 → (a == b'\n') ≡ false
white_bytes-line_feed a b c h = ground arith

white_length-line_feed : (a : ℕ) (s : Bytes) → white_length (a ∷ s) ≡ 0 → (a == b'\n') ≡ false
white_length-line_feed a [] h = white_bytes-line_feed a 0 0 h
white_length-line_feed a (b ∷ []) h = white_bytes-line_feed a b 0 h
white_length-line_feed a (b ∷ c ∷ s) h = white_bytes-line_feed a b c h

Solid-Lacks : (s : Bytes) → Solid s → Lacks (λ c. c == b'\n') s
Solid-Lacks [] h = tt
Solid-Lacks (c ∷ s) (e, h) = (white_length-line_feed c s e, Solid-Lacks s h)

blank-Lacks :
    (s rest : Bytes)
    → Word s
    → Lacks (λ c. c == b'\n') rest
    → Lacks (λ c. c == b'\n') (s ++ b' ' ∷ rest)
blank-Lacks s rest (n, w) h = All-append _ s (b' ' ∷ rest) (Solid-Lacks s w) (refl, h)

tcp-Word : (six : Bool) → Word (tcp six)
tcp-Word true = (refl, (refl, (refl, (refl, (refl, tt)))))
tcp-Word false = (refl, (refl, (refl, (refl, (refl, tt)))))

proxy-Word : Word (codes "PROXY")
proxy-Word = (refl, (refl, (refl, (refl, (refl, (refl, tt))))))

strip_line_ends-Lacks : (s : Bytes) → Lacks (λ c. c == b'\n') s → strip_line_ends s ≡ s
strip_line_ends-Lacks [] h = refl
strip_line_ends-Lacks (a ∷ []) h = refl
strip_line_ends-Lacks (a ∷ b ∷ s) (e, h) = rw e refl

-- The end of the line is taken off.
line-stripped :
    (text : Bytes)
    → Lacks (λ c. c == b'\n') text
    → reverse (strip_line_ends (reverse (text ++ line_end))) ≡ text
line-stripped text h =
    rw
      (
        reverse-append text line_end,
        strip_line_ends-Lacks (reverse text) (All-reverse_aux _ text [] h tt),
      )
      (reverse-reverse text)

module _ (six : Bool) (src dst sport dport : Bytes) (ws : Word src) (wd : Word dst)
    (wsp : Word sport) (wdp : Word dport) where
  header_text-split :
      split_whitespace (header_text six src dst sport dport)
      ≡ codes "PROXY" ∷ tcp six ∷ src ∷ dst ∷ sport ∷ dport ∷ []
  header_text-split =
      rw
        (
          split_whitespace-append (codes "PROXY")
              (tcp six ++ b' ' ∷ (src ++ b' ' ∷ (dst ++ b' ' ∷ (sport ++ b' ' ∷ dport))))
              proxy-Word,
          split_whitespace-append (tcp six) (src ++ b' ' ∷ (dst ++ b' ' ∷ (sport ++ b' ' ∷ dport)))
              (tcp-Word six),
          split_whitespace-append src (dst ++ b' ' ∷ (sport ++ b' ' ∷ dport)) ws,
          split_whitespace-append dst (sport ++ b' ' ∷ dport) wd,
          split_whitespace-append sport dport wsp,
          split_whitespace-Word dport wdp,
        )
        refl

  header_text-known : bytes_eq (header_text six src dst sport dport) (codes "PROXY UNKNOWN") ≡ false
  header_text-known = elim (Bool-cases six) [ inl e ↦ rw e refl | inr e ↦ rw e refl ]

  header_text-Lacks : Lacks (λ c. c == b'\n') (header_text six src dst sport dport)
  header_text-Lacks = blank-Lacks (codes "PROXY") _ proxy-Word (
      blank-Lacks (tcp six) _ (tcp-Word six) (
        blank-Lacks src _ ws
          (blank-Lacks dst _ wd (blank-Lacks sport _ wsp (Solid-Lacks dport wdp.1)))))

  module _ {Ip : Type 0} (parse_ip : Bytes → Option Ip) (ip : Ip) (port : ℕ)
      (p : parse_ip src ≡ some ip) (q : parse_u16 sport ≡ some port) (trust : Bool) where
    parse_parts-words :
        parse_parts parse_ip (codes "PROXY" ∷ tcp six ∷ src ∷ dst ∷ sport ∷ dport ∷ []) trust
        ≡ ok (if trust then some record { ip = ip; port = port } else none)
    unfolding parse_parts parse_source
    parse_parts-words = elim (Bool-cases six) [
      | inl e ↦ rw (e, p, q) refl
      | inr e ↦ rw (e, p, q) refl
    ]

    parse_proxy_protocol_v1-line :
        parse_proxy_protocol_v1 parse_ip (header_text six src dst sport dport ++ line_end) trust
        ≡ ok (if trust then some record { ip = ip; port = port } else none)
    unfolding parse_proxy_protocol_v1
    parse_proxy_protocol_v1-line =
        rw
          (
            line-stripped (header_text six src dst sport dport) header_text-Lacks,
            header_text-known,
            header_text-split,
          )
          parse_parts-words

    -- A line of version 1 of the protocol for TCP over IPv4 or IPv6, with words (texts without white space
    -- of Unicode, and not empty) for the addresses and the ports, of which the source's are parsed, and of at most 108 bytes of UTF-8: the loop reads
    -- all of it and leaves what stands behind it, and the result is the source that it names, or none if
    -- the peer is not trusted.
    pub read_proxy_protocol_source_addr-line :
        (is_utf8 : Bytes → Bool) (rest : Bytes)
        → is_utf8 (header_text six src dst sport dport ++ line_end) ≡ true
        → length (header_text six src dst sport dport) + 2 ≤ 108
        → read_proxy_protocol_source_addr parse_ip is_utf8
            (header_text six src dst sport dport ++ b'\r' ∷ b'\n' ∷ rest)
            trust
          ≡ (ok (if trust then some record { ip = ip; port = port } else none), rest)
    unfolding read_proxy_protocol_source_addr
    read_proxy_protocol_source_addr-line is_utf8 rest u fits =
        rw
          (
            read_header-line [] (header_text six src dst sport dport) rest header_text-Lacks
                (omega (arith, fits)),
            u,
            parse_proxy_protocol_v1-line,
          )
          refl
