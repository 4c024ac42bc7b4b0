-- ===== src/ProxyProtocol/Tests.antt =====
-- Lines of the PROXY protocol, and the examples of the theorems.
use rginx.Prelude.{
  ◌≡◌, refl, true, false, Option, none, some, [], ◌∷◌, ◌++◌, if◌then◌else◌, arith, Bytes, codes,
  bytes_eq, ok, err,
}
use rginx.ProxyProtocol.{
  ProxyError, read_header, parse_u16, parse_proxy_protocol_v1, parse_parts, parse_source,
  read_proxy_protocol_source_addr,
}
use rginx.ProxyProtocol.Line.{Takes, read_header-Takes}
use rginx.ProxyProtocol.Source.{read_proxy_protocol_source_addr-line}

-- One address, and the parser that knows it.
data Ip : Type 0 where
  source : Ip

abbrev parse_ip : Bytes → Option Ip
parse_ip s = if bytes_eq s (codes "198.51.100.9") then some Ip.source else none

abbrev line : Bytes
line = codes "PROXY TCP4 198.51.100.9 203.0.113.10 12345 443\r\n"

-- The source's tests: the line is parsed, and ignored for a peer that is not trusted.
trusted :
    parse_proxy_protocol_v1 parse_ip line true ≡ ok (some record { ip = Ip.source; port = 12345 })
unfolding parse_proxy_protocol_v1 parse_parts parse_source
trusted = refl

untrusted : parse_proxy_protocol_v1 parse_ip line false ≡ ok none
unfolding parse_proxy_protocol_v1 parse_parts parse_source
untrusted = refl

unknown : parse_proxy_protocol_v1 parse_ip (codes "PROXY UNKNOWN\r\n") true ≡ ok none
unfolding parse_proxy_protocol_v1
unknown = refl

-- A port over 65535 and a seventh word are refused.
port_too_large :
    parse_proxy_protocol_v1 parse_ip (codes "PROXY TCP4 198.51.100.9 203.0.113.10 65536 443") true
    ≡ err ProxyError.invalid_port
unfolding parse_proxy_protocol_v1 parse_parts parse_source
port_too_large = refl

trailing :
    parse_proxy_protocol_v1 parse_ip (codes "PROXY TCP4 198.51.100.9 203.0.113.10 1 2 3") true
    ≡ err ProxyError.invalid_header
unfolding parse_proxy_protocol_v1 parse_parts
trailing = refl

-- A no-break space parts two words.
no_break_space :
    parse_proxy_protocol_v1 parse_ip
      (codes "PROXY TCP4 198.51.100.9 a" ++ 194 ∷ 160 ∷ codes "b 12345 443")
      true
    ≡ err ProxyError.invalid_header
unfolding parse_proxy_protocol_v1 parse_parts
no_break_space = refl

port_12345 : parse_u16 (codes "12345") ≡ some 12345
port_12345 = refl

read_header-Takes_example : Takes line (read_header [] line)
read_header-Takes_example = read_header-Takes line

read_proxy_protocol_source_addr-line_example :
    read_proxy_protocol_source_addr parse_ip (λ s. true) (line ++ codes "GET / HTTP/1.1") true
    ≡ (ok (some record { ip = Ip.source; port = 12345 }), codes "GET / HTTP/1.1")
read_proxy_protocol_source_addr-line_example =
    read_proxy_protocol_source_addr-line false (codes "198.51.100.9") (codes "203.0.113.10")
      (codes "12345") (codes "443") (ground arith) (ground arith) (ground arith) (ground arith)
      parse_ip Ip.source 12345 refl port_12345 true (λ s. true) (codes "GET / HTTP/1.1") refl
      (omega arith)
