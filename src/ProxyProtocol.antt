-- ===== src/ProxyProtocol.antt =====
-- crates/rginx-http/src/server/proxy_protocol.rs: the line in front of a connection that names its
-- source. The stream is the list of the bytes to come; behind them it has ended. The parser of
-- addresses and the test for UTF-8 are parameters, and a `str` is the list of its bytes.
pub mod Line
pub mod Source
mod Tests
use rginx.Prelude.{
  ℕ, zero, suc, ◌+◌, ◌*◌, ◌-◌, ◌^◌, Bool, true, false, ◌&&◌, ◌||◌, not, Option, none, some, List,
  [], ◌∷◌, ◌++◌, length, is_empty, leb, ltb, ◌==◌, if◌then◌else◌, ◌>>=◌, Bytes, codes, bytes_eq,
  ends_with, starts_with, Result, err, ok, and_then, split_whitespace, is_some, is_none_or,
  get_elem?, parse_uint,
}
use mathlib.Core.List.{reverse}
use rginx.ClientAddress.{SocketAddr}

pub data ProxyError : Type 0 where
  too_long unexpected_eof not_utf8 invalid_header missing_address invalid_address missing_port
        invalid_port unsupported_transport :
      ProxyError

abbrev pub max_proxy_protocol_header_bytes : ℕ
max_proxy_protocol_header_bytes = 108

-- What the loop leaves: the header with its end of line or an error, and the stream behind it.
pub read_header : Bytes → Bytes → Result ProxyError Bytes × Bytes
read_header header [] =
    if leb max_proxy_protocol_header_bytes (length header)
    then (err ProxyError.too_long, [])
    else (err ProxyError.unexpected_eof, [])
read_header header (byte ∷ stream) =
    let rest = read_header (header ++ byte ∷ []) stream in
    if leb max_proxy_protocol_header_bytes (length header)
    then (err ProxyError.too_long, byte ∷ stream)
    else if ends_with (codes "\r\n") (header ++ byte ∷ [])
    then (ok (header ++ byte ∷ []), stream)
    else rest

-- `trim_end_matches("\r\n")` on the reversed text.
abbrev pub strip_line_ends : Bytes → Bytes
strip_line_ends [] = []
strip_line_ends (a ∷ []) = a ∷ []
strip_line_ends (a ∷ b ∷ s) =
    let rest = strip_line_ends s in if a == b'\n' && b == b'\r' then rest else a ∷ b ∷ s

abbrev pub parse_u16 : Bytes → Option ℕ
parse_u16 s = parse_uint (2 ^ 16) s

module _ {Ip : Type 0} (parse_ip : Bytes → Option Ip) where
  abbrev or_missing : {A : Type 0} → ProxyError → Option A → Result ProxyError A
  or_missing e none = err e
  or_missing e (some a) = ok a

  pub parse_source : Option Bytes → Option Bytes → Result ProxyError (SocketAddr Ip)
  parse_source source_addr source_port =
      and_then (or_missing ProxyError.missing_address source_addr) λ addr.
        and_then (or_missing ProxyError.invalid_address (parse_ip addr)) λ ip.
          and_then (or_missing ProxyError.missing_port source_port) λ text.
            and_then (or_missing ProxyError.invalid_port (parse_u16 text))
              λ port. ok (record { ip = ip; port = port })

  abbrev is_tcp : Option Bytes → Bool
  is_tcp none = false
  is_tcp (some protocol) = bytes_eq protocol (codes "TCP4") || bytes_eq protocol (codes "TCP6")

  abbrev is_proxy : Option Bytes → Bool
  is_proxy none = false
  is_proxy (some prefix) = bytes_eq prefix (codes "PROXY")

  pub parse_parts : List Bytes → Bool → Result ProxyError (Option (SocketAddr Ip))
  parse_parts parts trust_remote_addr =
      if not (is_proxy (get_elem? parts 0)) || is_some (get_elem? parts 6)
      then err ProxyError.invalid_header
      else if is_tcp (get_elem? parts 1)
      then and_then (parse_source (get_elem? parts 2) (get_elem? parts 4))
          (λ source. ok (if trust_remote_addr then some source else none))
      else err ProxyError.unsupported_transport

  pub parse_proxy_protocol_v1 : Bytes → Bool → Result ProxyError (Option (SocketAddr Ip))
  parse_proxy_protocol_v1 line trust_remote_addr =
      let header = reverse (strip_line_ends (reverse line)) in
      if bytes_eq header (codes "PROXY UNKNOWN")
      then ok none
      else parse_parts (split_whitespace header) trust_remote_addr

  -- With the test `str::from_utf8` makes. The stream that is left belongs to the connection.
  pub read_proxy_protocol_source_addr :
      (Bytes → Bool) → Bytes → Bool → Result ProxyError (Option (SocketAddr Ip)) × Bytes
  read_proxy_protocol_source_addr is_utf8 stream trust_remote_addr =
      let (header, rest) = read_header [] stream in
      (
        and_then header λ line.
            if is_utf8 line
            then parse_proxy_protocol_v1 line trust_remote_addr
            else err ProxyError.not_utf8,
        rest,
      )
