-- ===== src/ClientAddress.antt =====
-- crates/rginx-http/src/client_ip.rs: the address of the client of a request that may have come
-- through proxies. `Network` is what the program takes from `std::net` and `ipnet` on addresses, and
-- from `http` on header values; a header map is the function `HeaderMap::get_all`.
pub mod Trust
pub mod Forwarded
mod Tests
use rginx.Prelude.{
  ℕ, Bool, true, false, not, ◌>>=◌, Option, none, some, List, [], ◌∷◌, ◌++◌, get_elem?, is_empty,
  any, if◌then◌else◌, is_some, or, unwrap_or, Bytes, codes, trim, split,
}
use mathlib.Core.Option
use mathlib.Core.List.{map, reverse}

pub record SocketAddr (Ip : Type 0) : Type 0 where
  pub ip : Ip
  pub port : ℕ

pub record Network (Ip Net : Type 0) : Type 0 where
  pub parse_ip : Bytes → Option Ip
  pub parse_socket : Bytes → Option (SocketAddr Ip)
  pub to_string : Ip → Bytes
  pub contains : Net → Ip → Bool
  pub to_str : Bytes → Option Bytes

abbrev pub HeaderMap : Type 0
HeaderMap = Bytes → List Bytes

pub data ClientIpSource : Type 0 where
  socket_peer x_forwarded_for client_ip_header : ClientIpSource

pub record Server (Net : Type 0) : Type 0 where
  pub trusted_proxies : List Net
  pub client_ip_header : Option Bytes

module _ (Ip : Type 0) where
  pub record ClientAddress : Type 0 where
    pub peer_addr : SocketAddr Ip
    pub client_ip : Ip
    pub forwarded_for : Bytes
    pub source : ClientIpSource

  pub record ConnectionPeerAddrs : Type 0 where
    pub socket_peer_addr : SocketAddr Ip
    pub proxy_protocol_source_addr : Option (SocketAddr Ip)

abbrev pub source_name : ClientIpSource → Bytes
source_name ClientIpSource.socket_peer = codes "socket_peer"
source_name ClientIpSource.x_forwarded_for = codes "x_forwarded_for"
source_name ClientIpSource.client_ip_header = codes "client_ip_header"

-- `Iterator::find`.
abbrev pub find {ℓ} : {A : Type ℓ} → (A → Bool) → List A → Option A
find p [] = none
find p (x ∷ xs) = if p x then some x else find p xs

-- `join(", ")` on texts.
abbrev pub join : List Bytes → Bytes
join [] = []
join (s ∷ []) = s
join (s ∷ t ∷ rest) = s ++ (codes ", " ++ join (t ∷ rest))

module _ {Ip Net : Type 0} (net : Network Ip Net) where
  pub is_trusted_proxy : Server Net → Ip → Bool
  is_trusted_proxy server ip = any (λ cidr. net.contains cidr ip) server.trusted_proxies

  pub parse_forwarded_ip : Bytes → Option Ip
  parse_forwarded_ip token =
      or (net.parse_ip token) (Option.map (λ addr. addr.ip) (net.parse_socket token))

  -- The first value of the header, if it has one (`HeaderMap::get`).
  abbrev first_value : HeaderMap → Bytes → Option Bytes
  first_value headers name = get_elem? (headers name) 0

  pub parse_client_ip_header : HeaderMap → Bytes → Option Ip
  parse_client_ip_header headers header_name = do
    value ← first_value headers header_name
    text ← net.to_str value
    token ← find (λ token. not (is_empty token)) (map trim (split b',' (trim text)))
    parse_forwarded_ip token

  -- The tokens of one value, in front of the addresses of the values behind it.
  pub parse_tokens : List Bytes → List Ip → Option (List Ip)
  parse_tokens [] later = some later
  parse_tokens (token ∷ tokens) later =
      let rest = parse_tokens tokens later in
      if is_empty (trim token)
      then none
      else do ip ← parse_forwarded_ip (trim token); ips ← rest; some (ip ∷ ips)

  pub parse_values : List Bytes → Option (List Ip)
  parse_values [] = some []
  parse_values (value ∷ values) = do
    text ← net.to_str value
    later ← parse_values values
    parse_tokens (split b',' text) later

  pub parse_x_forwarded_for : HeaderMap → Option (List Ip)
  parse_x_forwarded_for headers = do
    chain ← parse_values (headers (codes "x-forwarded-for"))
    if is_empty chain then none else some chain

  pub named_client : HeaderMap → Server Net → Option Ip
  named_client headers server = do
    name ← server.client_ip_header
    parse_client_ip_header headers name

  pub direct_peer : SocketAddr Ip → ClientAddress Ip
  direct_peer addr = record {
    peer_addr = addr;
    client_ip = addr.ip;
    forwarded_for = net.to_string addr.ip;
    source = ClientIpSource.socket_peer;
  }

  pub proxied_peer : SocketAddr Ip → Ip → ClientAddress Ip
  proxied_peer addr ip = record {
    peer_addr = addr;
    client_ip = ip;
    forwarded_for = net.to_string ip;
    source = ClientIpSource.socket_peer;
  }

  -- `none` where `chain[0]` is out of bounds and the program panics.
  pub select_client_ip_with_immediate_peer : List Ip → Ip → Server Net → Option Ip
  select_client_ip_with_immediate_peer chain immediate_peer server = do
    first ← get_elem? chain 0
    some (
        unwrap_or
          (find (λ ip. not (is_trusted_proxy server ip)) (reverse chain ++ immediate_peer ∷ []))
          first)

  pub forwarded_chain : List Ip → Ip → Bytes
  forwarded_chain chain immediate =
      join (map net.to_string chain) ++ (codes ", " ++ net.to_string immediate)

  -- `none` where the program panics.
  pub resolve_forwarded : HeaderMap → Server Net → SocketAddr Ip → Ip → Option (ClientAddress Ip)
  resolve_forwarded headers server peer immediate = elim (parse_x_forwarded_for headers) [
    | none ↦ some (proxied_peer peer immediate)
    | some chain ↦ do
      client ← select_client_ip_with_immediate_peer chain immediate server
      some record {
        peer_addr = peer;
        client_ip = client;
        forwarded_for = forwarded_chain chain immediate;
        source = ClientIpSource.x_forwarded_for;
      }
  ]

  pub resolve_client_address :
      HeaderMap → Server Net → ConnectionPeerAddrs Ip → Option (ClientAddress Ip)
  resolve_client_address headers server connection =
      let peer = connection.socket_peer_addr in
      let immediate = (unwrap_or connection.proxy_protocol_source_addr peer).ip in
      if not (is_trusted_proxy server peer.ip)
      then some (direct_peer peer)
      else elim (named_client headers server) [
        | some client ↦ some record {
          peer_addr = peer;
          client_ip = client;
          forwarded_for = net.to_string client ++ codes ", " ++ net.to_string immediate;
          source = ClientIpSource.client_ip_header;
        }
        | none ↦ resolve_forwarded headers server peer immediate
      ]
