-- ===== src/ClientAddress/Tests.antt =====
-- Client addresses in a network of three hosts, and the examples of the theorems.
use rginx.Prelude.{
  visible, ◌≡◌, refl, Bool, true, false, Option, none, some, [], ◌∷◌, if◌then◌else◌, all, arith,
  All, is_empty, Bytes, codes, bytes_eq,
}
use rginx.ClientAddress.{
  Network, SocketAddr, Server, ConnectionPeerAddrs, ClientAddress, ClientIpSource, HeaderMap,
  is_trusted_proxy, parse_x_forwarded_for, parse_values, parse_tokens, parse_forwarded_ip,
  named_client, forwarded_chain, resolve_client_address, parse_client_ip_header,
}
use rginx.ClientAddress.Trust.{resolve_client_address-rightmost, resolve_client_address-total}
use rginx.ClientAddress.Forwarded.{Printing, plain, parse_x_forwarded_for-forwarded_chain}

data Host : Type 0 where
  client edge inner : Host

abbrev printed : Host → Bytes
printed Host.client = codes "198.51.100.9"
printed Host.edge = codes "10.0.0.1"
printed Host.inner = codes "fd00::2"

abbrev parsed : Bytes → Option Host
parsed s =
    if bytes_eq s (codes "198.51.100.9")
    then some Host.client
    else if bytes_eq s (codes "10.0.0.1")
    then some Host.edge
    else if bytes_eq s (codes "fd00::2")
    then some Host.inner
    else none

-- A network is one of the words for those within it.
abbrev within : Bool → Host → Bool
within private Host.client = false
within private Host.edge = private
within private Host.inner = private

abbrev network : Network Host Bool
network = record {
  parse_ip = parsed;
  parse_socket = λ s. none;
  to_string = printed;
  contains = within;
  to_str = λ s. if all visible s then some s else none;
}

visible-all : (s : Bytes) → All (λ c. visible c ≡ true) s → all visible s ≡ true
visible-all [] h = refl
visible-all (c ∷ s) (e, h) = rw (e, visible-all s h) refl

all-plain : (s : Bytes) → all plain s ≡ true → All (λ c. plain c ≡ true) s
all-plain [] h = tt
all-plain (c ∷ s) h = (ground arith, all-plain s (ground arith))

printed_well :
    (ip : Host)
    → (all plain (printed ip) ≡ true)
      × (is_empty (printed ip) ≡ false)
      × (parsed (printed ip) ≡ some ip)
printed_well Host.client = (refl, refl, refl)
printed_well Host.edge = (refl, refl, refl)
printed_well Host.inner = (refl, refl, refl)

printing : Printing network
printing = record {
  printed-plain = λ ip. all-plain (printed ip) (printed_well ip).0;
  printed-nonempty = λ ip. (printed_well ip).1;
  printed-parsed = λ ip. (printed_well ip).2;
  visible-to_str = λ s h. rw (visible-all s h) refl;
}

abbrev server : Server Bool
server = record { trusted_proxies = true ∷ []; client_ip_header = none }

abbrev socket : Host → SocketAddr Host
socket host = record { ip = host; port = 443 }

abbrev connection : ConnectionPeerAddrs Host
connection = record {
  socket_peer_addr = socket Host.edge;
  proxy_protocol_source_addr = some (socket Host.client);
}

-- A header map with one value.
abbrev one_header : Bytes → Bytes → HeaderMap
one_header name value = λ asked. if bytes_eq asked name then value ∷ [] else []

abbrev spoofed : HeaderMap
spoofed = one_header (codes "x-forwarded-for") (codes "fd00::2, 198.51.100.9,  10.0.0.1 ")

-- The source's test: the last untrusted entry is the client.
last_untrusted :
    parse_x_forwarded_for network spoofed ≡ some (Host.inner ∷ Host.client ∷ Host.edge ∷ [])
unfolding parse_x_forwarded_for parse_values parse_tokens parse_forwarded_ip
last_untrusted = refl

-- An empty token makes the whole header invalid.
malformed :
    parse_x_forwarded_for network (one_header (codes "x-forwarded-for") (codes "10.0.0.1,,fd00::2"))
    ≡ none
unfolding parse_x_forwarded_for parse_values parse_tokens parse_forwarded_ip
malformed = refl

-- A header that names the client skips empty tokens.
first_named :
    parse_client_ip_header network
      (one_header (codes "x-client") (codes " ,198.51.100.9, 10.0.0.1"))
      (codes "x-client")
    ≡ some Host.client
unfolding parse_client_ip_header parse_forwarded_ip
first_named = refl

trusted_edge : is_trusted_proxy network server Host.edge ≡ true
unfolding is_trusted_proxy
trusted_edge = refl

untrusted_client : is_trusted_proxy network server Host.client ≡ false
unfolding is_trusted_proxy
untrusted_client = refl

unnamed : named_client network spoofed server ≡ none
unfolding named_client
unnamed = refl

resolve_client_address-rightmost_example :
    resolve_client_address network spoofed server connection
    ≡ some record {
      peer_addr = socket Host.edge;
      client_ip = Host.client;
      forwarded_for =
          forwarded_chain network (Host.inner ∷ Host.client ∷ Host.edge ∷ []) Host.client;
      source = ClientIpSource.x_forwarded_for;
    }
resolve_client_address-rightmost_example =
    resolve_client_address-rightmost network server spoofed connection (Host.inner ∷ [])
      (Host.edge ∷ []) Host.client trusted_edge unnamed last_untrusted (rw trusted_edge refl, tt)
      (rw untrusted_client refl)

resolve_client_address-total_example :
    (address : ClientAddress Host) × (resolve_client_address network spoofed server connection
      ≡ some address)
    × (address.peer_addr ≡ socket Host.edge)
    × (is_trusted_proxy network server Host.edge ≡ false → address.client_ip ≡ Host.edge)
resolve_client_address-total_example =
    resolve_client_address-total network server spoofed connection

abbrev sent_on : HeaderMap
sent_on =
    one_header (codes "x-forwarded-for") (forwarded_chain network (Host.client ∷ []) Host.edge)

parse_x_forwarded_for-forwarded_chain_example :
    parse_x_forwarded_for network sent_on ≡ some (Host.client ∷ Host.edge ∷ [])
parse_x_forwarded_for-forwarded_chain_example =
    parse_x_forwarded_for-forwarded_chain network printing sent_on Host.client [] Host.edge refl
