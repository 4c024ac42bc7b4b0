-- ===== src/ClientAddress/Trust.antt =====
-- Which address of a chain of proxies is taken for the client.
use rginx.Prelude.{
  ◌≡◌, refl, inl, inr, Bool, true, false, not, none, some, List, [], ◌∷◌, ◌++◌, is_empty,
  append_assoc, arith, Bool-cases, Option-cases, codes, All, unwrap_or,
}
use mathlib.Core.List.{reverse, reverse_aux, reverse-append, reverse-cons}
use rginx.ClientAddress.{
  Network, Server, SocketAddr, ClientAddress, ConnectionPeerAddrs, HeaderMap, ClientIpSource, find,
  is_trusted_proxy, select_client_ip_with_immediate_peer, forwarded_chain, resolve_forwarded,
  named_client, resolve_client_address, parse_x_forwarded_for, proxied_peer, direct_peer,
}

module _ {ℓ} {A : Type ℓ} (p : A → Bool) where
  -- The first element that passes the test.
  find-append :
      (before : List A) (u : A) (rest : List A)
      → All (λ a. p a ≡ false) before
      → p u ≡ true
      → find p (before ++ u ∷ rest) ≡ some u
  find-append [] u rest h e = rw e refl
  find-append (a ∷ before) u rest (e, h) k = rw e (find-append before u rest h k)

  All-reverse_aux :
      (xs ys : List A)
      → All (λ a. p a ≡ false) xs
      → All (λ a. p a ≡ false) ys
      → All (λ a. p a ≡ false) (reverse_aux xs ys)
  All-reverse_aux [] ys h k = k
  All-reverse_aux (x ∷ xs) ys (e, h) k = All-reverse_aux xs (x ∷ ys) h (e, k)

  -- From the end, whatever stands in front of it or is added behind the reversed list.
  find-reverse :
      (before : List A) (u : A) (after rest : List A)
      → All (λ a. p a ≡ false) after
      → p u ≡ true
      → find p (reverse (before ++ u ∷ after) ++ rest) ≡ some u
  find-reverse before u after rest h e =
      rw
        (
          reverse-append before (u ∷ after),
          reverse-cons u after,
          append_assoc (reverse after ++ u ∷ []),
          append_assoc,
        )
        (find-append (reverse after) u (reverse before ++ rest) (All-reverse_aux after [] h tt) e)

module _ {Ip Net : Type 0} (net : Network Ip Net) (server : Server Net) where
  select-rightmost :
      (before after : List Ip) (client immediate : Ip)
      → All (λ ip. not (is_trusted_proxy net server ip) ≡ false) after
      → not (is_trusted_proxy net server client) ≡ true
      → select_client_ip_with_immediate_peer net (before ++ client ∷ after) immediate server
        ≡ some client
  unfolding select_client_ip_with_immediate_peer
  select-rightmost [] after client immediate h e =
      rw (find-reverse _ [] client after (immediate ∷ []) h e) refl
  select-rightmost (x ∷ before) after client immediate h e =
      rw (find-reverse _ (x ∷ before) client after (immediate ∷ []) h e) refl

  -- If the peer of the socket is a trusted proxy, no configured header names the client, and the
  -- header X-Forwarded-For has an address that is not a trusted proxy, with trusted ones only to its
  -- right, then that address is the client's, whatever stands to its left and whatever the source that
  -- the PROXY protocol gave is, trusted or not.
  pub resolve_client_address-rightmost :
      (headers : HeaderMap) (connection : ConnectionPeerAddrs Ip) (before after : List Ip)
      (client : Ip)
      → is_trusted_proxy net server connection.socket_peer_addr.ip ≡ true
      → named_client net headers server ≡ none
      → parse_x_forwarded_for net headers ≡ some (before ++ client ∷ after)
      → All (λ ip. not (is_trusted_proxy net server ip) ≡ false) after
      → not (is_trusted_proxy net server client) ≡ true
      → resolve_client_address net headers server connection
        ≡ some record {
          peer_addr = connection.socket_peer_addr;
          client_ip = client;
          forwarded_for =
              forwarded_chain net
                (before ++ client ∷ after)
                (unwrap_or connection.proxy_protocol_source_addr connection.socket_peer_addr).ip;
          source = ClientIpSource.x_forwarded_for;
        }
  unfolding resolve_client_address resolve_forwarded
  resolve_client_address-rightmost headers connection before after client t n c h e =
      rw (t, n, resolve_forwarded, c, select-rightmost before after client _ h e) refl

  parse-nonempty :
      (headers : HeaderMap) (chain : List Ip)
      → parse_x_forwarded_for net headers ≡ some chain
      → is_empty chain ≡ false
  unfolding parse_x_forwarded_for
  parse-nonempty headers chain h = ground arith

  select-is_some :
      (chain : List Ip) (immediate : Ip)
      → is_empty chain ≡ false
      → (ip : Ip) × (select_client_ip_with_immediate_peer net chain immediate server ≡ some ip)
  unfolding select_client_ip_with_immediate_peer
  select-is_some [] immediate h = absurd (ground arith)
  select-is_some (first ∷ chain) immediate h = (_, refl)

  resolve_forwarded-total :
      (headers : HeaderMap) (peer : SocketAddr Ip) (immediate : Ip)
      → (address : ClientAddress Ip) × (resolve_forwarded net headers server peer immediate
          ≡ some address)
        × (address.peer_addr ≡ peer)
  unfolding resolve_forwarded proxied_peer
  resolve_forwarded-total headers peer immediate =
      elim (Option-cases (parse_x_forwarded_for net headers)) [
        | inl c ↦ (proxied_peer net peer immediate, rw (resolve_forwarded, c) refl, refl)
        | inr (chain, c) ↦
            let (ip, s) = select-is_some chain immediate (parse-nonempty headers chain c) in
            (
              record {
                peer_addr = peer;
                client_ip = ip;
                forwarded_for = forwarded_chain net chain immediate;
                source = ClientIpSource.x_forwarded_for;
              },
              rw (resolve_forwarded, c, s) refl,
              refl,
            )
      ]

  -- The indexing of the chain never panics: every request has a client address. It belongs to the peer
  -- of the socket, and it is this peer's own address if the peer is not a trusted proxy.
  pub resolve_client_address-total :
      (headers : HeaderMap) (connection : ConnectionPeerAddrs Ip)
      → (address : ClientAddress Ip) × (resolve_client_address net headers server connection
          ≡ some address)
        × (address.peer_addr ≡ connection.socket_peer_addr)
        × (is_trusted_proxy net server connection.socket_peer_addr.ip ≡ false
            → address.client_ip ≡ connection.socket_peer_addr.ip)
  unfolding resolve_client_address resolve_forwarded direct_peer proxied_peer
  resolve_client_address-total headers connection =
      elim (Bool-cases (is_trusted_proxy net server connection.socket_peer_addr.ip)) [
        | inr u ↦ (direct_peer net connection.socket_peer_addr, rw u refl, refl, λ _. refl)
        | inl t ↦ elim (Option-cases (named_client net headers server)) [
          | inr (ip, n) ↦ (
            record {
              peer_addr = connection.socket_peer_addr;
              client_ip = ip;
              forwarded_for =
                  net.to_string ip
                  ++ codes ", "
                  ++ net.to_string
                      (unwrap_or connection.proxy_protocol_source_addr
                        connection.socket_peer_addr).ip;
              source = ClientIpSource.client_ip_header;
            },
            rw (t, n) refl,
            refl,
            λ u. absurd (ground arith),
          )
          | inl n ↦
              let immediate =
                (unwrap_or connection.proxy_protocol_source_addr connection.socket_peer_addr).ip in
              let (address, r, same) =
                resolve_forwarded-total headers connection.socket_peer_addr immediate in
              (address, rw (t, n) r, same, λ u. absurd (ground arith))
        ]
      ]
