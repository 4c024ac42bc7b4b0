-- ===== src/ClientAddress/Forwarded.antt =====
-- The header X-Forwarded-For that is sent on is read back by the next proxy.
use rginx.Prelude.{
  visible, ℕ, ◌≡◌, refl, ap, ◌∙◌, Bool, true, false, not, ◌&&◌, some, List, [], ◌∷◌, ◌++◌, is_empty,
  ltb, ◌==◌, append_assoc, arith, Bytes, codes, All, All-append, Lacks, split, split_by-whole,
  split_by-append, trim, trim-Lacks, trim-blank, is_wide,
}
use rginx.ClientAddress.{
  Network, HeaderMap, parse_tokens, parse_values, parse_x_forwarded_for, parse_forwarded_ip,
  forwarded_chain, join,
}
use mathlib.Core.List.{map}

-- A byte that an address is printed with.
abbrev pub plain : ℕ → Bool
plain c = ltb 32 c && ltb c 127 && not (c == b',')

module _ {Ip Net : Type 0} (net : Network Ip Net) where
  -- What is documented of the parameters: an address is printed without blanks and commas and parsed
  -- from what is printed, and `HeaderValue::to_str` gives visible ASCII back.
  pub record Printing : Type 0 where
    pub printed-plain : (ip : Ip) → All (λ c. plain c ≡ true) (net.to_string ip)
    pub printed-nonempty : (ip : Ip) → is_empty (net.to_string ip) ≡ false
    pub printed-parsed : (ip : Ip) → net.parse_ip (net.to_string ip) ≡ some ip
    pub visible-to_str : (s : Bytes) → All (λ c. visible c ≡ true) s → net.to_str s ≡ some s

plain-Lacks : (s : Bytes) → All (λ c. plain c ≡ true) s → Lacks (λ c. c == b',') s × Lacks is_wide s
plain-Lacks [] h = (tt, tt)
plain-Lacks (c ∷ s) (e, h) =
    let (a, b) = plain-Lacks s h in ((ground (arith, e), a), (ground (arith, e), b))

plain-visible : (s : Bytes) → All (λ c. plain c ≡ true) s → All (λ c. visible c ≡ true) s
plain-visible [] h = tt
plain-visible (c ∷ s) (e, h) = (ground (arith, e), plain-visible s h)

module _ {Ip Net : Type 0} (net : Network Ip Net) (laws : Printing net) where
  -- The chain from its first address on.
  abbrev chain_text : Ip → List Ip → Ip → Bytes
  chain_text ip [] last = net.to_string ip ++ (codes ", " ++ net.to_string last)
  chain_text ip (next ∷ ips) last = net.to_string ip ++ (codes ", " ++ chain_text next ips last)

  forwarded_chain-text :
      (ip : Ip) (ips : List Ip) (last : Ip)
      → forwarded_chain net (ip ∷ ips) last ≡ chain_text ip ips last
  unfolding forwarded_chain
  forwarded_chain-text ip [] last = refl
  forwarded_chain-text ip (next ∷ ips) last =
      append_assoc (net.to_string ip) (codes ", " ++ join (map net.to_string (next ∷ ips)))
        (codes ", " ++ net.to_string last)
      ∙ ap (λ text. net.to_string ip ++ (codes ", " ++ text)) (forwarded_chain-text next ips last)

  token-parsed :
      (ip : Ip)
      → (is_empty (trim (net.to_string ip)) ≡ false)
        × (parse_forwarded_ip net (trim (net.to_string ip)) ≡ some ip)
  unfolding parse_forwarded_ip
  token-parsed ip =
      rw
        (
          trim-Lacks (net.to_string ip) (plain-Lacks _ (laws.printed-plain ip)).1,
          laws.printed-parsed ip,
        )
        (laws.printed-nonempty ip, refl)

  blank-trimmed : (ip : Ip) → trim (b' ' ∷ net.to_string ip) ≡ trim (net.to_string ip)
  blank-trimmed ip = trim-blank (net.to_string ip)

  chain_text-visible :
      (ip : Ip) (ips : List Ip) (last : Ip) → All (λ c. visible c ≡ true) (chain_text ip ips last)
  chain_text-visible ip [] last =
      All-append _ (net.to_string ip) (codes ", " ++ net.to_string last)
        (plain-visible _ (laws.printed-plain ip))
        (refl, (refl, plain-visible _ (laws.printed-plain last)))
  chain_text-visible ip (next ∷ ips) last =
      All-append _ (net.to_string ip) (codes ", " ++ chain_text next ips last)
        (plain-visible _ (laws.printed-plain ip)) (refl, (refl, chain_text-visible next ips last))

  commaless : (ip : Ip) → Lacks (λ c. c == b',') (net.to_string ip)
  commaless ip = (plain-Lacks _ (laws.printed-plain ip)).0

  parse_tokens-text :
      (ip : Ip) (ips : List Ip) (last : Ip)
      → (parse_tokens net (split b',' (chain_text ip ips last)) [] ≡ some (ip ∷ ips ++ last ∷ []))
        × (parse_tokens net (split b',' (b' ' ∷ chain_text ip ips last)) []
            ≡ some (ip ∷ ips ++ last ∷ []))
  unfolding parse_tokens
  parse_tokens-text ip [] last =
      let (n, p) = token-parsed ip in
      let (m, q) = token-parsed last in
      rw
        (
          split_by-append _ (net.to_string ip) b',' (b' ' ∷ net.to_string last) (commaless ip) refl,
          split_by-whole _ (net.to_string last) (commaless last),
          blank-trimmed ip,
          blank-trimmed last,
          n,
          p,
          m,
          q,
        )
        (refl, refl)
  parse_tokens-text ip (next ∷ ips) last =
      let (n, p) = token-parsed ip in
      rw
        (
          split_by-append _ (net.to_string ip) b',' (b' ' ∷ chain_text next ips last) (commaless ip)
              refl,
          blank-trimmed ip,
          n,
          p,
          (parse_tokens-text next ips last).1,
        )
        (refl, refl)

  -- If addresses are printed and parsed as documented, and `headers` has one header X-Forwarded-For,
  -- the value that is sent on for a nonempty chain and the immediate peer, then it is read as the
  -- chain with the immediate peer at its end.
  pub parse_x_forwarded_for-forwarded_chain :
      (headers : HeaderMap) (ip : Ip) (ips : List Ip) (immediate : Ip)
      → headers (codes "x-forwarded-for") ≡ forwarded_chain net (ip ∷ ips) immediate ∷ []
      → parse_x_forwarded_for net headers ≡ some (ip ∷ ips ++ immediate ∷ [])
  unfolding parse_x_forwarded_for parse_values
  parse_x_forwarded_for-forwarded_chain headers ip ips immediate h =
      rw
        (
          h,
          forwarded_chain-text ip ips immediate,
          laws.visible-to_str _ (chain_text-visible ip ips immediate),
          (parse_tokens-text ip ips immediate).0,
        )
        refl
