-- ===== src/Address/Resolving.antt =====
-- What `Address::resolve` (src/core/address.cpp) gives.
use spinet.Common.{
  ℕ, ◌≡◌, refl, sym, ap, ◌∙◌, ◌⊎◌, inl, inr, List, [], ◌∷◌, ◌++◌, Text, ◌==◌, if◌then◌else◌,
  Bool-cases,
}
use mathlib.Core.List.{append-nil, append_assoc}
use spinet.Address.{
  AddrInfo, Net, Address, buffer_size, kind_of, buffer_text, ipproto_ip, collect, resolve,
}

module _ (net : Net) where
  -- The addresses of a list of entries that belong to the raw protocol, in its order.
  abbrev pub raw_addresses : ℕ → List AddrInfo → List Address
  raw_addresses port [] = []
  raw_addresses port (i ∷ rest) =
      if i.protocol == ipproto_ip
      then record {
        kind = kind_of i.family;
        address = buffer_text (net.inet_ntop i.family i.addr (buffer_size i.family));
        port = port;
      }
        ∷ raw_addresses port rest
      else raw_addresses port rest

  collect-raw_addresses :
      (port : ℕ) (infos : List AddrInfo) (acc : List Address)
      → collect net port infos acc ≡ acc ++ raw_addresses port infos
  unfolding collect
  collect-raw_addresses port [] acc = sym (append-nil acc)
  collect-raw_addresses port (i ∷ rest) acc = elim (Bool-cases (i.protocol == ipproto_ip)) [
    | inl raw ↦ rw (raw) (collect-raw_addresses port rest _ ∙ append_assoc acc _ _)
    | inr other ↦ rw (other) (collect-raw_addresses port rest acc)
  ]

  abbrev pub answered : ℕ → ℕ ⊎ List AddrInfo → List Address ⊎ Text
  answered port (inl ec) = inr (net.gai_strerror ec)
  answered port (inr infos) = inl (raw_addresses port infos)

  -- Where the resolver answers, `resolve` gives an address for each entry of protocol `IPPROTO_IP`, in
  -- the order of the answer and with the port asked for; otherwise it gives the resolver's message.
  pub resolve-answered :
      (domain : Text) (port : ℕ) → resolve net domain port ≡ answered port (net.getaddrinfo domain)
  unfolding resolve
  resolve-answered domain port = go (net.getaddrinfo domain) refl
    where
      go : (r : _) → net.getaddrinfo domain ≡ r → resolve net domain port ≡ answered port r
      go (inl ec) e = rw (e, resolve)
      go (inr infos) e = rw (e, resolve) (ap inl (collect-raw_addresses port infos []))
