-- ===== src/Acceptor/Accepting.antt =====
-- `do_accept` of `TcpAcceptor` (src/server.cpp) over the connections that are waiting.
use spinet.Common.{
  ℕ, ◌≡◌, refl, sym, ap, ◌∙◌, Bool, true, false, inl, List, All, [], ◌∷◌, ◌++◌, Text, if◌then◌else◌,
  if_cases,
}
use spinet.Address.{Address, Net, SockaddrIn, from_sockaddr_in, to_sockaddr_in}
use spinet.Address.Parsing.{IsPosix, parse-from_sockaddr_in}
use spinet.Acceptor.{
  Acceptor, Act, set_nonblock, set_reuse_port, register_handle, accept_callback, Ending, returned,
  options, accept_next, accept_all, do_accept,
}

-- The calls that an accepted descriptor is to get, in order.
abbrev pub welcome : Acceptor → ℕ → Address → List Act
welcome a fd peer =
    set_nonblock fd
    ∷ ((if a.reuse_port then set_reuse_port fd ∷ [] else [])
        ++ (register_handle fd peer ∷ accept_callback fd peer ∷ []))

module _ (net : Net) where
  -- Connections and the addresses of their peers: each address has the text that is printed of what the
  -- kernel stored for it, and the port.
  pub data Peers : List (ℕ × SockaddrIn) → List (ℕ × Address) → Type 0 where
    none_left : Peers [] []
    one_more :
        {fd : ℕ} {s : SockaddrIn} {peer : Address} {kernel : List (ℕ × SockaddrIn)}
        {peers : List (ℕ × Address)}
        → peer.address ≡ from_sockaddr_in net s
        → peer.port ≡ net.ntohs s.port
        → Peers kernel peers
        → Peers ((fd, s) ∷ kernel) ((fd, peer) ∷ peers)

  abbrev pub welcomes : Acceptor → List (ℕ × Address) → List Act
  welcomes a [] = []
  welcomes a ((fd, peer) ∷ rest) = welcome a fd peer ++ welcomes a rest

  -- What the kernel stores for each connection is what `inet_pton` makes of some text.
  abbrev pub IsStored : List (ℕ × SockaddrIn) → Type 0
  IsStored =
      All (λ (e : ℕ × SockaddrIn).
        (ip : Text) × ((port : ℕ) × (to_sockaddr_in net ip port ≡ inl e.1)))

  module _ (posix : IsPosix net) where
    welcomed :
        (a : Acceptor) (fd : ℕ) (peer : Address) (rest : List Act × Ending)
        (peers : List (ℕ × Address))
        → rest ≡ (welcomes a peers, returned)
        → accept_next net a fd (inl peer) rest ≡ (welcome a fd peer ++ welcomes a peers, returned)
    unfolding accept_next options
    welcomed a fd peer rest peers e = go a.reuse_port
      where
        go :
            (b : Bool)
            → accept_next net (record a { reuse_port = b }) fd (inl peer) rest
              ≡ (welcome (record a { reuse_port = b }) fd peer ++ welcomes a peers, returned)
        go true =
            ap
              (λ (r : List Act × Ending). (
                set_nonblock fd
                    ∷ set_reuse_port fd
                    ∷ register_handle fd peer
                    ∷ accept_callback fd peer
                    ∷ r.0,
                r.1,
              ))
              e
        go false =
            ap
              (λ (r : List Act × Ending).
                (set_nonblock fd ∷ register_handle fd peer ∷ accept_callback fd peer ∷ r.0, r.1))
              e

    accept_all-welcomes :
        (a : Acceptor) (kernel : List (ℕ × SockaddrIn))
        → IsStored kernel
        → (peers : List (ℕ × Address)) × Peers kernel peers
          × (accept_all net a kernel ≡ (welcomes a peers, returned))
    unfolding accept_all
    accept_all-welcomes a [] stored = ([], none_left, refl)
    accept_all-welcomes a ((fd, s) ∷ kernel) ((ip, (port, ok)), more) =
        let (peers, named, rest) = accept_all-welcomes a kernel more in
        let (peer, parsed, same, ports) =
          parse-from_sockaddr_in net posix ip port (net.ntohs s.port) s ok in
        (
          (fd, peer) ∷ peers,
          one_more same ports named,
          ap (λ r. accept_next net a fd r (accept_all net a kernel)) parsed
              ∙ welcomed a fd peer (accept_all net a kernel) peers rest,
        )

    -- Where the conversions of the C library do what POSIX says, and the kernel stores addresses as those
    -- do, `do_accept` throws nothing. With a runtime, each waiting connection in turn is made non-blocking,
    -- registered once and only then handed to the accept callback once, with a socket on its descriptor and
    -- the text that `from_sockaddr_in` prints of its peer and the port; without one, nothing is accepted.
    pub do_accept-welcomes :
        (a : Acceptor) (kernel : List (ℕ × SockaddrIn))
        → IsStored kernel
        → (peers : List (ℕ × Address)) × Peers kernel peers
          × (do_accept net a kernel ≡ ((if a.served then welcomes a peers else []), returned))
    unfolding do_accept
    do_accept-welcomes a kernel stored =
        let (peers, named, all) = accept_all-welcomes a kernel stored in
        (
          peers,
          named,
          if_cases
              (λ (o : List Act × Ending).
                o ≡ ((if a.served then welcomes a peers else []), returned))
              a.served
              (λ t.
                all ∙ ap (λ (b : Bool). ((if b then welcomes a peers else []), returned)) (sym t))
              (λ f. ap (λ (b : Bool). ((if b then welcomes a peers else []), returned)) (sym f)),
        )
