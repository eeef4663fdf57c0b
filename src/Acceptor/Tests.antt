-- ===== src/Acceptor/Tests.antt =====
-- `TcpAcceptor` (src/server.cpp) with the small C library and two waiting connections.
use spinet.Common.{ℕ, ◌≡◌, true, List, [], ◌∷◌, if◌then◌else◌}
use spinet.Address.{Address, SockaddrIn}
use spinet.Address.Small.{
  small_net, small_net-IsPosix, localhost, local, sockaddr, accepts_localhost,
}
use spinet.Acceptor.{Acceptor, do_accept, returned}
use spinet.Acceptor.Accepting.{Peers, welcomes, do_accept-welcomes}

abbrev acceptor : Acceptor
acceptor = record { fd = 3; bind_address = local 80; reuse_port = true; served = true }

abbrev waiting : List (ℕ × SockaddrIn)
waiting = (7, sockaddr) ∷ (8, sockaddr) ∷ []

do_accept-welcomes_example :
    (peers : List (ℕ × Address)) × Peers small_net waiting peers
    × (do_accept small_net acceptor waiting
        ≡ ((if true then welcomes small_net acceptor peers else []), returned))
do_accept-welcomes_example =
    do_accept-welcomes small_net small_net-IsPosix acceptor waiting
      ((localhost, (80, accepts_localhost)), ((localhost, (80, accepts_localhost)), tt))
