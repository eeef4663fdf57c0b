-- ===== src/Acceptor.antt =====
-- `TcpAcceptor` of src/server.cpp: what it does when its listening descriptor is ready.
pub mod Accepting
mod Tests
use spinet.Common.{ℕ, Bool, ◌⊎◌, inl, inr, List, Text, [], ◌∷◌, ◌++◌, if◌then◌else◌}
use spinet.Address.{Address, Net, SockaddrIn, from_sockaddr_in, parse}

-- `reuse_port` is that of the settings of the server, and `served` tells whether `runtime_.lock()` gives a
-- runtime.
pub record Acceptor : Type 0 where
  pub fd : ℕ
  pub bind_address : Address
  pub reuse_port : Bool
  pub served : Bool

-- What `do_accept` does for an accepted descriptor: the calls of `set_nonblock`, of `set_reuse_port`, of
-- `register_handle` with a socket on it, and of the accept callback.
pub data Act : Type 0 where
  set_nonblock set_reuse_port : (fd : ℕ) → Act
  register_handle accept_callback : (fd : ℕ) → Address → Act

-- A return, or an exception of `std::get`.
pub data Ending : Type 0 where
  returned bad_variant_access : Ending

module _ (net : Net) where
  options : Acceptor → ℕ → List Act
  options a fd = set_nonblock fd ∷ (if a.reuse_port then set_reuse_port fd ∷ [] else [])

  -- One turn of the loop behind `accept`, with the address of the peer as it was parsed; `rest` are the
  -- turns behind it.
  accept_next : Acceptor → ℕ → Address ⊎ Text → List Act × Ending → List Act × Ending
  unfolding options
  accept_next a fd (inr message) rest = (options a fd, bad_variant_access)
  accept_next a fd (inl peer) rest =
      (options a fd ++ (register_handle fd peer ∷ accept_callback fd peer ∷ rest.0), rest.1)

  -- The loop, for the descriptors that `accept` gives before it fails, with the addresses that it stores.
  accept_all : Acceptor → List (ℕ × SockaddrIn) → List Act × Ending
  unfolding accept_next
  accept_all a [] = ([], returned)
  accept_all a ((fd, s) ∷ rest) =
      accept_next a fd (parse net (from_sockaddr_in net s) (net.ntohs s.port)) (accept_all a rest)

  pub do_accept : Acceptor → List (ℕ × SockaddrIn) → List Act × Ending
  unfolding accept_all
  do_accept a kernel = if a.served then accept_all a kernel else ([], returned)
