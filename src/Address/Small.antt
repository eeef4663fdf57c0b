-- ===== src/Address/Small.antt =====
-- A small C library for `Address` (src/core/address.cpp): an address is its bytes behind the digit of
-- its version.
use spinet.Common.{
  ℕ, ◌≡◌, refl, inl, inr, Option, none, some, List, [], ◌∷◌, length, Text, ◌==◌, ◌&&◌,
  if◌then◌else◌, arith, to_decimal,
}
use spinet.Address.{Family, inet, inet6, Net, SockaddrIn, Address, ipv4, width, to_sockaddr_in}
use spinet.Address.Parsing.{IsPosix}

abbrev pub version : Family → ℕ
version inet = 52
version inet6 = 54

abbrev pub scan : Family → Text → Option (List ℕ)
scan f [] = none
scan f (c ∷ r) = if (c == version f) && (length r == width f) then some r else none

abbrev pub show : Family → List ℕ → ℕ → Option Text
show f bytes n = if length bytes == width f then some (version f ∷ bytes) else none

abbrev pub small_net : Net
small_net = record {
  htons = λ p. p;
  ntohs = λ p. p;
  inet_pton = scan;
  inet_ntop = show;
  getaddrinfo = λ _. inr (
      record { protocol = 0; family = inet; addr = 127 ∷ 0 ∷ 0 ∷ 1 ∷ [] }
      ∷ record { protocol = 6; family = inet; addr = 127 ∷ 0 ∷ 0 ∷ 1 ∷ [] }
      ∷ []);
  gai_strerror = to_decimal;
  strerror = to_decimal;
  errno = 22;
  behind = λ i. i;
}

pub read_printed :
    (f : Family) (bytes : List ℕ) (t : Text) → show f bytes 0 ≡ some t → scan f t ≡ some bytes
read_printed inet bytes [] h = absurd (ground arith)
read_printed inet bytes (c ∷ r) h = ground arith
read_printed inet6 bytes [] h = absurd (ground arith)
read_printed inet6 bytes (c ∷ r) h = ground arith

pub one_family : (t : Text) (bytes : List ℕ) → scan inet6 t ≡ some bytes → scan inet t ≡ none
one_family [] bytes h = refl
one_family (c ∷ r) bytes h = ground arith

pub scan-width :
    (f : Family) (t : Text) (bytes : List ℕ) → scan f t ≡ some bytes → length bytes ≡ width f
scan-width f [] bytes h = absurd (ground arith)
scan-width f (c ∷ r) bytes h = ground arith

pub small_net-IsPosix : IsPosix small_net
small_net-IsPosix = record {
  read_printed = λ f bytes t h. read_printed f bytes t h;
  one_family = one_family;
  printable = λ f bytes h. ground arith;
  accepted_width = scan-width;
}

abbrev pub localhost : Text
localhost = 52 ∷ 127 ∷ 0 ∷ 0 ∷ 1 ∷ []

abbrev pub local : ℕ → Address
local port = record { kind = ipv4; address = localhost; port = port }

abbrev pub sockaddr : SockaddrIn
sockaddr = record {
  family = inet;
  port = 80;
  addr = 127 ∷ 0 ∷ 0 ∷ 1 ∷ 0 ∷ 0 ∷ 0 ∷ 0 ∷ 0 ∷ 0 ∷ 0 ∷ 0 ∷ [];
}

pub accepts_localhost : to_sockaddr_in small_net localhost 80 ≡ inl sockaddr
unfolding to_sockaddr_in
accepts_localhost = refl
