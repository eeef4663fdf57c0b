-- ===== src/Address.antt =====
-- include/spinet/core/address.h, src/core/address.cpp and the conversions of src/util.h.
-- The C library's calls are the fields of `Net`.
pub mod Decimal
pub mod Parsing
pub mod Resolving
pub mod Small
mod Tests
use spinet.Common.{
  ℕ, ◌-◌, ◌≡◌, Bool, true, false, ◌⊎◌, inl, inr, Option, none, some, List, [], ◌∷◌, ◌++◌, Text,
  codes, to_decimal, take, ◌==◌, if◌then◌else◌,
}

-- AF_INET and AF_INET6.
pub data Family : Type 0 where
  inet inet6 : Family

-- An entry of the list that `getaddrinfo` gives: `ai_protocol`, `ai_family == AF_INET`, and the bytes
-- of the address.
pub record AddrInfo : Type 0 where
  pub protocol : ℕ
  pub family : Family
  pub addr : List ℕ

-- The calls of the C library. A failed `getaddrinfo` gives its error number. `inet_ntop` takes the
-- size of the buffer. `errno` is the value read after a failed conversion, and `behind` the bytes that
-- stand in memory behind a `struct sockaddr_in`.
pub record Net : Type 0 where
  pub htons : ℕ → ℕ
  pub ntohs : ℕ → ℕ
  pub inet_pton : Family → Text → Option (List ℕ)
  pub inet_ntop : Family → List ℕ → ℕ → Option Text
  pub getaddrinfo : Text → ℕ ⊎ List AddrInfo
  pub gai_strerror : ℕ → Text
  pub strerror : ℕ → Text
  pub errno : ℕ
  pub behind : ℕ → ℕ

-- `struct sockaddr_in`; `addr` is its twelve bytes from `sin_addr` to its end.
pub record SockaddrIn : Type 0 where
  pub family : Family
  pub port : ℕ
  pub addr : List ℕ

-- What a `sockaddr_in` of zeros holds behind `sin_port` once `inet_pton` has written an address at
-- `sin_addr` and the struct was copied: the last four of the sixteen bytes of `AF_INET6` stand behind the
-- struct and are not copied.
abbrev pub stored : Family → List ℕ → List ℕ
stored inet bytes = bytes ++ 0 ∷ 0 ∷ 0 ∷ 0 ∷ 0 ∷ 0 ∷ 0 ∷ 0 ∷ []
stored inet6 bytes = take 12 bytes

-- Address::Type
pub data Kind : Type 0 where
  ipv4 ipv6 : Kind

pub record Address : Type 0 where
  pub kind : Kind
  pub address : Text
  pub port : ℕ

-- How many bytes an address has.
abbrev pub width : Family → ℕ
width inet = 4
width inet6 = 16

-- INET_ADDRSTRLEN and INET6_ADDRSTRLEN
abbrev pub inet_addrstrlen : ℕ
inet_addrstrlen = 16

abbrev pub inet6_addrstrlen : ℕ
inet6_addrstrlen = 46

abbrev pub ipproto_ip : ℕ
ipproto_ip = 0

abbrev pub buffer_size : Family → ℕ
buffer_size inet = inet_addrstrlen
buffer_size inet6 = inet6_addrstrlen

abbrev pub kind_of : Family → Kind
kind_of inet = ipv4
kind_of inet6 = ipv6

-- The text in a buffer of zeros that `inet_ntop` was to fill.
abbrev pub buffer_text : Option Text → Text
buffer_text none = []
buffer_text (some t) = t

module _ (net : Net) where
  -- The bytes at `sin_addr` that `inet_ntop` reads, for `AF_INET6` with four that stand behind the struct.
  abbrev pub loaded : Family → List ℕ → List ℕ
  loaded inet addr = take 4 addr
  loaded inet6 addr = addr ++ net.behind 0 ∷ net.behind 1 ∷ net.behind 2 ∷ net.behind 3 ∷ []

  unfoldable pub from_sockaddr_in : SockaddrIn → Text
  from_sockaddr_in a =
      buffer_text (net.inet_ntop a.family (loaded a.family a.addr) (buffer_size a.family))

  unfoldable pub to_sockaddr_in : Text → ℕ → SockaddrIn ⊎ Text
  to_sockaddr_in ip port = elim (net.inet_pton inet ip) [
    | some bytes ↦ inl (record { family = inet; port = net.htons port; addr = stored inet bytes })
    | none ↦ elim (net.inet_pton inet6 ip) [
      | some bytes ↦
          inl (record { family = inet6; port = net.htons port; addr = stored inet6 bytes })
      | none ↦ inr (codes "parse failed, reason:" ++ net.strerror net.errno)
    ]
  ]

  printed : SockaddrIn → ℕ → Address ⊎ Text
  printed a port = elim (net.inet_ntop a.family (loaded a.family a.addr) (buffer_size a.family)) [
    | some t ↦ inl (record { kind = kind_of a.family; address = t; port = port })
    | none ↦ inr (codes "sockaddr is invalid, reason:" ++ net.strerror net.errno)
  ]

  unfoldable pub parse : Text → ℕ → Address ⊎ Text
  unfolding to_sockaddr_in printed
  parse ip port = elim (to_sockaddr_in ip port) [
    | inr message ↦ inr message
    | inl a ↦ printed a port
  ]

  -- The loop of `resolve`, with the vector so far.
  collect : ℕ → List AddrInfo → List Address → List Address
  collect port [] addresses = addresses
  collect port (i ∷ rest) addresses =
      collect port rest (if i.protocol == ipproto_ip then addresses ++ found ∷ [] else addresses)
    where
      found : Address
      found = record {
        kind = kind_of i.family;
        address = buffer_text (net.inet_ntop i.family i.addr (buffer_size i.family));
        port = port;
      }

  pub resolve : Text → ℕ → List Address ⊎ Text
  unfolding collect
  resolve domain port = elim (net.getaddrinfo domain) [
    | inl ec ↦ inr (net.gai_strerror ec)
    | inr infos ↦ inl (collect port infos [])
  ]

-- `Address::to_string`
pub to_string : Address → Text
to_string a = a.address ++ (codes ":" ++ to_decimal a.port)
