-- ===== src/Address/Parsing.antt =====
-- What `Address::parse` (src/core/address.cpp) and `to_sockaddr_in` (src/util.h) give, under what the C library documents of its conversions.
use spinet.Common.{
  ℕ, ◌+◌, ◌≡◌, ◌≢◌, ◌↔◌, refl, sym, ap, ◌∙◌, inl, inr, none, some, List, ◌++◌, length, take,
  take-append, length-take, length-append, Text, codes, Option-cases, arith,
}
use spinet.Address.{
  Family, inet, inet6, Net, SockaddrIn, Address, ipv4, buffer_size, kind_of, buffer_text, width,
  stored, loaded, to_sockaddr_in, from_sockaddr_in, parse,
}

-- What POSIX documents of the conversions: the text of an address is accepted in its own family and
-- gives the address again, no text is accepted in both families, addresses have four and sixteen bytes,
-- and so many bytes can be printed into a buffer of the family's size.
pub record IsPosix (net : Net) : Type 0 where
  pub read_printed :
      (f : Family) (bytes : List ℕ) (t : Text)
      → net.inet_ntop f bytes (buffer_size f) ≡ some t
      → net.inet_pton f t ≡ some bytes
  pub one_family :
      (t : Text) (bytes : List ℕ) → net.inet_pton inet6 t ≡ some bytes → net.inet_pton inet t ≡ none
  pub printable :
      (f : Family) (bytes : List ℕ)
      → length bytes ≡ width f
      → net.inet_ntop f bytes (buffer_size f) ≢ none
  pub accepted_width :
      (f : Family) (t : Text) (bytes : List ℕ)
      → net.inet_pton f t ≡ some bytes
      → length bytes ≡ width f

module _ (net : Net) where
  -- The bytes that are printed of an address that `inet_pton` has written.
  abbrev pub shown : Family → List ℕ → List ℕ
  shown f bytes = loaded net f (stored f bytes)

  shown-inet : (bytes : List ℕ) → length bytes ≡ 4 → shown inet bytes ≡ bytes
  shown-inet bytes e = take-append 4 bytes _ e

  length-shown :
      (f : Family) (bytes : List ℕ) → length bytes ≡ width f → length (shown f bytes) ≡ width f
  length-shown inet bytes e = ap length (shown-inet bytes e) ∙ e
  length-shown inet6 bytes e =
      length-append (take 12 bytes) _ ∙ ap (λ n. n + 4) (length-take 12 bytes (omega (arith, e)))

  shown-shown :
      (f : Family) (bytes : List ℕ)
      → length bytes ≡ width f
      → shown f (shown f bytes) ≡ shown f bytes
  shown-shown inet bytes e = shown-inet (shown inet bytes) (length-shown inet bytes e)
  shown-shown inet6 bytes e =
      ap (λ (bs : List ℕ). loaded net inet6 bs)
        (take-append 12 (take 12 bytes) _ (length-take 12 bytes (omega (arith, e))))

  to_sockaddr_in-accepted :
      (ip : Text) (port : ℕ) {a : SockaddrIn}
      → to_sockaddr_in net ip port ≡ inl a
      → (bytes : List ℕ) × (net.inet_pton a.family ip ≡ some bytes)
        × (a.addr ≡ stored a.family bytes)
  unfolding to_sockaddr_in
  to_sockaddr_in-accepted ip port h = elim (Option-cases (net.inet_pton inet ip)) [
    | inl refused ↦ elim (Option-cases (net.inet_pton inet6 ip)) [
      | inl refused6 ↦ absurd (ground arith)
      | inr (bytes, e) ↦ (bytes, ground arith, ground arith)
    ]
    | inr (bytes, e) ↦ (bytes, ground arith, ground arith)
  ]

  -- What an address that `parse` gives comes from.
  record Parsed (ip : Text) (port : ℕ) (a : Address) : Type 0 where
    family : Family
    bytes : List ℕ
    accepted : net.inet_pton family ip ≡ some bytes
    told : net.inet_ntop family (shown family bytes) (buffer_size family) ≡ some a.address
    kind : a.kind ≡ kind_of family
    same_port : a.port ≡ port

  parse-Parsed : (ip : Text) (port : ℕ) {a : Address} → parse net ip port ≡ inl a → Parsed ip port a
  unfolding parse
  parse-Parsed ip port {a} h = elim (Option-cases (net.inet_pton inet ip)) [
    | inl refused ↦ elim (Option-cases (net.inet_pton inet6 ip)) [
      | inl refused6 ↦ absurd (ground arith)
      | inr (bytes, e) ↦ record {
        family = inet6;
        bytes = bytes;
        accepted = e;
        told = ground arith;
        kind = ground arith;
        same_port = ground arith;
      }
    ]
    | inr (bytes, e) ↦ record {
      family = inet;
      bytes = bytes;
      accepted = e;
      told = ground arith;
      kind = ground arith;
      same_port = ground arith;
    }
  ]

module _ (net : Net) (posix : IsPosix net) where
  parse-told :
      (f : Family) (ip : Text) (port : ℕ) (bytes : List ℕ) (t : Text)
      → net.inet_pton f ip ≡ some bytes
      → net.inet_ntop f (shown net f bytes) (buffer_size f) ≡ some t
      → parse net ip port ≡ inl (record { kind = kind_of f; address = t; port = port })
  unfolding parse
  parse-told inet ip port bytes t e told = ground arith
  parse-told inet6 ip port bytes t e told = ground (arith, posix.one_family ip bytes e)

  -- The text of the bytes that are shown of an address is parsed to an address with that text.
  parse-again :
      (f : Family) (ip : Text) (port : ℕ) (bytes : List ℕ) (t : Text)
      → net.inet_pton f ip ≡ some bytes
      → net.inet_ntop f (shown net f bytes) (buffer_size f) ≡ some t
      → parse net t port ≡ inl (record { kind = kind_of f; address = t; port = port })
  parse-again f ip port bytes t e told =
      parse-told f t port (shown net f bytes) t (posix.read_printed f (shown net f bytes) t told) (
        ap (λ (bs : List ℕ). net.inet_ntop f bs (buffer_size f))
          (shown-shown net f bytes (posix.accepted_width f ip bytes e))
        ∙ told)

  -- The text of a `sockaddr_in` that was read is parsed, to an address with that text.
  pub parse-from_sockaddr_in :
      (ip : Text) (port port' : ℕ) (a : SockaddrIn)
      → to_sockaddr_in net ip port ≡ inl a
      → (b : Address) × (parse net (from_sockaddr_in net a) port' ≡ inl b)
        × (b.address ≡ from_sockaddr_in net a)
        × (b.port ≡ port')
  unfolding from_sockaddr_in
  parse-from_sockaddr_in ip port port' a h =
      let (bytes, e, at) = to_sockaddr_in-accepted net ip port h in
      elim (Option-cases
        (net.inet_ntop a.family (shown net a.family bytes) (buffer_size a.family))) [
          | inl none_shown ↦ absurd (
              posix.printable a.family (shown net a.family bytes)
                (length-shown net a.family bytes (posix.accepted_width a.family ip bytes e))
                none_shown)
          | inr (t, told) ↦ (
            record { kind = kind_of a.family; address = t; port = port' },
            ap (λ x. parse net x port') (text bytes at t told)
                ∙ parse-again a.family ip port' bytes t e told,
            sym (text bytes at t told),
            refl,
          )
        ]
    where
      text :
          (bytes : List ℕ)
          → a.addr ≡ stored a.family bytes
          → (t : Text)
          → net.inet_ntop a.family (shown net a.family bytes) (buffer_size a.family) ≡ some t
          → buffer_text (net.inet_ntop a.family (loaded net a.family a.addr) (buffer_size a.family))
            ≡ t
      text bytes at t told =
          ap
            (λ (bs : List ℕ).
              buffer_text (net.inet_ntop a.family (loaded net a.family bs) (buffer_size a.family)))
            at
          ∙ ap buffer_text told

  -- Where the conversions of the C library do what POSIX says, and the same bytes stand behind the struct:
  -- `parse` accepts the text of an IPv6 address, but keeps only the first twelve bytes of the address. The
  -- texts of two addresses that agree in these give one and the same address.
  pub parse_confuses :
      (ip ip' : Text) (port : ℕ) (bytes bytes' : List ℕ)
      → net.inet_pton inet6 ip ≡ some bytes
      → net.inet_pton inet6 ip' ≡ some bytes'
      → take 12 bytes ≡ take 12 bytes'
      → (a : Address) × (parse net ip port ≡ inl a) × (parse net ip' port ≡ inl a)
  parse_confuses ip ip' port bytes bytes' e e' same =
      elim (Option-cases (net.inet_ntop inet6 (shown net inet6 bytes) (buffer_size inet6))) [
        | inl none_shown ↦ absurd (
            posix.printable inet6 (shown net inet6 bytes)
              (length-shown net inet6 bytes (posix.accepted_width inet6 ip bytes e)) none_shown)
        | inr (t, told) ↦ (
          record { kind = kind_of inet6; address = t; port = port },
          parse-told inet6 ip port bytes t e told,
          parse-told inet6 ip' port bytes' t e' (
              ap (λ (bs : List ℕ). net.inet_ntop inet6 (loaded net inet6 bs) (buffer_size inet6))
                (sym same)
              ∙ told),
        )
      ]

  -- `parse` fails exactly on the texts that `inet_pton` refuses in both families.
  pub parse-eq-inr_iff :
      (ip : Text) (port : ℕ)
      → ((m : Text) × (parse net ip port ≡ inr m))
        ↔ ((net.inet_pton inet ip ≡ none) × (net.inet_pton inet6 ip ≡ none))
  unfolding parse
  parse-eq-inr_iff ip port = (
    (λ h. refused h.0 h.1),
    λ h. (codes "parse failed, reason:" ++ net.strerror net.errno, ground arith),
  )
    where
      accepted :
          (f : Family) (bytes : List ℕ)
          → net.inet_pton f ip ≡ some bytes
          → (m : Text) → parse net ip port ≢ inr m
      accepted f bytes e m r =
          elim (Option-cases (net.inet_ntop f (shown net f bytes) (buffer_size f))) [
            | inl none_shown ↦
                posix.printable f (shown net f bytes)
                  (length-shown net f bytes (posix.accepted_width f ip bytes e)) none_shown
            | inr (t, told) ↦ absurd (ground (arith, parse-told f ip port bytes t e told, r))
          ]

      refused :
          (m : Text)
          → parse net ip port ≡ inr m
          → (net.inet_pton inet ip ≡ none) × (net.inet_pton inet6 ip ≡ none)
      refused m e = elim (Option-cases (net.inet_pton inet ip)) [
        | inl no4 ↦ elim (Option-cases (net.inet_pton inet6 ip)) [
          | inl no6 ↦ (no4, no6)
          | inr (bytes, p) ↦ absurd (accepted inet6 bytes p m e)
        ]
        | inr (bytes, p) ↦ absurd (accepted inet bytes p m e)
      ]

module _ (net : Net) (posix : IsPosix net) where
  -- Where the conversions of the C library do what POSIX says, an IPv4 address that `parse` gives is parsed
  -- again, from its own text, with any port and whatever stands in memory then, to the same address with
  -- that port.
  pub parse-parse :
      (behind : ℕ → ℕ) (ip : Text) (port port' : ℕ) {a : Address}
      → parse net ip port ≡ inl a
      → a.kind ≡ ipv4
      → parse (record net { behind = behind }) a.address port' ≡ inl (record a { port = port' })
  parse-parse behind ip port port' {a} h v4 = go p.family p.bytes p.accepted p.told p.kind
    where
      same_posix : IsPosix (record net { behind = behind })
      same_posix = record {
        read_printed = posix.read_printed;
        one_family = posix.one_family;
        printable = posix.printable;
        accepted_width = posix.accepted_width;
      }

      p : Parsed net ip port a
      p = parse-Parsed net ip port h

      go :
          (f : Family) (bytes : List ℕ)
          → net.inet_pton f ip ≡ some bytes
          → net.inet_ntop f (shown net f bytes) (buffer_size f) ≡ some a.address
          → a.kind ≡ kind_of f
          → parse (record net { behind = behind }) a.address port' ≡ inl (record a { port = port' })
      go inet bytes e told k =
          parse-told (record net { behind = behind }) same_posix inet a.address port'
            (shown net inet bytes) a.address
            (posix.read_printed inet (shown net inet bytes) a.address told)
            (ap (λ (bs : List ℕ). net.inet_ntop inet bs (buffer_size inet))
                (shown-shown net inet bytes (posix.accepted_width inet ip bytes e))
              ∙ told)
          ∙ ap (λ k. inl (record { kind = k; address = a.address; port = port' })) (sym v4)
      go inet6 bytes e told k = absurd (ground arith)
