-- ===== src/Client/Connecting.antt =====
-- Any sequence of the methods of `Client` (src/client.cpp), and the connections that it makes.
use spinet.Common.{
  ℕ, ◌<◌, ◌≡◌, ◌≢◌, refl, sym, ap, subst, ◌∙◌, Bool, true, ◌⊎◌, inl, inr, Option, none, some, List,
  [], ◌∷◌, length, Text, if_cases, arith,
}
use spinet.Address.{Address, Net, SockaddrIn, to_sockaddr_in, from_sockaddr_in, parse}
use spinet.Address.Parsing.{IsPosix, parse-from_sockaddr_in}
use spinet.Workers.{Workers, modify, length-modify}
use spinet.Client.{
  Settings, Attempt, socket_failed, connect_failed, connected, Connection, socket, refused,
  bad_variant_access, Client, new_client, with_settings, tcp_connect, connect_to, wrap,
  select_runtime, register_socket, run, stop, unset,
}
use spinet.Client.State.{
  IsConfigured, with_settings-IsConfigured, run-IsConfigured, stop-IsConfigured,
}

-- A call of a method, with what the kernel does in it.
pub data Action : Type 0 where
  sets : Settings → Action
  connects : (kernel : Attempt) → Address → Action
  runs : (spurious : Bool) → Action
  stops : Action

-- The descriptor that `socket` gave.
pub opened : Attempt → List ℕ
opened (socket_failed errno) = []
opened (connect_failed fd errno) = fd ∷ []
opened (connected fd) = fd ∷ []

module _ (ws : Workers) (net : Net) where
  unfoldable pub step : Action → Client ws → Client ws
  step (sets settings) c = (with_settings ws settings c).0
  step (connects kernel address) c = (tcp_connect ws net kernel address c).0
  step (runs spurious) c = (run ws spurious c).0
  step stops c = stop ws c

  unfoldable pub steps : List Action → Client ws → Client ws
  unfolding step
  steps [] c = c
  steps (a ∷ actions) c = steps actions (step a c)

  connect_to-IsConfigured :
      (kernel : Attempt) (a : SockaddrIn ⊎ Text) (c : Client ws)
      → IsConfigured ws c
      → c.running ≡ true
      → IsConfigured ws (connect_to ws net kernel a c).0
  unfolding connect_to wrap register_socket select_runtime
  connect_to-IsConfigured kernel (inr message) c h on = h
  connect_to-IsConfigured (socket_failed errno) (inl a) c h on = h
  connect_to-IsConfigured (connect_failed fd errno) (inl a) c h on = h
  connect_to-IsConfigured (connected fd) (inl a) c h on =
      wrap-IsConfigured (parse net (from_sockaddr_in net a) (net.ntohs a.port))
    where
      wrap-IsConfigured : (r : Address ⊎ Text) → IsConfigured ws (wrap ws fd r c).0
      wrap-IsConfigured (inr message) = h
      wrap-IsConfigured (inl address) = record {
        unset_empty = λ q.
            ap (λ l. modify (ws.register_socket fd address) l (select_runtime ws c).1)
              (h.unset_empty q);
        counted = λ st e.
            length-modify (ws.register_socket fd address) c.workers (select_runtime ws c).1
            ∙ h.counted st e;
        positive = h.positive;
        idle_workers = λ off. absurd (ground (arith, on, off));
      }

  pub tcp_connect-IsConfigured :
      (kernel : Attempt) (address : Address) (c : Client ws)
      → IsConfigured ws c
      → IsConfigured ws (tcp_connect ws net kernel address c).0
  unfolding tcp_connect
  tcp_connect-IsConfigured kernel address c h =
      if_cases (λ (o : Client ws × List ℕ × Connection). IsConfigured ws o.0) c.running
        (λ on.
          if_cases (λ (o : Client ws × List ℕ × Connection). IsConfigured ws o.0) (unset c.settings)
            (λ _. h)
            (λ _.
              connect_to-IsConfigured kernel (to_sockaddr_in net address.address address.port) c h
                on))
        (λ _. h)

  step-IsConfigured : (a : Action) (c : Client ws) → IsConfigured ws c → IsConfigured ws (step a c)
  unfolding step
  step-IsConfigured (sets settings) c h = with_settings-IsConfigured ws settings c h
  step-IsConfigured (connects kernel address) c h = tcp_connect-IsConfigured kernel address c h
  step-IsConfigured (runs spurious) c h = run-IsConfigured ws spurious c h
  step-IsConfigured stops c h = stop-IsConfigured ws c h

  steps-from :
      (actions : List Action) (c : Client ws)
      → IsConfigured ws c
      → IsConfigured ws (steps actions c)
  unfolding steps
  steps-from [] c h = h
  steps-from (a ∷ actions) c h = steps-from actions (step a c) (step-IsConfigured a c h)

  reached : (actions : List Action) → IsConfigured ws (steps actions (new_client ws))
  reached actions = steps-from actions (new_client ws) (record {
    unset_empty = λ _. refl;
    counted = λ st e. absurd (ground arith);
    positive = λ st e. absurd (ground arith);
    idle_workers = λ _. tt;
  })

  -- After any sequence of calls that leaves the client with settings, the place that `select_runtime`
  -- computes is that of a worker: the client has as many as the settings say, and at least one.
  pub select_runtime-places :
      (actions : List Action) (settings : Settings)
      → (steps actions (new_client ws)).settings ≡ some settings
      → (length (steps actions (new_client ws)).workers ≡ settings.workers)
        × ((select_runtime ws (steps actions (new_client ws))).1
            < length (steps actions (new_client ws)).workers)
  unfolding select_runtime
  select_runtime-places actions settings set = (
    (reached actions).counted settings set,
    ground (arith, (reached actions).counted settings set, (reached actions).positive settings set),
  )

  -- An attempt that is refused with every descriptor closed that it opened, the client as it was; or one
  -- that is connected, none closed, with a socket for its peer, registered at the place selected.
  abbrev pub Concluded : Attempt → SockaddrIn → Client ws → Client ws × List ℕ × Connection → Type 0
  Concluded kernel a c r =
      ((message : Text) × (r ≡ (c, opened kernel, refused message)))
      ⊎ ((fd : ℕ) × ((peer : Address) × (kernel ≡ connected fd)
            × (peer.address ≡ from_sockaddr_in net a)
            × (peer.port ≡ net.ntohs a.port)
            × (r ≡ (
              record (select_runtime ws c).0 {
                workers = modify (ws.register_socket fd peer) c.workers (select_runtime ws c).1;
              },
              [],
              socket fd peer,
            ))))

  module _ (posix : IsPosix net) where
    connect_to-Concluded :
        (kernel : Attempt) (address : Address) (a : SockaddrIn) (c : Client ws)
        → to_sockaddr_in net address.address address.port ≡ inl a
        → Concluded kernel a c (connect_to ws net kernel (inl a) c)
    unfolding connect_to opened wrap register_socket select_runtime
    connect_to-Concluded (socket_failed errno) address a c ok = inl (_, refl)
    connect_to-Concluded (connect_failed fd errno) address a c ok = inl (_, refl)
    connect_to-Concluded (connected fd) address a c ok =
        go (parse-from_sockaddr_in net posix address.address address.port (net.ntohs a.port) a ok)
      where
        registered :
            (b : Address)
            → wrap ws fd (inl b) c ≡ (
              record (select_runtime ws c).0 {
                workers = modify (ws.register_socket fd b) c.workers (select_runtime ws c).1;
              },
              [],
              socket fd b,
            )
        registered b = refl

        go :
            (b : Address) × (parse net (from_sockaddr_in net a) (net.ntohs a.port) ≡ inl b)
              × (b.address ≡ from_sockaddr_in net a)
              × (b.port ≡ net.ntohs a.port)
            → Concluded (connected fd) a c (connect_to ws net (connected fd) (inl a) c)
        go (b, parsed, same, port) =
            inr (fd, (b, refl, same, port, ap (λ r. wrap ws fd r c) parsed ∙ registered b))

    -- Where the conversions of the C library do what POSIX says, `tcp_connect` on a running client with
    -- settings, for an address that is understood, throws nothing. Either it returns a message, has closed
    -- the descriptor that it opened, if any, and leaves the client alone; or the kernel connected the
    -- descriptor, it closes none and returns the socket on it, with the text that
    -- `from_sockaddr_in` prints of the address connected to and its port, registered with the worker at the place that `select_runtime` picks and no other.
    pub tcp_connect-Concluded :
        (kernel : Attempt) (address : Address) (settings : Settings) (a : SockaddrIn)
        (c : Client ws)
        → c.running ≡ true
        → c.settings ≡ some settings
        → to_sockaddr_in net address.address address.port ≡ inl a
        → Concluded kernel a c (tcp_connect ws net kernel address c)
    unfolding tcp_connect unset
    tcp_connect-Concluded kernel address settings a c on set ok =
        if_cases (Concluded kernel a c) c.running
          (λ _.
            if_cases (Concluded kernel a c) (unset c.settings)
              (λ t. absurd (is_set c.settings set t))
              (λ _.
                subst (λ r. Concluded kernel a c (connect_to ws net kernel r c)) (sym ok)
                  (connect_to-Concluded kernel address a c ok)))
          (λ off. absurd (ground arith))
      where
        is_set : (o : Option Settings) → o ≡ some settings → unset o ≢ true
        is_set none e t = absurd (ground arith)
        is_set (some q) e t = ground arith

    connect_to-answers :
        (kernel : Attempt) (address : Address) (a : SockaddrIn ⊎ Text) (c : Client ws)
        → to_sockaddr_in net address.address address.port ≡ a
        → (connect_to ws net kernel a c).2 ≢ bad_variant_access
    unfolding connect_to wrap
    connect_to-answers kernel address (inr message) c ok thrown = absurd (ground arith)
    connect_to-answers (socket_failed errno) address (inl a) c ok thrown = absurd (ground arith)
    connect_to-answers (connect_failed fd errno) address (inl a) c ok thrown = absurd (ground arith)
    connect_to-answers (connected fd) address (inl a) c ok thrown =
        let (b, parsed, same, port) =
          parse-from_sockaddr_in net posix address.address address.port (net.ntohs a.port) a ok in
        absurd (ground (arith, ap (λ r. (wrap ws fd r c).2) parsed))

    -- Without conditions on the client, `tcp_connect` throws nothing.
    pub tcp_connect-answers :
        (kernel : Attempt) (address : Address) (c : Client ws)
        → (tcp_connect ws net kernel address c).2 ≢ bad_variant_access
    unfolding tcp_connect
    tcp_connect-answers kernel address c =
        if_cases (λ (o : Client ws × List ℕ × Connection). o.2 ≢ bad_variant_access) c.running
          (λ _.
            if_cases (λ (o : Client ws × List ℕ × Connection). o.2 ≢ bad_variant_access)
              (unset c.settings) (λ _ thrown. absurd (ground arith))
              (λ _.
                connect_to-answers kernel address (to_sockaddr_in net address.address address.port)
                  c refl))
          (λ _ thrown. absurd (ground arith))
