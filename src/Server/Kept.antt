-- ===== src/Server/Kept.antt =====
-- The settings of a `Server` (src/server.cpp), which its methods keep once they are there.
use spinet.Common.{
  ℕ, ◌<◌, ◌≡◌, refl, Bool, ◌⊎◌, inl, inr, Option, none, some, List, [], length, Text, codes, ltb,
  if_cases, exchange_weak, arith,
}
use spinet.Address.{Address, Net, SockaddrIn, to_sockaddr_in}
use spinet.Workers.{Workers, replicate}
use spinet.Server.{
  Settings, validate, Attempt, Opening, opened, failed, open_all, Server, new_server, set_up,
  with_settings, finish_listening, listen_at, listen_tcp_endpoint, run_set, run, stop, unset,
}

module _ (ws : Workers) where
  settings-finish_listening :
      (o : Opening) (s : Server ws) → (finish_listening ws s o).0.settings ≡ s.settings
  unfolding finish_listening
  settings-finish_listening (opened fds) s = refl
  settings-finish_listening (failed message closed) s = refl

  settings-listen_at :
      (net : Net) (kernel : ℕ → Attempt) (a : SockaddrIn ⊎ Text) (s : Server ws)
      → (listen_at ws net kernel a s).0.settings ≡ s.settings
  unfolding listen_at
  settings-listen_at net kernel (inl a) s =
      settings-finish_listening (open_all net a kernel (length s.workers) 0 []) s
  settings-listen_at net kernel (inr message) s = refl

  pub settings-listen_tcp_endpoint :
      (net : Net) (kernel : ℕ → Attempt) (address : Address) (s : Server ws)
      → (listen_tcp_endpoint ws net kernel address s).0.settings ≡ s.settings
  unfolding listen_tcp_endpoint
  settings-listen_tcp_endpoint net kernel address s =
      if_cases (λ (o : Server ws × List ℕ × Option Text). o.0.settings ≡ s.settings) s.running
        (λ _. refl)
        (λ _.
          if_cases (λ (o : Server ws × List ℕ × Option Text). o.0.settings ≡ s.settings)
            (unset s.settings) (λ _. refl)
            (λ _.
              settings-listen_at net kernel (to_sockaddr_in net address.address address.port) s))

  running-finish_listening :
      (o : Opening) (s : Server ws) → (finish_listening ws s o).0.running ≡ s.running
  unfolding finish_listening
  running-finish_listening (opened fds) s = refl
  running-finish_listening (failed message closed) s = refl

  running-listen_at :
      (net : Net) (kernel : ℕ → Attempt) (a : SockaddrIn ⊎ Text) (s : Server ws)
      → (listen_at ws net kernel a s).0.running ≡ s.running
  unfolding listen_at
  running-listen_at net kernel (inl a) s =
      running-finish_listening (open_all net a kernel (length s.workers) 0 []) s
  running-listen_at net kernel (inr message) s = refl

  pub running-listen_tcp_endpoint :
      (net : Net) (kernel : ℕ → Attempt) (address : Address) (s : Server ws)
      → (listen_tcp_endpoint ws net kernel address s).0.running ≡ s.running
  unfolding listen_tcp_endpoint
  running-listen_tcp_endpoint net kernel address s =
      if_cases (λ (o : Server ws × List ℕ × Option Text). o.0.running ≡ s.running) s.running
        (λ _. refl)
        (λ _.
          if_cases (λ (o : Server ws × List ℕ × Option Text). o.0.running ≡ s.running)
            (unset s.settings) (λ _. refl)
            (λ _. running-listen_at net kernel (to_sockaddr_in net address.address address.port) s))

  pub settings-run : (spurious : Bool) (s : Server ws) → (run ws spurious s).0.settings ≡ s.settings
  unfolding run run_set
  settings-run spurious s =
      if_cases (λ (o : Server ws × Option Text). o.0.settings ≡ s.settings)
        (exchange_weak spurious s.running).1
        (λ _.
          if_cases (λ (o : Server ws × Option Text). o.0.settings ≡ s.settings) (unset s.settings)
            (λ _. refl) (λ _. refl))
        (λ _. refl)

  pub settings-stop : (s : Server ws) → (stop ws s).settings ≡ s.settings
  unfolding stop
  settings-stop s =
      if_cases (λ (t : Server ws). t.settings ≡ s.settings) s.running (λ _. refl) (λ _. refl)

  -- The first call of `with_settings` takes settings exactly if they ask for a worker.
  pub with_settings-new_server :
      (st : Settings)
      → ((st.workers ≡ 0)
          × (with_settings ws st (new_server ws)
              ≡ (new_server ws, some (codes "workers must be more than zero"))))
        ⊎ ((0 < st.workers)
            × (with_settings ws st (new_server ws) ≡ (
              record (new_server ws) {
                settings = some st;
                workers = replicate st.workers ws.fresh;
              },
              none,
            )))
  unfolding with_settings set_up validate unset
  with_settings-new_server st =
      if_cases
        (λ (o : Option Text).
          ((st.workers ≡ 0)
            × (set_up ws st o (new_server ws)
                ≡ (new_server ws, some (codes "workers must be more than zero"))))
          ⊎ ((0 < st.workers)
              × (set_up ws st o (new_server ws) ≡ (
                record (new_server ws) {
                  settings = some st;
                  workers = replicate st.workers ws.fresh;
                },
                none,
              ))))
        (ltb st.workers 1) (λ t. inl (ground arith, refl)) (λ f. inr (ground arith, refl))

  pub stop-new_server : stop ws (new_server ws) ≡ new_server ws
  unfolding stop
  stop-new_server = refl
