-- ===== src/Server/State.antt =====
-- The settings and the workers of a `Server` (src/server.cpp) over its methods.
use spinet.Common.{
  ℕ, suc, ◌≤◌, ◌≡◌, refl, sym, ap, subst, ◌∙◌, Bool, true, false, ◌⊎◌, inl, inr, Option, none, some,
  List, [], ◌∷◌, ◌++◌, map, length, All, Text, ltb, if◌then◌else◌, exchange_weak, if_cases, arith,
}
use mathlib.Core.Option.{some-injective}
use spinet.Address.{Address, Net, SockaddrIn, to_sockaddr_in}
use spinet.Workers.{Workers, replicate, length-replicate, All-replicate}
use spinet.Server.{
  Settings, validate, Attempt, Opening, opened, failed, open_all, Server, set_up, with_settings,
  register_all, finish_listening, listen_at, listen_tcp_endpoint, next_worker, run_workers, run_set,
  run, stop, already_running, unset,
}

module _ (ws : Workers) where
  open ws use {Worker}

  abbrev pub IsIdle : Worker → Type 0
  IsIdle w = ws.is_running w ≡ false

  abbrev pub IsBusy : Worker → Type 0
  IsBusy w = ws.is_running w ≡ true

  -- There are workers only behind settings, then as many as those say and at least one, and while the
  -- server does not run, no worker does.
  pub record IsConfigured (s : Server ws) : Type 0 where
    pub unset_empty : s.settings ≡ none → s.workers ≡ []
    pub counted : (st : Settings) → s.settings ≡ some st → length s.workers ≡ st.workers
    pub positive : (st : Settings) → s.settings ≡ some st → 1 ≤ st.workers
    pub idle_workers : s.running ≡ false → All IsIdle s.workers

  unset-none : (o : Option Settings) → unset o ≡ true → o ≡ none
  unfolding unset
  unset-none none t = refl
  unset-none (some st) t = absurd (ground arith)

  none-unset : (o : Option Settings) → o ≡ none → unset o ≡ false → true ≡ false
  unfolding unset
  none-unset none q f = f
  none-unset (some st) q f = absurd (ground arith)

  length-register_all :
      (workers : List Worker) (fds : List ℕ) → length (register_all ws workers fds) ≡ length workers
  unfolding register_all
  length-register_all workers [] = refl
  length-register_all [] (fd ∷ fds) = refl
  length-register_all (w ∷ workers) (fd ∷ fds) = ap suc (length-register_all workers fds)

  register_all-[] : (fds : List ℕ) → register_all ws [] fds ≡ []
  unfolding register_all
  register_all-[] [] = refl
  register_all-[] (fd ∷ fds) = refl

  register_all-IsIdle :
      (workers : List Worker) (fds : List ℕ)
      → All IsIdle workers
      → All IsIdle (register_all ws workers fds)
  unfolding register_all
  register_all-IsIdle workers [] h = h
  register_all-IsIdle [] (fd ∷ fds) h = tt
  register_all-IsIdle (w ∷ workers) (fd ∷ fds) h =
      (ws.register_acceptor_keeps fd w ∙ h.0, register_all-IsIdle workers fds h.1)

  length-next_worker :
      (o : Worker × Option Text) (workers : List Worker) (rest : List Worker × Option Text)
      → length rest.0 ≡ length workers
      → length (next_worker ws o workers rest).0 ≡ suc (length workers)
  unfolding next_worker
  length-next_worker (w, some err) workers rest h = refl
  length-next_worker (w, none) workers rest h = ap suc h

  length-run_workers : (workers : List Worker) → length (run_workers ws workers).0 ≡ length workers
  unfolding run_workers
  length-run_workers [] = refl
  length-run_workers (w ∷ workers) =
      length-next_worker (ws.run w) workers (run_workers ws workers) (length-run_workers workers)

  next_worker-IsBusy :
      (o : Worker × Option Text) (workers : List Worker) (rest : List Worker × Option Text)
      → o.1 ≡ none
      → IsBusy o.0
      → All IsBusy rest.0 × (rest.1 ≡ none)
      → All IsBusy (next_worker ws o workers rest).0 × ((next_worker ws o workers rest).1 ≡ none)
  unfolding next_worker
  next_worker-IsBusy (w, some err) workers rest accepted busy h = absurd (ground arith)
  next_worker-IsBusy (w, none) workers rest accepted busy h = ((busy, h.0), h.1)

  pub run_workers-IsBusy :
      (workers : List Worker)
      → All IsIdle workers
      → All IsBusy (run_workers ws workers).0 × ((run_workers ws workers).1 ≡ none)
  unfolding run_workers
  run_workers-IsBusy [] h = (tt, refl)
  run_workers-IsBusy (w ∷ workers) h =
      next_worker-IsBusy (ws.run w) workers (run_workers ws workers) (ws.run_accepts w h.0)
        (ws.run_starts w h.0) (run_workers-IsBusy workers h.1)

  pub map-stop-IsIdle : (workers : List Worker) → All IsIdle (map ws.stop workers)
  map-stop-IsIdle [] = tt
  map-stop-IsIdle (w ∷ workers) = (ws.stop_stops w, map-stop-IsIdle workers)

  length-map-stop : (workers : List Worker) → length (map ws.stop workers) ≡ length workers
  length-map-stop [] = refl
  length-map-stop (w ∷ workers) = ap suc (length-map-stop workers)

  set_up-IsConfigured :
      (st : Settings) (s : Server ws)
      → IsConfigured s
      → s.running ≡ false
      → s.settings ≡ none
      → IsConfigured (set_up ws st (validate st) s).0
  unfolding validate set_up
  set_up-IsConfigured st s h off none_yet =
      if_cases (λ o. IsConfigured (set_up ws st o s).0) (ltb st.workers 1) (λ t. refused)
        (λ f. accepted f)
    where
      refused : IsConfigured s
      refused = h

      no_workers : s.workers ≡ []
      no_workers = h.unset_empty none_yet

      counted_as :
          (q : Settings)
          → some st ≡ some q
          → length (s.workers ++ replicate st.workers ws.fresh) ≡ q.workers
      counted_as q e =
          subst (λ l. length (l ++ replicate st.workers ws.fresh) ≡ q.workers) (sym no_workers)
            (length-replicate st.workers ws.fresh ∙ ap Settings.workers (some-injective st q e))

      positive_as : ltb st.workers 1 ≡ false → (q : Settings) → some st ≡ some q → 1 ≤ q.workers
      positive_as f q e =
          subst (λ (q' : Settings). 1 ≤ q'.workers) (some-injective st q e) (ground arith)

      accepted : ltb st.workers 1 ≡ false → IsConfigured (set_up ws st none s).0
      accepted f = record {
        unset_empty = λ q. absurd (ground arith);
        counted = λ q e. counted_as q e;
        positive = positive_as f;
        idle_workers = λ _.
            subst (λ l. All IsIdle (l ++ replicate st.workers ws.fresh)) (sym no_workers)
              (All-replicate IsIdle st.workers ws.fresh ws.fresh_idle);
      }

  pub with_settings-IsConfigured :
      (st : Settings) (s : Server ws) → IsConfigured s → IsConfigured (with_settings ws st s).0
  unfolding with_settings
  with_settings-IsConfigured st s h =
      if_cases (λ (o : Server ws × Option Text). IsConfigured o.0) s.running (λ _. h)
        (λ off.
          if_cases (λ (o : Server ws × Option Text). IsConfigured o.0) (unset s.settings)
            (λ t. set_up-IsConfigured st s h off (unset-none s.settings t)) (λ _. h))

  finish_listening-IsConfigured :
      (o : Opening) (s : Server ws) → IsConfigured s → IsConfigured (finish_listening ws s o).0
  unfolding finish_listening
  finish_listening-IsConfigured (failed message closed) s h = h
  finish_listening-IsConfigured (opened fds) s h = record {
    unset_empty = λ q. ap (λ l. register_all ws l fds) (h.unset_empty q) ∙ register_all-[] fds;
    counted = λ st e. length-register_all s.workers fds ∙ h.counted st e;
    positive = h.positive;
    idle_workers = λ off. register_all-IsIdle s.workers fds (h.idle_workers off);
  }

  listen_at-IsConfigured :
      (net : Net) (kernel : ℕ → Attempt) (a : SockaddrIn ⊎ Text) (s : Server ws)
      → IsConfigured s
      → IsConfigured (listen_at ws net kernel a s).0
  unfolding listen_at
  listen_at-IsConfigured net kernel (inr message) s h = h
  listen_at-IsConfigured net kernel (inl a) s h =
      finish_listening-IsConfigured (open_all net a kernel (length s.workers) 0 []) s h

  pub listen_tcp_endpoint-IsConfigured :
      (net : Net) (kernel : ℕ → Attempt) (address : Address) (s : Server ws)
      → IsConfigured s
      → IsConfigured (listen_tcp_endpoint ws net kernel address s).0
  unfolding listen_tcp_endpoint
  listen_tcp_endpoint-IsConfigured net kernel address s h =
      if_cases (λ (o : Server ws × List ℕ × Option Text). IsConfigured o.0) s.running (λ _. h)
        (λ _.
          if_cases (λ (o : Server ws × List ℕ × Option Text). IsConfigured o.0) (unset s.settings)
            (λ _. h)
            (λ _.
              listen_at-IsConfigured net kernel (to_sockaddr_in net address.address address.port) s
                h))

  run_set-IsConfigured :
      (s : Server ws) → IsConfigured s → s.running ≡ true → IsConfigured (run_set ws s).0
  unfolding run_set
  run_set-IsConfigured s h on =
      if_cases (λ (o : Server ws × Option Text). IsConfigured o.0) (unset s.settings) (λ _. h)
        (λ f. record {
          unset_empty =
              λ (q : s.settings ≡ none). absurd (ground (arith, none-unset s.settings q f));
          counted = λ st e. length-run_workers s.workers ∙ h.counted st e;
          positive = h.positive;
          idle_workers = λ off. absurd (ground (arith, on, off));
        })

  busy-IsConfigured : (s : Server ws) → IsConfigured s → IsConfigured (record s { running = true })
  busy-IsConfigured s h = record {
    unset_empty = h.unset_empty;
    counted = h.counted;
    positive = h.positive;
    idle_workers = λ off. absurd (ground arith);
  }

  pub run-IsConfigured :
      (spurious : Bool) (s : Server ws) → IsConfigured s → IsConfigured (run ws spurious s).0
  unfolding run
  run-IsConfigured spurious s h = go spurious s.running
    where
      go :
          (q b : Bool)
          → IsConfigured
              (if (exchange_weak q b).1
                then run_set ws (record s { running = (exchange_weak q b).0 })
                else (s, some already_running)).0
      go true b = h
      go false true = h
      go false false =
          run_set-IsConfigured (record s { running = true }) (busy-IsConfigured s h) refl

  pub stop-IsConfigured : (s : Server ws) → IsConfigured s → IsConfigured (stop ws s)
  unfolding stop
  stop-IsConfigured s h =
      if_cases IsConfigured s.running
        (λ _. record {
          unset_empty = λ q. ap (map ws.stop) (h.unset_empty q);
          counted = λ st e. length-map-stop s.workers ∙ h.counted st e;
          positive = h.positive;
          idle_workers = λ _. map-stop-IsIdle s.workers;
        })
        (λ _. h)

  pub running-stop : (s : Server ws) → (stop ws s).running ≡ false
  unfolding stop
  running-stop s =
      if_cases (λ (t : Server ws). t.running ≡ false) s.running (λ _. refl) (λ off. off)
