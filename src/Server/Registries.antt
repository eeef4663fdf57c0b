-- ===== src/Server/Registries.antt =====
-- What the methods of `Server` (src/server.cpp) keep of each of its workers, and of their registries.
use spinet.Common.{
  ℕ, ◌⊎◌, inl, inr, false, Option, none, some, List, [], ◌∷◌, map, length, All, All-append, Text,
  if_cases, exchange_weak,
}
use spinet.Address.{Net, SockaddrIn, to_sockaddr_in}
use spinet.Workers.{Workers, replicate, All-replicate}
use spinet.Runtime.Interface.{Containers}
use spinet.Runtime.Store.{acceptor}
use spinet.Runtime.{Fate}
use spinet.Runtime.Serving.{runtimes}
use spinet.Runtime.Serving.Registry.{
  IsServing, new_runtime-IsServing, run_runtime-IsServing, stop_runtime-IsServing, serve-IsServing,
}
use spinet.Server.{
  Settings, validate, Attempt, Opening, opened, failed, open_all, Server, new_server, set_up,
  with_settings, register_all, finish_listening, listen_at, listen_tcp_endpoint, next_worker,
  run_workers, run_set, run, stop, unset,
}
use spinet.Server.Running.{Action, sets, listens, runs, stops, step, steps}

module _ {ℓ} (ws : Workers) (net : Net) (P : ws.Worker → Type ℓ) (fresh : P ws.fresh)
    (run_keeps : (w : ws.Worker) → P w → P (ws.run w).0)
    (stop_keeps : (w : ws.Worker) → P w → P (ws.stop w))
    (register_keeps : (fd : ℕ) (w : ws.Worker) → P w → P (ws.register_acceptor fd w)) where
  set_up-All :
      (st : Settings) (err : Option Text) (s : Server ws)
      → All P s.workers
      → All P (set_up ws st err s).0.workers
  unfolding set_up
  set_up-All st (some err) s h = h
  set_up-All st none s h =
      All-append P s.workers (replicate st.workers ws.fresh) h
        (All-replicate P st.workers ws.fresh fresh)

  register_all-All :
      (workers : List ws.Worker) (fds : List ℕ)
      → All P workers
      → All P (register_all ws workers fds)
  unfolding register_all
  register_all-All workers [] h = h
  register_all-All [] (fd ∷ fds) h = tt
  register_all-All (w ∷ workers) (fd ∷ fds) h =
      (register_keeps fd w h.0, register_all-All workers fds h.1)

  finish_listening-All :
      (o : Opening) (s : Server ws) → All P s.workers → All P (finish_listening ws s o).0.workers
  unfolding finish_listening
  finish_listening-All (failed message closed) s h = h
  finish_listening-All (opened fds) s h = register_all-All s.workers fds h

  listen_at-All :
      (kernel : ℕ → Attempt) (a : SockaddrIn ⊎ Text) (s : Server ws)
      → All P s.workers
      → All P (listen_at ws net kernel a s).0.workers
  unfolding listen_at
  listen_at-All kernel (inr message) s h = h
  listen_at-All kernel (inl a) s h =
      finish_listening-All (open_all net a kernel (length s.workers) 0 []) s h

  next_worker-All :
      (o : ws.Worker × Option Text) (workers : List ws.Worker) (rest : List ws.Worker × Option Text)
      → P o.0
      → All P workers
      → All P rest.0
      → All P (next_worker ws o workers rest).0
  unfolding next_worker
  next_worker-All (w, some err) workers rest p h r = (p, h)
  next_worker-All (w, none) workers rest p h r = (p, r)

  run_workers-All : (workers : List ws.Worker) → All P workers → All P (run_workers ws workers).0
  unfolding run_workers
  run_workers-All [] h = tt
  run_workers-All (w ∷ workers) h =
      next_worker-All (ws.run w) workers (run_workers ws workers) (run_keeps w h.0) h.1
        (run_workers-All workers h.1)

  run_set-All : (s : Server ws) → All P s.workers → All P (run_set ws s).0.workers
  unfolding run_set
  run_set-All s h =
      if_cases (λ (o : Server ws × Option Text). All P o.0.workers) (unset s.settings) (λ _. h)
        (λ _. run_workers-All s.workers h)

  map-stop-All : (workers : List ws.Worker) → All P workers → All P (map ws.stop workers)
  map-stop-All [] h = tt
  map-stop-All (w ∷ workers) h = (stop_keeps w h.0, map-stop-All workers h.1)

  step-All : (a : Action) (s : Server ws) → All P s.workers → All P (step ws net a s).workers
  unfolding step with_settings listen_tcp_endpoint run stop
  step-All (sets st) s h =
      if_cases (λ (o : Server ws × Option Text). All P o.0.workers) s.running (λ _. h)
        (λ _.
          if_cases (λ (o : Server ws × Option Text). All P o.0.workers) (unset s.settings)
            (λ _. set_up-All st (validate st) s h) (λ _. h))
  step-All (listens kernel address) s h =
      if_cases (λ (o : Server ws × List ℕ × Option Text). All P o.0.workers) s.running (λ _. h)
        (λ _.
          if_cases (λ (o : Server ws × List ℕ × Option Text). All P o.0.workers) (unset s.settings)
            (λ _. h)
            (λ _. listen_at-All kernel (to_sockaddr_in net address.address address.port) s h))
  step-All (runs spurious) s h =
      if_cases (λ (o : Server ws × Option Text). All P o.0.workers)
        (exchange_weak spurious s.running).1
        (λ _. run_set-All (record s { running = (exchange_weak spurious s.running).0 }) h) (λ _. h)
  step-All stops s h =
      if_cases (λ (t : Server ws). All P t.workers) s.running (λ _. map-stop-All s.workers h)
        (λ _. h)

  steps-All :
      (actions : List Action) (s : Server ws)
      → All P s.workers
      → All P (steps ws net actions s).workers
  unfolding steps
  steps-All [] s h = h
  steps-All (a ∷ actions) s h = steps-All actions (step ws net a s) (step-All a s h)

-- After any sequence of calls on a new server whose workers are runtimes, and whatever becomes of the handles
-- that these drop, the registry of each of its workers is consistent: each handle is registered under its own descriptor and linked to its runtime, the
-- set of sockets holds the registered sockets, and no lock is held or was waited for by its own holder.
pub steps-IsServing :
    (c : Containers) (fates : ℕ → Fate) (net : Net) (actions : List Action)
    → All
        (IsServing c)
        (steps (runtimes c fates) net actions (new_server (runtimes c fates))).workers
steps-IsServing c fates net actions =
    steps-All (runtimes c fates) net (IsServing c) (new_runtime-IsServing c)
      (run_runtime-IsServing c false) (stop_runtime-IsServing c fates)
      (λ fd. serve-IsServing c false (acceptor (record { fd = fd; runtime = none }))) actions
      (new_server (runtimes c fates)) tt
