-- ===== src/Runtime/Dispatch/Liveness.antt =====
-- A turn of `Runtime::exec` (src/core/runtime.cpp) calls handles that the runtime owns.
use spinet.Common.{
  ℕ, ◌+◌, ◌≡◌, refl, sym, subst, Bool, true, false, inl, inr, List, [], ◌∷◌, length, map, ◌||◌,
  if_cases, All, All-append,
}
use spinet.Task.{Received, Sent}
use spinet.Socket.{Socket, World}
use spinet.Socket.Poll.{do_read, do_write}
use spinet.Socket.Poll.Cases.{do_read_cases, do_write_cases}
use spinet.Runtime.Interface.{Containers, In}
use spinet.Runtime.Store.{Object, acceptor, socket, socket_at}
use spinet.Runtime.{Runtime, Fate}
use spinet.Runtime.Closing.{stored, stored-Frame}
use spinet.Runtime.Dispatch.{
  Call, accepts, reads, writes, closes, handle_called, dispatch, Method, registers, deregisters,
  closing, Moment, act, leave, read_handle, write_handle, call, Visited, visit, run_events,
  run_sockets, sweep, turn, readable, urgent, writable,
}
use spinet.Runtime.Dispatch.Keeping.{
  IsAlive, IsSwept, Keeps, Keeps-refl, Keeps_trans, Frame-Keeps, perform-Keeps, close_handle-Keeps,
  deregister_handle-Keeps,
}
use spinet.Runtime.Dispatch.Keeping.Registering.{register_handle-Keeps}

handle_called-dispatch : (k : Bool) (p events : ℕ) → handle_called (dispatch k p events) ≡ p
unfolding handle_called dispatch
handle_called-dispatch false p events =
    if_cases (λ k. handle_called k ≡ p) (readable events) (λ _. refl) (λ _. refl)
handle_called-dispatch true p events =
    if_cases (λ k. handle_called k ≡ p) (readable events || urgent events) (λ _. refl)
      (λ _. if_cases (λ k. handle_called k ≡ p) (writable events) (λ _. refl) (λ _. refl))

module _ (c : Containers) where
  act-Keeps : (ms : List Method) (rt : Runtime c) → Keeps c rt (act c ms rt)
  unfolding act
  act-Keeps [] rt = Keeps-refl c rt
  act-Keeps (registers spurious p ∷ rest) rt =
      Keeps_trans c (register_handle-Keeps c spurious p rt) (act-Keeps rest _)
  act-Keeps (deregisters p ∷ rest) rt =
      Keeps_trans c (deregister_handle-Keeps c p rt) (act-Keeps rest _)
  act-Keeps (closing spurious p ∷ rest) rt =
      Keeps_trans c (close_handle-Keeps c spurious p rt) (act-Keeps rest _)

  leave-Keeps :
      (p : ℕ) (w : World) (s : Socket) (wire : List ℕ) (rt : Runtime c)
      → rt.objects p ≡ socket s wire
      → w.socket.handle ≡ s.handle
      → Keeps c rt (leave c p w rt)
  unfolding leave
  leave-Keeps p w s wire rt e h =
      Keeps_trans c (Frame-Keeps c (stored-Frame c p w s wire rt e h))
        (perform-Keeps c p w.effects (stored c p w rt))

  read_handle-Keeps :
      (r : Received) (p : ℕ) (o : Object) (rt : Runtime c)
      → rt.objects p ≡ o
      → Keeps c rt (read_handle c r p o rt)
  unfolding read_handle
  read_handle-Keeps r p (acceptor h) rt e = Keeps-refl c rt
  read_handle-Keeps r p (socket s wire) rt e = leave-Keeps p (do_read r w) s wire rt e (
      do_read_cases (λ (v : World). v.socket.handle ≡ s.handle) w r (λ m. refl)
        (λ task callback rest result n m live q. refl))
    where
      w : World
      w = record { socket = s; memory = rt.memory; wire = wire; effects = [] }

  write_handle-Keeps :
      (r : Sent) (p : ℕ) (o : Object) (rt : Runtime c)
      → rt.objects p ≡ o
      → Keeps c rt (write_handle c r p o rt)
  unfolding write_handle
  write_handle-Keeps r p (acceptor h) rt e = Keeps-refl c rt
  write_handle-Keeps r p (socket s wire) rt e = leave-Keeps p (do_write r w) s wire rt e (
      do_write_cases (λ (v : World). v.socket.handle ≡ s.handle) w r (λ m. refl)
        (λ task callback rest result n m live q. refl))
    where
      w : World
      w = record { socket = s; memory = rt.memory; wire = wire; effects = [] }

  call-Keeps : (m : Moment) (k : Call) (rt : Runtime c) → Keeps c rt (call c m k rt)
  unfolding call
  call-Keeps m (accepts p) rt = act-Keeps m.methods rt
  call-Keeps m (reads p) rt =
      Keeps_trans c (read_handle-Keeps m.received p (rt.objects p) rt refl) (act-Keeps m.methods _)
  call-Keeps m (writes p) rt =
      Keeps_trans c (write_handle-Keeps m.sent p (rt.objects p) rt refl) (act-Keeps m.methods _)
  call-Keeps m (closes p) rt =
      Keeps_trans c (close_handle-Keeps c m.spurious p rt) (act-Keeps m.methods _)

  -- Every call of a trace is of a handle that the runtime owned then.
  abbrev pub IsSafe : List (Call × Runtime c) → Type 0
  IsSafe = All (λ (v : Call × Runtime c). IsAlive c (handle_called v.0) v.1)

  visit-IsSafe :
      (m : Moment) (k : Call) (v : Visited c)
      → IsSafe v.1
      → IsAlive c (handle_called k) v.0
      → IsSafe (visit c m k v).1
  unfolding visit
  visit-IsSafe m k (rt, trace) safe alive = All-append _ trace ((k, rt) ∷ []) safe (alive, tt)

  visit-Keeps : (m : Moment) (k : Call) (v : Visited c) → Keeps c v.0 (visit c m k v).0
  unfolding visit
  visit-Keeps m k (rt, trace) = call-Keeps m k rt

  abbrev AllAlive : List ℕ → Runtime c → Type 0
  AllAlive ps rt = All (λ p. IsAlive c p rt) ps

  AllAlive-kept :
      (ps : List ℕ) {rt rt' : Runtime c} → Keeps c rt rt' → AllAlive ps rt → AllAlive ps rt'
  AllAlive-kept [] k h = tt
  AllAlive-kept (p ∷ ps) k h = (k.alive p h.0, AllAlive-kept ps k h.1)

  visit_event-IsSafe :
      (m : Moment) (p events : ℕ) (v : Visited c)
      → IsSafe v.1
      → IsAlive c p v.0
      → IsSafe (visit c m (dispatch (socket_at v.0.objects p) p events) v).1
  visit_event-IsSafe m p events v safe alive =
      visit-IsSafe m (dispatch (socket_at v.0.objects p) p events) v safe (
        subst (λ q. IsAlive c q v.0)
          (sym (handle_called-dispatch (socket_at v.0.objects p) p events)) alive)

  run_events-IsSafe :
      (moments : ℕ → Moment) (i : ℕ) (events : List (ℕ × ℕ)) (v : Visited c)
      → IsSafe v.1
      → AllAlive (map (λ (e : ℕ × ℕ). e.0) events) v.0
      → IsSafe (run_events c moments i events v).1 × Keeps c v.0 (run_events c moments i events v).0
  unfolding run_events
  run_events-IsSafe moments i [] v safe alive = (safe, Keeps-refl c v.0)
  run_events-IsSafe moments i ((p, events) ∷ rest) v safe alive =
      let first = visit_event-IsSafe (moments i) p events v safe alive.0 in
      let next =
        run_events-IsSafe moments (i + 1) rest
          (visit c (moments i) (dispatch (socket_at v.0.objects p) p events) v) first
          (AllAlive-kept (map (λ (e : ℕ × ℕ). e.0) rest)
            (visit-Keeps (moments i) (dispatch (socket_at v.0.objects p) p events) v) alive.1) in
      (
        next.0,
        Keeps_trans c (visit-Keeps (moments i) (dispatch (socket_at v.0.objects p) p events) v)
            next.1,
      )

  run_sockets-IsSafe :
      (moments : ℕ → Moment) (i : ℕ) (ps : List ℕ) (v : Visited c)
      → IsSafe v.1
      → AllAlive ps v.0
      → IsSafe (run_sockets c moments i ps v).1
  unfolding run_sockets handle_called
  run_sockets-IsSafe moments i [] v safe alive = safe
  run_sockets-IsSafe moments i (p ∷ rest) v safe alive =
      run_sockets-IsSafe moments (i + 2) rest
        (visit c (moments (i + 1)) (writes p) (visit c (moments i) (reads p) v))
        (visit-IsSafe (moments (i + 1)) (writes p) (visit c (moments i) (reads p) v)
          (visit-IsSafe (moments i) (reads p) v safe alive.0)
          ((visit-Keeps (moments i) (reads p) v).alive p alive.0))
        (AllAlive-kept rest
          (Keeps_trans c (visit-Keeps (moments i) (reads p) v)
            (visit-Keeps (moments (i + 1)) (writes p) (visit c (moments i) (reads p) v)))
          alive.1)

  AllAlive-each :
      (ps : List ℕ) (rt : Runtime c) → ((p : ℕ) → In p ps → IsAlive c p rt) → AllAlive ps rt
  AllAlive-each [] rt each = tt
  AllAlive-each (p ∷ ps) rt each = (each p (inl refl), AllAlive-each ps rt (λ q i. each q (inr i)))

  elements-AllAlive : (rt : Runtime c) → IsSwept c rt → AllAlive (c.elements rt.all_sockets) rt
  elements-AllAlive rt swept =
      AllAlive-each (c.elements rt.all_sockets) rt
        (λ p i. inl (swept p (c.elements-has rt.all_sockets p i)).1)

  -- Where the handles that epoll names are owned by the runtime (registered, or removed in this turn), and
  -- the set of sockets holds registered sockets only, each call that a turn of `exec` makes, for an event or
  -- in the sweep, is of a handle that the runtime owns at that time, whatever methods callbacks and other
  -- threads call meanwhile: no call goes to a handle that was freed.
  pub turn-IsSafe :
      (moments : ℕ → Moment) (fates : ℕ → Fate) (events : List (ℕ × ℕ)) (rt : Runtime c)
      → IsSwept c rt
      → All (λ p. IsAlive c p rt) (map (λ (e : ℕ × ℕ). e.0) events)
      → IsSafe (turn c moments fates events rt).1
  unfolding turn sweep
  turn-IsSafe moments fates events rt swept alive =
      run_sockets-IsSafe moments (length events) _ v ran.0
        (elements-AllAlive v.0 (ran.1.swept swept))
    where
      v : Visited c
      v = run_events c moments 0 events (rt, [])

      ran : IsSafe v.1 × Keeps c rt v.0
      ran = run_events-IsSafe moments 0 events (rt, []) tt alive
