-- ===== src/Runtime/Dispatch.antt =====
-- The loop of `Runtime::exec` (src/core/runtime.cpp): one turn calls the handles that epoll names, then
-- every socket, and frees what was removed meanwhile.
pub mod Keeping
pub mod Liveness
pub mod Sweeping
mod Tests
use spinet.Common.{
  ℕ, zero, suc, ◌+◌, ◌*◌, ◌/◌, ◌%◌, Bool, true, false, List, [], ◌∷◌, ◌++◌, length, ◌||◌, ◌==◌,
  if◌then◌else◌,
}
use spinet.Task.{Received, Sent}
use spinet.Socket.{World}
use spinet.Socket.Poll.{do_read, do_write}
use spinet.Runtime.Interface.{Containers}
use spinet.Runtime.Store.{Object, acceptor, socket, put, socket_at}
use spinet.Runtime.{
  Runtime, Fate, clear_removable, register_handle, deregister_handle, close_handle, perform,
}

-- A call of a virtual method of the handle at an address.
pub data Call : Type 0 where
  accepts reads writes closes : (handle : ℕ) → Call

pub handle_called : Call → ℕ
handle_called (accepts p) = p
handle_called (reads p) = p
handle_called (writes p) = p
handle_called (closes p) = p

-- The bits of EPOLLIN, EPOLLPRI and EPOLLOUT.
abbrev readable : ℕ → Bool
readable events = events % 2 == 1

abbrev urgent : ℕ → Bool
urgent events = events / 2 % 2 == 1

abbrev writable : ℕ → Bool
writable events = events / 4 % 2 == 1

-- The call for an event of a handle, which is a socket or an acceptor.
pub dispatch : (is_socket : Bool) → (handle events : ℕ) → Call
dispatch false p events = if readable events then accepts p else closes p
dispatch true p events =
    if readable events || urgent events
    then reads p
    else if writable events
    then writes p
    else closes p

-- A call of a method of the runtime, or of `close` of a handle, which may call one.
pub data Method : Type 0 where
  registers : (spurious : Bool) → (handle : ℕ) → Method
  deregisters : (handle : ℕ) → Method
  closing : (spurious : Bool) → (handle : ℕ) → Method

-- What happens in a call, and behind it until the next: what `recv` and `send` do, whether an exchange
-- fails, and the methods that callbacks and other threads call, `do_accept` with the sockets that it
-- accepts among them.
pub record Moment : Type 0 where
  pub received : Received
  pub sent : Sent
  pub spurious : Bool
  pub methods : List Method

module _ (c : Containers) where
  pub act : List Method → Runtime c → Runtime c
  act [] rt = rt
  act (registers spurious p ∷ rest) rt = act rest (register_handle c spurious p rt)
  act (deregisters p ∷ rest) rt = act rest (deregister_handle c p rt)
  act (closing spurious p ∷ rest) rt = act rest (close_handle c spurious p rt)

  -- The runtime with what a method of the socket at `p` leaves, and does outside.
  pub leave : ℕ → World → Runtime c → Runtime c
  leave p w rt =
      perform c p w.effects
        (record rt { objects = put rt.objects p (socket w.socket w.wire); memory = w.memory })

  pub read_handle : Received → ℕ → Object → Runtime c → Runtime c
  unfolding leave
  read_handle r p (acceptor h) rt = rt
  read_handle r p (socket s wire) rt =
      leave p (do_read r (record { socket = s; memory = rt.memory; wire = wire; effects = [] })) rt

  pub write_handle : Sent → ℕ → Object → Runtime c → Runtime c
  unfolding leave
  write_handle r p (acceptor h) rt = rt
  write_handle r p (socket s wire) rt =
      leave p (do_write r (record { socket = s; memory = rt.memory; wire = wire; effects = [] })) rt

  pub call : Moment → Call → Runtime c → Runtime c
  unfolding act read_handle write_handle
  call m (accepts p) rt = act m.methods rt
  call m (reads p) rt = act m.methods (read_handle m.received p (rt.objects p) rt)
  call m (writes p) rt = act m.methods (write_handle m.sent p (rt.objects p) rt)
  call m (closes p) rt = act m.methods (close_handle c m.spurious p rt)

  -- The calls for the events, each behind the moment of its place, with the calls made so far and the
  -- runtime that each found.
  abbrev pub Visited : Type 0
  Visited = Runtime c × List (Call × Runtime c)

  pub visit : Moment → Call → Visited → Visited
  unfolding call
  visit m k (rt, trace) = (call m k rt, trace ++ (k, rt) ∷ [])

  pub run_events : (moments : ℕ → Moment) → ℕ → List (ℕ × ℕ) → Visited → Visited
  unfolding visit dispatch
  run_events moments i [] v = v
  run_events moments i ((p, events) ∷ rest) v =
      run_events moments (i + 1) rest
        (visit (moments i) (dispatch (socket_at v.0.objects p) p events) v)

  -- The sweep over a copy of the set of sockets.
  pub run_sockets : (moments : ℕ → Moment) → ℕ → List ℕ → Visited → Visited
  unfolding visit
  run_sockets moments i [] v = v
  run_sockets moments i (p ∷ rest) v =
      run_sockets moments (i + 2) rest
        (visit (moments (i + 1)) (writes p) (visit (moments i) (reads p) v))

  sweep : (moments : ℕ → Moment) → ℕ → Visited → Visited
  unfolding run_sockets
  sweep moments i v = run_sockets moments i (c.elements v.0.all_sockets) v

  -- One turn, for the events that `epoll_wait` gives.
  pub turn : (moments : ℕ → Moment) → (fates : ℕ → Fate) → List (ℕ × ℕ) → Runtime c → Visited
  unfolding run_events sweep
  turn moments fates events rt =
      let v = sweep moments (length events) (run_events moments 0 events (rt, [])) in
      (clear_removable c fates v.0, v.1)
