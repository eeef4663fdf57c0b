-- ===== src/Socket/Closed.antt =====
-- What holds of a `TcpSocket` (src/core/tcp_socket.cpp) once `close` has begun, whatever the threads
-- that share it do.
use spinet.Common.{
  ℕ, suc, ◌+◌, ◌≡◌, refl, ap, ◌∙◌, Bool, true, false, List, [], ◌∷◌, ◌++◌, arith, if◌then◌else◌,
}
use spinet.Result.{Result}
use spinet.Handle.{Handle, Effect, deregister, close_fd, watch, notify}
use spinet.Handle
use spinet.Socket.{
  World, Entry, refuse_read, refuse_write, drain_read, drain_write, async_read, async_read_some,
  async_write, async_write_some, cancel, close_begin,
}
use spinet.Socket.Poll.{do_read, do_write}
use spinet.Socket.Poll.Cases.{do_read_cases, do_write_cases}
use spinet.Socket.Schedule.{
  Action, reads, reads_some, writes, writes_some, cancels, begins_close, drains_read, drains_write,
  polls_read, polls_write, step, run,
}

-- How often a descriptor was closed.
abbrev pub closings : List Effect → ℕ
closings [] = 0
closings (close_fd fd ∷ es) = suc (closings es)
closings (deregister r ∷ es) = closings es
closings (watch ctl fd p events ∷ es) = closings es
closings (notify c result n ∷ es) = closings es

-- One while the socket is open.
abbrev pub to_close : World → ℕ
to_close w = if w.socket.closed then 0 else 1

pub closings-append : (xs ys : List Effect) → closings (xs ++ ys) ≡ closings xs + closings ys
closings-append [] ys = omega arith
closings-append (close_fd fd ∷ es) ys = omega (arith, closings-append es ys)
closings-append (deregister r ∷ es) ys = closings-append es ys
closings-append (watch ctl fd p events ∷ es) ys = closings-append es ys
closings-append (notify c result n ∷ es) ys = closings-append es ys

closings-close : (h : Handle) → closings (Handle.close h) ≡ 1
unfolding Handle.close
closings-close h = ground arith

abbrev Keeps : World → World → Type 0
Keeps w v = closings v.effects + to_close v ≡ closings w.effects + to_close w

close_begin-Keeps : (spurious : Bool) (w : World) → Keeps w (close_begin spurious w).0
unfolding close_begin
close_begin-Keeps true w = refl
close_begin-Keeps false w = ground (
  arith,
  closings-append w.effects (Handle.close w.socket.handle),
  closings-close w.socket.handle,
)

notified-Keeps :
    (w : World) (c : ℕ) (result : Result) (n : ℕ)
    → closings (w.effects ++ notify c result n ∷ []) + to_close w ≡ closings w.effects + to_close w
notified-Keeps w c result n = omega (arith, closings-append w.effects (notify c result n ∷ []))

step-Keeps : (a : Action) (w : World) → Keeps w (step a w)
unfolding step cancel async_read async_read_some async_write async_write_some drain_read drain_write
step-Keeps (reads buf size d) w = ground arith
step-Keeps (reads_some buf size d) w = ground arith
step-Keeps (writes buf size d) w = ground arith
step-Keeps (writes_some buf size d) w = ground arith
step-Keeps cancels w = refl
step-Keeps (begins_close spurious) w = close_begin-Keeps spurious w
step-Keeps drains_read w = go w.socket.read_queue
  where
    go : (q : List Entry) → Keeps w (refuse_read w q)
    go [] = refl
    go ((task, d) ∷ rest) = notified-Keeps w d _ _
step-Keeps drains_write w = go w.socket.write_queue
  where
    go : (q : List Entry) → Keeps w (refuse_write w q)
    go [] = refl
    go ((task, d) ∷ rest) = notified-Keeps w d _ _
step-Keeps (polls_read r) w =
    do_read_cases (Keeps w) w r (λ m. refl)
      (λ task d rest result n m live q. notified-Keeps w d result n)
step-Keeps (polls_write r) w =
    do_write_cases (Keeps w) w r (λ m. refl)
      (λ task d rest result n m live q. notified-Keeps w d result n)

-- Whatever the threads do, and however many of them call `close`, the descriptor of a socket is closed
-- once if the socket is closed in the end, and otherwise not at all: the calls of `close(2)` and the one
-- still to come while the socket is open add up to what they were at the start.
pub run_closes_once :
    (acts : List Action) (w : World)
    → closings (run acts w).effects + to_close (run acts w) ≡ closings w.effects + to_close w
unfolding run
run_closes_once [] w = refl
run_closes_once (a ∷ acts) w = run_closes_once acts (step a w) ∙ step-Keeps a w

-- A closed socket whose queues are empty.
pub record IsShut (w : World) : Type 0 where
  pub closed : w.socket.closed ≡ true
  pub no_reads : w.socket.read_queue ≡ []
  pub no_writes : w.socket.write_queue ≡ []

close_begin-IsShut :
    (spurious : Bool) (w : World) → w.socket.closed ≡ true → (close_begin spurious w).0 ≡ w
unfolding close_begin
close_begin-IsShut true w h = refl
close_begin-IsShut false w h = ground arith

step-IsShut : (a : Action) (w : World) → IsShut w → step a w ≡ w
unfolding step cancel async_read async_read_some async_write async_write_some drain_read drain_write
    do_read do_write
step-IsShut (reads buf size d) w h = ground arith
step-IsShut (reads_some buf size d) w h = ground arith
step-IsShut (writes buf size d) w h = ground arith
step-IsShut (writes_some buf size d) w h = ground arith
step-IsShut cancels w h = ground arith
step-IsShut (begins_close spurious) w h = close_begin-IsShut spurious w h.closed
step-IsShut drains_read w h = ap (refuse_read w) h.no_reads
step-IsShut drains_write w h = ap (refuse_write w) h.no_writes
step-IsShut (polls_read r) w h = simp (h.closed, do_read)
step-IsShut (polls_write r) w h = simp (h.closed, do_write)

-- A closed socket whose queues are empty stays as it is, whatever the threads do: no submission is
-- accepted, nothing is sent or stored, and no callback is invoked.
pub run-IsShut : (acts : List Action) (w : World) → IsShut w → run acts w ≡ w
unfolding run
run-IsShut [] w h = refl
run-IsShut (a ∷ acts) w h = ap (run acts) (step-IsShut a w h) ∙ run-IsShut acts w h
