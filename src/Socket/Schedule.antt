-- ===== src/Socket/Schedule.antt =====
-- What the threads that share a `TcpSocket` (src/core/tcp_socket.cpp) do with it, as sequences of the
-- sections that its two locks make atomic.
use spinet.Common.{ℕ, Bool, List, [], ◌∷◌}
use spinet.Task.{Received, Sent}
use spinet.Socket.{
  World, async_read, async_read_some, async_write, async_write_some, cancel, close_begin,
  drain_read, drain_write,
}
use spinet.Socket.Poll.{do_read, do_write}

pub data Action : Type 0 where
  reads reads_some writes writes_some : (buf size callback : ℕ) → Action
  cancels : Action
  begins_close : (spurious : Bool) → Action
  drains_read drains_write : Action
  polls_read : Received → Action
  polls_write : Sent → Action

unfoldable pub step : Action → World → World
step (reads buf size callback) w = (async_read buf size callback w).0
step (reads_some buf size callback) w = (async_read_some buf size callback w).0
step (writes buf size callback) w = (async_write buf size callback w).0
step (writes_some buf size callback) w = (async_write_some buf size callback w).0
step cancels w = cancel w
step (begins_close spurious) w = (close_begin spurious w).0
step drains_read w = drain_read w
step drains_write w = drain_write w
step (polls_read r) w = do_read r w
step (polls_write r) w = do_write r w

unfoldable pub run : List Action → World → World
run [] w = w
run (a ∷ rest) w = run rest (step a w)
