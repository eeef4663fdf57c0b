-- ===== src/Echo/Wire.antt =====
-- An echoing connection (example/echo/async/server.cpp) on the `TcpSocket` of src/core/tcp_socket.cpp: the
-- runtime polls the socket, which calls `read_callback` or `write_callback`, which submits the next operation.
pub mod Simulation
pub mod Polls
pub mod Refinement
pub mod Delivery
mod Tests
use spinet.Common.{
  ℕ, zero, suc, Bool, true, false, Option, none, some, List, [], ◌∷◌, ◌==◌, if◌then◌else◌,
}
use spinet.Memory.{Memory}
use spinet.Result.{Result, negated}
use spinet.Handle.{Effect, deregister, close_fd, watch, notify}
use spinet.Task.{Received, bytes, recv_failed, Sent, count, send_failed, eagain}
use spinet.Socket.{World, async_read_some, async_write_some}
use spinet.Socket
use spinet.Socket.Poll.{do_read, do_write}
use spinet.Echo.{Request, Outcome, fails, reads, writes, Connection, resume}
use spinet.Echo

-- A call of `do_read` or of `do_write`, with what the kernel does in it.
pub data Poll : Type 0 where
  polls_read : Received → Poll
  polls_write : Sent → Poll

-- What an object has done outside since it had done `before`.
pub since : (before now : List Effect) → List Effect
since [] now = now
since (x ∷ before) [] = []
since (x ∷ before) (y ∷ now) = since before now

abbrev pub reading : ℕ
reading = 0

abbrev pub writing : ℕ
writing = 1

-- The callbacks are those of `reading` and of `writing`; their buffer is at the address `buf`.
module _ (buf : ℕ) where
  read_callback : Result → (size : ℕ) → World → World
  unfolding negated
  read_callback result size w =
      if negated result then Socket.close false w else (async_write_some buf size writing w).0

  write_callback : Result → (size : ℕ) → World → World
  unfolding negated
  write_callback result size w =
      if negated result then Socket.close false w else (async_read_some buf size reading w).0

  pub react : List Effect → World → World
  unfolding read_callback write_callback
  react [] w = w
  react (notify zero result size ∷ effects) w = react effects (read_callback result size w)
  react (notify (suc n) result size ∷ effects) w = react effects (write_callback result size w)
  react (deregister runtime ∷ effects) w = react effects w
  react (close_fd fd ∷ effects) w = react effects w
  react (watch ctl fd pointer events ∷ effects) w = react effects w

  -- A poll with the callbacks that it calls.
  pub poll : Poll → World → World
  poll (polls_read r) w = do_read r w
  poll (polls_write r) w = do_write r w

  pub turn : Poll → World → World
  unfolding poll react since
  turn p w = let w' = poll p w in react (since w.effects w'.effects) w'

  pub turns : List Poll → World → World
  unfolding turn
  turns [] w = w
  turns (p ∷ polls) w = turns polls (turn p w)

-- How an operation ends in a poll, if it does.
read_outcome : Received → Option Outcome
read_outcome (bytes []) = some fails
read_outcome (bytes (b ∷ bs)) = some (reads (b ∷ bs))
read_outcome (recv_failed e) = if e == eagain then none else some fails

write_outcome : Sent → Option Outcome
write_outcome (count zero) = some fails
write_outcome (count (suc n)) = some (writes (suc n))
write_outcome (send_failed e) = if e == eagain then none else some fails

pub outcome : Poll → Request → Option Outcome
unfolding read_outcome write_outcome
outcome (polls_read r) (Echo.async_read_some len) = read_outcome r
outcome (polls_write r) (Echo.async_read_some len) = none
outcome (polls_read r) (Echo.async_write_some len) = none
outcome (polls_write r) (Echo.async_write_some len) = write_outcome r
outcome (polls_read r) Echo.close = none
outcome (polls_write r) Echo.close = none

pub follow : Option Outcome → Connection → (request : Request) → Connection
follow none c request = c
follow (some o) c request = resume o c request

-- The connection of the state machine that takes these outcomes, and no step where there is none.
pub follows : List Poll → Connection → Connection
unfolding outcome follow
follows [] c = c
follows (p ∷ polls) c = follows polls (follow (outcome p c.request) c c.request)

-- The connection accepted, on a new socket.
pub served : (buf len : ℕ) → World → World
served buf len w = (async_read_some buf len reading w).0
