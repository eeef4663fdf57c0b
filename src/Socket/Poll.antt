-- ===== src/Socket/Poll.antt =====
-- `TcpSocket::do_read` and `TcpSocket::do_write` (src/core/tcp_socket.cpp), which the runtime calls
-- over and over: one attempt on the task at the front of a queue.
pub mod Cases
use spinet.Common.{
  ℕ, Bool, true, false, Option, none, some, List, [], ◌∷◌, ◌++◌, ◌==◌, if◌then◌else◌,
}
use spinet.Memory.{Memory}
use spinet.Result.{ok, system_error}
use spinet.Handle.{Effect, notify}
use spinet.Task.{ReadTask, WriteTask, Received, Sent, read_exec, write_exec, eagain}
use spinet.Socket.{Socket, World, Entry}

-- What is told to the callback after an attempt, if the task has ended: that it finished, or an error
-- other than EAGAIN.
pub report : ReadTask → Option ℕ → ℕ → Option Effect
report task ec callback = if task.finished then some (notify callback ok task.pos) else elim ec [
  | none ↦ none
  | some e ↦ if e == eagain then none else some (notify callback (system_error e) task.pos)
]

-- The end of `do_read`, with what the attempt gave. The attempt was made on a copy of the task at the
-- front: where the queue is not popped, it stays as it was.
settle_read : World → List Entry → ℕ → ReadTask × Option ℕ × Memory → World
unfolding report
settle_read w rest callback (task, ec, memory) = elim (report task ec callback) [
  | none ↦ record w { memory = memory }
  | some told ↦ record w {
    socket = record s { read_queue = rest };
    memory = memory;
    effects = w.effects ++ told ∷ [];
  }
]
  where
    s : Socket
    s = w.socket

poll_read : Received → World → List Entry → World
unfolding settle_read
poll_read r w [] = w
poll_read r w ((task, callback) ∷ rest) = settle_read w rest callback (read_exec task r w.memory)

unfoldable pub do_read : Received → World → World
unfolding poll_read
do_read r w = if w.socket.closed then w else poll_read r w w.socket.read_queue

settle_write : World → List Entry → ℕ → WriteTask × Option ℕ × List ℕ → World
unfolding report
settle_write w rest callback (task, ec, bytes) = elim (report task ec callback) [
  | none ↦ record w { wire = w.wire ++ bytes }
  | some told ↦ record w {
    socket = record s { write_queue = rest };
    wire = w.wire ++ bytes;
    effects = w.effects ++ told ∷ [];
  }
]
  where
    s : Socket
    s = w.socket

poll_write : Sent → World → List Entry → World
unfolding settle_write
poll_write r w [] = w
poll_write r w ((task, callback) ∷ rest) = settle_write w rest callback (write_exec task r w.memory)

unfoldable pub do_write : Sent → World → World
unfolding poll_write
do_write r w = if w.socket.closed then w else poll_write r w w.socket.write_queue
