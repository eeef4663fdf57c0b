-- ===== src/Socket.antt =====
-- `TcpSocket` (include/spinet/core/tcp_socket.h, src/core/tcp_socket.cpp): two queues of tasks, each
-- with the function that is told of its end. A function stands for the section of a method under one
-- lock, so that the methods of several threads are sequences of these.
pub mod Poll
pub mod Schedule
pub mod Reading
mod Tests
pub mod Closed
pub mod Draining
pub mod Closing
pub mod Accounting
pub mod Writing
use spinet.Common.{
  ℕ, zero, suc, ◌≡◌, length, Bool, true, false, Option, none, some, List, [], ◌∷◌, ◌++◌, map, ◌==◌,
  if◌then◌else◌, exchange_weak,
}
use spinet.Memory.{Memory}
use spinet.Result.{Result, ok, system_error}
use spinet.Address.{Address}
use spinet.Handle.{Handle, Effect, notify}
use spinet.Handle
use spinet.Task.{
  ReadTask, WriteTask, Strategy, try_once, until_finished, new_task, Received, Sent, read_exec,
  write_exec, ebadf, eagain,
}

-- A queued task with the number of its callback.
abbrev pub Entry : Type 0
Entry = ReadTask × ℕ

pub record Socket : Type 0 where
  pub handle : Handle
  pub closed : Bool
  pub read_queue : List Entry
  pub write_queue : List Entry
  pub peer : Address

-- The socket, the memory that its buffers lie in, the bytes sent on its connection, and what its
-- methods have done outside, oldest first.
pub record World : Type 0 where
  pub socket : Socket
  pub memory : Memory
  pub wire : List ℕ
  pub effects : List Effect

-- The constructor.
unfoldable pub new_socket : ℕ → Address → Socket
new_socket fd peer = record {
  handle = record { fd = fd; runtime = none };
  closed = false;
  read_queue = [];
  write_queue = [];
  peer = peer;
}

enqueue_read : Strategy → ℕ → ℕ → ℕ → World → World × Bool
enqueue_read strategy buf size callback w =
    if w.socket.closed
    then (w, false)
    else (record w { socket = record s { read_queue = s.read_queue ++ entry ∷ [] } }, true)
  where
    s : Socket
    s = w.socket

    entry : Entry
    entry = (new_task buf size strategy, callback)

enqueue_write : Strategy → ℕ → ℕ → ℕ → World → World × Bool
enqueue_write strategy buf size callback w =
    if w.socket.closed
    then (w, false)
    else (record w { socket = record s { write_queue = s.write_queue ++ entry ∷ [] } }, true)
  where
    s : Socket
    s = w.socket

    entry : Entry
    entry = (new_task buf size strategy, callback)

pub async_read : ℕ → ℕ → ℕ → World → World × Bool
unfolding enqueue_read
async_read = enqueue_read until_finished

unfoldable pub async_read_some : ℕ → ℕ → ℕ → World → World × Bool
unfolding enqueue_read
async_read_some = enqueue_read try_once

pub async_write : ℕ → ℕ → ℕ → World → World × Bool
unfolding enqueue_write
async_write = enqueue_write until_finished

unfoldable pub async_write_some : ℕ → ℕ → ℕ → World → World × Bool
unfolding enqueue_write
async_write_some = enqueue_write try_once

pub cancel : World → World
cancel w = record w { socket = record s { read_queue = []; write_queue = [] } }
  where
    s : Socket
    s = w.socket

pub is_closed : World → Bool
is_closed w = w.socket.closed

-- What is told to the callback of a task that `close` takes from a queue.
abbrev pub refusal : Entry → Effect
refusal (task, callback) = notify callback (system_error ebadf) task.pos

-- The start of `close`: the exchange and, where it succeeds, Handle::close.
pub close_begin : (spurious : Bool) → World → World × Bool
close_begin spurious w =
    let (closed, won) = exchange_weak spurious w.socket.closed in
    if won
    then (
      record w {
        socket = record s { closed = closed };
        effects = w.effects ++ Handle.close s.handle;
      },
      true,
    )
    else (w, false)
  where
    s : Socket
    s = w.socket

-- One round of the loops of `close`, on the queue that it finds.
refuse_read : World → List Entry → World
refuse_read w [] = w
refuse_read w (entry ∷ rest) = record w {
  socket = record s { read_queue = rest };
  effects = w.effects ++ refusal entry ∷ [];
}
  where
    s : Socket
    s = w.socket

refuse_write : World → List Entry → World
refuse_write w [] = w
refuse_write w (entry ∷ rest) = record w {
  socket = record s { write_queue = rest };
  effects = w.effects ++ refusal entry ∷ [];
}
  where
    s : Socket
    s = w.socket

-- A round of the first loop of `close`, and of the second.
pub drain_read : World → World
unfolding refuse_read
drain_read w = refuse_read w w.socket.read_queue

pub drain_write : World → World
unfolding refuse_write
drain_write w = refuse_write w w.socket.write_queue

-- A loop of `close` runs until its queue is empty: once for each entry, as nothing is added to the
-- queues of a closed socket.
drain_reads : ℕ → World → World
drain_reads zero w = w
drain_reads (suc n) w = drain_reads n (drain_read w)

drain_writes : ℕ → World → World
drain_writes zero w = w
drain_writes (suc n) w = drain_writes n (drain_write w)

drain : World → World
unfolding drain_reads drain_writes
drain w =
    let w' = drain_reads (length w.socket.read_queue) w in
    drain_writes (length w'.socket.write_queue) w'

-- `close`, where no other thread and no callback acts on the socket meanwhile.
pub close : (spurious : Bool) → World → World
unfolding close_begin drain drain_read drain_write
close spurious w = let (w', won) = close_begin spurious w in if won then drain w' else w'
