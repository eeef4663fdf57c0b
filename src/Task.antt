-- ===== src/Task.antt =====
-- `TcpReadTask` and `TcpWriteTask` of src/core/tcp_socket.cpp: one attempt to receive into a buffer or
-- to send from one. What the kernel does in an attempt is an argument.
use spinet.Common.{
  ℕ, zero, suc, ◌+◌, ◌≤◌, Bool, true, false, Option, none, some, List, [], ◌∷◌, length, ◌==◌,
  if◌then◌else◌,
}
use spinet.Memory.{Memory, store, load}

-- TaskStrategy::TRY and TaskStrategy::UNTIL_FINISHED
pub data Strategy : Type 0 where
  try_once until_finished : Strategy

-- Linux's numbers.
abbrev pub ebadf : ℕ
ebadf = 9

abbrev pub eagain : ℕ
eagain = 11

-- The fields of `TcpReadTask`.
pub record ReadTask : Type 0 where
  pub finished : Bool
  pub buf : ℕ
  pub size : ℕ
  pub pos : ℕ
  pub strategy : Strategy

-- `TcpWriteTask` has the same fields.
abbrev pub WriteTask : Type 0
WriteTask = ReadTask

abbrev pub new_task : ℕ → ℕ → Strategy → ReadTask
new_task buf size strategy = record {
  finished = false;
  buf = buf;
  size = size;
  pos = 0;
  strategy = strategy;
}

-- What `recv` did: the bytes that it took from the connection, none at its end, or -1 with `errno`.
pub data Received : Type 0 where
  bytes : List ℕ → Received
  recv_failed : ℕ → Received

-- What `send` did: how many bytes it accepted, or -1 with `errno`.
pub data Sent : Type 0 where
  count : ℕ → Sent
  send_failed : ℕ → Sent

-- `recv` and `send` handle at most as many bytes as they are asked to.
abbrev pub RecvFits : ℕ → Received → Type 0
RecvFits room (bytes bs) = length bs ≤ room
RecvFits room (recv_failed e) = Unit {0}

abbrev pub SendFits : ℕ → Sent → Type 0
SendFits room (count n) = n ≤ room
SendFits room (send_failed e) = Unit {0}

-- The end of both `exec` methods, after a transfer of some bytes.
finish : Strategy → Bool → ReadTask → Bool
finish try_once finished t = true
finish until_finished finished t = if t.pos == t.size then true else finished

advance : ReadTask → ℕ → ReadTask
unfolding finish
advance t n = record t { pos = pos; finished = finish t.strategy t.finished moved }
  where
    pos : ℕ
    pos = t.pos + n

    moved : ReadTask
    moved = record t { pos = pos }

received : ReadTask → Received → Memory → ReadTask × Option ℕ × Memory
received t (recv_failed errno) m = (t, some errno, m)
received t (bytes []) m = (t, some ebadf, m)
received t (bytes (b ∷ bs)) m =
    (advance t (length (b ∷ bs)), none, store m (t.buf + t.pos) (b ∷ bs))

-- TcpReadTask::exec: the task after it, the error if there is one, and the memory.
unfoldable pub read_exec : ReadTask → Received → Memory → ReadTask × Option ℕ × Memory
unfolding received advance
read_exec t r m = if t.finished then (t, none, m) else received t r m

sent : WriteTask → Sent → Memory → WriteTask × Option ℕ × List ℕ
sent t (send_failed errno) m = (t, some errno, [])
sent t (count zero) m = (t, some ebadf, [])
sent t (count (suc n)) m = (advance t (suc n), none, load m (t.buf + t.pos) (suc n))

-- TcpWriteTask::exec: the task after it, the error if there is one, and the bytes sent.
unfoldable pub write_exec : WriteTask → Sent → Memory → WriteTask × Option ℕ × List ℕ
unfolding sent advance
write_exec t r m = if t.finished then (t, none, []) else sent t r m
