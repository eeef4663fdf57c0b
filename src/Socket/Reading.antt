-- ===== src/Socket/Reading.antt =====
-- What one `TcpSocket::do_read` (src/core/tcp_socket.cpp) does to the operation at the front of the
-- queue, and what a series of attempts that each bring a part of the bytes comes to.
use spinet.Common.{
  ℕ, ◌<◌, ◌≡◌, refl, ap, ◌∙◌, false, Option, none, some, List, [], ◌∷◌, ◌++◌, map, length, All,
  ◌==◌, if◌then◌else◌, arith,
}
use spinet.Memory.{Memory, store}
use spinet.Result.{Result, ok, system_error}
use spinet.Handle.{notify}
use spinet.Task.{
  Strategy, try_once, until_finished, new_task, Received, bytes, recv_failed, read_exec, ebadf,
  eagain,
}
use spinet.Socket.{Socket, World, Entry}
use spinet.Socket.Poll.{do_read}
use spinet.Socket.Schedule.{polls_read, run, step}

-- The result and the size that an attempt earns an operation on `size` bytes, if it ends it.
abbrev pub verdict : Strategy → ℕ → Received → Option (Result × ℕ)
verdict strategy size (recv_failed e) = if e == eagain then none else some (system_error e, 0)
verdict strategy size (bytes []) = some (system_error ebadf, 0)
verdict try_once size (bytes (b ∷ bs)) = some (ok, length (b ∷ bs))
verdict until_finished size (bytes (b ∷ bs)) =
    if length (b ∷ bs) == size then some (ok, size) else none

-- The bytes that an attempt brings.
abbrev pub brought : Received → List ℕ
brought (bytes bs) = bs
brought (recv_failed e) = []

abbrev pub concluded : World → List Entry → ℕ → Memory → Option (Result × ℕ) → World
concluded w rest callback memory none = record w { memory = memory }
concluded w rest callback memory (some (result, n)) = record w {
  socket = popped;
  memory = memory;
  effects = w.effects ++ notify callback result n ∷ [];
}
  where
    open w use {socket}

    popped : Socket
    popped = record socket { read_queue = rest }

-- `do_read` on an open socket, with an operation at the front of its queue as `async_read` or
-- `async_read_some` put it there: the bytes that arrive are stored at the start of the buffer, and the
-- callback is told of the verdict where there is one, with the operation taken from the queue;
-- otherwise nothing else changes.
pub do_read-verdict :
    (r : Received) (w : World) (strategy : Strategy) (buf size callback : ℕ) (rest : List Entry)
    → w.socket.closed ≡ false
    → w.socket.read_queue ≡ (new_task buf size strategy, callback) ∷ rest
    → do_read r w
      ≡ concluded w rest callback (store w.memory buf (brought r)) (verdict strategy size r)
unfolding do_read read_exec store
do_read-verdict (recv_failed e) w strategy buf size callback rest h q = rw (h, q) (ground arith)
do_read-verdict (bytes []) w strategy buf size callback rest h q = rw (h, q) (ground arith)
do_read-verdict (bytes (b ∷ bs)) w try_once buf size callback rest h q = rw (h, q) (ground arith)
do_read-verdict (bytes (b ∷ bs)) w until_finished buf size callback rest h q =
    rw (h, q) (ground arith)

-- An attempt that brings some but not all of the bytes, or none for now.
abbrev pub IsPartial : ℕ → Received → Type 0
IsPartial size (bytes bs) = (0 < length bs) × (length bs < size)
IsPartial size (recv_failed e) = e ≡ eagain

IsPartial-verdict :
    (size : ℕ) (r : Received) → IsPartial size r → verdict until_finished size r ≡ none
IsPartial-verdict size (bytes []) h = absurd (omega arith)
IsPartial-verdict size (bytes (b ∷ bs)) h = ground arith
IsPartial-verdict size (recv_failed e) h = ground arith

partial_read :
    (r : Received) (w : World) (buf size callback : ℕ) (rest : List Entry)
    → w.socket.closed ≡ false
    → w.socket.read_queue ≡ (new_task buf size until_finished, callback) ∷ rest
    → IsPartial size r
    → do_read r w ≡ record w { memory = store w.memory buf (brought r) }
partial_read r w buf size callback rest h q part =
    do_read-verdict r w until_finished buf size callback rest h q
    ∙ ap (concluded w rest callback _) (IsPartial-verdict size r part)

-- The memory after a series of attempts that all store at one address.
abbrev pub overwritten : Memory → ℕ → List Received → Memory
overwritten m buf [] = m
overwritten m buf (r ∷ rs) = overwritten (store m buf (brought r)) buf rs

-- An `async_read` whose bytes arrive in parts is never told of them: after any number of attempts that
-- each bring fewer bytes than it waits for, however many they are together, it stands in the queue
-- as at the start, no callback was called, and each part was stored over the one before it at the start
-- of the buffer.
pub partial_reads_lost :
    (rs : List Received) (w : World) (buf size callback : ℕ) (rest : List Entry)
    → w.socket.closed ≡ false
    → w.socket.read_queue ≡ (new_task buf size until_finished, callback) ∷ rest
    → All (IsPartial size) rs
    → run (map polls_read rs) w ≡ record w { memory = overwritten w.memory buf rs }
unfolding run step
partial_reads_lost [] w buf size callback rest h q all = refl
partial_reads_lost (r ∷ rs) w buf size callback rest h q all =
    ap (run (map polls_read rs)) (partial_read r w buf size callback rest h q all.0)
    ∙ partial_reads_lost rs (record w { memory = store w.memory buf (brought r) }) buf size callback
        rest h q all.1
