-- ===== src/Socket/Writing.antt =====
-- What one `TcpSocket::do_write` (src/core/tcp_socket.cpp) does to the operation at the front of the
-- queue, and what a series of attempts that each send a part of the bytes puts on the connection.
use spinet.Common.{
  ℕ, zero, suc, ◌<◌, ◌≡◌, sym, ap, ◌∙◌, false, Option, none, some, List, [], ◌∷◌, ◌++◌, map, All,
  ◌==◌, if◌then◌else◌, arith,
}
use mathlib.Core.List.{append-nil, append_assoc}
use spinet.Memory.{Memory, load}
use spinet.Result.{Result, ok, system_error}
use spinet.Handle.{notify}
use spinet.Task.{
  Strategy, try_once, until_finished, new_task, Sent, count, send_failed, write_exec, ebadf, eagain,
}
use spinet.Socket.{Socket, World, Entry}
use spinet.Socket.Poll.{do_write}
use spinet.Socket.Schedule.{polls_write, run, step}

-- The result and the size that an attempt earns an operation on `size` bytes, if it ends it.
abbrev pub verdict : Strategy → ℕ → Sent → Option (Result × ℕ)
verdict strategy size (send_failed e) = if e == eagain then none else some (system_error e, 0)
verdict strategy size (count zero) = some (system_error ebadf, 0)
verdict try_once size (count (suc n)) = some (ok, suc n)
verdict until_finished size (count (suc n)) = if suc n == size then some (ok, size) else none

-- How many bytes an attempt sends.
abbrev pub accepted : Sent → ℕ
accepted (count n) = n
accepted (send_failed e) = 0

abbrev pub concluded : World → List Entry → ℕ → List ℕ → Option (Result × ℕ) → World
concluded w rest callback wire none = record w { wire = wire }
concluded w rest callback wire (some (result, n)) = record w {
  socket = popped;
  wire = wire;
  effects = w.effects ++ notify callback result n ∷ [];
}
  where
    open w use {socket}

    popped : Socket
    popped = record socket { write_queue = rest }

-- `do_write` on an open socket, with an operation at the front of its queue as `async_write` or
-- `async_write_some` put it there: the bytes sent are those at the start of the buffer, and the callback
-- is told of the verdict where there is one, with the operation taken from the queue; otherwise
-- nothing else changes.
pub do_write-verdict :
    (r : Sent) (w : World) (strategy : Strategy) (buf size callback : ℕ) (rest : List Entry)
    → w.socket.closed ≡ false
    → w.socket.write_queue ≡ (new_task buf size strategy, callback) ∷ rest
    → do_write r w
      ≡ concluded w rest callback
          (w.wire ++ load w.memory buf (accepted r))
          (verdict strategy size r)
unfolding do_write write_exec load
do_write-verdict (send_failed e) w strategy buf size callback rest h q = rw (h, q) (ground arith)
do_write-verdict (count zero) w strategy buf size callback rest h q = rw (h, q) (ground arith)
do_write-verdict (count (suc n)) w try_once buf size callback rest h q = rw (h, q) (ground arith)
do_write-verdict (count (suc n)) w until_finished buf size callback rest h q =
    rw (h, q) (ground arith)

-- An attempt that sends some but not all of the bytes, or none for now.
abbrev pub IsPartial : ℕ → Sent → Type 0
IsPartial size (count n) = (0 < n) × (n < size)
IsPartial size (send_failed e) = e ≡ eagain

IsPartial-verdict : (size : ℕ) (r : Sent) → IsPartial size r → verdict until_finished size r ≡ none
IsPartial-verdict size (count zero) h = absurd (omega arith)
IsPartial-verdict size (count (suc n)) h = ground arith
IsPartial-verdict size (send_failed e) h = ground arith

partial_write :
    (r : Sent) (w : World) (buf size callback : ℕ) (rest : List Entry)
    → w.socket.closed ≡ false
    → w.socket.write_queue ≡ (new_task buf size until_finished, callback) ∷ rest
    → IsPartial size r
    → do_write r w ≡ record w { wire = w.wire ++ load w.memory buf (accepted r) }
partial_write r w buf size callback rest h q part =
    do_write-verdict r w until_finished buf size callback rest h q
    ∙ ap (concluded w rest callback _) (IsPartial-verdict size r part)

-- The starts of the buffer that a series of attempts sends, one after the other.
abbrev pub prefixes : Memory → ℕ → List Sent → List ℕ
prefixes m buf [] = []
prefixes m buf (r ∷ rs) = load m buf (accepted r) ++ prefixes m buf rs

-- An `async_write` that the kernel accepts in parts sends the start of its buffer again each time: after
-- any number of attempts that each send fewer bytes than it has, the connection carries that many
-- beginnings of the buffer, the operation stands in the queue as at the start, and no callback was called.
pub partial_writes_repeat :
    (rs : List Sent) (w : World) (buf size callback : ℕ) (rest : List Entry)
    → w.socket.closed ≡ false
    → w.socket.write_queue ≡ (new_task buf size until_finished, callback) ∷ rest
    → All (IsPartial size) rs
    → run (map polls_write rs) w ≡ record w { wire = w.wire ++ prefixes w.memory buf rs }
unfolding run step
partial_writes_repeat [] w buf size callback rest h q all =
    ap (λ (bs : List ℕ). record w { wire = bs }) (sym (append-nil w.wire))
partial_writes_repeat (r ∷ rs) w buf size callback rest h q all =
    ap (run (map polls_write rs)) (partial_write r w buf size callback rest h q all.0)
    ∙ partial_writes_repeat rs (record w { wire = w.wire ++ load w.memory buf (accepted r) }) buf
        size callback rest h q all.1
    ∙ ap (λ (bs : List ℕ). record w { wire = bs }) (append_assoc w.wire _ _)
