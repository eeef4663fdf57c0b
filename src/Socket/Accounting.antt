-- ===== src/Socket/Accounting.antt =====
-- How often each callback of a `TcpSocket` (src/core/tcp_socket.cpp) is invoked, whatever its threads
-- do.
use spinet.Common.{
  ℕ, ◌+◌, ◌≡◌, refl, ap, Bool, true, false, List, [], ◌∷◌, ◌++◌, ◌==◌, if◌then◌else◌, arith,
}
use spinet.Memory.{Memory}
use spinet.Handle.{Handle, Effect, deregister, close_fd, watch, notify}
use spinet.Handle
use spinet.Task.{try_once, until_finished, new_task, ReadTask, Received, Sent}
use spinet.Socket.{
  World, Entry, refuse_read, refuse_write, enqueue_read, enqueue_write, async_read, async_read_some,
  async_write, async_write_some, cancel, close_begin, drain_read, drain_write,
}
use spinet.Socket.Poll.{do_read, do_write}
use spinet.Result.{Result}
use spinet.Socket.Poll.Cases.{read_ended, write_ended, do_read_cases, do_write_cases}
use spinet.Socket.Schedule.{
  Action, reads, reads_some, writes, writes_some, cancels, begins_close, drains_read, drains_write,
  polls_read, polls_write, step, run,
}

-- One for the callback `c`, and nothing for another.
abbrev pub one_if : ℕ → ℕ → ℕ
one_if c d = if c == d then 1 else 0

-- How often a callback was invoked.
abbrev pub told : ℕ → List Effect → ℕ
told c [] = 0
told c (deregister r ∷ es) = told c es
told c (close_fd fd ∷ es) = told c es
told c (watch ctl fd p events ∷ es) = told c es
told c (notify d result n ∷ es) = one_if c d + told c es

-- How many queued operations a callback waits for.
abbrev pub waiting : ℕ → List Entry → ℕ
waiting c [] = 0
waiting c ((task, d) ∷ rest) = one_if c d + waiting c rest

abbrev pub pending : ℕ → World → ℕ
pending c w = waiting c w.socket.read_queue + waiting c w.socket.write_queue

abbrev answer : ℕ → ℕ → World × Bool → ℕ
answer c d (w, true) = one_if c d
answer c d (w, false) = 0

-- How many operations with a callback an action submits: one, if it is a call that returns `true`.
abbrev pub submitted : ℕ → Action → World → ℕ
submitted c (reads buf size d) w = answer c d (async_read buf size d w)
submitted c (reads_some buf size d) w = answer c d (async_read_some buf size d w)
submitted c (writes buf size d) w = answer c d (async_write buf size d w)
submitted c (writes_some buf size d) w = answer c d (async_write_some buf size d w)
submitted c _ w = 0

-- How many operations with a callback an action drops: all that are queued, if it is a `cancel`.
abbrev pub dropped : ℕ → Action → World → ℕ
dropped c cancels w = pending c w
dropped c _ w = 0

abbrev pub all_submitted : ℕ → List Action → World → ℕ
all_submitted c [] w = 0
all_submitted c (a ∷ rest) w = submitted c a w + all_submitted c rest (step a w)

abbrev pub all_dropped : ℕ → List Action → World → ℕ
all_dropped c [] w = 0
all_dropped c (a ∷ rest) w = dropped c a w + all_dropped c rest (step a w)

told-append : (c : ℕ) (xs ys : List Effect) → told c (xs ++ ys) ≡ told c xs + told c ys
told-append c [] ys = omega arith
told-append c (deregister r ∷ es) ys = told-append c es ys
told-append c (close_fd fd ∷ es) ys = told-append c es ys
told-append c (watch ctl fd p events ∷ es) ys = told-append c es ys
told-append c (notify d result n ∷ es) ys = omega (arith, told-append c es ys)

waiting-append : (c : ℕ) (xs ys : List Entry) → waiting c (xs ++ ys) ≡ waiting c xs + waiting c ys
waiting-append c [] ys = omega arith
waiting-append c ((task, d) ∷ es) ys = omega (arith, waiting-append c es ys)

told-close : (c : ℕ) (h : Handle) → told c (Handle.close h) ≡ 0
unfolding Handle.close
told-close c h = ground arith

-- What an action leaves of the sum for one callback.
abbrev Accounts : ℕ → Action → World → Type 0
Accounts c a w =
    told c (step a w).effects + pending c (step a w) + dropped c a w
    ≡ told c w.effects + pending c w + submitted c a w

read-answer :
    (c : ℕ) (strategy : _) (buf size d : ℕ) (w : World)
    → let r = enqueue_read strategy buf size d w in
      told c r.0.effects + pending c r.0 ≡ told c w.effects + pending c w + answer c d r
unfolding enqueue_read
read-answer c strategy buf size d w =
    ground (arith, waiting-append c w.socket.read_queue ((new_task buf size strategy, d) ∷ []))

write-answer :
    (c : ℕ) (strategy : _) (buf size d : ℕ) (w : World)
    → let r = enqueue_write strategy buf size d w in
      told c r.0.effects + pending c r.0 ≡ told c w.effects + pending c w + answer c d r
unfolding enqueue_write
write-answer c strategy buf size d w =
    ground (arith, waiting-append c w.socket.write_queue ((new_task buf size strategy, d) ∷ []))

-- What a step that neither submits nor drops anything leaves of the sum.
abbrev Balanced : ℕ → World → World → Type 0
Balanced c w v = told c v.effects + pending c v ≡ told c w.effects + pending c w

close_begin-Balanced :
    (c : ℕ) (spurious : Bool) (w : World) → Balanced c w (close_begin spurious w).0
unfolding close_begin
close_begin-Balanced c true w = refl
close_begin-Balanced c false w =
    ground
      (arith, told-append c w.effects (Handle.close w.socket.handle), told-close c w.socket.handle)

-- Of an operation taken from the front of the reads, whose callback is invoked.
read_ended-Balanced :
    (c : ℕ) (w : World) (task : ReadTask) (d : ℕ) (rest : List Entry) (result : Result) (n : ℕ)
    (m : Memory)
    → w.socket.read_queue ≡ (task, d) ∷ rest
    → Balanced c w (read_ended w rest m (notify d result n))
read_ended-Balanced c w task d rest result n m q =
    omega (arith, told-append c w.effects (notify d result n ∷ []), ap (waiting c) q)

write_ended-Balanced :
    (c : ℕ) (w : World) (task : ReadTask) (d : ℕ) (rest : List Entry) (result : Result) (n : ℕ)
    (wire : List ℕ)
    → w.socket.write_queue ≡ (task, d) ∷ rest
    → Balanced c w (write_ended w rest wire (notify d result n))
write_ended-Balanced c w task d rest result n wire q =
    omega (arith, told-append c w.effects (notify d result n ∷ []), ap (waiting c) q)

drain_read-Balanced : (c : ℕ) (w : World) → Balanced c w (drain_read w)
unfolding drain_read
drain_read-Balanced c w = go w.socket.read_queue refl
  where
    go : (q : List Entry) → w.socket.read_queue ≡ q → Balanced c w (refuse_read w q)
    go [] e = refl
    go ((task, d) ∷ rest) e = read_ended-Balanced c w task d rest _ _ w.memory e

drain_write-Balanced : (c : ℕ) (w : World) → Balanced c w (drain_write w)
unfolding drain_write
drain_write-Balanced c w = go w.socket.write_queue refl
  where
    go : (q : List Entry) → w.socket.write_queue ≡ q → Balanced c w (refuse_write w q)
    go [] e = refl
    go ((task, d) ∷ rest) e = write_ended-Balanced c w task d rest _ _ w.wire e

do_read-Balanced : (c : ℕ) (r : Received) (w : World) → Balanced c w (do_read r w)
do_read-Balanced c r w =
    do_read_cases (Balanced c w) w r (λ m. refl)
      λ task d rest result n m live q. read_ended-Balanced c w task d rest result n m q

do_write-Balanced : (c : ℕ) (r : Sent) (w : World) → Balanced c w (do_write r w)
do_write-Balanced c r w =
    do_write_cases (Balanced c w) w r (λ bytes. refl)
      λ task d rest result n bytes live q. write_ended-Balanced c w task d rest result n bytes q

step-Accounts : (c : ℕ) (a : Action) (w : World) → Accounts c a w
unfolding step cancel async_read async_read_some async_write async_write_some
step-Accounts c (reads buf size d) w = omega (arith, read-answer c until_finished buf size d w)
step-Accounts c (reads_some buf size d) w = omega (arith, read-answer c try_once buf size d w)
step-Accounts c (writes buf size d) w = omega (arith, write-answer c until_finished buf size d w)
step-Accounts c (writes_some buf size d) w = omega (arith, write-answer c try_once buf size d w)
step-Accounts c cancels w = omega arith
step-Accounts c (begins_close spurious) w = omega (arith, close_begin-Balanced c spurious w)
step-Accounts c drains_read w = omega (arith, drain_read-Balanced c w)
step-Accounts c drains_write w = omega (arith, drain_write-Balanced c w)
step-Accounts c (polls_read r) w = omega (arith, do_read-Balanced c r w)
step-Accounts c (polls_write r) w = omega (arith, do_write-Balanced c r w)

-- Whatever the threads do, an operation that was submitted has its callback invoked once, or still
-- waits in a queue, or was dropped by a `cancel`, and exactly one of these: for each callback, the
-- invocations, the operations that wait and those dropped add up to the operations submitted, beside
-- the invocations and the waiting operations of the start.
pub run_accounts :
    (c : ℕ) (acts : List Action) (w : World)
    → told c (run acts w).effects + pending c (run acts w) + all_dropped c acts w
      ≡ told c w.effects + pending c w + all_submitted c acts w
unfolding run
run_accounts c [] w = omega arith
run_accounts c (a ∷ acts) w = omega (arith, step-Accounts c a w, run_accounts c acts (step a w))
