-- ===== src/Socket/Tests.antt =====
-- `TcpSocket` (src/core/tcp_socket.cpp) on concrete queues and schedules.
use spinet.Common.{true, ◌+◌, ◌≡◌, refl, false, some, List, [], ◌∷◌, map, codes, arith}
use spinet.Memory.{store, load}
use spinet.Result.{ok, system_error}
use spinet.Address.{Address, ipv4}
use spinet.Task.{until_finished, new_task, bytes, count, send_failed}
use spinet.Socket.{World, close}
use spinet.Socket.Poll.{do_read, do_write}
use spinet.Socket.Schedule.{
  Action, reads, writes_some, cancels, begins_close, drains_read, drains_write, polls_read,
  polls_write, run,
}
use spinet.Socket.Reading
use spinet.Socket.Reading.{do_read-verdict, overwritten, partial_reads_lost}
use spinet.Socket.Writing
use spinet.Socket.Writing.{do_write-verdict, prefixes, partial_writes_repeat}
use spinet.Socket.Accounting.{told, pending, all_submitted, all_dropped, run_accounts}
use spinet.Socket.Closing.{shut, close_lem}
use spinet.Socket.Draining.{all_reads_drained, all_writes_drained, run-IsShut_eventually}
use spinet.Socket.Closed.{IsShut, closings, to_close, run_closes_once}

abbrev peer : Address
peer = record { kind = ipv4; address = codes "10.0.0.1"; port = 80 }

-- A read of four bytes at 100 and a write of three bytes at 200 wait.
abbrev busy : World
busy = record {
  socket = record {
    handle = record { fd = 5; runtime = some 0 };
    closed = false;
    read_queue = (new_task 100 4 until_finished, 1) ∷ [];
    write_queue = (new_task 200 3 until_finished, 2) ∷ [];
    peer = peer;
  };
  memory = λ a. a;
  wire = [];
  effects = [];
}

do_read-verdict_example :
    do_read (bytes (7 ∷ 8 ∷ 9 ∷ 10 ∷ [])) busy
    ≡ Reading.concluded busy [] 1 (store busy.memory 100 (7 ∷ 8 ∷ 9 ∷ 10 ∷ [])) (some (ok, 4))
do_read-verdict_example =
    do_read-verdict (bytes (7 ∷ 8 ∷ 9 ∷ 10 ∷ [])) busy until_finished 100 4 1 [] refl refl

partial_reads_lost_example :
    run (map polls_read (bytes (7 ∷ 8 ∷ []) ∷ bytes (9 ∷ 10 ∷ []) ∷ [])) busy ≡ record busy {
      memory = overwritten busy.memory 100 (bytes (7 ∷ 8 ∷ []) ∷ bytes (9 ∷ 10 ∷ []) ∷ []);
    }
partial_reads_lost_example =
    partial_reads_lost (bytes (7 ∷ 8 ∷ []) ∷ bytes (9 ∷ 10 ∷ []) ∷ []) busy 100 4 1 [] refl refl
      (omega arith)

do_write-verdict_example :
    do_write (send_failed 32) busy ≡ Writing.concluded busy [] 2 [] (some (system_error 32, 0))
unfolding load
do_write-verdict_example =
    do_write-verdict (send_failed 32) busy until_finished 200 3 2 [] refl refl

-- The three bytes 200, 201 and 202 are sent as 200, 201, 200, 201.
partial_writes_repeat_example :
    run (map polls_write (count 2 ∷ count 2 ∷ [])) busy
    ≡ record busy { wire = prefixes busy.memory 200 (count 2 ∷ count 2 ∷ []) }
partial_writes_repeat_example =
    partial_writes_repeat (count 2 ∷ count 2 ∷ []) busy 200 3 2 [] refl refl (omega arith)

repeated : prefixes (λ a. a) 200 (count 2 ∷ count 2 ∷ []) ≡ 200 ∷ 201 ∷ 200 ∷ 201 ∷ []
unfolding load
repeated = refl

abbrev history : List Action
history =
    writes_some 300 2 2
    ∷ polls_read (bytes (7 ∷ 8 ∷ 9 ∷ 10 ∷ []))
    ∷ begins_close false
    ∷ reads 400 1 2
    ∷ begins_close false
    ∷ drains_write
    ∷ cancels
    ∷ []

run_accounts_example :
    told 2 (run history busy).effects + pending 2 (run history busy) + all_dropped 2 history busy
    ≡ 0 + 1 + all_submitted 2 history busy
run_accounts_example = run_accounts 2 history busy

close_lem_example : close false busy ≡ shut busy
close_lem_example = close_lem false busy

run_closes_once_example : closings (run history busy).effects + to_close (run history busy) ≡ 1
run_closes_once_example = run_closes_once history busy

-- `close` has begun; a thread still submits a read between the rounds of its loops.
abbrev closing : World
closing = record busy { socket = record busy.socket { closed = true } }

abbrev rounds : List Action
rounds = drains_read ∷ reads 300 1 3 ∷ drains_write ∷ []

run-IsShut_eventually_example : IsShut (run rounds closing)
unfolding all_reads_drained all_writes_drained
run-IsShut_eventually_example =
    run-IsShut_eventually rounds closing refl (omega arith) (omega arith)
