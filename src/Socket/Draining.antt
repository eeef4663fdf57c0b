-- ===== src/Socket/Draining.antt =====
-- That the two loops of `TcpSocket::close` (src/core/tcp_socket.cpp) come to an end, whatever the threads that
-- share the socket do between their rounds.
use spinet.Common.{
  ℕ, ◌+◌, ◌-◌, ◌≤◌, ◌≡◌, refl, ap, subst, sym, Bool, true, false, List, [], ◌∷◌, length, arith,
}
use spinet.Socket.{
  World, Entry, refuse_read, refuse_write, drain_read, drain_write, async_read, async_read_some,
  async_write, async_write_some, cancel, close_begin,
}
use spinet.Socket.Poll.{do_read, do_write}
use spinet.Socket.Schedule.{
  Action, reads, reads_some, writes, writes_some, cancels, begins_close, drains_read, drains_write,
  polls_read, polls_write, step, run,
}
use spinet.Socket.Closed.{IsShut}

-- The rounds of the first loop of `close` in a schedule, and those of the second.
reads_drained : Action → ℕ
reads_drained drains_read = 1
reads_drained _ = 0

writes_drained : Action → ℕ
writes_drained drains_write = 1
writes_drained _ = 0

unfoldable pub all_reads_drained : List Action → ℕ
unfolding reads_drained
all_reads_drained [] = 0
all_reads_drained (a ∷ acts) = reads_drained a + all_reads_drained acts

unfoldable pub all_writes_drained : List Action → ℕ
unfolding writes_drained
all_writes_drained [] = 0
all_writes_drained (a ∷ acts) = writes_drained a + all_writes_drained acts

-- Of a closed socket: it stays closed, and its queues have lost that many operations at least, if they had them.
record Drained (w v : World) (reads_done writes_done : ℕ) : Type 0 where
  closed : v.socket.closed ≡ true
  fewer_reads : length v.socket.read_queue ≤ length w.socket.read_queue - reads_done
  fewer_writes : length v.socket.write_queue ≤ length w.socket.write_queue - writes_done

same-Drained : (w v : World) → w.socket.closed ≡ true → v ≡ w → Drained w v 0 0
same-Drained w v h e =
    subst (λ u. Drained w u 0 0) (sym e)
      (record { closed = h; fewer_reads = omega arith; fewer_writes = omega arith })

close_begin-closed :
    (spurious : Bool) (w : World) → w.socket.closed ≡ true → (close_begin spurious w).0 ≡ w
unfolding close_begin
close_begin-closed true w h = refl
close_begin-closed false w h = ground arith

refuse_read-Drained :
    (w : World) (q : List Entry)
    → w.socket.closed ≡ true
    → w.socket.read_queue ≡ q
    → Drained w (refuse_read w q) 1 0
unfolding refuse_read
refuse_read-Drained w [] h e = record {
  closed = h;
  fewer_reads = omega (arith, ap length e);
  fewer_writes = omega arith;
}
refuse_read-Drained w (entry ∷ rest) h e = record {
  closed = h;
  fewer_reads = omega (arith, ap length e);
  fewer_writes = omega arith;
}

refuse_write-Drained :
    (w : World) (q : List Entry)
    → w.socket.closed ≡ true
    → w.socket.write_queue ≡ q
    → Drained w (refuse_write w q) 0 1
unfolding refuse_write
refuse_write-Drained w [] h e = record {
  closed = h;
  fewer_reads = omega arith;
  fewer_writes = omega (arith, ap length e);
}
refuse_write-Drained w (entry ∷ rest) h e = record {
  closed = h;
  fewer_reads = omega arith;
  fewer_writes = omega (arith, ap length e);
}

step-Drained :
    (a : Action) (w : World)
    → w.socket.closed ≡ true
    → Drained w (step a w) (reads_drained a) (writes_drained a)
unfolding step cancel async_read async_read_some async_write async_write_some drain_read drain_write
    do_read do_write reads_drained writes_drained
step-Drained (reads buf size d) w h = same-Drained w _ h (ground arith)
step-Drained (reads_some buf size d) w h = same-Drained w _ h (ground arith)
step-Drained (writes buf size d) w h = same-Drained w _ h (ground arith)
step-Drained (writes_some buf size d) w h = same-Drained w _ h (ground arith)
step-Drained cancels w h = record {
  closed = h;
  fewer_reads = omega arith;
  fewer_writes = omega arith;
}
step-Drained (begins_close spurious) w h = same-Drained w _ h (close_begin-closed spurious w h)
step-Drained drains_read w h = refuse_read-Drained w w.socket.read_queue h refl
step-Drained drains_write w h = refuse_write-Drained w w.socket.write_queue h refl
step-Drained (polls_read r) w h = same-Drained w _ h (simp (h, do_read))
step-Drained (polls_write r) w h = same-Drained w _ h (simp (h, do_write))

run-Drained :
    (acts : List Action) (w : World)
    → w.socket.closed ≡ true
    → Drained w (run acts w) (all_reads_drained acts) (all_writes_drained acts)
unfolding run all_reads_drained all_writes_drained
run-Drained [] w h = record { closed = h; fewer_reads = omega arith; fewer_writes = omega arith }
run-Drained (a ∷ acts) w h =
    let one = step-Drained a w h in
    let more = run-Drained acts (step a w) one.closed in
    record {
      closed = more.closed;
      fewer_reads = omega (arith, one.fewer_reads, more.fewer_reads);
      fewer_writes = omega (arith, one.fewer_writes, more.fewer_writes);
    }

length-zero : (q : List Entry) → length q ≤ 0 → q ≡ []
length-zero [] h = refl
length-zero (e ∷ q) h = absurd (omega arith)

-- Once `close` has closed a socket, each of its loops ends: after as many of its rounds as the queue had
-- operations, whoever makes them and whatever the other threads submit, cancel, close and poll between the
-- rounds, the queues are empty.
pub run-IsShut_eventually :
    (acts : List Action) (w : World)
    → w.socket.closed ≡ true
    → length w.socket.read_queue ≤ all_reads_drained acts
    → length w.socket.write_queue ≤ all_writes_drained acts
    → IsShut (run acts w)
run-IsShut_eventually acts w h few_reads few_writes =
    let d = run-Drained acts w h in
    record {
      closed = d.closed;
      no_reads =
          length-zero (run acts w).socket.read_queue (omega (arith, d.fewer_reads, few_reads));
      no_writes =
          length-zero (run acts w).socket.write_queue (omega (arith, d.fewer_writes, few_writes));
    }
