-- ===== src/Socket/Closing.antt =====
-- `TcpSocket::close` (src/core/tcp_socket.cpp): what it tells the queued operations, and what a
-- closed socket still does.
use spinet.Common.{
  ◌≡◌, refl, sym, ap, ◌∙◌, Bool, true, false, List, [], ◌∷◌, ◌++◌, map, length, if◌then◌else◌,
}
use mathlib.Core.List.{append-nil, append_assoc}
use spinet.Handle.{Handle, Effect, deregister, close_fd, notify}
use spinet.Handle
use spinet.Socket.{
  Socket, World, Entry, refusal, drain_reads, drain_writes, drain_read, drain_write, close_begin,
  drain, close,
}

-- A world with other queues and more effects.
abbrev pub with_queues : World → List Entry → List Entry → List Effect → World
with_queues w q p more = record w { socket = emptied; effects = w.effects ++ more }
  where
    open w use {socket}

    emptied : Socket
    emptied = record socket { read_queue = q; write_queue = p }

drain_read-front :
    (e : Entry) (q p : List Entry) (w : World) (es : List Effect)
    → drain_read (with_queues w (e ∷ q) p es) ≡ with_queues w q p (es ++ refusal e ∷ [])
unfolding drain_read
drain_read-front e q p w es =
    ap (λ (x : List Effect). record (with_queues w q p es) { effects = x })
      (append_assoc w.effects es (refusal e ∷ []))

drain_write-front :
    (q : List Entry) (e : Entry) (p : List Entry) (w : World) (es : List Effect)
    → drain_write (with_queues w q (e ∷ p) es) ≡ with_queues w q p (es ++ refusal e ∷ [])
unfolding drain_write
drain_write-front q e p w es =
    ap (λ (x : List Effect). record (with_queues w q p es) { effects = x })
      (append_assoc w.effects es (refusal e ∷ []))

drain_reads-all :
    (q p : List Entry) (w : World) (es : List Effect)
    → drain_reads (length q) (with_queues w q p es) ≡ with_queues w [] p (es ++ map refusal q)
unfolding drain_reads
drain_reads-all [] p w es = ap (with_queues w [] p) (sym (append-nil es))
drain_reads-all (e ∷ q) p w es =
    ap (drain_reads (length q)) (drain_read-front e q p w es)
    ∙ drain_reads-all q p w (es ++ refusal e ∷ [])
    ∙ ap (with_queues w [] p) (append_assoc es (refusal e ∷ []) (map refusal q))

drain_writes-all :
    (q p : List Entry) (w : World) (es : List Effect)
    → drain_writes (length p) (with_queues w q p es) ≡ with_queues w q [] (es ++ map refusal p)
unfolding drain_writes
drain_writes-all q [] w es = ap (with_queues w q []) (sym (append-nil es))
drain_writes-all q (e ∷ p) w es =
    ap (drain_writes (length p)) (drain_write-front q e p w es)
    ∙ drain_writes-all q p w (es ++ refusal e ∷ [])
    ∙ ap (with_queues w q []) (append_assoc es (refusal e ∷ []) (map refusal p))

drain-all :
    (q p : List Entry) (w : World) (es : List Effect)
    → drain (with_queues w q p es) ≡ with_queues w [] [] (es ++ (map refusal q ++ map refusal p))
unfolding drain
drain-all q p w es =
    ap (λ (u : World). drain_writes (length u.socket.write_queue) u) (drain_reads-all q p w es)
    ∙ drain_writes-all [] p w (es ++ map refusal q)
    ∙ ap (with_queues w [] []) (append_assoc es (map refusal q) (map refusal p))

-- The world after `close` has run to its end on an open socket.
abbrev pub shut : World → World
shut w = record w {
  socket = closed_socket;
  effects =
      w.effects
      ++ (Handle.close w.socket.handle
          ++ (map refusal w.socket.read_queue ++ map refusal w.socket.write_queue));
}
  where
    open w use {socket}

    closed_socket : Socket
    closed_socket = record socket { closed = true; read_queue = []; write_queue = [] }

-- `close` on an open socket, where the exchange does not fail spuriously and nothing interferes:
-- Handle::close is called once, then each queued operation is told EBADF once with the bytes that
-- it has so far, reads before writes and each queue in its order, and the queues are empty. On a closed
-- socket, and where the exchange fails, `close` does nothing.
pub close_lem :
    (spurious : Bool) (w : World)
    → close spurious w ≡ (if w.socket.closed then w else if spurious then w else shut w)
unfolding close close_begin
close_lem spurious w = go spurious w.socket.closed refl
  where
    marked : World
    marked = record w { socket = record (w.socket) { closed = true } }

    go :
        (spurious closed : Bool)
        → w.socket.closed ≡ closed
        → close spurious w ≡ (if closed then w else if spurious then w else shut w)
    go true true e = refl
    go true false e = refl
    go false true e = simp (e, close, close_begin)
    go false false e =
        simp (e, close, close_begin)
          (drain-all w.socket.read_queue w.socket.write_queue marked (Handle.close w.socket.handle))
