-- ===== src/Echo/Wire/Simulation.antt =====
-- What one poll does to an echoing connection on a `TcpSocket`.
use spinet.Common.{
  ℕ, zero, suc, ◌≡◌, refl, sym, ap, subst, ◌∙◌, Bool, true, false, List, [], ◌∷◌, ◌++◌, take,
  if◌then◌else◌,
}
use mathlib.Core.List.{append-nil}
use spinet.Memory.{load}
use spinet.Result.{system_error, negated}
use spinet.Handle.{Effect, notify}
use spinet.Task.{try_once, new_task}
use spinet.Socket.{World, Entry, async_read_some, async_write_some}
use spinet.Socket
use spinet.Socket.Poll.{do_read, do_write}
use spinet.Socket.Closing.{close_lem, shut}
use spinet.Echo.{Request, Outcome, fails, reads, writes, Connection, overwrite, accepted, resume}
use spinet.Echo
use spinet.Echo.Wire.{
  Poll, polls_read, polls_write, since, reading, writing, read_callback, write_callback, react,
  poll, turn, outcome, follow,
}

since-append : (before more : List Effect) → since before (before ++ more) ≡ more
unfolding since
since-append [] more = refl
since-append (x ∷ before) more = since-append before more

-- A world with the socket open or closed, and these queues.
abbrev pub queued : World → Bool → List Entry → List Entry → World
queued w b q p = record w { socket = changed }
  where
    open w use {socket}

    changed : Socket.Socket
    changed = record socket { closed = b; read_queue = q; write_queue = p }

module _ (buf : ℕ) where
  abbrev pub read_queued : World → (len : ℕ) → World
  read_queued w len = queued w false ((new_task buf len try_once, reading) ∷ []) []

  abbrev pub write_queued : World → (len : ℕ) → World
  write_queued w len = queued w false [] ((new_task buf len try_once, writing) ∷ [])

  -- The socket of a connection with this request: the operation is alone in its queue, the bytes sent are on
  -- the wire, and those to be sent lie at the start of the buffer.
  abbrev pub Represents : Connection → World → Request → Type 0
  Represents c w (Echo.async_read_some len) = (w ≡ read_queued w len) × (w.wire ≡ c.sent)
  Represents c w (Echo.async_write_some len) =
      (w ≡ write_queued w len) × (w.wire ≡ c.sent) × (load w.memory buf len ≡ take len c.buffer)
  Represents c w Echo.close = (w.socket.closed ≡ true) × (w.wire ≡ c.sent)

  pub turn-react :
      (p : Poll) (w w' : World) (effects : List Effect)
      → poll buf p w ≡ w'
      → w'.effects ≡ w.effects ++ effects
      → turn buf p w ≡ react buf effects w'
  unfolding turn
  turn-react p w w' effects e more =
      ap (λ (u : World). react buf (since w.effects u.effects) u) e
      ∙ ap (λ es. react buf es w') (ap (since w.effects) more ∙ since-append w.effects effects)

  -- A poll that does nothing calls nothing.
  turn-quiet : (p : Poll) (w : World) → poll buf p w ≡ w → turn buf p w ≡ w
  unfolding react
  turn-quiet p w e = turn-react p w w [] e (sym (append-nil w.effects))

  pub poll-closed : (p : Poll) (w : World) → w.socket.closed ≡ true → poll buf p w ≡ w
  unfolding poll do_read do_write
  poll-closed (polls_read r) w h = rw h refl
  poll-closed (polls_write r) w h = rw h refl

  -- After a poll that ends the operation under way with an error, the callback closes the socket.
  pub failed-Represents :
      (p : Poll) (c : Connection) (w : World) (w' : World) (callback error size : ℕ)
      → poll buf p w ≡ w'
      → w'.effects ≡ w.effects ++ notify callback (system_error error) size ∷ []
      → w'.socket.closed ≡ false
      → w'.wire ≡ c.sent
      → Represents c (turn buf p w) Echo.close
  unfolding react read_callback write_callback negated
  failed-Represents p c w w' zero error size e more up wire =
      subst (λ u. Represents c u Echo.close)
        (sym (
          turn-react p w w' (notify zero (system_error error) size ∷ []) e more
          ∙ (close_lem false w' ∙ ap (λ (b : Bool). if b then w' else shut w') up)))
        (refl, wire)
  failed-Represents p c w w' (suc n) error size e more up wire =
      subst (λ u. Represents c u Echo.close)
        (sym (
          turn-react p w w' (notify (suc n) (system_error error) size ∷ []) e more
          ∙ (close_lem false w' ∙ ap (λ (b : Bool). if b then w' else shut w') up)))
        (refl, wire)

  -- The connection and the socket behind a poll.
  abbrev pub Stepped : Poll → Connection → World → Request → Type 0
  Stepped p c w r =
      Represents (follow (outcome p r) c r) (turn buf p w) (follow (outcome p r) c r).request

  pub quiet-Represents :
      (p : Poll) (c : Connection) (w : World)
      → poll buf p w ≡ w
      → Represents c w c.request
      → Represents c (turn buf p w) c.request
  quiet-Represents p c w e h = subst (λ u. Represents c u c.request) (sym (turn-quiet p w e)) h
