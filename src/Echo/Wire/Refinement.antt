-- ===== src/Echo/Wire/Refinement.antt =====
-- That an echoing connection on a `TcpSocket` is the state machine of its callbacks.
use spinet.Common.{ℕ, ◌≡◌, refl, sym, subst, List, [], ◌∷◌, length}
use spinet.Address.{Address}
use spinet.Memory.{Memory}
use spinet.Task.{SendFits}
use spinet.Socket.{World, Entry, async_read_some, async_write_some}
use spinet.Socket
use spinet.Socket.Poll.{do_read, do_write}
use spinet.Echo.{Request, Outcome, fails, reads, writes, Connection, overwrite, accepted, resume}
use spinet.Echo
use spinet.Echo.Wire.{
  Poll, polls_read, polls_write, poll, turn, turns, outcome, follow, follows, served,
}
use spinet.Echo.Wire.Simulation.{Represents, Stepped, poll-closed, quiet-Represents}
use spinet.Echo.Wire.Polls.{reads-Represents, writes-Represents}

-- A new socket, with nothing sent on it yet.
abbrev pub new_world : (fd : ℕ) → Address → Memory → World
new_world fd peer memory = record {
  socket = Socket.new_socket fd peer;
  memory = memory;
  wire = [];
  effects = [];
}

module _ (buf : ℕ) where
  -- `send` handles at most as many bytes as it is asked to.
  abbrev pub Fits : Poll → Request → Type 0
  Fits (polls_write r) (Echo.async_write_some len) = SendFits len r
  Fits (polls_write r) (Echo.async_read_some len) = Unit
  Fits (polls_write r) Echo.close = Unit
  Fits (polls_read r) request = Unit

  step-Represents :
      (p : Poll) (c : Connection) (w : World) (r : Request)
      → c.request ≡ r
      → Represents buf c w r
      → Fits p r
      → Stepped buf p c w r
  unfolding outcome follow poll do_read do_write
  step-Represents (polls_read r) c w (Echo.async_read_some len) e h fits =
      subst (λ u. Stepped buf (polls_read r) c u (Echo.async_read_some len)) (sym h.0)
        (reads-Represents buf r c w len h.1 e)
  step-Represents (polls_write r) c w (Echo.async_write_some len) e h fits =
      subst (λ u. Stepped buf (polls_write r) c u (Echo.async_write_some len)) (sym h.0)
        (writes-Represents buf r c w len h.1 h.2 fits e)
  step-Represents (polls_write r) c w (Echo.async_read_some len) e h fits =
      quiet-Represents buf (polls_write r) c w (subst (λ u. do_write r u ≡ u) (sym h.0) refl)
        (subst (Represents buf c w) (sym e) h)
  step-Represents (polls_read r) c w (Echo.async_write_some len) e h fits =
      quiet-Represents buf (polls_read r) c w (subst (λ u. do_read r u ≡ u) (sym h.0) refl)
        (subst (Represents buf c w) (sym e) h)
  step-Represents (polls_read r) c w Echo.close e h fits =
      quiet-Represents buf (polls_read r) c w (poll-closed buf (polls_read r) w h.0)
        (subst (Represents buf c w) (sym e) h)
  step-Represents (polls_write r) c w Echo.close e h fits =
      quiet-Represents buf (polls_write r) c w (poll-closed buf (polls_write r) w h.0)
        (subst (Represents buf c w) (sym e) h)

  -- The kernel does so in each poll of a connection.
  unfoldable pub AllFit : List Poll → Connection → Type 0
  unfolding follow outcome
  AllFit [] c = Unit
  AllFit (p ∷ polls) c = Fits p c.request × AllFit polls (follow (outcome p c.request) c c.request)

  turns-from :
      (polls : List Poll) (c : Connection) (w : World)
      → Represents buf c w c.request
      → AllFit polls c
      → Represents buf (follows polls c) (turns buf polls w) (follows polls c).request
  unfolding turns follows AllFit
  turns-from [] c w h fits = h
  turns-from (p ∷ polls) c w h fits =
      turns-from polls (follow (outcome p c.request) c c.request) (turn buf p w)
        (step-Represents p c w c.request refl h fits.0) fits.1

  -- The callbacks on a `TcpSocket` refine the state machine of the echoing connection: however the socket is
  -- polled and whatever the kernel does in the polls, where it sends no more than it is asked to, the bytes
  -- on the wire are those that the state machine has sent by then, its operation under way is the one that
  -- waits in the socket, alone in its queue, with the bytes to be sent at the start of the buffer, and
  -- the socket is closed where the state machine is.
  pub turns-Represents :
      (fd : ℕ) (peer : Address) (memory : Memory) (buffer : List ℕ) (polls : List Poll)
      → AllFit polls (accepted buffer)
      → Represents buf
          (follows polls (accepted buffer))
          (turns buf polls (served buf (length buffer) (new_world fd peer memory)))
          (follows polls (accepted buffer)).request
  unfolding served accepted async_read_some Socket.new_socket
  turns-Represents fd peer memory buffer polls fits =
      turns-from polls (accepted buffer) (served buf (length buffer) (new_world fd peer memory))
        (refl, refl) fits
