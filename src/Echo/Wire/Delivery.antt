-- ===== src/Echo/Wire/Delivery.antt =====
-- That an echoing connection on a `TcpSocket` sends what it has received.
use spinet.Common.{
  ℕ, zero, suc, ◌≡◌, refl, sym, ap, ap₂, subst, ◌∙◌, Option, none, some, List, [], ◌∷◌, ◌++◌,
  length, arith,
}
use spinet.Address.{Address}
use spinet.Memory.{Memory, load}
use spinet.Task.{count, send_failed}
use spinet.Socket.{World}
use spinet.Echo.{Request, Outcome, fails, reads, writes, Connection, accepted, resume}
use spinet.Echo
use spinet.Echo.Fidelity.{Full, Echoed, resume-Echoed}
use spinet.Echo.Wire.{
  Poll, polls_read, polls_write, turns, outcome, read_outcome, write_outcome, follow, follows,
  served,
}
use spinet.Echo.Wire.Simulation.{Represents}
use spinet.Echo.Wire.Refinement.{Fits, AllFit, new_world, turns-Represents}

-- `send` takes all the bytes that it is given, or fails.
abbrev pub FullPoll : Poll → Request → Type 0
FullPoll (polls_write (count n)) (Echo.async_write_some len) = n ≡ len
FullPoll (polls_write (send_failed e)) (Echo.async_write_some len) = Unit
FullPoll (polls_write r) (Echo.async_read_some len) = Unit
FullPoll (polls_write r) Echo.close = Unit
FullPoll (polls_read r) request = Unit

-- It does so in each poll of a connection.
unfoldable pub AllFullPolls : List Poll → Connection → Type 0
AllFullPolls [] c = Unit
AllFullPolls (p ∷ polls) c =
    FullPoll p c.request × AllFullPolls polls (follow (outcome p c.request) c c.request)

follow-Echoed :
    (o : Option Outcome) (c : Connection) (r : Request)
    → c.request ≡ r
    → Echoed [] c r
    → ((u : Outcome) → o ≡ some u → Full r u)
    → Echoed [] (follow o c r) (follow o c r).request
unfolding follow
follow-Echoed none c r e h full = subst (Echoed [] c) (sym e) h
follow-Echoed (some u) c r e h full = resume-Echoed [] u c r e h (full u refl)

outcome-Full :
    (p : Poll) (r : Request) (u : Outcome) → FullPoll p r → outcome p r ≡ some u → Full r u
unfolding outcome read_outcome write_outcome
outcome-Full p (Echo.async_read_some len) u full e = tt
outcome-Full p Echo.close u full e = tt
outcome-Full p (Echo.async_write_some len) fails full e = tt
outcome-Full p (Echo.async_write_some len) (reads bs) full e = tt
outcome-Full (polls_read r) (Echo.async_write_some len) (writes size) full e = absurd (ground arith)
outcome-Full (polls_write (count zero)) (Echo.async_write_some len) (writes size) full e =
    absurd (ground arith)
outcome-Full (polls_write (count (suc n))) (Echo.async_write_some len) (writes size) full e =
    ground (arith, full)
outcome-Full (polls_write (send_failed errno)) (Echo.async_write_some len) (writes size) full e =
    absurd (ground arith)

follows-Echoed :
    (polls : List Poll) (c : Connection)
    → Echoed [] c c.request
    → AllFullPolls polls c
    → Echoed [] (follows polls c) (follows polls c).request
unfolding follows AllFullPolls
follows-Echoed [] c h full = h
follows-Echoed (p ∷ polls) c h full =
    follows-Echoed polls (follow (outcome p c.request) c c.request)
      (follow-Echoed (outcome p c.request) c c.request refl h
        (λ u. outcome-Full p c.request u full.0))
      full.1

FullPoll-Fits : (buf : ℕ) (p : Poll) (r : Request) → FullPoll p r → Fits buf p r
FullPoll-Fits buf (polls_write (count n)) (Echo.async_write_some len) h = omega arith
FullPoll-Fits buf (polls_write (send_failed e)) (Echo.async_write_some len) h = tt
FullPoll-Fits buf (polls_write r) (Echo.async_read_some len) h = tt
FullPoll-Fits buf (polls_write r) Echo.close h = tt
FullPoll-Fits buf (polls_read r) request h = tt

AllFullPolls-AllFit :
    (buf : ℕ) (polls : List Poll) (c : Connection) → AllFullPolls polls c → AllFit buf polls c
unfolding AllFullPolls AllFit
AllFullPolls-AllFit buf [] c h = tt
AllFullPolls-AllFit buf (p ∷ polls) c h = (
  FullPoll-Fits buf p c.request h.0,
  AllFullPolls-AllFit buf polls (follow (outcome p c.request) c c.request) h.1,
)

-- The bytes received are on the wire while the connection reads; while it writes, the rest of them is what its
-- operation has to send; once it is closed, some may be missing at the end.
abbrev pub Delivered : (buf : ℕ) → (received : List ℕ) → World → Request → Type 0
Delivered buf received w (Echo.async_read_some len) = received ≡ w.wire
Delivered buf received w (Echo.async_write_some len) = received ≡ w.wire ++ load w.memory buf len
Delivered buf received w Echo.close = (rest : List ℕ) × (received ≡ w.wire ++ rest)

Echoed-Delivered :
    (buf : ℕ) (c : Connection) (w : World) (r : Request)
    → Represents buf c w r
    → Echoed [] c r
    → Delivered buf c.received w r
Echoed-Delivered buf c w (Echo.async_read_some len) h e = e ∙ sym h.1
Echoed-Delivered buf c w (Echo.async_write_some len) h e =
    e ∙ ap₂ (λ xs ys. xs ++ ys) (sym h.1) (sym h.2)
Echoed-Delivered buf c w Echo.close h e = (e.0, e.1 ∙ ap (λ l. l ++ e.0) (sym h.1))

-- On a new socket, however it is polled and whatever the kernel does, as long as each `send` fails or takes all
-- that it is given: what the echoing connection has received is on the wire, byte for byte, while it
-- reads; is on the wire and in the part of the buffer that it is about to send while it writes; and begins
-- with what is on the wire once it is closed.
pub turns-Delivered :
    (buf fd : ℕ) (peer : Address) (memory : Memory) (buffer : List ℕ) (polls : List Poll)
    → AllFullPolls polls (accepted buffer)
    → Delivered buf
        (follows polls (accepted buffer)).received
        (turns buf polls (served buf (length buffer) (new_world fd peer memory)))
        (follows polls (accepted buffer)).request
unfolding accepted
turns-Delivered buf fd peer memory buffer polls full =
    Echoed-Delivered buf (follows polls (accepted buffer))
      (turns buf polls (served buf (length buffer) (new_world fd peer memory)))
      (follows polls (accepted buffer)).request
      (turns-Represents buf fd peer memory buffer polls
        (AllFullPolls-AllFit buf polls (accepted buffer) full))
      (follows-Echoed polls (accepted buffer) refl full)
