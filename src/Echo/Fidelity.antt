-- ===== src/Echo/Fidelity.antt =====
-- That the echoing connections (example/echo/async/server.cpp, client.cpp) send what they have received.
use spinet.Common.{
  take-length, ℕ, ◌-◌, ◌<◌, ◌≡◌, refl, sym, ap, subst, ◌∙◌, List, [], ◌∷◌, ◌++◌, length,
  length-append, take, arith,
}
use mathlib.Core.List.{append-nil, append_assoc}
use spinet.Workers.{replicate, length-replicate}
use spinet.Echo.{
  Request, async_read_some, async_write_some, close, Outcome, fails, reads, writes, Connection,
  overwrite, accepted, connected, payload, read_callback, write_callback, resume, resume_all,
}

-- The kernel writes all that it is asked to.
abbrev pub Full : Request → Outcome → Type 0
Full (async_write_some len) (writes size) = size ≡ len
Full (async_write_some len) (reads bytes) = Unit
Full (async_write_some len) fails = Unit
Full (async_read_some len) o = Unit
Full close o = Unit

unfoldable pub AllFull : List Outcome → Connection → Type 0
AllFull [] c = Unit
AllFull (o ∷ outcomes) c = Full c.request o × AllFull outcomes (resume o c c.request)

-- What was sent is `first` and then what was received: all of it while the connection reads, all but the
-- bytes under way while it writes, and some of it once it is closed.
abbrev pub Echoed : (first : List ℕ) → Connection → Request → Type 0
Echoed first c (async_read_some len) = first ++ c.received ≡ c.sent
Echoed first c (async_write_some len) = first ++ c.received ≡ c.sent ++ take len c.buffer
Echoed first c close = (rest : List ℕ) × (first ++ c.received ≡ c.sent ++ rest)

pub take-overwrite : (bytes buffer : List ℕ) → take (length bytes) (overwrite bytes buffer) ≡ bytes
unfolding overwrite
take-overwrite [] buffer = refl
take-overwrite (x ∷ bytes) [] = ap (λ l. x ∷ l) (take-length bytes)
take-overwrite (x ∷ bytes) (y ∷ buffer) = ap (λ l. x ∷ l) (take-overwrite bytes buffer)

fails-Echoed :
    (first : List ℕ) (c : Connection) (r : Request) → Echoed first c r → Echoed first c close
fails-Echoed first c (async_read_some len) h = ([], h ∙ sym (append-nil c.sent))
fails-Echoed first c (async_write_some len) h = (take len c.buffer, h)
fails-Echoed first c close h = h

pub resume-Echoed :
    (first : List ℕ) (o : Outcome) (c : Connection) (r : Request)
    → c.request ≡ r
    → Echoed first c r
    → Full r o
    → Echoed first (resume o c r) (resume o c r).request
unfolding resume read_callback write_callback
resume-Echoed first fails c r e h full = fails-Echoed first c r h
resume-Echoed first (reads bytes) c (async_read_some len) e h full =
    sym (append_assoc first c.received bytes)
    ∙ (ap (λ l. l ++ bytes) h ∙ ap (λ l. c.sent ++ l) (sym (take-overwrite bytes c.buffer)))
resume-Echoed first (reads bytes) c (async_write_some len) e h full =
    subst (Echoed first c) (sym e) h
resume-Echoed first (reads bytes) c close e h full = subst (Echoed first c) (sym e) h
resume-Echoed first (writes size) c (async_read_some len) e h full =
    subst (Echoed first c) (sym e) h
resume-Echoed first (writes size) c (async_write_some len) e h full =
    h ∙ ap (λ n. c.sent ++ take n c.buffer) (sym full)
resume-Echoed first (writes size) c close e h full = subst (Echoed first c) (sym e) h

resume_all-Echoed :
    (first : List ℕ) (outcomes : List Outcome) (c : Connection)
    → Echoed first c c.request
    → AllFull outcomes c
    → Echoed first (resume_all outcomes c) (resume_all outcomes c).request
unfolding resume_all AllFull
resume_all-Echoed first [] c h full = h
resume_all-Echoed first (o ∷ outcomes) c h full =
    resume_all-Echoed first outcomes (resume o c c.request)
      (resume-Echoed first o c c.request refl h full.0) full.1

-- A connection of the server, where each write takes all the bytes it is given and whatever the operations
-- come to besides: while it reads it has sent what it received, byte for byte, while it writes all but
-- the bytes under way, and once it is closed a part of it from the front.
pub accepted-Echoed :
    (buffer : List ℕ) (outcomes : List Outcome)
    → AllFull outcomes (accepted buffer)
    → Echoed []
        (resume_all outcomes (accepted buffer))
        (resume_all outcomes (accepted buffer)).request
unfolding accepted
accepted-Echoed buffer outcomes full = resume_all-Echoed [] outcomes (accepted buffer) refl full

length-payload : (n : ℕ) → 0 < n → length (payload n) ≡ n
unfolding payload
length-payload n h = omega (
  arith,
  length-append {A = ℕ} (replicate (n - 1) 97) (0 ∷ []),
  length-replicate {A = ℕ} (n - 1) 97,
)

-- A connection of the client, the same behind its first payload.
pub connected-Echoed :
    (n : ℕ) (outcomes : List Outcome)
    → 0 < n
    → AllFull outcomes (connected n)
    → Echoed
        (payload n)
        (resume_all outcomes (connected n))
        (resume_all outcomes (connected n)).request
unfolding connected
connected-Echoed n outcomes pos full =
    resume_all-Echoed (payload n) outcomes (connected n)
      (append-nil (payload n)
        ∙ (sym (take-length (payload n)) ∙ ap (λ m. take m (payload n)) (length-payload n pos)))
      full
