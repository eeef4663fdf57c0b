-- ===== src/Echo/Tests.antt =====
-- The echoing connections of example/echo/async on buffers of a few bytes.
use spinet.Common.{ℕ, ◌≡◌, refl, List, [], ◌∷◌, length, arith}
use spinet.Echo.{Outcome, fails, reads, writes, async_read_some, resume, resume_all, accepted}
use spinet.Echo.Windows.{Within, size, AllAllowed, resume_all-Within}
use spinet.Echo.Once.{Event, connects, ends, nothing, steps}

-- A short read, which is echoed in full, then one byte and the end of the file.
abbrev served : List Outcome
served = reads (1 ∷ 2 ∷ []) ∷ writes 2 ∷ reads (3 ∷ []) ∷ writes 1 ∷ fails ∷ []

abbrev empty_buffer : List ℕ
empty_buffer = 0 ∷ 0 ∷ 0 ∷ 0 ∷ []

-- The second read is for two bytes.
narrowed :
    (resume_all (reads (1 ∷ 2 ∷ []) ∷ writes 2 ∷ []) (accepted empty_buffer)).request
    ≡ async_read_some 2
unfolding resume_all resume accepted
narrowed = refl

served_allowed : AllAllowed served (accepted empty_buffer)
unfolding AllAllowed resume accepted
served_allowed = (
  (omega arith, omega arith),
  (
    (omega arith, omega arith),
    ((omega arith, omega arith), ((omega arith, omega arith), (tt, tt))),
  ),
)

resume_all-Within_example :
    (length (resume_all served (accepted empty_buffer)).buffer ≡ 4)
    × Within
        (size (accepted empty_buffer).request)
        (resume_all served (accepted empty_buffer)).request
unfolding accepted
resume_all-Within_example =
    resume_all-Within 4 served (accepted empty_buffer) refl (omega arith, omega arith)
      served_allowed

-- Two connections, of which one is closed.
abbrev interleaved : List Event
interleaved = connects ∷ ends 0 ∷ connects ∷ ends 0 ∷ []

one_closed : (steps interleaved nothing).closed_count ≡ 1
unfolding steps
one_closed = refl
