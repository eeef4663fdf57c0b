-- ===== src/Runtime/Dispatch/Tests.antt =====
-- A turn of `Runtime::exec` (src/core/runtime.cpp) over an acceptor and a socket. In the call for its event
-- the socket is closed, and then its descriptor goes to a new socket.
use spinet.Common.{ℕ, ◌≡◌, refl, true, false, inl, List, [], ◌∷◌, ◌==◌, if◌then◌else◌}
use spinet.Task.{recv_failed, send_failed}
use spinet.Runtime.Tables.{tables}
use spinet.Runtime.Interface.{In}
use spinet.Runtime.{Fate, dropped}
use spinet.Runtime.Small.{serving, serving-IsConsistent}
use spinet.Runtime.Dispatch.{reads, writes, Moment, closing, registers, run_events, turn}
use spinet.Runtime.Dispatch.Liveness.{IsSafe, turn-IsSafe}
use spinet.Runtime.Dispatch.Sweeping.{calls, turn-serves}

abbrev quiet : Moment
quiet = record { received = recv_failed 11; sent = send_failed 11; spurious = false; methods = [] }

abbrev busy : Moment
busy = record quiet { methods = closing false 20 ∷ registers false 30 ∷ [] }

abbrev moments : ℕ → Moment
moments i = if i == 1 then busy else quiet

-- No one else holds a handle.
abbrev destroyed : ℕ → Fate
destroyed p = dropped false

abbrev events : List (ℕ × ℕ)
events = (10, 1) ∷ (20, 1) ∷ (20, 4) ∷ []

turn-IsSafe_example : IsSafe tables (turn tables moments destroyed events serving).1
turn-IsSafe_example =
    turn-IsSafe tables moments destroyed events serving (λ p h. serving-IsConsistent.sockets p h)
      (inl refl, (inl refl, (inl refl, tt)))

turn-serves_example :
    In (reads 20) (calls tables (turn tables moments destroyed ((10, 1) ∷ []) serving).1)
    × In (writes 20) (calls tables (turn tables moments destroyed ((10, 1) ∷ []) serving).1)
unfolding run_events
turn-serves_example = turn-serves tables moments destroyed ((10, 1) ∷ []) serving 20 still
  where
    still :
        tables.has (run_events tables moments 0 ((10, 1) ∷ []) (serving, [])).0.all_sockets 20
        ≡ true
    still = refl
