-- ===== src/Echo/Wire/Tests.antt =====
-- An echoing connection (example/echo/async/server.cpp) on a `TcpSocket` with a buffer of four bytes.
use spinet.Common.{ℕ, ◌≡◌, refl, List, [], ◌∷◌, codes, arith}
use spinet.Address.{Address, ipv4}
use spinet.Memory.{store, load}
use spinet.Task.{read_exec, write_exec, bytes, recv_failed, count, eagain}
use spinet.Socket.Poll.{do_read, do_write}
use spinet.Socket.{async_read_some, async_write_some, new_socket}
use spinet.Echo.{accepted, resume}
use spinet.Echo.Wire.{Poll, polls_read, polls_write, turns, outcome, follow, follows, served}
use spinet.Echo.Wire.Simulation.{Represents}
use spinet.Echo.Wire.Delivery.{AllFullPolls, Delivered, turns-Delivered}
use spinet.Echo.Wire.Refinement.{AllFit, new_world, turns-Represents}

abbrev peer : Address
peer = record { kind = ipv4; address = codes "10.0.0.1"; port = 80 }

abbrev buffer : List ℕ
buffer = 0 ∷ 0 ∷ 0 ∷ 0 ∷ []

-- Nothing has arrived yet, then two bytes, which are written.
abbrev polls : List Poll
polls =
    polls_read (recv_failed eagain) ∷ polls_read (bytes (7 ∷ 8 ∷ [])) ∷ polls_write (count 2) ∷ []

echoed : (turns 100 polls (served 100 4 (new_world 5 peer (λ a. 0)))).wire ≡ 7 ∷ 8 ∷ []
unfolding turns served do_read do_write async_read_some async_write_some new_socket load store
    read_exec write_exec
echoed = refl

polls_fit : AllFit 100 polls (accepted buffer)
unfolding AllFit outcome follow accepted resume
polls_fit = (tt, (tt, (omega arith, tt)))

turns-Represents_example :
    Represents 100
      (follows polls (accepted buffer))
      (turns 100 polls (served 100 4 (new_world 5 peer (λ a. 0))))
      (follows polls (accepted buffer)).request
turns-Represents_example = turns-Represents 100 5 peer (λ a. 0) buffer polls polls_fit

polls_full : AllFullPolls polls (accepted buffer)
unfolding AllFullPolls outcome follow accepted resume
polls_full = (tt, (tt, (refl, tt)))

turns-Delivered_example :
    Delivered 100
      (follows polls (accepted buffer)).received
      (turns 100 polls (served 100 4 (new_world 5 peer (λ a. 0))))
      (follows polls (accepted buffer)).request
turns-Delivered_example = turns-Delivered 100 5 peer (λ a. 0) buffer polls polls_full
