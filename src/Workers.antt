-- ===== src/Workers.antt =====
-- What `Server` (src/server.cpp) and `Client` (src/client.cpp) use of their workers, which are runtimes.
mod Lists
pub mod Recorded
pub use Lists.*
use spinet.Address.{Address}
use spinet.Common.{ℕ, ◌≡◌, Bool, true, false, Option, none, some, Text}

-- A new runtime, its `run` with the message that it may return, its `stop`, and the registration of an
-- acceptor or of a socket with a descriptor.
pub record Workers : Type 1 where
  pub Worker : Type 0
  pub fresh : Worker
  pub run : Worker → Worker × Option Text
  pub stop : Worker → Worker
  pub is_running : Worker → Bool
  pub register_acceptor : ℕ → Worker → Worker
  pub register_socket : ℕ → Address → Worker → Worker
  pub fresh_idle : is_running fresh ≡ false
  pub run_starts : (w : Worker) → is_running w ≡ false → is_running (run w).0 ≡ true
  pub run_accepts : (w : Worker) → is_running w ≡ false → (run w).1 ≡ none
  pub stop_stops : (w : Worker) → is_running (stop w) ≡ false
  pub register_acceptor_keeps :
      (fd : ℕ) (w : Worker) → is_running (register_acceptor fd w) ≡ is_running w
  pub register_socket_keeps :
      (fd : ℕ) (peer : Address) (w : Worker) → is_running (register_socket fd peer w) ≡ is_running w
