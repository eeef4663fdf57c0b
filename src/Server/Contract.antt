-- ===== src/Server/Contract.antt =====
-- What a `Server` (include/spinet/server.h) promises: which of its calls succeed, and what they leave it ready
-- for, without its workers, its descriptors and its messages.
pub mod Refinement
use spinet.Common.{
  ℕ, Bool, true, false, not, ◌&&◌, ◌||◌, ◌⊎◌, inl, inr, List, [], ◌∷◌, Text, ltb, ◌==◌,
  if◌then◌else◌,
}
use spinet.Address.{Net, SockaddrIn, to_sockaddr_in}
use spinet.Server.Listening.{each_listens}
use spinet.Server.Running.{Action, sets, listens, runs, stops}
use spinet.Server.{Settings}

-- A server is running or not, and has been set up for some number of threads, or for none yet.
pub record Phase : Type 0 where
  pub running : Bool
  pub threads : ℕ

abbrev pub initial : Phase
initial = record { running = false; threads = 0 }

is_address : SockaddrIn ⊎ Text → Bool
is_address (inl a) = true
is_address (inr message) = false

-- A call succeeds if it gives no message.
pub accepts : Net → Action → Phase → Bool
unfolding is_address
accepts net (sets settings) p = not p.running && (p.threads == 0) && ltb 0 settings.workers
accepts net (listens kernel address) p =
    not p.running
    && ltb 0 p.threads
    && is_address (to_sockaddr_in net address.address address.port)
    && each_listens kernel p.threads 0
accepts net (runs spurious) p = not p.running && not spurious && ltb 0 p.threads
accepts net stops p = true

-- A call of `run` leaves the server running even if it fails for want of settings.
pub next : Net → Action → Phase → Phase
unfolding accepts
next net (sets settings) p =
    if accepts net (sets settings) p then record p { threads = settings.workers } else p
next net (listens kernel address) p = p
next net (runs spurious) p = if spurious then p else record p { running = true }
next net stops p = record p { running = false }

-- Which of a sequence of calls succeed.
unfoldable pub answers : Net → List Action → Phase → List Bool
unfolding accepts next
answers net [] p = []
answers net (a ∷ actions) p = accepts net a p ∷ answers net actions (next net a p)
