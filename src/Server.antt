-- ===== src/Server.antt =====
-- `Server` (include/spinet/server.h, src/server.cpp): the settings, the workers and the endpoints of a
-- server. The methods run under `mtx_`, behind the exchange of `run`.
pub mod Listening
pub mod State
pub mod Running
pub mod Registries
pub mod Kept
pub mod Contract
mod Tests
use spinet.Common.{
  ℕ, zero, suc, ◌+◌, Bool, true, false, ◌⊎◌, inl, inr, Option, none, some, List, [], ◌∷◌, ◌++◌, map,
  length, Text, codes, to_decimal, ltb, if◌then◌else◌, exchange_weak,
}
use spinet.Address.{Address, Net, SockaddrIn, to_sockaddr_in, from_sockaddr_in}
use spinet.Workers.{Workers, replicate}

-- Server::Settings; `workers` is a number of 16 bits.
pub record Settings : Type 0 where
  pub workers : ℕ
  pub reuse_port : Bool

pub validate : Settings → Option Text
validate s = if ltb s.workers 1 then some (codes "workers must be more than zero") else none

abbrev pub default_settings : Settings
default_settings = record { workers = 1; reuse_port = false }

abbrev pub already_running : Text
already_running = codes "server has been running"

abbrev pub not_set : Text
not_set = codes "settings has been not set"

-- What the kernel does for one worker in the loop of `listen_tcp_endpoint`: `socket` fails, or gives a
-- descriptor on which `bind` or `listen` fails, each with `errno`, or that listens.
pub data Attempt : Type 0 where
  socket_failed : (errno : ℕ) → Attempt
  bind_failed listen_failed : (fd errno : ℕ) → Attempt
  listening : (fd : ℕ) → Attempt

-- What the loop comes to: the descriptors that listen, or a message behind the descriptors closed.
pub data Opening : Type 0 where
  opened : List ℕ → Opening
  failed : Text → (closed : List ℕ) → Opening

module _ (net : Net) where
  bind_message : SockaddrIn → ℕ → Text
  bind_message a errno =
      codes "socket cannot bind with address "
      ++ (from_sockaddr_in net a
          ++ (codes ":"
              ++ (to_decimal (net.ntohs a.port) ++ (codes ", reason:" ++ net.strerror errno))))

  -- One turn of the loop, for what the kernel does for the worker: the turns behind it are `rest`.
  open_next : SockaddrIn → (listen_fds : List ℕ) → Attempt → (rest : List ℕ → Opening) → Opening
  unfolding bind_message
  open_next a listen_fds (socket_failed errno) rest =
      failed (codes "socket cannot open, reason:" ++ net.strerror errno) listen_fds
  open_next a listen_fds (bind_failed fd errno) rest =
      failed (bind_message a errno) (listen_fds ++ fd ∷ [])
  open_next a listen_fds (listen_failed fd errno) rest =
      failed (codes "socket cannot be listened, reason:" ++ net.strerror errno)
        (listen_fds ++ fd ∷ [])
  open_next a listen_fds (listening fd) rest = rest (listen_fds ++ fd ∷ [])

  -- The loop over the workers, of which `n` are left: what the kernel does for the worker `i` is
  -- `kernel i`, and `listen_fds` are the descriptors so far.
  pub open_all : SockaddrIn → (kernel : ℕ → Attempt) → (n i : ℕ) → List ℕ → Opening
  unfolding open_next
  open_all a kernel zero i listen_fds = opened listen_fds
  open_all a kernel (suc n) i listen_fds =
      open_next a listen_fds (kernel i) (λ l. open_all a kernel n (i + 1) l)

pub unset : Option Settings → Bool
unset none = true
unset (some _) = false

module _ (ws : Workers) where
  open ws use {Worker}

  pub record Server : Type 0 where
    pub running : Bool
    pub workers : List Worker
    pub settings : Option Settings

  -- The constructor.
  abbrev pub new_server : Server
  new_server = record { running = false; workers = []; settings = none }

  set_up : Settings → Option Text → Server → Server × Option Text
  set_up settings (some err) s = (s, some err)
  set_up settings none s = (
    record s {
      settings = some settings;
      workers = s.workers ++ replicate settings.workers ws.fresh;
    },
    none,
  )

  pub with_settings : Settings → Server → Server × Option Text
  unfolding set_up validate unset
  with_settings settings s =
      if s.running
      then (s, some already_running)
      else if unset s.settings
      then set_up settings (validate settings) s
      else (s, some (codes "settings has been set"))

  pub has_settings : Server → Bool
  unfolding unset
  has_settings s = if unset s.settings then false else true

  pub is_running : Server → Bool
  is_running s = s.running

  -- The last loop of `listen_tcp_endpoint`: an acceptor for each descriptor, at the worker of its place.
  pub register_all : List Worker → List ℕ → List Worker
  register_all workers [] = workers
  register_all [] (fd ∷ fds) = []
  register_all (w ∷ workers) (fd ∷ fds) = ws.register_acceptor fd w ∷ register_all workers fds

  -- The server, the descriptors closed, and the message.
  finish_listening : Server → Opening → Server × List ℕ × Option Text
  unfolding register_all
  finish_listening s (failed message closed) = (s, closed, some message)
  finish_listening s (opened fds) = (record s { workers = register_all s.workers fds }, [], none)

  pub listen_at :
      Net → (kernel : ℕ → Attempt) → SockaddrIn ⊎ Text → Server → Server × List ℕ × Option Text
  unfolding open_all finish_listening
  listen_at net kernel (inr message) s = (s, [], some message)
  listen_at net kernel (inl a) s =
      finish_listening s (open_all net a kernel (length s.workers) 0 [])

  pub listen_tcp_endpoint :
      Net → (kernel : ℕ → Attempt) → Address → Server → Server × List ℕ × Option Text
  unfolding listen_at unset
  listen_tcp_endpoint net kernel address s =
      if s.running
      then (s, [], some already_running)
      else if unset s.settings
      then (s, [], some not_set)
      else listen_at net kernel (to_sockaddr_in net address.address address.port) s

  -- The loop of `run`, which ends with the first worker that returns a message: what that worker came to,
  -- the workers behind it, and what the loop makes of those.
  next_worker :
      Worker × Option Text → List Worker → List Worker × Option Text → List Worker × Option Text
  next_worker (w, some err) workers rest = (w ∷ workers, some err)
  next_worker (w, none) workers rest = (w ∷ rest.0, rest.1)

  pub run_workers : List Worker → List Worker × Option Text
  unfolding next_worker
  run_workers [] = ([], none)
  run_workers (w ∷ workers) = next_worker (ws.run w) workers (run_workers workers)

  -- `run` behind its exchange.
  run_set : Server → Server × Option Text
  unfolding run_workers unset
  run_set s =
      if unset s.settings
      then (s, some not_set)
      else (record s { workers = (run_workers s.workers).0 }, (run_workers s.workers).1)

  pub run : (spurious : Bool) → Server → Server × Option Text
  unfolding run_set
  run spurious s =
      let (running, won) = exchange_weak spurious s.running in
      if won then run_set (record s { running = running }) else (s, some already_running)

  pub stop : Server → Server
  stop s = if s.running then record s { workers = map ws.stop s.workers; running = false } else s
