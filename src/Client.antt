-- ===== src/Client.antt =====
-- `Client` (include/spinet/client.h, src/client.cpp): the settings and the workers of a client, and the
-- connections that it makes. The methods run under `mtx_`, behind the exchange of `run`.
pub mod State
pub mod Connecting
mod Tests
use spinet.Common.{
  ℕ, zero, suc, ◌+◌, ◌%◌, ◌^◌, Bool, true, false, ◌⊎◌, inl, inr, Option, none, some, List, [], ◌∷◌,
  ◌++◌, map, length, Text, codes, ltb, if◌then◌else◌, exchange_weak,
}
use spinet.Address.{Address, Net, SockaddrIn, to_sockaddr_in, from_sockaddr_in, parse}
use spinet.Workers.{Workers, replicate, modify}

-- Client::Settings; `workers` is a number of 16 bits.
pub record Settings : Type 0 where
  pub workers : ℕ
  pub reuse_port : Bool

pub validate : Settings → Option Text
validate s = if ltb s.workers 1 then some (codes "workers must be more than zero") else none

abbrev pub default_settings : Settings
default_settings = record { workers = 1; reuse_port = false }

abbrev pub already_running : Text
already_running = codes "client has been running"

abbrev pub not_set : Text
not_set = codes "settings has been not set"

-- What the kernel does in `tcp_connect`: `socket` fails, or `connect` does on the descriptor that it gave,
-- each with `errno`, or the descriptor is connected.
pub data Attempt : Type 0 where
  socket_failed : (errno : ℕ) → Attempt
  connect_failed : (fd errno : ℕ) → Attempt
  connected : (fd : ℕ) → Attempt

-- What `tcp_connect` comes to: a socket on its descriptor with the address of its peer, a message, or an
-- exception of `std::get`.
pub data Connection : Type 0 where
  socket : (fd : ℕ) → Address → Connection
  refused : Text → Connection
  bad_variant_access : Connection

pub unset : Option Settings → Bool
unset none = true
unset (some _) = false

module _ (ws : Workers) where
  open ws use {Worker}

  -- `choosen_index` is a number of 64 bits.
  pub record Client : Type 0 where
    pub running : Bool
    pub workers : List Worker
    pub settings : Option Settings
    pub choosen_index : ℕ

  -- The constructor.
  abbrev pub new_client : Client
  new_client = record { running = false; workers = []; settings = none; choosen_index = 0 }

  set_up : Settings → Option Text → Client → Client × Option Text
  set_up settings (some err) c = (c, some err)
  set_up settings none c = (
    record c {
      settings = some settings;
      workers = c.workers ++ replicate settings.workers ws.fresh;
    },
    none,
  )

  pub with_settings : Settings → Client → Client × Option Text
  unfolding set_up validate unset
  with_settings settings c =
      if c.running
      then (c, some already_running)
      else if unset c.settings
      then set_up settings (validate settings) c
      else (c, some (codes "settings has been set"))

  pub is_running : Client → Bool
  is_running c = c.running

  -- The place of the worker that `select_runtime` returns, and the counter behind its increment, which
  -- wraps around. Without workers the remainder is undefined in the source.
  pub select_runtime : Client → Client × ℕ
  select_runtime c = (
    record c { choosen_index = (c.choosen_index + 1) % 2 ^ 64 },
    c.choosen_index % length c.workers,
  )

  -- The selection of the runtime, and the registration of the new socket with it.
  register_socket : (fd : ℕ) → Address → Client × ℕ → Client
  register_socket fd peer (c, i) = record c {
    workers = modify (ws.register_socket fd peer) c.workers i;
  }

  -- The client, the descriptors closed, and the outcome, once the kernel has connected a descriptor and
  -- the address of its peer is parsed.
  wrap : (fd : ℕ) → Address ⊎ Text → Client → Client × List ℕ × Connection
  unfolding register_socket select_runtime
  wrap fd (inr message) c = (c, [], bad_variant_access)
  wrap fd (inl address) c = (register_socket fd address (select_runtime c), [], socket fd address)

  connect_to : Net → Attempt → SockaddrIn ⊎ Text → Client → Client × List ℕ × Connection
  unfolding wrap
  connect_to net kernel (inr message) c = (c, [], refused message)
  connect_to net (socket_failed errno) (inl a) c =
      (c, [], refused (codes "socket cannot be created, reason:" ++ net.strerror errno))
  connect_to net (connect_failed fd errno) (inl a) c =
      (c, fd ∷ [], refused (codes "socket cannot be listened, reason:" ++ net.strerror errno))
  connect_to net (connected fd) (inl a) c =
      wrap fd (parse net (from_sockaddr_in net a) (net.ntohs a.port)) c

  pub tcp_connect : Net → Attempt → Address → Client → Client × List ℕ × Connection
  unfolding connect_to unset
  tcp_connect net kernel address c =
      if c.running
      then (if unset c.settings
          then (c, [], refused not_set)
          else connect_to net kernel (to_sockaddr_in net address.address address.port) c)
      else (c, [], refused (codes "client is not running"))

  -- The loop of `run`, which ends with the first worker that returns a message: what that worker came to,
  -- the workers behind it, and what the loop makes of those.
  next_worker :
      Worker × Option Text → List Worker → List Worker × Option Text → List Worker × Option Text
  next_worker (w, some err) workers rest = (w ∷ workers, some err)
  next_worker (w, none) workers rest = (w ∷ rest.0, rest.1)

  pub run_workers : List Worker → List Worker × Option Text
  unfolding next_worker
  run_workers [] = ([], none)
  run_workers (w ∷ workers) = next_worker (ws.run w) workers (run_workers workers)

  -- `run` behind its exchange.
  run_set : Client → Client × Option Text
  unfolding run_workers unset
  run_set c =
      if unset c.settings
      then (c, some not_set)
      else (record c { workers = (run_workers c.workers).0 }, (run_workers c.workers).1)

  pub run : (spurious : Bool) → Client → Client × Option Text
  unfolding run_set
  run spurious c =
      let (running, won) = exchange_weak spurious c.running in
      if won then run_set (record c { running = running }) else (c, some already_running)

  pub stop : Client → Client
  stop c = if c.running then record c { workers = map ws.stop c.workers; running = false } else c
