-- ===== src/Runtime/Serving.antt =====
-- A `Runtime` (src/core/runtime.cpp) as a worker of a server or a client: its registry with its flag, where
-- `run` returns once the thread runs and `stop` once it has ended, behind `release_all_handles`. As a worker
-- it is one whose exchanges do not fail for no reason.
pub mod Registry
pub mod Owning
use spinet.Common.{
  ℕ, ◌+◌, ◌≡◌, refl, Bool, true, false, Option, none, some, [], arith, Text, codes, if◌then◌else◌,
  if_cases, exchange_weak,
}
use spinet.Workers.{Workers}
use spinet.Socket.{new_socket}
use spinet.Runtime.Interface.{Containers}
use spinet.Runtime.Store.{Object, acceptor, socket, put}
use spinet.Runtime.{Runtime, Fate, register_handle, release_all_handles}

module _ (c : Containers) where
  -- The handles at the addresses from `next` on are new.
  pub record Serving : Type 0 where
    pub running : Bool
    pub registry : Runtime c
    pub next : ℕ

  -- The constructor.
  abbrev pub new_runtime : Serving
  new_runtime = record {
    running = false;
    registry = record {
      self = 0;
      removable_handles = [];
      all_sockets = c.set_empty;
      all_handles = c.map_empty;
      locked = false;
      stuck = false;
      objects = λ _. acceptor (record { fd = 0; runtime = none });
      memory = λ _. 0;
      effects = [];
    };
    next = 0;
  }

  -- `spurious` tells that the exchange fails for no reason.
  pub run_runtime : (spurious : Bool) → Serving → Serving × Option Text
  run_runtime spurious w =
      let (running, won) = exchange_weak spurious w.running in
      (record w { running = running }, if won then none else some (codes "the server is running"))

  -- `fates` tells what becomes of the handles that the thread drops. Each is dropped once, as no address is
  -- used again.
  pub stop_runtime : (fates : ℕ → Fate) → Serving → Serving
  stop_runtime fates w =
      if w.running
      then record w { running = false; registry = release_all_handles c fates w.registry }
      else w

  -- A handle is made at a new address and registered, with the exchange in the `close` of a handle that it
  -- replaces.
  pub serve : (spurious : Bool) → Object → Serving → Serving
  serve spurious o w = record w {
    registry =
        register_handle c spurious w.next
          (record w.registry { objects = put w.registry.objects w.next o });
    next = w.next + 1;
  }

  pub run_starts : (w : Serving) → w.running ≡ false → (run_runtime false w).0.running ≡ true
  unfolding run_runtime
  run_starts w idle = go w.running
    where
      go : (b : Bool) → (exchange_weak false b).0 ≡ true
      go true = refl
      go false = refl

  pub run_accepts : (w : Serving) → w.running ≡ false → (run_runtime false w).1 ≡ none
  unfolding run_runtime
  run_accepts w idle = go w.running idle
    where
      go :
          (b : Bool)
          → b ≡ false
          → (if (exchange_weak false b).1 then none else some (codes "the server is running"))
            ≡ none
      go true idle = absurd (ground arith)
      go false idle = refl

  pub stop_stops : (fates : ℕ → Fate) (w : Serving) → (stop_runtime fates w).running ≡ false
  unfolding stop_runtime
  stop_stops fates w =
      if_cases (λ (v : Serving). v.running ≡ false) w.running (λ _. refl) (λ off. off)

  pub serve_keeps :
      (spurious : Bool) (o : Object) (w : Serving) → (serve spurious o w).running ≡ w.running
  unfolding serve
  serve_keeps spurious o w = refl

  abbrev pub runtimes : (fates : ℕ → Fate) → Workers
  runtimes fates = record {
    Worker = Serving;
    fresh = new_runtime;
    run = run_runtime false;
    stop = stop_runtime fates;
    is_running = λ w. w.running;
    register_acceptor = λ fd. serve false (acceptor (record { fd = fd; runtime = none }));
    register_socket = λ fd peer. serve false (socket (new_socket fd peer) []);
    fresh_idle = refl;
    run_starts = run_starts;
    run_accepts = run_accepts;
    stop_stops = stop_stops fates;
    register_acceptor_keeps =
        λ fd. serve_keeps false (acceptor (record { fd = fd; runtime = none }));
    register_socket_keeps = λ fd peer. serve_keeps false (socket (new_socket fd peer) []);
  }
