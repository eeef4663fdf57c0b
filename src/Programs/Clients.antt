-- ===== src/Programs/Clients.antt =====
-- The programs example/echo/async/client.cpp and client2.cpp: what they read of their arguments, and what
-- they do with a `Client`.
pub mod Ending
mod Tests
use spinet.Common.{
  ℕ, zero, suc, ◌+◌, ◌≡◌, ◌≢◌, refl, sym, subst, ◌⊎◌, inl, inr, length, length-append, Bool, true,
  false, Option, none, some, List, [], ◌∷◌, ◌++◌, All, Text, codes, pos, negsuc, ℤ, to_uint16,
  if◌then◌else◌, if_cases, arith,
}
use spinet.Address.{Address, Net, parse}
use spinet.Workers.{Workers}
use spinet.Client.{
  Settings, Attempt, Connection, socket, refused, bad_variant_access, Client, new_client,
  with_settings, tcp_connect, run, stop,
}
use spinet.Client.State.{
  IsIdle, IsConfigured, with_settings-IsConfigured, run-IsConfigured, stop-IsConfigured,
  running-stop,
}
use spinet.Client.Connecting.{tcp_connect-IsConfigured, tcp_connect-answers}
use spinet.Address.Parsing.{IsPosix}
use spinet.Programs.{
  ◌>>=◌, Run, goes_on, exits, throws, expect_int, read_port, read_positive, read_threads, found,
}

-- `times` is the number of connections.
pub record ClientOptions : Type 0 where
  pub address : Address
  pub worker_threads : ℤ
  pub times : ℕ
  pub payload_size : ℕ

read_payload : Text → Run ℕ
read_payload t =
    read_positive t (codes "payload_size is an invalid number.")
      (codes "payload_size should be greater than 0.")

module _ (net : Net) where
  -- `main` of client.cpp does not test the number of its threads.
  pub client_options : List Text → Run ClientOptions
  unfolding read_payload
  client_options (name ∷ address ∷ port ∷ threads ∷ clients ∷ payload ∷ []) = do
    p ← read_port port
    a ← found (parse net address p)
    n ← expect_int threads (codes "worker_threads is an invalid number.")
    times ←
        read_positive clients (codes "clients is an invalid number.")
          (codes "clients should be greater than 0.")
    size ← read_payload payload
    goes_on (record { address = a; worker_threads = n; times = times; payload_size = size })
  client_options _ =
      exits (
        codes "Usage: PROGRAM_NAME ${address} ${port} ${worker_threads} ${clients} ${payload_size}")

  pub client2_options : List Text → Run ClientOptions
  unfolding read_payload
  client2_options (name ∷ address ∷ port ∷ threads ∷ times ∷ payload ∷ []) = do
    p ← read_port port
    a ← found (parse net address p)
    n ← read_threads threads
    times ←
        read_positive times (codes "times is an invalid number.")
          (codes "times should be greater than 0.")
    size ← read_payload payload
    goes_on (record { address = a; worker_threads = pos n; times = times; payload_size = size })
  client2_options _ =
      exits
        (codes "Usage: PROGRAM_NAME ${address} ${port} ${worker_threads} ${times} ${payload_size}")

module _ (ws : Workers) (net : Net) where
  -- A client as `main` leaves it, with the descriptors that it connected, and the way in which it ends.
  pub record Left : Type 0 where
    pub client : Client ws
    pub sockets : List ℕ
    pub ending : Run (Unit {0})

  connected_next : Client ws → List ℕ → Connection → (rest : List ℕ → Client ws → Left) → Left
  connected_next c sockets (socket fd peer) rest = rest (sockets ++ fd ∷ []) c
  connected_next c sockets (refused message) rest = record {
    client = stop ws c;
    sockets = sockets;
    ending = exits message;
  }
  connected_next c sockets bad_variant_access rest = record {
    client = c;
    sockets = sockets;
    ending = throws (codes "bad_variant_access");
  }

  -- The loop over the connections, of which `n` are left: what the kernel does in the `i`-th is `kernel i`.
  -- A refused connection ends the loop and stops the client.
  connect_all : (kernel : ℕ → Attempt) → Address → (n i : ℕ) → List ℕ → Client ws → Left
  unfolding connected_next
  connect_all kernel address zero i sockets c = record {
    client = c;
    sockets = sockets;
    ending = goes_on tt;
  }
  connect_all kernel address (suc n) i sockets c =
      let (c', closed, connection) = tcp_connect ws net (kernel i) address c in
      connected_next c' sockets connection (connect_all kernel address n (i + 1))

  -- Behind `run`.
  running : (kernel : ℕ → Attempt) → ClientOptions → Client ws × Option Text → Left
  unfolding connect_all
  running kernel o (c, some error) = record { client = c; sockets = []; ending = exits error }
  running kernel o (c, none) = connect_all kernel o.address o.times 0 [] c

  -- Behind `with_settings`.
  made_client :
      (kernel : ℕ → Attempt) → (spurious : Bool) → ClientOptions → Client ws × Option Text → Left
  unfolding running
  made_client kernel spurious o (c, some error) = record {
    client = c;
    sockets = [];
    ending = exits error;
  }
  made_client kernel spurious o (c, none) = running kernel o (run ws spurious c)

  connect : (kernel : ℕ → Attempt) → (spurious : Bool) → ClientOptions → Left
  unfolding made_client
  connect kernel spurious o = made_client kernel spurious o (
      with_settings ws (record { workers = to_uint16 o.worker_threads; reuse_port = false })
        (new_client ws))

  -- The way out of `main`: client2.cpp stops its client after half a minute, the destructor does so on an
  -- error. An exception that nothing catches runs no destructor.
  leave : Left → (ending : Run (Unit {0})) → Left
  leave l (throws message) = l
  leave l (exits message) = record l { client = stop ws l.client }
  leave l (goes_on _) = record l { client = stop ws l.client }

  -- client.cpp goes into an endless loop with its client running.
  stay : Left → (ending : Run (Unit {0})) → Left
  stay l (throws message) = l
  stay l (exits message) = record l { client = stop ws l.client }
  stay l (goes_on _) = l

  begin_client : (kernel : ℕ → Attempt) → (spurious : Bool) → Run ClientOptions → Left
  unfolding connect
  begin_client kernel spurious (goes_on o) = connect kernel spurious o
  begin_client kernel spurious (exits message) = record {
    client = new_client ws;
    sockets = [];
    ending = exits message;
  }
  begin_client kernel spurious (throws message) = record {
    client = new_client ws;
    sockets = [];
    ending = throws message;
  }

  -- `main` of client2.cpp.
  pub client2_main : (kernel : ℕ → Attempt) → (spurious : Bool) → List Text → Left
  unfolding leave begin_client
  client2_main kernel spurious argv =
      let l = begin_client kernel spurious (client2_options net argv) in leave l l.ending

  -- `main` of client.cpp, up to its endless loop where it comes there.
  pub client_main : (kernel : ℕ → Attempt) → (spurious : Bool) → List Text → Left
  unfolding stay begin_client
  client_main kernel spurious argv =
      let l = begin_client kernel spurious (client_options net argv) in stay l l.ending
