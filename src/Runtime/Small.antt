-- ===== src/Runtime/Small.antt =====
-- A `Runtime` (src/core/runtime.cpp) over tables that are lists: an acceptor on descriptor 3 and a socket
-- on descriptor 5.
use spinet.Common.{ℕ, refl, false, none, some, [], ◌∷◌, codes, ◌==◌, if◌then◌else◌, arith}
use spinet.Address.{ipv4}
use spinet.Task.{until_finished, new_task}
use spinet.Socket.{Socket}
use spinet.Runtime.Tables.{tables}
use spinet.Runtime.Store.{acceptor, socket, Objects}
use spinet.Runtime.{Runtime}
use spinet.Runtime.Consistency.{IsConsistent}

abbrev pub connection : ℕ → Socket
connection owner = record {
  handle = record { fd = 5; runtime = if owner == 0 then none else some owner };
  closed = false;
  read_queue = (new_task 100 4 until_finished, 1) ∷ [];
  write_queue = [];
  peer = record { kind = ipv4; address = codes "10.0.0.1"; port = 80 };
}

-- At 10 an acceptor and at 20 a socket, which are registered, and at 30 another socket.
abbrev pub handles : Objects
handles p =
    if p == 10
    then acceptor (record { fd = 3; runtime = some 7 })
    else if p == 20
    then socket (connection 7) []
    else socket (connection 0) []

abbrev pub serving : Runtime tables
serving = record {
  self = 7;
  removable_handles = [];
  all_sockets = 20 ∷ [];
  all_handles = (3, 10) ∷ (5, 20) ∷ [];
  locked = false;
  stuck = false;
  objects = handles;
  memory = λ a. 0;
  effects = [];
}

pub serving-IsConsistent : IsConsistent tables serving
serving-IsConsistent = record {
  keyed = λ k q h. ground arith;
  linked = λ k q h. ground arith;
  sockets = λ q h. ground arith;
  complete = λ k q h s. ground arith;
  unlocked = refl;
  free = refl;
}
