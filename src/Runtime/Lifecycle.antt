-- ===== src/Runtime/Lifecycle.antt =====
-- The thread of a `Runtime`: `run`, `stop` and `exec` of src/core/runtime.cpp as interleaved steps of the
-- thread that calls `run` and `stop` and of the thread that runs `exec`, a shared access at a time.
pub mod Contract
pub mod Stopping
mod Tests
use spinet.Common.{◌≡◌, Bool, true, false}

-- The thread of `exec`: not there, before its first statement, in the loop, past the loop, and over
-- but not joined.
pub data Worker : Type 0 where
  absent starting looping leaving ended : Worker

-- The caller: outside, behind the exchange of `run`, behind the test of `stop`, and in its `join`.
pub data Caller : Type 0 where
  idle spawning marking joining : Caller

pub record State : Type 0 where
  pub running : Bool
  pub stopped : Bool
  pub worker : Worker
  pub caller : Caller

-- The constructor.
abbrev pub init : State
init = record { running = false; stopped = true; worker = absent; caller = idle }

-- One step of one of the two threads. A call of `run` that finds the runtime running, or whose exchange
-- fails for no reason, returns an error and changes nothing, as does a call of `stop` that finds it not
-- running.
pub data Step (s t : State) : Type 0 where
  run_refused : s.caller ≡ idle → t ≡ s → Step s t
  run_wins :
      s.caller ≡ idle
      → s.running ≡ false
      → t ≡ record s { running = true; caller = spawning }
      → Step s t
  spawns_first :
      s.caller ≡ spawning
      → s.worker ≡ absent
      → t ≡ record s { worker = starting; caller = idle }
      → Step s t
  spawns_again :
      s.caller ≡ spawning
      → s.worker ≡ ended
      → t ≡ record s { worker = starting; caller = idle }
      → Step s t
  stop_idle : s.caller ≡ idle → s.running ≡ false → t ≡ s → Step s t
  stop_begins : s.caller ≡ idle → s.running ≡ true → t ≡ record s { caller = marking } → Step s t
  marks : s.caller ≡ marking → t ≡ record s { stopped = true; caller = joining } → Step s t
  joins :
      s.caller ≡ joining
      → s.worker ≡ ended
      → t ≡ record s { worker = absent; caller = idle }
      → Step s t
  joins_none : s.caller ≡ joining → s.worker ≡ absent → t ≡ record s { caller = idle } → Step s t
  starts : s.worker ≡ starting → t ≡ record s { stopped = false; worker = looping } → Step s t
  loops : s.worker ≡ looping → s.stopped ≡ false → t ≡ s → Step s t
  leaves : s.worker ≡ looping → s.stopped ≡ true → t ≡ record s { worker = leaving } → Step s t
  ends : s.worker ≡ leaving → t ≡ record s { running = false; worker = ended } → Step s t

pub data Reach (s : State) : State → Type 0 where
  here : Reach s s
  next : {t u : State} → Reach s t → Step t u → Reach s u
