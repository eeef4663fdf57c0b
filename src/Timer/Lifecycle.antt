-- ===== src/Timer/Lifecycle.antt =====
-- The thread of a `Timer`: `run`, `stop` and `exec` of src/timer.cpp as interleaved steps of the thread that
-- calls `run` and `stop`, of the thread that runs `exec`, and of those that call `async_wait_until`.
pub mod Stopping
use spinet.Common.{◌≡◌, ◌≢◌, Bool, true, false}

-- The thread of `exec`: not there, before its first statement, at the test of the loop, in the first block,
-- before the second, in the wait on the condition variable, behind it, before or in its sleep, past the
-- loop, behind the removal of what waits, and over but not joined.
pub data Worker : Type 0 where
  absent starting looping working testing waiting woken sleeping leaving emptied ended : Worker

-- The caller: outside, behind the exchange of `run`, behind the test of `stop`, in the loop of `stop`, and
-- in its `join`.
pub data Caller : Type 0 where
  idle spawning marking notifying joining : Caller

-- `pending` tells whether the priority queue has an operation.
pub record State : Type 0 where
  pub running : Bool
  pub stopped : Bool
  pub pending : Bool
  pub worker : Worker
  pub caller : Caller

-- The constructor.
abbrev pub init : State
init = record { running = false; stopped = true; pending = false; worker = absent; caller = idle }

-- One step of one of the threads. A call of `run` whose exchange fails changes nothing, as does a call of
-- `stop` that finds the timer not running. A wait on a condition variable may end with no notification.
pub data Step (s t : State) : Type 0 where
  run_refused : s.caller ≡ idle → t ≡ s → Step s t
  run_wins :
      s.caller ≡ idle
      → s.running ≡ false
      → t ≡ record s { running = true; caller = spawning }
      → Step s t
  spawns_first :
      s.caller ≡ spawning
      → s.worker ≡ absent
      → t ≡ record s { worker = starting; caller = idle }
      → Step s t
  spawns_again :
      s.caller ≡ spawning
      → s.worker ≡ ended
      → t ≡ record s { worker = starting; caller = idle }
      → Step s t
  stop_idle : s.caller ≡ idle → s.running ≡ false → t ≡ s → Step s t
  stop_begins : s.caller ≡ idle → s.running ≡ true → t ≡ record s { caller = marking } → Step s t
  marks : s.caller ≡ marking → t ≡ record s { stopped = true; caller = notifying } → Step s t
  notifies :
      s.caller ≡ notifying
      → s.running ≡ true
      → s.worker ≡ waiting
      → t ≡ record s { worker = woken }
      → Step s t
  notifies_none : s.caller ≡ notifying → s.running ≡ true → t ≡ s → Step s t
  notified : s.caller ≡ notifying → s.running ≡ false → t ≡ record s { caller = joining } → Step s t
  joins :
      s.caller ≡ joining
      → s.worker ≡ ended
      → t ≡ record s { worker = absent; caller = idle }
      → Step s t
  joins_none : s.caller ≡ joining → s.worker ≡ absent → t ≡ record s { caller = idle } → Step s t
  pushes_more : s.pending ≡ true → t ≡ s → Step s t
  pushes_first : s.pending ≡ false → s.worker ≢ waiting → t ≡ record s { pending = true } → Step s t
  pushes_notifying :
      s.pending ≡ false
      → s.worker ≡ waiting
      → t ≡ record s { pending = true; worker = woken }
      → Step s t
  starts : s.worker ≡ starting → t ≡ record s { stopped = false; worker = looping } → Step s t
  enters : s.worker ≡ looping → s.stopped ≡ false → t ≡ record s { worker = working } → Step s t
  leaves : s.worker ≡ looping → s.stopped ≡ true → t ≡ record s { worker = leaving } → Step s t
  serves_all : s.worker ≡ working → t ≡ record s { pending = false; worker = testing } → Step s t
  serves_some : s.worker ≡ working → s.pending ≡ true → t ≡ record s { worker = testing } → Step s t
  waits : s.worker ≡ testing → s.pending ≡ false → t ≡ record s { worker = waiting } → Step s t
  goes_on : s.worker ≡ testing → s.pending ≡ true → t ≡ record s { worker = sleeping } → Step s t
  wakes : s.worker ≡ waiting → t ≡ record s { worker = woken } → Step s t
  breaks : s.worker ≡ woken → s.stopped ≡ true → t ≡ record s { worker = leaving } → Step s t
  resumes : s.worker ≡ woken → s.stopped ≡ false → t ≡ record s { worker = sleeping } → Step s t
  sleeps : s.worker ≡ sleeping → t ≡ record s { worker = looping } → Step s t
  empties : s.worker ≡ leaving → t ≡ record s { pending = false; worker = emptied } → Step s t
  ends : s.worker ≡ emptied → t ≡ record s { running = false; worker = ended } → Step s t

pub data Reach (s : State) : State → Type 0 where
  here : Reach s s
  next : {t u : State} → Reach s t → Step t u → Reach s u
