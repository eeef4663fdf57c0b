-- ===== src/Runtime/Lifecycle/Contract.antt =====
-- What `run`, `stop` and `is_running` of a `Runtime` (src/core/runtime.cpp) promise to a caller that sees neither
-- the thread nor its flag `stopped_`.
use spinet.Common.{◌≡◌, ◌≢◌, refl, Bool, true, false, not, arith}
use spinet.Runtime.Lifecycle.{
  Caller, looping, leaving, idle, spawning, marking, joining, State, init, Step, run_refused,
  run_wins, spawns_first, spawns_again, stop_idle, stop_begins, marks, joins, joins_none, starts,
  loops, leaves, ends, Reach, here, next,
}
use spinet.Runtime.Lifecycle.Stopping.{is_over, IsOrderly, Reach-IsOrderly}

-- What `is_running` answers, whether a thread is in `exec`, and where the caller is.
pub record View : Type 0 where
  pub answer : Bool
  pub executing : Bool
  pub call : Caller

abbrev pub view : State → View
view s = record { answer = s.running; executing = not (is_over s.worker); call = s.caller }

-- A change of what is seen, with the view before it and behind it.
pub data Change (v u : View) : Type 0 where
  unseen : u ≡ v → Change v u
  run_sets :
      v ≡ record { answer = false; executing = false; call = idle }
      → u ≡ record { answer = true; executing = false; call = spawning }
      → Change v u
  run_returns :
      v ≡ record { answer = true; executing = false; call = spawning }
      → u ≡ record { answer = true; executing = true; call = idle }
      → Change v u
  stop_enters :
      v ≡ record { answer = true; executing = true; call = idle }
      → u ≡ record { answer = true; executing = true; call = marking }
      → Change v u
  stop_waits : v.call ≡ marking → u ≡ record v { call = joining } → Change v u
  thread_ends :
      v ≡ record { answer = true; executing = true; call = joining }
      → u ≡ record { answer = false; executing = false; call = joining }
      → Change v u
  stop_leaves :
      v ≡ record { answer = false; executing = false; call = joining }
      → u ≡ record { answer = false; executing = false; call = idle }
      → Change v u

pub data Changes (v : View) : View → Type 0 where
  none_yet : Changes v v
  then : {u w : View} → Changes v u → Change u w → Changes v w

-- Only a `stop` makes the thread leave its loop, and a thread that is over has cleared `running_`.
record IsObedient (s : State) : Type 0 where
  over_idle : is_over s.worker ≡ true → s.caller ≢ spawning → s.running ≡ false
  marked_joining : s.worker ≡ looping → s.stopped ≡ true → s.caller ≡ joining
  leaving_joining : s.worker ≡ leaving → s.caller ≡ joining

Step-IsObedient : {s t : State} → IsOrderly s → IsObedient s → Step s t → IsObedient t
Step-IsObedient o b (run_refused a q) = ground arith
Step-IsObedient o b (run_wins a i q) = ground arith
Step-IsObedient o b (spawns_first a i q) = ground arith
Step-IsObedient o b (spawns_again a i q) = ground arith
Step-IsObedient o b (stop_idle a i q) = ground arith
Step-IsObedient o b (stop_begins a i q) = ground arith
Step-IsObedient o b (marks a q) = ground arith
Step-IsObedient o b (joins a i q) = ground arith
Step-IsObedient o b (joins_none a i q) = ground arith
Step-IsObedient o b (starts a q) = ground arith
Step-IsObedient o b (loops a i q) = ground arith
Step-IsObedient o b (leaves a i q) = ground arith
Step-IsObedient o b (ends a q) = ground arith

Reach-IsObedient : {s : State} → Reach init s → IsObedient s
Reach-IsObedient here = record {
  over_idle = λ _ _. refl;
  marked_joining = λ e _. cc;
  leaving_joining = λ e. cc;
}
Reach-IsObedient (next r st) = Step-IsObedient (Reach-IsOrderly r) (Reach-IsObedient r) st

Step-Change : {s t : State} → IsOrderly s → IsObedient s → Step s t → Change (view s) (view t)
Step-Change o b (run_refused a q) = unseen (ground arith)
Step-Change o b (run_wins a i q) = run_sets (ground arith) (ground arith)
Step-Change o b (spawns_first a i q) = run_returns (ground arith) (ground arith)
Step-Change o b (spawns_again a i q) = run_returns (ground arith) (ground arith)
Step-Change o b (stop_idle a i q) = unseen (ground arith)
Step-Change o b (stop_begins a i q) = stop_enters (ground arith) (ground arith)
Step-Change o b (marks a q) = stop_waits a (ground arith)
Step-Change o b (joins a i q) = stop_leaves (ground arith) (ground arith)
Step-Change o b (joins_none a i q) = stop_leaves (ground arith) (ground arith)
Step-Change o b (starts a q) = unseen (ground arith)
Step-Change o b (loops a i q) = unseen (ground arith)
Step-Change o b (leaves a i q) = unseen (ground arith)
Step-Change o b (ends a q) = thread_ends (ground arith) (ground arith)

-- The two threads refine a contract of the caller, in any interleaving: whatever state they reach, its caller
-- has seen a history of these changes and no other. A `run` that finds the runtime idle, with no thread in
-- `exec`, makes `is_running` true, and returns with one thread; a `stop` of a running runtime waits; only
-- while it waits does the thread end, with `is_running` false from then on; and only then does it return.
pub Reach-Changes : {s : State} → Reach init s → Changes (view init) (view s)
Reach-Changes here = none_yet
Reach-Changes (next r st) =
    then (Reach-Changes r) (Step-Change (Reach-IsOrderly r) (Reach-IsObedient r) st)
