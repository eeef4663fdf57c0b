-- ===== src/Runtime/Lifecycle/Tests.antt =====
-- Runs of `run`, `exec` and `stop` (src/core/runtime.cpp).
use spinet.Common.{◌≡◌, refl, true, ◌⊎◌, ◌<◌}
use spinet.Runtime.Lifecycle.{
  looping, joining, idle, State, init, Step, run_wins, spawns_first, stop_begins, marks, starts,
  Reach, here, next,
}
use spinet.Runtime.Lifecycle.Contract.{view, Changes, Reach-Changes}
use spinet.Runtime.Lifecycle.Stopping.{IsHeard, left, stop_returns}

-- The thread is in its loop when `stop` marks.
abbrev heard : State
heard = record { running = true; stopped = true; worker = looping; caller = joining }

heard-Reach : Reach init heard
heard-Reach =
    next
      (next
        (next (next (next here (run_wins refl refl refl)) (spawns_first refl refl refl))
          (starts refl refl))
        (stop_begins refl refl refl))
      (marks refl refl)

Reach-Changes_example : Changes (view init) (view heard)
Reach-Changes_example = Reach-Changes heard-Reach

stop_returns_example :
    ((t : State) × Step heard t)
    × ((t : State)
        → Step heard t
        → (t.caller ≡ idle) ⊎ (IsHeard t × (left t.worker < left heard.worker)))
stop_returns_example =
    stop_returns heard (record { waits = refl; marked = refl; started = λ e. cc })
