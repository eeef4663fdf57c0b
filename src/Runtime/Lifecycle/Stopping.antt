-- ===== src/Runtime/Lifecycle/Stopping.antt =====
-- Which calls of `Runtime::stop` (src/core/runtime.cpp) return.
use spinet.Common.{◌≡◌, ◌≢◌, refl, ℕ, ◌<◌, ◌⊎◌, Bool, true, false, arith}
use spinet.Runtime.Lifecycle.{
  Worker, absent, starting, looping, leaving, ended, idle, spawning, joining, State, init, Step,
  run_refused, run_wins, spawns_first, spawns_again, stop_idle, stop_begins, marks, joins,
  joins_none, starts, loops, leaves, ends, Reach, here, next,
}

-- No thread runs `exec`.
abbrev pub is_over : Worker → Bool
is_over absent = true
is_over ended = true
is_over _ = false

pub record IsOrderly (s : State) : Type 0 where
  pub idle_over : s.running ≡ false → is_over s.worker ≡ true
  pub spawning_over : s.caller ≡ spawning → is_over s.worker ≡ true
  pub spawning_runs : s.caller ≡ spawning → s.running ≡ true

Step-IsOrderly : {s t : State} → IsOrderly s → Step s t → IsOrderly t
Step-IsOrderly o (run_refused a q) = ground arith
Step-IsOrderly o (run_wins a b q) = ground arith
Step-IsOrderly o (spawns_first a b q) = ground arith
Step-IsOrderly o (spawns_again a b q) = ground arith
Step-IsOrderly o (stop_idle a b q) = ground arith
Step-IsOrderly o (stop_begins a b q) = ground arith
Step-IsOrderly o (marks a q) = ground arith
Step-IsOrderly o (joins a b q) = ground arith
Step-IsOrderly o (joins_none a b q) = ground arith
Step-IsOrderly o (starts a q) = ground arith
Step-IsOrderly o (loops a b q) = ground arith
Step-IsOrderly o (leaves a b q) = ground arith
Step-IsOrderly o (ends a q) = ground arith

-- In every reachable state, a runtime that is not running has no thread in `exec`, and where `run` is
-- about to start one, there is none either: at most one thread is in `exec`, and `run` never waits for
-- the thread before it.
pub Reach-IsOrderly : {s : State} → Reach init s → IsOrderly s
Reach-IsOrderly here = record {
  idle_over = λ _. refl;
  spawning_over = λ e. cc;
  spawning_runs = λ e. cc;
}
Reach-IsOrderly (next r st) = Step-IsOrderly (Reach-IsOrderly r) st

-- `stop` waits for a thread that has cleared the flag behind it.
abbrev pub IsDeaf : State → Type 0
IsDeaf s = (s.caller ≡ joining) × (s.worker ≡ looping) × (s.stopped ≡ false)

Step-IsDeaf : {s t : State} → IsDeaf s → Step s t → IsDeaf t
Step-IsDeaf d (run_refused a q) = ground arith
Step-IsDeaf d (run_wins a b q) = ground arith
Step-IsDeaf d (spawns_first a b q) = ground arith
Step-IsDeaf d (spawns_again a b q) = ground arith
Step-IsDeaf d (stop_idle a b q) = ground arith
Step-IsDeaf d (stop_begins a b q) = ground arith
Step-IsDeaf d (marks a q) = ground arith
Step-IsDeaf d (joins a b q) = ground arith
Step-IsDeaf d (joins_none a b q) = ground arith
Step-IsDeaf d (starts a q) = ground arith
Step-IsDeaf d (loops a b q) = ground arith
Step-IsDeaf d (leaves a b q) = ground arith
Step-IsDeaf d (ends a q) = ground arith

Reach-IsDeaf : {s t : State} → IsDeaf s → Reach s t → IsDeaf t
Reach-IsDeaf d here = d
Reach-IsDeaf d (next r st) = Step-IsDeaf (Reach-IsDeaf d r) st

abbrev pub deaf : State
deaf = record { running = true; stopped = false; worker = looping; caller = joining }

-- `run`, then `stop` up to its wait, and only then the first statement of `exec`.
overtaken : Reach init deaf
overtaken =
    next
      (next
        (next (next (next here (run_wins refl refl refl)) (spawns_first refl refl refl))
          (stop_begins refl refl refl))
        (marks refl refl))
      (starts refl refl)

-- A call of `stop` can be lost: there is a reachable state in which `stop` waits for the thread, and from
-- which it waits in every state to come, since the thread has cleared `stopped_` after `stop` had set it.
pub stop_lost : (s : State) × Reach init s × ((t : State) → Reach s t → t.caller ≡ joining)
stop_lost = (deaf, overtaken, λ t r. (Reach-IsDeaf {s = deaf} (refl, refl, refl) r).0)

-- `stop` waits, and its mark came after the start of `exec`.
pub record IsHeard (s : State) : Type 0 where
  pub waits : s.caller ≡ joining
  pub marked : s.stopped ≡ true
  pub started : s.worker ≢ starting

-- How many steps the thread has left.
abbrev pub left : Worker → ℕ
left looping = 3
left leaving = 2
left ended = 1
left _ = 0

can-Step : (s : State) (w : Worker) → s.worker ≡ w → IsHeard s → (t : State) × Step s t
can-Step s absent e h = (_, joins_none h.waits e refl)
can-Step s starting e h = absurd (h.started e)
can-Step s looping e h = (_, leaves e h.marked refl)
can-Step s leaving e h = (_, ends e refl)
can-Step s ended e h = (_, joins h.waits e refl)

abbrev Nearer : State → State → Type 0
Nearer s t = (t.caller ≡ idle) ⊎ (IsHeard t × (left t.worker < left s.worker))

Step-Nearer : {s t : State} → IsHeard s → Step s t → Nearer s t
Step-Nearer h (run_refused a q) = ground arith
Step-Nearer h (run_wins a b q) = ground arith
Step-Nearer h (spawns_first a b q) = ground arith
Step-Nearer h (spawns_again a b q) = ground arith
Step-Nearer h (stop_idle a b q) = ground arith
Step-Nearer h (stop_begins a b q) = ground arith
Step-Nearer h (marks a q) = ground arith
Step-Nearer h (joins a b q) = ground arith
Step-Nearer h (joins_none a b q) = ground arith
Step-Nearer h (starts a q) = ground arith
Step-Nearer h (loops a b q) = ground arith
Step-Nearer h (leaves a b q) = ground arith
Step-Nearer h (ends a q) = ground arith

-- A call of `stop` whose mark comes after the first statement of `exec` returns: as long as it waits,
-- some step is possible, and every step either lets it return or brings the thread nearer to its end.
pub stop_returns :
    (s : State)
    → IsHeard s
    → ((t : State) × Step s t)
      × ((t : State) → Step s t → (t.caller ≡ idle) ⊎ (IsHeard t × (left t.worker < left s.worker)))
stop_returns s h = (can-Step s s.worker refl h, λ t st. Step-Nearer h st)
