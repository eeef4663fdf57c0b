-- ===== src/Timer/Lifecycle/Stopping.antt =====
-- Which calls of `Timer::stop` (src/timer.cpp) return.
use spinet.Common.{
  ◌≡◌, ◌≢◌, refl, ℕ, ◌+◌, ◌<◌, ◌≤◌, ◌⊎◌, inl, inr, Bool, Bool-cases, zero, suc, true, false, not,
  arith,
}
use spinet.Timer.Lifecycle.{
  Worker, absent, starting, looping, working, testing, waiting, woken, sleeping, leaving, emptied,
  ended, Caller, idle, notifying, joining, State, init, Step, run_refused, run_wins, spawns_first,
  spawns_again, stop_idle, stop_begins, marks, notifies, notifies_none, notified, joins, joins_none,
  pushes_more, pushes_first, pushes_notifying, starts, enters, leaves, serves_all, serves_some,
  waits, goes_on, wakes, breaks, resumes, sleeps, empties, ends, Reach, here, next,
}

-- The thread is in the loop of `exec`.
abbrev pub in_loop : Worker → Bool
in_loop looping = true
in_loop working = true
in_loop testing = true
in_loop waiting = true
in_loop woken = true
in_loop sleeping = true
in_loop _ = false

-- `stop` notifies a thread that has cleared the flag behind it.
abbrev pub IsDeaf : State → Type 0
IsDeaf s =
    (s.caller ≡ notifying) × (s.running ≡ true) × (s.stopped ≡ false) × (in_loop s.worker ≡ true)

Step-IsDeaf : {s t : State} → IsDeaf s → Step s t → IsDeaf t
Step-IsDeaf d (run_refused a q) = ground arith
Step-IsDeaf d (run_wins a b q) = ground arith
Step-IsDeaf d (spawns_first a b q) = ground arith
Step-IsDeaf d (spawns_again a b q) = ground arith
Step-IsDeaf d (stop_idle a b q) = ground arith
Step-IsDeaf d (stop_begins a b q) = ground arith
Step-IsDeaf d (marks a q) = ground arith
Step-IsDeaf d (notifies a b c q) = ground arith
Step-IsDeaf d (notifies_none a b q) = ground arith
Step-IsDeaf d (notified a b q) = ground arith
Step-IsDeaf d (joins a b q) = ground arith
Step-IsDeaf d (joins_none a b q) = ground arith
Step-IsDeaf d (pushes_more a q) = ground arith
Step-IsDeaf d (pushes_first a b q) = ground arith
Step-IsDeaf d (pushes_notifying a b q) = ground arith
Step-IsDeaf d (starts a q) = ground arith
Step-IsDeaf d (enters a b q) = ground arith
Step-IsDeaf d (leaves a b q) = ground arith
Step-IsDeaf d (serves_all a q) = ground arith
Step-IsDeaf d (serves_some a b q) = ground arith
Step-IsDeaf d (waits a b q) = ground arith
Step-IsDeaf d (goes_on a b q) = ground arith
Step-IsDeaf d (wakes a q) = ground arith
Step-IsDeaf d (breaks a b q) = ground arith
Step-IsDeaf d (resumes a b q) = ground arith
Step-IsDeaf d (sleeps a q) = ground arith
Step-IsDeaf d (empties a q) = ground arith
Step-IsDeaf d (ends a q) = ground arith

Reach-IsDeaf : {s t : State} → IsDeaf s → Reach s t → IsDeaf t
Reach-IsDeaf d here = d
Reach-IsDeaf d (next r st) = Step-IsDeaf (Reach-IsDeaf d r) st

abbrev pub deaf : State
deaf = record {
  running = true;
  stopped = false;
  pending = false;
  worker = looping;
  caller = notifying;
}

-- `run`, then `stop` up to its loop, and only then the first statement of `exec`.
overtaken : Reach init deaf
overtaken =
    next
      (next
        (next (next (next here (run_wins refl refl refl)) (spawns_first refl refl refl))
          (stop_begins refl refl refl))
        (marks refl refl))
      (starts refl refl)

-- A call of `stop` can be lost: there is a reachable state in which `stop` notifies the thread, and from
-- which it does so in every state to come, since the thread has cleared `stopped_` after `stop` had set it.
pub timer_stop_lost : (s : State) × Reach init s × ((t : State) → Reach s t → t.caller ≡ notifying)
timer_stop_lost = (deaf, overtaken, λ t r. (Reach-IsDeaf {s = deaf} (refl, refl, refl, refl) r).0)

-- No thread runs `exec`.
abbrev pub is_over : Worker → Bool
is_over absent = true
is_over ended = true
is_over _ = false

-- `stop` is behind its mark, which came after the start of `exec`, and the flag `running_` tells whether the
-- thread is in `exec`.
pub record IsHeard (s : State) : Type 0 where
  pub stops : (s.caller ≡ notifying) ⊎ ((s.caller ≡ joining) × (s.running ≡ false))
  pub marked : s.stopped ≡ true
  pub started : s.worker ≢ starting
  pub agrees : s.running ≡ not (is_over s.worker)

-- How many steps the thread and the caller have left at most.
abbrev pub worker_left : Worker → ℕ
worker_left working = 7
worker_left testing = 6
worker_left waiting = 5
worker_left sleeping = 5
worker_left looping = 4
worker_left woken = 4
worker_left leaving = 3
worker_left emptied = 2
worker_left _ = 0

abbrev pub caller_left : Caller → ℕ
caller_left notifying = 2
caller_left joining = 1
caller_left _ = 0

abbrev pub left : State → ℕ
left s = worker_left s.worker + caller_left s.caller

abbrev NoFarther : State → State → Type 0
NoFarther s t = (t.caller ≡ idle) ⊎ (IsHeard t × (left t ≤ left s))

Step-NoFarther : {s t : State} → IsHeard s → Step s t → NoFarther s t
Step-NoFarther h (run_refused a q) = ground arith
Step-NoFarther h (run_wins a b q) = ground arith
Step-NoFarther h (spawns_first a b q) = ground arith
Step-NoFarther h (spawns_again a b q) = ground arith
Step-NoFarther h (stop_idle a b q) = ground arith
Step-NoFarther h (stop_begins a b q) = ground arith
Step-NoFarther h (marks a q) = ground arith
Step-NoFarther h (notifies a b c q) = ground arith
Step-NoFarther h (notifies_none a b q) = ground arith
Step-NoFarther h (notified a b q) = ground arith
Step-NoFarther h (joins a b q) = ground arith
Step-NoFarther h (joins_none a b q) = ground arith
Step-NoFarther h (pushes_more a q) = ground arith
Step-NoFarther h (pushes_first a b q) = ground arith
Step-NoFarther h (pushes_notifying a b q) = ground arith
Step-NoFarther h (starts a q) = ground arith
Step-NoFarther h (enters a b q) = ground arith
Step-NoFarther h (leaves a b q) = ground arith
Step-NoFarther h (serves_all a q) = ground arith
Step-NoFarther h (serves_some a b q) = ground arith
Step-NoFarther h (waits a b q) = ground arith
Step-NoFarther h (goes_on a b q) = ground arith
Step-NoFarther h (wakes a q) = ground arith
Step-NoFarther h (breaks a b q) = ground arith
Step-NoFarther h (resumes a b q) = ground arith
Step-NoFarther h (sleeps a q) = ground arith
Step-NoFarther h (empties a q) = ground arith
Step-NoFarther h (ends a q) = ground arith

abbrev Nearer : State → Type 0
Nearer s = (t : State) × Step s t × (left t < left s)

notifying-Nearer :
    (s : State) (w : Worker) → s.worker ≡ w → s.caller ≡ notifying → IsHeard s → Nearer s
notifying-Nearer s absent e n h = (_, notified n (ground (arith, h.agrees)) refl, ground arith)
notifying-Nearer s ended e n h = (_, notified n (ground (arith, h.agrees)) refl, ground arith)
notifying-Nearer s starting e n h = absurd (h.started e)
notifying-Nearer s looping e n h = (_, leaves e h.marked refl, ground arith)
notifying-Nearer s working e n h = (_, serves_all e refl, ground arith)
notifying-Nearer s testing e n h = elim (Bool-cases s.pending) [
  | inl p ↦ (_, goes_on e p refl, ground arith)
  | inr p ↦ (_, waits e p refl, ground arith)
]
notifying-Nearer s waiting e n h = (_, notifies n (ground (arith, h.agrees)) e refl, ground arith)
notifying-Nearer s woken e n h = (_, breaks e h.marked refl, ground arith)
notifying-Nearer s sleeping e n h = (_, sleeps e refl, ground arith)
notifying-Nearer s leaving e n h = (_, empties e refl, ground arith)
notifying-Nearer s emptied e n h = (_, ends e refl, ground arith)

joining-Nearer :
    (s : State) (w : Worker)
    → s.worker ≡ w
    → s.caller ≡ joining
    → is_over s.worker ≡ true
    → Nearer s
joining-Nearer s absent e j o = (_, joins_none j e refl, ground arith)
joining-Nearer s ended e j o = (_, joins j e refl, ground arith)
joining-Nearer s starting e j o = absurd (ground arith)
joining-Nearer s looping e j o = absurd (ground arith)
joining-Nearer s working e j o = absurd (ground arith)
joining-Nearer s testing e j o = absurd (ground arith)
joining-Nearer s waiting e j o = absurd (ground arith)
joining-Nearer s woken e j o = absurd (ground arith)
joining-Nearer s sleeping e j o = absurd (ground arith)
joining-Nearer s leaving e j o = absurd (ground arith)
joining-Nearer s emptied e j o = absurd (ground arith)

IsHeard-Nearer : (s : State) → IsHeard s → Nearer s
IsHeard-Nearer s h = elim h.stops [
  | inl n ↦ notifying-Nearer s s.worker refl n h
  | inr j ↦ joining-Nearer s s.worker refl j.0 (over j.1)
]
  where
    over : s.running ≡ false → is_over s.worker ≡ true
    over off = ground (arith, h.agrees)

Reach-before : {s t u : State} → Step s t → Reach t u → Reach s u
Reach-before st here = next here st
Reach-before st (next r after) = next (Reach-before st r) after

abbrev Returns : State → Type 0
Returns s = (u : State) × Reach s u × (u.caller ≡ idle)

IsHeard-Returns : (n : ℕ) (s : State) → left s ≤ n → IsHeard s → Returns s
IsHeard-Returns zero s le h = absurd (omega (arith, (IsHeard-Nearer s h).2))
IsHeard-Returns (suc n) s le h =
    let (t, st, lt) = IsHeard-Nearer s h in
    elim (Step-NoFarther h st) [
      | inl back ↦ (t, next here st, back)
      | inr k ↦
          let (u, r, back) = IsHeard-Returns n t (omega arith) k.0 in (u, Reach-before st r, back)
    ]

-- A call of `stop` whose mark comes after the first statement of `exec` can return, whatever happens: from
-- each state of such a call there are steps that let it return, and every step keeps it such a call with no
-- more steps left than before, or lets it return.
pub timer_stop_returns :
    (s t : State)
    → IsHeard s
    → Step s t
    → ((u : State) × Reach s u × (u.caller ≡ idle))
      × ((t.caller ≡ idle) ⊎ (IsHeard t × (left t ≤ left s)))
timer_stop_returns s t h st = (IsHeard-Returns (left s) s (omega arith) h, Step-NoFarther h st)
