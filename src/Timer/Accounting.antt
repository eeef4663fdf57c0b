-- ===== src/Timer/Accounting.antt =====
-- How often the operations of a `Timer` (src/timer.cpp) are called, and not before when.
use spinet.Common.{
  ℕ, ◌+◌, ◌≤◌, ◌≡◌, refl, List, [], ◌∷◌, ◌++◌, All, All-append, ltb, ◌==◌, if◌then◌else◌, if_cases,
  arith,
}
use spinet.Timer.{
  WaitOperation, Call, Timer, push, async_wait_until, async_wait_for, collect, fire, tick, discard,
  Action, waits_until, waits_for, ticks, discards, step, run,
}

-- How often a callback was called, and how many operations wait for it.
abbrev pub one_if : ℕ → ℕ → ℕ
one_if c d = if c == d then 1 else 0

abbrev pub called : ℕ → List Call → ℕ
called c [] = 0
called c (x ∷ calls) = one_if c x.callback + called c calls

abbrev pub waiting : ℕ → List WaitOperation → ℕ
waiting c [] = 0
waiting c (x ∷ q) = one_if c x.callback + waiting c q

-- How many operations with a callback an action submits, and how many it discards.
abbrev pub submitted : ℕ → Action → ℕ
submitted c (waits_until time_point d) = one_if c d
submitted c (waits_for now duration d) = one_if c d
submitted c _ = 0

abbrev pub dropped : ℕ → Action → Timer → ℕ
dropped c discards t = waiting c t.waiters
dropped c _ t = 0

abbrev pub all_submitted : ℕ → List Action → ℕ
all_submitted c [] = 0
all_submitted c (a ∷ acts) = submitted c a + all_submitted c acts

abbrev pub all_dropped : ℕ → List Action → Timer → ℕ
all_dropped c [] t = 0
all_dropped c (a ∷ acts) t = dropped c a t + all_dropped c acts (step a t)

waiting-push :
    (c : ℕ) (x : WaitOperation) (q : List WaitOperation)
    → waiting c (push x q) ≡ one_if c x.callback + waiting c q
unfolding push
waiting-push c x [] = refl
waiting-push c x (y ∷ q) = ground (arith, waiting-push c x q)

called-append : (c : ℕ) (xs ys : List Call) → called c (xs ++ ys) ≡ called c xs + called c ys
called-append c [] ys = omega arith
called-append c (x ∷ xs) ys = omega (arith, called-append c xs ys)

called-collect :
    (c now : ℕ) (q : List WaitOperation)
    → called c (fire now (collect now q).0) + waiting c (collect now q).1 ≡ waiting c q
unfolding collect fire
called-collect c now [] = refl
called-collect c now (x ∷ q) = ground (arith, called-collect c now q)

step-balance :
    (c : ℕ) (a : Action) (t : Timer)
    → called c (step a t).fired + waiting c (step a t).waiters + dropped c a t
      ≡ called c t.fired + waiting c t.waiters + submitted c a
unfolding step async_wait_until async_wait_for tick discard
step-balance c (waits_until time_point d) t =
    omega (arith, waiting-push c (record { time_point = time_point; callback = d }) t.waiters)
step-balance c (waits_for now duration d) t =
    omega (arith, waiting-push c (record { time_point = now + duration; callback = d }) t.waiters)
step-balance c (ticks now) t = omega (
  arith,
  called-append c t.fired (fire now (collect now t.waiters).0),
  called-collect c now t.waiters,
)
step-balance c discards t = omega arith

-- An operation that was submitted is called once, or waits, or was discarded with the queue at the end of
-- `exec`, and exactly one of these: for each callback the calls, the operations that wait and those
-- discarded add up to the operations submitted, beside the calls and the operations of the start.
pub run_counts :
    (c : ℕ) (acts : List Action) (t : Timer)
    → called c (run acts t).fired + waiting c (run acts t).waiters + all_dropped c acts t
      ≡ called c t.fired + waiting c t.waiters + all_submitted c acts
unfolding run
run_counts c [] t = omega arith
run_counts c (a ∷ acts) t = omega (arith, step-balance c a t, run_counts c acts (step a t))

-- The calls made are not early.
abbrev pub IsOnTime : List Call → Type 0
IsOnTime = All (λ x. x.prev ≤ x.now)

collect-IsOnTime : (now : ℕ) (q : List WaitOperation) → IsOnTime (fire now (collect now q).0)
unfolding collect fire
collect-IsOnTime now [] = tt
collect-IsOnTime now (x ∷ q) =
    if_cases (λ (r : List WaitOperation × List WaitOperation). IsOnTime (fire now r.0))
      (ltb now x.time_point) (λ _. tt) (λ f. (ground arith, collect-IsOnTime now q))

step-IsOnTime : (a : Action) (t : Timer) → IsOnTime t.fired → IsOnTime (step a t).fired
unfolding step async_wait_until async_wait_for tick discard
step-IsOnTime (waits_until time_point callback) t h = h
step-IsOnTime (waits_for now duration callback) t h = h
step-IsOnTime (ticks now) t h = All-append _ t.fired _ h (collect-IsOnTime now t.waiters)
step-IsOnTime discards t h = h

-- No operation is called before its time: every call that a timer makes is told a time at hand that is
-- not before the time that was asked for.
pub run-IsOnTime : (acts : List Action) (t : Timer) → IsOnTime t.fired → IsOnTime (run acts t).fired
unfolding run
run-IsOnTime [] t h = h
run-IsOnTime (a ∷ acts) t h = run-IsOnTime acts (step a t) (step-IsOnTime a t h)
