-- ===== src/Timer.antt =====
-- `Timer` (include/spinet/timer.h, src/timer.cpp): functions that are to be called at a time, in a
-- priority queue. Times and durations are numbers of clock ticks, and a duration below zero counts as
-- zero. A function stands for a section of a method under one lock.
pub mod Firing
pub mod Starving
pub mod Ties
pub mod Accounting
pub mod Lifecycle
mod Tests
use spinet.Common.{ℕ, ◌+◌, ◌-◌, ◌%◌, Bool, true, false, List, [], ◌∷◌, ◌++◌, ltb, if◌then◌else◌}

-- Timer::WaitOperation; callbacks are numbered.
pub record WaitOperation : Type 0 where
  pub time_point : ℕ
  pub callback : ℕ

-- `operator<`
abbrev pub less : WaitOperation → WaitOperation → Bool
less x y = ltb x.time_point y.time_point

-- `std::priority_queue<WaitOperation>`: `top` is an element that is `less` than no other. The list holds
-- the elements in the order in which `pop` takes them. Of elements that are equal under `less` the
-- standard leaves open which comes first; here it is the one that was pushed first.
unfoldable pub push : WaitOperation → List WaitOperation → List WaitOperation
push x [] = x ∷ []
push x (y ∷ q) = if less y x then x ∷ (y ∷ q) else y ∷ push x q

-- The call of a callback with its two arguments: the time asked for, and the time at hand.
pub record Call : Type 0 where
  pub callback : ℕ
  pub prev : ℕ
  pub now : ℕ

pub record Timer : Type 0 where
  pub precision : ℕ
  pub waiters : List WaitOperation
  pub fired : List Call

abbrev pub minimum_precision : ℕ
minimum_precision = 1

-- The constructor. `precision_` is read before it has a value: `unset` is what it holds then.
pub new_timer : (precision unset : ℕ) → Timer
new_timer precision unset = record {
  precision =
      if ltb precision minimum_precision
      then minimum_precision
      else precision - unset % minimum_precision;
  waiters = [];
  fired = [];
}

pub async_wait_until : ℕ → ℕ → Timer → Timer
async_wait_until time_point callback t = record t {
  waiters = push (record { time_point = time_point; callback = callback }) t.waiters;
}

-- `now` is the time at the call.
pub async_wait_for : (now duration : ℕ) → ℕ → Timer → Timer
unfolding async_wait_until
async_wait_for now duration = async_wait_until (now + duration)

-- The inner loop of `exec`: the operations taken from the queue, and the queue left.
pub collect : (now : ℕ) → List WaitOperation → List WaitOperation × List WaitOperation
collect now [] = ([], [])
collect now (x ∷ q) =
    let rest = collect now q in if ltb now x.time_point then ([], x ∷ q) else (x ∷ rest.0, rest.1)

-- The callbacks of the operations taken, in turn.
pub fire : (now : ℕ) → List WaitOperation → List Call
fire now [] = []
fire now (x ∷ ops) = record { callback = x.callback; prev = x.time_point; now = now } ∷ fire now ops

-- One round of the loop of `exec`, at a time that the clock shows. What the callbacks do to the timer
-- stands behind it, as they are called without the lock.
pub tick : (now : ℕ) → Timer → Timer
unfolding collect fire
tick now t =
    let (ops, rest) = collect now t.waiters in
    record t { waiters = rest; fired = t.fired ++ fire now ops }

-- The end of `exec`.
pub discard : Timer → Timer
discard t = record t { waiters = [] }

-- How long `exec` sleeps after a round that has taken `duration`.
pub pause : (duration : ℕ) → Timer → ℕ
pause duration t = if ltb duration t.precision then t.precision - duration else 0

pub data Action : Type 0 where
  waits_until : (time_point callback : ℕ) → Action
  waits_for : (now duration callback : ℕ) → Action
  ticks : (now : ℕ) → Action
  discards : Action

pub step : Action → Timer → Timer
unfolding async_wait_until async_wait_for tick discard
step (waits_until time_point callback) t = async_wait_until time_point callback t
step (waits_for now duration callback) t = async_wait_for now duration callback t
step (ticks now) t = tick now t
step discards t = discard t

pub run : List Action → Timer → Timer
run [] t = t
run (a ∷ acts) t = run acts (step a t)
