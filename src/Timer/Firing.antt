-- ===== src/Timer/Firing.antt =====
-- Which operations of a `Timer` (src/timer.cpp) are called, and when.
use spinet.Common.{
  ℕ, ◌≤◌, ◌<◌, ◌≡◌, refl, sym, subst, ap, ◌∙◌, Bool, true, false, List, [], ◌∷◌, ◌++◌, All, ltb,
  if◌then◌else◌, if_cases, arith, ◌⊎◌, inl, inr,
}
use mathlib.Core.List.{append-nil}
use spinet.Timer.{
  WaitOperation, Timer, push, async_wait_until, async_wait_for, collect, fire, tick, discard,
  Action, waits_until, waits_for, ticks, discards, step, run, less, new_timer,
}

-- The queue of a timer: latest first.
abbrev pub IsSorted : List WaitOperation → Type 0
IsSorted [] = Unit {0}
IsSorted (x ∷ q) = All (λ y. y.time_point ≤ x.time_point) q × IsSorted q

All-push :
    (P : WaitOperation → Type 0) (x : WaitOperation) (q : List WaitOperation)
    → P x
    → All P q
    → All P (push x q)
unfolding push
All-push P x [] h all = (h, tt)
All-push P x (y ∷ q) h all =
    if_cases (All P) (less y x) (λ _. (h, all)) (λ _. (all.0, All-push P x q h all.1))

pub All-le_trans :
    (q : List WaitOperation) (a b : ℕ)
    → a ≤ b
    → All (λ y. y.time_point ≤ a) q
    → All (λ y. y.time_point ≤ b) q
All-le_trans [] a b h all = tt
All-le_trans (x ∷ q) a b h all = (omega arith, All-le_trans q a b h all.1)

pub push-IsSorted : (x : WaitOperation) (q : List WaitOperation) → IsSorted q → IsSorted (push x q)
unfolding push
push-IsSorted x [] s = (tt, tt)
push-IsSorted x (y ∷ q) s =
    if_cases IsSorted (less y x)
      (λ t. ((ground arith, All-le_trans q y.time_point x.time_point (ground arith) s.0), s))
      (λ f.
        (All-push (λ z. z.time_point ≤ y.time_point) x q (ground arith) s.0, push-IsSorted x q s.1))

-- All operations are due, or one is not.
abbrev pub all_due : ℕ → List WaitOperation → Bool
all_due now [] = true
all_due now (x ∷ q) = if ltb now x.time_point then false else all_due now q

all_due-le :
    (now : ℕ) (q : List WaitOperation) (b : ℕ)
    → b ≤ now
    → All (λ y. y.time_point ≤ b) q
    → all_due now q ≡ true
all_due-le now [] b h all = refl
all_due-le now (x ∷ q) b h all = ground (arith, all_due-le now q b h all.1)

collect-sorted :
    (now : ℕ) (q : List WaitOperation)
    → IsSorted q
    → collect now q ≡ (if all_due now q then (q, []) else ([], q))
unfolding collect
collect-sorted now [] s = refl
collect-sorted now (x ∷ q) s = ground (
  arith,
  collect-sorted now q s.1,
  λ (h : x.time_point ≤ now). all_due-le now q x.time_point h s.0,
)

pub step-IsSorted : (a : Action) (t : Timer) → IsSorted t.waiters → IsSorted (step a t).waiters
unfolding step async_wait_until async_wait_for tick discard
step-IsSorted (waits_until time_point callback) t s = push-IsSorted _ t.waiters s
step-IsSorted (waits_for now duration callback) t s = push-IsSorted _ t.waiters s
step-IsSorted (ticks now) t s =
    subst (λ (r : List WaitOperation × List WaitOperation). IsSorted r.1)
      (sym (collect-sorted now t.waiters s))
      (if_cases (λ (r : List WaitOperation × List WaitOperation). IsSorted r.1)
        (all_due now t.waiters) (λ _. tt) (λ _. s))
step-IsSorted discards t s = tt

-- Whatever is asked of a timer, its queue has the latest operation in front.
pub run-IsSorted :
    (acts : List Action) (t : Timer) → IsSorted t.waiters → IsSorted (run acts t).waiters
unfolding run
run-IsSorted [] t s = s
run-IsSorted (a ∷ acts) t s = run-IsSorted acts (step a t) (step-IsSorted a t s)

pub tick-sorted :
    (now : ℕ) (t : Timer)
    → IsSorted t.waiters
    → tick now t ≡ (
        if all_due now t.waiters
        then record t { waiters = []; fired = t.fired ++ fire now t.waiters }
        else t)
unfolding tick fire
tick-sorted now t s = ground (arith, collect-sorted now t.waiters s, append-nil t.fired)

-- A round of `exec` calls all the operations that wait, or none: where each of them is due it calls
-- them all, the latest first, and empties the queue; where only one is not due yet it calls none and
-- changes nothing.
pub tick_all_or_none :
    (acts : List Action) (precision unset now : ℕ)
    → let t = run acts (new_timer precision unset) in
      tick now t ≡ (
        if all_due now t.waiters
        then record t { waiters = []; fired = t.fired ++ fire now t.waiters }
        else t)
unfolding new_timer
tick_all_or_none acts precision unset now =
    tick-sorted now _ (run-IsSorted acts (new_timer precision unset) tt)

-- That an operation waits.
abbrev pub Waits : WaitOperation → List WaitOperation → Type 0
Waits x [] = ⊥
Waits x (y ∷ q) = (y ≡ x) ⊎ Waits x q

pub Waits-all_due :
    (x : WaitOperation) (now : ℕ) (q : List WaitOperation)
    → Waits x q
    → now < x.time_point
    → all_due now q ≡ false
Waits-all_due x now [] w h = absurd w
Waits-all_due x now (y ∷ q) (inl e) h = ground arith
Waits-all_due x now (y ∷ q) (inr w) h = ground (arith, Waits-all_due x now q w h)

-- An operation that waits for a later time keeps every other from being called, however long that is
-- overdue.
pub tick_blocked :
    (acts : List Action) (precision unset now : ℕ) (x : WaitOperation)
    → Waits x (run acts (new_timer precision unset)).waiters
    → now < x.time_point
    → tick now (run acts (new_timer precision unset)) ≡ run acts (new_timer precision unset)
tick_blocked acts precision unset now x w h =
    tick_all_or_none acts precision unset now
    ∙ ap (λ (b : Bool). if b then emptied else t) (Waits-all_due x now t.waiters w h)
  where
    t : Timer
    t = run acts (new_timer precision unset)

    emptied : Timer
    emptied = record t { waiters = []; fired = t.fired ++ fire now t.waiters }
