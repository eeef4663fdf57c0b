-- ===== src/Timer/Starving.antt =====
-- What waits set again and again do to the operations of a `Timer` (src/timer.cpp), as those that the
-- connections of example/http/keep_alive/server.cpp set.
use spinet.Common.{
  ℕ, ◌+◌, ◌≤◌, ◌<◌, ◌≡◌, refl, ap, ◌∙◌, Bool, inl, inr, List, [], ◌∷◌, ◌++◌, if◌then◌else◌,
  if_cases, arith,
}
use spinet.Timer.{
  WaitOperation, Timer, push, async_wait_until, async_wait_for, fire, tick, Action, waits_until,
  waits_for, ticks, discards, step, run, less, new_timer,
}
use spinet.Timer.Firing.{IsSorted, tick-sorted, step-IsSorted, run-IsSorted, Waits, Waits-all_due}

-- A wait of `duration` is set anew before the last one set is due: `last` is when that was. The timer is not
-- left by its loop.
abbrev pub Frequent : (duration last : ℕ) → List Action → Type 0
Frequent duration last [] = Unit
Frequent duration last (waits_until time_point callback ∷ acts) = Frequent duration last acts
Frequent duration last (waits_for now d callback ∷ acts) =
    (d ≡ duration) × Frequent duration now acts
Frequent duration last (ticks now ∷ acts) = (now < last + duration) × Frequent duration last acts
Frequent duration last (discards ∷ acts) = ⊥

-- An operation waits that is not due before this time.
abbrev Late : ℕ → List WaitOperation → Type 0
Late time_point q = (x : WaitOperation) × Waits x q × (time_point ≤ x.time_point)

Waits-push-new : (x : WaitOperation) (q : List WaitOperation) → Waits x (push x q)
unfolding push
Waits-push-new x [] = inl refl
Waits-push-new x (y ∷ q) =
    if_cases (Waits x) (less y x) (λ _. inl refl) (λ _. inr (Waits-push-new x q))

Waits-push : (x y : WaitOperation) (q : List WaitOperation) → Waits x q → Waits x (push y q)
unfolding push
Waits-push x y [] w = absurd w
Waits-push x y (z ∷ q) (inl e) = if_cases (Waits x) (less z y) (λ _. inr (inl e)) (λ _. inl e)
Waits-push x y (z ∷ q) (inr w) =
    if_cases (Waits x) (less z y) (λ _. inr (inr w)) (λ _. inr (Waits-push x y q w))

blocked :
    (now : ℕ) (t : Timer) (bound : ℕ)
    → IsSorted t.waiters
    → Late bound t.waiters
    → now < bound
    → tick now t ≡ t
blocked now t bound sorted (x, waits, late) early =
    tick-sorted now t sorted
    ∙ ap
        (λ (b : Bool).
          if b then record t { waiters = []; fired = t.fired ++ fire now t.waiters } else t)
        (Waits-all_due x now t.waiters waits (omega arith))

starves :
    (duration last : ℕ) (acts : List Action) (t : Timer)
    → IsSorted t.waiters
    → Late (last + duration) t.waiters
    → Frequent duration last acts
    → (run acts t).fired ≡ t.fired
unfolding run step async_wait_until async_wait_for
starves duration last [] t sorted late often = refl
starves duration last (waits_until time_point callback ∷ acts) t sorted (x, waits, later) often =
    starves duration last acts _ (step-IsSorted (waits_until time_point callback) t sorted)
      (x, Waits-push x _ t.waiters waits, later) often
starves duration last (waits_for now d callback ∷ acts) t sorted late often =
    starves duration now acts _ (step-IsSorted (waits_for now d callback) t sorted)
      (
        record { time_point = now + d; callback = callback },
        Waits-push-new _ t.waiters,
        omega (arith, often.0),
      )
      often.1
starves duration last (ticks now ∷ acts) t sorted late often =
    ap (λ u. (run acts u).fired) (blocked now t (last + duration) sorted late often.0)
    ∙ starves duration last acts t sorted late often.1
starves duration last (discards ∷ acts) t sorted late often = absurd often

-- While a wait is set anew before the one before it is due, as connections do that arrive in a row and each wait
-- for as long, no callback is ever called, not even of operations that were due long before, however often
-- the loop of `exec` turns.
pub run-Frequent :
    (before : List Action) (precision unset now duration callback : ℕ) (acts : List Action)
    → Frequent duration now acts
    → (run acts
        (async_wait_for now duration callback (run before (new_timer precision unset)))).fired
      ≡ (run before (new_timer precision unset)).fired
unfolding async_wait_for async_wait_until new_timer step
run-Frequent before precision unset now duration callback acts often =
    starves duration now acts _
      (step-IsSorted (waits_until (now + duration) callback) t
        (run-IsSorted before (new_timer precision unset) tt))
      (
        record { time_point = now + duration; callback = callback },
        Waits-push-new _ t.waiters,
        omega arith,
      )
      often
  where
    t : Timer
    t = run before (new_timer precision unset)
