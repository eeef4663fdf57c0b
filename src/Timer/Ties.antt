-- ===== src/Timer/Ties.antt =====
-- That it is of no consequence in which order `std::priority_queue` (src/timer.cpp) takes operations for the same
-- time, which the standard leaves open.
use spinet.Common.{
  ℕ, ◌+◌, ◌≡◌, refl, sym, ap, subst, ◌∙◌, Bool, true, false, List, [], ◌∷◌, ◌++◌, if◌then◌else◌,
  if_cases, arith,
}
use mathlib.Core.List.{Perm, Permᴰ}
use mathlib.Core.List.Permᴰ
use spinet.Timer.{
  WaitOperation, Timer, push, async_wait_until, async_wait_for, fire, tick, discard, Action,
  waits_until, waits_for, ticks, discards, step, run, less, new_timer,
}
use spinet.Timer.Firing.{IsSorted, all_due, tick-sorted, push-IsSorted}

-- Another order of the operations for the same time.
pub record Discipline : Type 0 where
  pub insert : WaitOperation → List WaitOperation → List WaitOperation
  pub insert-Permᴰ : (x : WaitOperation) (q : List WaitOperation) → Permᴰ (insert x q) (x ∷ q)
  pub insert-IsSorted :
      (x : WaitOperation) (q : List WaitOperation) → IsSorted q → IsSorted (insert x q)

push-Permᴰ : (x : WaitOperation) (q : List WaitOperation) → Permᴰ (push x q) (x ∷ q)
unfolding push
push-Permᴰ x [] = Permᴰ.refl (x ∷ [])
push-Permᴰ x (y ∷ q) =
    if_cases (λ r. Permᴰ r (x ∷ y ∷ q)) (less y x) (λ _. Permᴰ.refl (x ∷ y ∷ q))
      (λ _. Permᴰ.trans (Permᴰ.cons refl (push-Permᴰ x q)) (Permᴰ.swap refl refl))

fire-Permᴰ : (now : ℕ) {p q : List WaitOperation} → Permᴰ p q → Permᴰ (fire now p) (fire now q)
unfolding fire
fire-Permᴰ now Permᴰ.nil = Permᴰ.nil
fire-Permᴰ now (Permᴰ.cons e d) =
    Permᴰ.cons
      (ap (λ (x : WaitOperation). record { callback = x.callback; prev = x.time_point; now = now })
        e)
      (fire-Permᴰ now d)
fire-Permᴰ now (Permᴰ.swap e f) =
    Permᴰ.swap
      (ap (λ (x : WaitOperation). record { callback = x.callback; prev = x.time_point; now = now })
        e)
      (ap (λ (x : WaitOperation). record { callback = x.callback; prev = x.time_point; now = now })
        f)
fire-Permᴰ now (Permᴰ.trans d e) = Permᴰ.trans (fire-Permᴰ now d) (fire-Permᴰ now e)

all_due-Permᴰ : (now : ℕ) {p q : List WaitOperation} → Permᴰ p q → all_due now p ≡ all_due now q
all_due-Permᴰ now Permᴰ.nil = refl
all_due-Permᴰ now (Permᴰ.cons e d) =
    ground (arith, ap WaitOperation.time_point e, all_due-Permᴰ now d)
all_due-Permᴰ now (Permᴰ.swap e f) =
    ground (arith, ap WaitOperation.time_point e, ap WaitOperation.time_point f)
all_due-Permᴰ now (Permᴰ.trans d e) = all_due-Permᴰ now d ∙ all_due-Permᴰ now e

module _ (d : Discipline) where
  -- A call on a timer whose queue has this order.
  pub step_by : Action → Timer → Timer
  step_by (waits_until time_point callback) t = record t {
    waiters = d.insert (record { time_point = time_point; callback = callback }) t.waiters;
  }
  step_by (waits_for now duration callback) t = record t {
    waiters = d.insert (record { time_point = now + duration; callback = callback }) t.waiters;
  }
  step_by (ticks now) t = tick now t
  step_by discards t = discard t

  pub run_by : List Action → Timer → Timer
  unfolding step_by
  run_by [] t = t
  run_by (a ∷ acts) t = run_by acts (step_by a t)

  -- Two timers that differ in the order of what waits and of what was called.
  record Alike (t' t : Timer) : Type 0 where
    waiting : Permᴰ t'.waiters t.waiters
    called : Permᴰ t'.fired t.fired
    sorted_by : IsSorted t'.waiters
    sorted : IsSorted t.waiters

  insert-Alike :
      (x : WaitOperation) (t' t : Timer)
      → Alike t' t
      → Alike
          (record t' { waiters = d.insert x t'.waiters })
          (record t { waiters = push x t.waiters })
  insert-Alike x t' t h = record {
    waiting =
        Permᴰ.trans (d.insert-Permᴰ x t'.waiters)
          (Permᴰ.trans (Permᴰ.cons refl h.waiting) (Permᴰ.symm (push-Permᴰ x t.waiters)));
    called = h.called;
    sorted_by = d.insert-IsSorted x t'.waiters h.sorted_by;
    sorted = push-IsSorted x t.waiters h.sorted;
  }

  -- What a tick makes of a timer, if all its operations are due or not.
  abbrev ticked : ℕ → Bool → Timer → Timer
  ticked now b t = if b then record t { waiters = []; fired = t.fired ++ fire now t.waiters } else t

  ticked-Alike :
      (now : ℕ) (b : Bool) (t' t : Timer) → Alike t' t → Alike (ticked now b t') (ticked now b t)
  ticked-Alike now true t' t h = record {
    waiting = Permᴰ.nil;
    called =
        Permᴰ.trans (Permᴰ.append_right (fire now t'.waiters) h.called)
          (Permᴰ.append_left t.fired (fire-Permᴰ now h.waiting));
    sorted_by = tt;
    sorted = tt;
  }
  ticked-Alike now false t' t h = h

  tick-Alike : (now : ℕ) (t' t : Timer) → Alike t' t → Alike (tick now t') (tick now t)
  tick-Alike now t' t h =
      subst (λ u. Alike u (tick now t))
        (sym (
          tick-sorted now t' h.sorted_by ∙ ap (λ b. ticked now b t') (all_due-Permᴰ now h.waiting)))
        (subst (Alike (ticked now (all_due now t.waiters) t')) (sym (tick-sorted now t h.sorted))
          (ticked-Alike now (all_due now t.waiters) t' t h))

  step-Alike : (a : Action) (t' t : Timer) → Alike t' t → Alike (step_by a t') (step a t)
  unfolding step_by step async_wait_until async_wait_for discard
  step-Alike (waits_until time_point callback) t' t h = insert-Alike _ t' t h
  step-Alike (waits_for now duration callback) t' t h = insert-Alike _ t' t h
  step-Alike (ticks now) t' t h = tick-Alike now t' t h
  step-Alike discards t' t h = record {
    waiting = Permᴰ.nil;
    called = h.called;
    sorted_by = tt;
    sorted = tt;
  }

  run-Alike : (acts : List Action) (t' t : Timer) → Alike t' t → Alike (run_by acts t') (run acts t)
  unfolding run_by run
  run-Alike [] t' t h = h
  run-Alike (a ∷ acts) t' t h = run-Alike acts (step_by a t') (step a t) (step-Alike a t' t h)

  -- In whichever order the queue of a timer keeps operations for the same time, as long as it keeps the latest
  -- in front: whatever is asked of the timer, the same operations are called, each with the same times,
  -- and the same wait, up to their order.
  pub run_by-Perm :
      (acts : List Action) (precision unset : ℕ)
      → Perm
          (run_by acts (new_timer precision unset)).fired
          (run acts (new_timer precision unset)).fired
        × Perm
            (run_by acts (new_timer precision unset)).waiters
            (run acts (new_timer precision unset)).waiters
  unfolding new_timer
  run_by-Perm acts precision unset =
      let h =
        run-Alike acts (new_timer precision unset) (new_timer precision unset)
          (record { waiting = Permᴰ.nil; called = Permᴰ.nil; sorted_by = tt; sorted = tt }) in
      (∣ h.called ∣₁, ∣ h.waiting ∣₁)
