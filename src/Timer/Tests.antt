-- ===== src/Timer/Tests.antt =====
-- `Timer` (src/timer.cpp) on concrete operations.
use mathlib.Core.List.{Perm, Permᴰ}
use mathlib.Core.List.Permᴰ
use spinet.Timer.Ties.{Discipline, run_by, run_by-Perm}
use spinet.Timer.{less}
use spinet.Common.{if_cases, All, ◌≤◌, arith, ◌+◌, ◌≡◌, refl, [], ◌∷◌, ◌++◌, List, if◌then◌else◌}
use spinet.Timer.{
  WaitOperation, Action, waits_until, waits_for, ticks, discards, new_timer, tick, fire, run,
  async_wait_for,
}
use spinet.Timer.Firing.{all_due, IsSorted, All-le_trans, tick_all_or_none}
use spinet.Timer.Starving.{run-Frequent}
use spinet.Timer.Accounting.{called, waiting, all_dropped, run_counts, IsOnTime, run-IsOnTime}

-- An operation for time 5 and one for time 90.
abbrev two : List Action
two = waits_until 5 1 ∷ waits_for 10 80 2 ∷ []

tick_all_or_none_example :
    let t = run two (new_timer 1 0) in
    tick 100 t ≡ (
      if all_due 100 t.waiters
      then record t { waiters = []; fired = t.fired ++ fire 100 t.waiters }
      else t)
tick_all_or_none_example = tick_all_or_none two 1 0 100

abbrev history : List Action
history = waits_until 5 1 ∷ waits_for 10 80 2 ∷ ticks 100 ∷ waits_until 200 1 ∷ discards ∷ []

run_counts_example :
    called 1 (run history (new_timer 1 0)).fired
      + waiting 1 (run history (new_timer 1 0)).waiters
      + all_dropped 1 history (new_timer 1 0)
    ≡ 0 + 0 + 2
unfolding new_timer
run_counts_example = run_counts 1 history (new_timer 1 0)

run-IsOnTime_example : IsOnTime (run history (new_timer 1 0)).fired
unfolding new_timer
run-IsOnTime_example = run-IsOnTime history (new_timer 1 0) tt

-- An operation is due at 5; behind it a wait of 100 is set every 60, and the loop turns in between.
abbrev arrivals : List Action
arrivals = ticks 20 ∷ waits_for 70 100 3 ∷ ticks 130 ∷ waits_for 130 100 4 ∷ ticks 200 ∷ []

run-Frequent_example :
    (run arrivals (async_wait_for 10 100 2 (run (waits_until 5 1 ∷ []) (new_timer 1 0)))).fired
    ≡ (run (waits_until 5 1 ∷ []) (new_timer 1 0)).fired
run-Frequent_example =
    run-Frequent (waits_until 5 1 ∷ []) 1 0 10 100 2 arrivals
      (omega arith, (refl, (omega arith, (refl, (omega arith, tt)))))

-- The order that takes the operation pushed last first.
insert_first : WaitOperation → List WaitOperation → List WaitOperation
insert_first x [] = x ∷ []
insert_first x (y ∷ q) = if less x y then y ∷ insert_first x q else x ∷ (y ∷ q)

insert_first-Permᴰ : (x : WaitOperation) (q : List WaitOperation) → Permᴰ (insert_first x q) (x ∷ q)
unfolding insert_first
insert_first-Permᴰ x [] = Permᴰ.refl (x ∷ [])
insert_first-Permᴰ x (y ∷ q) =
    if_cases (λ r. Permᴰ r (x ∷ y ∷ q)) (less x y)
      (λ _. Permᴰ.trans (Permᴰ.cons refl (insert_first-Permᴰ x q)) (Permᴰ.swap refl refl))
      (λ _. Permᴰ.refl (x ∷ y ∷ q))

All-insert_first :
    (P : WaitOperation → Type 0) (x : WaitOperation) (q : List WaitOperation)
    → P x
    → All P q
    → All P (insert_first x q)
unfolding insert_first
All-insert_first P x [] h all = (h, tt)
All-insert_first P x (y ∷ q) h all =
    if_cases (All P) (less x y) (λ _. (all.0, All-insert_first P x q h all.1)) (λ _. (h, all))

insert_first-IsSorted :
    (x : WaitOperation) (q : List WaitOperation) → IsSorted q → IsSorted (insert_first x q)
unfolding insert_first
insert_first-IsSorted x [] s = (tt, tt)
insert_first-IsSorted x (y ∷ q) s =
    if_cases IsSorted (less x y)
      (λ t. (
        All-insert_first (λ z. z.time_point ≤ y.time_point) x q (ground arith) s.0,
        insert_first-IsSorted x q s.1,
      ))
      (λ f. ((ground arith, All-le_trans q y.time_point x.time_point (ground arith) s.0), s))

abbrev last_first : Discipline
last_first = record {
  insert = insert_first;
  insert-Permᴰ = insert_first-Permᴰ;
  insert-IsSorted = insert_first-IsSorted;
}

-- Two operations for the same time.
abbrev tied : List Action
tied = waits_until 5 1 ∷ waits_until 5 2 ∷ ticks 9 ∷ []

run_by-Perm_example :
    Perm (run_by last_first tied (new_timer 1 0)).fired (run tied (new_timer 1 0)).fired
    × Perm (run_by last_first tied (new_timer 1 0)).waiters (run tied (new_timer 1 0)).waiters
run_by-Perm_example = run_by-Perm last_first tied 1 0
