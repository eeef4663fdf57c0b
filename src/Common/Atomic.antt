-- ===== src/Common/Atomic.antt =====
-- `std::atomic<bool>::compare_exchange_weak`, which the run and close methods use as a guard.
use mathlib.Core.Bool.{Bool, true, false}

-- The flag after the call and what the call returns, for the expected value `false` and the desired
-- value `true`. The standard lets the weak form fail although the flag is `false`: `spurious` says
-- whether it does.
abbrev pub exchange_weak : (spurious flag : Bool) → Bool × Bool
exchange_weak true flag = (flag, false)
exchange_weak false true = (true, false)
exchange_weak false false = (true, true)
