-- ===== src/Workers/Recorded.antt =====
-- Workers that only remember what is registered with them.
use spinet.Common.{
  ℕ, ◌≡◌, refl, ap, Bool, true, false, Option, none, some, List, [], ◌∷◌, Text, codes,
}
use spinet.Workers.{Workers}

pub record Recorded : Type 0 where
  pub running : Bool
  pub descriptors : List ℕ

abbrev pub refusal : Bool → Option Text
refusal true = some (codes "runtime has been running")
refusal false = none

pub refusal-idle : (b : Bool) → b ≡ false → refusal b ≡ none
refusal-idle b h = ap refusal h

abbrev pub recorded : Workers
recorded = record {
  Worker = Recorded;
  fresh = record { running = false; descriptors = [] };
  run = λ w. (record w { running = true }, refusal w.running);
  stop = λ w. record w { running = false };
  is_running = λ w. w.running;
  register_acceptor = λ fd w. record w { descriptors = fd ∷ w.descriptors };
  register_socket = λ fd peer w. record w { descriptors = fd ∷ w.descriptors };
  fresh_idle = refl;
  run_starts = λ w h. refl;
  run_accepts = λ w h. refusal-idle w.running h;
  stop_stops = λ w. refl;
  register_acceptor_keeps = λ fd w. refl;
  register_socket_keeps = λ fd peer w. refl;
}
