-- ===== src/Server/Running.antt =====
-- `run` and `stop` of `Server` (src/server.cpp), and any sequence of its methods.
use spinet.Common.{
  ℕ, ◌≡◌, refl, ap, Bool, ◌&&◌, true, false, Option, none, some, List, [], ◌∷◌, All, Text, if_cases,
  ◌∙◌, arith,
}
use spinet.Address.{Address, Net}
use spinet.Workers.{Workers}
use spinet.Server.{
  Settings, Attempt, Server, new_server, with_settings, listen_tcp_endpoint, run_workers, run_set,
  run, stop, not_set, unset,
}
use spinet.Server.State.{
  IsIdle, IsBusy, IsConfigured, run_workers-IsBusy, map-stop-IsIdle, with_settings-IsConfigured,
  listen_tcp_endpoint-IsConfigured, run-IsConfigured, stop-IsConfigured,
}

-- A call of a method, with what the kernel does in it.
pub data Action : Type 0 where
  sets : Settings → Action
  listens : (kernel : ℕ → Attempt) → Address → Action
  runs : (spurious : Bool) → Action
  stops : Action

keeps_running : Action → Bool
keeps_running stops = false
keeps_running _ = true

unfoldable pub never_stops : List Action → Bool
unfolding keeps_running
never_stops [] = true
never_stops (a ∷ actions) = keeps_running a && never_stops actions

module _ (ws : Workers) (net : Net) where
  unfoldable pub step : Action → Server ws → Server ws
  step (sets settings) s = (with_settings ws settings s).0
  step (listens kernel address) s = (listen_tcp_endpoint ws net kernel address s).0
  step (runs spurious) s = (run ws spurious s).0
  step stops s = stop ws s

  unfoldable pub steps : List Action → Server ws → Server ws
  unfolding step
  steps [] s = s
  steps (a ∷ actions) s = steps actions (step a s)

  pub step-IsConfigured :
      (a : Action) (s : Server ws) → IsConfigured ws s → IsConfigured ws (step a s)
  unfolding step
  step-IsConfigured (sets settings) s h = with_settings-IsConfigured ws settings s h
  step-IsConfigured (listens kernel address) s h =
      listen_tcp_endpoint-IsConfigured ws net kernel address s h
  step-IsConfigured (runs spurious) s h = run-IsConfigured ws spurious s h
  step-IsConfigured stops s h = stop-IsConfigured ws s h

  steps-from :
      (actions : List Action) (s : Server ws)
      → IsConfigured ws s
      → IsConfigured ws (steps actions s)
  unfolding steps
  steps-from [] s h = h
  steps-from (a ∷ actions) s h = steps-from actions (step a s) (step-IsConfigured a s h)

  -- After any sequence of calls on a new server, it has workers only behind settings, then as many as
  -- those say and at least one, and no worker runs while the server does not.
  pub steps-IsConfigured : (actions : List Action) → IsConfigured ws (steps actions (new_server ws))
  steps-IsConfigured actions = steps-from actions (new_server ws) (record {
    unset_empty = λ _. refl;
    counted = λ st e. absurd (ground arith);
    positive = λ st e. absurd (ground arith);
    idle_workers = λ _. tt;
  })

  run_stop_lem :
      (s : Server ws) (settings : Settings)
      → s.running ≡ false
      → s.settings ≡ some settings
      → All (IsIdle ws) s.workers
      → ((run ws false s).1 ≡ none)
        × ((run ws false s).0.running ≡ true)
        × All (IsBusy ws) (run ws false s).0.workers
        × ((stop ws (run ws false s).0).running ≡ false)
        × All (IsIdle ws) (stop ws (run ws false s).0).workers
  unfolding run run_set stop unset
  run_stop_lem s settings off set idle = go s.running s.settings off set
    where
      go :
          (b : Bool) (o : Option Settings)
          → b ≡ false
          → o ≡ some settings
          → ((run ws false (record s { running = b; settings = o })).1 ≡ none)
            × ((run ws false (record s { running = b; settings = o })).0.running ≡ true)
            × All (IsBusy ws) (run ws false (record s { running = b; settings = o })).0.workers
            × ((stop ws (run ws false (record s { running = b; settings = o })).0).running ≡ false)
            × All
                (IsIdle ws)
                (stop ws (run ws false (record s { running = b; settings = o })).0).workers
      go true o off set = absurd (ground arith)
      go false none off set = absurd (ground arith)
      go false (some q) off set = (
        (run_workers-IsBusy ws s.workers idle).1,
        refl,
        (run_workers-IsBusy ws s.workers idle).0,
        refl,
        map-stop-IsIdle ws (run_workers ws s.workers).0,
      )

  -- After any sequence of calls that leaves the server idle with settings, a `run` whose exchange does not
  -- fail spuriously returns no message and leaves the server and every worker running, and a `stop` behind
  -- it leaves the server and every worker idle.
  pub run_stop :
      (actions : List Action) (settings : Settings)
      → (steps actions (new_server ws)).running ≡ false
      → (steps actions (new_server ws)).settings ≡ some settings
      → ((run ws false (steps actions (new_server ws))).1 ≡ none)
        × ((run ws false (steps actions (new_server ws))).0.running ≡ true)
        × All (IsBusy ws) (run ws false (steps actions (new_server ws))).0.workers
        × ((stop ws (run ws false (steps actions (new_server ws))).0).running ≡ false)
        × All (IsIdle ws) (stop ws (run ws false (steps actions (new_server ws))).0).workers
  run_stop actions settings off set =
      run_stop_lem (steps actions (new_server ws)) settings off set
        ((steps-IsConfigured actions).idle_workers off)

  run-running : (spurious : Bool) (s : Server ws) → s.running ≡ true → (run ws spurious s).0 ≡ s
  unfolding run
  run-running spurious s on = go spurious s.running on
    where
      go :
          (q b : Bool)
          → b ≡ true
          → (run ws q (record s { running = b })).0 ≡ record s { running = b }
      go q false on = absurd (ground arith)
      go true true on = refl
      go false true on = refl

  step-running :
      (a : Action) (s : Server ws) → s.running ≡ true → keeps_running a ≡ true → step a s ≡ s
  unfolding step with_settings listen_tcp_endpoint keeps_running
  step-running (sets settings) s on k =
      if_cases (λ (o : Server ws × Option Text). o.0 ≡ s) s.running (λ _. refl)
        (λ off. absurd (ground arith))
  step-running (listens kernel address) s on k =
      if_cases (λ (o : Server ws × List ℕ × Option Text). o.0 ≡ s) s.running (λ _. refl)
        (λ off. absurd (ground arith))
  step-running (runs spurious) s on k = run-running spurious s on
  step-running stops s on k = absurd (ground arith)

  steps-running :
      (actions : List Action) (s : Server ws)
      → s.running ≡ true
      → never_stops actions ≡ true
      → steps actions s ≡ s
  unfolding steps never_stops
  steps-running [] s on k = refl
  steps-running (a ∷ actions) s on k =
      ap (steps actions) (step-running a s on (ground arith))
      ∙ steps-running actions s on (ground arith)

  -- A `run` whose exchange does not fail spuriously, on an idle server without settings, returns a message
  -- and marks the server as running. No method but `stop` changes it from then on: it takes no settings.
  pub run_unset :
      (s : Server ws) (actions : List Action)
      → s.running ≡ false
      → s.settings ≡ none
      → never_stops actions ≡ true
      → ((run ws false s).1 ≡ some not_set)
        × (steps actions (run ws false s).0 ≡ record s { running = true })
  unfolding run run_set unset
  run_unset s actions off unset_yet k = go s.running s.settings off unset_yet
    where
      go :
          (b : Bool) (o : Option Settings)
          → b ≡ false
          → o ≡ none
          → ((run ws false (record s { running = b; settings = o })).1 ≡ some not_set)
            × (steps actions (run ws false (record s { running = b; settings = o })).0
                ≡ record s { running = true; settings = o })
      go true o off unset_yet = absurd (ground arith)
      go false (some q) off unset_yet = absurd (ground arith)
      go false none off unset_yet =
          (refl, steps-running actions (record s { running = true; settings = none }) refl k)
