-- ===== src/Server/Contract/Refinement.antt =====
-- That `Server` (src/server.cpp) keeps its contract.
use spinet.Common.{
  ℕ, ◌≤◌, ◌≡◌, refl, ap, ap₂, ◌∙◌, Bool, true, false, ◌&&◌, ◌⊎◌, inl, inr, Option, none, some, List,
  [], ◌∷◌, length, Text, ltb, if◌then◌else◌, if_cases, arith,
}
use spinet.Address.{Address, Net, SockaddrIn, to_sockaddr_in}
use spinet.Workers.{Workers}
use spinet.Server.{
  Settings, validate, Attempt, Server, new_server, set_up, with_settings, listen_at,
  listen_tcp_endpoint, run_set, run, stop, unset,
}
use spinet.Server.State.{IsConfigured, run_workers-IsBusy}
use spinet.Server.Listening.{each_listens, told, told-listen_at}
use spinet.Server.Running.{
  Action, sets, listens, runs, stops, step, steps, step-IsConfigured, steps-IsConfigured,
}
use spinet.Server.Kept.{settings-listen_tcp_endpoint, running-listen_tcp_endpoint}
use spinet.Server.Contract.{Phase, initial, is_address, accepts, next, answers}

threads : Option Settings → ℕ
threads none = 0
threads (some settings) = settings.workers

module _ (ws : Workers) (net : Net) where
  phase : Server ws → Phase
  unfolding threads
  phase s = record { running = s.running; threads = threads s.settings }

  -- Whether a method gives no message.
  succeeds : Action → Server ws → Bool
  unfolding told
  succeeds (sets settings) s = told (with_settings ws settings s).1
  succeeds (listens kernel address) s = told (listen_tcp_endpoint ws net kernel address s).2
  succeeds (runs spurious) s = told (run ws spurious s).1
  succeeds stops s = true

  pub successes : List Action → Server ws → List Bool
  unfolding succeeds
  successes [] s = []
  successes (a ∷ actions) s = succeeds a s ∷ successes actions (step ws net a s)

  -- A call does what the contract says.
  abbrev Simulates : Action → Server ws → Type 0
  Simulates a s =
      (succeeds a s ≡ accepts net a (phase s)) × (phase (step ws net a s) ≡ next net a (phase s))

  with_state : Bool → List ws.Worker → Option Settings → Server ws
  with_state b w o = record { running = b; workers = w; settings = o }

  sets-Simulates :
      (settings : Settings) (b : Bool) (w : List ws.Worker) (o : Option Settings)
      → ((st : Settings) → o ≡ some st → 1 ≤ st.workers)
      → Simulates (sets settings) (with_state b w o)
  unfolding succeeds accepts phase step next with_settings set_up validate unset told threads
      with_state
  sets-Simulates settings true w o positive = (refl, refl)
  sets-Simulates settings false w none positive =
      if_cases
        (λ (e : Option Text).
          (told (set_up ws settings e (with_state false w none)).1 ≡ ltb 0 settings.workers)
          × (phase (set_up ws settings e (with_state false w none)).0 ≡ (
              if ltb 0 settings.workers
              then record { running = false; threads = settings.workers }
              else record { running = false; threads = 0 })))
        (ltb settings.workers 1) (λ t. (ground arith, ground arith))
        (λ f. (ground arith, ground arith))
  sets-Simulates settings false w (some st) positive =
      (ground (arith, positive st refl), ground (arith, positive st refl))

  runs-Simulates :
      (spurious b : Bool) (w : List ws.Worker) (o : Option Settings)
      → IsConfigured ws (with_state b w o)
      → Simulates (runs spurious) (with_state b w o)
  unfolding succeeds accepts phase step next run run_set unset told threads with_state
  runs-Simulates true true w o h = (refl, refl)
  runs-Simulates true false w o h = (refl, refl)
  runs-Simulates false true w o h = (refl, refl)
  runs-Simulates false false w none h = (refl, refl)
  runs-Simulates false false w (some st) h = (
    ap told (run_workers-IsBusy ws w (h.idle_workers refl)).1 ∙ ground (arith, h.positive st refl),
    refl,
  )

  stops-Simulates :
      (b : Bool) (w : List ws.Worker) (o : Option Settings) → Simulates stops (with_state b w o)
  unfolding succeeds accepts phase step next stop with_state
  stops-Simulates true w o = (refl, refl)
  stops-Simulates false w o = (refl, refl)

  listens-told :
      (kernel : ℕ → Attempt) (r : SockaddrIn ⊎ Text) (w : List ws.Worker) (st : Settings)
      → length w ≡ st.workers
      → 1 ≤ st.workers
      → told (listen_at ws net kernel r (with_state false w (some st))).2
        ≡ (ltb 0 st.workers && is_address r && each_listens kernel st.workers 0)
  unfolding is_address told with_state listen_at
  listens-told kernel (inr message) w st counted positive = ground (arith, positive)
  listens-told kernel (inl a) w st counted positive =
      told-listen_at ws net kernel a (with_state false w (some st))
      ∙ (ap (λ n. each_listens kernel n 0) counted ∙ ground (arith, positive))

  listens-Simulates :
      (kernel : ℕ → Attempt) (address : Address) (b : Bool) (w : List ws.Worker)
      (o : Option Settings)
      → IsConfigured ws (with_state b w o)
      → Simulates (listens kernel address) (with_state b w o)
  unfolding succeeds accepts phase step next listen_tcp_endpoint unset told threads with_state
  listens-Simulates kernel address true w o h = (refl, refl)
  listens-Simulates kernel address false w none h = (refl, refl)
  listens-Simulates kernel address false w (some st) h = (
    listens-told kernel (to_sockaddr_in net address.address address.port) w st (h.counted st refl)
        (h.positive st refl),
    ap₂ (λ b o. record { running = b; threads = threads o })
        (running-listen_tcp_endpoint ws net kernel address (with_state false w (some st)))
        (settings-listen_tcp_endpoint ws net kernel address (with_state false w (some st))),
  )

  step-Simulates : (a : Action) (s : Server ws) → IsConfigured ws s → Simulates a s
  unfolding with_state
  step-Simulates (sets settings) s h =
      sets-Simulates settings s.running s.workers s.settings h.positive
  step-Simulates (listens kernel address) s h =
      listens-Simulates kernel address s.running s.workers s.settings h
  step-Simulates (runs spurious) s h = runs-Simulates spurious s.running s.workers s.settings h
  step-Simulates stops s h = stops-Simulates s.running s.workers s.settings

  successes-from :
      (actions : List Action) (s : Server ws)
      → IsConfigured ws s
      → successes actions s ≡ answers net actions (phase s)
  unfolding successes answers
  successes-from [] s h = refl
  successes-from (a ∷ actions) s h =
      let (same, kept) = step-Simulates a s h in
      ap₂ (λ b l. b ∷ l) same
        (successes-from actions (step ws net a s) (step-IsConfigured ws net a s h)
          ∙ ap (λ p. answers net actions p) kept)

  -- A new server refines its contract: of any sequence of calls, with whatever the kernel does in them, the
  -- same succeed.
  pub successes-answers :
      (actions : List Action) → successes actions (new_server ws) ≡ answers net actions initial
  unfolding phase threads steps
  successes-answers actions = successes-from actions (new_server ws) (steps-IsConfigured ws net [])
