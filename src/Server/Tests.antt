-- ===== src/Server/Tests.antt =====
-- `Server` (src/server.cpp) with runtimes and the small C library.
use spinet.Common.{
  ℕ, zero, suc, ◌⊎◌, ◌≡◌, refl, true, false, none, some, List, [], ◌∷◌, length, All, Text,
}
use spinet.Address.{to_sockaddr_in}
use spinet.Address.Small.{small_net, local, sockaddr, accepts_localhost}
use spinet.Workers.{Workers}
use spinet.Runtime.Tables.{tables}
use spinet.Runtime.{dropped}
use spinet.Runtime.Serving.{runtimes}
use spinet.Server.{
  Settings, Attempt, bind_failed, listening, Server, new_server, listen_tcp_endpoint, register_all,
  run, stop, with_settings,
}
use spinet.Server.State.{IsIdle, IsBusy}
use spinet.Server.Running.{Action, sets, listens, runs, stops, step, steps, run_stop, never_stops}
use spinet.Runtime.Serving.Registry.{IsServing}
use spinet.Server.Contract.{answers, initial}
use spinet.Server.Contract.Refinement.{successes, successes-answers}
use spinet.Server.Registries.{steps-IsServing}
use spinet.Server.Listening.{listen_tcp_endpoint-opens, attempts, all_listen, sockets, each_listens}

-- The workers are runtimes.
abbrev served : Workers
served = runtimes tables (λ p. dropped false)

abbrev two_workers : Settings
two_workers = record { workers = 2; reuse_port = true }

-- The second descriptor is not bound.
abbrev second_fails : ℕ → Attempt
second_fails zero = listening 7
second_fails (suc i) = bind_failed 8 98

abbrev calls : List Action
calls =
    sets two_workers ∷ listens second_fails (local 80) ∷ listens (λ i. listening i) (local 80) ∷ []

abbrev listened : Server served
listened = steps served small_net calls (new_server served)

settings_left : listened.settings ≡ some two_workers
unfolding steps step with_settings listen_tcp_endpoint to_sockaddr_in
settings_left = refl

idle_left : listened.running ≡ false
unfolding steps step with_settings listen_tcp_endpoint to_sockaddr_in
idle_left = refl

run_stop_example :
    ((run served false listened).1 ≡ none)
    × ((run served false listened).0.running ≡ true)
    × All (IsBusy served) (run served false listened).0.workers
    × ((stop served (run served false listened).0).running ≡ false)
    × All (IsIdle served) (stop served (run served false listened).0).workers
run_stop_example = run_stop served small_net calls two_workers idle_left settings_left

abbrev without_stop : List Action
without_stop = sets two_workers ∷ runs false ∷ listens second_fails (local 80) ∷ []

none_stops : never_stops without_stop ≡ true
unfolding never_stops
none_stops = refl

listen_tcp_endpoint-opens_example :
    ((all_listen (attempts second_fails (length listened.workers) 0) ≡ true)
      × (length (sockets (attempts second_fails (length listened.workers) 0))
          ≡ length listened.workers)
      × (listen_tcp_endpoint served small_net second_fails (local 80) listened ≡ (
        record listened {
          workers =
              register_all served listened.workers
                (sockets (attempts second_fails (length listened.workers) 0));
        },
        [],
        none,
      )))
    ⊎ ((all_listen (attempts second_fails (length listened.workers) 0) ≡ false)
        × ((message : Text) × (listen_tcp_endpoint served small_net second_fails (local 80) listened
              ≡ (
                listened,
                sockets (attempts second_fails (length listened.workers) 0),
                some message,
              ))))
listen_tcp_endpoint-opens_example =
    listen_tcp_endpoint-opens served small_net second_fails (local 80) two_workers sockaddr listened
      idle_left settings_left accepts_localhost

steps-IsServing_example : All (IsServing tables) listened.workers
steps-IsServing_example = steps-IsServing tables (λ p. dropped false) small_net calls

-- The endpoint fails at the second descriptor, then listens; a running server refuses settings.
abbrev life : List Action
life =
    runs false
    ∷ stops
    ∷ sets two_workers
    ∷ listens second_fails (local 80)
    ∷ listens (λ i. listening i) (local 80)
    ∷ runs false
    ∷ sets two_workers
    ∷ stops
    ∷ []

answers-life :
    answers small_net life initial ≡ false ∷ true ∷ true ∷ false ∷ true ∷ true ∷ false ∷ true ∷ []
unfolding answers to_sockaddr_in each_listens
answers-life = refl

successes-answers_example :
    successes served small_net life (new_server served) ≡ answers small_net life initial
successes-answers_example = successes-answers served small_net life
