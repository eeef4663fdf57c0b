-- ===== src/Client/Tests.antt =====
-- `Client` (src/client.cpp) with workers that remember their descriptors and the small C library.
use spinet.Common.{true, ◌≡◌, refl, false, some, List, [], ◌∷◌}
use spinet.Address.{to_sockaddr_in, from_sockaddr_in, parse}
use spinet.Address.Small.{small_net, small_net-IsPosix, local, sockaddr, accepts_localhost}
use spinet.Workers.Recorded.{recorded}
use spinet.Client.{
  Settings, connected, connect_failed, Client, new_client, with_settings, run, tcp_connect,
  select_runtime,
}
use spinet.Client.Connecting.{
  Action, sets, connects, runs, step, steps, Concluded, tcp_connect-Concluded,
}

abbrev three_workers : Settings
three_workers = record { workers = 3; reuse_port = true }

-- The second call of `connect` fails.
abbrev calls : List Action
calls =
    sets three_workers
    ∷ runs false
    ∷ connects (connected 5) (local 80)
    ∷ connects (connect_failed 6 111) (local 80)
    ∷ connects (connected 6) (local 80)
    ∷ []

abbrev connecting : Client recorded
connecting = steps recorded small_net calls (new_client recorded)

settings_left : connecting.settings ≡ some three_workers
unfolding steps step with_settings run tcp_connect to_sockaddr_in from_sockaddr_in parse
settings_left = refl

running_left : connecting.running ≡ true
unfolding steps step with_settings run tcp_connect to_sockaddr_in from_sockaddr_in parse
running_left = refl

next_place : (select_runtime recorded connecting).1 ≡ 2
unfolding steps step with_settings run tcp_connect to_sockaddr_in from_sockaddr_in parse
    select_runtime
next_place = refl

tcp_connect-Concluded_example :
    Concluded recorded small_net
      (connected 9)
      sockaddr
      connecting
      (tcp_connect recorded small_net (connected 9) (local 80) connecting)
tcp_connect-Concluded_example =
    tcp_connect-Concluded recorded small_net small_net-IsPosix (connected 9) (local 80)
      three_workers sockaddr connecting running_left settings_left accepts_localhost
