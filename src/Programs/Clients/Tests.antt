-- ===== src/Programs/Clients/Tests.antt =====
-- The programs example/echo/async/client.cpp and client2.cpp on arguments, with workers that remember their
-- descriptors and the small C library.
use spinet.Common.{◌≡◌, refl, List, [], ◌∷◌, Text, codes, negsuc}
use spinet.Address.{parse, to_sockaddr_in}
use spinet.Address.Small.{small_net, local, localhost}
use spinet.Programs.{goes_on, read_port, found, read_positive}
use spinet.Programs.Numbers.{stoi}
use spinet.Programs.Clients.{ClientOptions, client_options}

-- Less than no threads, and two connections.
abbrev arguments : List Text
arguments = codes "client" ∷ localhost ∷ codes "80" ∷ codes "-1" ∷ codes "2" ∷ codes "16" ∷ []

abbrev read : ClientOptions
read = record { address = local 80; worker_threads = negsuc 0; times = 2; payload_size = 16 }

accepted : client_options small_net arguments ≡ goes_on read
unfolding client_options stoi parse to_sockaddr_in read_port found read_positive
accepted = refl
