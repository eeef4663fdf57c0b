-- ===== src/Programs/Tests.antt =====
-- The programs under example/ on arguments, with runtimes or workers that remember, and the small C library.
use spinet.Common.{
  ◌%◌, ◌^◌, ◌<◌, ◌≡◌, ◌↔◌, ◌⊎◌, refl, false, none, some, List, [], ◌∷◌, length, Text, codes, negsuc,
}
use spinet.Address.Small.{small_net, local, localhost}
use spinet.Workers.Recorded.{recorded}
use spinet.Server.{listening}
use spinet.Programs.{goes_on, exits, Options, http_options}
use spinet.Programs.Numbers.{stoi}
use spinet.Programs.Arguments.{AcceptedAll, http_options-Accepted}
use spinet.Programs.Serving.{serve, serve_wraps}

-- Spaces and a sign in front, and what follows the digits, are of no consequence.
reads_prefix : stoi (codes " -12px") ≡ some (negsuc 11)
unfolding stoi
reads_prefix = refl

-- The number behind the largest `int` is refused.
too_large : stoi (codes "2147483648") ≡ none
unfolding stoi
too_large = refl

abbrev arguments : List Text
arguments = codes "server" ∷ localhost ∷ codes "80" ∷ codes "4" ∷ []

http_options-Accepted_example :
    (http_options small_net arguments ≡ goes_on (record { address = local 80; worker_threads = 4 }))
    ↔ AcceptedAll small_net arguments (record { address = local 80; worker_threads = 4 })
http_options-Accepted_example =
    http_options-Accepted small_net arguments (record { address = local 80; worker_threads = 4 })

-- 2 ^ 16 threads are none.
abbrev many : Options
many = record { address = local 80; worker_threads = 65536 }

serve_wraps_example :
    ((65536 % 2 ^ 16 ≡ 0)
      × ((serve recorded small_net (λ i. listening i) false many).1
          ≡ exits (codes "workers must be more than zero"))
      × ((serve recorded small_net (λ i. listening i) false many).0.workers ≡ []))
    ⊎ ((0 < 65536 % 2 ^ 16)
        × (length (serve recorded small_net (λ i. listening i) false many).0.workers
            ≡ 65536 % 2 ^ 16))
serve_wraps_example = serve_wraps recorded small_net (λ i. listening i) false many
