-- ===== src/Address/Tests.antt =====
-- `Address` (src/core/address.cpp) on the small C library.
use spinet.Common.{ℕ, ◌≡◌, refl, inl, some, [], ◌∷◌, Text}
use spinet.Address.{Address, parse, to_string}
use spinet.Address.Parsing.{parse-parse, parse_confuses}
use spinet.Address.Decimal.{read_back, read_back-to_string}
use spinet.Address.Small.{small_net, small_net-IsPosix, localhost, local}

abbrev long : ℕ → Text
long last = 54 ∷ 1 ∷ 2 ∷ 3 ∷ 4 ∷ 5 ∷ 6 ∷ 7 ∷ 8 ∷ 9 ∷ 10 ∷ 11 ∷ 12 ∷ 13 ∷ 14 ∷ 15 ∷ last ∷ []

parse-localhost : parse small_net localhost 8080 ≡ inl (local 8080)
unfolding parse
parse-localhost = refl

parse-parse_example : parse (record small_net { behind = λ i. 255 }) localhost 80 ≡ inl (local 80)
parse-parse_example =
    parse-parse small_net small_net-IsPosix (λ i. 255) localhost 8080 80 parse-localhost refl

parse_confuses_example :
    (a : Address) × (parse small_net (long 16) 80 ≡ inl a) × (parse small_net (long 17) 80 ≡ inl a)
parse_confuses_example =
    parse_confuses small_net small_net-IsPosix (long 16) (long 17) 80 _ _ refl refl refl

read_back-to_string_example : read_back (to_string (local 8080)) ≡ some (localhost, 8080)
read_back-to_string_example = read_back-to_string (local 8080)
