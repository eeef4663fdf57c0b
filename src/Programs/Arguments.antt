-- ===== src/Programs/Arguments.antt =====
-- Which arguments the serving programs under example/ accept.
use spinet.Common.{
  ℕ, List, ◌^◌, ap, ◌<◌, ◌≡◌, ◌↔◌, refl, ◌∙◌, ◌⊎◌, inl, inr, some, [], ◌∷◌, Text, codes, ℤ, pos,
  arith,
}
use spinet.Address.{Address, Net, parse}
use spinet.Programs.Numbers.{stoi}
use spinet.Programs.{
  Run, goes_on, exits, throws, ◌>>=◌, expect_int, in_range, read_port, above_zero, read_positive,
  found, read_threads, Options, read_options, http_options,
}

>>=-eq-goes_on :
    {A B : Type 0} (m : Run A) (f : A → Run B) {b : B}
    → (m >>= f) ≡ goes_on b
    → (a : A) × (m ≡ goes_on a) × (f a ≡ goes_on b)
>>=-eq-goes_on (goes_on a) f h = (a, refl, h)
>>=-eq-goes_on (exits message) f h = absurd (ground arith)
>>=-eq-goes_on (throws message) f h = absurd (ground arith)

expect_int-stoi : (t message : Text) (z : ℤ) → expect_int t message ≡ goes_on z → stoi t ≡ some z
unfolding expect_int
expect_int-stoi t message z h = ground arith

read_port-port :
    (t : Text) (p : ℕ) → read_port t ≡ goes_on p → (stoi t ≡ some (pos p)) × (p < 2 ^ 16)
unfolding read_port in_range expect_int
read_port-port t p h = ground arith

port-read_port : (t : Text) (p : ℕ) → stoi t ≡ some (pos p) → p < 2 ^ 16 → read_port t ≡ goes_on p
unfolding read_port in_range expect_int
port-read_port t p h lt = ground arith

read_positive-positive :
    (t invalid small : Text) (n : ℕ)
    → read_positive t invalid small ≡ goes_on n
    → (stoi t ≡ some (pos n)) × (0 < n)
unfolding read_positive above_zero expect_int
read_positive-positive t invalid small n h = ground arith

positive-read_positive :
    (t invalid small : Text) (n : ℕ)
    → stoi t ≡ some (pos n)
    → 0 < n
    → read_positive t invalid small ≡ goes_on n
unfolding read_positive above_zero expect_int
positive-read_positive t invalid small n h lt = ground arith

found-inl : (r : Address ⊎ Text) (a : Address) → found r ≡ goes_on a → r ≡ inl a
unfolding found
found-inl (inl b) a h = ground arith
found-inl (inr message) a h = absurd (ground arith)

module _ (net : Net) where
  -- What the options come from.
  pub record Accepted (address port threads : Text) (o : Options) : Type 0 where
    pub number : ℕ
    pub port_number : stoi port ≡ some (pos number)
    pub port_range : number < 2 ^ 16
    pub understood : parse net address number ≡ inl o.address
    pub threads_number : stoi threads ≡ some (pos o.worker_threads)
    pub some_threads : 0 < o.worker_threads

  Accepted-read_options :
      (address port threads : Text) (o : Options)
      → Accepted address port threads o
      → read_options net address port threads ≡ goes_on o
  unfolding read_options found read_threads
  Accepted-read_options address port threads o h = ground (
    arith,
    port-read_port port h.number h.port_number h.port_range,
    h.understood,
    positive-read_positive threads (codes "worker_threads is an invalid number.")
        (codes "worker_threads should be greater than 0.") o.worker_threads h.threads_number
        h.some_threads,
  )

  read_options-Accepted :
      (address port threads : Text) (o : Options)
      → read_options net address port threads ≡ goes_on o
      → Accepted address port threads o
  unfolding read_options found read_threads
  read_options-Accepted address port threads o h =
      let (p, hp, h1) = >>=-eq-goes_on (read_port port) _ h in
      let (a, ha, h2) = >>=-eq-goes_on (found (parse net address p)) _ h1 in
      let (n, hn, h3) = >>=-eq-goes_on (read_threads threads) _ h2 in
      let (ps, lt) = read_port-port port p hp in
      let (ns, above) = read_positive-positive threads _ _ n hn in
      record {
        number = p;
        port_number = ps;
        port_range = lt;
        understood = found-inl (parse net address p) a ha ∙ ap inl (ground (arith, h3));
        threads_number = ns ∙ ap (λ m. some (pos m)) (ground (arith, h3));
        some_threads = ground (arith, h3);
      }

  -- The arguments, with the name of the program.
  pub record AcceptedAll (argv : List Text) (o : Options) : Type 0 where
    pub name : Text
    pub address : Text
    pub port : Text
    pub threads : Text
    pub exact : argv ≡ name ∷ address ∷ port ∷ threads ∷ []
    pub accepted : Accepted address port threads o

  http_options-AcceptedAll :
      (argv : List Text) (o : Options) → http_options net argv ≡ goes_on o → AcceptedAll argv o
  unfolding http_options
  http_options-AcceptedAll [] o h = absurd (ground arith)
  http_options-AcceptedAll (a ∷ []) o h = absurd (ground arith)
  http_options-AcceptedAll (a ∷ b ∷ []) o h = absurd (ground arith)
  http_options-AcceptedAll (a ∷ b ∷ c ∷ []) o h = absurd (ground arith)
  http_options-AcceptedAll (name ∷ address ∷ port ∷ threads ∷ []) o h = record {
    name = name;
    address = address;
    port = port;
    threads = threads;
    exact = refl;
    accepted = read_options-Accepted address port threads o h;
  }
  http_options-AcceptedAll (a ∷ b ∷ c ∷ d ∷ e ∷ argv) o h = absurd (ground arith)

  AcceptedAll-http_options :
      (argv : List Text) (o : Options) → AcceptedAll argv o → http_options net argv ≡ goes_on o
  unfolding http_options
  AcceptedAll-http_options argv o h =
      ap (http_options net) h.exact ∙ Accepted-read_options h.address h.port h.threads o h.accepted

  -- The HTTP servers come as far as making a server exactly if there are three arguments behind the name of
  -- the program, the second is a number that fits in 16 bits, the first is with it an address that
  -- `Address::parse` understands, and the third is a number above zero; then these are their options.
  pub http_options-Accepted :
      (argv : List Text) (o : Options) → (http_options net argv ≡ goes_on o) ↔ AcceptedAll argv o
  http_options-Accepted argv o = (http_options-AcceptedAll argv o, AcceptedAll-http_options argv o)
