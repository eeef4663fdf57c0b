-- ===== src/Programs.antt =====
-- The programs under example/ that serve: how they read their arguments (example/include/util.h and each
-- `main`), and what they do with a `Server` (example/http/simple/server.cpp,
-- example/http/keep_alive/server.cpp, example/echo/async/server.cpp).
pub mod Numbers
pub mod Arguments
pub mod Serving
pub mod Clients
mod Tests
use spinet.Common.{
  ℕ, ◌⊎◌, inl, inr, Option, none, some, List, [], ◌∷◌, map, Text, codes, ltb, if◌then◌else◌, ℤ, pos,
  negsuc,
}
use spinet.Address.{Address, Net, parse, resolve, to_string}
use Numbers.{stoi}

-- A part of `main`: it goes on with a value, returns EXIT_FAILURE behind a message on the standard error, or
-- leaves by an exception that nothing catches.
pub data Run (A : Type 0) : Type 0 where
  goes_on : A → Run A
  exits throws : (message : Text) → Run A

infixl 5 ◌>>=◌
abbrev pub ◌>>=◌ : {A B : Type 0} → Run A → (A → Run B) → Run B
goes_on a >>= f = f a
exits message >>= f = exits message
throws message >>= f = throws message

-- `expectInt`
pub expect_int : Text → (message : Text) → Run ℤ
expect_int t message = elim (stoi t) [ some n ↦ goes_on n | none ↦ throws message ]

in_range : ℤ → Run ℕ
in_range (pos n) =
    if ltb 65535 n then exits (codes "port should be between 0 and 65535.") else goes_on n
in_range (negsuc n) = exits (codes "port should be between 0 and 65535.")

-- The port of a program, and a number of it that is to be positive.
pub read_port : Text → Run ℕ
unfolding expect_int in_range
read_port t = do n ← expect_int t (codes "port is an invalid number."); in_range n

above_zero : (message : Text) → ℤ → Run ℕ
above_zero message (pos n) = if ltb 0 n then goes_on n else exits message
above_zero message (negsuc n) = exits message

pub read_positive : Text → (invalid small : Text) → Run ℕ
unfolding expect_int above_zero
read_positive t invalid small = do n ← expect_int t invalid; above_zero small n

found : Address ⊎ Text → Run Address
found (inl a) = goes_on a
found (inr message) = exits message

pub read_threads : Text → Run ℕ
unfolding read_positive
read_threads t =
    read_positive t (codes "worker_threads is an invalid number.")
      (codes "worker_threads should be greater than 0.")

pub record Options : Type 0 where
  pub address : Address
  pub worker_threads : ℕ

module _ (net : Net) where
  -- What the servers' `main` reads of its arguments, behind the test of their number.
  read_options : (address port threads : Text) → Run Options
  unfolding read_port found read_threads
  read_options address port threads = do
    p ← read_port port
    a ← found (parse net address p)
    n ← read_threads threads
    goes_on (record { address = a; worker_threads = n })

  -- `main` of the HTTP servers, from `argv` with the name of the program.
  pub http_options : List Text → Run Options
  unfolding read_options
  http_options (name ∷ address ∷ port ∷ threads ∷ []) = read_options address port threads
  http_options _ = exits (codes "Usage: PROGRAM_NAME ${address} ${port} ${worker_threads}")

  -- `main` of the echo server, which has the size of a buffer as well.
  pub echo_options : List Text → Run (Options × ℕ)
  unfolding read_options read_positive
  echo_options (name ∷ address ∷ port ∷ threads ∷ payload ∷ []) = do
    o ← read_options address port threads
    size ←
        read_positive payload (codes "payload_size is an invalid number.")
          (codes "payload_size should be greater than 0.")
    goes_on (o, size)
  echo_options _ =
      exits (codes "Usage: PROGRAM_NAME ${address} ${port} ${worker_threads} ${payload_size}")

  -- `main` of example/address/resolve.cpp, with the lines that it prints.
  listed : List Address ⊎ Text → Run (List Text)
  listed (inl addresses) = goes_on (map to_string addresses)
  listed (inr message) = exits message

  pub resolve_main : List Text → Run (List Text)
  unfolding read_port listed
  resolve_main (name ∷ domain ∷ port ∷ []) = do p ← read_port port; listed (resolve net domain p)
  resolve_main _ = exits (codes "Usage: PROGRAM_NAME ${address} ${port}")
