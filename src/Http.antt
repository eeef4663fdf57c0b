-- ===== src/Http.antt =====
-- `HttpConnection` of example/http/simple/server.cpp: a connection that reads the header of a request, then
-- its body, writes a response and closes its socket, each in the callback of the operation before.
pub mod Serving
pub mod KeepAlive
pub mod Bodies
mod Tests
use spinet.Common.{
  ℕ, zero, suc, ◌+◌, ◌-◌, ◌*◌, Bool, true, false, not, ◌&&◌, Option, none, some, List, [], ◌∷◌,
  ◌++◌, length, Text, codes, ◌==◌, if◌then◌else◌, ltb, ◌%◌, ◌^◌, ℤ, to_size_t,
}
use spinet.Programs.Numbers.{stoi}

-- What the connection uses of the parser of the library httpparser, which gives the headers of a request
-- that it completes.
pub record Parsing : Type 0 where
  pub parse : List ℕ → Option (List (Text × Text))

-- A pointer into the array `header_end` or into the buffer of the header.
pub data Pointer : Type 0 where
  in_pattern in_header : (offset : ℕ) → Pointer

same : Pointer → Pointer → Bool
same (in_pattern i) (in_pattern j) = i == j
same (in_header i) (in_header j) = i == j
same _ _ = false

pub starts_with : List ℕ → List ℕ → Bool
starts_with xs [] = true
starts_with [] (y ∷ ys) = false
starts_with (x ∷ xs) (y ∷ ys) = (x == y) && starts_with xs ys

-- `std::search`: the place of the first occurrence of `ys` in `xs`, or the end of `xs`.
pub search : (xs ys : List ℕ) → ℕ
unfolding starts_with
search [] ys = 0
search (x ∷ xs) ys = let rest = search xs ys in if starts_with (x ∷ xs) ys then 0 else suc rest

-- "\r\n\r\n"
abbrev pub header_end : List ℕ
header_end = 13 ∷ 10 ∷ 13 ∷ 10 ∷ []

-- The first `header_len` bytes of the buffer are `header`.
pub record Connection : Type 0 where
  pub header : List ℕ
  pub header_cap : ℕ
  pub header_len : ℕ
  pub body_len : ℕ

-- The operation that a callback submits last, the call of `close`, or the end of the program by an exception
-- that leaves the callback.
pub data Request : Type 0 where
  async_read_some : (offset len : ℕ) → Request
  async_read : (len : ℕ) → Request
  async_write : Request
  close : Request
  terminate : Request

-- What the callback of an operation is told: an error, or the bytes that were read.
pub data Outcome : Type 0 where
  failed : Outcome
  done : (bytes : List ℕ) → Outcome

-- The constructor.
abbrev pub new_connection : Connection
new_connection = record { header = []; header_cap = 256; header_len = 0; body_len = 0 }

-- The difference of two numbers of the type `std::size_t`.
abbrev pub minus : ℕ → ℕ → ℕ
minus m n = (m + 2 ^ 64 - n) % 2 ^ 64

receive_request_header : Connection → Connection × Request
receive_request_header c = (c, async_read_some c.header_len (minus c.header_cap c.header_len))

pub start : Connection × Request
unfolding receive_request_header
start = receive_request_header new_connection

find_header_end : Connection → Bool
unfolding same search
find_header_end c = not (same (in_pattern (search header_end c.header)) (in_header c.header_len))

-- `new uint8_t[size]`, which throws for more bytes than an object may have.
pub allocate : {A : Type 0} → (size : ℕ) → (thrown next : A) → A
allocate size thrown next = if ltb size (2 ^ 63) then next else thrown

-- `next` is what follows the call.
resize_header_buffer :
    Connection → (next : Connection → Connection × Request) → Connection × Request
unfolding allocate
resize_header_buffer c next =
    if c.header_len == c.header_cap
    then allocate (c.header_cap * 2 % 2 ^ 64) (c, terminate)
        (next (record c { header_cap = c.header_cap * 2 % 2 ^ 64 }))
    else next c

set_header_length : List ℕ → Connection → Connection
set_header_length bytes c = record c {
  header = c.header ++ bytes;
  header_len = (c.header_len + length bytes) % 2 ^ 64;
}

pub same_text : Text → Text → Bool
same_text [] [] = true
same_text (x ∷ xs) (y ∷ ys) = (x == y) && same_text xs ys
same_text _ _ = false

-- The loop over the headers of a request: the length of a body that is to be received, which `expectInt`
-- reads. Where that throws, the loop ends.
pub body_length : List (Text × Text) → Option ℤ
unfolding same_text
body_length [] = none
body_length ((name, value) ∷ rest) =
    let later = body_length rest in
    if same_text name (codes "Content-Length") then stoi value else later

receive_body : Option ℤ → Connection → Connection × Request
unfolding allocate
receive_body none c = (c, async_write)
receive_body (some n) c = (
  record c { body_len = to_size_t n },
  allocate (to_size_t n) terminate (async_read (to_size_t n)),
)

module _ (p : Parsing) where
  parsed : Option (List (Text × Text)) → Connection → Connection × Request
  unfolding receive_body body_length
  parsed none c = (c, async_write)
  parsed (some headers) c = receive_body (body_length headers) c

  -- What follows `set_header_length` in the callback.
  header_received : Connection → Connection × Request
  unfolding find_header_end receive_request_header resize_header_buffer parsed
  header_received c =
      if find_header_end c
      then parsed (p.parse c.header) c
      else resize_header_buffer c receive_request_header

  -- The callback of the operation that was submitted last.
  pub resume : Outcome → Connection × Request → Connection × Request
  unfolding header_received set_header_length
  resume failed (c, async_read_some offset len) = (c, close)
  resume (done bytes) (c, async_read_some offset len) = header_received (set_header_length bytes c)
  resume failed (c, async_read len) = (c, close)
  resume (done bytes) (c, async_read len) = (c, async_write)
  resume outcome (c, async_write) = (c, close)
  resume outcome (c, close) = (c, close)
  resume outcome (c, terminate) = (c, terminate)

  pub resume_all : List Outcome → Connection × Request → Connection × Request
  unfolding resume
  resume_all [] v = v
  resume_all (o ∷ rest) v = resume_all rest (resume o v)
