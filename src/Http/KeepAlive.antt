-- ===== src/Http/KeepAlive.antt =====
-- `HttpConnection` of example/http/keep_alive/server.cpp: it reads a request, writes a response and, where
-- the request asks for that, begins again; beside it a wait on a timer closes a connection that is idle.
pub mod Window
pub mod Idle
mod Tests
use spinet.Common.{
  ℕ, ◌+◌, ◌*◌, ◌%◌, ◌^◌, Bool, true, false, Option, none, some, List, [], ◌∷◌, ◌++◌, length, Text,
  codes, leb, ◌==◌, if◌then◌else◌, ℤ, to_size_t,
}
use spinet.Http.{search, header_end, minus, allocate, body_length}

-- What the connection uses of the library httpparser: the state of its parser together with the request that
-- it fills, which the connection keeps from one request to the next. `parse` says whether it completed.
pub record Parser : Type 1 where
  pub State : Type 0
  pub initial : State
  pub parse : List ℕ → State → State × Bool
  pub headers : State → List (Text × Text)
  pub keep_alive : State → Bool

-- The operation that a callback submits last, the call of `close`, or the end of the program by an exception
-- that leaves the callback.
pub data Request : Type 0 where
  async_read_some : (offset len : ℕ) → Request
  async_read : (len : ℕ) → Request
  async_write : (payload : Text) → Request
  close : Request
  terminate : Request

abbrev line_end : Text
line_end = 13 ∷ 10 ∷ []

-- RESPONSE_KEEP_ALIVE and RESPONSE_CONNECTION_CLOSED, with the zero at their end, which `sizeof` counts.
pub response : (keep_alive : Bool) → Text
response keep_alive =
    codes "HTTP/1.1 200 OK"
    ++ line_end
    ++ codes "Connection: "
    ++ (if keep_alive then codes "Keep-Alive" else codes "close")
    ++ line_end
    ++ codes "Content-Type: text/html; charset=utf-8"
    ++ line_end
    ++ codes "Content-Length: 14"
    ++ line_end
    ++ line_end
    ++ codes "Hello, world!"
    ++ 0 ∷ []

-- What happens to a connection: its operation fails, or it ends well, or its wait is over.
pub data Event : Type 0 where
  fails : Event
  ends : (now distance : ℕ) → (bytes : List ℕ) → Event
  wakes : (now : ℕ) → Event

module _ (p : Parser) where
  -- The first `header_len` bytes of the buffer are `header`. `last_receive` counts nanoseconds.
  pub record Connection : Type 0 where
    pub header : List ℕ
    pub header_cap : ℕ
    pub header_len : ℕ
    pub body_len : ℕ
    pub state : p.State
    pub last_receive : ℕ

  -- A connection with the request that is under way. `waiting` says that the timer holds a wait of 100
  -- milliseconds for it, `closed` that the wait has closed its socket.
  pub record Live : Type 0 where
    pub connection : Connection
    pub request : Request
    pub waiting : Bool
    pub closed : Bool

  receive_request_header : Connection → Connection × Request
  receive_request_header c = (c, async_read_some c.header_len (minus c.header_cap c.header_len))

  set_header_length : List ℕ → Connection → Connection
  set_header_length bytes c = record c {
    header = c.header ++ bytes;
    header_len = (c.header_len + length bytes) % 2 ^ 64;
  }

  -- `distance` is that from the buffer of the header to the array `header_end`, as a `std::size_t`.
  index_of_header_end : (distance : ℕ) → Connection → ℕ
  unfolding search
  index_of_header_end distance c = (distance + search header_end c.header) % 2 ^ 64

  -- `next` is what follows the call.
  resize_header_buffer :
      Connection → (next : Connection → Connection × Request) → Connection × Request
  unfolding allocate
  resize_header_buffer c next =
      if c.header_len == c.header_cap
      then allocate (c.header_cap * 2 % 2 ^ 64) (c, terminate)
          (next (record c { header_cap = c.header_cap * 2 % 2 ^ 64 }))
      else next c

  send_response : Connection → Connection × Request
  unfolding response
  send_response c = (c, async_write (response (p.keep_alive c.state)))

  receive_body : Option ℤ → Connection → Connection × Request
  unfolding send_response allocate
  receive_body none c = send_response c
  receive_body (some n) c = (
    record c { body_len = to_size_t n },
    allocate (to_size_t n) terminate (async_read (to_size_t n)),
  )

  parsed : p.State × Bool → Connection → Connection × Request
  unfolding receive_body body_length
  parsed (state, completed) c =
      let c' = record c { state = state } in
      if completed then receive_body (body_length (p.headers state)) c' else send_response c'

  -- What follows `set_header_length` in the callback.
  header_received : (distance : ℕ) → Connection → Connection × Request
  unfolding index_of_header_end resize_header_buffer receive_request_header parsed
  header_received distance c =
      if index_of_header_end distance c == c.header_len
      then resize_header_buffer c receive_request_header
      else parsed (p.parse c.header c.state) c

  response_sent : Bool → Connection → Connection × Request
  unfolding receive_request_header
  response_sent keep_alive c =
      if keep_alive
      then receive_request_header (record c { header = []; header_cap = 256; header_len = 0 })
      else (c, close)

  -- What the callback of the operation under way does on an error, and with the bytes that were read.
  failed : Connection → Request → Connection × Request
  failed c terminate = (c, terminate)
  failed c _ = (c, close)

  done : (now distance : ℕ) → (bytes : List ℕ) → Connection → Request → Connection × Request
  unfolding set_header_length header_received send_response response_sent
  done now distance bytes c (async_read_some offset len) =
      header_received distance (set_header_length bytes (record c { last_receive = now }))
  done now distance bytes c (async_read len) = send_response (record c { last_receive = now })
  done now distance bytes c (async_write payload) = response_sent (p.keep_alive c.state) c
  done now distance bytes c close = (c, close)
  done now distance bytes c terminate = (c, terminate)

  -- `check_persistent_connection`
  check_persistent_connection : (now : ℕ) → Live → Live
  check_persistent_connection now l =
      if leb (l.connection.last_receive + 2000 * 10 ^ 6) now
      then record l { closed = true; waiting = false }
      else record l { waiting = true }

  -- The constructor, and what `start` sets in it.
  abbrev pub new_connection : (now : ℕ) → Connection
  new_connection now = record {
    header = [];
    header_cap = 256;
    header_len = 0;
    body_len = 0;
    state = p.initial;
    last_receive = now;
  }

  pub start : (now : ℕ) → Live
  unfolding check_persistent_connection receive_request_header
  start now =
      let (c, request) = receive_request_header (new_connection now) in
      check_persistent_connection now
        (record { connection = c; request = request; waiting = false; closed = false })

  resumed : Connection × Request → Live → Live
  resumed (c, request) l = record l { connection = c; request = request }

  pub step : Event → Live → Live
  unfolding resumed failed done check_persistent_connection
  step fails l = resumed (failed l.connection l.request) l
  step (ends now distance bytes) l = resumed (done now distance bytes l.connection l.request) l
  step (wakes now) l = if l.waiting then check_persistent_connection now l else l

  pub steps : List Event → Live → Live
  unfolding step
  steps [] l = l
  steps (e ∷ events) l = steps events (step e l)
