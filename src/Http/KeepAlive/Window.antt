-- ===== src/Http/KeepAlive/Window.antt =====
-- Where the kept-alive `HttpConnection` (example/http/keep_alive/server.cpp) has the kernel write: the
-- free part of the buffer of its header.
use spinet.Common.{
  ℕ, ◌+◌, ◌*◌, ◌%◌, ◌^◌, ◌-◌, ◌≤◌, ◌<◌, ◌≡◌, refl, Bool, true, false, Option, none, some, List, [],
  ◌∷◌, length, length-append, leb, ltb, ◌==◌, if_cases, ℤ, to_size_t, arith,
}
use spinet.Http.{allocate, body_length}
use spinet.Http.KeepAlive.{
  Parser, Request, async_read_some, async_read, async_write, close, terminate, Connection,
  new_connection, Live, receive_request_header, set_header_length, index_of_header_end,
  resize_header_buffer, send_response, receive_body, parsed, header_received, response_sent, failed,
  done, check_persistent_connection, start, Event, fails, ends, wakes, resumed, step, steps,
}

-- The kernel writes no more bytes than it was asked for.
abbrev pub Allowed : Request → Event → Type 0
Allowed (async_read_some offset len) (ends now distance bytes) = length bytes ≤ len
Allowed (async_read_some offset len) fails = Unit
Allowed (async_read_some offset len) (wakes now) = Unit
Allowed (async_read len) e = Unit
Allowed (async_write payload) e = Unit
Allowed close e = Unit
Allowed terminate e = Unit

module _ (p : Parser) where
  unfoldable pub AllAllowed : List Event → Live p → Type 0
  unfolding step
  AllAllowed [] l = Unit
  AllAllowed (e ∷ events) l = Allowed l.request e × AllAllowed events (step p e l)

  -- The length of the header is that of the bytes received, and within the buffer, which has a size that
  -- an object may have.
  abbrev pub Buffered : Connection p → Type 0
  Buffered c =
      (c.header_len ≡ length c.header)
      × (c.header_len ≤ c.header_cap)
      × (0 < c.header_cap)
      × (c.header_cap < 2 ^ 63)

  -- A read of the header is into the free part of the buffer, which is not empty.
  abbrev pub Window : Connection p → Request → Type 0
  Window c (async_read_some offset len) =
      (offset ≡ length c.header) × (offset + len ≡ c.header_cap) × (0 < len)
  Window c (async_read len) = Unit
  Window c (async_write payload) = Unit
  Window c close = Unit
  Window c terminate = Unit

  abbrev Fits : Connection p × Request → Type 0
  Fits (c, r) = Buffered c × Window c r

  receive-Fits :
      (c : Connection p)
      → Buffered c
      → c.header_len < c.header_cap
      → Fits (receive_request_header p c)
  unfolding receive_request_header
  receive-Fits c h lt = (h, (ground (arith, h), ground (arith, h), ground (arith, h)))

  resize-Fits :
      (c : Connection p) → Buffered c → Fits (resize_header_buffer p c (receive_request_header p))
  unfolding resize_header_buffer allocate
  resize-Fits c h =
      if_cases Fits (c.header_len == c.header_cap)
        (λ full.
          if_cases Fits (ltb (c.header_cap * 2 % 2 ^ 64) (2 ^ 63))
            (λ small.
              receive-Fits (record c { header_cap = c.header_cap * 2 % 2 ^ 64 })
                (h.0, ground (arith, h), ground (arith, h), ground arith) (ground (arith, h)))
            (λ _. (h, tt)))
        (λ room. receive-Fits c h (ground (arith, h)))

  send-Fits : (c : Connection p) → Buffered c → Fits (send_response p c)
  unfolding send_response
  send-Fits c h = (h, tt)

  body-Fits : (n : Option ℤ) (c : Connection p) → Buffered c → Fits (receive_body p n c)
  unfolding receive_body allocate
  body-Fits none c h = send-Fits c h
  body-Fits (some n) c h =
      if_cases (λ (r : Request). Fits (record c { body_len = to_size_t n }, r))
        (ltb (to_size_t n) (2 ^ 63)) (λ _. (h, tt)) (λ _. (h, tt))

  parsed-Fits : (r : p.State × Bool) (c : Connection p) → Buffered c → Fits (parsed p r c)
  unfolding parsed
  parsed-Fits (state, completed) c h =
      if_cases Fits completed
        (λ _. body-Fits (body_length (p.headers state)) (record c { state = state }) h)
        (λ _. send-Fits (record c { state = state }) h)

  header_received-Fits :
      (distance : ℕ) (c : Connection p) → Buffered c → Fits (header_received p distance c)
  unfolding header_received
  header_received-Fits distance c h =
      if_cases Fits (index_of_header_end p distance c == c.header_len) (λ _. resize-Fits c h)
        (λ _. parsed-Fits (p.parse c.header c.state) c h)

  set_header_length-Buffered :
      (bytes : List ℕ) (c : Connection p)
      → Buffered c
      → length bytes ≤ c.header_cap - c.header_len
      → Buffered (set_header_length p bytes c)
  unfolding set_header_length
  set_header_length-Buffered bytes c h fits =
      (omega (arith, h, fits, length-append c.header bytes), omega (arith, h, fits), h.2, h.3)

  failed-Fits : (c : Connection p) (r : Request) → Buffered c → Fits (failed p c r)
  unfolding failed
  failed-Fits c (async_read_some offset len) h = (h, tt)
  failed-Fits c (async_read len) h = (h, tt)
  failed-Fits c (async_write payload) h = (h, tt)
  failed-Fits c close h = (h, tt)
  failed-Fits c terminate h = (h, tt)

  response_sent-Fits : (b : Bool) (c : Connection p) → Buffered c → Fits (response_sent p b c)
  unfolding response_sent
  response_sent-Fits true c h =
      receive-Fits (record c { header = []; header_cap = 256; header_len = 0 })
        (refl, omega arith, omega arith, omega arith) (omega arith)
  response_sent-Fits false c h = (h, tt)

  done-Fits :
      (now distance : ℕ) (bytes : List ℕ) (c : Connection p) (r : Request)
      → Fits (c, r)
      → Allowed r (ends now distance bytes)
      → Fits (done p now distance bytes c r)
  unfolding done
  done-Fits now distance bytes c (async_read_some offset len) h few =
      header_received-Fits distance (set_header_length p bytes (record c { last_receive = now })) (
        set_header_length-Buffered bytes (record c { last_receive = now }) h.0
          (omega (arith, h, few)))
  done-Fits now distance bytes c (async_read len) h few =
      send-Fits (record c { last_receive = now }) h.0
  done-Fits now distance bytes c (async_write payload) h few =
      response_sent-Fits (p.keep_alive c.state) c h.0
  done-Fits now distance bytes c close h few = h
  done-Fits now distance bytes c terminate h few = h

  check-Fits :
      (now : ℕ) (l : Live p)
      → Fits (l.connection, l.request)
      → Fits (
        (check_persistent_connection p now l).connection,
        (check_persistent_connection p now l).request,
      )
  unfolding check_persistent_connection
  check-Fits now l h =
      if_cases (λ (k : Live p). Fits (k.connection, k.request))
        (leb (l.connection.last_receive + 2000 * 10 ^ 6) now) (λ _. h) (λ _. h)

  step-Fits :
      (e : Event) (l : Live p)
      → Fits (l.connection, l.request)
      → Allowed l.request e
      → Fits ((step p e l).connection, (step p e l).request)
  unfolding step resumed
  step-Fits fails l h few = failed-Fits l.connection l.request h.0
  step-Fits (ends now distance bytes) l h few =
      done-Fits now distance bytes l.connection l.request h few
  step-Fits (wakes now) l h few =
      if_cases (λ (k : Live p). Fits (k.connection, k.request)) l.waiting (λ _. check-Fits now l h)
        (λ _. h)

  steps-Fits :
      (events : List Event) (l : Live p)
      → Fits (l.connection, l.request)
      → AllAllowed events l
      → Fits ((steps p events l).connection, (steps p events l).request)
  unfolding steps AllAllowed
  steps-Fits [] l h few = h
  steps-Fits (e ∷ events) l h few = steps-Fits events (step p e l) (step-Fits e l h few.0) few.1

  -- Whatever the peer sends, wherever the header is found to end and however the requests follow each other:
  -- where the kernel writes no more than it is asked for, `header_len` counts the bytes of the header and lies
  -- within the buffer, whose size does not overflow, and each read of the header goes behind those bytes, to
  -- the end of the buffer and no further, for at least one byte.
  pub steps-Window :
      (now : ℕ) (events : List Event)
      → AllAllowed events (start p now)
      → Buffered (steps p events (start p now)).connection
        × Window (steps p events (start p now)).connection (steps p events (start p now)).request
  unfolding start receive_request_header
  steps-Window now events few =
      steps-Fits events (start p now)
        (check-Fits now
          (record {
            connection = new_connection p now;
            request = (receive_request_header p (new_connection p now)).1;
            waiting = false;
            closed = false;
          })
          (receive-Fits (new_connection p now) (refl, omega arith, omega arith, omega arith)
            (omega arith)))
        few
