-- ===== src/Http/Serving.antt =====
-- How long an `HttpConnection` (example/http/simple/server.cpp) lasts.
use spinet.Common.{
  ℕ, suc, ◌≤◌, ◌≡◌, ◌⊎◌, inl, inr, ℤ, refl, true, Option, none, some, List, [], ◌∷◌, length, Text,
  arith,
}
use spinet.Http.{
  Parsing, Connection, Request, async_read_some, async_read, async_write, close, terminate,
  allocate, Outcome, failed, done, start, find_header_end, receive_request_header, receive_body,
  parsed, body_length, header_received, set_header_length, resume, resume_all, same,
}

-- The operations that a connection may submit from here on.
abbrev pub left : Request → ℕ
left (async_read_some offset len) = 3
left (async_read len) = 2
left async_write = 1
left close = 0
left terminate = 0

-- A connection that submits nothing more.
abbrev pub IsOver : Request → Type 0
IsOver r = (r ≡ close) ⊎ (r ≡ terminate)

finds_header_end : (c : Connection) → find_header_end c ≡ true
unfolding find_header_end same
finds_header_end c = refl

receive_body-left : (n : Option ℤ) (c : Connection) → left (receive_body n c).1 ≤ 2
unfolding receive_body allocate
receive_body-left none c = omega arith
receive_body-left (some n) c = ground arith

module _ (p : Parsing) where
  parsed-left : (r : Option (List (Text × Text))) (c : Connection) → left (parsed p r c).1 ≤ 2
  unfolding parsed
  parsed-left none c = omega arith
  parsed-left (some headers) c = receive_body-left (body_length headers) c

  header_received-left : (c : Connection) → left (header_received p c).1 ≤ 2
  unfolding header_received find_header_end same
  header_received-left c = parsed-left (p.parse c.header) c

  resume-left :
      (o : Outcome) (v : Connection × Request) (n : ℕ)
      → left v.1 ≤ suc n
      → left (resume p o v).1 ≤ n
  unfolding resume
  resume-left failed (c, async_read_some offset len) n h = omega arith
  resume-left (done bytes) (c, async_read_some offset len) n h =
      omega (arith, header_received-left (set_header_length bytes c))
  resume-left failed (c, async_read len) n h = omega arith
  resume-left (done bytes) (c, async_read len) n h = omega arith
  resume-left o (c, async_write) n h = omega arith
  resume-left o (c, close) n h = omega arith
  resume-left o (c, terminate) n h = omega arith

  left-IsOver : (r : Request) → left r ≤ 0 → IsOver r
  left-IsOver (async_read_some offset len) h = absurd (omega arith)
  left-IsOver (async_read len) h = absurd (omega arith)
  left-IsOver async_write h = absurd (omega arith)
  left-IsOver close h = inl refl
  left-IsOver terminate h = inr refl

  resume_all-IsOver :
      (outcomes : List Outcome) (v : Connection × Request)
      → left v.1 ≤ length outcomes
      → IsOver (resume_all p outcomes v).1
  unfolding resume_all
  resume_all-IsOver [] v h = left-IsOver v.1 h
  resume_all-IsOver (o ∷ rest) v h =
      resume_all-IsOver rest (resume p o v) (resume-left o v (length rest) h)

  -- A connection answers or fails after its first read: whatever bytes arrive, and wherever the header ends,
  -- the callback of that read submits no further read of the header. Whatever becomes of its operations, it
  -- has called `close`, or an exception has ended the program, when three of them are over.
  pub connection_lasts :
      (first second third : Outcome) (rest : List Outcome)
      → (left (resume p first start).1 ≤ 2)
        × IsOver (resume_all p (first ∷ second ∷ third ∷ rest) start).1
  unfolding start receive_request_header
  connection_lasts first second third rest = (
    resume-left first start 2 (omega arith),
    resume_all-IsOver (first ∷ second ∷ third ∷ rest) start (omega arith),
  )
