-- ===== src/Http/Bodies.antt =====
-- What an `HttpConnection` (example/http/simple/server.cpp) does with the request that its first read brings.
use spinet.Common.{
  ℕ, ◌^◌, ◌<◌, ◌≡◌, refl, Option, none, some, List, [], ◌∷◌, Text, codes, if_cases, ℤ, pos, negsuc,
  IsInt32, arith,
}
use spinet.Programs.Numbers.{stoi-IsInt32}
use spinet.Http.{
  Parsing, Connection, Request, async_read, async_write, terminate, done, start, body_length,
  same_text, allocate, receive_body, parsed, header_received, find_header_end, same,
  set_header_length, receive_request_header, resume,
}

body_length-IsInt32 :
    (headers : List (Text × Text)) (z : ℤ) → body_length headers ≡ some z → IsInt32 z
unfolding body_length
body_length-IsInt32 [] z h = absurd (ground arith)
body_length-IsInt32 ((name, value) ∷ rest) z h =
    if_cases (λ (o : Option ℤ). o ≡ some z → IsInt32 z) (same_text name (codes "Content-Length"))
      (λ _. stoi-IsInt32 value z) (λ _. body_length-IsInt32 rest z) h

-- The answer to a request whose headers announce a body of this length.
abbrev pub BodyAnswer : Option ℤ → Request → Type 0
BodyAnswer none r = r ≡ async_write
BodyAnswer (some (pos n)) r = (n < 2 ^ 31) × (r ≡ async_read n)
BodyAnswer (some (negsuc n)) r = r ≡ terminate

-- The answer to what the parser makes of the bytes read.
abbrev pub Answer : Option (List (Text × Text)) → Request → Type 0
Answer none r = r ≡ async_write
Answer (some headers) r = BodyAnswer (body_length headers) r

receive_body-answers :
    (n : Option ℤ) (c : Connection)
    → ((z : ℤ) → n ≡ some z → IsInt32 z)
    → BodyAnswer n (receive_body n c).1
unfolding receive_body allocate
receive_body-answers none c h = refl
receive_body-answers (some (pos n)) c h = (h (pos n) refl, ground (arith, h (pos n) refl))
receive_body-answers (some (negsuc n)) c h = ground (arith, h (negsuc n) refl)

module _ (p : Parsing) where
  parsed-answers : (r : Option (List (Text × Text))) (c : Connection) → Answer r (parsed p r c).1
  unfolding parsed
  parsed-answers none c = refl
  parsed-answers (some headers) c =
      receive_body-answers (body_length headers) c (body_length-IsInt32 headers)

  -- Whatever bytes the first read brings, the connection takes them for the whole header. Without a complete
  -- request or without a readable Content-Length it answers; with a length from zero it reads a body of that
  -- length, below 2 ^ 31; a negative length ends the program.
  pub first_read-Answer : (bytes : List ℕ) → Answer (p.parse bytes) (resume p (done bytes) start).1
  unfolding resume start receive_request_header header_received find_header_end same
      set_header_length
  first_read-Answer bytes = parsed-answers (p.parse bytes) (set_header_length bytes (start).0)
