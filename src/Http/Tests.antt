-- ===== src/Http/Tests.antt =====
-- `HttpConnection` of example/http/simple/server.cpp with small parsers.
use spinet.Common.{◌≡◌, ◌≤◌, refl, none, some, [], ◌∷◌, codes}
use spinet.Programs.Numbers.{stoi}
use spinet.Http.{
  Parsing, Outcome, failed, done, start, async_write, terminate, resume, resume_all, body_length,
}
use spinet.Http.Serving.{IsOver, left, connection_lasts}
use spinet.Http.Bodies.{Answer, first_read-Answer}

-- A parser that completes no request.
abbrev parsing : Parsing
parsing = record { parse = λ bytes. none }

abbrev cut : Outcome
cut = done (codes "GET / HT")

-- It is answered before its header has arrived.
answered : (resume parsing cut start).1 ≡ async_write
unfolding resume start
answered = refl

connection_lasts_example :
    (left (resume parsing cut start).1 ≤ 2)
    × IsOver (resume_all parsing (cut ∷ done [] ∷ failed ∷ []) start).1
connection_lasts_example = connection_lasts parsing cut (done []) failed []

-- A parser that takes any bytes for a request with this header.
abbrev negative : Parsing
negative = record { parse = λ bytes. some ((codes "Content-Length", codes "-1") ∷ []) }

-- It ends the program.
negative_length : (resume negative cut start).1 ≡ terminate
unfolding resume start body_length stoi
negative_length = refl

first_read-Answer_example :
    Answer (negative.parse (codes "GET /")) (resume negative (done (codes "GET /")) start).1
first_read-Answer_example = first_read-Answer negative (codes "GET /")
