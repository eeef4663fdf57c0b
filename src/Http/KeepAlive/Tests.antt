-- ===== src/Http/KeepAlive/Tests.antt =====
-- `HttpConnection` of example/http/keep_alive/server.cpp with a parser that takes anything for a request.
use spinet.Common.{ℕ, zero, suc, ◌+◌, ◌*◌, ◌^◌, ◌≡◌, refl, true, false, List, [], ◌∷◌, map, arith}
use spinet.Http.KeepAlive.{Parser, Live, Event, fails, ends, wakes, steps, step, start}
use spinet.Http.KeepAlive.Window.{Buffered, Window, AllAllowed, steps-Window}
use spinet.Http.KeepAlive.Idle.{Spaced, waits_over, AllSilent, idle-IsClosed}

-- A parser that completes every request, each to be kept alive, with no headers.
abbrev lively : Parser
lively = record {
  State = Unit {0};
  initial = tt;
  parse = λ bytes state. (state, true);
  headers = λ state. [];
  keep_alive = λ state. true;
}

-- A request, its response, and a part of the next request.
abbrev twice : List Event
twice = ends 5 1000 (1 ∷ 2 ∷ []) ∷ ends 6 1000 [] ∷ ends 7 1000 (3 ∷ []) ∷ []

twice_allowed : AllAllowed lively twice (start lively 0)
unfolding AllAllowed step start
twice_allowed = (omega arith, (tt, (omega arith, tt)))

steps-Window_example :
    Buffered lively (steps lively twice (start lively 0)).connection
    × Window lively
        (steps lively twice (start lively 0)).connection
        (steps lively twice (start lively 0)).request
steps-Window_example = steps-Window lively 0 twice twice_allowed

-- Waits that are over each 100 milliseconds.
abbrev ticks : (n from : ℕ) → List ℕ
ticks zero from = []
ticks (suc n) from = from ∷ ticks n (from + 100 * 10 ^ 6)

ticks-Spaced : (n from : ℕ) → Spaced from (ticks n from)
ticks-Spaced zero from = tt
ticks-Spaced (suc n) from = (omega arith, ticks-Spaced n (from + 100 * 10 ^ 6))

-- The socket waits for the end of a response.
abbrev answering : Live lively
answering = step lively (ends 6 1000 (1 ∷ 2 ∷ [])) (start lively 5)

waits : answering.waiting ≡ true
unfolding step start
waits = refl

received : answering.connection.last_receive ≡ 6
unfolding step start
received = refl

-- The response ends, and the next read fails, between the waits.
abbrev lull : List Event
lull = wakes 7 ∷ ends 8 1000 [] ∷ fails ∷ map wakes (ticks 20 (7 + 100 * 10 ^ 6))

wakes-AllSilent : (times : List ℕ) (l : Live lively) → AllSilent lively (map wakes times) l
unfolding AllSilent
wakes-AllSilent [] l = tt
wakes-AllSilent (t ∷ times) l = (tt, wakes-AllSilent times (step lively (wakes t) l))

lull-AllSilent : AllSilent lively lull answering
unfolding AllSilent step start
lull-AllSilent = (
  tt,
  (
    refl,
    (
      tt,
      wakes-AllSilent (ticks 20 (7 + 100 * 10 ^ 6))
          (step lively fails (step lively (ends 8 1000 []) (step lively (wakes 7) answering))),
    ),
  ),
)

lull-Spaced : Spaced 6 (waits_over lull)
lull-Spaced = (omega arith, ticks-Spaced 20 (7 + 100 * 10 ^ 6))

idle-IsClosed_example :
    ((steps lively lull answering).closed ≡ true) × ((steps lively lull answering).waiting ≡ false)
idle-IsClosed_example =
    idle-IsClosed lively answering 6 lull waits (omega (arith, received)) lull-AllSilent lull-Spaced
      (omega arith)
