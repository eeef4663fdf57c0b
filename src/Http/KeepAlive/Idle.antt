-- ===== src/Http/KeepAlive/Idle.antt =====
-- The wait beside a kept-alive `HttpConnection` (example/http/keep_alive/server.cpp).
use spinet.Common.{
  ℕ, ◌+◌, ◌*◌, ◌^◌, ◌≤◌, ◌<◌, ◌≡◌, refl, true, false, List, [], ◌∷◌, length, leb, Bool, if_cases,
  arith,
}
use spinet.Http.KeepAlive.{
  Parser, Connection, Live, Request, async_read_some, async_read, async_write, close, terminate,
  Event, fails, ends, wakes, failed, done, response_sent, receive_request_header,
  check_persistent_connection, step, steps,
}

-- The times at which waits of 100 milliseconds are over, each set by the check at the end of the one before.
abbrev pub Spaced : (from : ℕ) → List ℕ → Type 0
Spaced from [] = Unit
Spaced from (t ∷ times) = (from ≤ t) × Spaced (t + 100 * 10 ^ 6) times

-- The times of the waits that are over among the events.
abbrev pub waits_over : List Event → List ℕ
waits_over [] = []
waits_over (fails ∷ events) = waits_over events
waits_over (ends now distance bytes ∷ events) = waits_over events
waits_over (wakes now ∷ events) = now ∷ waits_over events

-- Whether an operation receives.
abbrev reads : Request → Bool
reads (async_read_some offset len) = true
reads (async_read len) = true
reads _ = false

-- An event behind which the connection has received nothing, where `request` is the operation under way.
abbrev IsSilent : Event → Request → Type 0
IsSilent (ends now distance bytes) request = reads request ≡ false
IsSilent _ request = Unit {0}

module _ (p : Parser) where
  -- No operation that receives ends well in a run from a connection.
  unfoldable pub AllSilent : List Event → Live p → Type 0
  AllSilent [] l = Unit {0}
  AllSilent (e ∷ events) l = IsSilent e l.request × AllSilent events (step p e l)

  failed-last_receive :
      (c : Connection p) (r : Request) → (failed p c r).0.last_receive ≡ c.last_receive
  unfolding failed
  failed-last_receive c (async_read_some offset len) = refl
  failed-last_receive c (async_read len) = refl
  failed-last_receive c (async_write payload) = refl
  failed-last_receive c close = refl
  failed-last_receive c terminate = refl

  done-last_receive :
      (now distance : ℕ) (bytes : List ℕ) (c : Connection p) (r : Request)
      → reads r ≡ false
      → (done p now distance bytes c r).0.last_receive ≡ c.last_receive
  unfolding done response_sent receive_request_header
  done-last_receive now distance bytes c (async_read_some offset len) off = absurd (ground arith)
  done-last_receive now distance bytes c (async_read len) off = absurd (ground arith)
  done-last_receive now distance bytes c (async_write payload) off =
      if_cases (λ (o : Connection p × Request). o.0.last_receive ≡ c.last_receive)
        (p.keep_alive c.state) (λ _. refl) (λ _. refl)
  done-last_receive now distance bytes c close off = refl
  done-last_receive now distance bytes c terminate off = refl

  abbrev IsClosed : Live p → Type 0
  IsClosed l = (l.closed ≡ true) × (l.waiting ≡ false)

  step-IsClosed : (e : Event) (l : Live p) → IsClosed l → IsClosed (step p e l)
  unfolding step
  step-IsClosed fails l h = h
  step-IsClosed (ends now distance bytes) l h = h
  step-IsClosed (wakes now) l h =
      if_cases IsClosed l.waiting (λ on. absurd (ground (arith, on, h.1))) (λ _. h)

  steps-IsClosed : (events : List Event) (l : Live p) → IsClosed l → IsClosed (steps p events l)
  unfolding steps
  steps-IsClosed [] l h = h
  steps-IsClosed (e ∷ events) l h = steps-IsClosed events (step p e l) (step-IsClosed e l h)

  waits-IsClosed :
      (events : List Event) (from : ℕ) (l : Live p)
      → l.waiting ≡ true
      → AllSilent events l
      → Spaced from (waits_over events)
      → 0 < length (waits_over events)
      → l.connection.last_receive + 2000 * 10 ^ 6 + 100 * 10 ^ 6
        ≤ from + length (waits_over events) * (100 * 10 ^ 6)
      → IsClosed (steps p events l)
  unfolding steps step check_persistent_connection AllSilent
  waits-IsClosed [] from l on silent spaced some_waits enough = absurd (omega arith)
  waits-IsClosed (fails ∷ events) from l on silent spaced some_waits enough =
      waits-IsClosed events from (step p fails l) on silent.1 spaced some_waits
        (omega (arith, failed-last_receive l.connection l.request, enough))
  waits-IsClosed (ends now distance bytes ∷ events) from l on silent spaced some_waits enough =
      waits-IsClosed events from (step p (ends now distance bytes) l) on silent.1 spaced some_waits
        (omega
          (arith, done-last_receive now distance bytes l.connection l.request silent.0, enough))
  waits-IsClosed (wakes t ∷ events) from l on silent spaced some_waits enough =
      if_cases Closes l.waiting
        (λ _.
          if_cases Closes (leb (l.connection.last_receive + 2000 * 10 ^ 6) t)
            (λ _ quiet.
              steps-IsClosed events (record l { closed = true; waiting = false }) (refl, refl))
            (λ early quiet.
              waits-IsClosed events (t + 100 * 10 ^ 6) (record l { waiting = true }) refl quiet
                spaced.1 (ground (arith, early)) (ground arith)))
        (λ off _. absurd (ground (arith, on, off))) silent.1
    where
      Closes : Live p → Type 0
      Closes k = AllSilent events k → IsClosed (steps p events k)

  -- A connection whose wait is set and that has received nothing from some time on, since no operation that
  -- receives ends well, does not outlast 21 waits of 100 milliseconds or more that are over from there on,
  -- whatever operation fails and whatever it has still to send in between: its socket is closed, and no
  -- further wait is set for it.
  pub idle-IsClosed :
      (l : Live p) (from : ℕ) (events : List Event)
      → l.waiting ≡ true
      → l.connection.last_receive ≤ from
      → AllSilent events l
      → Spaced from (waits_over events)
      → 21 ≤ length (waits_over events)
      → ((steps p events l).closed ≡ true) × ((steps p events l).waiting ≡ false)
  idle-IsClosed l from events on idle silent spaced many =
      waits-IsClosed events from l on silent spaced (omega arith) (omega arith)
