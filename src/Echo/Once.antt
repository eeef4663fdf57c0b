-- ===== src/Echo/Once.antt =====
-- The connections of example/echo/async/client2.cpp, each of which writes once, reads once and closes, and the
-- two counters that its `main` prints.
use spinet.Common.{
  ℕ, zero, suc, ◌+◌, ◌%◌, ◌^◌, ◌≤◌, ◌<◌, ◌≡◌, ◌↔◌, refl, List, [], ◌∷◌, ◌++◌, length, length-append,
  All, arith,
}

-- Where a connection stands: under way is its write, or its read, or nothing more.
pub data Stage : Type 0 where
  writing reading closed : Stage

-- `connected_count` and `closed_count` are numbers of 64 bits.
pub record Counting : Type 0 where
  pub connections : List Stage
  pub connected_count : ℕ
  pub closed_count : ℕ

-- In any order, `main` connects once more and writes, or the operation of a connection ends, however that is.
pub data Event : Type 0 where
  connects : Event
  ends : (place : ℕ) → Event

abbrev pub nothing : Counting
nothing = record { connections = []; connected_count = 0; closed_count = 0 }

-- The callback of the operation under way, and by how much it increments `closed_count`.
callback : Stage → Stage × ℕ
callback writing = (reading, 0)
callback reading = (closed, 1)
callback closed = (closed, 0)

advance : List Stage → (place : ℕ) → List Stage × ℕ
unfolding callback
advance [] place = ([], 0)
advance (s ∷ connections) zero = let (s', n) = callback s in (s' ∷ connections, n)
advance (s ∷ connections) (suc place) =
    let (connections', n) = advance connections place in (s ∷ connections', n)

step : Event → Counting → Counting
unfolding advance
step connects c = record c {
  connections = c.connections ++ writing ∷ [];
  connected_count = (c.connected_count + 1) % 2 ^ 64;
}
step (ends place) c =
    let (connections, n) = advance c.connections place in
    record c { connections = connections; closed_count = (c.closed_count + n) % 2 ^ 64 }

unfoldable pub steps : List Event → Counting → Counting
unfolding step
steps [] c = c
steps (e ∷ events) c = steps events (step e c)

-- The connections that are closed.
pub number_closed : List Stage → ℕ
number_closed [] = 0
number_closed (writing ∷ connections) = number_closed connections
number_closed (reading ∷ connections) = number_closed connections
number_closed (closed ∷ connections) = suc (number_closed connections)

number_closed-append :
    (connections : List Stage)
    → number_closed (connections ++ writing ∷ []) ≡ number_closed connections
unfolding number_closed
number_closed-append [] = refl
number_closed-append (writing ∷ connections) = number_closed-append connections
number_closed-append (reading ∷ connections) = number_closed-append connections
number_closed-append (closed ∷ connections) = omega (arith, number_closed-append connections)

number_closed-cons :
    (s : Stage) (xs ys : List Stage) (n : ℕ)
    → number_closed xs ≡ number_closed ys + n
    → number_closed (s ∷ xs) ≡ number_closed (s ∷ ys) + n
unfolding number_closed
number_closed-cons writing xs ys n h = h
number_closed-cons reading xs ys n h = h
number_closed-cons closed xs ys n h = omega (arith, h)

advance-counts :
    (connections : List Stage) (place : ℕ)
    → (length (advance connections place).0 ≡ length connections)
      × (number_closed (advance connections place).0
          ≡ number_closed connections + (advance connections place).1)
unfolding advance callback number_closed
advance-counts [] place = (refl, refl)
advance-counts (writing ∷ connections) zero = (refl, omega arith)
advance-counts (reading ∷ connections) zero = (refl, omega arith)
advance-counts (closed ∷ connections) zero = (refl, omega arith)
advance-counts (s ∷ connections) (suc place) =
    let (l, n) = advance-counts connections place in
    (
      omega (arith, l),
      number_closed-cons s (advance connections place).0 connections (advance connections place).1
          n,
    )

number_closed-le : (connections : List Stage) → number_closed connections ≤ length connections
unfolding number_closed
number_closed-le [] = omega arith
number_closed-le (writing ∷ connections) = omega (arith, number_closed-le connections)
number_closed-le (reading ∷ connections) = omega (arith, number_closed-le connections)
number_closed-le (closed ∷ connections) = omega (arith, number_closed-le connections)

abbrev pub IsClosed : Stage → Type 0
IsClosed s = s ≡ closed

number_closed-All :
    (connections : List Stage)
    → number_closed connections ≡ length connections
    → All IsClosed connections
unfolding number_closed
number_closed-All [] e = tt
number_closed-All (writing ∷ connections) e = absurd (omega (arith, number_closed-le connections))
number_closed-All (reading ∷ connections) e = absurd (omega (arith, number_closed-le connections))
number_closed-All (closed ∷ connections) e = (refl, number_closed-All connections (omega arith))

All-number_closed :
    (connections : List Stage)
    → All IsClosed connections
    → number_closed connections ≡ length connections
unfolding number_closed
All-number_closed [] h = refl
All-number_closed (writing ∷ connections) h = absurd (ground (arith, h.0))
All-number_closed (reading ∷ connections) h = absurd (ground (arith, h.0))
All-number_closed (closed ∷ connections) h = omega (arith, All-number_closed connections h.1)

-- The counters, while there have been no more than `n` connections.
abbrev Counted : ℕ → Counting → Type 0
Counted n c =
    (length c.connections ≤ n)
    × (c.connected_count ≡ length c.connections)
    × (c.closed_count ≡ number_closed c.connections)

step-Counted :
    (n : ℕ) (e : Event) (c : Counting) → suc n < 2 ^ 64 → Counted n c → Counted (suc n) (step e c)
unfolding step
step-Counted n connects c small h = (
  omega (arith, h, length-append c.connections (writing ∷ [])),
  omega (arith, h, length-append c.connections (writing ∷ [])),
  omega (arith, h, number_closed-append c.connections),
)
step-Counted n (ends place) c small h =
    let counts = advance-counts c.connections place in
    (
      omega (arith, h, counts),
      omega (arith, h, counts),
      omega (arith, h, counts, number_closed-le (advance c.connections place).0),
    )

steps-Counted :
    (n : ℕ) (events : List Event) (c : Counting)
    → n + length events < 2 ^ 64
    → Counted n c
    → Counted (n + length events) (steps events c)
unfolding steps
steps-Counted n [] c small h = (omega (arith, h), h.1, h.2)
steps-Counted n (e ∷ events) c small h =
    let r =
      steps-Counted (suc n) events (step e c) (omega arith) (step-Counted n e c (omega arith) h) in
    (omega (arith, r), r.1, r.2)

-- In whatever order `main` connects and the operations end, fewer than 2 ^ 64 times: the counters are the
-- numbers of the connections made and of those closed, and they agree exactly if every connection is
-- closed.
pub steps-counts :
    (events : List Event)
    → length events < 2 ^ 64
    → ((steps events nothing).connected_count ≡ length (steps events nothing).connections)
      × ((steps events nothing).closed_count ≡ number_closed (steps events nothing).connections)
      × (((steps events nothing).closed_count ≡ (steps events nothing).connected_count)
          ↔ All IsClosed (steps events nothing).connections)
unfolding number_closed
steps-counts events small =
    let (bound, made, over) =
      steps-Counted 0 events nothing (omega arith) (omega arith, refl, refl) in
    (
      made,
      over,
      (
        (λ e. number_closed-All (steps events nothing).connections (omega (arith, e))),
        (λ h. omega (arith, All-number_closed (steps events nothing).connections h)),
      ),
    )
