-- ===== src/Socket/Poll/Cases.antt =====
-- The two outcomes of `TcpSocket::do_read` and of `do_write` (src/core/tcp_socket.cpp).
use spinet.Common.{
  ℕ, ◌≡◌, refl, false, Option, none, some, List, [], ◌∷◌, ◌++◌, Bool-cases, if_cases, ◌==◌, inl,
  inr, ◌⊎◌,
}
use spinet.Memory.{Memory}
use spinet.Result.{Result, ok, system_error}
use spinet.Handle.{Effect, notify}
use spinet.Task.{ReadTask, WriteTask, Received, Sent, read_exec, write_exec, eagain}
use spinet.Socket.{Socket, World, Entry}
use spinet.Socket.Poll.{report, settle_read, settle_write, poll_read, poll_write, do_read, do_write}

-- The world once the callback of an operation was told.
abbrev pub read_ended : World → List Entry → Memory → Effect → World
read_ended w rest m told = record w {
  socket = popped;
  memory = m;
  effects = w.effects ++ told ∷ [];
}
  where
    open w use {socket}

    popped : Socket
    popped = record socket { read_queue = rest }

abbrev pub write_ended : World → List Entry → List ℕ → Effect → World
write_ended w rest wire told = record w {
  socket = popped;
  wire = wire;
  effects = w.effects ++ told ∷ [];
}
  where
    open w use {socket}

    popped : Socket
    popped = record socket { write_queue = rest }

-- What is reported goes to the callback of the task.
report-notify :
    (task : ReadTask) (ec : Option ℕ) (callback : ℕ)
    → (report task ec callback ≡ none)
      ⊎ ((result : Result) × (n : ℕ) × (report task ec callback ≡ some (notify callback result n)))
unfolding report
report-notify task ec callback = elim (Bool-cases task.finished) [
  | inl done ↦ inr (ok, task.pos, rw done)
  | inr more ↦ rw more (failed ec)
]
  where
    failed :
        (ec : Option ℕ)
        → (report (record task { finished = false }) ec callback ≡ none)
          ⊎ ((result : Result) × (n : ℕ) × (report (record task { finished = false }) ec callback
                ≡ some (notify callback result n)))
    failed none = inl refl
    failed (some e) = elim (Bool-cases (e == eagain)) [
      | inl again ↦ inl (rw again)
      | inr fatal ↦ inr (system_error e, task.pos, rw fatal)
    ]

module _ {ℓ} (P : World → Type ℓ) (w : World) where
  settle_read_cases :
      (rest : List Entry) (callback : ℕ) (x : ReadTask × Option ℕ × Memory)
      → ((m : Memory) → P (record w { memory = m }))
      → ((result : Result) (n : ℕ) (m : Memory)
          → P (read_ended w rest m (notify callback result n)))
      → P (settle_read w rest callback x)
  unfolding settle_read
  settle_read_cases rest callback (task, ec, m) kept ended = elim (report-notify task ec callback) [
    | inl e ↦ rw (e, settle_read) (kept m)
    | inr (result, n, e) ↦ rw (e, settle_read) (ended result n m)
  ]

  -- `do_read` changes the memory at most, or ends the operation at the front of the queue.
  pub do_read_cases :
      (r : Received)
      → ((m : Memory) → P (record w { memory = m }))
      → ((task : ReadTask) (callback : ℕ) (rest : List Entry) (result : Result) (n : ℕ) (m : Memory)
          → w.socket.closed ≡ false
          → w.socket.read_queue ≡ (task, callback) ∷ rest
          → P (read_ended w rest m (notify callback result n)))
      → P (do_read r w)
  unfolding do_read
  do_read_cases r kept ended =
      if_cases P w.socket.closed (λ _. kept w.memory) (λ live. go w.socket.read_queue refl live)
    where
      go :
          (q : List Entry) → w.socket.read_queue ≡ q → w.socket.closed ≡ false → P (poll_read r w q)
      go [] e live = kept w.memory
      go ((task, callback) ∷ rest) e live =
          settle_read_cases rest callback (read_exec task r w.memory) kept
            (λ result n m. ended task callback rest result n m live e)

  settle_write_cases :
      (rest : List Entry) (callback : ℕ) (x : WriteTask × Option ℕ × List ℕ)
      → ((bytes : List ℕ) → P (record w { wire = bytes }))
      → ((result : Result) (n : ℕ) (bytes : List ℕ)
          → P (write_ended w rest bytes (notify callback result n)))
      → P (settle_write w rest callback x)
  unfolding settle_write
  settle_write_cases rest callback (task, ec, bytes) kept ended =
      elim (report-notify task ec callback) [
        | inl e ↦ rw (e, settle_write) (kept _)
        | inr (result, n, e) ↦ rw (e, settle_write) (ended result n _)
      ]

  -- `do_write` adds to what was sent at most, or ends the operation at the front of the queue.
  pub do_write_cases :
      (r : Sent)
      → ((bytes : List ℕ) → P (record w { wire = bytes }))
      → ((task : ReadTask) (callback : ℕ) (rest : List Entry) (result : Result) (n : ℕ)
            (bytes : List ℕ)
          → w.socket.closed ≡ false
          → w.socket.write_queue ≡ (task, callback) ∷ rest
          → P (write_ended w rest bytes (notify callback result n)))
      → P (do_write r w)
  unfolding do_write
  do_write_cases r kept ended =
      if_cases P w.socket.closed (λ _. kept w.wire) (λ live. go w.socket.write_queue refl live)
    where
      go :
          (q : List Entry)
          → w.socket.write_queue ≡ q
          → w.socket.closed ≡ false
          → P (poll_write r w q)
      go [] e live = kept w.wire
      go ((task, callback) ∷ rest) e live =
          settle_write_cases rest callback (write_exec task r w.memory) kept
            (λ result n m. ended task callback rest result n m live e)
