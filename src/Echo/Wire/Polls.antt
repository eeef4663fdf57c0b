-- ===== src/Echo/Wire/Polls.antt =====
-- What a poll does to an echoing connection on a `TcpSocket`, in each outcome of recv and send.
use spinet.Common.{
  take-take, ℕ, zero, suc, ◌≡◌, refl, sym, ap, ap₂, subst, ◌∙◌, Bool, true, false, none, some, [],
  ◌∷◌, ◌++◌, length, take, ◌==◌, if◌then◌else◌,
}
use mathlib.Core.List.{append-nil}
use spinet.Memory.{take-load, store, load, load-store}
use spinet.Result.{ok, system_error, negated}
use spinet.Handle.{notify}
use spinet.Task.{
  try_once, Received, bytes, recv_failed, Sent, count, send_failed, SendFits, eagain, ebadf,
}
use spinet.Socket.{World, async_read_some, async_write_some}
use spinet.Socket.Poll.{do_read, do_write}
use spinet.Socket.Reading.{do_read-verdict}
use spinet.Socket.Reading
use spinet.Socket.Writing.{do_write-verdict}
use spinet.Socket.Writing
use spinet.Echo.{Request, Outcome, fails, reads, writes, Connection, overwrite, accepted, resume}
use spinet.Echo
use spinet.Echo.Fidelity.{take-overwrite}
use spinet.Echo.Wire.{
  polls_read, polls_write, reading, writing, read_callback, write_callback, react, poll, turn,
  outcome, follow,
}
use spinet.Echo.Wire.Simulation.{
  read_queued, write_queued, Represents, turn-react, failed-Represents, Stepped, quiet-Represents,
}

module _ (buf : ℕ) where
  pub reads-Represents :
      (r : Received) (c : Connection) (w : World) (len : ℕ)
      → w.wire ≡ c.sent
      → c.request ≡ Echo.async_read_some len
      → Stepped buf (polls_read r) c (read_queued buf w len) (Echo.async_read_some len)
  unfolding outcome follow poll react read_callback negated async_write_some resume store
  reads-Represents (bytes []) c w len wire e =
      failed-Represents buf (polls_read (bytes [])) (record c { request = Echo.close })
        (read_queued buf w len) _ reading ebadf 0
        (do_read-verdict (bytes []) (read_queued buf w len) try_once buf len reading [] refl refl)
        refl refl wire
  reads-Represents (bytes (b ∷ bs)) c w len wire e =
      subst
        (λ u.
          Represents buf (resume (reads (b ∷ bs)) c (Echo.async_read_some len)) u
            (Echo.async_write_some (length (b ∷ bs))))
        (sym (
          turn-react buf (polls_read (bytes (b ∷ bs))) (read_queued buf w len) _
            (notify reading ok (length (b ∷ bs)) ∷ [])
            (do_read-verdict (bytes (b ∷ bs)) (read_queued buf w len) try_once buf len reading []
              refl refl)
            refl))
        (refl, wire, load-store w.memory buf (b ∷ bs) ∙ sym (take-overwrite (b ∷ bs) c.buffer))
  reads-Represents (recv_failed errno) c w len wire e = go (errno == eagain) refl
    where
      verdict :
          (b : Bool)
          → (errno == eagain) ≡ b
          → do_read (recv_failed errno) (read_queued buf w len)
            ≡ Reading.concluded
                (read_queued buf w len)
                []
                reading
                (store w.memory buf [])
                (if b then none else some (system_error errno, 0))
      verdict b q =
          do_read-verdict (recv_failed errno) (read_queued buf w len) try_once buf len reading []
            refl refl
          ∙ ap
              (λ b.
                Reading.concluded (read_queued buf w len) [] reading (store w.memory buf [])
                  (if b then none else some (system_error errno, 0)))
              q

      go :
          (b : Bool)
          → (errno == eagain) ≡ b
          → Represents buf
              (follow (if b then none else some fails) c (Echo.async_read_some len))
              (turn buf (polls_read (recv_failed errno)) (read_queued buf w len))
              (follow (if b then none else some fails) c (Echo.async_read_some len)).request
      go true q =
          quiet-Represents buf (polls_read (recv_failed errno)) c (read_queued buf w len)
            (verdict true q) (subst (Represents buf c (read_queued buf w len)) (sym e) (refl, wire))
      go false q =
          failed-Represents buf (polls_read (recv_failed errno)) (record c { request = Echo.close })
            (read_queued buf w len) _ reading errno 0 (verdict false q) refl refl wire

  pub writes-Represents :
      (r : Sent) (c : Connection) (w : World) (len : ℕ)
      → w.wire ≡ c.sent
      → load w.memory buf len ≡ take len c.buffer
      → SendFits len r
      → c.request ≡ Echo.async_write_some len
      → Stepped buf (polls_write r) c (write_queued buf w len) (Echo.async_write_some len)
  unfolding outcome follow poll react write_callback negated async_read_some resume load
  writes-Represents (count zero) c w len wire loaded fits e =
      failed-Represents buf (polls_write (count zero)) (record c { request = Echo.close })
        (write_queued buf w len) _ writing ebadf 0
        (do_write-verdict (count zero) (write_queued buf w len) try_once buf len writing [] refl
          refl)
        refl refl (append-nil w.wire ∙ wire)
  writes-Represents (count (suc n)) c w len wire loaded fits e =
      subst
        (λ u.
          Represents buf (resume (writes (suc n)) c (Echo.async_write_some len)) u
            (Echo.async_read_some (suc n)))
        (sym (
          turn-react buf (polls_write (count (suc n))) (write_queued buf w len) _
            (notify writing ok (suc n) ∷ [])
            (do_write-verdict (count (suc n)) (write_queued buf w len) try_once buf len writing []
              refl refl)
            refl))
        (refl, ap₂ (λ xs ys. xs ++ ys) wire sent_prefix)
    where
      sent_prefix : load w.memory buf (suc n) ≡ take (suc n) c.buffer
      sent_prefix =
          take-load w.memory buf (suc n) len fits
          ∙ (ap (take (suc n)) loaded ∙ take-take c.buffer (suc n) len fits)
  writes-Represents (send_failed errno) c w len wire loaded fits e = go (errno == eagain) refl
    where
      verdict :
          (b : Bool)
          → (errno == eagain) ≡ b
          → do_write (send_failed errno) (write_queued buf w len)
            ≡ Writing.concluded
                (write_queued buf w len)
                []
                writing
                (w.wire ++ [])
                (if b then none else some (system_error errno, 0))
      verdict b q =
          do_write-verdict (send_failed errno) (write_queued buf w len) try_once buf len writing []
            refl refl
          ∙ ap
              (λ b.
                Writing.concluded (write_queued buf w len) [] writing (w.wire ++ [])
                  (if b then none else some (system_error errno, 0)))
              q

      go :
          (b : Bool)
          → (errno == eagain) ≡ b
          → Represents buf
              (follow (if b then none else some fails) c (Echo.async_write_some len))
              (turn buf (polls_write (send_failed errno)) (write_queued buf w len))
              (follow (if b then none else some fails) c (Echo.async_write_some len)).request
      go true q =
          quiet-Represents buf (polls_write (send_failed errno)) c (write_queued buf w len)
            (verdict true q
              ∙ ap (λ l. record (write_queued buf w len) { wire = l }) (append-nil w.wire))
            (subst (Represents buf c (write_queued buf w len)) (sym e) (refl, wire, loaded))
      go false q =
          failed-Represents buf (polls_write (send_failed errno))
            (record c { request = Echo.close }) (write_queued buf w len) _ writing errno 0
            (verdict false q) refl refl (append-nil w.wire ∙ wire)
