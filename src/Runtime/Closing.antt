-- ===== src/Runtime/Closing.antt =====
-- What the virtual method `close` does to a `Runtime` (src/core/runtime.cpp, src/core/handle.cpp).
use spinet.Common.{
  ℕ, ◌≡◌, ◌≢◌, refl, sym, ap, subst, ◌∙◌, Bool, false, Option, none, some, List, [], ◌∷◌, ◌++◌, map,
  if◌then◌else◌, arith, if_cases, All, All-append,
}
use mathlib.Core.List.{append-nil, append_assoc}
use spinet.Memory.{Memory}
use spinet.Handle.{Handle, Effect, deregister, close_fd, watch, notify}
use spinet.Handle
use spinet.Socket.{Socket, World, Entry, refusal}
use spinet.Socket.Closing.{shut, close_lem}
use spinet.Runtime.Interface.{Containers}
use spinet.Runtime.Store.{Object, acceptor, socket, runtime_of, put}
use spinet.Runtime.{Runtime, perform, close_as, close_handle, deregister_handle}
use spinet.Runtime.Consistency.{
  Frame, IsConsistent, Frame-IsConsistent, deregister_handle-IsConsistent,
}

-- Effects that call no method of the runtime.
abbrev pub IsQuiet : Effect → Type 0
IsQuiet (deregister r) = ⊥
IsQuiet _ = Unit {0}

pub refusals-IsQuiet : (es : List Entry) → All IsQuiet (map refusal es)
refusals-IsQuiet [] = tt
refusals-IsQuiet ((task, d) ∷ es) = (tt, refusals-IsQuiet es)

-- The world after `TcpSocket::close`.
abbrev pub after_close : (spurious : Bool) → World → World
after_close spurious w = if w.socket.closed then w else if spurious then w else shut w

abbrev pub world_of : Memory → Socket → List ℕ → World
world_of m s wire = record { socket = s; memory = m; wire = wire; effects = [] }

-- The effects of `close` on a handle, after the call of `deregister_handle` that may stand first.
abbrev pub told_after : Socket → List Effect
told_after s = map refusal s.read_queue ++ map refusal s.write_queue

module _ (c : Containers) where
  pub perform-quiet :
      (p : ℕ) (es : List Effect) (rt : Runtime c)
      → All IsQuiet es
      → perform c p es rt ≡ record rt { effects = rt.effects ++ es }
  unfolding perform
  perform-quiet p [] rt q =
      ap (λ (x : List Effect). record rt { effects = x }) (sym (append-nil rt.effects))
  perform-quiet p (deregister r ∷ es) rt q = absurd q.0
  perform-quiet p (close_fd fd ∷ es) rt q =
      perform-quiet p es (record rt { effects = rt.effects ++ close_fd fd ∷ [] }) q.1
      ∙ ap (λ (x : List Effect). record rt { effects = x })
          (append_assoc rt.effects (close_fd fd ∷ []) es)
  perform-quiet p (watch ctl fd a events ∷ es) rt q =
      perform-quiet p es (record rt { effects = rt.effects ++ watch ctl fd a events ∷ [] }) q.1
      ∙ ap (λ (x : List Effect). record rt { effects = x })
          (append_assoc rt.effects (watch ctl fd a events ∷ []) es)
  perform-quiet p (notify callback result n ∷ es) rt q =
      perform-quiet p es (record rt { effects = rt.effects ++ notify callback result n ∷ [] }) q.1
      ∙ ap (λ (x : List Effect). record rt { effects = x })
          (append_assoc rt.effects (notify callback result n ∷ []) es)

  -- The runtime with a socket, and the memory, as a method of the socket leaves them.
  abbrev pub stored : ℕ → World → Runtime c → Runtime c
  stored p w rt = record rt {
    objects = put rt.objects p (socket w.socket w.wire);
    memory = w.memory;
  }

  pub close_as-socket :
      (spurious : Bool) (p : ℕ) (s : Socket) (wire : List ℕ) (rt : Runtime c)
      → let w = after_close spurious (world_of rt.memory s wire) in
        close_as c spurious p (socket s wire) rt ≡ perform c p w.effects (stored p w rt)
  unfolding close_as
  close_as-socket spurious p s wire rt = rw (close_lem spurious (world_of rt.memory s wire))

  pub stored-Frame :
      (p : ℕ) (w : World) (s : Socket) (wire : List ℕ) (rt : Runtime c)
      → rt.objects p ≡ socket s wire
      → w.socket.handle ≡ s.handle
      → Frame c rt (stored p w rt)
  stored-Frame p w s wire rt e h = record {
    same_self = refl;
    same_handles = λ k. refl;
    same_sockets = λ q. refl;
    same_locked = refl;
    same_stuck = refl;
    same_removable = refl;
    same_fd = λ q. ground arith;
    same_runtime = λ q. ground arith;
    same_kind = λ q. ground arith;
  }

  effects-Frame : (es : List Effect) (rt : Runtime c) → Frame c rt (record rt { effects = es })
  effects-Frame es rt = record {
    same_self = refl;
    same_handles = λ k. refl;
    same_sockets = λ q. refl;
    same_locked = refl;
    same_stuck = refl;
    same_removable = refl;
    same_fd = λ q. refl;
    same_runtime = λ q. refl;
    same_kind = λ q. refl;
  }

  -- A property of runtimes that does not depend on `effects` and that deregistering keeps is kept by
  -- what Handle::close does.
  module _ {ℓ} (P : Runtime c → Type ℓ) (p : ℕ)
      (quiet : (rt : Runtime c) (es : List Effect) → P rt → P (record rt { effects = es })) where
    perform-close :
        (h : Handle) (es : List Effect) (rt : Runtime c)
        → All IsQuiet es
        → (h.runtime ≢ none → P (deregister_handle c p rt))
        → (h.runtime ≡ none → P rt)
        → P (perform c p (Handle.close h ++ es) rt)
    unfolding Handle.close perform
    perform-close h es rt q linked alone = go h.runtime refl
      where
        go :
            (r : Option ℕ)
            → h.runtime ≡ r
            → P (perform c p (Handle.close (record h { runtime = r }) ++ es) rt)
        go none e =
            subst P (sym (perform-quiet p (close_fd h.fd ∷ es) rt (tt, q))) (quiet rt _ (alone e))
        go (some r) e =
            subst P (sym (perform-quiet p (close_fd h.fd ∷ es) (deregister_handle c p rt) (tt, q)))
              (quiet (deregister_handle c p rt) _ (linked λ n. cc))

    -- So it is kept by `close`, if storing the closed socket keeps it.
    pub close_as_cases :
        (spurious : Bool) (o : Object) (rt : Runtime c)
        → rt.objects p ≡ o
        → ((rt' : Runtime c) → Frame c rt rt' → P rt')
        → ((rt' : Runtime c)
            → Frame c rt rt'
            → runtime_of rt.objects p ≢ none
            → P (deregister_handle c p rt'))
        → P (close_as c spurious p o rt)
    unfolding close_as perform
    close_as_cases spurious (acceptor h) rt e kept dropped = rw (append-nil (Handle.close h)) at (
        perform-close h [] rt tt (λ n. dropped rt (effects-Frame rt.effects rt) (ground arith))
          (λ _. kept rt (effects-Frame rt.effects rt)))
    close_as_cases spurious (socket s wire) rt e kept dropped =
        subst P (sym (close_as-socket spurious p s wire rt)) (
          if_cases Q s.closed (λ _. as_was)
            (λ _. if_cases Q spurious (λ _. as_was) (λ _. shut_down)))
      where
        w : World
        w = world_of rt.memory s wire

        Q : World → Type ℓ
        Q v = P (perform c p v.effects (stored p v rt))

        as_was : Q w
        as_was = kept (stored p w rt) (stored-Frame p w s wire rt e refl)

        shut_down : Q (shut w)
        shut_down =
            perform-close s.handle (told_after s) (stored p (shut w) rt)
              (All-append IsQuiet _ _ (refusals-IsQuiet s.read_queue)
                (refusals-IsQuiet s.write_queue))
              (λ n.
                dropped (stored p (shut w) rt) (stored-Frame p (shut w) s wire rt e refl)
                  (ground arith))
              (λ _. kept (stored p (shut w) rt) (stored-Frame p (shut w) s wire rt e refl))

  -- Closing a handle keeps the registry consistent, whether or not it is registered, and whether or not
  -- the exchange of a socket's `close` fails.
  pub close_handle-IsConsistent :
      (spurious : Bool) (p : ℕ) (rt : Runtime c)
      → IsConsistent c rt
      → IsConsistent c (close_handle c spurious p rt)
  unfolding close_handle
  close_handle-IsConsistent spurious p rt inv =
      close_as_cases (IsConsistent c) p (λ rt' es i. Frame-IsConsistent c (effects-Frame es rt') i)
        spurious (rt.objects p) rt refl (λ rt' f. Frame-IsConsistent c f inv)
        (λ rt' f n. deregister_handle-IsConsistent c p rt' (Frame-IsConsistent c f inv))

  -- A handle that is linked to no runtime is closed without a call of one.
  pub close_handle-Frame :
      (spurious : Bool) (p : ℕ) (rt : Runtime c)
      → runtime_of rt.objects p ≡ none
      → Frame c rt (close_handle c spurious p rt)
  unfolding close_handle
  close_handle-Frame spurious p rt e =
      close_as_cases (Frame c rt) p (λ rt' es f. told rt' es f) spurious (rt.objects p) rt refl
        (λ rt' f. f) (λ rt' f n. absurd (n e))
    where
      told :
          (rt' : Runtime c) (es : List Effect)
          → Frame c rt rt'
          → Frame c rt (record rt' { effects = es })
      told rt' es f = record {
        same_self = f.same_self;
        same_handles = f.same_handles;
        same_sockets = f.same_sockets;
        same_locked = f.same_locked;
        same_stuck = f.same_stuck;
        same_removable = f.same_removable;
        same_fd = f.same_fd;
        same_runtime = f.same_runtime;
        same_kind = f.same_kind;
      }

  -- What closing an open socket that is linked to no runtime does outside.
  pub close_as-effects :
      (p : ℕ) (s : Socket) (wire : List ℕ) (rt : Runtime c)
      → s.closed ≡ false
      → s.handle.runtime ≡ none
      → (close_as c false p (socket s wire) rt).effects
        ≡ rt.effects ++ (close_fd s.handle.fd ∷ told_after s)
  unfolding Handle.close
  close_as-effects p s wire rt live alone =
      ap (λ (rt' : Runtime c). rt'.effects)
        (close_as-socket false p s wire rt
          ∙ ap (λ (v : World). perform c p v.effects (stored p v rt)) now_shut
          ∙ ap (λ (es : List Effect). perform c p (es ++ told_after s) (stored p (shut w) rt)) bare
          ∙ perform-quiet p (close_fd s.handle.fd ∷ told_after s) (stored p (shut w) rt) (
            tt,
            All-append IsQuiet _ _ (refusals-IsQuiet s.read_queue) (refusals-IsQuiet s.write_queue),
          ))
    where
      w : World
      w = world_of rt.memory s wire

      now_shut : after_close false w ≡ shut w
      now_shut = simp live

      bare : Handle.close s.handle ≡ close_fd s.handle.fd ∷ []
      bare = simp (alone, Handle.close)
